-- ===== src/Daemon/Threads.antt =====
-- The goroutines of the process: `Serve` and `Shutdown` of cmd/ldap-manager/grpc/server.go and of
-- cmd/ldap-manager/http/server.go, and `main` of cmd/ldap-manager/server.go with its action and its
-- handler of signals, one step at a time.
pub mod Steps
pub mod Invariant
pub mod Safety
pub mod Stuck
pub mod Progress
use ldap_manager.Base.{
  ◌≡◌, ℕ, ◌+◌, ◌-◌, Bool, true, false, not, ◌&&◌, ◌||◌, Option, none, some, List, Bytes, ◌==◌,
}
use ldap_manager.Directory.{Env}
use ldap_manager.Error.{Error}
use ldap_manager.Exec.{Result, ok, err}
use ldap_manager.Manager.{Manager}
use ldap_manager.Server.{Authenticator}
use ldap_manager.Server.Rpc.{Rpc, call}
use ldap_manager.Daemon.{Library, BaseServer, Outcomes, Connection, unopened, shutdown, connect}

-- Where `Serve` of the gRPC server stands. From `bootstrapping` to the step from `registering` it is
-- between `SetupMux.Lock` and `SetupMux.Unlock`; at `returned_locked` it has returned in between.
pub data GrpcServe : Type 0 where
  unstarted locking bootstrapping connecting registering serving : GrpcServe
  closing returned returned_locked : GrpcServe

-- Where `Serve` of the HTTP server stands.
pub data HttpServe : Type 0 where
  unstarted locking registering publishing serving closing returned returned_locked : HttpServe

-- Where the action of the command `serve` stands. It is in `grpcServer.Shutdown` at `shutting` and,
-- behind the lock, at `stopping`. It returns an error at `unbound` and `undialled`, nil at `done`.
pub data Action : Type 0 where
  binding_grpc binding_http dialling shutting stopping waiting : Action
  unbound undialled done : Action

-- Where the goroutine that waits for a signal stands: before a call of `Shutdown`, or in it, behind
-- the lock.
pub data Signal : Type 0 where
  awaiting calling_grpc stopping_grpc calling_http stopping_http done : Signal

module _ (lib : Library) (env : Env) where
  pub record System : Type 0 where
    pub base : BaseServer lib env
    -- The two `SetupMux`.
    pub grpc_locked : Bool
    pub http_locked : Bool
    -- Whether the variables `grpcServer` and `httpServer` are set.
    pub grpc_set : Bool
    pub http_set : Bool
    -- Whether the listeners and the connection of the gateway are open.
    pub grpc_listener : Bool
    pub http_listener : Bool
    pub upstream : Bool
    -- The counter of the wait group.
    pub count : ℕ
    -- Whether a goroutine has panicked.
    pub panicked : Bool
    pub grpc : GrpcServe
    pub http : HttpServe
    pub action : Action
    pub signal : Signal

  abbrev pub with_service : System → lib.Service → System
  with_service s service = let b = s.base in record s { base = record b { service = service } }

  -- `wg.Done`, which panics below zero.
  abbrev pub wg_done : System → System
  wg_done s = record s { count = s.count - 1; panicked = s.panicked || s.count == 0 }

  -- `Shutdown` of the gRPC server, behind its lock.
  abbrev pub grpc_shutdown : System → System
  grpc_shutdown s = record s { base = shutdown lib env s.base }

  -- `Shutdown` of the HTTP server, behind its lock.
  abbrev pub http_shutdown : System → System
  http_shutdown s = record s { upstream = false; http_listener = false }

  -- The process runs until the action returns or a goroutine panics.
  abbrev pub has_returned : Action → Bool
  has_returned unbound = true
  has_returned undialled = true
  has_returned done = true
  has_returned _ = false

  abbrev pub running : System → Bool
  running s = not (has_returned s.action) && not s.panicked

  -- The service before `Serve`: nothing is set up, no server is set.
  unfoldable pub initial : lib.Service → env.State → System
  initial service directory = record {
    base = record {
      service = service;
      connection = unopened;
      directory = directory;
      set_up = none;
    };
    grpc_locked = false;
    http_locked = false;
    grpc_set = false;
    http_set = false;
    grpc_listener = false;
    http_listener = false;
    upstream = false;
    count = 0;
    panicked = false;
    grpc = GrpcServe.unstarted;
    http = HttpServe.unstarted;
    action = binding_grpc;
    signal = awaiting;
  }
