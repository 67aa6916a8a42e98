-- ===== src/Daemon/Threads/Invariant/Defs.antt =====
-- What holds in every state that the process comes to.
use ldap_manager.Base.{◌≡◌, ℕ, ◌+◌, Bool, true, false, none, some, if◌then◌else◌}
use ldap_manager.Directory.{Env}
use ldap_manager.Exec.{ok}
use ldap_manager.Daemon.{Library}
use ldap_manager.Daemon.Threads.{GrpcServe, HttpServe, Action, Signal, System}

-- How `Service` behaves: `SetHealthy` sets the field that is read, nothing else makes a service
-- healthy, and a server that was stopped stays stopped.
pub record IsLibrary (lib : Library) : Type 0 where
  pub healthy-set_healthy : (b : Bool) (s : lib.Service) → lib.healthy (lib.set_healthy b s) ≡ b
  pub healthy-bootstrap_grpc :
      (s : lib.Service) → lib.healthy (lib.bootstrap_grpc s).1 ≡ lib.healthy s
  pub healthy-register : (s : lib.Service) → lib.healthy (lib.register s) ≡ lib.healthy s
  pub healthy-set_http_server :
      (s : lib.Service) → lib.healthy (lib.set_http_server s) ≡ lib.healthy s
  pub healthy-graceful_stop :
      (s : lib.Service) → lib.healthy s ≡ false → lib.healthy (lib.graceful_stop s) ≡ false
  pub accepts-graceful_stop : (s : lib.Service) → lib.accepts (lib.graceful_stop s) ≡ false
  pub accepts-register :
      (s : lib.Service) → lib.accepts s ≡ false → lib.accepts (lib.register s) ≡ false

-- Who is between `Lock` and `Unlock`: of the gRPC server's mutex, and of the HTTP server's.
abbrev pub grpc_inside : GrpcServe → ℕ
grpc_inside GrpcServe.bootstrapping = 1
grpc_inside GrpcServe.connecting = 1
grpc_inside GrpcServe.registering = 1
grpc_inside GrpcServe.returned_locked = 1
grpc_inside _ = 0

abbrev pub action_inside : Action → ℕ
action_inside Action.stopping = 1
action_inside _ = 0

abbrev pub signal_inside : Signal → ℕ
signal_inside Signal.stopping_grpc = 1
signal_inside _ = 0

abbrev pub http_inside : HttpServe → ℕ
http_inside HttpServe.registering = 1
http_inside HttpServe.publishing = 1
http_inside HttpServe.returned_locked = 1
http_inside _ = 0

abbrev pub signal_inside_http : Signal → ℕ
signal_inside_http Signal.stopping_http = 1
signal_inside_http _ = 0

-- What a goroutine has still to take off the counter of the wait group.
abbrev pub grpc_owes : GrpcServe → ℕ
grpc_owes GrpcServe.unstarted = 0
grpc_owes GrpcServe.returned = 0
grpc_owes GrpcServe.returned_locked = 0
grpc_owes _ = 1

abbrev pub http_owes : HttpServe → ℕ
http_owes HttpServe.returned = 0
http_owes HttpServe.returned_locked = 0
http_owes _ = 1

-- Whether `Serve` was started: of the gRPC server, and of the HTTP server.
abbrev pub begun : Action → Bool
begun Action.binding_grpc = false
begun Action.binding_http = false
begun Action.unbound = false
begun _ = true

abbrev pub launched : Action → Bool
launched Action.waiting = true
launched Action.done = true
launched _ = false

abbrev pub grpc_started : GrpcServe → Bool
grpc_started GrpcServe.unstarted = false
grpc_started _ = true

abbrev pub http_started : HttpServe → Bool
http_started HttpServe.unstarted = false
http_started _ = true

-- `Connect` has not been called.
abbrev pub unconnected : GrpcServe → Bool
unconnected GrpcServe.unstarted = true
unconnected GrpcServe.locking = true
unconnected GrpcServe.bootstrapping = true
unconnected GrpcServe.connecting = true
unconnected GrpcServe.returned_locked = true
unconnected _ = false

-- The gRPC server is past `SetupMux.Unlock`.
abbrev pub grpc_past : GrpcServe → Bool
grpc_past GrpcServe.serving = true
grpc_past GrpcServe.closing = true
grpc_past GrpcServe.returned = true
grpc_past _ = false

abbrev pub locks : Bool → ℕ
locks true = 1
locks false = 0

module _ {lib : Library} {env : Env} where
  -- The mutexes, the wait group and the variables agree with where the goroutines stand.
  pub record IsControlled (s : System lib env) : Type 0 where
    pub grpc_lock :
        grpc_inside s.grpc + action_inside s.action + signal_inside s.signal ≡ locks s.grpc_locked
    pub http_lock : http_inside s.http + signal_inside_http s.signal ≡ locks s.http_locked
    pub counter : s.count ≡ grpc_owes s.grpc + (if begun s.action then http_owes s.http else 0)
    pub grpc_set_iff : s.grpc_set ≡ begun s.action
    pub grpc_begun : grpc_started s.grpc ≡ begun s.action
    pub http_set_iff : s.http_set ≡ launched s.action
    pub http_begun : http_started s.http ≡ launched s.action
    pub launched_past : launched s.action ≡ true → grpc_past s.grpc ≡ true

  -- What was done before depends on what `Setup` returned.
  pub record IsOrdered (s : System lib env) : Type 0 where
    pub fresh : unconnected s.grpc ≡ true → s.base.set_up ≡ none
    pub launched_set_up : launched s.action ≡ true → s.base.set_up ≡ some (ok tt)
    pub healthy_set_up : lib.healthy s.base.service ≡ true → s.base.set_up ≡ some (ok tt)
    pub accepts_set_up :
        unconnected s.grpc ≡ false
        → lib.accepts s.base.service ≡ true
        → s.base.set_up ≡ some (ok tt)
