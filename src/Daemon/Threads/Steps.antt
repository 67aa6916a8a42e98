-- ===== src/Daemon/Threads/Steps.antt =====
-- One step of each goroutine, and the runs of the process. A step between `Lock` and `Unlock` may hold
-- several statements, since no other goroutine reads or writes in between what they write.
use ldap_manager.Base.{◌≡◌, ◌+◌, true, false, Option, List, Bytes}
use ldap_manager.Directory.{Env}
use ldap_manager.Error.{Error}
use ldap_manager.Exec.{ok, err}
use ldap_manager.Manager.{Manager}
use ldap_manager.Server.{Authenticator}
use ldap_manager.Server.Rpc.{Rpc, call}
use ldap_manager.Daemon.{Library, Outcomes, connect}
use ldap_manager.Daemon.Threads.{
  GrpcServe, HttpServe, Action, Signal, System, with_service, wg_done, grpc_shutdown, http_shutdown,
  running, initial,
}

module _ (lib : Library) (env : Env) (m : Manager) where
  -- `Serve` of the gRPC server. `ServeGrpc` returns at any time, with or without an error; before, it
  -- handles calls if the server was not stopped.
  pub data GrpcStep (s : System lib env) : System lib env → Type 0 where
    lock :
        s.grpc ≡ GrpcServe.locking
        → s.grpc_locked ≡ false
        → GrpcStep s (record s { grpc = GrpcServe.bootstrapping; grpc_locked = true })
    bootstrap_failed :
        {service : lib.Service} {e : Error}
        → s.grpc ≡ GrpcServe.bootstrapping
        → lib.bootstrap_grpc s.base.service ≡ (err e, service)
        → GrpcStep s (
            wg_done lib env
              (record (with_service lib env s service) { grpc = GrpcServe.returned_locked }))
    bootstrapped :
        {service : lib.Service}
        → s.grpc ≡ GrpcServe.bootstrapping
        → lib.bootstrap_grpc s.base.service ≡ (ok tt, service)
        → GrpcStep s (record (with_service lib env s service) { grpc = GrpcServe.connecting })
    connected :
        (o : Outcomes)
        → s.grpc ≡ GrpcServe.connecting
        → GrpcStep s (record s { base = connect lib env m o s.base; grpc = GrpcServe.registering })
    registered :
        s.grpc ≡ GrpcServe.registering
        → GrpcStep s (record (with_service lib env s (lib.register s.base.service)) {
          grpc = GrpcServe.serving;
          grpc_locked = false;
        })
    handled :
        (authenticator : Authenticator) (tokens : Option (List Bytes)) (rpc : Rpc)
        → s.grpc ≡ GrpcServe.serving
        → lib.accepts s.base.service ≡ true
        → GrpcStep s (
            let b = s.base in
            record s {
              base = record b { directory = (call env m authenticator tokens rpc b.directory).1 };
            })
    served : s.grpc ≡ GrpcServe.serving → GrpcStep s (record s { grpc = GrpcServe.closing })
    serve_failed :
        s.grpc ≡ GrpcServe.serving
        → GrpcStep s (wg_done lib env (record s { grpc = GrpcServe.returned }))
    closed :
        s.grpc ≡ GrpcServe.closing
        → GrpcStep s
            (wg_done lib env (record s { grpc = GrpcServe.returned; grpc_listener = false }))

  -- `Serve` of the HTTP server; the routes of `bootstrapHTTP` read the shared state at each request.
  pub data HttpStep (s : System lib env) : System lib env → Type 0 where
    lock :
        s.http ≡ HttpServe.locking
        → s.http_locked ≡ false
        → HttpStep s (record s { http = HttpServe.registering; http_locked = true })
    -- `RegisterLDAPManagerHandler` fails or not.
    register_failed :
        s.http ≡ HttpServe.registering
        → HttpStep s (
            wg_done lib env (record (with_service lib env s (lib.set_http_server s.base.service)) {
              http = HttpServe.returned_locked;
            }))
    registered :
        s.http ≡ HttpServe.registering
        → HttpStep s (record (with_service lib env s (lib.set_http_server s.base.service)) {
          http = HttpServe.publishing;
        })
    published :
        s.http ≡ HttpServe.publishing
        → HttpStep s
            (record (with_service lib env s (lib.set_healthy true (lib.set_ready s.base.service))) {
              http = HttpServe.serving;
              http_locked = false;
            })
    served : s.http ≡ HttpServe.serving → HttpStep s (record s { http = HttpServe.closing })
    serve_failed :
        s.http ≡ HttpServe.serving
        → HttpStep s (wg_done lib env (record s { http = HttpServe.returned }))
    closed :
        s.http ≡ HttpServe.closing
        → HttpStep s
            (wg_done lib env (record s { http = HttpServe.returned; http_listener = false }))

  -- The action of the command `serve`. `DialContext` with `WithBlock` returns a connection only when
  -- it is established: the gRPC server is being served and was not stopped.
  pub data ActionStep (s : System lib env) : System lib env → Type 0 where
    grpc_unbound :
        s.action ≡ Action.binding_grpc → ActionStep s (record s { action = Action.unbound })
    grpc_bound :
        s.action ≡ Action.binding_grpc
        → ActionStep s (record s { action = Action.binding_http; grpc_listener = true })
    http_unbound :
        s.action ≡ Action.binding_http → ActionStep s (record s { action = Action.unbound })
    http_bound :
        s.action ≡ Action.binding_http
        → ActionStep s (record s {
          action = Action.dialling;
          http_listener = true;
          count = s.count + 2;
          grpc_set = true;
          grpc = GrpcServe.locking;
        })
    dial_failed : s.action ≡ Action.dialling → ActionStep s (record s { action = Action.shutting })
    dialled :
        s.action ≡ Action.dialling
        → s.grpc ≡ GrpcServe.serving
        → lib.accepts s.base.service ≡ true
        → ActionStep s (record s {
          action = Action.waiting;
          upstream = true;
          http_set = true;
          http = HttpServe.locking;
        })
    lock :
        s.action ≡ Action.shutting
        → s.grpc_locked ≡ false
        → ActionStep s (record s { action = Action.stopping; grpc_locked = true })
    stopped :
        s.action ≡ Action.stopping
        → ActionStep s
            (record (grpc_shutdown lib env s) { action = Action.undialled; grpc_locked = false })
    waited :
        s.action ≡ Action.waiting → s.count ≡ 0 → ActionStep s (record s { action = Action.done })

  -- The goroutine that waits for a signal. A call of a nil interface panics.
  pub data SignalStep (s : System lib env) : System lib env → Type 0 where
    received : s.signal ≡ Signal.awaiting → SignalStep s (record s { signal = Signal.calling_grpc })
    grpc_nil :
        s.signal ≡ Signal.calling_grpc
        → s.grpc_set ≡ false
        → SignalStep s (record s { panicked = true })
    lock_grpc :
        s.signal ≡ Signal.calling_grpc
        → s.grpc_set ≡ true
        → s.grpc_locked ≡ false
        → SignalStep s (record s { signal = Signal.stopping_grpc; grpc_locked = true })
    stopped_grpc :
        s.signal ≡ Signal.stopping_grpc
        → SignalStep s
            (record (grpc_shutdown lib env s) { signal = Signal.calling_http; grpc_locked = false })
    http_nil :
        s.signal ≡ Signal.calling_http
        → s.http_set ≡ false
        → SignalStep s (record s { panicked = true })
    lock_http :
        s.signal ≡ Signal.calling_http
        → s.http_set ≡ true
        → s.http_locked ≡ false
        → SignalStep s (record s { signal = Signal.stopping_http; http_locked = true })
    stopped_http :
        s.signal ≡ Signal.stopping_http
        → SignalStep s
            (record (http_shutdown lib env s) { signal = Signal.done; http_locked = false })

  pub data Step (s : System lib env) : System lib env → Type 0 where
    by_grpc : {t : System lib env} → running lib env s ≡ true → GrpcStep s t → Step s t
    by_http : {t : System lib env} → running lib env s ≡ true → HttpStep s t → Step s t
    by_action : {t : System lib env} → running lib env s ≡ true → ActionStep s t → Step s t
    by_signal : {t : System lib env} → running lib env s ≡ true → SignalStep s t → Step s t

  -- What the process comes to from a state.
  pub data Steps (s : System lib env) : System lib env → Type 0 where
    start : Steps s s
    later : {t u : System lib env} → Steps s t → Step t u → Steps s u

  -- What it comes to from its start.
  abbrev pub Reach : System lib env → Type 0
  Reach t =
      (service : lib.Service) × (directory : env.State) × (lib.healthy service ≡ false)
      × Steps (initial lib env service directory) t
