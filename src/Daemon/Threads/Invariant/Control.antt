-- ===== src/Daemon/Threads/Invariant/Control.antt =====
-- Every step keeps `IsControlled`.
use ldap_manager.Base.{◌≡◌, true, false, arith}
use ldap_manager.Directory.{Env}
use ldap_manager.Manager.{Manager}
use ldap_manager.Daemon.{Library}
use ldap_manager.Daemon.Threads.{GrpcServe, HttpServe, Action, Signal, System}
use ldap_manager.Daemon.Threads.Steps.{GrpcStep, HttpStep, ActionStep, SignalStep, Step}
use ldap_manager.Daemon.Threads.Invariant.Defs.{IsControlled}

module _ {lib : Library} {env : Env} {m : Manager} where
  -- The premises of a step about its goroutine and its lock.
  abbrev pub GrpcGuard : {s t : System lib env} → GrpcStep lib env m s t → Type 0
  GrpcGuard {s} (GrpcStep.lock p q) = (s.grpc ≡ GrpcServe.locking) × (s.grpc_locked ≡ false)
  GrpcGuard {s} (GrpcStep.bootstrap_failed p q) = s.grpc ≡ GrpcServe.bootstrapping
  GrpcGuard {s} (GrpcStep.bootstrapped p q) = s.grpc ≡ GrpcServe.bootstrapping
  GrpcGuard {s} (GrpcStep.connected o p) = s.grpc ≡ GrpcServe.connecting
  GrpcGuard {s} (GrpcStep.registered p) = s.grpc ≡ GrpcServe.registering
  GrpcGuard {s} (GrpcStep.closed p) = s.grpc ≡ GrpcServe.closing
  GrpcGuard {s} _ = s.grpc ≡ GrpcServe.serving

  pub grpc_guard : {s t : System lib env} (st : GrpcStep lib env m s t) → GrpcGuard st
  grpc_guard (GrpcStep.lock p q) = (p, q)
  grpc_guard (GrpcStep.bootstrap_failed p q) = p
  grpc_guard (GrpcStep.bootstrapped p q) = p
  grpc_guard (GrpcStep.connected o p) = p
  grpc_guard (GrpcStep.registered p) = p
  grpc_guard (GrpcStep.closed p) = p
  grpc_guard (GrpcStep.handled a k r p q) = p
  grpc_guard (GrpcStep.served p) = p
  grpc_guard (GrpcStep.serve_failed p) = p

  GrpcStep-IsControlled :
      {s t : System lib env} → GrpcStep lib env m s t → IsControlled s → IsControlled t
  GrpcStep-IsControlled (GrpcStep.lock p q) c = ground (arith, p, q)
  GrpcStep-IsControlled st c = ground (arith, grpc_guard st)

  abbrev pub HttpGuard : {s t : System lib env} → HttpStep lib env m s t → Type 0
  HttpGuard {s} (HttpStep.lock p q) = (s.http ≡ HttpServe.locking) × (s.http_locked ≡ false)
  HttpGuard {s} (HttpStep.register_failed p) = s.http ≡ HttpServe.registering
  HttpGuard {s} (HttpStep.registered p) = s.http ≡ HttpServe.registering
  HttpGuard {s} (HttpStep.published p) = s.http ≡ HttpServe.publishing
  HttpGuard {s} (HttpStep.closed p) = s.http ≡ HttpServe.closing
  HttpGuard {s} _ = s.http ≡ HttpServe.serving

  pub http_guard : {s t : System lib env} (st : HttpStep lib env m s t) → HttpGuard st
  http_guard (HttpStep.lock p q) = (p, q)
  http_guard (HttpStep.register_failed p) = p
  http_guard (HttpStep.registered p) = p
  http_guard (HttpStep.published p) = p
  http_guard (HttpStep.closed p) = p
  http_guard (HttpStep.served p) = p
  http_guard (HttpStep.serve_failed p) = p

  HttpStep-IsControlled :
      {s t : System lib env} → HttpStep lib env m s t → IsControlled s → IsControlled t
  HttpStep-IsControlled (HttpStep.lock p q) c = ground (arith, p, q)
  HttpStep-IsControlled st c = ground (arith, http_guard st)

  abbrev pub ActionGuard : {s t : System lib env} → ActionStep lib env m s t → Type 0
  ActionGuard {s} (ActionStep.grpc_unbound p) = s.action ≡ Action.binding_grpc
  ActionGuard {s} (ActionStep.grpc_bound p) = s.action ≡ Action.binding_grpc
  ActionGuard {s} (ActionStep.http_unbound p) = s.action ≡ Action.binding_http
  ActionGuard {s} (ActionStep.http_bound p) = s.action ≡ Action.binding_http
  ActionGuard {s} (ActionStep.dial_failed p) = s.action ≡ Action.dialling
  ActionGuard {s} (ActionStep.dialled p q r) =
      (s.action ≡ Action.dialling) × (s.grpc ≡ GrpcServe.serving)
  ActionGuard {s} (ActionStep.lock p q) = (s.action ≡ Action.shutting) × (s.grpc_locked ≡ false)
  ActionGuard {s} (ActionStep.stopped p) = s.action ≡ Action.stopping
  ActionGuard {s} (ActionStep.waited p q) = (s.action ≡ Action.waiting) × (s.count ≡ 0)

  pub action_guard : {s t : System lib env} (st : ActionStep lib env m s t) → ActionGuard st
  action_guard (ActionStep.grpc_unbound p) = p
  action_guard (ActionStep.grpc_bound p) = p
  action_guard (ActionStep.http_unbound p) = p
  action_guard (ActionStep.http_bound p) = p
  action_guard (ActionStep.dial_failed p) = p
  action_guard (ActionStep.dialled p q r) = (p, q)
  action_guard (ActionStep.lock p q) = (p, q)
  action_guard (ActionStep.stopped p) = p
  action_guard (ActionStep.waited p q) = (p, q)

  ActionStep-IsControlled :
      {s t : System lib env} → ActionStep lib env m s t → IsControlled s → IsControlled t
  ActionStep-IsControlled (ActionStep.lock p q) c = ground (arith, p, q)
  ActionStep-IsControlled st c = ground (arith, action_guard st)

  abbrev pub SignalGuard : {s t : System lib env} → SignalStep lib env m s t → Type 0
  SignalGuard {s} (SignalStep.received p) = s.signal ≡ Signal.awaiting
  SignalGuard {s} (SignalStep.grpc_nil p q) =
      (s.signal ≡ Signal.calling_grpc) × (s.grpc_set ≡ false)
  SignalGuard {s} (SignalStep.lock_grpc p q r) =
      (s.signal ≡ Signal.calling_grpc) × (s.grpc_set ≡ true) × (s.grpc_locked ≡ false)
  SignalGuard {s} (SignalStep.stopped_grpc p) = s.signal ≡ Signal.stopping_grpc
  SignalGuard {s} (SignalStep.http_nil p q) =
      (s.signal ≡ Signal.calling_http) × (s.http_set ≡ false)
  SignalGuard {s} (SignalStep.lock_http p q r) =
      (s.signal ≡ Signal.calling_http) × (s.http_set ≡ true) × (s.http_locked ≡ false)
  SignalGuard {s} (SignalStep.stopped_http p) = s.signal ≡ Signal.stopping_http

  pub signal_guard : {s t : System lib env} (st : SignalStep lib env m s t) → SignalGuard st
  signal_guard (SignalStep.received p) = p
  signal_guard (SignalStep.grpc_nil p q) = (p, q)
  signal_guard (SignalStep.lock_grpc p q r) = (p, q, r)
  signal_guard (SignalStep.stopped_grpc p) = p
  signal_guard (SignalStep.http_nil p q) = (p, q)
  signal_guard (SignalStep.lock_http p q r) = (p, q, r)
  signal_guard (SignalStep.stopped_http p) = p

  SignalStep-IsControlled :
      {s t : System lib env} → SignalStep lib env m s t → IsControlled s → IsControlled t
  SignalStep-IsControlled (SignalStep.received p) c = ground (arith, p)
  SignalStep-IsControlled st c = ground (arith, signal_guard st)

  pub Step-IsControlled :
      {s t : System lib env} → Step lib env m s t → IsControlled s → IsControlled t
  Step-IsControlled (Step.by_grpc r st) c = GrpcStep-IsControlled st c
  Step-IsControlled (Step.by_http r st) c = HttpStep-IsControlled st c
  Step-IsControlled (Step.by_action r st) c = ActionStep-IsControlled st c
  Step-IsControlled (Step.by_signal r st) c = SignalStep-IsControlled st c
