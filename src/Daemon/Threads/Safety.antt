-- ===== src/Daemon/Threads/Safety.antt =====
-- What the goroutines keep to: one of them at a time behind a lock, nothing served before the set-up
-- has succeeded, and how the process ends.
use ldap_manager.Base.{◌≡◌, ◌≢◌, ◌⊎◌, true, false, some, arith}
use ldap_manager.Directory.{Env}
use ldap_manager.Exec.{ok}
use ldap_manager.Manager.{Manager}
use ldap_manager.Daemon.{Library}
use ldap_manager.Daemon.Threads.{GrpcServe, HttpServe, Action, Signal, System, running, initial}
use ldap_manager.Daemon.Threads.Steps.{
  GrpcStep, HttpStep, ActionStep, SignalStep, Step, Steps, Reach,
}
use ldap_manager.Daemon.Threads.Invariant.{IsLibrary, grpc_owes, http_owes, IsControlled, IsOrdered}
use ldap_manager.Daemon.Threads.Invariant.Control.{
  Step-IsControlled, grpc_guard, http_guard, action_guard, signal_guard,
}
use ldap_manager.Daemon.Threads.Invariant.Readiness.{Step-IsOrdered}

module _ {lib : Library} {env : Env} where
  initial-IsControlled :
      (service : lib.Service) (directory : env.State)
      → IsControlled (initial lib env service directory)
  unfolding initial
  initial-IsControlled service directory = ground arith

  initial-IsOrdered :
      (service : lib.Service) (directory : env.State)
      → lib.healthy service ≡ false
      → IsOrdered (initial lib env service directory)
  unfolding initial
  initial-IsOrdered service directory h = ground (arith, h)

  -- How the process ends.
  abbrev pub IsEnded : System lib env → Type 0
  IsEnded t =
      (t.panicked ≡ true
        → ((t.signal ≡ Signal.calling_grpc) × (t.grpc_set ≡ false))
          ⊎ ((t.signal ≡ Signal.calling_http) × (t.http_set ≡ false)))
      × (t.action ≡ Action.done → t.count ≡ 0)

  module _ {m : Manager} where
    pub Steps-IsControlled :
        {s t : System lib env} → Steps lib env m s t → IsControlled s → IsControlled t
    Steps-IsControlled Steps.start c = c
    Steps-IsControlled (Steps.later r st) c = Step-IsControlled st (Steps-IsControlled r c)

    Steps-IsOrdered :
        {s t : System lib env}
        → IsLibrary lib
        → Steps lib env m s t
        → IsControlled s
        → IsOrdered s
        → IsOrdered t
    Steps-IsOrdered laws Steps.start c i = i
    Steps-IsOrdered laws (Steps.later r st) c i =
        Step-IsOrdered laws st (Steps-IsControlled r c) (Steps-IsOrdered laws r c i)

    -- In every state that the process comes to, at most one of `Serve`, the action's call of `Shutdown`
    -- and the signal's call of `Shutdown` is behind the lock of the gRPC server, which is locked
    -- exactly when one of them is there (a `Serve` that returned before `Unlock` counts); so too,
    -- without the action, for the HTTP server. The counter of the wait group is the number of the two
    -- `Serve` that were announced and have not returned. `grpcServer` is set, and its `Serve` started,
    -- exactly when both listeners were bound; `httpServer` is set, and its `Serve` started, exactly
    -- when the dialling has succeeded, and then the gRPC server is past its `Unlock`.
    pub Reach-IsControlled : (t : System lib env) → Reach lib env m t → IsControlled t
    Reach-IsControlled t (service, directory, h, r) =
        Steps-IsControlled r (initial-IsControlled service directory)

    pub Reach-IsOrdered : IsLibrary lib → (t : System lib env) → Reach lib env m t → IsOrdered t
    Reach-IsOrdered laws t (service, directory, h, r) =
        Steps-IsOrdered laws r (initial-IsControlled service directory)
          (initial-IsOrdered service directory h)

    -- Let the library behave as its names say. In every state that the process comes to, `Setup` has
    -- returned nil if the service is reported healthy, if the HTTP server was started, or if the gRPC
    -- server, behind `Connect`, accepts calls.
    pub Reach-IsReady :
        IsLibrary lib
        → (t : System lib env) → Reach lib env m t
        → (lib.healthy t.base.service ≡ true → t.base.set_up ≡ some (ok tt))
          × (t.http ≢ HttpServe.unstarted → t.base.set_up ≡ some (ok tt))
          × (t.grpc ≡ GrpcServe.serving
              → lib.accepts t.base.service ≡ true
              → t.base.set_up ≡ some (ok tt))
    Reach-IsReady laws t r =
        let c = Reach-IsControlled t r in
        let i = Reach-IsOrdered laws t r in
        (
          i.healthy_set_up,
          ground (arith, c.http_begun, i.launched_set_up),
          ground (arith, i.accepts_set_up),
        )

    GrpcStep-IsEnded :
        {s t : System lib env}
        → GrpcStep lib env m s t
        → running lib env s ≡ true
        → IsControlled s
        → IsEnded t
    GrpcStep-IsEnded (GrpcStep.lock p q) r c = ground (arith, r)
    GrpcStep-IsEnded st r c = ground (arith, grpc_guard st, c.counter)

    HttpStep-IsEnded :
        {s t : System lib env}
        → HttpStep lib env m s t
        → running lib env s ≡ true
        → IsControlled s
        → IsEnded t
    HttpStep-IsEnded (HttpStep.lock p q) r c = ground (arith, r)
    HttpStep-IsEnded st r c = ground (arith, http_guard st)

    ActionStep-IsEnded :
        {s t : System lib env} → ActionStep lib env m s t → running lib env s ≡ true → IsEnded t
    ActionStep-IsEnded (ActionStep.grpc_unbound p) r = ground (arith, r)
    ActionStep-IsEnded st r = ground (arith, action_guard st)

    SignalStep-IsEnded :
        {s t : System lib env} → SignalStep lib env m s t → running lib env s ≡ true → IsEnded t
    SignalStep-IsEnded (SignalStep.received p) r = ground (arith, r)
    SignalStep-IsEnded st r = ground (arith, signal_guard st)

    Step-IsEnded : {s t : System lib env} → Step lib env m s t → IsControlled s → IsEnded t
    Step-IsEnded (Step.by_grpc r st) c = GrpcStep-IsEnded st r c
    Step-IsEnded (Step.by_http r st) c = HttpStep-IsEnded st r c
    Step-IsEnded (Step.by_action r st) c = ActionStep-IsEnded st r
    Step-IsEnded (Step.by_signal r st) c = SignalStep-IsEnded st r

    Steps-IsEnded :
        (service : lib.Service) (directory : env.State) {t : System lib env}
        → Steps lib env m (initial lib env service directory) t
        → IsEnded t
    unfolding initial
    Steps-IsEnded service directory Steps.start = ground arith
    Steps-IsEnded service directory (Steps.later r st) =
        Step-IsEnded st (Steps-IsControlled r (initial-IsControlled service directory))

    -- The process panics only where a signal asks a server to shut down that was not made yet:
    -- `Done` never takes the counter below zero. The action returns nil only when both `Serve` have
    -- returned.
    pub Reach-IsEnded :
        (t : System lib env)
        → Reach lib env m t
        → (t.panicked ≡ true
            → ((t.signal ≡ Signal.calling_grpc) × (t.grpc_set ≡ false))
              ⊎ ((t.signal ≡ Signal.calling_http) × (t.http_set ≡ false)))
          × (t.action ≡ Action.done → (grpc_owes t.grpc ≡ 0) × (http_owes t.http ≡ 0))
    Reach-IsEnded t (service, directory, h, r) =
        let (crash, finish) = Steps-IsEnded service directory r in
        let c = Steps-IsControlled r (initial-IsControlled service directory) in
        (crash, ground (arith, finish, c.counter))
