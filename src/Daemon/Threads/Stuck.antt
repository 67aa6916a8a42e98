-- ===== src/Daemon/Threads/Stuck.antt =====
-- A bootstrap of the gRPC server that fails: `Serve` returns before `SetupMux.Unlock`.
use ldap_manager.Base.{◌≡◌, ◌⊎◌, true, false, arith}
use ldap_manager.Directory.{Env}
use ldap_manager.Manager.{Manager}
use ldap_manager.Daemon.{Library, BaseServer}
use ldap_manager.Daemon.Threads.{GrpcServe, HttpServe, Action, Signal, System, running}
use ldap_manager.Daemon.Threads.Steps.{
  GrpcStep, HttpStep, ActionStep, SignalStep, Step, Steps, Reach,
}
use ldap_manager.Daemon.Threads.Invariant.{IsControlled}
use ldap_manager.Daemon.Threads.Invariant.Control.{
  grpc_guard, http_guard, action_guard, signal_guard,
}
use ldap_manager.Daemon.Threads.Safety.{Reach-IsControlled}

-- No shutdown has begun.
abbrev pub IsWaiting : Signal → Type 0
IsWaiting signal = (signal ≡ Signal.awaiting) ⊎ (signal ≡ Signal.calling_grpc)

module _ {lib : Library} {env : Env} where
  record IsStuck (base : BaseServer lib env) (t : System lib env) : Type 0 where
    same : t.base ≡ base
    grpc_returned : t.grpc ≡ GrpcServe.returned_locked
    grpc_locked : t.grpc_locked ≡ true
    grpc_set : t.grpc_set ≡ true
    http_unstarted : t.http ≡ HttpServe.unstarted
    panicked : t.panicked ≡ false
    waiting : IsWaiting t.signal
    acting : (t.action ≡ Action.dialling) ⊎ (t.action ≡ Action.shutting)

  stuck-running :
      {b : BaseServer lib env} {t : System lib env} → IsStuck b t → running lib env t ≡ true
  stuck-running k = ground (arith, k.acting, k.panicked)

  controlled-IsStuck :
      (s : System lib env)
      → IsControlled s
      → s.grpc ≡ GrpcServe.returned_locked
      → running lib env s ≡ true
      → IsWaiting s.signal
      → IsStuck s.base s
  controlled-IsStuck s c g r w = ground arith

  module _ {m : Manager} where
    Step-IsStuck :
        {b : BaseServer lib env} {s t : System lib env}
        → Step lib env m s t
        → IsStuck b s
        → IsStuck b t
    Step-IsStuck (Step.by_grpc r (GrpcStep.lock p q)) k = ground (arith, p, k.grpc_returned)
    Step-IsStuck (Step.by_grpc r st) k = absurd (ground (arith, grpc_guard st))
    Step-IsStuck (Step.by_http r (HttpStep.lock p q)) k = ground (arith, p, k.http_unstarted)
    Step-IsStuck (Step.by_http r st) k = absurd (ground (arith, http_guard st))
    Step-IsStuck (Step.by_action r (ActionStep.lock p q)) k = ground (arith, p, q)
    Step-IsStuck (Step.by_action r st) k = ground (arith, action_guard st)
    Step-IsStuck (Step.by_signal r (SignalStep.received p)) k = ground (arith, p)
    Step-IsStuck (Step.by_signal r st) k = ground (arith, signal_guard st)

    Steps-IsStuck :
        {b : BaseServer lib env} {s t : System lib env}
        → Steps lib env m s t
        → IsStuck b s
        → IsStuck b t
    Steps-IsStuck Steps.start k = k
    Steps-IsStuck (Steps.later r st) k = Step-IsStuck st (Steps-IsStuck r k)

    -- If the bootstrap of the gRPC server failed while no shutdown had begun, then whatever happens
    -- from there, the process goes on running, the base server stays as it is, and no `Shutdown` that
    -- a signal asks for ever gets the lock.
    pub Steps-running :
        (s : System lib env)
        → Reach lib env m s
        → s.grpc ≡ GrpcServe.returned_locked
        → running lib env s ≡ true
        → IsWaiting s.signal
        → (t : System lib env) → Steps lib env m s t
        → (running lib env t ≡ true) × (t.base ≡ s.base) × IsWaiting t.signal
    Steps-running s reach g r w t st =
        let k = Steps-IsStuck st (controlled-IsStuck s (Reach-IsControlled s reach) g r w) in
        (stuck-running k, k.same, k.waiting)
