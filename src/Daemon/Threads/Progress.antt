-- ===== src/Daemon/Threads/Progress.antt =====
-- A shutdown that a signal asks for, once the process serves.
use ldap_manager.Base.{◌≡◌, ◌≢◌, ◌⊎◌, inl, inr, true, false, refl, arith}
use ldap_manager.Directory.{Env}
use ldap_manager.Manager.{Manager}
use ldap_manager.Daemon.{Library}
use ldap_manager.Daemon.Threads.{HttpServe, Signal, System, running}
use ldap_manager.Daemon.Threads.Steps.{HttpStep, SignalStep, Step, Steps, Reach}
use ldap_manager.Daemon.Threads.Invariant.{IsControlled}
use ldap_manager.Daemon.Threads.Invariant.Control.{Step-IsControlled}
use ldap_manager.Daemon.Threads.Safety.{Reach-IsControlled}

module _ {lib : Library} {env : Env} where
  -- Where the lock of the HTTP server is held, its `Serve` holds it.
  http-cases :
      (s : System lib env)
      → IsControlled s
      → s.signal ≡ Signal.calling_http
      → s.http ≢ HttpServe.returned_locked
      → (s.http_locked ≡ false)
        ⊎ ((s.http ≡ HttpServe.publishing) ⊎ (s.http ≡ HttpServe.registering))
  http-cases s c e n = ground arith

module _ {lib : Library} {env : Env} (m : Manager) where
  Steps-trans :
      {s t u : System lib env} → Steps lib env m s t → Steps lib env m t u → Steps lib env m s u
  Steps-trans r Steps.start = r
  Steps-trans r (Steps.later q st) = Steps.later (Steps-trans r q) st

  -- The signal's goroutine may come to its end.
  abbrev CanStop : System lib env → Type 0
  CanStop s = (t : System lib env) × Steps lib env m s t × (t.signal ≡ Signal.done)

  behind : {s t : System lib env} → Step lib env m s t → CanStop t → CanStop s
  behind st (u, r, e) = (u, Steps-trans (Steps.later Steps.start st) r, e)

  stop_unlocked :
      (s : System lib env)
      → running lib env s ≡ true
      → s.http_set ≡ true
      → s.signal ≡ Signal.calling_http
      → s.http_locked ≡ false
      → CanStop s
  stop_unlocked s run set e free =
      behind (Step.by_signal run (SignalStep.lock_http e set free))
        (behind (Step.by_signal run (SignalStep.stopped_http refl)) (_, Steps.start, refl))

  stop_publishing :
      (s : System lib env)
      → running lib env s ≡ true
      → s.http_set ≡ true
      → s.signal ≡ Signal.calling_http
      → s.http ≡ HttpServe.publishing
      → CanStop s
  stop_publishing s run set e p =
      behind (Step.by_http run (HttpStep.published p)) (stop_unlocked _ run set e refl)

  stop_registering :
      (s : System lib env)
      → running lib env s ≡ true
      → s.http_set ≡ true
      → s.signal ≡ Signal.calling_http
      → s.http ≡ HttpServe.registering
      → CanStop s
  stop_registering s run set e p =
      behind (Step.by_http run (HttpStep.registered p)) (stop_publishing _ run set e refl)

  stop_calling_http :
      (s : System lib env)
      → IsControlled s
      → running lib env s ≡ true
      → s.http_set ≡ true
      → s.http ≢ HttpServe.returned_locked
      → s.signal ≡ Signal.calling_http
      → CanStop s
  stop_calling_http s c run set n e = elim (http-cases s c e n) [
    | inl free ↦ stop_unlocked s run set e free
    | inr (inl p) ↦ stop_publishing s run set e p
    | inr (inr p) ↦ stop_registering s run set e p
  ]

  stop_stopping_grpc :
      (s : System lib env)
      → IsControlled s
      → running lib env s ≡ true
      → s.http_set ≡ true
      → s.http ≢ HttpServe.returned_locked
      → s.signal ≡ Signal.stopping_grpc
      → CanStop s
  stop_stopping_grpc s c run set n e =
      let st = Step.by_signal run (SignalStep.stopped_grpc e) in
      behind st (stop_calling_http _ (Step-IsControlled st c) run set n refl)

  stop_calling_grpc :
      (s : System lib env)
      → IsControlled s
      → running lib env s ≡ true
      → s.http_set ≡ true
      → s.http ≢ HttpServe.returned_locked
      → s.signal ≡ Signal.calling_grpc
      → CanStop s
  stop_calling_grpc s c run set n e =
      let st = Step.by_signal run (SignalStep.lock_grpc e (ground arith) (ground arith)) in
      behind st (stop_stopping_grpc _ (Step-IsControlled st c) run set n refl)

  stop :
      (s : System lib env) (signal : Signal)
      → s.signal ≡ signal
      → IsControlled s
      → running lib env s ≡ true
      → s.http_set ≡ true
      → s.http ≢ HttpServe.returned_locked
      → CanStop s
  stop s Signal.awaiting e c run set n =
      let st = Step.by_signal run (SignalStep.received e) in
      behind st (stop_calling_grpc _ (Step-IsControlled st c) run set n refl)
  stop s Signal.calling_grpc e c run set n = stop_calling_grpc s c run set n e
  stop s Signal.stopping_grpc e c run set n = stop_stopping_grpc s c run set n e
  stop s Signal.calling_http e c run set n = stop_calling_http s c run set n e
  stop s Signal.stopping_http e c run set n =
      behind (Step.by_signal run (SignalStep.stopped_http e)) (_, Steps.start, refl)
  stop s Signal.done e c run set n = (s, Steps.start, e)

  -- No lock keeps a shutdown from its end once the HTTP server is made: from every state that the
  -- running process comes to with `httpServer` set, unless `RegisterLDAPManagerHandler` has failed,
  -- some steps take the goroutine of the signal through both calls of `Shutdown`.
  pub Reach-CanStop :
      (s : System lib env)
      → Reach lib env m s
      → running lib env s ≡ true
      → s.http_set ≡ true
      → s.http ≢ HttpServe.returned_locked
      → (t : System lib env) × Steps lib env m s t × (t.signal ≡ Signal.done)
  Reach-CanStop s r run set n = stop s s.signal refl (Reach-IsControlled s r) run set n
