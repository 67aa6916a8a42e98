-- ===== src/Daemon/Threads/Invariant/Readiness.antt =====
-- Every step keeps `IsOrdered`.
use ldap_manager.Base.{◌≡◌, true, false, none, some, refl, arith, inl, inr, Bool-cases}
use ldap_manager.Directory.{Env}
use ldap_manager.Exec.{Result, ok, err}
use ldap_manager.Manager.{Manager}
use ldap_manager.Daemon.{
  Library, BaseServer, Outcomes, shutdown, connect, connected, setup_base, dialled,
}
use ldap_manager.Daemon.Threads.{System}
use ldap_manager.Daemon.Threads.Steps.{GrpcStep, HttpStep, ActionStep, SignalStep, Step}
use ldap_manager.Daemon.Threads.Invariant.Defs.{IsLibrary, IsControlled, IsOrdered}
use ldap_manager.Daemon.Threads.Invariant.Control.{
  grpc_guard, http_guard, action_guard, signal_guard,
}

module _ {lib : Library} {env : Env} (laws : IsLibrary lib) where
  -- A service that is healthy behind a shutdown was healthy before.
  shutdown-healthy :
      (b : BaseServer lib env)
      → lib.healthy (shutdown lib env b).service ≡ true
      → lib.healthy b.service ≡ true
  unfolding shutdown
  shutdown-healthy b h = elim (Bool-cases (lib.healthy b.service)) [
    | inl e ↦ e
    | inr e ↦ absurd (cc (laws.healthy-graceful_stop b.service e, h))
  ]

  shutdown-accepts : (b : BaseServer lib env) → lib.accepts (shutdown lib env b).service ≡ false
  unfolding shutdown
  shutdown-accepts b = laws.accepts-graceful_stop b.service

  connected-set_up :
      (r : Result (Unit {0})) (b : BaseServer lib env)
      → b.set_up ≡ some r
      → (lib.healthy b.service ≡ false)
      → (lib.healthy (connected lib env r b).service ≡ true
          → (connected lib env r b).set_up ≡ some (ok tt))
        × (lib.accepts (connected lib env r b).service ≡ true
            → (connected lib env r b).set_up ≡ some (ok tt))
  unfolding connected shutdown
  connected-set_up (ok u) b e h = (λ q. e, λ q. e)
  connected-set_up (err x) b e h = (
    λ q. absurd (cc (laws.healthy-graceful_stop b.service h, q)),
    λ q. absurd (cc (laws.accepts-graceful_stop b.service, q)),
  )

  connect-set_up :
      (m : Manager) (o : Outcomes) (b : BaseServer lib env)
      → lib.healthy b.service ≡ false
      → (lib.healthy (connect lib env m o b).service ≡ true
          → (connect lib env m o b).set_up ≡ some (ok tt))
        × (lib.accepts (connect lib env m o b).service ≡ true
            → (connect lib env m o b).set_up ≡ some (ok tt))
  unfolding connect
  connect-set_up m o b h =
      let (r, directory) = setup_base lib env m o b.directory in
      connected-set_up r
        (record b { connection = dialled o.dial_url; directory = directory; set_up = some r }) refl
        h

  unhealthy :
      {s : System lib env} → IsOrdered s → s.base.set_up ≡ none → lib.healthy s.base.service ≡ false
  unhealthy {s} i e = elim (Bool-cases (lib.healthy s.base.service)) [
    | inl h ↦ absurd (cc (i.healthy_set_up h, e))
    | inr h ↦ h
  ]

  module _ {m : Manager} where
    GrpcStep-IsOrdered : {s t : System lib env} → GrpcStep lib env m s t → IsOrdered s → IsOrdered t
    GrpcStep-IsOrdered (GrpcStep.lock p q) i = ground (arith, p)
    GrpcStep-IsOrdered {s} (GrpcStep.bootstrap_failed p q) i =
        ground (arith, p, q, laws.healthy-bootstrap_grpc s.base.service)
    GrpcStep-IsOrdered {s} (GrpcStep.bootstrapped p q) i =
        ground (arith, p, q, laws.healthy-bootstrap_grpc s.base.service)
    GrpcStep-IsOrdered {s} (GrpcStep.connected o p) i =
        let (h, a) = connect-set_up m o s.base (unhealthy i (i.fresh ground (arith, p))) in
        record {
          fresh = λ q. cc;
          launched_set_up = λ q. absurd (ground (arith, p, q, i.fresh, i.launched_set_up));
          healthy_set_up = h;
          accepts_set_up = λ q. a;
        }
    GrpcStep-IsOrdered {s} (GrpcStep.registered p) i =
        ground
          (arith, p, laws.healthy-register s.base.service, laws.accepts-register s.base.service)
    GrpcStep-IsOrdered st i = ground (arith, grpc_guard st)

    -- The HTTP server is started behind a set-up that succeeded.
    HttpStep-set_up :
        {s t : System lib env}
        → HttpStep lib env m s t
        → IsControlled s
        → IsOrdered s
        → s.base.set_up ≡ some (ok tt)
    HttpStep-set_up (HttpStep.lock p q) c i = i.launched_set_up ground (arith, p)
    HttpStep-set_up st c i = i.launched_set_up ground (arith, http_guard st)

    HttpStep-IsOrdered :
        {s t : System lib env} → HttpStep lib env m s t → IsControlled s → IsOrdered s → IsOrdered t
    HttpStep-IsOrdered (HttpStep.lock p q) c i = ground (arith, p)
    HttpStep-IsOrdered st c i = ground (arith, http_guard st, HttpStep-set_up st c i)

    ActionStep-IsOrdered :
        {s t : System lib env}
        → ActionStep lib env m s t
        → IsControlled s
        → IsOrdered s
        → IsOrdered t
    ActionStep-IsOrdered (ActionStep.dialled p q r) c i = ground (arith, p, q, r)
    ActionStep-IsOrdered {s} (ActionStep.stopped p) c i =
        unfold shutdown in ground (arith, p, shutdown-healthy s.base, shutdown-accepts s.base)
    ActionStep-IsOrdered st c i = ground (arith, action_guard st)

    SignalStep-IsOrdered :
        {s t : System lib env} → SignalStep lib env m s t → IsOrdered s → IsOrdered t
    SignalStep-IsOrdered {s} (SignalStep.stopped_grpc p) i =
        unfold shutdown in ground (arith, p, shutdown-healthy s.base, shutdown-accepts s.base)
    SignalStep-IsOrdered st i = ground (arith, signal_guard st)

    pub Step-IsOrdered :
        {s t : System lib env} → Step lib env m s t → IsControlled s → IsOrdered s → IsOrdered t
    Step-IsOrdered (Step.by_grpc r st) c i = GrpcStep-IsOrdered st i
    Step-IsOrdered (Step.by_http r st) c i = HttpStep-IsOrdered st c i
    Step-IsOrdered (Step.by_action r st) c i = ActionStep-IsOrdered st c i
    Step-IsOrdered (Step.by_signal r st) c i = SignalStep-IsOrdered st i
