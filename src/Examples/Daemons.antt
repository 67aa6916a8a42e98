-- ===== src/Examples/Daemons.antt =====
-- Runs of the process: a set-up that succeeds, and a bootstrap that fails.
use ldap_manager.Base.{
  ◌≡◌, ◌≢◌, ◌⊎◌, inl, refl, subst, ℕ, Bool, true, false, Option, none, some, [], codes, bytes_eq,
  has_prefix,
}
use ldap_manager.Directory.{Request, bind, Answer, entries, Env}
use ldap_manager.Error.{new}
use ldap_manager.Exec.{Result, ok, err, send, ◌>>=◌, discard}
use ldap_manager.Manager.{uri}
use ldap_manager.Text.Extract.{extract_attribute, find_match, up_to_comma}
use ldap_manager.Manager.Accounts.{bind_admin}
use ldap_manager.Manager.Setup.{setup, setup_ldap, started_tls}
use ldap_manager.Manager.Setup.Repeated.{IsSetUp, setup_ldap-eq}
use ldap_manager.Daemon.{
  Library, Outcomes, unopened, opened, BaseServer, connect, connected, setup_base,
}
use ldap_manager.Daemon.Threads.{System, GrpcServe, HttpServe, Action, Signal, initial, running}
use ldap_manager.Daemon.Threads.Steps.{
  GrpcStep, HttpStep, ActionStep, SignalStep, Step, Steps, Reach,
}
use ldap_manager.Daemon.Threads.Invariant.{IsLibrary, IsControlled}
use ldap_manager.Daemon.Threads.Safety.{Reach-IsControlled, Reach-IsReady, Reach-IsEnded}
use ldap_manager.Daemon.Threads.Stuck.{Steps-running, IsWaiting}
use ldap_manager.Daemon.Threads.Progress.{Reach-CanStop}
use ldap_manager.Examples.World.{example_manager, example_env}
use ldap_manager.Examples.Setups.{admins, answers, found_in}

-- Whether the service is healthy, and whether its gRPC server runs.
abbrev pub library_with : (bootstraps : Bool) → Library
library_with bootstraps = record {
  Service = Bool × Bool;
  bootstrap_grpc = λ s. elim bootstraps [
    | true ↦ (ok tt, (s.0, true))
    | false ↦ (err (new (codes "listener")), s)
  ];
  register = λ s. s;
  set_http_server = λ s. s;
  set_ready = λ s. s;
  set_healthy = λ b s. (b, s.1);
  healthy = λ s. s.0;
  graceful_stop = λ s. (false, false);
  accepts = λ s. s.1;
}

pub good_library : IsLibrary (library_with true)
good_library = record {
  healthy-set_healthy = λ b s. refl;
  healthy-bootstrap_grpc = λ s. refl;
  healthy-register = λ s. refl;
  healthy-set_http_server = λ s. refl;
  healthy-graceful_stop = λ s h. refl;
  accepts-graceful_stop = λ s. refl;
  accepts-register = λ s h. h;
}

-- The directory server of the set-up, which also accepts a bind.
abbrev pub accepting : Request → Answer
accepting (bind name secret) = entries []
accepting r = answers r

abbrev pub set_up_env : Env
set_up_env = record example_env { perform = λ r s. (accepting r, s) }

abbrev pub all_well : Outcomes
all_well = record { dial_url = ok tt; start_tls = ok tt; setup_keys = ok tt }

abbrev pub ready : IsSetUp set_up_env []
ready = record { adds = λ dn attributes. refl; found = found_in; finds = λ r. refl }

set_up_lem : setup_ldap set_up_env example_manager [] ≡ (ok tt, [])
unfolding example_manager bytes_eq has_prefix extract_attribute find_match up_to_comma
set_up_lem = setup_ldap-eq set_up_env example_manager [] ready admins refl refl refl

set_up_base_lem :
    setup_base (library_with true) set_up_env example_manager all_well [] ≡ (ok tt, [])
unfolding setup_base setup started_tls bind_admin send ◌>>=◌ discard example_manager uri has_prefix
set_up_base_lem = rw set_up_lem refl

abbrev pub base_with :
    (set_up : Option (Result (Unit {0})))
    → (healthy running : Bool) → BaseServer (library_with true) set_up_env
base_with set_up healthy running = record {
  service = (healthy, running);
  connection = elim set_up [ none ↦ unopened | some r ↦ opened ];
  directory = [];
  set_up = set_up;
}

connect_lem :
    connect (library_with true) set_up_env example_manager all_well (base_with none false true)
    ≡ base_with (some (ok tt)) true true
unfolding connect connected
connect_lem = rw set_up_base_lem refl

-- The gRPC server is being served, and the action dials.
abbrev pub serving :
    BaseServer (library_with true) set_up_env → System (library_with true) set_up_env
serving b = record {
  base = b;
  grpc_locked = false;
  http_locked = false;
  grpc_set = true;
  http_set = false;
  grpc_listener = true;
  http_listener = true;
  upstream = false;
  count = 2;
  panicked = false;
  grpc = GrpcServe.serving;
  http = HttpServe.unstarted;
  action = Action.dialling;
  signal = Signal.awaiting;
}

serving-connect :
    Steps
      (library_with true)
      set_up_env
      example_manager
      (initial (library_with true) set_up_env (false, false) [])
      (serving (
        connect
          (library_with true)
          set_up_env
          example_manager
          all_well
          (base_with none false true)))
unfolding initial
serving-connect =
    Steps.later
      (Steps.later
        (Steps.later
          (Steps.later
            (Steps.later
              (Steps.later Steps.start (Step.by_action refl (ActionStep.grpc_bound refl)))
              (Step.by_action refl (ActionStep.http_bound refl)))
            (Step.by_grpc refl (GrpcStep.lock refl refl)))
          (Step.by_grpc refl (GrpcStep.bootstrapped refl refl)))
        (Step.by_grpc refl (GrpcStep.connected all_well refl)))
      (Step.by_grpc refl (GrpcStep.registered refl))

-- Then the HTTP server has taken its lock, and a signal has arrived.
abbrev pub stopping : System (library_with true) set_up_env
stopping = record (serving (base_with (some (ok tt)) true true)) {
  http_locked = true;
  http_set = true;
  upstream = true;
  http = HttpServe.registering;
  action = Action.waiting;
  signal = Signal.calling_grpc;
}

pub stopping-Reach : Reach (library_with true) set_up_env example_manager stopping
stopping-Reach = (
  (false, false),
  [],
  refl,
  Steps.later
      (Steps.later
        (Steps.later
          (subst
            (λ b.
              Steps (library_with true) set_up_env example_manager
                (initial (library_with true) set_up_env (false, false) []) (serving b))
            connect_lem serving-connect)
          (Step.by_action refl (ActionStep.dialled refl refl refl)))
        (Step.by_http refl (HttpStep.lock refl refl)))
      (Step.by_signal refl (SignalStep.received refl)),
)

Reach-IsControlled_example : IsControlled stopping
Reach-IsControlled_example = Reach-IsControlled stopping stopping-Reach

Reach-IsReady_example :
    (true ≡ true → stopping.base.set_up ≡ some (ok tt))
    × (HttpServe.registering ≢ HttpServe.unstarted → stopping.base.set_up ≡ some (ok tt))
    × (GrpcServe.serving ≡ GrpcServe.serving → true ≡ true → stopping.base.set_up ≡ some (ok tt))
Reach-IsReady_example = Reach-IsReady good_library stopping stopping-Reach

Reach-IsEnded_example :
    (false ≡ true
      → ((Signal.calling_grpc ≡ Signal.calling_grpc) × (true ≡ false))
        ⊎ ((Signal.calling_grpc ≡ Signal.calling_http) × (true ≡ false)))
    × (Action.waiting ≡ Action.done → (◌≡◌ {A = ℕ} 1 0) × (◌≡◌ {A = ℕ} 1 0))
Reach-IsEnded_example = Reach-IsEnded stopping stopping-Reach

Reach-CanStop_example :
    (t : System (library_with true) set_up_env) × Steps
      (library_with true)
      set_up_env
      example_manager
      stopping
      t
    × (t.signal ≡ Signal.done)
Reach-CanStop_example = Reach-CanStop example_manager stopping stopping-Reach refl refl (λ e. cc)

-- `Serve` of the gRPC server has returned with the lock held.
abbrev pub abandoned : System (library_with false) set_up_env
abandoned = record {
  base = record { service = (false, false); connection = unopened; directory = []; set_up = none };
  grpc_locked = true;
  http_locked = false;
  grpc_set = true;
  http_set = false;
  grpc_listener = true;
  http_listener = true;
  upstream = false;
  count = 1;
  panicked = false;
  grpc = GrpcServe.returned_locked;
  http = HttpServe.unstarted;
  action = Action.dialling;
  signal = Signal.awaiting;
}

abandoned-Reach : Reach (library_with false) set_up_env example_manager abandoned
unfolding initial
abandoned-Reach = (
  (false, false),
  [],
  refl,
  Steps.later
      (Steps.later
        (Steps.later (Steps.later Steps.start (Step.by_action refl (ActionStep.grpc_bound refl)))
          (Step.by_action refl (ActionStep.http_bound refl)))
        (Step.by_grpc refl (GrpcStep.lock refl refl)))
      (Step.by_grpc refl (GrpcStep.bootstrap_failed refl refl)),
)

-- A signal arrives.
abbrev pub asked : System (library_with false) set_up_env
asked = record abandoned { signal = Signal.calling_grpc }

Steps-running_example :
    (true ≡ true) × (asked.base ≡ abandoned.base) × IsWaiting Signal.calling_grpc
Steps-running_example =
    Steps-running abandoned abandoned-Reach refl refl (inl refl) asked
      (Steps.later Steps.start (Step.by_signal refl (SignalStep.received refl)))
