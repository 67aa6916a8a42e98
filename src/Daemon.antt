-- ===== src/Daemon.antt =====
-- cmd/ldap-manager: what the servers share (base/server.go), the flags of the command line, the HTTP
-- server, and the goroutines of the process.
pub mod Flags
pub mod Options
pub mod Gateway
pub mod Threads
use ldap_manager.Base.{Bool, true, false, Option, none, some, Bytes}
use ldap_manager.Directory.{Env}
use ldap_manager.Exec.{Result, ok, err, Exec, lift, ◌>>◌}
use ldap_manager.Manager.{Manager}
use ldap_manager.Manager.Setup.{setup}

-- What the servers use of `Service` of go-grpc-service, and of the gRPC server in it. The state of a
-- service also stands for all else that an outcome can depend on.
pub record Library : Type 1 where
  pub Service : Type 0
  -- `BootstrapGrpc`
  pub bootstrap_grpc : Service → Result (Unit {0}) × Service
  -- `RegisterLDAPManagerServer` on the gRPC server.
  pub register : Service → Service
  -- The assignments of `HTTPServer` and of `Ready`.
  pub set_http_server : Service → Service
  pub set_ready : Service → Service
  -- `SetHealthy`, and the field `Healthy`.
  pub set_healthy : Bool → Service → Service
  pub healthy : Service → Bool
  pub graceful_stop : Service → Service
  -- Whether there is a gRPC server that was not stopped.
  pub accepts : Service → Bool

-- The connection of the manager, `ldap`: nil, open or closed.
pub data Connection : Type 0 where
  unopened opened closed : Connection

abbrev pub dialled : Result (Unit {0}) → Connection
dialled (ok u) = opened
dialled (err e) = unopened

-- `Close` of the manager.
unfoldable pub close : Connection → Connection
close unopened = unopened
close opened = closed
close closed = closed

-- How `Setup` ends, from outside: dialling, starting TLS, and the keys of the authenticator.
pub record Outcomes : Type 0 where
  pub dial_url : Result (Unit {0})
  pub start_tls : Result (Unit {0})
  pub setup_keys : Result (Unit {0})

-- `LDAPManagerServer` of base/server.go with the state of the directory server behind it, and what
-- `Setup` returned, if it has returned.
pub record BaseServer (lib : Library) (env : Env) : Type 0 where
  pub service : lib.Service
  pub connection : Connection
  pub directory : env.State
  pub set_up : Option (Result (Unit {0}))

module _ (lib : Library) (env : Env) where
  -- `Shutdown`
  unfoldable pub shutdown : BaseServer lib env → BaseServer lib env
  unfolding close
  shutdown b = record b { service = lib.graceful_stop b.service; connection = close b.connection }

  -- `Setup`
  unfoldable pub setup_base : Manager → Outcomes → Exec env.State (Unit {0})
  setup_base m o = do setup env m o.dial_url o.start_tls false; lift o.setup_keys

  -- The rest of `Connect`, by what `Setup` returned.
  unfoldable pub connected : Result (Unit {0}) → BaseServer lib env → BaseServer lib env
  unfolding shutdown
  connected (err e) b = shutdown b
  connected (ok u) b = record b { service = lib.set_healthy true (lib.set_ready b.service) }

  -- `Connect`
  unfoldable pub connect : Manager → Outcomes → BaseServer lib env → BaseServer lib env
  unfolding connected
  connect m o b =
      let (r, directory) = setup_base m o b.directory in
      connected r
        (record b { connection = dialled o.dial_url; directory = directory; set_up = some r })
