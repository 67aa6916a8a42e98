-- ===== src/Daemon/Gateway/Health.antt =====
-- The health check of the HTTP server, beside the goroutines that set the service's health.
use ldap_manager.Base.{
  ◌≡◌, ◌⊎◌, inl, inr, refl, ◌∙◌, Bool, true, false, some, Bytes, codes, Bool-cases, bytes_eq,
}
use ldap_manager.Directory.{Env}
use ldap_manager.Exec.{ok}
use ldap_manager.Manager.{Manager}
use ldap_manager.Text.Path.{clean_path, clean, elements, enter_all, enter, rendered, join_elements}
use ldap_manager.Text.Split.{split}
use ldap_manager.Daemon.{Library}
use ldap_manager.Daemon.Flags.{CliContext}
use ldap_manager.Daemon.Options.{new_ldap_manager_server}
use ldap_manager.Daemon.Gateway.{
  Stat, HttpRequest, HttpResponse, written, bootstrap_http, serve_http, serve_route, serve_health,
  route_of, exact_route, is_route, lacks_slash,
}
use ldap_manager.Daemon.Threads.{System}
use ldap_manager.Daemon.Threads.Steps.{Reach}
use ldap_manager.Daemon.Threads.Invariant.{IsLibrary}
use ldap_manager.Daemon.Threads.Safety.{Reach-IsReady}

abbrev pub health_request : HttpRequest
health_request = record { connects = false; path = codes "/healthz" }

-- With or without the frontend, `/healthz` is answered by the health of the service.
serve_http-health :
    (stat : Bytes → Stat) (ctx : CliContext) (healthy : Bool)
    → serve_http stat (new_ldap_manager_server ctx) healthy health_request
      ≡ serve_health stat (new_ldap_manager_server ctx) healthy
unfolding serve_http new_ldap_manager_server bootstrap_http serve_route serve_health lacks_slash
    is_route route_of exact_route clean_path clean elements enter_all enter rendered join_elements
    split bytes_eq
serve_http-health stat ctx healthy = elim (Bool-cases (ctx.bool (codes "no-static"))) [
  | inl e ↦ rw e refl
  | inr e ↦ rw e refl
]

abbrev pub available : HttpResponse
available = written 200 (codes "ok")

abbrev pub unavailable : HttpResponse
unavailable = written 503 (codes "service is not available")

health-cases :
    (stat : Bytes → Stat) (ctx : CliContext) (healthy : Bool)
    → let r = serve_health stat (new_ldap_manager_server ctx) healthy in
      ((r ≡ available) × (healthy ≡ true)) ⊎ ((r ≡ unavailable) × (healthy ≡ false))
unfolding serve_health
health-cases stat ctx true = inl (refl, refl)
health-cases stat ctx false = inr (refl, refl)

-- In every state that the process comes to, with any flags, a GET of `/healthz` is answered 200 `ok` or
-- 503; and 200 only if `Setup` has returned nil.
pub Reach-available :
    {lib : Library} {env : Env} {m : Manager}
    → IsLibrary lib
    → (t : System lib env) → Reach lib env m t
    → (stat : Bytes → Stat) (ctx : CliContext)
    → let r =
        serve_http stat (new_ldap_manager_server ctx) (lib.healthy t.base.service) health_request in
      ((r ≡ available) × (t.base.set_up ≡ some (ok tt))) ⊎ (r ≡ unavailable)
Reach-available {lib} laws t reach stat ctx =
    elim (health-cases stat ctx (lib.healthy t.base.service)) [
      | inl (e, h) ↦ inl (serve_http-health stat ctx _ ∙ e, (Reach-IsReady laws t reach).0 h)
      | inr (e, h) ↦ inr (serve_http-health stat ctx _ ∙ e)
    ]
