-- ===== src/Examples/Gateways.antt =====
-- The flags at their defaults, and requests to the HTTP server.
use ldap_manager.Base.{
  ◌≡◌, ◌⊎◌, refl, ◌++◌, All, Bool, true, false, List, [], ◌∷◌, Bytes, codes, bytes_eq,
  if◌then◌else◌, some,
}
use ldap_manager.Base.Int.{ℤ, pos}
use ldap_manager.Exec.{ok}
use ldap_manager.Manager.{new_ldap_manager, new_open_ldap_config}
use ldap_manager.Daemon.Flags.{
  CliContext, IsUnset, Flag, Value, string_value, int_value, bool_value, enum_value,
  ldap_config_flags, ldap_manager_flags, server_flags,
}
use ldap_manager.Daemon.Options.{ServerOptions, open_ldap_config, new_ldap_manager_server}
use ldap_manager.Daemon.Options.Defaults.{
  manager_of-new_ldap_manager, open_ldap_config-new_open_ldap_config,
}
use ldap_manager.Daemon.Gateway.{Stat, found, not_exist, HttpRequest, serve_http}
use ldap_manager.Daemon.Gateway.Static.{ServesBelow, serve_http-IsConfined}
use ldap_manager.Daemon.Gateway.Health.{health_request, available, unavailable, Reach-available}
use ldap_manager.Examples.Daemons.{stopping, good_library, stopping-Reach}

abbrev value_of : List Flag → Bytes → Value
value_of [] name = string_value []
value_of (f ∷ flags) name =
    let rest = value_of flags name in if bytes_eq f.name name then f.value else rest

abbrev as_string : Value → Bytes
as_string (string_value v) = v
as_string (enum_value enum v) = v
as_string _ = []

abbrev as_int : Value → ℤ
as_int (int_value v) = v
as_int _ = pos 0

abbrev as_bool : Value → Bool
as_bool (bool_value v) = v
as_bool _ = false

abbrev all_flags : List Flag
all_flags = server_flags ++ (ldap_config_flags ++ ldap_manager_flags)

-- Nothing is set.
abbrev unset : CliContext
unset = record {
  string = λ name. as_string (value_of all_flags name);
  int = λ name. as_int (value_of all_flags name);
  bool = λ name. as_bool (value_of all_flags name);
}

manager_flags_unset : All (IsUnset unset) ldap_manager_flags
unfolding server_flags ldap_config_flags ldap_manager_flags bytes_eq
manager_flags_unset = (
  refl,
  (
    refl,
    (
      refl,
      (refl, (refl, (refl, (refl, (refl, (refl, (refl, (refl, (refl, (refl, (refl, tt))))))))))),
    ),
  ),
)

config_flags_unset : All (IsUnset unset) ldap_config_flags
unfolding server_flags ldap_config_flags ldap_manager_flags bytes_eq
config_flags_unset = (
  refl,
  (refl, (refl, (refl, (refl, (refl, (refl, (refl, (refl, (refl, (refl, (refl, tt))))))))))),
)

manager_of-new_ldap_manager_example :
    (new_ldap_manager_server unset).manager ≡ new_ldap_manager (open_ldap_config unset)
manager_of-new_ldap_manager_example = manager_of-new_ldap_manager unset manager_flags_unset

open_ldap_config-new_open_ldap_config_example :
    open_ldap_config unset ≡ record new_open_ldap_config {
      readonly_user = false;
      readonly_user_username = [];
      readonly_user_password = [];
    }
open_ldap_config-new_open_ldap_config_example =
    open_ldap_config-new_open_ldap_config unset config_flags_unset

-- A file system with one file below the root, and the same with a file elsewhere.
abbrev stat : Bytes → Stat
stat p = if bytes_eq p (codes "frontend/dist/app.js") then found else not_exist

abbrev served : ServerOptions
served = new_ldap_manager_server unset

abbrev request : HttpRequest
request = record { connects = false; path = codes "/../../etc/passwd" }

serve_http-IsConfined_example :
    (serve_http stat served true request ≡ serve_http stat served true request)
    × ServesBelow served.static_root (serve_http stat served true request)
serve_http-IsConfined_example =
    serve_http-IsConfined served
      (unfold server_flags ldap_config_flags ldap_manager_flags bytes_eq new_ldap_manager_server in
        (λ e. cc))
      stat stat (λ p below. refl) true request refl

Reach-available_example :
    let r = serve_http stat (new_ldap_manager_server unset) true health_request in
    ((r ≡ available) × (stopping.base.set_up ≡ some (ok tt))) ⊎ (r ≡ unavailable)
Reach-available_example = Reach-available good_library stopping stopping-Reach stat unset
