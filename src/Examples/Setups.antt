-- ===== src/Examples/Setups.antt =====
-- The set-up at a server where all exists.
use ldap_manager.Base.{◌≡◌, refl, List, [], ◌∷◌, codes, bytes_eq, has_prefix, if◌then◌else◌}
use ldap_manager.Directory.{
  Entry, Request, SearchRequest, search_entries, Answer, entries, failed, result_code,
  entry_already_exists, Env,
}
use ldap_manager.Exec.{ok}
use ldap_manager.Manager.Setup.{setup_ldap}
use ldap_manager.Manager.Setup.Repeated.{IsSetUp, setup_ldap-eq}
use ldap_manager.Text.Extract.{extract_attribute, find_match, up_to_comma}
use ldap_manager.Examples.World.{example_manager, example_env}

abbrev pub admins : Entry
admins = record {
  dn = codes "cn=admins,ou=groups,dc=example,dc=org";
  attributes =
      record {
        name = codes "uniqueMember";
        values = codes "uid=ann,ou=users,dc=example,dc=org" ∷ [];
      }
      ∷ [];
}

abbrev pub found_in : SearchRequest → List Entry
found_in r = if bytes_eq r.filter (codes "(cn=admins)") then admins ∷ [] else []

abbrev pub answers : Request → Answer
answers (search_entries r) = entries (found_in r)
answers _ = failed (result_code entry_already_exists)

abbrev set_up_env : Env
set_up_env = record example_env { perform = λ r s. (answers r, s) }

abbrev set_up : IsSetUp set_up_env []
set_up = record { adds = λ dn attributes. refl; found = found_in; finds = λ r. refl }

setup_ldap-eq_example : setup_ldap set_up_env example_manager [] ≡ (ok tt, [])
unfolding example_manager bytes_eq has_prefix extract_attribute find_match up_to_comma
setup_ldap-eq_example = setup_ldap-eq set_up_env example_manager [] set_up admins refl refl refl
