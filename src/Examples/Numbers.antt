-- ===== src/Examples/Numbers.antt =====
-- The theorems on new accounts at concrete inputs.
use ldap_manager.Base.{bytes_eq, refl, ◌∷◌, ◌≡◌, ◌⊎◌, [], codes, All}
use ldap_manager.Base.Int.{pos}
use ldap_manager.Error.{app, account_validation}
use ldap_manager.Exec.{err}
use ldap_manager.Exec.Traffic.{recording, sent_by, answering, exchanged_by}
use ldap_manager.Hash.{default}
use ldap_manager.Manager.Creation.{new_account, escaped_account}
use ldap_manager.Directory.{Entry}
use ldap_manager.Exec.{◌>>=◌, send, attempt, rescue, pure, raise, lift, discard}
use ldap_manager.Hash.{clear, password, encode_clear}
use ldap_manager.Manager.{is_protected_group}
use ldap_manager.Manager.Creation.{
  create_account, check_free, next_uid, account_group, is_default, hashed_or_error, hash_password,
  store_account,
}
use ldap_manager.Manager.Lookup.{get_group_by_gid, update_last_id}
use ldap_manager.Manager.Members.{add_group_member}
use ldap_manager.Manager.Validation.{
  valid_account_request, valid_email, is_local, valid_password, valid_username,
}
use ldap_manager.Text.Escape.{escape_dn, escape_byte, must_escape_filter}
use ldap_manager.Text.Filter.{to_lower}
use ldap_manager.Text.Regex.{matches, nullable, derivative}
use ldap_manager.Manager.Creation.Stored.{IsStored, new_account-IsStored}
use ldap_manager.Manager.Creation.Safety.{IsCreation, new_account-IsCreation}
use ldap_manager.Manager.Creation.Checked.{IsComplete, new_account-IsComplete}
use ldap_manager.Manager.Validation.{Account, invalid_fields}
use ldap_manager.Examples.World.{example_manager, example_env}

abbrev nameless : Account
nameless = record {
  first_name = codes "Ann";
  last_name = codes "Lee";
  uid = pos 0;
  gid = pos 0;
  login_shell = [];
  home_directory = [];
  username = [];
  email = codes "ann@example.org";
  password = codes "pw";
}

new_account-IsComplete_example :
    IsComplete nameless
    ⊎ (new_account example_env example_manager nameless default []
        ≡ (err (app (account_validation (invalid_fields nameless))), []))
new_account-IsComplete_example =
    new_account-IsComplete example_env example_manager nameless default []

abbrev ann : Account
ann = record nameless { username = codes "ann" }

new_account-IsCreation_example :
    All
      (IsCreation example_env example_manager (escaped_account ann) default)
      (sent_by (new_account (recording example_env) example_manager ann default) [])
new_account-IsCreation_example = new_account-IsCreation example_env example_manager ann default []

-- The group of all users, and an account with its own numbers.
abbrev users : Entry
users = record {
  dn = codes "cn=users,ou=groups,dc=example,dc=org";
  attributes = record { name = codes "cn"; values = codes "users" ∷ [] } ∷ [];
}

abbrev bob : Account
bob = record ann { uid = pos 2500; gid = pos 2500; username = codes "bob" }

new_account-IsStored_example :
    IsStored example_env example_manager
      (escaped_account bob)
      clear
      (exchanged_by (new_account (answering example_env) example_manager bob clear) (users ∷ []))
unfolding example_manager new_account ◌>>=◌ valid_account_request invalid_fields valid_email matches
    nullable derivative is_local valid_password valid_username escape_dn escape_byte
    must_escape_filter create_account check_free send attempt rescue pure raise lift discard
    bytes_eq next_uid account_group get_group_by_gid is_default hashed_or_error hash_password
    password encode_clear store_account add_group_member is_protected_group update_last_id to_lower
new_account-IsStored_example =
    new_account-IsStored example_env example_manager bob clear (users ∷ []) refl
