-- ===== src/Manager/Setup.antt =====
-- setup.go behind its first helpers, and `Setup` of ldap_manager.go.
pub mod Repeated
use ldap_manager.Base.{
  Bool, true, false, not, ◌||◌, [], ◌∷◌, Bytes, codes, is_nil, if◌then◌else◌, has_prefix,
}
use ldap_manager.Base.Int.{pos}
use ldap_manager.Directory.{Env, no_such_object, entry_already_exists}
use ldap_manager.Error.{
  Error, app, new, wrapf, zero_or_multiple_groups, account_already_exists, is_error_with_code,
}
use ldap_manager.Exec.{Result, ok, err, Exec, pure, raise, lift, attempt, rescue, ◌>>=◌, ◌>>◌}
use ldap_manager.Hash.{default}
use ldap_manager.Listing.{ascending}
use ldap_manager.Manager.{Manager, uri}
use ldap_manager.Manager.Accounts.{bind_admin}
use ldap_manager.Manager.Creation.{new_account, is_member_already_exists, escaped_account}
use ldap_manager.Manager.Groups.{new_group}
use ldap_manager.Manager.LastId.{setup_groups_ou, setup_users_ou, setup_last_gid, setup_last_uid}
use ldap_manager.Manager.Members.{Group, get_group_page, add_group_member}
use ldap_manager.Manager.Validation.{Account}

abbrev pub is_account_already_exists : Error → Bool
is_account_already_exists (app (account_already_exists u)) = true
is_account_already_exists _ = false

abbrev pub is_zero_or_multiple_groups : Error → Bool
is_zero_or_multiple_groups (app (zero_or_multiple_groups g n)) = true
is_zero_or_multiple_groups _ = false

module _ (env : Env) (m : Manager) where
  open env use {State}

  -- `setupDefaultGroup`
  unfoldable pub setup_default_group : Exec State (Unit {0})
  setup_default_group = new_group env m (record { name = m.default_user_group; members = [] }) false

  unfoldable pub initial_admin : Account
  initial_admin = record {
    first_name = codes "changeme";
    last_name = codes "changeme";
    uid = pos 0;
    gid = pos 0;
    login_shell = [];
    home_directory = [];
    username = m.default_admin_username;
    email = codes "changeme@changeme.com";
    password = m.default_admin_password;
  }

  -- The name of the account behind `NewAccount`, which has escaped it.
  abbrev pub admin_name : Bytes
  admin_name = (escaped_account initial_admin).username

  unfoldable pub create_admin : Exec State (Unit {0})
  unfolding initial_admin
  create_admin = do
    created ← attempt (new_account env m initial_admin default)
    rescue created (λ e.
        if is_account_already_exists e
        then pure tt
        else raise (wrapf (codes "failed to create initial admin account: %v") [] e))

  abbrev pub admin_group_page : Exec State Group
  admin_group_page =
      get_group_page env m (record {
        start = pos 0;
        end = pos 0;
        sort_order = ascending;
        name = m.default_admin_group;
      })

  -- The rest of `setupAdminsGroup`, by what the search for the group returned.
  unfoldable pub admins_group_found : Result Group → Exec State (Unit {0})
  unfolding create_admin
  admins_group_found (err e) =
      if is_zero_or_multiple_groups e
      then (do
        create_admin
        created ← attempt (
            new_group env m (record { name = m.default_admin_group; members = admin_name ∷ [] })
              false)
        rescue created (λ e. raise (wrapf (codes "failed to create admins group: %v") [] e)))
      else raise (wrapf (codes "failed to check if the admins group already exists: %v") [] e)
  admins_group_found (ok group) =
      if is_nil group.members || m.force_create_admin
      then (do
        create_admin
        joined ← attempt (
            add_group_member env m (record { group = m.default_admin_group; username = admin_name })
              false)
        rescue joined (λ e.
            if is_member_already_exists e
            then pure tt
            else raise (
                wrapf (codes "failed to add the default admin user to the admins group: %v") [] e)))
      else pure tt

  -- `setupAdminsGroup`
  unfoldable pub setup_admins_group : Exec State (Unit {0})
  unfolding admins_group_found
  setup_admins_group = do found ← attempt admin_group_page; admins_group_found found

  -- `setupDefaultAdmin`
  unfoldable pub setup_default_admin : Exec State (Unit {0})
  setup_default_admin = do
    group ← admin_group_page
    if is_nil group.members then raise (new (codes "no admin user created")) else pure tt

  -- A step of `SetupLDAP` whose listed errors are passed over.
  abbrev pub passing : (Error → Bool) → Bytes → Exec State (Unit {0}) → Exec State (Unit {0})
  passing accepted format step = do
    done ← attempt step
    rescue done (λ e. if accepted e then pure tt else raise (wrapf format [] e))

  abbrev pub is_existing : Error → Bool
  is_existing e = is_error_with_code e entry_already_exists

  abbrev pub is_existing_or_missing : Error → Bool
  is_existing_or_missing e =
      is_error_with_code e entry_already_exists || is_error_with_code e no_such_object

  -- `SetupLDAP`
  unfoldable pub setup_ldap : Exec State (Unit {0})
  unfolding setup_admins_group
  setup_ldap = do
    passing is_existing (codes "failed to setup groups organizational unit (OU): %v")
        (setup_groups_ou env m)
    passing is_existing (codes "failed to setup users organizational unit (OU): %v")
        (setup_users_ou env m)
    passing is_existing_or_missing (codes "failed to setup the last GID: %v") (setup_last_gid env m)
    passing is_existing_or_missing (codes "failed to setup the last UID: %v") (setup_last_uid env m)
    setup_admins_group

  -- The step that starts TLS, by its outcome: an error counts only if TLS is configured.
  unfoldable pub started_tls : Result (Unit {0}) → Exec State (Unit {0})
  started_tls outcome =
      if has_prefix (uri m.config) (codes "ldaps:") || m.config.tls
      then rescue outcome (λ e. if m.config.tls then raise e else pure tt)
      else pure tt

  -- `Setup`, by the outcomes of `DialURL` and of `StartTLS`.
  unfoldable pub setup : Result (Unit {0}) → Result (Unit {0}) → Bool → Exec State (Unit {0})
  unfolding started_tls setup_ldap
  setup dialed tls skip_setup_ldap = do
    lift dialed
    started_tls tls
    bind_admin env m
    if not skip_setup_ldap then setup_ldap else pure tt
