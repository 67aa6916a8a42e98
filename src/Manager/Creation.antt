-- ===== src/Manager/Creation.antt =====
-- `NewAccount` of accounts.go.
pub mod Numbers
pub mod Checked
pub mod Safety
pub mod Stored
use ldap_manager.Base.{
  ℕ, ◌++◌, Bool, true, false, not, List, [], ◌∷◌, Bytes, codes, is_empty, is_nil, if◌then◌else◌,
}
use ldap_manager.Base.Int.{ℤ, pos, ltb_ℤ, add_one64}
use ldap_manager.Directory.{Env, Entry, Attribute, add_entry, no_such_object, entry_already_exists}
use ldap_manager.Error.{
  Error, app, wrapf, account_already_exists, member_already_exists, is_error_with_code,
}
use ldap_manager.Exec.{Result, ok, err, Exec, pure, raise, lift, attempt, rescue, send, ◌>>=◌, ◌>>◌}
use ldap_manager.Hash.{HashingAlgorithm, default, password}
use ldap_manager.Manager.{Manager, account_named}
use ldap_manager.Manager.AccountGroup.{get_group_for_account}
use ldap_manager.Manager.Accounts.{user_search}
use ldap_manager.Manager.Groups.{new_group}
use ldap_manager.Manager.Ids.{min_uid, min_gid, get_highest_id}
use ldap_manager.Manager.LastId.{setup_last_uid}
use ldap_manager.Manager.Lookup.{get_group_by_gid, update_last_id}
use ldap_manager.Manager.Members.{add_group_member}
use ldap_manager.Manager.Validation.{Account, valid_account_request}
use ldap_manager.Text.Decimal.{itoa}
use ldap_manager.Text.Escape.{escape_dn}

abbrev pub is_member_already_exists : Error → Bool
is_member_already_exists (app (member_already_exists g u)) = true
is_member_already_exists _ = false

-- `account.Username = escapeDN(account.GetUsername())`: the caller's account is changed too.
abbrev pub escaped_account : Account → Account
escaped_account account = record account { username = escape_dn account.username }

-- `ldap.IsErrorWithCode` of the error that a call returned, if any.
abbrev pub failed_with : Result (Unit {0}) → ℕ → Bool
failed_with (ok x) expected = false
failed_with (err e) expected = is_error_with_code e expected

-- An algorithm, or the configured one.
unfoldable pub is_default : HashingAlgorithm → Bool
is_default default = true
is_default _ = false

abbrev pub or_text : Bytes → Bytes → Bytes
or_text s fallback = if is_empty s then fallback else s

module _ (env : Env) (m : Manager) where
  open env use {State, escape_filter}

  -- Whether a failed search for the user may be passed over: there was no users group, and the
  -- error of creating it is another one.
  unfoldable pub recovered : Bytes → Error → Exec State Bool
  recovered username e =
      if is_error_with_code e no_such_object
      then (do
        created ← attempt (
            new_group env m (record { name = m.default_user_group; members = username ∷ [] }) false)
        pure (not (failed_with created no_such_object)))
      else pure false

  -- The check that the name is free.
  unfoldable pub check_free : Bytes → Result (List Entry) → Exec State (Unit {0})
  unfolding recovered
  check_free username (ok found) =
      if not (is_nil found) then raise (app (account_already_exists username)) else pure tt
  check_free username (err e) = do
    passed ← recovered username e
    if passed
        then pure tt
        else raise (wrapf (codes "failed to check for existing user %q: %v") (username ∷ []) e)

  -- The last user number, after one try to repair its record.
  unfoldable pub retry_highest : Result ℤ → Exec State ℤ
  retry_highest (ok n) = pure n
  retry_highest (err e) =
      if is_error_with_code e no_such_object
      then (do repaired ← attempt (setup_last_uid env m); get_highest_id env m m.account_attribute)
      else raise e

  unfoldable pub next_uid : ℤ → Exec State ℤ
  unfolding retry_highest
  next_uid uid =
      if ltb_ℤ uid (pos min_uid)
      then (do
        first ← attempt (get_highest_id env m m.account_attribute)
        answer ← attempt (retry_highest first)
        highest_uid ←
            rescue answer (λ e.
              raise (wrapf (codes "failed to get highest %s: %v") (m.account_attribute ∷ []) e))
        pure (add_one64 highest_uid))
      else pure uid

  unfoldable pub account_group : Account → Exec State (Bytes × ℤ)
  account_group account =
      if ltb_ℤ account.gid (pos min_gid)
      then get_group_for_account env m account.username
      else get_group_by_gid env m account.gid

  -- `ldaphash.Password` with the random bytes of the moment.
  unfoldable pub hash_password : Bytes → HashingAlgorithm → Exec State Bytes
  hash_password pw algorithm s = (password env.digests (env.random s) pw algorithm, s)

  unfoldable pub hashed_or_error : Bytes → HashingAlgorithm → Exec State Bytes
  unfolding hash_password
  hashed_or_error pw algorithm = do
    answer ← attempt (hash_password pw algorithm)
    rescue answer (λ e. raise (wrapf (codes "failed to hash password: %v") [] e))

  unfoldable pub user_attributes : Account → ℤ → ℤ → Bytes → List Attribute
  user_attributes account new_uid gid hashed_password =
      let full_name = account.first_name ++ (codes " " ++ account.last_name) in
      record {
        name = codes "objectClass";
        values = codes "person" ∷ codes "inetOrgPerson" ∷ codes "posixAccount" ∷ [];
      }
      ∷ record { name = m.account_attribute; values = account.username ∷ [] }
      ∷ record { name = codes "givenName"; values = account.first_name ∷ [] }
      ∷ record { name = codes "sn"; values = account.last_name ∷ [] }
      ∷ record { name = codes "cn"; values = full_name ∷ [] }
      ∷ record { name = codes "displayName"; values = full_name ∷ [] }
      ∷ record { name = codes "uidNumber"; values = itoa new_uid ∷ [] }
      ∷ record { name = codes "gidNumber"; values = itoa gid ∷ [] }
      ∷ record {
        name = codes "loginShell";
        values = or_text account.login_shell m.default_user_shell ∷ [];
      }
      ∷ record {
        name = codes "homeDirectory";
        values = or_text account.home_directory (codes "/home/" ++ account.username) ∷ [];
      }
      ∷ record { name = codes "userPassword"; values = hashed_password ∷ [] }
      ∷ record { name = codes "mail"; values = account.email ∷ [] }
      ∷ []

  -- The last three requests of `NewAccount`: the entry, the membership and the record of the number.
  unfoldable pub store_account : Account → ℤ → Bytes → ℤ → Bytes → Exec State (Unit {0})
  unfolding user_attributes
  store_account account new_uid group gid hashed_password = do
    let user_dn = account_named m account.username
    added ←
        attempt (send env (add_entry user_dn (user_attributes account new_uid gid hashed_password)))
    nothing ← rescue added (λ e. raise (
        if is_error_with_code e entry_already_exists
        then app (account_already_exists account.username)
        else wrapf (codes "failed to add user %q: %v") (user_dn ∷ []) e))
    joined ←
        attempt
          (add_group_member env m (record { group = group; username = account.username }) false)
    rescue joined (λ e.
        if is_member_already_exists e
        then pure tt
        else raise (
            wrapf (codes "failed to add user %q to group %q: %v") (account.username ∷ group ∷ [])
              e))
    update_last_id env m (codes "lastUID") new_uid

  -- `NewAccount` behind the validation, for the account with its name escaped.
  unfoldable pub create_account : Account → HashingAlgorithm → Exec State (Unit {0})
  unfolding is_default
  create_account account algorithm = do
    answer ←
        attempt (send env (user_search env m m.user_group_dn account.username (codes "dn" ∷ [])))
    check_free account.username answer
    new_uid ← next_uid account.uid
    place ← account_group account
    hashed_password ←
        hashed_or_error account.password
          (if is_default algorithm then m.hashing_algorithm else algorithm)
    store_account account new_uid place.0 place.1 hashed_password

  -- `NewAccount`
  unfoldable pub new_account : Account → HashingAlgorithm → Exec State (Unit {0})
  new_account account algorithm = do
    valid ← lift (valid_account_request account)
    create_account (escaped_account account) algorithm
