-- ===== src/Manager/Update.antt =====
-- `UpdateAccount` of accounts.go.
pub mod Safety
pub mod Renaming
use ldap_manager.Base.{
  ℕ, ◌++◌, Bool, true, false, not, ◌&&◌, ◌||◌, List, [], ◌∷◌, Bytes, codes, is_empty, is_nil,
  bytes_eq, if◌then◌else◌, length,
}
use ldap_manager.Base.Int.{ℤ, pos, leb_ℤ}
use ldap_manager.Directory.{Env, Entry, Change, Request, replace, modify, modify_dn}
use ldap_manager.Error.{Error, app, wrapf, account_already_exists, zero_or_multiple_accounts}
use ldap_manager.Exec.{
  Result, ok, err, Exec, pure, raise, lift, attempt, rescue, send, discard, ◌>>=◌, ◌>>◌,
}
use ldap_manager.Hash.{HashingAlgorithm}
use ldap_manager.Manager.{Manager, account_named}
use ldap_manager.Manager.Accounts.{user_search, default_user_fields, is_no_such_member}
use ldap_manager.Manager.Creation.{hashed_or_error, is_member_already_exists, or_text}
use ldap_manager.Manager.Ids.{min_uid, min_gid}
use ldap_manager.Manager.Lookup.{only_entry}
use ldap_manager.Manager.Members.{
  GroupMember, get_user_groups, delete_group_member, add_group_member,
}
use ldap_manager.Manager.Validation.{Account}
use ldap_manager.Text.Decimal.{itoa, atoi, value_of}
use ldap_manager.Text.Escape.{escape_dn}

-- `pb.UpdateAccountRequest`
pub record UpdateAccountRequest : Type 0 where
  pub username : Bytes
  pub update : Account

-- `modifyRequest.Replace(attribute, []string{value})`
abbrev pub replaced : Bytes → Bytes → List Change
replaced attribute value =
    record { operation = replace; attribute = attribute; values = value ∷ [] } ∷ []

-- The change of a field that is set.
abbrev pub replaced_if : Bytes → Bytes → List Change
replaced_if attribute value = if is_empty value then [] else replaced attribute value

-- The changes of the names: the full name is written anew if either name is set.
unfoldable pub name_changes : Bytes → Bytes → Account → List Change
name_changes given_name sn update =
    let full_name =
      or_text update.first_name given_name ++ (codes " " ++ or_text update.last_name sn) in
    replaced_if (codes "givenName") update.first_name
    ++ (replaced_if (codes "sn") update.last_name
        ++ (if not (is_empty update.first_name) || not (is_empty update.last_name)
            then replaced (codes "displayName") full_name ++ replaced (codes "cn") full_name
            else []))

unfoldable pub contact_changes : Account → List Change
contact_changes update =
    replaced_if (codes "loginShell") update.login_shell
    ++ (replaced_if (codes "homeDirectory") update.home_directory
        ++ replaced_if (codes "mail") update.email)

-- Only an administrator changes the numbers.
unfoldable pub number_changes : Bool → Account → List Change
number_changes false update = []
number_changes true update =
    (if leb_ℤ (pos min_uid) update.uid then replaced (codes "uidNumber") (itoa update.uid) else [])
    ++ (if leb_ℤ (pos min_gid) update.gid
        then replaced (codes "gidNumber") (itoa update.gid)
        else [])

-- The number that is returned.
unfoldable pub new_number : Bool → Account → ℤ → ℤ
new_number is_admin update uid_number =
    if is_admin && leb_ℤ (pos min_uid) update.uid then update.uid else uid_number

module _ (env : Env) (m : Manager) where
  open env use {State, get_attribute_value}

  abbrev pub leave_error : Bytes → Bytes → Bytes → Error → Exec State (Unit {0})
  leave_error old new group e =
      if is_no_such_member e
      then pure tt
      else raise (
          wrapf (codes "failed to remove renamed user (%q -> %q) from group %q: %v")
            (old ∷ new ∷ group ∷ []) e)

  abbrev pub join_error : Bytes → Bytes → Bytes → Error → Exec State (Unit {0})
  join_error old new group e =
      if is_member_already_exists e
      then pure tt
      else raise (
          wrapf (codes "failed to add renamed user (%q -> %q) to group %q: %v")
            (old ∷ new ∷ group ∷ []) e)

  -- The loop over the groups: the old name leaves and the new name joins.
  unfoldable pub migrate_groups : Bytes → Bytes → List Bytes → Exec State (Unit {0})
  migrate_groups old new [] = pure tt
  migrate_groups old new (group ∷ groups) = do
    left ← attempt (delete_group_member env m (record { group = group; username = old }) true)
    rescue left (leave_error old new group)
    joined ← attempt (add_group_member env m (record { group = group; username = new }) true)
    rescue joined (join_error old new group)
    migrate_groups old new groups

  -- The change of the name: the new one must be free; the entry is renamed, then the memberships.
  unfoldable pub rename_account : Bytes → Bytes → Exec State (Unit {0})
  unfolding migrate_groups
  rename_account old new = do
    answer ← attempt (send env (user_search env m m.user_group_dn new (codes "dn" ∷ [])))
    taken ←
        rescue answer
          (λ e. raise (wrapf (codes "failed to check for users with same username: %v") [] e))
    if not (is_nil taken) then raise (app (account_already_exists new)) else pure tt
    nothing ← send env (
        modify_dn (record {
          dn = account_named m old;
          new_rdn = m.account_attribute ++ (codes "=" ++ new);
          delete_old_rdn = true;
          new_superior = [];
        }))
    listed ← attempt (get_user_groups env m new)
    groups ← rescue listed (λ e. raise (wrapf (codes "failed to get list of groups: %v") [] e))
    migrate_groups old new groups.groups

  abbrev pub is_renamed : Bytes → Account → Bool
  is_renamed username update =
      not (is_empty update.username) && not (bytes_eq update.username username)

  unfoldable pub password_changes : Account → HashingAlgorithm → Exec State (List Change)
  password_changes update algorithm = if is_empty update.password then pure [] else (do
    hashed_password ← hashed_or_error env m update.password algorithm
    pure (replaced (codes "userPassword") hashed_password))

  -- What follows the renaming: the changes of the entry.
  unfoldable pub modify_account :
      Entry → Bytes → Account → HashingAlgorithm → Bool → Exec State (Unit {0})
  unfolding password_changes name_changes contact_changes number_changes
  modify_account user user_dn update algorithm is_admin = do
    password ← password_changes update algorithm
    let names =
        name_changes (get_attribute_value user (codes "givenName"))
          (get_attribute_value user (codes "sn")) update
    done ← attempt (
        send env (
          modify user_dn
            (names ++ (contact_changes update ++ (password ++ number_changes is_admin update)))))
    discard (rescue done (λ e. raise (wrapf (codes "failed to modify existing user: %v") [] e)))

  -- `UpdateAccount` for the escaped name; it returns the name and the number.
  unfoldable pub update_user : Bytes → Account → HashingAlgorithm → Bool → Exec State (Bytes × ℤ)
  unfolding rename_account modify_account new_number
  update_user username update algorithm is_admin = do
    answer ←
        attempt (send env (user_search env m m.user_group_dn username (default_user_fields env m)))
    found ←
        rescue answer
          (λ e. raise (wrapf (codes "failed to check for existing user %q: %v") (username ∷ []) e))
    user ← lift (only_entry (app (zero_or_multiple_accounts username (length found))) found)
    let uid_number = value_of (atoi (get_attribute_value user (codes "uidNumber")))
    let renamed = is_renamed username update
    if renamed then rename_account username update.username else pure tt
    modify_account user (if renamed then account_named m update.username else user.dn) update
        algorithm is_admin
    pure (if renamed then update.username else username, new_number is_admin update uid_number)

  -- `UpdateAccount`
  unfoldable pub update_account :
      UpdateAccountRequest → HashingAlgorithm → Bool → Exec State (Bytes × ℤ)
  unfolding update_user
  update_account req algorithm is_admin =
      update_user (escape_dn req.username) req.update algorithm is_admin
