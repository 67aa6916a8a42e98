-- ===== src/Manager/Accounts.antt =====
-- accounts.go: users in answers, the list of users, authentication, lookup and deletion.
pub mod Listed
pub mod Rebound
pub mod Deletion
use ldap_manager.Base.{
  ℕ, ◌++◌, Bool, true, false, ◌||◌, List, [], ◌∷◌, Bytes, codes, is_empty, if◌then◌else◌, length,
  map_option,
}
use ldap_manager.Base.Int.{ℤ}
use ldap_manager.Dict
use ldap_manager.Dict.{Dict}
use ldap_manager.Directory.{Env, Entry, Attribute, Request, search_entries, bind, delete_entry}
use ldap_manager.Error.{
  Error, app, new, errorf, wrapf, validation, zero_or_multiple_accounts, remove_last_group_member,
  no_such_member,
}
use ldap_manager.Exec.{Exec, pure, raise, lift, attempt, rescue, send, discard, ◌>>=◌, ◌>>◌}
use ldap_manager.Listing.{SortOrder, less_user, sort_slice, clip}
use ldap_manager.Manager.{Manager, account_named}
use ldap_manager.Manager.Lookup.{only_entry}
use ldap_manager.Manager.Members.{get_user_groups, delete_group_member}
use ldap_manager.Text.Filter.{parse_filter}

-- `pb.GetUserListRequest`
pub record GetUserListRequest : Type 0 where
  pub start : ℤ
  pub end : ℤ
  pub sort_order : SortOrder
  pub sort_key : Bytes
  pub filter : List Bytes

-- `pb.User`
abbrev pub User : Type 0
User = Dict Bytes

-- `pb.UserList`
pub record UserList : Type 0 where
  pub users : List User
  pub total : ℕ

-- `pb.LoginRequest`
pub record LoginRequest : Type 0 where
  pub username : Bytes
  pub password : Bytes

-- Errors by their type.
abbrev pub is_remove_last_group_member : Error → Bool
is_remove_last_group_member (app (remove_last_group_member g)) = true
is_remove_last_group_member _ = false

abbrev pub is_no_such_member : Error → Bool
is_no_such_member (app (no_such_member g u)) = true
is_no_such_member _ = false

module _ (env : Env) (m : Manager) where
  open env use {State, get_attribute_value, escape_filter, unicode}

  unfoldable pub default_user_fields : List Bytes
  default_user_fields =
      m.account_attribute
      ∷ codes "givenName"
      ∷ codes "sn"
      ∷ codes "cn"
      ∷ codes "displayName"
      ∷ codes "uidNumber"
      ∷ codes "gidNumber"
      ∷ codes "loginShell"
      ∷ codes "homeDirectory"
      ∷ codes "mail"
      ∷ []

  -- The loop of `parseUser`.
  unfoldable pub parse_attributes : Entry → List Attribute → User → User
  parse_attributes entry [] user = user
  parse_attributes entry (a ∷ attributes) user =
      parse_attributes entry attributes (Dict.put a.name (get_attribute_value entry a.name) user)

  unfoldable pub parse_user : Entry → User
  unfolding parse_attributes
  parse_user entry = parse_attributes entry entry.attributes []

  -- `countAccounts`
  unfoldable pub count_accounts : Exec State ℕ
  count_accounts = do
    found ← send env (
        search_entries (record {
          base_dn = m.user_group_dn;
          filter = codes "(" ++ (m.account_attribute ++ codes "=*)");
          attributes = codes "dn" ∷ [];
        }))
    pure (length found)

  -- The loop that maps the users by their sort key; a later entry replaces an earlier one.
  unfoldable pub users_by_key : Bytes → List Entry → Dict User → Dict User
  unfolding parse_user
  users_by_key sort_key [] users = users
  users_by_key sort_key (x ∷ xs) users =
      let key = get_attribute_value x sort_key in
      users_by_key sort_key xs (if is_empty key then users else Dict.put key (parse_user x) users)

  -- The key by which a request sorts.
  abbrev pub sort_key_of : GetUserListRequest → Bytes
  sort_key_of req = if is_empty req.sort_key then m.account_attribute else req.sort_key

  -- The users of the clipped keys.
  unfoldable pub user_page : GetUserListRequest → Dict User → List User
  user_page req users =
      map_option (λ key. Dict.lookup key users)
        (clip req.start req.end (sort_slice (less_user req.sort_order) (Dict.keys users)))

  -- `GetUserList`
  unfoldable pub get_user_list : GetUserListRequest → Exec State UserList
  unfolding count_accounts
  get_user_list req = do
    found ← send env (
        search_entries (record {
          base_dn = m.user_group_dn;
          filter =
              codes "(&("
              ++ (m.account_attribute
                  ++ (codes "=*)" ++ (parse_filter unicode escape_filter req.filter ++ codes ")")));
          attributes = default_user_fields;
        }))
    total ← count_accounts
    pure (record { users = user_page req (users_by_key (sort_key_of req) found []); total = total })

  -- The search for one user, below a name.
  abbrev pub user_search : Bytes → Bytes → List Bytes → Request
  user_search base_dn value attributes = search_entries (record {
    base_dn = base_dn;
    filter = codes "(" ++ (m.account_attribute ++ (codes "=" ++ (value ++ codes ")")));
    attributes = attributes;
  })

  -- `BindAdmin` of setup.go
  unfoldable pub bind_admin : Exec State (Unit {0})
  bind_admin = do
    discard (send env (bind (codes "cn=admin," ++ m.config.base_dn) m.config.admin_password))

  -- `AuthenticateUser`; the deferred `BindAdmin` follows the bind, whatever that returned.
  unfoldable pub authenticate_user : LoginRequest → Exec State Entry
  unfolding bind_admin default_user_fields
  authenticate_user req =
      if is_empty req.username || is_empty req.password
      then raise (app (validation (codes "must provide username and password")))
      else do
        found ←
            send env (user_search m.config.base_dn (escape_filter req.username) default_user_fields)
        user ← lift (only_entry (app (zero_or_multiple_accounts req.username (length found))) found)
        bound ← attempt (send env (bind user.dn req.password))
        rebound ← attempt bind_admin
        nothing ←
            rescue bound (λ e. raise (errorf (codes "unable to bind as %q") (req.username ∷ [])))
        pure user

  -- `GetAccount`
  unfoldable pub get_account : Bytes → Exec State User
  unfolding parse_user default_user_fields
  get_account username =
      if is_empty username then raise (new (codes "account username must not be empty")) else do
        answer ←
            attempt
              (send env (user_search m.user_group_dn (escape_filter username) default_user_fields))
        found ←
            rescue answer
              (λ e. raise (wrapf (codes "failed to get account %q: %v") (username ∷ []) e))
        user ← lift (only_entry (app (zero_or_multiple_accounts username (length found))) found)
        pure (parse_user user)

  -- The error that a failed removal from one group ends the deletion with, if it does.
  abbrev pub removal_failed : Bytes → Bytes → Error → Exec State (Unit {0})
  removal_failed username group e =
      if is_remove_last_group_member e
      then raise e
      else if is_no_such_member e
      then pure tt
      else raise (
          wrapf (codes "failed to remove deleted user %q from group %q: %v") (username ∷ group ∷ [])
            e)

  -- The loop of `DeleteAccount` over the groups.
  unfoldable pub leave_groups : Bytes → List Bytes → Exec State (Unit {0})
  leave_groups username [] = pure tt
  leave_groups username (group ∷ groups) = do
    done ← attempt (delete_group_member env m (record { group = group; username = username }) true)
    rescue done (removal_failed username group)
    leave_groups username groups

  unfoldable pub leave_all_groups : Bytes → Exec State (Unit {0})
  unfolding leave_groups
  leave_all_groups username = do
    answer ← attempt (get_user_groups env m username)
    groups ← rescue answer (λ e. raise (wrapf (codes "failed to get list of groups: %v") [] e))
    leave_groups username groups.groups

  -- `DeleteAccount`
  unfoldable pub delete_account : Bytes → Bool → Exec State (Unit {0})
  unfolding leave_all_groups
  delete_account username keep_groups =
      if is_empty username then raise (new (codes "username must not be empty")) else do
        if keep_groups then pure tt else leave_all_groups username
        discard (send env (delete_entry (account_named m username)))
