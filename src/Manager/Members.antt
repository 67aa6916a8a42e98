-- ===== src/Manager/Members.antt =====
-- group_members.go
pub mod Safety
pub mod Listed
use ldap_manager.Base.{
  ℕ, zero, suc, ◌++◌, Bool, true, false, not, ◌&&◌, ◌||◌, Option, none, some, List, [], ◌∷◌, Bytes,
  codes, is_empty, bytes_eq, if◌then◌else◌, length, any, map_option, select, map,
}
use ldap_manager.Base.Int.{ℤ, pos, to_int32}
use ldap_manager.Directory.{
  Env, Entry, Change, Request, add, delete, search_entries, modify, attribute_or_value_exists,
  no_such_attribute, no_such_object, object_class_violation,
}
use ldap_manager.Error.{
  Error, app, wrapf, validation, zero_or_multiple_accounts, zero_or_multiple_groups,
  remove_last_group_member, no_such_member, member_already_exists, is_error_with_code,
}
use ldap_manager.Exec.{
  Result, ok, err, Exec, pure, raise, lift, attempt, rescue, send, discard, ◌>>=◌, ◌>>◌,
}
use ldap_manager.Listing.{SortOrder, less_group, sort_slice, clip}
use ldap_manager.Manager.{Manager, account_named, group_named, member_value, is_protected_group}
use ldap_manager.Manager.Lookup.{find_group, only_entry}
use ldap_manager.Text.Decimal.{atoi, value_of}
use ldap_manager.Text.Escape.{escape_dn}
use ldap_manager.Text.Extract.{extract_attribute}

-- `pb.Group`
pub record Group : Type 0 where
  pub name : Bytes
  pub members : List Bytes
  pub gid : ℤ
  pub total : ℕ

-- `pb.GroupMember` and `pb.IsGroupMemberRequest`
pub record GroupMember : Type 0 where
  pub group : Bytes
  pub username : Bytes

-- `pb.GetGroupRequest`; its `sort_key` is not read.
pub record GetGroupRequest : Type 0 where
  pub start : ℤ
  pub end : ℤ
  pub sort_order : SortOrder
  pub name : Bytes

-- `pb.GroupList`
pub record GroupList : Type 0 where
  pub groups : List Bytes
  pub total : ℕ

module _ (env : Env) (m : Manager) where
  open env use {State, get_attribute_value, get_attribute_values, escape_filter}

  -- `getGroup`
  unfoldable pub get_group : Bytes → Exec State Group
  get_group group_name = do
    found ← send env (
        search_entries (record {
          base_dn = m.groups_dn;
          filter = codes "(cn=" ++ (escape_filter group_name ++ codes ")");
          attributes = m.group_membership_attribute ∷ codes "gidNumber" ∷ [];
        }))
    group ← lift (only_entry (app (zero_or_multiple_groups group_name (length found))) found)
    pure (record {
      name = group_name;
      members = get_attribute_values group m.group_membership_attribute;
      gid = to_int32 (value_of (atoi (get_attribute_value group (codes "gidNumber"))));
      total = 0;
    })

  -- The name that `IsGroupMember` looks for; it is not escaped.
  unfoldable pub listed_name : Bytes → Bytes
  listed_name username =
      if not m.group_membership_uses_uid
      then m.account_attribute ++ (codes "=" ++ (username ++ (codes "," ++ m.user_group_dn)))
      else username

  -- `IsGroupMember`
  unfoldable pub is_group_member : GroupMember → Exec State Bool
  unfolding find_group listed_name
  is_group_member req = do
    found ← find_group env m req.group (codes "dn" ∷ m.group_membership_attribute ∷ [])
    group ← lift (only_entry (app (zero_or_multiple_groups req.group (length found))) found)
    pure (
        any (λ member. bytes_eq member (listed_name req.username))
          (get_attribute_values group m.group_membership_attribute))

  -- The names of the groups that were found, without the empty ones.
  abbrev pub group_names : List Entry → List Bytes
  group_names found =
      select (λ cn. not (is_empty cn)) (map (λ group. get_attribute_value group (codes "cn")) found)

  -- `GetUserGroups`
  unfoldable pub get_user_groups : Bytes → Exec State GroupList
  get_user_groups username = do
    found ← send env (
        search_entries (record {
          base_dn = m.groups_dn;
          filter =
              codes "(&(objectClass=posixGroup)("
              ++ (m.group_membership_attribute
                  ++ (codes "=" ++ (member_value m username ++ codes "))")));
          attributes = codes "cn" ∷ [];
        }))
    pure (record { groups = group_names found; total = length found })

  -- The user names of the members whose names hold one.
  abbrev pub usernames : List Bytes → List Bytes
  usernames members =
      map_option (λ dn. extract_attribute env.capture dn m.account_attribute) members

  -- `GetGroup`
  unfoldable pub get_group_page : GetGroupRequest → Exec State Group
  get_group_page req = do
    group ← get_group req.name
    let members = sort_slice (less_group req.sort_order) (usernames group.members)
    pure (record {
      name = group.name;
      members = clip req.start req.end members;
      gid = group.gid;
      total = length group.members;
    })

  -- The request of `AddGroupMember`, and of `DeleteGroupMember`.
  abbrev pub member_change : GroupMember → Request
  member_change req = modify (group_named m req.group) (
      record {
        operation = add;
        attribute = m.group_membership_attribute;
        values = member_value m req.username ∷ [];
      }
      ∷ [])

  abbrev pub member_removal : GroupMember → Request
  member_removal req = modify (group_named m req.group) (
      record {
        operation = delete;
        attribute = m.group_membership_attribute;
        values = member_value m req.username ∷ [];
      }
      ∷ [])

  -- The error for an error of the server.
  abbrev pub add_error : GroupMember → Error → Error
  add_error req e =
      if is_error_with_code e attribute_or_value_exists
      then app (member_already_exists req.group req.username)
      else e

  abbrev pub delete_error : GroupMember → Error → Error
  delete_error req e =
      if is_error_with_code e object_class_violation
      then app (remove_last_group_member req.group)
      else if is_error_with_code e no_such_object || is_error_with_code e no_such_attribute
      then app (no_such_member req.group req.username)
      else e

  -- The request behind the checks, and its errors.
  abbrev pub sent : Request → (Error → Error) → Exec State (Unit {0})
  sent r translate = do
    done ← attempt (send env r)
    discard (rescue done (λ e. raise (translate e)))

  -- The check that a user exists: membership in the default group.
  unfoldable pub check_exists : Bytes → Exec State (Unit {0})
  unfolding is_group_member
  check_exists username = do
    status ←
        attempt (is_group_member (record { group = m.default_user_group; username = username }))
    is_member ←
        rescue status
          (λ e. raise (wrapf (codes "failed to check if member %q exists: %v") (username ∷ []) e))
    if is_member then pure tt else raise (app (zero_or_multiple_accounts username 0))

  -- `AddGroupMember`
  unfoldable pub add_group_member : GroupMember → Bool → Exec State (Unit {0})
  unfolding check_exists
  add_group_member req allow_non_existent =
      if is_empty req.group
      then raise (app (validation (codes "group name must not be empty")))
      else if is_empty req.username
      then raise (app (validation (codes "username must not be empty")))
      else do
        if not allow_non_existent && not (is_protected_group env m req.group)
            then check_exists req.username
            else pure tt
        sent (member_change req) (add_error req)

  -- `DeleteGroupMember`
  unfoldable pub delete_group_member : GroupMember → Bool → Exec State (Unit {0})
  delete_group_member req allow_delete_of_default_groups =
      if is_empty req.group || is_empty req.username
      then raise (app (validation (codes "group and user name can not be empty")))
      else if not allow_delete_of_default_groups && is_protected_group env m req.group
      then raise (
          app (
            validation
              (codes "deleting members from the default user or admin group is not allowed")))
      else sent (member_removal req) (delete_error req)
