-- ===== src/Manager/Groups.antt =====
-- groups.go
pub mod Safety
pub mod Listed
pub mod Numbering
use ldap_manager.Base.{
  ℕ, zero, suc, ◌++◌, Bool, true, false, not, ◌&&◌, List, [], ◌∷◌, Bytes, codes, is_empty, bytes_eq,
  if◌then◌else◌, length, is_nil,
}
use ldap_manager.Base.Int.{ℤ, pos, leb_ℤ, add_one64}
use ldap_manager.Directory.{
  Env, Entry, Attribute, Change, Request, replace, search_entries, add_entry, modify, modify_dn,
  delete_entry, no_such_object,
}
use ldap_manager.Error.{
  Error, app, wrapf, validation, group_already_exists, zero_or_multiple_groups, is_error_with_code,
}
use ldap_manager.Exec.{
  Result, ok, err, Exec, pure, raise, lift, attempt, rescue, send, discard, ◌>>=◌, ◌>>◌,
}
use ldap_manager.Listing.{SortOrder, less_group, sort_slice, clip}
use ldap_manager.Manager.{Manager, group_named, member_value, is_protected_group}
use ldap_manager.Manager.Ids.{min_gid, get_highest_id}
use ldap_manager.Manager.Lookup.{find_group, update_last_id}
use ldap_manager.Manager.Members.{GroupList, is_group_member, group_names}
use ldap_manager.Text.Decimal.{itoa}
use ldap_manager.Text.Escape.{escape_dn}
use ldap_manager.Text.Filter.{parse_filter}

-- `pb.NewGroupRequest`
pub record NewGroupRequest : Type 0 where
  pub name : Bytes
  pub members : List Bytes

-- `pb.UpdateGroupRequest`
pub record UpdateGroupRequest : Type 0 where
  pub name : Bytes
  pub new_name : Bytes
  pub gid : ℤ

-- `pb.GetGroupListRequest`; its `sort_key` is not read.
pub record GetGroupListRequest : Type 0 where
  pub start : ℤ
  pub end : ℤ
  pub sort_order : SortOrder
  pub filter : List Bytes

abbrev name_empty : Error
name_empty = app (validation (codes "group name can not be empty"))

module _ (env : Env) (m : Manager) where
  open env use {State, get_attribute_value, escape_filter, unicode}

  -- The test of one member; a member who is no user is left out.
  unfoldable pub member_found : Bool → Bytes → Exec State Bool
  member_found false username = pure true
  member_found true username = do
    status ←
        attempt
          (is_group_member env m (record { group = m.default_user_group; username = username }))
    rescue status
        (λ e. raise (wrapf (codes "failed to check if member %q exists: %v") (username ∷ []) e))

  -- The loop over the members of the request.
  unfoldable pub member_list : Bool → List Bytes → Exec State (List Bytes)
  unfolding member_found
  member_list strict [] = pure []
  member_list strict (username ∷ usernames) = do
    is_member ← member_found strict username
    rest ← member_list strict usernames
    pure (if is_member then member_value m username ∷ rest else rest)

  abbrev pub group_classes : List Bytes
  group_classes =
      if not m.config.use_rfc2307bis_schema
      then codes "top" ∷ codes "posixGroup" ∷ []
      else codes "top" ∷ codes "groupOfUniqueNames" ∷ codes "posixGroup" ∷ []

  abbrev pub group_attributes : Bytes → ℤ → List Bytes → List Attribute
  group_attributes name gid members =
      record { name = codes "objectClass"; values = group_classes }
      ∷ record { name = codes "cn"; values = escape_dn name ∷ [] }
      ∷ record { name = codes "gidNumber"; values = itoa gid ∷ [] }
      ∷ record { name = m.group_membership_attribute; values = members }
      ∷ []

  -- What follows the checks: the members, the entry and the record of the number.
  unfoldable pub create_group : NewGroupRequest → Bool → ℤ → Exec State (Unit {0})
  unfolding member_list
  create_group req strict new_gid = do
    members ← member_list strict req.members
    if m.config.use_rfc2307bis_schema && is_nil members
        then raise (
            app (
              validation (
                codes
                  "when using RFC2307BIS (not NIS), you must specify at least one existing group member")))
        else do
          nothing ←
              send env
                (add_entry (group_named m req.name) (group_attributes req.name new_gid members))
          update_last_id env m (codes "lastGID") new_gid

  -- `NewGroup`
  unfoldable pub new_group : NewGroupRequest → Bool → Exec State (Unit {0})
  unfolding create_group
  new_group req strict = if is_empty req.name then raise name_empty else do
    found ← find_group env m req.name (codes "dn" ∷ m.group_membership_attribute ∷ [])
    if not (is_nil found) then raise (app (group_already_exists req.name)) else do
      highest_gid ← get_highest_id env m m.group_attribute
      create_group req strict (add_one64 highest_gid)

  -- `DeleteGroup`
  unfoldable pub delete_group : Bytes → Exec State (Unit {0})
  delete_group name =
      if is_empty name
      then raise name_empty
      else if is_protected_group env m name
      then raise
          (app (validation (codes "deleting the default user or admin group is not allowed")))
      else do
        done ← attempt (send env (delete_entry (group_named m name)))
        discard (
            rescue done (λ e. raise (
              if is_error_with_code e no_such_object
              then app (zero_or_multiple_groups name 0)
              else e)))

  -- `UpdateGroup`
  unfoldable pub rename_group : UpdateGroupRequest → Exec State Bytes
  rename_group req =
      if not (is_empty req.new_name) && not (bytes_eq req.new_name req.name)
      then (do
        nothing ← send env (
            modify_dn (record {
              dn = group_named m req.name;
              new_rdn = codes "cn=" ++ req.new_name;
              delete_old_rdn = true;
              new_superior = [];
            }))
        pure req.new_name)
      else pure req.name

  abbrev pub gid_changes : ℤ → List Change
  gid_changes gid =
      if leb_ℤ (pos min_gid) gid
      then record { operation = replace; attribute = codes "gidNumber"; values = itoa gid ∷ [] }
        ∷ []
      else []

  unfoldable pub update_group : UpdateGroupRequest → Exec State (Unit {0})
  unfolding rename_group
  update_group req = if is_empty req.name then raise name_empty else do
    group_name ← rename_group req
    done ← attempt (send env (modify (group_named m group_name) (gid_changes req.gid)))
    discard (
        rescue done
          (λ e. raise (wrapf (codes "failed to modify group %q: %v") (group_name ∷ []) e)))

  -- `countGroups`
  unfoldable pub count_groups : Exec State ℕ
  count_groups = do
    found ← send env (
        search_entries (record {
          base_dn = m.groups_dn;
          filter = codes "(objectClass=posixGroup)";
          attributes = codes "cn" ∷ [];
        }))
    pure (length found)

  -- `GetGroupList`
  unfoldable pub get_group_list : GetGroupListRequest → Exec State GroupList
  unfolding count_groups
  get_group_list req = do
    found ← send env (
        search_entries (record {
          base_dn = m.groups_dn;
          filter =
              codes "(&(objectClass=posixGroup)"
              ++ (parse_filter unicode escape_filter req.filter ++ codes ")");
          attributes = [];
        }))
    total ← count_groups
    let groups = sort_slice (less_group req.sort_order) (group_names env m found)
    pure (record { groups = clip req.start req.end groups; total = total })
