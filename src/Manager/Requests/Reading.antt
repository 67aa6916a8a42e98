-- ===== src/Manager/Requests/Reading.antt =====
-- The operations that only search.
use ldap_manager.Base.{Bool, true, false, Option, none, some, List, [], ◌∷◌, Bytes}
use ldap_manager.Base.Int.{ℤ}
use ldap_manager.Directory.{Env, Request, SearchRequest, search_entries}
use ldap_manager.Exec.{◌>>=◌}
use ldap_manager.Exec.Keeps.{Keeps, Preserves, Keeps-send, Keeps-bind, Keeps-pure, keeps_rules}
use ldap_manager.Manager.{Manager}
use ldap_manager.Manager.Accounts.{GetUserListRequest, count_accounts, get_user_list, get_account}
use ldap_manager.Manager.Groups.{
  GetGroupListRequest, count_groups, get_group_list, member_found, member_list,
}
use ldap_manager.Manager.Ids.{IdKind, traverse, highest_of_kind, id_kind, get_highest_id}
use ldap_manager.Manager.Lookup.{find_group, get_group_gid, get_group_by_gid}
use ldap_manager.Manager.Members.{
  GroupMember, GetGroupRequest, get_group, is_group_member, get_user_groups, get_group_page,
  check_exists,
}

module _ (env : Env) (m : Manager) {P : env.State → Type 0} {Allowed : Request → Type 0}
    (keep : Preserves env P Allowed)
    (searches : (r : SearchRequest) → Allowed (search_entries r)) where
  pub send_search-Keeps :
      (r : SearchRequest) → Keeps P (ldap_manager.Exec.send env (search_entries r))
  send_search-Keeps r = Keeps-send keep (search_entries r) (searches r)

  pub find_group-Keeps :
      (name : Bytes) (attributes : List Bytes) → Keeps P (find_group env m name attributes)
  unfolding find_group
  find_group-Keeps name attributes = search (keeps_rules, send_search-Keeps)

  pub get_group_gid-Keeps : (name : Bytes) → Keeps P (get_group_gid env m name)
  unfolding get_group_gid
  get_group_gid-Keeps name = search (keeps_rules, send_search-Keeps)

  pub get_group_by_gid-Keeps : (gid : ℤ) → Keeps P (get_group_by_gid env m gid)
  unfolding get_group_by_gid
  get_group_by_gid-Keeps gid = search (keeps_rules, send_search-Keeps)

  traverse-Keeps : (kind : IdKind) (cached : Option ℤ) → Keeps P (traverse env m kind cached)
  unfolding traverse
  traverse-Keeps kind none = search (keeps_rules, send_search-Keeps)
  traverse-Keeps kind (some n) = search keeps_rules

  highest_of_kind-Keeps :
      (attribute : Bytes) (kind : Option IdKind) → Keeps P (highest_of_kind env m attribute kind)
  unfolding highest_of_kind
  highest_of_kind-Keeps attribute none = search keeps_rules
  highest_of_kind-Keeps attribute (some kind) =
      search (keeps_rules, send_search-Keeps, traverse-Keeps)

  pub get_highest_id-Keeps : (attribute : Bytes) → Keeps P (get_highest_id env m attribute)
  unfolding get_highest_id
  get_highest_id-Keeps attribute = highest_of_kind-Keeps attribute (id_kind env m attribute)

  pub get_group-Keeps : (name : Bytes) → Keeps P (get_group env m name)
  unfolding get_group
  get_group-Keeps name = search (keeps_rules, send_search-Keeps)

  pub is_group_member-Keeps : (req : GroupMember) → Keeps P (is_group_member env m req)
  unfolding is_group_member
  is_group_member-Keeps req = search (keeps_rules, find_group-Keeps)

  pub get_user_groups-Keeps : (username : Bytes) → Keeps P (get_user_groups env m username)
  unfolding get_user_groups
  get_user_groups-Keeps username = search (keeps_rules, send_search-Keeps)

  pub get_group_page-Keeps : (req : GetGroupRequest) → Keeps P (get_group_page env m req)
  unfolding get_group_page
  get_group_page-Keeps req = search (keeps_rules, get_group-Keeps)

  pub check_exists-Keeps : (username : Bytes) → Keeps P (check_exists env m username)
  unfolding check_exists
  check_exists-Keeps username = search (keeps_rules, is_group_member-Keeps)

  pub count_groups-Keeps : Keeps P (count_groups env m)
  unfolding count_groups
  count_groups-Keeps = search (keeps_rules, send_search-Keeps)

  pub get_group_list-Keeps : (req : GetGroupListRequest) → Keeps P (get_group_list env m req)
  unfolding get_group_list
  get_group_list-Keeps req = search (keeps_rules, send_search-Keeps, count_groups-Keeps)

  pub count_accounts-Keeps : Keeps P (count_accounts env m)
  unfolding count_accounts
  count_accounts-Keeps = search (keeps_rules, send_search-Keeps)

  pub get_user_list-Keeps : (req : GetUserListRequest) → Keeps P (get_user_list env m req)
  unfolding get_user_list
  get_user_list-Keeps req = search (keeps_rules, send_search-Keeps, count_accounts-Keeps)

  pub get_account-Keeps : (username : Bytes) → Keeps P (get_account env m username)
  unfolding get_account
  get_account-Keeps username = search (keeps_rules, send_search-Keeps)

  member_found-Keeps :
      (strict : Bool) (username : Bytes) → Keeps P (member_found env m strict username)
  unfolding member_found
  member_found-Keeps false username = search keeps_rules
  member_found-Keeps true username = search (keeps_rules, is_group_member-Keeps)

  pub member_list-Keeps :
      (strict : Bool) (usernames : List Bytes) → Keeps P (member_list env m strict usernames)
  unfolding member_list
  member_list-Keeps strict [] = search keeps_rules
  member_list-Keeps strict (username ∷ usernames) =
      Keeps-bind (member_found env m strict username) _ (member_found-Keeps strict username)
        λ is_member.
          Keeps-bind (member_list env m strict usernames) _ (member_list-Keeps strict usernames)
            λ rest. Keeps-pure _
