-- ===== src/Manager/Requests/Groups.antt =====
-- The operations on groups and their members that write.
use ldap_manager.Base.{
  ◌≡◌, Bool, false, not, ◌&&◌, ◌||◌, List, [], ◌∷◌, ◌++◌, Bytes, codes, is_empty, is_nil, bytes_eq,
}
use ldap_manager.Base.Int.{ℤ, add_one64}
use ldap_manager.Directory.{
  Entry, Env, Request, SearchRequest, ModifyDnRequest, search_entries, add_entry, modify, modify_dn,
  delete_entry, replace,
}
use ldap_manager.Error.{Error}
use ldap_manager.Exec.{Exec, ◌>>=◌, send, attempt, rescue, discard}
use ldap_manager.Exec.Keeps.{
  Keeps, Preserves, Keeps-send, Keeps-bind, Keeps-pure, Keeps-raise, Keeps-if, Keeps-attempt,
  Keeps-rescue, Keeps-discard, keeps_rules,
}
use ldap_manager.Manager.{Manager, group_named, is_protected_group}
use ldap_manager.Manager.Groups.{
  NewGroupRequest, UpdateGroupRequest, create_group, new_group, delete_group, rename_group,
  update_group, member_list, group_attributes, gid_changes,
}
use ldap_manager.Manager.Lookup.{update_last_id}
use ldap_manager.Manager.Members.{
  GroupMember, member_change, member_removal, add_group_member, delete_group_member,
}
use ldap_manager.Manager.Requests.Reading.{
  find_group-Keeps, get_highest_id-Keeps, check_exists-Keeps, member_list-Keeps,
}
use ldap_manager.Text.Decimal.{itoa}

-- The request of `updateLastID`.
abbrev pub last_id_change : Manager → Bytes → ℤ → Request
last_id_change m cn new_id = modify (codes "cn=" ++ (cn ++ (codes "," ++ m.config.base_dn))) (
    record { operation = replace; attribute = codes "serialNumber"; values = itoa new_id ∷ [] }
    ∷ [])

module _ (env : Env) (m : Manager) {P : env.State → Type 0} {Allowed : Request → Type 0}
    (keep : Preserves env P Allowed) where
  sends : (r : Request) → Allowed r → Keeps P (send env r)
  sends r a = Keeps-send keep r a

  -- A request whose answer is only looked at when it is an error.
  pub call-Keeps :
      (r : Request)
      → Allowed r
      → (h : Error → Exec env.State (List Entry)) → ((e : Error) → Keeps P (h e))
      → Keeps P (attempt (send env r) >>= λ done. discard (rescue done h))
  call-Keeps r a h k =
      Keeps-bind _ _ (Keeps-attempt _ (sends r a)) (λ done. Keeps-discard _ (Keeps-rescue done h k))

  pub update_last_id-Keeps :
      (cn : Bytes) (new_id : ℤ)
      → Allowed (last_id_change m cn new_id)
      → Keeps P (update_last_id env m cn new_id)
  unfolding update_last_id
  update_last_id-Keeps cn new_id a = call-Keeps _ a _ (λ e. Keeps-raise _)

  -- `DeleteGroup` sends the deletion of the named group, if its name is not empty and not protected.
  pub delete_group-Keeps :
      (name : Bytes)
      → (is_empty name ≡ false
          → is_protected_group env m name ≡ false
          → Allowed (delete_entry (group_named m name)))
      → Keeps P (delete_group env m name)
  unfolding delete_group
  delete_group-Keeps name a =
      Keeps-if (is_empty name) _ _ (λ e. search keeps_rules)
        λ named.
          Keeps-if (is_protected_group env m name) _ _ (λ e. search keeps_rules)
            λ free. call-Keeps _ (a named free) _ (λ e. Keeps-raise _)

  -- `DeleteGroupMember` sends the removal of the member, if the group is not protected or that is
  -- allowed.
  pub delete_group_member-Keeps :
      (req : GroupMember) (allow : Bool)
      → ((not allow && is_protected_group env m req.group) ≡ false
          → Allowed (member_removal env m req))
      → Keeps P (delete_group_member env m req allow)
  unfolding delete_group_member
  delete_group_member-Keeps req allow a =
      Keeps-if (is_empty req.group || is_empty req.username) _ _ (λ e. search keeps_rules)
        λ named.
          Keeps-if (not allow && is_protected_group env m req.group) _ _ (λ e. search keeps_rules)
            λ free. call-Keeps _ (a free) _ (λ e. Keeps-raise _)

  module _ (searches : (r : SearchRequest) → Allowed (search_entries r)) where
    pub add_group_member-Keeps :
        (req : GroupMember) (allow : Bool)
        → Allowed (member_change env m req)
        → Keeps P (add_group_member env m req allow)
    unfolding add_group_member
    add_group_member-Keeps req allow a =
        Keeps-if (is_empty req.group) _ _ (λ e. Keeps-raise _)
          λ named.
            Keeps-if (is_empty req.username) _ _ (λ e. Keeps-raise _)
              λ user.
                Keeps-bind _ _
                  (Keeps-if (not allow && not (is_protected_group env m req.group)) _ _
                    (λ e. check_exists-Keeps env m keep searches req.username) (λ e. Keeps-pure _))
                  (λ x. call-Keeps _ a _ (λ e. Keeps-raise _))

    -- `NewGroup` sends the new entry, which has a member where the schema wants one, and the record
    -- of its number.
    pub create_group-Keeps :
        (req : NewGroupRequest) (strict : Bool) (gid : ℤ)
        → ((members : List Bytes)
            → (m.config.use_rfc2307bis_schema && is_nil members) ≡ false
            → Allowed
                (add_entry (group_named m req.name) (group_attributes env m req.name gid members)))
        → Allowed (last_id_change m (codes "lastGID") gid)
        → Keeps P (create_group env m req strict gid)
    unfolding create_group
    create_group-Keeps req strict gid a b =
        Keeps-bind (member_list env m strict req.members) _
          (member_list-Keeps env m keep searches strict req.members)
          λ members.
            Keeps-if (m.config.use_rfc2307bis_schema && is_nil members) _ _
              (λ e. search keeps_rules)
              λ enough.
                Keeps-bind _ _ (sends _ (a members enough))
                  (λ x. update_last_id-Keeps (codes "lastGID") gid b)

    pub new_group-Keeps :
        (req : NewGroupRequest) (strict : Bool)
        → ((gid : ℤ) (members : List Bytes)
            → (m.config.use_rfc2307bis_schema && is_nil members) ≡ false
            → Allowed
                (add_entry (group_named m req.name) (group_attributes env m req.name gid members)))
        → ((gid : ℤ) → Allowed (last_id_change m (codes "lastGID") gid))
        → Keeps P (new_group env m req strict)
    unfolding new_group
    new_group-Keeps req strict a b =
        Keeps-if (is_empty req.name) _ _ (λ e. search keeps_rules)
          λ named. Keeps-bind _ _ (find_group-Keeps env m keep searches req.name _) λ found.
            Keeps-if (not (is_nil found)) _ _ (λ e. search keeps_rules)
              λ free.
                Keeps-bind _ _ (get_highest_id-Keeps env m keep searches m.group_attribute) λ gid.
                  create_group-Keeps req strict (add_one64 gid) (a (add_one64 gid))
                    (b (add_one64 gid))

  pub rename_group-Keeps :
      (req : UpdateGroupRequest)
      → ((r : ModifyDnRequest) → Allowed (modify_dn r))
      → Keeps P (rename_group env m req)
  unfolding rename_group
  rename_group-Keeps req a =
      Keeps-if (not (is_empty req.new_name) && not (bytes_eq req.new_name req.name)) _ _
        (λ e. Keeps-bind _ _ (sends _ (a _)) (λ x. Keeps-pure _)) (λ e. search keeps_rules)

  pub update_group-Keeps :
      (req : UpdateGroupRequest)
      → ((r : ModifyDnRequest) → Allowed (modify_dn r))
      → ((name : Bytes) → Allowed (modify (group_named m name) (gid_changes env m req.gid)))
      → Keeps P (update_group env m req)
  unfolding update_group
  update_group-Keeps req a b =
      Keeps-if (is_empty req.name) _ _ (λ e. search keeps_rules)
        λ named.
          Keeps-bind _ _ (rename_group-Keeps req a)
            λ name. call-Keeps _ (b name) _ (λ e. Keeps-raise _)
