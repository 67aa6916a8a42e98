-- ===== src/Manager/Groups/Safety.antt =====
-- What `DeleteGroup` and `NewGroup` may send.
use ldap_manager.Base.{◌≡◌, refl, Bool, false, ◌&&◌, List, Bytes, codes, is_empty, is_nil, All}
use ldap_manager.Base.Int.{ℤ}
use ldap_manager.Directory.{Env, Request, search_entries, delete_entry, add_entry, modify}
use ldap_manager.Exec.Traffic.{recording, sent_by, sent_by-All, recording-Preserves}
use ldap_manager.Manager.{Manager, group_named, is_protected_group}
use ldap_manager.Manager.Groups.{NewGroupRequest, group_attributes, delete_group, new_group}
use ldap_manager.Manager.Requests.Groups.{last_id_change, delete_group-Keeps, new_group-Keeps}

module _ (env : Env) (m : Manager) where
  -- The deletion of the group's own entry, when its name is not empty and it is not protected.
  abbrev pub IsDeletion : Bytes → Request → Type 0
  IsDeletion name r =
      (r ≡ delete_entry (group_named m name))
      × (is_empty name ≡ false)
      × (is_protected_group env m name ≡ false)

  -- Whatever the server answers, `DeleteGroup` sends nothing but the deletion of the entry of the
  -- group that it was given, and that only if the name is not empty and is not the name of the
  -- default user or admin group.
  pub delete_group-IsDeletion :
      (name : Bytes) (s : env.State)
      → All (IsDeletion name) (sent_by (delete_group (recording env) m name) s)
  unfolding is_protected_group
  delete_group-IsDeletion name s =
      sent_by-All env (IsDeletion name) _
        (delete_group-Keeps (recording env) m (recording-Preserves env (IsDeletion name)) name
          (λ named free. (refl, named, free)))
        s

  -- A new entry is the group's, and lists members where the schema wants one.
  abbrev pub IsWellPopulated : Bytes → Request → Type 0
  IsWellPopulated name (search_entries r) = Unit
  IsWellPopulated name (add_entry dn attributes) =
      (dn ≡ group_named m name)
      × ((gid : ℤ) × (members : List Bytes) × (attributes ≡ group_attributes env m name gid members)
          × ((m.config.use_rfc2307bis_schema && is_nil members) ≡ false))
  IsWellPopulated name (modify dn changes) =
      (gid : ℤ) × (modify dn changes ≡ last_id_change m (codes "lastGID") gid)
  IsWellPopulated name _ = ⊥

  -- Whatever the server answers, `NewGroup` sends only searches, the new entry of the group and the
  -- record of the last number, and with the RFC2307bis schema the new entry has a member.
  pub new_group-IsWellPopulated :
      (req : NewGroupRequest) (strict : Bool) (s : env.State)
      → All (IsWellPopulated req.name) (sent_by (new_group (recording env) m req strict) s)
  new_group-IsWellPopulated req strict s =
      sent_by-All env (IsWellPopulated req.name) _
        (new_group-Keeps (recording env) m (recording-Preserves env (IsWellPopulated req.name))
          (λ r. tt) req strict (λ gid members enough. (refl, (gid, members, refl, enough)))
          (λ gid. (gid, refl)))
        s
