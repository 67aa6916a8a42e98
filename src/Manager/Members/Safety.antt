-- ===== src/Manager/Members/Safety.antt =====
-- What `DeleteGroupMember` may send.
use ldap_manager.Base.{◌≡◌, refl, Bool, false, not, ◌&&◌, All}
use ldap_manager.Directory.{Env, Request}
use ldap_manager.Exec.Traffic.{recording, sent_by, sent_by-All, recording-Preserves}
use ldap_manager.Manager.{Manager, is_protected_group}
use ldap_manager.Manager.Members.{GroupMember, member_removal, delete_group_member}
use ldap_manager.Manager.Requests.Groups.{delete_group_member-Keeps}

module _ (env : Env) (m : Manager) where
  -- The removal of the member from the group, when the group is open to it.
  abbrev IsRemoval : GroupMember → Bool → Request → Type 0
  IsRemoval req allow r =
      (r ≡ member_removal env m req) × ((not allow && is_protected_group env m req.group) ≡ false)

  -- Whatever the server answers, `DeleteGroupMember` sends nothing but the removal of the one value
  -- for the user from the one group it was given, and that only if the group is not the default
  -- user or admin group or the caller allows those.
  delete_group_member-IsRemoval :
      (req : GroupMember) (allow : Bool) (s : env.State)
      → All (IsRemoval req allow) (sent_by (delete_group_member (recording env) m req allow) s)
  unfolding is_protected_group
  delete_group_member-IsRemoval req allow s =
      sent_by-All env (IsRemoval req allow) _
        (delete_group_member-Keeps (recording env) m (recording-Preserves env (IsRemoval req allow))
          req allow (λ free. (refl, free)))
        s
