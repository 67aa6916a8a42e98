-- ===== src/Manager/Accounts/Deletion.antt =====
-- What `DeleteAccount` may send.
use ldap_manager.Base.{◌≡◌, refl, Bool, true, false, List, [], ◌∷◌, Bytes, is_empty, All}
use ldap_manager.Directory.{Env, Request, SearchRequest, search_entries, modify, delete_entry}
use ldap_manager.Error.{Error}
use ldap_manager.Exec.Keeps.{
  Keeps, Preserves, Keeps-if, Keeps-bind, Keeps-raise, Keeps-pure, Keeps-rescue, Keeps-attempt,
  Keeps-send, Keeps-discard,
}
use ldap_manager.Exec.Traffic.{recording, sent_by, sent_by-All, recording-Preserves}
use ldap_manager.Manager.{Manager, account_named}
use ldap_manager.Manager.Accounts.{
  is_remove_last_group_member, is_no_such_member, removal_failed, leave_groups, leave_all_groups,
  delete_account,
}
use ldap_manager.Manager.Members.{member_removal}
use ldap_manager.Manager.Requests.Groups.{delete_group_member-Keeps}
use ldap_manager.Manager.Requests.Reading.{get_user_groups-Keeps}

module _ (env : Env) (m : Manager) {P : env.State → Type 0} {Allowed : Request → Type 0}
    (keep : Preserves env P Allowed) (username : Bytes)
    (removes : (group : Bytes)
      → Allowed (member_removal env m (record { group = group; username = username }))) where
  removal_failed-Keeps :
      (group : Bytes) (e : Error) → Keeps P (removal_failed env m username group e)
  removal_failed-Keeps group e =
      Keeps-if (is_remove_last_group_member e) _ _ (λ h. Keeps-raise e)
        λ other. Keeps-if (is_no_such_member e) _ _ (λ h. Keeps-pure tt) (λ h. Keeps-raise _)

  leave_groups-Keeps : (groups : List Bytes) → Keeps P (leave_groups env m username groups)
  unfolding leave_groups
  leave_groups-Keeps [] = Keeps-pure tt
  leave_groups-Keeps (group ∷ groups) =
      Keeps-bind _ _
        (Keeps-attempt _ (delete_group_member-Keeps env m keep _ true (λ h. removes group)))
        λ done.
          Keeps-bind _ _ (Keeps-rescue done _ (removal_failed-Keeps group))
            λ x. leave_groups-Keeps groups

  pub delete_account-Keeps :
      (keep_groups : Bool)
      → ((r : SearchRequest) → Allowed (search_entries r))
      → (is_empty username ≡ false → Allowed (delete_entry (account_named m username)))
      → Keeps P (delete_account env m username keep_groups)
  unfolding delete_account leave_all_groups
  delete_account-Keeps keep_groups searches deletes =
      Keeps-if (is_empty username) _ _ (λ e. Keeps-raise _)
        λ named.
          Keeps-bind _ _
            (Keeps-if keep_groups _ _ (λ e. Keeps-pure tt)
              λ leave.
                Keeps-bind _ _
                  (Keeps-attempt _ (get_user_groups-Keeps env m keep searches username))
                  λ answer.
                    Keeps-bind _ _ (Keeps-rescue answer _ (λ e. Keeps-raise _))
                      λ groups. leave_groups-Keeps groups.groups)
            λ x. Keeps-discard _ (Keeps-send keep _ (deletes named))

module _ (env : Env) (m : Manager) where
  -- A search, the removal of the user from a group, or the deletion of the user's own entry.
  abbrev pub IsOfUser : Bytes → Request → Type 0
  IsOfUser username (search_entries r) = Unit
  IsOfUser username (modify dn changes) =
      (group : Bytes) × (modify dn changes
        ≡ member_removal env m (record { group = group; username = username }))
  IsOfUser username (delete_entry dn) =
      (dn ≡ account_named m username) × (is_empty username ≡ false)
  IsOfUser username _ = ⊥

  -- Whatever the server answers, `DeleteAccount` sends only searches, removals of the one user from
  -- groups, and the deletion of the user's entry, which it sends for no empty name.
  pub delete_account-IsOfUser :
      (username : Bytes) (keep_groups : Bool) (s : env.State)
      → All (IsOfUser username) (sent_by (delete_account (recording env) m username keep_groups) s)
  delete_account-IsOfUser username keep_groups s =
      sent_by-All env (IsOfUser username) _
        (delete_account-Keeps (recording env) m (recording-Preserves env (IsOfUser username))
          username (λ group. (group, refl)) keep_groups (λ r. tt) (λ named. (refl, named)))
        s
