-- ===== src/Manager/Requests/Accounts.antt =====
-- The operations on accounts that write.
use ldap_manager.Base.{
  ◌≡◌, ◌⊎◌, inl, inr, refl, Bool, true, not, List, [], ◌∷◌, ◌++◌, Bytes, codes, is_empty, is_nil,
}
use ldap_manager.Directory.{
  Entry, Env, Request, SearchRequest, search_entries, modify, modify_dn, Change,
}
use ldap_manager.Error.{Error}
use ldap_manager.Exec.Ensures.{Ensures, Ensures-pure, Ensures-if, Ensures-bind}
use ldap_manager.Exec.Keeps.{
  Keeps, Preserves, Keeps-send, Keeps-bind, Keeps-pure, Keeps-lift, Keeps-raise, Keeps-if,
  Keeps-attempt, Keeps-rescue, Keeps-bind_ensured,
}
use ldap_manager.Hash.{HashingAlgorithm}
use ldap_manager.Manager.{Manager, account_named}
use ldap_manager.Manager.Accounts.{is_no_such_member}
use ldap_manager.Manager.Creation.{hashed_or_error, is_member_already_exists}
use ldap_manager.Manager.Members.{GroupMember, member_change, member_removal}
use ldap_manager.Manager.Requests.Groups.{
  add_group_member-Keeps, delete_group_member-Keeps, call-Keeps,
}
use ldap_manager.Manager.Requests.Reading.{send_search-Keeps, get_user_groups-Keeps}
use ldap_manager.Manager.Update.{
  UpdateAccountRequest, migrate_groups, rename_account, password_changes, modify_account,
  update_user, update_account, leave_error, join_error, name_changes, contact_changes,
  number_changes, is_renamed, replaced,
}
use ldap_manager.Manager.Validation.{Account}
use ldap_manager.Text.Escape.{escape_dn}

-- No change, or one of the password.
abbrev pub IsPassword : List Change → Type 0
IsPassword changes =
    (changes ≡ []) ⊎ ((hashed : Bytes) × (changes ≡ replaced (codes "userPassword") hashed))

password_changes-Ensures :
    (env : Env) (m : Manager) (update : Account) (algorithm : HashingAlgorithm)
    → Ensures IsPassword (password_changes env m update algorithm)
unfolding password_changes
password_changes-Ensures env m update algorithm =
    Ensures-if (is_empty update.password) _ _ (λ e. Ensures-pure [] (inl refl))
      λ e. Ensures-bind _ _ λ hashed. Ensures-pure _ (inr (hashed, refl))

-- All changes of an entry that `UpdateAccount` sends.
abbrev pub account_changes : Bytes → Bytes → List Change → Account → Bool → List Change
account_changes given_name sn password update is_admin =
    name_changes given_name sn update
    ++ (contact_changes update ++ (password ++ number_changes is_admin update))

-- The renaming of an entry to a name, which is not escaped.
abbrev pub renaming : Manager → Bytes → Bytes → Request
renaming m old new = modify_dn (record {
  dn = account_named m old;
  new_rdn = m.account_attribute ++ (codes "=" ++ new);
  delete_old_rdn = true;
  new_superior = [];
})

module _ (env : Env) (m : Manager) {P : env.State → Type 0} {Allowed : Request → Type 0}
    (keep : Preserves env P Allowed)
    (searches : (r : SearchRequest) → Allowed (search_entries r)) where
  leave_error-Keeps :
      (old new group : Bytes) (e : Error) → Keeps P (leave_error env m old new group e)
  leave_error-Keeps old new group e =
      Keeps-if (is_no_such_member e) _ _ (λ h. Keeps-pure tt) (λ h. Keeps-raise _)

  join_error-Keeps :
      (old new group : Bytes) (e : Error) → Keeps P (join_error env m old new group e)
  join_error-Keeps old new group e =
      Keeps-if (is_member_already_exists e) _ _ (λ h. Keeps-pure tt) (λ h. Keeps-raise _)

  pub hashed_or_error-Keeps :
      (pw : Bytes) (algorithm : HashingAlgorithm) → Keeps P (hashed_or_error env m pw algorithm)
  unfolding hashed_or_error
  hashed_or_error-Keeps pw algorithm =
      Keeps-bind _ _ (Keeps-attempt _ (record { after = λ s p. p }))
        λ answer. Keeps-rescue answer _ (λ e. Keeps-raise _)

  module _ (adds : (req : GroupMember) → Allowed (member_change env m req))
      (removes : (req : GroupMember) → Allowed (member_removal env m req)) where
    migrate_groups-Keeps :
        (old new : Bytes) (groups : List Bytes) → Keeps P (migrate_groups env m old new groups)
    unfolding migrate_groups
    migrate_groups-Keeps old new [] = Keeps-pure tt
    migrate_groups-Keeps old new (group ∷ groups) =
        Keeps-bind _ _
          (Keeps-attempt _ (delete_group_member-Keeps env m keep _ true (λ h. removes _)))
          λ left. Keeps-bind _ _ (Keeps-rescue left _ (leave_error-Keeps old new group)) λ x.
            Keeps-bind _ _
              (Keeps-attempt _ (add_group_member-Keeps env m keep searches _ true (adds _)))
              λ joined.
                Keeps-bind _ _ (Keeps-rescue joined _ (join_error-Keeps old new group))
                  λ y. migrate_groups-Keeps old new groups

    rename_account-Keeps :
        (old new : Bytes) → Allowed (renaming m old new) → Keeps P (rename_account env m old new)
    unfolding rename_account
    rename_account-Keeps old new renames =
        Keeps-bind _ _ (Keeps-attempt _ (send_search-Keeps env m keep searches _)) λ answer.
          Keeps-bind _ _ (Keeps-rescue answer _ (λ e. Keeps-raise _)) λ taken.
            Keeps-bind _ _
              (Keeps-if (not (is_nil taken)) _ _ (λ h. Keeps-raise _) (λ h. Keeps-pure tt))
              λ x. Keeps-bind _ _ (Keeps-send keep _ renames) λ y.
                Keeps-bind _ _ (Keeps-attempt _ (get_user_groups-Keeps env m keep searches new))
                  λ listed.
                    Keeps-bind _ _ (Keeps-rescue listed _ (λ e. Keeps-raise _))
                      λ groups. migrate_groups-Keeps old new groups.groups

  password_changes-Keeps :
      (update : Account) (algorithm : HashingAlgorithm)
      → Keeps P (password_changes env m update algorithm)
  unfolding password_changes
  password_changes-Keeps update algorithm =
      Keeps-if (is_empty update.password) _ _ (λ e. Keeps-pure _)
        λ e. Keeps-bind _ _ (hashed_or_error-Keeps _ _) λ hashed. Keeps-pure _

  modify_account-Keeps :
      (user : Entry) (dn : Bytes) (update : Account) (algorithm : HashingAlgorithm)
      (is_admin : Bool)
      → ((given_name sn : Bytes) (password : List Change)
          → IsPassword password
          → Allowed (modify dn (account_changes given_name sn password update is_admin)))
      → Keeps P (modify_account env m user dn update algorithm is_admin)
  unfolding modify_account
  modify_account-Keeps user dn update algorithm is_admin a =
      Keeps-bind_ensured _ _ (password_changes-Keeps update algorithm)
        (λ s p e. (password_changes-Ensures env m update algorithm).at s p e)
        λ password is_password.
          call-Keeps env m keep _
            (a (env.get_attribute_value user (codes "givenName"))
              (env.get_attribute_value user (codes "sn")) password is_password)
            _ (λ e. Keeps-raise _)

  module _ (adds : (req : GroupMember) → Allowed (member_change env m req))
      (removes : (req : GroupMember) → Allowed (member_removal env m req)) where
    pub update_user-Keeps :
        (username : Bytes) (update : Account) (algorithm : HashingAlgorithm) (is_admin : Bool)
        → Allowed (renaming m username update.username)
        → ((dn given_name sn : Bytes) (password : List Change)
            → IsPassword password
            → Allowed (modify dn (account_changes given_name sn password update is_admin)))
        → Keeps P (update_user env m username update algorithm is_admin)
    unfolding update_user
    update_user-Keeps username update algorithm is_admin renames a =
        Keeps-bind _ _ (Keeps-attempt _ (send_search-Keeps env m keep searches _)) λ answer.
          Keeps-bind _ _ (Keeps-rescue answer _ (λ e. Keeps-raise _)) λ found.
            Keeps-bind _ _ (Keeps-lift _) λ user.
              Keeps-bind _ _
                (Keeps-if (is_renamed env m username update) _ _
                  (λ h. rename_account-Keeps adds removes username update.username renames)
                  (λ h. Keeps-pure tt))
                λ x.
                  Keeps-bind _ _ (modify_account-Keeps user _ update algorithm is_admin (a _))
                    (λ y. Keeps-pure _)

    pub update_account-Keeps :
        (req : UpdateAccountRequest) (algorithm : HashingAlgorithm) (is_admin : Bool)
        → Allowed (renaming m (escape_dn req.username) req.update.username)
        → ((dn given_name sn : Bytes) (password : List Change)
            → IsPassword password
            → Allowed (modify dn (account_changes given_name sn password req.update is_admin)))
        → Keeps P (update_account env m req algorithm is_admin)
    unfolding update_account
    update_account-Keeps req algorithm is_admin renames a =
        update_user-Keeps _ req.update algorithm is_admin renames a
