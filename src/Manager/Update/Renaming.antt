-- ===== src/Manager/Update/Renaming.antt =====
-- What becomes of the memberships of a user who is renamed.
use ldap_manager.Base.{
  ◌≡◌, refl, sym, ap, subst, ◌∙◌, not, [], ◌∷◌, ◌++◌, Bytes, codes, is_nil, All,
}
use ldap_manager.Directory.{Env, Request, search_entries, entries}
use ldap_manager.Exec.{pure, ok, ◌>>=◌, send}
use ldap_manager.Exec.Ensures.{attempt-eq-ok, Ensures-rescue, Ensures-raise}
use ldap_manager.Exec.Keeps.{
  Keeps, Keeps-send, Keeps-bind, Keeps-bind_ensured, Keeps-bind_known, Preserves, Keeps-pure,
  Keeps-raise, Keeps-if, Keeps-attempt, Keeps-rescue,
}
use ldap_manager.Exec.Traffic.{recording, sent_by}
use ldap_manager.Manager.{Manager, member_value}
use ldap_manager.Manager.Members.{GroupList, get_user_groups}
use ldap_manager.Manager.Requests.Accounts.{renaming}
use ldap_manager.Manager.Requests.Reading.{send_search-Keeps, get_user_groups-Keeps}
use ldap_manager.Manager.Update.{rename_account, migrate_groups}

-- The search for the groups that list a user.
abbrev pub groups_of : Manager → Bytes → Request
groups_of m username = search_entries (record {
  base_dn = m.groups_dn;
  filter =
      codes "(&(objectClass=posixGroup)("
      ++ (m.group_membership_attribute ++ (codes "=" ++ (member_value m username ++ codes "))")));
  attributes = codes "cn" ∷ [];
})

-- A search, or the renaming of the entry.
abbrev pub LeavesGroups : Manager → Bytes → Bytes → Request → Type 0
LeavesGroups m old new (search_entries r) = Unit
LeavesGroups m old new r = r ≡ renaming m old new

-- An invariant of the server by which no group lists the new name: a search for such groups finds
-- none, and it lasts while the server is searched and the entry is renamed.
pub record IsUnlisted (env : Env) (m : Manager) (old new : Bytes) (P : env.State → Type 0)
    : Type 0 where
  pub finds_none : (s : env.State) → P s → (env.perform (groups_of m new) s).0 ≡ entries []
  pub lasts : Preserves env P (LeavesGroups m old new)

module _ (env : Env) (m : Manager) (old new : Bytes) (P : env.State → Type 0)
    (law : IsUnlisted env m old new P) where
  abbrev E : Env
  E = recording env

  abbrev Sound : E.State → Type 0
  Sound s = All (LeavesGroups m old new) s.0 × P s.1

  Sound-Preserves : Preserves E Sound (LeavesGroups m old new)
  Sound-Preserves = record { step = λ r a s p. ((a, p.0), law.lasts.step r a s.1 p.1) }

  no_groups :
      (s : E.State)
      → Sound s
      → (l : GroupList) → (get_user_groups E m new s).0 ≡ ok l
      → l.groups ≡ []
  unfolding get_user_groups send ◌>>=◌ pure
  no_groups s p l e =
      let found : ok (record { groups = []; total = 0 }) ≡ ok l =
        rw (law.finds_none s.1 p.1) at e in
      let same : record { groups = []; total = 0 } ≡ l = cc in sym (ap (λ k. k.groups) same)

  rename_account-Keeps : Keeps Sound (rename_account E m old new)
  unfolding rename_account migrate_groups
  rename_account-Keeps =
      Keeps-bind _ _ (Keeps-attempt _ (send_search-Keeps E m Sound-Preserves (λ r. tt) _)) λ answer.
        Keeps-bind _ _ (Keeps-rescue answer _ (λ e. Keeps-raise _)) λ taken.
          Keeps-bind _ _
            (Keeps-if (not (is_nil taken)) _ _ (λ h. Keeps-raise _) (λ h. Keeps-pure tt))
            λ x. Keeps-bind _ _ (Keeps-send Sound-Preserves _ refl) λ y.
              Keeps-bind_known {Q = λ r. (l : GroupList) → r ≡ ok l → l.groups ≡ []} _ _
                (Keeps-attempt _ (get_user_groups-Keeps E m Sound-Preserves (λ r. tt) new))
                (λ s p r e l h. no_groups s p l (attempt-eq-ok _ s r e ∙ h))
                λ listed h.
                  Keeps-bind_ensured _ _ (Keeps-rescue listed _ (λ e. Keeps-raise _))
                    (λ s l e.
                      (Ensures-rescue {Q = λ l. l.groups ≡ []} listed _ h (λ x. Ensures-raise _)).at
                        s l e)
                    λ l none.
                      subst (λ gs. Keeps Sound (migrate_groups E m old new gs)) (sym none)
                        (Keeps-pure tt)

  -- Let no group list the new name, as `IsUnlisted` says, when the renaming of a user begins. Then
  -- whatever else the server answers, the renaming sends only searches and the renaming of the
  -- user's entry: it sends no removal of the old name from a group.
  pub rename_account-LeavesGroups :
      (s : env.State)
      → P s
      → All (LeavesGroups m old new) (sent_by (rename_account (recording env) m old new) s)
  rename_account-LeavesGroups s p = (rename_account-Keeps.after ([], s) (tt, p)).0
