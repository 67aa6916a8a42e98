-- ===== src/Manager/Accounts/Rebound.antt =====
-- As whom the connection is bound after `AuthenticateUser`.
use ldap_manager.Base.{◌≡◌, refl, sym, subst, ◌||◌, List, [], ◌∷◌, ◌++◌, codes, is_empty}
use ldap_manager.Directory.{
  Env, Entry, Request, SearchRequest, search_entries, add_entry, modify, modify_dn, delete_entry,
  bind,
}
use ldap_manager.Exec.{
  Result, ok, err, Exec, pure, attempt, send, discard, answered, and_then, ◌>>=◌,
}
use ldap_manager.Exec.Keeps.{
  Keeps, Keeps-if, Keeps-bind, Keeps-lift, Keeps-raise, Keeps-pure, Keeps-rescue,
}
use ldap_manager.Exec.Traffic.{recording, sent_by}
use ldap_manager.Manager.{Manager}
use ldap_manager.Manager.Accounts.{LoginRequest, bind_admin, authenticate_user}

-- The bind of the administrator.
abbrev pub admin_bind : Manager → Request
admin_bind m = bind (codes "cn=admin," ++ m.config.base_dn) m.config.admin_password

-- Nobody was bound, or the last bind was the administrator's; the last request is in front.
abbrev pub IsAdminBound : Manager → List Request → Type 0
IsAdminBound m [] = Unit
IsAdminBound m (bind dn pw ∷ earlier) = bind dn pw ≡ admin_bind m
IsAdminBound m (search_entries r ∷ earlier) = IsAdminBound m earlier
IsAdminBound m (add_entry dn attributes ∷ earlier) = IsAdminBound m earlier
IsAdminBound m (modify dn changes ∷ earlier) = IsAdminBound m earlier
IsAdminBound m (modify_dn r ∷ earlier) = IsAdminBound m earlier
IsAdminBound m (delete_entry dn ∷ earlier) = IsAdminBound m earlier

module _ (env : Env) (m : Manager) where
  abbrev Bound : List Request × env.State → Type 0
  Bound s = IsAdminBound m s.0

  answered-state :
      {S : Type 0} (r : Result (List Entry)) (s : S) → (and_then r (λ a. pure tt) s).1 ≡ s
  unfolding pure
  answered-state (ok a) s = refl
  answered-state (err e) s = refl

  rebind : (s : List Request × env.State) → Bound (bind_admin (recording env) m s).1
  unfolding bind_admin discard send ◌>>=◌
  rebind s =
      let (a, t) = env.perform (admin_bind m) s.1 in
      let after : List Request × env.State = (admin_bind m ∷ s.0, t) in
      subst Bound (sym (answered-state (answered a) after)) refl

  search-Keeps : (r : SearchRequest) → Keeps Bound (send (recording env) (search_entries r))
  unfolding send
  search-Keeps r = record { after = λ s p. p }

  -- Whatever the first call does, the administrator is bound when the second one has returned.
  rebound-Keeps :
      {A B : Type 0} (first : Exec (List Request × env.State) A)
      (next : Result A → Exec (List Request × env.State) B)
      → ((outcome : Result A) → Keeps Bound (next outcome))
      → Keeps Bound (
          attempt first >>= λ outcome. attempt (bind_admin (recording env) m) >>= λ r. next outcome)
  unfolding ◌>>=◌
  rebound-Keeps first next k = record {
    after = λ s p.
        let (outcome, t) = first s in
        (k outcome).after (bind_admin (recording env) m t).1 (rebind t);
  }

  -- Whatever the server answers, after `AuthenticateUser` the last bind that was sent is the
  -- administrator's, or none was sent: no path leaves the connection bound as the user.
  pub authenticate_user-IsAdminBound :
      (req : LoginRequest) (s : env.State)
      → IsAdminBound m (sent_by (authenticate_user (recording env) m req) s)
  unfolding authenticate_user
  authenticate_user-IsAdminBound req s =
      let keeps : Keeps Bound (authenticate_user (recording env) m req) =
        Keeps-if (is_empty req.username || is_empty req.password) _ _ (λ e. Keeps-raise _)
          λ given. Keeps-bind _ _ (search-Keeps _) λ found. Keeps-bind _ _ (Keeps-lift _) λ user.
            rebound-Keeps _ _ λ bound.
              Keeps-bind _ _ (Keeps-rescue bound _ (λ e. Keeps-raise _))
                (λ nothing. Keeps-pure user) in
      keeps.after ([], s) tt
