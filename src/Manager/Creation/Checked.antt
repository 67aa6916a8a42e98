-- ===== src/Manager/Creation/Checked.antt =====
-- What `NewAccount` refuses before it sends anything.
use ldap_manager.Base.{
  ◌≡◌, ◌⊎◌, refl, inl, inr, Bool, true, false, not, ◌||◌, [], ◌∷◌, ◌++◌, arith, Bytes, codes,
  Bool-cases, is_empty, is_nil, if◌then◌else◌,
}
use ldap_manager.Directory.{Env}
use ldap_manager.Error.{app, account_validation}
use ldap_manager.Exec.{err, ◌>>=◌}
use ldap_manager.Hash.{HashingAlgorithm}
use ldap_manager.Manager.{Manager}
use ldap_manager.Manager.Creation.{new_account}
use ldap_manager.Manager.Validation.{
  Account, valid_email, valid_username, valid_password, invalid_fields, valid_account_request,
}

-- An account with a name, a password, an address that is valid, and both names of the person.
abbrev pub IsComplete : Account → Type 0
IsComplete account =
    (is_empty account.username ≡ false)
    × (is_empty account.password ≡ false)
    × (valid_email account.email ≡ true)
    × (is_empty account.first_name ≡ false)
    × (is_empty account.last_name ≡ false)

-- The list of `ValidAccountRequest` is empty only if each of its parts is.
no_fields :
    (b c d e f : Bool) (u v w x y : Bytes)
    → is_nil (
        (if b then u ∷ [] else [])
        ++ ((if c then v ∷ [] else [])
            ++ ((if d then w ∷ [] else [])
                ++ ((if e then x ∷ [] else []) ++ (if f then y ∷ [] else [])))))
      ≡ true
    → (b ≡ false) × (c ≡ false) × (d ≡ false) × (e ≡ false) × (f ≡ false)
no_fields false false false false false u v w x y h = (refl, refl, refl, refl, refl)
no_fields true c d e f u v w x y h = absurd (cc)
no_fields false true d e f u v w x y h = absurd (cc)
no_fields false false true e f u v w x y h = absurd (cc)
no_fields false false false true f u v w x y h = absurd (cc)
no_fields false false false false true u v w x y h = absurd (cc)

invalid_fields-IsComplete :
    (account : Account) → is_nil (invalid_fields account) ≡ true → IsComplete account
unfolding invalid_fields
invalid_fields-IsComplete account h =
    let (b, c, d, e, f) =
      no_fields (is_empty account.username || not (valid_username account.username))
        (is_empty account.password || not (valid_password account.password))
        (is_empty account.email || not (valid_email account.email)) (is_empty account.first_name)
        (is_empty account.last_name) (codes "username") (codes "password") (codes "email")
        (codes "first name") (codes "last name") h in
    (ground (arith, b), ground (arith, c), ground (arith, d), e, f)

module _ (env : Env) (m : Manager) where
  -- Any account is complete, or `NewAccount` refuses it with the list of its missing and invalid
  -- fields, sends nothing and leaves the server as it was.
  pub new_account-IsComplete :
      (account : Account) (algorithm : HashingAlgorithm) (s : env.State)
      → IsComplete account
        ⊎ (new_account env m account algorithm s
            ≡ (err (app (account_validation (invalid_fields account))), s))
  unfolding new_account valid_account_request ◌>>=◌
  new_account-IsComplete account algorithm s = elim (Bool-cases (is_nil (invalid_fields account))) [
    | inl none_invalid ↦ inl (invalid_fields-IsComplete account none_invalid)
    | inr invalid ↦ inr (rw invalid refl)
  ]
