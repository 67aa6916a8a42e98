-- ===== src/Manager/Creation/Numbers.antt =====
-- The number of a new account.
use ldap_manager.Base.{◌≡◌, ◌⊎◌, refl, inl, arith}
use ldap_manager.Base.Int.{ℤ, pos, negsuc, ◌≤ℤ◌, ltb_ℤ, max_int64, add_one64}
use ldap_manager.Directory.{Env, no_such_object}
use ldap_manager.Error.{is_error_with_code}
use ldap_manager.Exec.{Result, ok, err}
use ldap_manager.Exec.Ensures.{
  Ensures, Ensures-pure, Ensures-raise, Ensures-if, Ensures-bind, Ensures-attempt, Ensures-rescue,
  Ensures-chain,
}
use ldap_manager.Manager.{Manager}
use ldap_manager.Manager.Creation.{retry_highest, next_uid}
use ldap_manager.Manager.Ids.{min_uid, get_highest_id}
use ldap_manager.Manager.Ids.Bounds.{get_highest_id-ge}

-- In the range of accounts, or the least `int`, which follows the greatest one.
abbrev pub IsAccountNumber : ℤ → Type 0
IsAccountNumber n = (pos min_uid ≤ℤ n) ⊎ (n ≡ negsuc max_int64)

add_one64-IsAccountNumber : (n : ℤ) → pos min_uid ≤ℤ n → IsAccountNumber (add_one64 n)
add_one64-IsAccountNumber n h = ground arith

module _ (env : Env) (m : Manager) where
  highest-Ensures : Ensures (λ n. pos min_uid ≤ℤ n) (get_highest_id env m m.account_attribute)
  highest-Ensures = record { at = get_highest_id-ge env m m.account_attribute }

  retry_highest-Ensures :
      (first : Result ℤ)
      → ((n : ℤ) → first ≡ ok n → pos min_uid ≤ℤ n)
      → Ensures (λ n. pos min_uid ≤ℤ n) (retry_highest env m first)
  unfolding retry_highest
  retry_highest-Ensures (ok n) h = Ensures-pure n (h n refl)
  retry_highest-Ensures (err e) h =
      Ensures-if (is_error_with_code e no_such_object) _ _
        (λ b. Ensures-bind _ _ λ repaired. highest-Ensures) (λ b. Ensures-raise e)

  pub next_uid-Ensures : (uid : ℤ) → Ensures IsAccountNumber (next_uid env m uid)
  unfolding next_uid
  next_uid-Ensures uid =
      Ensures-if (ltb_ℤ uid (pos min_uid)) _ _
        (λ small. Ensures-chain _ _ (Ensures-attempt _ highest-Ensures) λ first f.
          Ensures-chain _ _ (Ensures-attempt _ (retry_highest-Ensures first f)) λ answer a.
            Ensures-chain _ _ (Ensures-rescue answer _ a (λ e. Ensures-raise _))
              λ n h. Ensures-pure _ (add_one64-IsAccountNumber n h))
        (λ large. Ensures-pure uid (inl (ground arith)))

  -- Whatever number is asked for and whatever the server answers, a number that is chosen for a new
  -- account is at least 2000, or it is the least `int`, to which the count wraps around.
  pub next_uid-IsAccountNumber :
      (uid : ℤ) (s : env.State) (n : ℤ) → (next_uid env m uid s).0 ≡ ok n → IsAccountNumber n
  next_uid-IsAccountNumber uid s n h = (next_uid-Ensures uid).at s n h
