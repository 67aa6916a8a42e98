-- ===== src/Hash/Offered.antt =====
-- The algorithms of `LDAPPasswordHashingAlgorithms`, and those that `Password` takes.
use ldap_manager.Base.{ℕ, ◌≡◌, ◌≢◌, ◌↔◌, ◌⊎◌, inl, inr, refl, List, [], ◌∷◌, Bytes, arith}
use ldap_manager.Base.Int.{ℤ}
use ldap_manager.Exec.{ok}
use ldap_manager.Hash.{
  HashingAlgorithm, default, sha512crypt, sha256crypt, blowfish, extdes, md5crypt, smd5, md5, sha,
  ssha, crypt, clear, other, ldap_password_hashing_algorithms, password,
}
use ldap_manager.Hash.Library.{Digests}

abbrev pub IsListed : HashingAlgorithm → List HashingAlgorithm → Type 0
IsListed a [] = ⊥
IsListed a (b ∷ bs) = (a ≡ b) ⊎ IsListed a bs

-- `Password` takes an algorithm that the service definition names exactly when it is listed.
pub password_iff :
    (d : Digests) (random : ℕ → Bytes) (pw : Bytes) (a : HashingAlgorithm)
    → ((n : ℤ) → a ≢ other n)
    → ((hash : Bytes) × (password d random pw a ≡ ok hash))
      ↔ IsListed a ldap_password_hashing_algorithms
unfolding password ldap_password_hashing_algorithms
password_iff d random pw default h = (λ p. inl refl, λ p. (_, refl))
password_iff d random pw sha512crypt h = (λ p. inr (inl refl), λ p. (_, refl))
password_iff d random pw sha256crypt h = (λ p. inr (inr (inl refl)), λ p. (_, refl))
password_iff d random pw blowfish h = (λ p. absurd (cc (p.1)), λ p. absurd (ground (arith, p)))
password_iff d random pw extdes h = (λ p. absurd (cc (p.1)), λ p. absurd (ground (arith, p)))
password_iff d random pw md5crypt h = (λ p. inr (inr (inr (inl refl))), λ p. (_, refl))
password_iff d random pw smd5 h = (λ p. inr (inr (inr (inr (inl refl)))), λ p. (_, refl))
password_iff d random pw md5 h = (λ p. ground arith, λ p. (_, refl))
password_iff d random pw sha h = (λ p. ground arith, λ p. (_, refl))
password_iff d random pw ssha h = (λ p. ground arith, λ p. (_, refl))
password_iff d random pw crypt h = (λ p. absurd (cc (p.1)), λ p. absurd (ground (arith, p)))
password_iff d random pw clear h = (λ p. ground arith, λ p. (_, refl))
password_iff d random pw (other n) h = absurd (h n refl)
