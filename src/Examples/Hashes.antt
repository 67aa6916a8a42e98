-- ===== src/Examples/Hashes.antt =====
-- The theorems on hash/crypt.go at concrete inputs.
use ldap_manager.Base.{
  ℕ, ◌≡◌, refl, true, some, [], ◌∷◌, ◌++◌, arith, Bytes, codes, has_prefix, length, replicate, take,
  length-replicate,
}
use ldap_manager.Base.Int.{pos}
use ldap_manager.Exec.{ok}
use ldap_manager.Hash.Blowfish.{base64_encode, base64_decode}
use ldap_manager.Hash.Blowfish.Coding.{base64_decode-base64_encode}
use ldap_manager.Hash.Crypt.{crypt_password, verify}
use ldap_manager.Hash.Crypt.Verified.{verify-crypt_password}
use ldap_manager.Hash.Hash64.{hash64, generate_salt, magic_prefix}
use ldap_manager.Hash.Hash64.Buffer.{encoded, hash64-eq, generate_salt-eq}

-- A sum of sixteen bytes, and a source of zeros.
abbrev zero_sum : Bytes → Bytes
zero_sum s = replicate 16 0

abbrev zeros : ℕ → Bytes
zeros k = replicate k 0

hash64-eq_example : hash64 (1 ∷ 2 ∷ 3 ∷ []) ≡ some (encoded (1 ∷ 2 ∷ 3 ∷ []) ++ 0 ∷ [])
hash64-eq_example = hash64-eq (1 ∷ 2 ∷ 3 ∷ [])

generate_salt-eq_example :
    (generate_salt zeros (pos 8) ≡ some (magic_prefix ++ take 8 (encoded (zeros 6))))
    × (length (take 8 (encoded (zeros 6))) ≡ 8)
generate_salt-eq_example = generate_salt-eq zeros (pos 8) (λ k. length-replicate k 0)

verify-crypt_password_example :
    (hash : Bytes) × (crypt_password zero_sum zeros (codes "pw") (codes "$apr1$ab") ≡ some hash)
    × (verify zero_sum zeros (codes "pw") hash ≡ some true)
unfolding has_prefix
verify-crypt_password_example =
    verify-crypt_password zero_sum zeros (λ s. length-replicate {A = ℕ} 16 0) (codes "pw")
      (codes "$apr1$ab") refl

base64_decode-base64_encode_example :
    (t : Bytes) × (base64_encode (codes "pw") ≡ some t) × (base64_decode t ≡ ok (codes "pw"))
base64_decode-base64_encode_example =
    base64_decode-base64_encode (codes "pw") (omega arith) (λ e. cc)
