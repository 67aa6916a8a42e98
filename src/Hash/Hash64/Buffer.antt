-- ===== src/Hash/Hash64/Buffer.antt =====
-- The size of the buffer of `Hash64`, and the length of a generated salt.
use Prim.Native.Nat.{bit_or}
use ldap_manager.Base.{
  ℕ, zero, suc, ◌+◌, ◌*◌, ◌/◌, ◌%◌, ◌≤◌, ◌≡◌, refl, ap, false, some, [], ◌∷◌, ◌++◌, arith, Bytes,
  ltb, ◌==◌, if◌then◌else◌, length, length-append, length-take, replicate, take,
}
use ldap_manager.Base.Int.{ℤ, pos, negsuc}
use ldap_manager.Hash.Hash64.{
  hash64_char, shift_left, shift_right, encode, hash_size, hash64, magic_prefix, salt_length,
  random_length, front, generate_salt,
}

-- The characters for the bytes, three bytes by three.
unfoldable pub encoded : Bytes → Bytes
encoded [] = []
encoded (a ∷ []) = hash64_char a ∷ hash64_char (shift_right a 64) ∷ []
encoded (a ∷ b ∷ []) =
    hash64_char a
    ∷ hash64_char (bit_or (shift_right a 64) (shift_left b 4))
    ∷ hash64_char (shift_right b 16)
    ∷ []
encoded (a ∷ b ∷ c ∷ src) =
    hash64_char a
    ∷ hash64_char (bit_or (shift_right a 64) (shift_left b 4))
    ∷ hash64_char (bit_or (shift_right b 16) (shift_left c 16))
    ∷ hash64_char (shift_right c 4)
    ∷ encoded src

length-encoded : (src : Bytes) → length (encoded src) ≡ (length src * 4 + 2) / 3
unfolding encoded
length-encoded [] = refl
length-encoded (a ∷ []) = refl
length-encoded (a ∷ b ∷ []) = refl
length-encoded (a ∷ b ∷ c ∷ src) = omega (arith, length-encoded src)

encode-replicate :
    (src : Bytes) (n extra : ℕ)
    → n ≡ length (encoded src) + extra
    → encode src (replicate n 0) ≡ some (encoded src ++ replicate extra 0)
unfolding encode encoded
encode-replicate [] n extra e =
    let same : n ≡ extra = omega (arith, e) in ap (λ k. some (replicate k 0)) same
encode-replicate (a ∷ []) n extra e =
    let same : n ≡ suc (suc extra) = omega (arith, e) in rw same refl
encode-replicate (a ∷ b ∷ []) n extra e =
    let same : n ≡ suc (suc (suc extra)) = omega (arith, e) in rw same refl
encode-replicate (a ∷ b ∷ c ∷ src) n extra e =
    let left = length (encoded src) + extra in
    let same : n ≡ suc (suc (suc (suc left))) = omega (arith, e) in
    rw (same, encode-replicate src left extra refl) refl

-- The bytes of the buffer that are not written.
abbrev pub unused : ℕ → ℕ
unused n = if n % 6 == 3 then 1 else 0

hash_size-eq : (n : ℕ) → hash_size n ≡ (n * 4 + 2) / 3 + unused n
hash_size-eq n = ground arith

-- For every source `Hash64` ends without an index out of range. Its result is the characters for
-- the source, three bytes by three, and one zero byte behind them if the length is 3 modulo 6.
pub hash64-eq : (src : Bytes) → hash64 src ≡ some (encoded src ++ replicate (unused (length src)) 0)
unfolding hash64
hash64-eq [] = unfold encoded in refl
hash64-eq (a ∷ src) =
    encode-replicate (a ∷ src) (hash_size (length (a ∷ src))) (unused (length (a ∷ src)))
      (omega (arith, hash_size-eq (length (a ∷ src)), length-encoded (a ∷ src)))

-- The eight lengths of a salt: the random bytes give enough characters.
enough_characters : (n : ℤ) → salt_length n ≤ (random_length (salt_length n) * 4 + 2) / 3
enough_characters (pos n) = ground arith
enough_characters (negsuc n) = ground arith

take-append : (n : ℕ) (s t : Bytes) → n ≤ length s → take n (s ++ t) ≡ take n s
take-append zero s t h = refl
take-append (suc n) [] t h = absurd (omega arith)
take-append (suc n) (c ∷ s) t h = ap (λ r. c ∷ r) (take-append n s t (omega arith))

-- If `rand.Read` fills its buffer, `GenerateSalt` ends without an index out of range. It returns the
-- magic prefix with a salt behind it, which has the length that was asked for, brought into the
-- range from 1 to 8, and holds only characters for random bytes.
pub generate_salt-eq :
    (random : ℕ → Bytes) (n : ℤ)
    → ((k : ℕ) → length (random k) ≡ k)
    → (generate_salt random n
        ≡ some (
            magic_prefix
            ++ take (salt_length n) (encoded (random (random_length (salt_length n))))))
      × (length (take (salt_length n) (encoded (random (random_length (salt_length n)))))
          ≡ salt_length n)
unfolding generate_salt
generate_salt-eq random n fills =
    let size = salt_length n in
    let bytes = random (random_length size) in
    let enough : size ≤ length (encoded bytes) =
      omega (arith, enough_characters n, length-encoded bytes, fills (random_length size)) in
    let exact : length (take size (encoded bytes)) ≡ size =
      omega (arith, length-take size (encoded bytes)) in
    (
      rw (hash64-eq bytes)
          (front-long size (encoded bytes) (replicate (unused (length bytes)) 0) enough),
      exact,
    )
  where
    front-long :
        (k : ℕ) (s t : Bytes)
        → k ≤ length s
        → front k (some (s ++ t)) ≡ some (magic_prefix ++ take k s)
    front-long k s t h =
        let long : ltb (length (s ++ t)) k ≡ false = ground (arith, length-append s t) in
        rw (long, take-append k s t h)
