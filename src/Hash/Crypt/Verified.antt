-- ===== src/Hash/Crypt/Verified.antt =====
-- `Verify` on what `Crypt` makes, and that the loops and accesses of `Crypt` stay in range.
use ldap_manager.Base.{
  ℕ, zero, suc, ◌+◌, ◌%◌, ◌<◌, leb, subst, sym, ◌-◌, ◌/◌, ◌≤◌, ◌≡◌, ◌≢◌, refl, ap, ◌∙◌, inl, inr,
  true, false, some, List, [], ◌∷◌, ◌++◌, arith, Bytes, codes, ltb, ◌==◌, ==_iff, Bool-cases,
  bytes_eq, bytes_eq_refl, has_prefix, length, length-append, length-take, take, All, Lacks,
}
use ldap_manager.Hash.Crypt.{
  dollar, after, get_elem?, slice_to, picked, places, round_text, blocks, length_bits, cut,
  reordered, joined, rounds, first_sum, md5_crypt, crypt_password, verify,
}
use ldap_manager.Hash.Hash64.{magic_prefix, hash64}
use ldap_manager.Hash.Hash64.Buffer.{hash64-eq}
use ldap_manager.Text.Split.{split, onto_first, split-append, split-Lacks}

take-Lacks : (c n : ℕ) (s : Bytes) → Lacks c s → Lacks c (take n s)
take-Lacks c zero s h = tt
take-Lacks c (suc n) [] h = tt
take-Lacks c (suc n) (d ∷ s) (h, k) = (h, take-Lacks c n s k)

cut-Lacks : (c : ℕ) (s : Bytes) → Lacks c s → Lacks c (cut s)
cut-Lacks c s h = elim (Bool-cases (ltb 8 (length s))) [
  | inl long ↦ rw long (take-Lacks c 8 s h)
  | inr short ↦ rw short h
]

length-cut : (s : Bytes) → length (cut s) ≤ 8
length-cut s = elim (Bool-cases (ltb 8 (length s))) [
  | inl long ↦ rw long (omega (arith, length-take 8 s))
  | inr short ↦ rw short (ground arith)
]

cut_twice : (s : Bytes) → cut (cut s) ≡ cut s
cut_twice s =
    let short : ltb 8 (length (cut s)) ≡ false = ground (arith, length-cut s) in rw short refl

has_prefix-rest : (s p : Bytes) → has_prefix s p ≡ true → (rest : Bytes) × (s ≡ p ++ rest)
unfolding has_prefix
has_prefix-rest s [] h = (s, refl)
has_prefix-rest [] (d ∷ p) h = absurd (cc)
has_prefix-rest (c ∷ s) (d ∷ p) h =
    let both : ((c == d) ≡ true) × (has_prefix s p ≡ true) = ground arith in
    let (rest, e) = has_prefix-rest s p both.1 in
    (rest, ap (λ x. x ∷ s) ((==_iff c d).0 both.0) ∙ ap (λ t. d ∷ t) e)

onto_first-ne-nil : (c : ℕ) (parts : List Bytes) → onto_first c parts ≢ []
onto_first-ne-nil c [] e = cc
onto_first-ne-nil c (p ∷ ps) e = cc

split-ne-nil : (s : Bytes) → split dollar s ≢ []
unfolding split
split-ne-nil [] e = cc
split-ne-nil (c ∷ s) e = elim (Bool-cases (c == dollar)) [
  | inl same ↦ cc (rw same at e)
  | inr other ↦ onto_first-ne-nil c (split dollar s) (rw other at e)
]

-- The first part of a text holds no separator.
split-first :
    (s : Bytes) → (p : Bytes) × (ps : List Bytes) × (split dollar s ≡ p ∷ ps) × Lacks dollar p
split-first s = first (split dollar s) refl (split-Lacks dollar s)
  where
    first :
        (parts : List Bytes)
        → split dollar s ≡ parts
        → All (Lacks dollar) (split dollar s)
        → (p : Bytes) × (ps : List Bytes) × (split dollar s ≡ p ∷ ps) × Lacks dollar p
    first [] e h = absurd (split-ne-nil s e)
    first (p ∷ ps) e h = (p, ps, e, (rw e at h).0)

-- What the loops need: with a sum of 16 bytes and at least as much fuel as the key has bytes, the first
-- loop of `Crypt` writes as many bytes of the sum as the key has.
slice_to-some : (s : Bytes) (n : ℕ) → n ≤ length s → slice_to s n ≡ some (take n s)
slice_to-some s n h = let fits : leb n (length s) ≡ true = ground (arith, h) in rw fits refl

length-blocks :
    (sum : Bytes) (fuel count : ℕ)
    → length sum ≡ 16
    → count ≤ fuel
    → (t : Bytes) × (blocks fuel count sum ≡ some t) × (length t ≡ count)
unfolding blocks
length-blocks sum zero count h k =
    (take count sum, slice_to-some sum count (omega arith), omega (arith, length-take count sum))
length-blocks sum (suc f) count h k = elim (Bool-cases (ltb 16 count)) [
  | inl more ↦
      let (t, e, l) = length-blocks sum f (count - 16) h (omega arith) in
      (sum ++ t, rw (more, e) refl, ground (arith, length-append sum t))
  | inr last ↦ (
    take count sum,
    rw last (slice_to-some sum count (ground arith)),
    ground (arith, length-take count sum),
  )
]

-- The loop over the bits of the length takes only the first byte of a key that has one.
length_bits-some :
    (fuel count : ℕ) (key : Bytes)
    → count ≤ length key
    → (t : Bytes) × (length_bits fuel count key ≡ some t)
unfolding length_bits
length_bits-some zero count key h = ([], refl)
length_bits-some (suc f) count key h = elim (Bool-cases (count == 0)) [
  | inl done ↦ ([], rw done refl)
  | inr more ↦
      let (t, e) = length_bits-some f (count / 2) key (omega arith) in
      elim (Bool-cases (count % 2 == 0)) [
        | inl even ↦ (take 1 key ++ t, rw (more, even, e, slice_to-some key 1 (ground arith)) refl)
        | inr odd ↦ (0 ∷ t, rw (more, odd, e) refl)
      ]
]

-- It does not depend on its fuel, once that is not below the length.
length_bits-fuel :
    (f g count : ℕ) (key : Bytes)
    → count ≤ f
    → count ≤ g
    → length_bits f count key ≡ length_bits g count key
unfolding length_bits
length_bits-fuel zero zero count key h k = refl
length_bits-fuel zero (suc g) count key h k =
    let done : (count == 0) ≡ true = ground arith in rw done refl
length_bits-fuel (suc f) zero count key h k =
    let done : (count == 0) ≡ true = ground arith in rw done refl
length_bits-fuel (suc f) (suc g) count key h k = elim (Bool-cases (count == 0)) [
  | inl done ↦ rw done refl
  | inr more ↦
      let smaller : count / 2 ≤ f = ground arith in
      let fits : count / 2 ≤ g = ground arith in
      rw (more, length_bits-fuel f g (count / 2) key smaller fits) refl
]

get_elem?-some : (s : Bytes) (i : ℕ) → i < length s → (c : ℕ) × (get_elem? s i ≡ some c)
get_elem?-some [] i h = absurd (omega arith)
get_elem?-some (c ∷ s) zero h = (c, refl)
get_elem?-some (c ∷ s) (suc i) h = get_elem?-some s i (omega arith)

picked-some :
    (sum : Bytes) (is : List ℕ)
    → All (λ i. i < length sum) is
    → (t : Bytes) × (picked sum is ≡ some t)
picked-some sum [] h = ([], refl)
picked-some sum (i ∷ is) (h, hs) =
    let (c, e) = get_elem?-some sum i h in
    let (t, k) = picked-some sum is hs in (c ∷ t, rw (e, k) refl)

places-lt_16 : All (λ i. i < 16) places
places-lt_16 = ground arith

reordered-some : (sum : Bytes) → length sum ≡ 16 → (t : Bytes) × (reordered sum ≡ some t)
reordered-some sum h =
    picked-some sum places (subst (λ n. All (λ i. i < n) places) (sym h) places-lt_16)

module _ (md5 : Bytes → Bytes) (random : ℕ → Bytes) where
  crypt_password-parts :
      (key rest p : Bytes) (ps : List Bytes)
      → split dollar rest ≡ p ∷ ps
      → crypt_password md5 random key (magic_prefix ++ rest) ≡ md5_crypt md5 random key (cut p)
  unfolding crypt_password has_prefix split
  crypt_password-parts key rest p ps e = rw e refl

  module _ (size : (s : Bytes) → length (md5 s) ≡ 16) where
    length-rounds :
        (key salt : Bytes) (left round : ℕ) (sum : Bytes)
        → length sum ≡ 16
        → length (rounds md5 random key salt left round sum) ≡ 16
    unfolding rounds
    length-rounds key salt zero round sum h = h
    length-rounds key salt (suc left) round sum h =
        length-rounds key salt left (round + 1) _ (size (round_text md5 random key salt round sum))

    first_sum-some :
        (key salt : Bytes)
        → (sum : Bytes) × (first_sum md5 random key salt ≡ some sum) × (length sum ≡ 16)
    unfolding first_sum
    first_sum-some key salt =
        let (full, e, _) =
          length-blocks (md5 (key ++ (salt ++ key))) (length key) (length key) (size _)
            (omega arith) in
        let (bits, k) = length_bits-some (length key) (length key) key (omega arith) in
        (md5 (key ++ (magic_prefix ++ (salt ++ (full ++ bits)))), rw (e, k) refl, size _)

    -- The result of the rounds stands behind the prefix, the salt and a dollar sign.
    md5_crypt-form :
        (key salt : Bytes)
        → (tail : Bytes) × (md5_crypt md5 random key salt
            ≡ some (magic_prefix ++ (salt ++ dollar ∷ tail)))
    unfolding md5_crypt
    md5_crypt-form key salt =
        let (sum, e, l) = first_sum-some key salt in
        let (s, k) = reordered-some _ (length-rounds key salt 1000 0 sum l) in
        (
          _,
          ap
                (λ o. after o λ x.
                  after (reordered (rounds md5 random key salt 1000 0 x))
                    λ y. joined salt (hash64 y))
                e
              ∙ ap (λ o. after o λ y. joined salt (hash64 y)) k
              ∙ ap (joined salt) (hash64-eq s),
        )

  -- Let an MD5 sum have 16 bytes. For every key and every salt that begins with the magic prefix,
  -- `Crypt` ends without an index out of range and returns a text with which `Verify` accepts the
  -- key.
  pub verify-crypt_password :
      ((s : Bytes) → length (md5 s) ≡ 16)
      → (key salt : Bytes) → has_prefix salt magic_prefix ≡ true
      → (hash : Bytes) × (crypt_password md5 random key salt ≡ some hash)
        × (verify md5 random key hash ≡ some true)
  verify-crypt_password size key salt h =
      let (rest, e) = has_prefix-rest salt magic_prefix h in
      let (p, ps, parts, lacks) = split-first rest in
      let (tail, form) = md5_crypt-form size key (cut p) in
      let made : crypt_password md5 random key salt
          ≡ some (magic_prefix ++ (cut p ++ dollar ∷ tail)) =
        ap (crypt_password md5 random key) e ∙ crypt_password-parts key rest p ps parts ∙ form in
      let again : crypt_password md5 random key (magic_prefix ++ (cut p ++ dollar ∷ tail))
          ≡ some (magic_prefix ++ (cut p ++ dollar ∷ tail)) =
        crypt_password-parts key (cut p ++ dollar ∷ tail) (cut p) (split dollar tail)
          (split-append dollar (cut p) tail (cut-Lacks dollar p lacks))
        ∙ ap (md5_crypt md5 random key) (cut_twice p)
        ∙ form in
      (
        magic_prefix ++ (cut p ++ dollar ∷ tail),
        made,
        unfold verify in rw again (ap some (bytes_eq_refl _)),
      )

  -- With the text "invalid magic prefix" in the place of a hash, `Verify` accepts every key.
  pub verify_invalid :
      (key : Bytes) → verify md5 random key (codes "invalid magic prefix") ≡ some true
  unfolding verify crypt_password has_prefix bytes_eq
  verify_invalid key = refl
