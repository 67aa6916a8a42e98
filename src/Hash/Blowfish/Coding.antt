-- ===== src/Hash/Blowfish/Coding.antt =====
-- Decoding what was encoded.
use ldap_manager.Base.{
  ℕ, ◌+◌, ◌-◌, ◌*◌, ◌/◌, ◌%◌, ◌<◌, ◌≡◌, refl, ap, ◌∙◌, ◌≢◌, inl, inr, Bool-cases, Bool, true, false,
  not, ◌&&◌, Option, none, some, [], ◌∷◌, ◌++◌, arith, Bytes, ◌==◌, if◌then◌else◌, select, length,
  replicate, IsBytes, all_below, all_below_sound,
}
use ldap_manager.Error.{conversion}
use ldap_manager.Exec.{ok, err}
use ldap_manager.Hash.Base64.{
  padding, letter, encode_with, decode_with, decode_quanta, place_from, quantum, onto_rest,
  is_newline,
}
use ldap_manager.Hash.Blowfish.{alphabet, strip, nonempty, base64_encode, base64_decode}

-- The encoding without padding.
unfoldable pub unpadded : Bytes → Bytes
unpadded [] = []
unpadded (a ∷ []) = letter alphabet (a / 4) ∷ letter alphabet (a % 4 * 16) ∷ []
unpadded (a ∷ b ∷ []) =
    letter alphabet (a / 4)
    ∷ letter alphabet (a % 4 * 16 + b / 16)
    ∷ letter alphabet (b % 16 * 4)
    ∷ []
unpadded (a ∷ b ∷ c ∷ s) =
    letter alphabet (a / 4)
    ∷ letter alphabet (a % 4 * 16 + b / 16)
    ∷ letter alphabet (b % 16 * 4 + c / 64)
    ∷ letter alphabet (c % 64)
    ∷ unpadded s

-- What holds of each of the 64 letters: it is neither padding nor an end of a line, and it is found in
-- its place.
abbrev is_place : ℕ → ℕ → Bool
is_place i c = elim (place_from 0 alphabet c) [ none ↦ false | some j ↦ j == i ]

abbrev is_letter : ℕ → Bool
is_letter i =
    let c = letter alphabet i in not (c == padding) && (not (is_newline c) && is_place i c)

letters : (i : ℕ) → i < 64 → is_letter i ≡ true
letters i lt = all_below_sound 64 is_letter i (unfold all_below place_from in refl) lt

letter-place : (i : ℕ) → i < 64 → place_from 0 alphabet (letter alphabet i) ≡ some i
letter-place i lt = ground (arith, letters i lt)

letter-padding : (i : ℕ) → i < 64 → (letter alphabet i == padding) ≡ false
letter-padding i lt = ground (arith, letters i lt)

letter-newline : (i : ℕ) → i < 64 → is_newline (letter alphabet i) ≡ false
letter-newline i lt = ground (arith, letters i lt)

strip-letter :
    (i : ℕ) (s : Bytes) → i < 64 → strip (letter alphabet i ∷ s) ≡ letter alphabet i ∷ strip s
unfolding strip
strip-letter i s lt = ground (arith, letter-padding i lt)

strip-encode_with : (s : Bytes) → IsBytes s → strip (encode_with alphabet s) ≡ unpadded s
unfolding encode_with unpadded
strip-encode_with [] h = unfold strip in refl
strip-encode_with (a ∷ []) (ha, h) =
    rw (strip-letter (a / 4) _ (omega arith), strip-letter (a % 4 * 16) _ (omega arith))
      (unfold strip in refl)
strip-encode_with (a ∷ b ∷ []) (ha, (hb, h)) =
    rw
      (
        strip-letter (a / 4) _ (omega arith),
        strip-letter (a % 4 * 16 + b / 16) _ (omega arith),
        strip-letter (b % 16 * 4) _ (omega arith),
      )
      (unfold strip in refl)
strip-encode_with (a ∷ b ∷ c ∷ s) (ha, (hb, (hc, h))) =
    rw
      (
        strip-letter (a / 4) _ (omega arith),
        strip-letter (a % 4 * 16 + b / 16) _ (omega arith),
        strip-letter (b % 16 * 4 + c / 64) _ (omega arith),
        strip-letter (c % 64) _ (omega arith),
        strip-encode_with s h,
      )
      refl

-- What `base64Decode` puts behind an encoding: by the last group, two, one, or, behind full groups,
-- four letters of padding.
unfoldable tail : Bytes → Bytes
tail [] = replicate 4 padding
tail (a ∷ []) = replicate 2 padding
tail (a ∷ b ∷ []) = replicate 1 padding
tail (a ∷ b ∷ c ∷ s) = tail s

tail-eq : (s : Bytes) → replicate (4 - length (unpadded s) % 4) padding ≡ tail s
unfolding unpadded tail
tail-eq [] = refl
tail-eq (a ∷ []) = refl
tail-eq (a ∷ b ∷ []) = refl
tail-eq (a ∷ b ∷ c ∷ s) =
    let e : 4 - length (unpadded (a ∷ b ∷ c ∷ s)) % 4 ≡ 4 - length (unpadded s) % 4 = omega arith in
    ap (λ (n : ℕ). replicate n padding) e ∙ tail-eq s

abbrev kept : Bytes → Bytes
kept s = select (λ c. not (is_newline c)) s

kept-letter :
    (i : ℕ) (s : Bytes) → i < 64 → kept (letter alphabet i ∷ s) ≡ letter alphabet i ∷ kept s
kept-letter i s lt = ground (arith, letter-newline i lt)

kept-unpadded : (s : Bytes) → IsBytes s → kept (unpadded s ++ tail s) ≡ unpadded s ++ tail s
unfolding unpadded tail
kept-unpadded [] h = refl
kept-unpadded (a ∷ []) (ha, h) =
    rw (kept-letter (a / 4) _ (omega arith), kept-letter (a % 4 * 16) _ (omega arith)) refl
kept-unpadded (a ∷ b ∷ []) (ha, (hb, h)) =
    rw
      (
        kept-letter (a / 4) _ (omega arith),
        kept-letter (a % 4 * 16 + b / 16) _ (omega arith),
        kept-letter (b % 16 * 4) _ (omega arith),
      )
      refl
kept-unpadded (a ∷ b ∷ c ∷ s) (ha, (hb, (hc, h))) =
    rw
      (
        kept-letter (a / 4) _ (omega arith),
        kept-letter (a % 4 * 16 + b / 16) _ (omega arith),
        kept-letter (b % 16 * 4 + c / 64) _ (omega arith),
        kept-letter (c % 64) _ (omega arith),
        kept-unpadded s h,
      )
      refl

-- What the decoder makes of it.
unfoldable expected : Bytes → Option Bytes
expected [] = none
expected (a ∷ []) = some (a ∷ [])
expected (a ∷ b ∷ []) = some (a ∷ b ∷ [])
expected (a ∷ b ∷ c ∷ s) = onto_rest (a ∷ b ∷ c ∷ []) (expected s)

first_byte : (a b : ℕ) → b < 256 → a / 4 * 4 + (a % 4 * 16 + b / 16) / 16 ≡ a
first_byte a b h = omega arith

second_byte :
    (a b c : ℕ)
    → b < 256
    → c < 256
    → (a % 4 * 16 + b / 16) % 16 * 16 + (b % 16 * 4 + c / 64) / 4 ≡ b
second_byte a b c h k = omega arith

third_byte : (b c : ℕ) → c < 256 → (b % 16 * 4 + c / 64) % 4 * 64 + c % 64 ≡ c
third_byte b c h = omega arith

decode_quanta-unpadded :
    (s : Bytes) → IsBytes s → decode_quanta alphabet (unpadded s ++ tail s) ≡ expected s
unfolding unpadded tail expected decode_quanta quantum place_from
decode_quanta-unpadded [] h = unfold place_from in refl
decode_quanta-unpadded (a ∷ []) (ha, h) =
    rw (letter-place (a / 4) (omega arith), letter-place (a % 4 * 16) (omega arith)) (ground arith)
decode_quanta-unpadded (a ∷ b ∷ []) (ha, (hb, h)) =
    rw
      (
        letter-place (a / 4) (omega arith),
        letter-place (a % 4 * 16 + b / 16) (omega arith),
        letter-place (b % 16 * 4) (omega arith),
      )
      (ground arith)
decode_quanta-unpadded (a ∷ b ∷ c ∷ s) (ha, (hb, (hc, h))) =
    rw
      (
        letter-place (a / 4) (omega arith),
        letter-place (a % 4 * 16 + b / 16) (omega arith),
        letter-place (b % 16 * 4 + c / 64) (omega arith),
        letter-place (c % 64) (omega arith),
        decode_quanta-unpadded s h,
      )
      (rw (first_byte a b hb, second_byte a b c hb hc, third_byte b c hc) refl)

expected-eq : (s : Bytes) → expected s ≡ (if length s % 3 == 0 then none else some s)
unfolding expected
expected-eq [] = refl
expected-eq (a ∷ []) = refl
expected-eq (a ∷ b ∷ []) = refl
expected-eq (a ∷ b ∷ c ∷ s) =
    let e : length (a ∷ b ∷ c ∷ s) % 3 ≡ length s % 3 = omega arith in
    rw (e, expected-eq s)
      (elim (Bool-cases (length s % 3 == 0)) [ inl full ↦ rw full refl | inr rest ↦ rw rest refl ])

nonempty-unpadded : (s : Bytes) → s ≢ [] → nonempty (unpadded s) ≡ some (unpadded s)
unfolding unpadded
nonempty-unpadded [] h = absurd (h refl)
nonempty-unpadded (a ∷ []) h = refl
nonempty-unpadded (a ∷ b ∷ []) h = refl
nonempty-unpadded (a ∷ b ∷ c ∷ s) h = refl

-- `base64Encode` returns a text for any bytes but the empty ones, and `base64Decode` makes the bytes
-- again of that text, unless their number is a multiple of 3: then it fails.
pub base64_decode-base64_encode :
    (s : Bytes)
    → IsBytes s
    → s ≢ []
    → (t : Bytes) × (base64_encode s ≡ some t)
      × (base64_decode t ≡ (if length s % 3 == 0 then err conversion else ok s))
unfolding base64_encode base64_decode decode_with
base64_decode-base64_encode s bytes h = (
  unpadded s,
  rw (strip-encode_with s bytes) (nonempty-unpadded s h),
  rw (tail-eq s, kept-unpadded s bytes, decode_quanta-unpadded s bytes, expected-eq s)
      (elim (Bool-cases (length s % 3 == 0)) [ inl full ↦ rw full refl | inr rest ↦ rw rest refl ]),
)
