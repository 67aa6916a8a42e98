-- ===== src/Text/Escape/Inverse.antt =====
-- What the result of `escapeDN` holds, how it is undone, and what a second escaping does.
use ldap_manager.Base.{
  ℕ, ◌+◌, ◌*◌, ◌-◌, ◌/◌, ◌%◌, ◌≤◌, ◌<◌, ◌≡◌, refl, ap, ◌∙◌, inl, inr, Bool, true, false, not, ◌||◌,
  [], ◌∷◌, ◌++◌, arith, Bytes, IsBytes, Bool-cases, leb, ◌==◌, if◌then◌else◌, ==_iff, get_or,
  length, All, All-append, all_below, all_below_sound,
}
use ldap_manager.Text.Escape.{
  must_escape_filter, count_escapes, escape_byte, escape_dn, hex, backslash,
}

-- The number that a hexadecimal digit stands for.
abbrev pub hex_value : ℕ → ℕ
hex_value d = if leb d b'9' then d - b'0' else d - b'a' + 10

-- The reader of `\hh` escapes (RFC 4514).
unfoldable pub unescape_dn : Bytes → Bytes
unescape_dn [] = []
unescape_dn (c ∷ []) = c ∷ []
unescape_dn (c ∷ d ∷ []) = c ∷ d ∷ []
unescape_dn (c ∷ d ∷ e ∷ s) =
    let escaped = (hex_value d * 16 + hex_value e) ∷ unescape_dn s in
    let plain = c ∷ unescape_dn (d ∷ e ∷ s) in if c == backslash then escaped else plain

hex_pair : ℕ → Bool
hex_pair c = hex_value (get_or hex (c / 16) 0) * 16 + hex_value (get_or hex (c % 16) 0) == c

hex_pair_table : all_below 256 hex_pair ≡ true
unfolding all_below hex_pair
hex_pair_table = refl

hex_pair_lem :
    (c : ℕ)
    → c < 256
    → hex_value (get_or hex (c / 16) 0) * 16 + hex_value (get_or hex (c % 16) 0) ≡ c
unfolding hex_pair
hex_pair_lem c h = (==_iff _ c).0 (all_below_sound 256 hex_pair c hex_pair_table h)

-- A hexadecimal digit needs no escape.
plain_digit : ℕ → Bool
plain_digit i = not (must_escape_filter (get_or hex i 0))

plain_digit_table : all_below 16 plain_digit ≡ true
unfolding all_below plain_digit must_escape_filter
plain_digit_table = refl

plain_digit_lem : (i : ℕ) → i < 16 → must_escape_filter (get_or hex i 0) ≡ false
unfolding plain_digit
plain_digit_lem i h = ground (arith, all_below_sound 16 plain_digit i plain_digit_table h)

backslash-must_escape : must_escape_filter backslash ≡ true
unfolding must_escape_filter
backslash-must_escape = refl

plain-ne-backslash : (c : ℕ) → must_escape_filter c ≡ false → (c == backslash) ≡ false
plain-ne-backslash c h = elim (Bool-cases (c == backslash)) [
  | inl e ↦ cc (ap must_escape_filter ((==_iff c backslash).0 e), backslash-must_escape)
  | inr n ↦ n
]

unescape-plain :
    (c : ℕ) (s : Bytes) → (c == backslash) ≡ false → unescape_dn (c ∷ s) ≡ c ∷ unescape_dn s
unfolding unescape_dn
unescape-plain c [] h = refl
unescape-plain c (d ∷ []) h = refl
unescape-plain c (d ∷ e ∷ s) h = rw h

unescape-escape_byte :
    (c : ℕ) (s : Bytes) → c < 256 → unescape_dn (escape_byte c ++ s) ≡ c ∷ unescape_dn s
unfolding escape_byte
unescape-escape_byte c s h = elim (Bool-cases (must_escape_filter c)) [
  | inl must ↦ rw must (unfold unescape_dn in ap (λ b. b ∷ unescape_dn s) (hex_pair_lem c h))
  | inr plain ↦ rw plain (unescape-plain c s (plain-ne-backslash c plain))
]

-- Every text of bytes is read back from its escaped form.
pub unescape_dn-escape_dn : (s : Bytes) → IsBytes s → unescape_dn (escape_dn s) ≡ s
unfolding escape_dn
unescape_dn-escape_dn [] _ = unfold unescape_dn in refl
unescape_dn-escape_dn (c ∷ s) (hc, hs) =
    unescape-escape_byte c (escape_dn s) hc ∙ ap (λ t. c ∷ t) (unescape_dn-escape_dn s hs)

-- A byte that may stand in an escaped text: one that needs no escape, or the backslash.
abbrev pub IsSafe : ℕ → Type 0
IsSafe c = ((c == backslash) || not (must_escape_filter c)) ≡ true

plain-IsSafe : (c : ℕ) → must_escape_filter c ≡ false → IsSafe c
plain-IsSafe c h = ground (arith, h)

escape_byte-IsSafe : (c : ℕ) → c < 256 → All IsSafe (escape_byte c)
unfolding escape_byte
escape_byte-IsSafe c h = elim (Bool-cases (must_escape_filter c)) [
  | inl must ↦ rw must (
    refl,
    (
      plain-IsSafe _ (plain_digit_lem (c / 16) (omega arith)),
      (plain-IsSafe _ (plain_digit_lem (c % 16) (omega arith)), tt),
    ),
  )
  | inr plain ↦ rw plain (plain-IsSafe c plain, tt)
]

-- The escaped form of a text of bytes holds no byte that must be escaped, but the backslash.
pub escape_dn-IsSafe : (s : Bytes) → IsBytes s → All IsSafe (escape_dn s)
unfolding escape_dn
escape_dn-IsSafe [] _ = tt
escape_dn-IsSafe (c ∷ s) (hc, hs) =
    All-append IsSafe (escape_byte c) (escape_dn s) (escape_byte-IsSafe c hc)
      (escape_dn-IsSafe s hs)

-- An escape takes two bytes more.
length-escape_dn : (s : Bytes) → length (escape_dn s) ≡ length s + count_escapes s * 2
unfolding escape_dn escape_byte count_escapes
length-escape_dn [] = refl
length-escape_dn (c ∷ s) = elim (Bool-cases (must_escape_filter c)) [
  | inl must ↦ rw must (omega (arith, length-escape_dn s))
  | inr plain ↦ rw plain (omega (arith, length-escape_dn s))
]

count_escapes-append : (s t : Bytes) → count_escapes (s ++ t) ≡ count_escapes s + count_escapes t
unfolding count_escapes
count_escapes-append [] t = omega arith
count_escapes-append (c ∷ s) t = omega (arith, count_escapes-append s t)

-- Each escape leaves a backslash, which a second pass escapes.
count_escapes-le : (s : Bytes) → count_escapes s ≤ count_escapes (escape_dn s)
unfolding escape_dn escape_byte count_escapes
count_escapes-le [] = omega arith
count_escapes-le (c ∷ s) = elim (Bool-cases (must_escape_filter c)) [
  | inl must ↦ rw (must, backslash-must_escape) (omega (arith, count_escapes-le s))
  | inr plain ↦ rw (plain, plain) (omega (arith, count_escapes-le s))
]

-- A second escaping changes every text that the first one changed.
pub escape_dn_twice : (s : Bytes) → escape_dn (escape_dn s) ≡ escape_dn s → count_escapes s ≡ 0
escape_dn_twice s e = omega (arith, length-escape_dn (escape_dn s), ap length e, count_escapes-le s)
