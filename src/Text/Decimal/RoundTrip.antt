-- ===== src/Text/Decimal/RoundTrip.antt =====
-- `Atoi` on what `Itoa` writes.
use native.Mathlib.Nat.{pow-suc}
use ldap_manager.Base.{
  ℕ, zero, suc, ◌+◌, ◌-◌, ◌*◌, ◌/◌, ◌%◌, ◌^◌, ◌≤◌, ◌<◌, ◌≡◌, ◌≢◌, refl, ap, ◌∙◌, inl, inr, [], ◌∷◌,
  ◌++◌, arith, Bytes, Bool-cases, ltb,
}
use ldap_manager.Base.Int.{ℤ, pos, negsuc, max_int64, IsInt64}
use ldap_manager.Text.Decimal.{
  parsed, Unsigned, number, bad_digit, overflow, digits, itoa, read_digits, atoi, max_uint64,
}

abbrev continue : Unsigned → (ℕ → Unsigned) → Unsigned
continue (number n) f = f n
continue bad_digit f = bad_digit
continue overflow f = overflow

read_digits-append :
    (s t : Bytes) (n : ℕ) → read_digits (s ++ t) n ≡ continue (read_digits s n) (read_digits t)
unfolding read_digits
read_digits-append [] t n = refl
read_digits-append (c ∷ s) t n = ground (arith, read_digits-append s t (n * 10 + (c - b'0')))

read_last :
    (n d : ℕ)
    → d < 10
    → n * 10 + d ≤ max_uint64
    → read_digits ((b'0' + d) ∷ []) n ≡ number (n * 10 + d)
unfolding read_digits
read_last n d h k = ground arith

read_digits-digits :
    (f n : ℕ) → n < 10 ^ f → n ≤ max_uint64 → n ≢ 0 → read_digits (digits f n) 0 ≡ number n
unfolding digits
read_digits-digits zero n h k z = absurd (omega arith)
read_digits-digits (suc f) n h k z = elim (Bool-cases (ltb n 10)) [
  | inl small ↦ rw small (read_last 0 n (ground arith) (omega arith) ∙ ap number (omega arith))
  | inr large ↦
      rw
        (
          large,
          read_digits-append (digits f (n / 10)) _ 0,
          read_digits-digits f (n / 10) (omega (arith, pow-suc 10 f)) (omega arith) (ground arith),
        )
        (read_last (n / 10) (n % 10) (omega arith) (omega arith) ∙ ap number (omega arith))
]

digits-ne-nil : (f n : ℕ) → digits (suc f) n ≢ []
unfolding digits
digits-ne-nil f n e = elim (Bool-cases (ltb n 10)) [
  | inl small ↦ cc (rw small at e)
  | inr large ↦ snoc-ne-nil (digits f (n / 10)) _ (rw large at e)
]
  where
    snoc-ne-nil : (xs : Bytes) (y : ℕ) → xs ++ y ∷ [] ≢ []
    snoc-ne-nil [] y e = cc
    snoc-ne-nil (x ∷ xs) y e = cc

digits-zero : (f : ℕ) → read_digits (digits (suc f) 0) 0 ≡ number 0
unfolding digits read_digits
digits-zero f = refl

-- A text that the loop reads has a digit in front, and no sign.
first_digit : (c : ℕ) (s : Bytes) {n : ℕ} → read_digits (c ∷ s) 0 ≡ number n → (b'0' ≤ c)
unfolding read_digits
first_digit c s e = ground arith

atoi_positive :
    (s : Bytes) (n : ℕ)
    → s ≢ []
    → read_digits s 0 ≡ number n
    → n ≤ max_int64
    → atoi s ≡ parsed (pos n)
unfolding atoi
atoi_positive [] n h e k = absurd (h refl)
atoi_positive (c ∷ s) n h e k = ground (arith, first_digit c s e)

atoi_negative :
    (s : Bytes) (n : ℕ)
    → s ≢ []
    → read_digits s 0 ≡ number (suc n)
    → n ≤ max_int64
    → atoi (b'-' ∷ s) ≡ parsed (negsuc n)
unfolding atoi
atoi_negative [] n h e k = absurd (h refl)
atoi_negative (c ∷ s) n h e k = ground arith

reads : (n : ℕ) → n ≤ max_int64 + 1 → read_digits (digits 20 n) 0 ≡ number n
reads zero h = digits-zero 19
reads (suc n) h = read_digits-digits 20 (suc n) (omega arith) (omega arith) (omega arith)

-- Every `int` is read back from its decimal print, with no error.
pub atoi-itoa : (n : ℤ) → IsInt64 n → atoi (itoa n) ≡ parsed n
unfolding itoa
atoi-itoa (pos n) h = atoi_positive (digits 20 n) n (digits-ne-nil 19 n) (reads n (omega arith)) h
atoi-itoa (negsuc n) h =
    atoi_negative (digits 20 (suc n)) n (digits-ne-nil 19 (suc n)) (reads (suc n) (omega arith)) h
