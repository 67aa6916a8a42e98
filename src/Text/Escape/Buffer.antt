-- ===== src/Text/Escape/Buffer.antt =====
-- The buffer of `escapeDN` of utils.go.
use ldap_manager.Base.{
  ℕ, suc, ◌+◌, ◌*◌, ◌/◌, ◌%◌, ◌≡◌, refl, sym, ap, ◌∙◌, inl, inr, true, false, some, [], ◌∷◌, ◌++◌,
  append_assoc, arith, Bytes, Bool-cases, ◌==◌, get_or, length, length-append, replicate,
}
use ldap_manager.Text.Escape.{
  must_escape_filter, count_escapes, write, fill, escape_dn_run, escape_byte, escape_dn, hex,
  backslash,
}

write-append : (xs ys : Bytes) (y v : ℕ) → write (xs ++ y ∷ ys) (length xs) v ≡ some (xs ++ v ∷ ys)
unfolding write
write-append [] ys y v = refl
write-append (x ∷ xs) ys y v = rw (write-append xs ys y v, write)

-- One more byte behind those written.
next : (xs ys : Bytes) (v : ℕ) → xs ++ v ∷ ys ≡ (xs ++ v ∷ []) ++ ys
next xs ys v = sym (append_assoc xs (v ∷ []) ys)

write_next :
    (xs : Bytes) (n v j : ℕ)
    → j ≡ length xs
    → write (xs ++ replicate (suc n) 0) j v ≡ some ((xs ++ v ∷ []) ++ replicate n 0)
write_next xs n v j e =
    rw e (write-append xs (replicate n 0) 0 v ∙ ap some (next xs (replicate n 0) v))

length-snoc : (xs : Bytes) (v n : ℕ) → n ≡ length xs → n + 1 ≡ length (xs ++ v ∷ [])
length-snoc xs v n e = omega (arith, length-append xs (v ∷ []))

-- The three writes of an escaped byte.
abbrev with_escape : Bytes → ℕ → Bytes
with_escape done c =
    ((done ++ backslash ∷ []) ++ get_or hex (c / 16) 0 ∷ []) ++ get_or hex (c % 16) 0 ∷ []

length-with_escape : (done : Bytes) (c : ℕ) → length done + 3 ≡ length (with_escape done c)
length-with_escape done c =
    let d = done ++ backslash ∷ [] in
    let e = d ++ get_or hex (c / 16) 0 ∷ [] in
    omega (
      arith,
      length-append done (backslash ∷ []),
      length-append d (get_or hex (c / 16) 0 ∷ []),
      length-append e (get_or hex (c % 16) 0 ∷ []),
    )

fill_escaped :
    (c : ℕ) (s done : Bytes) (n : ℕ)
    → must_escape_filter c ≡ true
    → fill (c ∷ s) (done ++ replicate (suc (suc (suc n))) 0) (length done)
      ≡ fill s (with_escape done c ++ replicate n 0) (length (with_escape done c))
unfolding fill
fill_escaped c s done n must =
    let d = done ++ backslash ∷ [] in
    rw
      (
        must,
        write_next done (suc (suc n)) backslash (length done) refl,
        write_next d (suc n) (get_or hex (c / 16) 0) (length done + 1) (length-snoc done _ _ refl),
        write_next (d ++ get_or hex (c / 16) 0 ∷ []) n (get_or hex (c % 16) 0) (length done + 2) (
            omega (
              arith,
              length-append d (get_or hex (c / 16) 0 ∷ []),
              length-append done (backslash ∷ []),
            )),
      )
      (ap (fill s (with_escape done c ++ replicate n 0)) (length-with_escape done c))

fill_copied :
    (c : ℕ) (s done : Bytes) (n : ℕ)
    → must_escape_filter c ≡ false
    → fill (c ∷ s) (done ++ replicate (suc n) 0) (length done)
      ≡ fill s ((done ++ c ∷ []) ++ replicate n 0) (length (done ++ c ∷ []))
unfolding fill
fill_copied c s done n plain =
    rw (plain, write_next done n c (length done) refl)
      (ap (fill s ((done ++ c ∷ []) ++ replicate n 0)) (length-snoc done c _ refl))

-- The loop writes what is left behind what is written, and uses the buffer up.
fill_lem :
    (s done : Bytes) (n : ℕ)
    → n ≡ length s + count_escapes s * 2
    → fill s (done ++ replicate n 0) (length done) ≡ some (done ++ escape_dn s)
fill_lem [] done n e = unfold fill count_escapes escape_dn in rw e
fill_lem (c ∷ s) done n e = elim (Bool-cases (must_escape_filter c)) [
  | inl must ↦
      let m = length s + count_escapes s * 2 in
      rw (three must) (
        fill_escaped c s done m must
        ∙ fill_lem s (with_escape done c) m refl
        ∙ ap some (unfold escape_dn escape_byte in rw must (simp append_assoc)))
  | inr plain ↦
      let m = length s + count_escapes s * 2 in
      rw (one plain) (
        fill_copied c s done m plain
        ∙ fill_lem s (done ++ c ∷ []) m refl
        ∙ ap some (unfold escape_dn escape_byte in rw plain (simp append_assoc)))
]
  where
    three : must_escape_filter c ≡ true → n ≡ suc (suc (suc (length s + count_escapes s * 2)))
    three must = unfold count_escapes in ground arith

    one : must_escape_filter c ≡ false → n ≡ suc (length s + count_escapes s * 2)
    one plain = unfold count_escapes in ground arith

-- With nothing to escape the text is its own escaped form.
pub escape_dn_plain : (s : Bytes) → count_escapes s ≡ 0 → escape_dn s ≡ s
unfolding escape_dn escape_byte count_escapes
escape_dn_plain [] h = refl
escape_dn_plain (c ∷ s) h = elim (Bool-cases (must_escape_filter c)) [
  | inl must ↦ absurd (ground arith)
  | inr plain ↦ rw plain (ap (λ t. c ∷ t) (escape_dn_plain s (ground arith)))
]

-- For every text `escapeDN` ends without an index out of range and returns each byte in turn,
-- escaped where `mustescapeFilter` says so: the buffer has exactly the size that is written.
pub escape_dn_run-eq : (s : Bytes) → escape_dn_run s ≡ some (escape_dn s)
unfolding escape_dn_run
escape_dn_run-eq s = elim (Bool-cases (count_escapes s == 0)) [
  | inl none_escaped ↦ rw none_escaped (ap some (sym (escape_dn_plain s (ground arith))))
  | inr some_escaped ↦ rw some_escaped (fill_lem s [] _ refl)
]
