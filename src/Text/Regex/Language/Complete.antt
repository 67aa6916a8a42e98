-- ===== src/Text/Regex/Language/Complete.antt =====
-- The completeness of `matches`.
use ldap_manager.Base.{
  ℕ, ◌≡◌, ◌⊎◌, refl, sym, ap, subst, ◌∙◌, inl, inr, true, [], ◌∷◌, ◌++◌, arith, Bytes, Bool-cases,
}
use ldap_manager.Text.Regex.{
  Regex, nothing, empty, class, then_, either, star, nullable, sequence, derivative, matches,
}
use ldap_manager.Text.Regex.Language.{Denotes, Repeated, done, piece, choice_iff, sequence_complete}

append-nil_left : (u v : Bytes) → [] ≡ u ++ v → (u ≡ []) × (v ≡ [])
append-nil_left [] v e = (refl, sym e)
append-nil_left (c ∷ u) v e = absurd (cc)

nullable_complete : (r : Regex) → Denotes r [] → nullable r ≡ true
unfolding nullable
nullable_complete nothing d = absurd d
nullable_complete empty d = refl
nullable_complete (class p) (c, e, h) = absurd (cc)
nullable_complete (then_ r q) (u, v, e, a, b) =
    let (eu, ev) = append-nil_left u v e in
    let first = nullable_complete r (subst (Denotes r) eu a) in
    let second = nullable_complete q (subst (Denotes q) ev b) in ground (arith, first, second)
nullable_complete (either r q) (inl a) = ground (arith, nullable_complete r a)
nullable_complete (either r q) (inr b) = ground (arith, nullable_complete q b)
nullable_complete (star r) d = refl

tail_eq : (c d : ℕ) (s t : Bytes) → c ∷ s ≡ d ∷ t → (c ≡ d) × (s ≡ t)
tail_eq c d s t e = (cc, cc)

-- The first piece of a text that is not empty.
first_piece :
    (P : Bytes → Type 0) (t : Bytes)
    → Repeated P t
    → (c : ℕ) (s : Bytes) → t ≡ c ∷ s
    → (u : Bytes) × (v : Bytes) × (s ≡ u ++ v) × P (c ∷ u) × Repeated P v
first_piece P t done c s e = absurd (cc)
first_piece P t (piece d u v p q) c s e =
    let (same, rest) = tail_eq d c (u ++ v) s e in
    (u, v, sym rest, subst (λ x. P (x ∷ u)) same p, q)

then_complete :
    (c : ℕ) (r q : Regex) (s u v : Bytes)
    → ((w : Bytes) → Denotes r (c ∷ w) → Denotes (derivative c r) w)
    → (Denotes q (c ∷ s) → Denotes (derivative c q) s)
    → c ∷ s ≡ u ++ v
    → Denotes r u
    → Denotes q v
    → Denotes (derivative c (then_ r q)) s
unfolding derivative
then_complete c r q s [] v into onto e a b = rw (nullable_complete r a) (
    (choice_iff (sequence (derivative c r) q) (derivative c q) s).1
      (inr (onto (subst (Denotes q) (sym e) b))))
then_complete c r q s (d ∷ u) v into onto e a b =
    let (same, rest) = tail_eq c d s (u ++ v) e in
    let first : Denotes (sequence (derivative c r) q) s =
      subst (Denotes (sequence (derivative c r) q)) (sym rest) (
        sequence_complete (derivative c r) q u v
          (into u (subst (λ x. Denotes r (x ∷ u)) (sym same) a)) b) in
    elim (Bool-cases (nullable r)) [
      | inl h ↦ rw h ((choice_iff (sequence (derivative c r) q) (derivative c q) s).1 (inl first))
      | inr h ↦ rw h first
    ]

either_complete :
    (c : ℕ) (r q : Regex) (s : Bytes)
    → Denotes (derivative c r) s ⊎ Denotes (derivative c q) s
    → Denotes (derivative c (either r q)) s
unfolding derivative
either_complete c r q s d = (choice_iff (derivative c r) (derivative c q) s).1 d

star_complete :
    (c : ℕ) (r : Regex) (s : Bytes)
    → ((w : Bytes) → Denotes r (c ∷ w) → Denotes (derivative c r) w)
    → Denotes (star r) (c ∷ s)
    → Denotes (derivative c (star r)) s
unfolding derivative
star_complete c r s into d =
    let (u, v, e, p, q) = first_piece (Denotes r) (c ∷ s) d c s refl in
    subst (Denotes (sequence (derivative c r) (star r))) (sym e)
      (sequence_complete (derivative c r) (star r) u v (into u p) q)

derivative_complete :
    (c : ℕ) (r : Regex) (s : Bytes) → Denotes r (c ∷ s) → Denotes (derivative c r) s
derivative_complete c nothing s d = absurd d
derivative_complete c empty s d = absurd (cc)
derivative_complete c (class p) s (x, e, h) =
    let (same, rest) = tail_eq c x s [] e in
    let holds : p c ≡ true = ap p same ∙ h in unfold derivative in rw holds rest
derivative_complete c (then_ r q) s (u, v, e, a, b) =
    then_complete c r q s u v (derivative_complete c r) (derivative_complete c q s) e a b
derivative_complete c (either r q) s (inl a) =
    either_complete c r q s (inl (derivative_complete c r s a))
derivative_complete c (either r q) s (inr b) =
    either_complete c r q s (inr (derivative_complete c q s b))
derivative_complete c (star r) s d = star_complete c r s (derivative_complete c r) d

pub matches_complete : (r : Regex) (s : Bytes) → Denotes r s → matches r s ≡ true
unfolding matches
matches_complete r [] d = nullable_complete r d
matches_complete r (c ∷ s) d = matches_complete (derivative c r) s (derivative_complete c r s d)
