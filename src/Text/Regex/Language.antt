-- ===== src/Text/Regex/Language.antt =====
-- The texts that a regular expression stands for, and the soundness of `matches`.
pub mod Complete
use ldap_manager.Base.{
  ℕ, ◌≡◌, ◌⊎◌, ◌↔◌, refl, sym, ap, subst, ◌∙◌, inl, inr, Bool, true, false, ◌&&◌, ◌||◌, List, [],
  ◌∷◌, ◌++◌, arith, Bytes, Bool-cases, if◌then◌else◌,
}
use ldap_manager.Text.Regex.{
  Regex, nothing, empty, class, then_, either, star, nullable, sequence, choice, derivative,
  matches,
}

-- Texts that are put together from pieces, none of them empty.
pub data Repeated (P : Bytes → Type 0) : Bytes → Type 0 where
  done : Repeated P []
  piece : (c : ℕ) (u v : Bytes) → P (c ∷ u) → Repeated P v → Repeated P (c ∷ (u ++ v))

-- The language of an expression.
abbrev pub Denotes : Regex → Bytes → Type 0
Denotes nothing s = ⊥
Denotes empty s = s ≡ []
Denotes (class p) s = (c : ℕ) × (s ≡ c ∷ []) × (p c ≡ true)
Denotes (then_ r q) s = (u : Bytes) × (v : Bytes) × (s ≡ u ++ v) × Denotes r u × Denotes q v
Denotes (either r q) s = Denotes r s ⊎ Denotes q s
Denotes (star r) s = Repeated (Denotes r) s

sequence_sound : (r q : Regex) (s : Bytes) → Denotes (sequence r q) s → Denotes (then_ r q) s
sequence_sound nothing q s d = absurd d
sequence_sound empty q s d = ([], s, refl, refl, d)
sequence_sound (class p) q s d = d
sequence_sound (then_ a b) q s d = d
sequence_sound (either a b) q s d = d
sequence_sound (star a) q s d = d

-- `choice` only leaves out an expression without texts.
pub choice_iff : (r q : Regex) (s : Bytes) → Denotes (choice r q) s ↔ (Denotes r s ⊎ Denotes q s)
choice_iff nothing q s = (inr, λ d. elim d [ inl a ↦ absurd a | inr b ↦ b ])
choice_iff empty nothing s = (inl, λ d. elim d [ inl a ↦ a | inr b ↦ absurd b ])
choice_iff empty empty s = (λ d. d, λ d. d)
choice_iff empty (class o) s = (λ d. d, λ d. d)
choice_iff empty (then_ a b) s = (λ d. d, λ d. d)
choice_iff empty (either a b) s = (λ d. d, λ d. d)
choice_iff empty (star a) s = (λ d. d, λ d. d)
choice_iff (class p) nothing s = (inl, λ d. elim d [ inl a ↦ a | inr b ↦ absurd b ])
choice_iff (class p) empty s = (λ d. d, λ d. d)
choice_iff (class p) (class o) s = (λ d. d, λ d. d)
choice_iff (class p) (then_ a b) s = (λ d. d, λ d. d)
choice_iff (class p) (either a b) s = (λ d. d, λ d. d)
choice_iff (class p) (star a) s = (λ d. d, λ d. d)
choice_iff (then_ x y) nothing s = (inl, λ d. elim d [ inl a ↦ a | inr b ↦ absurd b ])
choice_iff (then_ x y) empty s = (λ d. d, λ d. d)
choice_iff (then_ x y) (class o) s = (λ d. d, λ d. d)
choice_iff (then_ x y) (then_ a b) s = (λ d. d, λ d. d)
choice_iff (then_ x y) (either a b) s = (λ d. d, λ d. d)
choice_iff (then_ x y) (star a) s = (λ d. d, λ d. d)
choice_iff (either x y) nothing s = (inl, λ d. elim d [ inl a ↦ a | inr b ↦ absurd b ])
choice_iff (either x y) empty s = (λ d. d, λ d. d)
choice_iff (either x y) (class o) s = (λ d. d, λ d. d)
choice_iff (either x y) (then_ a b) s = (λ d. d, λ d. d)
choice_iff (either x y) (either a b) s = (λ d. d, λ d. d)
choice_iff (either x y) (star a) s = (λ d. d, λ d. d)
choice_iff (star x) nothing s = (inl, λ d. elim d [ inl a ↦ a | inr b ↦ absurd b ])
choice_iff (star x) empty s = (λ d. d, λ d. d)
choice_iff (star x) (class o) s = (λ d. d, λ d. d)
choice_iff (star x) (then_ a b) s = (λ d. d, λ d. d)
choice_iff (star x) (either a b) s = (λ d. d, λ d. d)
choice_iff (star x) (star a) s = (λ d. d, λ d. d)

pub sequence_complete :
    (r q : Regex) (u v : Bytes) → Denotes r u → Denotes q v → Denotes (sequence r q) (u ++ v)
sequence_complete nothing q u v d e = absurd d
sequence_complete empty q u v d e = subst (λ w. Denotes q (w ++ v)) (sym d) e
sequence_complete (class p) q u v d e = (u, v, refl, d, e)
sequence_complete (then_ a b) q u v d e = (u, v, refl, d, e)
sequence_complete (either a b) q u v d e = (u, v, refl, d, e)
sequence_complete (star a) q u v d e = (u, v, refl, d, e)

nullable_sound : (r : Regex) → nullable r ≡ true → Denotes r []
unfolding nullable
nullable_sound nothing h = absurd (cc)
nullable_sound empty h = refl
nullable_sound (class p) h = absurd (cc)
nullable_sound (then_ r q) h =
    let both : (nullable r ≡ true) × (nullable q ≡ true) = ground arith in
    ([], [], refl, nullable_sound r both.0, nullable_sound q both.1)
nullable_sound (either r q) h = elim (Bool-cases (nullable r)) [
  | inl first ↦ inl (nullable_sound r first)
  | inr other ↦ inr (nullable_sound q (ground (arith, other)))
]
nullable_sound (star r) h = done

-- The byte belongs to the first part, or the first part is empty.
first_sound :
    (c : ℕ) (r q : Regex) (s : Bytes)
    → ((u : Bytes) → Denotes (derivative c r) u → Denotes r (c ∷ u))
    → Denotes (sequence (derivative c r) q) s
    → Denotes (then_ r q) (c ∷ s)
first_sound c r q s into d =
    let (u, v, e, a, b) = sequence_sound (derivative c r) q s d in
    (c ∷ u, v, ap (λ t. c ∷ t) e, into u a, b)

branch_sound :
    (c : ℕ) (r q : Regex) (s : Bytes)
    → ((u : Bytes) → Denotes (derivative c r) u → Denotes r (c ∷ u))
    → (Denotes (derivative c q) s → Denotes q (c ∷ s))
    → Denotes r []
    → Denotes (sequence (derivative c r) q) s ⊎ Denotes (derivative c q) s
    → Denotes (then_ r q) (c ∷ s)
branch_sound c r q s into onto n (inl a) = first_sound c r q s into a
branch_sound c r q s into onto n (inr b) = ([], c ∷ s, refl, n, onto b)

derivative_sound : (c : ℕ) (r : Regex) (s : Bytes) → Denotes (derivative c r) s → Denotes r (c ∷ s)
unfolding derivative
derivative_sound c nothing s d = absurd d
derivative_sound c empty s d = absurd d
derivative_sound c (class p) s d = elim (Bool-cases (p c)) [
  | inl e ↦ (c, ap (λ t. c ∷ t) (rw e at d), e)
  | inr e ↦ absurd (rw e at d)
]
derivative_sound c (then_ r q) s d = elim (Bool-cases (nullable r)) [
  | inl e ↦
      branch_sound c r q s (derivative_sound c r) (derivative_sound c q s) (nullable_sound r e)
        ((choice_iff (sequence (derivative c r) q) (derivative c q) s).0 (rw e at d))
  | inr e ↦ first_sound c r q s (derivative_sound c r) (rw e at d)
]
derivative_sound c (either r q) s d = elim ((choice_iff (derivative c r) (derivative c q) s).0 d) [
  | inl a ↦ inl (derivative_sound c r s a)
  | inr b ↦ inr (derivative_sound c q s b)
]
derivative_sound c (star r) s d =
    let (u, v, e, a, b) = sequence_sound (derivative c r) (star r) s d in
    subst (λ t. Repeated (Denotes r) (c ∷ t)) (sym e) (piece c u v (derivative_sound c r u a) b)

-- A text that `matches` accepts is in the language of the expression.
pub matches_sound : (r : Regex) (s : Bytes) → matches r s ≡ true → Denotes r s
unfolding matches
matches_sound r [] h = nullable_sound r h
matches_sound r (c ∷ s) h = derivative_sound c r s (matches_sound (derivative c r) s h)
