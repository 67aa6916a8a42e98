-- ===== src/Text/Split.antt =====
-- `strings.Split` and `bytes.Split` at a separator of one byte.
use ldap_manager.Base.{
  ap, sym, ◌∙◌, ==_iff, ℕ, ◌≡◌, ◌≢◌, refl, inl, inr, List, [], ◌∷◌, ◌++◌, arith, Bytes, Bool-cases,
  ◌==◌, ==_refl, if◌then◌else◌, All, Lacks,
}

-- Puts a byte in front of the first part.
abbrev pub onto_first : ℕ → List Bytes → List Bytes
onto_first c [] = (c ∷ []) ∷ []
onto_first c (p ∷ ps) = (c ∷ p) ∷ ps

unfoldable pub split : ℕ → Bytes → List Bytes
split sep [] = [] ∷ []
split sep (c ∷ s) = let rest = split sep s in if c == sep then [] ∷ rest else onto_first c rest

-- A part without the separator, in front of one, is the first part.
pub split-append :
    (sep : ℕ) (p s : Bytes) → Lacks sep p → split sep (p ++ sep ∷ s) ≡ p ∷ split sep s
unfolding split
split-append sep [] s _ = rw (==_refl sep)
split-append sep (c ∷ p) s (hc, hp) = ground (arith, split-append sep p s hp)

pub split_single : (sep : ℕ) (p : Bytes) → Lacks sep p → split sep p ≡ p ∷ []
unfolding split
split_single sep [] _ = refl
split_single sep (c ∷ p) (hc, hp) = ground (arith, split_single sep p hp)

onto_first-Lacks :
    (sep c : ℕ) (ps : List Bytes) → c ≢ sep → All (Lacks sep) ps → All (Lacks sep) (onto_first c ps)
onto_first-Lacks sep c [] h _ = ((h, tt), tt)
onto_first-Lacks sep c (p ∷ ps) h (hp, hps) = ((h, hp), hps)

-- No part holds the separator.
pub split-Lacks : (sep : ℕ) (s : Bytes) → All (Lacks sep) (split sep s)
unfolding split
split-Lacks sep [] = (tt, tt)
split-Lacks sep (c ∷ s) = elim (Bool-cases (c == sep)) [
  | inl same ↦ rw same (tt, split-Lacks sep s)
  | inr other ↦ rw other (onto_first-Lacks sep c (split sep s) (ground arith) (split-Lacks sep s))
]

onto_first-eq-single :
    (c : ℕ) (ps : List Bytes) (p : Bytes)
    → onto_first c ps ≡ p ∷ []
    → ps ≢ []
    → (q : Bytes) × (ps ≡ q ∷ []) × (p ≡ c ∷ q)
onto_first-eq-single c [] p e h = absurd (h refl)
onto_first-eq-single c (q ∷ []) p e h = (q, refl, cc)
onto_first-eq-single c (q ∷ r ∷ qs) p e h = absurd (cc)

split-ne-nil : (sep : ℕ) (s : Bytes) → split sep s ≢ []
unfolding split
split-ne-nil sep [] e = cc
split-ne-nil sep (c ∷ s) e = elim (Bool-cases (c == sep)) [
  | inl same ↦ cc (rw same at e)
  | inr other ↦ onto_first-ne-nil c (split sep s) (rw other at e)
]
  where
    onto_first-ne-nil : (c : ℕ) (parts : List Bytes) → onto_first c parts ≢ []
    onto_first-ne-nil c [] e = cc
    onto_first-ne-nil c (p ∷ ps) e = cc

-- A text of one part is that part.
split-eq-single : (sep : ℕ) (s p : Bytes) → split sep s ≡ p ∷ [] → s ≡ p
unfolding split
split-eq-single sep [] p e = cc
split-eq-single sep (c ∷ s) p e = elim (Bool-cases (c == sep)) [
  | inl same ↦ absurd (split-ne-nil sep s (let h : [] ∷ split sep s ≡ p ∷ [] = rw same at e in cc))
  | inr other ↦
      let (q, h, k) = onto_first-eq-single c (split sep s) p (rw other at e) (split-ne-nil sep s) in
      ap (λ t. c ∷ t) (split-eq-single sep s q h) ∙ sym k
]

onto_first-eq-pair :
    (c : ℕ) (ps : List Bytes) (p q : Bytes)
    → onto_first c ps ≡ p ∷ q ∷ []
    → (r : Bytes) × (ps ≡ r ∷ q ∷ []) × (p ≡ c ∷ r)
onto_first-eq-pair c [] p q e = absurd (cc)
onto_first-eq-pair c (r ∷ []) p q e = absurd (cc)
onto_first-eq-pair c (r ∷ t ∷ []) p q e = let same : t ≡ q = cc in (r, rw same refl, cc)
onto_first-eq-pair c (r ∷ t ∷ u ∷ ts) p q e = absurd (cc)

-- A text of two parts is the parts with the separator between them.
pub split-eq-pair : (sep : ℕ) (s p q : Bytes) → split sep s ≡ p ∷ q ∷ [] → s ≡ p ++ sep ∷ q
unfolding split
split-eq-pair sep [] p q e = absurd (cc)
split-eq-pair sep (c ∷ s) p q e = elim (Bool-cases (c == sep)) [
  | inl same ↦
      let h : [] ∷ split sep s ≡ p ∷ q ∷ [] = rw same at e in
      let first : [] ≡ p = cc in
      let rest : split sep s ≡ q ∷ [] = cc in
      ap (λ d. d ∷ s) ((==_iff c sep).0 same)
      ∙ ap (λ t. sep ∷ t) (split-eq-single sep s q rest)
      ∙ ap (λ t. t ++ sep ∷ q) first
  | inr other ↦
      let (r, h, k) = onto_first-eq-pair c (split sep s) p q (rw other at e) in
      ap (λ t. c ∷ t) (split-eq-pair sep s r q h) ∙ ap (λ t. t ++ sep ∷ q) (sym k)
]
