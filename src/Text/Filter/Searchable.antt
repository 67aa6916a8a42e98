-- ===== src/Text/Filter/Searchable.antt =====
-- Which attributes a filter of a list request can name.
use ldap_manager.Base.{
  Bool, false, Lacks, ℕ, ◌≡◌, ◌⊎◌, inl, inr, refl, subst, true, false, List, [], ◌∷◌, ◌++◌, map,
  arith, Bytes, codes, Bool-cases, bytes_eq, bytes_eq_sound, any, All,
}
use ldap_manager.Text.Split.{split-eq-pair, split-Lacks, split}
use ldap_manager.Text.Filter.{
  Unicode, is_ascii, is_upper, lower_byte, to_lower, is_valid_attribute, pair_filter, filter_term,
}

abbrev pub NoUpper : Bytes → Type 0
NoUpper = All (λ c. is_upper c ≡ false)

-- `strings.ToLower` leaves no upper-case letter.
pub record IsLowering (u : Unicode) : Type 0 where
  pub lower-NoUpper : (s : Bytes) → NoUpper (u.lower s)

lower_byte-no_upper : (c : ℕ) → is_upper (lower_byte c) ≡ false
lower_byte-no_upper c = ground arith

map-NoUpper : (s : Bytes) → NoUpper (map lower_byte s)
map-NoUpper [] = tt
map-NoUpper (c ∷ s) = (lower_byte-no_upper c, map-NoUpper s)

to_lower-NoUpper : {u : Unicode} → IsLowering u → (s : Bytes) → NoUpper (to_lower u s)
unfolding to_lower
to_lower-NoUpper L s = elim (Bool-cases (is_ascii s)) [
  | inl ascii ↦ rw ascii (map-NoUpper s)
  | inr wide ↦ rw wide (L.lower-NoUpper s)
]

-- The attributes that a filter can name: the valid ones that are spelled in lower case.
abbrev pub searchable : List Bytes
searchable = codes "uid" ∷ codes "cn" ∷ codes "mail" ∷ codes "sn" ∷ []

-- A text without upper-case letters is no camel-case name.
not_camel : (attr name : Bytes) → NoUpper attr → (NoUpper name → ⊥) → bytes_eq attr name ≡ false
not_camel attr name low bad = elim (Bool-cases (bytes_eq attr name)) [
  | inl same ↦ absurd (bad (subst NoUpper (bytes_eq_sound attr name same) low))
  | inr other ↦ other
]

valid-searchable :
    (attr : Bytes)
    → NoUpper attr
    → is_valid_attribute attr ≡ true
    → any (bytes_eq attr) searchable ≡ true
unfolding is_valid_attribute
valid-searchable attr low h = ground (
  arith,
  not_camel attr (codes "uidNumber") low (λ b. ground arith),
  not_camel attr (codes "gidNumber") low (λ b. ground arith),
  not_camel attr (codes "givenName") low (λ b. ground arith),
  not_camel attr (codes "displayName") low (λ b. ground arith),
  not_camel attr (codes "loginShell") low (λ b. ground arith),
  not_camel attr (codes "homeDirectory") low (λ b. ground arith),
)

-- A term of the filter `name=value`: the substring test of the name in lower case, if that is a
-- searchable attribute, for the value, which is escaped.
abbrev pub IsTerm : Unicode → (Bytes → Bytes) → Bytes → Bytes → Type 0
IsTerm u escape_filter f t =
    (name : Bytes) × (value : Bytes) × (f ≡ name ++ b'=' ∷ value)
    × (Lacks b'=' name × Lacks b'=' value)
    × (any (bytes_eq (to_lower u name)) searchable ≡ true)
    × (t ≡ codes "(" ++ (to_lower u name ++ (codes "=*" ++ (escape_filter value ++ codes "*)"))))

-- Whether two parts of a filter name a searchable attribute, in any case.
abbrev pub names_searchable : Unicode → List Bytes → Bool
names_searchable u (name ∷ value ∷ []) = any (bytes_eq (to_lower u name)) searchable
names_searchable u _ = false

searchable-valid :
    (attr : Bytes) → is_valid_attribute attr ≡ false → any (bytes_eq attr) searchable ≡ false
unfolding is_valid_attribute
searchable-valid attr h = ground arith

module _ (u : Unicode) (escape_filter : Bytes → Bytes) (L : IsLowering u) where
  pair_filter-IsTerm :
      (f : Bytes) (ps : List Bytes)
      → split b'=' f ≡ ps
      → ((pair_filter u escape_filter ps ≡ []) × (names_searchable u ps ≡ false))
        ⊎ IsTerm u escape_filter f (pair_filter u escape_filter ps)
  pair_filter-IsTerm f [] e = inl (refl, refl)
  pair_filter-IsTerm f (name ∷ []) e = inl (refl, refl)
  pair_filter-IsTerm f (name ∷ value ∷ []) e =
      elim (Bool-cases (is_valid_attribute (to_lower u name))) [
        | inl valid ↦
            let (no_name, (no_value, _)) = rw e at (split-Lacks b'=' f) in
            inr (
              name,
              value,
              split-eq-pair b'=' f name value e,
              (no_name, no_value),
              valid-searchable (to_lower u name) (to_lower-NoUpper L name) valid,
              rw valid,
            )
        | inr other ↦ inl (rw other refl, searchable-valid (to_lower u name) other)
      ]
  pair_filter-IsTerm f (name ∷ value ∷ more ∷ rest) e = inl (refl, refl)

  -- If `ToLower` leaves no upper-case letter, then each filter of a list request either is
  -- `name=value`, with no other `=`, and adds the one substring test `(attr=*v*)`, in which `attr` is
  -- the name in lower case, one of `uid`, `cn`, `mail` and `sn`, and `v` the value escaped; or it does
  -- not name one of these four so, and adds nothing: the six valid attributes that are spelled in
  -- camel case are never searched.
  pub filter_term-IsTerm :
      (f : Bytes)
      → ((filter_term u escape_filter f ≡ []) × (names_searchable u (split b'=' f) ≡ false))
        ⊎ IsTerm u escape_filter f (filter_term u escape_filter f)
  unfolding filter_term
  filter_term-IsTerm f = pair_filter-IsTerm f (split b'=' f) refl
