-- ===== src/Manager/Ids/Bounds.antt =====
-- Lower bounds of what `getHighestID` of utils.go returns.
use ldap_manager.Base.{
  ◌≡◌, refl, inl, inr, false, Option, none, some, List, [], ◌∷◌, arith, Bytes, Bool-cases, is_empty,
  if◌then◌else◌, All,
}
use ldap_manager.Base.Int.{ℤ, pos, ◌≤ℤ◌}
use ldap_manager.Directory.{Env, Entry, entries}
use ldap_manager.Exec.{ok, ◌>>=◌, send}
use ldap_manager.Exec.Ensures.{Ensures, Ensures-pure, Ensures-bind, ensures_rules}
use ldap_manager.Manager.{Manager}
use ldap_manager.Manager.Ids.{
  min_uid, IdKind, record_search, entries_search, at_least, raised, id_kind, cached_id, highest_of,
  traverse, highest_of_kind, get_highest_id,
}
use ldap_manager.Text.Decimal.{Parsed, parsed, syntax_error, range_error, atoi}

at_least-le : (lowest : ℤ) (p : Parsed) {n : ℤ} → at_least lowest p ≡ some n → lowest ≤ℤ n
at_least-le lowest (parsed n) h = ground arith
at_least-le lowest syntax_error h = cc
at_least-le lowest (range_error n) h = cc

raised-le : (highest : ℤ) (p : Parsed) → highest ≤ℤ raised highest p
raised-le highest (parsed n) = ground arith
raised-le highest syntax_error = omega arith
raised-le highest (range_error n) = omega arith

raised-le_parsed : (highest n : ℤ) → n ≤ℤ raised highest (parsed n)
raised-le_parsed highest n = ground arith

≤ℤ_trans : (a b c : ℤ) → a ≤ℤ b → b ≤ℤ c → a ≤ℤ c
≤ℤ_trans a b c p q = omega arith

module _ (env : Env) where
  -- The number that the loop takes from an entry is not above `highest`.
  abbrev pub IsBelow : Bytes → ℤ → Entry → Type 0
  IsBelow attribute highest x =
      (n : ℤ)
      → is_empty (env.get_attribute_value x attribute) ≡ false
      → atoi (env.get_attribute_value x attribute) ≡ parsed n
      → n ≤ℤ highest

  abbrev one_round : Bytes → Entry → ℤ → ℤ
  one_round attribute x highest =
      if is_empty (env.get_attribute_value x attribute)
      then highest
      else raised highest (atoi (env.get_attribute_value x attribute))

  one_round-le :
      (attribute : Bytes) (x : Entry) (highest : ℤ) → highest ≤ℤ one_round attribute x highest
  one_round-le attribute x highest =
      elim (Bool-cases (is_empty (env.get_attribute_value x attribute))) [
        | inl e ↦ rw e (omega arith)
        | inr e ↦ rw e (raised-le highest (atoi (env.get_attribute_value x attribute)))
      ]

  -- One round raises the number to that of its entry.
  one_round-IsBelow :
      (attribute : Bytes) (x : Entry) (highest : ℤ)
      → IsBelow attribute (one_round attribute x highest) x
  one_round-IsBelow attribute x highest n nonempty number =
      rw (nonempty, number) (raised-le_parsed highest n)

  IsBelow-mono :
      (attribute : Bytes) (x : Entry) (a b : ℤ)
      → a ≤ℤ b
      → IsBelow attribute a x
      → IsBelow attribute b x
  IsBelow-mono attribute x a b h below n nonempty number =
      ≤ℤ_trans n a b (below n nonempty number) h

  module _ (m : Manager) (attribute : Bytes) where
    highest_of-le :
        (xs : List Entry) (highest : ℤ) → highest ≤ℤ highest_of env m attribute xs highest
    unfolding highest_of
    highest_of-le [] highest = omega arith
    highest_of-le (x ∷ xs) highest =
        ≤ℤ_trans highest (one_round attribute x highest) _ (one_round-le attribute x highest)
          (highest_of-le xs (one_round attribute x highest))

    highest_of-IsBelow :
        (xs : List Entry) (highest : ℤ)
        → All (IsBelow attribute (highest_of env m attribute xs highest)) xs
    unfolding highest_of
    highest_of-IsBelow [] highest = tt
    highest_of-IsBelow (x ∷ xs) highest = (
      IsBelow-mono attribute x (one_round attribute x highest) _
          (highest_of-le xs (one_round attribute x highest))
          (one_round-IsBelow attribute x highest),
      highest_of-IsBelow xs (one_round attribute x highest),
    )

module _ (env : Env) (m : Manager) (attribute : Bytes) where
  -- If the attribute is one of the two kinds, the record of the last number is searched for and holds
  -- none in range, and the search for all entries succeeds, then `getHighestID` returns a number that
  -- is not below the least of its kind, nor below the number that any of the entries holds.
  pub get_highest_id_scan :
      (kind : IdKind) (last all : List Entry) (s s₁ s₂ : env.State)
      → id_kind env m attribute ≡ some kind
      → env.perform (record_search env m attribute) s ≡ (entries last, s₁)
      → cached_id env m kind.highest_id last ≡ none
      → env.perform (entries_search env m kind) s₁ ≡ (entries all, s₂)
      → (n : ℤ) × (get_highest_id env m attribute s ≡ (ok n, s₂))
        × (kind.highest_id ≤ℤ n)
        × All (IsBelow env kind.entry_attribute n) all
  unfolding get_highest_id highest_of_kind traverse send ◌>>=◌
  get_highest_id_scan kind last all s s₁ s₂ k first miss second = (
    highest_of env m kind.entry_attribute all kind.highest_id,
    rw (k, highest_of_kind, first, miss, traverse, second) refl,
    highest_of-le env m kind.entry_attribute all kind.highest_id,
    highest_of-IsBelow env m kind.entry_attribute all kind.highest_id,
  )

  id_kind-le :
      (kind : IdKind) → id_kind env m attribute ≡ some kind → pos min_uid ≤ℤ kind.highest_id
  unfolding id_kind
  id_kind-le kind h = ground arith

  traverse-Ensures :
      (kind : IdKind) (cached : Option ℤ)
      → pos min_uid ≤ℤ kind.highest_id
      → ((n : ℤ) → cached ≡ some n → kind.highest_id ≤ℤ n)
      → Ensures (λ n. pos min_uid ≤ℤ n) (traverse env m kind cached)
  unfolding traverse
  traverse-Ensures kind (some n) h k = Ensures-pure n (omega (arith, k n refl))
  traverse-Ensures kind none h k = Ensures-bind _ _ λ all.
      Ensures-pure _ (omega (arith, highest_of-le env m kind.entry_attribute all kind.highest_id))

  cached_id-le :
      (lowest : ℤ) (last : List Entry) (n : ℤ) → cached_id env m lowest last ≡ some n → lowest ≤ℤ n
  unfolding cached_id
  cached_id-le lowest [] n h = absurd (cc)
  cached_id-le lowest (x ∷ xs) n h = at_least-le lowest _ h

  highest_of_kind-Ensures :
      (kind : Option IdKind)
      → ((k : IdKind) → kind ≡ some k → pos min_uid ≤ℤ k.highest_id)
      → Ensures (λ n. pos min_uid ≤ℤ n) (highest_of_kind env m attribute kind)
  unfolding highest_of_kind
  highest_of_kind-Ensures none h = search ensures_rules
  highest_of_kind-Ensures (some kind) h = Ensures-bind _ _ λ last.
      traverse-Ensures kind (cached_id env m kind.highest_id last) (h kind refl)
        (cached_id-le kind.highest_id last)

  -- Whatever the server answers, a number that `getHighestID` returns is at least 2000.
  pub get_highest_id-ge :
      (s : env.State) (n : ℤ) → (get_highest_id env m attribute s).0 ≡ ok n → pos min_uid ≤ℤ n
  unfolding get_highest_id
  get_highest_id-ge s n h = (highest_of_kind-Ensures (id_kind env m attribute) id_kind-le).at s n h
