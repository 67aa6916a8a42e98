-- ===== src/Listing/Sorted.antt =====
-- The order of the lists, and what a clipped range holds.
use mathlib.Core.List.{Perm}
use mathlib.Core.List.Perm
use ldap_manager.Base.{
  not, ℕ, zero, suc, ◌+◌, ◌-◌, ◌≤◌, ◌<◌, ◌^◌, ◌≡◌, refl, ap, ◌∙◌, inl, inr, Bool, true, false, List,
  [], ◌∷◌, arith, Bytes, bytes_lt, Bool-cases, length, length-take, length-drop, take, drop, get_or,
}
use ldap_manager.Base.Int.{ℤ, pos, to_int32}
use ldap_manager.Listing.{
  SortOrder, other, ascending, descending, less_user, less_group, insert_sorted, sort_slice, clip,
}

-- Neighbours are in relation.
abbrev pub IsChain : (Bytes → Bytes → Type 0) → List Bytes → Type 0
IsChain R [] = Unit
IsChain R (x ∷ []) = Unit
IsChain R (x ∷ y ∷ ys) = R x y × IsChain R (y ∷ ys)

-- No string is less than the one before it, or greater than it.
abbrev pub IsAscending : List Bytes → Type 0
IsAscending = IsChain (λ x y. bytes_lt y x ≡ false)

abbrev pub IsDescending : List Bytes → Type 0
IsDescending = IsChain (λ x y. bytes_lt x y ≡ false)

bytes_lt_asymm : (s t : Bytes) → bytes_lt s t ≡ true → bytes_lt t s ≡ false
unfolding bytes_lt
bytes_lt_asymm s [] h = absurd (cc)
bytes_lt_asymm [] (d ∷ t) h = refl
bytes_lt_asymm (c ∷ s) (d ∷ t) h = ground (arith, bytes_lt_asymm s t)

module _ (less : Bytes → Bytes → Bool) where
  insert_sorted-Perm : (x : Bytes) (xs : List Bytes) → Perm (insert_sorted less x xs) (x ∷ xs)
  unfolding insert_sorted
  insert_sorted-Perm x [] = Perm.refl _
  insert_sorted-Perm x (y ∷ ys) = elim (Bool-cases (less x y)) [
    | inl e ↦ rw e (Perm.refl _)
    | inr e ↦ rw e (Perm.trans (Perm.cons y (insert_sorted-Perm x ys)) (Perm.swap x y ys))
  ]

  -- Nothing is lost or added by sorting, whatever the order.
  pub sort_slice-Perm : (xs : List Bytes) → Perm (sort_slice less xs) xs
  unfolding sort_slice
  sort_slice-Perm [] = Perm.refl _
  sort_slice-Perm (x ∷ xs) =
      Perm.trans (insert_sorted-Perm x (sort_slice less xs)) (Perm.cons x (sort_slice-Perm xs))

  module _ (R : Bytes → Bytes → Type 0) (yes_R : (x y : Bytes) → less x y ≡ true → R x y)
      (no_R : (x y : Bytes) → less x y ≡ false → R y x) where
    insert_behind :
        (z x : Bytes) (ys : List Bytes)
        → R z x
        → IsChain R (z ∷ ys)
        → IsChain R (insert_sorted less x ys)
        → IsChain R (z ∷ insert_sorted less x ys)
    unfolding insert_sorted
    insert_behind z x [] zx _ c = (zx, tt)
    insert_behind z x (y ∷ ys) zx (zy, _) c = elim (Bool-cases (less x y)) [
      | inl e ↦ rw e (zx, (yes_R x y e, (rw e at c).1))
      | inr e ↦ rw e (zy, rw e at c)
    ]

    insert_sorted-IsChain :
        (x : Bytes) (ys : List Bytes) → IsChain R ys → IsChain R (insert_sorted less x ys)
    unfolding insert_sorted
    insert_sorted-IsChain x [] c = tt
    insert_sorted-IsChain x (y ∷ ys) c = elim (Bool-cases (less x y)) [
      | inl e ↦ rw e (yes_R x y e, c)
      | inr e ↦
          rw e
            (insert_behind y x ys (no_R x y e) c (insert_sorted-IsChain x ys (IsChain_tail y ys c)))
    ]
      where
        IsChain_tail : (y : Bytes) (ys : List Bytes) → IsChain R (y ∷ ys) → IsChain R ys
        IsChain_tail y [] c = tt
        IsChain_tail y (z ∷ zs) c = c.1

    sort_slice-IsChain : (xs : List Bytes) → IsChain R (sort_slice less xs)
    unfolding sort_slice
    sort_slice-IsChain [] = tt
    sort_slice-IsChain (x ∷ xs) = insert_sorted-IsChain x _ (sort_slice-IsChain xs)

-- The order of `GetGroupList` and `GetGroup`: ascending, but for `DESCENDING`.
abbrev pub IsGroupOrder : SortOrder → List Bytes → Type 0
IsGroupOrder ascending = IsAscending
IsGroupOrder descending = IsDescending
IsGroupOrder (other n) = IsAscending

-- The order of `GetUserList`, the other way round: descending for `ASCENDING`, else ascending.
abbrev pub IsUserOrder : SortOrder → List Bytes → Type 0
IsUserOrder ascending = IsDescending
IsUserOrder descending = IsAscending
IsUserOrder (other n) = IsAscending

sort_slice-IsAscending : (xs : List Bytes) → IsAscending (sort_slice (λ s t. bytes_lt s t) xs)
sort_slice-IsAscending xs = sort_slice-IsChain _ _ bytes_lt_asymm (λ s t h. h) xs

sort_slice-IsDescending :
    (xs : List Bytes) → IsDescending (sort_slice (λ s t. not (bytes_lt s t)) xs)
sort_slice-IsDescending xs =
    sort_slice-IsChain _ _ (λ s t h. ground (arith, h))
      (λ s t h. bytes_lt_asymm s t (ground (arith, h))) xs

pub sort_slice-IsGroupOrder :
    (order : SortOrder) (xs : List Bytes) → IsGroupOrder order (sort_slice (less_group order) xs)
unfolding less_group
sort_slice-IsGroupOrder ascending xs = sort_slice-IsAscending xs
sort_slice-IsGroupOrder descending xs = sort_slice-IsDescending xs
sort_slice-IsGroupOrder (other n) xs = sort_slice-IsAscending xs

pub sort_slice-IsUserOrder :
    (order : SortOrder) (xs : List Bytes) → IsUserOrder order (sort_slice (less_user order) xs)
unfolding less_user
sort_slice-IsUserOrder ascending xs = sort_slice-IsDescending xs
sort_slice-IsUserOrder descending xs = sort_slice-IsAscending xs
sort_slice-IsUserOrder (other n) xs = sort_slice-IsAscending xs

get_or-take :
    (n i : ℕ) (xs : List Bytes) (d : Bytes) → i < n → get_or (take n xs) i d ≡ get_or xs i d
get_or-take zero i xs d h = absurd (omega arith)
get_or-take (suc n) i [] d h = refl
get_or-take (suc n) zero (x ∷ xs) d h = refl
get_or-take (suc n) (suc i) (x ∷ xs) d h = get_or-take n i xs d (omega arith)

get_or-drop : (n i : ℕ) (xs : List Bytes) (d : Bytes) → get_or (drop n xs) i d ≡ get_or xs (n + i) d
get_or-drop zero i xs d = ap (λ j. get_or xs j d) (omega arith)
get_or-drop (suc n) i [] d = refl
get_or-drop (suc n) i (x ∷ xs) d =
    let shift : suc (n + i) ≡ suc n + i = omega arith in
    get_or-drop n i xs d ∙ ap (λ j. get_or (x ∷ xs) j d) shift

to_int32-pos : (n : ℕ) → n < 2 ^ 31 → to_int32 (pos n) ≡ pos n
to_int32-pos n h = ground arith

clip-inside :
    (start end : ℕ) (xs : List Bytes)
    → length xs < 2 ^ 31
    → start < end
    → end < length xs
    → clip (pos start) (pos end) xs ≡ take (end - start) (drop start xs)
unfolding clip
clip-inside start end xs small h k = rw (to_int32-pos (length xs) small) (ground arith)

-- A range that is not empty and ends before the last element of a list of fewer than 2 ^ 31 is cut
-- out: the result has `end - start` elements, the i-th of them the one at `start + i`.
pub clip-get_or :
    (start end : ℕ) (xs : List Bytes)
    → length xs < 2 ^ 31
    → start < end
    → end < length xs
    → (length (clip (pos start) (pos end) xs) ≡ end - start)
      × ((i : ℕ) (d : Bytes)
          → i < end - start
          → get_or (clip (pos start) (pos end) xs) i d ≡ get_or xs (start + i) d)
clip-get_or start end xs small h k =
    let inside = clip-inside start end xs small h k in
    (
      rw inside (omega (arith, length-take (end - start) (drop start xs), length-drop start xs)),
      λ i d l.
          rw inside (get_or-take (end - start) i (drop start xs) d l ∙ get_or-drop start i xs d),
    )

-- A range that reaches the end of a list of fewer than 2 ^ 31 elements is not cut out: every
-- element comes back, wherever the range starts.
pub clip_to_end :
    (start : ℤ) (end : ℕ) (xs : List Bytes)
    → length xs < 2 ^ 31
    → length xs ≤ end
    → clip start (pos end) xs ≡ xs
unfolding clip
clip_to_end start end xs small h = rw (to_int32-pos (length xs) small) (ground arith)
