-- ===== src/Listing.antt =====
-- What GetUserList, GetGroupList and GetGroup share: sorting by a `less` function and clipping to
-- the requested range.
pub mod Sorted
use ldap_manager.Base.{
  ℕ, ◌-◌, Bool, true, false, not, ◌&&◌, List, [], ◌∷◌, Bytes, bytes_lt, if◌then◌else◌, take, drop,
  length,
}
use ldap_manager.Base.Int.{ℤ, pos, pos_part, ltb_ℤ, leb_ℤ, to_int32}

pub data SortOrder : Type 0 where
  ascending descending : SortOrder
  -- A value of the wire that the enumeration does not name.
  other : ℤ → SortOrder

-- The `less` of GetUserList.
unfoldable pub less_user : SortOrder → Bytes → Bytes → Bool
less_user ascending a b = not (bytes_lt a b)
less_user _ a b = bytes_lt a b

-- The `less` of GetGroupList and of GetGroup.
unfoldable pub less_group : SortOrder → Bytes → Bytes → Bool
less_group descending a b = not (bytes_lt a b)
less_group _ a b = bytes_lt a b

-- `sort.Slice`: any sort by `less` gives this list, since strings that do not differ by the order
-- are equal.
module _ (less : Bytes → Bytes → Bool) where
  unfoldable pub insert_sorted : Bytes → List Bytes → List Bytes
  insert_sorted x [] = x ∷ []
  insert_sorted x (y ∷ ys) = if less x y then x ∷ y ∷ ys else y ∷ insert_sorted x ys

  unfoldable pub sort_slice : List Bytes → List Bytes
  sort_slice [] = []
  sort_slice (x ∷ xs) = insert_sorted x (sort_slice xs)

-- `xs[start:end]`, if the range passes the three tests.
unfoldable pub clip {ℓ} : {A : Type ℓ} → ℤ → ℤ → List A → List A
clip start end xs =
    if leb_ℤ (pos 0) start && (ltb_ℤ end (to_int32 (pos (length xs))) && ltb_ℤ start end)
    then take (pos_part end - pos_part start) (drop (pos_part start) xs)
    else xs
