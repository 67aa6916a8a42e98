-- ===== src/Text/Filter.antt =====
-- `isValidAttribute` and `parseFilter` of utils.go, and the case mappings of `strings`.
pub mod Searchable
use ldap_manager.Base.{
  ℕ, ◌+◌, ◌-◌, Bool, true, false, ◌&&◌, List, [], ◌∷◌, ◌++◌, map, Bytes, codes, ltb, leb,
  if◌then◌else◌, any, bytes_eq, flat_map, All, ◌≡◌,
}
use ldap_manager.Text.Split.{split}

-- The case mappings of `strings` at a text with a byte above 0x7f: Unicode tables, which the model
-- leaves abstract.
pub record Unicode : Type 0 where
  pub lower : Bytes → Bytes
  pub upper : Bytes → Bytes

abbrev pub is_ascii : Bytes → Bool
is_ascii [] = true
is_ascii (c ∷ s) = leb c 0x7f && is_ascii s

abbrev pub is_upper : ℕ → Bool
is_upper c = leb b'A' c && leb c b'Z'

abbrev pub is_lower : ℕ → Bool
is_lower c = leb b'a' c && leb c b'z'

abbrev pub lower_byte : ℕ → ℕ
lower_byte c = if is_upper c then c + 32 else c

abbrev pub upper_byte : ℕ → ℕ
upper_byte c = if is_lower c then c - 32 else c

unfoldable pub to_lower : Unicode → Bytes → Bytes
to_lower u s = if is_ascii s then map lower_byte s else u.lower s

unfoldable pub to_upper : Unicode → Bytes → Bytes
to_upper u s = if is_ascii s then map upper_byte s else u.upper s

-- The cases of the `switch`, in order.
abbrev pub valid_attributes : List Bytes
valid_attributes =
    codes "uid"
    ∷ codes "cn"
    ∷ codes "uidNumber"
    ∷ codes "gidNumber"
    ∷ codes "mail"
    ∷ codes "sn"
    ∷ codes "givenName"
    ∷ codes "displayName"
    ∷ codes "loginShell"
    ∷ codes "homeDirectory"
    ∷ []

unfoldable pub is_valid_attribute : Bytes → Bool
is_valid_attribute attr = any (bytes_eq attr) valid_attributes

module _ (u : Unicode) (escape_filter : Bytes → Bytes) where
  -- `fmt.Sprintf("(%s=*%s*)", attr, escapeFilter(value))`
  abbrev pub substring_filter : Bytes → Bytes → Bytes
  substring_filter attr value =
      codes "(" ++ (attr ++ (codes "=*" ++ (escape_filter value ++ codes "*)")))

  -- What a list of parts adds: they are two, and the first names a valid attribute.
  abbrev pub pair_filter : List Bytes → Bytes
  pair_filter (name ∷ value ∷ []) =
      let attr = to_lower u name in
      if is_valid_attribute attr then substring_filter attr value else []
  pair_filter _ = []

  -- What one round of the loop adds.
  unfoldable pub filter_term : Bytes → Bytes
  filter_term f = pair_filter (split b'=' f)

  -- The loop puts the terms behind one another.
  unfoldable pub parse_filter : List Bytes → Bytes
  parse_filter filters = flat_map filter_term filters
