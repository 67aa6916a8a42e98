-- ===== src/Text/Extract.antt =====
-- `extractAttribute` of utils.go: the regular expression `<attribute>=(?P<Attribute>.*?),` by its
-- leftmost match, for an attribute of letters, digits and dashes. For any other attribute, which may
-- hold special characters of regular expressions, what it captures is a parameter.
use ldap_manager.Base.{
  Bool, true, ◌&&◌, ◌||◌, leb, ℕ, ◌≡◌, refl, ◌∙◌, Option, none, some, [], ◌∷◌, ◌++◌, arith, Bytes,
  codes, ◌==◌, if◌then◌else◌, has_prefix, has_prefix-append, drop, length, Lacks,
}

abbrev pub newline : ℕ
newline = 10

abbrev is_upper : ℕ → Bool
is_upper c = leb b'A' c && leb c b'Z'

abbrev is_lower : ℕ → Bool
is_lower c = leb b'a' c && leb c b'z'

abbrev is_digit : ℕ → Bool
is_digit c = leb b'0' c && leb c b'9'

abbrev cons_option : ℕ → Option Bytes → Option Bytes
cons_option c none = none
cons_option c (some s) = some (c ∷ s)

-- `(.*?),` at the front of a text: what stands before the first comma, on one line.
unfoldable pub up_to_comma : Bytes → Option Bytes
up_to_comma [] = none
up_to_comma (c ∷ s) =
    let rest = up_to_comma s in
    if c == b',' then some [] else if c == newline then none else cons_option c rest

abbrev or_else : Option Bytes → Option Bytes → Option Bytes
or_else none o = o
or_else (some s) o = some s

-- A match that begins with the text.
match_here : Bytes → Bytes → Option Bytes
match_here key s = if has_prefix s key then up_to_comma (drop (length key) s) else none

-- The leftmost match, of the pattern behind `key`.
unfoldable pub find_match : Bytes → Bytes → Option Bytes
unfolding match_here
find_match key [] = match_here key []
find_match key (c ∷ s) = or_else (match_here key (c ∷ s)) (find_match key s)

abbrev nonempty : Option Bytes → Option Bytes
nonempty none = none
nonempty (some []) = none
nonempty (some (c ∷ s)) = some (c ∷ s)

-- Whether an attribute stands for itself in a regular expression.
unfoldable pub is_literal : Bytes → Bool
is_literal [] = true
is_literal (c ∷ s) = (is_upper c || is_lower c || is_digit c || c == b'-') && is_literal s

-- `none` is an error: that of `regexp.Compile`, or "could not find attribute".
unfoldable pub extract_attribute :
    (capture : Bytes → Bytes → Option Bytes) → Bytes → Bytes → Option Bytes
unfolding find_match is_literal
extract_attribute capture dn attribute =
    nonempty (
      if is_literal attribute then find_match (attribute ++ codes "=") dn else capture attribute dn)

up_to_comma-append :
    (v rest : Bytes) → Lacks b',' v → Lacks newline v → up_to_comma (v ++ b',' ∷ rest) ≡ some v
unfolding up_to_comma
up_to_comma-append [] rest _ _ = refl
up_to_comma-append (c ∷ v) rest (hc, hv) (kc, kv) = ground (arith, up_to_comma-append v rest hv kv)

drop-append : (p s : Bytes) → drop (length p) (p ++ s) ≡ s
drop-append [] s = refl
drop-append (c ∷ p) s = drop-append p s

match_here-append : (key s : Bytes) → match_here key (key ++ s) ≡ up_to_comma s
unfolding match_here
match_here-append key s = rw (has_prefix-append key s, drop-append key s)

find_match-front : (key s v : Bytes) → match_here key s ≡ some v → find_match key s ≡ some v
unfolding find_match
find_match-front key [] v h = h
find_match-front key (c ∷ s) v h = unfold match_here in rw h

-- From a name that begins with `attribute=value,` the value is extracted, if it is not empty and
-- holds no comma and no line break.
pub extract_attribute-front :
    (capture : Bytes → Bytes → Option Bytes) (attribute : Bytes) (c : ℕ) (v rest : Bytes)
    → is_literal attribute ≡ true
    → Lacks b',' (c ∷ v)
    → Lacks newline (c ∷ v)
    → extract_attribute capture ((attribute ++ codes "=") ++ ((c ∷ v) ++ b',' ∷ rest)) attribute
      ≡ some (c ∷ v)
unfolding extract_attribute
extract_attribute-front capture attribute c v rest literal no_comma no_break =
    let key = attribute ++ codes "=" in
    rw (
      literal,
      find_match-front key _ (c ∷ v)
          (match_here-append key _ ∙ up_to_comma-append (c ∷ v) rest no_comma no_break),
    )
