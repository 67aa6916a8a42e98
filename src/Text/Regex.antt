-- ===== src/Text/Regex.antt =====
-- Regular expressions over bytes, matched against a whole text by derivatives.
pub mod Language
use ldap_manager.Base.{ℕ, zero, suc, Bool, true, false, ◌&&◌, ◌||◌, [], ◌∷◌, Bytes, if◌then◌else◌}

pub data Regex : Type 0 where
  -- No text, and the empty text.
  nothing empty : Regex
  class : (ℕ → Bool) → Regex
  then_ : Regex → Regex → Regex
  either : Regex → Regex → Regex
  star : Regex → Regex

unfoldable pub nullable : Regex → Bool
nullable nothing = false
nullable empty = true
nullable (class p) = false
nullable (then_ r q) = nullable r && nullable q
nullable (either r q) = nullable r || nullable q
nullable (star r) = true

-- `then_` and `either`, with `nothing` and `empty` taken out.
abbrev pub sequence : Regex → Regex → Regex
sequence nothing q = nothing
sequence empty q = q
sequence r q = then_ r q

abbrev pub choice : Regex → Regex → Regex
choice nothing q = q
choice r nothing = r
choice r q = either r q

-- What must follow the byte.
unfoldable pub derivative : ℕ → Regex → Regex
derivative c nothing = nothing
derivative c empty = nothing
derivative c (class p) = if p c then empty else nothing
derivative c (then_ r q) =
    let first = sequence (derivative c r) q in
    if nullable r then choice first (derivative c q) else first
derivative c (either r q) = choice (derivative c r) (derivative c q)
derivative c (star r) = sequence (derivative c r) (star r)

unfoldable pub matches : Regex → Bytes → Bool
matches r [] = nullable r
matches r (c ∷ s) = matches (derivative c r) s

-- `r?`, `r+` and `r{0,n}`.
abbrev pub optional : Regex → Regex
optional r = either empty r

abbrev pub plus : Regex → Regex
plus r = then_ r (star r)

abbrev pub up_to : ℕ → Regex → Regex
up_to zero r = empty
up_to (suc n) r = either empty (then_ r (up_to n r))
