-- ===== src/Text/Path.antt =====
-- `path.Clean` and `filepath.Join` for slashes, and the cleaning of `http.ServeMux`.
pub mod Names
use ldap_manager.Base.{
  ℕ, ◌++◌, Bool, true, false, not, ◌&&◌, List, [], ◌∷◌, Bytes, codes, ◌==◌, is_empty, bytes_eq,
  if◌then◌else◌,
}
use ldap_manager.Text.Split.{split}

abbrev pub slash : ℕ
slash = b'/'

abbrev pub dot : Bytes
dot = codes "."

abbrev pub dot_dot : Bytes
dot_dot = codes ".."

-- One `..`: the last element goes, if it is a name. A rooted path has nothing above its root.
unfoldable pub up : (rooted : Bool) → List Bytes → List Bytes
up true [] = []
up true (x ∷ stack) = stack
up false [] = dot_dot ∷ []
up false (x ∷ stack) = if bytes_eq x dot_dot then dot_dot ∷ x ∷ stack else stack

-- One element, on the elements before it, the last one first.
unfoldable pub enter : (rooted : Bool) → List Bytes → Bytes → List Bytes
unfolding up
enter rooted stack x =
    if is_empty x
    then stack
    else if bytes_eq x dot
    then stack
    else if bytes_eq x dot_dot
    then up rooted stack
    else x ∷ stack

unfoldable pub enter_all : (rooted : Bool) → List Bytes → List Bytes → List Bytes
enter_all rooted stack [] = stack
enter_all rooted stack (x ∷ xs) = enter_all rooted (enter rooted stack x) xs

abbrev pub is_rooted : Bytes → Bool
is_rooted [] = false
is_rooted (c ∷ s) = c == slash

-- The elements that `Clean` leaves of a path, the last one first.
unfoldable pub elements : Bytes → List Bytes
unfolding enter_all
elements p = enter_all (is_rooted p) [] (split slash p)

unfoldable pub join_elements : List Bytes → Bytes
join_elements [] = []
join_elements (x ∷ []) = x
join_elements (x ∷ y ∷ stack) = join_elements (y ∷ stack) ++ slash ∷ x

abbrev pub or_dot : Bytes → Bytes
or_dot [] = dot
or_dot (c ∷ s) = c ∷ s

unfoldable pub rendered : (rooted : Bool) → List Bytes → Bytes
unfolding join_elements
rendered true stack = slash ∷ join_elements stack
rendered false stack = or_dot (join_elements stack)

-- `path.Clean`, and `filepath.Clean` where a slash separates.
unfoldable pub clean : Bytes → Bytes
unfolding elements rendered
clean p = rendered (is_rooted p) (elements p)

-- `filepath.Join` of two parts.
unfoldable pub filepath_join : Bytes → Bytes → Bytes
unfolding clean
filepath_join [] [] = []
filepath_join [] (c ∷ t) = clean (c ∷ t)
filepath_join (c ∷ s) t = clean ((c ∷ s) ++ slash ∷ t)

abbrev pub ends_in_slash : Bytes → Bool
ends_in_slash [] = false
ends_in_slash (c ∷ []) = c == slash
ends_in_slash (c ∷ d ∷ s) = ends_in_slash (d ∷ s)

abbrev pub with_slash : Bytes → Bytes
with_slash p = if is_rooted p then p else slash ∷ p

-- `cleanPath` of `http.ServeMux`, which keeps a slash at the end.
unfoldable pub clean_path : Bytes → Bytes
unfolding clean
clean_path p =
    let q = clean (with_slash p) in
    if ends_in_slash p && not (bytes_eq q (slash ∷ [])) then q ++ slash ∷ [] else q
