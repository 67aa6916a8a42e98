-- ===== src/Text/Path/Names.antt =====
-- The elements of a cleaned path, and of a path join_elements to another one.
use ldap_manager.Base.{
  ℕ, ◌≡◌, ◌≢◌, ◌⊎◌, inl, inr, refl, sym, ◌∙◌, ◌++◌, append_assoc, Bool, true, false, not, ◌&&◌,
  List, [], ◌∷◌, Bytes, arith, Bool-cases, ◌==◌, ==_refl, bytes_eq, is_empty, All, All-append,
  Lacks,
}
use ldap_manager.Text.Split.{split, split_single, split-Lacks, onto_first}
use ldap_manager.Text.Path.{
  slash, dot, dot_dot, up, enter, enter_all, is_rooted, elements, join_elements, rendered, clean,
  filepath_join, ends_in_slash, with_slash, clean_path,
}

-- An element that is neither empty nor a way to this or the parent directory.
abbrev pub IsName : Bytes → Type 0
IsName x =
    (is_empty x ≡ false) × (bytes_eq x dot ≡ false) × (bytes_eq x dot_dot ≡ false) × Lacks slash x

abbrev pub IsPlain : Bytes → Type 0
IsPlain x = (x ≡ []) ⊎ IsName x

onto_first_nonempty : (c : ℕ) (xs : List Bytes) → onto_first c xs ≢ []
onto_first_nonempty c [] e = cc
onto_first_nonempty c (x ∷ xs) e = cc

split_nonempty : (sep : ℕ) (s : Bytes) → split sep s ≢ []
unfolding split
split_nonempty sep [] e = cc
split_nonempty sep (c ∷ s) e = ground (arith, onto_first_nonempty c (split sep s))

onto_first-append :
    (c : ℕ) (xs ys : List Bytes) → xs ≢ [] → onto_first c (xs ++ ys) ≡ onto_first c xs ++ ys
onto_first-append c [] ys h = absurd (h refl)
onto_first-append c (x ∷ xs) ys h = refl

split-slash : (sep : ℕ) (s t : Bytes) → split sep (s ++ sep ∷ t) ≡ split sep s ++ split sep t
unfolding split
split-slash sep [] t = rw (==_refl sep) refl
split-slash sep (c ∷ s) t = ground (
  arith,
  split-slash sep s t,
  onto_first-append c (split sep s) (split sep t) (split_nonempty sep s),
)

enter_all-append :
    (r : Bool) (stack xs ys : List Bytes)
    → enter_all r stack (xs ++ ys) ≡ enter_all r (enter_all r stack xs) ys
unfolding enter_all
enter_all-append r stack [] ys = refl
enter_all-append r stack (x ∷ xs) ys = enter_all-append r (enter r stack x) xs ys

enter-name : (r : Bool) (stack : List Bytes) (x : Bytes) → IsName x → enter r stack x ≡ x ∷ stack
unfolding enter
enter-name r stack x (a, b, c, d) = rw (a, b, c) refl

-- Names and empty elements only add names.
enter_all-plain :
    (r : Bool) (stack xs : List Bytes)
    → All IsPlain xs
    → (names : List Bytes) × All IsName names × (enter_all r stack xs ≡ names ++ stack)
unfolding enter_all enter
enter_all-plain r stack [] _ = ([], tt, refl)
enter_all-plain r stack (x ∷ xs) (inl e, h) = rw e (enter_all-plain r stack xs h)
enter_all-plain r stack (x ∷ xs) (inr n, h) =
    let (names, all, e) = enter_all-plain r (x ∷ stack) xs h in
    (
      names ++ x ∷ [],
      All-append IsName names (x ∷ []) all (n, tt),
      rw (enter-name r stack x n) (e ∙ sym (append_assoc names (x ∷ []) stack)),
    )

-- Below a root only names are left.
up-names : (stack : List Bytes) → All IsName stack → All IsName (up true stack)
unfolding up
up-names [] h = h
up-names (x ∷ stack) (n, h) = h

enter-names :
    (stack : List Bytes) (x : Bytes)
    → All IsName stack
    → Lacks slash x
    → All IsName (enter true stack x)
unfolding enter
enter-names stack x h l = elim (Bool-cases (is_empty x)) [
  | inl e ↦ rw e h
  | inr e ↦ elim (Bool-cases (bytes_eq x dot)) [
    | inl f ↦ rw (e, f) h
    | inr f ↦ elim (Bool-cases (bytes_eq x dot_dot)) [
      | inl g ↦ rw (e, f, g) (up-names stack h)
      | inr g ↦ rw (e, f, g) ((e, f, g, l), h)
    ]
  ]
]

enter_all-names :
    (stack xs : List Bytes)
    → All IsName stack
    → All (Lacks slash) xs
    → All IsName (enter_all true stack xs)
unfolding enter_all
enter_all-names stack [] h _ = h
enter_all-names stack (x ∷ xs) h (l, ls) =
    enter_all-names (enter true stack x) xs (enter-names stack x h l) ls

split-join_elements :
    (stack : List Bytes) → All IsName stack → All IsPlain (split slash (join_elements stack))
unfolding join_elements
split-join_elements [] h = unfold split in (inl refl, tt)
split-join_elements (x ∷ []) ((a, b, c, l), h) = rw (split_single slash x l) (inr (a, b, c, l), tt)
split-join_elements (x ∷ y ∷ stack) ((a, b, c, l), h) =
    rw (split-slash slash (join_elements (y ∷ stack)) x, split_single slash x l)
      (All-append IsPlain _ _ (split-join_elements (y ∷ stack) h) (inr (a, b, c, l), tt))

rendered-IsPlain :
    (stack : List Bytes) → All IsName stack → All IsPlain (split slash (rendered true stack))
unfolding rendered
rendered-IsPlain stack h =
    rw (split-slash slash [] (join_elements stack))
      (unfold split in (inl refl, split-join_elements stack h))

with_slash-rooted : (p : Bytes) → is_rooted (with_slash p) ≡ true
with_slash-rooted [] = refl
with_slash-rooted (c ∷ s) = ground arith

clean-IsPlain : (p : Bytes) → All IsPlain (split slash (clean (with_slash p)))
unfolding clean elements
clean-IsPlain p = rw (with_slash-rooted p) (
    rendered-IsPlain _
      (enter_all-names [] (split slash (with_slash p)) tt (split-Lacks slash (with_slash p))))

-- A path that the mux has cleaned has no element that leads up.
pub clean_path-IsPlain : (p : Bytes) → All IsPlain (split slash (clean_path p))
unfolding clean_path
clean_path-IsPlain p =
    elim (Bool-cases (ends_in_slash p && not (bytes_eq (clean (with_slash p)) (slash ∷ [])))) [
      | inl e ↦
          rw (e, split-slash slash (clean (with_slash p)) [])
            (All-append IsPlain _ _ (clean-IsPlain p) (unfold split in (inl refl, tt)))
      | inr e ↦ rw e (clean-IsPlain p)
    ]

-- The path has the elements of the root, and behind them names only.
abbrev pub IsBelow : Bytes → Bytes → Type 0
IsBelow root p =
    (names : List Bytes) × All IsName names
    × (p ≡ rendered (is_rooted root) (names ++ elements root))

pub filepath_join-IsBelow :
    (root p : Bytes) → root ≢ [] → All IsPlain (split slash p) → IsBelow root (filepath_join root p)
unfolding filepath_join clean elements
filepath_join-IsBelow [] p h _ = absurd (h refl)
filepath_join-IsBelow (c ∷ s) p h plain =
    let (names, all, e) =
      enter_all-plain (c == slash) (enter_all (c == slash) [] (split slash (c ∷ s))) (split slash p)
        plain in
    (
      names,
      all,
      rw
          (
            split-slash slash (c ∷ s) p,
            enter_all-append (c == slash) [] (split slash (c ∷ s)) (split slash p),
            e,
          )
          refl,
    )
