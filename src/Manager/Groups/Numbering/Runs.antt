-- ===== src/Manager/Groups/Numbering/Runs.antt =====
-- Calls of `NewGroup`, one after the other.
use ldap_manager.Base.{
  ℕ, ◌+◌, ◌≤◌, ◌≡◌, ◌≢◌, refl, sym, ap, ◌∙◌, Bool, List, [], ◌∷◌, ◌++◌, arith, length,
  length-append, All, All-map, All-append, append_assoc,
}
use ldap_manager.Base.Int.{ℤ, pos, negsuc, ◌≤ℤ◌, ◌<ℤ◌, IsInt64, pos_part, max_int64, add_one64}
use ldap_manager.Directory.{Env}
use ldap_manager.Exec.{Result, ok, err}
use ldap_manager.Manager.{Manager}
use ldap_manager.Manager.Groups.{NewGroupRequest, new_group}
use ldap_manager.Manager.Groups.Numbering.{IsNumbering, IsSettled, new_group-IsSettled}
use ldap_manager.Manager.Ids.{min_gid}

add_one64-eq :
    (n : ℤ) → pos min_gid ≤ℤ n → pos_part n + 1 ≤ max_int64 → add_one64 n ≡ pos (pos_part n + 1)
add_one64-eq (pos k) low room = ground arith
add_one64-eq (negsuc k) low room = absurd (omega arith)

less-distinct :
    (n : ℤ) (gs : List ℤ) → All (λ g. g ≤ℤ n) gs → All (λ g. pos (pos_part n + 1) ≢ g) gs
less-distinct n gs h = All-map gs (λ g le e. ground (arith, le, e)) h

abbrev pub IsDistinct : List ℤ → Type 0
IsDistinct [] = Unit
IsDistinct (g ∷ gs) = All (λ h. g ≢ h) gs × IsDistinct gs

module _ (env : Env) (m : Manager) (law : IsNumbering env m) where
  open law use {last, gids}

  pub record IsNumbered (s : env.State) : Type 0 where
    pub low : pos min_gid ≤ℤ last s
    pub int : IsInt64 (last s)
    pub below : All (λ g. g ≤ℤ last s) (gids s)
    pub distinct : IsDistinct (gids s)

  -- Calls of `NewGroup`, one after the other.
  unfoldable pub new_groups : List (NewGroupRequest × Bool) → env.State → env.State
  new_groups [] s = s
  new_groups ((req, strict) ∷ reqs) s = new_groups reqs (new_group env m req strict s).1

  more-IsNumbered :
      (n : ℤ) (gs : List ℤ) (t : env.State)
      → last t ≡ pos (pos_part n + 1)
      → gids t ≡ pos (pos_part n + 1) ∷ gs
      → pos min_gid ≤ℤ n
      → pos_part n + 1 ≤ max_int64
      → All (λ g. g ≤ℤ n) gs
      → IsDistinct gs
      → IsNumbered t
  more-IsNumbered n gs t l g low room below distinct = record {
    low = rw l (omega (arith, low));
    int = rw l (omega (arith, room));
    below = rw (l, g) (omega arith, All-map gs (λ h le. omega (arith, le)) below);
    distinct = rw g (less-distinct n gs below, distinct);
  }

  same-IsNumbered :
      (s t : env.State) → last t ≡ last s → gids t ≡ gids s → IsNumbered s → IsNumbered t
  same-IsNumbered s t l g k = record {
    low = rw l k.low;
    int = rw l k.int;
    below = rw (l, g) k.below;
    distinct = rw g k.distinct;
  }

  abbrev pub successes : Result (Unit {0}) → ℕ
  successes (ok u) = 1
  successes (err e) = 0

  -- One call more: the numbers that were given are above the last one.
  settled-IsNumbered :
      (s t : env.State) (r : Result (Unit {0}))
      → IsSettled env m law (last s) (gids s) (r, t)
      → IsNumbered s
      → pos_part (last s) + 1 ≤ max_int64
      → (new : List ℤ) × (gids t ≡ new ++ gids s)
        × (length new ≡ successes r)
        × All (λ g. last s <ℤ g) new
        × IsNumbered t
        × (pos_part (last t) ≤ pos_part (last s) + 1)
        × (last s ≤ℤ last t)
  settled-IsNumbered s t (ok u) (l, g) k room =
      let l' = l ∙ add_one64-eq (last s) k.low room in
      let g' = g ∙ ap (λ (n : ℤ). n ∷ gids s) (add_one64-eq (last s) k.low room) in
      (
        pos (pos_part (last s) + 1) ∷ [],
        g',
        refl,
        (omega (arith, k.low), tt),
        more-IsNumbered (last s) (gids s) t l' g' k.low room k.below k.distinct,
        rw l' (omega arith),
        rw l' (omega arith),
      )
  settled-IsNumbered s t (err e) (l, g) k room =
      ([], g, refl, tt, same-IsNumbered s t l g k, rw l (omega arith), rw l (omega arith))

  -- How many of the calls succeed.
  unfoldable pub created : List (NewGroupRequest × Bool) → env.State → ℕ
  created [] s = 0
  created ((req, strict) ∷ reqs) s =
      let (r, t) = new_group env m req strict s in successes r + created reqs t

  -- Let the server keep a record of the last group number as `IsNumbering` says, and hold groups with
  -- different numbers, none above the record, which is an `int` of at least 2000. Then after any calls
  -- of `NewGroup`, one after the other, that succeed or fail, the groups still have different numbers:
  -- one more for each call that succeeded, above the record at the start, and those before; as long as
  -- the record and the number of the calls together are not above the greatest `int`.
  pub new_groups-IsDistinct :
      (reqs : List (NewGroupRequest × Bool)) (s : env.State)
      → IsNumbered s
      → pos_part (last s) + length reqs ≤ max_int64
      → (new : List ℤ) × (gids (new_groups reqs s) ≡ new ++ gids s)
        × (length new ≡ created reqs s)
        × All (λ g. last s <ℤ g) new
        × IsDistinct (gids (new_groups reqs s))
  unfolding new_groups created
  new_groups-IsDistinct [] s k room = ([], refl, refl, tt, k.distinct)
  new_groups-IsDistinct ((req, strict) ∷ reqs) s k room =
      let t = (new_group env m req strict s).1 in
      let (first, e, size, above, k', le, le') =
        settled-IsNumbered s t (new_group env m req strict s).0
          (new_group-IsSettled env m law req strict s k.low k.int) k (omega (arith, room)) in
      let (rest, e', size', above', d) =
        new_groups-IsDistinct reqs t k' (omega (arith, room, le)) in
      (
        rest ++ first,
        e' ∙ ap (λ (gs : List ℤ). rest ++ gs) e ∙ sym (append_assoc rest first (gids s)),
        omega (arith, length-append rest first, size, size'),
        All-append (λ g. last s <ℤ g) rest first
            (All-map rest (λ g lt. omega (arith, lt, le')) above') above,
        d,
      )
