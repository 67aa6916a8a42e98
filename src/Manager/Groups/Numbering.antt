-- ===== src/Manager/Groups/Numbering.antt =====
-- The numbers that `NewGroup` gives to the groups of a server with a record of the last number.
pub mod Runs
use ldap_manager.Base.{
  ℕ, suc, ◌+◌, ◌≤◌, ◌≡◌, ◌≢◌, ◌⊎◌, inl, inr, refl, sym, ap, ◌∙◌, subst, ◌++◌, Bool, true, false,
  not, ◌&&◌, ◌||◌, some, List, [], ◌∷◌, arith, Bytes, codes, is_empty, is_nil, bytes_eq,
  bytes_eq_refl, if◌then◌else◌, length, All, All-map, All-append, append_assoc, Bool-cases,
}
use ldap_manager.Base.Int.{ℤ, pos, negsuc, ◌≤ℤ◌, ◌<ℤ◌, IsInt64, pos_part, max_int64, add_one64}
use ldap_manager.Directory.{
  Env, Entry, Request, SearchRequest, search_entries, add_entry, Answer, entries, failed,
}
use ldap_manager.Error.{Error}
use ldap_manager.Exec.{
  Result, ok, err, Exec, pure, raise, send, attempt, rescue, discard, ◌>>=◌, and_then, answered,
}
use ldap_manager.Exec.Keeps.{Keeps, Preserves}
use ldap_manager.Manager.{Manager, group_named}
use ldap_manager.Manager.Groups.{
  NewGroupRequest, group_attributes, member_list, create_group, new_group,
}
use ldap_manager.Manager.Ids.{min_gid, IdKind, id_kind, record_search, get_highest_id}
use ldap_manager.Manager.Ids.Recorded.{get_highest_id-itoa}
use ldap_manager.Manager.Lookup.{find_group, update_last_id}
use ldap_manager.Manager.Requests.Groups.{last_id_change}
use ldap_manager.Manager.Requests.Reading.{
  find_group-Keeps, member_list-Keeps, get_highest_id-Keeps,
}
use ldap_manager.Text.Decimal.{itoa}
use ldap_manager.Text.Filter.{to_upper}

-- What an answer to a new group says of the numbers before and after.
abbrev pub IsAdded : Answer → ℤ → List ℤ → List ℤ → Type 0
IsAdded (entries es) gid before behind = behind ≡ gid ∷ before
IsAdded (failed e) gid before behind = behind ≡ before

-- A server on which searches change nothing, the record of the last group number is found with the
-- number that was last written to it, a change of the record is always taken, and a new group that is
-- taken has the number of its entry.
pub record IsNumbering (env : Env) (m : Manager) : Type 0 where
  pub last : env.State → ℤ
  pub gids : env.State → List ℤ
  pub search_last :
      (q : SearchRequest) (s : env.State) → last (env.perform (search_entries q) s).1 ≡ last s
  pub search_gids :
      (q : SearchRequest) (s : env.State) → gids (env.perform (search_entries q) s).1 ≡ gids s
  pub found :
      (s : env.State)
      → (x : Entry) × (xs : List Entry) × (t : env.State) × (env.perform
            (record_search env m m.group_attribute)
            s
          ≡ (entries (x ∷ xs), t))
        × (env.get_attribute_value x (codes "serialNumber") ≡ itoa (last s))
  pub changed :
      (gid : ℤ) (s : env.State)
      → IsInt64 gid
      → (es : List Entry) × (t : env.State) × (env.perform
            (last_id_change m (codes "lastGID") gid)
            s
          ≡ (entries es, t))
        × (last t ≡ gid)
        × (gids t ≡ gids s)
  pub added :
      (name : Bytes) (gid : ℤ) (members : List Bytes) (s : env.State)
      → IsInt64 gid
      → let r = add_entry (group_named m name) (group_attributes env m name gid members) in
        (last (env.perform r s).1 ≡ last s)
        × IsAdded (env.perform r s).0 gid (gids s) (gids (env.perform r s).1)

add_one64-IsInt64 : (n : ℤ) → IsInt64 n → IsInt64 (add_one64 n)
add_one64-IsInt64 (pos k) h = ground arith
add_one64-IsInt64 (negsuc k) h = ground arith

abbrev pub IsSearch : Request → Type 0
IsSearch (search_entries q) = Unit
IsSearch _ = ⊥

module _ (env : Env) (m : Manager) (law : IsNumbering env m) where
  open law use {last, gids}

  -- The record and the numbers, as they were.
  abbrev Same : ℤ → List ℤ → env.State → Type 0
  Same n numbers s = (last s ≡ n) × (gids s ≡ numbers)

  Same-Preserves : (n : ℤ) (numbers : List ℤ) → Preserves env (Same n numbers) IsSearch
  Same-Preserves n numbers = record {
    step = λ r a s p.
        elim r as (λ q. IsSearch q → Same n numbers (env.perform q s).1) [
          | search_entries q ↦ λ u. (law.search_last q s ∙ p.0, law.search_gids q s ∙ p.1)
          | _ ↦ λ u. absurd u
        ]
          a;
  }

  -- A call has failed and changed nothing, or has given the next number and recorded it.
  abbrev pub IsSettled : ℤ → List ℤ → Result (Unit {0}) × env.State → Type 0
  IsSettled n numbers (ok u, t) = (last t ≡ add_one64 n) × (gids t ≡ add_one64 n ∷ numbers)
  IsSettled n numbers (err e, t) = Same n numbers t

  module _ (n : ℤ) (numbers : List ℤ) (int : IsInt64 n) where
    record Settles (call : Exec env.State (Unit {0})) : Type 0 where
      behind : (s : env.State) → Same n numbers s → IsSettled n numbers (call s)

    Settles-raise : (e : Error) → Settles (raise e)
    unfolding raise
    Settles-raise e = record { behind = λ s p. p }

    Settles-if :
        (b : Bool) (c d : Exec env.State (Unit {0}))
        → Settles c
        → Settles d
        → Settles (if b then c else d)
    Settles-if true c d k l = k
    Settles-if false c d k l = l

    module _ {R : Type 0} where
      and_then-Settles :
          (r : Result R) (next : R → Exec env.State (Unit {0})) (s : env.State)
          → Same n numbers s
          → ((x : R) → r ≡ ok x → Settles (next x))
          → IsSettled n numbers (and_then r next s)
      and_then-Settles (ok x) next s p k = (k x refl).behind s p
      and_then-Settles (err e) next s p k = p

      Settles-bind :
          (first : Exec env.State R) (next : R → Exec env.State (Unit {0}))
          → Keeps (Same n numbers) first
          → ((s : env.State) (x : R) → Same n numbers s → (first s).0 ≡ ok x → Settles (next x))
          → Settles (first >>= next)
      unfolding ◌>>=◌
      Settles-bind first next k l = record {
        behind =
            λ s p. and_then-Settles (first s).0 next (first s).1 (k.after s p) (λ x e. l s x p e);
      }

    -- The new entry and the record of its number.
    recorded :
        (a : Answer) (t : env.State)
        → last t ≡ n
        → IsAdded a (add_one64 n) numbers (gids t)
        → IsSettled n numbers
            (and_then (answered a) (λ es. update_last_id env m (codes "lastGID") (add_one64 n)) t)
    unfolding update_last_id send discard ◌>>=◌
    recorded (entries es) t l g =
        let (found, u, e, l', g') = law.changed (add_one64 n) t (add_one64-IsInt64 n int) in
        rw e (l', g' ∙ g)
    recorded (failed e) t l g = (l, g)

    Settles-store :
        (name : Bytes) (members : List Bytes)
        → Settles (
            send env
              (add_entry (group_named m name) (group_attributes env m name (add_one64 n) members))
            >>= λ es. update_last_id env m (codes "lastGID") (add_one64 n))
    unfolding send ◌>>=◌
    Settles-store name members = record {
      behind = λ s p.
          let r =
            add_entry (group_named m name) (group_attributes env m name (add_one64 n) members) in
          let (l, a) = law.added name (add_one64 n) members s (add_one64-IsInt64 n int) in
          recorded (env.perform r s).0 (env.perform r s).1 (l ∙ p.0) (
            subst
              (λ (b : List ℤ).
                IsAdded (env.perform r s).0 (add_one64 n) b (gids (env.perform r s).1))
              p.1 a);
    }

    Settles-create :
        (req : NewGroupRequest) (strict : Bool)
        → Settles (create_group env m req strict (add_one64 n))
    unfolding create_group
    Settles-create req strict =
        Settles-bind _ _
          (member_list-Keeps env m (Same-Preserves n numbers) (λ q. tt) strict req.members)
          (λ s members p e.
            Settles-if (m.config.use_rfc2307bis_schema && is_nil members) _ _ (Settles-raise _)
              (Settles-store req.name members))

    group_kind : IdKind
    group_kind = record {
      highest_id = pos min_gid;
      entry_base_dn = m.groups_dn;
      entry_filter = codes "(objectClass=posixGroup)";
      entry_attribute = codes "gidNumber";
    }

    id_kind-group_kind : id_kind env m m.group_attribute ≡ some group_kind
    unfolding id_kind group_kind
    id_kind-group_kind = rw (bytes_eq_refl (to_upper env.unicode m.group_attribute)) refl

    -- The last number is read from its record.
    highest-eq :
        pos min_gid ≤ℤ n
        → (s : env.State) → Same n numbers s
        → (x : ℤ) → (get_highest_id env m m.group_attribute s).0 ≡ ok x
        → x ≡ n
    unfolding group_kind
    highest-eq low s p x e =
        let (entry, xs, t, read, text) = law.found s in
        let h =
          get_highest_id-itoa env m m.group_attribute group_kind n entry xs s t id_kind-group_kind
            int low read (text ∙ ap itoa p.0) in
        cc

    new_group-Settles :
        pos min_gid ≤ℤ n
        → (req : NewGroupRequest) (strict : Bool) → Settles (new_group env m req strict)
    unfolding new_group
    new_group-Settles low req strict = Settles-if (is_empty req.name) _ _ (Settles-raise _) (
        Settles-bind _ _ (find_group-Keeps env m (Same-Preserves n numbers) (λ q. tt) req.name _)
          (λ s found p e. Settles-if (not (is_nil found)) _ _ (Settles-raise _) (
            Settles-bind _ _
              (get_highest_id-Keeps env m (Same-Preserves n numbers) (λ q. tt) m.group_attribute)
              (λ s' x q h.
                subst (λ (y : ℤ). Settles (create_group env m req strict (add_one64 y)))
                  (sym (highest-eq low s' q x h)) (Settles-create req strict)))))

  pub new_group-IsSettled :
      (req : NewGroupRequest) (strict : Bool) (s : env.State)
      → pos min_gid ≤ℤ last s
      → IsInt64 (last s)
      → IsSettled (last s) (gids s) (new_group env m req strict s)
  new_group-IsSettled req strict s low int =
      (new_group-Settles (last s) (gids s) int low req strict).behind s (refl, refl)
