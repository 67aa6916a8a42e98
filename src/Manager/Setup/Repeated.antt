-- ===== src/Manager/Setup/Repeated.antt =====
-- A second `SetupLDAP`.
use ldap_manager.Base.{
  ◌≡◌, refl, inl, inr, Bool, true, false, ◌||◌, Option, none, some, List, [], ◌∷◌, ◌++◌, arith,
  Bytes, codes, bytes_eq, bytes_eq_refl, Bool-cases, is_nil,
}
use ldap_manager.Base.Int.{ℤ, pos}
use ldap_manager.Listing.{ascending, less_group, insert_sorted, sort_slice, clip}
use ldap_manager.Directory.{
  Env, Entry, Attribute, Request, SearchRequest, search_entries, add_entry, entries, failed,
  result_code, entry_already_exists,
}
use ldap_manager.Error.{Error, server}
use ldap_manager.Exec.{ok, err, Exec, discard, send, ◌>>=◌, ◌>>◌}
use ldap_manager.Manager.{Manager}
use ldap_manager.Manager.Ids.{
  IdKind, id_kind, cached_id, highest_of, record_search, entries_search, traverse, highest_of_kind,
  get_highest_id,
}
use ldap_manager.Manager.LastId.{
  setup_ou, setup_groups_ou, setup_users_ou, setup_last_id, setup_last_gid, setup_last_uid,
}
use ldap_manager.Manager.Members.{get_group, get_group_page, usernames}
use ldap_manager.Text.Filter.{to_upper}
use ldap_manager.Manager.Setup.{
  passing, is_existing, is_existing_or_missing, admins_group_found, setup_admins_group, setup_ldap,
}

in_turn :
    {S : Type 0} {s : S} (first next : Exec S (Unit {0}))
    → first s ≡ (ok tt, s)
    → next s ≡ (ok tt, s)
    → (first >> next) s ≡ (ok tt, s)
unfolding ◌>>=◌
in_turn first next h k = rw (h, k) refl

-- A server on which all is set up: what is added exists already, and searches find something or
-- nothing; neither changes it.
pub record IsSetUp (env : Env) (s : env.State) : Type 0 where
  pub adds :
      (dn : Bytes) (attributes : List Attribute)
      → env.perform (add_entry dn attributes) s ≡ (failed (result_code entry_already_exists), s)
  pub found : SearchRequest → List Entry
  pub finds : (r : SearchRequest) → env.perform (search_entries r) s ≡ (entries (found r), s)

module _ (env : Env) (m : Manager) (s : env.State) (up : IsSetUp env s) where
  abbrev exists : Error
  exists = server (result_code entry_already_exists)

  -- What a search finds; no other request finds anything.
  abbrev found_by : Request → List Entry
  found_by (search_entries r) = up.found r
  found_by _ = []

  setup_ou-eq : (dn ou : Bytes) → setup_ou env m dn ou s ≡ (err exists, s)
  unfolding setup_ou send discard ◌>>=◌
  setup_ou-eq dn ou = rw (up.adds dn _) refl

  traverse-eq :
      (kind : IdKind) (cached : Option ℤ) → (n : ℤ) × (traverse env m kind cached s ≡ (ok n, s))
  unfolding traverse send ◌>>=◌
  traverse-eq kind (some n) = (n, refl)
  traverse-eq kind none = (
    highest_of env m kind.entry_attribute (found_by (entries_search env m kind)) kind.highest_id,
    rw (up.finds _) refl,
  )

  highest_of_kind-eq :
      (attribute : Bytes) (kind : IdKind)
      → (n : ℤ) × (highest_of_kind env m attribute (some kind) s ≡ (ok n, s))
  unfolding highest_of_kind send ◌>>=◌
  highest_of_kind-eq attribute kind =
      let (n, e) =
        traverse-eq kind
          (cached_id env m kind.highest_id (found_by (record_search env m attribute))) in
      (n, rw (up.finds _) e)

  setup_last_id-eq :
      (attribute cn desc : Bytes) (kind : IdKind)
      → id_kind env m attribute ≡ some kind
      → setup_last_id env m attribute cn desc s ≡ (err exists, s)
  unfolding setup_last_id get_highest_id send discard ◌>>=◌
  setup_last_id-eq attribute cn desc kind k =
      let (n, e) = highest_of_kind-eq attribute kind in rw (k, e, up.adds _ _) refl

  id_kind-IsSome :
      (attribute : Bytes)
      → bytes_eq (to_upper env.unicode attribute) (to_upper env.unicode m.group_attribute)
          || bytes_eq (to_upper env.unicode attribute) (to_upper env.unicode m.account_attribute)
        ≡ true
      → (kind : IdKind) × (id_kind env m attribute ≡ some kind)
  id_kind-IsSome attribute h = known (id_kind env m attribute) refl
    where
      known :
          (kind : Option IdKind)
          → id_kind env m attribute ≡ kind
          → (k : IdKind) × (id_kind env m attribute ≡ some k)
      known (some k) e = (k, e)
      known none e = absurd (id_kind-ne-none e)
        where
          id_kind-ne-none : id_kind env m attribute ≡ none → ⊥
          id_kind-ne-none e = unfold id_kind in ground (arith, h)

  setup_groups_ou-eq : setup_groups_ou env m s ≡ (err exists, s)
  unfolding setup_groups_ou
  setup_groups_ou-eq = setup_ou-eq m.groups_dn m.groups_ou

  setup_users_ou-eq : setup_users_ou env m s ≡ (err exists, s)
  unfolding setup_users_ou
  setup_users_ou-eq = setup_ou-eq m.user_group_dn m.users_ou

  same_name :
      (name : Bytes) → bytes_eq (to_upper env.unicode name) (to_upper env.unicode name) ≡ true
  same_name name = bytes_eq_refl (to_upper env.unicode name)

  setup_last_gid-eq : setup_last_gid env m s ≡ (err exists, s)
  unfolding setup_last_gid
  setup_last_gid-eq =
      let (kind, e) =
        id_kind-IsSome m.group_attribute (ground (arith, same_name m.group_attribute)) in
      setup_last_id-eq m.group_attribute (codes "lastGID")
        (codes
          "Records the last GID used to create a Posix group. This prevents the re-use of a GID from a deleted group.")
        kind e

  setup_last_uid-eq : setup_last_uid env m s ≡ (err exists, s)
  unfolding setup_last_uid
  setup_last_uid-eq =
      let (kind, e) =
        id_kind-IsSome m.account_attribute (ground (arith, same_name m.account_attribute)) in
      setup_last_id-eq m.account_attribute (codes "lastUID")
        (codes
          "Records the last UID used to create a Posix account. This prevents the re-use of a UID from a deleted account.")
        kind e

  passing-eq :
      (accepted : Error → Bool) (format : Bytes) (step : Exec env.State (Unit {0})) (e : Error)
      → step s ≡ (err e, s)
      → accepted e ≡ true
      → passing env m accepted format step s ≡ (ok tt, s)
  unfolding ◌>>=◌
  passing-eq accepted format step e h k = rw (h, k) refl

insert_sorted-is_nil :
    (less : Bytes → Bytes → Bool) (x : Bytes) (ys : List Bytes)
    → is_nil (insert_sorted less x ys) ≡ false
unfolding insert_sorted
insert_sorted-is_nil less x [] = refl
insert_sorted-is_nil less x (y ∷ ys) = elim (Bool-cases (less x y)) [
  | inl e ↦ rw e refl
  | inr e ↦ rw e refl
]

-- The whole list comes back for the range from 0 to 0.
page-is_nil :
    (less : Bytes → Bytes → Bool) (xs : List Bytes)
    → is_nil xs ≡ false
    → is_nil (clip (pos 0) (pos 0) (sort_slice less xs)) ≡ false
unfolding clip sort_slice
page-is_nil less [] h = absurd (cc)
page-is_nil less (x ∷ xs) h =
    let whole : clip (pos 0) (pos 0) (insert_sorted less x (sort_slice less xs))
        ≡ insert_sorted less x (sort_slice less xs) =
      ground arith in
    rw whole (insert_sorted-is_nil less x (sort_slice less xs))

-- The search for the group of the administrators.
abbrev pub admins_search : Env → Manager → SearchRequest
admins_search env m = record {
  base_dn = m.groups_dn;
  filter = codes "(cn=" ++ (env.escape_filter m.default_admin_group ++ codes ")");
  attributes = m.group_membership_attribute ∷ codes "gidNumber" ∷ [];
}

module _ (env : Env) (m : Manager) (s : env.State) (up : IsSetUp env s) (g : Entry)
    (one : up.found (admins_search env m) ≡ g ∷ [])
    (someone : is_nil (usernames env m (env.get_attribute_values g m.group_membership_attribute))
      ≡ false) where
  setup_admins_group-eq : m.force_create_admin ≡ false → setup_admins_group env m s ≡ (ok tt, s)
  unfolding setup_admins_group admins_group_found get_group_page get_group send ◌>>=◌
  setup_admins_group-eq calm =
      rw
        (
          up.finds (admins_search env m),
          one,
          page-is_nil (less_group ascending)
              (usernames env m (env.get_attribute_values g m.group_membership_attribute)) someone,
          calm,
        )
        refl

  -- If all that is added exists already, searches succeed and leave the server as it is, the group
  -- of the administrators is found once and has a member whose name can be read, and no
  -- administrator is to be created by force, then `SetupLDAP` succeeds and leaves the server as
  -- it was.
  pub setup_ldap-eq : m.force_create_admin ≡ false → setup_ldap env m s ≡ (ok tt, s)
  unfolding setup_ldap
  setup_ldap-eq calm =
      let existing = passing-eq env m s up (is_existing env m) in
      let recorded = passing-eq env m s up (is_existing_or_missing env m) in
      in_turn _ _ (existing _ _ _ (setup_groups_ou-eq env m s up) refl) (
        in_turn _ _ (existing _ _ _ (setup_users_ou-eq env m s up) refl) (
          in_turn _ _ (recorded _ _ _ (setup_last_gid-eq env m s up) refl) (
            in_turn _ _ (recorded _ _ _ (setup_last_uid-eq env m s up) refl)
              (setup_admins_group-eq calm))))
