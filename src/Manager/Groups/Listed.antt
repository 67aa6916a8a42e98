-- ===== src/Manager/Groups/Listed.antt =====
-- What `GetGroupList` returns.
use mathlib.Core.List.{Perm}
use ldap_manager.Base.{
  ◌≡◌, ◌⊎◌, inl, inr, refl, not, List, [], ◌∷◌, ◌++◌, Bytes, codes, is_empty, length, map, select,
}
use ldap_manager.Directory.{ServerError, Env, Entry, Request, search_entries, entries, failed}
use ldap_manager.Error.{server}
use ldap_manager.Exec.{Result, ok, err, pure, send, ◌>>=◌}
use ldap_manager.Exec.Ensures.{Answer-cases}
use ldap_manager.Listing.{less_group, sort_slice, clip}
use ldap_manager.Listing.Sorted.{IsGroupOrder, sort_slice-Perm, sort_slice-IsGroupOrder}
use ldap_manager.Manager.{Manager}
use ldap_manager.Manager.Groups.{GetGroupListRequest, get_group_list, count_groups}
use ldap_manager.Manager.Members.{GroupList}
use ldap_manager.Text.Filter.{parse_filter}

module _ (env : Env) (m : Manager) where
  abbrev pub search_of : GetGroupListRequest → Request
  search_of req = search_entries (record {
    base_dn = m.groups_dn;
    filter =
        codes "(&(objectClass=posixGroup)"
        ++ (parse_filter env.unicode env.escape_filter req.filter ++ codes ")");
    attributes = [];
  })

  abbrev pub count_of : Request
  count_of = search_entries (record {
    base_dn = m.groups_dn;
    filter = codes "(objectClass=posixGroup)";
    attributes = codes "cn" ∷ [];
  })

  -- The names of the groups that were found, but the empty ones, in the order asked for, and cut.
  abbrev pub IsListed : GetGroupListRequest → List Entry → List Entry → Result GroupList → Type 0
  IsListed req found counted r =
      (all : List Bytes) × Perm all (
        select (λ name. not (is_empty name))
          (map (λ x. env.get_attribute_value x (codes "cn")) found))
      × IsGroupOrder req.sort_order all
      × (r ≡ ok (record { groups = clip req.start req.end all; total = length counted }))

  abbrev pub Answers : GetGroupListRequest → env.State → Result GroupList → Type 0
  Answers req s r =
      let first = env.perform (search_of req) s in
      let second = env.perform count_of first.1 in
      ((found : List Entry) × (counted : List Entry) × (first.0 ≡ entries found)
        × (second.0 ≡ entries counted)
        × IsListed req found counted r)
      ⊎ ((e : ServerError) × ((first.0 ≡ failed e) ⊎ (second.0 ≡ failed e)) × (r ≡ err (server e)))

  -- `GetGroupList` sends two searches, and fails only with the error of one of them. Otherwise its
  -- list is that of the groups with a name that the first search found, each as often, in ascending
  -- order, or in descending order for `DESCENDING`, and then cut to the range that was asked for, as
  -- `clip` does; its total is the number of entries of the second search.
  pub get_group_list-Answers :
      (req : GetGroupListRequest) (s : env.State) → Answers req s (get_group_list env m req s).0
  unfolding get_group_list count_groups send pure ◌>>=◌
  get_group_list-Answers req s = elim (Answer-cases (env.perform (search_of req) s).0) [
    | inr (e, h) ↦ inr (e, inl h, rw h refl)
    | inl (found, h) ↦
        elim (Answer-cases (env.perform count_of (env.perform (search_of req) s).1).0) [
          | inr (e, k) ↦ inr (e, inr k, rw (h, k) refl)
          | inl (counted, k) ↦ inl (
            found,
            counted,
            h,
            k,
            (
              sort_slice (less_group req.sort_order) _,
              sort_slice-Perm (less_group req.sort_order) _,
              sort_slice-IsGroupOrder req.sort_order _,
              rw (h, k) refl,
            ),
          )
        ]
  ]
