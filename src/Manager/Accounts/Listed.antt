-- ===== src/Manager/Accounts/Listed.antt =====
-- What `GetUserList` returns.
use mathlib.Core.List.{Perm}
use ldap_manager.Base.{
  any, sym, bytes_eq_sound, ◌≡◌, ◌⊎◌, inl, inr, refl, ap, ◌∙◌, not, ◌&&◌, Bool-cases, Option, none,
  some, List, [], ◌∷◌, ◌++◌, arith, Bytes, codes, is_empty, bytes_eq, if◌then◌else◌, length,
  map_option,
}
use ldap_manager.Dict
use ldap_manager.Dict.{Dict, lookup-put}
use ldap_manager.Directory.{Env, Entry, Request, search_entries, ServerError, entries, failed}
use ldap_manager.Error.{server}
use ldap_manager.Exec.{Result, ok, err, pure, send, ◌>>=◌}
use ldap_manager.Exec.Ensures.{Answer-cases}
use ldap_manager.Listing.{less_user, sort_slice, clip}
use ldap_manager.Listing.Sorted.{IsUserOrder, sort_slice-Perm, sort_slice-IsUserOrder}
use ldap_manager.Manager.{Manager}
use ldap_manager.Manager.Accounts.{
  User, UserList, GetUserListRequest, parse_user, default_user_fields, users_by_key, user_page,
  get_user_list, count_accounts,
}
use ldap_manager.Text.Filter.{parse_filter}

module _ (env : Env) (m : Manager) where
  abbrev pub search_of : GetUserListRequest → Request
  search_of req = search_entries (record {
    base_dn = m.user_group_dn;
    filter =
        codes "(&("
        ++ (m.account_attribute
            ++ (codes "=*)"
                ++ (parse_filter env.unicode env.escape_filter req.filter ++ codes ")")));
    attributes = default_user_fields env m;
  })

  abbrev pub count_of : Request
  count_of = search_entries (record {
    base_dn = m.user_group_dn;
    filter = codes "(" ++ (m.account_attribute ++ codes "=*)");
    attributes = codes "dn" ∷ [];
  })

  -- The attribute that a request sorts by.
  abbrev pub key_attribute : GetUserListRequest → Bytes
  key_attribute req = if is_empty req.sort_key then m.account_attribute else req.sort_key

  -- The last of the entries with a key that is not empty, or what was known before.
  unfoldable pub last_with : Bytes → Bytes → List Entry → Option User → Option User
  last_with attribute key [] known = known
  last_with attribute key (x ∷ xs) known =
      let value = env.get_attribute_value x attribute in
      last_with attribute key xs
        (if not (is_empty value) && bytes_eq value key then some (parse_user env m x) else known)

  last_with-users_by_key :
      (attribute key : Bytes) (xs : List Entry) (users : Dict User)
      → Dict.lookup key (users_by_key env m attribute xs users)
        ≡ last_with attribute key xs (Dict.lookup key users)
  unfolding users_by_key last_with
  last_with-users_by_key attribute key [] users = refl
  last_with-users_by_key attribute key (x ∷ xs) users =
      last_with-users_by_key attribute key xs _
      ∙ ap (last_with attribute key xs) (
          ground (
            arith,
            lookup-put (env.get_attribute_value x attribute) key (parse_user env m x) users,
          ))

  -- The values of the attribute but the empty ones, each once, behind those that were seen.
  abbrev pub with_key : Bytes → List Bytes → List Bytes
  with_key key seen = if any (λ k. bytes_eq k key) seen then seen else seen ++ (key ∷ [])

  unfoldable pub distinct : Bytes → List Entry → List Bytes → List Bytes
  distinct attribute [] seen = seen
  distinct attribute (x ∷ xs) seen =
      let value = env.get_attribute_value x attribute in
      distinct attribute xs (if is_empty value then seen else with_key value seen)

  keys-put :
      (key : Bytes) (user : User) (users : Dict User)
      → Dict.keys (Dict.put key user users) ≡ with_key key (Dict.keys users)
  unfolding Dict.keys Dict.put
  keys-put key user [] = refl
  keys-put key user ((j, w) ∷ users) = elim (Bool-cases (bytes_eq j key)) [
    | inl same ↦ rw same (ap (λ k. k ∷ Dict.keys users) (sym (bytes_eq_sound j key same)))
    | inr other ↦ rw other (
        ap (λ ks. j ∷ ks) (keys-put key user users)
        ∙ (elim (Bool-cases (any (λ k. bytes_eq k key) (Dict.keys users))) [
          | inl seen ↦ rw seen refl
          | inr new ↦ rw new refl
        ]))
  ]

  keys-users_by_key :
      (attribute : Bytes) (xs : List Entry) (users : Dict User)
      → Dict.keys (users_by_key env m attribute xs users) ≡ distinct attribute xs (Dict.keys users)
  unfolding users_by_key distinct
  keys-users_by_key attribute [] users = refl
  keys-users_by_key attribute (x ∷ xs) users =
      keys-users_by_key attribute xs _
      ∙ ap (distinct attribute xs)
          (elim (Bool-cases (is_empty (env.get_attribute_value x attribute))) [
            | inl e ↦ rw e refl
            | inr e ↦
                rw e (keys-put (env.get_attribute_value x attribute) (parse_user env m x) users)
          ])

  -- The users by their distinct keys, in the order asked for, and cut.
  abbrev pub IsListed : GetUserListRequest → List Entry → List Entry → Result UserList → Type 0
  IsListed req found counted r =
      (all : List Bytes) × Perm all (distinct (key_attribute req) found [])
      × IsUserOrder req.sort_order all
      × (r
          ≡ ok (record {
            users =
                map_option (λ key. last_with (key_attribute req) key found none)
                  (clip req.start req.end all);
            total = length counted;
          }))

  abbrev pub Answers : GetUserListRequest → env.State → Result UserList → Type 0
  Answers req s r =
      let first = env.perform (search_of req) s in
      let second = env.perform count_of first.1 in
      ((found : List Entry) × (counted : List Entry) × (first.0 ≡ entries found)
        × (second.0 ≡ entries counted)
        × IsListed req found counted r)
      ⊎ ((e : ServerError) × ((first.0 ≡ failed e) ⊎ (second.0 ≡ failed e)) × (r ≡ err (server e)))

  listed :
      (req : GetUserListRequest) (found : List Entry)
      → user_page env m req (users_by_key env m (key_attribute req) found [])
        ≡ map_option
            (λ key. last_with (key_attribute req) key found none)
            (clip req.start req.end
              (sort_slice (less_user req.sort_order) (distinct (key_attribute req) found [])))
  unfolding user_page Dict.keys Dict.lookup
  listed req found = (λ i.
      map_option (λ key. last_with-users_by_key (key_attribute req) key found [] i)
        (clip req.start req.end (
          sort_slice (less_user req.sort_order)
            (keys-users_by_key (key_attribute req) found [] i))))

  -- `GetUserList` sends two searches, and fails only with the error of one of them. Otherwise it takes
  -- the values of the attribute to sort by, which is that of accounts if none was asked for, of the
  -- entries that the first search found: each value once but the empty one, in descending order for
  -- `ASCENDING` and in ascending order for anything else, and cut to the range that was asked for, as
  -- `clip` does. Its list has for each of them the user of the last entry with that value; its total
  -- is the number of entries of the second search.
  pub get_user_list-Answers :
      (req : GetUserListRequest) (s : env.State) → Answers req s (get_user_list env m req s).0
  unfolding get_user_list count_accounts send pure ◌>>=◌
  get_user_list-Answers req s = elim (Answer-cases (env.perform (search_of req) s).0) [
    | inr (e, h) ↦ inr (e, inl h, rw h refl)
    | inl (found, h) ↦
        elim (Answer-cases (env.perform count_of (env.perform (search_of req) s).1).0) [
          | inr (e, k) ↦ inr (e, inr k, rw (h, k) refl)
          | inl (counted, k) ↦ inl (
            found,
            counted,
            h,
            k,
            (
              sort_slice (less_user req.sort_order) _,
              sort_slice-Perm (less_user req.sort_order) _,
              sort_slice-IsUserOrder req.sort_order _,
              rw (h, k)
                  (ap (λ us. ok (record { users = us; total = length counted }))
                    (listed req found)),
            ),
          )
        ]
  ]
