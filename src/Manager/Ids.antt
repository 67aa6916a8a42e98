-- ===== src/Manager/Ids.antt =====
-- `getHighestID` of utils.go: the last user or group number, from its record or from all entries.
pub mod Bounds
pub mod Recorded
use ldap_manager.Base.{
  ℕ, ◌++◌, Bool, true, false, Option, none, some, List, [], ◌∷◌, Bytes, codes, is_empty, bytes_eq,
  if◌then◌else◌,
}
use ldap_manager.Base.Int.{ℤ, pos, ltb_ℤ, leb_ℤ}
use ldap_manager.Directory.{Env, Entry, Request, search_entries}
use ldap_manager.Error.{errorf}
use ldap_manager.Exec.{Result, ok, err, Exec, pure, raise, send, ◌>>=◌}
use ldap_manager.Manager.{Manager}
use ldap_manager.Text.Decimal.{Parsed, parsed, syntax_error, range_error, atoi}
use ldap_manager.Text.Filter.{to_upper}

abbrev pub min_uid : ℕ
min_uid = 2000

abbrev pub min_gid : ℕ
min_gid = 2000

-- What the `switch` sets.
pub record IdKind : Type 0 where
  pub highest_id : ℤ
  pub entry_base_dn : Bytes
  pub entry_filter : Bytes
  pub entry_attribute : Bytes

-- A number that was read with no error and is not below the bound.
abbrev pub at_least : ℤ → Parsed → Option ℤ
at_least lowest (parsed n) = if leb_ℤ lowest n then some n else none
at_least lowest syntax_error = none
at_least lowest (range_error n) = none

-- The greater number, if one was read.
abbrev pub raised : ℤ → Parsed → ℤ
raised highest (parsed n) = if ltb_ℤ highest n then n else highest
raised highest syntax_error = highest
raised highest (range_error n) = highest

module _ (env : Env) (m : Manager) where
  open env use {State, get_attribute_value, unicode}

  -- The `switch`; `none` is its default case.
  unfoldable pub id_kind : Bytes → Option IdKind
  id_kind attribute =
      if bytes_eq (to_upper unicode attribute) (to_upper unicode m.group_attribute)
      then some (record {
        highest_id = pos min_gid;
        entry_base_dn = m.groups_dn;
        entry_filter = codes "(objectClass=posixGroup)";
        entry_attribute = codes "gidNumber";
      })
      else if bytes_eq (to_upper unicode attribute) (to_upper unicode m.account_attribute)
      then some (record {
        highest_id = pos min_uid;
        entry_base_dn = m.user_group_dn;
        entry_filter = codes "(" ++ (m.account_attribute ++ codes "=*)");
        entry_attribute = codes "uidNumber";
      })
      else none

  -- The record that was found first, if it holds a number in range.
  unfoldable pub cached_id : ℤ → List Entry → Option ℤ
  cached_id lowest [] = none
  cached_id lowest (x ∷ xs) = at_least lowest (atoi (get_attribute_value x (codes "serialNumber")))

  -- The loop over all entries.
  unfoldable pub highest_of : Bytes → List Entry → ℤ → ℤ
  highest_of attribute [] highest = highest
  highest_of attribute (x ∷ xs) highest =
      let value = get_attribute_value x attribute in
      highest_of attribute xs (if is_empty value then highest else raised highest (atoi value))

  -- The two searches: the record of the last number, and all entries.
  abbrev pub record_search : Bytes → Request
  record_search attribute = search_entries (record {
    base_dn = m.config.base_dn;
    filter = codes "(&(objectClass=device)(cn=last" ++ (to_upper unicode attribute ++ codes "))");
    attributes = codes "serialNumber" ∷ [];
  })

  abbrev pub entries_search : IdKind → Request
  entries_search kind = search_entries (record {
    base_dn = kind.entry_base_dn;
    filter = kind.entry_filter;
    attributes = kind.entry_attribute ∷ [];
  })

  -- The second search, on a cache miss.
  unfoldable pub traverse : IdKind → Option ℤ → Exec State ℤ
  traverse kind (some fetched) = pure fetched
  traverse kind none = do
    all ← send env (entries_search kind)
    pure (highest_of kind.entry_attribute all kind.highest_id)

  unfoldable pub highest_of_kind : Bytes → Option IdKind → Exec State ℤ
  unfolding traverse
  highest_of_kind attribute none = raise (errorf (codes "unknown id attribute %q") (attribute ∷ []))
  highest_of_kind attribute (some kind) = do
    last ← send env (record_search attribute)
    traverse kind (cached_id kind.highest_id last)

  -- `getHighestID`
  unfoldable pub get_highest_id : Bytes → Exec State ℤ
  unfolding highest_of_kind id_kind
  get_highest_id attribute = highest_of_kind attribute (id_kind attribute)
