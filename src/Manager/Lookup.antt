-- ===== src/Manager/Lookup.antt =====
-- `findGroup`, `getGroupByGID` and `updateLastID` of utils.go, and `getGroupGID` of groups.go.
use ldap_manager.Base.{◌++◌, List, [], ◌∷◌, Bytes, codes, is_empty, if◌then◌else◌, length}
use ldap_manager.Base.Int.{ℤ}
use ldap_manager.Directory.{Env, Entry, replace, search_entries, modify}
use ldap_manager.Error.{Error, app, conversion, errorf, wrapf, validation, zero_or_multiple_groups}
use ldap_manager.Exec.{
  Result, ok, err, Exec, pure, raise, lift, attempt, rescue, send, discard, ◌>>=◌,
}
use ldap_manager.Manager.{Manager}
use ldap_manager.Text.Decimal.{Parsed, parsed, syntax_error, range_error, itoa, atoi}

-- `strconv.Atoi` as a result.
abbrev pub atoi_result : Parsed → Result ℤ
atoi_result (parsed n) = ok n
atoi_result syntax_error = err conversion
atoi_result (range_error n) = err conversion

-- `len(entries) != 1` as an error, or the one entry.
abbrev pub only_entry : Error → List Entry → Result Entry
only_entry e [] = err e
only_entry e (x ∷ []) = ok x
only_entry e (x ∷ y ∷ xs) = err e

module _ (env : Env) (m : Manager) where
  open env use {State, get_attribute_value, escape_filter, unicode}

  -- `findGroup`
  unfoldable pub find_group : Bytes → List Bytes → Exec State (List Entry)
  find_group group_name attributes = send env (
      search_entries (record {
        base_dn = m.groups_dn;
        filter = codes "(cn=" ++ (escape_filter group_name ++ codes ")");
        attributes = attributes;
      }))

  -- `getGroupGID`
  unfoldable pub get_group_gid : Bytes → Exec State ℤ
  unfolding find_group
  get_group_gid group_name =
      if is_empty group_name
      then raise (app (validation (codes "group name can not be empty")))
      else do
        found ← find_group group_name (codes "gidNumber" ∷ [])
        group ← lift (only_entry (app (zero_or_multiple_groups group_name (length found))) found)
        lift (atoi_result (atoi (get_attribute_value group (codes "gidNumber"))))

  -- `getGroupByGID`
  unfoldable pub get_group_by_gid : ℤ → Exec State (Bytes × ℤ)
  get_group_by_gid gid = do
    found ← send env (
        search_entries (record {
          base_dn = m.groups_dn;
          filter = codes "(gid=" ++ (itoa gid ++ codes ")");
          attributes = codes "cn" ∷ [];
        }))
    group ←
        lift
          (only_entry (errorf (codes "zero or multiple groups with gid=%d") (itoa gid ∷ [])) found)
    let cn = get_attribute_value group (codes "cn")
    if is_empty cn
        then raise (errorf (codes "group with gid=%d has no valid cn attribute") (itoa gid ∷ []))
        else pure (cn, gid)

  -- `updateLastID`
  unfoldable pub update_last_id : Bytes → ℤ → Exec State (Unit {0})
  update_last_id cn new_id = do
    done ← attempt (
        send env (
          modify (codes "cn=" ++ (cn ++ (codes "," ++ m.config.base_dn))) (
            record {
              operation = replace;
              attribute = codes "serialNumber";
              values = itoa new_id ∷ [];
            }
            ∷ [])))
    discard (rescue done (λ e. raise (wrapf (codes "failed to update cn=%s: %v") (cn ∷ []) e)))
