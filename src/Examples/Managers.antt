-- ===== src/Examples/Managers.antt =====
-- The theorems on the manager's operations at concrete inputs.
use ldap_manager.Text.Escape.Inverse.{unescape_dn}
use ldap_manager.Base.{Bytes, none, ◌≡◌, refl, false, some, [], ◌∷◌, arith, codes, All, bytes_eq}
use ldap_manager.Base.Int.{ℤ, pos, ◌≤ℤ◌}
use ldap_manager.Exec.{ok, ◌>>=◌, send}
use ldap_manager.Exec.Traffic.{recording, sent_by}
use ldap_manager.Manager.{account_named}
use ldap_manager.Manager.Groups.{new_group, delete_group}
use ldap_manager.Manager.Groups.Safety.{
  IsDeletion, delete_group-IsDeletion, IsWellPopulated, new_group-IsWellPopulated,
}
use ldap_manager.Manager.Ids.{
  IdKind, min_uid, id_kind, cached_id, highest_of, traverse, highest_of_kind, get_highest_id,
}
use ldap_manager.Manager.Ids.Bounds.{IsBelow, get_highest_id_scan, get_highest_id-ge}
use ldap_manager.Manager.Named.{extract_attribute-account_named}
use ldap_manager.Text.Decimal.{atoi, read_digits}
use ldap_manager.Text.Escape.{escape_dn}
use ldap_manager.Text.Extract.{is_literal, extract_attribute}
use ldap_manager.Text.Filter.{to_upper}
use ldap_manager.Examples.World.{example_manager, example_env, staff}

delete_group-IsDeletion_example :
    All
      (IsDeletion example_env example_manager (codes "staff"))
      (sent_by (delete_group (recording example_env) example_manager (codes "staff")) [])
delete_group-IsDeletion_example =
    delete_group-IsDeletion example_env example_manager (codes "staff") []

new_group-IsWellPopulated_example :
    All (IsWellPopulated example_env example_manager (codes "staff")) (
      sent_by
        (new_group
          (recording example_env)
          example_manager
          (record { name = codes "staff"; members = codes "ann" ∷ [] })
          false)
        [])
new_group-IsWellPopulated_example =
    new_group-IsWellPopulated example_env example_manager
      (record { name = codes "staff"; members = codes "ann" ∷ [] }) false []

extract_attribute-account_named_example :
    (v : Bytes) × (extract_attribute
        (λ attribute dn. none)
        (account_named example_manager (codes "a,"))
        (codes "uid")
      ≡ some v)
    × (v ≡ escape_dn (codes "a,"))
    × (unescape_dn v ≡ codes "a,")
unfolding example_manager is_literal
extract_attribute-account_named_example =
    extract_attribute-account_named (λ attribute dn. none) example_manager b'a' (codes ",") refl
      (omega arith, (omega arith, tt)) ((λ e. omega (arith, e)), ((λ e. omega (arith, e)), tt))

abbrev group_kind : IdKind
group_kind = record {
  highest_id = pos 2000;
  entry_base_dn = codes "ou=groups,dc=example,dc=org";
  entry_filter = codes "(objectClass=posixGroup)";
  entry_attribute = codes "gidNumber";
}

get_highest_id_scan_example :
    (n : ℤ) × (get_highest_id example_env example_manager (codes "gid") (staff ∷ [])
      ≡ (ok n, staff ∷ []))
    × (pos 2000 ≤ℤ n)
    × All (IsBelow example_env (codes "gidNumber") n) (staff ∷ [])
unfolding example_manager id_kind to_upper bytes_eq cached_id
get_highest_id_scan_example =
    get_highest_id_scan example_env example_manager (codes "gid") group_kind [] (staff ∷ [])
      (staff ∷ []) (staff ∷ []) (staff ∷ []) refl refl refl refl

get_highest_id-ge_example : pos min_uid ≤ℤ pos 2007
unfolding example_manager get_highest_id highest_of_kind traverse id_kind to_upper bytes_eq
    cached_id highest_of atoi read_digits send ◌>>=◌
get_highest_id-ge_example =
    get_highest_id-ge example_env example_manager (codes "gid") (staff ∷ []) (pos 2007) refl
