-- ===== src/Manager/Ids/Recorded.antt =====
-- The record of the last number, as `updateLastID` and `getHighestID` of utils.go share it.
use ldap_manager.Base.{◌≡◌, refl, some, List, ◌∷◌, arith, Bytes, codes}
use ldap_manager.Base.Int.{ℤ, ◌≤ℤ◌, IsInt64}
use ldap_manager.Directory.{Env, Entry, entries}
use ldap_manager.Exec.{ok, ◌>>=◌, ◌>>◌, send, discard}
use ldap_manager.Manager.{Manager}
use ldap_manager.Manager.Ids.{
  IdKind, id_kind, cached_id, record_search, traverse, highest_of_kind, get_highest_id,
}
use ldap_manager.Manager.Lookup.{update_last_id}
use ldap_manager.Manager.Requests.Groups.{last_id_change}
use ldap_manager.Text.Decimal.{itoa}
use ldap_manager.Text.Decimal.RoundTrip.{atoi-itoa}

module _ (env : Env) (m : Manager) (attribute : Bytes) where
  cached_id-itoa :
      (lowest n : ℤ) (x : Entry) (xs : List Entry)
      → IsInt64 n
      → lowest ≤ℤ n
      → env.get_attribute_value x (codes "serialNumber") ≡ itoa n
      → cached_id env m lowest (x ∷ xs) ≡ some n
  unfolding cached_id
  cached_id-itoa lowest n x xs int h e = rw (e, atoi-itoa n int) (ground arith)

  -- A record with a number in range is all that `getHighestID` looks at.
  pub get_highest_id-itoa :
      (kind : IdKind) (n : ℤ) (x : Entry) (xs : List Entry) (s t : env.State)
      → id_kind env m attribute ≡ some kind
      → IsInt64 n
      → kind.highest_id ≤ℤ n
      → env.perform (record_search env m attribute) s ≡ (entries (x ∷ xs), t)
      → env.get_attribute_value x (codes "serialNumber") ≡ itoa n
      → get_highest_id env m attribute s ≡ (ok n, t)
  unfolding get_highest_id highest_of_kind traverse send ◌>>=◌
  get_highest_id-itoa kind n x xs s t k int h read e =
      rw (k, highest_of_kind, read, cached_id-itoa kind.highest_id n x xs int h e, traverse) refl

  -- If the server takes the change of `updateLastID` and then finds, for the record of the last
  -- number, an entry first whose serial number is the text that was written, `getHighestID` returns
  -- the number that was written, with no further search; the number is an `int` that is not
  -- below the least one of its kind.
  get_highest_id-update_last_id :
      (cn : Bytes) (kind : IdKind) (n : ℤ) (x : Entry) (found xs : List Entry) (s s₁ s₂ : env.State)
      → id_kind env m attribute ≡ some kind
      → IsInt64 n
      → kind.highest_id ≤ℤ n
      → env.perform (last_id_change m cn n) s ≡ (entries found, s₁)
      → env.perform (record_search env m attribute) s₁ ≡ (entries (x ∷ xs), s₂)
      → env.get_attribute_value x (codes "serialNumber") ≡ itoa n
      → (update_last_id env m cn n >> get_highest_id env m attribute) s ≡ (ok n, s₂)
  unfolding update_last_id send discard ◌>>=◌
  get_highest_id-update_last_id cn kind n x found xs s s₁ s₂ k int h written read e =
      rw (written, get_highest_id-itoa kind n x xs s₁ s₂ k int h read e) refl
