-- ===== src/Manager/Requests/Creation.antt =====
-- What `NewAccount` sends.
use ldap_manager.Text.Decimal.{itoa}
use ldap_manager.Base.{
  [], ◌∷◌, refl, ◌≡◌, false, not, ◌&&◌, List, ◌++◌, Bytes, codes, is_empty, is_nil, if◌then◌else◌,
}
use ldap_manager.Base.Int.{ℤ, pos, ◌≤ℤ◌, ltb_ℤ}
use ldap_manager.Directory.{
  Entry, Env, Request, Attribute, SearchRequest, search_entries, add_entry, no_such_object,
}
use ldap_manager.Error.{Error, is_error_with_code}
use ldap_manager.Exec.{Result, ok, err}
use ldap_manager.Exec.Ensures.{
  Ensures, Ensures-raise, Ensures-attempt, Ensures-rescue, Ensures-chain,
}
use ldap_manager.Exec.Keeps.{
  Keeps, Preserves, Keeps-send, Keeps-bind, Keeps-pure, Keeps-raise, Keeps-if, Keeps-attempt,
  Keeps-rescue, Keeps-discard, Keeps-bind_ensured,
}
use ldap_manager.Hash.{HashingAlgorithm, password}
use ldap_manager.Manager.{Manager, account_named, group_named}
use ldap_manager.Manager.AccountGroup.{
  group_created, group_or_new, get_group_for_account, is_group_already_exists,
}
use ldap_manager.Manager.Creation.{
  recovered, check_free, retry_highest, next_uid, account_group, hash_password, hashed_or_error,
  user_attributes, store_account, create_account, is_default, is_member_already_exists,
}
use ldap_manager.Manager.Creation.Numbers.{IsAccountNumber, next_uid-IsAccountNumber}
use ldap_manager.Manager.Groups.{group_attributes}
use ldap_manager.Manager.Ids.{min_uid, min_gid}
use ldap_manager.Manager.Ids.Bounds.{get_highest_id-ge}
use ldap_manager.Manager.LastId.{setup_last_uid}
use ldap_manager.Manager.Members.{member_change}
use ldap_manager.Manager.Requests.Accounts.{hashed_or_error-Keeps}
use ldap_manager.Manager.Requests.Groups.{
  last_id_change, new_group-Keeps, add_group_member-Keeps, update_last_id-Keeps,
}
use ldap_manager.Manager.Requests.Reading.{
  send_search-Keeps, get_highest_id-Keeps, get_group_gid-Keeps, get_group_by_gid-Keeps,
}
use ldap_manager.Manager.Validation.{Account}

-- A text that hashes the password, with the random bytes of some moment.
abbrev pub IsHashed : Env → Bytes → HashingAlgorithm → Bytes → Type 0
IsHashed env pw algorithm hashed =
    (s : env.State) × (password env.digests (env.random s) pw algorithm ≡ ok hashed)

pub hashed_or_error-Ensures :
    (env : Env) (m : Manager) (pw : Bytes) (algorithm : HashingAlgorithm)
    → Ensures (IsHashed env pw algorithm) (hashed_or_error env m pw algorithm)
unfolding hashed_or_error hash_password
hashed_or_error-Ensures env m pw algorithm =
    Ensures-chain _ _ (Ensures-attempt _ (record { at = λ s a e. (s, e) }))
      λ answer a. Ensures-rescue answer _ a (λ e. Ensures-raise _)

-- The attributes of the entry of an account, by name.
abbrev pub account_table : Manager → Account → ℤ → ℤ → Bytes → List (Bytes × List Bytes)
account_table m account uid gid hashed =
    (codes "objectClass", codes "person" ∷ codes "inetOrgPerson" ∷ codes "posixAccount" ∷ [])
    ∷ (m.account_attribute, account.username ∷ [])
    ∷ (codes "givenName", account.first_name ∷ [])
    ∷ (codes "sn", account.last_name ∷ [])
    ∷ (codes "cn", (account.first_name ++ b' ' ∷ account.last_name) ∷ [])
    ∷ (codes "displayName", (account.first_name ++ b' ' ∷ account.last_name) ∷ [])
    ∷ (codes "uidNumber", itoa uid ∷ [])
    ∷ (codes "gidNumber", itoa gid ∷ [])
    ∷ (
      codes "loginShell",
      (if is_empty account.login_shell then m.default_user_shell else account.login_shell) ∷ [],
    )
    ∷ (
      codes "homeDirectory",
      (if is_empty account.home_directory
            then codes "/home/" ++ account.username
            else account.home_directory)
          ∷ [],
    )
    ∷ (codes "userPassword", hashed ∷ [])
    ∷ (codes "mail", account.email ∷ [])
    ∷ []

-- The attributes of the record of the last user number.
abbrev pub record_table : ℤ → List (Bytes × List Bytes)
record_table n =
    (codes "objectClass", codes "device" ∷ codes "top" ∷ [])
    ∷ (codes "serialNumber", itoa n ∷ [])
    ∷ (
      codes "description",
      codes
            "Records the last UID used to create a Posix account. This prevents the re-use of a UID from a deleted account."
          ∷ [],
    )
    ∷ []

abbrev pub table_of : List Attribute → List (Bytes × List Bytes)
table_of [] = []
table_of (a ∷ attributes) = (a.name, a.values) ∷ table_of attributes

-- The name of the record of the last user number.
abbrev pub last_uid_dn : Manager → Bytes
last_uid_dn m = codes "cn=" ++ (codes "lastUID" ++ (codes "," ++ m.config.base_dn))

-- The algorithm that was asked for, or the configured one.
abbrev pub chosen : Manager → HashingAlgorithm → HashingAlgorithm
chosen m algorithm = if is_default algorithm then m.hashing_algorithm else algorithm

module _ (env : Env) (m : Manager) {P : env.State → Type 0} {Allowed : Request → Type 0}
    (keep : Preserves env P Allowed) (searches : (r : SearchRequest) → Allowed (search_entries r))
    (records : (n : ℤ) (attributes : List Attribute)
      → pos min_uid ≤ℤ n
      → table_of attributes ≡ record_table n
      → Allowed (add_entry (last_uid_dn m) attributes)) where
  setup_last_uid-Keeps : Keeps P (setup_last_uid env m)
  unfolding setup_last_uid
  setup_last_uid-Keeps =
      Keeps-bind_ensured _ _ (get_highest_id-Keeps env m keep searches _)
        (λ s n e. get_highest_id-ge env m m.account_attribute s n e)
        λ n least. Keeps-discard _ (Keeps-send keep _ (records n _ least refl))

  retry_highest-Keeps : (r : Result ℤ) → Keeps P (retry_highest env m r)
  unfolding retry_highest
  retry_highest-Keeps (ok n) = Keeps-pure n
  retry_highest-Keeps (err e) =
      Keeps-if (is_error_with_code e no_such_object) _ _
        (λ h.
          Keeps-bind _ _ (Keeps-attempt _ setup_last_uid-Keeps)
            λ x. get_highest_id-Keeps env m keep searches _)
        (λ h. Keeps-raise _)

  next_uid-Keeps : (uid : ℤ) → Keeps P (next_uid env m uid)
  unfolding next_uid
  next_uid-Keeps uid =
      Keeps-if (ltb_ℤ uid (pos min_uid)) _ _
        (λ h. Keeps-bind _ _ (Keeps-attempt _ (get_highest_id-Keeps env m keep searches _)) λ first.
          Keeps-bind _ _ (Keeps-attempt _ (retry_highest-Keeps first))
            λ answer. Keeps-bind _ _ (Keeps-rescue answer _ (λ e. Keeps-raise _)) λ n. Keeps-pure _)
        (λ h. Keeps-pure _)

  module _
      (groups : (name : Bytes) (gid : ℤ) (members : List Bytes)
        → (m.config.use_rfc2307bis_schema && is_nil members) ≡ false
        → Allowed (add_entry (group_named m name) (group_attributes env m name gid members)))
      (numbers : (gid : ℤ) → Allowed (last_id_change m (codes "lastGID") gid)) where
    group_created-Keeps :
        (username : Bytes) (r : Result (Unit {0})) → Keeps P (group_created env m username r)
    unfolding group_created
    group_created-Keeps username (ok x) = Keeps-pure _
    group_created-Keeps username (err e) =
        Keeps-bind _ _
          (Keeps-attempt _ (new_group-Keeps env m keep searches _ false (groups _) numbers))
          λ done.
            Keeps-bind _ _
              (Keeps-rescue done _ λ e.
                Keeps-if (is_group_already_exists e) _ _ (λ h. Keeps-pure _) (λ h. Keeps-raise _))
              λ x. Keeps-pure _

    group_or_new-Keeps : (username : Bytes) (r : Result ℤ) → Keeps P (group_or_new env m username r)
    unfolding group_or_new
    group_or_new-Keeps username (ok n) = Keeps-pure _
    group_or_new-Keeps username (err e) =
        Keeps-bind _ _
          (Keeps-attempt _ (new_group-Keeps env m keep searches _ false (groups _) numbers))
          λ created. Keeps-bind _ _ (group_created-Keeps username created) λ group.
            Keeps-bind _ _ (Keeps-attempt _ (get_group_gid-Keeps env m keep searches group))
              λ answer.
                Keeps-bind _ _ (Keeps-rescue answer _ (λ e. Keeps-raise _)) λ gid. Keeps-pure _

    account_group-Keeps : (account : Account) → Keeps P (account_group env m account)
    unfolding account_group get_group_for_account
    account_group-Keeps account =
        Keeps-if (ltb_ℤ account.gid (pos min_gid)) _ _
          (λ h.
            Keeps-bind _ _ (Keeps-attempt _ (get_group_gid-Keeps env m keep searches _))
              λ found. group_or_new-Keeps account.username found)
          (λ h. get_group_by_gid-Keeps env m keep searches _)

    recovered-Keeps : (username : Bytes) (e : Error) → Keeps P (recovered env m username e)
    unfolding recovered
    recovered-Keeps username e =
        Keeps-if (is_error_with_code e no_such_object) _ _
          (λ h.
            Keeps-bind _ _
              (Keeps-attempt _ (new_group-Keeps env m keep searches _ false (groups _) numbers))
              λ created. Keeps-pure _)
          (λ h. Keeps-pure _)

    check_free-Keeps :
        (username : Bytes) (r : Result (List Entry)) → Keeps P (check_free env m username r)
    unfolding check_free
    check_free-Keeps username (ok found) =
        Keeps-if (not (is_nil found)) _ _ (λ h. Keeps-raise _) (λ h. Keeps-pure _)
    check_free-Keeps username (err e) =
        Keeps-bind _ _ (recovered-Keeps username e)
          λ passed. Keeps-if passed _ _ (λ h. Keeps-pure _) (λ h. Keeps-raise _)

    module _ (account : Account) (algorithm : HashingAlgorithm)
        (joins : (group : Bytes)
          → Allowed (member_change env m (record { group = group; username = account.username })))
        (stores : (uid gid : ℤ) (hashed : Bytes)
          → IsAccountNumber uid
          → IsHashed env account.password (chosen m algorithm) hashed
          → Allowed (
              add_entry
                (account_named m account.username)
                (user_attributes env m account uid gid hashed)))
        (counts : (uid : ℤ)
          → IsAccountNumber uid
          → Allowed (last_id_change m (codes "lastUID") uid)) where
      store_account-Keeps :
          (uid : ℤ) (group : Bytes) (gid : ℤ) (hashed : Bytes)
          → IsAccountNumber uid
          → IsHashed env account.password (chosen m algorithm) hashed
          → Keeps P (store_account env m account uid group gid hashed)
      unfolding store_account
      store_account-Keeps uid group gid hashed n h =
          Keeps-bind _ _ (Keeps-attempt _ (Keeps-send keep _ (stores uid gid hashed n h))) λ added.
            Keeps-bind _ _ (Keeps-rescue added _ (λ e. Keeps-raise _)) λ x.
              Keeps-bind _ _
                (Keeps-attempt _ (add_group_member-Keeps env m keep searches _ false (joins group)))
                λ joined.
                  Keeps-bind _ _
                    (Keeps-rescue joined _ λ e.
                      Keeps-if (is_member_already_exists e) _ _ (λ k. Keeps-pure _)
                        (λ k. Keeps-raise _))
                    λ y. update_last_id-Keeps env m keep (codes "lastUID") uid (counts uid n)

      pub create_account-Keeps : Keeps P (create_account env m account algorithm)
      unfolding create_account
      create_account-Keeps =
          Keeps-bind _ _ (Keeps-attempt _ (send_search-Keeps env m keep searches _)) λ answer.
            Keeps-bind _ _ (check_free-Keeps account.username answer) λ x.
              Keeps-bind_ensured _ _ (next_uid-Keeps account.uid)
                (λ s uid e. next_uid-IsAccountNumber env m account.uid s uid e)
                λ uid n. Keeps-bind _ _ (account_group-Keeps account) λ place.
                  Keeps-bind_ensured _ _
                    (hashed_or_error-Keeps env m keep searches account.password _)
                    (λ s hashed e. (hashed_or_error-Ensures env m account.password _).at s hashed e)
                    λ hashed h. store_account-Keeps uid place.0 place.1 hashed n h
