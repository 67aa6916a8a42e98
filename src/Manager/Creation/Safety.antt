-- ===== src/Manager/Creation/Safety.antt =====
-- What `NewAccount` may send.
use ldap_manager.Base.{◌≡◌, ◌⊎◌, inl, inr, refl, false, ◌&&◌, List, Bytes, codes, is_nil, All}
use ldap_manager.Base.Int.{ℤ, pos, ◌≤ℤ◌}
use ldap_manager.Directory.{Env, Request, Attribute, search_entries, add_entry, modify}
use ldap_manager.Exec.Keeps.{Keeps, Keeps-bind, Keeps-lift}
use ldap_manager.Exec.Traffic.{recording, sent_by, sent_by-All, recording-Preserves}
use ldap_manager.Hash.{HashingAlgorithm}
use ldap_manager.Manager.{Manager, account_named, group_named}
use ldap_manager.Manager.Creation.{user_attributes, new_account, escaped_account}
use ldap_manager.Manager.Creation.Numbers.{IsAccountNumber}
use ldap_manager.Manager.Groups.{group_attributes}
use ldap_manager.Manager.Ids.{min_uid}
use ldap_manager.Manager.Members.{member_change}
use ldap_manager.Manager.Requests.Creation.{
  IsHashed, table_of, account_table, record_table, last_uid_dn, chosen, create_account-Keeps,
}
use ldap_manager.Manager.Requests.Groups.{last_id_change}
use ldap_manager.Manager.Validation.{Account}

module _ (env : Env) (m : Manager) where
  -- The entry of the account: its own name, a number of an account, and a hash of its password.
  abbrev pub IsUserEntry : Account → HashingAlgorithm → Bytes → List Attribute → Type 0
  IsUserEntry account algorithm dn attributes =
      (dn ≡ account_named m account.username)
      × ((uid : ℤ) × (gid : ℤ) × (hashed : Bytes) × IsAccountNumber uid
          × IsHashed env account.password (chosen m algorithm) hashed
          × (table_of attributes ≡ account_table m account uid gid hashed))

  -- The entry of a group, with a member where the schema wants one.
  abbrev pub IsGroupEntry : Bytes → List Attribute → Type 0
  IsGroupEntry dn attributes =
      (name : Bytes) × (gid : ℤ) × (members : List Bytes) × (dn ≡ group_named m name)
      × (attributes ≡ group_attributes env m name gid members)
      × ((m.config.use_rfc2307bis_schema && is_nil members) ≡ false)

  -- The record of the last user number, which is one of an account.
  abbrev pub IsNumberEntry : Bytes → List Attribute → Type 0
  IsNumberEntry dn attributes =
      (dn ≡ last_uid_dn m) × ((n : ℤ) × (pos min_uid ≤ℤ n) × (table_of attributes ≡ record_table n))

  abbrev pub IsCreation : Account → HashingAlgorithm → Request → Type 0
  IsCreation account algorithm (search_entries r) = Unit
  IsCreation account algorithm (add_entry dn attributes) =
      IsUserEntry account algorithm dn attributes
      ⊎ (IsGroupEntry dn attributes ⊎ IsNumberEntry dn attributes)
  IsCreation account algorithm (modify dn changes) =
      ((group : Bytes) × (modify dn changes
          ≡ member_change env m (record { group = group; username = account.username })))
      ⊎ (((uid : ℤ) × IsAccountNumber uid
            × (modify dn changes ≡ last_id_change m (codes "lastUID") uid))
          ⊎ ((gid : ℤ) × (modify dn changes ≡ last_id_change m (codes "lastGID") gid)))
  IsCreation account algorithm _ = ⊥

module _ (env : Env) (m : Manager) where
  new_account-Keeps :
      (account : Account) (algorithm : HashingAlgorithm)
      → Keeps
          (λ s. All (IsCreation env m (escaped_account account) algorithm) s.0)
          (new_account (recording env) m account algorithm)
  unfolding new_account user_attributes
  new_account-Keeps account algorithm = Keeps-bind _ _ (Keeps-lift _) λ valid.
      create_account-Keeps (recording env) m
        (recording-Preserves env (IsCreation env m (escaped_account account) algorithm)) (λ r. tt)
        (λ n attributes least t. inr (inr (refl, (n, least, t))))
        (λ name gid members enough. inr (inl (name, gid, members, refl, refl, enough)))
        (λ gid. inr (inr (gid, refl))) (escaped_account account) algorithm
        (λ group. inl (group, refl))
        (λ uid gid hashed n h. inl (refl, (uid, gid, hashed, n, (h.0.1, h.1), refl)))
        (λ uid n. inr (inl (uid, n, refl)))

  -- Whatever the server answers, `NewAccount` deletes and renames nothing. It sends searches; the
  -- entry of the account, under its escaped name, with the listed attributes: its names, address,
  -- shell and home, a user number of at least 2000 (or the least `int`, after an overflow), a group
  -- number, and a hash of its password by the algorithm asked for, or by the configured one for
  -- DEFAULT; entries of groups, with a member where the schema wants one; the membership of the
  -- account in a group; and the records of the last numbers, where the last user number that is
  -- recorded is at least 2000 (or, in a change of the record, the least `int`).
  pub new_account-IsCreation :
      (account : Account) (algorithm : HashingAlgorithm) (s : env.State)
      → All
          (IsCreation env m (escaped_account account) algorithm)
          (sent_by (new_account (recording env) m account algorithm) s)
  new_account-IsCreation account algorithm s =
      sent_by-All env (IsCreation env m (escaped_account account) algorithm) _
        (new_account-Keeps account algorithm) s
