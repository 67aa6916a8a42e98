-- ===== src/Manager/LastId.antt =====
-- `setupOU`, `setupLastID` and their uses in setup.go.
use ldap_manager.Base.{◌++◌, [], ◌∷◌, Bytes, codes}
use ldap_manager.Directory.{Env, add_entry}
use ldap_manager.Exec.{Exec, send, discard, ◌>>=◌}
use ldap_manager.Manager.{Manager}
use ldap_manager.Manager.Ids.{get_highest_id}
use ldap_manager.Text.Decimal.{itoa}

module _ (env : Env) (m : Manager) where
  open env use {State}

  -- `setupOU`
  unfoldable pub setup_ou : Bytes → Bytes → Exec State (Unit {0})
  setup_ou dn ou = do
    discard (
        send env (
          add_entry dn (
            record { name = codes "objectClass"; values = codes "organizationalUnit" ∷ [] }
            ∷ record { name = codes "ou"; values = ou ∷ [] }
            ∷ [])))

  unfoldable pub setup_groups_ou : Exec State (Unit {0})
  unfolding setup_ou
  setup_groups_ou = setup_ou m.groups_dn m.groups_ou

  unfoldable pub setup_users_ou : Exec State (Unit {0})
  unfolding setup_ou
  setup_users_ou = setup_ou m.user_group_dn m.users_ou

  -- `setupLastID`
  unfoldable pub setup_last_id : Bytes → Bytes → Bytes → Exec State (Unit {0})
  setup_last_id attribute cn desc = do
    highest_id ← get_highest_id env m attribute
    discard (
        send env (
          add_entry (codes "cn=" ++ (cn ++ (codes "," ++ m.config.base_dn))) (
            record { name = codes "objectClass"; values = codes "device" ∷ codes "top" ∷ [] }
            ∷ record { name = codes "serialNumber"; values = itoa highest_id ∷ [] }
            ∷ record { name = codes "description"; values = desc ∷ [] }
            ∷ [])))

  unfoldable pub setup_last_gid : Exec State (Unit {0})
  unfolding setup_last_id
  setup_last_gid = setup_last_id m.group_attribute (codes "lastGID") (
      codes
        "Records the last GID used to create a Posix group. This prevents the re-use of a GID from a deleted group.")

  unfoldable pub setup_last_uid : Exec State (Unit {0})
  unfolding setup_last_id
  setup_last_uid = setup_last_id m.account_attribute (codes "lastUID") (
      codes
        "Records the last UID used to create a Posix account. This prevents the re-use of a UID from a deleted account.")
