-- ===== src/Daemon/Options/Defaults.antt =====
-- The servers' configuration when flags are not set.
use ldap_manager.Base.{◌≡◌, false, [], All}
use ldap_manager.Manager.{new_open_ldap_config, new_ldap_manager}
use ldap_manager.Daemon.Flags.{CliContext, IsUnset, ldap_config_flags, ldap_manager_flags}
use ldap_manager.Daemon.Options.{open_ldap_config, dn_or_unit, manager_of, new_ldap_manager_server}

-- If no flag of the manager is set, the server's manager is the one that `NewLDAPManager` makes for
-- the same configuration of OpenLDAP, whatever that is.
pub manager_of-new_ldap_manager :
    (ctx : CliContext)
    → All (IsUnset ctx) ldap_manager_flags
    → (new_ldap_manager_server ctx).manager ≡ new_ldap_manager (open_ldap_config ctx)
unfolding ldap_manager_flags new_ldap_manager_server manager_of dn_or_unit new_ldap_manager
    open_ldap_config
manager_of-new_ldap_manager ctx unset = cc

-- If no flag of OpenLDAP is set, the configuration is that of `NewOpenLDAPConfig`, but for the
-- read-only user, which the command line leaves out.
pub open_ldap_config-new_open_ldap_config :
    (ctx : CliContext)
    → All (IsUnset ctx) ldap_config_flags
    → open_ldap_config ctx ≡ record new_open_ldap_config {
      readonly_user = false;
      readonly_user_username = [];
      readonly_user_password = [];
    }
unfolding ldap_config_flags open_ldap_config new_open_ldap_config
open_ldap_config-new_open_ldap_config ctx unset = cc
