-- ===== src/Daemon/Options.antt =====
-- `NewLDAPManagerServer` of base/server.go: what the flags make of the servers' configuration.
pub mod Defaults
use ldap_manager.Base.{◌++◌, Bool, not, Bytes, codes, is_empty, if◌then◌else◌}
use ldap_manager.Base.Int.{ℤ}
use ldap_manager.Hash.{default}
use ldap_manager.Manager.{OpenLdapConfig, Manager}
use ldap_manager.Daemon.Flags.{CliContext}

-- `auth.Authenticator` without its keys.
pub record Issuing : Type 0 where
  pub expire_seconds : ℤ
  pub issuer : Bytes
  pub audience : Bytes

-- `LDAPManagerServer` as it is made, without its version, build time and key files.
pub record ServerOptions : Type 0 where
  pub name : Bytes
  pub http_health_check_url : Bytes
  pub issuing : Issuing
  pub static : Bool
  pub static_root : Bytes
  pub manager : Manager

module _ (ctx : CliContext) where
  open ctx use {string, int, bool}

  unfoldable pub open_ldap_config : OpenLdapConfig
  open_ldap_config = record {
    host = string (codes "openldap-host");
    port = int (codes "openldap-port");
    protocol = string (codes "openldap-protocol");
    organization = string (codes "openldap-organization");
    domain = string (codes "openldap-domain");
    base_dn = string (codes "openldap-base-dn");
    admin_password = string (codes "openldap-admin-password");
    config_password = string (codes "openldap-config-password");
    readonly_user = not (is_empty (string (codes "openldap-readonly-user")));
    readonly_user_username = string (codes "openldap-readonly-user");
    readonly_user_password = string (codes "openldap-readonly-password");
    tls = bool (codes "openldap-tls");
    use_rfc2307bis_schema = bool (codes "openldap-use-rfc2307bis");
  }

  -- A distinguished name that is given, or that of the unit below the base.
  unfoldable pub dn_or_unit : Bytes → Bytes → Bytes
  dn_or_unit dn ou =
      if is_empty dn
      then codes "ou=" ++ (ou ++ (codes "," ++ string (codes "openldap-base-dn")))
      else dn

  unfoldable pub manager_of : Manager
  unfolding open_ldap_config dn_or_unit
  manager_of = record {
    config = open_ldap_config;
    groups_dn = dn_or_unit (string (codes "groups-dn")) (string (codes "groups-ou"));
    user_group_dn = dn_or_unit (string (codes "users-dn")) (string (codes "users-ou"));
    groups_ou = string (codes "groups-ou");
    users_ou = string (codes "users-ou");
    hashing_algorithm = default;
    default_user_group = string (codes "default-user-group");
    default_admin_group = string (codes "default-admin-group");
    default_user_shell = string (codes "default-login-shell");
    default_admin_username = string (codes "default-admin-username");
    default_admin_password = string (codes "default-admin-password");
    force_create_admin = bool (codes "force-create-admin");
    group_membership_attribute = string (codes "group-membership-attribute");
    account_attribute = string (codes "account-attribute");
    group_attribute = string (codes "group-attribute");
    group_membership_uses_uid = bool (codes "group-membership-uses-uid");
  }

  -- `NewLDAPManagerServer`
  unfoldable pub new_ldap_manager_server : ServerOptions
  unfolding manager_of
  new_ldap_manager_server = record {
    name = codes "ldap manager service";
    http_health_check_url = codes "/healthz";
    issuing = record {
      expire_seconds = int (codes "expire-sec");
      issuer = string (codes "issuer");
      audience = string (codes "audience");
    };
    static = not (bool (codes "no-static"));
    static_root = string (codes "static-root");
    manager = manager_of;
  }
