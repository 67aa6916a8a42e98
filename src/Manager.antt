-- ===== src/Manager.antt =====
-- config/config.go, the configuration of ldap_manager.go, and the names that the manager builds.
pub mod Named
pub mod Lookup
pub mod Ids
pub mod Validation
pub mod Members
pub mod Groups
pub mod Accounts
pub mod LastId
pub mod AccountGroup
pub mod Creation
pub mod Update
pub mod Setup
pub mod Requests
pub mod Password
use ldap_manager.Base.{ℕ, Bool, true, false, ◌||◌, ◌++◌, Bytes, codes, bytes_eq}
use ldap_manager.Base.Int.{ℤ, pos}
use ldap_manager.Directory.{Env}
use ldap_manager.Hash.{HashingAlgorithm, default}
use ldap_manager.Text.Decimal.{itoa}
use ldap_manager.Text.Escape.{escape_dn}
use ldap_manager.Text.Filter.{to_lower}

pub record OpenLdapConfig : Type 0 where
  pub host : Bytes
  pub port : ℤ
  pub protocol : Bytes
  pub organization : Bytes
  pub domain : Bytes
  pub base_dn : Bytes
  pub admin_password : Bytes
  pub config_password : Bytes
  pub readonly_user : Bool
  pub readonly_user_username : Bytes
  pub readonly_user_password : Bytes
  pub tls : Bool
  pub use_rfc2307bis_schema : Bool

unfoldable pub new_open_ldap_config : OpenLdapConfig
new_open_ldap_config = record {
  host = codes "localhost";
  port = pos 389;
  protocol = codes "ldap";
  organization = codes "Example Inc.";
  domain = codes "example.org";
  base_dn = codes "dc=example,dc=org";
  admin_password = codes "admin";
  config_password = codes "config";
  readonly_user = true;
  readonly_user_username = codes "readonly";
  readonly_user_password = codes "readonly";
  tls = false;
  use_rfc2307bis_schema = true;
}

unfoldable pub uri : OpenLdapConfig → Bytes
uri cfg = cfg.protocol ++ (codes "://" ++ (cfg.host ++ (codes ":" ++ itoa cfg.port)))

-- `LDAPManager`, without its connection.
pub record Manager : Type 0 where
  pub config : OpenLdapConfig
  pub groups_dn : Bytes
  pub user_group_dn : Bytes
  pub groups_ou : Bytes
  pub users_ou : Bytes
  pub hashing_algorithm : HashingAlgorithm
  pub default_user_group : Bytes
  pub default_admin_group : Bytes
  pub default_user_shell : Bytes
  pub default_admin_username : Bytes
  pub default_admin_password : Bytes
  pub force_create_admin : Bool
  pub group_membership_attribute : Bytes
  pub account_attribute : Bytes
  pub group_attribute : Bytes
  pub group_membership_uses_uid : Bool

unfoldable pub new_ldap_manager : OpenLdapConfig → Manager
new_ldap_manager cfg = record {
  config = cfg;
  groups_dn = codes "ou=groups," ++ cfg.base_dn;
  user_group_dn = codes "ou=users," ++ cfg.base_dn;
  groups_ou = codes "groups";
  users_ou = codes "users";
  hashing_algorithm = default;
  default_user_group = codes "users";
  default_admin_group = codes "admins";
  default_user_shell = codes "/bin/bash";
  default_admin_username = codes "admin";
  default_admin_password = codes "admin";
  force_create_admin = false;
  group_membership_attribute = codes "uniqueMember";
  account_attribute = codes "uid";
  group_attribute = codes "gid";
  group_membership_uses_uid = false;
}

module _ (m : Manager) where
  -- `AccountNamed`
  unfoldable pub account_named : Bytes → Bytes
  account_named name =
      m.account_attribute ++ (codes "=" ++ (escape_dn name ++ (codes "," ++ m.user_group_dn)))

  -- `GroupNamed`
  unfoldable pub group_named : Bytes → Bytes
  group_named name = codes "cn=" ++ (escape_dn name ++ (codes "," ++ m.groups_dn))

  -- How a user is listed in a group: by name or by distinguished name. The code repeats these lines
  -- wherever it writes or looks for a member.
  unfoldable pub member_value : Bytes → Bytes
  unfolding account_named
  member_value username = elim m.group_membership_uses_uid [
    | true ↦ escape_dn username
    | false ↦ account_named username
  ]

-- `IsProtectedGroup`
unfoldable pub is_protected_group : Env → Manager → Bytes → Bool
is_protected_group env m group_name =
    let lower = to_lower env.unicode in
    let is_admin_group = bytes_eq (lower group_name) (lower m.default_admin_group) in
    let is_user_group = bytes_eq (lower group_name) (lower m.default_user_group) in
    is_admin_group || is_user_group
