-- ===== src/Daemon/Flags.antt =====
-- The flags of the command line in cmd/ldap-manager/server.go, without their usage texts, and what
-- the command `serve` reads of them before it starts a server.
use ldap_manager.Base.{◌≡◌, ◌++◌, ◌*◌, Bool, true, false, List, [], ◌∷◌, Bytes, codes}
use ldap_manager.Base.Int.{ℤ, pos}
use ldap_manager.Text.Decimal.{itoa}

-- The value that a flag has if it is not set.
pub data Value : Type 0 where
  string_value : Bytes → Value
  int_value : ℤ → Value
  bool_value : Bool → Value
  -- One of a list of words.
  enum_value : (enum : List Bytes) → Bytes → Value

pub record Flag : Type 0 where
  pub name : Bytes
  pub value : Value
  pub aliases : List Bytes
  pub env_vars : List Bytes

-- `cli.Context`: the flags by their names.
pub record CliContext : Type 0 where
  pub string : Bytes → Bytes
  pub int : Bytes → ℤ
  pub bool : Bytes → Bool

-- The context answers for a flag what it was declared with, as for one that is not set.
abbrev pub IsUnset : CliContext → Flag → Type 0
IsUnset ctx f = elim f.value [
  | string_value v ↦ ctx.string f.name ≡ v
  | int_value v ↦ ctx.int f.name ≡ v
  | bool_value v ↦ ctx.bool f.name ≡ v
  | enum_value enum v ↦ ctx.string f.name ≡ v
]

unfoldable pub server_flags : List Flag
server_flags =
    record {
      name = codes "grpc-port";
      value = int_value (pos 9090);
      aliases = [];
      env_vars = codes "GRPC_PORT" ∷ [];
    }
    ∷ record {
      name = codes "http-port";
      value = int_value (pos 80);
      aliases = codes "port" ∷ [];
      env_vars = codes "HTTP_PORT" ∷ codes "PORT" ∷ [];
    }
    ∷ record {
      name = codes "no-static";
      value = bool_value false;
      aliases = codes "disable-serve-static" ∷ [];
      env_vars = codes "NO_STATIC" ∷ codes "DISABLE_SERVE_STATIC" ∷ [];
    }
    ∷ record {
      name = codes "static-root";
      value = string_value (codes "./frontend/dist");
      aliases = [];
      env_vars = codes "STATIC_DIR" ∷ codes "STATIC_ROOT" ∷ [];
    }
    ∷ []

-- `DefaultCLIFlagsOptions`: the values of the authenticator's flags, which another package makes.
pub record DefaultCliFlagsOptions : Type 0 where
  pub issuer : Bytes
  pub audience : Bytes
  pub expire_sec : ℤ

unfoldable pub jwt_auth_flags : DefaultCliFlagsOptions
jwt_auth_flags = record {
  issuer = codes "issuer@example.org";
  audience = codes "example.org";
  expire_sec = pos (1 * 24 * 60 * 60);
}

unfoldable pub ldap_config_flags : List Flag
ldap_config_flags =
    record {
      name = codes "openldap-host";
      value = string_value (codes "localhost");
      aliases = [];
      env_vars = codes "OPENLDAP_HOST" ∷ [];
    }
    ∷ record {
      name = codes "openldap-port";
      value = int_value (pos 389);
      aliases = [];
      env_vars = codes "OPENLDAP_PORT" ∷ [];
    }
    ∷ record {
      name = codes "openldap-protocol";
      value = string_value (codes "ldap");
      aliases = [];
      env_vars = codes "OPENLDAP_PROTOCOL" ∷ [];
    }
    ∷ record {
      name = codes "openldap-admin-password";
      value = string_value (codes "admin");
      aliases = [];
      env_vars = codes "OPENLDAP_ADMIN_PASSWORD" ∷ [];
    }
    ∷ record {
      name = codes "openldap-config-password";
      value = string_value (codes "config");
      aliases = [];
      env_vars = codes "OPENLDAP_CONFIG_PASSWORD" ∷ [];
    }
    ∷ record {
      name = codes "openldap-readonly-user";
      value = string_value [];
      aliases = [];
      env_vars = codes "OPENLDAP_READONLY_USER" ∷ [];
    }
    ∷ record {
      name = codes "openldap-readonly-password";
      value = string_value [];
      aliases = [];
      env_vars = codes "OPENLDAP_READONLY_PASSWORD" ∷ [];
    }
    ∷ record {
      name = codes "openldap-organization";
      value = string_value (codes "Example Inc.");
      aliases = [];
      env_vars = codes "OPENLDAP_ORGANIZATION" ∷ [];
    }
    ∷ record {
      name = codes "openldap-domain";
      value = string_value (codes "example.org");
      aliases = [];
      env_vars = codes "OPENLDAP_DOMAIN" ∷ [];
    }
    ∷ record {
      name = codes "openldap-base-dn";
      value = string_value (codes "dc=example,dc=org");
      aliases = [];
      env_vars = codes "OPENLDAP_BASE_DN" ∷ [];
    }
    ∷ record {
      name = codes "openldap-tls";
      value = bool_value false;
      aliases = [];
      env_vars = codes "OPENLDAP_TLS" ∷ [];
    }
    ∷ record {
      name = codes "openldap-use-rfc2307bis";
      value = bool_value true;
      aliases = [];
      env_vars = codes "OPENLDAP_USE_RFC2307BIS" ∷ [];
    }
    ∷ []

unfoldable pub ldap_manager_flags : List Flag
ldap_manager_flags =
    record {
      name = codes "groups-ou";
      value = string_value (codes "groups");
      aliases = [];
      env_vars = codes "GROUPS_OU" ∷ [];
    }
    ∷ record {
      name = codes "users-ou";
      value = string_value (codes "users");
      aliases = [];
      env_vars = codes "USERS_OU" ∷ [];
    }
    ∷ record {
      name = codes "groups-dn";
      value = string_value [];
      aliases = [];
      env_vars = codes "GROUPS_DN" ∷ [];
    }
    ∷ record {
      name = codes "users-dn";
      value = string_value [];
      aliases = [];
      env_vars = codes "USERS_DN" ∷ [];
    }
    ∷ record {
      name = codes "group-membership-attribute";
      value = enum_value (codes "uniqueMember" ∷ codes "memberUID" ∷ []) (codes "uniqueMember");
      aliases = [];
      env_vars = codes "GROUP_MEMBERSHIP_ATTRIBUTE" ∷ [];
    }
    ∷ record {
      name = codes "group-membership-uses-uid";
      value = bool_value false;
      aliases = [];
      env_vars = codes "GROUP_MEMBERSHIP_USES_UID" ∷ [];
    }
    ∷ record {
      name = codes "account-attribute";
      value = string_value (codes "uid");
      aliases = [];
      env_vars = codes "ACCOUNT_ATTRIBUTE" ∷ [];
    }
    ∷ record {
      name = codes "group-attribute";
      value = string_value (codes "gid");
      aliases = [];
      env_vars = codes "GROUP_ATTRIBUTE" ∷ [];
    }
    ∷ record {
      name = codes "default-user-group";
      value = string_value (codes "users");
      aliases = [];
      env_vars = codes "DEFAULT_USER_GROUP" ∷ [];
    }
    ∷ record {
      name = codes "default-admin-group";
      value = string_value (codes "admins");
      aliases = [];
      env_vars = codes "DEFAULT_ADMIN_GROUP" ∷ [];
    }
    ∷ record {
      name = codes "default-login-shell";
      value = string_value (codes "/bin/bash");
      aliases = [];
      env_vars = codes "DEFAULT_LOGIN_SHELL" ∷ [];
    }
    ∷ record {
      name = codes "default-admin-username";
      value = string_value (codes "admin");
      aliases = [];
      env_vars = codes "DEFAULT_ADMIN_USERNAME" ∷ [];
    }
    ∷ record {
      name = codes "default-admin-password";
      value = string_value (codes "admin");
      aliases = [];
      env_vars = codes "DEFAULT_ADMIN_PASSWORD" ∷ [];
    }
    ∷ record {
      name = codes "force-create-admin";
      value = bool_value false;
      aliases = [];
      env_vars = codes "FORCE_CREATE_ADMIN" ∷ [];
    }
    ∷ []

-- The address that a server listens at.
unfoldable pub grpc_address : CliContext → Bytes
grpc_address ctx = codes ":" ++ itoa (ctx.int (codes "grpc-port"))

unfoldable pub http_address : CliContext → Bytes
http_address ctx = codes ":" ++ itoa (ctx.int (codes "http-port"))
