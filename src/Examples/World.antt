-- ===== src/Examples/World.antt =====
-- A directory server that holds groups only, a manager with the default configuration, and an
-- authenticator with one token.
use ldap_manager.Base.{
  none, true, false, some, List, [], ◌∷◌, Bytes, codes, bytes_eq, if◌then◌else◌,
}
use ldap_manager.Base.Int.{pos}
use ldap_manager.Directory.{
  Attribute, Entry, Request, search_entries, Answer, entries, failed, result_code, no_such_object,
  delete_entry, Env,
}
use ldap_manager.Manager.{Manager, new_open_ldap_config, new_ldap_manager}
use ldap_manager.Server.{AuthClaims, Authenticator, invalid_token, read_token}

-- The manager that `NewLDAPManager` makes, written out.
unfoldable pub example_manager : Manager
unfolding new_ldap_manager new_open_ldap_config
example_manager = new_ldap_manager new_open_ldap_config

abbrev pub values_of : List Attribute → Bytes → List Bytes
values_of [] name = []
values_of (a ∷ attributes) name =
    let rest = values_of attributes name in if bytes_eq a.name name then a.values else rest

abbrev pub first_of : List Bytes → Bytes
first_of [] = []
first_of (v ∷ vs) = v

-- A search below the groups finds all entries; any other search finds none. A deletion fails.
abbrev pub answer_of : Request → List Entry → Answer
answer_of (search_entries r) s =
    entries (if bytes_eq r.base_dn (codes "ou=groups,dc=example,dc=org") then s else [])
answer_of (delete_entry dn) s = failed (result_code no_such_object)
answer_of _ s = entries []

abbrev pub example_env : Env
example_env = record {
  State = List Entry;
  perform = λ r s. (answer_of r s, s);
  get_attribute_value = λ e name. first_of (values_of e.attributes name);
  get_attribute_values = λ e name. values_of e.attributes name;
  capture = λ attribute dn. none;
  escape_filter = λ s. s;
  unicode = record { lower = λ s. []; upper = λ s. s };
  quote = λ s. s;
  digests = record {
    md5 = λ s. s;
    sha1 = λ s. s;
    sha256_crypt = λ key salt. salt;
    sha512_crypt = λ key salt. salt;
    md5_crypt = λ key salt. salt;
  };
  random = λ s n. [];
}

abbrev pub staff : Entry
staff = record {
  dn = codes "cn=staff,ou=groups,dc=example,dc=org";
  attributes =
      record { name = codes "cn"; values = codes "staff" ∷ [] }
      ∷ record { name = codes "gidNumber"; values = codes "2007" ∷ [] }
      ∷ [];
}

abbrev pub user_claims : AuthClaims
user_claims = record {
  uid = codes "ann";
  uid_number = codes "2001";
  is_admin = false;
  display_name = codes "Ann";
}

abbrev pub example_authenticator : Authenticator
example_authenticator = record {
  validate = λ token.
      if bytes_eq token (codes "ann") then read_token true (some user_claims) else invalid_token;
  login = λ claims. some (codes "signed", pos 3600);
}
