-- ===== src/Directory.antt =====
-- What the program uses of the LDAP client library and of its server: requests, answers and entries
-- as data, and the rest as a parameter, `Env`. A server is a state and a transition for each
-- request; the state also stands for all else that an answer can depend on.
use ldap_manager.Base.{Option, ℕ, Bool, List, Bytes}
use ldap_manager.Text.Filter.{Unicode}
use ldap_manager.Hash.Library.{Digests}

-- `ldap.Attribute` and `ldap.EntryAttribute`.
pub record Attribute : Type 0 where
  pub name : Bytes
  pub values : List Bytes

-- `ldap.Entry`.
pub record Entry : Type 0 where
  pub dn : Bytes
  pub attributes : List Attribute

pub data Operation : Type 0 where
  add delete replace : Operation

-- One change of a `ldap.ModifyRequest`.
pub record Change : Type 0 where
  pub operation : Operation
  pub attribute : Bytes
  pub values : List Bytes

-- Every search has the scope `ScopeWholeSubtree` and no limits.
pub record SearchRequest : Type 0 where
  pub base_dn : Bytes
  pub filter : Bytes
  pub attributes : List Bytes

pub record ModifyDnRequest : Type 0 where
  pub dn : Bytes
  pub new_rdn : Bytes
  pub delete_old_rdn : Bool
  pub new_superior : Bytes

pub data Request : Type 0 where
  search_entries : SearchRequest → Request
  add_entry : Bytes → List Attribute → Request
  modify : Bytes → List Change → Request
  modify_dn : ModifyDnRequest → Request
  delete_entry : Bytes → Request
  bind : Bytes → Bytes → Request

-- `*ldap.Error` with its result code, or another error of the connection.
pub data ServerError : Type 0 where
  result_code : ℕ → ServerError
  connection : ServerError

-- Result codes of the protocol (RFC 4511).
abbrev pub no_such_attribute : ℕ
no_such_attribute = 16

abbrev pub attribute_or_value_exists : ℕ
attribute_or_value_exists = 20

abbrev pub no_such_object : ℕ
no_such_object = 32

abbrev pub object_class_violation : ℕ
object_class_violation = 65

abbrev pub entry_already_exists : ℕ
entry_already_exists = 68

-- The entries of a search; any other request is answered with none.
pub data Answer : Type 0 where
  entries : List Entry → Answer
  failed : ServerError → Answer

pub record Env : Type 1 where
  pub State : Type 0
  pub perform : Request → State → Answer × State
  -- `entry.GetAttributeValue`: the first value, or "".
  pub get_attribute_value : Entry → Bytes → Bytes
  -- `entry.GetAttributeValues`.
  pub get_attribute_values : Entry → Bytes → List Bytes
  -- What the regular expression of `extractAttribute` captures in a name, for an attribute that has
  -- characters other than letters, digits and dashes; nothing if it does not compile.
  pub capture : (attribute : Bytes) → (dn : Bytes) → Option Bytes
  -- `ldap.EscapeFilter`.
  pub escape_filter : Bytes → Bytes
  pub unicode : Unicode
  -- What `%q` prints.
  pub quote : Bytes → Bytes
  pub digests : Digests
  -- The bytes that `rand.Read` delivers in a state, by their number.
  pub random : State → ℕ → Bytes
