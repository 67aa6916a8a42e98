-- ===== src/Server/Rest.antt =====
-- The REST interface of the service: the paths in ldap_manager.proto, and what
-- grpc/ldap-manager/ldap_manager.pb.gw.go makes of a request. The mux that picks a route, and the
-- decoding of bodies and queries, are those of grpc-gateway.
pub mod Requests
pub mod Routes
pub mod Access
use ldap_manager.Base.{
  ℕ, ◌++◌, Bool, true, false, Option, none, some, List, [], ◌∷◌, Bytes, codes, bytes_eq,
  if◌then◌else◌,
}
use ldap_manager.Manager.Accounts.{GetUserListRequest, LoginRequest}
use ldap_manager.Manager.Groups.{NewGroupRequest, UpdateGroupRequest, GetGroupListRequest}
use ldap_manager.Manager.Members.{GroupMember, GetGroupRequest}
use ldap_manager.Manager.Password.{ChangePasswordRequest}
use ldap_manager.Manager.Update.{UpdateAccountRequest}
use ldap_manager.Manager.Validation.{Account}
use ldap_manager.Server.Rpc.{Rpc}

pub data HttpMethod : Type 0 where
  get post put delete : HttpMethod

-- The methods of the service that have a path.
pub data Route : Type 0 where
  login get_user_list get_account new_account update_account delete_account change_password : Route
  new_group delete_group update_group get_group_list get_user_groups : Route
  get_group add_group_member delete_group_member : Route

pub data Segment : Type 0 where
  literal : Bytes → Segment
  parameter : (name : Bytes) → Segment

abbrev account_path : List Segment
account_path = literal (codes "v1") ∷ literal (codes "account") ∷ parameter (codes "username") ∷ []

abbrev group_path : Bytes → List Segment
group_path name = literal (codes "v1") ∷ literal (codes "group") ∷ parameter name ∷ []

-- `option (google.api.http)`
unfoldable pub method : Route → HttpMethod
method login = post
method get_user_list = get
method get_account = get
method new_account = put
method update_account = post
method delete_account = delete
method change_password = post
method new_group = put
method delete_group = delete
method update_group = post
method get_group_list = get
method get_user_groups = get
method get_group = get
method add_group_member = put
method delete_group_member = delete

unfoldable pub template : Route → List Segment
template login = literal (codes "v1") ∷ literal (codes "login") ∷ []
template get_user_list = literal (codes "v1") ∷ literal (codes "accounts") ∷ []
template get_account = account_path
template new_account = literal (codes "v1") ∷ literal (codes "account") ∷ []
template update_account = account_path ++ (literal (codes "update") ∷ [])
template delete_account = account_path
template change_password =
    literal (codes "v1") ∷ literal (codes "account") ∷ literal (codes "password") ∷ []
template new_group = literal (codes "v1") ∷ literal (codes "group") ∷ []
template delete_group = group_path (codes "name")
template update_group = group_path (codes "name") ++ (literal (codes "update") ∷ [])
template get_group_list = literal (codes "v1") ∷ literal (codes "groups") ∷ []
template get_user_groups = account_path ++ (literal (codes "groups") ∷ [])
template get_group = group_path (codes "name")
template add_group_member = group_path (codes "group") ++ (literal (codes "members") ∷ [])
template delete_group_member =
    group_path (codes "group") ++ (literal (codes "member") ∷ parameter (codes "username") ∷ [])

-- `pathParams`
abbrev pub Params : Type 0
Params = List (Bytes × Bytes)

abbrev pub lookup : Params → Bytes → Option Bytes
lookup [] name = none
lookup ((key, value) ∷ params) name =
    let rest = lookup params name in if bytes_eq key name then some value else rest

-- A body or a query that was decoded, or the text of an error; an empty body is an empty message.
pub data Decoded (A : Type 0) : Type 0 where
  decoded : A → Decoded A
  undecoded : (message : Bytes) → Decoded A

-- The decoders: of JSON bodies, and of queries into a message that the path has begun.
pub record Codec : Type 0 where
  pub login : Bytes → Decoded LoginRequest
  pub user_list : Bytes → Decoded GetUserListRequest
  pub new_account : Bytes → Decoded Account
  pub update_account : Bytes → Decoded UpdateAccountRequest
  pub change_password : Bytes → Decoded ChangePasswordRequest
  pub new_group : Bytes → Decoded NewGroupRequest
  pub update_group : Bytes → Decoded UpdateGroupRequest
  pub group_list : Bytes → Decoded GetGroupListRequest
  pub group : (name : Bytes) → Bytes → Decoded GetGroupRequest
  pub member : Bytes → Decoded GroupMember

-- The body or the query, and what the header `X-User-Token` brings along.
pub record RestRequest : Type 0 where
  pub content : Bytes
  pub tokens : Option (List Bytes)

-- A call of the client, or a status `InvalidArgument`.
pub data Requested : Type 0 where
  calls : Rpc → Requested
  rejected : (message : Bytes) → Requested

abbrev pub and_call : {A : Type 0} → Decoded A → (A → Requested) → Requested
and_call (decoded a) f = f a
and_call (undecoded message) f = rejected message

-- A parameter of the path; `runtime.String` returns it as it is.
abbrev pub with_param : Params → Bytes → (Bytes → Requested) → Requested
with_param params name f = elim (lookup params name) [
  | none ↦ rejected (codes "missing parameter " ++ name)
  | some value ↦ f value
]
