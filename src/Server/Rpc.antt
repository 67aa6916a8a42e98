-- ===== src/Server/Rpc.antt =====
-- The service `LDAPManager` of ldap_manager.proto: its methods, which of them require an
-- administrator, and the handler that each call reaches.
use ldap_manager.Base.{Bool, true, false, Option, some, List, Bytes}
use ldap_manager.Directory.{Env}
use ldap_manager.Manager.{Manager}
use ldap_manager.Manager.Accounts.{GetUserListRequest, User, UserList, LoginRequest}
use ldap_manager.Manager.Groups.{NewGroupRequest, UpdateGroupRequest, GetGroupListRequest}
use ldap_manager.Manager.Members.{Group, GroupMember, GetGroupRequest, GroupList}
use ldap_manager.Manager.Password.{ChangePasswordRequest}
use ldap_manager.Manager.Update.{UpdateAccountRequest}
use ldap_manager.Manager.Validation.{Account}
use ldap_manager.Server.{Token, Context, Authenticator, Reply, replied, status, failure, Serve}
use ldap_manager.Server.Handlers

pub data Rpc : Type 0 where
  login : LoginRequest → Rpc
  get_user_list : GetUserListRequest → Rpc
  get_account : (username : Bytes) → Rpc
  new_account : Account → Rpc
  update_account : UpdateAccountRequest → Rpc
  delete_account : (username : Bytes) → Rpc
  change_password : ChangePasswordRequest → Rpc
  new_group : NewGroupRequest → Rpc
  delete_group : (name : Bytes) → Rpc
  update_group : UpdateGroupRequest → Rpc
  get_group_list : GetGroupListRequest → Rpc
  get_user_groups : (username : Bytes) → Rpc
  is_group_member : GroupMember → Rpc
  get_group : GetGroupRequest → Rpc
  add_group_member : GroupMember → Rpc
  delete_group_member : GroupMember → Rpc

pub data Response : Type 0 where
  token : Token → Response
  user_list : UserList → Response
  user : User → Response
  empty : Unit {0} → Response
  group_list : GroupList → Response
  member_status : Bool → Response
  group : Group → Response

-- `option (require_admin) = true`
unfoldable pub require_admin : Rpc → Bool
require_admin (get_user_list req) = true
require_admin (new_account account) = true
require_admin (new_group req) = true
require_admin (delete_group name) = true
require_admin (update_group req) = true
require_admin (is_group_member req) = true
require_admin (get_group req) = true
require_admin (add_group_member req) = true
require_admin (delete_group_member req) = true
require_admin _ = false

abbrev pub map_reply : {A : Type 0} → (A → Response) → Reply A → Reply Response
map_reply f (replied a) = replied (f a)
map_reply f (status c message) = status c message
map_reply f (failure message) = failure message

unfoldable pub respond : {S A : Type 0} → (A → Response) → Serve S A → Serve S Response
respond f serve s = let (r, s') = serve s in (map_reply f r, s')

-- What a call brings along, by its route.
abbrev pub context_of : Authenticator → Option (List Bytes) → Rpc → Context
context_of authenticator tokens rpc = record {
  require_admin = some (require_admin rpc);
  tokens = tokens;
  authenticator = authenticator;
}

module _ (env : Env) (m : Manager) where
  -- The handler of a method.
  unfoldable pub handle : Context → Rpc → Serve env.State Response
  handle ctx (login req) = respond token (Handlers.serve_login env m ctx req)
  handle ctx (get_user_list req) = respond user_list (Handlers.serve_get_user_list env m ctx req)
  handle ctx (get_account username) = respond user (Handlers.serve_get_account env m ctx username)
  handle ctx (new_account account) = respond empty (Handlers.serve_new_account env m ctx account)
  handle ctx (update_account req) = respond token (Handlers.serve_update_account env m ctx req)
  handle ctx (delete_account username) =
      respond empty (Handlers.serve_delete_account env m ctx username)
  handle ctx (change_password req) = respond empty (Handlers.serve_change_password env m ctx req)
  handle ctx (new_group req) = respond empty (Handlers.serve_new_group env m ctx req)
  handle ctx (delete_group name) = respond empty (Handlers.serve_delete_group env m ctx name)
  handle ctx (update_group req) = respond empty (Handlers.serve_update_group env m ctx req)
  handle ctx (get_group_list req) = respond group_list (Handlers.serve_get_group_list env m ctx req)
  handle ctx (get_user_groups username) =
      respond group_list (Handlers.serve_get_user_groups env m ctx username)
  handle ctx (is_group_member req) =
      respond member_status (Handlers.serve_is_group_member env m ctx req)
  handle ctx (get_group req) = respond group (Handlers.serve_get_group env m ctx req)
  handle ctx (add_group_member req) = respond empty (Handlers.serve_add_group_member env m ctx req)
  handle ctx (delete_group_member req) =
      respond empty (Handlers.serve_delete_group_member env m ctx req)

  -- A call of the service.
  unfoldable pub call : Authenticator → Option (List Bytes) → Rpc → Serve env.State Response
  unfolding handle
  call authenticator tokens rpc = handle (context_of authenticator tokens rpc) rpc
