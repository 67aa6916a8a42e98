-- ===== src/Server/Rest/Requests.antt =====
-- The functions `request_LDAPManager_…` of grpc/ldap-manager/ldap_manager.pb.gw.go.
use ldap_manager.Base.{Option, List, Bytes, codes}
use ldap_manager.Directory.{Env}
use ldap_manager.Error.{invalid_argument}
use ldap_manager.Manager.{Manager}
use ldap_manager.Server.{Authenticator, status, Serve}
use ldap_manager.Server.Rpc.{Rpc, Response, call}
use ldap_manager.Server.Rest.{
  Route, Params, Codec, RestRequest, Requested, calls, rejected, and_call, with_param,
}

module _ (codec : Codec) (params : Params) (content : Bytes) where
  unfoldable pub request_login : Requested
  request_login = and_call (codec.login content) λ req. calls (Rpc.login req)

  unfoldable pub request_get_user_list : Requested
  request_get_user_list = and_call (codec.user_list content) λ req. calls (Rpc.get_user_list req)

  unfoldable pub request_get_account : Requested
  request_get_account =
      with_param params (codes "username") λ username. calls (Rpc.get_account username)

  unfoldable pub request_new_account : Requested
  request_new_account = and_call (codec.new_account content) λ req. calls (Rpc.new_account req)

  -- The name of the path replaces that of the body.
  unfoldable pub request_update_account : Requested
  request_update_account = and_call (codec.update_account content) λ req.
      with_param params (codes "username")
        λ username. calls (Rpc.update_account (record req { username = username }))

  unfoldable pub request_delete_account : Requested
  request_delete_account =
      with_param params (codes "username") λ username. calls (Rpc.delete_account username)

  unfoldable pub request_change_password : Requested
  request_change_password =
      and_call (codec.change_password content) λ req. calls (Rpc.change_password req)

  unfoldable pub request_new_group : Requested
  request_new_group = and_call (codec.new_group content) λ req. calls (Rpc.new_group req)

  unfoldable pub request_delete_group : Requested
  request_delete_group = with_param params (codes "name") λ name. calls (Rpc.delete_group name)

  unfoldable pub request_update_group : Requested
  request_update_group = and_call (codec.update_group content) λ req.
      with_param params (codes "name") λ name. calls (Rpc.update_group (record req { name = name }))

  unfoldable pub request_get_group_list : Requested
  request_get_group_list = and_call (codec.group_list content) λ req. calls (Rpc.get_group_list req)

  unfoldable pub request_get_user_groups : Requested
  request_get_user_groups =
      with_param params (codes "username") λ username. calls (Rpc.get_user_groups username)

  unfoldable pub request_get_group : Requested
  request_get_group =
      with_param params (codes "name")
        λ name. and_call (codec.group name content) λ req. calls (Rpc.get_group req)

  unfoldable pub request_add_group_member : Requested
  request_add_group_member = and_call (codec.member content) λ req.
      with_param params (codes "group")
        λ group. calls (Rpc.add_group_member (record req { group = group }))

  unfoldable pub request_delete_group_member : Requested
  request_delete_group_member = with_param params (codes "group") λ group.
      with_param params (codes "username")
        λ username. calls (Rpc.delete_group_member (record { group = group; username = username }))

  -- Which of them a route is registered with.
  unfoldable pub requested : Route → Requested
  unfolding request_login request_get_user_list request_get_account request_new_account
      request_update_account request_delete_account request_change_password request_new_group
      request_delete_group request_update_group request_get_group_list request_get_user_groups
      request_get_group request_add_group_member request_delete_group_member
  requested Route.login = request_login
  requested Route.get_user_list = request_get_user_list
  requested Route.get_account = request_get_account
  requested Route.new_account = request_new_account
  requested Route.update_account = request_update_account
  requested Route.delete_account = request_delete_account
  requested Route.change_password = request_change_password
  requested Route.new_group = request_new_group
  requested Route.delete_group = request_delete_group
  requested Route.update_group = request_update_group
  requested Route.get_group_list = request_get_group_list
  requested Route.get_user_groups = request_get_user_groups
  requested Route.get_group = request_get_group
  requested Route.add_group_member = request_add_group_member
  requested Route.delete_group_member = request_delete_group_member

module _ (env : Env) (m : Manager) (authenticator : Authenticator) where
  -- The handler of a route: the call to the gRPC server, or the status of a bad request.
  abbrev pub forwarded : Option (List Bytes) → Requested → Serve env.State Response
  forwarded tokens (rejected message) s = (status invalid_argument message, s)
  forwarded tokens (calls rpc) s = call env m authenticator tokens rpc s

  unfoldable pub serve_rest : Codec → Route → Params → RestRequest → Serve env.State Response
  unfolding requested
  serve_rest codec route params req =
      forwarded req.tokens (requested codec params req.content route)
