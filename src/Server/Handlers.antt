-- ===== src/Server/Handlers.antt =====
-- The handlers of cmd/ldap-manager/grpc.
use ldap_manager.Base.{Bool, false, ◌||◌, Bytes, codes, is_empty, if◌then◌else◌}
use ldap_manager.Base.Int.{ℤ}
use ldap_manager.Directory.{Env, Entry}
use ldap_manager.Error.{app, internal, unauthenticated, not_found, code, error_text}
use ldap_manager.Exec.{Result, ok, err}
use ldap_manager.Hash.{default}
use ldap_manager.Manager.{Manager}
use ldap_manager.Manager.Accounts.{
  GetUserListRequest, User, UserList, LoginRequest, get_user_list, authenticate_user, get_account,
  delete_account,
}
use ldap_manager.Manager.Creation.{new_account}
use ldap_manager.Manager.Groups.{
  NewGroupRequest, UpdateGroupRequest, GetGroupListRequest, new_group, delete_group, update_group,
  get_group_list,
}
use ldap_manager.Manager.Members.{
  Group, GroupMember, GetGroupRequest, GroupList, is_group_member, get_user_groups, get_group_page,
  add_group_member, delete_group_member,
}
use ldap_manager.Manager.Password.{ChangePasswordRequest, change_password}
use ldap_manager.Manager.Update.{UpdateAccountRequest, update_account}
use ldap_manager.Manager.Validation.{Account}
use ldap_manager.Server.{
  AuthClaims, Token, Context, Reply, replied, status, failure, Serve, authenticate, with_claims,
  own_or_admin, run, token_for,
}
use ldap_manager.Text.Decimal.{itoa}

module _ (env : Env) (m : Manager) (ctx : Context) where
  open env use {State, quote, get_attribute_value}

  abbrev authenticated : {A : Type 0} → (AuthClaims → Serve State A) → Serve State A
  authenticated next = with_claims (authenticate ctx) next

  -- accounts.go
  unfoldable pub serve_get_user_list : GetUserListRequest → Serve State UserList
  serve_get_user_list req =
      authenticated (λ claims.
        run quote (codes "error while getting list of accounts") (get_user_list env m req))

  unfoldable pub serve_get_account : Bytes → Serve State User
  serve_get_account username = authenticated (λ claims.
      own_or_admin claims username
        (run quote (codes "error while getting account") (get_account env m username)))

  unfoldable pub serve_new_account : Account → Serve State (Unit {0})
  serve_new_account account = authenticated (λ claims.
      run quote (codes "error while creating new account") (new_account env m account default))

  sign : AuthClaims → Reply Token
  sign claims = token_for claims (ctx.authenticator.login claims)

  -- The token for the name and the number that the update returned.
  renewed_token : AuthClaims → Reply (Bytes × ℤ) → Reply Token
  unfolding sign
  renewed_token claims (replied (username, uid_number)) = sign (record {
    uid = username;
    uid_number = itoa uid_number;
    is_admin = claims.is_admin;
    display_name = claims.display_name;
  })
  renewed_token claims (status c message) = status c message
  renewed_token claims (failure message) = failure message

  unfoldable pub serve_update_account : UpdateAccountRequest → Serve State Token
  unfolding renewed_token
  serve_update_account req = authenticated (λ claims. own_or_admin claims req.username (λ s.
      let (r, s') =
        run quote (codes "error while updating account")
          (update_account env m req default claims.is_admin) s in
      (renewed_token claims r, s')))

  unfoldable pub serve_delete_account : Bytes → Serve State (Unit {0})
  serve_delete_account username = authenticated (λ claims.
      own_or_admin claims username
        (run quote (codes "error while deleting account") (delete_account env m username false)))

  unfoldable pub serve_change_password : ChangePasswordRequest → Serve State (Unit {0})
  serve_change_password req = authenticated (λ claims.
      own_or_admin claims req.username
        (run quote (codes "error while chaning password of account") (change_password env m req)))

  -- groups.go
  unfoldable pub serve_new_group : NewGroupRequest → Serve State (Unit {0})
  serve_new_group req =
      authenticated
        (λ claims. run quote (codes "error while creating group") (new_group env m req false))

  unfoldable pub serve_delete_group : Bytes → Serve State (Unit {0})
  serve_delete_group name =
      authenticated
        (λ claims. run quote (codes "error while deleting group") (delete_group env m name))

  unfoldable pub serve_update_group : UpdateGroupRequest → Serve State (Unit {0})
  serve_update_group req =
      authenticated
        (λ claims. run quote (codes "error while updating group") (update_group env m req))

  unfoldable pub serve_get_group_list : GetGroupListRequest → Serve State GroupList
  serve_get_group_list req =
      authenticated
        (λ claims. run quote (codes "error while getting groups") (get_group_list env m req))

  -- group_members.go
  unfoldable pub serve_is_group_member : GroupMember → Serve State Bool
  serve_is_group_member req = authenticated (λ claims.
      own_or_admin claims req.username
        (run quote (codes "error while checking if user is member") (is_group_member env m req)))

  unfoldable pub serve_get_group : GetGroupRequest → Serve State Group
  serve_get_group req =
      authenticated
        (λ claims. run quote (codes "error while getting group") (get_group_page env m req))

  unfoldable pub serve_get_user_groups : Bytes → Serve State GroupList
  serve_get_user_groups username = authenticated (λ claims.
      own_or_admin claims username
        (run quote (codes "error while getting groups") (get_user_groups env m username)))

  unfoldable pub serve_add_group_member : GroupMember → Serve State (Unit {0})
  serve_add_group_member req = authenticated (λ claims.
      run quote (codes "error while adding group member") (add_group_member env m req false))

  unfoldable pub serve_delete_group_member : GroupMember → Serve State (Unit {0})
  serve_delete_group_member req = authenticated (λ claims. own_or_admin claims req.username (
      run quote (codes "error while deleting group member")
        (delete_group_member env m req claims.is_admin)))

  -- auth.go: the last steps of `Login`, by whether the user is an administrator.
  login_token : Entry → Result Bool → Reply Token
  unfolding sign
  login_token user (err e) = status internal (codes "error while checking user member status")
  login_token user (ok is_admin) = sign (record {
    uid = get_attribute_value user m.account_attribute;
    uid_number = get_attribute_value user (codes "uidNumber");
    is_admin = is_admin;
    display_name = get_attribute_value user (codes "displayName");
  })

  login_user : Result Entry → Serve State Token
  unfolding login_token
  login_user (err (app e)) s = (status (code e) (error_text quote e), s)
  login_user (err _) s = (status unauthenticated (codes "unauthorized"), s)
  login_user (ok user) s =
      let uid = get_attribute_value user m.account_attribute in
      if is_empty uid || is_empty (get_attribute_value user (codes "uidNumber"))
      then (status not_found (codes "user is invalid"), s)
      else let (r, s') =
          is_group_member env m (record { group = m.default_admin_group; username = uid }) s in
        (login_token user r, s')

  unfoldable pub serve_login : LoginRequest → Serve State Token
  unfolding login_user
  serve_login req s = let (r, s') = authenticate_user env m req s in login_user r s'
