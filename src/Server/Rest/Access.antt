-- ===== src/Server/Rest/Access.antt =====
-- Who can reach what over HTTP.
use ldap_manager.Base.{
  ◌≡◌, refl, sym, subst, false, Option, none, some, List, [], arith, Bytes, codes,
}
use ldap_manager.Directory.{Env}
use ldap_manager.Manager.{Manager}
use ldap_manager.Manager.Password.{ChangePasswordRequest}
use ldap_manager.Server.{Authenticator}
use ldap_manager.Server.Access.{
  Audience, anyone, users, admins, owner, audience, claims_of, permits, Refuses, call-Refuses,
}
use ldap_manager.Server.Rpc.{Rpc}
use ldap_manager.Server.Rest.{
  Route, Params, lookup, Decoded, decoded, undecoded, Codec, RestRequest, Requested, calls,
  rejected,
}
use ldap_manager.Server.Rest.Requests.{requested, forwarded, serve_rest}

-- The account in the path.
abbrev pub path_user : Params → Bytes
path_user params = elim (lookup params (codes "username")) [ none ↦ [] | some u ↦ u ]

abbrev pub body_user : Decoded ChangePasswordRequest → Bytes
body_user (decoded req) = req.username
body_user (undecoded message) = []

-- Who a route is for. The account is that of the path, but for a change of the password.
abbrev pub route_audience : Codec → Params → Bytes → Route → Audience
route_audience codec params content Route.login = anyone
route_audience codec params content Route.get_group_list = users
route_audience codec params content Route.get_account = owner (path_user params)
route_audience codec params content Route.update_account = owner (path_user params)
route_audience codec params content Route.delete_account = owner (path_user params)
route_audience codec params content Route.get_user_groups = owner (path_user params)
route_audience codec params content Route.change_password =
    owner (body_user (codec.change_password content))
route_audience codec params content _ = admins

requested-audience :
    (codec : Codec) (params : Params) (content : Bytes) (route : Route) (rpc : Rpc)
    → requested codec params content route ≡ calls rpc
    → audience rpc ≡ route_audience codec params content route
unfolding requested
requested-audience codec params content Route.login rpc h = ground arith
requested-audience codec params content route rpc h = ground arith

module _ (env : Env) (m : Manager) (a : Authenticator) where
  forwarded-Refuses :
      (tokens : Option (List Bytes)) (r : Requested)
      → ((rpc : Rpc) → r ≡ calls rpc → permits (audience rpc) (claims_of a tokens) ≡ false)
      → Refuses (forwarded env m a tokens r)
  forwarded-Refuses tokens (calls rpc) h = call-Refuses env m a tokens rpc (h rpc refl)
  forwarded-Refuses tokens (rejected message) h = record { refused = λ s. refl; same = λ s. refl }

  -- Let a request come in on a route, with any parameters of its path, body and tokens. If the route
  -- is not permitted to the caller, who must be the account in the path or an administrator for a
  -- route of one account, whatever the body says, then the answer is an error and the directory
  -- server is not asked anything: its state is the same. A change of the password is for the account
  -- in the body, the login for anyone, the list of groups for any user, all else for administrators.
  pub serve_rest-Refuses :
      (codec : Codec) (route : Route) (params : Params) (req : RestRequest)
      → permits (route_audience codec params req.content route) (claims_of a req.tokens) ≡ false
      → Refuses (serve_rest env m a codec route params req)
  unfolding serve_rest
  serve_rest-Refuses codec route params req h =
      forwarded-Refuses req.tokens (requested codec params req.content route) λ rpc e.
        subst (λ w. permits w (claims_of a req.tokens) ≡ false)
          (sym (requested-audience codec params req.content route rpc e)) h
