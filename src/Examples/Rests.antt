-- ===== src/Examples/Rests.antt =====
-- Requests on the REST interface.
use ldap_manager.Base.{◌≡◌, refl, some, [], ◌∷◌, codes, bytes_eq}
use ldap_manager.Server.Access.{Refuses}
use ldap_manager.Server.Rest.{Route, Codec, RestRequest, decoded, undecoded, method, template}
use ldap_manager.Server.Rest.Access.{serve_rest-Refuses}
use ldap_manager.Server.Rest.Requests.{serve_rest}
use ldap_manager.Server.Rest.Routes.{match_path, template_unambiguous}
use ldap_manager.Examples.Servers.{moves_up}
use ldap_manager.Examples.World.{example_manager, example_env, example_authenticator}

-- Any body is an update of the account `ann`.
abbrev codec : Codec
codec = record {
  login = λ body. undecoded [];
  user_list = λ query. undecoded [];
  new_account = λ body. undecoded [];
  update_account = λ body. decoded moves_up;
  change_password = λ body. undecoded [];
  new_group = λ body. undecoded [];
  update_group = λ body. undecoded [];
  group_list = λ query. undecoded [];
  group = λ name query. undecoded [];
  member = λ body. undecoded [];
}

-- Ann asks for her account in the body, and for that of Bob in the path.
abbrev request : RestRequest
request = record { content = codes "{}"; tokens = some (codes "ann" ∷ []) }

serve_rest-Refuses_example : Refuses (
    serve_rest example_env example_manager example_authenticator codec Route.update_account
      ((codes "username", codes "bob") ∷ [])
      request)
unfolding bytes_eq
serve_rest-Refuses_example =
    serve_rest-Refuses example_env example_manager example_authenticator codec Route.update_account
      ((codes "username", codes "bob") ∷ []) request refl

template_unambiguous_example : Route.get_account ≡ Route.get_account
unfolding match_path template method bytes_eq
template_unambiguous_example =
    template_unambiguous Route.get_account Route.get_account
      (codes "v1" ∷ codes "account" ∷ codes "ann" ∷ []) ((codes "username", codes "ann") ∷ [])
      ((codes "username", codes "ann") ∷ []) refl refl refl
