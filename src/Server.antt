-- ===== src/Server.antt =====
-- cmd/ldap-manager/grpc: authentication (auth.go), the status of an error (server.go), and what the
-- handlers share.
pub mod Handlers
pub mod Rpc
pub mod Access
pub mod Traffic
pub mod Service
pub mod Rest
use ldap_manager.Base.{
  ℕ, Bool, true, false, not, ◌&&◌, Option, none, some, List, [], ◌∷◌, Bytes, codes, bytes_eq,
  if◌then◌else◌,
}
use ldap_manager.Base.Int.{ℤ}
use ldap_manager.Directory.{Env}
use ldap_manager.Error.{
  Error, AppError, app, Code, internal, permission_denied, unauthenticated, code, error_text,
}
use ldap_manager.Exec.{Result, ok, err, Exec}

-- `AuthClaims`
pub record AuthClaims : Type 0 where
  pub uid : Bytes
  pub uid_number : Bytes
  pub is_admin : Bool
  pub display_name : Bytes

-- `pb.Token`
pub record Token : Type 0 where
  pub token : Bytes
  pub username : Bytes
  pub is_admin : Bool
  pub display_name : Bytes
  pub expiration : ℤ

-- What `Authenticator.Validate` returns: an error, or whether the token is valid, with its claims
-- if they are of the expected type.
pub data Validation : Type 0 where
  invalid_token : Validation
  read_token : (valid : Bool) → Option AuthClaims → Validation

-- The authenticator of go-grpc-service, at the time of a call.
pub record Authenticator : Type 0 where
  pub validate : Bytes → Validation
  -- The token with its lifetime; `none` is an error of signing.
  pub login : AuthClaims → Option (Bytes × ℤ)

-- What a call brings along: the policy of its route, if its descriptor has one, and the values of
-- `x-user-token`, if there is metadata.
pub record Context : Type 0 where
  pub require_admin : Option Bool
  pub tokens : Option (List Bytes)
  pub authenticator : Authenticator

-- What a handler returns: a value, a status, or another error.
pub data Reply (A : Type 0) : Type 0 where
  replied : A → Reply A
  status : Code → (message : Bytes) → Reply A
  failure : (message : Bytes) → Reply A

abbrev pub Serve : Type 0 → Type 0 → Type 0
Serve S A = S → Reply A × S

-- The tests of `authenticate` on the claims of a token.
unfoldable pub admitted : Bool → Validation → Reply AuthClaims
admitted require_admin invalid_token = status unauthenticated (codes "token validation failed")
admitted require_admin (read_token valid none) = status unauthenticated (codes "invalid token")
admitted require_admin (read_token valid (some claims)) =
    if valid
    then (if require_admin && not claims.is_admin
        then status permission_denied (codes "requires admin priviledges")
        else replied claims)
    else status unauthenticated (codes "invalid token")

unfoldable pub first_token : Context → Bool → Option (List Bytes) → Reply AuthClaims
unfolding admitted
first_token ctx require_admin none =
    status internal (codes "failed to extract authentication metadata")
first_token ctx require_admin (some []) =
    status unauthenticated (codes "missing authentication token")
first_token ctx require_admin (some (token ∷ tokens)) =
    admitted require_admin (ctx.authenticator.validate token)

-- `routeRequiresAdmin` and `authenticate`
unfoldable pub with_policy : Context → Option Bool → Reply AuthClaims
unfolding first_token
with_policy ctx none = failure (codes "route has no or insufficient authentication policy")
with_policy ctx (some require_admin) = first_token ctx require_admin ctx.tokens

unfoldable pub authenticate : Context → Reply AuthClaims
unfolding with_policy
authenticate ctx = with_policy ctx ctx.require_admin

-- `toStatus` for an error with a code of its own, else the fixed text.
abbrev pub to_reply : {A : Type 0} → (Bytes → Bytes) → Bytes → Result A → Reply A
to_reply quote text (ok a) = replied a
to_reply quote text (err (app e)) = status (code e) (error_text quote e)
to_reply quote text (err _) = status internal text

-- A new token for the claims, as `Login` and `UpdateAccount` return it.
abbrev pub token_for : AuthClaims → Option (Bytes × ℤ) → Reply Token
token_for claims none = status internal (codes "error while signing token")
token_for claims (some (token, expiration)) = replied (record {
  token = token;
  username = claims.uid;
  is_admin = claims.is_admin;
  display_name = claims.display_name;
  expiration = expiration;
})

module _ {S A : Type 0} where
  -- `claims, err := s.authenticate(ctx); if err != nil { return err }`
  unfoldable pub with_claims : Reply AuthClaims → (AuthClaims → Serve S A) → Serve S A
  with_claims (replied claims) next s = next claims s
  with_claims (status c message) next s = (status c message, s)
  with_claims (failure message) next s = (failure message, s)

  -- `if !claims.IsAdmin && claims.UID != username { return … }`
  unfoldable pub own_or_admin : AuthClaims → Bytes → Serve S A → Serve S A
  own_or_admin claims username next =
      if not claims.is_admin && not (bytes_eq claims.uid username)
      then (λ s. (status permission_denied (codes "requires admin privileges"), s))
      else next

  -- A call of the manager, and its error as a status.
  unfoldable pub run : (Bytes → Bytes) → Bytes → Exec S A → Serve S A
  run quote text m s = let (r, s') = m s in (to_reply quote text r, s')
