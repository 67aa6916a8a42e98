-- ===== src/Server/Access.antt =====
-- Who can call what: the policy of the service as one table, and what a refused call does.
use ldap_manager.Base.{
  ◌≡◌, refl, Bool, true, false, not, ◌||◌, Option, none, some, List, [], ◌∷◌, arith, Bytes,
  bytes_eq, if◌then◌else◌,
}
use ldap_manager.Directory.{Env}
use ldap_manager.Manager.{Manager}
use ldap_manager.Server.{
  AuthClaims, Validation, invalid_token, read_token, Authenticator, Reply, replied, status, failure,
  authenticate, with_claims, own_or_admin,
}
use ldap_manager.Server.Handlers
use ldap_manager.Server.Rpc.{
  Rpc, Response, login, get_account, update_account, delete_account, change_password,
  get_group_list, get_user_groups, require_admin, context_of, map_reply, respond, call,
}

-- Who a method is for.
pub data Audience : Type 0 where
  anyone users admins : Audience
  owner : Bytes → Audience

abbrev pub audience : Rpc → Audience
audience (login req) = anyone
audience (get_group_list req) = users
audience (get_account username) = owner username
audience (update_account req) = owner req.username
audience (delete_account username) = owner username
audience (change_password req) = owner req.username
audience (get_user_groups username) = owner username
audience _ = admins

abbrev valid_claims : Validation → Option AuthClaims
valid_claims invalid_token = none
valid_claims (read_token valid none) = none
valid_claims (read_token valid (some claims)) = if valid then some claims else none

-- The claims of the first token, if it is valid.
abbrev pub claims_of : Authenticator → Option (List Bytes) → Option AuthClaims
claims_of a none = none
claims_of a (some []) = none
claims_of a (some (t ∷ ts)) = valid_claims (a.validate t)

abbrev pub permits : Audience → Option AuthClaims → Bool
permits anyone claims = true
permits _ none = false
permits users (some claims) = true
permits admins (some claims) = claims.is_admin
permits (owner username) (some claims) = claims.is_admin || bytes_eq claims.uid username

abbrev pub is_refusal : {A : Type 0} → Reply A → Bool
is_refusal (replied a) = false
is_refusal (status c message) = true
is_refusal (failure message) = true

-- What `authenticate` returns for a route with a policy.
pub authenticate-claims :
    (a : Authenticator) (tokens : Option (List Bytes)) (rpc : Rpc) (claims : AuthClaims)
    → authenticate (context_of a tokens rpc) ≡ replied claims
    → (claims_of a tokens ≡ some claims) × ((not (require_admin rpc) || claims.is_admin) ≡ true)
unfolding authenticate
authenticate-claims a none rpc claims h = absurd (cc)
authenticate-claims a (some []) rpc claims h = absurd (cc)
authenticate-claims a (some (t ∷ ts)) rpc claims h = ground arith

-- A refused call has an error for a reply and leaves the server as it was.
pub record Refuses {S A : Type 0} (serve : S → Reply A × S) : Type 0 where
  pub refused : (s : S) → is_refusal (serve s).0 ≡ true
  pub same : (s : S) → (serve s).1 ≡ s

module _ {S A : Type 0} where
  with_claims-Refuses :
      (r : Reply AuthClaims) (next : AuthClaims → S → Reply A × S)
      → ((claims : AuthClaims) → r ≡ replied claims → Refuses (next claims))
      → Refuses (with_claims r next)
  unfolding with_claims
  with_claims-Refuses (replied claims) next h = h claims refl
  with_claims-Refuses (status c message) next h = record { refused = λ s. refl; same = λ s. refl }
  with_claims-Refuses (failure message) next h = record { refused = λ s. refl; same = λ s. refl }

  own_or_admin-Refuses :
      (claims : AuthClaims) (username : Bytes) (next : S → Reply A × S)
      → (claims.is_admin || bytes_eq claims.uid username) ≡ false
      → Refuses (own_or_admin claims username next)
  unfolding own_or_admin
  own_or_admin-Refuses claims username next h = record {
    refused = λ s. ground arith;
    same = λ s. ground arith;
  }

is_refusal-map_reply :
    {A : Type 0} (f : A → Response) (r : Reply A)
    → is_refusal r ≡ true
    → is_refusal (map_reply f r) ≡ true
is_refusal-map_reply f (replied a) h = absurd (cc)
is_refusal-map_reply f (status c message) h = refl
is_refusal-map_reply f (failure message) h = refl

respond-Refuses :
    {S A : Type 0} (f : A → Response) (serve : S → Reply A × S)
    → Refuses serve
    → Refuses (respond f serve)
unfolding respond
respond-Refuses f serve r = record {
  refused = λ s. is_refusal-map_reply f (serve s).0 (r.refused s);
  same = r.same;
}

module _ {S A : Type 0} (a : Authenticator) (tokens : Option (List Bytes)) (rpc : Rpc) where
  -- A handler for administrators, for users, and for the owner of an account.
  admins-Refuses :
      (next : AuthClaims → S → Reply A × S)
      → require_admin rpc ≡ true
      → permits admins (claims_of a tokens) ≡ false
      → Refuses (with_claims (authenticate (context_of a tokens rpc)) next)
  admins-Refuses next r h =
      with_claims-Refuses _ next
        λ claims e. absurd (let k = authenticate-claims a tokens rpc claims e in ground arith)

  users-Refuses :
      (next : AuthClaims → S → Reply A × S)
      → permits users (claims_of a tokens) ≡ false
      → Refuses (with_claims (authenticate (context_of a tokens rpc)) next)
  users-Refuses next h =
      with_claims-Refuses _ next
        λ claims e. absurd (let k = authenticate-claims a tokens rpc claims e in ground arith)

  owner-Refuses :
      (username : Bytes) (next : AuthClaims → S → Reply A × S)
      → permits (owner username) (claims_of a tokens) ≡ false
      → Refuses (
          with_claims
            (authenticate (context_of a tokens rpc))
            (λ claims. own_or_admin claims username (next claims)))
  owner-Refuses username next h = with_claims-Refuses _ _ λ claims e.
      own_or_admin-Refuses claims username (next claims)
        (let k = authenticate-claims a tokens rpc claims e in ground arith)

module _ (env : Env) (m : Manager) (a : Authenticator) (tokens : Option (List Bytes)) where
  -- A call that is not permitted to its caller, by the table of audiences, has an error for a
  -- reply, and no request of it reaches the directory server: its state is the same, whatever the
  -- server is.
  pub call-Refuses :
      (rpc : Rpc)
      → permits (audience rpc) (claims_of a tokens) ≡ false
      → Refuses (call env m a tokens rpc)
  unfolding call require_admin Handlers.serve_get_user_list Handlers.serve_get_account
      Handlers.serve_new_account Handlers.serve_update_account Handlers.serve_delete_account
      Handlers.serve_change_password Handlers.serve_new_group Handlers.serve_delete_group
      Handlers.serve_update_group Handlers.serve_get_group_list Handlers.serve_is_group_member
      Handlers.serve_get_group Handlers.serve_get_user_groups Handlers.serve_add_group_member
      Handlers.serve_delete_group_member
  call-Refuses (login req) h = absurd (cc)
  call-Refuses (get_account u) h =
      respond-Refuses _ _ (owner-Refuses a tokens (get_account u) u _ h)
  call-Refuses (update_account req) h =
      respond-Refuses _ _ (owner-Refuses a tokens (update_account req) req.username _ h)
  call-Refuses (delete_account u) h =
      respond-Refuses _ _ (owner-Refuses a tokens (delete_account u) u _ h)
  call-Refuses (change_password req) h =
      respond-Refuses _ _ (owner-Refuses a tokens (change_password req) req.username _ h)
  call-Refuses (get_user_groups u) h =
      respond-Refuses _ _ (owner-Refuses a tokens (get_user_groups u) u _ h)
  call-Refuses (get_group_list req) h =
      respond-Refuses _ _ (users-Refuses a tokens (get_group_list req) _ h)
  call-Refuses rpc h = respond-Refuses _ _ (admins-Refuses a tokens rpc _ refl h)
