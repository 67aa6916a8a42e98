-- ===== src/Server/Traffic.antt =====
-- What the calls of the service send to the directory server.
use ldap_manager.Base.{
  ◌≡◌, refl, Bool, true, false, not, ◌&&◌, Option, some, List, [], Bytes, bytes_eq, if◌then◌else◌,
  All,
}
use ldap_manager.Directory.{Env, Request, SearchRequest, search_entries}
use ldap_manager.Exec.{Exec}
use ldap_manager.Exec.Keeps.{Keeps, Preserves}
use ldap_manager.Exec.Traffic.{recording, sent_by, recording-Preserves}
use ldap_manager.Hash.{default}
use ldap_manager.Manager.{Manager}
use ldap_manager.Manager.Requests.Reading.{
  get_user_list-Keeps, get_account-Keeps, get_group_list-Keeps, get_user_groups-Keeps,
  is_group_member-Keeps, get_group_page-Keeps,
}
use ldap_manager.Manager.Update.{UpdateAccountRequest}
use ldap_manager.Manager.Update
use ldap_manager.Manager.Update.Safety.{IsNoNumber, KeepsNumbers, update_account-Keeps_numbers}
use ldap_manager.Server.{
  AuthClaims, Authenticator, Reply, replied, status, failure, authenticate, with_claims,
  own_or_admin, run,
}
use ldap_manager.Server.Access.{claims_of, authenticate-claims}
use ldap_manager.Server.Handlers
use ldap_manager.Server.Rpc.{
  Rpc, Response, get_user_list, get_account, update_account, get_group_list, get_user_groups,
  is_group_member, get_group, context_of, respond, call,
}

-- The methods that only read.
abbrev pub is_reading : Rpc → Bool
is_reading (get_user_list req) = true
is_reading (get_account username) = true
is_reading (get_group_list req) = true
is_reading (get_user_groups username) = true
is_reading (is_group_member req) = true
is_reading (get_group req) = true
is_reading _ = false

abbrev pub IsSearch : Request → Type 0
IsSearch (search_entries r) = Unit
IsSearch _ = ⊥

-- A handler keeps `P`.
record Holds {S A : Type 0} (P : S → Type 0) (serve : S → Reply A × S) : Type 0 where
  at : (s : S) → P s → P (serve s).1

module _ {S A : Type 0} {P : S → Type 0} where
  run-Holds :
      (quote : Bytes → Bytes) (text : Bytes) (m : Exec S A) → Keeps P m → Holds P (run quote text m)
  unfolding run
  run-Holds quote text m k = record { at = k.after }

  Holds-if :
      (b : Bool) (m n : S → Reply A × S) → Holds P m → Holds P n → Holds P (if b then m else n)
  Holds-if true m n hm hn = hm
  Holds-if false m n hm hn = hn

  own_or_admin-Holds :
      (claims : AuthClaims) (username : Bytes) (next : S → Reply A × S)
      → Holds P next
      → Holds P (own_or_admin claims username next)
  unfolding own_or_admin
  own_or_admin-Holds claims username next h =
      Holds-if (not claims.is_admin && not (bytes_eq claims.uid username)) _ next
        (record { at = λ s p. p }) h

  with_claims-Holds :
      (r : Reply AuthClaims) (next : AuthClaims → S → Reply A × S)
      → ((claims : AuthClaims) → r ≡ replied claims → Holds P (next claims))
      → Holds P (with_claims r next)
  unfolding with_claims
  with_claims-Holds (replied claims) next h = h claims refl
  with_claims-Holds (status c message) next h = record { at = λ s p. p }
  with_claims-Holds (failure message) next h = record { at = λ s p. p }

  respond-Holds :
      (f : A → Response) (serve : S → Reply A × S) → Holds P serve → Holds P (respond f serve)
  unfolding respond
  respond-Holds f serve h = record { at = h.at }

module _ (env : Env) (m : Manager) (a : Authenticator) (tokens : Option (List Bytes)) where
  all_users :
      {A : Type 0} {P : env.State → Type 0} (rpc : Rpc) (f : A → Response) (text : Bytes)
      (op : Exec env.State A)
      → Keeps P op
      → Holds P (
          respond f (
            with_claims (authenticate (context_of a tokens rpc)) (λ claims. run env.quote text op)))
  all_users rpc f text op k =
      respond-Holds f _ (with_claims-Holds _ _ λ claims e. run-Holds env.quote text op k)

  owners :
      {A : Type 0} {P : env.State → Type 0} (rpc : Rpc) (f : A → Response) (text username : Bytes)
      (op : Exec env.State A)
      → Keeps P op
      → Holds P (
          respond f (
            with_claims
              (authenticate (context_of a tokens rpc))
              (λ claims. own_or_admin claims username (run env.quote text op))))
  owners rpc f text username op k = respond-Holds f _ (
      with_claims-Holds _ _
        λ claims e. own_or_admin-Holds claims username _ (run-Holds env.quote text op k))

  reading-Holds :
      {P : env.State → Type 0} {Allowed : Request → Type 0}
      → Preserves env P Allowed
      → ((r : SearchRequest) → Allowed (search_entries r))
      → (rpc : Rpc) → is_reading rpc ≡ true
      → Holds P (call env m a tokens rpc)
  unfolding call Handlers.serve_get_user_list Handlers.serve_get_account
      Handlers.serve_get_group_list Handlers.serve_is_group_member Handlers.serve_get_group
      Handlers.serve_get_user_groups
  reading-Holds keep ok (get_user_list req) h =
      all_users (get_user_list req) _ _ _ (get_user_list-Keeps env m keep ok req)
  reading-Holds keep ok (get_account u) h =
      owners (get_account u) _ _ u _ (get_account-Keeps env m keep ok u)
  reading-Holds keep ok (get_group_list req) h =
      all_users (get_group_list req) _ _ _ (get_group_list-Keeps env m keep ok req)
  reading-Holds keep ok (get_user_groups u) h =
      owners (get_user_groups u) _ _ u _ (get_user_groups-Keeps env m keep ok u)
  reading-Holds keep ok (is_group_member req) h =
      owners (is_group_member req) _ _ req.username _ (is_group_member-Keeps env m keep ok req)
  reading-Holds keep ok (get_group req) h =
      all_users (get_group req) _ _ _ (get_group_page-Keeps env m keep ok req)
  reading-Holds keep ok rpc h = absurd (cc)

module _ (env : Env) (m : Manager) (a : Authenticator) (tokens : Option (List Bytes)) where
  -- Whoever calls and whatever the server answers, a call of `GetUserList`, `GetAccount`,
  -- `GetGroupList`, `GetUserGroups`, `IsGroupMember` or `GetGroup` sends nothing but searches.
  pub call-IsSearch :
      (rpc : Rpc) (s : env.State)
      → is_reading rpc ≡ true
      → All IsSearch (sent_by (call (recording env) m a tokens rpc) s)
  call-IsSearch rpc s h =
      let reads =
        reading-Holds (recording env) m a tokens (recording-Preserves env IsSearch) (λ r. tt) rpc
          h in
      reads.at ([], s) tt

  update_account-Holds :
      {P : env.State → Type 0}
      → (req : UpdateAccountRequest)
      → ((claims : AuthClaims)
          → claims_of a tokens ≡ some claims
          → Keeps P (Update.update_account env m req default claims.is_admin))
      → Holds P (call env m a tokens (update_account req))
  unfolding call Handlers.serve_update_account run
  update_account-Holds req k = respond-Holds _ _ (
      with_claims-Holds _ _ λ claims e.
        own_or_admin-Holds claims req.username _
          (record { at = λ s p. (k claims (authenticate-claims a tokens _ claims e).0).after s p }))

module _ (env : Env) (m : Manager) (a : Authenticator) (tokens : Option (List Bytes)) where
  -- If the first token of the call is valid for claims of a user who is no administrator, and the
  -- attribute of the members is not itself one of the two numbers, then whatever the server
  -- answers, a call of `UpdateAccount` creates and deletes no entry, and no modification that it
  -- sends has a change of `uidNumber` or `gidNumber`. The only renaming that it sends is of the
  -- entry that the name in the request stands for, escaped twice; the new RDN is the attribute of
  -- accounts with the new name as the caller wrote it.
  pub call-KeepsNumbers :
      (req : UpdateAccountRequest) (claims : AuthClaims) (s : env.State)
      → claims_of a tokens ≡ some claims
      → claims.is_admin ≡ false
      → IsNoNumber m.group_membership_attribute
      → All (KeepsNumbers m req) (sent_by (call (recording env) m a tokens (update_account req)) s)
  call-KeepsNumbers req claims s c u h =
      let keeps =
        update_account-Holds (recording env) m a tokens req
          (λ caller d. update_account-Keeps_numbers env m req default caller.is_admin (cc) h) in
      keeps.at ([], s) tt
