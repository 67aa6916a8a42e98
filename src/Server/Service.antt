-- ===== src/Server/Service.antt =====
-- What a permitted call does: which operation of the manager it is, with which arguments.
use ldap_manager.Base.{
  ◌≡◌, refl, ap, subst, ◌∙◌, true, false, not, ◌||◌, Option, none, some, List, [], ◌∷◌, arith,
  Bytes, bytes_eq,
}
use ldap_manager.Directory.{Env}
use ldap_manager.Exec.{Exec}
use ldap_manager.Hash.{default}
use ldap_manager.Manager.{Manager}
use ldap_manager.Manager.Accounts
use ldap_manager.Manager.Creation
use ldap_manager.Manager.Groups
use ldap_manager.Manager.Members
use ldap_manager.Manager.Password
use ldap_manager.Manager.Update
use ldap_manager.Server.{
  AuthClaims, Authenticator, Reply, replied, authenticate, with_claims, own_or_admin, run, to_reply,
}
use ldap_manager.Server.Access.{audience, claims_of, permits}
use ldap_manager.Server.Handlers
use ldap_manager.Server.Rpc.{
  Rpc, Response, login, get_user_list, get_account, new_account, update_account, delete_account,
  change_password, new_group, delete_group, update_group, get_group_list, get_user_groups,
  is_group_member, get_group, add_group_member, delete_group_member, require_admin, context_of,
  map_reply, respond, call, user_list, user, empty, group_list, member_status, group,
}

-- A call is an operation: it leaves the server as the operation does, and replies with its value,
-- or with the status of its error.
pub record Serves {S A : Type 0} (quote : Bytes → Bytes) (op : Exec S A) (f : A → Response)
    (serve : S → Reply Response × S) : Type 0 where
  pub text : Bytes
  pub same : (s : S) → serve s ≡ (map_reply f (to_reply quote text (op s).0), (op s).1)

module _ (env : Env) (m : Manager) (claims : AuthClaims) where
  open env use {State, quote}

  -- The operation of each method, for the claims of its caller. A login has no operation here; of
  -- an update, only what it leaves on the server.
  abbrev pub IsServed : Rpc → (State → Reply Response × State) → Type 0
  IsServed (login req) serve = Unit
  IsServed (get_user_list req) serve =
      Serves quote (Accounts.get_user_list env m req) user_list serve
  IsServed (get_account u) serve = Serves quote (Accounts.get_account env m u) user serve
  IsServed (new_account account) serve =
      Serves quote (Creation.new_account env m account default) empty serve
  IsServed (update_account req) serve =
      (s : State) → (serve s).1 ≡ (Update.update_account env m req default claims.is_admin s).1
  IsServed (delete_account u) serve =
      Serves quote (Accounts.delete_account env m u false) empty serve
  IsServed (change_password req) serve =
      Serves quote (Password.change_password env m req) empty serve
  IsServed (new_group req) serve = Serves quote (Groups.new_group env m req false) empty serve
  IsServed (delete_group name) serve = Serves quote (Groups.delete_group env m name) empty serve
  IsServed (update_group req) serve = Serves quote (Groups.update_group env m req) empty serve
  IsServed (get_group_list req) serve =
      Serves quote (Groups.get_group_list env m req) group_list serve
  IsServed (get_user_groups u) serve =
      Serves quote (Members.get_user_groups env m u) group_list serve
  IsServed (is_group_member req) serve =
      Serves quote (Members.is_group_member env m req) member_status serve
  IsServed (get_group req) serve = Serves quote (Members.get_group_page env m req) group serve
  IsServed (add_group_member req) serve =
      Serves quote (Members.add_group_member env m req false) empty serve
  IsServed (delete_group_member req) serve =
      Serves quote (Members.delete_group_member env m req true) empty serve

claims-authenticate :
    (a : Authenticator) (tokens : Option (List Bytes)) (rpc : Rpc) (claims : AuthClaims)
    → claims_of a tokens ≡ some claims
    → (not (require_admin rpc) || claims.is_admin) ≡ true
    → authenticate (context_of a tokens rpc) ≡ replied claims
unfolding authenticate
claims-authenticate a none rpc claims h k = absurd (cc)
claims-authenticate a (some []) rpc claims h k = absurd (cc)
claims-authenticate a (some (t ∷ ts)) rpc claims h k = ground arith

own_or_admin-eq :
    {S A : Type 0} (claims : AuthClaims) (username : Bytes) (next : S → Reply A × S)
    → (claims.is_admin || bytes_eq claims.uid username) ≡ true
    → own_or_admin claims username next ≡ next
unfolding own_or_admin
own_or_admin-eq claims username next h = ground arith

with_claims-eq :
    {S A : Type 0} (r : Reply AuthClaims) (claims : AuthClaims)
    (next : AuthClaims → S → Reply A × S)
    → r ≡ replied claims
    → with_claims r next ≡ next claims
unfolding with_claims
with_claims-eq r claims next h = rw h

respond-Serves :
    {S A : Type 0} (quote : Bytes → Bytes) (text : Bytes) (op : Exec S A) (f : A → Response)
    (serve : S → Reply A × S)
    → serve ≡ run quote text op
    → Serves quote op f (respond f serve)
unfolding respond run
respond-Serves quote text op f serve h = record {
  text = text;
  same = λ s. ap (λ g. respond f g s) h;
}

module _ {S A : Type 0} (a : Authenticator) (tokens : Option (List Bytes)) (rpc : Rpc)
    (claims : AuthClaims) (known : claims_of a tokens ≡ some claims) where
  -- A method for all users or for administrators, and one for the owner of an account.
  claims-Serves :
      (quote : Bytes → Bytes) (text : Bytes) (op : AuthClaims → Exec S A) (f : A → Response)
      → (not (require_admin rpc) || claims.is_admin) ≡ true
      → Serves quote (op claims) f (
          respond f
            (with_claims (authenticate (context_of a tokens rpc)) (λ c. run quote text (op c))))
  claims-Serves quote text op f h =
      respond-Serves quote text (op claims) f _
        (with_claims-eq _ claims _ (claims-authenticate a tokens rpc claims known h))

  owner-Serves :
      (quote : Bytes → Bytes) (text username : Bytes) (op : AuthClaims → Exec S A)
      (f : A → Response)
      → (not (require_admin rpc) || claims.is_admin) ≡ true
      → (claims.is_admin || bytes_eq claims.uid username) ≡ true
      → Serves quote (op claims) f (
          respond f (
            with_claims
              (authenticate (context_of a tokens rpc))
              (λ c. own_or_admin c username (run quote text (op c)))))
  owner-Serves quote text username op f h own = respond-Serves quote text (op claims) f _ (
      with_claims-eq _ claims _ (claims-authenticate a tokens rpc claims known h)
      ∙ own_or_admin-eq claims username _ own)

module _ (env : Env) (m : Manager) (a : Authenticator) (tokens : Option (List Bytes)) where
  update_account-IsServed :
      (req : Update.UpdateAccountRequest) (claims : AuthClaims)
      → claims_of a tokens ≡ some claims
      → (claims.is_admin || bytes_eq claims.uid req.username) ≡ true
      → IsServed env m claims (update_account req) (call env m a tokens (update_account req))
  unfolding call require_admin Handlers.serve_update_account run respond
  update_account-IsServed req claims known own s =
      rw
        (
          with_claims-eq _ claims _
              (claims-authenticate a tokens (update_account req) claims known refl),
          own_or_admin-eq claims req.username _ own,
        )
        refl

  -- A call that is permitted to its caller, by the table of audiences, is the operation of its
  -- method on the manager, with the arguments that the table of operations lists: it leaves the
  -- server as the operation does and replies with its value or the status of its error. Of
  -- `UpdateAccount` only what it leaves on the server is stated, and of `Login` nothing.
  pub call-IsServed :
      (rpc : Rpc) (claims : AuthClaims)
      → claims_of a tokens ≡ some claims
      → permits (audience rpc) (some claims) ≡ true
      → IsServed env m claims rpc (call env m a tokens rpc)
  unfolding call require_admin Handlers.serve_get_user_list Handlers.serve_get_account
      Handlers.serve_new_account Handlers.serve_delete_account Handlers.serve_change_password
      Handlers.serve_new_group Handlers.serve_delete_group Handlers.serve_update_group
      Handlers.serve_get_group_list Handlers.serve_is_group_member Handlers.serve_get_group
      Handlers.serve_get_user_groups Handlers.serve_add_group_member
      Handlers.serve_delete_group_member
  call-IsServed (login req) c k h = tt
  call-IsServed (update_account req) c k h = update_account-IsServed req c k h
  call-IsServed (get_account u) c k h =
      owner-Serves a tokens (get_account u) c k _ _ u (λ d. Accounts.get_account env m u) _ refl h
  call-IsServed (delete_account u) c k h =
      owner-Serves a tokens (delete_account u) c k _ _ u
        (λ d. Accounts.delete_account env m u false) _ refl h
  call-IsServed (change_password req) c k h =
      owner-Serves a tokens (change_password req) c k _ _ req.username
        (λ d. Password.change_password env m req) _ refl h
  call-IsServed (get_user_groups u) c k h =
      owner-Serves a tokens (get_user_groups u) c k _ _ u (λ d. Members.get_user_groups env m u) _
        refl h
  call-IsServed (get_group_list req) c k h =
      claims-Serves a tokens (get_group_list req) c k _ _ (λ d. Groups.get_group_list env m req) _
        refl
  call-IsServed (get_user_list req) c k h =
      claims-Serves a tokens (get_user_list req) c k _ _ (λ d. Accounts.get_user_list env m req) _ h
  call-IsServed (new_account account) c k h =
      claims-Serves a tokens (new_account account) c k _ _
        (λ d. Creation.new_account env m account default) _ h
  call-IsServed (new_group req) c k h =
      claims-Serves a tokens (new_group req) c k _ _ (λ d. Groups.new_group env m req false) _ h
  call-IsServed (delete_group name) c k h =
      claims-Serves a tokens (delete_group name) c k _ _ (λ d. Groups.delete_group env m name) _ h
  call-IsServed (update_group req) c k h =
      claims-Serves a tokens (update_group req) c k _ _ (λ d. Groups.update_group env m req) _ h
  call-IsServed (get_group req) c k h =
      claims-Serves a tokens (get_group req) c k _ _ (λ d. Members.get_group_page env m req) _ h
  call-IsServed (add_group_member req) c k h =
      claims-Serves a tokens (add_group_member req) c k _ _
        (λ d. Members.add_group_member env m req false) _ h
  call-IsServed (is_group_member req) c k h =
      owner-Serves a tokens (is_group_member req) c k _ _ req.username
        (λ d. Members.is_group_member env m req) _ h (ground (arith, h))
  call-IsServed (delete_group_member req) c k h =
      subst
        (λ b.
          Serves env.quote (Members.delete_group_member env m req b) empty
            (call env m a tokens (delete_group_member req)))
        h
        (owner-Serves a tokens (delete_group_member req) c k _ _ req.username
          (λ d. Members.delete_group_member env m req d.is_admin) _ h (ground (arith, h)))
