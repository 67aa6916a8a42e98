-- ===== src/Manager/Password.antt =====
-- change_password.go
use ldap_manager.Base.{◌||◌, [], ◌∷◌, Bytes, codes, is_empty, if◌then◌else◌, length}
use ldap_manager.Directory.{Env, replace, modify}
use ldap_manager.Error.{app, new, wrapf, zero_or_multiple_accounts}
use ldap_manager.Exec.{Exec, raise, lift, attempt, rescue, send, discard, ◌>>=◌}
use ldap_manager.Hash.{HashingAlgorithm}
use ldap_manager.Manager.{Manager}
use ldap_manager.Manager.Accounts.{user_search}
use ldap_manager.Manager.Creation.{hashed_or_error, is_default}
use ldap_manager.Manager.Lookup.{only_entry}

-- `pb.ChangePasswordRequest`
pub record ChangePasswordRequest : Type 0 where
  pub username : Bytes
  pub password : Bytes
  pub hashing_algorithm : HashingAlgorithm

module _ (env : Env) (m : Manager) where
  open env use {State, escape_filter}

  -- `ChangePassword`
  unfoldable pub change_password : ChangePasswordRequest → Exec State (Unit {0})
  change_password req =
      if is_empty req.username || is_empty req.password
      then raise (new (codes "username and password must not be empty"))
      else do
        answer ← attempt (
            send env
              (user_search env m m.config.base_dn (escape_filter req.username) (codes "dn" ∷ [])))
        found ← rescue answer (λ e. raise (wrapf (codes "failed to find existing user: %v") [] e))
        user ← lift (only_entry (app (zero_or_multiple_accounts req.username (length found))) found)
        hashed_password ← hashed_or_error env m req.password (
            if is_default req.hashing_algorithm then m.hashing_algorithm else req.hashing_algorithm)
        done ← attempt (
            send env (
              modify user.dn (
                record {
                  operation = replace;
                  attribute = codes "userPassword";
                  values = hashed_password ∷ [];
                }
                ∷ [])))
        discard (rescue done (λ e. raise (wrapf (codes "failed to modify existing user: %v") [] e)))
