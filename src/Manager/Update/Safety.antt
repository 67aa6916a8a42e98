-- ===== src/Manager/Update/Safety.antt =====
-- What `UpdateAccount` may send for a user who is no administrator.
use ldap_manager.Base.{
  ◌≡◌, inl, inr, refl, Bool, true, false, List, [], ◌++◌, Bytes, codes, is_empty, bytes_eq,
  if◌then◌else◌, All, All-append, Bool-cases,
}
use ldap_manager.Directory.{Env, Request, search_entries, modify, modify_dn, Change}
use ldap_manager.Exec.Keeps.{Keeps}
use ldap_manager.Exec.Traffic.{recording, IsRecorded, recording-Preserves}
use ldap_manager.Hash.{HashingAlgorithm}
use ldap_manager.Manager.{Manager, account_named}
use ldap_manager.Manager.Requests.Accounts.{IsPassword, account_changes, update_account-Keeps}
use ldap_manager.Manager.Update.{
  UpdateAccountRequest, replaced, replaced_if, name_changes, contact_changes, number_changes,
  update_account,
}
use ldap_manager.Manager.Validation.{Account}
use ldap_manager.Text.Escape.{escape_dn}

-- An attribute that holds no number of an account.
abbrev pub IsNoNumber : Bytes → Type 0
IsNoNumber attribute =
    (bytes_eq attribute (codes "uidNumber") ≡ false)
    × (bytes_eq attribute (codes "gidNumber") ≡ false)

abbrev IsHarmless : Change → Type 0
IsHarmless c = IsNoNumber c.attribute

-- A search, a modification that leaves the numbers alone, or the one renaming that was asked for.
abbrev pub KeepsNumbers : Manager → UpdateAccountRequest → Request → Type 0
KeepsNumbers m req (search_entries r) = Unit
KeepsNumbers m req (modify dn changes) = All IsHarmless changes
KeepsNumbers m req (modify_dn r) =
    (r.dn
      ≡ m.account_attribute
        ++ (codes "=" ++ (escape_dn (escape_dn req.username) ++ (codes "," ++ m.user_group_dn))))
    × (r.new_rdn ≡ m.account_attribute ++ (codes "=" ++ req.update.username))
    × (r.delete_old_rdn ≡ true)
    × (r.new_superior ≡ [])
KeepsNumbers m req _ = ⊥

replaced_if-IsHarmless :
    (attribute value : Bytes) → IsNoNumber attribute → All IsHarmless (replaced_if attribute value)
replaced_if-IsHarmless attribute value h = elim (Bool-cases (is_empty value)) [
  | inl e ↦ rw e tt
  | inr e ↦ rw e (h, tt)
]

contact_changes-IsHarmless : (update : Account) → All IsHarmless (contact_changes update)
unfolding contact_changes bytes_eq
contact_changes-IsHarmless update =
    All-append IsHarmless _ _
      (replaced_if-IsHarmless (codes "loginShell") update.login_shell (refl, refl))
      (All-append IsHarmless _ _
        (replaced_if-IsHarmless (codes "homeDirectory") update.home_directory (refl, refl))
        (replaced_if-IsHarmless (codes "mail") update.email (refl, refl)))

both_names-IsHarmless :
    (b : Bool) (full_name : Bytes)
    → All IsHarmless (
        if b
        then replaced (codes "displayName") full_name ++ replaced (codes "cn") full_name
        else [])
unfolding bytes_eq
both_names-IsHarmless true full_name = ((refl, refl), ((refl, refl), tt))
both_names-IsHarmless false full_name = tt

name_changes-IsHarmless :
    (given_name sn : Bytes) (update : Account) → All IsHarmless (name_changes given_name sn update)
unfolding name_changes bytes_eq
name_changes-IsHarmless given_name sn update =
    All-append IsHarmless _ _
      (replaced_if-IsHarmless (codes "givenName") update.first_name (refl, refl))
      (All-append IsHarmless _ _ (replaced_if-IsHarmless (codes "sn") update.last_name (refl, refl))
        (both_names-IsHarmless _ _))

password-IsHarmless : (password : List Change) → IsPassword password → All IsHarmless password
unfolding bytes_eq
password-IsHarmless password (inl e) = rw e tt
password-IsHarmless password (inr (hashed, e)) = rw e ((refl, refl), tt)

account_changes-IsHarmless :
    (given_name sn : Bytes) (password : List Change) (update : Account)
    → IsPassword password
    → All IsHarmless (account_changes given_name sn password update false)
unfolding number_changes
account_changes-IsHarmless given_name sn password update p =
    All-append IsHarmless _ _ (name_changes-IsHarmless given_name sn update) (
      All-append IsHarmless _ _ (contact_changes-IsHarmless update)
        (All-append IsHarmless password [] (password-IsHarmless password p) tt))

module _ (env : Env) (m : Manager) where
  pub update_account-Keeps_numbers :
      (req : UpdateAccountRequest) (algorithm : HashingAlgorithm) (is_admin : Bool)
      → is_admin ≡ false
      → IsNoNumber m.group_membership_attribute
      → Keeps
          (IsRecorded env (KeepsNumbers m req))
          (update_account (recording env) m req algorithm is_admin)
  unfolding account_named
  update_account-Keeps_numbers req algorithm is_admin plain h =
      update_account-Keeps (recording env) m (recording-Preserves env (KeepsNumbers m req))
        (λ r. tt) (λ member. (h, tt)) (λ member. (h, tt)) req algorithm is_admin
        (refl, refl, refl, refl)
        (λ dn given_name sn password p.
          rw plain (account_changes-IsHarmless given_name sn password req.update p))
