-- ===== src/Manager/Validation/Address.antt =====
-- `validEmail` of accounts.go and the language of its regular expression.
use ldap_manager.Base.{◌≡◌, ◌↔◌, ◌≤◌, true, arith, Bytes, length}
use ldap_manager.Manager.Validation.{valid_email, email_regex}
use ldap_manager.Text.Regex.{matches}
use ldap_manager.Text.Regex.Language.{Denotes, matches_sound}
use ldap_manager.Text.Regex.Language.Complete.{matches_complete}

-- `validEmail` accepts exactly the texts of 3 to 254 bytes that are in the language of its regular
-- expression.
pub valid_email_iff :
    (e : Bytes)
    → (valid_email e ≡ true) ↔ ((3 ≤ length e) × (length e ≤ 254) × Denotes email_regex e)
unfolding valid_email
valid_email_iff e = (accepted, refused)
  where
    accepted : valid_email e ≡ true → (3 ≤ length e) × (length e ≤ 254) × Denotes email_regex e
    accepted h =
        let bounds : (3 ≤ length e) × (length e ≤ 254) × (matches email_regex e ≡ true) =
          ground arith in
        (bounds.0, bounds.1, matches_sound email_regex e bounds.2)

    refused : (3 ≤ length e) × (length e ≤ 254) × Denotes email_regex e → valid_email e ≡ true
    refused (low, high, d) =
        let yes_regex = matches_complete email_regex e d in ground (arith, yes_regex)
