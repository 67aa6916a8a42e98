-- ===== src/Manager/Validation.antt =====
-- `validEmail`, `validUsername`, `validPassword` and `ValidAccountRequest` of accounts.go.
pub mod Address
use ldap_manager.Base.{
  ℕ, Bool, true, false, not, ◌&&◌, ◌||◌, List, [], ◌∷◌, ◌++◌, Bytes, codes, ltb, leb, ◌==◌,
  if◌then◌else◌, any, length, is_empty, is_nil,
}
use ldap_manager.Base.Int.{ℤ}
use ldap_manager.Error.{app, account_validation}
use ldap_manager.Exec.{Result, ok, err}
use ldap_manager.Text.Regex.{Regex, class, then_, star, matches, optional, plus, up_to}

-- `pb.Account`; a missing one reads as the one with empty fields.
pub record Account : Type 0 where
  pub first_name : Bytes
  pub last_name : Bytes
  pub uid : ℤ
  pub gid : ℤ
  pub login_shell : Bytes
  pub home_directory : Bytes
  pub username : Bytes
  pub email : Bytes
  pub password : Bytes

abbrev pub is_alphanumeric : ℕ → Bool
is_alphanumeric c = leb b'a' c && leb c b'z' || leb b'A' c && leb c b'Z' || leb b'0' c && leb c b'9'

unfoldable pub is_local : ℕ → Bool
is_local c = is_alphanumeric c || any (λ d. c == d) (codes ".!#$%&'*+/=?^_`{|}~-")

abbrev pub byte : ℕ → Regex
byte c = class (λ d. d == c)

-- `[a-zA-Z0-9](?:[a-zA-Z0-9-]{0,61}[a-zA-Z0-9])?`
abbrev pub label : Regex
label = then_ (class is_alphanumeric) (
    optional
      (then_ (up_to 61 (class (λ c. is_alphanumeric c || c == b'-'))) (class is_alphanumeric)))

-- `emailRegex`
abbrev pub email_regex : Regex
email_regex =
    then_ (plus (class is_local)) (then_ (byte b'@') (then_ label (star (then_ (byte b'.') label))))

unfoldable pub valid_email : Bytes → Bool
valid_email e = if ltb (length e) 3 || ltb 254 (length e) then false else matches email_regex e

unfoldable pub valid_password : Bytes → Bool
valid_password pw = true

unfoldable pub valid_username : Bytes → Bool
valid_username un = true

-- The names of the missing or invalid fields, in order.
unfoldable pub invalid_fields : Account → List Bytes
unfolding valid_username valid_password
invalid_fields acc =
    (if is_empty acc.username || not (valid_username acc.username)
      then codes "username" ∷ []
      else [])
    ++ ((if is_empty acc.password || not (valid_password acc.password)
          then codes "password" ∷ []
          else [])
        ++ ((if is_empty acc.email || not (valid_email acc.email) then codes "email" ∷ [] else [])
            ++ ((if is_empty acc.first_name then codes "first name" ∷ [] else [])
                ++ (if is_empty acc.last_name then codes "last name" ∷ [] else []))))

-- `ValidAccountRequest`
unfoldable pub valid_account_request : Account → Result (Unit {0})
unfolding invalid_fields
valid_account_request acc =
    if is_nil (invalid_fields acc)
    then ok tt
    else err (app (account_validation (invalid_fields acc)))
