-- ===== src/Examples/Texts.antt =====
-- The theorems on texts and lists at concrete inputs.
use ldap_manager.Base.{
  All, false, ℕ, ◌-◌, ◌+◌, ◌<◌, ◌≡◌, ◌⊎◌, some, List, [], ◌∷◌, arith, Bytes, codes, length, get_or,
}
use ldap_manager.Base.Int.{pos}
use ldap_manager.Listing.{clip}
use ldap_manager.Listing.Sorted.{clip-get_or}
use ldap_manager.Text.Escape.{escape_dn_run, escape_dn}
use ldap_manager.Text.Escape.Buffer.{escape_dn_run-eq}
use ldap_manager.Text.Escape.Inverse.{unescape_dn, unescape_dn-escape_dn, escape_dn-IsSafe, IsSafe}
use ldap_manager.Text.Filter.{Unicode, filter_term}
use ldap_manager.Text.Filter.Searchable.{names_searchable, IsTerm, filter_term-IsTerm}
use ldap_manager.Text.Split.{split}

abbrev smith : Bytes
smith = codes "a,b"

escape_dn_run-eq_example : escape_dn_run smith ≡ some (escape_dn smith)
escape_dn_run-eq_example = escape_dn_run-eq smith

unescape_dn-escape_dn_example : unescape_dn (escape_dn smith) ≡ smith
unescape_dn-escape_dn_example =
    unescape_dn-escape_dn smith (omega arith, (omega arith, (omega arith, tt)))

escape_dn-IsSafe_example : All IsSafe (escape_dn smith)
escape_dn-IsSafe_example = escape_dn-IsSafe smith (omega arith, (omega arith, (omega arith, tt)))

abbrev no_unicode : Unicode
no_unicode = record { lower = λ s. []; upper = λ s. s }

filter_term-IsTerm_example :
    ((filter_term no_unicode (λ s. s) (codes "CN=ann") ≡ [])
      × (names_searchable no_unicode (split b'=' (codes "CN=ann")) ≡ false))
    ⊎ IsTerm no_unicode (λ s. s) (codes "CN=ann") (filter_term no_unicode (λ s. s) (codes "CN=ann"))
filter_term-IsTerm_example =
    filter_term-IsTerm no_unicode (λ s. s) (record { lower-NoUpper = λ s. tt }) (codes "CN=ann")

abbrev three_names : List Bytes
three_names = codes "a" ∷ codes "b" ∷ codes "c" ∷ []

clip-get_or_example :
    (length (clip (pos 1) (pos 2) three_names) ≡ 2 - 1)
    × ((i : ℕ) (d : Bytes)
        → i < 2 - 1
        → get_or (clip (pos 1) (pos 2) three_names) i d ≡ get_or three_names (1 + i) d)
clip-get_or_example = clip-get_or 1 2 three_names (omega arith) (omega arith) (omega arith)
