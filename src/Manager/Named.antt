-- ===== src/Manager/Named.antt =====
-- The distinguished names that `AccountNamed` builds from the names of users, and what is read from
-- them.
use ldap_manager.Base.{
  Option, ℕ, ◌<◌, ◌/◌, ◌%◌, ◌≡◌, ◌≢◌, refl, sym, ap, ◌∙◌, inl, inr, true, Bool-cases, some, [], ◌∷◌,
  ◌++◌, append_assoc, arith, Bytes, IsBytes, codes, ◌==◌, ==_iff, All-map, All-append, Lacks, not,
  Bool, get_or, all_below, all_below_sound,
}
use ldap_manager.Manager.{Manager, account_named}
use ldap_manager.Text.Escape.{escape_dn, escape_byte, must_escape_filter, hex}
use ldap_manager.Text.Escape.Inverse.{unescape_dn, unescape_dn-escape_dn, IsSafe, escape_dn-IsSafe}
use ldap_manager.Text.Extract.{is_literal, extract_attribute, extract_attribute-front, newline}

comma-must_escape : must_escape_filter b',' ≡ true
unfolding must_escape_filter
comma-must_escape = refl

IsSafe-ne-comma : (c : ℕ) → IsSafe c → c ≢ b','
IsSafe-ne-comma c safe e =
    ground (arith, ap must_escape_filter e, comma-must_escape, ==_iff c b'\\')

escape_dn-Lacks_comma : (s : Bytes) → IsBytes s → Lacks b',' (escape_dn s)
escape_dn-Lacks_comma s h = All-map (escape_dn s) IsSafe-ne-comma (escape_dn-IsSafe s h)

abbrev no_line_break : ℕ → Bool
no_line_break d = not (d == newline)

hex-no_line_break : all_below 16 (λ i. no_line_break (get_or hex i 0)) ≡ true
unfolding all_below
hex-no_line_break = refl

hex-ne-newline : (i : ℕ) → i < 16 → get_or hex i 0 ≢ newline
hex-ne-newline i h e =
    ground (arith, all_below_sound 16 (λ j. no_line_break (get_or hex j 0)) i hex-no_line_break h)

-- The escapes hold no line break.
escape_byte-Lacks-newline : (c : ℕ) → c < 256 → c ≢ newline → Lacks newline (escape_byte c)
unfolding escape_byte
escape_byte-Lacks-newline c h k = elim (Bool-cases (must_escape_filter c)) [
  | inl must ↦ rw must (
    (λ e. omega (arith, e)),
    (hex-ne-newline (c / 16) (omega arith), (hex-ne-newline (c % 16) (omega arith), tt)),
  )
  | inr plain ↦ rw plain (k, tt)
]

escape_dn-Lacks-newline : (s : Bytes) → IsBytes s → Lacks newline s → Lacks newline (escape_dn s)
unfolding escape_dn
escape_dn-Lacks-newline [] _ _ = tt
escape_dn-Lacks-newline (c ∷ s) (hc, hs) (kc, ks) =
    All-append (λ d. d ≢ newline) (escape_byte c) (escape_dn s) (escape_byte-Lacks-newline c hc kc)
      (escape_dn-Lacks-newline s hs ks)

escape_dn-ne-nil : (c : ℕ) (s : Bytes) → escape_dn (c ∷ s) ≢ []
unfolding escape_dn escape_byte
escape_dn-ne-nil c s e = elim (Bool-cases (must_escape_filter c)) [
  | inl must ↦ cc (rw must at e)
  | inr plain ↦ cc (rw plain at e)
]

extract-value :
    (capture : Bytes → Bytes → Option Bytes) (attribute v rest : Bytes)
    → is_literal attribute ≡ true
    → v ≢ []
    → Lacks b',' v
    → Lacks newline v
    → extract_attribute capture (attribute ++ (codes "=" ++ (v ++ b',' ∷ rest))) attribute ≡ some v
extract-value capture attribute [] rest literal h _ _ = absurd (h refl)
extract-value capture attribute (c ∷ v) rest literal h no_comma no_break =
    ap (λ dn. extract_attribute capture dn attribute)
      (sym (append_assoc attribute (codes "=") ((c ∷ v) ++ b',' ∷ rest)))
    ∙ extract_attribute-front capture attribute c v rest literal no_comma no_break

-- Let the attribute of accounts consist of letters, digits and dashes. From a user's distinguished
-- name the escaped name is extracted, if the name is a text of bytes that is not empty and holds no
-- line break, and from that the name is read back.
pub extract_attribute-account_named :
    (capture : Bytes → Bytes → Option Bytes) (m : Manager) (c : ℕ) (s : Bytes)
    → is_literal m.account_attribute ≡ true
    → IsBytes (c ∷ s)
    → Lacks newline (c ∷ s)
    → (v : Bytes) × (extract_attribute capture (account_named m (c ∷ s)) m.account_attribute
        ≡ some v)
      × (v ≡ escape_dn (c ∷ s))
      × (unescape_dn v ≡ c ∷ s)
unfolding account_named
extract_attribute-account_named capture m c s literal h k = (
  escape_dn (c ∷ s),
  extract-value capture m.account_attribute (escape_dn (c ∷ s)) m.user_group_dn literal
      (escape_dn-ne-nil c s) (escape_dn-Lacks_comma (c ∷ s) h)
      (escape_dn-Lacks-newline (c ∷ s) h k),
  refl,
  unescape_dn-escape_dn (c ∷ s) h,
)
