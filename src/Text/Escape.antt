-- ===== src/Text/Escape.antt =====
-- `mustescapeFilter` and `escapeDN` of utils.go.
pub mod Buffer
pub mod Inverse
use ldap_manager.Base.{
  ℕ, zero, suc, ◌+◌, ◌*◌, ◌/◌, ◌%◌, Bool, true, ◌||◌, Option, none, some, [], ◌∷◌, ◌++◌, Bytes,
  codes, ltb, ◌==◌, if◌then◌else◌, any, get_or, length, replicate, flat_map,
}

abbrev pub hex : Bytes
hex = codes "0123456789abcdef"

abbrev pub backslash : ℕ
backslash = b'\\'

-- The cases of the `switch`, in order.
abbrev special : Bytes
special = codes ",;()\\*\"#=+<>" ++ 0 ∷ []

unfoldable pub must_escape_filter : ℕ → Bool
must_escape_filter c = if ltb 0x7f c then true else any (λ d. c == d) special

-- The first loop: how many bytes are escaped.
pub count_escapes : Bytes → ℕ
count_escapes [] = 0
count_escapes (c ∷ s) = (if must_escape_filter c then 1 else 0) + count_escapes s

-- `buf[i] = v`; `none` is the panic of a write out of range.
unfoldable pub write : Bytes → ℕ → ℕ → Option Bytes
write [] i v = none
write (x ∷ xs) zero v = some (v ∷ xs)
write (x ∷ xs) (suc i) v = elim (write xs i v) [ none ↦ none | some ys ↦ some (x ∷ ys) ]

infixl 5 ◌>>=◌
abbrev ◌>>=◌ : Option Bytes → (Bytes → Option Bytes) → Option Bytes
none >>= f = none
some a >>= f = f a

-- The second loop, over the text that is left, the buffer and the index `j`.
fill : Bytes → Bytes → ℕ → Option Bytes
fill [] buf j = some buf
fill (c ∷ s) buf j =
    let escaped : Option Bytes = (do
      b ← write buf j backslash
      b ← write b (j + 1) (get_or hex (c / 16) 0)
      b ← write b (j + 2) (get_or hex (c % 16) 0)
      fill s b (j + 3)) in
    let copied : Option Bytes = (do b ← write buf j c; fill s b (j + 1)) in
    if must_escape_filter c then escaped else copied

-- `escapeDN` as it runs, over its buffer; `none` is a panic.
pub escape_dn_run : Bytes → Option Bytes
unfolding write fill count_escapes must_escape_filter
escape_dn_run dn =
    let escape = count_escapes dn in
    if escape == 0 then some dn else fill dn (replicate (length dn + escape * 2) 0) 0

-- What one byte of the text becomes.
unfoldable pub escape_byte : ℕ → Bytes
escape_byte c =
    if must_escape_filter c
    then backslash ∷ get_or hex (c / 16) 0 ∷ get_or hex (c % 16) 0 ∷ []
    else c ∷ []

-- The value of `escapeDN`, with no buffer.
unfoldable pub escape_dn : Bytes → Bytes
escape_dn = flat_map escape_byte
