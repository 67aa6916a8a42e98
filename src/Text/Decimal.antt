-- ===== src/Text/Decimal.antt =====
-- `strconv.Itoa` and `strconv.Atoi`, as utils.go, groups.go, group_members.go and accounts.go use them.
pub mod RoundTrip
use ldap_manager.Base.{
  ℕ, zero, suc, ◌+◌, ◌-◌, ◌*◌, ◌/◌, ◌%◌, ◌^◌, Bool, true, false, ◌||◌, [], ◌∷◌, ◌++◌, Bytes, ltb,
  leb, ◌==◌, if◌then◌else◌,
}
use ldap_manager.Base.Int.{ℤ, pos, negsuc, max_int64}

-- The decimal digits of a number below 10 ^ f.
unfoldable pub digits : ℕ → ℕ → Bytes
digits zero n = []
digits (suc f) n =
    let more = digits f (n / 10) ++ (b'0' + n % 10) ∷ [] in
    if ltb n 10 then (b'0' + n) ∷ [] else more

-- An `int` has at most 19 digits.
unfoldable pub itoa : ℤ → Bytes
unfolding digits
itoa (pos n) = digits 20 n
itoa (negsuc n) = b'-' ∷ digits 20 (suc n)

-- A number read, or one of the two errors, with the value that is returned beside it.
pub data Parsed : Type 0 where
  parsed : ℤ → Parsed
  syntax_error : Parsed
  range_error : ℤ → Parsed

pub data Unsigned : Type 0 where
  number : ℕ → Unsigned
  bad_digit overflow : Unsigned

abbrev pub max_uint64 : ℕ
max_uint64 = 2 ^ 64 - 1

-- The loop of `ParseUint`.
unfoldable pub read_digits : Bytes → ℕ → Unsigned
read_digits [] n = number n
read_digits (c ∷ s) n =
    let m = n * 10 + (c - b'0') in
    let rest = read_digits s m in
    if ltb c b'0' || ltb b'9' c then bad_digit else if ltb max_uint64 m then overflow else rest

abbrev positive : Unsigned → Parsed
positive (number n) = if ltb max_int64 n then range_error (pos max_int64) else parsed (pos n)
positive bad_digit = syntax_error
positive overflow = range_error (pos max_int64)

abbrev negative : Unsigned → Parsed
negative (number zero) = parsed (pos 0)
negative (number (suc n)) =
    if ltb max_int64 n then range_error (negsuc max_int64) else parsed (negsuc n)
negative bad_digit = syntax_error
negative overflow = range_error (negsuc max_int64)

unsigned : Bytes → Unsigned
unfolding read_digits
unsigned [] = bad_digit
unsigned (c ∷ s) = read_digits (c ∷ s) 0

unfoldable pub atoi : Bytes → Parsed
unfolding unsigned
atoi [] = syntax_error
atoi (c ∷ s) =
    if c == b'-'
    then negative (unsigned s)
    else if c == b'+'
    then positive (unsigned s)
    else positive (unsigned (c ∷ s))

-- The value of `n, _ := strconv.Atoi(s)`.
abbrev pub value_of : Parsed → ℤ
value_of (parsed n) = n
value_of syntax_error = pos 0
value_of (range_error n) = n
