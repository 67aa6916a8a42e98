-- ===== src/Hash/Hash64.antt =====
-- `Hash64` and `GenerateSalt` of hash/crypt.go.
pub mod Buffer
use Prim.Native.Nat.{bit_and, bit_or}
use ldap_manager.Base.{
  ℕ, zero, suc, ◌+◌, ◌-◌, ◌*◌, ◌/◌, ◌%◌, Bool, true, false, not, Option, none, some, List, [], ◌∷◌,
  ◌++◌, Bytes, codes, ltb, ◌==◌, if◌then◌else◌, get_or, is_nil, length, replicate, take,
}
use ldap_manager.Base.Int.{ℤ, pos, pos_part, ltb_ℤ}

-- `Hash64Chars`
abbrev pub hash64_chars : Bytes
hash64_chars = codes "./0123456789ABCDEFGHIJKLMNOPQRSTUVWXYZabcdefghijklmnopqrstuvwxyz"

-- `Hash64Chars[i & 0x3f]`
unfoldable pub hash64_char : ℕ → ℕ
hash64_char i = get_or hash64_chars (bit_and i 0x3f) 0

-- Shifts of a byte: what leaves its eight bits is lost.
abbrev pub shift_left : ℕ → ℕ → ℕ
shift_left b k = b * k % 256

abbrev pub shift_right : ℕ → ℕ → ℕ
shift_right b k = b / k

abbrev pub prepend : Bytes → Option Bytes → Option Bytes
prepend written none = none
prepend written (some rest) = some (written ++ rest)

-- The loop, over the source that is left and the part of the buffer behind what is written; `none`
-- is the panic of an index out of range.
unfoldable pub encode : Bytes → Bytes → Option Bytes
encode [] dst = some dst
encode (a ∷ []) (_ ∷ _ ∷ dst) = some (hash64_char a ∷ hash64_char (shift_right a 64) ∷ dst)
encode (a ∷ b ∷ []) (_ ∷ _ ∷ _ ∷ dst) = some (
    hash64_char a
    ∷ hash64_char (bit_or (shift_right a 64) (shift_left b 4))
    ∷ hash64_char (shift_right b 16)
    ∷ dst)
encode (a ∷ b ∷ c ∷ src) (_ ∷ _ ∷ _ ∷ _ ∷ dst) =
    prepend
      (hash64_char a
        ∷ hash64_char (bit_or (shift_right a 64) (shift_left b 4))
        ∷ hash64_char (bit_or (shift_right b 16) (shift_left c 16))
        ∷ hash64_char (shift_right c 4)
        ∷ [])
      (encode src dst)
encode _ _ = none

-- The size of the buffer.
abbrev pub hash_size : ℕ → ℕ
hash_size n = if not (n % 6 == 0) then n * 8 / 6 + 1 else n * 8 / 6

-- `Hash64`
unfoldable pub hash64 : Bytes → Option Bytes
unfolding encode
hash64 src = if is_nil src then some [] else encode src (replicate (hash_size (length src)) 0)

-- `MagicPrefix`
abbrev pub magic_prefix : Bytes
magic_prefix = codes "$apr1$"

abbrev pub salt_len_max : ℤ
salt_len_max = pos 8

abbrev pub salt_len_min : ℤ
salt_len_min = pos 1

-- The length, brought into its range.
abbrev pub salt_length : ℤ → ℕ
salt_length n =
    if ltb_ℤ salt_len_max n
    then pos_part salt_len_max
    else if ltb_ℤ n salt_len_min
    then pos_part salt_len_min
    else pos_part n

-- The number of random bytes.
abbrev pub random_length : ℕ → ℕ
random_length n = if not (n * 6 % 8 == 0) then n * 6 / 8 + 1 else n * 6 / 8

-- `salt[:length]`; `none` is the panic of a slice out of range.
abbrev pub front : ℕ → Option Bytes → Option Bytes
front n none = none
front n (some salt) = if ltb (length salt) n then none else some (magic_prefix ++ take n salt)

-- `GenerateSalt`; `random` is what `rand.Read` puts into a buffer of a length.
unfoldable pub generate_salt : (ℕ → Bytes) → ℤ → Option Bytes
unfolding hash64
generate_salt random n =
    let size = salt_length n in front size (hash64 (random (random_length size)))
