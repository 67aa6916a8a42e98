-- ===== src/Hash/Crypt.antt =====
-- `Crypt` and `Verify` of hash/crypt.go. A panic is `none`.
pub mod Verified
use ldap_manager.Base.{
  ℕ, zero, suc, ◌+◌, ◌-◌, ◌/◌, ◌%◌, Bool, true, false, not, Option, none, some, List, [], ◌∷◌, ◌++◌,
  Bytes, codes, ltb, leb, ◌==◌, if◌then◌else◌, is_empty, bytes_eq, has_prefix, length, take,
}
use ldap_manager.Base.Int.{pos}
use ldap_manager.Hash.Hash64.{hash64, magic_prefix, salt_len_max, generate_salt}
use ldap_manager.Text.Split.{split}

abbrev pub dollar : ℕ
dollar = b'$'

-- An access that is out of range is a panic, `none`, which ends the rest.
abbrev pub after : {A B : Type 0} → Option A → (A → Option B) → Option B
after none f = none
after (some a) f = f a

-- `s[i]`
abbrev pub get_elem? : Bytes → ℕ → Option ℕ
get_elem? [] i = none
get_elem? (c ∷ s) zero = some c
get_elem? (c ∷ s) (suc i) = get_elem? s i

-- `s[0:n]`
abbrev pub slice_to : Bytes → ℕ → Option Bytes
slice_to s n = if leb n (length s) then some (take n s) else none

-- What is written before the rest.
abbrev pub written : Option Bytes → Option Bytes → Option Bytes
written front rest = after front λ s. after rest λ t. some (s ++ t)

-- The loop that writes `Bsum` once for each 16 bytes of the key, and the part that is left.
unfoldable pub blocks : ℕ → ℕ → Bytes → Option Bytes
blocks zero count sum = slice_to sum count
blocks (suc f) count sum =
    let rest = blocks f (count - 16) sum in
    if ltb 16 count then written (some sum) rest else slice_to sum count

-- The loop over the bits of the length.
unfoldable pub length_bits : ℕ → ℕ → Bytes → Option Bytes
length_bits zero count key = some []
length_bits (suc f) count key =
    let rest = length_bits f (count / 2) key in
    if count == 0
    then some []
    else written (if count % 2 == 0 then slice_to key 1 else some (0 ∷ [])) rest

-- At most eight bytes of the salt are used.
abbrev pub cut : Bytes → Bytes
cut salt = if ltb 8 (length salt) then take 8 salt else salt

-- The bytes at some places.
abbrev pub picked : Bytes → List ℕ → Option Bytes
picked sum [] = some []
picked sum (i ∷ places) = after (get_elem? sum i) λ c. after (picked sum places) λ s. some (c ∷ s)

-- The order of the last bytes.
abbrev pub places : List ℕ
places = 12 ∷ 6 ∷ 0 ∷ 13 ∷ 7 ∷ 1 ∷ 14 ∷ 8 ∷ 2 ∷ 15 ∷ 9 ∷ 3 ∷ 5 ∷ 10 ∷ 4 ∷ 11 ∷ []

abbrev pub reordered : Bytes → Option Bytes
reordered sum = picked sum places

abbrev pub joined : Bytes → Option Bytes → Option Bytes
joined salt none = none
joined salt (some sum) = some (magic_prefix ++ (salt ++ dollar ∷ sum))

module _ (md5 : Bytes → Bytes) (random : ℕ → Bytes) where
  -- What one round sums.
  abbrev pub round_text : Bytes → Bytes → ℕ → Bytes → Bytes
  round_text key salt round sum =
      (if not (round % 2 == 0) then key else sum)
      ++ ((if not (round % 3 == 0) then salt else [])
          ++ ((if not (round % 7 == 0) then key else []) ++ (if round % 2 == 0 then key else sum)))

  -- The rounds that are left, from the number of the next one.
  unfoldable pub rounds : Bytes → Bytes → ℕ → ℕ → Bytes → Bytes
  rounds key salt zero round sum = sum
  rounds key salt (suc left) round sum =
      rounds key salt left (round + 1) (md5 (round_text key salt round sum))

  unfoldable pub first_sum : Bytes → Bytes → Option Bytes
  unfolding blocks length_bits
  first_sum key salt =
      let size = length key in
      after (blocks size size (md5 (key ++ (salt ++ key)))) λ full.
        after (length_bits size size key)
          λ bits. some (md5 (key ++ (magic_prefix ++ (salt ++ (full ++ bits)))))

  -- `Crypt` behind its tests, for a salt that is cut.
  unfoldable pub md5_crypt : Bytes → Bytes → Option Bytes
  unfolding rounds first_sum
  md5_crypt key salt =
      after (first_sum key salt)
        λ sum. after (reordered (rounds key salt 1000 0 sum)) λ s. joined salt (hash64 s)

  -- The third part of the salt's text.
  abbrev pub with_parts : Bytes → List Bytes → Option Bytes
  with_parts key (a ∷ b ∷ salt ∷ more) = md5_crypt key (cut salt)
  with_parts key _ = some (codes "invalid salt format")

  abbrev pub with_salt : Bytes → Option Bytes → Option Bytes
  with_salt key none = none
  with_salt key (some salt) =
      if not (has_prefix salt magic_prefix)
      then some (codes "invalid magic prefix")
      else with_parts key (split dollar salt)

  -- `Crypt`; `none` is a panic.
  unfoldable pub crypt_password : Bytes → Bytes → Option Bytes
  crypt_password key salt =
      with_salt key (if is_empty salt then generate_salt random salt_len_max else some salt)

  abbrev pub matches_hash : Bytes → Option Bytes → Option Bool
  matches_hash hash none = none
  matches_hash hash (some found) = some (bytes_eq hash found)

  -- `Verify`
  unfoldable pub verify : Bytes → Bytes → Option Bool
  unfolding crypt_password
  verify key hash = matches_hash hash (crypt_password key hash)
