-- ===== src/Hash/Blowfish.antt =====
-- hash/blowfish.go, and `encodeBLOWFISH` and `encodeCRYPT` of hash/hash.go, which nothing calls. The
-- cipher of golang.org/x/crypto/blowfish is a parameter.
pub mod Coding
pub mod Unused
use ldap_manager.Base.{
  ℕ, zero, suc, ◌+◌, ◌-◌, ◌*◌, ◌%◌, ◌^◌, Bool, true, false, ◌&&◌, Option, none, some, List, [], ◌∷◌,
  ◌++◌, Bytes, codes, ◌==◌, if◌then◌else◌, is_nil, length, take, drop, replicate,
}
use ldap_manager.Error.{Error, conversion}
use ldap_manager.Exec.{Result, ok, err}
use ldap_manager.Hash.Base64.{padding, encode_with, decode_with}
use ldap_manager.Hash.Crypt.{crypt_password}

abbrev pub alphabet : Bytes
alphabet = codes "./ABCDEFGHIJKLMNOPQRSTUVWXYZabcdefghijklmnopqrstuvwxyz0123456789"

-- The loop that takes the padding off.
unfoldable pub strip : Bytes → Bytes
strip [] = []
strip (c ∷ s) = let rest = strip s in if is_nil rest && c == padding then [] else c ∷ rest

abbrev pub nonempty : Bytes → Option Bytes
nonempty [] = none
nonempty (c ∷ s) = some (c ∷ s)

-- `base64Encode`; `none` is the panic of the index -1, when nothing is left.
unfoldable pub base64_encode : Bytes → Option Bytes
unfolding strip
base64_encode src = nonempty (strip (encode_with alphabet src))

abbrev pub or_error : Option Bytes → Result Bytes
or_error none = err conversion
or_error (some s) = ok s

-- `base64Decode`
unfoldable pub base64_decode : Bytes → Result Bytes
base64_decode src = or_error (decode_with alphabet (src ++ replicate (4 - length src % 4) padding))

abbrev pub max_crypted_hash_size : ℕ
max_crypted_hash_size = 23

abbrev pub magic_cipher_data : Bytes
magic_cipher_data = codes "OrpheanBeholderScryDoubt"

-- golang.org/x/crypto/blowfish.
pub record Cipher : Type 1 where
  pub State : Type 0
  pub new_salted_cipher : (key salt : Bytes) → Result State
  pub expand_key : (key : Bytes) → State → State
  -- One block of eight bytes.
  pub encrypt : State → Bytes → Bytes

module _ (cipher : Cipher) where
  open cipher use {State, new_salted_cipher, expand_key, encrypt}

  unfoldable pub expansions : ℕ → (key salt : Bytes) → State → State
  expansions zero key salt c = c
  expansions (suc left) key salt c = expansions left key salt (expand_key salt (expand_key key c))

  abbrev pub expanded : ℕ → (key salt : Bytes) → Result State → Result State
  expanded rounds key salt (err e) = err e
  expanded rounds key salt (ok c) = ok (expansions rounds key salt c)

  -- The rest of `expensiveBlowfishSetup`, by the decoded salt. The shift is one of 64 bits.
  unfoldable pub salted_setup : (key : Bytes) → (cost : ℕ) → Result Bytes → Result State
  unfolding expansions
  salted_setup key cost (err e) = err e
  salted_setup key cost (ok salt) =
      let ckey = key ++ 0 ∷ [] in
      expanded (2 ^ cost % 2 ^ 64) ckey salt (new_salted_cipher ckey salt)

  -- `expensiveBlowfishSetup`
  unfoldable pub expensive_blowfish_setup :
      (key : Bytes) → (cost : ℕ) → (salt : Bytes) → Result State
  unfolding salted_setup
  expensive_blowfish_setup key cost salt = salted_setup key cost (base64_decode salt)

  unfoldable pub encrypted : ℕ → State → Bytes → Bytes
  encrypted zero c block = block
  encrypted (suc left) c block = encrypted left c (encrypt c block)

  -- The three blocks, each encrypted 64 times.
  unfoldable pub cipher_data : State → Bytes
  unfolding encrypted
  cipher_data c =
      encrypted 64 c (take 8 magic_cipher_data)
      ++ (encrypted 64 c (take 8 (drop 8 magic_cipher_data))
          ++ encrypted 64 c (take 8 (drop 16 magic_cipher_data)))

  -- The end of `bcrypt`, which encodes all but one of the bytes.
  unfoldable pub bcrypt_hash : Result State → Option (Result Bytes)
  unfolding cipher_data base64_encode
  bcrypt_hash (err e) = some (err e)
  bcrypt_hash (ok c) = elim (base64_encode (take max_crypted_hash_size (cipher_data c))) [
    | none ↦ none
    | some hash ↦ some (ok hash)
  ]

  -- `bcrypt`; `none` is a panic.
  unfoldable pub bcrypt : (password : Bytes) → (cost : ℕ) → (salt : Bytes) → Option (Result Bytes)
  unfolding expensive_blowfish_setup bcrypt_hash
  bcrypt password cost salt = bcrypt_hash (expensive_blowfish_setup password (cost % 2 ^ 32) salt)

  -- A result without its error: the hash is empty beside an error.
  abbrev pub hash_of : Result Bytes → Bytes
  hash_of (ok hash) = hash
  hash_of (err e) = []

  abbrev pub prefixed : Option (Result Bytes) → Option Bytes
  prefixed none = none
  prefixed (some r) = some (codes "{CRYPT}" ++ hash_of r)

  -- `encodeBLOWFISH`, without its output of the hash.
  unfoldable pub encode_blowfish : (random : ℕ → Bytes) → Bytes → Option Bytes
  unfolding bcrypt
  encode_blowfish random pw = prefixed (bcrypt pw 13 (random 13))

-- `encodeCRYPT`; `none` is a panic of `Crypt`.
unfoldable pub encode_crypt : (Bytes → Bytes) → (ℕ → Bytes) → Bytes → Option Bytes
encode_crypt md5 random pw = elim (crypt_password md5 random pw (codes "JQ")) [
  | none ↦ none
  | some hashed ↦ some (codes "{CRYPT}" ++ hashed)
]
