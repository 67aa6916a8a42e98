-- ===== src/Hash.antt =====
-- hash/hash.go: the hashing algorithms and `Password`.
pub mod Library
pub mod Base64
pub mod Hash64
pub mod Crypt
pub mod Blowfish
pub mod Offered
use ldap_manager.Base.{ℕ, ◌++◌, List, [], ◌∷◌, Bytes, codes}
use ldap_manager.Base.Int.{ℤ}
use ldap_manager.Error.{Error, new}
use ldap_manager.Exec.{Result, ok, err}
use ldap_manager.Hash.Library.{Digests}
use ldap_manager.Hash.Base64.{encode_to_string}

pub data HashingAlgorithm : Type 0 where
  default sha512crypt sha256crypt blowfish extdes md5crypt smd5 md5 sha ssha crypt clear :
      HashingAlgorithm
  -- A value of the wire that the enumeration does not name.
  other : ℤ → HashingAlgorithm

-- `LDAPPasswordHashingAlgorithms`
unfoldable pub ldap_password_hashing_algorithms : List HashingAlgorithm
ldap_password_hashing_algorithms =
    default ∷ sha512crypt ∷ sha256crypt ∷ md5crypt ∷ smd5 ∷ md5 ∷ sha ∷ ssha ∷ clear ∷ []

-- `random n` is what `generateSalt(n)` returns.
module _ (d : Digests) (random : ℕ → Bytes) where
  unfoldable pub encode_ssha : Bytes → Bytes
  encode_ssha pw =
      let salt = random 4 in codes "{SSHA}" ++ encode_to_string (d.sha1 (pw ++ salt) ++ salt)

  unfoldable pub encode_smd5 : Bytes → Bytes
  encode_smd5 pw =
      let salt = random 4 in codes "{SMD5}" ++ encode_to_string (d.md5 (pw ++ salt) ++ salt)

  unfoldable pub encode_sha256 : Bytes → Bytes
  encode_sha256 pw = codes "{CRYPT}" ++ d.sha256_crypt pw (codes "$5$" ++ random 8)

  unfoldable pub encode_sha512 : Bytes → Bytes
  encode_sha512 pw = codes "{CRYPT}" ++ d.sha512_crypt pw (codes "$6$" ++ random 8)

  unfoldable pub encode_md5crypt : Bytes → Bytes
  encode_md5crypt pw = codes "{CRYPT}" ++ d.md5_crypt pw (codes "$1$" ++ random 9)

  unfoldable pub encode_clear : Bytes → Bytes
  encode_clear pw = pw

  unfoldable pub encode_md5 : Bytes → Bytes
  encode_md5 pw = codes "{MD5}" ++ encode_to_string (d.md5 pw)

  unfoldable pub encode_sha : Bytes → Bytes
  encode_sha pw = codes "{SHA}" ++ encode_to_string (d.sha1 pw)

  -- `Password`
  unfoldable pub password : Bytes → HashingAlgorithm → Result Bytes
  password pw ssha = ok (encode_ssha pw)
  password pw default = ok (encode_ssha pw)
  password pw sha256crypt = ok (encode_sha256 pw)
  password pw sha512crypt = ok (encode_sha512 pw)
  password pw blowfish = err (new (codes "BLOWFISH is currently not supported"))
  password pw md5 = ok (encode_md5 pw)
  password pw md5crypt = ok (encode_md5crypt pw)
  password pw smd5 = ok (encode_smd5 pw)
  password pw sha = ok (encode_sha pw)
  password pw crypt = err (new (codes "CRYPT is currently not supported"))
  password pw extdes = err (new (codes "EXTDES is currently not supported"))
  password pw clear = ok (encode_clear pw)
  password pw (other n) = ok (encode_ssha pw)
