-- ===== src/Hash/Library.antt =====
-- The digests that the package `hash` takes from elsewhere.
use ldap_manager.Base.{Bytes}

pub record Digests : Type 0 where
  -- `md5` and `sha1`: the sum of all bytes written.
  pub md5 : Bytes → Bytes
  pub sha1 : Bytes → Bytes
  -- `crypt.SHA256.New().Generate(key, salt)`, its error dropped, and so for the two others.
  pub sha256_crypt : Bytes → Bytes → Bytes
  pub sha512_crypt : Bytes → Bytes → Bytes
  pub md5_crypt : Bytes → Bytes → Bytes
