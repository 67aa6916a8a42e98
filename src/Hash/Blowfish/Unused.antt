-- ===== src/Hash/Blowfish/Unused.antt =====
-- The two encodings of a password that `Password` does not offer.
use ldap_manager.Base.{
  ℕ, ◌%◌, ◌≡◌, refl, Bool, false, not, ◌&&◌, Option, none, some, [], ◌∷◌, ◌++◌, arith, Bytes, codes,
  ◌==◌, is_nil, select, length, replicate, has_prefix,
}
use ldap_manager.Error.{conversion}
use ldap_manager.Exec.{err}
use ldap_manager.Hash.Base64.{padding, decode_with, decode_quanta, place_from, quantum, is_newline}
use ldap_manager.Hash.Blowfish.{
  alphabet, base64_decode, Cipher, salted_setup, expensive_blowfish_setup, bcrypt_hash, bcrypt,
  encode_blowfish, encode_crypt,
}
use ldap_manager.Hash.Crypt.{crypt_password}

-- A group without padding fails if the rest does.
quantum_failing : (a b c d : Option ℕ) → quantum a b c d false false none ≡ none
unfolding quantum
quantum_failing none b c d = refl
quantum_failing (some a) none c d = refl
quantum_failing (some a) (some b) none d = refl
quantum_failing (some a) (some b) (some c) none = refl
quantum_failing (some a) (some b) (some c) (some d) = refl

quantum_second :
    (a c d : Option ℕ) (two one : Bool) (rest : Option Bytes)
    → quantum a none c d two one rest ≡ none
unfolding quantum
quantum_second none c d two one rest = refl
quantum_second (some a) c d two one rest = refl

and-false : (b : Bool) → (b && false) ≡ false
and-false b = ground arith

quantum_unpadded :
    (a b c d : Option ℕ) (p q : Bool) → quantum a b c d (p && false) (q && false) none ≡ none
quantum_unpadded a b c d p q = rw (and-false p, and-false q) (quantum_failing a b c d)

is_nil-append : (s t : Bytes) (c : ℕ) → is_nil (s ++ c ∷ t) ≡ false
is_nil-append [] t c = refl
is_nil-append (d ∷ s) t c = refl

padding-place : place_from 0 alphabet padding ≡ none
unfolding place_from
padding-place = refl

-- Three letters of padding are never right.
decode_quanta-three : (s : Bytes) → decode_quanta alphabet (s ++ replicate 3 padding) ≡ none
unfolding decode_quanta
decode_quanta-three [] = refl
decode_quanta-three (a ∷ []) =
    rw padding-place (quantum_second (place_from 0 alphabet a) none none _ _ _)
decode_quanta-three (a ∷ b ∷ []) =
    rw padding-place (quantum_failing (place_from 0 alphabet a) (place_from 0 alphabet b) none none)
decode_quanta-three (a ∷ b ∷ c ∷ []) = rw padding-place (
    quantum_unpadded (place_from 0 alphabet a) (place_from 0 alphabet b) (place_from 0 alphabet c)
      none (c == padding) false)
decode_quanta-three (a ∷ b ∷ c ∷ d ∷ s) =
    rw
      (
        decode_quanta-three s,
        is_nil-append s (padding ∷ padding ∷ []) padding,
        and-false (d == padding),
      )
      (quantum_unpadded _ _ _ _ (c == padding) false)

kept-append :
    (s t : Bytes)
    → select (λ c. not (is_newline c)) (s ++ t)
      ≡ select (λ c. not (is_newline c)) s ++ select (λ c. not (is_newline c)) t
kept-append [] t = refl
kept-append (c ∷ s) t = ground (arith, kept-append s t)

-- A text whose length is 1 modulo 4 is not decoded.
base64_decode-one : (s : Bytes) → length s % 4 ≡ 1 → base64_decode s ≡ err conversion
unfolding base64_decode decode_with
base64_decode-one s e =
    rw
      (
        e,
        kept-append s (replicate 3 padding),
        decode_quanta-three (select (λ c. not (is_newline c)) s),
      )
      refl

-- `encodeBLOWFISH` makes the same text of every password, whatever the cipher and 13 random bytes are,
-- the prefix alone; and `encodeCRYPT` the prefix with the text of an error.
encode_blowfish_lem :
    (cipher : Cipher) (md5 : Bytes → Bytes) (random : ℕ → Bytes) (pw : Bytes)
    → length (random 13) ≡ 13
    → (encode_blowfish cipher random pw ≡ some (codes "{CRYPT}"))
      × (encode_crypt md5 random pw ≡ some (codes "{CRYPT}invalid magic prefix"))
unfolding encode_blowfish bcrypt expensive_blowfish_setup salted_setup bcrypt_hash encode_crypt
    crypt_password has_prefix
encode_blowfish_lem cipher md5 random pw h =
    (rw (base64_decode-one (random 13) (rw h refl)) refl, refl)
