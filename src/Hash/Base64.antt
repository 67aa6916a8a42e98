-- ===== src/Hash/Base64.antt =====
-- `encoding/base64` as the program uses it: encodings with padding, by their alphabets.
use ldap_manager.Base.{
  ℕ, ◌+◌, ◌*◌, ◌/◌, ◌%◌, suc, Bool, not, ◌&&◌, ◌||◌, Option, none, some, [], ◌∷◌, ◌++◌, Bytes,
  codes, ◌==◌, if◌then◌else◌, get_or, is_nil, select,
}

abbrev std_alphabet : Bytes
std_alphabet = codes "ABCDEFGHIJKLMNOPQRSTUVWXYZabcdefghijklmnopqrstuvwxyz0123456789+/"

abbrev pub padding : ℕ
padding = b'='

module _ (alphabet : Bytes) where
  abbrev pub letter : ℕ → ℕ
  letter i = get_or alphabet i 0

  -- Three bytes are four letters of six bits each; the last letters of a shorter group are padded.
  unfoldable pub encode_with : Bytes → Bytes
  encode_with [] = []
  encode_with (a ∷ []) = letter (a / 4) ∷ letter (a % 4 * 16) ∷ padding ∷ padding ∷ []
  encode_with (a ∷ b ∷ []) =
      letter (a / 4) ∷ letter (a % 4 * 16 + b / 16) ∷ letter (b % 16 * 4) ∷ padding ∷ []
  encode_with (a ∷ b ∷ c ∷ s) =
      letter (a / 4)
      ∷ letter (a % 4 * 16 + b / 16)
      ∷ letter (b % 16 * 4 + c / 64)
      ∷ letter (c % 64)
      ∷ encode_with s

-- `base64.StdEncoding.EncodeToString`.
unfoldable pub encode_to_string : Bytes → Bytes
unfolding encode_with
encode_to_string s = encode_with std_alphabet s

-- The place of a letter in an alphabet, counted from `i`.
unfoldable pub place_from : ℕ → Bytes → ℕ → Option ℕ
place_from i [] c = none
place_from i (d ∷ alphabet) c =
    let rest = place_from (suc i) alphabet c in if c == d then some i else rest

abbrev pub onto_rest : Bytes → Option Bytes → Option Bytes
onto_rest s none = none
onto_rest s (some t) = some (s ++ t)

-- Four letters, by their places: the third or the fourth may be padding at the end of the text.
unfoldable pub quantum :
    (a b c d : Option ℕ) → (pads_two pads_one : Bool) → Option Bytes → Option Bytes
quantum (some a) (some b) (some c) (some d) two one rest =
    onto_rest ((a * 4 + b / 16) ∷ (b % 16 * 16 + c / 4) ∷ (c % 4 * 64 + d) ∷ []) rest
quantum (some a) (some b) (some c) none two one rest =
    if one then some ((a * 4 + b / 16) ∷ (b % 16 * 16 + c / 4) ∷ []) else none
quantum (some a) (some b) none d two one rest = if two then some ((a * 4 + b / 16) ∷ []) else none
quantum (some a) none c d two one rest = none
quantum none b c d two one rest = none

abbrev pub is_newline : ℕ → Bool
is_newline c = c == 10 || c == 13

module _ (alphabet : Bytes) where
  unfoldable pub decode_quanta : Bytes → Option Bytes
  decode_quanta [] = some []
  decode_quanta (a ∷ []) = none
  decode_quanta (a ∷ b ∷ []) = none
  decode_quanta (a ∷ b ∷ c ∷ []) = none
  decode_quanta (a ∷ b ∷ c ∷ d ∷ s) =
      let place : ℕ → Option ℕ = λ x. place_from 0 alphabet x in
      quantum (place a) (place b) (place c) (place d) (c == padding && (d == padding && is_nil s))
        (d == padding && is_nil s) (decode_quanta s)

  -- `Decode`, which passes over the ends of lines; `none` is an error.
  unfoldable pub decode_with : Bytes → Option Bytes
  unfolding decode_quanta
  decode_with s = decode_quanta (select (λ c. not (is_newline c)) s)
