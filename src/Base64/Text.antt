-- ===== src/Base64/Text.antt =====
-- The Base64 text of bytes, which `base64_encode_buffer` is compared with, and its size.

use fsdyn.Prelude.{
  ℕ, ◌+◌, ◌*◌, ◌/◌, ◌^◌, ◌<◌, ◌≡◌, ltb, if◌then◌else◌, List, [], ◌∷◌, ◌++◌, length, arith,
}
use fsdyn.Base64.{base64_char, group, base64_encoding_size, size_max}

module _ (pos62 pos63 : ℕ) where
  -- The text of three, two and one bytes, by the fields of six bits.
  abbrev pub quad : ℕ → ℕ → ℕ → List ℕ
  quad a b c =
      let bits = group a b c in
      base64_char (bits / 2 ^ 18) pos62 pos63
      ∷ base64_char (bits / 2 ^ 12) pos62 pos63
      ∷ base64_char (bits / 2 ^ 6) pos62 pos63
      ∷ base64_char bits pos62 pos63
      ∷ []

  -- The Base64 text of the bytes, with its padding.
  unfoldable pub encode : List ℕ → List ℕ
  encode (a ∷ b ∷ c ∷ q) = quad a b c ++ encode q
  encode [] = []
  encode (a ∷ []) =
      base64_char (a * 2 ^ 16 / 2 ^ 18) pos62 pos63
      ∷ base64_char (a * 2 ^ 16 / 2 ^ 12) pos62 pos63
      ∷ 61
      ∷ 61
      ∷ []
  encode (a ∷ b ∷ []) =
      base64_char ((a * 2 ^ 16 + b * 2 ^ 8) / 2 ^ 18) pos62 pos63
      ∷ base64_char ((a * 2 ^ 16 + b * 2 ^ 8) / 2 ^ 12) pos62 pos63
      ∷ base64_char ((a * 2 ^ 16 + b * 2 ^ 8) / 2 ^ 6) pos62 pos63
      ∷ 61
      ∷ []

  -- Four characters for every three bytes or fewer.
  pub length-encode : (xs : List ℕ) → length (encode xs) ≡ (length xs + 2) / 3 * 4
  unfolding encode
  length-encode (a ∷ b ∷ c ∷ q) = omega (arith, length-encode q)
  length-encode [] = omega arith
  length-encode (a ∷ []) = omega arith
  length-encode (a ∷ b ∷ []) = omega arith

-- `base64_encoding_size` is the exact size, or -1 exactly if a `size_t` cannot hold it.
pub base64_encoding_size-exact :
    (n : ℕ)
    → n < 2 ^ 64
    → base64_encoding_size n
      ≡ (if ltb ((n + 2) / 3 * 4) (2 ^ 64) then (n + 2) / 3 * 4 else size_max)
unfolding base64_encoding_size
base64_encoding_size-exact n h = ground arith
