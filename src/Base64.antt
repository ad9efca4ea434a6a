-- ===== src/Base64.antt =====
-- src/base64.c: Base64 text of bytes, and back. Bytes and characters are numbers below 256, a
-- `char` being read as unsigned; '=' is 61, '+' 43, '/' 47. A buffer is the list of its cells, and
-- `none` is a write outside of it. Buffers are smaller than 2 ^ 63 bytes, so the indices, which C
-- keeps in a `size_t`, do not wrap.
pub mod Text
pub mod Puts
pub mod Encode
pub mod Simple
pub mod Decoder
mod Tests
use fsdyn.Prelude.{
  ℕ, zero, suc, ◌+◌, ◌-◌, ◌*◌, ◌/◌, ◌%◌, ◌^◌, Option, none, some, ◌>>=◌, ltb, ◌==◌, if◌then◌else◌,
  List, [], ◌∷◌, length, drop, get_or,
}
use fsdyn.Prelude.Buffers.{write}

-- `(size_t) -1`
abbrev pub size_max : ℕ
size_max = 2 ^ 64 - 1

unfoldable pub base64_encoding_size : ℕ → ℕ
base64_encoding_size binary_size =
    let encoding_size = (binary_size + 2) % 2 ^ 64 / 3 * 4 % 2 ^ 64 in
    if ltb encoding_size binary_size then size_max else encoding_size

-- A to Z, a to z, 0 to 9, + and /.
abbrev pub base64_bitfield_encoding : List ℕ
base64_bitfield_encoding =
    65 ∷ 66 ∷ 67 ∷ 68 ∷ 69 ∷ 70 ∷ 71 ∷ 72 ∷ 73 ∷ 74 ∷ 75 ∷ 76 ∷ 77 ∷ 78 ∷ 79 ∷ 80 ∷ 81 ∷ 82 ∷ 83
    ∷ 84 ∷ 85 ∷ 86 ∷ 87 ∷ 88 ∷ 89 ∷ 90 ∷ 97 ∷ 98 ∷ 99 ∷ 100 ∷ 101 ∷ 102 ∷ 103 ∷ 104 ∷ 105 ∷ 106
    ∷ 107 ∷ 108 ∷ 109 ∷ 110 ∷ 111 ∷ 112 ∷ 113 ∷ 114 ∷ 115 ∷ 116 ∷ 117 ∷ 118 ∷ 119 ∷ 120 ∷ 121 ∷ 122
    ∷ 48 ∷ 49 ∷ 50 ∷ 51 ∷ 52 ∷ 53 ∷ 54 ∷ 55 ∷ 56 ∷ 57 ∷ 43 ∷ 47 ∷ []

abbrev pub base64_default_char : ℕ
base64_default_char = 255

-- The parameter is a `uint8_t`.
unfoldable pub base64_char : ℕ → ℕ → ℕ → ℕ
base64_char bits pos62 pos63 =
    let bitfield = bits % 2 ^ 8 % 64 in
    if bitfield == 62
    then pos62
    else if bitfield == 63
    then pos63
    else get_or base64_bitfield_encoding bitfield 0

-- One line of `put4`.
unfoldable pub put1 : List ℕ → ℕ → ℕ → ℕ → Option (List ℕ)
put1 p i size c = if ltb i size then write p i c else some p

-- What is in `p`, and the index that is returned.
unfoldable pub put4 : List ℕ → ℕ → ℕ → ℕ → ℕ → ℕ → ℕ → Option (List ℕ × ℕ)
put4 p i size c0 c1 c2 c3 = do
  p ← put1 p i size c0
  p ← put1 p (i + 1) size c1
  p ← put1 p (i + 2) size c2
  p ← put1 p (i + 3) size c3
  some (p, i + 4)

-- The bits of three bytes, which do not overlap.
abbrev pub group : ℕ → ℕ → ℕ → ℕ
group a b c = a * 2 ^ 16 + b * 2 ^ 8 + c

-- The variables of `base64_encode_buffer`: the bytes from `q` on, the buffer and `i`.
pub record Encoder : Type 0 where
  pub q : List ℕ
  pub dest : List ℕ
  pub i : ℕ

module _ (pos62 pos63 : ℕ) where
  -- The first loop; three bytes or more are left as long as `q < tail`.
  unfoldable pub encode_body : ℕ → List ℕ → List ℕ → ℕ → Option Encoder
  encode_body (suc counter) (a ∷ b ∷ c ∷ q) dest i = do
    let bits = group a b c
    dest ← write dest i (base64_char (bits / 2 ^ 18) pos62 pos63)
    dest ← write dest (i + 1) (base64_char (bits / 2 ^ 12) pos62 pos63)
    dest ← write dest (i + 2) (base64_char (bits / 2 ^ 6) pos62 pos63)
    dest ← write dest (i + 3) (base64_char bits pos62 pos63)
    encode_body counter q dest (i + 4)
  encode_body counter q dest i = some (record { q = q; dest = dest; i = i })

  -- The `if (q < tail)` behind it: the group that the buffer may have room for in part.
  unfoldable pub encode_next : List ℕ → List ℕ → ℕ → ℕ → Option Encoder
  encode_next (a ∷ b ∷ c ∷ q) dest i size = do
    let bits = group a b c
    (dest, i) ←
        put4 dest i size (base64_char (bits / 2 ^ 18) pos62 pos63)
          (base64_char (bits / 2 ^ 12) pos62 pos63) (base64_char (bits / 2 ^ 6) pos62 pos63)
          (base64_char bits pos62 pos63)
    some (record { q = q; dest = dest; i = i })
  encode_next q dest i size = some (record { q = q; dest = dest; i = i })

  -- The `switch`, on the `source_size % 3` bytes from the tail on.
  unfoldable pub encode_tail : List ℕ → List ℕ → ℕ → ℕ → Option (List ℕ × ℕ)
  encode_tail [] dest i size = some (dest, i)
  encode_tail (a ∷ []) dest i size =
      let bits = a * 2 ^ 16 in
      put4 dest i size (base64_char (bits / 2 ^ 18) pos62 pos63)
        (base64_char (bits / 2 ^ 12) pos62 pos63) 61 61
  encode_tail (a ∷ b ∷ q) dest i size =
      let bits = a * 2 ^ 16 + b * 2 ^ 8 in
      put4 dest i size (base64_char (bits / 2 ^ 18) pos62 pos63)
        (base64_char (bits / 2 ^ 12) pos62 pos63) (base64_char (bits / 2 ^ 6) pos62 pos63) 61

-- `'\0'` at the end.
unfoldable pub terminate : List ℕ → ℕ → ℕ → Option (List ℕ)
terminate dest i size =
    if ltb i size then write dest i 0 else if ltb 0 size then write dest (size - 1) 0 else some dest

abbrev pub default_char : ℕ → ℕ → ℕ
default_char pos standard = if pos == base64_default_char then standard else pos

-- The buffer, and the number that is returned.
unfoldable pub base64_encode_buffer : List ℕ → List ℕ → ℕ → ℕ → ℕ → Option (List ℕ × ℕ)
base64_encode_buffer source dest dest_size pos62 pos63 = do
  let c62 = default_char pos62 43
  let c63 = default_char pos63 47
  e ← encode_body c62 c63 (dest_size / 4) source dest 0
  e ← encode_next c62 c63 e.q e.dest e.i dest_size
  let to_tail = length e.q - length e.q % 3
  (dest, i) ← encode_tail c62 c63 (drop to_tail e.q) e.dest (e.i + to_tail / 3 * 4) dest_size
  dest ← terminate dest i dest_size
  some (dest, i)

-- The outer `none` is undefined behaviour, the inner one NULL. `fsalloc` gives a buffer of the size.
unfoldable pub base64_encode_simple : (ℕ → List ℕ) → List ℕ → Option (Option (List ℕ))
base64_encode_simple fsalloc buffer =
    let encoding_size = base64_encoding_size (length buffer) in
    if encoding_size == size_max
    then some none
    else (base64_encode_buffer buffer (fsalloc (encoding_size + 1)) (encoding_size + 1)
          base64_default_char base64_default_char
        >>= λ r. some (some (r.0)))
