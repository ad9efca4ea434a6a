-- ===== src/Base64/Decoder.antt =====
-- `base64_decode_buffer` and `base64_decode_simple` of src/base64.c, with the functions that they call.
pub mod Table
pub mod Loops
pub mod RoundTrip
pub mod SimpleRoundTrip
pub mod Safe
use fsdyn.Prelude.{
  ℕ, zero, suc, ◌+◌, ◌-◌, ◌*◌, ◌/◌, ◌%◌, ◌^◌, Option, none, some, ◌>>=◌, Bool, true, false, not,
  ◌&&◌, ◌||◌, ltb, leb, ◌==◌, if◌then◌else◌, List, [], ◌∷◌, get_or,
}
use fsdyn.Prelude.Int.{ℤ, pos, negsuc}
use fsdyn.Prelude.Buffers.{write}
use fsdyn.Base64.Decoder.Table.{base64_bitfield_decoding}
use fsdyn.Base64.{default_char, base64_default_char}

abbrev pub decoding : ℕ → ℤ
decoding c = get_or base64_bitfield_decoding c (negsuc 0)

-- The `switch` of `get_bits`.
abbrev pub get_other_bits : ℤ → Bool → ℤ
get_other_bits (pos n) ignore_wsp = if n == 62 || n == 63 then negsuc 0 else pos n
get_other_bits (negsuc (suc zero)) ignore_wsp = if ignore_wsp then negsuc 1 else negsuc 0
get_other_bits (negsuc n) ignore_wsp = negsuc n

unfoldable pub get_bits : ℕ → ℕ → ℕ → Bool → ℤ
get_bits c pos62 pos63 ignore_wsp =
    if c == pos62
    then pos 62
    else if c == pos63
    then pos 63
    else get_other_bits (decoding c) ignore_wsp

-- The loop of `good_termination`, which ignores white space.
unfoldable pub only_whitespace : List ℕ → Bool
only_whitespace [] = true
only_whitespace (c ∷ remainder) = elim (decoding c) [
  | negsuc (suc zero) ↦ only_whitespace remainder
  | _ ↦ c == 0
]

abbrev pub is_at_end : List ℕ → Bool
is_at_end [] = true
is_at_end (c ∷ remainder) = c == 0

unfoldable pub good_termination : List ℕ → Bool → Bool
good_termination remainder ignore_wsp =
    if ignore_wsp then only_whitespace remainder else is_at_end remainder

-- The padding stands at the beginning of the tail.
abbrev pub padded_once : List ℕ → Bool → Bool
padded_once [] ignore_wsp = false
padded_once (c ∷ remainder) ignore_wsp = (c == 61) && good_termination remainder ignore_wsp

abbrev pub padded_twice : List ℕ → Bool → Bool
padded_twice [] ignore_wsp = false
padded_twice (c ∷ remainder) ignore_wsp = (c == 61) && padded_once remainder ignore_wsp

-- `none` is the failed assertion.
unfoldable pub good_base64_tail : List ℕ → ℕ → Bool → Option Bool
good_base64_tail tail bit_count ignore_wsp =
    if bit_count == 0
    then some (good_termination tail ignore_wsp)
    else if bit_count == 6
    then some false
    else if bit_count == 4
    then some (padded_twice tail ignore_wsp)
    else if bit_count == 2
    then some (padded_once tail ignore_wsp)
    else none

-- The buffer, and the variables of `base64_decode_buffer`.
pub record Decoder : Type 0 where
  pub dest : List ℕ
  pub pi : ℕ
  pub bits : ℕ
  pub bit_count : ℕ

-- A loop meets an illegal character, or stops at the beginning of `source`.
pub data Scan : Type 0 where
  illegal : Decoder → Scan
  stopped : List ℕ → Decoder → Scan

-- The six new bits in a 32-bit `unsigned`; a byte is put to the buffer if `is_kept`.
unfoldable pub push : Bool → Decoder → ℕ → Option Decoder
push is_kept s new_bits =
    let bits = s.bits * 2 ^ 6 % 2 ^ 32 + new_bits in
    let bit_count = s.bit_count + 6 in
    if leb 8 bit_count
    then ((if is_kept
          then write s.dest s.pi (bits / 2 ^ (bit_count - 8) % 2 ^ 8)
          else some (s.dest))
        >>= λ dest.
            some (record { dest = dest; pi = s.pi + 1; bits = bits; bit_count = bit_count - 8 }))
    else some (record s { bits = bits; bit_count = bit_count })

module _ (pos62 pos63 : ℕ) (ignore_wsp : Bool) where
  -- The second loop, which only counts.
  unfoldable pub count_rest : List ℕ → Decoder → Option Scan
  count_rest [] s = some (stopped [] s)
  count_rest (c ∷ source) s = elim (c == 0 || c == 61) [
    | true ↦ some (stopped (c ∷ source) s)
    | false ↦ elim (get_bits c pos62 pos63 ignore_wsp) [
      | pos new_bits ↦ push false s new_bits >>= λ t. count_rest source t
      | negsuc (suc zero) ↦ count_rest source s
      | negsuc _ ↦ some (illegal s)
    ]
  ]

  -- The first loop, while the buffer of `size` bytes is not full.
  unfoldable pub fill : List ℕ → ℕ → Decoder → Option Scan
  fill [] size s = some (stopped [] s)
  fill (c ∷ source) size s = elim (not (ltb s.pi size) || c == 0 || c == 61) [
    | true ↦ some (stopped (c ∷ source) s)
    | false ↦ elim (get_bits c pos62 pos63 ignore_wsp) [
      | pos new_bits ↦ push true s new_bits >>= λ t. fill source size t
      | negsuc (suc zero) ↦ fill source size s
      | negsuc _ ↦ some (illegal s)
    ]
  ]

  unfoldable pub scan_rest : Scan → Option Scan
  scan_rest (illegal s) = some (illegal s)
  scan_rest (stopped source s) = count_rest source s

-- `errno`, or the number of bytes.
pub data Decoding : Type 0 where
  eilseq : Decoding
  eoverflow : Decoding
  decoded : ℕ → Decoding

-- The part behind the loops: the buffer, and what is returned. The mask has the low bits.
unfoldable pub finish : Bool → Scan → Option (List ℕ × Decoding)
finish ignore_wsp (illegal s) = some (s.dest, eilseq)
finish ignore_wsp (stopped tail s) = do
  good ← good_base64_tail tail s.bit_count ignore_wsp
  let result =
      if not (s.bits % 2 ^ s.bit_count == 0) || not good
      then eilseq
      else if leb (2 ^ 63) s.pi
      then eoverflow
      else decoded s.pi
  some (s.dest, result)

unfoldable pub base64_decode_buffer :
    List ℕ → List ℕ → ℕ → ℕ → ℕ → Bool → Option (List ℕ × Decoding)
base64_decode_buffer source dest dest_size pos62 pos63 ignore_wsp = do
  let c62 = default_char pos62 43
  let c63 = default_char pos63 47
  filled ←
      fill c62 c63 ignore_wsp source dest_size
        (record { dest = dest; pi = 0; bits = 0; bit_count = 0 })
  counted ← scan_rest c62 c63 ignore_wsp filled
  finish ignore_wsp counted

-- The text ends with a NUL; the result is the buffer and `*binary_size`, or NULL.
unfoldable pub base64_decode_simple : (ℕ → List ℕ) → List ℕ → Option (Option (List ℕ × ℕ))
base64_decode_simple fsalloc encoding = do
  (no_buffer, count) ←
      base64_decode_buffer encoding [] 0 base64_default_char base64_default_char true
  elim count [
    | decoded n ↦ do
      (result, again) ←
          base64_decode_buffer encoding (fsalloc (n + 1)) n base64_default_char base64_default_char
            true
      result ← write result n 0
      some (some (result, n))
    | _ ↦ some none
  ]
