-- ===== src/Charstr/Url.antt =====
-- The URL coding of src/charstr.c. A string is the list of its characters without the NUL that ends it.
-- What is allocated is written as its size; that fsalloc gives the block is taken for granted.
pub mod Entries
pub mod Encode
pub mod Decode
pub mod RoundTrip
mod Tests
use fsdyn.Prelude.{
  ℕ, zero, suc, ◌+◌, ◌-◌, ◌*◌, ◌/◌, ◌%◌, ◌^◌, Option, none, some, ◌>>=◌, Bool, true, false, ltb,
  ◌&&◌, ◌==◌, if◌then◌else◌, List, [], ◌∷◌, ◌++◌, get_or, set,
}
use fsdyn.Charstr.{has, charstr_char_class, charstr_digit_value}
use fsdyn.Charstr.ClassTable.{charstr_hex}
use fsdyn.Charstr.UrlTable.{url_encoder, percent, single}

-- `struct charstr_url_encoder`: its table.
abbrev pub UrlEncoder : Type 0
UrlEncoder = List (List ℕ)

-- A digit of `%02X`.
abbrev pub hex_digit : ℕ → ℕ
hex_digit d = if ltb d 10 then b'0' + d else d - 10 + b'A'

-- `snprintf` with "%%%02X"
abbrev pub percent_byte : ℕ → List ℕ
percent_byte i = percent (hex_digit (i / 16)) (hex_digit (i % 16))

-- The two loops of `charstr_create_url_encoder`.
unfoldable pub add_reserve : UrlEncoder → List ℕ → UrlEncoder
add_reserve table [] = table
add_reserve table (i ∷ p) = add_reserve (set table i (percent_byte i)) p

unfoldable pub add_unreserve : UrlEncoder → List ℕ → UrlEncoder
add_unreserve table [] = table
add_unreserve table (i ∷ p) = add_unreserve (set table i (single i)) p

unfoldable pub charstr_create_url_encoder : List ℕ → List ℕ → UrlEncoder
charstr_create_url_encoder reserve unreserve =
    add_unreserve (add_reserve url_encoder reserve) unreserve

abbrev pub charstr_url_custom_encode_byte : UrlEncoder → ℕ → List ℕ
charstr_url_custom_encode_byte encoder byte = get_or encoder byte []

abbrev pub charstr_url_encode_byte : ℕ → List ℕ
charstr_url_encode_byte byte = charstr_url_custom_encode_byte url_encoder byte

-- The test of the first character of an entry; an empty one begins with its NUL.
abbrev pub entry_width : List ℕ → ℕ
entry_width [] = 1
entry_width (c ∷ entry) = if c == b'%' then 3 else 1

abbrev pub url_encoding_width : UrlEncoder → ℕ → ℕ
url_encoding_width encoder byte = entry_width (charstr_url_custom_encode_byte encoder byte)

-- The loop that counts, and the loop that writes.
unfoldable pub encoding_length : UrlEncoder → List ℕ → ℕ
encoding_length encoder [] = 0
encoding_length encoder (c ∷ sp) = url_encoding_width encoder c + encoding_length encoder sp

unfoldable pub write_encoding : UrlEncoder → List ℕ → List ℕ
write_encoding encoder [] = []
write_encoding encoder (c ∷ sp) =
    charstr_url_custom_encode_byte encoder c ++ write_encoding encoder sp

-- The size that is allocated, and what is written.
unfoldable pub charstr_url_custom_encode : UrlEncoder → List ℕ → ℕ × List ℕ
charstr_url_custom_encode encoder string =
    (encoding_length encoder string + 1, write_encoding encoder string ++ 0 ∷ [])

abbrev pub charstr_url_encode : List ℕ → ℕ × List ℕ
charstr_url_encode string = charstr_url_custom_encode url_encoder string

abbrev pub is_hex_char : ℕ → Bool
is_hex_char c = has (charstr_char_class c) charstr_hex

-- The loop of `charstr_url_decode` that counts; `none` is NULL with EILSEQ. The NUL behind the text is
-- no hexadecimal digit.
unfoldable pub decoding_length : List ℕ → Option ℕ
decoding_length [] = some 0
decoding_length (c ∷ []) = if c == b'%' then none else some 1
decoding_length (c ∷ d ∷ []) =
    let rest = decoding_length (d ∷ []) in
    if c == b'%' then none else (rest >>= λ length. some (length + 1))
decoding_length (c ∷ d ∷ e ∷ ep) =
    let plain = decoding_length (d ∷ e ∷ ep) in
    let behind = decoding_length ep in
    if c == b'%'
    then if is_hex_char d && is_hex_char e then (behind >>= λ length. some (length + 1)) else none
    else (plain >>= λ length. some (length + 1))

-- What the `char` holds behind the two assignments.
abbrev pub hex_pair : ℕ → ℕ → ℕ
hex_pair d e = (charstr_digit_value d * 16 % 2 ^ 8 + charstr_digit_value e) % 2 ^ 8

-- The loop that writes; `none` is a read behind the NUL.
unfoldable pub write_decoding : Bool → List ℕ → Option (List ℕ)
write_decoding plus_is_space [] = some []
write_decoding plus_is_space (c ∷ []) =
    if c == b'+'
    then some ((if plus_is_space then b' ' else b'+') ∷ [])
    else if c == b'%'
    then none
    else some (c ∷ [])
write_decoding plus_is_space (c ∷ d ∷ []) =
    let rest = write_decoding plus_is_space (d ∷ []) in
    if c == b'+'
    then (rest >>= λ dp. some ((if plus_is_space then b' ' else b'+') ∷ dp))
    else if c == b'%'
    then none
    else (rest >>= λ dp. some (c ∷ dp))
write_decoding plus_is_space (c ∷ d ∷ e ∷ ep) =
    let rest = write_decoding plus_is_space (d ∷ e ∷ ep) in
    let behind = write_decoding plus_is_space ep in
    if c == b'+'
    then (rest >>= λ dp. some ((if plus_is_space then b' ' else b'+') ∷ dp))
    else if c == b'%'
    then (behind >>= λ dp. some (hex_pair d e ∷ dp))
    else (rest >>= λ dp. some (c ∷ dp))

-- What a call of `charstr_url_decode` gives: NULL with EILSEQ, or the block and `*size`, with the size
-- that is allocated. `overrun` is a read behind the NUL, which has no meaning in C.
pub data UrlDecoding : Type 0 where
  illegal overrun : UrlDecoding
  decoded : (allocated : ℕ) (bytes : List ℕ) (size : ℕ) → UrlDecoding

unfoldable pub charstr_url_decode : List ℕ → Bool → UrlDecoding
charstr_url_decode encoding plus_is_space = elim (decoding_length encoding) [
  | none ↦ illegal
  | some length ↦ elim (write_decoding plus_is_space encoding) [
    | none ↦ overrun
    | some bytes ↦ decoded (length + 1) (bytes ++ 0 ∷ []) length
  ]
]
