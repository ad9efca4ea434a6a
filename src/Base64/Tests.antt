-- ===== src/Base64/Tests.antt =====
-- Runs of the Base64 functions.
use fsdyn.Prelude.{
  ℕ, true, false, ◌+◌, ◌*◌, ◌/◌, ◌^◌, ◌≡◌, refl, none, some, ltb, if◌then◌else◌, List, [], ◌∷◌,
  ◌++◌, length, take, replicate, length-replicate, arith,
}
use fsdyn.Prelude.Buffers.{write, over}
use fsdyn.Base64.{
  base64_char, put1, put4, encode_body, encode_next, encode_tail, terminate, base64_encode_buffer,
  base64_encoding_size, base64_encode_simple, size_max,
}
use fsdyn.Base64.Decoder.{
  get_bits, only_whitespace, good_termination, good_base64_tail, push, count_rest, fill, scan_rest,
  finish, decoded, eilseq, base64_decode_buffer, base64_decode_simple,
}
use fsdyn.Base64.Decoder.{Decoding}
use fsdyn.Base64.Decoder.Safe.{base64_decode_buffer-IsSafe}
use fsdyn.Base64.Decoder.RoundTrip.{base64_decode_buffer-encode}
use fsdyn.Base64.Decoder.SimpleRoundTrip.{base64_decode_simple-base64_encode_simple}
use fsdyn.Base64.Text.{encode, base64_encoding_size-exact}
use fsdyn.Base64.Encode.{base64_encode_buffer-encode}
use fsdyn.Base64.Simple.{base64_encode_simple-encode}

runs : Unit {0}
unfolding write base64_char put1 put4 encode_body encode_next encode_tail terminate
    base64_encode_buffer
runs = tt

short_buffer :
    base64_encode_buffer (77 ∷ 97 ∷ 110 ∷ 77 ∷ []) (9 ∷ 9 ∷ 9 ∷ 9 ∷ 9 ∷ 9 ∷ []) 6 255 255
    ≡ some (84 ∷ 87 ∷ 70 ∷ 117 ∷ 84 ∷ 0 ∷ [], 8)
unfolding runs
short_buffer = refl

abbrev two_bytes : List ℕ
two_bytes = 77 ∷ 97 ∷ []

base64_encode_simple-encode_example :
    base64_encode_simple (λ n. replicate n 0) two_bytes
    ≡ some (
        if ltb ((length two_bytes + 2) / 3 * 4) (2 ^ 64)
        then some (encode 43 47 two_bytes ++ 0 ∷ [])
        else none)
base64_encode_simple-encode_example =
    base64_encode_simple-encode (λ n. replicate n 0) two_bytes (λ n. length-replicate n 0)
      (omega arith)

base64_encode_buffer-encode_example :
    base64_encode_buffer (77 ∷ 97 ∷ []) (9 ∷ 9 ∷ 9 ∷ []) 3 255 95
    ≡ some (
      over (take 2 (encode 43 95 (77 ∷ 97 ∷ [])) ++ 0 ∷ []) (9 ∷ 9 ∷ 9 ∷ []),
      length (encode 43 95 (77 ∷ 97 ∷ [])),
    )
base64_encode_buffer-encode_example =
    base64_encode_buffer-encode 255 95 (77 ∷ 97 ∷ []) (9 ∷ 9 ∷ 9 ∷ [])

base64_encoding_size-exact_example :
    base64_encoding_size 4 ≡ (if ltb ((4 + 2) / 3 * 4) (2 ^ 64) then (4 + 2) / 3 * 4 else size_max)
base64_encoding_size-exact_example = base64_encoding_size-exact 4 (omega arith)

decode_runs : Unit {0}
unfolding runs get_bits only_whitespace good_termination good_base64_tail push count_rest fill
    scan_rest finish base64_decode_buffer
decode_runs = tt

-- White space is ignored if that is asked for; a last character with bits left over is illegal.
decode_whitespace :
    base64_decode_buffer (84 ∷ 10 ∷ 81 ∷ 61 ∷ 61 ∷ 32 ∷ []) (9 ∷ 9 ∷ []) 2 255 255 true
    ≡ some (77 ∷ 9 ∷ [], decoded 1)
unfolding decode_runs
decode_whitespace = refl

decode_illegal :
    base64_decode_buffer (84 ∷ 82 ∷ 61 ∷ 61 ∷ []) (9 ∷ 9 ∷ []) 2 255 255 true
    ≡ some (77 ∷ 9 ∷ [], eilseq)
unfolding decode_runs
decode_illegal = refl

base64_decode_buffer-encode_example :
    base64_decode_buffer (encode 43 47 two_bytes ++ []) (9 ∷ []) 1 255 255 false
    ≡ some (over (take 1 two_bytes) (9 ∷ []), decoded (length two_bytes))
base64_decode_buffer-encode_example =
    base64_decode_buffer-encode two_bytes [] (9 ∷ []) 1 false (omega arith, (omega arith, tt)) refl
      (omega arith) (omega arith)

base64_decode_simple-base64_encode_simple_example :
    (text : List ℕ) × (base64_encode_simple (λ n. replicate n 0) two_bytes ≡ some (some text))
    × (base64_decode_simple (λ n. replicate n 0) text
        ≡ some (some (two_bytes ++ 0 ∷ [], length two_bytes)))
base64_decode_simple-base64_encode_simple_example =
    base64_decode_simple-base64_encode_simple (λ n. replicate n 0) (λ n. length-replicate n 0)
      two_bytes (omega arith, (omega arith, tt)) (omega arith)

abbrev one_cell : List ℕ
one_cell = 9 ∷ []

base64_decode_buffer-IsSafe_example :
    (r : List ℕ × Decoding) × (base64_decode_buffer (84 ∷ 33 ∷ []) one_cell 1 45 95 false ≡ some r)
    × (length (r.0) ≡ length one_cell)
base64_decode_buffer-IsSafe_example =
    base64_decode_buffer-IsSafe (84 ∷ 33 ∷ []) one_cell 45 95 false
