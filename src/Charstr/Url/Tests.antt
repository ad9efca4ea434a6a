-- ===== src/Charstr/Url/Tests.antt =====
-- Runs of the URL functions, and the theorems at concrete inputs.
use fsdyn.Prelude.{ℕ, ◌≤◌, ◌≡◌, refl, ◌⊎◌, true, false, List, [], ◌∷◌, ◌++◌, length, arith}
use fsdyn.Charstr.{charstr_digit_value}
use fsdyn.Charstr.Compare.{IsText}
use fsdyn.Charstr.Url.{
  add_reserve, add_unreserve, charstr_create_url_encoder, charstr_url_custom_encode_byte,
  encoding_length, write_encoding, charstr_url_custom_encode, charstr_url_encode, decoding_length,
  write_decoding, illegal, decoded, charstr_url_decode,
}
use fsdyn.Charstr.Url.Entries.{mem, entry_of, charstr_create_url_encoder-entry}
use fsdyn.Charstr.Url.Encode.{encode_of, charstr_url_custom_encode-fits}
use fsdyn.Charstr.Url.Decode.{UrlDecodes, charstr_url_decode-Settles}
use fsdyn.Charstr.Url.RoundTrip.{charstr_url_decode-charstr_url_custom_encode}

runs : Unit {0}
unfolding add_reserve add_unreserve charstr_create_url_encoder encoding_length write_encoding
    charstr_url_custom_encode decoding_length write_decoding charstr_url_decode charstr_digit_value
runs = tt

-- "a b/%"
abbrev query : List ℕ
query = b'a' ∷ b' ' ∷ b'b' ∷ b'/' ∷ b'%' ∷ []

abbrev slash : List ℕ
slash = b'/' ∷ []

encodes_query :
    charstr_url_encode query ≡ (8, b'a' ∷ b'+' ∷ b'b' ∷ b'/' ∷ b'%' ∷ b'2' ∷ b'5' ∷ 0 ∷ [])
unfolding runs
encodes_query = refl

decodes_escape :
    charstr_url_decode (b'%' ∷ b'4' ∷ b'1' ∷ b'+' ∷ []) true ≡ decoded 3 (b'A' ∷ b' ' ∷ 0 ∷ []) 2
unfolding runs
decodes_escape = refl

refuses_short : charstr_url_decode (b'%' ∷ b'4' ∷ []) false ≡ illegal
unfolding runs
refuses_short = refl

charstr_create_url_encoder-entry_example :
    charstr_url_custom_encode_byte (charstr_create_url_encoder slash query) b'/'
    ≡ entry_of slash query b'/'
charstr_create_url_encoder-entry_example =
    charstr_create_url_encoder-entry slash query b'/' (ground arith) (ground arith) (omega arith)

charstr_url_custom_encode-fits_example :
    let (allocated, text) =
      charstr_url_custom_encode (charstr_create_url_encoder slash query) query in
    (text ≡ encode_of slash query query ++ 0 ∷ [])
    × (length text ≤ allocated)
    × ((mem b'%' query ≡ true) ⊎ (length text ≡ allocated))
charstr_url_custom_encode-fits_example =
    charstr_url_custom_encode-fits slash query query (ground arith) (ground arith) (ground arith)

charstr_url_decode-Settles_example :
    (charstr_url_decode query true ≡ illegal) × ((t : List ℕ) → ¬ UrlDecodes true query t)
    ⊎ (t : List ℕ) × UrlDecodes true query t
      × (charstr_url_decode query true ≡ decoded (length (t ++ 0 ∷ [])) (t ++ 0 ∷ []) (length t))
charstr_url_decode-Settles_example = charstr_url_decode-Settles query true (ground arith)

charstr_url_decode-charstr_url_custom_encode_example :
    (e : List ℕ) × ((charstr_url_custom_encode (charstr_create_url_encoder slash []) query).1
      ≡ e ++ 0 ∷ [])
    × IsText e
    × (charstr_url_decode e true
        ≡ decoded (length (query ++ 0 ∷ [])) (query ++ 0 ∷ []) (length query))
charstr_url_decode-charstr_url_custom_encode_example =
    charstr_url_decode-charstr_url_custom_encode slash [] query true (ground arith) tt
      (ground arith) refl
