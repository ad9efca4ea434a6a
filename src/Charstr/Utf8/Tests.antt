-- ===== src/Charstr/Utf8/Tests.antt =====
-- Runs of the UTF-8 functions, and the theorems at concrete inputs.
use fsdyn.Prelude.{
  ◌⊎◌, ℕ, ◌≡◌, refl, ◌↔◌, some, Bool, true, leb, List, [], ◌∷◌, ◌++◌, length, take, arith,
}
use fsdyn.Charstr.Utf8.{
  valid_unicode, continuation, last_continuation, charstr_decode_utf8_codepoint, valid_bounded,
  charstr_valid_utf8_bounded, valid_terminated, charstr_valid_utf8, count_bad, write_sane,
  charstr_sanitize_utf8, put_bytes, utf8_bytes, charstr_encode_utf8_codepoint,
}
use fsdyn.Charstr.Utf8.RoundTrip.{decode-encode}
use fsdyn.Charstr.Utf8.Sound.{Encodes, decode-Encodes}
use fsdyn.Charstr.Utf8.Terminated.{charstr_valid_utf8-bounded}
use fsdyn.Charstr.Utf8.Valid.{IsAccepted}
use fsdyn.Charstr.Utf8.Verdict.{Judged, Verdict, charstr_valid_utf8_bounded-Answers}
use fsdyn.Charstr.Utf8.Copying.{Sanitizes}
use fsdyn.Charstr.Utf8.Sanitize.{charstr_sanitize_utf8-Sanitizes}

runs : Unit {0}
unfolding valid_unicode continuation last_continuation charstr_decode_utf8_codepoint valid_bounded
    charstr_valid_utf8_bounded valid_terminated charstr_valid_utf8 count_bad write_sane
    charstr_sanitize_utf8 put_bytes charstr_encode_utf8_codepoint
runs = tt

-- The euro sign.
abbrev euro : List ℕ
euro = 0xe2 ∷ 0x82 ∷ 0xac ∷ []

-- A lone continuation byte between letters.
abbrev broken : List ℕ
broken = b'a' ∷ 0x82 ∷ b'b' ∷ []

encodes_euro : charstr_encode_utf8_codepoint 0x20ac 4 ≡ (euro, true)
unfolding runs
encodes_euro = refl

-- Three bytes for 0x400, which has an encoding of two.
decodes_overlong : charstr_decode_utf8_codepoint (0xe0 ∷ 0x90 ∷ 0x80 ∷ []) ≡ some (0x400, [])
unfolding runs
decodes_overlong = refl

-- It passes for UTF-8, and is copied.
passes_overlong : charstr_valid_utf8_bounded (0xe0 ∷ 0x90 ∷ 0x80 ∷ []) ≡ some true
unfolding runs
passes_overlong = refl

copies_overlong :
    charstr_sanitize_utf8 (0xe0 ∷ 0x90 ∷ 0x80 ∷ 0 ∷ []) ≡ some (4, 0xe0 ∷ 0x90 ∷ 0x80 ∷ 0 ∷ [])
unfolding runs
copies_overlong = refl

sanitizes_broken :
    charstr_sanitize_utf8 (broken ++ 0 ∷ []) ≡ some (6, b'a' ∷ 0xef ∷ 0xbf ∷ 0xbd ∷ b'b' ∷ 0 ∷ [])
unfolding runs
sanitizes_broken = refl

decode-encode_example :
    (charstr_encode_utf8_codepoint 0x20ac 2
      ≡ (take 2 (utf8_bytes 0x20ac), leb (length (utf8_bytes 0x20ac)) 2))
    × (charstr_decode_utf8_codepoint (utf8_bytes 0x20ac ++ broken) ≡ some (0x20ac, broken))
unfolding runs
decode-encode_example = decode-encode 0x20ac 2 broken refl

decode-Encodes_example : Encodes (0xe0 ∷ 0x90 ∷ 0x80 ∷ []) 0x400 []
unfolding runs
decode-Encodes_example = decode-Encodes (0xe0 ∷ 0x90 ∷ 0x80 ∷ []) 0x400 [] (ground arith) refl

charstr_valid_utf8_bounded-Answers_example :
    (b : Bool) × (charstr_valid_utf8_bounded (0xe0 ∷ 0x90 ∷ 0x80 ∷ []) ≡ some b)
    × ((b ≡ true) ↔ IsAccepted (0xe0 ∷ 0x90 ∷ 0x80 ∷ []))
    × Verdict b (0xe0 ∷ 0x90 ∷ 0x80 ∷ [])
charstr_valid_utf8_bounded-Answers_example =
    charstr_valid_utf8_bounded-Answers (0xe0 ∷ 0x90 ∷ 0x80 ∷ []) (ground arith)

charstr_valid_utf8-bounded_example :
    charstr_valid_utf8 (euro ++ 0 ∷ broken) ≡ charstr_valid_utf8_bounded euro
charstr_valid_utf8-bounded_example = charstr_valid_utf8-bounded euro broken (ground arith)

charstr_sanitize_utf8-Sanitizes_example :
    (q : List ℕ) × (charstr_sanitize_utf8 (broken ++ 0 ∷ [])
      ≡ some (length (q ++ 0 ∷ []), q ++ 0 ∷ []))
    × Sanitizes broken q
    × IsAccepted q
    × ((q ≡ broken) ⊎ (¬ IsAccepted broken))
    × Judged q broken
charstr_sanitize_utf8-Sanitizes_example = charstr_sanitize_utf8-Sanitizes broken [] (ground arith)
