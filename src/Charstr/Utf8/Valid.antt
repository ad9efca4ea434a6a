-- ===== src/Charstr/Utf8/Valid.antt =====
-- `charstr_valid_utf8_bounded` of src/charstr.c, against the texts that the
-- decoder accepts.
use fsdyn.Prelude.{
  AllBytes, ℕ, ◌+◌, ◌*◌, ◌/◌, ◌%◌, ◌^◌, ◌≤◌, ◌<◌, ◌≡◌, refl, sym, subst, ap, ◌∙◌, inl, inr, none,
  some, true, List, [], ◌∷◌, ◌++◌, length, arith,
}
use mathlib.Core.Option.{some-injective}
use fsdyn.Charstr.Compare.{IsText}
use fsdyn.Charstr.Utf8.{Decoded, charstr_decode_utf8_codepoint, byte_80, utf8_bytes}
use fsdyn.Charstr.Utf8.RoundTrip.{
  is_scalar, decode-utf8_bytes, decode-three, continuation-byte, last_continuation-byte,
  valid-above,
}
use fsdyn.Charstr.Utf8.Sound.{Encodes, overlong, decode-Encodes, none-ne-some}

-- Texts made of what the decoder accepts: the encodings of UTF-8, and three bytes for a code point from
-- 0x400 to 0x7ff.
pub data IsAccepted : List ℕ → Type 0 where
  nil : IsAccepted []
  cons : {s : List ℕ} {cp : ℕ} {rest : List ℕ} → Encodes s cp rest → IsAccepted rest → IsAccepted s

pub overlong-decode :
    (cp : ℕ) (s : List ℕ)
    → is_scalar cp ≡ true
    → 0x400 ≤ cp
    → cp < 0x800
    → charstr_decode_utf8_codepoint (overlong cp ++ s) ≡ some (cp, s)
overlong-decode cp s v lo hi =
    let middle : cp / 2 ^ 12 * 2 ^ 6 + cp / 2 ^ 6 % 2 ^ 6 ≡ cp / 2 ^ 6 = omega arith in
    rw
      (
        decode-three (cp / 2 ^ 12) (byte_80 (cp / 2 ^ 6) ∷ byte_80 cp ∷ s) (omega arith),
        continuation-byte (cp / 2 ^ 12) (cp / 2 ^ 6) (byte_80 cp ∷ s),
        middle,
      )
      (last_continuation-byte 0x400 cp s (valid-above 0x400 cp v lo))

-- An encoding is decoded.
pub Encodes-decode :
    (s : List ℕ) (cp : ℕ) (rest : List ℕ)
    → Encodes s cp rest
    → charstr_decode_utf8_codepoint s ≡ some (cp, rest)
Encodes-decode s cp rest (v, inl e) = rw e (decode-utf8_bytes cp rest v)
Encodes-decode s cp rest (v, inr (lo, hi, e)) = rw e (overlong-decode cp rest v lo hi)

pub utf8_bytes-pos : (cp : ℕ) → 0 < length (utf8_bytes cp)
utf8_bytes-pos cp = ground arith

-- An encoding takes a byte or more.
pub Encodes-bytes :
    (s : List ℕ) (cp : ℕ) (rest : List ℕ)
    → Encodes s cp rest
    → (bytes : List ℕ) × (s ≡ bytes ++ rest)
      × (0 < length bytes)
      × ((q : List ℕ) → Encodes (bytes ++ q) cp q)
Encodes-bytes s cp rest (v, inl e) = (utf8_bytes cp, e, utf8_bytes-pos cp, λ q. (v, inl refl))
Encodes-bytes s cp rest (v, inr (lo, hi, e)) =
    (overlong cp, e, omega arith, λ q. (v, inr (lo, hi, refl)))

pub AllBytes-append : (xs ys : List ℕ) → AllBytes (xs ++ ys) → AllBytes xs × AllBytes ys
AllBytes-append [] ys h = (tt, h)
AllBytes-append (x ∷ xs) ys h = let (a, b) = AllBytes-append xs ys h.1 in ((h.0, a), b)

-- What decoding a text of bytes gives.
pub data Decodes : List ℕ → Decoded → Type 0 where
  bad : {s : List ℕ} → Decodes s none
  good :
      {s : List ℕ} {cp : ℕ} {rest : List ℕ} (bytes : List ℕ)
      → s ≡ bytes ++ rest
      → 0 < length bytes
      → ((q : List ℕ) → Encodes (bytes ++ q) cp q)
      → Encodes s cp rest
      → Decodes s (some (cp, rest))

pub decode-Decodes :
    (s : List ℕ) (o : Decoded) → AllBytes s → charstr_decode_utf8_codepoint s ≡ o → Decodes s o
decode-Decodes s none h e = bad
decode-Decodes s (some (cp, rest)) h e =
    let enc = decode-Encodes s cp rest h e in
    let (bytes, split, pos, alone) = Encodes-bytes s cp rest enc in good bytes split pos alone enc

-- The text behind the first encoding.
pub IsAccepted-rest :
    (s : List ℕ) (cp : ℕ) (rest : List ℕ)
    → IsAccepted s
    → 0 < length s
    → charstr_decode_utf8_codepoint s ≡ some (cp, rest)
    → IsAccepted rest
IsAccepted-rest s cp rest nil h e = absurd (omega arith)
IsAccepted-rest s cp rest (cons {cp = cp'} {rest = rest'} enc u) h e =
    let same : ◌≡◌ {A = ℕ × List ℕ} (cp', rest') (cp, rest) =
      some-injective _ _ (sym (Encodes-decode s cp' rest' enc) ∙ e) in
    subst IsAccepted (ap (λ p. p.1) same) u

pub IsAccepted-ne_none :
    (s : List ℕ) {B : Type 0}
    → IsAccepted s
    → 0 < length s
    → charstr_decode_utf8_codepoint s ≡ none
    → B
IsAccepted-ne_none s nil h e = absurd (omega arith)
IsAccepted-ne_none s (cons {cp = cp} {rest = rest} enc u) h e =
    none-ne-some (cp, rest) (sym e ∙ Encodes-decode s cp rest enc)

pub IsText-AllBytes : (s : List ℕ) → IsText s → AllBytes s
IsText-AllBytes [] h = tt
IsText-AllBytes (c ∷ s) (pos, byte, h) = (byte, IsText-AllBytes s h)

pub IsText-append : (xs ys : List ℕ) → IsText (xs ++ ys) → IsText xs × IsText ys
IsText-append [] ys h = (tt, h)
IsText-append (x ∷ xs) ys (pos, byte, h) = let (a, b) = IsText-append xs ys h in ((pos, byte, a), b)
