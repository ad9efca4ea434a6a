-- ===== src/Charstr/Url/RoundTrip.antt =====
-- The URL encoders of src/charstr.c, and `charstr_url_decode` behind them.
use fsdyn.Prelude.{
  AllBytes, ℕ, ◌+◌, ◌*◌, ◌/◌, ◌%◌, ◌<◌, ◌≡◌, refl, sym, ap, subst, ◌∙◌, inl, inr, Bool-cases, Bool,
  true, false, not, ◌&&◌, ◌||◌, ◌==◌, ==_iff, if◌then◌else◌, List, [], ◌∷◌, ◌++◌, length, arith,
}
use fsdyn.Charstr.Compare.{IsText}
use fsdyn.Charstr.Classes.{is_hex, digit_of}
use fsdyn.Charstr.UrlTable.{single}
use fsdyn.Charstr.Url.{
  hex_digit, percent_byte, charstr_create_url_encoder, charstr_url_custom_encode, decoded,
  charstr_url_decode,
}
use fsdyn.Charstr.Url.Entries.{
  mem, entry_of, Shape, unreserved, encoded, space, plain, entry_of-Shape, plain-unmarked,
}
use fsdyn.Charstr.Url.Encode.{encode_of, charstr_url_custom_encode-fits}
use fsdyn.Charstr.Url.Decode.{plain_of, UrlDecodes, decode-UrlDecodes}
use fsdyn.Charstr.Utf8.Valid.{IsText-AllBytes}

-- The encoders whose texts can be decoded.
abbrev pub invertible : List ℕ → List ℕ → Bool → Bool
invertible reserve unreserve plus_is_space =
    not (mem b'%' unreserve)
    && (if plus_is_space then not (mem b'+' unreserve) else mem b' ' unreserve || mem b' ' reserve)

hex_digit-digit :
    (x : ℕ)
    → x < 16
    → (is_hex (hex_digit x) ≡ true)
      × (digit_of (hex_digit x) ≡ x)
      × (0 < hex_digit x)
      × (hex_digit x < 256)
hex_digit-digit x h = (ground arith, ground arith, ground arith, ground arith)

unlisted : (i c : ℕ) (p : List ℕ) → mem i p ≡ false → mem c p ≡ true → (c == i) ≡ false
unlisted i c p e f = elim (Bool-cases (c == i)) [
  | inl g ↦ let same = ap (λ j. mem j p) ((==_iff c i).0 g) in ground (arith, same)
  | inr g ↦ g
]

single-UrlDecodes :
    (plus_is_space : Bool) (c : ℕ) (s t : List ℕ)
    → (c == b'%') ≡ false
    → plain_of plus_is_space c ≡ c
    → UrlDecodes plus_is_space s t
    → UrlDecodes plus_is_space (single c ++ s) (c ∷ t)
single-UrlDecodes plus_is_space c s t e same r =
    subst (λ d. UrlDecodes plus_is_space (c ∷ s) (d ∷ t)) same (UrlDecodes.plain e r)

unreserved-plain :
    (reserve unreserve : List ℕ) (plus_is_space : Bool) (c : ℕ)
    → invertible reserve unreserve plus_is_space ≡ true
    → mem c unreserve ≡ true
    → plain_of plus_is_space c ≡ c
unreserved-plain reserve unreserve true c i e =
    let plus_free = unlisted b'+' c unreserve (ground (arith, i)) e in rw plus_free refl
unreserved-plain reserve unreserve false c i e = ground arith

space-plain :
    (reserve unreserve : List ℕ) (plus_is_space : Bool)
    → invertible reserve unreserve plus_is_space ≡ true
    → mem b' ' unreserve || mem b' ' reserve ≡ false
    → plain_of plus_is_space b'+' ≡ b' '
space-plain reserve unreserve true i f = refl
space-plain reserve unreserve false i f = ground (arith, i, f)

entry-UrlDecodes :
    (reserve unreserve : List ℕ) (plus_is_space : Bool) (c : ℕ) (entry s t : List ℕ)
    → invertible reserve unreserve plus_is_space ≡ true
    → c < 256
    → Shape reserve unreserve c entry
    → UrlDecodes plus_is_space s t
    → UrlDecodes plus_is_space (entry ++ s) (c ∷ t)
entry-UrlDecodes reserve unreserve plus_is_space c entry s t i h (unreserved e) r =
    single-UrlDecodes plus_is_space c s t (unlisted b'%' c unreserve (ground (arith, i)) e)
      (unreserved-plain reserve unreserve plus_is_space c i e) r
entry-UrlDecodes reserve unreserve plus_is_space c entry s t i h encoded r =
    let (x1, v1, p1, b1) = hex_digit-digit (c / 16) (omega arith) in
    let (x2, v2, p2, b2) = hex_digit-digit (c % 16) (omega arith) in
    let value : digit_of (hex_digit (c / 16)) * 16 + digit_of (hex_digit (c % 16)) ≡ c =
      omega (arith, v1, v2) in
    subst (λ d. UrlDecodes plus_is_space (percent_byte c ++ s) (d ∷ t)) value
      (UrlDecodes.escape x1 x2 r)
entry-UrlDecodes reserve unreserve plus_is_space c entry s t i h (space e f) r =
    let plus =
      space-plain reserve unreserve plus_is_space i
        (subst (λ j. mem j unreserve || mem j reserve ≡ false) e f) in
    subst (λ d. UrlDecodes plus_is_space (single b'+' ++ s) (d ∷ t)) (plus ∙ sym e)
      (UrlDecodes.plain refl r)
entry-UrlDecodes reserve unreserve plus_is_space c entry s t i h (plain e) r =
    let (percent_free, plus_free) = plain-unmarked c e in
    single-UrlDecodes plus_is_space c s t percent_free (rw plus_free refl) r

encode_of-UrlDecodes :
    (reserve unreserve : List ℕ) (plus_is_space : Bool) (s : List ℕ)
    → invertible reserve unreserve plus_is_space ≡ true
    → AllBytes s
    → UrlDecodes plus_is_space (encode_of reserve unreserve s) s
unfolding encode_of
encode_of-UrlDecodes reserve unreserve plus_is_space [] i h = UrlDecodes.done
encode_of-UrlDecodes reserve unreserve plus_is_space (c ∷ s) i h =
    entry-UrlDecodes reserve unreserve plus_is_space c (entry_of reserve unreserve c)
      (encode_of reserve unreserve s) s i h.0 (entry_of-Shape reserve unreserve c)
      (encode_of-UrlDecodes reserve unreserve plus_is_space s i h.1)

-- No NUL is written among the entries.
Shape-IsText :
    (reserve unreserve : List ℕ) (c : ℕ) (entry s : List ℕ)
    → 0 < c
    → c < 256
    → Shape reserve unreserve c entry
    → IsText s
    → IsText (entry ++ s)
Shape-IsText reserve unreserve c entry s pos h (unreserved e) r = (pos, h, r)
Shape-IsText reserve unreserve c entry s pos h encoded r =
    let (x1, v1, p1, b1) = hex_digit-digit (c / 16) (omega arith) in
    let (x2, v2, p2, b2) = hex_digit-digit (c % 16) (omega arith) in
    (omega arith, omega arith, (p1, b1, (p2, b2, r)))
Shape-IsText reserve unreserve c entry s pos h (space e f) r = (omega arith, omega arith, r)
Shape-IsText reserve unreserve c entry s pos h (plain e) r = (pos, h, r)

encode_of-IsText :
    (reserve unreserve s : List ℕ) → IsText s → IsText (encode_of reserve unreserve s)
unfolding encode_of
encode_of-IsText reserve unreserve [] h = tt
encode_of-IsText reserve unreserve (c ∷ s) (pos, byte, h) =
    Shape-IsText reserve unreserve c (entry_of reserve unreserve c) (encode_of reserve unreserve s)
      pos byte (entry_of-Shape reserve unreserve c) (encode_of-IsText reserve unreserve s h)

-- Encoding a C string gives a C string that `charstr_url_decode` decodes to the string, for the default
-- encoder and every other that does not leave the percent sign as it is, and in which the plus sign
-- stands for what `plus_is_space` says.
pub charstr_url_decode-charstr_url_custom_encode :
    (reserve unreserve s : List ℕ) (plus_is_space : Bool)
    → AllBytes reserve
    → AllBytes unreserve
    → IsText s
    → invertible reserve unreserve plus_is_space ≡ true
    → (e : List ℕ) × ((charstr_url_custom_encode (charstr_create_url_encoder reserve unreserve) s).1
        ≡ e ++ 0 ∷ [])
      × IsText e
      × (charstr_url_decode e plus_is_space
          ≡ decoded (length (s ++ 0 ∷ [])) (s ++ 0 ∷ []) (length s))
charstr_url_decode-charstr_url_custom_encode reserve unreserve s plus_is_space r u h i =
    let bytes = IsText-AllBytes s h in
    let text = encode_of-IsText reserve unreserve s h in
    (
      encode_of reserve unreserve s,
      (charstr_url_custom_encode-fits reserve unreserve s r u bytes).0,
      text,
      decode-UrlDecodes plus_is_space (encode_of reserve unreserve s) s
          (IsText-AllBytes (encode_of reserve unreserve s) text)
          (encode_of-UrlDecodes reserve unreserve plus_is_space s i bytes),
    )
