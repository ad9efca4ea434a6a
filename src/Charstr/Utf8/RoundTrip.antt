-- ===== src/Charstr/Utf8/RoundTrip.antt =====
-- `charstr_decode_utf8_codepoint` of src/charstr.c on what `charstr_encode_utf8_codepoint` writes.
use fsdyn.Prelude.{
  ℕ, zero, suc, ◌+◌, ◌*◌, ◌/◌, ◌%◌, ◌^◌, ◌≤◌, ◌<◌, ◌≡◌, refl, inl, inr, Bool-cases, some, ◌>>=◌,
  Bool, true, false, leb, ◌==◌, List, [], ◌∷◌, ◌++◌, length, take, ap, arith,
}
use fsdyn.Charstr.Utf8.{
  valid_unicode, continuation, last_continuation, charstr_decode_utf8_codepoint, byte_80,
  utf8_bytes, put_bytes, charstr_encode_utf8_codepoint,
}

-- The code points that are no surrogates: the scalar values of Unicode.
abbrev pub is_scalar : ℕ → Bool
is_scalar cp = valid_unicode cp 0

pub continuation-byte :
    (cp x : ℕ) (s : List ℕ) → continuation cp (byte_80 x ∷ s) ≡ some (cp * 2 ^ 6 + x % 2 ^ 6, s)
unfolding continuation
continuation-byte cp x s =
    let top : (byte_80 x / 2 ^ 6 % 4 == 2) ≡ true = ground arith in
    let low : byte_80 x % 2 ^ 6 ≡ x % 2 ^ 6 = omega arith in rw (top, low) refl

-- The last byte of a valid code point, over its other bits.
pub last_continuation-byte :
    (lowest cp : ℕ) (s : List ℕ)
    → valid_unicode cp lowest ≡ true
    → last_continuation lowest (cp / 2 ^ 6) (byte_80 cp ∷ s) ≡ some (cp, s)
unfolding last_continuation
last_continuation-byte lowest cp s v =
    let whole : cp / 2 ^ 6 * 2 ^ 6 + cp % 2 ^ 6 ≡ cp = omega arith in
    rw (continuation-byte (cp / 2 ^ 6) cp s, whole, v) refl

pub valid-above :
    (lowest cp : ℕ) → is_scalar cp ≡ true → lowest ≤ cp → valid_unicode cp lowest ≡ true
unfolding valid_unicode
valid-above lowest cp v h = ground arith

decode-one :
    (cp : ℕ) (s : List ℕ) → cp < 0x80 → charstr_decode_utf8_codepoint (cp ∷ s) ≡ some (cp, s)
unfolding charstr_decode_utf8_codepoint
decode-one cp s h =
    let top : (cp / 0x80 % 2 == 0) ≡ true = ground arith in
    let low : cp % 0x80 ≡ cp = omega arith in rw (top, low) refl

decode-two :
    (x cp : ℕ) (s : List ℕ)
    → x < 0x20
    → charstr_decode_utf8_codepoint ((0xc0 + x) ∷ byte_80 cp ∷ s)
      ≡ last_continuation 0x80 x (byte_80 cp ∷ s)
unfolding charstr_decode_utf8_codepoint
decode-two x cp s h =
    let b7 : ((0xc0 + x) / 0x80 % 2 == 0) ≡ false = ground arith in
    let b6 : ((0xc0 + x) / 0x40 % 2 == 0) ≡ false = ground arith in
    let b5 : ((0xc0 + x) / 0x20 % 2 == 0) ≡ true = ground arith in
    let low : (0xc0 + x) % 0x20 ≡ x = omega arith in rw (b7, b6, b5, low) refl

pub decode-three :
    (x : ℕ) (s : List ℕ)
    → x < 0x10
    → charstr_decode_utf8_codepoint ((0xe0 + x) ∷ s)
      ≡ (continuation x s >>= λ (cp, s). last_continuation 0x400 cp s)
unfolding charstr_decode_utf8_codepoint
decode-three x s h =
    let b7 : ((0xe0 + x) / 0x80 % 2 == 0) ≡ false = ground arith in
    let b6 : ((0xe0 + x) / 0x40 % 2 == 0) ≡ false = ground arith in
    let b5 : ((0xe0 + x) / 0x20 % 2 == 0) ≡ false = ground arith in
    let b4 : ((0xe0 + x) / 0x10 % 2 == 0) ≡ true = ground arith in
    let low : (0xe0 + x) % 0x10 ≡ x = omega arith in rw (b7, b6, b5, b4, low) refl

decode-four :
    (x : ℕ) (s : List ℕ)
    → x < 0x08
    → charstr_decode_utf8_codepoint ((0xf0 + x) ∷ s) ≡ (
        continuation x s >>= λ (cp, s).
        continuation cp s >>= λ (cp, s). last_continuation 0x10000 cp s)
unfolding charstr_decode_utf8_codepoint
decode-four x s h =
    let b7 : ((0xf0 + x) / 0x80 % 2 == 0) ≡ false = ground arith in
    let b6 : ((0xf0 + x) / 0x40 % 2 == 0) ≡ false = ground arith in
    let b5 : ((0xf0 + x) / 0x20 % 2 == 0) ≡ false = ground arith in
    let b4 : ((0xf0 + x) / 0x10 % 2 == 0) ≡ false = ground arith in
    let b3 : ((0xf0 + x) / 0x08 % 2 == 0) ≡ true = ground arith in
    let low : (0xf0 + x) % 0x08 ≡ x = omega arith in rw (b7, b6, b5, b4, b3, low) refl

pub scalar-limit : (cp : ℕ) → is_scalar cp ≡ true → cp < 0x110000
unfolding valid_unicode
scalar-limit cp v = ground arith

-- The four lengths of an encoding.
pub bytes-one : (cp : ℕ) → cp < 0x80 → utf8_bytes cp ≡ cp ∷ []
bytes-one cp h = let e : leb 0x80 cp ≡ false = ground arith in rw e refl

pub bytes-two :
    (cp : ℕ) → 0x80 ≤ cp → cp < 0x800 → utf8_bytes cp ≡ (0xc0 + cp / 2 ^ 6) ∷ byte_80 cp ∷ []
bytes-two cp lo hi =
    let e : leb 0x80 cp ≡ true = ground arith in
    let f : leb 0x800 cp ≡ false = ground arith in
    let top : cp / 2 ^ 6 % 2 ^ 6 ≡ cp / 2 ^ 6 = omega arith in rw (e, f, top) refl

pub bytes-three :
    (cp : ℕ)
    → 0x800 ≤ cp
    → cp < 0x10000
    → utf8_bytes cp ≡ (0xe0 + cp / 2 ^ 12) ∷ byte_80 (cp / 2 ^ 6) ∷ byte_80 cp ∷ []
bytes-three cp lo hi =
    let e : leb 0x80 cp ≡ true = ground arith in
    let f : leb 0x800 cp ≡ true = ground arith in
    let g : leb 0x10000 cp ≡ false = ground arith in
    let top : cp / 2 ^ 12 % 2 ^ 5 ≡ cp / 2 ^ 12 = omega arith in rw (e, f, g, top) refl

pub bytes-four :
    (cp : ℕ)
    → 0x10000 ≤ cp
    → cp < 0x110000
    → utf8_bytes cp
      ≡ (0xf0 + cp / 2 ^ 18) ∷ byte_80 (cp / 2 ^ 12) ∷ byte_80 (cp / 2 ^ 6) ∷ byte_80 cp ∷ []
bytes-four cp lo hi =
    let e : leb 0x80 cp ≡ true = ground arith in
    let f : leb 0x800 cp ≡ true = ground arith in
    let g : leb 0x10000 cp ≡ true = ground arith in
    let top : cp / 2 ^ 18 % 2 ^ 4 ≡ cp / 2 ^ 18 = omega arith in rw (e, f, g, top) refl

pub decode-utf8_bytes :
    (cp : ℕ) (s : List ℕ)
    → is_scalar cp ≡ true
    → charstr_decode_utf8_codepoint (utf8_bytes cp ++ s) ≡ some (cp, s)
decode-utf8_bytes cp s v = elim (Bool-cases (leb 0x80 cp)) [
  | inr e ↦ let small : cp < 0x80 = ground arith in rw (bytes-one cp small) (decode-one cp s small)
  | inl e ↦ elim (Bool-cases (leb 0x800 cp)) [
    | inr f ↦
        rw (bytes-two cp (ground arith) (ground arith), decode-two (cp / 2 ^ 6) cp s (ground arith))
          (last_continuation-byte 0x80 cp s (valid-above 0x80 cp v (ground arith)))
    | inl f ↦ elim (Bool-cases (leb 0x10000 cp)) [
      | inr g ↦
          let middle : cp / 2 ^ 12 * 2 ^ 6 + cp / 2 ^ 6 % 2 ^ 6 ≡ cp / 2 ^ 6 = omega arith in
          rw
            (
              bytes-three cp (ground arith) (ground arith),
              decode-three (cp / 2 ^ 12) (byte_80 (cp / 2 ^ 6) ∷ byte_80 cp ∷ s) (ground arith),
              continuation-byte (cp / 2 ^ 12) (cp / 2 ^ 6) (byte_80 cp ∷ s),
              middle,
            )
            (last_continuation-byte 0x400 cp s (valid-above 0x400 cp v (ground arith)))
      | inl g ↦
          let limit = scalar-limit cp v in
          let high : cp / 2 ^ 18 * 2 ^ 6 + cp / 2 ^ 12 % 2 ^ 6 ≡ cp / 2 ^ 12 = omega arith in
          let middle : cp / 2 ^ 12 * 2 ^ 6 + cp / 2 ^ 6 % 2 ^ 6 ≡ cp / 2 ^ 6 = omega arith in
          rw
            (
              bytes-four cp (ground arith) limit,
              decode-four (cp / 2 ^ 18)
                  (byte_80 (cp / 2 ^ 12) ∷ byte_80 (cp / 2 ^ 6) ∷ byte_80 cp ∷ s) (omega arith),
              continuation-byte (cp / 2 ^ 18) (cp / 2 ^ 12) (byte_80 (cp / 2 ^ 6) ∷ byte_80 cp ∷ s),
              high,
              continuation-byte (cp / 2 ^ 12) (cp / 2 ^ 6) (byte_80 cp ∷ s),
              middle,
            )
            (last_continuation-byte 0x10000 cp s (valid-above 0x10000 cp v (ground arith)))
    ]
  ]
]

put_bytes-take :
    (bytes : List ℕ) (room : ℕ)
    → 0 < length bytes
    → put_bytes bytes room ≡ (take room bytes, leb (length bytes) room)
unfolding put_bytes
put_bytes-take [] room h = absurd (omega arith)
put_bytes-take (b ∷ bytes) zero h = ap (λ done. ([], done)) (ground arith)
put_bytes-take (b ∷ []) (suc zero) h = refl
put_bytes-take (b ∷ []) (suc (suc room)) h = ap (λ done. (b ∷ [], done)) (ground arith)
put_bytes-take (b ∷ c ∷ bytes) (suc room) h =
    let same : leb (length (c ∷ bytes)) room ≡ leb (length (b ∷ c ∷ bytes)) (suc room) =
      ground arith in
    rw (put_bytes-take (c ∷ bytes) room (omega arith), same) refl

-- The bytes of a scalar value are written as far as there is room, and the result is not NULL exactly if
-- all are; decoding them gives the value and stops behind them.
pub decode-encode :
    (cp room : ℕ) (s : List ℕ)
    → is_scalar cp ≡ true
    → (charstr_encode_utf8_codepoint cp room
        ≡ (take room (utf8_bytes cp), leb (length (utf8_bytes cp)) room))
      × (charstr_decode_utf8_codepoint (utf8_bytes cp ++ s) ≡ some (cp, s))
unfolding charstr_encode_utf8_codepoint
decode-encode cp room s v =
    (put_bytes-take (utf8_bytes cp) room (ground arith), decode-utf8_bytes cp s v)
