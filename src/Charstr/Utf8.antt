-- ===== src/Charstr/Utf8.antt =====
-- The UTF-8 functions of src/charstr.c. A text is the list of the bytes from `s` to `end`; for a text
-- that only a NUL ends, `end` being NULL, the list has the NUL, which no continuation byte equals, so
-- that `s == end` is not met there either. A bit test of a byte is written by division.
pub mod RoundTrip
pub mod Sound
pub mod Valid
pub mod Verdict
pub mod Copying
pub mod Terminated
pub mod Sanitize
mod Tests
use fsdyn.Prelude.{
  ℕ, zero, suc, ◌+◌, ◌-◌, ◌*◌, ◌/◌, ◌%◌, ◌^◌, Option, none, some, ◌>>=◌, Bool, true, false, not,
  ◌&&◌, ◌||◌, leb, ◌==◌, if◌then◌else◌, List, [], ◌∷◌, ◌++◌, length, take,
}

unfoldable pub valid_unicode : ℕ → ℕ → Bool
valid_unicode codepoint lowest =
    leb lowest codepoint && (leb codepoint 0xd7ff || leb 0xe000 codepoint && leb codepoint 0x10ffff)

-- The code point so far, and the text behind.
abbrev pub Decoded : Type 0
Decoded = Option (ℕ × List ℕ)

-- A continuation byte: `s == end`, `(*s & 0xc0) != 0x80`, and `cp << 6 | *s++ & 0x3f`.
unfoldable pub continuation : ℕ → List ℕ → Decoded
continuation cp [] = none
continuation cp (c ∷ s) = if c / 2 ^ 6 % 4 == 2 then some (cp * 2 ^ 6 + c % 2 ^ 6, s) else none

-- The last continuation byte, and the check of the code point.
unfoldable pub last_continuation : ℕ → ℕ → List ℕ → Decoded
last_continuation lowest cp s = do
  (cp, s) ← continuation cp s
  if valid_unicode cp lowest then some (cp, s) else none

unfoldable pub charstr_decode_utf8_codepoint : List ℕ → Decoded
charstr_decode_utf8_codepoint [] = none
charstr_decode_utf8_codepoint (c ∷ s) =
    if c / 0x80 % 2 == 0
    then some (c % 0x80, s)
    else if c / 0x40 % 2 == 0
    then none
    else if c / 0x20 % 2 == 0
    then last_continuation 0x80 (c % 0x20) s
    else if c / 0x10 % 2 == 0
    then (continuation (c % 0x10) s >>= λ (cp, s). last_continuation 0x400 cp s)
    else if not (c / 0x08 % 2 == 0)
    then none
    else (continuation (c % 0x08) s >>= λ (cp, s).
        continuation cp s >>= λ (cp, s). last_continuation 0x10000 cp s)

-- The loop of `charstr_valid_utf8_bounded`; `none` is an exhausted fuel.
unfoldable pub valid_bounded : ℕ → List ℕ → Option Bool
valid_bounded fuel [] = some true
valid_bounded zero (c ∷ s) = none
valid_bounded (suc fuel) (c ∷ s) = elim (charstr_decode_utf8_codepoint (c ∷ s)) [
  | none ↦ some false
  | some (cp, u) ↦ valid_bounded fuel u
]

-- Each round takes a byte or more, so the length is enough fuel.
unfoldable pub charstr_valid_utf8_bounded : List ℕ → Option Bool
charstr_valid_utf8_bounded s = valid_bounded (length s) s

-- The loop of `charstr_valid_utf8`, on a text that a NUL ends; reading on without one is undefined.
unfoldable pub valid_terminated : ℕ → List ℕ → Option Bool
valid_terminated fuel [] = none
valid_terminated zero (c ∷ s) = none
valid_terminated (suc fuel) (c ∷ s) =
    let next : Option Bool = elim (charstr_decode_utf8_codepoint (c ∷ s)) [
      | none ↦ some false
      | some (cp, u) ↦ valid_terminated fuel u
    ] in
    if c == 0 then some true else next

unfoldable pub charstr_valid_utf8 : List ℕ → Option Bool
charstr_valid_utf8 s = valid_terminated (length s) s

-- The first loop of `charstr_sanitize_utf8`: what `t - s` and `bad_bytes` grow by.
unfoldable pub count_bad : ℕ → List ℕ → Option (ℕ × ℕ)
count_bad fuel [] = none
count_bad zero (c ∷ t) = none
count_bad (suc fuel) (c ∷ t) =
    let next : Option (ℕ × ℕ) = elim (charstr_decode_utf8_codepoint (c ∷ t)) [
      | none ↦ count_bad fuel t >>= λ (n, bad). some (n + 1, bad + 1)
      | some (cp, u) ↦ count_bad fuel u >>= λ (n, bad). some (n + (length (c ∷ t) - length u), bad)
    ] in
    if c == 0 then some (0, 0) else next

abbrev pub replacement_character : List ℕ
replacement_character = 0xef ∷ 0xbf ∷ 0xbd ∷ []

-- The second loop: what is written to `q`. The inner loop copies from `s` to `u`.
unfoldable pub write_sane : ℕ → List ℕ → Option (List ℕ)
write_sane fuel [] = none
write_sane zero (c ∷ s) = none
write_sane (suc fuel) (c ∷ s) =
    let next : Option (List ℕ) = elim (charstr_decode_utf8_codepoint (c ∷ s)) [
      | none ↦ write_sane fuel s >>= λ q. some (replacement_character ++ q)
      | some (cp, u) ↦
          write_sane fuel u >>= λ q. some (take (length (c ∷ s) - length u) (c ∷ s) ++ q)
    ] in
    if c == 0 then some (0 ∷ []) else next

-- The size that is allocated, and what is written.
unfoldable pub charstr_sanitize_utf8 : List ℕ → Option (ℕ × List ℕ)
charstr_sanitize_utf8 s = do
  (n, bad_bytes) ← count_bad (length s) s
  sane ← write_sane (length s) s
  some (n + bad_bytes * 2 + 1, sane)

-- A byte with all bits of 0x80, 0xc0, 0xe0 or 0xf0 set, as a `char` keeps the low eight bits.
abbrev pub byte_80 : ℕ → ℕ
byte_80 x = 0x80 + x % 2 ^ 6

-- What is written to `s`, with room for `room` bytes up to `end`, and whether the result is not NULL.
unfoldable pub put_bytes : List ℕ → ℕ → List ℕ × Bool
put_bytes bytes zero = ([], false)
put_bytes [] (suc room) = ([], true)
put_bytes (b ∷ []) (suc room) = (b ∷ [], true)
put_bytes (b ∷ c ∷ bytes) (suc room) =
    let (written, done) = put_bytes (c ∷ bytes) room in (b ∷ written, done)

-- The bytes of the encoding.
abbrev pub utf8_bytes : ℕ → List ℕ
utf8_bytes codepoint =
    if leb 0x80 codepoint
    then if leb 0x800 codepoint
      then if leb 0x10000 codepoint
        then (0xf0 + codepoint / 2 ^ 18 % 2 ^ 4)
          ∷ byte_80 (codepoint / 2 ^ 12)
          ∷ byte_80 (codepoint / 2 ^ 6)
          ∷ byte_80 codepoint
          ∷ []
        else (0xe0 + codepoint / 2 ^ 12 % 2 ^ 5)
          ∷ byte_80 (codepoint / 2 ^ 6)
          ∷ byte_80 codepoint
          ∷ []
      else (0xc0 + codepoint / 2 ^ 6 % 2 ^ 6) ∷ byte_80 codepoint ∷ []
    else codepoint ∷ []

unfoldable pub charstr_encode_utf8_codepoint : ℕ → ℕ → List ℕ × Bool
charstr_encode_utf8_codepoint codepoint room = put_bytes (utf8_bytes codepoint) room
