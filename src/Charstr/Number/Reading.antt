-- ===== src/Charstr/Number/Reading.antt =====
-- How `charstr_to_unsigned` and `charstr_to_integer` of src/charstr.c are to read a text.
use fsdyn.Prelude.{
  ℕ, ◌+◌, ◌%◌, Bool, not, ◌&&◌, ◌||◌, ltb, leb, ◌==◌, if◌then◌else◌, List, [], ◌∷◌, length, drop,
  Option, none, some,
}
use fsdyn.Charstr.Number.{uint64, Parsed, failed, parsed, einval, eilseq}
use fsdyn.Charstr.Number.Leading.{leading_digits, number}

-- What the digits `ds` give behind a prefix of `start` characters: an error if there are none.
abbrev pub unsigned_value : ℕ → ℕ → List ℕ → Parsed ℕ
unsigned_value base start [] = failed eilseq
unsigned_value base start (d ∷ ds) =
    let m = number base 0 (d ∷ ds) in
    parsed (start + length (d ∷ ds)) (m % uint64) (not (ltb m uint64))

abbrev pub is_base : ℕ → Bool
is_base base = leb 2 base && leb base 16

-- The notation of C: the base that a number's beginning tells, and the length of its prefix.
abbrev pub notation : List ℕ → ℕ × ℕ
notation [] = (10, 0)
notation (c ∷ []) = if c == b'0' then (8, 0) else (10, 0)
notation (c ∷ d ∷ s) =
    if c == b'0' && (d == b'x' || d == b'X') then (16, 2) else if c == b'0' then (8, 0) else (10, 0)

-- How a text is read in a base, which is 0 for the notation of C: the base of the digits, the length of
-- the prefix, and the digits. A bad base is `none`.
abbrev pub reading : List ℕ → ℕ → Option (ℕ × ℕ × List ℕ)
reading text base =
    let (natural, start) = notation text in
    if base == 0
    then some (natural, start, leading_digits natural (drop start text))
    else if is_base base
    then some (base, 0, leading_digits base text)
    else none

-- The value of a reading.
abbrev pub value_of : Option (ℕ × ℕ × List ℕ) → Parsed ℕ
value_of none = failed einval
value_of (some (base, start, digits)) = unsigned_value base start digits

abbrev pub unsigned_of : List ℕ → ℕ → Parsed ℕ
unsigned_of buffer base = value_of (reading buffer base)
