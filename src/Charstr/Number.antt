-- ===== src/Charstr/Number.antt =====
-- The numbers of src/charstr.c: `charstr_to_unsigned` and `charstr_to_integer`. A buffer is the list
-- of its characters. A call that sets `errno` to ERANGE and returns a count has a result too, so a
-- result has the count, the value and that flag.
pub mod Leading
pub mod Reading
pub mod Range
mod Tests
use fsdyn.Prelude.{
  ℕ, zero, suc, ◌+◌, ◌-◌, ◌*◌, ◌/◌, ◌%◌, ◌^◌, Option, none, some, Bool, true, false, not, ◌&&◌,
  ◌||◌, ltb, leb, ◌==◌, if◌then◌else◌, List, [], ◌∷◌,
}
use fsdyn.Prelude.Int.{ℤ, pos, negsuc, fits, neg_ℕ}
use fsdyn.Charstr.{charstr_digit_value, no_digit}

-- `errno` on an error. `at_zero` is the error whose call returns 0 and not -1.
pub data Failure : Type 0 where
  einval eilseq eilseq_at_zero : Failure

pub data Parsed (A : Type 0) : Type 0 where
  failed : Failure → Parsed A
  parsed : (count : ℕ) (value : A) (erange : Bool) → Parsed A

-- What `natural_base` returns, and how far it moves `*s`.
unfoldable pub natural_base : List ℕ → ℕ × ℕ
natural_base [] = (10, 0)
natural_base (c ∷ []) = if c == b'0' then (8, 0) else (10, 0)
natural_base (c ∷ d ∷ s) =
    if not (c == b'0') then (10, 0) else if d == b'x' || d == b'X' then (16, 2) else (8, 0)

-- The loop of `to_unsigned`: `n`, `*overflow` and the number of digits.
pub record Digits : Type 0 where
  pub n : ℕ
  pub overflow : Bool
  pub count : ℕ

abbrev pub uint64 : ℕ
uint64 = 2 ^ 64

unfoldable pub read_digits : ℕ → List ℕ → Digits → Digits
read_digits base [] s = s
read_digits base (c ∷ dp) s =
    let d = charstr_digit_value c in
    let n = (base * s.n % uint64 + d) % uint64 in
    let limit = (uint64 - 1) / base in
    let over = s.overflow || ltb limit s.n || ltb n s.n in
    let rest = read_digits base dp (record { n = n; overflow = over; count = s.count + 1 }) in
    if d == no_digit || leb base d then s else rest

abbrev pub skip : ℕ → List ℕ → List ℕ
skip zero s = s
skip (suc n) [] = []
skip (suc n) (c ∷ s) = skip n s

-- The part behind the choice of the base, with `digits - buffer`.
unfoldable pub to_unsigned_in : List ℕ → ℕ → ℕ → Parsed ℕ
to_unsigned_in digits start base =
    let r = read_digits base digits (record { n = 0; overflow = false; count = 0 }) in
    if ltb base 2 || ltb 16 base
    then failed einval
    else if r.count == 0
    then failed eilseq
    else parsed (start + r.count) r.n r.overflow

unfoldable pub to_unsigned : List ℕ → ℕ → Parsed ℕ
to_unsigned buffer base =
    let (natural, start) = natural_base buffer in
    if base == 0
    then to_unsigned_in (skip start buffer) start natural
    else to_unsigned_in buffer 0 base

abbrev pub charstr_to_unsigned : List ℕ → ℕ → Parsed ℕ
charstr_to_unsigned buffer base = to_unsigned buffer base

-- The `int64_t` with the bits of a `uint64_t`.
abbrev pub to_int64 : ℕ → ℤ
to_int64 u = if ltb u (2 ^ 63) then pos u else neg_ℕ (uint64 - u)

-- `-u`
abbrev pub minus : ℕ → ℕ
minus u = (uint64 - u) % uint64

abbrev pub is_negative : ℤ → Bool
is_negative (pos n) = false
is_negative (negsuc n) = true

abbrev pub is_positive : ℤ → Bool
is_positive (pos n) = not (n == 0)
is_positive (negsuc n) = false

unfoldable pub parse_positive : List ℕ → ℕ → Parsed ℤ
parse_positive s base = elim (to_unsigned s base) [
  | failed e ↦ failed e
  | parsed count u overflow ↦ parsed count (to_int64 u) (overflow || is_negative (to_int64 u))
]

unfoldable pub parse_negative : List ℕ → ℕ → Parsed ℤ
parse_negative s base = elim (to_unsigned s base) [
  | failed e ↦ failed e
  | parsed count u overflow ↦
      parsed count (to_int64 (minus u)) (overflow || is_positive (to_int64 (minus u)))
]

abbrev pub count_sign : {A : Type 0} → Parsed A → Parsed A
count_sign (failed e) = failed e
count_sign (parsed count value erange) = parsed (count + 1) value erange

unfoldable pub charstr_to_integer : List ℕ → ℕ → Parsed ℤ
charstr_to_integer [] base = failed eilseq_at_zero
charstr_to_integer (c ∷ s) base =
    if c == b'+'
    then count_sign (parse_positive s base)
    else if c == b'-'
    then count_sign (parse_negative s base)
    else parse_positive (c ∷ s) base
