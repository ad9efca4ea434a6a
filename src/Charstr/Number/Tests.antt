-- ===== src/Charstr/Number/Tests.antt =====
-- Runs of the number functions, and the theorems at concrete inputs.
use fsdyn.Prelude.{ℕ, ◌≡◌, refl, true, false, List, [], ◌∷◌}
use fsdyn.Prelude.Int.{negsuc}
use fsdyn.Charstr.{charstr_digit_value}
use fsdyn.Charstr.Number.{
  failed, parsed, einval, natural_base, read_digits, to_unsigned_in, to_unsigned, parse_positive,
  parse_negative, charstr_to_integer,
}
use fsdyn.Charstr.Number.Reading.{unsigned_of, reading}
use fsdyn.Charstr.Number.Range.{ReadsAs, charstr_to_unsigned-value, charstr_to_integer-Reads}

runs : Unit {0}
unfolding charstr_digit_value natural_base read_digits to_unsigned_in to_unsigned parse_positive
    parse_negative charstr_to_integer
runs = tt

-- 0x1fz
abbrev hexadecimal : List ℕ
hexadecimal = b'0' ∷ b'x' ∷ b'1' ∷ b'f' ∷ b'z' ∷ []

abbrev negative : List ℕ
negative = b'4' ∷ b'2' ∷ b' ' ∷ []

reads_hexadecimal : to_unsigned hexadecimal 0 ≡ parsed 4 31 false
unfolding runs
reads_hexadecimal = refl

reads_negative : charstr_to_integer (b'-' ∷ negative) 10 ≡ parsed 3 (negsuc 41) false
unfolding runs
reads_negative = refl

reads_negative_hexadecimal : charstr_to_integer (b'-' ∷ hexadecimal) 0 ≡ parsed 5 (negsuc 30) false
unfolding runs
reads_negative_hexadecimal = refl

bad_base : to_unsigned negative 17 ≡ failed einval
unfolding runs
bad_base = refl

charstr_to_unsigned-value_example : to_unsigned hexadecimal 0 ≡ unsigned_of hexadecimal 0
charstr_to_unsigned-value_example = charstr_to_unsigned-value hexadecimal 0

charstr_to_integer-Reads_example :
    ReadsAs true 1 (reading hexadecimal 0) (charstr_to_integer (b'-' ∷ hexadecimal) 0)
charstr_to_integer-Reads_example = charstr_to_integer-Reads b'-' hexadecimal 0
