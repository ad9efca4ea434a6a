-- ===== src/Charstr/Tests.antt =====
-- Runs of the character and string functions, and the theorems at concrete inputs.
use fsdyn.Prelude.{
  ℕ, ◌≡◌, refl, ◌↔◌, none, some, true, false, ◌||◌, ◌==◌, List, [], ◌∷◌, ◌++◌, take, arith,
}
use fsdyn.Prelude.Int.{pos}
use fsdyn.Charstr.{
  is_whitespace, charstr_lcase_char, charstr_ucase_char, charstr_lcase_str, charstr_case_cmp,
  charstr_ncase_cmp, charstr_skip_prefix, charstr_case_skip_prefix, charstr_ends_with,
  charstr_digit_value,
}
use fsdyn.Charstr.ClassTable.{
  charstr_control, charstr_digit, charstr_lower, charstr_upper, charstr_space, charstr_octal,
  charstr_hex, charstr_under, charstr_print,
}
use fsdyn.Charstr.Compare.{lex, case_cmps-lex}
use fsdyn.Charstr.Prefix.{prefixes_and_suffixes}
use fsdyn.Charstr.Classes.{
  within, is_digit, is_lower, is_upper, is_hex, in_class, lower_of, upper_of, digit_of,
  tables-ranges,
}

runs : Unit {0}
unfolding is_whitespace charstr_lcase_char charstr_ucase_char charstr_case_cmp charstr_ncase_cmp
    charstr_skip_prefix charstr_case_skip_prefix charstr_ends_with charstr_digit_value lex
runs = tt

abbrev file_txt : List ℕ
file_txt = b'F' ∷ b'.' ∷ b't' ∷ b'x' ∷ b't' ∷ []

abbrev txt : List ℕ
txt = b't' ∷ b'x' ∷ b't' ∷ []

abbrev upper_f : List ℕ
upper_f = b'f' ∷ b'.' ∷ b'T' ∷ []

case_cmp_files : charstr_case_cmp file_txt upper_f ≡ some (pos 1)
unfolding runs
case_cmp_files = refl

ncase_cmp_files : charstr_ncase_cmp file_txt upper_f 3 ≡ some (pos 0)
unfolding runs
ncase_cmp_files = refl

ends_with_txt : charstr_ends_with file_txt txt ≡ true
unfolding runs
ends_with_txt = refl

-- A carriage return is not white space in the table.
carriage_return : is_whitespace 13 ≡ false
unfolding runs
carriage_return = refl

case_cmps-lex_example :
    (charstr_case_cmp file_txt upper_f
      ≡ some (lex (charstr_lcase_str file_txt) (charstr_lcase_str upper_f)))
    × (charstr_ncase_cmp file_txt upper_f 3
        ≡ some (lex (charstr_lcase_str (take 3 file_txt)) (charstr_lcase_str (take 3 upper_f))))
case_cmps-lex_example = case_cmps-lex file_txt upper_f 3 (ground arith) (ground arith)

prefixes_and_suffixes_example :
    ((charstr_skip_prefix file_txt upper_f ≡ some txt) ↔ (file_txt ≡ upper_f ++ txt))
    × (charstr_skip_prefix (charstr_lcase_str file_txt) (charstr_lcase_str upper_f)
        ≡ (elim (charstr_case_skip_prefix file_txt upper_f) [
          | none ↦ none
          | some rest ↦ some (charstr_lcase_str rest)
        ]))
    × ((charstr_ends_with file_txt upper_f ≡ true) ↔ ((p : List ℕ) × (file_txt ≡ p ++ upper_f)))
prefixes_and_suffixes_example = prefixes_and_suffixes file_txt upper_f txt

tables-ranges_example :
    ((in_class charstr_control b'f' ≡ (within 0 31 b'f' || b'f' == 127))
      × (in_class charstr_digit b'f' ≡ is_digit b'f')
      × (in_class charstr_lower b'f' ≡ is_lower b'f')
      × (in_class charstr_upper b'f' ≡ is_upper b'f')
      × (in_class charstr_space b'f' ≡ (b'f' == b' '))
      × (in_class charstr_octal b'f' ≡ within b'0' b'7' b'f')
      × (in_class charstr_hex b'f' ≡ is_hex b'f')
      × (in_class charstr_under b'f' ≡ (b'f' == b'_'))
      × (in_class charstr_print b'f' ≡ within b' ' b'~' b'f'))
    × ((charstr_lcase_char b'f' ≡ lower_of b'f')
        × (charstr_ucase_char b'f' ≡ upper_of b'f')
        × (charstr_digit_value b'f' ≡ digit_of b'f'))
    × (is_whitespace b'f' ≡ (within 8 11 b'f' || b'f' == b' '))
tables-ranges_example = tables-ranges b'f' (omega arith)
