-- ===== src/Charstr/Classes.antt =====
-- What the tables of src/charstr.c say of each character, against the ranges of include/charstr.h.
use fsdyn.Prelude.{
  ℕ, ◌+◌, ◌-◌, ◌<◌, ◌≡◌, refl, Bool, true, false, not, ◌&&◌, ◌||◌, leb, ◌==◌, ==_iff, if◌then◌else◌,
  arith,
}
use fsdyn.Prelude.Tables.{checked, checked-entry}
use fsdyn.Charstr.ClassTable.{
  charstr_control, charstr_digit, charstr_lower, charstr_upper, charstr_space, charstr_octal,
  charstr_hex, charstr_under, charstr_print,
}
use fsdyn.Charstr.{
  has, charstr_char_class, is_whitespace, charstr_lcase_char, charstr_ucase_char,
  charstr_digit_value, no_digit,
}

-- `lo <= c && c <= hi`
abbrev pub within : ℕ → ℕ → ℕ → Bool
within lo hi c = leb lo c && leb c hi

abbrev pub is_digit : ℕ → Bool
is_digit = within b'0' b'9'

abbrev pub is_lower : ℕ → Bool
is_lower = within b'a' b'z'

abbrev pub is_upper : ℕ → Bool
is_upper = within b'A' b'Z'

abbrev pub is_hex : ℕ → Bool
is_hex c = is_digit c || within b'a' b'f' c || within b'A' b'F' c

eqb : Bool → Bool → Bool
eqb true b = b
eqb false b = not b

eqb-eq : (a b : Bool) → eqb a b ≡ true → a ≡ b
unfolding eqb
eqb-eq true b e = ground arith
eqb-eq false b e = ground arith

module _ (f g : ℕ → Bool) where
  agree : ℕ → Bool
  agree c = eqb (f c) (g c)

  agrees : checked agree 256 0 ≡ true → (c : ℕ) → c < 256 → f c ≡ g c
  unfolding agree
  agrees e c h = eqb-eq (f c) (g c) (checked-entry agree 256 0 c e (omega arith) (omega arith))

module _ (f g : ℕ → ℕ) where
  equal : ℕ → Bool
  equal c = f c == g c

  equals : checked equal 256 0 ≡ true → (c : ℕ) → c < 256 → f c ≡ g c
  unfolding equal
  equals e c h = (==_iff (f c) (g c)).0 (checked-entry equal 256 0 c e (omega arith) (omega arith))

abbrev pub in_class : ℕ → ℕ → Bool
in_class flag c = has (charstr_char_class c) flag

-- The flags other than those of HT, LF, FF and CR stand at the characters that the header gives.
char_class-ranges :
    (c : ℕ)
    → c < 256
    → (in_class charstr_control c ≡ (within 0 31 c || c == 127))
      × (in_class charstr_digit c ≡ is_digit c)
      × (in_class charstr_lower c ≡ is_lower c)
      × (in_class charstr_upper c ≡ is_upper c)
      × (in_class charstr_space c ≡ (c == b' '))
      × (in_class charstr_octal c ≡ within b'0' b'7' c)
      × (in_class charstr_hex c ≡ is_hex c)
      × (in_class charstr_under c ≡ (c == b'_'))
      × (in_class charstr_print c ≡ within b' ' b'~' c)
unfolding checked agree eqb
char_class-ranges c h = (
  agrees (in_class charstr_control) (λ c. within 0 31 c || c == 127) refl c h,
  agrees (in_class charstr_digit) is_digit refl c h,
  agrees (in_class charstr_lower) is_lower refl c h,
  agrees (in_class charstr_upper) is_upper refl c h,
  agrees (in_class charstr_space) (λ c. c == b' ') refl c h,
  agrees (in_class charstr_octal) (within b'0' b'7') refl c h,
  agrees (in_class charstr_hex) is_hex refl c h,
  agrees (in_class charstr_under) (λ c. c == b'_') refl c h,
  agrees (in_class charstr_print) (within b' ' b'~') refl c h,
)

-- The characters that count as white space are 8 to 11 and the space: of those that the header gives,
-- form feed, 12, and carriage return, 13, are missing, and backspace and vertical tab are there.
is_whitespace-codes : (c : ℕ) → c < 256 → is_whitespace c ≡ (within 8 11 c || c == b' ')
unfolding checked agree eqb is_whitespace
is_whitespace-codes c h = agrees is_whitespace (λ c. within 8 11 c || c == b' ') refl c h

-- The cases of a letter, and the values of digits.
abbrev pub lower_of : ℕ → ℕ
lower_of c = if is_upper c then c + 32 else c

abbrev pub upper_of : ℕ → ℕ
upper_of c = if is_lower c then c - 32 else c

abbrev pub digit_of : ℕ → ℕ
digit_of c =
    if is_digit c
    then c - b'0'
    else if within b'a' b'f' c
    then c - b'a' + 10
    else if within b'A' b'F' c
    then c - b'A' + 10
    else no_digit

-- Only ASCII letters change case, and the digits are those of hexadecimal numbers in either case.
cases_and_digits :
    (c : ℕ)
    → c < 256
    → (charstr_lcase_char c ≡ lower_of c)
      × (charstr_ucase_char c ≡ upper_of c)
      × (charstr_digit_value c ≡ digit_of c)
unfolding checked equal charstr_lcase_char charstr_ucase_char charstr_digit_value
cases_and_digits c h = (
  equals charstr_lcase_char lower_of refl c h,
  equals charstr_ucase_char upper_of refl c h,
  equals charstr_digit_value digit_of refl c h,
)

-- What the tables give for each character: the flags other than those of HT, LF, FF and CR stand at
-- the characters that the header gives, only ASCII letters change case, the digits are those of
-- hexadecimal numbers in either case, and white space are the characters 8 to 11 and the space: form
-- feed, 12, and carriage return, 13, are missing, and backspace and vertical tab are there.
pub tables-ranges :
    (c : ℕ)
    → c < 256
    → ((in_class charstr_control c ≡ (within 0 31 c || c == 127))
        × (in_class charstr_digit c ≡ is_digit c)
        × (in_class charstr_lower c ≡ is_lower c)
        × (in_class charstr_upper c ≡ is_upper c)
        × (in_class charstr_space c ≡ (c == b' '))
        × (in_class charstr_octal c ≡ within b'0' b'7' c)
        × (in_class charstr_hex c ≡ is_hex c)
        × (in_class charstr_under c ≡ (c == b'_'))
        × (in_class charstr_print c ≡ within b' ' b'~' c))
      × ((charstr_lcase_char c ≡ lower_of c)
          × (charstr_ucase_char c ≡ upper_of c)
          × (charstr_digit_value c ≡ digit_of c))
      × (is_whitespace c ≡ (within 8 11 c || c == b' '))
tables-ranges c h = (char_class-ranges c h, cases_and_digits c h, is_whitespace-codes c h)
