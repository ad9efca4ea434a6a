-- ===== src/Charstr.antt =====
-- src/charstr.c: characters and strings. A character is a number below 256, a `char` being read as
-- unsigned. A string is the list of its characters without the NUL that ends it, and a pointer into
-- a string is the rest of the list: at its end `*s` is the NUL. `none` is NULL.
pub mod CaseTable
pub mod ClassTable
pub mod Compare
pub mod Prefix
pub mod Classes
pub mod Number
pub mod Utf8
pub mod UrlTable
pub mod Url
pub mod Split
pub mod Atoms
mod Tests
use fsdyn.Prelude.{
  ℕ, zero, suc, ◌+◌, ◌-◌, ◌/◌, ◌%◌, ◌^◌, Option, none, some, Bool, true, false, not, ◌&&◌, ◌||◌,
  ltb, leb, ◌==◌, if◌then◌else◌, List, [], ◌∷◌, length, get_or, drop,
}
use fsdyn.Prelude.Int.{ℤ, pos, negsuc}
use fsdyn.Charstr.CaseTable.{case_table}
use fsdyn.Charstr.ClassTable.{
  char_class, charstr_ht, charstr_lf, charstr_ff, charstr_cr, charstr_space,
}

-- The flag is one of those in the class: `&`.
abbrev pub has : ℕ → ℕ → Bool
has class flag = class / flag % 2 == 1

abbrev pub charstr_char_class : ℕ → ℕ
charstr_char_class c = get_or char_class c 0

-- `charstr_char_class(c) & CHARSTR_WHITESPACE`
unfoldable pub is_whitespace : ℕ → Bool
is_whitespace c =
    let class = charstr_char_class c in
    has class charstr_ht
    || has class charstr_lf
    || has class charstr_ff
    || has class charstr_cr
    || has class charstr_space

unfoldable pub charstr_lcase_char : ℕ → ℕ
charstr_lcase_char c = (get_or case_table c (0, 0)).0

unfoldable pub charstr_ucase_char : ℕ → ℕ
charstr_ucase_char c = (get_or case_table c (0, 0)).1

-- The loops of the functions on strings and substrings write `*p` in place.
abbrev pub charstr_lcase_str : List ℕ → List ℕ
charstr_lcase_str [] = []
charstr_lcase_str (c ∷ p) = charstr_lcase_char c ∷ charstr_lcase_str p

abbrev pub charstr_ucase_str : List ℕ → List ℕ
charstr_ucase_str [] = []
charstr_ucase_str (c ∷ p) = charstr_ucase_char c ∷ charstr_ucase_str p

-- `*b`
abbrev pub head : List ℕ → ℕ
head [] = 0
head (c ∷ b) = c

-- The result is -1, 0 or 1; `none` is a read behind the end of `b`.
unfoldable pub charstr_case_cmp : List ℕ → List ℕ → Option ℤ
charstr_case_cmp [] b = some (if head b == 0 then pos 0 else negsuc 0)
charstr_case_cmp (c ∷ a) [] =
    let ac = charstr_lcase_char c in
    let bc = charstr_lcase_char 0 in
    if ltb ac bc then some (negsuc 0) else if ltb bc ac then some (pos 1) else none
charstr_case_cmp (c ∷ a) (d ∷ b) =
    let ac = charstr_lcase_char c in
    let bc = charstr_lcase_char d in
    let rest = charstr_case_cmp a b in
    if ltb ac bc then some (negsuc 0) else if ltb bc ac then some (pos 1) else rest

unfoldable pub charstr_ncase_cmp : List ℕ → List ℕ → ℕ → Option ℤ
charstr_ncase_cmp a b zero = some (pos 0)
charstr_ncase_cmp [] b (suc n) = some (if head b == 0 then pos 0 else negsuc 0)
charstr_ncase_cmp (c ∷ a) [] (suc n) =
    let ac = charstr_lcase_char c in
    let bc = charstr_lcase_char 0 in
    if ltb ac bc then some (negsuc 0) else if ltb bc ac then some (pos 1) else none
charstr_ncase_cmp (c ∷ a) (d ∷ b) (suc n) =
    let ac = charstr_lcase_char c in
    let bc = charstr_lcase_char d in
    let rest = charstr_ncase_cmp a b n in
    if ltb ac bc then some (negsuc 0) else if ltb bc ac then some (pos 1) else rest

-- At the end of `s` the NUL differs from the character of the prefix.
unfoldable pub charstr_skip_prefix : List ℕ → List ℕ → Option (List ℕ)
charstr_skip_prefix s [] = some s
charstr_skip_prefix [] (p ∷ prefix) = none
charstr_skip_prefix (c ∷ s) (p ∷ prefix) =
    let rest = charstr_skip_prefix s prefix in if c == p then rest else none

abbrev pub charstr_case_starts_with : List ℕ → List ℕ → Option (List ℕ)
charstr_case_starts_with s prefix = charstr_skip_prefix s prefix

-- The case of a NUL is NUL.
unfoldable pub charstr_case_skip_prefix : List ℕ → List ℕ → Option (List ℕ)
charstr_case_skip_prefix s [] = some s
charstr_case_skip_prefix [] (p ∷ prefix) = none
charstr_case_skip_prefix (c ∷ s) (p ∷ prefix) =
    let rest = charstr_case_skip_prefix s prefix in
    if charstr_lcase_char c == charstr_lcase_char p then rest else none

abbrev pub charstr_ncase_starts_with : List ℕ → List ℕ → Option (List ℕ)
charstr_ncase_starts_with s prefix = charstr_case_skip_prefix s prefix

-- `!strcmp(a, b)`
abbrev pub same : List ℕ → List ℕ → Bool
same [] [] = true
same [] (d ∷ b) = false
same (c ∷ a) [] = false
same (c ∷ a) (d ∷ b) = (c == d) && same a b

unfoldable pub charstr_ends_with : List ℕ → List ℕ → Bool
charstr_ends_with s suffix =
    let len = length s in
    let suffix_len = length suffix in
    if ltb len suffix_len then false else same (drop (len - suffix_len) s) suffix

-- `-1U`
abbrev pub no_digit : ℕ
no_digit = 2 ^ 32 - 1

unfoldable pub charstr_digit_value : ℕ → ℕ
charstr_digit_value c =
    if c == b'0'
    then 0
    else if c == b'1'
    then 1
    else if c == b'2'
    then 2
    else if c == b'3'
    then 3
    else if c == b'4'
    then 4
    else if c == b'5'
    then 5
    else if c == b'6'
    then 6
    else if c == b'7'
    then 7
    else if c == b'8'
    then 8
    else if c == b'9'
    then 9
    else if c == b'A' || c == b'a'
    then 10
    else if c == b'B' || c == b'b'
    then 11
    else if c == b'C' || c == b'c'
    then 12
    else if c == b'D' || c == b'd'
    then 13
    else if c == b'E' || c == b'e'
    then 14
    else if c == b'F' || c == b'f'
    then 15
    else no_digit
