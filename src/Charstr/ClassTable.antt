-- ===== src/Charstr/ClassTable.antt =====
-- The table `char_class` of src/charstr.c, and the class flags of include/charstr.h. Each flag is one
-- bit, so a combination is a sum.
use fsdyn.Prelude.{ℕ, ◌+◌, List, [], ◌∷◌}

abbrev pub charstr_control : ℕ
charstr_control = 1

abbrev pub charstr_digit : ℕ
charstr_digit = 2

abbrev pub charstr_lower : ℕ
charstr_lower = 4

abbrev pub charstr_upper : ℕ
charstr_upper = 8

abbrev pub charstr_ht : ℕ
charstr_ht = 16

abbrev pub charstr_lf : ℕ
charstr_lf = 32

abbrev pub charstr_ff : ℕ
charstr_ff = 64

abbrev pub charstr_cr : ℕ
charstr_cr = 128

abbrev pub charstr_space : ℕ
charstr_space = 256

abbrev pub charstr_octal : ℕ
charstr_octal = 512

abbrev pub charstr_hex : ℕ
charstr_hex = 1024

abbrev pub charstr_under : ℕ
charstr_under = 2048

abbrev pub charstr_print : ℕ
charstr_print = 4096

-- The entries behind the last one are 0.
abbrev pub char_class : List ℕ
char_class =
    charstr_control
    ∷ charstr_control
    ∷ charstr_control
    ∷ charstr_control
    ∷ charstr_control
    ∷ charstr_control
    ∷ charstr_control
    ∷ charstr_control
    ∷ (charstr_control + charstr_lf)
    ∷ (charstr_control + charstr_ht)
    ∷ (charstr_control + charstr_ff)
    ∷ (charstr_control + charstr_cr)
    ∷ charstr_control
    ∷ charstr_control
    ∷ charstr_control
    ∷ charstr_control
    ∷ charstr_control
    ∷ charstr_control
    ∷ charstr_control
    ∷ charstr_control
    ∷ charstr_control
    ∷ charstr_control
    ∷ charstr_control
    ∷ charstr_control
    ∷ charstr_control
    ∷ charstr_control
    ∷ charstr_control
    ∷ charstr_control
    ∷ charstr_control
    ∷ charstr_control
    ∷ charstr_control
    ∷ charstr_control
    ∷ (charstr_print + charstr_space)
    ∷ charstr_print
    ∷ charstr_print
    ∷ charstr_print
    ∷ charstr_print
    ∷ charstr_print
    ∷ charstr_print
    ∷ charstr_print
    ∷ charstr_print
    ∷ charstr_print
    ∷ charstr_print
    ∷ charstr_print
    ∷ charstr_print
    ∷ charstr_print
    ∷ charstr_print
    ∷ charstr_print
    ∷ (charstr_print + charstr_digit + charstr_hex + charstr_octal)
    ∷ (charstr_print + charstr_digit + charstr_hex + charstr_octal)
    ∷ (charstr_print + charstr_digit + charstr_hex + charstr_octal)
    ∷ (charstr_print + charstr_digit + charstr_hex + charstr_octal)
    ∷ (charstr_print + charstr_digit + charstr_hex + charstr_octal)
    ∷ (charstr_print + charstr_digit + charstr_hex + charstr_octal)
    ∷ (charstr_print + charstr_digit + charstr_hex + charstr_octal)
    ∷ (charstr_print + charstr_digit + charstr_hex + charstr_octal)
    ∷ (charstr_print + charstr_digit + charstr_hex)
    ∷ (charstr_print + charstr_digit + charstr_hex)
    ∷ charstr_print
    ∷ charstr_print
    ∷ charstr_print
    ∷ charstr_print
    ∷ charstr_print
    ∷ charstr_print
    ∷ charstr_print
    ∷ (charstr_print + charstr_upper + charstr_hex)
    ∷ (charstr_print + charstr_upper + charstr_hex)
    ∷ (charstr_print + charstr_upper + charstr_hex)
    ∷ (charstr_print + charstr_upper + charstr_hex)
    ∷ (charstr_print + charstr_upper + charstr_hex)
    ∷ (charstr_print + charstr_upper + charstr_hex)
    ∷ (charstr_print + charstr_upper)
    ∷ (charstr_print + charstr_upper)
    ∷ (charstr_print + charstr_upper)
    ∷ (charstr_print + charstr_upper)
    ∷ (charstr_print + charstr_upper)
    ∷ (charstr_print + charstr_upper)
    ∷ (charstr_print + charstr_upper)
    ∷ (charstr_print + charstr_upper)
    ∷ (charstr_print + charstr_upper)
    ∷ (charstr_print + charstr_upper)
    ∷ (charstr_print + charstr_upper)
    ∷ (charstr_print + charstr_upper)
    ∷ (charstr_print + charstr_upper)
    ∷ (charstr_print + charstr_upper)
    ∷ (charstr_print + charstr_upper)
    ∷ (charstr_print + charstr_upper)
    ∷ (charstr_print + charstr_upper)
    ∷ (charstr_print + charstr_upper)
    ∷ (charstr_print + charstr_upper)
    ∷ (charstr_print + charstr_upper)
    ∷ charstr_print
    ∷ charstr_print
    ∷ charstr_print
    ∷ charstr_print
    ∷ (charstr_print + charstr_under)
    ∷ charstr_print
    ∷ (charstr_print + charstr_lower + charstr_hex)
    ∷ (charstr_print + charstr_lower + charstr_hex)
    ∷ (charstr_print + charstr_lower + charstr_hex)
    ∷ (charstr_print + charstr_lower + charstr_hex)
    ∷ (charstr_print + charstr_lower + charstr_hex)
    ∷ (charstr_print + charstr_lower + charstr_hex)
    ∷ (charstr_print + charstr_lower)
    ∷ (charstr_print + charstr_lower)
    ∷ (charstr_print + charstr_lower)
    ∷ (charstr_print + charstr_lower)
    ∷ (charstr_print + charstr_lower)
    ∷ (charstr_print + charstr_lower)
    ∷ (charstr_print + charstr_lower)
    ∷ (charstr_print + charstr_lower)
    ∷ (charstr_print + charstr_lower)
    ∷ (charstr_print + charstr_lower)
    ∷ (charstr_print + charstr_lower)
    ∷ (charstr_print + charstr_lower)
    ∷ (charstr_print + charstr_lower)
    ∷ (charstr_print + charstr_lower)
    ∷ (charstr_print + charstr_lower)
    ∷ (charstr_print + charstr_lower)
    ∷ (charstr_print + charstr_lower)
    ∷ (charstr_print + charstr_lower)
    ∷ (charstr_print + charstr_lower)
    ∷ (charstr_print + charstr_lower)
    ∷ charstr_print
    ∷ charstr_print
    ∷ charstr_print
    ∷ charstr_print
    ∷ charstr_control
    ∷ []
