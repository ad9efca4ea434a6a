-- ===== src/Charstr/UrlTable.antt =====
-- The table of `url_encoder` in src/charstr.c.
use fsdyn.Prelude.{ℕ, List, [], ◌∷◌}

abbrev pub percent : ℕ → ℕ → List ℕ
percent d e = b'%' ∷ d ∷ e ∷ []

abbrev pub single : ℕ → List ℕ
single c = c ∷ []

abbrev pub url_encoder : List (List ℕ)
url_encoder =
    percent b'0' b'0'
    ∷ percent b'0' b'1'
    ∷ percent b'0' b'2'
    ∷ percent b'0' b'3'
    ∷ percent b'0' b'4'
    ∷ percent b'0' b'5'
    ∷ percent b'0' b'6'
    ∷ percent b'0' b'7'
    ∷ percent b'0' b'8'
    ∷ percent b'0' b'9'
    ∷ percent b'0' b'A'
    ∷ percent b'0' b'B'
    ∷ percent b'0' b'C'
    ∷ percent b'0' b'D'
    ∷ percent b'0' b'E'
    ∷ percent b'0' b'F'
    ∷ percent b'1' b'0'
    ∷ percent b'1' b'1'
    ∷ percent b'1' b'2'
    ∷ percent b'1' b'3'
    ∷ percent b'1' b'4'
    ∷ percent b'1' b'5'
    ∷ percent b'1' b'6'
    ∷ percent b'1' b'7'
    ∷ percent b'1' b'8'
    ∷ percent b'1' b'9'
    ∷ percent b'1' b'A'
    ∷ percent b'1' b'B'
    ∷ percent b'1' b'C'
    ∷ percent b'1' b'D'
    ∷ percent b'1' b'E'
    ∷ percent b'1' b'F'
    ∷ single b'+'
    ∷ percent b'2' b'1'
    ∷ single b'"'
    ∷ percent b'2' b'3'
    ∷ percent b'2' b'4'
    ∷ percent b'2' b'5'
    ∷ percent b'2' b'6'
    ∷ percent b'2' b'7'
    ∷ percent b'2' b'8'
    ∷ percent b'2' b'9'
    ∷ percent b'2' b'A'
    ∷ percent b'2' b'B'
    ∷ percent b'2' b'C'
    ∷ single b'-'
    ∷ single b'.'
    ∷ single b'/'
    ∷ single b'0'
    ∷ single b'1'
    ∷ single b'2'
    ∷ single b'3'
    ∷ single b'4'
    ∷ single b'5'
    ∷ single b'6'
    ∷ single b'7'
    ∷ single b'8'
    ∷ single b'9'
    ∷ percent b'3' b'A'
    ∷ percent b'3' b'B'
    ∷ single b'<'
    ∷ percent b'3' b'D'
    ∷ single b'>'
    ∷ percent b'3' b'F'
    ∷ percent b'4' b'0'
    ∷ single b'A'
    ∷ single b'B'
    ∷ single b'C'
    ∷ single b'D'
    ∷ single b'E'
    ∷ single b'F'
    ∷ single b'G'
    ∷ single b'H'
    ∷ single b'I'
    ∷ single b'J'
    ∷ single b'K'
    ∷ single b'L'
    ∷ single b'M'
    ∷ single b'N'
    ∷ single b'O'
    ∷ single b'P'
    ∷ single b'Q'
    ∷ single b'R'
    ∷ single b'S'
    ∷ single b'T'
    ∷ single b'U'
    ∷ single b'V'
    ∷ single b'W'
    ∷ single b'X'
    ∷ single b'Y'
    ∷ single b'Z'
    ∷ percent b'5' b'B'
    ∷ single 92
    ∷ percent b'5' b'D'
    ∷ single b'^'
    ∷ single b'_'
    ∷ single b'`'
    ∷ single b'a'
    ∷ single b'b'
    ∷ single b'c'
    ∷ single b'd'
    ∷ single b'e'
    ∷ single b'f'
    ∷ single b'g'
    ∷ single b'h'
    ∷ single b'i'
    ∷ single b'j'
    ∷ single b'k'
    ∷ single b'l'
    ∷ single b'm'
    ∷ single b'n'
    ∷ single b'o'
    ∷ single b'p'
    ∷ single b'q'
    ∷ single b'r'
    ∷ single b's'
    ∷ single b't'
    ∷ single b'u'
    ∷ single b'v'
    ∷ single b'w'
    ∷ single b'x'
    ∷ single b'y'
    ∷ single b'z'
    ∷ single b'{'
    ∷ single b'|'
    ∷ single b'}'
    ∷ single b'~'
    ∷ percent b'7' b'F'
    ∷ percent b'8' b'0'
    ∷ percent b'8' b'1'
    ∷ percent b'8' b'2'
    ∷ percent b'8' b'3'
    ∷ percent b'8' b'4'
    ∷ percent b'8' b'5'
    ∷ percent b'8' b'6'
    ∷ percent b'8' b'7'
    ∷ percent b'8' b'8'
    ∷ percent b'8' b'9'
    ∷ percent b'8' b'A'
    ∷ percent b'8' b'B'
    ∷ percent b'8' b'C'
    ∷ percent b'8' b'D'
    ∷ percent b'8' b'E'
    ∷ percent b'8' b'F'
    ∷ percent b'9' b'0'
    ∷ percent b'9' b'1'
    ∷ percent b'9' b'2'
    ∷ percent b'9' b'3'
    ∷ percent b'9' b'4'
    ∷ percent b'9' b'5'
    ∷ percent b'9' b'6'
    ∷ percent b'9' b'7'
    ∷ percent b'9' b'8'
    ∷ percent b'9' b'9'
    ∷ percent b'9' b'A'
    ∷ percent b'9' b'B'
    ∷ percent b'9' b'C'
    ∷ percent b'9' b'D'
    ∷ percent b'9' b'E'
    ∷ percent b'9' b'F'
    ∷ percent b'A' b'0'
    ∷ percent b'A' b'1'
    ∷ percent b'A' b'2'
    ∷ percent b'A' b'3'
    ∷ percent b'A' b'4'
    ∷ percent b'A' b'5'
    ∷ percent b'A' b'6'
    ∷ percent b'A' b'7'
    ∷ percent b'A' b'8'
    ∷ percent b'A' b'9'
    ∷ percent b'A' b'A'
    ∷ percent b'A' b'B'
    ∷ percent b'A' b'C'
    ∷ percent b'A' b'D'
    ∷ percent b'A' b'E'
    ∷ percent b'A' b'F'
    ∷ percent b'B' b'0'
    ∷ percent b'B' b'1'
    ∷ percent b'B' b'2'
    ∷ percent b'B' b'3'
    ∷ percent b'B' b'4'
    ∷ percent b'B' b'5'
    ∷ percent b'B' b'6'
    ∷ percent b'B' b'7'
    ∷ percent b'B' b'8'
    ∷ percent b'B' b'9'
    ∷ percent b'B' b'A'
    ∷ percent b'B' b'B'
    ∷ percent b'B' b'C'
    ∷ percent b'B' b'D'
    ∷ percent b'B' b'E'
    ∷ percent b'B' b'F'
    ∷ percent b'C' b'0'
    ∷ percent b'C' b'1'
    ∷ percent b'C' b'2'
    ∷ percent b'C' b'3'
    ∷ percent b'C' b'4'
    ∷ percent b'C' b'5'
    ∷ percent b'C' b'6'
    ∷ percent b'C' b'7'
    ∷ percent b'C' b'8'
    ∷ percent b'C' b'9'
    ∷ percent b'C' b'A'
    ∷ percent b'C' b'B'
    ∷ percent b'C' b'C'
    ∷ percent b'C' b'D'
    ∷ percent b'C' b'E'
    ∷ percent b'C' b'F'
    ∷ percent b'D' b'0'
    ∷ percent b'D' b'1'
    ∷ percent b'D' b'2'
    ∷ percent b'D' b'3'
    ∷ percent b'D' b'4'
    ∷ percent b'D' b'5'
    ∷ percent b'D' b'6'
    ∷ percent b'D' b'7'
    ∷ percent b'D' b'8'
    ∷ percent b'D' b'9'
    ∷ percent b'D' b'A'
    ∷ percent b'D' b'B'
    ∷ percent b'D' b'C'
    ∷ percent b'D' b'D'
    ∷ percent b'D' b'E'
    ∷ percent b'D' b'F'
    ∷ percent b'E' b'0'
    ∷ percent b'E' b'1'
    ∷ percent b'E' b'2'
    ∷ percent b'E' b'3'
    ∷ percent b'E' b'4'
    ∷ percent b'E' b'5'
    ∷ percent b'E' b'6'
    ∷ percent b'E' b'7'
    ∷ percent b'E' b'8'
    ∷ percent b'E' b'9'
    ∷ percent b'E' b'A'
    ∷ percent b'E' b'B'
    ∷ percent b'E' b'C'
    ∷ percent b'E' b'D'
    ∷ percent b'E' b'E'
    ∷ percent b'E' b'F'
    ∷ percent b'F' b'0'
    ∷ percent b'F' b'1'
    ∷ percent b'F' b'2'
    ∷ percent b'F' b'3'
    ∷ percent b'F' b'4'
    ∷ percent b'F' b'5'
    ∷ percent b'F' b'6'
    ∷ percent b'F' b'7'
    ∷ percent b'F' b'8'
    ∷ percent b'F' b'9'
    ∷ percent b'F' b'A'
    ∷ percent b'F' b'B'
    ∷ percent b'F' b'C'
    ∷ percent b'F' b'D'
    ∷ percent b'F' b'E'
    ∷ percent b'F' b'F'
    ∷ []
