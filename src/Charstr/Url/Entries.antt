-- ===== src/Charstr/Url/Entries.antt =====
-- The tables of the URL encoders of src/charstr.c, against the characters that include/charstr.h names.
use fsdyn.Prelude.{
  AllBytes, ℕ, ◌<◌, ◌≡◌, refl, ◌∙◌, ap, Bool-cases, inl, inr, Bool, true, false, ◌||◌, ◌==◌, ==_iff,
  if◌then◌else◌, List, [], ◌∷◌, length, get_or, set, get_or-set, length-set, arith,
}
use fsdyn.Prelude.Tables.{checked, checked-entry}
use fsdyn.Charstr.{same}
use fsdyn.Charstr.Prefix.{same_iff}
use fsdyn.Charstr.Classes.{is_digit, is_lower, is_upper}
use fsdyn.Charstr.UrlTable.{url_encoder, single}
use fsdyn.Charstr.Url.{
  UrlEncoder, percent_byte, add_reserve, add_unreserve, charstr_create_url_encoder,
  charstr_url_custom_encode_byte, charstr_url_encode_byte,
}

abbrev pub mem : ℕ → List ℕ → Bool
mem i [] = false
mem i (j ∷ p) = (j == i) || mem i p

-- "-./<>\^_`{|}~ and the double quote.
abbrev pub plain_marks : List ℕ
plain_marks =
    b'-' ∷ b'.' ∷ b'/' ∷ b'<' ∷ b'>' ∷ 92 ∷ b'^' ∷ b'_' ∷ b'`' ∷ b'{' ∷ b'|' ∷ b'}' ∷ b'~' ∷ b'"'
    ∷ []

abbrev pub is_plain : ℕ → Bool
is_plain i = is_digit i || is_lower i || is_upper i || mem i plain_marks

abbrev pub default_entry : ℕ → List ℕ
default_entry i = if i == b' ' then single b'+' else if is_plain i then single i else percent_byte i

-- The entry of an encoder.
abbrev pub entry_of : List ℕ → List ℕ → ℕ → List ℕ
entry_of reserve unreserve i =
    if mem i unreserve then single i else if mem i reserve then percent_byte i else default_entry i

is_default : ℕ → Bool
is_default i = same (charstr_url_encode_byte i) (default_entry i)

all_default : checked is_default 256 0 ≡ true
unfolding checked is_default
all_default = refl

url_encoder-default : (i : ℕ) → i < 256 → charstr_url_encode_byte i ≡ default_entry i
unfolding is_default
url_encoder-default i h =
    (same_iff (charstr_url_encode_byte i) (default_entry i)).0
      (checked-entry is_default 256 0 i all_default (omega arith) (omega arith))

add_reserve-entry :
    (table : UrlEncoder) (p : List ℕ) (i : ℕ)
    → length table ≡ 256
    → AllBytes p
    → (get_or (add_reserve table p) i [] ≡ (if mem i p then percent_byte i else get_or table i []))
      × (length (add_reserve table p) ≡ 256)
unfolding add_reserve
add_reserve-entry table [] i size h = (refl, size)
add_reserve-entry table (j ∷ p) i size h =
    let (rest, kept) =
      add_reserve-entry (set table j (percent_byte j)) p i
        (length-set table j (percent_byte j) ∙ size) h.1 in
    let here = get_or-set table j i (percent_byte j) [] (omega arith) in
    (rest ∙ ground (arith, here), kept)

add_unreserve-entry :
    (table : UrlEncoder) (p : List ℕ) (i : ℕ)
    → length table ≡ 256
    → AllBytes p
    → get_or (add_unreserve table p) i [] ≡ (if mem i p then single i else get_or table i [])
unfolding add_unreserve
add_unreserve-entry table [] i size h = refl
add_unreserve-entry table (j ∷ p) i size h =
    let rest =
      add_unreserve-entry (set table j (single j)) p i (length-set table j (single j) ∙ size) h.1 in
    let here = get_or-set table j i (single j) [] (omega arith) in rest ∙ ground (arith, here)

-- Every entry of an encoder: a character of `unreserve` stands for itself, another of `reserve` is
-- percent-encoded, a space is a plus sign, digits, letters and fourteen marks stand for themselves, and
-- the others are percent-encoded.
pub charstr_create_url_encoder-entry :
    (reserve unreserve : List ℕ) (i : ℕ)
    → AllBytes reserve
    → AllBytes unreserve
    → i < 256
    → charstr_url_custom_encode_byte (charstr_create_url_encoder reserve unreserve) i
      ≡ entry_of reserve unreserve i
unfolding charstr_create_url_encoder
charstr_create_url_encoder-entry reserve unreserve i r u h =
    let (entry, size) = add_reserve-entry url_encoder reserve i refl r in
    add_unreserve-entry (add_reserve url_encoder reserve) unreserve i size u
    ∙ rw (entry, url_encoder-default i h)

-- The shapes of an entry.
pub data Shape (reserve unreserve : List ℕ) (i : ℕ) : List ℕ → Type 0 where
  unreserved : mem i unreserve ≡ true → Shape reserve unreserve i (single i)
  encoded : Shape reserve unreserve i (percent_byte i)
  space :
      i ≡ b' ' → mem i unreserve || mem i reserve ≡ false → Shape reserve unreserve i (single b'+')
  plain : is_plain i ≡ true → Shape reserve unreserve i (single i)

pub entry_of-Shape :
    (reserve unreserve : List ℕ) (i : ℕ) → Shape reserve unreserve i (entry_of reserve unreserve i)
entry_of-Shape reserve unreserve i =
    by_tests (mem i unreserve) refl (mem i reserve) refl (i == b' ') refl (is_plain i) refl
  where
    by_tests :
        (u : Bool)
        → mem i unreserve ≡ u
        → (r : Bool) → mem i reserve ≡ r
        → (sp : Bool) → (i == b' ') ≡ sp
        → (pl : Bool) → is_plain i ≡ pl
        → Shape reserve unreserve i (
            if u
            then single i
            else if r
            then percent_byte i
            else if sp
            then single b'+'
            else if pl
            then single i
            else percent_byte i)
    by_tests true e r f sp g pl h = unreserved e
    by_tests false e true f sp g pl h = encoded
    by_tests false e false f true g pl h = space ((==_iff i b' ').0 g) (ground (arith, e, f))
    by_tests false e false f false g true h = plain h
    by_tests false e false f false g false h = encoded

-- Plain characters have no meaning of their own in a text.
pub plain-unmarked : (c : ℕ) → is_plain c ≡ true → ((c == b'%') ≡ false) × ((c == b'+') ≡ false)
plain-unmarked c e = (differs b'%' refl, differs b'+' refl)
  where
    differs : (m : ℕ) → is_plain m ≡ false → (c == m) ≡ false
    differs m f = elim (Bool-cases (c == m)) [
      | inl g ↦ let same = ap is_plain ((==_iff c m).0 g) in ground (arith, same)
      | inr g ↦ g
    ]
