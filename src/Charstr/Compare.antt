-- ===== src/Charstr/Compare.antt =====
-- The comparisons of src/charstr.c, against the order of the lower-case strings.
use Prim.Native.Nat.{compare}
use Prim.Native.Nat.Ordering.{lt, eq, gt}
use fsdyn.Prelude.{
  ℕ, zero, suc, ◌<◌, ◌≡◌, refl, some, Bool, true, leb, leb→le, List, [], ◌∷◌, take, arith,
}
use fsdyn.Prelude.Int.{ℤ, pos, negsuc}
use fsdyn.Prelude.Tables.{checked, checked-entry}
use fsdyn.Charstr.{charstr_lcase_char, charstr_lcase_str, charstr_case_cmp, charstr_ncase_cmp}

-- The characters of a C string: no NUL among them.
abbrev pub IsText : List ℕ → Type 0
IsText [] = Unit
IsText (c ∷ s) = (0 < c) × (c < 256) × IsText s

-- The order of strings: -1, 0 or 1.
unfoldable pub lex : List ℕ → List ℕ → ℤ
lex [] [] = pos 0
lex [] (d ∷ b) = negsuc 0
lex (c ∷ a) [] = pos 1
lex (c ∷ a) (d ∷ b) = elim (compare c d) [ lt ↦ negsuc 0 | gt ↦ pos 1 | eq ↦ lex a b ]

lcase_is_char : ℕ → Bool
lcase_is_char c = leb 1 (charstr_lcase_char c)

lcase_all : checked lcase_is_char 255 1 ≡ true
unfolding checked lcase_is_char charstr_lcase_char
lcase_all = refl

-- No character but the NUL has the lower case NUL.
pub lcase_pos : (c : ℕ) → 0 < c → c < 256 → 0 < charstr_lcase_char c
unfolding lcase_is_char
lcase_pos c lo hi =
    leb→le 1 (charstr_lcase_char c)
      (checked-entry lcase_is_char 255 1 c lcase_all (omega arith) (omega arith))

lcase_nul : charstr_lcase_char 0 ≡ 0
unfolding charstr_lcase_char
lcase_nul = refl

charstr_case_cmp-lex :
    (a b : List ℕ)
    → IsText a
    → IsText b
    → charstr_case_cmp a b ≡ some (lex (charstr_lcase_str a) (charstr_lcase_str b))
unfolding charstr_case_cmp lex
charstr_case_cmp-lex [] [] h g = refl
charstr_case_cmp-lex [] (d ∷ b) h g = ground arith
charstr_case_cmp-lex (c ∷ a) [] h g = ground (arith, lcase_pos c h.0 h.1, lcase_nul)
charstr_case_cmp-lex (c ∷ a) (d ∷ b) h g = ground (arith, charstr_case_cmp-lex a b h.2 g.2)

charstr_ncase_cmp-lex :
    (a b : List ℕ) (n : ℕ)
    → IsText a
    → IsText b
    → charstr_ncase_cmp a b n
      ≡ some (lex (charstr_lcase_str (take n a)) (charstr_lcase_str (take n b)))
unfolding charstr_ncase_cmp lex
charstr_ncase_cmp-lex a b zero h g = refl
charstr_ncase_cmp-lex [] [] (suc n) h g = refl
charstr_ncase_cmp-lex [] (d ∷ b) (suc n) h g = ground arith
charstr_ncase_cmp-lex (c ∷ a) [] (suc n) h g = ground (arith, lcase_pos c h.0 h.1, lcase_nul)
charstr_ncase_cmp-lex (c ∷ a) (d ∷ b) (suc n) h g =
    ground (arith, charstr_ncase_cmp-lex a b n h.2 g.2)

-- Both comparisons of C strings read no character behind a NUL, and give the order of the strings in
-- lower case, of their first `n` characters for `charstr_ncase_cmp`.
pub case_cmps-lex :
    (a b : List ℕ) (n : ℕ)
    → IsText a
    → IsText b
    → (charstr_case_cmp a b ≡ some (lex (charstr_lcase_str a) (charstr_lcase_str b)))
      × (charstr_ncase_cmp a b n
          ≡ some (lex (charstr_lcase_str (take n a)) (charstr_lcase_str (take n b))))
case_cmps-lex a b n h g = (charstr_case_cmp-lex a b h g, charstr_ncase_cmp-lex a b n h g)
