-- ===== src/Charstr/Atoms/Tests.antt =====
-- Runs of splitting at white space, and the theorems at concrete inputs.
use fsdyn.Prelude.{ℕ, ◌≡◌, refl, some, true, List, [], ◌∷◌, ◌++◌}
use fsdyn.Charstr.{is_whitespace}
use fsdyn.Charstr.Atoms.{
  skip_whitespace, take_atom, atoms_loop, charstr_split_atoms, drop_whitespace_end, charstr_strip,
}
use fsdyn.Charstr.Atoms.Words.{HasWords, all_white, charstr_split_atoms-HasWords}
use fsdyn.Charstr.Atoms.Strip.{begins_solid, ends_solid, charstr_strip-solid}

runs : Unit {0}
unfolding is_whitespace skip_whitespace take_atom atoms_loop charstr_split_atoms drop_whitespace_end
    charstr_strip
runs = tt

-- " ab c "
abbrev spaced : List ℕ
spaced = b' ' ∷ b'a' ∷ b'b' ∷ b' ' ∷ b'c' ∷ b' ' ∷ []

splits_spaced : charstr_split_atoms spaced ≡ some ((b'a' ∷ b'b' ∷ []) ∷ (b'c' ∷ []) ∷ [])
unfolding runs
splits_spaced = refl

strips_spaced : charstr_strip spaced ≡ b'a' ∷ b'b' ∷ b' ' ∷ b'c' ∷ []
unfolding runs
strips_spaced = refl

charstr_split_atoms-HasWords_example :
    (words : List (List ℕ)) × (charstr_split_atoms spaced ≡ some words) × HasWords spaced words
charstr_split_atoms-HasWords_example = charstr_split_atoms-HasWords spaced

charstr_strip-solid_example :
    (front back : List ℕ) × (spaced ≡ front ++ (charstr_strip spaced ++ back))
    × (all_white front ≡ true)
    × (all_white back ≡ true)
    × (begins_solid (charstr_strip spaced) ≡ true)
    × (ends_solid (charstr_strip spaced) ≡ true)
charstr_strip-solid_example = charstr_strip-solid spaced
