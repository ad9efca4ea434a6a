-- ===== src/Charstr/Atoms.antt =====
-- `charstr_split_atoms` and `charstr_strip` of src/charstr.c. A list of strings is a list of lists of
-- characters, to which `list_append` adds at the end. That `charstr_strip` passes a null `s` on is left
-- out.
pub mod Words
pub mod Strip
mod Tests
use fsdyn.Prelude.{
  ℕ, zero, suc, Option, none, some, ◌>>=◌, Bool, true, false, if◌then◌else◌, List, [], ◌∷◌, ◌++◌,
  length,
}
use fsdyn.Charstr.{is_whitespace}

-- The loop that moves `s` over white space.
unfoldable pub skip_whitespace : List ℕ → List ℕ
skip_whitespace [] = []
skip_whitespace (c ∷ s) = let rest = skip_whitespace s in if is_whitespace c then rest else c ∷ s

-- The loop that moves `p` to the next white space or the end: what is between, and the rest.
unfoldable pub take_atom : List ℕ → List ℕ × List ℕ
take_atom [] = ([], [])
take_atom (c ∷ p) =
    let (atom, rest) = take_atom p in if is_whitespace c then ([], c ∷ p) else (c ∷ atom, rest)

-- The outer loop; `none` is an exhausted fuel.
unfoldable pub atoms_loop : ℕ → List ℕ → Option (List (List ℕ))
atoms_loop zero s = elim (skip_whitespace s) [ [] ↦ some [] | c ∷ p ↦ none ]
atoms_loop (suc fuel) s = elim (skip_whitespace s) [
  | [] ↦ some []
  | c ∷ p ↦
      let (atom, rest) = take_atom p in atoms_loop fuel rest >>= λ list. some ((c ∷ atom) ∷ list)
]

-- Each round takes a character or more, so the length is enough fuel.
unfoldable pub charstr_split_atoms : List ℕ → Option (List (List ℕ))
charstr_split_atoms s = atoms_loop (length s) s

-- The loop that moves `end` back over white space, from the end to `s`.
unfoldable pub drop_whitespace_end : List ℕ → List ℕ
drop_whitespace_end [] = []
drop_whitespace_end (c ∷ s) = elim (drop_whitespace_end s) [
  | [] ↦ if is_whitespace c then [] else c ∷ []
  | d ∷ rest ↦ c ∷ d ∷ rest
]

unfoldable pub charstr_strip : List ℕ → List ℕ
charstr_strip s = drop_whitespace_end (skip_whitespace s)
