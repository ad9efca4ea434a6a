-- ===== src/Charstr/Split/Tests.antt =====
-- Runs of splitting and joining, and the theorems at concrete inputs.
use fsdyn.Prelude.{
  ℕ, ◌+◌, ◌-◌, ◌≤◌, ◌≡◌, refl, Option, none, some, List, [], ◌∷◌, ◌++◌, map, length, drop, arith,
}
use fsdyn.Charstr.Split.{
  strchr, split_loop, charstr_split, array_loop, charstr_split_into_array, join_loop, charstr_join,
}
use fsdyn.Charstr.Split.Pieces.{Divides, charstr_join-charstr_split}
use fsdyn.Charstr.Split.Arrays.{charstr_split_into_array-charstr_split}

runs : Unit {0}
unfolding strchr split_loop charstr_split array_loop charstr_split_into_array join_loop charstr_join
runs = tt

-- "a:b:"
abbrev fields : List ℕ
fields = b'a' ∷ b':' ∷ b'b' ∷ b':' ∷ []

abbrev slots : List (Option (List ℕ))
slots = none ∷ none ∷ none ∷ []

splits_twice : charstr_split fields b':' 5 ≡ some ((b'a' ∷ []) ∷ (b'b' ∷ []) ∷ [] ∷ [])
unfolding runs
splits_twice = refl

splits_once : charstr_split fields b':' 1 ≡ some ((b'a' ∷ []) ∷ (b'b' ∷ b':' ∷ []) ∷ [])
unfolding runs
splits_once = refl

charstr_join-charstr_split_example :
    (pieces : List (List ℕ)) × (charstr_split fields b':' 5 ≡ some pieces)
    × Divides b':' 5 fields pieces
    × (length pieces ≤ 5 + 1)
    × (charstr_join (b':' ∷ []) pieces ≡ fields)
charstr_join-charstr_split_example = charstr_join-charstr_split fields b':' 5 (omega arith)

charstr_split_into_array-charstr_split_example :
    (pieces : List (List ℕ)) × (charstr_split fields b':' 2 ≡ some pieces)
    × (charstr_split_into_array fields b':' slots 2
        ≡ some (map some pieces ++ drop (length pieces) slots, length pieces - 1))
charstr_split_into_array-charstr_split_example =
    charstr_split_into_array-charstr_split fields b':' 2 slots (omega arith) (omega arith)
