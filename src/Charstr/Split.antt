-- ===== src/Charstr/Split.antt =====
-- Splitting and joining in src/charstr.c. A `list_t` of strings is a list of lists of characters, to
-- which `list_append` adds at the end; `none` is a read behind the NUL of the string, or a write behind
-- the array. The byte array of `charstr_join` is the list of its characters, its limit being the
-- greatest size.
pub mod Pieces
pub mod Arrays
mod Tests
use fsdyn.Prelude.{
  ℕ, zero, suc, ◌+◌, ◌<◌, Option, none, some, ◌>>=◌, Bool, true, false, ltb, ◌==◌, if◌then◌else◌,
  List, [], ◌∷◌, ◌++◌, length, set,
}

-- `strchr`, for a character other than NUL: the text up to the character, and the text behind it.
unfoldable pub strchr : List ℕ → ℕ → Option (List ℕ × List ℕ)
strchr [] delim = none
strchr (c ∷ s) delim =
    let further = strchr s delim in
    if c == delim then some ([], s) else (further >>= λ (piece, rest). some (c ∷ piece, rest))

-- The loop of `charstr_split`; `max_split` counts down.
unfoldable pub split_loop : ℕ → List ℕ → ℕ → List (List ℕ)
split_loop delim s zero = s ∷ []
split_loop delim s (suc max_split) = elim (strchr s delim) [
  | none ↦ s ∷ []
  | some (piece, rest) ↦ piece ∷ split_loop delim rest max_split
]

-- A NUL is found at the end of the string, and the next search begins behind it.
unfoldable pub charstr_split : List ℕ → ℕ → ℕ → Option (List (List ℕ))
charstr_split s delim max_split =
    if delim == 0
    then (if max_split == 0 then some (s ∷ []) else none)
    else some (split_loop delim s max_split)

-- `array[i] = piece`
abbrev pub put_piece : List (Option (List ℕ)) → ℕ → List ℕ → Option (List (Option (List ℕ)))
put_piece array i piece = if ltb i (length array) then some (set array i (some piece)) else none

-- The loop of `charstr_split_into_array`, with `max_split - i` rounds left, and its last write.
unfoldable pub array_loop :
    ℕ → List ℕ → List (Option (List ℕ)) → ℕ → ℕ → Option (List (Option (List ℕ)) × ℕ)
array_loop delim s array i zero = do array ← put_piece array i s; some (array, i)
array_loop delim s array i (suc left) = elim (strchr s delim) [
  | none ↦ put_piece array i s >>= λ array. some (array, i)
  | some (piece, rest) ↦
      put_piece array i piece >>= λ array. array_loop delim rest array (i + 1) left
]

-- For a delimiter other than NUL.
unfoldable pub charstr_split_into_array :
    List ℕ → ℕ → List (Option (List ℕ)) → ℕ → Option (List (Option (List ℕ)) × ℕ)
charstr_split_into_array s delim array max_split = array_loop delim s array 0 max_split

-- The loop of `charstr_join` behind the first string.
unfoldable pub join_loop : List ℕ → List (List ℕ) → List ℕ
join_loop joiner [] = []
join_loop joiner (string ∷ e) = joiner ++ string ++ join_loop joiner e

unfoldable pub charstr_join : List ℕ → List (List ℕ) → List ℕ
charstr_join joiner [] = []
charstr_join joiner (string ∷ e) = string ++ join_loop joiner e
