-- ===== src/Charstr/Split/Pieces.antt =====
-- The pieces that `charstr_split` and `charstr_split_into_array` of src/charstr.c make.
use mathlib.Core.List.{append-nil}
use fsdyn.Prelude.{
  ℕ, zero, suc, ◌+◌, ◌≤◌, ◌<◌, ◌≡◌, refl, ap, ◌∙◌, ◌⊎◌, inl, inr, Bool-cases, Option, none, some,
  ◌>>=◌, false, ◌==◌, ==_iff, List, [], ◌∷◌, ◌++◌, length, arith,
}
use fsdyn.Charstr.Split.{strchr, split_loop, charstr_split, join_loop, charstr_join}
use fsdyn.Charstr.Url.Entries.{mem}

-- What a search finds.
data Found (delim : ℕ) : List ℕ → Option (List ℕ × List ℕ) → Type 0 where
  nowhere : {s : List ℕ} → mem delim s ≡ false → Found delim s none
  at :
      {piece rest : List ℕ}
      → mem delim piece ≡ false
      → Found delim (piece ++ delim ∷ rest) (some (piece, rest))

found-behind :
    (delim c : ℕ) (s : List ℕ) (o : Option (List ℕ × List ℕ))
    → (c == delim) ≡ false
    → Found delim s o
    → Found delim (c ∷ s) (o >>= λ (piece, rest). some (c ∷ piece, rest))
found-behind delim c s o e (nowhere f) = nowhere (ground (arith, e, f))
found-behind delim c s o e (at {piece = piece} {rest = rest} f) =
    at {piece = c ∷ piece} {rest = rest} (ground (arith, e, f))

strchr-Found : (delim : ℕ) (s : List ℕ) → Found delim s (strchr s delim)
unfolding strchr
strchr-Found delim [] = nowhere refl
strchr-Found delim (c ∷ s) = elim (Bool-cases (c == delim)) [
  | inl e ↦ rw (e, (==_iff c delim).0 e) (at {piece = []} {rest = s} refl)
  | inr e ↦ rw e (found-behind delim c s _ e (strchr-Found delim s))
]

-- A string divided at a delimiter up to `left` times: no piece but the last has the delimiter, and the
-- last one has it only if the string has been divided that often.
pub data Divides (delim : ℕ) : ℕ → List ℕ → List (List ℕ) → Type 0 where
  whole :
      {left : ℕ} {s : List ℕ} → (left ≡ 0) ⊎ (mem delim s ≡ false) → Divides delim left s (s ∷ [])
  cut :
      {left : ℕ} {piece rest : List ℕ} {pieces : List (List ℕ)}
      → mem delim piece ≡ false
      → Divides delim left rest pieces
      → Divides delim (suc left) (piece ++ delim ∷ rest) (piece ∷ pieces)

split-step :
    (delim left : ℕ) (s : List ℕ) (o : Option (List ℕ × List ℕ))
    → Found delim s o
    → ((u : List ℕ) → Divides delim left u (split_loop delim u left))
    → Divides delim
        (suc left)
        s
        (elim o [ none ↦ s ∷ [] | some (piece, rest) ↦ piece ∷ split_loop delim rest left ])
split-step delim left s none (nowhere e) next = whole (inr e)
split-step delim left s (some (piece, rest)) (at e) next = cut e (next rest)

split_loop-Divides :
    (delim : ℕ) (s : List ℕ) (left : ℕ) → Divides delim left s (split_loop delim s left)
unfolding split_loop
split_loop-Divides delim s zero = whole (inl refl)
split_loop-Divides delim s (suc left) =
    split-step delim left s (strchr s delim) (strchr-Found delim s)
      (λ u. split_loop-Divides delim u left)

join_loop-join :
    (delim left : ℕ) (s : List ℕ) (pieces : List (List ℕ))
    → Divides delim left s pieces
    → join_loop (delim ∷ []) pieces ≡ delim ∷ charstr_join (delim ∷ []) pieces
unfolding join_loop charstr_join
join_loop-join delim left s pieces (whole e) = refl
join_loop-join delim left s pieces (cut e r) = refl

join-Divides :
    (delim left : ℕ) (s : List ℕ) (pieces : List (List ℕ))
    → Divides delim left s pieces
    → (charstr_join (delim ∷ []) pieces ≡ s) × (length pieces ≤ left + 1)
unfolding charstr_join join_loop
join-Divides delim left s pieces (whole e) = (append-nil _, omega arith)
join-Divides delim left s pieces
      (cut {left = n} {piece = piece} {rest = rest} {pieces = others} e r) =
    let (joined, few) = join-Divides delim n rest others r in
    (
      ap (λ t. piece ++ t) (join_loop-join delim n rest others r ∙ ap (λ t. delim ∷ t) joined),
      omega (arith, few),
    )

-- `charstr_split` at a character other than NUL divides the string up to `max_split` times, and
-- `charstr_join` of the pieces with that character gives the string back.
pub charstr_join-charstr_split :
    (s : List ℕ) (delim max_split : ℕ)
    → 0 < delim
    → (pieces : List (List ℕ)) × (charstr_split s delim max_split ≡ some pieces)
      × Divides delim max_split s pieces
      × (length pieces ≤ max_split + 1)
      × (charstr_join (delim ∷ []) pieces ≡ s)
unfolding charstr_split
charstr_join-charstr_split s delim max_split h =
    let off : (delim == 0) ≡ false = ground (arith, h) in
    let d = split_loop-Divides delim s max_split in
    let (joined, few) = join-Divides delim max_split s (split_loop delim s max_split) d in
    (split_loop delim s max_split, rw off refl, d, few, joined)
