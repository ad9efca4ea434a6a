-- ===== src/Charstr/Split/Arrays.antt =====
-- `charstr_split_into_array` of src/charstr.c, beside `charstr_split`.

use fsdyn.Prelude.{
  ℕ, zero, suc, ◌+◌, ◌-◌, ◌<◌, ◌≡◌, refl, sym, ap, ◌∙◌, Option, none, some, ◌>>=◌, bind-some, true,
  false, ◌==◌, ltb, List, [], ◌∷◌, ◌++◌, map, length, length-append, drop, set, arith,
}
use fsdyn.Charstr.Split.{
  strchr, split_loop, put_piece, array_loop, charstr_split_into_array, charstr_split,
}

set-append {ℓ} :
    {A : Type ℓ} (pre post : List A) (x v : A)
    → set (pre ++ x ∷ post) (length pre) v ≡ pre ++ v ∷ post
set-append [] post x v = refl
set-append (y ∷ pre) post x v = ap (λ zs. y ∷ zs) (set-append pre post x v)

put_piece-append :
    (pre post : List (Option (List ℕ))) (x : Option (List ℕ)) (piece : List ℕ)
    → put_piece (pre ++ x ∷ post) (length pre) piece ≡ some (pre ++ some piece ∷ post)
put_piece-append pre post x piece =
    let inside : ltb (length pre) (length (pre ++ x ∷ post)) ≡ true =
      ground (arith, length-append pre (x ∷ post)) in
    rw (inside, set-append pre post x (some piece)) refl

-- What the array holds behind the slots `pre`, and the index of the last piece.
abbrev pub filled :
    List (Option (List ℕ)) → List (Option (List ℕ)) → List (List ℕ) → List (Option (List ℕ)) × ℕ
filled pre post pieces =
    (pre ++ (map some pieces ++ drop (length pieces) post), length pre + (length pieces - 1))

array-last :
    (delim left : ℕ) (s : List ℕ) (pre post : List (Option (List ℕ)))
    → 0 < length post
    → (put_piece (pre ++ post) (length pre) s >>= λ array. some (array, length pre))
      ≡ some (filled pre post (s ∷ []))
array-last delim left s pre [] h = absurd (omega arith)
array-last delim left s pre (x ∷ post) h =
    let same : length pre + (length (s ∷ []) - 1) ≡ length pre = omega arith in
    bind-some _ _ _ _ (put_piece-append pre post x s) (rw same refl)

one_behind {ℓ} :
    {A : Type ℓ} (pre : List A) (y : A) (zs : List A) → pre ++ y ∷ zs ≡ (pre ++ y ∷ []) ++ zs
one_behind [] y zs = refl
one_behind (x ∷ pre) y zs = ap (λ ws. x ∷ ws) (one_behind pre y zs)

split_loop-pos : (delim : ℕ) (s : List ℕ) (left : ℕ) → 0 < length (split_loop delim s left)
unfolding split_loop
split_loop-pos delim s zero = omega arith
split_loop-pos delim s (suc left) = by_search (strchr s delim)
  where
    by_search :
        (o : Option (List ℕ × List ℕ))
        → 0
          < length (elim o as (λ _. List (List ℕ)) [
            | none ↦ s ∷ []
            | some (piece, rest) ↦ piece ∷ split_loop delim rest left
          ])
    by_search none = omega arith
    by_search (some (piece, rest)) = omega arith

filled-behind :
    (pre post : List (Option (List ℕ))) (x : Option (List ℕ)) (piece : List ℕ)
    (pieces : List (List ℕ))
    → 0 < length pieces
    → filled (pre ++ some piece ∷ []) post pieces ≡ filled pre (x ∷ post) (piece ∷ pieces)
filled-behind pre post x piece pieces h =
    let tail = map some pieces ++ drop (length pieces) post in
    let index : length (pre ++ some piece ∷ []) + (length pieces - 1)
        ≡ length pre + (length (piece ∷ pieces) - 1) =
      omega (arith, length-append pre (some piece ∷ []), h) in
    rw index (
      ap (λ a. (a, length pre + (length (piece ∷ pieces) - 1)))
        (sym (one_behind pre (some piece) tail)))

array-step :
    (delim left : ℕ) (s : List ℕ) (pre post : List (Option (List ℕ))) (o : Option (List ℕ × List ℕ))
    → strchr s delim ≡ o
    → suc left < length post
    → ((u : List ℕ) (pre' post' : List (Option (List ℕ)))
        → left < length post'
        → array_loop delim u (pre' ++ post') (length pre') left
          ≡ some (filled pre' post' (split_loop delim u left)))
    → array_loop delim s (pre ++ post) (length pre) (suc left)
      ≡ some (filled pre post (split_loop delim s (suc left)))
unfolding array_loop split_loop
array-step delim left s pre [] o e h next = absurd (omega arith)
array-step delim left s pre (x ∷ post) none e h next =
    rw (array_loop, split_loop, e) (array-last delim (suc left) s pre (x ∷ post) (omega arith))
array-step delim left s pre (x ∷ post) (some (piece, rest)) e h next =
    let put = put_piece-append pre post x piece in
    let room : left < length post = omega arith in
    let behind = next rest (pre ++ some piece ∷ []) post room in
    let count : length pre + 1 ≡ length (pre ++ some piece ∷ []) =
      omega (arith, length-append pre (some piece ∷ [])) in
    rw (array_loop, split_loop, e)
      (bind-some _ _ _ _ put (
        ap (λ a. array_loop delim rest a (length pre + 1) left) (one_behind pre (some piece) post)
        ∙ ap (λ n. array_loop delim rest ((pre ++ some piece ∷ []) ++ post) n left) count
        ∙ behind
        ∙ ap some (
            filled-behind pre post x piece (split_loop delim rest left)
              (split_loop-pos delim rest left))))

array_loop-filled :
    (delim left : ℕ) (s : List ℕ) (pre post : List (Option (List ℕ)))
    → left < length post
    → array_loop delim s (pre ++ post) (length pre) left
      ≡ some (filled pre post (split_loop delim s left))
unfolding array_loop split_loop
array_loop-filled delim zero s pre post h = array-last delim 0 s pre post (omega arith)
array_loop-filled delim (suc left) s pre post h =
    array-step delim left s pre post (strchr s delim) refl h
      (λ u pre' post' g. array_loop-filled delim left u pre' post' g)

-- With room for `max_split` + 1 strings `charstr_split_into_array` writes in bounds the pieces that
-- `charstr_split` gives, leaves the slots behind as they were, and returns the index of the last one.
pub charstr_split_into_array-charstr_split :
    (s : List ℕ) (delim max_split : ℕ) (array : List (Option (List ℕ)))
    → 0 < delim
    → max_split < length array
    → (pieces : List (List ℕ)) × (charstr_split s delim max_split ≡ some pieces)
      × (charstr_split_into_array s delim array max_split
          ≡ some (map some pieces ++ drop (length pieces) array, length pieces - 1))
unfolding charstr_split_into_array charstr_split
charstr_split_into_array-charstr_split s delim max_split array h room =
    let off : (delim == 0) ≡ false = ground (arith, h) in
    let pieces = split_loop delim s max_split in
    let index : 0 + (length pieces - 1) ≡ length pieces - 1 = omega arith in
    (
      pieces,
      rw off refl,
      array_loop-filled delim max_split s [] array room
          ∙ ap (λ n. some (map some pieces ++ drop (length pieces) array, n)) index,
    )
