-- ===== src/Prelude/Buffers.antt =====
-- Writes to a buffer, and a buffer whose beginning was written over.
use Prim.Native.Nat.{ℕ, zero, suc, ◌≤◌, ◌<◌}
use mathlib.Core.Path.{◌≡◌, refl, sym, ap, ◌∙◌}
use mathlib.Core.List.{List, [], ◌∷◌, ◌++◌}
use mathlib.Core.Option.{Option, none, some}
use native.Mathlib.Omega.{arith}
use fsdyn.Prelude.Lists.{length, take}

module _ {ℓ} {A : Type ℓ} where
  -- A write out of bounds is undefined.
  unfoldable pub write : List A → ℕ → A → Option (List A)
  write [] i c = none
  write (d ∷ dest) zero c = some (c ∷ dest)
  write (d ∷ dest) (suc i) c = elim (write dest i c) [ none ↦ none | some r ↦ some (d ∷ r) ]

  -- `xs`, as far as there is room, written over the beginning of a buffer.
  abbrev pub over : List A → List A → List A
  over [] dest = dest
  over (x ∷ xs) [] = []
  over (x ∷ xs) (d ∷ dest) = x ∷ over xs dest

  pub length-over : (xs dest : List A) → length (over xs dest) ≡ length dest
  length-over [] dest = refl
  length-over (x ∷ xs) [] = refl
  length-over (x ∷ xs) (d ∷ dest) = ap suc (length-over xs dest)

  pub write-over :
      (xs dest : List A) (c : A)
      → length xs < length dest
      → write (over xs dest) (length xs) c ≡ some (over (xs ++ c ∷ []) dest)
  unfolding write
  write-over [] [] c h = absurd (omega arith)
  write-over [] (d ∷ dest) c h = refl
  write-over (x ∷ xs) [] c h = absurd (omega arith)
  write-over (x ∷ xs) (d ∷ dest) c h = rw (write-over xs dest c (omega arith)) refl

  pub over_nil : (xs : List A) → over xs [] ≡ []
  over_nil [] = refl
  over_nil (x ∷ xs) = refl

  pub over_empty : (xs dest : List A) → length dest ≡ 0 → over xs dest ≡ dest
  over_empty xs [] e = over_nil xs
  over_empty xs (d ∷ dest) e = absurd (omega arith)

  -- What is written behind the end is lost.
  pub over-append_full :
      (xs ys dest : List A) → length dest ≤ length xs → over (xs ++ ys) dest ≡ over xs dest
  over-append_full xs ys [] h = over_nil (xs ++ ys) ∙ sym (over_nil xs)
  over-append_full [] ys (d ∷ dest) h = absurd (omega arith)
  over-append_full (x ∷ xs) ys (d ∷ dest) h = ap (◌∷◌ x) (over-append_full xs ys dest (omega arith))

  -- The last place of a full buffer.
  pub write_last :
      (xs dest : List A) (n : ℕ) (c : A)
      → length dest ≡ suc n
      → suc n ≤ length xs
      → write (over xs dest) n c ≡ some (over (take n xs ++ c ∷ []) dest)
  unfolding write
  write_last xs [] n c e h = absurd (omega arith)
  write_last [] (d ∷ dest) n c e h = absurd (omega arith)
  write_last (x ∷ xs) (d ∷ dest) zero c e h = rw (over_empty xs dest (omega arith)) refl
  write_last (x ∷ xs) (d ∷ dest) (suc n) c e h =
      rw (write_last xs dest n c (omega arith) (omega arith)) refl

  pub take_all : (xs : List A) (n : ℕ) → length xs ≤ n → take n xs ≡ xs
  take_all [] zero h = refl
  take_all [] (suc n) h = refl
  take_all (x ∷ xs) zero h = absurd (omega arith)
  take_all (x ∷ xs) (suc n) h = ap (◌∷◌ x) (take_all xs n (omega arith))

  -- A buffer of the right size is written over as a whole.
  pub over_all : (xs dest : List A) → length xs ≡ length dest → over xs dest ≡ xs
  over_all [] [] e = refl
  over_all [] (d ∷ dest) e = absurd (omega arith)
  over_all (x ∷ xs) [] e = absurd (omega arith)
  over_all (x ∷ xs) (d ∷ dest) e = ap (◌∷◌ x) (over_all xs dest (omega arith))

  pub write-inside :
      (dest : List A) (i : ℕ) (c : A)
      → i < length dest
      → (r : List A) × (write dest i c ≡ some r) × (length r ≡ length dest)
  unfolding write
  write-inside [] i c h = absurd (omega arith)
  write-inside (d ∷ dest) zero c h = (c ∷ dest, refl, refl)
  write-inside (d ∷ dest) (suc i) c h =
      let (r, e, n) = write-inside dest i c (omega arith) in (d ∷ r, rw e refl, ap suc n)
