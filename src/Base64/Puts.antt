-- ===== src/Base64/Puts.antt =====
-- Single steps of `base64_encode_buffer` on a buffer whose beginning is written.
use mathlib.Core.List.{append_assoc}
use fsdyn.Prelude.{
  ℕ, ◌+◌, ◌-◌, ◌<◌, ◌≡◌, ap, Option, some, ◌>>=◌, List, [], ◌∷◌, ◌++◌, length, length-append, take,
  arith,
}
use fsdyn.Prelude.Buffers.{
  write, over, over_nil, write-over, over-append_full, write_last, take_all,
}
use fsdyn.Base64.{put1, put4, terminate}

pub put1-over :
    (xs dest : List ℕ) (i : ℕ) (c : ℕ)
    → i ≡ length xs
    → put1 (over xs dest) i (length dest) c ≡ some (over (xs ++ c ∷ []) dest)
unfolding put1
put1-over xs dest i c e = ground (arith, write-over xs dest c, over-append_full xs (c ∷ []) dest)

length-snoc {ℓ} : {A : Type ℓ} (xs : List A) (x : A) → length (xs ++ x ∷ []) ≡ length xs + 1
length-snoc xs x = length-append xs (x ∷ [])

pub put4-over :
    (xs dest : List ℕ) (i c0 c1 c2 c3 : ℕ)
    → i ≡ length xs
    → put4 (over xs dest) i (length dest) c0 c1 c2 c3
      ≡ some (over (xs ++ c0 ∷ c1 ∷ c2 ∷ c3 ∷ []) dest, i + 4)
unfolding put4
put4-over xs dest i c0 c1 c2 c3 e =
    let ys = xs ++ c0 ∷ [] in
    let zs = ys ++ c1 ∷ [] in
    let n1 = length-snoc xs c0 in
    let n2 = length-snoc ys c1 in
    let n3 = length-snoc zs c2 in
    rw
      (
        put1-over xs dest i c0 e,
        put1-over ys dest (i + 1) c1 (omega (arith, n1)),
        put1-over zs dest (i + 2) c2 (omega (arith, n1, n2)),
        put1-over (zs ++ c2 ∷ []) dest (i + 3) c3 (omega (arith, n1, n2, n3)),
      )
      (ap (λ r. some (over r dest, i + 4)) (simp append_assoc))

-- Four writes in a row, where there is room.
pub write-over_four {ℓ} :
    {A : Type ℓ} (next : List ℕ → Option A) (xs dest : List ℕ) (i c0 c1 c2 c3 : ℕ)
    → i ≡ length xs
    → i + 3 < length dest
    → (write (over xs dest) i c0 >>= λ d.
        write d (i + 1) c1 >>= λ d. write d (i + 2) c2 >>= λ d. write d (i + 3) c3 >>= λ d. next d)
      ≡ next (over (xs ++ c0 ∷ c1 ∷ c2 ∷ c3 ∷ []) dest)
write-over_four next xs dest i c0 c1 c2 c3 e h =
    let ys = xs ++ c0 ∷ [] in
    let zs = ys ++ c1 ∷ [] in
    let n1 = length-snoc xs c0 in
    let n2 = length-snoc ys c1 in
    let n3 = length-snoc zs c2 in
    rw
      (
        write_at xs dest i c0 e (omega arith),
        write_at ys dest (i + 1) c1 (omega (arith, n1)) (omega arith),
        write_at zs dest (i + 2) c2 (omega (arith, n1, n2)) (omega arith),
        write_at (zs ++ c2 ∷ []) dest (i + 3) c3 (omega (arith, n1, n2, n3)) (omega arith),
      )
      (ap (λ r. next (over r dest)) (simp append_assoc))
  where
    write_at :
        (xs dest : List ℕ) (i c : ℕ)
        → i ≡ length xs
        → i < length dest
        → write (over xs dest) i c ≡ some (over (xs ++ c ∷ []) dest)
    write_at xs dest i c e h = rw e (write-over xs dest c (omega arith))

pub at_end :
    (xs dest : List ℕ) (i : ℕ)
    → i ≡ length xs
    → ◌≡◌ {A = Option (List ℕ × ℕ)} (some (over xs dest, i)) (some (over xs dest, length xs))
at_end xs dest i n = ap (λ j. some (over xs dest, j)) n

-- What is left in the buffer: the text, as far as it goes, and a NUL.
pub terminate-over :
    (xs dest : List ℕ)
    → terminate (over xs dest) (length xs) (length dest)
      ≡ some (over (take (length dest - 1) xs ++ 0 ∷ []) dest)
unfolding terminate
terminate-over xs [] = ground (arith, over_nil xs)
terminate-over xs (d ∷ dest) = ground (
  arith,
  write-over xs (d ∷ dest) 0,
  take_all xs (length dest),
  write_last xs (d ∷ dest) (length dest) 0,
)
