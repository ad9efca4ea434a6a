-- ===== src/AvlTree/Order.antt =====
-- Sorted lists of elements, and what putting, finding and removing a key means for them: the
-- abstract view of a search tree.
use Prim.Native.Nat.Ordering.{lt, eq, gt}
use fsdyn.Prelude.{
  ◌+◌, length, is_none, if◌then◌else◌, ◌≡◌, ◌≢◌, refl, ap, Option, none, some, List, [], ◌∷◌, ◌++◌,
  arith,
}
use fsdyn.AvlTree.Comparator.{Comparator, ◌≺◌, gt_of_lt, lt_of_lt, lt_of_gt}

module _ {ℓ κ} {K : Type ℓ} {V : Type κ} where
  -- Every key satisfies `P`.
  abbrev pub All {μ} : (K → Type μ) → List (K × V) → Type μ
  All P [] = Unit
  All P ((k, v) ∷ xs) = P k × All P xs

  pub All-append {μ} :
      (P : K → Type μ) (xs ys : List (K × V)) → All P (xs ++ ys) → All P xs × All P ys
  All-append P [] ys h = (tt, h)
  All-append P ((k, v) ∷ xs) ys h = let (a, b) = All-append P xs ys h.1 in ((h.0, a), b)

  pub append-All {μ} :
      (P : K → Type μ) (xs ys : List (K × V)) → All P xs → All P ys → All P (xs ++ ys)
  append-All P [] ys h g = g
  append-All P ((k, v) ∷ xs) ys h g = (h.0, append-All P xs ys h.1 g)

  pub All-imp {μ ν} :
      {P : K → Type μ} {Q : K → Type ν}
      → ((k : K) → P k → Q k)
      → (xs : List (K × V)) → All P xs
      → All Q xs
  All-imp f [] h = tt
  All-imp f ((k, v) ∷ xs) h = (f k h.0, All-imp f xs h.1)

module _ {ℓ κ} {K : Type ℓ} {V : Type κ} ⦃c : Comparator K⦄ where
  -- Each key is less than all that follow it.
  abbrev pub IsSorted : List (K × V) → Type 0
  IsSorted [] = Unit
  IsSorted ((k, v) ∷ xs) = All (λ j. k ≺ j) xs × IsSorted xs

  -- The element with the key, if there is one.
  unfoldable pub find : K → List (K × V) → Option (K × V)
  find q [] = none
  find q ((k, v) ∷ xs) = elim (c.cmp q k) [ eq ↦ some (k, v) | _ ↦ find q xs ]

  -- Replace the element with the key, or put it before the first that is greater.
  unfoldable pub insert : K → V → List (K × V) → List (K × V)
  insert q w [] = (q, w) ∷ []
  insert q w ((k, v) ∷ xs) = elim (c.cmp q k) [
    | lt ↦ (q, w) ∷ (k, v) ∷ xs
    | eq ↦ (q, w) ∷ xs
    | gt ↦ (k, v) ∷ insert q w xs
  ]

  pub IsSorted-append :
      (xs : List (K × V)) (k : K) (v : V) (ys : List (K × V))
      → IsSorted (xs ++ (k, v) ∷ ys)
      → All (λ j. j ≺ k) xs × All (λ j. k ≺ j) ys × IsSorted xs × IsSorted ys
  IsSorted-append [] k v ys h = (tt, h.0, tt, h.1)
  IsSorted-append ((j, u) ∷ xs) k v ys h =
      let (below, above, sx, sy) = IsSorted-append xs k v ys h.1 in
      let (hx, hy) = All-append (λ i. j ≺ i) xs ((k, v) ∷ ys) h.0 in
      ((hy.0, below), above, (hx, sx), sy)

  -- A key greater than all of `xs` is looked for, and put, behind them.
  abbrev pub Passes : K → List (K × V) → Type 0
  Passes q xs = All (λ j. c.cmp q j ≡ gt) xs

  pub find-Passes : (q : K) (xs ys : List (K × V)) → Passes q xs → find q (xs ++ ys) ≡ find q ys
  unfolding find
  find-Passes q [] ys h = refl
  find-Passes q ((k, v) ∷ xs) ys h = rw h.0 (find-Passes q xs ys h.1)

  pub insert-Passes :
      (q : K) (w : V) (xs ys : List (K × V))
      → Passes q xs
      → insert q w (xs ++ ys) ≡ xs ++ insert q w ys
  unfolding insert
  insert-Passes q w [] ys h = refl
  insert-Passes q w ((k, v) ∷ xs) ys h = rw h.0 (ap (◌∷◌ (k, v)) (insert-Passes q w xs ys h.1))

  -- A key less than the one at `k` is put before it.
  pub insert-lt :
      (q : K) (w : V) (xs : List (K × V)) (k : K) (v : V) (ys : List (K × V))
      → q ≺ k
      → insert q w (xs ++ (k, v) ∷ ys) ≡ insert q w xs ++ (k, v) ∷ ys
  unfolding insert
  insert-lt q w [] k v ys h = rw h
  insert-lt q w ((j, u) ∷ xs) k v ys h = ground (arith, insert-lt q w xs k v ys)

  -- The two operations past, and at, an element.
  pub insert-gt :
      (q : K) (w : V) (k : K) (v : V) (xs : List (K × V))
      → c.cmp q k ≡ gt
      → insert q w ((k, v) ∷ xs) ≡ (k, v) ∷ insert q w xs
  unfolding insert
  insert-gt q w k v xs h = rw (h, insert)

  pub insert-eq :
      (q : K) (w : V) (k : K) (v : V) (xs : List (K × V))
      → c.cmp q k ≡ eq
      → insert q w ((k, v) ∷ xs) ≡ (q, w) ∷ xs
  unfolding insert
  insert-eq q w k v xs h = rw (h, insert)

  pub find-gt :
      (q k : K) (v : V) (xs : List (K × V)) → c.cmp q k ≡ gt → find q ((k, v) ∷ xs) ≡ find q xs
  unfolding find
  find-gt q k v xs h = rw (h, find)

  pub find-eq :
      (q k : K) (v : V) (xs : List (K × V)) → c.cmp q k ≡ eq → find q ((k, v) ∷ xs) ≡ some (k, v)
  unfolding find
  find-eq q k v xs h = rw (h, find)

  -- A key less than all of `ys` is not among them.
  pub find-none : (q : K) (ys : List (K × V)) → All (λ j. q ≺ j) ys → find q ys ≡ none
  unfolding find
  find-none q [] h = refl
  find-none q ((k, v) ∷ ys) h = rw (h.0, find) (find-none q ys h.1)

  pub find-lt :
      (q : K) (xs : List (K × V)) (k : K) (v : V) (ys : List (K × V))
      → q ≺ k
      → All (λ j. k ≺ j) ys
      → find q (xs ++ (k, v) ∷ ys) ≡ find q xs
  unfolding find
  find-lt q [] k v ys h above = rw h (find-none q ys (All-imp (λ j. c.lt_trans q k j h) ys above))
  find-lt q ((j, u) ∷ xs) k v ys h above = ground (arith, find-lt q xs k v ys h above)

  -- A key that does not come before `k` passes all that do.
  pub Passes-below :
      (q k : K) (xs : List (K × V)) → c.cmp q k ≢ lt → All (λ j. j ≺ k) xs → Passes q xs
  Passes-below q k xs h below = All-imp (λ j. gt_of_lt q k j h) xs below

  pub insert-All {μ} :
      (P : K → Type μ) (q : K) (w : V) (xs : List (K × V)) → P q → All P xs → All P (insert q w xs)
  unfolding insert
  insert-All P q w [] p h = (p, tt)
  insert-All P q w ((k, v) ∷ xs) p h = ground (arith, insert-All P q w xs p)

  Above-le :
      (q k : K) (xs : List (K × V)) → c.cmp q k ≢ gt → All (λ j. k ≺ j) xs → All (λ j. q ≺ j) xs
  Above-le q k xs h above = All-imp (λ j. lt_of_lt q k j h) xs above

  -- A sorted list stays sorted.
  pub insert-IsSorted : (q : K) (w : V) (xs : List (K × V)) → IsSorted xs → IsSorted (insert q w xs)
  unfolding insert
  insert-IsSorted q w [] h = (tt, tt)
  insert-IsSorted q w ((k, v) ∷ xs) h =
      ground (
        arith,
        Above-le q k xs,
        insert-IsSorted q w xs,
        insert-All (λ j. k ≺ j) q w xs,
        lt_of_gt q k,
      )

  -- The number of elements grows unless the key was there.
  pub length-insert :
      (q : K) (w : V) (xs : List (K × V))
      → IsSorted xs
      → length (insert q w xs) ≡ length xs + (if is_none (find q xs) then 1 else 0)
  unfolding insert find
  length-insert q w [] h = refl
  length-insert q w ((k, v) ∷ xs) h =
      ground (arith, Above-le q k xs, find-none q xs, length-insert q w xs h.1)

  -- After `insert q w` the key finds the new element, and any other key what it found before.
  pub find-insert :
      (p q : K) (w : V) (xs : List (K × V))
      → IsSorted xs
      → find p (insert q w xs) ≡ (elim (c.cmp p q) [ eq ↦ some (q, w) | _ ↦ find p xs ])
  unfolding find insert
  find-insert p q w [] h = refl
  find-insert p q w ((k, v) ∷ xs) h = ground (
    arith,
    find-insert p q w xs h.1,
    c.eq_trans p q k,
    c.eq_trans q k p,
    c.flips p q,
    c.flips p k,
    c.flips q k,
    c.eq_trans p k q,
  )

  -- The list without the element that has the key.
  unfoldable pub erase : K → List (K × V) → List (K × V)
  erase q [] = []
  erase q ((k, v) ∷ xs) = elim (c.cmp q k) [ eq ↦ xs | _ ↦ (k, v) ∷ erase q xs ]
