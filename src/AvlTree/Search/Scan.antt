-- ===== src/AvlTree/Search/Scan.antt =====
-- Scans of a list of elements: the first, and the last, whose key passes a test.
use Prim.Native.Nat.{Ordering}
use Prim.Native.Nat.Ordering.{lt, gt}
use fsdyn.Prelude.{
  ◌≡◌, refl, ap, Option, some, Bool, true, false, not, if◌then◌else◌, List, [], ◌∷◌, ◌++◌, arith,
}
use fsdyn.AvlTree.Comparator.{Comparator}
use fsdyn.AvlTree.Order.{All}

abbrev pub is_lt : Ordering → Bool
is_lt lt = true
is_lt _ = false

abbrev pub is_gt : Ordering → Bool
is_gt gt = true
is_gt _ = false

module _ {ℓ} {K : Type ℓ} ⦃c : Comparator K⦄ where
  -- The four tests on a key `j`, against the key that is looked for.
  abbrev pub before : K → K → Bool
  before q j = is_gt (c.cmp q j)

  abbrev pub on_or_before : K → K → Bool
  on_or_before q j = not (is_lt (c.cmp q j))

  abbrev pub after : K → K → Bool
  after q j = is_lt (c.cmp q j)

  abbrev pub on_or_after : K → K → Bool
  on_or_after q j = not (is_gt (c.cmp q j))

module _ {ℓ κ} {K : Type ℓ} {V : Type κ} where
  -- The first, and the last, element whose key passes the test; `d` if there is none.
  unfoldable pub first_where : (K → Bool) → List (K × V) → Option (K × V) → Option (K × V)
  first_where p [] d = d
  first_where p ((k, v) ∷ xs) d = if p k then some (k, v) else first_where p xs d

  unfoldable pub last_where : (K → Bool) → List (K × V) → Option (K × V) → Option (K × V)
  last_where p [] d = d
  last_where p ((k, v) ∷ xs) d = last_where p xs (if p k then some (k, v) else d)

  pub last_where-append :
      (p : K → Bool) (xs ys : List (K × V)) (d : Option (K × V))
      → last_where p (xs ++ ys) d ≡ last_where p ys (last_where p xs d)
  unfolding last_where
  last_where-append p [] ys d = refl
  last_where-append p ((k, v) ∷ xs) ys d = last_where-append p xs ys _

  pub first_where-append :
      (p : K → Bool) (xs ys : List (K × V)) (d : Option (K × V))
      → first_where p (xs ++ ys) d ≡ first_where p xs (first_where p ys d)
  unfolding first_where
  first_where-append p [] ys d = refl
  first_where-append p ((k, v) ∷ xs) ys d =
      ap (λ t. if p k then some (k, v) else t) (first_where-append p xs ys d)

  abbrev pub Fails : (K → Bool) → List (K × V) → Type 0
  Fails p xs = All (λ j. p j ≡ false) xs

  last_where-Fails :
      (p : K → Bool) (xs : List (K × V)) (d : Option (K × V)) → Fails p xs → last_where p xs d ≡ d
  unfolding last_where
  last_where-Fails p [] d h = refl
  last_where-Fails p ((k, v) ∷ xs) d h = ground (arith, last_where-Fails p xs d)

  first_where-Fails :
      (p : K → Bool) (xs : List (K × V)) (d : Option (K × V)) → Fails p xs → first_where p xs d ≡ d
  unfolding first_where
  first_where-Fails p [] d h = refl
  first_where-Fails p ((k, v) ∷ xs) d h = ground (arith, first_where-Fails p xs d)

  -- Behind an element that passes, and before the first of those that fail.
  pub last_pass :
      (p : K → Bool) (xs : List (K × V)) (k : K) (v : V) (ys : List (K × V)) (d : Option (K × V))
      → p k ≡ true
      → last_where p (xs ++ (k, v) ∷ ys) d ≡ last_where p ys (some (k, v))
  last_pass p xs k v ys d e = rw last_where-append (unfold last_where in simp e)

  pub last_fail :
      (p : K → Bool) (xs : List (K × V)) (k : K) (v : V) (ys : List (K × V)) (d : Option (K × V))
      → p k ≡ false
      → Fails p ys
      → last_where p (xs ++ (k, v) ∷ ys) d ≡ last_where p xs d
  last_fail p xs k v ys d e f =
      rw (last_where-append, last_where-Fails p ((k, v) ∷ ys) (last_where p xs d) (e, f))

  pub first_pass :
      (p : K → Bool) (xs : List (K × V)) (k : K) (v : V) (ys : List (K × V)) (d : Option (K × V))
      → p k ≡ true
      → first_where p (xs ++ (k, v) ∷ ys) d ≡ first_where p xs (some (k, v))
  first_pass p xs k v ys d e = rw first_where-append (unfold first_where in simp e)

  pub first_fail :
      (p : K → Bool) (xs : List (K × V)) (k : K) (v : V) (ys : List (K × V)) (d : Option (K × V))
      → p k ≡ false
      → Fails p xs
      → first_where p (xs ++ (k, v) ∷ ys) d ≡ first_where p ys d
  first_fail p xs k v ys d e f =
      rw (first_where-append, first_where-Fails p xs _ f) (unfold first_where in simp e)
