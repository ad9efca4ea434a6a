-- ===== src/AvlTree/Search/Correct.antt =====
-- The searches of src/avltree.c on a sorted tree, against scans of the elements from first to last.

use Prim.Native.Nat.Ordering.{lt, gt}
use fsdyn.Prelude.{◌≡◌, ◌≢◌, refl, ap, Option, some, not, List, ◌∷◌, arith}
use fsdyn.AvlTree.{Tree, leaf, node, flatten}
use fsdyn.AvlTree.Comparator.{Comparator, ◌≺◌, gt_of_lt, lt_of_lt}
use fsdyn.AvlTree.Order.{
  All, All-imp, IsSorted, IsSorted-append, find, find-Passes, find-lt, find-gt, find-eq,
  Passes-below,
}
use fsdyn.AvlTree.Search.{get, get_before, get_on_or_before, get_after, get_on_or_after}
use fsdyn.AvlTree.Search.Scan.{
  is_lt, is_gt, before, on_or_before, after, on_or_after, first_where, last_where, Fails, last_pass,
  last_fail, first_pass, first_fail,
}

module _ {ℓ κ} {K : Type ℓ} {V : Type κ} ⦃c : Comparator K⦄ where
  Fails-before :
      (q k : K) (ys : List (K × V)) → c.cmp q k ≢ gt → All (λ j. k ≺ j) ys → Fails (before q) ys
  Fails-before q k ys h a = All-imp (λ j m. ap is_gt (lt_of_lt q k j h m)) ys a

  Fails-on_or_before :
      (q k : K) (ys : List (K × V))
      → c.cmp q k ≡ lt
      → All (λ j. k ≺ j) ys
      → Fails (on_or_before q) ys
  Fails-on_or_before q k ys h a =
      All-imp (λ j m. ap (λ o. not (is_lt o)) (c.lt_trans q k j h m)) ys a

  Fails-after :
      (q k : K) (xs : List (K × V)) → c.cmp q k ≢ lt → All (λ j. j ≺ k) xs → Fails (after q) xs
  Fails-after q k xs h a = All-imp (λ j m. ap is_lt (gt_of_lt q k j h m)) xs a

  Fails-on_or_after :
      (q k : K) (xs : List (K × V))
      → c.cmp q k ≡ gt
      → All (λ j. j ≺ k) xs
      → Fails (on_or_after q) xs
  Fails-on_or_after q k xs h a =
      All-imp (λ j m. ap (λ o. not (is_gt o)) (gt_of_lt q k j (λ f. cc) m)) xs a

  pub get_before-last_where :
      (q : K) (t : Tree K V) (d : Option (K × V))
      → IsSorted (flatten t)
      → get_before q t d ≡ last_where (before q) (flatten t) d
  unfolding get_before
  get_before-last_where q leaf d s = unfold last_where in refl
  get_before-last_where q (node l k v b r) d s =
      let (below, above, sl, sr) = IsSorted-append (flatten l) k v (flatten r) s in
      ground (
        arith,
        get_before-last_where q l d sl,
        get_before-last_where q r (some (k, v)) sr,
        last_pass (before q) (flatten l) k v (flatten r) d,
        last_fail (before q) (flatten l) k v (flatten r) d,
        Fails-before q k (flatten r),
      )

  pub get_on_or_before-last_where :
      (q : K) (t : Tree K V) (d : Option (K × V))
      → IsSorted (flatten t)
      → get_on_or_before q t d ≡ last_where (on_or_before q) (flatten t) d
  unfolding get_on_or_before
  get_on_or_before-last_where q leaf d s = unfold last_where in refl
  get_on_or_before-last_where q (node l k v b r) d s =
      let (below, above, sl, sr) = IsSorted-append (flatten l) k v (flatten r) s in
      ground (
        arith,
        get_on_or_before-last_where q l d sl,
        get_on_or_before-last_where q r (some (k, v)) sr,
        last_pass (on_or_before q) (flatten l) k v (flatten r) d,
        last_fail (on_or_before q) (flatten l) k v (flatten r) d,
        Fails-on_or_before q k (flatten r),
      )

  pub get_after-first_where :
      (q : K) (t : Tree K V) (d : Option (K × V))
      → IsSorted (flatten t)
      → get_after q t d ≡ first_where (after q) (flatten t) d
  unfolding get_after
  get_after-first_where q leaf d s = unfold first_where in refl
  get_after-first_where q (node l k v b r) d s =
      let (below, above, sl, sr) = IsSorted-append (flatten l) k v (flatten r) s in
      ground (
        arith,
        get_after-first_where q l (some (k, v)) sl,
        get_after-first_where q r d sr,
        first_pass (after q) (flatten l) k v (flatten r) d,
        first_fail (after q) (flatten l) k v (flatten r) d,
        Fails-after q k (flatten l),
      )

  pub get_on_or_after-first_where :
      (q : K) (t : Tree K V) (d : Option (K × V))
      → IsSorted (flatten t)
      → get_on_or_after q t d ≡ first_where (on_or_after q) (flatten t) d
  unfolding get_on_or_after
  get_on_or_after-first_where q leaf d s = unfold first_where in refl
  get_on_or_after-first_where q (node l k v b r) d s =
      let (below, above, sl, sr) = IsSorted-append (flatten l) k v (flatten r) s in
      ground (
        arith,
        get_on_or_after-first_where q l (some (k, v)) sl,
        get_on_or_after-first_where q r d sr,
        first_pass (on_or_after q) (flatten l) k v (flatten r) d,
        first_fail (on_or_after q) (flatten l) k v (flatten r) d,
        Fails-on_or_after q k (flatten l),
      )

  pub get-find : (q : K) (t : Tree K V) → IsSorted (flatten t) → get q t ≡ find q (flatten t)
  unfolding get
  get-find q leaf s = unfold find in refl
  get-find q (node l k v b r) s =
      let (below, above, sl, sr) = IsSorted-append (flatten l) k v (flatten r) s in
      ground (
        arith,
        get-find q l sl,
        get-find q r sr,
        find-lt q (flatten l) k v (flatten r),
        find-Passes q (flatten l) ((k, v) ∷ flatten r),
        Passes-below q k (flatten l),
        find-gt q k v (flatten r),
        find-eq q k v (flatten r),
      )
