-- ===== src/AvlTree/Put/Correct.antt =====
-- `put` and `avl_tree_put` of src/avltree.c on a balanced, sorted tree, against the abstract `insert`.
use Prim.Native.Nat.{Ordering}
use Prim.Native.Nat.Ordering.{lt, eq, gt}
use fsdyn.Prelude.{
  ℕ, ◌+◌, ◌≡◌, refl, ap, Option, some, ◌>>=◌, Bool, true, false, if◌then◌else◌, List, ◌∷◌, ◌++◌,
  length, arith,
}
use fsdyn.Prelude.Int.{ℤ}
use fsdyn.AvlTree.{Tree, leaf, node, AvlTree, flatten}
use fsdyn.AvlTree.Comparator.{Comparator}
use fsdyn.AvlTree.Order.{
  IsSorted, find, insert, IsSorted-append, find-Passes, insert-Passes, insert-lt, find-lt,
  insert-gt, insert-eq, find-gt, find-eq, Passes-below,
}
use fsdyn.AvlTree.Balance.{height, IsBalanced}
use fsdyn.AvlTree.Put.{put_left, put_right, put}
use fsdyn.AvlTree.Valid.{IsValid}
use fsdyn.AvlTree.Put.{put_root, avl_tree_put}
use fsdyn.AvlTree.Order.{insert-IsSorted, length-insert}
use fsdyn.AvlTree.Put.Left.{IsPut, put_left-leaf, put_left-node}
use fsdyn.AvlTree.Put.Right.{put_right-leaf, put_right-node}

-- `put`.
module _ {ℓ κ} {K : Type ℓ} {V : Type κ} ⦃c : Comparator K⦄ where
  abbrev Puts : K → V → Tree K V → Type (ℓ ⊔ κ)
  Puts q w t = IsPut (height t) (insert q w (flatten t)) (find q (flatten t)) (put q w t)

  abbrev IsNode : Tree K V → Type 0
  IsNode leaf = ⊥
  IsNode (node l k v b r) = Unit

  put_left-IsPut :
      (q : K) (w : V) (l : Tree K V) (k : K) (v : V) (b : ℤ) (r : Tree K V)
      → IsBalanced (node l k v b r)
      → (IsNode l → Puts q w l)
      → IsPut
          (height (node l k v b r))
          (insert q w (flatten l) ++ (k, v) ∷ flatten r)
          (find q (flatten l))
          (put_left (put q w l) q w l k v b r)
  put_left-IsPut q w leaf k v b r h rec = unfold insert find in put_left-leaf _ q w k v b r h
  put_left-IsPut q w (node ll lk lv lb lr) k v b r h rec =
      put_left-node ll lk lv lb lr _ _ _ q w k v b r h (rec tt)

  put_right-IsPut :
      (q : K) (w : V) (l : Tree K V) (k : K) (v : V) (b : ℤ) (r : Tree K V)
      → IsBalanced (node l k v b r)
      → (IsNode r → Puts q w r)
      → IsPut
          (height (node l k v b r))
          (flatten l ++ (k, v) ∷ insert q w (flatten r))
          (find q (flatten r))
          (put_right (put q w r) q w l k v b r)
  put_right-IsPut q w l k v b leaf h rec = unfold insert find in put_right-leaf _ q w l k v b h
  put_right-IsPut q w l k v b (node rl rk rv rb rr) h rec =
      put_right-node rl rk rv rb rr _ _ _ q w l k v b h (rec tt)

  -- One level of `put`, given what the calls on the children do.
  put-step :
      (q : K) (w : V) (l : Tree K V) (k : K) (v : V) (b : ℤ) (r : Tree K V) (o : Ordering)
      → c.cmp q k ≡ o
      → IsBalanced (node l k v b r)
      → IsSorted (flatten (node l k v b r))
      → (IsNode l → Puts q w l)
      → (IsNode r → Puts q w r)
      → Puts q w (node l k v b r)
  unfolding put
  put-step q w l k v b r lt e h s left right =
      let (below, above, sl, sr) = IsSorted-append (flatten l) k v (flatten r) s in
      rw
        (
          insert-lt q w (flatten l) k v (flatten r) e,
          find-lt q (flatten l) k v (flatten r) e above,
          put,
          e,
        )
        (put_left-IsPut q w l k v b r h left)
  put-step q w l k v b r gt e h s left right =
      let (below, above, sl, sr) = IsSorted-append (flatten l) k v (flatten r) s in
      let pass = Passes-below q k (flatten l) (λ f. cc) below in
      rw
        (
          insert-Passes q w (flatten l) _ pass,
          find-Passes q (flatten l) _ pass,
          insert-gt q w k v (flatten r) e,
          find-gt q k v (flatten r) e,
          put,
          e,
        )
        (put_right-IsPut q w l k v b r h right)
  put-step q w l k v b r eq e h s left right =
      let (below, above, sl, sr) = IsSorted-append (flatten l) k v (flatten r) s in
      let pass = Passes-below q k (flatten l) (λ f. cc) below in
      rw
        (
          insert-Passes q w (flatten l) _ pass,
          find-Passes q (flatten l) _ pass,
          insert-eq q w k v (flatten r) e,
          find-eq q k v (flatten r) e,
          put,
          e,
        )
        (record {
          found = _;
          returns = refl;
          balanced = h;
          grows = omega arith;
          uneven = λ e. cc;
          holds = refl;
          removes = refl;
          adds = refl;
        })

  pub put-Puts :
      (q : K) (w : V) (t : Tree K V) → IsBalanced t → IsSorted (flatten t) → IsNode t → Puts q w t
  put-Puts q w leaf h s n = absurd n
  put-Puts q w (node l k v b r) h s n =
      let (below, above, sl, sr) = IsSorted-append (flatten l) k v (flatten r) s in
      put-step q w l k v b r (c.cmp q k) refl h s (put-Puts q w l h.0 sl) (put-Puts q w r h.1 sr)

add_if : (b : Bool) (n : ℕ) → (if b then n + 1 else n) ≡ n + (if b then 1 else 0)
add_if true n = refl
add_if false n = omega arith

module _ {ℓ κ} {K : Type ℓ} {V : Type κ} ⦃c : Comparator K⦄ where
  -- What a put gives: a well-formed tree of the elements `elements`, and the element `removed`.
  abbrev pub Refines :
      Option (AvlTree K V × Option (K × V)) → List (K × V) → Option (K × V) → Type (ℓ ⊔ κ)
  Refines result elements removed =
      (tree : AvlTree K V) × (result ≡ some (tree, removed))
      × IsValid tree
      × (flatten tree.root ≡ elements)

  IsPut-Refines :
      (q : K) (w : V) (t : Tree K V) (size : ℕ)
      → IsSorted (flatten t)
      → size ≡ length (flatten t)
      → Puts q w t
      → Refines
          (put q w t >>= λ p.
            some (record { root = p.tree; size = if p.added then size + 1 else size }, p.removed))
          (insert q w (flatten t))
          (find q (flatten t))
  IsPut-Refines q w t size s n d =
      let p = d.found in
      (
        record { root = p.tree; size = if p.added then size + 1 else size },
        rw d.returns (
            ap (λ e. some (record { root = p.tree; size = if p.added then size + 1 else size }, e))
              d.removes),
        record {
          balanced = d.balanced;
          sorted = rw d.holds (insert-IsSorted q w (flatten t) s);
          counted = rw (d.adds, d.holds, length-insert q w (flatten t) s, n) (add_if _ _);
        },
        d.holds,
      )

  put_root-Refines :
      (q : K) (w : V) (t : Tree K V) (size : ℕ)
      → IsBalanced t
      → IsSorted (flatten t)
      → size ≡ length (flatten t)
      → Refines (put_root q w t size) (insert q w (flatten t)) (find q (flatten t))
  unfolding put_root
  put_root-Refines q w leaf size h s n =
      unfold insert find in
      (_, refl, record { balanced = ground arith; sorted = ground arith; counted = refl }, refl)
  put_root-Refines q w (node l k v b r) size h s n =
      IsPut-Refines q w (node l k v b r) size s n (put-Puts q w (node l k v b r) h s tt)

  -- On a well-formed tree `avl_tree_put` reads through no null pointer, returns the element that had
  -- the key, if there was one, and leaves a well-formed tree, whose elements are those of the old one
  -- with the key's element replaced, or put in its place in the order.
  pub avl_tree_put-Refines :
      (tree : AvlTree K V) (q : K) (w : V)
      → IsValid tree
      → Refines
          (avl_tree_put tree q w)
          (insert q w (flatten tree.root))
          (find q (flatten tree.root))
  unfolding avl_tree_put
  avl_tree_put-Refines tree q w v =
      put_root-Refines q w tree.root tree.size v.balanced v.sorted v.counted
