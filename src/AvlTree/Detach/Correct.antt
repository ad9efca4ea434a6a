-- ===== src/AvlTree/Detach/Correct.antt =====
-- `avl_tree_detach` and `avl_tree_pop` of src/avltree.c, against `erase` on the sorted elements.

use Prim.Native.Nat.Ordering.{eq}
use mathlib.Core.List.{append_assoc}
use fsdyn.Prelude.{
  ℕ, ◌-◌, ◌≡◌, refl, sym, ap, ◌∙◌, subst, Option, none, some, List, [], ◌∷◌, ◌++◌, length,
  length-append, arith,
}
use fsdyn.AvlTree.{Tree, leaf, node, AvlTree, flatten}
use fsdyn.AvlTree.Comparator.{Comparator, ◌≺◌}
use fsdyn.AvlTree.Balance.{IsBalanced}
use fsdyn.AvlTree.Order.{All, IsSorted, find, erase, IsSorted-append, Passes, Passes-below}
use fsdyn.AvlTree.Valid.{IsValid}
use fsdyn.AvlTree.Search.{get, avl_tree_get}
use fsdyn.AvlTree.Refine.{avl_tree_get-find}
use fsdyn.AvlTree.Put.Correct.{Refines}
use fsdyn.AvlTree.Place.{
  Step, left_of, right_of, Place, plug, elements_before, elements_behind, flatten-plug, locate,
}
use fsdyn.AvlTree.Place.{subtree, before, behind}
use fsdyn.AvlTree.Detach.{avl_tree_detach, avl_tree_pop}
use fsdyn.AvlTree.Detach.Lighten.{lighten-Whole}
use fsdyn.AvlTree.Detach.Sink.{Fits-plug, sink-Sinks}

module _ {ℓ κ} {K : Type ℓ} {V : Type κ} ⦃c : Comparator K⦄ where
  -- `erase` on lists.
  erase-All {μ} : (P : K → Type μ) (q : K) (xs : List (K × V)) → All P xs → All P (erase q xs)
  unfolding erase
  erase-All P q [] h = tt
  erase-All P q ((k, v) ∷ xs) h = ground (arith, erase-All P q xs h.1)

  pub erase-IsSorted : (q : K) (xs : List (K × V)) → IsSorted xs → IsSorted (erase q xs)
  unfolding erase
  erase-IsSorted q [] h = tt
  erase-IsSorted q ((k, v) ∷ xs) h =
      ground (arith, erase-All (λ j. k ≺ j) q xs h.0, erase-IsSorted q xs h.1)

  erase-Passes :
      (q : K) (xs : List (K × V)) (k : K) (v : V) (ys : List (K × V))
      → Passes q xs
      → c.cmp q k ≡ eq
      → erase q (xs ++ (k, v) ∷ ys) ≡ xs ++ ys
  unfolding erase
  erase-Passes q [] k v ys h e = rw e refl
  erase-Passes q ((j, u) ∷ xs) k v ys h e =
      rw h.0 (ap (◌∷◌ (j, u)) (erase-Passes q xs k v ys h.1 e))

  erase-none : (q : K) (xs : List (K × V)) → find q xs ≡ none → erase q xs ≡ xs
  unfolding erase find
  erase-none q [] e = refl
  erase-none q ((k, v) ∷ xs) e = ground (arith, erase-none q xs)

  -- The element that `locate` gives lies at its place, has the key, and is the one that `get` finds.
  locate-plug :
      (q : K) (t : Tree K V) (up : List (Step K V)) (p : Place K V)
      → locate q t up ≡ some p
      → (plug p.up (node p.left p.key p.value p.balance p.right) ≡ plug up t)
        × (c.cmp q p.key ≡ eq)
        × (get q t ≡ some (p.key, p.value))
  unfolding locate get plug
  locate-plug q leaf up p e = cc
  locate-plug q (node l k v b r) up p e =
      ground
        (arith, locate-plug q r (right_of l k v b ∷ up) p, locate-plug q l (left_of k v b r ∷ up) p)

  locate-none :
      (q : K) (t : Tree K V) (up : List (Step K V)) → locate q t up ≡ none → get q t ≡ none
  unfolding locate get
  locate-none q leaf up e = refl
  locate-none q (node l k v b r) up e =
      ground
        (arith, locate-none q r (right_of l k v b ∷ up), locate-none q l (left_of k v b r ∷ up))

  pub flatten-place :
      (p : Place K V) (t : Tree K V)
      → plug p.up (subtree p) ≡ t
      → flatten t ≡ before p ++ (p.key, p.value) ∷ behind p
  flatten-place p t e = sym (ap flatten e) ∙ flatten-plug p.up (subtree p) ∙ (simp append_assoc)

  detach-root :
      (p : Place K V) (size : ℕ)
      → IsBalanced (plug p.up (subtree p))
      → size ≡ length (before p ++ (p.key, p.value) ∷ behind p)
      → (t : Tree K V) × (avl_tree_detach (record { root = plug p.up (subtree p); size = size }) p
          ≡ some (record { root = t; size = size - 1 }))
        × IsBalanced t
        × (flatten t ≡ before p ++ behind p)
  unfolding avl_tree_detach
  detach-root p size h n =
      let ((hl, hr, tilt), fits) = Fits-plug p.up (subtree p) h in
      let (up, e, fits', holds) = sink-Sinks size p.left p.balance p.right p.up hl hr tilt fits (
        omega (
          arith,
          length-append (before p) ((p.key, p.value) ∷ behind p),
          length-append (elements_before p.up) (flatten p.left),
          length-append (flatten p.right) (elements_behind p.up),
        )) in
      let (t, e', bt, ft) = lighten-Whole up leaf tt fits' in
      (t, rw (e, e') refl, bt, ft ∙ holds ∙ (simp append_assoc))

  erase-place :
      (q : K) (p : Place K V) (xs : List (K × V))
      → IsSorted xs
      → xs ≡ before p ++ (p.key, p.value) ∷ behind p
      → c.cmp q p.key ≡ eq
      → erase q xs ≡ before p ++ behind p
  erase-place q p xs s e h =
      let (below, above, sx, sy) =
        IsSorted-append (before p) p.key p.value (behind p) (subst IsSorted e s) in
      ap (erase q) e
      ∙ erase-Passes q (before p) p.key p.value (behind p)
          (Passes-below q p.key (before p) (λ f. cc) below) h

  -- On a well-formed tree and an element that lies at a place in it, `avl_tree_detach` reads through
  -- no null pointer, ends, and leaves a well-formed tree with the other elements in their order.
  pub avl_tree_detach-erase :
      (tree : AvlTree K V) (element : Place K V) (q : K)
      → IsValid tree
      → plug element.up (subtree element) ≡ tree.root
      → c.cmp q element.key ≡ eq
      → (tree' : AvlTree K V) × (avl_tree_detach tree element ≡ some tree')
        × IsValid tree'
        × (flatten tree'.root ≡ erase q (flatten tree.root))
        × (flatten tree'.root ≡ before element ++ behind element)
  unfolding avl_tree_detach
  avl_tree_detach-erase tree p q v e h =
      let split = flatten-place p tree.root e in
      let (t, returns, balanced, holds) =
        detach-root p tree.size (subst IsBalanced (sym e) v.balanced)
          (v.counted ∙ ap length split) in
      let erased = erase-place q p (flatten tree.root) v.sorted split h in
      (
        record { root = t; size = tree.size - 1 },
        returns,
        record {
          balanced = balanced;
          sorted =
              subst IsSorted (erased ∙ sym holds) (erase-IsSorted q (flatten tree.root) v.sorted);
          counted = omega (
            arith,
            v.counted,
            ap length split,
            ap length holds,
            length-append (before p) (behind p),
            length-append (before p) ((p.key, p.value) ∷ behind p),
          );
        },
        holds ∙ sym erased,
        holds,
      )

  pop-located :
      (tree : AvlTree K V) (q : K) (o : Option (Place K V))
      → IsValid tree
      → locate q tree.root [] ≡ o
      → Refines (avl_tree_pop tree q) (erase q (flatten tree.root)) (avl_tree_get tree q)
  unfolding avl_tree_pop avl_tree_get plug
  pop-located tree q none v e =
      let missing = locate-none q tree.root [] e in
      rw (avl_tree_pop, e, missing)
        (
          tree,
          refl,
          v,
          sym (erase-none q (flatten tree.root) (sym (avl_tree_get-find tree q v) ∙ missing)),
        )
  pop-located tree q (some p) v e =
      let (at, key, found) = locate-plug q tree.root [] p e in
      let (tree', returns, valid, holds, rest) = avl_tree_detach-erase tree p q v at key in
      rw (avl_tree_pop, e, found, returns) (tree', refl, valid, holds)

  -- On a well-formed tree `avl_tree_pop` reads through no null pointer, returns the element that
  -- `avl_tree_get` finds, and leaves a well-formed tree with all other elements in their order.
  pub avl_tree_pop-Refines :
      (tree : AvlTree K V) (q : K)
      → IsValid tree
      → Refines (avl_tree_pop tree q) (erase q (flatten tree.root)) (find q (flatten tree.root))
  avl_tree_pop-Refines tree q v =
      subst (Refines (avl_tree_pop tree q) (erase q (flatten tree.root)))
        (avl_tree_get-find tree q v) (pop-located tree q (locate q tree.root []) v refl)
