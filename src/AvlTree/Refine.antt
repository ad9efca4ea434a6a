-- ===== src/AvlTree/Refine.antt =====
-- The functions of include/avltree.h on well-formed trees, against the sorted list of the elements.
use Prim.Native.Nat.Ordering.{eq}
use mathlib.Core.List.{append_assoc}
use fsdyn.Prelude.{
  ◌+◌, ◌≡◌, refl, ap, sym, ◌∙◌, Option, none, some, true, if◌then◌else◌, is_none, List, ◌∷◌, ◌++◌,
  length,
}
use fsdyn.AvlTree.{Tree, leaf, node, AvlTree, flatten}
use fsdyn.AvlTree.Comparator.{Comparator}
use fsdyn.AvlTree.Order.{find, find-insert, length-insert}
use fsdyn.AvlTree.Valid.{IsValid}
use fsdyn.AvlTree.Put.{avl_tree_put}
use fsdyn.AvlTree.Put.Correct.{avl_tree_put-Refines}
use fsdyn.AvlTree.Search.{
  avl_tree_get, avl_tree_get_before, avl_tree_get_on_or_before, avl_tree_get_after,
  avl_tree_get_on_or_after, leftmost, get_first, avl_tree_get_first, rightmost, get_last,
  avl_tree_get_last, avl_tree_size,
}
use fsdyn.AvlTree.Search.Scan.{
  before, on_or_before, after, on_or_after, first_where, last_where, last_where-append,
}
use fsdyn.AvlTree.Search.Correct.{
  get-find, get_before-last_where, get_on_or_before-last_where, get_after-first_where,
  get_on_or_after-first_where,
}

module _ {ℓ κ} {K : Type ℓ} {V : Type κ} ⦃c : Comparator K⦄ where
  -- On a well-formed tree `avl_tree_get` returns the element with the key, and nothing exactly if
  -- there is none.
  pub avl_tree_get-find :
      (tree : AvlTree K V) (q : K) → IsValid tree → avl_tree_get tree q ≡ find q (flatten tree.root)
  unfolding avl_tree_get
  avl_tree_get-find tree q v = get-find q tree.root v.sorted

  -- On a well-formed tree the four searches for a neighbour of a key return the last element whose
  -- key is less, the last whose key is not greater, the first whose key is greater and the first
  -- whose key is not less, and nothing exactly if there is none.
  neighbours-scan :
      (tree : AvlTree K V) (q : K)
      → IsValid tree
      → (avl_tree_get_before tree q ≡ last_where (before q) (flatten tree.root) none)
        × (avl_tree_get_on_or_before tree q ≡ last_where (on_or_before q) (flatten tree.root) none)
        × (avl_tree_get_after tree q ≡ first_where (after q) (flatten tree.root) none)
        × (avl_tree_get_on_or_after tree q ≡ first_where (on_or_after q) (flatten tree.root) none)
  unfolding avl_tree_get_before avl_tree_get_on_or_before avl_tree_get_after
      avl_tree_get_on_or_after
  neighbours-scan tree q v = (
    get_before-last_where q tree.root none v.sorted,
    get_on_or_before-last_where q tree.root none v.sorted,
    get_after-first_where q tree.root none v.sorted,
    get_on_or_after-first_where q tree.root none v.sorted,
  )

  -- After a put on a well-formed tree, a look-up of any key that compares equal to the one put
  -- returns the new element, and a look-up of any other key returns what it did before; the put
  -- returns what a look-up of its key returned before, and the size grows by one if that was nothing.
  pub avl_tree_get-avl_tree_put :
      (tree : AvlTree K V) (q : K) (w : V) (p : K)
      → IsValid tree
      → (tree' : AvlTree K V) × (avl_tree_put tree q w ≡ some (tree', avl_tree_get tree q))
        × (avl_tree_get tree' p ≡ (elim (c.cmp p q) [ eq ↦ some (q, w) | _ ↦ avl_tree_get tree p ]))
        × (avl_tree_size tree'
            ≡ avl_tree_size tree + (if is_none (avl_tree_get tree q) then 1 else 0))
  avl_tree_get-avl_tree_put tree q w p v =
      let (tree', returns, v', holds) = avl_tree_put-Refines tree q w v in
      let xs = flatten tree.root in
      let found = avl_tree_get-find tree q v in
      let kept = sym (avl_tree_get-find tree p v) in
      (
        tree',
        returns ∙ rw found,
        avl_tree_get-find tree' p v'
            ∙ ap (find p) holds
            ∙ find-insert p q w xs v.sorted
            ∙ (λ i. elim (c.cmp p q) [ eq ↦ some (q, w) | _ ↦ kept i ]),
        rw found (
            unfold avl_tree_size in
            v'.counted
            ∙ ap length holds
            ∙ length-insert q w xs v.sorted
            ∙ ap (λ n. n + (if is_none (find q xs) then 1 else 0)) (sym v.counted)),
      )

module _ {ℓ κ} {K : Type ℓ} {V : Type κ} where
  leftmost-first_where :
      (l : Tree K V) (k : K) (v : V) (ys : List (K × V)) (d : Option (K × V))
      → some (leftmost l k v) ≡ first_where (λ _. true) (flatten l ++ (k, v) ∷ ys) d
  unfolding leftmost
  leftmost-first_where leaf k v ys d = unfold first_where in refl
  leftmost-first_where (node l j u b r) k v ys d =
      leftmost-first_where l j u (flatten r ++ (k, v) ∷ ys) d ∙ rw append_assoc

  rightmost-last_where :
      (xs : List (K × V)) (k : K) (v : V) (r : Tree K V) (d : Option (K × V))
      → some (rightmost r k v) ≡ last_where (λ _. true) (xs ++ (k, v) ∷ flatten r) d
  unfolding rightmost
  rightmost-last_where xs k v leaf d = rw last_where-append (unfold last_where in refl)
  rightmost-last_where xs k v (node l j u b r) d =
      rightmost-last_where (xs ++ (k, v) ∷ flatten l) j u r d ∙ rw append_assoc

  -- On any tree `avl_tree_get_first` and `avl_tree_get_last` return the first and the last element.
  ends-scan :
      (tree : AvlTree K V)
      → (avl_tree_get_first tree ≡ first_where (λ _. true) (flatten tree.root) none)
        × (avl_tree_get_last tree ≡ last_where (λ _. true) (flatten tree.root) none)
  unfolding avl_tree_get_first avl_tree_get_last
  ends-scan tree = (first tree.root, last tree.root)
    where
      first : (t : Tree K V) → get_first t ≡ first_where (λ _. true) (flatten t) none
      first leaf = unfold get_first first_where in refl
      first (node l k v b r) = unfold get_first in leftmost-first_where l k v (flatten r) none

      last : (t : Tree K V) → get_last t ≡ last_where (λ _. true) (flatten t) none
      last leaf = unfold get_last last_where in refl
      last (node l k v b r) = unfold get_last in rightmost-last_where (flatten l) k v r none

module _ {ℓ κ} {K : Type ℓ} {V : Type κ} ⦃c : Comparator K⦄ where
  -- On a well-formed tree `avl_tree_get` finds the element with the key or nothing, the four neighbour
  -- searches find what a scan of the sorted elements finds, and the first and the last element function
  -- the ends of them.
  pub searches-scan :
      (tree : AvlTree K V) (q : K)
      → IsValid tree
      → (avl_tree_get tree q ≡ find q (flatten tree.root))
        × ((avl_tree_get_before tree q ≡ last_where (before q) (flatten tree.root) none)
            × (avl_tree_get_on_or_before tree q
                ≡ last_where (on_or_before q) (flatten tree.root) none)
            × (avl_tree_get_after tree q ≡ first_where (after q) (flatten tree.root) none)
            × (avl_tree_get_on_or_after tree q
                ≡ first_where (on_or_after q) (flatten tree.root) none))
        × ((avl_tree_get_first tree ≡ first_where (λ _. true) (flatten tree.root) none)
            × (avl_tree_get_last tree ≡ last_where (λ _. true) (flatten tree.root) none))
  searches-scan tree q v = (avl_tree_get-find tree q v, neighbours-scan tree q v, ends-scan tree)
