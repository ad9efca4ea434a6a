-- ===== src/AvlTree.antt =====
-- src/avltree.c: a balanced search tree. The tree of `avl_elem_t` is a value: `node` is an element
-- with its two children, and the link to the parent is the place that a function works at. An
-- element that a function returns is its key and value. `none` is a read through a null pointer.
pub mod Comparator
pub mod Search
pub mod Put
pub mod Balance
pub mod Order
pub mod Valid
pub mod Height
pub mod Place
pub mod Detach
pub mod Walk
pub mod Copy
pub mod Refine
pub mod Runs
mod Tests
mod RemovalTests
use fsdyn.Prelude.{
  ℕ, zero, suc, ◌+◌, Option, none, some, ◌>>=◌, Bool, true, false, if◌then◌else◌, List, [], ◌∷◌,
  ◌++◌,
}
use fsdyn.Prelude.Int.{ℤ, pos, negsuc, ◌+ℤ◌, neg_ℤ, div_trunc, nonpos, nonneg}

-- `avl_elem_t *`: `leaf` is NULL; the number is the balance.
pub data Tree {ℓ κ} (K : Type ℓ) (V : Type κ) : Type (ℓ ⊔ κ) where
  leaf : Tree K V
  node : Tree K V → K → V → ℤ → Tree K V → Tree K V

-- `avl_tree_t`, without the comparator.
pub record AvlTree {ℓ κ} (K : Type ℓ) (V : Type κ) : Type (ℓ ⊔ κ) where
  pub root : Tree K V
  pub size : ℕ

module _ {ℓ κ} {K : Type ℓ} {V : Type κ} where
  -- The elements from the first to the last.
  abbrev pub flatten : Tree K V → List (K × V)
  flatten leaf = []
  flatten (node l k v b r) = flatten l ++ (k, v) ∷ flatten r

  abbrev pub is_leaf : Tree K V → Bool
  is_leaf leaf = true
  is_leaf (node l k v b r) = false

  -- `rotate_right` of the element with these children; the element's own balance is not read.
  -- `++b` is b + 1, and the quotients are those of -1, 0 or 1, doubled.
  unfoldable pub rotate_right : Tree K V → K → V → Tree K V → Option (Tree K V)
  rotate_right leaf k v r = none
  rotate_right (node ll lk lv lb leaf) k v r =
      if nonpos lb
      then some (node ll lk lv (lb +ℤ pos 1) (node leaf k v (neg_ℤ (lb +ℤ pos 1)) r))
      else none
  rotate_right (node ll lk lv lb (node tl tk tv tb tr)) k v r =
      if nonpos lb
      then some
          (node ll lk lv (lb +ℤ pos 1) (node (node tl tk tv tb tr) k v (neg_ℤ (lb +ℤ pos 1)) r))
      else some (
          node (node ll lk lv (neg_ℤ (div_trunc (pos 1 +ℤ tb) 2)) tl) tk tv (pos 0)
            (node tr k v (div_trunc (pos 1 +ℤ neg_ℤ tb) 2) r))

  unfoldable pub rotate_left : Tree K V → K → V → Tree K V → Option (Tree K V)
  rotate_left l k v leaf = none
  rotate_left l k v (node leaf rk rv rb rr) =
      if nonneg rb
      then some (node (node l k v (neg_ℤ (rb +ℤ negsuc 0)) leaf) rk rv (rb +ℤ negsuc 0) rr)
      else none
  rotate_left l k v (node (node tl tk tv tb tr) rk rv rb rr) =
      if nonneg rb
      then some (
          node (node l k v (neg_ℤ (rb +ℤ negsuc 0)) (node tl tk tv tb tr)) rk rv (rb +ℤ negsuc 0)
            rr)
      else some (
          node (node l k v (neg_ℤ (div_trunc (pos 1 +ℤ tb) 2)) tl) tk tv (pos 0)
            (node tr rk rv (div_trunc (pos 1 +ℤ neg_ℤ tb) 2) rr))
