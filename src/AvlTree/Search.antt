-- ===== src/AvlTree/Search.antt =====
-- The functions of src/avltree.c that look an element up. Each loop walks down from the root; a
-- `candidate` is the last element kept on the way.
pub mod Scan
pub mod Correct
use Prim.Native.Nat.Ordering.{lt, eq, gt}
use fsdyn.Prelude.{Option, none, some, Bool, ℕ}
use fsdyn.AvlTree.{Tree, leaf, node, AvlTree, is_leaf}
use fsdyn.AvlTree.Comparator.{Comparator}

module _ {ℓ κ} {K : Type ℓ} {V : Type κ} ⦃c : Comparator K⦄ where
  -- The loop of `avl_tree_get`.
  unfoldable pub get : K → Tree K V → Option (K × V)
  get q leaf = none
  get q (node l k v b r) = elim (c.cmp q k) [ eq ↦ some (k, v) | gt ↦ get q r | lt ↦ get q l ]

  unfoldable pub avl_tree_get : AvlTree K V → K → Option (K × V)
  avl_tree_get tree q = get q tree.root

  -- The loop of `avl_tree_get_before`.
  unfoldable pub get_before : K → Tree K V → Option (K × V) → Option (K × V)
  get_before q leaf candidate = candidate
  get_before q (node l k v b r) candidate = elim (c.cmp q k) [
    | gt ↦ get_before q r (some (k, v))
    | _ ↦ get_before q l candidate
  ]

  unfoldable pub avl_tree_get_before : AvlTree K V → K → Option (K × V)
  avl_tree_get_before tree q = get_before q tree.root none

  -- The loop of `avl_tree_get_on_or_before`.
  unfoldable pub get_on_or_before : K → Tree K V → Option (K × V) → Option (K × V)
  get_on_or_before q leaf candidate = candidate
  get_on_or_before q (node l k v b r) candidate = elim (c.cmp q k) [
    | lt ↦ get_on_or_before q l candidate
    | _ ↦ get_on_or_before q r (some (k, v))
  ]

  unfoldable pub avl_tree_get_on_or_before : AvlTree K V → K → Option (K × V)
  avl_tree_get_on_or_before tree q = get_on_or_before q tree.root none

  -- The loop of `avl_tree_get_after`.
  unfoldable pub get_after : K → Tree K V → Option (K × V) → Option (K × V)
  get_after q leaf candidate = candidate
  get_after q (node l k v b r) candidate = elim (c.cmp q k) [
    | lt ↦ get_after q l (some (k, v))
    | _ ↦ get_after q r candidate
  ]

  unfoldable pub avl_tree_get_after : AvlTree K V → K → Option (K × V)
  avl_tree_get_after tree q = get_after q tree.root none

  -- The loop of `avl_tree_get_on_or_after`.
  unfoldable pub get_on_or_after : K → Tree K V → Option (K × V) → Option (K × V)
  get_on_or_after q leaf candidate = candidate
  get_on_or_after q (node l k v b r) candidate = elim (c.cmp q k) [
    | gt ↦ get_on_or_after q r candidate
    | _ ↦ get_on_or_after q l (some (k, v))
  ]

  unfoldable pub avl_tree_get_on_or_after : AvlTree K V → K → Option (K × V)
  avl_tree_get_on_or_after tree q = get_on_or_after q tree.root none

module _ {ℓ κ} {K : Type ℓ} {V : Type κ} where
  -- The loop of `avl_tree_get_first`, from an element with this left child.
  unfoldable pub leftmost : Tree K V → K → V → K × V
  leftmost leaf k v = (k, v)
  leftmost (node l j u b r) k v = leftmost l j u

  unfoldable pub get_first : Tree K V → Option (K × V)
  get_first leaf = none
  get_first (node l k v b r) = some (leftmost l k v)

  unfoldable pub avl_tree_get_first : AvlTree K V → Option (K × V)
  avl_tree_get_first tree = get_first tree.root

  -- The loop of `avl_tree_get_last`, from an element with this right child.
  unfoldable pub rightmost : Tree K V → K → V → K × V
  rightmost leaf k v = (k, v)
  rightmost (node l j u b r) k v = rightmost r j u

  unfoldable pub get_last : Tree K V → Option (K × V)
  get_last leaf = none
  get_last (node l k v b r) = some (rightmost r k v)

  unfoldable pub avl_tree_get_last : AvlTree K V → Option (K × V)
  avl_tree_get_last tree = get_last tree.root

  unfoldable pub avl_tree_empty : AvlTree K V → Bool
  avl_tree_empty tree = is_leaf tree.root

  unfoldable pub avl_tree_size : AvlTree K V → ℕ
  avl_tree_size tree = tree.size
