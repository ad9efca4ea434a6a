-- ===== src/AvlTree/Copy.antt =====
-- `copy_tree` and `avl_tree_copy` of src/avltree.c.
use fsdyn.Prelude.{ℕ, length, ◌≡◌, refl, ap}
use fsdyn.AvlTree.{Tree, leaf, node, AvlTree, flatten}
use fsdyn.AvlTree.Comparator.{Comparator}
use fsdyn.AvlTree.Valid.{IsValid, make_avl_tree}

module _ {ℓ κ} {K : Type ℓ} {V : Type κ} where
  -- A NULL child stays the NULL that `make_element` sets.
  unfoldable pub copy_tree : Tree K V → Tree K V
  copy_tree leaf = leaf
  copy_tree (node l k v b r) = node (copy_tree l) k v b (copy_tree r)

  -- `root` and `size` are the fields of the tree.
  unfoldable pub copy_root : Tree K V → ℕ → AvlTree K V
  copy_root leaf size = make_avl_tree
  copy_root (node l k v b r) size = record { root = copy_tree (node l k v b r); size = size }

  unfoldable pub avl_tree_copy : AvlTree K V → AvlTree K V
  avl_tree_copy tree = copy_root tree.root tree.size

  copy_tree-eq : (t : Tree K V) → copy_tree t ≡ t
  unfolding copy_tree
  copy_tree-eq leaf = refl
  copy_tree-eq (node l k v b r) = rw (copy_tree-eq l, copy_tree-eq r) refl

  copy_root-eq :
      (t : Tree K V) (size : ℕ)
      → size ≡ length (flatten t)
      → copy_root t size ≡ record { root = t; size = size }
  unfolding copy_root make_avl_tree
  copy_root-eq leaf size e = rw e refl
  copy_root-eq (node l k v b r) size e =
      ap (λ t. record { root = t; size = size }) (copy_tree-eq (node l k v b r))

module _ {ℓ κ} {K : Type ℓ} {V : Type κ} ⦃c : Comparator K⦄ where
  -- `avl_tree_copy` of a well-formed tree has the same shape, elements and size.
  pub avl_tree_copy-eq : (tree : AvlTree K V) → IsValid tree → avl_tree_copy tree ≡ tree
  unfolding avl_tree_copy
  avl_tree_copy-eq tree v = copy_root-eq tree.root tree.size v.counted
