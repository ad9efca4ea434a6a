-- ===== src/AvlTree/Valid.antt =====
-- The well-formed trees of src/avltree.c, and the one that `make_avl_tree` makes.
use fsdyn.Prelude.{◌≡◌, refl, length}
use fsdyn.AvlTree.{leaf, AvlTree, flatten}
use fsdyn.AvlTree.Comparator.{Comparator}
use fsdyn.AvlTree.Balance.{IsBalanced}
use fsdyn.AvlTree.Order.{IsSorted}

-- `make_avl_tree_2`
unfoldable pub make_avl_tree {ℓ κ} : {K : Type ℓ} {V : Type κ} → AvlTree K V
make_avl_tree = record { root = leaf; size = 0 }

-- Well-formed trees: balanced, sorted, and counted.
pub record IsValid {ℓ κ} {K : Type ℓ} {V : Type κ} ⦃c : Comparator K⦄ (tree : AvlTree K V)
    : Type 0 where
  pub balanced : IsBalanced tree.root
  pub sorted : IsSorted (flatten tree.root)
  pub counted : tree.size ≡ length (flatten tree.root)

pub make_avl_tree-IsValid {ℓ κ} :
    {K : Type ℓ} {V : Type κ} ⦃c : Comparator K⦄ → IsValid (make_avl_tree {K = K} {V = V})
unfolding make_avl_tree
make_avl_tree-IsValid = record { balanced = tt; sorted = tt; counted = refl }
