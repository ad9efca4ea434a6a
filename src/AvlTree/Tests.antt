-- ===== src/AvlTree/Tests.antt =====
-- Runs of the tree functions, and the theorems at concrete inputs.

use fsdyn.Prelude.{ℕ, ◌+◌, ◌≡◌, refl, none, some, true, if◌then◌else◌, is_none, arith}
use fsdyn.Prelude.Int.{pos, negsuc}
use fsdyn.AvlTree.{leaf, node, AvlTree, flatten, rotate_right, rotate_left}
use fsdyn.AvlTree.Comparator.{nat_comparator}
use fsdyn.AvlTree.Order.{find, insert}
use fsdyn.AvlTree.Valid.{IsValid}
use fsdyn.AvlTree.Put.{switch_left, put_left, switch_right, put_right, put, put_root, avl_tree_put}
use fsdyn.AvlTree.Put.Correct.{avl_tree_put-Refines, Refines}
use fsdyn.AvlTree.Search.{
  get, avl_tree_get, avl_tree_get_before, avl_tree_get_on_or_before, avl_tree_get_after,
  avl_tree_get_on_or_after, avl_tree_size, avl_tree_get_first, avl_tree_get_last,
}
use fsdyn.AvlTree.Search.Scan.{before, on_or_before, after, on_or_after, first_where, last_where}
use fsdyn.AvlTree.Refine.{searches-scan, avl_tree_get-avl_tree_put}

runs : Unit {0}
unfolding rotate_right rotate_left switch_left put_left switch_right put_right put put_root
    avl_tree_put nat_comparator get avl_tree_get find insert
runs = tt

-- The keys 2, 4 and 6 with their tenfold.
abbrev pub three : AvlTree ℕ ℕ
three = record {
  root = node (node leaf 2 20 (pos 0) leaf) 4 40 (pos 0) (node leaf 6 60 (pos 0) leaf);
  size = 3;
}

pub three-IsValid : IsValid three
unfolding runs
three-IsValid = record { balanced = ground arith; sorted = ground arith; counted = refl }

abbrev two : AvlTree ℕ ℕ
two = record { root = node (node leaf 2 20 (pos 0) leaf) 4 40 (negsuc 0) leaf; size = 2 }

-- A put that ends in a double rotation.
double_rotation :
    avl_tree_put two 3 30
    ≡ some (
      record {
        root = node (node leaf 2 20 (pos 0) leaf) 3 30 (pos 0) (node leaf 4 40 (pos 0) leaf);
        size = 3;
      },
      none,
    )
unfolding runs
double_rotation = refl

-- A put of a key and value that the tree holds: the old element is taken out all the same.
same_value : avl_tree_put three 4 40 ≡ some (three, some (4, 40))
unfolding runs
same_value = refl

avl_tree_put-Refines_example :
    Refines
      (avl_tree_put three 3 30)
      (insert 3 30 (flatten three.root))
      (find 3 (flatten three.root))
avl_tree_put-Refines_example = avl_tree_put-Refines three 3 30 three-IsValid

searches-scan_example :
    (avl_tree_get three 4 ≡ find 4 (flatten three.root))
    × ((avl_tree_get_before three 4 ≡ last_where (before 4) (flatten three.root) none)
        × (avl_tree_get_on_or_before three 4
            ≡ last_where (on_or_before 4) (flatten three.root) none)
        × (avl_tree_get_after three 4 ≡ first_where (after 4) (flatten three.root) none)
        × (avl_tree_get_on_or_after three 4
            ≡ first_where (on_or_after 4) (flatten three.root) none))
    × ((avl_tree_get_first three ≡ first_where (λ _. true) (flatten three.root) none)
        × (avl_tree_get_last three ≡ last_where (λ _. true) (flatten three.root) none))
searches-scan_example = searches-scan three 4 three-IsValid

avl_tree_get-avl_tree_put_example :
    (tree' : AvlTree ℕ ℕ) × (avl_tree_put three 4 41 ≡ some (tree', avl_tree_get three 4))
    × (avl_tree_get tree' 4 ≡ some (4, 41))
    × (avl_tree_size tree'
        ≡ avl_tree_size three + (if is_none (avl_tree_get three 4) then 1 else 0))
unfolding nat_comparator
avl_tree_get-avl_tree_put_example = avl_tree_get-avl_tree_put three 4 41 4 three-IsValid
