-- ===== src/AvlTree/RemovalTests.antt =====
-- Runs of the functions that detach, walk and copy, and the theorems at concrete inputs.

use fsdyn.Prelude.{ℕ, ◌+◌, ◌/◌, ◌^◌, ◌≤◌, List, ◌≡◌, ◌↔◌, refl, none, some, [], ◌∷◌, ◌++◌}
use fsdyn.Prelude.Int.{pos}
use fsdyn.AvlTree.{leaf, node, AvlTree, flatten, rotate_right, rotate_left}
use fsdyn.AvlTree.Comparator.{nat_comparator}
use fsdyn.AvlTree.Order.{find, erase}
use fsdyn.AvlTree.Balance.{height}
use fsdyn.AvlTree.Runs.{
  Operation, putting, popping, popping_first, popping_last, run, run_elements, run-height,
}
use fsdyn.AvlTree.Valid.{IsValid, make_avl_tree}
use fsdyn.AvlTree.Place.{
  Place, left_of, plug, locate, last_place, first_place, subtree, before, behind,
}
use fsdyn.AvlTree.Put.Correct.{Refines}
use fsdyn.AvlTree.Detach.{
  lighten_left, lighten_right, lighten, sink, avl_tree_detach, pop_first, avl_tree_pop_first,
  pop_last, avl_tree_pop_last, avl_tree_pop,
}
use fsdyn.AvlTree.Detach.Correct.{avl_tree_detach-erase, avl_tree_pop-Refines}
use fsdyn.AvlTree.Detach.Ends.{TakesFirst, TakesLast, pops-Take}
use fsdyn.AvlTree.Walk.{leave_right, avl_tree_next, leave_left, avl_tree_previous}
use fsdyn.AvlTree.Walk.Correct.{Follows, avl_tree_next-Follows, avl_tree_next-avl_tree_previous}
use fsdyn.AvlTree.Copy.{avl_tree_copy, avl_tree_copy-eq}
use fsdyn.AvlTree.Tests.{three, three-IsValid}

runs : Unit {0}
unfolding rotate_right rotate_left lighten_left lighten_right lighten sink avl_tree_detach plug
    locate last_place first_place pop_first avl_tree_pop_first pop_last avl_tree_pop_last
    avl_tree_pop nat_comparator leave_right avl_tree_next leave_left avl_tree_previous
runs = tt

-- The root is exchanged with the element before it, which takes its place.
pop_root :
    avl_tree_pop three 4
    ≡ some (
      record { root = node leaf 2 20 (pos 1) (node leaf 6 60 (pos 0) leaf); size = 2 },
      some (4, 40),
    )
unfolding runs
pop_root = refl

pop_missing : avl_tree_pop three 5 ≡ some (three, none)
unfolding runs
pop_missing = refl

avl_tree_pop-Refines_example :
    Refines (avl_tree_pop three 4) (erase 4 (flatten three.root)) (find 4 (flatten three.root))
avl_tree_pop-Refines_example = avl_tree_pop-Refines three 4 three-IsValid

-- The place of the key 2.
abbrev first : Place ℕ ℕ
first = record {
  left = leaf;
  key = 2;
  value = 20;
  balance = pos 0;
  right = leaf;
  up = left_of 4 40 (pos 0) (node leaf 6 60 (pos 0) leaf) ∷ [];
}

-- The place of the key 4, the root.
abbrev middle : Place ℕ ℕ
middle = record {
  left = node leaf 2 20 (pos 0) leaf;
  key = 4;
  value = 40;
  balance = pos 0;
  right = node leaf 6 60 (pos 0) leaf;
  up = [];
}

avl_tree_detach-erase_example :
    (tree' : AvlTree ℕ ℕ) × (avl_tree_detach three first ≡ some tree')
    × IsValid tree'
    × (flatten tree'.root ≡ erase 2 (flatten three.root))
    × (flatten tree'.root ≡ before first ++ behind first)
unfolding runs
avl_tree_detach-erase_example = avl_tree_detach-erase three first 2 three-IsValid refl refl

avl_tree_next-Follows_example :
    Follows
      (plug first.up (subtree first))
      (before first ++ (2, 20) ∷ [])
      (behind first)
      (avl_tree_next first)
avl_tree_next-Follows_example = avl_tree_next-Follows first

avl_tree_next-avl_tree_previous_example :
    (avl_tree_next first ≡ some (middle)) ↔ (avl_tree_previous (middle) ≡ some first)
avl_tree_next-avl_tree_previous_example = avl_tree_next-avl_tree_previous first (middle)

pops-Take_example :
    TakesFirst three (avl_tree_pop_first three) × TakesLast three (avl_tree_pop_last three)
pops-Take_example = pops-Take three three-IsValid

avl_tree_copy-eq_example : avl_tree_copy three ≡ three
avl_tree_copy-eq_example = avl_tree_copy-eq three three-IsValid

-- Puts that rotate, and removals of each kind.
abbrev calls : List (Operation ℕ ℕ)
calls =
    putting 1 10
    ∷ putting 2 20
    ∷ putting 3 30
    ∷ putting 4 40
    ∷ putting 5 50
    ∷ popping 2
    ∷ popping_first
    ∷ popping_last
    ∷ []

run-height_example :
    (tree : AvlTree ℕ ℕ) × (run calls make_avl_tree ≡ some tree)
    × IsValid tree
    × (flatten tree.root ≡ run_elements calls [])
    × (2 ^ (height tree.root / 2) ≤ tree.size + 1)
run-height_example = run-height calls
