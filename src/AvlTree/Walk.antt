-- ===== src/AvlTree/Walk.antt =====
-- `avl_tree_next` and `avl_tree_previous` of src/avltree.c: from an element to its neighbours along
-- the links to children and parents.
pub mod Correct
use fsdyn.Prelude.{Option, none, some, List, [], ◌∷◌}
use fsdyn.AvlTree.{Tree, leaf, node}
use fsdyn.AvlTree.Place.{Step, left_of, right_of, Place, last_place, first_place}

module _ {ℓ κ} {K : Type ℓ} {V : Type κ} where
  -- The loop of `avl_tree_next`, at the subtree `t`: up as long as it is a right child.
  unfoldable pub leave_right : Tree K V → List (Step K V) → Option (Place K V)
  leave_right t [] = none
  leave_right t (right_of l k v b ∷ up) = leave_right (node l k v b t) up
  leave_right t (left_of k v b r ∷ up) =
      some (record { left = t; key = k; value = v; balance = b; right = r; up = up })

  unfoldable pub avl_tree_next : Place K V → Option (Place K V)
  avl_tree_next p = elim (p.right) [
    | leaf ↦ leave_right (node p.left p.key p.value p.balance p.right) p.up
    | node l k v b r ↦ some (first_place l k v b r (right_of p.left p.key p.value p.balance ∷ p.up))
  ]

  -- The loop of `avl_tree_previous`.
  unfoldable pub leave_left : Tree K V → List (Step K V) → Option (Place K V)
  leave_left t [] = none
  leave_left t (left_of k v b r ∷ up) = leave_left (node t k v b r) up
  leave_left t (right_of l k v b ∷ up) =
      some (record { left = l; key = k; value = v; balance = b; right = t; up = up })

  unfoldable pub avl_tree_previous : Place K V → Option (Place K V)
  avl_tree_previous p = elim (p.left) [
    | leaf ↦ leave_left (node p.left p.key p.value p.balance p.right) p.up
    | node l k v b r ↦ some (last_place l k v b r (left_of p.key p.value p.balance p.right ∷ p.up))
  ]
