-- ===== src/AvlTree/Detach.antt =====
-- `avl_tree_detach` of src/avltree.c and the functions that it calls, and the pops.
pub mod Lighten
pub mod Sink
pub mod Correct
pub mod Ends
use fsdyn.Prelude.{
  ℕ, zero, suc, ◌+◌, ◌-◌, Option, none, some, ◌>>=◌, Bool, true, false, if◌then◌else◌, List, [],
  ◌∷◌, ◌++◌,
}
use fsdyn.Prelude.Int.{ℤ, pos, negsuc, ◌+ℤ◌}
use fsdyn.AvlTree.{Tree, leaf, node, AvlTree, rotate_right, rotate_left}
use fsdyn.AvlTree.Comparator.{Comparator}
use fsdyn.AvlTree.Place.{Step, left_of, right_of, Place, plug, locate, last_place, first_place}

module _ {ℓ κ} {K : Type ℓ} {V : Type κ} where
  -- The balance is 1, or -1.
  abbrev pub is_one : Tree K V → Bool
  is_one (node l k v (pos (suc zero)) r) = true
  is_one _ = false

  abbrev pub is_minus_one : Tree K V → Bool
  is_minus_one (node l k v (negsuc zero) r) = true
  is_minus_one _ = false

  -- The `switch` of `lighten_left`, on the balance after `++`, for an element with the left child
  -- `l` that lies at the place `up`; `parent` is `lighten_parent`.
  unfoldable pub lighten_left :
      (Tree K V → Option (Tree K V))
      → List (Step K V)
      → Tree K V
      → K
      → V
      → ℤ
      → Tree K V
      → Option (Tree K V)
  lighten_left parent up l k v (pos zero) r = parent (node l k v (pos zero) r)
  lighten_left parent up l k v (pos (suc (suc zero))) r = do
    new_top ← rotate_left l k v r
    if is_minus_one new_top then some (plug up new_top) else parent new_top
  lighten_left parent up l k v b r = some (plug up (node l k v b r))

  unfoldable pub lighten_right :
      (Tree K V → Option (Tree K V))
      → List (Step K V)
      → Tree K V
      → K
      → V
      → ℤ
      → Tree K V
      → Option (Tree K V)
  lighten_right parent up l k v (pos zero) r = parent (node l k v (pos zero) r)
  lighten_right parent up l k v (negsuc (suc zero)) r = do
    new_top ← rotate_right l k v r
    if is_one new_top then some (plug up new_top) else parent new_top
  lighten_right parent up l k v b r = some (plug up (node l k v b r))

  -- `lighten_parent`: the subtree `t` at the place has become lower by one. At the root there is no
  -- parent, and `t` is the new tree.
  unfoldable pub lighten : List (Step K V) → Tree K V → Option (Tree K V)
  lighten [] t = some t
  lighten (left_of k v b r ∷ up) t = lighten_left (lighten up) up t k v (b +ℤ pos 1) r
  lighten (right_of l k v b ∷ up) t = lighten_right (lighten up) up l k v (b +ℤ negsuc 0) t

  -- The loop of `avl_tree_detach`: the element at the place `up` has the children `l` and `r` and is
  -- exchanged with its adjacent descendant until it is a leaf; the result is the place where it ends.
  -- An exchange puts the adjacent element, with the detached one's balance, at `up`, and takes its
  -- own children and balance for the detached one. `none` is an exhausted fuel.
  unfoldable pub sink : ℕ → Tree K V → ℤ → Tree K V → List (Step K V) → Option (List (Step K V))
  sink fuel leaf b leaf up = some up
  sink zero l b r up = none
  sink (suc fuel) (node ll lk lv lb lr) b r up =
      let adj = last_place ll lk lv lb lr [] in
      sink fuel adj.left adj.balance adj.right (adj.up ++ left_of adj.key adj.value b r ∷ up)
  sink (suc fuel) leaf b (node rl rk rv rb rr) up =
      let adj = first_place rl rk rv rb rr [] in
      sink fuel adj.left adj.balance adj.right (adj.up ++ right_of leaf adj.key adj.value b ∷ up)

  -- The new tree, without the element. The fuel is `tree->size`, at least the number of exchanges.
  unfoldable pub avl_tree_detach : AvlTree K V → Place K V → Option (AvlTree K V)
  avl_tree_detach tree element = do
    up ← sink tree.size element.left element.balance element.right element.up
    root ← lighten up leaf
    some (record { root = root; size = tree.size - 1 })

  -- The new tree and the element that is returned; `root` is `tree->root`.
  unfoldable pub pop_first : AvlTree K V → Tree K V → Option (AvlTree K V × Option (K × V))
  pop_first tree leaf = some (tree, none)
  pop_first tree (node l k v b r) = do
    let element = first_place l k v b r []
    tree' ← avl_tree_detach tree element
    some (tree', some (element.key, element.value))

  unfoldable pub avl_tree_pop_first : AvlTree K V → Option (AvlTree K V × Option (K × V))
  avl_tree_pop_first tree = pop_first tree tree.root

  unfoldable pub pop_last : AvlTree K V → Tree K V → Option (AvlTree K V × Option (K × V))
  pop_last tree leaf = some (tree, none)
  pop_last tree (node l k v b r) = do
    let element = last_place l k v b r []
    tree' ← avl_tree_detach tree element
    some (tree', some (element.key, element.value))

  unfoldable pub avl_tree_pop_last : AvlTree K V → Option (AvlTree K V × Option (K × V))
  avl_tree_pop_last tree = pop_last tree tree.root

module _ {ℓ κ} {K : Type ℓ} {V : Type κ} ⦃c : Comparator K⦄ where
  -- The new tree and the element that is returned.
  unfoldable pub avl_tree_pop : AvlTree K V → K → Option (AvlTree K V × Option (K × V))
  avl_tree_pop tree q = elim (locate q tree.root []) [
    | none ↦ some (tree, none)
    | some element ↦ do
      tree' ← avl_tree_detach tree element
      some (tree', some (element.key, element.value))
  ]
