-- ===== src/AvlTree/Put.antt =====
-- `put`, `put_left`, `put_right` and `avl_tree_put` of src/avltree.c.
pub mod Left
pub mod Right
pub mod Correct
use Prim.Native.Nat.Ordering.{lt, eq, gt}
use fsdyn.Prelude.{ℕ, zero, suc, ◌+◌, Option, none, some, ◌>>=◌, Bool, true, false, if◌then◌else◌}
use fsdyn.Prelude.Int.{ℤ, pos, negsuc, ◌+ℤ◌}
use fsdyn.AvlTree.{Tree, leaf, node, AvlTree, is_leaf, rotate_right, rotate_left}
use fsdyn.AvlTree.Comparator.{Comparator}

-- What `put` leaves at `*ploc`, whether `tree->size` grew, the element replaced, and the value that
-- is returned: whether the subtree is higher than before.
pub record Put {ℓ κ} (K : Type ℓ) (V : Type κ) : Type (ℓ ⊔ κ) where
  pub tree : Tree K V
  pub added : Bool
  pub removed : Option (K × V)
  pub higher : Bool

module _ {ℓ κ} {K : Type ℓ} {V : Type κ} where
  -- `make_element`
  abbrev pub make_element : K → V → Tree K V
  make_element q w = node leaf q w (pos 0) leaf

  -- The `switch` of `put_left`, on the balance after `--`.
  unfoldable pub switch_left : Put K V → K → V → ℤ → Tree K V → Option (Put K V)
  switch_left p k v (negsuc (suc zero)) r = do
    t ← rotate_right p.tree k v r
    some (record p { tree = t; higher = false })
  switch_left p k v (negsuc zero) r =
      some (record p { tree = node p.tree k v (negsuc zero) r; higher = true })
  switch_left p k v b r = some (record p { tree = node p.tree k v b r; higher = false })

  -- `down` is the recursive call of `put` on the left child, made only if there is one.
  unfoldable pub put_left :
      Option (Put K V) → K → V → Tree K V → K → V → ℤ → Tree K V → Option (Put K V)
  put_left down q w leaf k v b r = some (record {
    tree = node (make_element q w) k v (b +ℤ negsuc 0) r;
    added = true;
    removed = none;
    higher = is_leaf r;
  })
  put_left down q w (node ll lk lv lb lr) k v b r = do
    p ← down
    if p.higher
        then switch_left p k v (b +ℤ negsuc 0) r
        else some (record p { tree = node p.tree k v b r; higher = false })

  unfoldable pub switch_right : Put K V → Tree K V → K → V → ℤ → Option (Put K V)
  switch_right p l k v (pos (suc (suc zero))) = do
    t ← rotate_left l k v p.tree
    some (record p { tree = t; higher = false })
  switch_right p l k v (pos (suc zero)) =
      some (record p { tree = node l k v (pos 1) p.tree; higher = true })
  switch_right p l k v b = some (record p { tree = node l k v b p.tree; higher = false })

  unfoldable pub put_right :
      Option (Put K V) → K → V → Tree K V → K → V → ℤ → Tree K V → Option (Put K V)
  put_right down q w l k v b leaf = some (record {
    tree = node l k v (b +ℤ pos 1) (make_element q w);
    added = true;
    removed = none;
    higher = is_leaf l;
  })
  put_right down q w l k v b (node rl rk rv rb rr) = do
    p ← down
    if p.higher
        then switch_right p l k v (b +ℤ pos 1)
        else some (record p { tree = node l k v b p.tree; higher = false })

module _ {ℓ κ} {K : Type ℓ} {V : Type κ} ⦃c : Comparator K⦄ where
  -- The new element was just made, so it is never the one at `*ploc`, and the test `loc == element`
  -- of the source never holds.
  unfoldable pub put : K → V → Tree K V → Option (Put K V)
  put q w leaf = none
  put q w (node l k v b r) = elim (c.cmp q k) [
    | lt ↦ put_left (put q w l) q w l k v b r
    | gt ↦ put_right (put q w r) q w l k v b r
    | eq ↦
        some
          (record { tree = node l q w b r; added = false; removed = some (k, v); higher = false })
  ]

  unfoldable pub put_root : K → V → Tree K V → ℕ → Option (AvlTree K V × Option (K × V))
  put_root q w leaf size = some (record { root = make_element q w; size = 1 }, none)
  put_root q w (node l k v b r) size = do
    p ← put q w (node l k v b r)
    some (record { root = p.tree; size = if p.added then size + 1 else size }, p.removed)

  -- The new tree and the element that was replaced.
  unfoldable pub avl_tree_put : AvlTree K V → K → V → Option (AvlTree K V × Option (K × V))
  avl_tree_put tree q w = put_root q w tree.root tree.size
