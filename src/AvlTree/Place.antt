-- ===== src/AvlTree/Place.antt =====
-- A place in a tree of src/avltree.c: the way up from a child pointer by the parent links. The
-- nearest parent comes first.
use Prim.Native.Nat.Ordering.{lt, eq, gt}
use mathlib.Core.List.{append_assoc, append-nil}
use fsdyn.Prelude.{◌≡◌, Option, none, some, List, [], ◌∷◌, ◌++◌}
use fsdyn.Prelude.Int.{ℤ}
use fsdyn.AvlTree.{Tree, leaf, node, flatten}
use fsdyn.AvlTree.Comparator.{Comparator}

-- One step up: the parent, and its other child.
pub data Step {ℓ κ} (K : Type ℓ) (V : Type κ) : Type (ℓ ⊔ κ) where
  left_of : K → V → ℤ → Tree K V → Step K V
  right_of : Tree K V → K → V → ℤ → Step K V

-- An element at its place: its fields, its children, and the way up.
pub record Place {ℓ κ} (K : Type ℓ) (V : Type κ) : Type (ℓ ⊔ κ) where
  pub left : Tree K V
  pub key : K
  pub value : V
  pub balance : ℤ
  pub right : Tree K V
  pub up : List (Step K V)

module _ {ℓ κ} {K : Type ℓ} {V : Type κ} where
  -- The whole tree, with `t` at the place.
  unfoldable pub plug : List (Step K V) → Tree K V → Tree K V
  plug [] t = t
  plug (left_of k v b r ∷ up) t = plug up (node t k v b r)
  plug (right_of l k v b ∷ up) t = plug up (node l k v b t)

  -- The elements before, and behind, the place.
  unfoldable pub elements_before : List (Step K V) → List (K × V)
  elements_before [] = []
  elements_before (left_of k v b r ∷ up) = elements_before up
  elements_before (right_of l k v b ∷ up) = elements_before up ++ flatten l ++ (k, v) ∷ []

  unfoldable pub elements_behind : List (Step K V) → List (K × V)
  elements_behind [] = []
  elements_behind (left_of k v b r ∷ up) = (k, v) ∷ flatten r ++ elements_behind up
  elements_behind (right_of l k v b ∷ up) = elements_behind up

  abbrev pub around : List (Step K V) → List (K × V) → List (K × V)
  around up xs = elements_before up ++ xs ++ elements_behind up

  pub flatten-plug :
      (up : List (Step K V)) (t : Tree K V) → flatten (plug up t) ≡ around up (flatten t)
  unfolding plug elements_before elements_behind
  flatten-plug [] t = rw append-nil
  flatten-plug (left_of k v b r ∷ up) t = rw (flatten-plug up (node t k v b r)) (simp append_assoc)
  flatten-plug (right_of l k v b ∷ up) t = rw (flatten-plug up (node l k v b t)) (simp append_assoc)

  -- `previous_descendant`: the last element of the left child, which is not NULL.
  unfoldable pub last_place : Tree K V → K → V → ℤ → Tree K V → List (Step K V) → Place K V
  last_place l k v b leaf up = record {
    left = l;
    key = k;
    value = v;
    balance = b;
    right = leaf;
    up = up;
  }
  last_place l k v b (node rl rk rv rb rr) up = last_place rl rk rv rb rr (right_of l k v b ∷ up)

  -- `next_descendant`: the first element of the right child, which is not NULL.
  unfoldable pub first_place : Tree K V → K → V → ℤ → Tree K V → List (Step K V) → Place K V
  first_place leaf k v b r up = record {
    left = leaf;
    key = k;
    value = v;
    balance = b;
    right = r;
    up = up;
  }
  first_place (node ll lk lv lb lr) k v b r up = first_place ll lk lv lb lr (left_of k v b r ∷ up)

  -- The subtree at the place; the elements before, and behind, its own element in the whole tree.
  abbrev pub subtree : Place K V → Tree K V
  subtree p = node p.left p.key p.value p.balance p.right

  abbrev pub before : Place K V → List (K × V)
  before p = elements_before p.up ++ flatten p.left

  abbrev pub behind : Place K V → List (K × V)
  behind p = flatten p.right ++ elements_behind p.up

module _ {ℓ κ} {K : Type ℓ} {V : Type κ} ⦃c : Comparator K⦄ where
  -- The loop of `avl_tree_get`, with the place of the element that it returns.
  unfoldable pub locate : K → Tree K V → List (Step K V) → Option (Place K V)
  locate q leaf up = none
  locate q (node l k v b r) up = elim (c.cmp q k) [
    | eq ↦ some (record { left = l; key = k; value = v; balance = b; right = r; up = up })
    | gt ↦ locate q r (right_of l k v b ∷ up)
    | lt ↦ locate q l (left_of k v b r ∷ up)
  ]
