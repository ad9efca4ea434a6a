-- ===== src/AvlTree/Balance.antt =====
-- Balanced trees: every balance is the difference of the children's heights, and is -1, 0 or 1.
-- The rotations of src/avltree.c at an element whose children differ by two.

use fsdyn.Prelude.{
  ℕ, zero, suc, ◌+◌, max, ◌≡◌, refl, Option, some, Bool, true, false, if◌then◌else◌, List, ◌∷◌,
  ◌++◌, arith,
}
use mathlib.Core.List.{append_assoc}
use fsdyn.Prelude.Int.{ℤ, pos, negsuc}
use fsdyn.AvlTree.{Tree, leaf, node, flatten, rotate_right, rotate_left}

-- `b` is the height on the right less that on the left.
abbrev pub Tilt : ℤ → ℕ → ℕ → Type 0
Tilt (pos zero) hl hr = hl ≡ hr
Tilt (pos (suc zero)) hl hr = hr ≡ suc hl
Tilt (pos (suc (suc n))) hl hr = ⊥
Tilt (negsuc zero) hl hr = hl ≡ suc hr
Tilt (negsuc (suc n)) hl hr = ⊥

module _ {ℓ κ} {K : Type ℓ} {V : Type κ} where
  abbrev pub height : Tree K V → ℕ
  height leaf = 0
  height (node l k v b r) = suc (max (height l) (height r))

  abbrev pub IsBalanced : Tree K V → Type 0
  IsBalanced leaf = Unit
  IsBalanced (node l k v b r) = IsBalanced l × IsBalanced r × Tilt b (height l) (height r)

  -- The root's balance is 0.
  abbrev pub is_level : Tree K V → Bool
  is_level leaf = true
  is_level (node l k v (pos zero) r) = true
  is_level (node l k v b r) = false

  -- What a rotation of an element between `l` and `r` gives, where `high` is the height of the
  -- higher child: the same elements in a balanced tree, which is higher than that child only if the
  -- child was level.
  abbrev pub Rotates : Option (Tree K V) → ℕ → Bool → List (K × V) → Type (ℓ ⊔ κ)
  Rotates result high level elements =
      (t : Tree K V) × (result ≡ some t)
      × IsBalanced t
      × (height t ≡ high + (if level then 1 else 0))
      × (flatten t ≡ elements)

  pub rotate_right-Rotates :
      (l : Tree K V) (k : K) (v : V) (r : Tree K V)
      → IsBalanced l
      → IsBalanced r
      → height l ≡ suc (suc (height r))
      → Rotates (rotate_right l k v r) (height l) (is_level l) (flatten l ++ (k, v) ∷ flatten r)
  unfolding rotate_right
  rotate_right-Rotates leaf k v r bl br h = absurd (omega arith)
  rotate_right-Rotates (node ll lk lv (negsuc zero) leaf) k v r bl br h =
      (_, refl, ground arith, omega arith, simp append_assoc)
  rotate_right-Rotates (node ll lk lv (negsuc zero) (node tl tk tv tb tr)) k v r bl br h =
      (_, refl, ground arith, omega arith, simp append_assoc)
  rotate_right-Rotates (node ll lk lv (pos zero) leaf) k v r bl br h =
      (_, refl, ground arith, omega arith, simp append_assoc)
  rotate_right-Rotates (node ll lk lv (pos zero) (node tl tk tv tb tr)) k v r bl br h =
      (_, refl, ground arith, omega arith, simp append_assoc)
  rotate_right-Rotates (node ll lk lv (pos (suc zero)) leaf) k v r bl br h = absurd (omega arith)
  rotate_right-Rotates (node ll lk lv (pos (suc zero)) (node tl tk tv (pos zero) tr)) k v r bl br
        h =
      (_, refl, ground arith, omega arith, simp append_assoc)
  rotate_right-Rotates (node ll lk lv (pos (suc zero)) (node tl tk tv (pos (suc zero)) tr)) k v r bl
        br h =
      (_, refl, ground arith, omega arith, simp append_assoc)
  rotate_right-Rotates (node ll lk lv (pos (suc zero)) (node tl tk tv (negsuc zero) tr)) k v r bl br
        h =
      (_, refl, ground arith, omega arith, simp append_assoc)
  rotate_right-Rotates (node ll lk lv (pos (suc zero)) (node tl tk tv (pos (suc (suc n))) tr)) k v r
        bl br h =
      absurd bl.1.2
  rotate_right-Rotates (node ll lk lv (pos (suc zero)) (node tl tk tv (negsuc (suc n)) tr)) k v r bl
        br h =
      absurd bl.1.2
  rotate_right-Rotates (node ll lk lv (pos (suc (suc n))) lr) k v r bl br h = absurd bl.2
  rotate_right-Rotates (node ll lk lv (negsuc (suc n)) lr) k v r bl br h = absurd bl.2

  pub rotate_left-Rotates :
      (l : Tree K V) (k : K) (v : V) (r : Tree K V)
      → IsBalanced l
      → IsBalanced r
      → height r ≡ suc (suc (height l))
      → Rotates (rotate_left l k v r) (height r) (is_level r) (flatten l ++ (k, v) ∷ flatten r)
  unfolding rotate_left
  rotate_left-Rotates l k v leaf bl br h = absurd (omega arith)
  rotate_left-Rotates l k v (node leaf rk rv (pos (suc zero)) rr) bl br h =
      (_, refl, ground arith, omega arith, simp append_assoc)
  rotate_left-Rotates l k v (node (node tl tk tv tb tr) rk rv (pos (suc zero)) rr) bl br h =
      (_, refl, ground arith, omega arith, simp append_assoc)
  rotate_left-Rotates l k v (node leaf rk rv (pos zero) rr) bl br h =
      (_, refl, ground arith, omega arith, simp append_assoc)
  rotate_left-Rotates l k v (node (node tl tk tv tb tr) rk rv (pos zero) rr) bl br h =
      (_, refl, ground arith, omega arith, simp append_assoc)
  rotate_left-Rotates l k v (node leaf rk rv (negsuc zero) rr) bl br h = absurd (omega arith)
  rotate_left-Rotates l k v (node (node tl tk tv (pos zero) tr) rk rv (negsuc zero) rr) bl br h =
      (_, refl, ground arith, omega arith, simp append_assoc)
  rotate_left-Rotates l k v (node (node tl tk tv (pos (suc zero)) tr) rk rv (negsuc zero) rr) bl br
        h =
      (_, refl, ground arith, omega arith, simp append_assoc)
  rotate_left-Rotates l k v (node (node tl tk tv (negsuc zero) tr) rk rv (negsuc zero) rr) bl br h =
      (_, refl, ground arith, omega arith, simp append_assoc)
  rotate_left-Rotates l k v (node (node tl tk tv (pos (suc (suc n))) tr) rk rv (negsuc zero) rr) bl
        br h =
      absurd br.0.2
  rotate_left-Rotates l k v (node (node tl tk tv (negsuc (suc n)) tr) rk rv (negsuc zero) rr) bl br
        h =
      absurd br.0.2
  rotate_left-Rotates l k v (node rl rk rv (pos (suc (suc n))) rr) bl br h = absurd br.2
  rotate_left-Rotates l k v (node rl rk rv (negsuc (suc n)) rr) bl br h = absurd br.2
