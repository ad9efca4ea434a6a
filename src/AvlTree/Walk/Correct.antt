-- ===== src/AvlTree/Walk/Correct.antt =====
-- The neighbours of an element that `avl_tree_next` and `avl_tree_previous` find.
use mathlib.Core.List.{append_assoc, append-nil}
use mathlib.Core.Option.{some-injective}
use fsdyn.Prelude.{◌↔◌, ◌≡◌, refl, sym, ap, ◌∙◌, subst, Option, none, some, List, [], ◌∷◌, ◌++◌}
use fsdyn.Prelude.Int.{ℤ}
use fsdyn.AvlTree.{Tree, leaf, node, flatten}
use fsdyn.AvlTree.Place.{
  Step, left_of, right_of, Place, plug, elements_before, elements_behind, subtree, before, behind,
  last_place, first_place,
}
use fsdyn.AvlTree.Walk.{leave_right, avl_tree_next, leave_left, avl_tree_previous}

module _ {ℓ κ} {K : Type ℓ} {V : Type κ} where
  -- `next` is what comes next to an element of the tree `t`, where `xs` are the elements up to that
  -- one and `ys` those behind it.
  abbrev pub Follows : Tree K V → List (K × V) → List (K × V) → Option (Place K V) → Type (ℓ ⊔ κ)
  Follows t xs ys none = ys ≡ []
  Follows t xs ys (some p) =
      (plug p.up (subtree p) ≡ t) × (before p ≡ xs) × (ys ≡ (p.key, p.value) ∷ behind p)

  leave_right-Follows :
      (t : Tree K V) (up : List (Step K V))
      → Follows
          (plug up t)
          (elements_before up ++ flatten t)
          (elements_behind up)
          (leave_right t up)
  unfolding leave_right plug elements_before elements_behind
  leave_right-Follows t [] = refl
  leave_right-Follows t (right_of l k v b ∷ up) =
      subst
        (λ xs.
          Follows (plug up (node l k v b t)) xs (elements_behind up)
            (leave_right (node l k v b t) up))
        (simp append_assoc) (leave_right-Follows (node l k v b t) up)
  leave_right-Follows t (left_of k v b r ∷ up) = (refl, refl, refl)

  pub first_place-Follows :
      (l : Tree K V) (k : K) (v : V) (b : ℤ) (r : Tree K V) (up : List (Step K V))
      → Follows
          (plug up (node l k v b r))
          (elements_before up)
          (flatten (node l k v b r) ++ elements_behind up)
          (some (first_place l k v b r up))
  unfolding first_place plug elements_before elements_behind
  first_place-Follows leaf k v b r up = (refl, simp append-nil, refl)
  first_place-Follows (node ll lk lv lb lr) k v b r up =
      let (whole, xs, ys) = first_place-Follows ll lk lv lb lr (left_of k v b r ∷ up) in
      (whole, xs, (simp append_assoc) ∙ ys)

  place : Tree K V → K → V → ℤ → Tree K V → List (Step K V) → Place K V
  place l k v b r up = record { left = l; key = k; value = v; balance = b; right = r; up = up }

  avl_tree_next-place :
      (l : Tree K V) (k : K) (v : V) (b : ℤ) (r : Tree K V) (up : List (Step K V))
      → Follows
          (plug up (node l k v b r))
          (elements_before up ++ flatten l ++ (k, v) ∷ [])
          (flatten r ++ elements_behind up)
          (avl_tree_next (place l k v b r up))
  unfolding avl_tree_next place plug elements_before elements_behind
  avl_tree_next-place l k v b leaf up =
      subst
        (λ xs.
          Follows (plug up (node l k v b leaf)) xs (elements_behind up)
            (leave_right (node l k v b leaf) up))
        (simp append_assoc) (leave_right-Follows (node l k v b leaf) up)
  avl_tree_next-place l k v b (node rl rk rv rb rr) up =
      first_place-Follows rl rk rv rb rr (right_of l k v b ∷ up)

  -- `avl_tree_next` goes to the element behind, in the same tree, and gives NULL exactly for the last.
  pub avl_tree_next-Follows :
      (p : Place K V)
      → Follows
          (plug p.up (subtree p))
          (before p ++ (p.key, p.value) ∷ [])
          (behind p)
          (avl_tree_next p)
  unfolding place
  avl_tree_next-Follows p = avl_tree_next-place p.left p.key p.value p.balance p.right p.up

  -- Going up from a right child is undone by going down to the last descendant.
  leave_right-previous :
      (l : Tree K V) (k : K) (v : V) (b : ℤ) (r : Tree K V) (up : List (Step K V)) (p : Place K V)
      → leave_right (node l k v b r) up ≡ some p
      → avl_tree_previous p ≡ some (last_place l k v b r up)
  unfolding leave_right avl_tree_previous last_place
  leave_right-previous l k v b r [] p e = cc
  leave_right-previous l k v b r (right_of l' k' v' b' ∷ up) p e =
      leave_right-previous l' k' v' b' (node l k v b r) up p e
  leave_right-previous l k v b r (left_of k' v' b' r' ∷ up) p e =
      ap avl_tree_previous (sym (some-injective _ _ e))

  leave_left-next :
      (l : Tree K V) (k : K) (v : V) (b : ℤ) (r : Tree K V) (up : List (Step K V)) (p : Place K V)
      → leave_left (node l k v b r) up ≡ some p
      → avl_tree_next p ≡ some (first_place l k v b r up)
  unfolding leave_left avl_tree_next first_place
  leave_left-next l k v b r [] p e = cc
  leave_left-next l k v b r (left_of k' v' b' r' ∷ up) p e =
      leave_left-next (node l k v b r) k' v' b' r' up p e
  leave_left-next l k v b r (right_of l' k' v' b' ∷ up) p e =
      ap avl_tree_next (sym (some-injective _ _ e))

  -- Going down to the first descendant is undone by going up from a left child.
  previous-first_place :
      (l : Tree K V) (k : K) (v : V) (b : ℤ) (r : Tree K V) (up : List (Step K V))
      → avl_tree_previous (first_place l k v b r up) ≡ leave_left (node l k v b r) up
  unfolding avl_tree_previous first_place leave_left
  previous-first_place leaf k v b r up = refl
  previous-first_place (node ll lk lv lb lr) k v b r up =
      previous-first_place ll lk lv lb lr (left_of k v b r ∷ up)

  next-last_place :
      (l : Tree K V) (k : K) (v : V) (b : ℤ) (r : Tree K V) (up : List (Step K V))
      → avl_tree_next (last_place l k v b r up) ≡ leave_right (node l k v b r) up
  unfolding avl_tree_next last_place leave_right
  next-last_place l k v b leaf up = refl
  next-last_place l k v b (node rl rk rv rb rr) up =
      next-last_place rl rk rv rb rr (right_of l k v b ∷ up)

  next-place :
      (l : Tree K V) (k : K) (v : V) (b : ℤ) (r : Tree K V) (up : List (Step K V)) (p : Place K V)
      → avl_tree_next (place l k v b r up) ≡ some p
      → avl_tree_previous p ≡ some (place l k v b r up)
  unfolding avl_tree_next place last_place leave_left
  next-place l k v b leaf up p e = leave_right-previous l k v b leaf up p e
  next-place l k v b (node rl rk rv rb rr) up p e =
      ap avl_tree_previous (sym (some-injective _ _ e)) ∙ previous-first_place rl rk rv rb rr _

  previous-place :
      (l : Tree K V) (k : K) (v : V) (b : ℤ) (r : Tree K V) (up : List (Step K V)) (p : Place K V)
      → avl_tree_previous (place l k v b r up) ≡ some p
      → avl_tree_next p ≡ some (place l k v b r up)
  unfolding avl_tree_previous place first_place leave_right
  previous-place leaf k v b r up p e = leave_left-next leaf k v b r up p e
  previous-place (node ll lk lv lb lr) k v b r up p e =
      ap avl_tree_next (sym (some-injective _ _ e)) ∙ next-last_place ll lk lv lb lr _

  -- `avl_tree_next` and `avl_tree_previous` undo each other: one goes from `p` to `q` exactly if the
  -- other goes from `q` to `p`.
  pub avl_tree_next-avl_tree_previous :
      (p q : Place K V) → (avl_tree_next p ≡ some q) ↔ (avl_tree_previous q ≡ some p)
  unfolding place
  avl_tree_next-avl_tree_previous p q = (
    next-place p.left p.key p.value p.balance p.right p.up q,
    previous-place q.left q.key q.value q.balance q.right q.up p,
  )
