-- ===== src/AvlTree/Detach/Lighten.antt =====
-- `lighten_left`, `lighten_right` and `lighten_parent` of src/avltree.c, on the way up from a
-- subtree that has become lower by one.
use mathlib.Core.List.{append_assoc, append-nil}
use fsdyn.Prelude.{
  ℕ, zero, suc, ◌+◌, max, ◌≡◌, refl, ap, ◌∙◌, subst, Option, some, Bool, true, false, if◌then◌else◌,
  List, [], ◌∷◌, ◌++◌, arith,
}
use fsdyn.Prelude.Int.{ℤ, pos, negsuc, ◌+ℤ◌}
use fsdyn.AvlTree.{Tree, leaf, node, flatten, rotate_right, rotate_left}
use fsdyn.AvlTree.Balance.{
  height, IsBalanced, Tilt, is_level, rotate_right-Rotates, rotate_left-Rotates,
}
use fsdyn.AvlTree.Place.{
  Step, left_of, right_of, plug, around, elements_before, elements_behind, flatten-plug,
}
use fsdyn.AvlTree.Detach.{is_one, is_minus_one, lighten_left, lighten_right, lighten}

module _ {ℓ κ} {K : Type ℓ} {V : Type κ} where
  -- A balanced tree of height `h` at the place makes the whole tree balanced.
  abbrev pub Fits : List (Step K V) → ℕ → Type 0
  Fits [] h = Unit
  Fits (left_of k v b r ∷ up) h =
      IsBalanced r × Tilt b h (height r) × Fits up (suc (max h (height r)))
  Fits (right_of l k v b ∷ up) h =
      IsBalanced l × Tilt b (height l) h × Fits up (suc (max (height l) h))

  pub plug-IsBalanced :
      (up : List (Step K V)) (t : Tree K V)
      → IsBalanced t
      → Fits up (height t)
      → IsBalanced (plug up t)
  unfolding plug
  plug-IsBalanced [] t h f = h
  plug-IsBalanced (left_of k v b r ∷ up) t h f =
      plug-IsBalanced up (node t k v b r) (h, f.0, f.1) f.2
  plug-IsBalanced (right_of l k v b ∷ up) t h f =
      plug-IsBalanced up (node l k v b t) (f.0, h, f.1) f.2

  -- The result is a balanced tree with the elements `xs` in the place `up`.
  abbrev pub Whole : List (Step K V) → List (K × V) → Option (Tree K V) → Type (ℓ ⊔ κ)
  Whole up xs result =
      (t : Tree K V) × (result ≡ some t) × IsBalanced t × (flatten t ≡ around up xs)

  plug-Whole :
      (up : List (Step K V)) (t : Tree K V) (xs : List (K × V))
      → IsBalanced t
      → Fits up (height t)
      → flatten t ≡ xs
      → Whole up xs (some (plug up t))
  plug-Whole up t xs h f e =
      (plug up t, refl, plug-IsBalanced up t h f, flatten-plug up t ∙ ap (around up) e)

  -- A rotation leaves a balance of -1, or 1, exactly if the higher child was level.
  rotate_left-is_minus_one :
      (l : Tree K V) (k : K) (v : V) (r t : Tree K V)
      → IsBalanced r
      → rotate_left l k v r ≡ some t
      → is_minus_one t ≡ is_level r
  unfolding rotate_left
  rotate_left-is_minus_one l k v leaf t h e = cc
  rotate_left-is_minus_one l k v (node leaf rk rv rb rr) t h e = ground arith
  rotate_left-is_minus_one l k v (node (node tl tk tv tb tr) rk rv rb rr) t h e = ground arith

  rotate_right-is_one :
      (l : Tree K V) (k : K) (v : V) (r t : Tree K V)
      → IsBalanced l
      → rotate_right l k v r ≡ some t
      → is_one t ≡ is_level l
  unfolding rotate_right
  rotate_right-is_one leaf k v r t h e = cc
  rotate_right-is_one (node ll lk lv lb leaf) k v r t h e = ground arith
  rotate_right-is_one (node ll lk lv lb (node tl tk tv tb tr)) k v r t h e = ground arith

  -- What `lighten` does with a balanced tree that is lower by one than what was at the place.
  abbrev Lightens : List (Step K V) → (Tree K V → Option (Tree K V)) → Type (ℓ ⊔ κ)
  Lightens up run =
      (t : Tree K V) → IsBalanced t → Fits up (suc (height t)) → Whole up (flatten t) (run t)

  after_rotation :
      (parent : Tree K V → Option (Tree K V)) (up : List (Step K V)) (t : Tree K V) (high : ℕ)
      (level : Bool) (xs : List (K × V))
      → Lightens up parent
      → IsBalanced t
      → height t ≡ high + (if level then 1 else 0)
      → flatten t ≡ xs
      → Fits up (suc high)
      → Whole up xs (if level then some (plug up t) else parent t)
  after_rotation parent up t high true xs run h ht e f =
      plug-Whole up t xs h (subst (Fits up) (omega arith) f) e
  after_rotation parent up t high false xs run h ht e f =
      subst (λ ys. Whole up ys (parent t)) e (run t h (subst (Fits up) (omega arith) f))

  lighten_left-Whole :
      (parent : Tree K V → Option (Tree K V)) (up : List (Step K V)) (l : Tree K V) (k : K) (v : V)
      (b : ℤ) (r : Tree K V)
      → Lightens up parent
      → IsBalanced l
      → IsBalanced r
      → Tilt b (suc (height l)) (height r)
      → Fits up (suc (max (suc (height l)) (height r)))
      → Whole up (flatten l ++ (k, v) ∷ flatten r) (lighten_left parent up l k v (b +ℤ pos 1) r)
  unfolding lighten_left
  lighten_left-Whole parent up l k v (negsuc zero) r run hl hr t f =
      run (node l k v (pos 0) r) (ground arith) (subst (Fits up) (omega arith) f)
  lighten_left-Whole parent up l k v (pos zero) r run hl hr t f =
      plug-Whole up (node l k v (pos 1) r) _ (ground arith) (subst (Fits up) (omega arith) f) refl
  lighten_left-Whole parent up l k v (pos (suc zero)) r run hl hr t f =
      let (new_top, e, bt, ht, ft) = rotate_left-Rotates l k v r hl hr (omega arith) in
      rw (e, rotate_left-is_minus_one l k v r new_top hr e)
        (after_rotation parent up new_top (height r) (is_level r) _ run bt ht ft
          (subst (Fits up) (omega arith) f))
  lighten_left-Whole parent up l k v (pos (suc (suc n))) r run hl hr t f = absurd t
  lighten_left-Whole parent up l k v (negsuc (suc n)) r run hl hr t f = absurd t

  lighten_right-Whole :
      (parent : Tree K V → Option (Tree K V)) (up : List (Step K V)) (l : Tree K V) (k : K) (v : V)
      (b : ℤ) (r : Tree K V)
      → Lightens up parent
      → IsBalanced l
      → IsBalanced r
      → Tilt b (height l) (suc (height r))
      → Fits up (suc (max (height l) (suc (height r))))
      → Whole up (flatten l ++ (k, v) ∷ flatten r) (lighten_right parent up l k v (b +ℤ negsuc 0) r)
  unfolding lighten_right
  lighten_right-Whole parent up l k v (pos (suc zero)) r run hl hr t f =
      run (node l k v (pos 0) r) (ground arith) (subst (Fits up) (omega arith) f)
  lighten_right-Whole parent up l k v (pos zero) r run hl hr t f =
      plug-Whole up (node l k v (negsuc 0) r) _ (ground arith) (subst (Fits up) (omega arith) f)
        refl
  lighten_right-Whole parent up l k v (negsuc zero) r run hl hr t f =
      let (new_top, e, bt, ht, ft) = rotate_right-Rotates l k v r hl hr (omega arith) in
      rw (e, rotate_right-is_one l k v r new_top hl e)
        (after_rotation parent up new_top (height l) (is_level l) _ run bt ht ft
          (subst (Fits up) (omega arith) f))
  lighten_right-Whole parent up l k v (pos (suc (suc n))) r run hl hr t f = absurd t
  lighten_right-Whole parent up l k v (negsuc (suc n)) r run hl hr t f = absurd t

  -- A place's surroundings are its parent's surroundings with the parent and its other child.
  pub around-left_of :
      (k : K) (v : V) (b : ℤ) (r : Tree K V) (up : List (Step K V)) (xs : List (K × V))
      → around up (xs ++ (k, v) ∷ flatten r) ≡ around (left_of k v b r ∷ up) xs
  unfolding elements_before elements_behind
  around-left_of k v b r up xs = simp append_assoc

  pub around-right_of :
      (l : Tree K V) (k : K) (v : V) (b : ℤ) (up : List (Step K V)) (xs : List (K × V))
      → around up (flatten l ++ (k, v) ∷ xs) ≡ around (right_of l k v b ∷ up) xs
  unfolding elements_before elements_behind
  around-right_of l k v b up xs = simp append_assoc

  pub around-root : (xs : List (K × V)) → xs ≡ around [] xs
  unfolding elements_before elements_behind
  around-root xs = simp append-nil

  pub lighten-Whole : (up : List (Step K V)) → Lightens up (lighten up)
  unfolding lighten
  lighten-Whole [] t h f = (t, refl, h, around-root (flatten t))
  lighten-Whole (left_of k v b r ∷ up) t h f =
      let (tree, e, bt, ft) =
        lighten_left-Whole (lighten up) up t k v b r (lighten-Whole up) h f.0 f.1 f.2 in
      (tree, e, bt, ft ∙ around-left_of k v b r up (flatten t))
  lighten-Whole (right_of l k v b ∷ up) t h f =
      let (tree, e, bt, ft) =
        lighten_right-Whole (lighten up) up l k v b t (lighten-Whole up) f.0 h f.1 f.2 in
      (tree, e, bt, ft ∙ around-right_of l k v b up (flatten t))
