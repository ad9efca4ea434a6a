-- ===== src/AvlTree/Detach/Sink.antt =====
-- The exchanges of `avl_tree_detach`: `sink`, which takes an element down to a leaf, with the
-- balances and the order of the other elements on the way.
use mathlib.Core.List.{append_assoc, append-nil}
use fsdyn.Prelude.{
  ℕ, zero, suc, ◌+◌, max, ◌≤◌, ◌<◌, ◌≡◌, refl, ap, ◌∙◌, Option, some, List, [], ◌∷◌, ◌++◌, length,
  length-append, arith,
}
use fsdyn.Prelude.Int.{ℤ}
use fsdyn.AvlTree.{Tree, leaf, node, flatten}
use fsdyn.AvlTree.Balance.{height, IsBalanced, Tilt}
use fsdyn.AvlTree.Place.{
  Step, left_of, right_of, Place, plug, around, elements_before, elements_behind,
}
use fsdyn.AvlTree.Place.{last_place, first_place}
use fsdyn.AvlTree.Detach.{sink}
use fsdyn.AvlTree.Detach.Lighten.{Fits}

module _ {ℓ κ} {K : Type ℓ} {V : Type κ} where
  pub Fits-plug :
      (up : List (Step K V)) (t : Tree K V)
      → IsBalanced (plug up t)
      → IsBalanced t × Fits up (height t)
  unfolding plug
  Fits-plug [] t h = (h, tt)
  Fits-plug (left_of k v b r ∷ up) t h =
      let (n, f) = Fits-plug up (node t k v b r) h in (n.0, (n.1, n.2, f))
  Fits-plug (right_of l k v b ∷ up) t h =
      let (n, f) = Fits-plug up (node l k v b t) h in (n.1, (n.0, n.2, f))

  -- A balanced element lies at the place, from which `base` leads on to the root.
  abbrev IsAt : List (Step K V) → Place K V → Type 0
  IsAt base p =
      IsBalanced p.left
      × IsBalanced p.right
      × Tilt p.balance (height p.left) (height p.right)
      × Fits (p.up ++ base) (suc (max (height p.left) (height p.right)))

  last_place-IsAt :
      (l : Tree K V) (k : K) (v : V) (b : ℤ) (r : Tree K V) (up base : List (Step K V))
      → IsBalanced (node l k v b r)
      → Fits (up ++ base) (height (node l k v b r))
      → IsAt base (last_place l k v b r up)
  unfolding last_place
  last_place-IsAt l k v b leaf up base h f = (h.0, tt, h.2, f)
  last_place-IsAt l k v b (node rl rk rv rb rr) up base h f =
      last_place-IsAt rl rk rv rb rr (right_of l k v b ∷ up) base h.1 (h.0, h.2, f)

  first_place-IsAt :
      (l : Tree K V) (k : K) (v : V) (b : ℤ) (r : Tree K V) (up base : List (Step K V))
      → IsBalanced (node l k v b r)
      → Fits (up ++ base) (height (node l k v b r))
      → IsAt base (first_place l k v b r up)
  unfolding first_place
  first_place-IsAt leaf k v b r up base h f = (tt, h.1, h.2, f)
  first_place-IsAt (node ll lk lv lb lr) k v b r up base h f =
      first_place-IsAt ll lk lv lb lr (left_of k v b r ∷ up) base h.0 (h.1, h.2, f)

  -- The last place has all elements of the subtree before it, or in it.
  last_place-elements :
      (l : Tree K V) (k : K) (v : V) (b : ℤ) (r : Tree K V) (up base : List (Step K V))
      → (p : Place K V) → p ≡ last_place l k v b r up
      → (elements_before (p.up ++ base)
            ++ flatten p.left
            ++ flatten p.right
            ++ (p.key, p.value) ∷ []
          ≡ elements_before (up ++ base) ++ flatten (node l k v b r))
        × (elements_behind (p.up ++ base) ≡ elements_behind (up ++ base))
  unfolding last_place elements_before elements_behind
  last_place-elements l k v b leaf up base p e = rw e (simp (append_assoc, append-nil), refl)
  last_place-elements l k v b (node rl rk rv rb rr) up base p e =
      let (before, behind) = last_place-elements rl rk rv rb rr (right_of l k v b ∷ up) base p e in
      (before ∙ simp append_assoc, behind)

  first_place-elements :
      (l : Tree K V) (k : K) (v : V) (b : ℤ) (r : Tree K V) (up base : List (Step K V))
      → (p : Place K V) → p ≡ first_place l k v b r up
      → ((p.key, p.value) ∷ flatten p.left ++ flatten p.right ++ elements_behind (p.up ++ base)
          ≡ flatten (node l k v b r) ++ elements_behind (up ++ base))
        × (elements_before (p.up ++ base) ≡ elements_before (up ++ base))
  unfolding first_place elements_before elements_behind
  first_place-elements leaf k v b r up base p e = rw e (simp append_assoc, refl)
  first_place-elements (node ll lk lv lb lr) k v b r up base p e =
      let (behind, before) = first_place-elements ll lk lv lb lr (left_of k v b r ∷ up) base p e in
      (behind ∙ simp append_assoc, before)

  -- What the exchanges give for an element with the elements `xs` below it.
  abbrev pub Sinks : List (Step K V) → List (K × V) → Option (List (Step K V)) → Type (ℓ ⊔ κ)
  Sinks up xs result =
      (up' : List (Step K V)) × (result ≡ some up') × Fits up' 1 × (around up' [] ≡ around up xs)

  last_place-around :
      (p : Place K V) (b : ℤ) (r : Tree K V) (up : List (Step K V)) (xs : List (K × V))
      → (let base = left_of p.key p.value b r ∷ up in
          (elements_before (p.up ++ base)
              ++ flatten p.left
              ++ flatten p.right
              ++ (p.key, p.value) ∷ []
            ≡ elements_before base ++ xs)
          × (elements_behind (p.up ++ base) ≡ elements_behind base))
      → around (p.up ++ left_of p.key p.value b r ∷ up) (flatten p.left ++ flatten p.right)
        ≡ around up (xs ++ flatten r)
  unfolding elements_before elements_behind
  last_place-around p b r up xs e =
      (simp (append_assoc, e.1))
      ∙ ap (λ ys. ys ++ flatten r ++ elements_behind up) e.0
      ∙ (simp append_assoc)

  first_place-around :
      (p : Place K V) (l : Tree K V) (b : ℤ) (up : List (Step K V)) (xs : List (K × V))
      → (let base = right_of l p.key p.value b ∷ up in
          ((p.key, p.value) ∷ flatten p.left ++ flatten p.right ++ elements_behind (p.up ++ base)
            ≡ xs ++ elements_behind base)
          × (elements_before (p.up ++ base) ≡ elements_before base))
      → around (p.up ++ right_of l p.key p.value b ∷ up) (flatten p.left ++ flatten p.right)
        ≡ around up (flatten l ++ xs)
  unfolding elements_before elements_behind
  first_place-around p l b up xs e =
      (simp (append_assoc, e.1))
      ∙ ap (λ ys. elements_before up ++ flatten l ++ ys) e.0
      ∙ (simp append_assoc)

  last_place-length :
      (before xs ys zs : List (K × V)) (x : K × V)
      → before ++ xs ++ ys ++ x ∷ [] ≡ zs
      → length xs + length ys < length zs
  last_place-length before xs ys zs x e = omega (
    arith,
    ap length e,
    length-append (before ++ xs ++ ys) (x ∷ []),
    length-append (before ++ xs) ys,
    length-append before xs,
  )

  first_place-length :
      (behind xs ys zs : List (K × V)) (x : K × V)
      → x ∷ xs ++ ys ++ behind ≡ zs ++ []
      → length xs + length ys < length zs
  first_place-length behind xs ys zs x e = omega (
    arith,
    ap length e,
    length-append zs [],
    length-append (x ∷ xs ++ ys) behind,
    length-append (x ∷ xs) ys,
  )

-- What the loop does with this fuel.
abbrev SinksFrom {ℓ κ} : (K : Type ℓ) (V : Type κ) → ℕ → Type (ℓ ⊔ κ)
SinksFrom K V fuel =
    (l : Tree K V) (b : ℤ) (r : Tree K V) (up : List (Step K V))
    → IsBalanced l
    → IsBalanced r
    → Tilt b (height l) (height r)
    → Fits up (suc (max (height l) (height r)))
    → length (flatten l) + length (flatten r) ≤ fuel
    → Sinks up (flatten l ++ flatten r) (sink fuel l b r up)

module _ {ℓ κ} {K : Type ℓ} {V : Type κ} where
  -- The loop goes on with the adjacent element `p`.
  sink-at :
      (fuel : ℕ) (p : Place K V) (base up : List (Step K V)) (xs : List (K × V))
      → SinksFrom K V fuel
      → IsAt base p
      → length (flatten p.left) + length (flatten p.right) ≤ fuel
      → around (p.up ++ base) (flatten p.left ++ flatten p.right) ≡ around up xs
      → Sinks up xs (sink fuel p.left p.balance p.right (p.up ++ base))
  sink-at fuel p base up xs run at n e =
      let (up', returns, fits, holds) =
        run p.left p.balance p.right (p.up ++ base) at.0 at.1 at.2 at.3 n in
      (up', returns, fits, holds ∙ e)

  -- With fuel for each element below, the exchanges end at a place for a leaf, and the elements
  -- below have gone over to its surroundings, in their order.
  pub sink-Sinks : (fuel : ℕ) → SinksFrom K V fuel
  unfolding sink elements_before elements_behind
  sink-Sinks fuel leaf b leaf up hl hr t f n = (up, refl, f, refl)
  sink-Sinks zero (node ll lk lv lb lr) b r up hl hr t f n =
      absurd (omega (arith, length-append (flatten ll) ((lk, lv) ∷ flatten lr)))
  sink-Sinks zero leaf b (node rl rk rv rb rr) up hl hr t f n =
      absurd (omega (arith, length-append (flatten rl) ((rk, rv) ∷ flatten rr)))
  sink-Sinks (suc fuel) (node ll lk lv lb lr) b r up hl hr t f n =
      let p = last_place ll lk lv lb lr [] in
      let base = left_of p.key p.value b r ∷ up in
      sink-at fuel p base up _ (sink-Sinks fuel)
        (last_place-IsAt ll lk lv lb lr [] base hl (hr, t, f))
        (omega (
          arith,
          last_place-length (elements_before (p.up ++ [])) (flatten p.left) (flatten p.right)
              (flatten (node ll lk lv lb lr)) (p.key, p.value)
              (last_place-elements ll lk lv lb lr [] [] p refl).0,
        ))
        (last_place-around p b r up _ (last_place-elements ll lk lv lb lr [] base p refl))
  sink-Sinks (suc fuel) leaf b (node rl rk rv rb rr) up hl hr t f n =
      let p = first_place rl rk rv rb rr [] in
      let base = right_of leaf p.key p.value b ∷ up in
      sink-at fuel p base up _ (sink-Sinks fuel)
        (first_place-IsAt rl rk rv rb rr [] base hr (hl, t, f))
        (omega (
          arith,
          first_place-length (elements_behind (p.up ++ [])) (flatten p.left) (flatten p.right)
              (flatten (node rl rk rv rb rr)) (p.key, p.value)
              (first_place-elements rl rk rv rb rr [] [] p refl).0,
        ))
        (first_place-around p leaf b up _ (first_place-elements rl rk rv rb rr [] base p refl))
