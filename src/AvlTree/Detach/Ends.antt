-- ===== src/AvlTree/Detach/Ends.antt =====
-- `avl_tree_pop_first` and `avl_tree_pop_last` of src/avltree.c, on the sequence of elements.
use Prim.Native.Nat.Ordering.{eq}
use mathlib.Core.List.{append-nil}
use fsdyn.Prelude.{
  ◌⊎◌, inl, inr, ◌≡◌, refl, sym, ap, ◌∙◌, Option, none, some, List, [], ◌∷◌, ◌++◌, arith,
}
use fsdyn.Prelude.Int.{ℤ}
use fsdyn.AvlTree.{Tree, leaf, node, AvlTree, flatten}
use fsdyn.AvlTree.Comparator.{Comparator}
use fsdyn.AvlTree.Valid.{IsValid}
use fsdyn.AvlTree.Put.Correct.{Refines}
use fsdyn.AvlTree.Place.{
  Step, left_of, right_of, plug, elements_before, elements_behind, subtree, before, behind,
  last_place, first_place,
}
use fsdyn.AvlTree.Detach.{pop_first, avl_tree_pop_first, pop_last, avl_tree_pop_last}
use fsdyn.AvlTree.Detach.Correct.{avl_tree_detach-erase, flatten-place}

module _ {ℓ κ} {K : Type ℓ} {V : Type κ} where
  first_place-ends :
      (l : Tree K V) (k : K) (v : V) (b : ℤ) (r : Tree K V) (up : List (Step K V))
      → (plug (first_place l k v b r up).up (subtree (first_place l k v b r up))
          ≡ plug up (node l k v b r))
        × (before (first_place l k v b r up) ≡ elements_before up)
  unfolding first_place plug elements_before
  first_place-ends leaf k v b r up = (refl, simp append-nil)
  first_place-ends (node ll lk lv lb lr) k v b r up =
      first_place-ends ll lk lv lb lr (left_of k v b r ∷ up)

  last_place-ends :
      (l : Tree K V) (k : K) (v : V) (b : ℤ) (r : Tree K V) (up : List (Step K V))
      → (plug (last_place l k v b r up).up (subtree (last_place l k v b r up))
          ≡ plug up (node l k v b r))
        × (behind (last_place l k v b r up) ≡ elements_behind up)
  unfolding last_place plug elements_behind
  last_place-ends l k v b leaf up = (refl, refl)
  last_place-ends l k v b (node rl rk rv rb rr) up =
      last_place-ends rl rk rv rb rr (right_of l k v b ∷ up)

cmp_self {ℓ} : {K : Type ℓ} ⦃c : Comparator K⦄ (k : K) → c.cmp k k ≡ eq
cmp_self ⦃c⦄ k = ground (arith, c.flips k k)

module _ {ℓ κ} {K : Type ℓ} {V : Type κ} ⦃c : Comparator K⦄ where
  -- An empty tree is left as it is; from any other the first element is taken.
  abbrev pub TakesFirst : AvlTree K V → Option (AvlTree K V × Option (K × V)) → Type (ℓ ⊔ κ)
  TakesFirst tree result =
      ((flatten tree.root ≡ []) × (result ≡ some (tree, none)))
      ⊎ ((x : K × V) × (xs : List (K × V)) × (flatten tree.root ≡ x ∷ xs)
          × Refines result xs (some x))

  abbrev pub TakesLast : AvlTree K V → Option (AvlTree K V × Option (K × V)) → Type (ℓ ⊔ κ)
  TakesLast tree result =
      ((flatten tree.root ≡ []) × (result ≡ some (tree, none)))
      ⊎ ((x : K × V) × (xs : List (K × V)) × (flatten tree.root ≡ xs ++ x ∷ [])
          × Refines result xs (some x))

  pop_first-TakesFirst :
      (tree : AvlTree K V) (root : Tree K V)
      → IsValid tree
      → root ≡ tree.root
      → TakesFirst tree (pop_first tree root)
  unfolding pop_first plug elements_before
  pop_first-TakesFirst tree leaf v e = inl (sym (ap flatten e), refl)
  pop_first-TakesFirst tree (node l k w b r) v e =
      let p = first_place l k w b r [] in
      let (whole, none_before) = first_place-ends l k w b r [] in
      let (tree', returns, valid, erased, rest) =
        avl_tree_detach-erase tree p p.key v (whole ∙ e) (cmp_self p.key) in
      inr (
        (p.key, p.value),
        behind p,
        flatten-place p tree.root (whole ∙ e)
            ∙ ap (λ xs. xs ++ (p.key, p.value) ∷ behind p) none_before,
        (tree', rw returns refl, valid, rest ∙ ap (λ xs. xs ++ behind p) none_before),
      )

  pop_last-TakesLast :
      (tree : AvlTree K V) (root : Tree K V)
      → IsValid tree
      → root ≡ tree.root
      → TakesLast tree (pop_last tree root)
  unfolding pop_last plug elements_behind
  pop_last-TakesLast tree leaf v e = inl (sym (ap flatten e), refl)
  pop_last-TakesLast tree (node l k w b r) v e =
      let p = last_place l k w b r [] in
      let (whole, none_behind) = last_place-ends l k w b r [] in
      let (tree', returns, valid, erased, rest) =
        avl_tree_detach-erase tree p p.key v (whole ∙ e) (cmp_self p.key) in
      inr (
        (p.key, p.value),
        before p,
        flatten-place p tree.root (whole ∙ e)
            ∙ ap (λ ys. before p ++ (p.key, p.value) ∷ ys) none_behind,
        (
          tree',
          rw returns refl,
          valid,
          rest ∙ ap (λ ys. before p ++ ys) none_behind ∙ append-nil (before p),
        ),
      )

  -- On a well-formed tree `avl_tree_pop_first` and `avl_tree_pop_last` return the first, and the last,
  -- element and leave a well-formed tree of the others; an empty tree stays, and NULL is returned.
  pub pops-Take :
      (tree : AvlTree K V)
      → IsValid tree
      → TakesFirst tree (avl_tree_pop_first tree) × TakesLast tree (avl_tree_pop_last tree)
  unfolding avl_tree_pop_first avl_tree_pop_last
  pops-Take tree v =
      (pop_first-TakesFirst tree tree.root v refl, pop_last-TakesLast tree tree.root v refl)
