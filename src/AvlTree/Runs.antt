-- ===== src/AvlTree/Runs.antt =====
-- The trees that the functions of src/avltree.c build from an empty one, and their height.
use fsdyn.Prelude.{
  ◌+◌, ◌/◌, ◌^◌, ◌≤◌, ◌≡◌, refl, sym, subst, ap, ◌∙◌, inl, inr, Option, none, some, ◌>>=◌, List, [],
  ◌∷◌, ◌++◌, arith,
}
use fsdyn.AvlTree.{AvlTree, flatten}
use fsdyn.AvlTree.Comparator.{Comparator}
use fsdyn.AvlTree.Balance.{height}
use fsdyn.AvlTree.Order.{insert, erase}
use fsdyn.AvlTree.Detach.{avl_tree_pop, avl_tree_pop_first, avl_tree_pop_last}
use fsdyn.AvlTree.Detach.Correct.{avl_tree_pop-Refines}
use fsdyn.AvlTree.Detach.Ends.{TakesFirst, TakesLast, pops-Take}
use fsdyn.AvlTree.Height.{height-size}
use fsdyn.AvlTree.Put.{avl_tree_put}
use fsdyn.AvlTree.Put.Correct.{avl_tree_put-Refines, Refines}
use fsdyn.AvlTree.Valid.{IsValid, make_avl_tree, make_avl_tree-IsValid}

-- A call that changes a tree.
pub data Operation {ℓ κ} (K : Type ℓ) (V : Type κ) : Type (ℓ ⊔ κ) where
  putting : K → V → Operation K V
  popping : K → Operation K V
  popping_first : Operation K V
  popping_last : Operation K V

-- All elements but the last.
abbrev pub drop_last {ℓ} : {A : Type ℓ} → List A → List A
drop_last [] = []
drop_last (x ∷ []) = []
drop_last (x ∷ y ∷ xs) = x ∷ drop_last (y ∷ xs)

-- All elements but the first.
abbrev pub drop_first {ℓ} : {A : Type ℓ} → List A → List A
drop_first [] = []
drop_first (x ∷ xs) = xs

drop_last-append {ℓ} : {A : Type ℓ} (xs : List A) (x : A) → drop_last (xs ++ x ∷ []) ≡ xs
drop_last-append [] x = refl
drop_last-append (y ∷ []) x = refl
drop_last-append (y ∷ z ∷ xs) x = ap (◌∷◌ y) (drop_last-append (z ∷ xs) x)

module _ {ℓ κ} {K : Type ℓ} {V : Type κ} ⦃c : Comparator K⦄ where
  -- The call, whose result is not looked at.
  unfoldable pub step : Operation K V → AvlTree K V → Option (AvlTree K V × Option (K × V))
  step (putting q w) tree = avl_tree_put tree q w
  step (popping q) tree = avl_tree_pop tree q
  step popping_first tree = avl_tree_pop_first tree
  step popping_last tree = avl_tree_pop_last tree

  -- The calls, one after another; what they return is dropped.
  unfoldable pub run : List (Operation K V) → AvlTree K V → Option (AvlTree K V)
  run [] tree = some tree
  run (op ∷ ops) tree = step op tree >>= λ p. run ops p.0

  -- What a call makes of the sorted elements.
  abbrev pub step_elements : Operation K V → List (K × V) → List (K × V)
  step_elements (putting q w) xs = insert q w xs
  step_elements (popping q) xs = erase q xs
  step_elements popping_first xs = drop_first xs
  step_elements popping_last xs = drop_last xs

  abbrev pub run_elements : List (Operation K V) → List (K × V) → List (K × V)
  run_elements [] xs = xs
  run_elements (op ∷ ops) xs = run_elements ops (step_elements op xs)

  -- A call that ends in a well-formed tree of these elements, whatever it returns.
  abbrev Makes : Option (AvlTree K V × Option (K × V)) → List (K × V) → Type (ℓ ⊔ κ)
  Makes result xs =
      (tree : AvlTree K V) × (removed : Option (K × V)) × (result ≡ some (tree, removed))
      × IsValid tree
      × (flatten tree.root ≡ xs)

  Refines-Makes :
      (result : Option (AvlTree K V × Option (K × V))) (xs : List (K × V))
      (removed : Option (K × V))
      → Refines result xs removed
      → Makes result xs
  Refines-Makes result xs removed (tree, e, v, holds) = (tree, removed, e, v, holds)

  first-Makes :
      (tree : AvlTree K V) (result : Option (AvlTree K V × Option (K × V)))
      → IsValid tree
      → TakesFirst tree result
      → Makes result (drop_first (flatten tree.root))
  first-Makes tree result v (inl (empty, e)) = (tree, none, e, v, empty ∙ sym (ap drop_first empty))
  first-Makes tree result v (inr (x, xs, split, r)) =
      subst (Makes result) (sym (ap drop_first split)) (Refines-Makes result xs (some x) r)

  last-Makes :
      (tree : AvlTree K V) (result : Option (AvlTree K V × Option (K × V)))
      → IsValid tree
      → TakesLast tree result
      → Makes result (drop_last (flatten tree.root))
  last-Makes tree result v (inl (empty, e)) = (tree, none, e, v, empty ∙ sym (ap drop_last empty))
  last-Makes tree result v (inr (x, xs, split, r)) =
      subst (Makes result) (sym (ap drop_last split ∙ drop_last-append xs x))
        (Refines-Makes result xs (some x) r)

  step-Makes :
      (op : Operation K V) (tree : AvlTree K V)
      → IsValid tree
      → Makes (step op tree) (step_elements op (flatten tree.root))
  unfolding step
  step-Makes (putting q w) tree v = Refines-Makes _ _ _ (avl_tree_put-Refines tree q w v)
  step-Makes (popping q) tree v = Refines-Makes _ _ _ (avl_tree_pop-Refines tree q v)
  step-Makes popping_first tree v = first-Makes tree _ v ((pops-Take tree v).0)
  step-Makes popping_last tree v = last-Makes tree _ v ((pops-Take tree v).1)

  run-IsValid :
      (ops : List (Operation K V)) (tree : AvlTree K V) (xs : List (K × V))
      → IsValid tree
      → flatten tree.root ≡ xs
      → (tree' : AvlTree K V) × (run ops tree ≡ some tree')
        × IsValid tree'
        × (flatten tree'.root ≡ run_elements ops xs)
  unfolding run
  run-IsValid [] tree xs v e = (tree, refl, v, e)
  run-IsValid (op ∷ ops) tree xs v e =
      let (tree', removed, returns, valid, holds) = step-Makes op tree v in
      let (end_tree, ends, end_valid, end_holds) =
        run-IsValid ops tree' (step_elements op xs) valid (holds ∙ ap (step_elements op) e) in
      (end_tree, rw (run, returns) ends, end_valid, end_holds)

  -- Any calls of `avl_tree_put`, `avl_tree_pop`, `avl_tree_pop_first` and `avl_tree_pop_last`, one after
  -- another on a new tree, read through no null pointer and end in a well-formed tree. It has the
  -- elements that insertions and removals make of an empty sorted list, and its height is at most
  -- about twice the logarithm of its size: 2 to half the height, rounded down, is at most
  -- one more than the size.
  pub run-height :
      (ops : List (Operation K V))
      → (tree : AvlTree K V) × (run ops make_avl_tree ≡ some tree)
        × IsValid tree
        × (flatten tree.root ≡ run_elements ops [])
        × (2 ^ (height tree.root / 2) ≤ tree.size + 1)
  run-height ops =
      let (tree, ends, valid, holds) =
        run-IsValid ops make_avl_tree [] make_avl_tree-IsValid (unfold make_avl_tree in refl) in
      (tree, ends, valid, holds, height-size tree (height tree.root / 2) valid (omega arith))
