-- ===== src/AvlTree/Put/Left.antt =====
-- `put_left`: a put into the left subtree, and the rebalancing above it.

use fsdyn.Prelude.{
  ℕ, zero, suc, ◌+◌, ◌≡◌, refl, sym, ap, ◌∙◌, Option, none, some, true, false, if◌then◌else◌,
  Bool-cases, inl, inr, List, ◌∷◌, ◌++◌, is_none, arith,
}
use fsdyn.Prelude.Int.{ℤ, pos, negsuc, ◌+ℤ◌}
use fsdyn.AvlTree.{Tree, leaf, node, flatten}
use fsdyn.AvlTree.Balance.{height, IsBalanced, is_level, rotate_right-Rotates}
use fsdyn.AvlTree.Put.{Put, switch_left, put_left}

-- `result` is a put into a tree of the given height: the elements afterwards, and the one removed.
pub record IsPut {ℓ κ} {K : Type ℓ} {V : Type κ} (high : ℕ) (elements : List (K × V))
    (removed : Option (K × V)) (result : Option (Put K V)) : Type (ℓ ⊔ κ) where
  pub found : Put K V
  pub returns : result ≡ some found
  pub balanced : IsBalanced found.tree
  pub grows : height found.tree ≡ high + (if found.higher then 1 else 0)
  pub uneven : found.higher ≡ true → is_level found.tree ≡ false
  pub holds : flatten found.tree ≡ elements
  pub removes : found.removed ≡ removed
  pub adds : found.added ≡ is_none removed

module _ {ℓ κ} {K : Type ℓ} {V : Type κ} where
  pub put_left-leaf :
      (down : Option (Put K V)) (q : K) (w : V) (k : K) (v : V) (b : ℤ) (r : Tree K V)
      → IsBalanced (node leaf k v b r)
      → IsPut
          (height (node leaf k v b r))
          ((q, w) ∷ (k, v) ∷ flatten r)
          none
          (put_left down q w leaf k v b r)
  unfolding put_left
  put_left-leaf down q w k v (pos zero) leaf h = record {
    found = _;
    returns = refl;
    balanced = ground arith;
    grows = omega arith;
    uneven = λ e. refl;
    holds = refl;
    removes = refl;
    adds = refl;
  }
  put_left-leaf down q w k v (pos zero) (node _ _ _ _ _) h = absurd (omega arith)
  put_left-leaf down q w k v (pos (suc zero)) leaf h = absurd (omega arith)
  put_left-leaf down q w k v (pos (suc zero)) (node rl rk rv rb rr) h = record {
    found = _;
    returns = refl;
    balanced = ground arith;
    grows = ground arith;
    uneven = λ e. cc;
    holds = refl;
    removes = refl;
    adds = refl;
  }
  put_left-leaf down q w k v (pos (suc (suc n))) r h = absurd h.2
  put_left-leaf down q w k v (negsuc zero) r h = absurd (omega arith)
  put_left-leaf down q w k v (negsuc (suc n)) r h = absurd h.2

  -- The left subtree has been replaced by a higher one.
  switch_left-IsPut :
      (l : Tree K V) (p : Put K V) (k : K) (v : V) (b : ℤ) (r : Tree K V)
      → IsBalanced (node l k v b r)
      → IsBalanced p.tree
      → height p.tree ≡ height l + 1
      → is_level p.tree ≡ false
      → p.added ≡ is_none p.removed
      → IsPut
          (height (node l k v b r))
          (flatten p.tree ++ (k, v) ∷ flatten r)
          p.removed
          (switch_left p k v (b +ℤ negsuc 0) r)
  unfolding switch_left
  switch_left-IsPut l p k v (pos zero) r h hp high un added = record {
    found = _;
    returns = refl;
    balanced = ground arith;
    grows = ground arith;
    uneven = λ e. refl;
    holds = refl;
    removes = refl;
    adds = added;
  }
  switch_left-IsPut l p k v (pos (suc zero)) r h hp high un added = record {
    found = _;
    returns = refl;
    balanced = ground arith;
    grows = ground arith;
    uneven = λ e. cc;
    holds = refl;
    removes = refl;
    adds = added;
  }
  switch_left-IsPut l p k v (pos (suc (suc n))) r h hp high un added = absurd h.2
  switch_left-IsPut l p k v (negsuc zero) r h hp high un added =
      let (t, e, bt, ht, ft) = rotate_right-Rotates p.tree k v r hp h.1 (omega arith) in
      record {
        found = record p { tree = t; higher = false };
        returns = rw e;
        balanced = bt;
        grows = ground (arith, ht);
        uneven = λ e. cc;
        holds = ft;
        removes = refl;
        adds = added;
      }
  switch_left-IsPut l p k v (negsuc (suc n)) r h hp high un added = absurd h.2

  -- The left subtree has been replaced by one that is no higher.
  keep_left-IsPut :
      (l : Tree K V) (p : Put K V) (k : K) (v : V) (b : ℤ) (r : Tree K V)
      → IsBalanced (node l k v b r)
      → IsBalanced p.tree
      → height p.tree ≡ height l
      → p.added ≡ is_none p.removed
      → IsPut
          (height (node l k v b r))
          (flatten p.tree ++ (k, v) ∷ flatten r)
          p.removed
          (some (record p { tree = node p.tree k v b r; higher = false }))
  keep_left-IsPut l p k v b r h hp same added = record {
    found = record p { tree = node p.tree k v b r; higher = false };
    returns = refl;
    balanced = (hp, h.1, rw same h.2);
    grows = omega arith;
    uneven = λ e. cc;
    holds = refl;
    removes = refl;
    adds = added;
  }

  pub put_left-node :
      (ll : Tree K V) (lk : K) (lv : V) (lb : ℤ) (lr : Tree K V) (elements : List (K × V))
      (removed : Option (K × V)) (down : Option (Put K V)) (q : K) (w : V) (k : K) (v : V) (b : ℤ)
      (r : Tree K V)
      → IsBalanced (node (node ll lk lv lb lr) k v b r)
      → IsPut (height (node ll lk lv lb lr)) elements removed down
      → IsPut
          (height (node (node ll lk lv lb lr) k v b r))
          (elements ++ (k, v) ∷ flatten r)
          removed
          (put_left down q w (node ll lk lv lb lr) k v b r)
  unfolding put_left
  put_left-node ll lk lv lb lr elements removed down q w k v b r h d =
      let p = d.found in
      rw (d.returns, ← d.holds, ← d.removes)
        (elim (Bool-cases p.higher) [
          | inl e ↦ simp e (
              switch_left-IsPut (node ll lk lv lb lr) p k v b r h d.balanced
                (ground (arith, d.grows)) (d.uneven e) (d.adds ∙ ap is_none (sym d.removes)))
          | inr e ↦ simp e (
              keep_left-IsPut (node ll lk lv lb lr) p k v b r h d.balanced (ground (arith, d.grows))
                (d.adds ∙ ap is_none (sym d.removes)))
        ])
