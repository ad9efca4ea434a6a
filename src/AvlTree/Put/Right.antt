-- ===== src/AvlTree/Put/Right.antt =====
-- `put_right`: a put into the right subtree, and the rebalancing above it.

use fsdyn.Prelude.{
  zero, suc, ◌+◌, ◌≡◌, refl, sym, ap, ◌∙◌, Option, none, some, false, Bool-cases, inl, inr, List,
  [], ◌∷◌, ◌++◌, is_none, arith,
}
use fsdyn.Prelude.Int.{ℤ, pos, negsuc, ◌+ℤ◌}
use fsdyn.AvlTree.{Tree, leaf, node, flatten}
use fsdyn.AvlTree.Balance.{height, IsBalanced, is_level, rotate_left-Rotates}
use fsdyn.AvlTree.Put.{Put, switch_right, put_right}
use fsdyn.AvlTree.Put.Left.{IsPut}

module _ {ℓ κ} {K : Type ℓ} {V : Type κ} where
  pub put_right-leaf :
      (down : Option (Put K V)) (q : K) (w : V) (l : Tree K V) (k : K) (v : V) (b : ℤ)
      → IsBalanced (node l k v b leaf)
      → IsPut
          (height (node l k v b leaf))
          (flatten l ++ (k, v) ∷ (q, w) ∷ [])
          none
          (put_right down q w l k v b leaf)
  unfolding put_right
  put_right-leaf down q w leaf k v (pos zero) h = record {
    found = _;
    returns = refl;
    balanced = ground arith;
    grows = omega arith;
    uneven = λ e. refl;
    holds = refl;
    removes = refl;
    adds = refl;
  }
  put_right-leaf down q w (node _ _ _ _ _) k v (pos zero) h = absurd (omega arith)
  put_right-leaf down q w leaf k v (negsuc zero) h = absurd (omega arith)
  put_right-leaf down q w (node ll lk lv lb lr) k v (negsuc zero) h = record {
    found = _;
    returns = refl;
    balanced = ground arith;
    grows = ground arith;
    uneven = λ e. cc;
    holds = refl;
    removes = refl;
    adds = refl;
  }
  put_right-leaf down q w l k v (pos (suc (suc n))) h = absurd h.2
  put_right-leaf down q w l k v (pos (suc zero)) h = absurd (omega arith)
  put_right-leaf down q w l k v (negsuc (suc n)) h = absurd h.2

  -- The right subtree has been replaced by a higher one.
  switch_right-IsPut :
      (r : Tree K V) (p : Put K V) (l : Tree K V) (k : K) (v : V) (b : ℤ)
      → IsBalanced (node l k v b r)
      → IsBalanced p.tree
      → height p.tree ≡ height r + 1
      → is_level p.tree ≡ false
      → p.added ≡ is_none p.removed
      → IsPut
          (height (node l k v b r))
          (flatten l ++ (k, v) ∷ flatten p.tree)
          p.removed
          (switch_right p l k v (b +ℤ pos 1))
  unfolding switch_right
  switch_right-IsPut r p l k v (pos zero) h hp high un added = record {
    found = _;
    returns = refl;
    balanced = ground arith;
    grows = ground arith;
    uneven = λ e. refl;
    holds = refl;
    removes = refl;
    adds = added;
  }
  switch_right-IsPut r p l k v (negsuc zero) h hp high un added = record {
    found = _;
    returns = refl;
    balanced = ground arith;
    grows = ground arith;
    uneven = λ e. cc;
    holds = refl;
    removes = refl;
    adds = added;
  }
  switch_right-IsPut r p l k v (pos (suc (suc n))) h hp high un added = absurd h.2
  switch_right-IsPut r p l k v (pos (suc zero)) h hp high un added =
      let (t, e, bt, ht, ft) = rotate_left-Rotates l k v p.tree h.0 hp (omega arith) in
      record {
        found = record p { tree = t; higher = false };
        returns = rw e;
        balanced = bt;
        grows = ground (arith, ht);
        uneven = λ e. cc;
        holds = ft;
        removes = refl;
        adds = added;
      }
  switch_right-IsPut r p l k v (negsuc (suc n)) h hp high un added = absurd h.2

  -- The right subtree has been replaced by one that is no higher.
  keep_right-IsPut :
      (r : Tree K V) (p : Put K V) (l : Tree K V) (k : K) (v : V) (b : ℤ)
      → IsBalanced (node l k v b r)
      → IsBalanced p.tree
      → height p.tree ≡ height r
      → p.added ≡ is_none p.removed
      → IsPut
          (height (node l k v b r))
          (flatten l ++ (k, v) ∷ flatten p.tree)
          p.removed
          (some (record p { tree = node l k v b p.tree; higher = false }))
  keep_right-IsPut r p l k v b h hp same added = record {
    found = record p { tree = node l k v b p.tree; higher = false };
    returns = refl;
    balanced = (h.0, hp, rw same h.2);
    grows = omega arith;
    uneven = λ e. cc;
    holds = refl;
    removes = refl;
    adds = added;
  }

  pub put_right-node :
      (rl : Tree K V) (rk : K) (rv : V) (rb : ℤ) (rr : Tree K V) (elements : List (K × V))
      (removed : Option (K × V)) (down : Option (Put K V)) (q : K) (w : V) (l : Tree K V) (k : K)
      (v : V) (b : ℤ)
      → IsBalanced (node l k v b (node rl rk rv rb rr))
      → IsPut (height (node rl rk rv rb rr)) elements removed down
      → IsPut
          (height (node l k v b (node rl rk rv rb rr)))
          (flatten l ++ (k, v) ∷ elements)
          removed
          (put_right down q w l k v b (node rl rk rv rb rr))
  unfolding put_right
  put_right-node rl rk rv rb rr elements removed down q w l k v b h d =
      let p = d.found in
      rw (d.returns, ← d.holds, ← d.removes)
        (elim (Bool-cases p.higher) [
          | inl e ↦ simp e (
              switch_right-IsPut (node rl rk rv rb rr) p l k v b h d.balanced
                (ground (arith, d.grows)) (d.uneven e) (d.adds ∙ ap is_none (sym d.removes)))
          | inr e ↦ simp e (
              keep_right-IsPut (node rl rk rv rb rr) p l k v b h d.balanced
                (ground (arith, d.grows)) (d.adds ∙ ap is_none (sym d.removes)))
        ])
