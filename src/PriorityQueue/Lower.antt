-- ===== src/PriorityQueue/Lower.antt =====
-- The loop `lower` of src/priority_queue.c.
use Prim.Native.Nat.{Ordering}
use Prim.Native.Nat.Ordering.{lt, eq, gt}
use native.Mathlib.Decide.{ℕ_discrete}
use fsdyn.Prelude.{
  ℕ, zero, suc, ◌+◌, ◌*◌, ◌≤◌, ◌<◌, ◌≡◌, ◌≢◌, refl, sym, ap, subst, ◌∙◌, inl, inr, Bool-cases, some,
  bind-some, Bool, true, false, leb, if◌then◌else◌, arith,
}
use fsdyn.AvlTree.Comparator.{Comparator}
use fsdyn.PriorityQueue.Model.{Priorq, parent, read, assign, branch_of, lower, is_lt, is_gt}
use fsdyn.PriorityQueue.Holes.{
  upd, ◌≼◌, le_of_ge, le_of_gt, ≼_refl, ≼_trans, IsOrdered, IsHoled, IsUp, IsDown, fill-IsOrdered,
  lower-IsHoled, upd_same,
}
use fsdyn.PriorityQueue.Slots.{
  total, total-moved, IsShown, IsFrame, IsAssigned, assign-IsAssigned, assigned-full,
  assigned-IsShown,
}
use fsdyn.PriorityQueue.Raise.{IsFrame-trans}

module _ {ℓ κ} {A : Type ℓ} {S : Type κ} ⦃c : Comparator A⦄ where
  -- The branch whose element comes first.
  pub record IsBranch (prq : Priorq A S) (slot : ℕ) (f : ℕ → A) : Type (ℓ ⊔ κ) where
    pub branch : ℕ
    pub returns : branch_of prq (slot * 2 + 1) ≡ some branch
    pub later : slot < branch
    pub low : branch < prq.capacity
    pub under : parent branch ≡ slot
    pub least : IsDown f prq.capacity slot (f branch)

  left_only :
      (prq : Priorq A S) (slot : ℕ) (f : ℕ → A)
      → slot * 2 + 1 < prq.capacity
      → leb prq.capacity (slot * 2 + 1 + 1) ≡ true
      → IsBranch prq slot f
  unfolding branch_of
  left_only prq slot f low e = record {
    branch = slot * 2 + 1;
    returns = rw e refl;
    later = omega arith;
    low = low;
    under = omega arith;
    least = λ i pos inside below.
        let same : slot * 2 + 1 ≡ i = ground (arith, e) in
        subst (λ j. f (slot * 2 + 1) ≼ f j) same (≼_refl (f (slot * 2 + 1)));
  }

  two_branches :
      (prq : Priorq A S) (slot : ℕ) (f : ℕ → A) (branch : ℕ)
      → parent branch ≡ slot
      → slot < branch
      → branch < prq.capacity
      → branch_of prq (slot * 2 + 1) ≡ some branch
      → f branch ≼ f (slot * 2 + 1)
      → f branch ≼ f (slot * 2 + 1 + 1)
      → IsBranch prq slot f
  two_branches prq slot f branch under later low e left right = record {
    branch = branch;
    returns = e;
    later = later;
    low = low;
    under = under;
    least = λ i pos inside below. elim (ℕ_discrete (slot * 2 + 1) i) [
      | yes here ↦ subst (λ j. f branch ≼ f j) here left
      | no there ↦
          let same : slot * 2 + 1 + 1 ≡ i = omega arith in subst (λ j. f branch ≼ f j) same right
    ];
  }

  branch-reads :
      (prq : Priorq A S) (left : ℕ) (a b : A) (o : Ordering)
      → leb prq.capacity (left + 1) ≡ false
      → read prq left ≡ some a
      → read prq (left + 1) ≡ some b
      → c.cmp a b ≡ o
      → branch_of prq left ≡ some (if is_lt o then left else left + 1)
  unfolding branch_of
  branch-reads prq left a b o e ea eb eo =
      rw e (bind-some _ _ _ _ ea (bind-some _ _ _ _ eb (rw eo refl)))

  both_branches :
      (prq : Priorq A S) (slot : ℕ) (f : ℕ → A) (o : Ordering)
      → IsShown prq slot f
      → leb prq.capacity (slot * 2 + 1 + 1) ≡ false
      → slot * 2 + 1 + 1 < prq.capacity
      → c.cmp (f (slot * 2 + 1)) (f (slot * 2 + 1 + 1)) ≡ o
      → IsBranch prq slot f
  both_branches prq slot f o h e room eo =
      let left = h.shown (slot * 2 + 1) (omega arith) (omega arith) in
      let right = h.shown (slot * 2 + 1 + 1) room (omega arith) in
      by_order o eo (
        branch-reads prq (slot * 2 + 1) (f (slot * 2 + 1)) (f (slot * 2 + 1 + 1)) o e left right eo)
    where
      by_right :
          c.cmp (f (slot * 2 + 1)) (f (slot * 2 + 1 + 1)) ≢ lt
          → branch_of prq (slot * 2 + 1) ≡ some (slot * 2 + 1 + 1)
          → IsBranch prq slot f
      by_right above found =
          two_branches prq slot f (slot * 2 + 1 + 1) (omega arith) (omega arith) room found
            (le_of_ge (f (slot * 2 + 1)) (f (slot * 2 + 1 + 1)) above)
            (≼_refl (f (slot * 2 + 1 + 1)))

      by_order :
          (o : Ordering)
          → c.cmp (f (slot * 2 + 1)) (f (slot * 2 + 1 + 1)) ≡ o
          → branch_of prq (slot * 2 + 1) ≡ some (if is_lt o then slot * 2 + 1 else slot * 2 + 1 + 1)
          → IsBranch prq slot f
      by_order lt eo found =
          two_branches prq slot f (slot * 2 + 1) (omega arith) (omega arith) (omega arith) found
            (≼_refl (f (slot * 2 + 1))) (λ above. cc)
      by_order eq eo found = by_right (λ less. cc) found
      by_order gt eo found = by_right (λ less. cc) found

  first-IsBranch :
      (prq : Priorq A S) (slot : ℕ) (f : ℕ → A)
      → IsShown prq slot f
      → slot * 2 + 1 < prq.capacity
      → IsBranch prq slot f
  first-IsBranch prq slot f h low = elim (Bool-cases (leb prq.capacity (slot * 2 + 1 + 1))) [
    | inl e ↦ left_only prq slot f low e
    | inr e ↦ both_branches prq slot f _ h e (ground (arith, e)) refl
  ]

module _ {ℓ κ} {A : Type ℓ} {S : Type κ} ⦃c : Comparator A⦄ (reloc : A → ℕ → S → S) where
  -- The heap that `lower` leaves.
  pub record IsLowered (fuel : ℕ) (prq : Priorq A S) (slot : ℕ) (value : A) (f : ℕ → A)
      : Type (ℓ ⊔ κ) where
    pub result : Priorq A S
    pub elements : ℕ → A
    pub returns : lower reloc fuel prq slot value ≡ some result
    pub frame : IsFrame prq result
    pub full : (i : ℕ) → i < result.capacity → read result i ≡ some (elements i)
    pub ordered : IsOrdered elements prq.capacity
    pub counts :
        (p : A → Bool) → total p elements prq.capacity ≡ total p (upd f slot value) prq.capacity

  lower_stays :
      (fuel : ℕ) (prq : Priorq A S) (slot : ℕ) (value : A) (f : ℕ → A)
      → IsShown prq slot f
      → IsHoled f prq.capacity slot
      → IsUp f slot value
      → IsDown f prq.capacity slot value
      → lower reloc fuel prq slot value ≡ assign reloc prq slot value
      → IsLowered fuel prq slot value f
  lower_stays fuel prq slot value f h holed up down e =
      let a = assign-IsAssigned reloc prq slot value h.inside in
      record {
        result = a.result;
        elements = upd f slot value;
        returns = e ∙ a.returns;
        frame = a.frame;
        full = assigned-full reloc prq slot value f h a;
        ordered = fill-IsOrdered f prq.capacity slot value holed up down;
        counts = λ p. refl;
      }

  lower_moves :
      (fuel : ℕ) (prq : Priorq A S) (slot : ℕ) (value : A) (f : ℕ → A)
      → slot < prq.capacity
      → leb prq.capacity (slot * 2 + 1) ≡ false
      → (b : IsBranch prq slot f) → read prq b.branch ≡ some (f b.branch)
      → c.cmp value (f b.branch) ≡ gt
      → (a : IsAssigned reloc prq slot (f b.branch))
      → (r : IsLowered fuel a.result b.branch value (upd f slot (f b.branch)))
      → IsLowered (suc fuel) prq slot value f
  unfolding lower
  lower_moves fuel prq slot value f low e b seen above a r = record {
    result = r.result;
    elements = r.elements;
    returns = rw e (
        bind-some _ _ _ _ b.returns
          (bind-some _ _ _ _ seen (rw (ap is_gt above) (bind-some _ _ _ _ a.returns r.returns))));
    frame = IsFrame-trans a.frame r.frame;
    full = r.full;
    ordered = subst (λ cap. IsOrdered r.elements cap) a.frame.same_capacity r.ordered;
    counts = λ p.
        rw a.frame.same_capacity at (r.counts p)
        ∙ total-moved p f prq.capacity slot b.branch value low b.low
            (λ same. omega (arith, b.later, same));
  }

  lower_leaf :
      (fuel : ℕ) (prq : Priorq A S) (slot : ℕ) (value : A) (f : ℕ → A)
      → IsShown prq slot f
      → IsHoled f prq.capacity slot
      → IsUp f slot value
      → leb prq.capacity (slot * 2 + 1) ≡ true
      → IsLowered (suc fuel) prq slot value f
  unfolding lower
  lower_leaf fuel prq slot value f h holed up e =
      let behind : prq.capacity ≤ slot * 2 + 1 = ground (arith, e) in
      lower_stays (suc fuel) prq slot value f h holed up
        (λ i pos inside below. absurd (omega arith)) (rw e refl)

  lower_step :
      (fuel : ℕ) (prq : Priorq A S) (slot : ℕ) (value : A) (f : ℕ → A) (b : IsBranch prq slot f)
      (o : Ordering)
      → IsShown prq slot f
      → slot < prq.capacity
      → IsHoled f prq.capacity slot
      → IsUp f slot value
      → leb prq.capacity (slot * 2 + 1) ≡ false
      → read prq b.branch ≡ some (f b.branch)
      → c.cmp value (f b.branch) ≡ o
      → ((a : IsAssigned reloc prq slot (f b.branch))
          → f b.branch ≼ value
          → IsLowered fuel a.result b.branch value (upd f slot (f b.branch)))
      → IsLowered (suc fuel) prq slot value f
  unfolding lower
  lower_step fuel prq slot value f b o h low holed up e seen eo next = by_order o eo
    where
      stays :
          is_gt (c.cmp value (f b.branch)) ≡ false
          → value ≼ f b.branch
          → IsLowered (suc fuel) prq slot value f
      stays off least =
          lower_stays (suc fuel) prq slot value f h holed up
            (λ i pos inside below.
              ≼_trans value (f b.branch) (f i) least (b.least i pos inside below))
            (rw e (bind-some _ _ _ _ b.returns (bind-some _ _ _ _ seen (rw off refl))))

      by_order :
          (o : Ordering) → c.cmp value (f b.branch) ≡ o → IsLowered (suc fuel) prq slot value f
      by_order lt e = stays (ap is_gt e) (λ above. cc)
      by_order eq e = stays (ap is_gt e) (λ above. cc)
      by_order gt above =
          let a = assign-IsAssigned reloc prq slot (f b.branch) h.inside in
          lower_moves fuel prq slot value f low e b seen above a
            (next a (le_of_gt value (f b.branch) above))

  -- `lower` ends, reads and writes in bounds, and leaves a heap with the value.
  pub lowered :
      (fuel : ℕ) (prq : Priorq A S) (slot : ℕ) (value : A) (f : ℕ → A)
      → IsShown prq slot f
      → prq.capacity ≤ slot + fuel
      → slot < prq.capacity
      → IsHoled f prq.capacity slot
      → IsUp f slot value
      → IsLowered fuel prq slot value f
  lowered zero prq slot value f h enough low holed up = absurd (omega arith)
  lowered (suc fuel) prq slot value f h enough low holed up =
      elim (Bool-cases (leb prq.capacity (slot * 2 + 1))) [
        | inl e ↦ lower_leaf fuel prq slot value f h holed up e
        | inr e ↦
            let b = first-IsBranch prq slot f h (ground (arith, e)) in
            lower_step fuel prq slot value f b _ h low holed up e
              (h.shown b.branch b.low (λ same. omega (arith, b.later, same))) refl
              (λ a above.
                let kept = a.frame.same_capacity in
                lowered fuel a.result b.branch value (upd f slot (f b.branch))
                  (assigned-IsShown reloc prq slot (f b.branch) f b.branch h a b.low)
                  (omega (arith, kept, b.later)) (omega (arith, kept, b.low))
                  (subst (λ cap. IsHoled (upd f slot (f b.branch)) cap b.branch) (sym kept)
                    (lower-IsHoled f prq.capacity slot b.branch (omega (arith, b.later)) b.low
                      b.under holed b.least))
                  (inr (rw (b.under, upd_same f slot (f b.branch)) above)))
      ]
