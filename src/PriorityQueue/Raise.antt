-- ===== src/PriorityQueue/Raise.antt =====
-- The loop `raise` of src/priority_queue.c.
use Prim.Native.Nat.{Ordering}
use Prim.Native.Nat.Ordering.{lt, eq, gt}
use fsdyn.Prelude.{
  ℕ, zero, suc, ◌≤◌, ◌<◌, ◌≡◌, ◌≢◌, refl, sym, ap, subst, ◌∙◌, ◌⊎◌, inl, inr, some, bind-some, Bool,
  arith,
}
use fsdyn.AvlTree.Comparator.{Comparator}
use fsdyn.PriorityQueue.Model.{Priorq, parent, read, raise, is_lt}
use fsdyn.PriorityQueue.Holes.{upd, le_of_ge, IsHoled, IsUp, IsDown, raise-IsHoled, raise-IsDown}
use fsdyn.PriorityQueue.Slots.{
  total, total-moved, IsShown, IsFrame, IsAssigned, assign-IsAssigned, assigned-IsShown,
}

ltgt : lt ≢ gt
ltgt e = cc

module _ {ℓ κ} {A : Type ℓ} {S : Type κ} where
  pub IsFrame-refl : (prq : Priorq A S) → IsFrame prq prq
  IsFrame-refl prq = record { same_capacity = refl; same_max = refl; same_length = refl }

  pub IsFrame-trans : {a b d : Priorq A S} → IsFrame a b → IsFrame b d → IsFrame a d
  IsFrame-trans h g = record {
    same_capacity = g.same_capacity ∙ h.same_capacity;
    same_max = g.same_max ∙ h.same_max;
    same_length = g.same_length ∙ h.same_length;
  }

module _ {ℓ κ} {A : Type ℓ} {S : Type κ} ⦃c : Comparator A⦄ (reloc : A → ℕ → S → S) where
  -- The hole that `raise` finds.
  pub record IsRaised (fuel : ℕ) (prq : Priorq A S) (slot : ℕ) (value : A) (f : ℕ → A)
      : Type (ℓ ⊔ κ) where
    pub result : Priorq A S
    pub place : ℕ
    pub elements : ℕ → A
    pub returns : raise reloc fuel prq slot value ≡ some (result, place)
    pub frame : IsFrame prq result
    pub shown : IsShown result place elements
    pub low : place < prq.capacity
    pub holed : IsHoled elements prq.capacity place
    pub up : IsUp elements place value
    pub down : IsDown elements prq.capacity place value ⊎ (place ≡ slot) × (elements ≡ f)
    pub counts :
        (p : A → Bool)
        → total p (upd elements place value) prq.capacity ≡ total p (upd f slot value) prq.capacity

  raise_stays :
      (fuel : ℕ) (prq : Priorq A S) (slot : ℕ) (value : A) (f : ℕ → A)
      → IsShown prq slot f
      → slot < prq.capacity
      → IsHoled f prq.capacity slot
      → IsUp f slot value
      → raise reloc fuel prq slot value ≡ some (prq, slot)
      → IsRaised fuel prq slot value f
  raise_stays fuel prq slot value f h low holed up e = record {
    result = prq;
    place = slot;
    elements = f;
    returns = e;
    frame = IsFrame-refl prq;
    shown = h;
    low = low;
    holed = holed;
    up = up;
    down = inr (refl, refl);
    counts = λ p. refl;
  }

  raise_moves :
      (fuel : ℕ) (prq : Priorq A S) (n : ℕ) (value : A) (f : ℕ → A)
      → suc n < prq.capacity
      → IsHoled f prq.capacity (suc n)
      → c.cmp value (f (parent (suc n))) ≡ lt
      → read prq (parent (suc n)) ≡ some (f (parent (suc n)))
      → (a : IsAssigned reloc prq (suc n) (f (parent (suc n))))
      → (r : IsRaised fuel a.result (parent (suc n)) value (upd f (suc n) (f (parent (suc n)))))
      → IsRaised (suc fuel) prq (suc n) value f
  unfolding raise
  raise_moves fuel prq n value f low holed less seen a r = record {
    result = r.result;
    place = r.place;
    elements = r.elements;
    returns = bind-some _ _ _ _ seen (rw (ap is_lt less) (bind-some _ _ _ _ a.returns r.returns));
    frame = IsFrame-trans a.frame r.frame;
    shown = r.shown;
    low = omega (arith, r.low, a.frame.same_capacity);
    holed = subst (λ cap. IsHoled r.elements cap r.place) a.frame.same_capacity r.holed;
    up = r.up;
    down = inl (elim r.down [
      | inl below ↦ subst (λ cap. IsDown r.elements cap r.place value) a.frame.same_capacity below
      | inr (at_parent, same) ↦
          rw (at_parent, same)
            (raise-IsDown f prq.capacity (suc n) value (omega arith) low holed
              (λ e. ltgt (sym less ∙ e)))
    ]);
    counts = λ p.
        rw a.frame.same_capacity at (r.counts p)
        ∙ total-moved p f prq.capacity (suc n) (parent (suc n)) value low (omega arith)
            (omega arith);
  }

  raise_step :
      (fuel : ℕ) (prq : Priorq A S) (n : ℕ) (value : A) (f : ℕ → A) (o : Ordering)
      → IsShown prq (suc n) f
      → suc n < prq.capacity
      → IsHoled f prq.capacity (suc n)
      → c.cmp value (f (parent (suc n))) ≡ o
      → read prq (parent (suc n)) ≡ some (f (parent (suc n)))
      → ((a : IsAssigned reloc prq (suc n) (f (parent (suc n))))
          → IsRaised fuel a.result (parent (suc n)) value (upd f (suc n) (f (parent (suc n)))))
      → IsRaised (suc fuel) prq (suc n) value f
  unfolding raise
  raise_step fuel prq n value f lt h low holed e seen next =
      let a = assign-IsAssigned reloc prq (suc n) (f (parent (suc n))) h.inside in
      raise_moves fuel prq n value f low holed e seen a (next a)
  raise_step fuel prq n value f eq h low holed e seen next =
      raise_stays (suc fuel) prq (suc n) value f h low holed
        (inr (le_of_ge value (f (parent (suc n))) (λ less. cc)))
        (bind-some _ _ _ _ seen (rw (ap is_lt e) refl))
  raise_step fuel prq n value f gt h low holed e seen next =
      raise_stays (suc fuel) prq (suc n) value f h low holed
        (inr (le_of_ge value (f (parent (suc n))) (λ less. cc)))
        (bind-some _ _ _ _ seen (rw (ap is_lt e) refl))

  -- `raise` ends, reads and writes in bounds, and finds a place below its parent.
  pub raised :
      (fuel : ℕ) (prq : Priorq A S) (slot : ℕ) (value : A) (f : ℕ → A)
      → IsShown prq slot f
      → slot ≤ fuel
      → slot < prq.capacity
      → IsHoled f prq.capacity slot
      → IsRaised fuel prq slot value f
  unfolding raise
  raised fuel prq zero value f h enough low holed =
      raise_stays fuel prq zero value f h low holed (inl refl) refl
  raised zero prq (suc n) value f h enough low holed = absurd (omega arith)
  raised (suc fuel) prq (suc n) value f h enough low holed =
      let next : parent (suc n) < prq.capacity = omega arith in
      raise_step fuel prq n value f _ h low holed refl (h.shown (parent (suc n)) next (omega arith))
        (λ a.
          let kept = a.frame.same_capacity in
          raised fuel a.result (parent (suc n)) value (upd f (suc n) (f (parent (suc n))))
            (assigned-IsShown reloc prq (suc n) (f (parent (suc n))) f (parent (suc n)) h a next)
            (omega arith) (omega (arith, kept))
            (subst (λ cap. IsHoled (upd f (suc n) (f (parent (suc n)))) cap (parent (suc n)))
              (sym kept) (raise-IsHoled f prq.capacity (suc n) (omega arith) low holed)))
