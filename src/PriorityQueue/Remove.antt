-- ===== src/PriorityQueue/Remove.antt =====
-- `priorq_remove` of src/priority_queue.c on a well-formed queue.

use native.Mathlib.Decide.{ℕ_discrete}
use fsdyn.Prelude.{
  ℕ, zero, suc, ◌+◌, ◌-◌, ◌*◌, ◌≤◌, ◌<◌, ◌≡◌, refl, sym, ap, subst, ◌∙◌, inl, inr, none, some,
  bind-some, Bool, true, false, leb, ◌==◌, if◌then◌else◌, arith,
}
use fsdyn.AvlTree.Comparator.{Comparator}
use fsdyn.PriorityQueue.Model.{Priorq, parent, read, assign, raise, lower, is_lt, priorq_remove}
use fsdyn.PriorityQueue.Holes.{upd, ◌≼◌, IsOrdered, IsHoled, ordered-IsHoled}
use fsdyn.PriorityQueue.Slots.{total, IsAssigned, assign-IsAssigned}
use fsdyn.PriorityQueue.Raise.{IsRaised, raised}
use fsdyn.PriorityQueue.Lower.{IsLowered, lowered}
use fsdyn.PriorityQueue.Valid.{IsHeap, IsValid, total_last}
use fsdyn.PriorityQueue.Takes.{
  IsTaken, shorter, shorter-IsShown, shorter-IsOrdered, taken, lowered-IsTaken,
}

module _ {ℓ} {A : Type ℓ} ⦃c : Comparator A⦄ where
  rests : (x y : A) → x ≼ y → is_lt (c.cmp y x) ≡ false
  rests x y h = ground (arith, h, c.flips x y)

module _ {ℓ κ} {A : Type ℓ} {S : Type κ} ⦃c : Comparator A⦄ (reloc : A → ℕ → S → S) where
  -- At the last slot both loops leave the hole where it is.
  raise_rests :
      (prq : Priorq A S) (slot : ℕ) (f : ℕ → A)
      → IsHeap prq f
      → slot < prq.capacity
      → raise reloc slot (shorter prq) slot (f slot) ≡ some (shorter prq, slot)
  unfolding raise read
  raise_rests prq zero f h low = refl
  raise_rests prq (suc n) f h low =
      bind-some _ _ _ _ (h.full (parent (suc n)) (omega arith))
        (rw (rests (f (parent (suc n))) (f (suc n)) (h.ordered (suc n) (omega arith) low)) refl)

  lower_rests :
      (fuel : ℕ) (prq : Priorq A S) (slot : ℕ) (value : A)
      → 0 < fuel
      → prq.capacity ≤ slot
      → lower reloc fuel prq slot value ≡ assign reloc prq slot value
  unfolding lower
  lower_rests zero prq slot value pos h = absurd (omega arith)
  lower_rests (suc fuel) prq slot value pos h =
      let off : leb prq.capacity (slot * 2 + 1) ≡ true = ground (arith, h) in rw off refl

  removed_last :
      (p : A → Bool) (prq : Priorq A S) (f : ℕ → A)
      → IsValid prq
      → IsHeap prq f
      → 0 < prq.capacity
      → (a : IsAssigned reloc (shorter prq) (prq.capacity - 1) (f (prq.capacity - 1)))
      → IsTaken p prq (f (prq.capacity - 1)) a.result
  unfolding read
  removed_last p prq f v h some_left a =
      taken p prq (f (prq.capacity - 1)) a.result f f v h some_left a.frame
        (record {
          full = λ i inside.
              let below : i < prq.capacity - 1 = omega (arith, inside, a.frame.same_capacity) in
              a.elsewhere i (λ e. omega (arith, e, below)) ∙ h.full i (omega (arith, below));
          ordered =
              subst (IsOrdered f) (sym a.frame.same_capacity)
                (shorter-IsOrdered f prq.capacity h.ordered);
        })
        (total_last p f prq.capacity some_left)

  removed_inner :
      (p : A → Bool) (prq : Priorq A S) (f : ℕ → A) (slot : ℕ)
      → IsValid prq
      → IsHeap prq f
      → slot < prq.capacity - 1
      → (r : IsRaised reloc slot (shorter prq) slot (f (prq.capacity - 1)) f)
      → (l : IsLowered reloc prq.capacity r.result r.place (f (prq.capacity - 1)) r.elements)
      → IsTaken p prq (f slot) l.result
  removed_inner p prq f slot v h low r l =
      lowered-IsTaken reloc p prq (f slot) f slot prq.capacity r.place r.result r.elements v h low
        refl r.frame l
        (ap (total p (upd r.elements r.place (f (prq.capacity - 1)))) r.frame.same_capacity
          ∙ r.counts p)

  abbrev Removes : Priorq A S → ℕ → (A → Bool) → Type (ℓ ⊔ κ)
  Removes prq slot p =
      (value : A) × (prq' : Priorq A S) × (read prq slot ≡ some value)
      × (priorq_remove reloc prq slot ≡ some (value, prq'))
      × IsTaken p prq value prq'

  Removes-last :
      (prq : Priorq A S) (p : A → Bool) (f : ℕ → A)
      → IsValid prq
      → IsHeap prq f
      → 0 < prq.capacity
      → Removes prq (prq.capacity - 1) p
  unfolding priorq_remove
  Removes-last prq p f v h some_left =
      let end = prq.capacity - 1 in
      let filled : (prq.capacity == 0) ≡ false = ground (arith, some_left) in
      let last = h.full end (omega arith) in
      let other : (if prq.capacity == 0 then none else read prq end) ≡ some (f end) =
        rw filled last in
      let a =
        assign-IsAssigned reloc (shorter prq) end (f end)
          (shorter-IsShown prq f end v h (omega arith)).inside in
      let stays = raise_rests prq end f h (omega arith) in
      let lowers = lower_rests prq.capacity (shorter prq) end (f end) some_left (omega arith) in
      (
        f end,
        a.result,
        last,
        bind-some _ _ _ _ last (
            bind-some _ _ _ _ other
              (bind-some _ _ _ _ stays (bind-some _ _ _ _ (lowers ∙ a.returns) refl))),
        removed_last p prq f v h some_left a,
      )

  -- `priorq_remove` at a slot in use of a well-formed queue ends, reads and writes in bounds, returns
  -- the element in the slot, and leaves a well-formed queue of the others.
  pub priorq_remove-IsTaken :
      (prq : Priorq A S) (slot : ℕ) (p : A → Bool)
      → IsValid prq
      → slot < prq.capacity
      → (value : A) × (prq' : Priorq A S) × (read prq slot ≡ some value)
        × (priorq_remove reloc prq slot ≡ some (value, prq'))
        × IsTaken p prq value prq'
  unfolding priorq_remove
  priorq_remove-IsTaken prq slot p v low = elim v.heap [
    | inl empty ↦ absurd (omega (arith, empty, low))
    | inr (f, h) ↦
        let filled : (prq.capacity == 0) ≡ false = ground (arith, low) in
        let seen = h.full slot low in
        let last = h.full (prq.capacity - 1) (omega arith) in
        let other : (if prq.capacity == 0 then none else read prq (prq.capacity - 1))
            ≡ some (f (prq.capacity - 1)) =
          rw filled last in
        elim (ℕ_discrete slot (prq.capacity - 1)) [
          | yes at_end ↦
              subst (λ s. Removes prq s p) (sym at_end) (Removes-last prq p f v h (omega arith))
          | no inner ↦
              let r =
                raised reloc slot (shorter prq) slot (f (prq.capacity - 1)) f
                  (shorter-IsShown prq f slot v h low) (omega arith) (omega arith)
                  (ordered-IsHoled f (prq.capacity - 1) slot
                    (shorter-IsOrdered f prq.capacity h.ordered)) in
              let kept = r.frame.same_capacity in
              let l =
                lowered reloc prq.capacity r.result r.place (f (prq.capacity - 1)) r.elements
                  r.shown (omega (arith, kept)) (omega (arith, kept, r.low))
                  (subst (λ cap. IsHoled r.elements cap r.place) (sym kept) r.holed) r.up in
              (
                f slot,
                l.result,
                seen,
                bind-some _ _ _ _ seen (
                    bind-some _ _ _ _ other
                      (bind-some _ _ _ _ r.returns (bind-some _ _ _ _ l.returns refl))),
                removed_inner p prq f slot v h (omega arith) r l,
              )
        ]
  ]
