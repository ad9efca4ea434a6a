-- ===== src/PriorityQueue/Takes.antt =====
-- The operations of src/priority_queue.c that take an element out of a well-formed queue.

use native.Mathlib.Decide.{ℕ_discrete}
use fsdyn.Prelude.{
  ℕ, ◌+◌, ◌-◌, ◌<◌, ◌≡◌, refl, sym, ap, subst, ◌∙◌, ◌⊎◌, inl, inr, none, some, bind-some, Bool,
  true, false, ◌==◌, arith,
}
use fsdyn.AvlTree.Comparator.{Comparator}
use fsdyn.PriorityQueue.Model.{Priorq, read, priorq_peek, priorq_pop, priorq_dequeue}
use fsdyn.PriorityQueue.Holes.{upd, IsOrdered, ordered-IsHoled}
use fsdyn.PriorityQueue.Slots.{one, total, occurrences, IsShown, IsFrame}
use fsdyn.PriorityQueue.Raise.{IsFrame-refl, IsFrame-trans, raised}
use fsdyn.PriorityQueue.Lower.{IsLowered, lowered}
use fsdyn.PriorityQueue.Valid.{
  IsHeap, IsValid, occurrences-total, before, first-before, total-replaced, total_last,
}

module _ {ℓ} {A : Type ℓ} ⦃c : Comparator A⦄ where
  pub shorter-IsOrdered : (f : ℕ → A) (n : ℕ) → IsOrdered f n → IsOrdered f (n - 1)
  shorter-IsOrdered f n h i pos inside = h i pos (omega arith)

module _ {ℓ κ} {A : Type ℓ} {S : Type κ} ⦃c : Comparator A⦄ where
  -- `prq'` is `prq` without the element.
  pub record IsTaken (p : A → Bool) (prq : Priorq A S) (value : A) (prq' : Priorq A S)
      : Type (ℓ ⊔ κ) where
    pub valid : IsValid prq'
    pub fewer : prq.capacity ≡ prq'.capacity + 1
    pub counts : occurrences p prq ≡ occurrences p prq' + one (p value)

  abbrev pub shorter : Priorq A S → Priorq A S
  shorter prq = record prq { capacity = prq.capacity - 1 }

  pub shorter-IsShown :
      (prq : Priorq A S) (f : ℕ → A) (slot : ℕ)
      → IsValid prq
      → IsHeap prq f
      → slot < prq.capacity
      → IsShown (shorter prq) slot f
  unfolding read
  shorter-IsShown prq f slot v h low = record {
    shown = λ i inside apart. h.full i (omega (arith, inside));
    room = omega (arith, v.room, v.sized);
    inside = omega (arith, low, v.room, v.sized);
  }

  -- A heap in the storage of a queue with an element less.
  pub taken :
      (p : A → Bool) (prq : Priorq A S) (value : A) (prq' : Priorq A S) (f g : ℕ → A)
      → IsValid prq
      → IsHeap prq f
      → 0 < prq.capacity
      → IsFrame (shorter prq) prq'
      → IsHeap prq' g
      → total p f prq.capacity ≡ total p g (prq.capacity - 1) + one (p value)
      → IsTaken p prq value prq'
  taken p prq value prq' f g v h some_left kept heap e = record {
    valid = record {
      sized = kept.same_max ∙ v.sized ∙ sym kept.same_length;
      room = omega (arith, kept.same_capacity, kept.same_max, v.room);
      heap = inr (g, heap);
    };
    fewer = omega (arith, kept.same_capacity, some_left);
    counts =
        occurrences-total p prq f h
        ∙ e
        ∙ ap (λ n. total p g n + one (p value)) (sym kept.same_capacity)
        ∙ ap (λ n. n + one (p value)) (sym (occurrences-total p prq' g heap));
  }

  -- The last element is taken.
  IsTaken-last :
      (p : A → Bool) (prq : Priorq A S) (f : ℕ → A)
      → IsValid prq
      → IsHeap prq f
      → 0 < prq.capacity
      → IsTaken p prq (f (prq.capacity - 1)) (shorter prq)
  unfolding read
  IsTaken-last p prq f v h some_left =
      taken p prq (f (prq.capacity - 1)) (shorter prq) f f v h some_left
        (IsFrame-refl (shorter prq))
        (record {
          full = λ i inside. h.full i (omega (arith, inside));
          ordered = shorter-IsOrdered f prq.capacity h.ordered;
        })
        (total_last p f prq.capacity some_left)

  -- `priorq_pop` takes the element of the last slot.
  pub priorq_pop-IsTaken :
      (prq : Priorq A S) (p : A → Bool)
      → IsValid prq
      → (prq.capacity ≡ 0) × (priorq_pop prq ≡ some (none, prq))
        ⊎ (value : A) × (prq' : Priorq A S) × (priorq_pop prq ≡ some (some value, prq'))
          × IsTaken p prq value prq'
  unfolding priorq_pop
  priorq_pop-IsTaken prq p v = elim (ℕ_discrete prq.capacity 0) [
    | yes empty ↦ inl (empty, rw empty refl)
    | no filled ↦ elim v.heap [
      | inl empty ↦ absurd (filled empty)
      | inr (f, h) ↦
          let off : (prq.capacity == 0) ≡ false = ground (arith, filled) in
          let seen = h.full (prq.capacity - 1) (omega arith) in
          inr (
            f (prq.capacity - 1),
            shorter prq,
            rw off (bind-some _ _ _ _ seen refl),
            IsTaken-last p prq f v h (omega arith),
          )
    ]
  ]

module _ {ℓ κ} {A : Type ℓ} {S : Type κ} ⦃c : Comparator A⦄ (reloc : A → ℕ → S → S) where
  -- The last element put into a hole by `lower`.
  pub lowered-IsTaken :
      (p : A → Bool) (prq : Priorq A S) (value : A) (f : ℕ → A) (slot fuel place : ℕ)
      (raised : Priorq A S) (g : ℕ → A)
      → IsValid prq
      → IsHeap prq f
      → slot < prq.capacity - 1
      → value ≡ f slot
      → IsFrame (shorter prq) raised
      → (l : IsLowered reloc fuel raised place (f (prq.capacity - 1)) g)
      → total p (upd g place (f (prq.capacity - 1))) raised.capacity
        ≡ total p (upd f slot (f (prq.capacity - 1))) (prq.capacity - 1)
      → IsTaken p prq value l.result
  lowered-IsTaken p prq value f slot fuel place raised g v h low same kept l e =
      let last = prq.capacity - 1 in
      taken p prq value l.result f l.elements v h (omega arith) (IsFrame-trans kept l.frame)
        (record {
          full = l.full;
          ordered = subst (IsOrdered l.elements) (sym l.frame.same_capacity) l.ordered;
        })
        (total-replaced p f last prq.capacity slot low (omega arith)
          ∙ ap (λ n. n + one (p (f slot)))
              (sym e ∙ sym (l.counts p) ∙ ap (total p l.elements) kept.same_capacity)
          ∙ ap (λ a. total p l.elements last + one (p a)) (sym same))

  -- `priorq_dequeue` on a well-formed queue reads and writes in bounds. It returns NULL if the queue is
  -- empty, and otherwise takes the element that `priorq_peek` returns, before which none comes, and
  -- leaves a well-formed queue of the others.
  pub priorq_dequeue-IsTaken :
      (prq : Priorq A S) (p : A → Bool)
      → IsValid prq
      → (prq.capacity ≡ 0)
          × (priorq_dequeue reloc prq ≡ some (none, prq))
          × (priorq_peek prq ≡ some none)
        ⊎ (value : A) × (prq' : Priorq A S) × (priorq_dequeue reloc prq ≡ some (some value, prq'))
          × (priorq_peek prq ≡ some (some value))
          × (occurrences (before value) prq ≡ 0)
          × IsTaken p prq value prq'
  unfolding priorq_dequeue priorq_peek
  priorq_dequeue-IsTaken prq p v = elim (ℕ_discrete prq.capacity 0) [
    | yes empty ↦ inl (empty, rw empty refl, rw empty refl)
    | no filled ↦ elim v.heap [
      | inl empty ↦ absurd (filled empty)
      | inr (f, h) ↦
          let off : (prq.capacity == 0) ≡ false = ground (arith, filled) in
          let seen = h.full 0 (omega arith) in
          let last = h.full (prq.capacity - 1) (omega arith) in
          let peeked : priorq_peek prq ≡ some (some (f 0)) = rw off (bind-some _ _ _ _ seen refl) in
          elim (ℕ_discrete prq.capacity 1) [
            | yes single ↦
                let first : prq.capacity - 1 ≡ 0 = omega arith in
                let on : (prq.capacity == 1) ≡ true = ground (arith, single) in
                inr (
                  f 0,
                  shorter prq,
                  rw (off, on) (bind-some _ _ _ _ (last ∙ ap (λ i. some (f i)) first) refl),
                  peeked,
                  first-before prq f h,
                  subst (λ i. IsTaken p prq (f i) (shorter prq)) first
                      (IsTaken-last p prq f v h (omega arith)),
                )
            | no many ↦
                let not_one : (prq.capacity == 1) ≡ false = ground (arith, many) in
                let l =
                  lowered reloc prq.capacity (shorter prq) 0 (f (prq.capacity - 1)) f
                    (shorter-IsShown prq f 0 v h (omega arith)) (omega arith) (omega arith)
                    (ordered-IsHoled f (prq.capacity - 1) 0
                      (shorter-IsOrdered f prq.capacity h.ordered))
                    (inl refl) in
                inr (
                  f 0,
                  l.result,
                  rw (off, not_one)
                      (bind-some _ _ _ _ seen
                        (bind-some _ _ _ _ last (bind-some _ _ _ _ l.returns refl))),
                  peeked,
                  first-before prq f h,
                  lowered-IsTaken p prq (f 0) f 0 prq.capacity 0 (shorter prq) f v h (omega arith)
                      refl (IsFrame-refl (shorter prq)) l refl,
                )
          ]
    ]
  ]
