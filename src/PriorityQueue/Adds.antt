-- ===== src/PriorityQueue/Adds.antt =====
-- `priorq_enqueue` of src/priority_queue.c on well-formed queues.

use fsdyn.Prelude.{
  ℕ, ◌+◌, ◌<◌, ◌≡◌, sym, ap, subst, ◌∙◌, ◌⊎◌, inl, inr, some, bind-some, Bool, arith,
}
use fsdyn.AvlTree.Comparator.{Comparator}
use fsdyn.PriorityQueue.Model.{Priorq, read, priorq_enqueue}
use fsdyn.PriorityQueue.Holes.{upd, IsOrdered, IsHoled, fill-IsOrdered, IsDown}
use fsdyn.PriorityQueue.Slots.{one, total, occurrences, IsShown, assign-IsAssigned, assigned-full}
use fsdyn.PriorityQueue.Room.{most, IsEnlarged, enlarged}
use fsdyn.PriorityQueue.Raise.{IsFrame-trans, raised}
use fsdyn.PriorityQueue.Valid.{IsHeap, IsValid, IsHeap-of, occurrences-total, total-added}

module _ {ℓ κ} {A : Type ℓ} {S : Type κ} ⦃c : Comparator A⦄ (reloc : A → ℕ → S → S) where
  -- The queue with a slot more, before the element is put in.
  slot_added :
      (prq : Priorq A S) (f : ℕ → A)
      → IsHeap prq f
      → (e : IsEnlarged prq)
      → IsShown (record (e.result) { capacity = e.result.capacity + 1 }) e.result.capacity f
  unfolding read
  slot_added prq f h e = record {
    shown = λ i inside apart.
        let below : i < prq.capacity = omega (arith, inside, apart, e.same_capacity) in
        e.same i below ∙ h.full i below;
    room = omega (arith, e.sized, e.spare, e.same_capacity);
    inside = omega (arith, e.sized, e.spare, e.same_capacity);
  }

  added-IsHoled : (f : ℕ → A) (n : ℕ) → IsOrdered f n → IsHoled f (n + 1) n
  added-IsHoled f n h = record {
    edges = λ i pos inside away behind. h i pos (omega arith);
    bridge = λ i pos inside deep below. absurd (omega arith);
  }

  added-IsDown :
      (f g : ℕ → A) (n place : ℕ) (value : A)
      → IsDown g (n + 1) place value ⊎ (place ≡ n) × (g ≡ f)
      → IsDown g (n + 1) place value
  added-IsDown f g n place value (inl down) = down
  added-IsDown f g n place value (inr (at_last, same)) = λ i pos inside below. absurd (omega arith)

  -- `priorq_enqueue` on a well-formed queue reads and writes in bounds, and leaves a well-formed queue
  -- that has the new element besides the others: of the elements that satisfy any `p`, it has one more
  -- if the new one does.
  pub priorq_enqueue-Adds :
      (prq : Priorq A S) (value : A) (p : A → Bool)
      → IsValid prq
      → prq.capacity < most
      → (prq' : Priorq A S) × (priorq_enqueue reloc prq value ≡ some prq')
        × IsValid prq'
        × (prq'.capacity ≡ prq.capacity + 1)
        × (occurrences p prq' ≡ occurrences p prq + one (p value))
  unfolding priorq_enqueue
  priorq_enqueue-Adds prq value p v few =
      let (f, h) = IsHeap-of prq value v in
      let e = enlarged prq v.sized v.room few in
      let n = e.result.capacity in
      let grown : Priorq A S = record (e.result) { capacity = n + 1 } in
      let holed = added-IsHoled f n (subst (IsOrdered f) (sym e.same_capacity) h.ordered) in
      let r =
        raised reloc n grown n value f (slot_added prq f h e) (omega arith) (omega arith) holed in
      let a = assign-IsAssigned reloc r.result r.place value r.shown.inside in
      let kept = IsFrame-trans r.frame a.frame in
      let elements = upd r.elements r.place value in
      let heap : IsHeap a.result elements = record {
        full = assigned-full reloc r.result r.place value r.elements r.shown a;
        ordered = subst (IsOrdered elements) (sym kept.same_capacity) (
            fill-IsOrdered r.elements (n + 1) r.place value r.holed r.up
              (added-IsDown f r.elements n r.place value r.down));
      } in
      let counted : occurrences p a.result ≡ occurrences p prq + one (p value) =
        occurrences-total p a.result elements heap
        ∙ ap (total p elements) kept.same_capacity
        ∙ r.counts p
        ∙ total-added p f n (n + 1) value (omega arith)
        ∙ ap (λ m. total p f m + one (p value)) e.same_capacity
        ∙ ap (λ m. m + one (p value)) (sym (occurrences-total p prq f h)) in
      (
        a.result,
        bind-some _ _ _ _ e.returns (bind-some _ _ _ _ r.returns a.returns),
        record {
          sized = kept.same_max ∙ e.sized ∙ sym kept.same_length;
          room = omega (arith, kept.same_capacity, kept.same_max, e.same_capacity, e.spare);
          heap = inr (elements, heap);
        },
        omega (arith, kept.same_capacity, e.same_capacity),
        counted,
      )
