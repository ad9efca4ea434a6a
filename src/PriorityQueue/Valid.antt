-- ===== src/PriorityQueue/Valid.antt =====
-- Well-formed queues of src/priority_queue.c, and how their elements are counted.

use fsdyn.Prelude.{
  ℕ, zero, suc, ◌+◌, ◌-◌, ◌≤◌, ◌<◌, ◌≡◌, refl, ap, ◌∙◌, ◌⊎◌, inl, inr, some, Bool, false, length,
  arith,
}
use fsdyn.AvlTree.Comparator.{Comparator}
use fsdyn.PriorityQueue.Model.{Priorq, read, is_gt}
use fsdyn.PriorityQueue.Holes.{upd, upd_same, ◌≼◌, IsOrdered, first-least}
use fsdyn.PriorityQueue.Slots.{
  one, total, total-upd, total-upd_out, occurrences, occurrences_to-total,
}

module _ {ℓ} {A : Type ℓ} where
  total-zero :
      (p : A → Bool) (f : ℕ → A) (n : ℕ) → ((i : ℕ) → i < n → p (f i) ≡ false) → total p f n ≡ 0
  unfolding total
  total-zero p f zero h = refl
  total-zero p f (suc n) h =
      rw (total-zero p f n (λ i below. h i (omega arith)), h n (omega arith)) refl

  -- Another element at a slot, and the last one taken off.
  pub total-replaced :
      (p : A → Bool) (f : ℕ → A) (n m i : ℕ)
      → i < n
      → m ≡ suc n
      → total p f m ≡ total p (upd f i (f n)) n + one (p (f i))
  unfolding total
  total-replaced p f n m i h e = rw e (omega (arith, total-upd p f n i (f n) h))

  pub total_last :
      (p : A → Bool) (f : ℕ → A) (n : ℕ)
      → 0 < n
      → total p f n ≡ total p f (n - 1) + one (p (f (n - 1)))
  unfolding total
  total_last p f zero pos = absurd (omega arith)
  total_last p f (suc n) pos = let same : suc n - 1 ≡ n = omega arith in rw same refl

  -- Another element behind the others.
  pub total-added :
      (p : A → Bool) (f : ℕ → A) (n m : ℕ) (value : A)
      → m ≡ suc n
      → total p (upd f n value) m ≡ total p f n + one (p value)
  unfolding total
  total-added p f n m value e =
      let here : one (p (upd f n value n)) ≡ one (p value) =
        ap (λ a. one (p a)) (upd_same f n value) in
      rw e (omega (arith, total-upd_out p f n n value (omega arith), here))

module _ {ℓ} {A : Type ℓ} ⦃c : Comparator A⦄ where
  -- The elements that come before `a`.
  abbrev pub before : A → A → Bool
  before a b = is_gt (c.cmp a b)

  not-before : (a b : A) → a ≼ b → before a b ≡ false
  not-before a b h = ground (arith, h)

module _ {ℓ κ} {A : Type ℓ} {S : Type κ} ⦃c : Comparator A⦄ where
  -- The slots in use hold the elements of a heap.
  pub record IsHeap (prq : Priorq A S) (f : ℕ → A) : Type (ℓ ⊔ κ) where
    pub full : (i : ℕ) → i < prq.capacity → read prq i ≡ some (f i)
    pub ordered : IsOrdered f prq.capacity

  pub record IsValid (prq : Priorq A S) : Type (ℓ ⊔ κ) where
    pub sized : prq.max_capacity ≡ length prq.storage
    pub room : prq.capacity ≤ prq.max_capacity
    pub heap : (prq.capacity ≡ 0) ⊎ (f : ℕ → A) × IsHeap prq f

  -- Of an empty queue any element will do.
  pub IsHeap-of : (prq : Priorq A S) → A → IsValid prq → (f : ℕ → A) × IsHeap prq f
  IsHeap-of prq value v = elim v.heap [
    | inl empty ↦ (
      λ i. value,
      record {
        full = λ i h. absurd (omega (arith, h, empty));
        ordered = λ i pos h. absurd (omega (arith, h, empty));
      },
    )
    | inr heap ↦ heap
  ]

  pub occurrences-total :
      (p : A → Bool) (prq : Priorq A S) (f : ℕ → A)
      → IsHeap prq f
      → occurrences p prq ≡ total p f prq.capacity
  occurrences-total p prq f h = occurrences_to-total p prq f prq.capacity (omega arith) h.full

  -- No element comes before the first.
  pub first-before :
      (prq : Priorq A S) (f : ℕ → A) → IsHeap prq f → occurrences (before (f 0)) prq ≡ 0
  first-before prq f h =
      occurrences-total (before (f 0)) prq f h
      ∙ total-zero (before (f 0)) f prq.capacity (λ i below.
        not-before (f 0) (f i) (first-least f prq.capacity i i h.ordered below (omega arith)))
