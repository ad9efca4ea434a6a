-- ===== src/PriorityQueue/Tests.antt =====
-- Runs of the priority queue, and the theorems at concrete inputs.

use fsdyn.Prelude.{
  ℕ, zero, suc, ◌+◌, ◌<◌, ◌≡◌, refl, ◌⊎◌, inr, none, some, leb, List, [], ◌∷◌, get_or, arith,
}
use fsdyn.AvlTree.Comparator.{nat_comparator}
use fsdyn.PriorityQueue.Model.{
  Priorq, read, make_priority_queue, double, enlarge, assign, raise, branch_of, lower,
  priorq_enqueue, priorq_peek, priorq_pop, priorq_dequeue, priorq_remove,
}
use fsdyn.PriorityQueue.Holes.{IsOrdered}
use fsdyn.PriorityQueue.Slots.{one, occurrences, occurrences_to}
use fsdyn.PriorityQueue.Valid.{IsValid, before}
use fsdyn.PriorityQueue.Adds.{priorq_enqueue-Adds}
use fsdyn.PriorityQueue.Takes.{IsTaken, priorq_pop-IsTaken, priorq_dequeue-IsTaken}
use fsdyn.PriorityQueue.Remove.{priorq_remove-IsTaken}

runs : Unit {0}
unfolding read make_priority_queue double enlarge assign raise branch_of lower priorq_enqueue
    priorq_peek priorq_pop priorq_dequeue priorq_remove nat_comparator occurrences_to
runs = tt

-- A callback that writes down its calls.
abbrev note : ℕ → ℕ → List (ℕ × ℕ) → List (ℕ × ℕ)
note element slot calls = (element, slot) ∷ calls

abbrev three : Priorq ℕ (List (ℕ × ℕ))
three = record {
  obj = [];
  storage = some 1 ∷ some 3 ∷ some 2 ∷ none ∷ [];
  capacity = 3;
  max_capacity = 4;
}

-- The new element rises to the first slot.
enqueues_zero :
    priorq_enqueue note three 0
    ≡ some (record {
      obj = (0, 0) ∷ (1, 1) ∷ (3, 3) ∷ [];
      storage = some 0 ∷ some 1 ∷ some 2 ∷ some 3 ∷ [];
      capacity = 4;
      max_capacity = 4;
    })
unfolding runs
enqueues_zero = refl

dequeues_one :
    priorq_dequeue note three
    ≡ some (
      some 1,
      record {
        obj = (2, 0) ∷ [];
        storage = some 2 ∷ some 3 ∷ some 2 ∷ none ∷ [];
        capacity = 2;
        max_capacity = 4;
      },
    )
unfolding runs
dequeues_one = refl

three-IsValid : IsValid three
unfolding runs
three-IsValid = record {
  sized = refl;
  room = omega arith;
  heap = inr (λ i. get_or (1 ∷ 3 ∷ 2 ∷ []) i 0, record { full = full; ordered = ordered });
}
  where
    full : (i : ℕ) → i < 3 → read three i ≡ some (get_or (1 ∷ 3 ∷ 2 ∷ []) i 0)
    full zero h = refl
    full (suc zero) h = refl
    full (suc (suc zero)) h = refl
    full (suc (suc (suc i))) h = absurd (omega arith)

    ordered : IsOrdered {A = ℕ} (λ i. get_or (1 ∷ 3 ∷ 2 ∷ []) i 0) 3
    ordered zero pos h e = absurd (omega arith)
    ordered (suc zero) pos h e = cc
    ordered (suc (suc zero)) pos h e = cc
    ordered (suc (suc (suc i))) pos h e = absurd (omega arith)

priorq_enqueue-Adds_example :
    (prq' : Priorq ℕ (List (ℕ × ℕ))) × (priorq_enqueue note three 0 ≡ some prq')
    × IsValid prq'
    × (prq'.capacity ≡ three.capacity + 1)
    × (occurrences (leb 2) prq' ≡ occurrences (leb 2) three + one (leb 2 0))
priorq_enqueue-Adds_example = priorq_enqueue-Adds note three 0 (leb 2) three-IsValid (omega arith)

priorq_pop-IsTaken_example :
    (three.capacity ≡ 0) × (priorq_pop three ≡ some (none, three))
    ⊎ (value : ℕ) × (prq' : Priorq ℕ (List (ℕ × ℕ))) × (priorq_pop three ≡ some (some value, prq'))
      × IsTaken (leb 2) three value prq'
priorq_pop-IsTaken_example = priorq_pop-IsTaken three (leb 2) three-IsValid

priorq_dequeue-IsTaken_example :
    (three.capacity ≡ 0)
      × (priorq_dequeue note three ≡ some (none, three))
      × (priorq_peek three ≡ some none)
    ⊎ (value : ℕ) × (prq' : Priorq ℕ (List (ℕ × ℕ))) × (priorq_dequeue note three
        ≡ some (some value, prq'))
      × (priorq_peek three ≡ some (some value))
      × (occurrences (before value) three ≡ 0)
      × IsTaken (leb 2) three value prq'
priorq_dequeue-IsTaken_example = priorq_dequeue-IsTaken note three (leb 2) three-IsValid

priorq_remove-IsTaken_example :
    (value : ℕ) × (prq' : Priorq ℕ (List (ℕ × ℕ))) × (read three 1 ≡ some value)
    × (priorq_remove note three 1 ≡ some (value, prq'))
    × IsTaken (leb 2) three value prq'
priorq_remove-IsTaken_example =
    priorq_remove-IsTaken note three 1 (leb 2) three-IsValid (omega arith)
