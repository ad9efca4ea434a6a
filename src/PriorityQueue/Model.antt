-- ===== src/PriorityQueue/Model.antt =====
-- The operations of src/priority_queue.c.
use Prim.Native.Nat.{Ordering}
use Prim.Native.Nat.Ordering.{lt, eq, gt}
use fsdyn.Prelude.{
  ℕ, zero, suc, ◌+◌, ◌-◌, ◌*◌, ◌/◌, ◌%◌, ◌^◌, Option, none, some, ◌>>=◌, Bool, true, false, ltb,
  leb, ◌==◌, if◌then◌else◌, List, [], ◌++◌, length, get_elem?, set, take, replicate,
}
use fsdyn.AvlTree.Comparator.{Comparator}

-- `struct priorq`, with what `obj` points to.
pub record Priorq {ℓ κ} (A : Type ℓ) (S : Type κ) : Type (ℓ ⊔ κ) where
  pub obj : S
  pub storage : List (Option A)
  pub capacity : ℕ
  pub max_capacity : ℕ

abbrev pub is_lt : Ordering → Bool
is_lt lt = true
is_lt eq = false
is_lt gt = false

abbrev pub is_gt : Ordering → Bool
is_gt lt = false
is_gt eq = false
is_gt gt = true

-- `(slot - 1) / 2`
abbrev pub parent : ℕ → ℕ
parent slot = (slot - 1) / 2

-- `SIZE_MAX` + 1, and `sizeof *prq->storage`.
abbrev pub size_limit : ℕ
size_limit = 2 ^ 64

abbrev pub slot_size : ℕ
slot_size = 8

module _ {ℓ κ} {A : Type ℓ} {S : Type κ} where
  unfoldable pub make_priority_queue : S → Priorq A S
  make_priority_queue obj = record { obj = obj; storage = []; capacity = 0; max_capacity = 0 }

  -- `prq->storage[slot]`
  unfoldable pub read : Priorq A S → ℕ → Option A
  read prq slot = elim (get_elem? prq.storage slot) [ none ↦ none | some element ↦ element ]

  abbrev pub priorq_size : Priorq A S → ℕ
  priorq_size prq = prq.capacity

  abbrev pub priorq_empty : Priorq A S → Bool
  priorq_empty prq = priorq_size prq == 0

  -- What `priorq_peek` returns; the inner `none` is NULL.
  unfoldable pub priorq_peek : Priorq A S → Option (Option A)
  priorq_peek prq =
      if priorq_empty prq then some none else (read prq 0 >>= λ value. some (some value))

  unfoldable pub priorq_pop : Priorq A S → Option (Option A × Priorq A S)
  priorq_pop prq =
      if priorq_empty prq
      then some (none, prq)
      else (read prq (prq.capacity - 1) >>= λ value.
          some (some value, record prq { capacity = prq.capacity - 1 }))

-- The loop that doubles `n`; each round adds one or more, so what is needed is enough fuel.
unfoldable pub double : ℕ → ℕ → ℕ → Option ℕ
double zero n needed = if ltb n needed then none else some n
double (suc fuel) n needed =
    let next = double fuel (n * 2) needed in
    if ltb n needed
    then if ltb ((size_limit - 1) / 2) n then some (size_limit - 1) else next
    else some n

-- `fsrealloc` to the size in bytes, which a `size_t` holds.
abbrev pub resize {ℓ} : {A : Type ℓ} → List (Option A) → ℕ → List (Option A)
resize storage slots =
    let kept = slots * slot_size % size_limit / slot_size in
    take kept storage ++ replicate (kept - length storage) none

module _ {ℓ κ} {A : Type ℓ} {S : Type κ} where
  -- The part of `priorq_enqueue` that makes room.
  unfoldable pub enlarge : Priorq A S → Option (Priorq A S)
  enlarge prq =
      if prq.capacity == prq.max_capacity
      then (double (prq.capacity + 1) 1 (prq.capacity + 1) >>= λ n.
          some (record prq { storage = resize prq.storage n; max_capacity = n }))
      else some prq

module _ {ℓ κ} {A : Type ℓ} {S : Type κ} ⦃c : Comparator A⦄ where
  -- The branch that `lower` looks at.
  unfoldable pub branch_of : Priorq A S → ℕ → Option ℕ
  branch_of prq left =
      if leb prq.capacity (left + 1)
      then some left
      else (read prq left >>= λ a.
          read prq (left + 1) >>= λ b. some (if is_lt (c.cmp a b) then left else left + 1))

module _ {ℓ κ} {A : Type ℓ} {S : Type κ} (reloc : A → ℕ → S → S) where
  unfoldable pub assign : Priorq A S → ℕ → A → Option (Priorq A S)
  assign prq slot value =
      if ltb slot (length prq.storage)
      then some (record prq {
        storage = set prq.storage slot (some value);
        obj = reloc value slot prq.obj;
      })
      else none

module _ {ℓ κ} {A : Type ℓ} {S : Type κ} ⦃c : Comparator A⦄ (reloc : A → ℕ → S → S) where
  -- The slot is the fuel: a parent stands before its branches.
  unfoldable pub raise : ℕ → Priorq A S → ℕ → A → Option (Priorq A S × ℕ)
  raise fuel prq zero value = some (prq, 0)
  raise zero prq (suc n) value = none
  raise (suc fuel) prq (suc n) value = do
    other ← read prq (parent (suc n))
    elim (is_lt (c.cmp value other)) [
      | false ↦ some (prq, suc n)
      | true ↦ assign reloc prq (suc n) other >>= λ prq. raise fuel prq (parent (suc n)) value
    ]

  unfoldable pub priorq_enqueue : Priorq A S → A → Option (Priorq A S)
  priorq_enqueue prq value = do
    prq ← enlarge prq
    let slot = prq.capacity
    (prq, slot) ← raise slot (record prq { capacity = slot + 1 }) slot value
    assign reloc prq slot value

  -- The slots behind are the fuel.
  unfoldable pub lower : ℕ → Priorq A S → ℕ → A → Option (Priorq A S)
  lower zero prq slot value = none
  lower (suc fuel) prq slot value =
      let left = slot * 2 + 1 in
      let move : Option (Priorq A S) = do
        branch ← branch_of prq left
        other ← read prq branch
        elim (is_gt (c.cmp value other)) [
          | false ↦ assign reloc prq slot value
          | true ↦ assign reloc prq slot other >>= λ prq. lower fuel prq branch value
        ]
      in if leb prq.capacity left then assign reloc prq slot value else move

  unfoldable pub priorq_dequeue : Priorq A S → Option (Option A × Priorq A S)
  priorq_dequeue prq =
      let last = prq.capacity - 1 in
      let shorter = record prq { capacity = last } in
      if prq.capacity == 0
      then some (none, prq)
      else if prq.capacity == 1
      then (read prq last >>= λ value. some (some value, shorter))
      else (read prq 0 >>= λ value. read prq last >>= λ other.
          lower prq.capacity shorter 0 other >>= λ prq. some (some value, prq))

  -- At capacity 0 the index of the last element is out of range.
  unfoldable pub priorq_remove : Priorq A S → ℕ → Option (A × Priorq A S)
  priorq_remove prq slot = do
    value ← read prq slot
    let last = prq.capacity - 1
    other ← if prq.capacity == 0 then none else read prq last
    (raised, place) ← raise slot (record prq { capacity = last }) slot other
    lowered ← lower prq.capacity raised place other
    some (value, lowered)
