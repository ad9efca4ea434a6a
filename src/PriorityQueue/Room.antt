-- ===== src/PriorityQueue/Room.antt =====
-- The part of `priorq_enqueue` in src/priority_queue.c that makes room.
use fsdyn.Prelude.{
  ℕ, zero, suc, ◌+◌, ◌-◌, ◌*◌, ◌/◌, ◌%◌, ◌^◌, ◌≤◌, ◌<◌, ◌≡◌, refl, Option, none, some, bind-some,
  Bool-cases, inl, inr, false, ltb, ◌==◌, ==_iff, List, [], ◌∷◌, ◌++◌, length, length-append,
  get_elem?, replicate, length-replicate, arith,
}
use fsdyn.Prelude.Buffers.{take_all}
use fsdyn.PriorityQueue.Model.{Priorq, read, double, size_limit, slot_size, resize, enlarge}

-- The number of elements that the theorems go up to: the doubled number of slots takes less than 2 ^ 64
-- bytes.
abbrev pub most : ℕ
most = 2 ^ 59

double-some :
    (fuel n needed : ℕ)
    → 0 < n
    → n ≤ 2 * most
    → needed ≤ n + fuel
    → needed ≤ most
    → (m : ℕ) × (double fuel n needed ≡ some m) × (needed ≤ m) × (m ≤ 2 * most)
unfolding double
double-some zero n needed pos small enough few =
    let off : ltb n needed ≡ false = ground arith in (n, rw off refl, omega arith, small)
double-some (suc fuel) n needed pos small enough few = elim (Bool-cases (ltb n needed)) [
  | inr e ↦ (n, rw e refl, ground (arith, e), small)
  | inl e ↦
      let below : n < needed = ground (arith, e) in
      let (m, returns, holds, bound) =
        double-some fuel (n * 2) needed (omega arith) (omega arith) (omega arith) few in
      let off : ltb ((size_limit - 1) / 2) n ≡ false = ground (arith, below, few) in
      (m, rw (e, off) returns, holds, bound)
]

get_elem?-append {ℓ} :
    {A : Type ℓ} (xs ys : List A) (i : ℕ) → i < length xs → get_elem? (xs ++ ys) i ≡ get_elem? xs i
get_elem?-append [] ys i h = absurd (omega arith)
get_elem?-append (x ∷ xs) ys zero h = refl
get_elem?-append (x ∷ xs) ys (suc i) h = get_elem?-append xs ys i (omega arith)

resize-append {ℓ} :
    {A : Type ℓ} (storage : List (Option A)) (m : ℕ)
    → length storage ≤ m
    → m ≤ 2 * most
    → resize storage m ≡ storage ++ replicate (m - length storage) none
resize-append storage m h small =
    let whole : m * slot_size % size_limit / slot_size ≡ m = omega arith in
    rw (whole, take_all storage m h) refl

module _ {ℓ κ} {A : Type ℓ} {S : Type κ} where
  -- A queue with a slot for another element.
  pub record IsEnlarged (prq : Priorq A S) : Type (ℓ ⊔ κ) where
    pub result : Priorq A S
    pub returns : enlarge prq ≡ some result
    pub sized : result.max_capacity ≡ length result.storage
    pub same_capacity : result.capacity ≡ prq.capacity
    pub spare : prq.capacity < result.max_capacity
    pub same : (i : ℕ) → i < prq.capacity → read result i ≡ read prq i

  pub enlarged :
      (prq : Priorq A S)
      → prq.max_capacity ≡ length prq.storage
      → prq.capacity ≤ prq.max_capacity
      → prq.capacity < most
      → IsEnlarged prq
  unfolding enlarge read
  enlarged prq sized room few = elim (Bool-cases (prq.capacity == prq.max_capacity)) [
    | inr e ↦ record {
      result = prq;
      returns = rw e refl;
      sized = sized;
      same_capacity = refl;
      spare = ground (arith, e, room);
      same = λ i h. refl;
    }
    | inl e ↦
        let full : prq.capacity ≡ prq.max_capacity = (==_iff prq.capacity prq.max_capacity).0 e in
        let (m, returns, holds, bound) =
          double-some (prq.capacity + 1) 1 (prq.capacity + 1) (omega arith) (omega arith)
            (omega arith) (omega arith) in
        let grown = resize-append prq.storage m (omega arith) bound in
        let filled = length-replicate {A = Option A} (m - length prq.storage) none in
        record {
          result = record prq { storage = resize prq.storage m; max_capacity = m };
          returns = rw e (bind-some _ _ _ _ returns refl);
          sized = rw grown (
              omega (
                arith,
                length-append prq.storage (replicate (m - length prq.storage) none),
                filled,
              ));
          same_capacity = refl;
          spare = omega arith;
          same = λ i h.
              rw
                (
                  read,
                  grown,
                  get_elem?-append prq.storage (replicate (m - length prq.storage) none) i
                      (omega arith),
                )
                refl;
        }
  ]
