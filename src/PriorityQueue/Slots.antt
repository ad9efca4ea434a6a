-- ===== src/PriorityQueue/Slots.antt =====
-- What the slots of a queue of src/priority_queue.c hold, and how often.
use native.Mathlib.Decide.{ℕ_discrete}
use fsdyn.Prelude.{
  ℕ, zero, suc, ◌+◌, ◌≤◌, ◌<◌, ◌≡◌, ◌≢◌, refl, sym, ap, ◌∙◌, ltb, Option, none, some, Bool, true,
  false, length, length-set, set, get_elem?-set_self, get_elem?-set_ne, arith,
}
use fsdyn.PriorityQueue.Model.{Priorq, read, assign}
use fsdyn.PriorityQueue.Holes.{upd, upd_same, upd_other}

abbrev pub one : Bool → ℕ
one true = 1
one false = 0

module _ {ℓ} {A : Type ℓ} (p : A → Bool) where
  -- How many of the first elements satisfy `p`.
  unfoldable pub total : (ℕ → A) → ℕ → ℕ
  total f zero = 0
  total f (suc n) = total f n + one (p (f n))

  pub total-upd_out : (f : ℕ → A) (n i : ℕ) (v : A) → n ≤ i → total (upd f i v) n ≡ total f n
  unfolding total
  total-upd_out f zero i v h = refl
  total-upd_out f (suc n) i v h =
      rw (total-upd_out f n i v (omega arith), upd_other f i v n (omega arith)) refl

  pub total-upd :
      (f : ℕ → A) (n i : ℕ) (v : A)
      → i < n
      → total (upd f i v) n + one (p (f i)) ≡ total f n + one (p v)
  unfolding total
  total-upd f zero i v h = absurd (omega arith)
  total-upd f (suc n) i v h = elim (ℕ_discrete i n) [
    | yes last ↦
        let written : one (p (upd f i v n)) ≡ one (p v) =
          ap (λ j. one (p (upd f i v j))) (sym last) ∙ ap (λ a. one (p a)) (upd_same f i v) in
        let old : one (p (f i)) ≡ one (p (f n)) = ap (λ j. one (p (f j))) last in
        omega (arith, total-upd_out f n i v (omega arith), written, old)
    | no before ↦
        let kept : one (p (upd f i v n)) ≡ one (p (f n)) =
          ap (λ a. one (p a)) (upd_other f i v n before) in
        omega (arith, total-upd f n i v (omega arith), kept)
  ]

  -- A hole that moves to `j` leaves the number as it is.
  pub total-moved :
      (f : ℕ → A) (n i j : ℕ) (v : A)
      → i < n
      → j < n
      → i ≢ j
      → total (upd (upd f i (f j)) j v) n ≡ total (upd f i v) n
  total-moved f n i j v hi hj apart =
      let old : one (p (upd f i (f j) j)) ≡ one (p (f j)) =
        ap (λ a. one (p a)) (upd_other f i (f j) j apart) in
      omega (
        arith,
        total-upd (upd f i (f j)) n j v hj,
        total-upd f n i (f j) hi,
        total-upd f n i v hi,
        old,
      )

abbrev pub hits {ℓ} : {A : Type ℓ} → (A → Bool) → Option A → ℕ
hits p none = 0
hits p (some a) = one (p a)

module _ {ℓ κ} {A : Type ℓ} {S : Type κ} where
  -- How many elements of the queue satisfy `p`.
  unfoldable pub occurrences_to : (A → Bool) → Priorq A S → ℕ → ℕ
  occurrences_to p prq zero = 0
  occurrences_to p prq (suc n) = occurrences_to p prq n + hits p (read prq n)

  abbrev pub occurrences : (A → Bool) → Priorq A S → ℕ
  occurrences p prq = occurrences_to p prq prq.capacity

  -- The slots hold the elements of `f`, but for the hole.
  pub record IsShown (prq : Priorq A S) (slot : ℕ) (f : ℕ → A) : Type (ℓ ⊔ κ) where
    pub shown : (i : ℕ) → i < prq.capacity → i ≢ slot → read prq i ≡ some (f i)
    pub room : prq.capacity ≤ length prq.storage
    pub inside : slot < length prq.storage

  -- The parts that moving elements leaves alone.
  pub record IsFrame (prq prq' : Priorq A S) : Type 0 where
    pub same_capacity : prq'.capacity ≡ prq.capacity
    pub same_max : prq'.max_capacity ≡ prq.max_capacity
    pub same_length : length prq'.storage ≡ length prq.storage

  pub occurrences_to-total :
      (p : A → Bool) (prq : Priorq A S) (f : ℕ → A) (n : ℕ)
      → n ≤ prq.capacity
      → ((i : ℕ) → i < prq.capacity → read prq i ≡ some (f i))
      → occurrences_to p prq n ≡ total p f n
  unfolding occurrences_to total
  occurrences_to-total p prq f zero h full = refl
  occurrences_to-total p prq f (suc n) h full =
      rw (occurrences_to-total p prq f n (omega arith) full, full n (omega arith)) refl

module _ {ℓ κ} {A : Type ℓ} {S : Type κ} (reloc : A → ℕ → S → S) where
  -- `assign` at a slot of the storage.
  pub record IsAssigned (prq : Priorq A S) (slot : ℕ) (value : A) : Type (ℓ ⊔ κ) where
    pub result : Priorq A S
    pub returns : assign reloc prq slot value ≡ some result
    pub here : read result slot ≡ some value
    pub elsewhere : (i : ℕ) → slot ≢ i → read result i ≡ read prq i
    pub frame : IsFrame prq result

  pub assign-IsAssigned :
      (prq : Priorq A S) (slot : ℕ) (value : A)
      → slot < length prq.storage
      → IsAssigned prq slot value
  unfolding assign read
  assign-IsAssigned prq slot value h = record {
    result = record prq {
      storage = set prq.storage slot (some value);
      obj = reloc value slot prq.obj;
    };
    returns =
        let inside : ltb slot (length prq.storage) ≡ true = ground (arith, h) in rw inside refl;
    here = rw (read, get_elem?-set_self prq.storage slot (some value) h) refl;
    elsewhere = λ i apart. rw (read, get_elem?-set_ne prq.storage (some value) apart) refl;
    frame = record {
      same_capacity = refl;
      same_max = refl;
      same_length = length-set prq.storage slot (some value);
    };
  }

  -- The hole is filled.
  pub assigned-full :
      (prq : Priorq A S) (slot : ℕ) (value : A) (f : ℕ → A)
      → IsShown prq slot f
      → (a : IsAssigned prq slot value) → (i : ℕ) → i < a.result.capacity
      → read a.result i ≡ some (upd f slot value i)
  assigned-full prq slot value f h a i inside = elim (ℕ_discrete slot i) [
    | yes at_hole ↦ rw (sym at_hole, upd_same f slot value) a.here
    | no apart ↦
        let below : i < prq.capacity = omega (arith, inside, a.frame.same_capacity) in
        rw (upd_other f slot value i apart)
          (a.elsewhere i apart ∙ h.shown i below (λ e. apart (sym e)))
  ]

  -- The hole moves to another slot.
  pub assigned-IsShown :
      (prq : Priorq A S) (slot : ℕ) (value : A) (f : ℕ → A) (j : ℕ)
      → IsShown prq slot f
      → (a : IsAssigned prq slot value) → j < prq.capacity
      → IsShown a.result j (upd f slot value)
  assigned-IsShown prq slot value f j h a inside = record {
    shown = λ i below apart. assigned-full prq slot value f h a i below;
    room = omega (arith, h.room, a.frame.same_capacity, a.frame.same_length);
    inside = omega (arith, h.room, a.frame.same_length);
  }
