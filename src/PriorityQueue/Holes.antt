-- ===== src/PriorityQueue/Holes.antt =====
-- The order of the heap of src/priority_queue.c while one slot, the hole, waits for its element.
use Prim.Native.Nat.Ordering.{lt, gt}
use native.Mathlib.Decide.{ℕ_discrete}
use fsdyn.Prelude.{
  ℕ, zero, suc, ◌≤◌, ◌<◌, ◌≡◌, ◌≢◌, sym, ap, subst, ◌⊎◌, inl, inr, ◌==◌, if◌then◌else◌, arith,
}
use fsdyn.AvlTree.Comparator.{Comparator}
use fsdyn.PriorityQueue.Model.{parent}

-- The elements with another one at the slot.
unfoldable pub upd {ℓ} : {A : Type ℓ} → (ℕ → A) → ℕ → A → ℕ → A
upd f slot value i = if slot == i then value else f i

pub upd_same {ℓ} : {A : Type ℓ} (f : ℕ → A) (slot : ℕ) (value : A) → upd f slot value slot ≡ value
unfolding upd
upd_same f slot value = ground arith

pub upd_other {ℓ} :
    {A : Type ℓ} (f : ℕ → A) (slot : ℕ) (value : A) (i : ℕ) → slot ≢ i → upd f slot value i ≡ f i
unfolding upd
upd_other f slot value i h = ground (arith, h)

module _ {ℓ} {A : Type ℓ} ⦃c : Comparator A⦄ where
  infix 50 ◌≼◌
  -- `a` does not come behind `b`.
  abbrev pub ◌≼◌ : A → A → Type 0
  a ≼ b = c.cmp a b ≢ gt

  pub ≼_trans : (x y z : A) → x ≼ y → y ≼ z → x ≼ z
  ≼_trans x y z h g = ground (
    arith,
    c.lt_trans x y z,
    c.eq_trans x y z,
    c.flips x y,
    c.flips y z,
    c.flips x z,
    c.eq_trans y z x,
    c.eq_trans z y x,
  )

  pub le_of_ge : (x y : A) → c.cmp x y ≢ lt → y ≼ x
  le_of_ge x y h = ground (arith, c.flips x y)

  pub le_of_gt : (x y : A) → c.cmp x y ≡ gt → y ≼ x
  le_of_gt x y h = ground (arith, c.flips x y)

  pub ≼_refl : (x : A) → x ≼ x
  ≼_refl x = ground (arith, c.flips x x)

  -- No element comes before its parent.
  abbrev pub IsOrdered : (ℕ → A) → ℕ → Type 0
  IsOrdered f cap = (i : ℕ) → 0 < i → i < cap → f (parent i) ≼ f i

  -- The order around the hole, over which the order of its branches and its parent is known.
  pub record IsHoled (f : ℕ → A) (cap slot : ℕ) : Type 0 where
    pub edges : (i : ℕ) → 0 < i → i < cap → i ≢ slot → parent i ≢ slot → f (parent i) ≼ f i
    pub bridge : (i : ℕ) → 0 < i → i < cap → 0 < slot → parent i ≡ slot → f (parent slot) ≼ f i

  -- The value may stand at the slot below its parent, and above its branches.
  abbrev pub IsUp : (ℕ → A) → ℕ → A → Type 0
  IsUp f slot value = (slot ≡ 0) ⊎ (f (parent slot) ≼ value)

  abbrev pub IsDown : (ℕ → A) → ℕ → ℕ → A → Type 0
  IsDown f cap slot value = (i : ℕ) → 0 < i → i < cap → parent i ≡ slot → value ≼ f i

  pub ordered-IsHoled : (f : ℕ → A) (cap slot : ℕ) → IsOrdered f cap → IsHoled f cap slot
  ordered-IsHoled f cap slot h = record {
    edges = λ i pos inside away behind. h i pos inside;
    bridge = λ i pos inside deep below.
        ≼_trans (f (parent slot)) (f slot) (f i) (h slot deep (omega arith))
          (subst (λ j. f j ≼ f i) below (h i pos inside));
  }

  -- Filling the hole.
  pub fill-IsOrdered :
      (f : ℕ → A) (cap slot : ℕ) (value : A)
      → IsHoled f cap slot
      → IsUp f slot value
      → IsDown f cap slot value
      → IsOrdered (upd f slot value) cap
  fill-IsOrdered f cap slot value h up down i pos inside = elim (ℕ_discrete slot i) [
    | yes here ↦
        rw (sym here, upd_same f slot value, upd_other f slot value (parent slot) (omega arith))
          (elim up [ inl root ↦ absurd (omega arith) | inr above ↦ above ])
    | no away ↦ elim (ℕ_discrete slot (parent i)) [
      | yes below ↦
          rw (sym below, upd_same f slot value, upd_other f slot value i away)
            (down i pos inside (sym below))
      | no apart ↦
          rw (upd_other f slot value (parent i) apart, upd_other f slot value i away)
            (h.edges i pos inside (λ e. away (sym e)) (λ e. apart (sym e)))
    ]
  ]

  -- The parent's element moves into the hole, and the hole to the parent.
  pub raise-IsHoled :
      (f : ℕ → A) (cap slot : ℕ)
      → 0 < slot
      → slot < cap
      → IsHoled f cap slot
      → IsHoled (upd f slot (f (parent slot))) cap (parent slot)
  raise-IsHoled f cap slot deep room h = record {
    edges = λ i pos inside away behind.
        let apart : slot ≢ i = λ e. behind (ap parent (sym e)) in
        elim (ℕ_discrete slot (parent i)) [
          | yes below ↦
              rw
                (
                  sym below,
                  upd_same f slot (f (parent slot)),
                  upd_other f slot (f (parent slot)) i apart,
                )
                (h.bridge i pos inside deep (sym below))
          | no beside ↦
              rw
                (
                  upd_other f slot (f (parent slot)) (parent i) beside,
                  upd_other f slot (f (parent slot)) i apart,
                )
                (h.edges i pos inside (λ e. apart (sym e)) (λ e. beside (sym e)))
        ];
    bridge = λ i pos inside high below.
        let above = h.edges (parent slot) high (omega arith) (omega arith) (omega arith) in
        rw (upd_other f slot (f (parent slot)) (parent (parent slot)) (omega arith))
          (elim (ℕ_discrete slot i) [
            | yes here ↦ rw (sym here, upd_same f slot (f (parent slot))) above
            | no apart ↦ rw (upd_other f slot (f (parent slot)) i apart) (
                ≼_trans (f (parent (parent slot))) (f (parent slot)) (f i) above (
                  subst (λ j. f j ≼ f i) below
                    (h.edges i pos inside (λ e. apart (sym e)) (omega arith))))
          ]);
  }

  -- Above the old element of the parent every branch of the new hole may stay.
  pub raise-IsDown :
      (f : ℕ → A) (cap slot : ℕ) (value : A)
      → 0 < slot
      → slot < cap
      → IsHoled f cap slot
      → value ≼ f (parent slot)
      → IsDown (upd f slot (f (parent slot))) cap (parent slot) value
  raise-IsDown f cap slot value deep room h less i pos inside below = elim (ℕ_discrete slot i) [
    | yes here ↦ rw (sym here, upd_same f slot (f (parent slot))) less
    | no apart ↦ rw (upd_other f slot (f (parent slot)) i apart) (
        ≼_trans value (f (parent slot)) (f i) less
          (subst (λ j. f j ≼ f i) below (h.edges i pos inside (λ e. apart (sym e)) (omega arith))))
  ]

  -- The element of a first branch moves into the hole, and the hole to that branch.
  pub lower-IsHoled :
      (f : ℕ → A) (cap slot branch : ℕ)
      → 0 < branch
      → branch < cap
      → parent branch ≡ slot
      → IsHoled f cap slot
      → IsDown f cap slot (f branch)
      → IsHoled (upd f slot (f branch)) cap branch
  lower-IsHoled f cap slot branch deep room under h least = record {
    edges = λ i pos inside away behind. elim (ℕ_discrete slot i) [
      | yes here ↦
          rw
            (
              sym here,
              upd_same f slot (f branch),
              upd_other f slot (f branch) (parent slot) (omega arith),
            )
            (h.bridge branch deep room (omega arith) under)
      | no apart ↦ elim (ℕ_discrete slot (parent i)) [
        | yes below ↦
            rw (sym below, upd_same f slot (f branch), upd_other f slot (f branch) i apart)
              (least i pos inside (sym below))
        | no beside ↦
            rw (upd_other f slot (f branch) (parent i) beside, upd_other f slot (f branch) i apart)
              (h.edges i pos inside (λ e. apart (sym e)) (λ e. beside (sym e)))
      ]
    ];
    bridge = λ i pos inside high below.
        rw (under, upd_same f slot (f branch), upd_other f slot (f branch) i (omega arith))
          (subst (λ j. f j ≼ f i) below (h.edges i pos inside (omega arith) (omega arith)));
  }

  -- The first element of a heap comes before all.
  pub first-least : (f : ℕ → A) (cap fuel i : ℕ) → IsOrdered f cap → i < cap → i ≤ fuel → f 0 ≼ f i
  first-least f cap fuel zero h inside enough = ≼_refl (f 0)
  first-least f cap zero (suc i) h inside enough = absurd (omega arith)
  first-least f cap (suc fuel) (suc i) h inside enough =
      ≼_trans (f 0) (f (parent (suc i))) (f (suc i))
        (first-least f cap fuel (parent (suc i)) h (omega arith) (omega arith))
        (h (suc i) (omega arith) inside)
