-- ===== src/AvlTree/Comparator.antt =====
-- The function `cmp` that a client of src/avltree.c gives: only the sign of its result is read, so
-- it is an `Ordering`. Its laws are those of a total preorder: two keys that compare equal need not
-- be the same key.
use Prim.Native.Nat.{ℕ, compare, Ordering}
use Prim.Native.Nat.Ordering.{lt, eq, gt}
use fsdyn.Prelude.{◌≡◌, ◌≢◌, arith}

abbrev pub flip : Ordering → Ordering
flip lt = gt
flip eq = eq
flip gt = lt

pub record IsPreorder {ℓ} {K : Type ℓ} (cmp : K → K → Ordering) : Type ℓ where
  pub flips : (a b : K) → cmp b a ≡ flip (cmp a b)
  pub lt_trans : (a b c : K) → cmp a b ≡ lt → cmp b c ≡ lt → cmp a c ≡ lt
  pub eq_trans : (a b c : K) → cmp a b ≡ eq → cmp a c ≡ cmp b c

pub record Comparator {ℓ} (K : Type ℓ) : Type ℓ where
  pub cmp : K → K → Ordering
  pub lawful : IsPreorder cmp
  pub open lawful use *

infix 50 ◌≺◌
abbrev pub ◌≺◌ {ℓ} : {K : Type ℓ} ⦃c : Comparator K⦄ → K → K → Type 0
◌≺◌ ⦃c⦄ a b = c.cmp a b ≡ lt

pub compare-IsPreorder : IsPreorder compare
compare-IsPreorder = ground arith

-- Numbers, as `integer_cmp` of src/integer.c orders those that are not negative.
instance unfoldable pub nat_comparator : Comparator ℕ
nat_comparator = record { cmp = compare; lawful = compare-IsPreorder }

module _ {ℓ} {K : Type ℓ} ⦃c : Comparator K⦄ where
  -- A key that is not less than `k` is greater than what is less than `k`.
  pub gt_of_lt : (q k j : K) → c.cmp q k ≢ lt → j ≺ k → c.cmp q j ≡ gt
  gt_of_lt q k j h below =
      ground (arith, c.eq_trans q k j, c.flips j k, c.flips q k, c.lt_trans j k q, c.flips j q)

  -- A key that is not greater than `k` is less than what is greater than `k`.
  pub lt_of_lt : (q k j : K) → c.cmp q k ≢ gt → k ≺ j → q ≺ j
  lt_of_lt q k j h above = ground (arith, c.eq_trans q k j, c.lt_trans q k j)

  pub lt_of_gt : (q k : K) → c.cmp q k ≡ gt → k ≺ q
  lt_of_gt q k h = ground (arith, c.flips q k)
