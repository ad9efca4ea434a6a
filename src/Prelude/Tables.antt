-- ===== src/Prelude/Tables.antt =====
-- Facts about every entry of a finite table, by evaluation.
use Prim.Native.Nat.{ℕ, zero, suc, ◌+◌, ◌≤◌, ◌<◌}
use mathlib.Core.Path.{◌≡◌}
use mathlib.Core.Bool.{Bool, true, ◌&&◌}
use native.Mathlib.Decide.{ℕ_discrete}
use native.Mathlib.Omega.{arith}

module _ (test : ℕ → Bool) where
  -- The entries from `i` on, `left` of them, pass the test.
  unfoldable pub checked : (left i : ℕ) → Bool
  checked zero i = true
  checked (suc left) i = test i && checked left (i + 1)

  pub checked-entry : (left i j : ℕ) → checked left i ≡ true → i ≤ j → j < i + left → test j ≡ true
  unfolding checked
  checked-entry zero i j e lo hi = absurd (omega arith)
  checked-entry (suc left) i j e lo hi = elim (ℕ_discrete i j) [
    | yes here ↦ ground arith
    | no later ↦ checked-entry left (i + 1) j (ground arith) (omega arith) (omega arith)
  ]
