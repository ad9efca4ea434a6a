-- ===== src/Charstr/Number/Leading.antt =====
-- The digits that `to_unsigned` of src/charstr.c reads, and the number that they stand for.
use native.Mathlib.Nat.{le-div_iff_mul-le, mul_comm, mul-add, mul_left_comm}
use fsdyn.Prelude.{
  ◌↔◌, ℕ, ◌+◌, ◌-◌, ◌*◌, ◌/◌, ◌%◌, ◌≤◌, ◌<◌, ◌≡◌, ap, ◌∙◌, inl, inr, Bool-cases, Bool, not, ◌||◌,
  ltb, leb, ◌==◌, if◌then◌else◌, List, [], ◌∷◌, length, arith,
}
use fsdyn.Charstr.{charstr_digit_value, no_digit}
use fsdyn.Charstr.Number.{Digits, uint64, read_digits}

abbrev pub is_digit_in : ℕ → ℕ → Bool
is_digit_in base c = not (charstr_digit_value c == no_digit || leb base (charstr_digit_value c))

-- The values of the digits that the text begins with.
unfoldable pub leading_digits : ℕ → List ℕ → List ℕ
leading_digits base [] = []
leading_digits base (c ∷ s) =
    let rest = leading_digits base s in
    if is_digit_in base c then charstr_digit_value c ∷ rest else []

-- The number with these digits, behind the number `n`.
unfoldable pub number : ℕ → ℕ → List ℕ → ℕ
number base n [] = n
number base n (d ∷ ds) = number base (base * n + d) ds

-- Facts of a product by a base.
mul-facts : (base n : ℕ) → 2 ≤ base → base ≤ 16 → (n ≤ base * n) × (base * n ≤ 16 * n)
mul-facts base n lo hi = (grind arith, grind arith)

limit_iff : (base n : ℕ) → 2 ≤ base → (n ≤ (uint64 - 1) / base) ↔ (base * n ≤ uint64 - 1)
limit_iff base n lo = rw (mul_comm base n) (le-div_iff_mul-le (omega arith))

number-le : (base n : ℕ) (ds : List ℕ) → 2 ≤ base → base ≤ 16 → n ≤ number base n ds
unfolding number
number-le base n [] lo hi = omega arith
number-le base n (d ∷ ds) lo hi =
    omega (arith, mul-facts base n lo hi, number-le base (base * n + d) ds lo hi)

-- One round of the loop at the number `n`: the wrapped value, and whether the number has outgrown
-- 64 bits.
step-value : (base n d : ℕ) → (base * (n % uint64) % uint64 + d) % uint64 ≡ (base * n + d) % uint64
step-value base n d =
    let whole : n ≡ n % uint64 + uint64 * (n / uint64) = omega arith in
    let spread : base * n ≡ base * (n % uint64) + uint64 * (base * (n / uint64)) =
      ap (λ m. base * m) whole
      ∙ mul-add base (n % uint64) (uint64 * (n / uint64))
      ∙ ap (λ m. base * (n % uint64) + m) (mul_left_comm base uint64 (n / uint64)) in
    omega (arith, spread)

step-overflow :
    (base n d : ℕ)
    → 2 ≤ base
    → base ≤ 16
    → d < base
    → (not (ltb n uint64)
        || ltb ((uint64 - 1) / base) (n % uint64)
        || ltb ((base * n + d) % uint64) (n % uint64))
      ≡ not (ltb (base * n + d) uint64)
step-overflow base n d lo hi hd = ground (arith, mul-facts base n lo hi, limit_iff base n lo)

-- The state of the loop at a number.
abbrev pub at_number : ℕ → ℕ → Digits
at_number n count = record { n = n % uint64; overflow = not (ltb n uint64); count = count }

digit-step :
    (base n count d : ℕ)
    → 2 ≤ base
    → base ≤ 16
    → d < base
    → (let m = (base * (n % uint64) % uint64 + d) % uint64 in
        ◌≡◌ {A = Digits}
          (record {
            n = m;
            overflow =
                not (ltb n uint64) || ltb ((uint64 - 1) / base) (n % uint64) || ltb m (n % uint64);
            count = count + 1;
          })
          (at_number (base * n + d) (count + 1)))
digit-step base n count d lo hi hd = rw (step-value base n d) (
    ap (λ over. record { n = (base * n + d) % uint64; overflow = over; count = count + 1 })
      (step-overflow base n d lo hi hd))

-- From the number `n` on the loop reads all leading digits.
pub read_digits-number :
    (base n count : ℕ) (s : List ℕ)
    → 2 ≤ base
    → base ≤ 16
    → read_digits base s (at_number n count)
      ≡ at_number (number base n (leading_digits base s)) (count + length (leading_digits base s))
unfolding read_digits leading_digits number
read_digits-number base n count [] lo hi = ap (at_number n) (omega arith)
read_digits-number base n count (c ∷ s) lo hi =
    let d = charstr_digit_value c in
    elim (Bool-cases (d == no_digit || leb base d)) [
      | inl e ↦ rw e (ap (at_number n) (omega arith))
      | inr e ↦
          let hd : d < base = ground (arith, e) in
          rw (e, digit-step base n count d lo hi hd)
            (read_digits-number base (base * n + d) (count + 1) s lo hi
              ∙ ap (at_number (number base (base * n + d) (leading_digits base s))) (omega arith))
    ]
