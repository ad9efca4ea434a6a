-- ===== src/Charstr/Number/Range.antt =====
-- `charstr_to_unsigned` and `charstr_to_integer` of src/charstr.c, against the number that the
-- leading digits stand for.
use fsdyn.Prelude.{
  ℕ, zero, suc, ◌+◌, ◌-◌, ◌%◌, ◌^◌, ◌≤◌, ◌<◌, ◌≡◌, refl, ap, ◌⊎◌, inl, inr, Bool, true, false, not,
  ◌||◌, ltb, leb, ◌==◌, if◌then◌else◌, List, [], ◌∷◌, length, drop, Option, none, some, arith,
}
use fsdyn.Prelude.Int.{ℤ, pos, neg_ℕ}
use fsdyn.Charstr.Number.{
  uint64, Parsed, failed, parsed, einval, eilseq, natural_base, skip, to_unsigned_in, to_unsigned,
  charstr_to_unsigned, to_int64, minus, is_negative, is_positive, parse_positive, parse_negative,
  count_sign, charstr_to_integer,
}
use fsdyn.Charstr.Number.Leading.{leading_digits, number, at_number, read_digits-number}
use fsdyn.Charstr.Number.Reading.{unsigned_value, is_base, notation, reading, value_of, unsigned_of}

to_unsigned_in-value :
    (digits : List ℕ) (start base : ℕ)
    → 2 ≤ base
    → base ≤ 16
    → to_unsigned_in digits start base ≡ unsigned_value base start (leading_digits base digits)
unfolding to_unsigned_in
to_unsigned_in-value digits start base lo hi =
    let inside : (ltb base 2 || ltb 16 base) ≡ false = ground arith in
    rw (inside, read_digits-number base 0 0 digits lo hi) (by_digits (leading_digits base digits))
  where
    by_digits :
        (ds : List ℕ)
        → (let r = at_number (number base 0 ds) (0 + length ds) in
            (if r.count == 0 then failed eilseq else parsed (start + r.count) r.n r.overflow)
            ≡ unsigned_value base start ds)
    by_digits [] = refl
    by_digits (d ∷ ds) = ground arith

to_unsigned_in-bad :
    (digits : List ℕ) (base : ℕ)
    → is_base base ≡ false
    → to_unsigned_in digits 0 base ≡ failed einval
unfolding to_unsigned_in
to_unsigned_in-bad digits base e =
    let outside : (ltb base 2 || ltb 16 base) ≡ true = ground (arith, e) in rw outside refl

notation-base : (buffer : List ℕ) → is_base ((notation buffer).0) ≡ true
notation-base [] = refl
notation-base (c ∷ []) = ground arith
notation-base (c ∷ d ∷ s) = ground arith

natural_base-notation : (buffer : List ℕ) → natural_base buffer ≡ notation buffer
unfolding natural_base
natural_base-notation [] = refl
natural_base-notation (c ∷ []) = refl
natural_base-notation (c ∷ d ∷ s) = ground arith

skip-drop : (n : ℕ) (s : List ℕ) → skip n s ≡ drop n s
skip-drop zero s = refl
skip-drop (suc n) [] = refl
skip-drop (suc n) (c ∷ s) = skip-drop n s

-- `charstr_to_unsigned` reads the longest run of digits of the base and gives the number modulo
-- 2 ^ 64, with ERANGE exactly if it is 2 ^ 64 or more; it fails without a digit, or for a bad base. The
-- base 0 is for the notation of C.
pub charstr_to_unsigned-value :
    (buffer : List ℕ) (base : ℕ) → charstr_to_unsigned buffer base ≡ unsigned_of buffer base
unfolding to_unsigned
charstr_to_unsigned-value buffer base = by_zero (base == 0) refl (is_base base) refl
  where
    by_zero :
        (zero_base : Bool)
        → (base == 0) ≡ zero_base
        → (inside : Bool) → is_base base ≡ inside
        → to_unsigned buffer base ≡ unsigned_of buffer base
    by_zero true e inside f =
        let (natural, start) = notation buffer in
        let inside = notation-base buffer in
        rw (natural_base-notation buffer, e, skip-drop start buffer)
          (to_unsigned_in-value (drop start buffer) start natural (ground (arith, inside))
            (ground (arith, inside)))
    by_zero false e true f =
        rw (e, f) (to_unsigned_in-value buffer 0 base (ground (arith, f)) (ground (arith, f)))
    by_zero false e false f = rw (e, f) (to_unsigned_in-bad buffer base f)

-- Whether a sign is there and is a minus, and the text behind it.
abbrev pub split_sign : ℕ → List ℕ → Bool × List ℕ × ℕ
split_sign c s =
    if c == b'+' then (false, s, 1) else if c == b'-' then (true, s, 1) else (false, c ∷ s, 0)

-- `value` and `erange` are right for the number `m` behind a sign.
pub record IsSigned (negative : Bool) (m : ℕ) (value : ℤ) (erange : Bool) : Type 0 where
  pub range : erange ≡ not (if negative then leb m (2 ^ 63) else ltb m (2 ^ 63))
  pub wrapped : value ≡ to_int64 (if negative then minus (m % uint64) else m % uint64)
  pub exact : (erange ≡ true) ⊎ (value ≡ (if negative then neg_ℕ m else pos m))

is_positive-neg_ℕ : (n : ℕ) → is_positive (neg_ℕ n) ≡ false
is_positive-neg_ℕ zero = refl
is_positive-neg_ℕ (suc n) = refl

is_negative-neg_ℕ : (n : ℕ) → 0 < n → is_negative (neg_ℕ n) ≡ true
is_negative-neg_ℕ zero h = absurd (omega arith)
is_negative-neg_ℕ (suc n) h = refl

to_int64-minus_exact :
    (m : ℕ)
    → (not (ltb m uint64) || is_positive (to_int64 (minus (m % uint64)))) ≡ false
    → to_int64 (minus (m % uint64)) ≡ neg_ℕ m
to_int64-minus_exact zero e = refl
to_int64-minus_exact (suc m) e =
    let high : ltb (minus (suc m % uint64)) (2 ^ 63) ≡ false = ground arith in
    let back : uint64 - minus (suc m % uint64) ≡ suc m = ground arith in rw (high, back) refl

to_int64-minus :
    (m : ℕ)
    → IsSigned true m
        (to_int64 (minus (m % uint64)))
        (not (ltb m uint64) || is_positive (to_int64 (minus (m % uint64))))
to_int64-minus m = record {
  range = ground (arith, is_positive-neg_ℕ (uint64 - minus (m % uint64)));
  wrapped = refl;
  exact = by_range _ refl;
}
  where
    by_range :
        (erange : Bool)
        → (not (ltb m uint64) || is_positive (to_int64 (minus (m % uint64)))) ≡ erange
        → ((not (ltb m uint64) || is_positive (to_int64 (minus (m % uint64)))) ≡ true)
          ⊎ (to_int64 (minus (m % uint64)) ≡ neg_ℕ m)
    by_range true e = inl e
    by_range false e = inr (to_int64-minus_exact m e)

to_int64-plus :
    (m : ℕ)
    → IsSigned false m
        (to_int64 (m % uint64))
        (not (ltb m uint64) || is_negative (to_int64 (m % uint64)))
to_int64-plus m = record {
  range = ground (arith, is_negative-neg_ℕ (uint64 - m % uint64));
  wrapped = refl;
  exact = ground (arith, is_negative-neg_ℕ (uint64 - m % uint64));
}

-- A result for the digits `ds` behind a sign of `start` characters.
abbrev pub Reads : Bool → ℕ → ℕ → List ℕ → Parsed ℤ → Type 0
Reads negative start base [] result = result ≡ failed eilseq
Reads negative start base (d ∷ ds) result =
    (value : ℤ) × (erange : Bool) × (result ≡ parsed (start + length (d ∷ ds)) value erange)
    × IsSigned negative (number base 0 (d ∷ ds)) value erange

-- The same for a text that is read as `o` behind a sign of `start` characters.
abbrev pub ReadsAs : Bool → ℕ → Option (ℕ × ℕ × List ℕ) → Parsed ℤ → Type 0
ReadsAs negative start none result = result ≡ failed einval
ReadsAs negative start (some (base, prefix, digits)) result =
    Reads negative (start + prefix) base digits result

parse_positive-ReadsAs :
    (s : List ℕ) (base : ℕ) (o : Option (ℕ × ℕ × List ℕ))
    → to_unsigned s base ≡ value_of o
    → ReadsAs false 0 o (parse_positive s base)
unfolding parse_positive
parse_positive-ReadsAs s base none e = rw (parse_positive, e) refl
parse_positive-ReadsAs s base (some (b, n, [])) e = rw (parse_positive, e) refl
parse_positive-ReadsAs s base (some (b, n, d ∷ ds)) e =
    let same : 0 + n ≡ n = omega arith in
    rw (parse_positive, e, same) (_, _, refl, to_int64-plus (number b 0 (d ∷ ds)))

parse_negative-ReadsAs :
    (s : List ℕ) (base : ℕ) (o : Option (ℕ × ℕ × List ℕ))
    → to_unsigned s base ≡ value_of o
    → ReadsAs true 0 o (parse_negative s base)
unfolding parse_negative
parse_negative-ReadsAs s base none e = rw (parse_negative, e) refl
parse_negative-ReadsAs s base (some (b, n, [])) e = rw (parse_negative, e) refl
parse_negative-ReadsAs s base (some (b, n, d ∷ ds)) e =
    let same : 0 + n ≡ n = omega arith in
    rw (parse_negative, e, same) (_, _, refl, to_int64-minus (number b 0 (d ∷ ds)))

count_sign-ReadsAs :
    (negative : Bool) (o : Option (ℕ × ℕ × List ℕ)) (result : Parsed ℤ)
    → ReadsAs negative 0 o result
    → ReadsAs negative 1 o (count_sign result)
count_sign-ReadsAs negative none result e = rw e refl
count_sign-ReadsAs negative (some (b, n, [])) result e = rw e refl
count_sign-ReadsAs negative (some (b, n, d ∷ ds)) result (value, erange, e, signed) =
    rw e (value, erange, ap (λ m. parsed m value erange) (omega arith), signed)

-- `charstr_to_integer` of a nonempty text reads a sign, for the base 0 the prefix of C's notation, and
-- the longest run of digits of the base. It fails for a base that is neither 0 nor from 2 to 16, and
-- without a digit; otherwise the value is the number if an `int64_t` can hold it, and the number wrapped
-- around to an `int64_t`, with ERANGE, exactly if not.
pub charstr_to_integer-Reads :
    (c : ℕ) (s : List ℕ) (base : ℕ)
    → (let (negative, text, start) = split_sign c s in
        ReadsAs negative start (reading text base) (charstr_to_integer (c ∷ s) base))
unfolding charstr_to_integer
charstr_to_integer-Reads c s base = by_sign (c == b'+') refl (c == b'-') refl
  where
    by_sign :
        (plus : Bool)
        → (c == b'+') ≡ plus
        → (minus : Bool) → (c == b'-') ≡ minus
        → (let (negative, text, start) = split_sign c s in
            ReadsAs negative start (reading text base) (charstr_to_integer (c ∷ s) base))
    by_sign true e minus f = rw e (
        count_sign-ReadsAs false (reading s base) _
          (parse_positive-ReadsAs s base _ (charstr_to_unsigned-value s base)))
    by_sign false e true f =
        rw (e, f)
          (count_sign-ReadsAs true (reading s base) _
            (parse_negative-ReadsAs s base _ (charstr_to_unsigned-value s base)))
    by_sign false e false f =
        rw (e, f) (parse_positive-ReadsAs (c ∷ s) base _ (charstr_to_unsigned-value (c ∷ s) base))
