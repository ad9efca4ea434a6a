-- ===== src/Charstr/Prefix.antt =====
-- The tests for prefixes and suffixes of src/charstr.c.
use mathlib.Core.Option.{some-injective}
use fsdyn.Prelude.{
  ℕ, ◌-◌, ◌≡◌, refl, sym, ap, ◌∙◌, ◌↔◌, none, some, true, false, ltb, List, [], ◌∷◌, ◌++◌, length,
  length-append, drop, take, take-append-drop, arith,
}
use fsdyn.Charstr.{
  charstr_lcase_str, charstr_skip_prefix, charstr_case_skip_prefix, same, charstr_ends_with,
}

skip_prefix-append :
    (s prefix rest : List ℕ) → charstr_skip_prefix s prefix ≡ some rest → s ≡ prefix ++ rest
unfolding charstr_skip_prefix
skip_prefix-append s [] rest e = some-injective _ _ e
skip_prefix-append [] (p ∷ prefix) rest e = cc
skip_prefix-append (c ∷ s) (p ∷ prefix) rest e = ground (arith, skip_prefix-append s prefix rest)

skip_prefix_of_append :
    (prefix rest : List ℕ) → charstr_skip_prefix (prefix ++ rest) prefix ≡ some rest
unfolding charstr_skip_prefix
skip_prefix_of_append [] rest = refl
skip_prefix_of_append (p ∷ prefix) rest = ground (arith, skip_prefix_of_append prefix rest)

-- `charstr_skip_prefix` gives the rest of the string exactly if the string begins with the prefix.
charstr_skip_prefix_iff :
    (s prefix rest : List ℕ) → (charstr_skip_prefix s prefix ≡ some rest) ↔ (s ≡ prefix ++ rest)
charstr_skip_prefix_iff s prefix rest =
    (skip_prefix-append s prefix rest, λ e. rw e (skip_prefix_of_append prefix rest))

-- Ignoring case is to look for the prefix in lower case: where it is found, what is left is the same.
charstr_case_skip_prefix-lcase :
    (s prefix : List ℕ)
    → charstr_skip_prefix (charstr_lcase_str s) (charstr_lcase_str prefix)
      ≡ (elim (charstr_case_skip_prefix s prefix) [
        | none ↦ none
        | some rest ↦ some (charstr_lcase_str rest)
      ])
unfolding charstr_skip_prefix charstr_case_skip_prefix
charstr_case_skip_prefix-lcase s [] = refl
charstr_case_skip_prefix-lcase [] (p ∷ prefix) = refl
charstr_case_skip_prefix-lcase (c ∷ s) (p ∷ prefix) =
    ground (arith, charstr_case_skip_prefix-lcase s prefix)

pub same_iff : (a b : List ℕ) → (same a b ≡ true) ↔ (a ≡ b)
same_iff [] [] = ground arith
same_iff [] (d ∷ b) = ground arith
same_iff (c ∷ a) [] = ground arith
same_iff (c ∷ a) (d ∷ b) = ground (arith, same_iff a b)

drop-append : (p s : List ℕ) → drop (length p) (p ++ s) ≡ s
drop-append [] s = refl
drop-append (c ∷ p) s = drop-append p s

ends_with-append :
    (s suffix : List ℕ) → charstr_ends_with s suffix ≡ true → (p : List ℕ) × (s ≡ p ++ suffix)
unfolding charstr_ends_with
ends_with-append s suffix e =
    let n = length s - length suffix in
    (
      take n s,
      sym (take-append-drop n s)
          ∙ ap (λ r. take n s ++ r) ((same_iff (drop n s) suffix).0 (ground arith)),
    )

ends_with_of_append : (p suffix : List ℕ) → charstr_ends_with (p ++ suffix) suffix ≡ true
unfolding charstr_ends_with
ends_with_of_append p suffix =
    let total = length-append p suffix in
    let fits : ltb (length (p ++ suffix)) (length suffix) ≡ false = ground (arith, total) in
    let start : length (p ++ suffix) - length suffix ≡ length p = omega (arith, total) in
    rw (fits, start, drop-append p suffix) ((same_iff suffix suffix).1 refl)

-- `charstr_ends_with` holds exactly if the string is some beginning followed by the suffix.
charstr_ends_with_iff :
    (s suffix : List ℕ) → (charstr_ends_with s suffix ≡ true) ↔ ((p : List ℕ) × (s ≡ p ++ suffix))
charstr_ends_with_iff s suffix =
    (ends_with-append s suffix, λ (p, e). rw e (ends_with_of_append p suffix))

-- `charstr_skip_prefix` gives the rest of the string exactly if the string begins with the prefix.
-- Ignoring case is to look for the prefix in lower case: where it is found, what is left is the same.
-- `charstr_ends_with` holds exactly if the string is some beginning followed by the suffix.
pub prefixes_and_suffixes :
    (s part rest : List ℕ)
    → ((charstr_skip_prefix s part ≡ some rest) ↔ (s ≡ part ++ rest))
      × (charstr_skip_prefix (charstr_lcase_str s) (charstr_lcase_str part)
          ≡ (elim (charstr_case_skip_prefix s part) [
            | none ↦ none
            | some rest ↦ some (charstr_lcase_str rest)
          ]))
      × ((charstr_ends_with s part ≡ true) ↔ ((p : List ℕ) × (s ≡ p ++ part)))
prefixes_and_suffixes s part rest = (
  charstr_skip_prefix_iff s part rest,
  charstr_case_skip_prefix-lcase s part,
  charstr_ends_with_iff s part,
)
