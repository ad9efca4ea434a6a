-- ===== src/Charstr/Atoms/Strip.antt =====
-- `charstr_strip` of src/charstr.c.

use fsdyn.Prelude.{
  ℕ, ◌≡◌, refl, ap, ◌∙◌, inl, inr, Bool-cases, Bool, true, not, List, [], ◌∷◌, ◌++◌, arith,
}
use fsdyn.Charstr.{is_whitespace}
use fsdyn.Charstr.Atoms.{skip_whitespace, drop_whitespace_end, charstr_strip}
use fsdyn.Charstr.Atoms.Words.{all_white}

-- No white space at the beginning, or at the end.
abbrev pub begins_solid : List ℕ → Bool
begins_solid [] = true
begins_solid (c ∷ s) = not (is_whitespace c)

abbrev pub ends_solid : List ℕ → Bool
ends_solid [] = true
ends_solid (c ∷ []) = not (is_whitespace c)
ends_solid (c ∷ d ∷ s) = ends_solid (d ∷ s)

skip_whitespace-solid :
    (s : List ℕ)
    → (space : List ℕ) × (s ≡ space ++ skip_whitespace s)
      × (all_white space ≡ true)
      × (begins_solid (skip_whitespace s) ≡ true)
unfolding skip_whitespace
skip_whitespace-solid [] = ([], refl, refl, refl)
skip_whitespace-solid (c ∷ s) = elim (Bool-cases (is_whitespace c)) [
  | inl e ↦
      let (space, split, white, solid) = skip_whitespace-solid s in
      (c ∷ space, rw e (ap (λ t. c ∷ t) split), ground (arith, e, white), rw e solid)
  | inr e ↦ ([], rw e refl, refl, rw e (ground (arith, e)))
]

-- The end of a string put off, and what is left.
record IsTrimmed (s t : List ℕ) : Type 0 where
  pub space : List ℕ
  pub split : s ≡ t ++ space
  pub white : all_white space ≡ true
  pub solid : ends_solid t ≡ true

trim-step :
    (c : ℕ) (s t : List ℕ)
    → drop_whitespace_end s ≡ t
    → IsTrimmed s t
    → IsTrimmed (c ∷ s) (drop_whitespace_end (c ∷ s))
unfolding drop_whitespace_end
trim-step c s [] e r = elim (Bool-cases (is_whitespace c)) [
  | inl f ↦
      rw (drop_whitespace_end, e, f)
        (record {
          space = c ∷ r.space;
          split = ap (λ u. c ∷ u) r.split;
          white = ground (arith, f, r.white);
          solid = refl;
        })
  | inr f ↦
      rw (drop_whitespace_end, e, f)
        (record {
          space = r.space;
          split = ap (λ u. c ∷ u) r.split;
          white = r.white;
          solid = ground (arith, f);
        })
]
trim-step c s (d ∷ t) e r =
    rw (drop_whitespace_end, e)
      (record {
        space = r.space;
        split = ap (λ u. c ∷ u) r.split;
        white = r.white;
        solid = r.solid;
      })

drop_whitespace_end-IsTrimmed : (s : List ℕ) → IsTrimmed s (drop_whitespace_end s)
unfolding drop_whitespace_end
drop_whitespace_end-IsTrimmed [] = record { space = []; split = refl; white = refl; solid = refl }
drop_whitespace_end-IsTrimmed (c ∷ s) = trim-step c s _ refl (drop_whitespace_end-IsTrimmed s)

begins-append : (t space : List ℕ) → begins_solid (t ++ space) ≡ true → begins_solid t ≡ true
begins-append [] space h = refl
begins-append (c ∷ t) space h = h

-- `charstr_strip` takes white space off at both ends, and leaves none there.
pub charstr_strip-solid :
    (s : List ℕ)
    → (front back : List ℕ) × (s ≡ front ++ (charstr_strip s ++ back))
      × (all_white front ≡ true)
      × (all_white back ≡ true)
      × (begins_solid (charstr_strip s) ≡ true)
      × (ends_solid (charstr_strip s) ≡ true)
unfolding charstr_strip
charstr_strip-solid s =
    let (front, split, white, solid) = skip_whitespace-solid s in
    let r = drop_whitespace_end-IsTrimmed (skip_whitespace s) in
    (
      front,
      r.space,
      split ∙ ap (λ t. front ++ t) r.split,
      white,
      r.white,
      begins-append (drop_whitespace_end (skip_whitespace s)) r.space (rw r.split at solid),
      r.solid,
    )
