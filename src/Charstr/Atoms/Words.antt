-- ===== src/Charstr/Atoms/Words.antt =====
-- `charstr_split_atoms` of src/charstr.c against the words of a string.
use fsdyn.Prelude.{
  ℕ, zero, suc, ◌+◌, ◌≤◌, ◌≡◌, refl, sym, ap, subst, ◌∙◌, inl, inr, Bool-cases, Option, some,
  bind-some, Bool, true, false, not, ◌&&◌, List, [], ◌∷◌, ◌++◌, length, length-append, arith,
}
use fsdyn.Charstr.{is_whitespace}
use fsdyn.Charstr.Atoms.{skip_whitespace, take_atom, atoms_loop, charstr_split_atoms}

abbrev pub all_white : List ℕ → Bool
all_white [] = true
all_white (c ∷ s) = is_whitespace c && all_white s

abbrev pub none_white : List ℕ → Bool
none_white [] = true
none_white (c ∷ s) = not (is_whitespace c) && none_white s

-- The string ends here, or white space follows.
abbrev pub at_break : List ℕ → Bool
at_break [] = true
at_break (c ∷ s) = is_whitespace c

-- A string and its words.
pub data HasWords : List ℕ → List (List ℕ) → Type 0 where
  blank : {s : List ℕ} → all_white s ≡ true → HasWords s []
  word :
      {c : ℕ} {rest : List ℕ} {words : List (List ℕ)} (space atom : List ℕ)
      → all_white space ≡ true
      → none_white (c ∷ atom) ≡ true
      → at_break rest ≡ true
      → HasWords rest words
      → HasWords (space ++ (c ∷ atom ++ rest)) ((c ∷ atom) ∷ words)

record IsAtom (p atom rest : List ℕ) : Type 0 where
  pub split : p ≡ atom ++ rest
  pub solid : none_white atom ≡ true
  pub broken : at_break rest ≡ true

take_atom-IsAtom : (p : List ℕ) → IsAtom p ((take_atom p).0) ((take_atom p).1)
unfolding take_atom
take_atom-IsAtom [] = record { split = refl; solid = refl; broken = refl }
take_atom-IsAtom (c ∷ p) = elim (Bool-cases (is_whitespace c)) [
  | inl e ↦ rw e (record { split = refl; solid = refl; broken = e })
  | inr e ↦
      let r = take_atom-IsAtom p in
      rw e (record {
        split = ap (λ t. c ∷ t) r.split;
        solid = ground (arith, e, r.solid);
        broken = r.broken;
      })
]

data Skipped : List ℕ → List ℕ → Type 0 where
  to_end : {s : List ℕ} → all_white s ≡ true → Skipped s []
  to_word :
      {c : ℕ} {p : List ℕ} (space : List ℕ)
      → all_white space ≡ true
      → is_whitespace c ≡ false
      → Skipped (space ++ c ∷ p) (c ∷ p)

Skipped-behind : (c : ℕ) (s t : List ℕ) → is_whitespace c ≡ true → Skipped s t → Skipped (c ∷ s) t
Skipped-behind c s t e (to_end h) = to_end (ground (arith, e, h))
Skipped-behind c s t e (to_word space h g) = to_word (c ∷ space) (ground (arith, e, h)) g

skip_whitespace-Skipped : (s : List ℕ) → Skipped s (skip_whitespace s)
unfolding skip_whitespace
skip_whitespace-Skipped [] = to_end refl
skip_whitespace-Skipped (c ∷ s) = elim (Bool-cases (is_whitespace c)) [
  | inl e ↦ rw e (Skipped-behind c s _ e (skip_whitespace-Skipped s))
  | inr e ↦ rw e (to_word [] refl e)
]

abbrev Answers : List ℕ → Option (List (List ℕ)) → Type 0
Answers s result = (words : List (List ℕ)) × (result ≡ some words) × HasWords s words

word-step :
    (fuel : ℕ) (s t : List ℕ)
    → Skipped s t
    → skip_whitespace s ≡ t
    → length s ≤ suc fuel
    → ((u : List ℕ) → length u ≤ fuel → Answers u (atoms_loop fuel u))
    → Answers s (atoms_loop (suc fuel) s)
unfolding atoms_loop
word-step fuel s t (to_end h) e enough next = ([], rw (atoms_loop, e) refl, blank h)
word-step fuel s t (to_word {c = c} {p = p} space h g) e enough next =
    let (atom, rest) = take_atom p in
    let a = take_atom-IsAtom p in
    let size = length-append space (c ∷ p) in
    let parts : length p ≡ length atom + length rest =
      ap length a.split ∙ length-append atom rest in
    let (words, returns, has) = next rest (omega (arith, size, parts, enough)) in
    (
      (c ∷ atom) ∷ words,
      rw (atoms_loop, e) (bind-some _ _ _ _ returns refl),
      subst (λ q. HasWords (space ++ c ∷ q) ((c ∷ atom) ∷ words)) (sym a.split)
          (word space atom h (ground (arith, g, a.solid)) a.broken has),
    )

atoms_loop-Answers : (fuel : ℕ) (s : List ℕ) → length s ≤ fuel → Answers s (atoms_loop fuel s)
unfolding atoms_loop skip_whitespace
atoms_loop-Answers zero [] h = ([], refl, blank refl)
atoms_loop-Answers zero (c ∷ s) h = absurd (omega arith)
atoms_loop-Answers (suc fuel) s h =
    word-step fuel s _ (skip_whitespace-Skipped s) refl h (λ u g. atoms_loop-Answers fuel u g)

-- `charstr_split_atoms` ends, and gives the words of the string: what lies between them is white space,
-- and they have none.
pub charstr_split_atoms-HasWords :
    (s : List ℕ) → (words : List (List ℕ)) × (charstr_split_atoms s ≡ some words) × HasWords s words
unfolding charstr_split_atoms
charstr_split_atoms-HasWords s = atoms_loop-Answers (length s) s (omega arith)
