-- ===== src/Charstr/Utf8/Verdict.antt =====
-- `charstr_valid_utf8_bounded` of src/charstr.c on any bytes, against UTF-8.
use mathlib.Core.List.{append_assoc}
use mathlib.Core.Option.{some-injective}
use fsdyn.Prelude.{
  AllBytes, ℕ, zero, suc, ◌≤◌, ◌<◌, ◌≡◌, refl, sym, subst, ap, ◌∙◌, ◌↔◌, ◌⊎◌, inl, inr, Option,
  none, some, Bool, true, false, List, [], ◌∷◌, ◌++◌, length, length-append, arith,
}
use fsdyn.Charstr.Utf8.{
  Decoded, charstr_decode_utf8_codepoint, valid_bounded, charstr_valid_utf8_bounded, utf8_bytes,
}
use fsdyn.Charstr.Utf8.RoundTrip.{is_scalar, decode-utf8_bytes}
use fsdyn.Charstr.Utf8.Sound.{overlong}
use fsdyn.Charstr.Utf8.Valid.{
  IsAccepted, nil, cons, overlong-decode, utf8_bytes-pos, AllBytes-append, Decodes, good,
  decode-Decodes, IsAccepted-rest, IsAccepted-ne_none,
}

-- UTF-8: the encodings of scalar values, one behind the other.
pub data IsUtf8 : List ℕ → Type 0 where
  no_more : IsUtf8 []
  one_more :
      {s : List ℕ} {rest : List ℕ} (cp : ℕ)
      → is_scalar cp ≡ true
      → s ≡ utf8_bytes cp ++ rest
      → IsUtf8 rest
      → IsUtf8 s

-- Three bytes for a code point whose encoding has two stand in the text.
abbrev pub HasOverlong : List ℕ → Type 0
HasOverlong s =
    (before : List ℕ) × (cp : ℕ) × (after : List ℕ) × (0x400 ≤ cp)
    × (cp < 0x800)
    × (s ≡ before ++ (overlong cp ++ after))

pub HasOverlong-behind : (xs s : List ℕ) → HasOverlong s → HasOverlong (xs ++ s)
HasOverlong-behind xs s (before, cp, after, lo, hi, e) = (
  xs ++ before,
  cp,
  after,
  lo,
  hi,
  ap (λ t. xs ++ t) e ∙ sym (append_assoc xs before (overlong cp ++ after)),
)

-- UTF-8 is read in one way.
IsUtf8-reads :
    (s : List ℕ) (cp : ℕ) (rest : List ℕ)
    → IsUtf8 s
    → 0 < length s
    → charstr_decode_utf8_codepoint s ≡ some (cp, rest)
    → (s ≡ utf8_bytes cp ++ rest) × IsUtf8 rest
IsUtf8-reads s cp rest no_more h e = absurd (omega arith)
IsUtf8-reads s cp rest (one_more {rest = rest'} cp' v at u) h e =
    let found : charstr_decode_utf8_codepoint s ≡ some (cp', rest') =
      ap charstr_decode_utf8_codepoint at ∙ decode-utf8_bytes cp' rest' v in
    let same : ◌≡◌ {A = ℕ × List ℕ} (cp', rest') (cp, rest) = some-injective _ _ (sym found ∙ e) in
    subst (λ p. (s ≡ utf8_bytes p.0 ++ p.1) × IsUtf8 p.1) same (at, u)

pub IsUtf8-behind :
    (cp : ℕ) (rest : List ℕ) → is_scalar cp ≡ true → IsUtf8 (utf8_bytes cp ++ rest) → IsUtf8 rest
IsUtf8-behind cp rest v u =
    (IsUtf8-reads (utf8_bytes cp ++ rest) cp rest u
      (omega (arith, length-append (utf8_bytes cp) rest, utf8_bytes-pos cp))
      (decode-utf8_bytes cp rest v)).1

pub two-bytes : (cp : ℕ) → 0x400 ≤ cp → cp < 0x800 → length (utf8_bytes cp) ≡ 2
two-bytes cp lo hi = ground arith

pub overlong-IsUtf8 :
    (cp : ℕ) (rest : List ℕ)
    → is_scalar cp ≡ true
    → 0x400 ≤ cp
    → cp < 0x800
    → ¬ IsUtf8 (overlong cp ++ rest)
overlong-IsUtf8 cp rest v lo hi u =
    let (same, behind) =
      IsUtf8-reads (overlong cp ++ rest) cp rest u (omega arith)
        (overlong-decode cp rest v lo hi) in
    omega (arith, ap length same, length-append (utf8_bytes cp) rest, two-bytes cp lo hi)

pub IsUtf8-IsAccepted : (s : List ℕ) → IsUtf8 s → IsAccepted s
IsUtf8-IsAccepted s no_more = nil
IsUtf8-IsAccepted s (one_more {rest = rest} cp v at u) =
    cons {cp = cp} (v, inl at) (IsUtf8-IsAccepted rest u)

-- UTF-8, or not and for an overlong encoding.
abbrev pub Judged : List ℕ → List ℕ → Type 0
Judged q s = IsUtf8 q ⊎ (¬ IsUtf8 q) × HasOverlong s

pub Judged-kept :
    (cp : ℕ) (q s bytes : List ℕ)
    → is_scalar cp ≡ true
    → Judged q s
    → Judged (utf8_bytes cp ++ q) (bytes ++ s)
Judged-kept cp q s bytes v (inl u) = inl (one_more cp v refl u)
Judged-kept cp q s bytes v (inr (never, has)) =
    inr (λ u. never (IsUtf8-behind cp q v u), HasOverlong-behind bytes s has)

accepted-Judged : (s : List ℕ) → IsAccepted s → Judged s s
accepted-Judged s nil = inl no_more
accepted-Judged s (cons {cp = cp} {rest = rest} (v, inl at) u) =
    subst (λ t. Judged t t) (sym at)
      (Judged-kept cp rest rest (utf8_bytes cp) v (accepted-Judged rest u))
accepted-Judged s (cons {cp = cp} {rest = rest} (v, inr (lo, hi, at)) u) =
    subst (λ t. Judged t t) (sym at)
      (inr (overlong-IsUtf8 cp rest v lo hi, ([], cp, rest, lo, hi, refl)))

-- The loop ends with the answer to the question.
abbrev Answers : List ℕ → Option Bool → Type 0
Answers s result = (b : Bool) × (result ≡ some b) × ((b ≡ true) ↔ IsAccepted s)

answer-step :
    (c : ℕ) (s : List ℕ) (fuel : ℕ) (o : Decoded)
    → charstr_decode_utf8_codepoint (c ∷ s) ≡ o
    → Decodes (c ∷ s) o
    → AllBytes (c ∷ s)
    → ((u : List ℕ) → AllBytes u → length u ≤ length s → Answers u (valid_bounded fuel u))
    → Answers (c ∷ s) (valid_bounded (suc fuel) (c ∷ s))
unfolding valid_bounded
answer-step c s fuel none e d h next =
    rw (valid_bounded, e)
      (false, refl, (λ f. ground arith, λ u. IsAccepted-ne_none (c ∷ s) u (omega arith) e))
answer-step c s fuel (some (cp, rest)) e (good bytes split some_bytes alone enc) h next =
    let (first, behind) = AllBytes-append bytes rest (subst AllBytes split h) in
    let (b, returns, (to, from)) =
      next rest behind (omega (arith, ap length split, length-append bytes rest)) in
    rw (valid_bounded, e)
      (
        b,
        returns,
        (λ f. cons enc (to f), λ u. from (IsAccepted-rest (c ∷ s) cp rest u (omega arith) e)),
      )

valid_bounded-Answers :
    (fuel : ℕ) (s : List ℕ) → AllBytes s → length s ≤ fuel → Answers s (valid_bounded fuel s)
unfolding valid_bounded
valid_bounded-Answers fuel [] h n = (true, refl, (λ e. nil, λ u. refl))
valid_bounded-Answers zero (c ∷ s) h n = absurd (omega arith)
valid_bounded-Answers (suc fuel) (c ∷ s) h n =
    answer-step c s fuel _ refl (decode-Decodes (c ∷ s) _ h refl) h
      (λ u g m. valid_bounded-Answers fuel u g (omega arith))

abbrev pub Verdict : Bool → List ℕ → Type 0
Verdict b s =
    (b ≡ true) × IsUtf8 s ⊎ (b ≡ true) × (¬ IsUtf8 s) × HasOverlong s ⊎ (b ≡ false) × (¬ IsUtf8 s)

verdict_lem : (b : Bool) (s : List ℕ) → (b ≡ true) ↔ IsAccepted s → Verdict b s
verdict_lem true s (to, from) = elim (accepted-Judged s (to refl)) [
  | inl u ↦ inl (refl, u)
  | inr (never, has) ↦ inr (inl (refl, never, has))
]
verdict_lem false s (to, from) =
    inr (inr (refl, λ u. let answer = from (IsUtf8-IsAccepted s u) in cc))

-- On any bytes `charstr_valid_utf8_bounded` ends. It returns true on UTF-8, and false on what is not
-- UTF-8 but for some texts with an overlong encoding: it returns true exactly on the texts made of
-- encodings and of three bytes for code points from 0x400 to 0x7ff, and those that have such three bytes
-- for an encoding are not UTF-8.
pub charstr_valid_utf8_bounded-Answers :
    (s : List ℕ)
    → AllBytes s
    → (b : Bool) × (charstr_valid_utf8_bounded s ≡ some b)
      × ((b ≡ true) ↔ IsAccepted s)
      × Verdict b s
unfolding charstr_valid_utf8_bounded
charstr_valid_utf8_bounded-Answers s h =
    let (b, returns, (to, from)) = valid_bounded-Answers (length s) s h (omega arith) in
    (b, returns, (to, from), verdict_lem b s (to, from))
