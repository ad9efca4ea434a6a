-- ===== src/Charstr/Utf8/Sanitize.antt =====
-- `charstr_sanitize_utf8` of src/charstr.c.

use fsdyn.Prelude.{
  ◌⊎◌, inr, Bool-cases, ℕ, ◌+◌, ◌*◌, ◌≤◌, ◌<◌, ◌≡◌, refl, sym, subst, ap, inl, some, List, [], ◌∷◌,
  ◌++◌, length, length-append, arith,
}
use fsdyn.Charstr.Compare.{IsText}
use fsdyn.Charstr.Utf8.{replacement_character, charstr_sanitize_utf8, valid_unicode, utf8_bytes}
use fsdyn.Charstr.Utf8.Sound.{Encodes, overlong}
use fsdyn.Charstr.Utf8.Verdict.{
  charstr_valid_utf8_bounded-Answers, IsUtf8, no_more, HasOverlong, two-bytes, Judged, Judged-kept,
  overlong-IsUtf8,
}
use fsdyn.Charstr.Utf8.Valid.{
  IsAccepted, nil, cons, Encodes-bytes, Encodes-decode, IsText-AllBytes, IsAccepted-rest,
}
use fsdyn.Charstr.Utf8.Copying.{Sanitizes, done, keep, replace, sanitized}

replacement-Encodes : (q : List ℕ) → Encodes (replacement_character ++ q) 0xfffd q
unfolding valid_unicode
replacement-Encodes q = (refl, inl refl)

Sanitizes-IsAccepted : (s q : List ℕ) → Sanitizes s q → IsAccepted q
Sanitizes-IsAccepted s q done = nil
Sanitizes-IsAccepted s q (keep bytes cp before after r) = cons after (Sanitizes-IsAccepted _ _ r)
Sanitizes-IsAccepted s q (replace {q = q'} none_begins r) =
    cons (replacement-Encodes q') (Sanitizes-IsAccepted _ _ r)

Sanitizes-eq : (s q : List ℕ) → Sanitizes s q → IsAccepted s → q ≡ s
Sanitizes-eq s q done u = refl
Sanitizes-eq s q (keep {rest = rest} {q = q'} bytes cp before after r) u =
    let (bytes', split, pos, alone) = Encodes-bytes (bytes ++ rest) cp rest before in
    let long : 0 < length (bytes ++ rest) =
      omega (arith, ap length split, length-append bytes' rest) in
    ap (λ t. bytes ++ t)
      (Sanitizes-eq rest q' r (
        IsAccepted-rest (bytes ++ rest) cp rest u long
          (Encodes-decode (bytes ++ rest) cp rest before)))
Sanitizes-eq s q (replace none_begins r) (cons {cp = cp} {rest = rest} enc u) =
    absurd (none_begins cp rest enc)

copies_or_not : (s q : List ℕ) → IsText s → Sanitizes s q → (q ≡ s) ⊎ (¬ IsAccepted s)
copies_or_not s q h r =
    let (b, returns, (to, from), verdict) =
      charstr_valid_utf8_bounded-Answers s (IsText-AllBytes s h) in
    elim (Bool-cases b) [
      | inl e ↦ inl (Sanitizes-eq s q r (to e))
      | inr e ↦ inr (λ u. let answer = from u in cc)
    ]

overlong-before :
    (cp : ℕ) (bytes rest q : List ℕ)
    → 0x400 ≤ cp
    → cp < 0x800
    → bytes ++ q ≡ overlong cp ++ q
    → Encodes (bytes ++ rest) cp rest
    → HasOverlong (bytes ++ rest)
overlong-before cp bytes rest q lo hi at (v, inl short) = absurd (
    omega (
      arith,
      ap length at,
      ap length short,
      length-append bytes q,
      length-append bytes rest,
      length-append (utf8_bytes cp) rest,
      two-bytes cp lo hi,
    ))
overlong-before cp bytes rest q lo hi at (v, inr (lo', hi', long)) = ([], cp, rest, lo, hi, long)

-- What is written is UTF-8, or the string had an overlong encoding, which is kept.
Sanitizes-Judged : (s q : List ℕ) → Sanitizes s q → Judged q s
Sanitizes-Judged s q done = inl no_more
Sanitizes-Judged s q (keep {rest = rest} {q = q'} bytes cp before (v, inl at) r) =
    subst (λ t. Judged t (bytes ++ rest)) (sym at)
      (Judged-kept cp q' rest bytes v (Sanitizes-Judged rest q' r))
Sanitizes-Judged s q (keep {rest = rest} {q = q'} bytes cp before (v, inr (lo, hi, at)) r) = inr (
  subst (λ t. ¬ IsUtf8 t) (sym at) (overlong-IsUtf8 cp q' v lo hi),
  overlong-before cp bytes rest q' lo hi at before,
)
Sanitizes-Judged s q (replace {c = c} {s = s'} {q = q'} none_begins r) =
    Judged-kept 0xfffd q' s' (c ∷ []) ((replacement-Encodes q').0) (Sanitizes-Judged s' q' r)

-- On a C string, whatever stands behind its NUL, `charstr_sanitize_utf8` ends and writes a text and a
-- NUL, as many bytes as it has allocated. An encoding in the string is kept, and so are three bytes for
-- a code point from 0x400 to 0x7ff, which are overlong; every byte that begins neither becomes U+FFFD.
-- A string that is made of these two alone is copied. The text is UTF-8, except that it is not UTF-8
-- for some strings that have an overlong encoding.
pub charstr_sanitize_utf8-Sanitizes :
    (s tail : List ℕ)
    → IsText s
    → (q : List ℕ) × (charstr_sanitize_utf8 (s ++ 0 ∷ tail)
        ≡ some (length (q ++ 0 ∷ []), q ++ 0 ∷ []))
      × Sanitizes s q
      × IsAccepted q
      × ((q ≡ s) ⊎ (¬ IsAccepted s))
      × Judged q s
unfolding charstr_sanitize_utf8
charstr_sanitize_utf8-Sanitizes s tail h =
    let r =
      sanitized (length (s ++ 0 ∷ tail)) s tail h (omega (arith, length-append s (0 ∷ tail))) in
    let size : length s + r.bad * 2 + 1 ≡ length (r.q ++ 0 ∷ []) =
      omega (arith, r.room, length-append r.q (0 ∷ [])) in
    (
      r.q,
      rw (charstr_sanitize_utf8, r.counted, r.written) (ap (λ n. some (n, r.q ++ 0 ∷ [])) size),
      r.sane,
      Sanitizes-IsAccepted s r.q r.sane,
      copies_or_not s r.q h r.sane,
      Sanitizes-Judged s r.q r.sane,
    )
