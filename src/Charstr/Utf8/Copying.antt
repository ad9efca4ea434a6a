-- ===== src/Charstr/Utf8/Copying.antt =====
-- The two loops of `charstr_sanitize_utf8` of src/charstr.c.
use mathlib.Core.List.{append_assoc}
use fsdyn.Prelude.{
  ℕ, zero, suc, ◌+◌, ◌-◌, ◌*◌, ◌≤◌, ◌<◌, ◌≡◌, refl, sym, subst, ap, ◌∙◌, none, some, List, [], ◌∷◌,
  ◌++◌, length, length-append, take, take-append, arith,
}
use fsdyn.Charstr.Compare.{IsText}
use fsdyn.Charstr.Utf8.{
  Decoded, charstr_decode_utf8_codepoint, count_bad, replacement_character, write_sane,
}
use fsdyn.Charstr.Utf8.Sound.{Encodes, none-ne-some}
use fsdyn.Charstr.Utf8.Terminated.{decode-extend}
use fsdyn.Charstr.Utf8.Valid.{
  Decodes, good, decode-Decodes, Encodes-decode, IsText-append, IsText-AllBytes,
}

-- What a sanitizer makes of a text: what `Encodes` describes, an encoding or three bytes for a code
-- point from 0x400 to 0x7ff, is kept, and a byte that begins no such thing is replaced.
pub data Sanitizes : List ℕ → List ℕ → Type 0 where
  done : Sanitizes [] []
  keep :
      {rest : List ℕ} {q : List ℕ} (bytes : List ℕ) (cp : ℕ)
      → Encodes (bytes ++ rest) cp rest
      → Encodes (bytes ++ q) cp q
      → Sanitizes rest q
      → Sanitizes (bytes ++ rest) (bytes ++ q)
  replace :
      {c : ℕ} {s : List ℕ} {q : List ℕ}
      → ((cp : ℕ) (rest : List ℕ) → ¬ Encodes (c ∷ s) cp rest)
      → Sanitizes s q
      → Sanitizes (c ∷ s) (replacement_character ++ q)

-- What the two loops do on a text with a NUL behind.
pub record IsSanitized (fuel : ℕ) (s tail : List ℕ) : Type 0 where
  pub bad : ℕ
  pub q : List ℕ
  pub counted : count_bad fuel (s ++ 0 ∷ tail) ≡ some (length s, bad)
  pub written : write_sane fuel (s ++ 0 ∷ tail) ≡ some (q ++ 0 ∷ [])
  pub room : length q ≡ length s + bad * 2
  pub sane : Sanitizes s q

sanitize-nil : (fuel : ℕ) (tail : List ℕ) → IsSanitized (suc fuel) [] tail
unfolding count_bad write_sane
sanitize-nil fuel tail = record {
  bad = 0;
  q = [];
  counted = refl;
  written = refl;
  room = refl;
  sane = done;
}

sanitize-bad :
    (fuel c : ℕ) (s tail : List ℕ)
    → 0 < c
    → charstr_decode_utf8_codepoint (c ∷ s) ≡ none
    → IsSanitized fuel s tail
    → IsSanitized (suc fuel) (c ∷ s) tail
unfolding count_bad write_sane
sanitize-bad fuel c s tail pos e r = record {
  bad = r.bad + 1;
  q = replacement_character ++ r.q;
  counted = rw (count_bad, decode-extend c s tail, e, r.counted) (ground arith);
  written = rw (write_sane, decode-extend c s tail, e, r.written) (ground arith);
  room = omega (arith, r.room);
  sane =
      replace (λ cp rest enc. none-ne-some (cp, rest) (sym e ∙ Encodes-decode (c ∷ s) cp rest enc))
        r.sane;
}

-- The inner loop copies the encoding.
copied :
    (s bytes rest t : List ℕ)
    → s ≡ bytes ++ rest
    → take (length (s ++ t) - length (rest ++ t)) (s ++ t) ≡ bytes
copied s bytes rest t split =
    let size : length (s ++ t) - length (rest ++ t) ≡ length bytes =
      omega (
        arith,
        ap length split,
        length-append s t,
        length-append bytes rest,
        length-append rest t,
      ) in
    rw (size, split, append_assoc bytes rest t) (take-append bytes (rest ++ t))

sanitize-good :
    (fuel c : ℕ) (s tail : List ℕ) (cp : ℕ) (rest bytes : List ℕ)
    → 0 < c
    → charstr_decode_utf8_codepoint (c ∷ s) ≡ some (cp, rest)
    → c ∷ s ≡ bytes ++ rest
    → ((q : List ℕ) → Encodes (bytes ++ q) cp q)
    → IsSanitized fuel rest tail
    → IsSanitized (suc fuel) (c ∷ s) tail
unfolding count_bad write_sane
sanitize-good fuel c s tail cp rest bytes pos e split alone r =
    let size : length rest + (length (c ∷ (s ++ 0 ∷ tail)) - length (rest ++ 0 ∷ tail))
        ≡ suc (length s) =
      omega (
        arith,
        ap length split,
        length-append s (0 ∷ tail),
        length-append bytes rest,
        length-append rest (0 ∷ tail),
      ) in
    record {
      bad = r.bad;
      q = bytes ++ r.q;
      counted = rw (count_bad, decode-extend c s tail, e, r.counted, size) (ground arith);
      written =
          rw
            (
              write_sane,
              decode-extend c s tail,
              e,
              r.written,
              copied (c ∷ s) bytes rest (0 ∷ tail) split,
            )
            (rw (append_assoc bytes r.q (0 ∷ [])) (ground arith));
      room =
          omega (arith, r.room, length-append bytes r.q, length-append bytes rest, ap length split);
      sane =
          subst (λ t. Sanitizes t (bytes ++ r.q)) (sym split)
            (keep bytes cp (alone rest) (alone r.q) r.sane);
    }

sanitize-step :
    (fuel c : ℕ) (s tail : List ℕ) (o : Decoded)
    → charstr_decode_utf8_codepoint (c ∷ s) ≡ o
    → Decodes (c ∷ s) o
    → IsText (c ∷ s)
    → ((u : List ℕ) → IsText u → length u ≤ length s → IsSanitized fuel u tail)
    → IsSanitized (suc fuel) (c ∷ s) tail
sanitize-step fuel c s tail none e d h next =
    sanitize-bad fuel c s tail h.0 e (next s h.2 (omega arith))
sanitize-step fuel c s tail (some (cp, rest)) e (good bytes split pos alone enc) h next =
    let (first, behind) = IsText-append bytes rest (subst IsText split h) in
    let shorter : length rest ≤ length s =
      omega (arith, ap length split, length-append bytes rest) in
    sanitize-good fuel c s tail cp rest bytes h.0 e split alone (next rest behind shorter)

pub sanitized : (fuel : ℕ) (s tail : List ℕ) → IsText s → length s < fuel → IsSanitized fuel s tail
sanitized zero s tail h n = absurd (omega arith)
sanitized (suc fuel) [] tail h n = sanitize-nil fuel tail
sanitized (suc fuel) (c ∷ s) tail h n =
    sanitize-step fuel c s tail _ refl (decode-Decodes (c ∷ s) _ (IsText-AllBytes (c ∷ s) h) refl) h
      (λ u g k. sanitized fuel u tail g (omega arith))
