-- ===== src/Charstr/Utf8/Terminated.antt =====
-- `charstr_valid_utf8` of src/charstr.c, beside `charstr_valid_utf8_bounded`.
use fsdyn.Prelude.{
  ℕ, zero, suc, ◌/◌, ◌%◌, ◌≤◌, ◌<◌, ◌≡◌, refl, subst, ap, none, some, ◌>>=◌, Bool, true, false, not,
  ◌==◌, if◌then◌else◌, List, [], ◌∷◌, ◌++◌, length, length-append, arith,
}
use fsdyn.Charstr.Compare.{IsText}
use fsdyn.Charstr.Utf8.{
  valid_unicode, Decoded, continuation, last_continuation, charstr_decode_utf8_codepoint,
  valid_bounded, charstr_valid_utf8_bounded, valid_terminated, charstr_valid_utf8,
}
use fsdyn.Charstr.Utf8.Valid.{Decodes, good, decode-Decodes, IsText-AllBytes, IsText-append}

-- A text with more behind it.
abbrev pub extend : List ℕ → Decoded → Decoded
extend tail none = none
extend tail (some (cp, rest)) = some (cp, rest ++ tail)

continuation-extend :
    (cp : ℕ) (s tail : List ℕ)
    → continuation cp (s ++ 0 ∷ tail) ≡ extend (0 ∷ tail) (continuation cp s)
unfolding continuation
continuation-extend cp [] tail = refl
continuation-extend cp (c ∷ s) tail = ground arith

last_continuation-extend :
    (lowest cp : ℕ) (s tail : List ℕ)
    → last_continuation lowest cp (s ++ 0 ∷ tail)
      ≡ extend (0 ∷ tail) (last_continuation lowest cp s)
unfolding last_continuation
last_continuation-extend lowest cp s tail =
    rw (continuation-extend cp s tail) (by_case (continuation cp s))
  where
    by_case :
        (o : Decoded)
        → (extend (0 ∷ tail) o >>= λ (cp, s).
            if valid_unicode cp lowest then some (cp, s) else none)
          ≡ extend
              (0 ∷ tail)
              (o >>= λ (cp, s). if valid_unicode cp lowest then some (cp, s) else none)
    by_case none = refl
    by_case (some (cp, s)) = ground arith

-- A step that does not look behind a NUL.
bind-extend :
    (o : Decoded) (next : ℕ × List ℕ → Decoded) (tail : List ℕ)
    → ((cp : ℕ) (s : List ℕ) → next (cp, s ++ 0 ∷ tail) ≡ extend (0 ∷ tail) (next (cp, s)))
    → (extend (0 ∷ tail) o >>= next) ≡ extend (0 ∷ tail) (o >>= next)
bind-extend none next tail h = refl
bind-extend (some (cp, s)) next tail h = h cp s

if-extend :
    (b : Bool) (tail : List ℕ) (x y x' y' : Decoded)
    → x' ≡ extend tail x
    → y' ≡ extend tail y
    → (if b then x' else y') ≡ extend tail (if b then x else y)
if-extend true tail x y x' y' e f = e
if-extend false tail x y x' y' e f = f

-- Decoding reads no further than a NUL.
pub decode-extend :
    (c : ℕ) (s tail : List ℕ)
    → charstr_decode_utf8_codepoint (c ∷ (s ++ 0 ∷ tail))
      ≡ extend (0 ∷ tail) (charstr_decode_utf8_codepoint (c ∷ s))
unfolding charstr_decode_utf8_codepoint
decode-extend c s tail = if-extend (c / 0x80 % 2 == 0) (0 ∷ tail) _ _ _ _ refl (
    if-extend (c / 0x40 % 2 == 0) (0 ∷ tail) _ _ _ _ refl (
      if-extend (c / 0x20 % 2 == 0) (0 ∷ tail) _ _ _ _
        (last_continuation-extend 0x80 (c % 0x20) s tail)
        (if-extend (c / 0x10 % 2 == 0) (0 ∷ tail) _ _ _ _ three
          (if-extend (not (c / 0x08 % 2 == 0)) (0 ∷ tail) _ _ _ _ refl four))))
  where
    three :
        ◌≡◌ {A = Decoded}
          (continuation (c % 0x10) (s ++ 0 ∷ tail) >>= λ (cp, s). last_continuation 0x400 cp s)
          (extend
            (0 ∷ tail)
            (continuation (c % 0x10) s >>= λ (cp, s). last_continuation 0x400 cp s))
    three = rw (continuation-extend (c % 0x10) s tail) (
        bind-extend (continuation (c % 0x10) s) _ tail
          (λ cp s. last_continuation-extend 0x400 cp s tail))

    last_two :
        (cp : ℕ) (s : List ℕ)
        → ◌≡◌ {A = Decoded}
            (continuation cp (s ++ 0 ∷ tail) >>= λ (cp, s). last_continuation 0x10000 cp s)
            (extend (0 ∷ tail) (continuation cp s >>= λ (cp, s). last_continuation 0x10000 cp s))
    last_two cp s = rw (continuation-extend cp s tail) (
        bind-extend (continuation cp s) _ tail (λ cp s. last_continuation-extend 0x10000 cp s tail))

    four :
        ◌≡◌ {A = Decoded}
          (continuation (c % 0x08) (s ++ 0 ∷ tail) >>= λ (cp, s).
            continuation cp s >>= λ (cp, s). last_continuation 0x10000 cp s)
          (extend (0 ∷ tail) (
            continuation (c % 0x08) s >>= λ (cp, s).
            continuation cp s >>= λ (cp, s). last_continuation 0x10000 cp s))
    four =
        rw (continuation-extend (c % 0x08) s tail)
          (bind-extend (continuation (c % 0x08) s) _ tail last_two)

terminated-step :
    (c : ℕ) (s tail : List ℕ) (fuel more : ℕ) (o : Decoded)
    → charstr_decode_utf8_codepoint (c ∷ s) ≡ o
    → Decodes (c ∷ s) o
    → IsText (c ∷ s)
    → ((u : List ℕ)
        → IsText u
        → length u ≤ length s
        → valid_terminated more (u ++ 0 ∷ tail) ≡ valid_bounded fuel u)
    → valid_terminated (suc more) (c ∷ (s ++ 0 ∷ tail)) ≡ valid_bounded (suc fuel) (c ∷ s)
unfolding valid_terminated valid_bounded
terminated-step c s tail fuel more none e d h next =
    rw (valid_terminated, valid_bounded, decode-extend c s tail, e) (ground arith)
terminated-step c s tail fuel more (some (cp, rest)) e (good bytes split some_bytes alone enc) h
      next =
    let (first, behind) = IsText-append bytes rest (subst IsText split h) in
    let shorter : length rest ≤ length s =
      omega (arith, ap length split, length-append bytes rest) in
    rw (valid_terminated, valid_bounded, decode-extend c s tail, e, next rest behind shorter)
      (ground arith)

terminated-bounded :
    (s tail : List ℕ) (fuel more : ℕ)
    → IsText s
    → length s ≤ fuel
    → fuel < more
    → valid_terminated more (s ++ 0 ∷ tail) ≡ valid_bounded fuel s
unfolding valid_terminated valid_bounded
terminated-bounded s tail fuel zero h n m = absurd (omega arith)
terminated-bounded [] tail fuel (suc more) h n m = refl
terminated-bounded (c ∷ s) tail zero (suc more) h n m = absurd (omega arith)
terminated-bounded (c ∷ s) tail (suc fuel) (suc more) h n m =
    terminated-step c s tail fuel more _ refl
      (decode-Decodes (c ∷ s) _ (IsText-AllBytes (c ∷ s) h) refl) h
      (λ u g k. terminated-bounded u tail fuel more g (omega arith) (omega arith))

-- On a text that a NUL ends `charstr_valid_utf8` gives what `charstr_valid_utf8_bounded` gives on the
-- text without the NUL, whatever stands behind the NUL.
pub charstr_valid_utf8-bounded :
    (s tail : List ℕ) → IsText s → charstr_valid_utf8 (s ++ 0 ∷ tail) ≡ charstr_valid_utf8_bounded s
unfolding charstr_valid_utf8 charstr_valid_utf8_bounded
charstr_valid_utf8-bounded s tail h =
    terminated-bounded s tail (length s) (length (s ++ 0 ∷ tail)) h (omega arith)
      (omega (arith, length-append s (0 ∷ tail)))
