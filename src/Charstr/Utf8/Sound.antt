-- ===== src/Charstr/Utf8/Sound.antt =====
-- What `charstr_decode_utf8_codepoint` of src/charstr.c accepts.
use mathlib.Core.Option.{some-injective}
use fsdyn.Prelude.{
  AllBytes, ℕ, ◌+◌, ◌*◌, ◌/◌, ◌%◌, ◌^◌, ◌≤◌, ◌<◌, ◌≡◌, refl, sym, subst, ap, ◌∙◌, ◌⊎◌, inl, inr,
  Bool-cases, none, some, ◌>>=◌, bind-eq-some, Bool, true, false, ltb, ◌==◌, if◌then◌else◌, List,
  [], ◌∷◌, ◌++◌, arith,
}
use fsdyn.Charstr.Utf8.{
  valid_unicode, continuation, last_continuation, charstr_decode_utf8_codepoint, byte_80,
  utf8_bytes,
}
use fsdyn.Charstr.Utf8.RoundTrip.{
  is_scalar, scalar-limit, bytes-one, bytes-two, bytes-three, bytes-four,
}

-- A continuation byte in the text `s`, with the bits `x` and the text `rest` behind it.
record IsContinued (cp : ℕ) (s : List ℕ) (cp' : ℕ) (rest : List ℕ) : Type 0 where
  pub x : ℕ
  pub small : x < 2 ^ 6
  pub text : s ≡ byte_80 x ∷ rest
  pub value : cp' ≡ cp * 2 ^ 6 + x
  pub bytes : AllBytes rest

continuation-IsContinued :
    (cp : ℕ) (s : List ℕ) (cp' : ℕ) (rest : List ℕ)
    → AllBytes s
    → continuation cp s ≡ some (cp', rest)
    → IsContinued cp s cp' rest
unfolding continuation
continuation-IsContinued cp [] cp' rest h e = cc
continuation-IsContinued cp (c ∷ s) cp' rest h e = elim (Bool-cases (c / 2 ^ 6 % 4 == 2)) [
  | inl f ↦
      let same : ◌≡◌ {A = ℕ × List ℕ} (cp * 2 ^ 6 + c % 2 ^ 6, s) (cp', rest) =
        some-injective _ _ (rw f at e) in
      let whole : c ≡ byte_80 (c % 2 ^ 6) = ground (arith, f) in
      let left = ap (λ p. p.1) same in
      record {
        x = c % 2 ^ 6;
        small = omega arith;
        text = ap (λ d. d ∷ s) whole ∙ ap (λ r. byte_80 (c % 2 ^ 6) ∷ r) left;
        value = sym (ap (λ p. p.0) same);
        bytes = subst AllBytes left h.1;
      }
  | inr f ↦ ground (arith, f)
]

if-some {ℓ} :
    {A : Type ℓ} (b : Bool) (p q : A) → (if b then some p else none) ≡ some q → (b ≡ true) × (p ≡ q)
if-some true p q e = (refl, some-injective p q e)
if-some false p q e = cc

last_continuation-IsContinued :
    (lowest cp : ℕ) (s : List ℕ) (cp' : ℕ) (rest : List ℕ)
    → AllBytes s
    → last_continuation lowest cp s ≡ some (cp', rest)
    → IsContinued cp s cp' rest × (valid_unicode cp' lowest ≡ true)
unfolding last_continuation
last_continuation-IsContinued lowest cp s cp' rest h e =
    let (found, f, g) = bind-eq-some (continuation cp s) _ _ e in
    let (v, same) = if-some (valid_unicode found.0 lowest) found (cp', rest) g in
    subst (λ p. IsContinued cp s p.0 p.1 × (valid_unicode p.0 lowest ≡ true)) same
      (continuation-IsContinued cp s found.0 found.1 h f, v)

-- The three bytes of a code point from 0x400 to 0x7ff, which has an encoding of two bytes.
abbrev pub overlong : ℕ → List ℕ
overlong cp = (0xe0 + cp / 2 ^ 12) ∷ byte_80 (cp / 2 ^ 6) ∷ byte_80 cp ∷ []

-- The text begins with an encoding of the code point.
abbrev pub Encodes : List ℕ → ℕ → List ℕ → Type 0
Encodes s cp rest =
    (is_scalar cp ≡ true)
    × ((s ≡ utf8_bytes cp ++ rest) ⊎ (0x400 ≤ cp) × (cp < 0x800) × (s ≡ overlong cp ++ rest))

scalar_of_valid :
    (cp lowest : ℕ) → valid_unicode cp lowest ≡ true → (is_scalar cp ≡ true) × (lowest ≤ cp)
unfolding valid_unicode
scalar_of_valid cp lowest v = (ground arith, ground arith)

byte_80-low : (n x : ℕ) → x < 2 ^ 6 → byte_80 (n * 2 ^ 6 + x) ≡ byte_80 x
byte_80-low n x h = omega arith

two-Encodes :
    (x : ℕ) (s : List ℕ) (cp : ℕ) (rest : List ℕ)
    → x < 0x20
    → AllBytes s
    → last_continuation 0x80 x s ≡ some (cp, rest)
    → Encodes ((0xc0 + x) ∷ s) cp rest
two-Encodes x s cp rest hx h e =
    let (i, v) = last_continuation-IsContinued 0x80 x s cp rest h e in
    let (scalar, lo) = scalar_of_valid cp 0x80 v in
    let value = i.value in
    let small = i.small in
    let top : cp / 2 ^ 6 ≡ x = omega arith in
    let low : byte_80 cp ≡ byte_80 i.x = ap byte_80 value ∙ byte_80-low x i.x small in
    (scalar, inl (rw (bytes-two cp lo (omega arith), top, low) (ap (◌∷◌ (0xc0 + x)) i.text)))

three-Encodes :
    (x : ℕ) (s : List ℕ) (cp : ℕ) (rest : List ℕ)
    → x < 0x10
    → AllBytes s
    → (continuation x s >>= λ (cp, s). last_continuation 0x400 cp s) ≡ some (cp, rest)
    → Encodes ((0xe0 + x) ∷ s) cp rest
three-Encodes x s cp rest hx h e =
    let (found, f, g) = bind-eq-some (continuation x s) _ _ e in
    let j = continuation-IsContinued x s found.0 found.1 h f in
    let (i, v) = last_continuation-IsContinued 0x400 found.0 found.1 cp rest j.bytes g in
    let (scalar, lo) = scalar_of_valid cp 0x400 v in
    let v1 = j.value in
    let v2 = i.value in
    let s1 = j.small in
    let s2 = i.small in
    let top : cp / 2 ^ 12 ≡ x = omega arith in
    let next : cp / 2 ^ 6 ≡ found.0 = omega arith in
    let mid : byte_80 (cp / 2 ^ 6) ≡ byte_80 j.x = ap byte_80 (next ∙ v1) ∙ byte_80-low x j.x s1 in
    let low : byte_80 cp ≡ byte_80 i.x = ap byte_80 v2 ∙ byte_80-low found.0 i.x s2 in
    let text : (0xe0 + x) ∷ s ≡ overlong cp ++ rest =
      rw (top, mid, low) (ap (◌∷◌ (0xe0 + x)) (j.text ∙ ap (◌∷◌ (byte_80 j.x)) i.text)) in
    (
      scalar,
      elim (Bool-cases (ltb cp 0x800)) [
        | inl short ↦ inr (lo, ground (arith, short), text)
        | inr long ↦ inl (rw (bytes-three cp (ground (arith, long)) (omega arith)) text)
      ],
    )

four-Encodes :
    (x : ℕ) (s : List ℕ) (cp : ℕ) (rest : List ℕ)
    → x < 0x08
    → AllBytes s
    → (continuation x s >>= λ (cp, s).
        continuation cp s >>= λ (cp, s). last_continuation 0x10000 cp s)
      ≡ some (cp, rest)
    → Encodes ((0xf0 + x) ∷ s) cp rest
four-Encodes x s cp rest hx h e =
    let (first, f, g) = bind-eq-some (continuation x s) _ _ e in
    let k = continuation-IsContinued x s first.0 first.1 h f in
    let (second, f', g') = bind-eq-some (continuation first.0 first.1) _ _ g in
    let j = continuation-IsContinued first.0 first.1 second.0 second.1 k.bytes f' in
    let (i, v) = last_continuation-IsContinued 0x10000 second.0 second.1 cp rest j.bytes g' in
    let (scalar, lo) = scalar_of_valid cp 0x10000 v in
    let v1 = k.value in
    let v2 = j.value in
    let v3 = i.value in
    let s1 = k.small in
    let s2 = j.small in
    let s3 = i.small in
    let limit = scalar-limit cp scalar in
    let n2 : cp / 2 ^ 6 ≡ second.0 = omega arith in
    let n1 : cp / 2 ^ 12 ≡ first.0 = omega arith in
    let top : cp / 2 ^ 18 ≡ x = omega arith in
    let b1 : byte_80 (cp / 2 ^ 12) ≡ byte_80 k.x = ap byte_80 (n1 ∙ v1) ∙ byte_80-low x k.x s1 in
    let b2 : byte_80 (cp / 2 ^ 6) ≡ byte_80 j.x =
      ap byte_80 (n2 ∙ v2) ∙ byte_80-low first.0 j.x s2 in
    let b3 : byte_80 cp ≡ byte_80 i.x = ap byte_80 v3 ∙ byte_80-low second.0 i.x s3 in
    let tail : s ≡ byte_80 k.x ∷ byte_80 j.x ∷ byte_80 i.x ∷ rest =
      k.text ∙ ap (◌∷◌ (byte_80 k.x)) (j.text ∙ ap (◌∷◌ (byte_80 j.x)) i.text) in
    (scalar, inl (rw (bytes-four cp lo limit, top, b1, b2, b3) (ap (◌∷◌ (0xf0 + x)) tail)))

pub one-Encodes : (c : ℕ) (s : List ℕ) → c < 0x80 → Encodes (c ∷ s) c s
unfolding valid_unicode
one-Encodes c s h = (ground arith, inl (rw (bytes-one c h) refl))

heads-lt : (c : ℕ) → (c % 0x20 < 0x20) × (c % 0x10 < 0x10) × (c % 0x08 < 0x08)
heads-lt c = (omega arith, omega arith, omega arith)

pub none-ne-some {ℓ} : {A : Type ℓ} {B : Type 0} (a : A) → none ≡ some a → B
none-ne-some a e = cc

-- A first byte taken apart.
Encodes-head :
    (c d : ℕ) (s : List ℕ) (cp : ℕ) (rest : List ℕ)
    → c ≡ d
    → Encodes (d ∷ s) cp rest
    → Encodes (c ∷ s) cp rest
Encodes-head c d s cp rest e h = subst (λ b. Encodes (b ∷ s) cp rest) {x = d} {y = c} (sym e) h

head-two :
    (c : ℕ)
    → (c / 0x80 % 2 == 0) ≡ false
    → (c / 0x40 % 2 == 0) ≡ false
    → (c / 0x20 % 2 == 0) ≡ true
    → c < 256
    → c ≡ 0xc0 + c % 0x20
head-two c e7 e6 e5 h = ground arith

head-three :
    (c : ℕ)
    → (c / 0x80 % 2 == 0) ≡ false
    → (c / 0x40 % 2 == 0) ≡ false
    → (c / 0x20 % 2 == 0) ≡ false
    → (c / 0x10 % 2 == 0) ≡ true
    → c < 256
    → c ≡ 0xe0 + c % 0x10
head-three c e7 e6 e5 e4 h = ground arith

head-four :
    (c : ℕ)
    → (c / 0x80 % 2 == 0) ≡ false
    → (c / 0x40 % 2 == 0) ≡ false
    → (c / 0x20 % 2 == 0) ≡ false
    → (c / 0x10 % 2 == 0) ≡ false
    → (c / 0x08 % 2 == 0) ≡ true
    → c < 256
    → c ≡ 0xf0 + c % 0x08
head-four c e7 e6 e5 e4 e3 h = ground arith

head-one : (c : ℕ) → (c / 0x80 % 2 == 0) ≡ true → c < 256 → (c < 0x80) × (c % 0x80 ≡ c)
head-one c e7 h = (ground arith, ground arith)

-- Decoding bytes gives NULL, or a scalar value whose encoding the bytes begin with; only the values
-- from 0x400 to 0x7ff are read from three bytes as well as from two.
pub decode-Encodes :
    (s : List ℕ) (cp : ℕ) (rest : List ℕ)
    → AllBytes s
    → charstr_decode_utf8_codepoint s ≡ some (cp, rest)
    → Encodes s cp rest
unfolding charstr_decode_utf8_codepoint
decode-Encodes [] cp rest h e = cc
decode-Encodes (c ∷ s) cp rest h e =
    by_bits (c / 0x80 % 2 == 0) refl (c / 0x40 % 2 == 0) refl (c / 0x20 % 2 == 0) refl
      (c / 0x10 % 2 == 0) refl (c / 0x08 % 2 == 0) refl
  where
    by_bits :
        (b7 : Bool)
        → (c / 0x80 % 2 == 0) ≡ b7
        → (b6 : Bool) → (c / 0x40 % 2 == 0) ≡ b6
        → (b5 : Bool) → (c / 0x20 % 2 == 0) ≡ b5
        → (b4 : Bool) → (c / 0x10 % 2 == 0) ≡ b4
        → (b3 : Bool) → (c / 0x08 % 2 == 0) ≡ b3
        → Encodes (c ∷ s) cp rest
    by_bits true e7 b6 e6 b5 e5 b4 e4 b3 e3 =
        let same : ◌≡◌ {A = ℕ × List ℕ} (c % 0x80, s) (cp, rest) =
          some-injective _ _ (rw e7 at e) in
        let (small, low) = head-one c e7 h.0 in
        subst (λ p. Encodes (c ∷ s) p.0 p.1) {x = (c, s)} {y = (cp, rest)}
          (ap (λ d. (d, s)) (sym low) ∙ same) (one-Encodes c s small)
    by_bits false e7 true e6 b5 e5 b4 e4 b3 e3 = none-ne-some (cp, rest) (rw (e7, e6) at e)
    by_bits false e7 false e6 true e5 b4 e4 b3 e3 =
        Encodes-head c (0xc0 + c % 0x20) s cp rest (head-two c e7 e6 e5 h.0)
          (two-Encodes (c % 0x20) s cp rest (heads-lt c).0 h.1 (rw (e7, e6, e5) at e))
    by_bits false e7 false e6 false e5 true e4 b3 e3 =
        Encodes-head c (0xe0 + c % 0x10) s cp rest (head-three c e7 e6 e5 e4 h.0)
          (three-Encodes (c % 0x10) s cp rest (heads-lt c).1 h.1 (rw (e7, e6, e5, e4) at e))
    by_bits false e7 false e6 false e5 false e4 true e3 =
        Encodes-head c (0xf0 + c % 0x08) s cp rest (head-four c e7 e6 e5 e4 e3 h.0)
          (four-Encodes (c % 0x08) s cp rest (heads-lt c).2 h.1 (rw (e7, e6, e5, e4, e3) at e))
    by_bits false e7 false e6 false e5 false e4 false e3 =
        none-ne-some (cp, rest) (rw (e7, e6, e5, e4, e3) at e)
