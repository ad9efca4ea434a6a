-- ===== src/Charstr/Url/Decode.antt =====
-- `charstr_url_decode` of src/charstr.c, against the texts that are URL encodings.
use fsdyn.Prelude.{
  AllBytes, ℕ, ◌+◌, ◌*◌, ◌%◌, ◌^◌, ◌<◌, ◌≡◌, refl, sym, ap, subst, ◌∙◌, ◌⊎◌, inl, inr, Bool-cases,
  none, some, ◌>>=◌, Bool, true, false, ◌==◌, ==_iff, if◌then◌else◌, List, [], ◌∷◌, ◌++◌, length,
  length-append, arith,
}
use fsdyn.Charstr.Classes.{is_hex, digit_of, tables-ranges}
use fsdyn.Charstr.Url.{
  is_hex_char, hex_pair, decoding_length, write_decoding, illegal, decoded, charstr_url_decode,
}

-- What a character that is not a percent sign stands for.
abbrev pub plain_of : Bool → ℕ → ℕ
plain_of plus_is_space c = if c == b'+' then (if plus_is_space then b' ' else b'+') else c

-- A text and the string that it encodes.
pub data UrlDecodes (plus_is_space : Bool) : List ℕ → List ℕ → Type 0 where
  done : UrlDecodes plus_is_space [] []
  escape :
      {d e : ℕ} {s t : List ℕ}
      → is_hex d ≡ true
      → is_hex e ≡ true
      → UrlDecodes plus_is_space s t
      → UrlDecodes plus_is_space (b'%' ∷ d ∷ e ∷ s) ((digit_of d * 16 + digit_of e) ∷ t)
  plain :
      {c : ℕ} {s t : List ℕ}
      → (c == b'%') ≡ false
      → UrlDecodes plus_is_space s t
      → UrlDecodes plus_is_space (c ∷ s) (plain_of plus_is_space c ∷ t)

-- A round on a character that is no percent sign.
plain-round :
    (plus_is_space : Bool) (c : ℕ) (s : List ℕ)
    → (c == b'%') ≡ false
    → (decoding_length (c ∷ s) ≡ (decoding_length s >>= λ length. some (length + 1)))
      × (write_decoding plus_is_space (c ∷ s)
          ≡ (write_decoding plus_is_space s >>= λ dp. some (plain_of plus_is_space c ∷ dp)))
unfolding decoding_length write_decoding
plain-round plus_is_space c s e = by_plus s (c == b'+') refl
  where
    by_plus :
        (s : List ℕ) (plus : Bool)
        → (c == b'+') ≡ plus
        → (decoding_length (c ∷ s) ≡ (decoding_length s >>= λ length. some (length + 1)))
          × (write_decoding plus_is_space (c ∷ s) ≡ (
              write_decoding plus_is_space s >>= λ dp.
              some ((if plus then (if plus_is_space then b' ' else b'+') else c) ∷ dp)))
    by_plus [] true f = (rw e refl, rw f refl)
    by_plus [] false f = (rw e refl, rw (f, e) refl)
    by_plus (d ∷ []) true f = (rw e refl, rw f refl)
    by_plus (d ∷ []) false f = (rw e refl, rw (f, e) refl)
    by_plus (d ∷ g ∷ s) true f = (rw e refl, rw f refl)
    by_plus (d ∷ g ∷ s) false f = (rw e refl, rw (f, e) refl)

hex_char-is_hex : (c : ℕ) → c < 256 → is_hex_char c ≡ is_hex c
hex_char-is_hex c h = (tables-ranges c h).0.6

digit_of-hex : (c : ℕ) → is_hex c ≡ true → digit_of c < 16
digit_of-hex c e = ground arith

hex_pair-digits :
    (d e : ℕ)
    → d < 256
    → e < 256
    → is_hex d ≡ true
    → is_hex e ≡ true
    → hex_pair d e ≡ digit_of d * 16 + digit_of e
hex_pair-digits d e hd he xd xe =
    rw ((tables-ranges d hd).1.2, (tables-ranges e he).1.2)
      (two_digits (digit_of d) (digit_of e) (digit_of-hex d xd) (digit_of-hex e xe))
  where
    two_digits : (a b : ℕ) → a < 16 → b < 16 → (a * 16 % 2 ^ 8 + b) % 2 ^ 8 ≡ a * 16 + b
    two_digits a b ha hb = omega arith

-- What the two loops make of an encoding.
record IsDecoded (plus_is_space : Bool) (s t : List ℕ) : Type 0 where
  pub counted : decoding_length s ≡ some (length t)
  pub written : write_decoding plus_is_space s ≡ some t

plain-IsDecoded :
    (plus_is_space : Bool) (c : ℕ) (s t : List ℕ)
    → (c == b'%') ≡ false
    → IsDecoded plus_is_space s t
    → IsDecoded plus_is_space (c ∷ s) (plain_of plus_is_space c ∷ t)
plain-IsDecoded plus_is_space c s t e r =
    let (count, write) = plain-round plus_is_space c s e in
    record {
      counted = count ∙ rw r.counted (ap some (omega arith));
      written = write ∙ rw r.written refl;
    }

escape-IsDecoded :
    (plus_is_space : Bool) (d e : ℕ) (s t : List ℕ)
    → d < 256
    → e < 256
    → is_hex d ≡ true
    → is_hex e ≡ true
    → IsDecoded plus_is_space s t
    → IsDecoded plus_is_space (b'%' ∷ d ∷ e ∷ s) ((digit_of d * 16 + digit_of e) ∷ t)
unfolding decoding_length write_decoding
escape-IsDecoded plus_is_space d e s t hd he xd xe r = record {
  counted =
      rw (decoding_length, hex_char-is_hex d hd, hex_char-is_hex e he, xd, xe, r.counted)
        (ap some (omega arith));
  written = rw (write_decoding, hex_pair-digits d e hd he xd xe, r.written) refl;
}

UrlDecodes-IsDecoded :
    (plus_is_space : Bool) (s t : List ℕ)
    → AllBytes s
    → UrlDecodes plus_is_space s t
    → IsDecoded plus_is_space s t
unfolding decoding_length write_decoding
UrlDecodes-IsDecoded plus_is_space s t h done = record { counted = refl; written = refl }
UrlDecodes-IsDecoded plus_is_space s t h (escape {d = d} {e = e} {s = s'} {t = t'} xd xe r) =
    escape-IsDecoded plus_is_space d e s' t' h.1.0 h.1.1.0 xd xe
      (UrlDecodes-IsDecoded plus_is_space s' t' h.1.1.1 r)
UrlDecodes-IsDecoded plus_is_space s t h (plain {c = c} {s = s'} {t = t'} e r) =
    plain-IsDecoded plus_is_space c s' t' e (UrlDecodes-IsDecoded plus_is_space s' t' h.1 r)

-- The answer to the question whether the text is an encoding.
abbrev Settled : Bool → List ℕ → Type 0
Settled plus_is_space s =
    (decoding_length s ≡ none) × ((t : List ℕ) → ¬ UrlDecodes plus_is_space s t)
    ⊎ (t : List ℕ) × UrlDecodes plus_is_space s t

plain-behind :
    (plus_is_space : Bool) (c : ℕ) (s t : List ℕ)
    → (c == b'%') ≡ false
    → UrlDecodes plus_is_space (c ∷ s) t
    → (t' : List ℕ) × UrlDecodes plus_is_space s t'
plain-behind plus_is_space c s t e (escape xd xe r) = cc
plain-behind plus_is_space c s t e (plain {t = t'} f r) = (t', r)

plain-Settled :
    (plus_is_space : Bool) (c : ℕ) (s : List ℕ)
    → (c == b'%') ≡ false
    → Settled plus_is_space s
    → Settled plus_is_space (c ∷ s)
plain-Settled plus_is_space c s e (inl (n, never)) = inl (
  (plain-round plus_is_space c s e).0 ∙ rw n refl,
  λ t r. let (t', r') = plain-behind plus_is_space c s t e r in never t' r',
)
plain-Settled plus_is_space c s e (inr (t, r)) = inr (plain_of plus_is_space c ∷ t, plain e r)

escape-parts :
    (plus_is_space : Bool) (d e : ℕ) (s t : List ℕ)
    → UrlDecodes plus_is_space (b'%' ∷ d ∷ e ∷ s) t
    → (is_hex d ≡ true) × (is_hex e ≡ true) × ((t' : List ℕ) × UrlDecodes plus_is_space s t')
escape-parts plus_is_space d e s t (escape {t = t'} xd xe r) = (xd, xe, (t', r))
escape-parts plus_is_space d e s t (plain f r) = cc

escape-Settled :
    (plus_is_space : Bool) (d e : ℕ) (s : List ℕ)
    → d < 256
    → e < 256
    → Settled plus_is_space s
    → Settled plus_is_space (b'%' ∷ d ∷ e ∷ s)
unfolding decoding_length
escape-Settled plus_is_space d e s hd he r = by_digits (is_hex d) refl (is_hex e) refl r
  where
    by_digits :
        (x : Bool)
        → is_hex d ≡ x
        → (y : Bool) → is_hex e ≡ y
        → Settled plus_is_space s
        → Settled plus_is_space (b'%' ∷ d ∷ e ∷ s)
    by_digits true f true g (inr (t, u)) = inr ((digit_of d * 16 + digit_of e) ∷ t, escape f g u)
    by_digits true f true g (inl (n, never)) = inl (
      rw (decoding_length, hex_char-is_hex d hd, hex_char-is_hex e he, f, g, n) refl,
      λ t u. let (_, _, (t', u')) = escape-parts plus_is_space d e s t u in never t' u',
    )
    by_digits true f false g r = inl (
      rw (decoding_length, hex_char-is_hex d hd, hex_char-is_hex e he, f, g) refl,
      λ t u. let second = (escape-parts plus_is_space d e s t u).1 in cc,
    )
    by_digits false f y g r = inl (
      rw (decoding_length, hex_char-is_hex d hd, hex_char-is_hex e he, f) refl,
      λ t u. let first = (escape-parts plus_is_space d e s t u).0 in cc,
    )

percent_nil : (plus_is_space : Bool) (t : List ℕ) → ¬ UrlDecodes plus_is_space (b'%' ∷ []) t
percent_nil plus_is_space t (plain f r) = cc

percent_one :
    (plus_is_space : Bool) (d : ℕ) (t : List ℕ) → ¬ UrlDecodes plus_is_space (b'%' ∷ d ∷ []) t
percent_one plus_is_space d t (plain f r) = cc

settle : (plus_is_space : Bool) (s : List ℕ) → AllBytes s → Settled plus_is_space s
unfolding decoding_length
settle plus_is_space [] h = inr ([], done)
settle plus_is_space (c ∷ []) h = elim (Bool-cases (c == b'%')) [
  | inr e ↦ plain-Settled plus_is_space c [] e (inr ([], done))
  | inl e ↦
      subst (λ c. Settled plus_is_space (c ∷ [])) (sym ((==_iff c b'%').0 e))
        (inl (refl, percent_nil plus_is_space))
]
settle plus_is_space (c ∷ d ∷ []) h = elim (Bool-cases (c == b'%')) [
  | inr e ↦ plain-Settled plus_is_space c (d ∷ []) e (settle plus_is_space (d ∷ []) h.1)
  | inl e ↦
      subst (λ c. Settled plus_is_space (c ∷ d ∷ [])) (sym ((==_iff c b'%').0 e))
        (inl (refl, percent_one plus_is_space d))
]
settle plus_is_space (c ∷ d ∷ f ∷ s) h = elim (Bool-cases (c == b'%')) [
  | inr e ↦ plain-Settled plus_is_space c (d ∷ f ∷ s) e (settle plus_is_space (d ∷ f ∷ s) h.1)
  | inl e ↦
      subst (λ c. Settled plus_is_space (c ∷ d ∷ f ∷ s)) (sym ((==_iff c b'%').0 e))
        (escape-Settled plus_is_space d f s h.1.0 h.1.1.0 (settle plus_is_space s h.1.1.1))
]

pub decode-UrlDecodes :
    (plus_is_space : Bool) (s t : List ℕ)
    → AllBytes s
    → UrlDecodes plus_is_space s t
    → charstr_url_decode s plus_is_space ≡ decoded (length (t ++ 0 ∷ [])) (t ++ 0 ∷ []) (length t)
unfolding charstr_url_decode
decode-UrlDecodes plus_is_space s t h r =
    let d = UrlDecodes-IsDecoded plus_is_space s t h r in
    rw (charstr_url_decode, d.counted, d.written, length-append t (0 ∷ [])) refl

-- `charstr_url_decode` reads nothing behind the NUL. It gives NULL with EILSEQ if the text is no
-- URL encoding, and otherwise what the text encodes with a NUL, as many bytes as it has allocated,
-- and their number without the NUL.
pub charstr_url_decode-Settles :
    (s : List ℕ) (plus_is_space : Bool)
    → AllBytes s
    → (charstr_url_decode s plus_is_space ≡ illegal)
        × ((t : List ℕ) → ¬ UrlDecodes plus_is_space s t)
      ⊎ (t : List ℕ) × UrlDecodes plus_is_space s t
        × (charstr_url_decode s plus_is_space
            ≡ decoded (length (t ++ 0 ∷ [])) (t ++ 0 ∷ []) (length t))
unfolding charstr_url_decode
charstr_url_decode-Settles s plus_is_space h = elim (settle plus_is_space s h) [
  | inl (n, never) ↦ inl (rw (charstr_url_decode, n) refl, never)
  | inr (t, r) ↦ inr (t, r, decode-UrlDecodes plus_is_space s t h r)
]
