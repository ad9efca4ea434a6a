-- ===== src/Charstr/Url/Encode.antt =====
-- `charstr_url_custom_encode` of src/charstr.c: what it writes, and the size that it allocates.
use fsdyn.Prelude.{
  AllBytes, ℕ, ◌+◌, ◌≤◌, ◌≡◌, refl, ap, subst, ==_iff, ◌∙◌, ◌⊎◌, inl, inr, Bool-cases, true, ◌==◌,
  List, [], ◌∷◌, ◌++◌, length, length-append, arith,
}
use fsdyn.Charstr.Url.{
  entry_width, url_encoding_width, encoding_length, write_encoding, charstr_create_url_encoder,
  charstr_url_custom_encode,
}
use fsdyn.Charstr.Url.Entries.{
  mem, entry_of, Shape, unreserved, encoded, space, plain, entry_of-Shape, plain-unmarked,
  charstr_create_url_encoder-entry,
}

-- The text of a string.
unfoldable pub encode_of : List ℕ → List ℕ → List ℕ → List ℕ
encode_of reserve unreserve [] = []
encode_of reserve unreserve (c ∷ s) = entry_of reserve unreserve c ++ encode_of reserve unreserve s

-- An entry has no more characters than its width, and as many unless `unreserve` has a percent sign.
width-Shape :
    (reserve unreserve : List ℕ) (c : ℕ) (entry : List ℕ)
    → Shape reserve unreserve c entry
    → (length entry ≤ entry_width entry)
      × ((mem b'%' unreserve ≡ true) ⊎ (length entry ≡ entry_width entry))
width-Shape reserve unreserve c entry (unreserved e) = elim (Bool-cases (c == b'%')) [
  | inl f ↦ (ground (arith, f), inl (subst (λ i. mem i unreserve ≡ true) ((==_iff c b'%').0 f) e))
  | inr f ↦ (ground (arith, f), inr (ground (arith, f)))
]
width-Shape reserve unreserve c entry encoded = (omega arith, inr refl)
width-Shape reserve unreserve c entry (space e f) = (omega arith, inr refl)
width-Shape reserve unreserve c entry (plain e) =
    let f = (plain-unmarked c e).0 in (ground (arith, f), inr (ground (arith, f)))

sum-exact : {P : Type 0} (n m k a b : ℕ) → n ≡ m + k → P ⊎ (m ≡ a) → P ⊎ (k ≡ b) → P ⊎ (n ≡ a + b)
sum-exact n m k a b e (inl p) rest = inl p
sum-exact n m k a b e (inr f) (inl p) = inl p
sum-exact n m k a b e (inr f) (inr g) = inr (omega arith)

encoding-width :
    (reserve unreserve s : List ℕ)
    → AllBytes reserve
    → AllBytes unreserve
    → AllBytes s
    → let encoder = charstr_create_url_encoder reserve unreserve in
      (write_encoding encoder s ≡ encode_of reserve unreserve s)
      × (length (encode_of reserve unreserve s) ≤ encoding_length encoder s)
      × ((mem b'%' unreserve ≡ true)
          ⊎ (length (encode_of reserve unreserve s) ≡ encoding_length encoder s))
unfolding write_encoding encode_of encoding_length
encoding-width reserve unreserve [] r u h = (refl, omega arith, inr refl)
encoding-width reserve unreserve (c ∷ s) r u h =
    let encoder = charstr_create_url_encoder reserve unreserve in
    let entry = charstr_create_url_encoder-entry reserve unreserve c r u h.0 in
    let (same, fits, exact) = encoding-width reserve unreserve s r u h.1 in
    let (here, here_exact) =
      width-Shape reserve unreserve c _ (entry_of-Shape reserve unreserve c) in
    let width : url_encoding_width encoder c ≡ entry_width (entry_of reserve unreserve c) =
      ap entry_width entry in
    let long = length-append (entry_of reserve unreserve c) (encode_of reserve unreserve s) in
    (
      rw (entry, same) refl,
      omega (arith, here, fits, long, width),
      rw width (sum-exact _ _ _ _ _ long here_exact exact),
    )

-- With any `reserve` and `unreserve` the encoder writes the entries of the characters and a NUL, and no
-- more than it has allocated; it allocates just that size unless `unreserve` has a percent sign.
pub charstr_url_custom_encode-fits :
    (reserve unreserve s : List ℕ)
    → AllBytes reserve
    → AllBytes unreserve
    → AllBytes s
    → let (allocated, text) =
        charstr_url_custom_encode (charstr_create_url_encoder reserve unreserve) s in
      (text ≡ encode_of reserve unreserve s ++ 0 ∷ [])
      × (length text ≤ allocated)
      × ((mem b'%' unreserve ≡ true) ⊎ (length text ≡ allocated))
unfolding charstr_url_custom_encode
charstr_url_custom_encode-fits reserve unreserve s r u h =
    let encoder = charstr_create_url_encoder reserve unreserve in
    let (same, fits, exact) = encoding-width reserve unreserve s r u h in
    let long : length (write_encoding encoder s ++ 0 ∷ [])
        ≡ length (encode_of reserve unreserve s) + 1 =
      length-append (write_encoding encoder s) (0 ∷ []) ∙ ap (λ t. length t + 1) same in
    (
      ap (λ t. t ++ 0 ∷ []) same,
      omega (arith, long, fits),
      sum-exact _ _ _ _ _ long exact (inr refl),
    )
