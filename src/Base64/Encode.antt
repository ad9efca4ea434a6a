-- ===== src/Base64/Encode.antt =====
-- `base64_encode_buffer` of src/base64.c, step by step, against the Base64 text of the bytes.
use mathlib.Core.List.{append_assoc, append-nil}
use fsdyn.Prelude.{
  bind-some, ℕ, zero, suc, ◌+◌, ◌-◌, ◌*◌, ◌/◌, ◌%◌, ◌≤◌, ◌<◌, ◌≡◌, refl, sym, ap, ◌∙◌, subst, ◌⊎◌,
  inl, inr, Option, some, List, [], ◌∷◌, ◌++◌, length, length-append, drop, take, arith,
}
use fsdyn.Prelude.Buffers.{over, over-append_full}
use fsdyn.Base64.{
  Encoder, encode_body, encode_next, encode_tail, default_char, base64_encode_buffer,
}
use fsdyn.Base64.Text.{quad, encode}
use fsdyn.Base64.Puts.{put4-over, write-over_four, at_end, terminate-over}

-- The loop of `base64_encode_buffer` has written `ys`: the rest of the text is that of the bytes
-- left, and the loop has stopped for want of bytes or of room.
module _ (pos62 pos63 : ℕ) where
  record Wrote (text dest : List ℕ) (result : Option Encoder) : Type 0 where
    pub e : Encoder
    pub ys : List ℕ
    pub returns : result ≡ some e
    pub written : e.dest ≡ over ys dest
    pub index : e.i ≡ length ys
    pub rest : ys ++ encode pos62 pos63 e.q ≡ text

  abbrev Stops : List ℕ → Encoder → Type 0
  Stops dest e = (length e.q < 3) ⊎ (length dest < e.i + 4)

  abbrev Loops : List ℕ → List ℕ → Option Encoder → Type 0
  Loops text dest result = (w : Wrote text dest result) × Stops dest w.e

  abbrev same :
      (q xs dest : List ℕ) (i : ℕ)
      → i ≡ length xs
      → Wrote
          (xs ++ encode pos62 pos63 q)
          dest
          (some (record { q = q; dest = over xs dest; i = i }))
  same q xs dest i n = record {
    e = _;
    ys = xs;
    returns = refl;
    written = refl;
    index = n;
    rest = refl;
  }

  encode_body-Loops :
      (counter : ℕ) (q xs dest : List ℕ) (i : ℕ)
      → i ≡ length xs
      → counter * 4 + i ≤ length dest
      → length dest < counter * 4 + i + 4
      → Loops (xs ++ encode pos62 pos63 q) dest (encode_body pos62 pos63 counter q (over xs dest) i)
  unfolding encode_body encode
  encode_body-Loops (suc counter) (a ∷ b ∷ c ∷ q) xs dest i n le lt =
      let four = quad pos62 pos63 a b c in
      subst (Loops _ dest)
        (sym (
          write-over_four (λ d. encode_body pos62 pos63 counter q d (i + 4)) xs dest i _ _ _ _ n
            (omega arith)))
        (subst
          (λ text.
            Loops text dest (encode_body pos62 pos63 counter q (over (xs ++ four) dest) (i + 4)))
          (append_assoc xs four (encode pos62 pos63 q))
          (encode_body-Loops counter q (xs ++ four) dest (i + 4)
            (omega (arith, length-append xs four)) (omega arith) (omega arith)))
  encode_body-Loops zero q xs dest i n le lt = (same q xs dest i n, inr (omega arith))
  encode_body-Loops (suc counter) [] xs dest i n le lt = (same [] xs dest i n, inl (omega arith))
  encode_body-Loops (suc counter) (a ∷ []) xs dest i n le lt =
      (same (a ∷ []) xs dest i n, inl (omega arith))
  encode_body-Loops (suc counter) (a ∷ b ∷ []) xs dest i n le lt =
      (same (a ∷ b ∷ []) xs dest i n, inl (omega arith))

  -- Behind the next group, either all whole groups are written, or the buffer is full.
  encode_next-Wrote :
      (q xs dest : List ℕ) (i : ℕ)
      → i ≡ length xs
      → (length q < 3) ⊎ (length dest < i + 4)
      → (w : Wrote
          (xs ++ encode pos62 pos63 q)
          dest
          (encode_next pos62 pos63 q (over xs dest) i (length dest)))
        × ((length w.e.q < 3) ⊎ (length dest ≤ w.e.i))
  unfolding encode_next encode
  encode_next-Wrote [] xs dest i n h = (same [] xs dest i n, inl (omega arith))
  encode_next-Wrote (a ∷ []) xs dest i n h = (same (a ∷ []) xs dest i n, inl (omega arith))
  encode_next-Wrote (a ∷ b ∷ []) xs dest i n h = (same (a ∷ b ∷ []) xs dest i n, inl (omega arith))
  encode_next-Wrote (a ∷ b ∷ c ∷ q) xs dest i n h =
      let four = quad pos62 pos63 a b c in
      rw (put4-over xs dest i _ _ _ _ n) (
        record {
          e = _;
          ys = xs ++ four;
          returns = refl;
          written = refl;
          index = omega (arith, length-append xs four);
          rest = append_assoc xs four (encode pos62 pos63 q);
        },
        inr (ground arith),
      )

  -- The whole groups of `q`, `to_tail` bytes, and their text.
  encode-drop :
      (q : List ℕ) (m : ℕ)
      → length q ≡ length q % 3 + m * 3
      → (groups : List ℕ) × (length groups ≡ m * 4)
        × (encode pos62 pos63 q ≡ groups ++ encode pos62 pos63 (drop (m * 3) q))
        × (length (drop (m * 3) q) < 3)
  unfolding encode
  encode-drop q zero e = ([], refl, refl, ground arith)
  encode-drop (a ∷ b ∷ c ∷ q) (suc m) e =
      let (groups, n, split, short) = encode-drop q m (omega arith) in
      let four = quad pos62 pos63 a b c in
      let three : suc m * 3 ≡ suc (suc (suc (m * 3))) = omega arith in
      (four ++ groups, omega (arith, n), rw three (ap (λ xs. four ++ xs) split), rw three short)
  encode-drop [] (suc m) e = absurd (omega arith)
  encode-drop (a ∷ []) (suc m) e = absurd (omega arith)
  encode-drop (a ∷ b ∷ []) (suc m) e = absurd (omega arith)

  encode_tail-over :
      (q xs dest : List ℕ) (i : ℕ)
      → length q < 3
      → i ≡ length xs
      → encode_tail pos62 pos63 q (over xs dest) i (length dest)
        ≡ some (over (xs ++ encode pos62 pos63 q) dest, length (xs ++ encode pos62 pos63 q))
  unfolding encode_tail encode
  encode_tail-over [] xs dest i h n =
      let none_left = append-nil xs in rw none_left (at_end xs dest i n)
  encode_tail-over (a ∷ []) xs dest i h n = rw (put4-over xs dest i _ _ _ _ n) (
      at_end (xs ++ encode pos62 pos63 (a ∷ [])) dest (i + 4)
        (omega (arith, length-append xs (encode pos62 pos63 (a ∷ [])))))
  encode_tail-over (a ∷ b ∷ []) xs dest i h n = rw (put4-over xs dest i _ _ _ _ n) (
      at_end (xs ++ encode pos62 pos63 (a ∷ b ∷ [])) dest (i + 4)
        (omega (arith, length-append xs (encode pos62 pos63 (a ∷ b ∷ [])))))
  encode_tail-over (a ∷ b ∷ c ∷ q) xs dest i h n = absurd (omega arith)

-- No more is written for the whole groups that are left, since there are none or the buffer is full.
over-groups :
    (ys groups dest : List ℕ)
    → (length groups ≡ 0) ⊎ (length dest ≤ length ys)
    → over ys dest ≡ over (ys ++ groups) dest
over-groups ys [] dest h = ap (λ xs. over xs dest) (sym (append-nil ys))
over-groups ys (g ∷ groups) dest (inl e) = absurd (omega arith)
over-groups ys (g ∷ groups) dest (inr h) = sym (over-append_full ys (g ∷ groups) dest h)

module _ (pos62 pos63 : ℕ) where
  -- The tail's text goes behind the text `groups` of `m` whole groups, written or not.
  encode_tail-groups :
      (q ys groups dest text : List ℕ) (i m : ℕ)
      → i ≡ length ys
      → (length groups ≡ 0) ⊎ (length dest ≤ length ys)
      → length groups ≡ m * 4
      → length q < 3
      → ys ++ groups ++ encode pos62 pos63 q ≡ text
      → encode_tail pos62 pos63 q (over ys dest) (i + m * 4) (length dest)
        ≡ some (over text dest, length text)
  encode_tail-groups q ys groups dest text i m n full size short all =
      rw (over-groups ys groups dest full) (
        encode_tail-over pos62 pos63 q (ys ++ groups) dest (i + m * 4) short
          (omega (arith, length-append ys groups))
        ∙ ap (λ t. some (over t dest, length t)) all)

  encode_tail-rest :
      (q ys dest text : List ℕ) (i m : ℕ)
      → i ≡ length ys
      → (length q < 3) ⊎ (length dest ≤ i)
      → length q ≡ length q % 3 + m * 3
      → ys ++ encode pos62 pos63 q ≡ text
      → encode_tail pos62 pos63 (drop (m * 3) q) (over ys dest) (i + m * 4) (length dest)
        ≡ some (over text dest, length text)
  encode_tail-rest q ys dest text i m n h whole e =
      let (groups, size, split, short) = encode-drop pos62 pos63 q m whole in
      encode_tail-groups (drop (m * 3) q) ys groups dest text i m n (ground arith) size short (
        append_assoc ys groups (encode pos62 pos63 (drop (m * 3) q))
        ∙ ap (λ xs. ys ++ xs) (sym split)
        ∙ e)

module _ (pos62 pos63 : ℕ) where
  -- `base64_encode_buffer` writes inside the buffer only. The buffer holds the text, as far as it goes,
  -- and then a NUL, if it has room for one; behind that it is as it was. The length of the
  -- whole text is returned.
  pub base64_encode_buffer-encode :
      (source dest : List ℕ)
      → (let text = encode (default_char pos62 43) (default_char pos63 47) source in
          base64_encode_buffer source dest (length dest) pos62 pos63
          ≡ some (over (take (length dest - 1) text ++ 0 ∷ []) dest, length text))
  unfolding base64_encode_buffer
  base64_encode_buffer-encode source dest =
      let c62 = default_char pos62 43 in
      let c63 = default_char pos63 47 in
      let (w, stops) =
        encode_body-Loops c62 c63 (length dest / 4) source [] dest 0 refl (omega arith)
          (omega arith) in
      let (w', stops') = encode_next-Wrote c62 c63 w.e.q w.ys dest w.e.i w.index stops in
      let text = encode c62 c63 source in
      let m = (length w'.e.q - length w'.e.q % 3) / 3 in
      let to_tail : length w'.e.q - length w'.e.q % 3 ≡ m * 3 = omega arith in
      let ends =
        encode_tail-rest c62 c63 w'.e.q w'.ys dest text w'.e.i m w'.index stops' (omega arith)
          (w'.rest ∙ w.rest) in
      bind-some _ _ w.e _ w.returns (
        bind-some _ _ w'.e _
          (ap (λ d. encode_next c62 c63 w.e.q d w.e.i (length dest)) w.written ∙ w'.returns)
          (bind-some _ _ (over text dest, length text) _
            (ap (λ t. encode_tail c62 c63 (drop t w'.e.q) w'.e.dest (w'.e.i + m * 4) (length dest))
                to_tail
              ∙ ap (λ d. encode_tail c62 c63 (drop (m * 3) w'.e.q) d (w'.e.i + m * 4) (length dest))
                  w'.written
              ∙ ends)
            (bind-some _ _ _ _ (terminate-over text dest) refl)))
