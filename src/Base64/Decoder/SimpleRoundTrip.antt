-- ===== src/Base64/Decoder/SimpleRoundTrip.antt =====
-- `base64_decode_simple` of src/base64.c on what `base64_encode_simple` makes.
use fsdyn.Prelude.{
  AllBytes, ℕ, ◌+◌, ◌*◌, ◌/◌, ◌^◌, ◌<◌, ◌≡◌, refl, ap, ◌∙◌, bind-some, lt→ltb, some, true, ltb,
  List, [], ◌∷◌, ◌++◌, length, length-append, take, arith,
}
use fsdyn.Prelude.Buffers.{write, over, over_all, take_all, write-over}
use fsdyn.Base64.{base64_encode_simple}
use fsdyn.Base64.Text.{encode}
use fsdyn.Base64.Simple.{base64_encode_simple-encode}
use fsdyn.Base64.Decoder.{base64_decode_simple}
use fsdyn.Base64.Decoder.RoundTrip.{base64_decode_buffer-encode}

module _ (fsalloc : ℕ → List ℕ) (alloc : (n : ℕ) → length (fsalloc n) ≡ n) where
  -- The first call counts, and the second fills the buffer but for the NUL.
  base64_decode_simple-encode :
      (xs : List ℕ)
      → AllBytes xs
      → length xs < 2 ^ 62
      → base64_decode_simple fsalloc (encode 43 47 xs ++ 0 ∷ [])
        ≡ some (some (xs ++ 0 ∷ [], length xs))
  unfolding base64_decode_simple
  base64_decode_simple-encode xs h n =
      let dest = fsalloc (length xs + 1) in
      let room : length dest ≡ length xs + 1 = alloc (length xs + 1) in
      let whole : take (length xs) xs ≡ xs = take_all xs (length xs) (omega arith) in
      let filled : over (xs ++ 0 ∷ []) dest ≡ xs ++ 0 ∷ [] =
        over_all (xs ++ 0 ∷ []) dest (omega (arith, length-append xs (0 ∷ []))) in
      bind-some _ _ _ _
        (base64_decode_buffer-encode xs (0 ∷ []) [] 0 true h refl (omega arith) (omega arith))
        (bind-some _ _ _ _
          (base64_decode_buffer-encode xs (0 ∷ []) dest (length xs) true h refl (omega arith)
            (omega arith))
          (bind-some _ _ _ _
            (ap (λ ys. write (over ys dest) (length xs) 0) whole
              ∙ write-over xs dest 0 (omega arith))
            (ap (λ ys. some (some (ys, length xs))) filled)))

  -- Encoding bytes and decoding the text gives the bytes, with a NUL behind them, and their number.
  pub base64_decode_simple-base64_encode_simple :
      (xs : List ℕ)
      → AllBytes xs
      → length xs < 2 ^ 62
      → (text : List ℕ) × (base64_encode_simple fsalloc xs ≡ some (some text))
        × (base64_decode_simple fsalloc text ≡ some (some (xs ++ 0 ∷ [], length xs)))
  base64_decode_simple-base64_encode_simple xs h n =
      let fit : ltb ((length xs + 2) / 3 * 4) (2 ^ 64) ≡ true = lt→ltb _ _ (omega arith) in
      (
        encode 43 47 xs ++ 0 ∷ [],
        base64_encode_simple-encode fsalloc xs alloc (omega arith) ∙ rw fit refl,
        base64_decode_simple-encode xs h n,
      )
