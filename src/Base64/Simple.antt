-- ===== src/Base64/Simple.antt =====
-- `base64_encode_simple` of src/base64.c, against the Base64 text of the bytes.
use fsdyn.Prelude.{
  ℕ, ◌+◌, ◌-◌, ◌*◌, ◌/◌, ◌^◌, ◌<◌, ◌≡◌, refl, sym, ap, ◌∙◌, subst, Bool, true, false, none, some,
  ltb, ◌==◌, if◌then◌else◌, List, [], ◌∷◌, ◌++◌, length, length-append, take, arith,
}
use fsdyn.Prelude.Buffers.{over, over_all, take_all}
use fsdyn.Base64.{
  base64_encoding_size, size_max, base64_default_char, base64_encode_buffer, base64_encode_simple,
}
use fsdyn.Base64.Text.{encode, length-encode, base64_encoding_size-exact}
use fsdyn.Base64.Encode.{base64_encode_buffer-encode}

-- A fresh buffer with room for the text and a NUL.
encode_fresh :
    (source dest : List ℕ) (size : ℕ)
    → size ≡ length (encode 43 47 source)
    → length dest ≡ size + 1
    → base64_encode_buffer source dest (size + 1) base64_default_char base64_default_char
      ≡ some (encode 43 47 source ++ 0 ∷ [], size)
encode_fresh source dest size e n =
    let text = encode 43 47 source in
    let whole : take (length dest - 1) text ≡ text =
      take_all text (length dest - 1) (omega arith) in
    let filled : over (text ++ 0 ∷ []) dest ≡ text ++ 0 ∷ [] =
      over_all (text ++ 0 ∷ []) dest (omega (arith, length-append text (0 ∷ []))) in
    subst
      (λ m.
        base64_encode_buffer source dest m base64_default_char base64_default_char
        ≡ some (text ++ 0 ∷ [], size))
      n
      (base64_encode_buffer-encode base64_default_char base64_default_char source dest
        ∙ ap (λ xs. some (over (xs ++ 0 ∷ []) dest, length text)) whole
        ∙ ap (λ xs. some (xs, length text)) filled
        ∙ ap (λ m. some (text ++ 0 ∷ [], m)) (sym e))

simple-cases :
    (fsalloc : ℕ → List ℕ) (source : List ℕ)
    → ((n : ℕ) → length (fsalloc n) ≡ n)
    → (size : ℕ) → base64_encoding_size (length source) ≡ size
    → (fit : Bool) → ltb ((length source + 2) / 3 * 4) (2 ^ 64) ≡ fit
    → size ≡ (if fit then (length source + 2) / 3 * 4 else size_max)
    → base64_encode_simple fsalloc source
      ≡ some (if fit then some (encode 43 47 source ++ 0 ∷ []) else none)
unfolding base64_encode_simple
simple-cases fsalloc source alloc size e true fit s =
    let differs : (size == size_max) ≡ false = ground (arith, fit) in
    rw
      (
        base64_encode_simple,
        e,
        differs,
        encode_fresh source (fsalloc (size + 1)) size (s ∙ sym (length-encode 43 47 source))
            (alloc (size + 1)),
      )
      refl
simple-cases fsalloc source alloc size e false fit s = rw (base64_encode_simple, e, s) refl

-- `base64_encode_simple` writes no cell outside of the buffer that `fsalloc` gives for the size; it
-- returns the text with a NUL behind it, or NULL exactly if a `size_t` cannot hold the text's size.
pub base64_encode_simple-encode :
    (fsalloc : ℕ → List ℕ) (source : List ℕ)
    → ((n : ℕ) → length (fsalloc n) ≡ n)
    → length source < 2 ^ 64
    → base64_encode_simple fsalloc source
      ≡ some (
          if ltb ((length source + 2) / 3 * 4) (2 ^ 64)
          then some (encode 43 47 source ++ 0 ∷ [])
          else none)
base64_encode_simple-encode fsalloc source alloc h =
    simple-cases fsalloc source alloc _ refl _ refl (base64_encoding_size-exact (length source) h)
