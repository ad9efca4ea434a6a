-- ===== src/Base64/Decoder/RoundTrip.antt =====
-- `base64_decode_buffer` of src/base64.c on the text that the encoder makes.
use fsdyn.Prelude.{
  AllBytes, bind_assoc, ℕ, zero, suc, ◌+◌, ◌*◌, ◌/◌, ◌%◌, ◌^◌, ◌≤◌, ◌<◌, ◌≡◌, refl, sym, ap, ◌∙◌,
  subst, bind-some, Option, some, ◌>>=◌, Bool, true, false, ◌||◌, ◌==◌, List, [], ◌∷◌, ◌++◌, length,
  length-append, take, arith,
}
use mathlib.Core.List.{append_assoc, append-nil}
use fsdyn.Base64.{group, base64_char}
use fsdyn.Base64.Text.{quad, encode}
use fsdyn.Prelude.Buffers.{over, take_all}
use fsdyn.Base64.Decoder.{
  Decoder, Scan, stopped, count_rest, fill, scan_rest, finish, is_at_end, only_whitespace,
  good_termination, good_base64_tail, decoded, base64_decode_buffer,
}
use fsdyn.Base64.Decoder.Loops.{run, run-push, base64_char-mod, push-early, push-byte, shift, at}

-- The bytes of a group, from its fields of six bits; `bits` is what was there before.
first_byte :
    (bits a b c : ℕ)
    → a < 256
    → b < 256
    → c < 256
    → shift (shift bits (group a b c / 2 ^ 18 % 64)) (group a b c / 2 ^ 12 % 64) / 2 ^ 4 % 2 ^ 8 ≡ a
first_byte bits a b c ha hb hc = omega arith

second_byte :
    (bits a b c : ℕ)
    → a < 256
    → b < 256
    → c < 256
    → shift (shift bits (group a b c / 2 ^ 12 % 64)) (group a b c / 2 ^ 6 % 64) / 2 ^ 2 % 2 ^ 8 ≡ b
second_byte bits a b c ha hb hc = omega arith

third_byte :
    (bits a b c : ℕ)
    → c < 256
    → shift (shift bits (group a b c / 2 ^ 6 % 64)) (group a b c % 64) / 2 ^ 0 % 2 ^ 8 ≡ c
third_byte bits a b c hc = omega arith

-- The same for the last byte, or two.
last_byte :
    (bits a : ℕ)
    → a < 256
    → (shift (shift bits (a * 2 ^ 16 / 2 ^ 18 % 64)) (a * 2 ^ 16 / 2 ^ 12 % 64) / 2 ^ 4 % 2 ^ 8 ≡ a)
      × (shift (shift bits (a * 2 ^ 16 / 2 ^ 18 % 64)) (a * 2 ^ 16 / 2 ^ 12 % 64) % 2 ^ 4 ≡ 0)
last_byte bits a ha = (omega arith, omega arith)

last_two_bytes :
    (bits a b : ℕ)
    → a < 256
    → b < 256
    → (let g = a * 2 ^ 16 + b * 2 ^ 8 in
        (shift (shift bits (g / 2 ^ 18 % 64)) (g / 2 ^ 12 % 64) / 2 ^ 4 % 2 ^ 8 ≡ a)
        × (shift (shift bits (g / 2 ^ 12 % 64)) (g / 2 ^ 6 % 64) / 2 ^ 2 % 2 ^ 8 ≡ b)
        × (shift (shift bits (g / 2 ^ 12 % 64)) (g / 2 ^ 6 % 64) % 2 ^ 2 ≡ 0))
last_two_bytes bits a b ha hb = (omega arith, omega arith, omega arith)

-- A character that ends the text ends both loops.
run-stop :
    (w : Bool) (size c : ℕ) (rest : List ℕ) (s : Decoder)
    → (c == 0 || c == 61) ≡ true
    → run w size (c ∷ rest) s ≡ some (stopped (c ∷ rest) s)
unfolding run fill scan_rest count_rest
run-stop w size c rest s e = ground arith

run-end :
    (w : Bool) (size : ℕ) (tail : List ℕ) (s : Decoder)
    → is_at_end tail ≡ true
    → run w size tail s ≡ some (stopped tail s)
unfolding run fill scan_rest count_rest
run-end w size [] s e = refl
run-end w size (c ∷ rest) s e = run-stop w size c rest s (ground arith)

good_termination-end :
    (tail : List ℕ) (w : Bool) → is_at_end tail ≡ true → good_termination tail w ≡ true
unfolding good_termination only_whitespace
good_termination-end [] true e = refl
good_termination-end [] false e = refl
good_termination-end (zero ∷ rest) true e = refl
good_termination-end (suc c ∷ rest) true e = ground arith
good_termination-end (c ∷ rest) false e = e

finish-good :
    (w : Bool) (tail : List ℕ) (s : Decoder)
    → s.bits % 2 ^ s.bit_count ≡ 0
    → good_base64_tail tail s.bit_count w ≡ some true
    → s.pi < 2 ^ 63
    → finish w (stopped tail s) ≡ some (s.dest, decoded (s.pi))
unfolding finish
finish-good w tail s e g h = ground arith

module _ (w : Bool) (size : ℕ) (dest : List ℕ) (room : size ≤ length dest) where
  run-early :
      (ys : List ℕ) (bits bit_count m : ℕ) (source : List ℕ)
      → bit_count < 2
      → run w size (base64_char m 43 47 ∷ source) (at w size dest room ys bits bit_count)
        ≡ run w size source (at w size dest room ys (shift bits (m % 64)) (bit_count + 6))
  run-early ys bits bit_count m source b = rw (base64_char-mod m) (
      run-push w size (m % 64) source _ _ (omega arith)
        (push-early w size dest room ys bits bit_count (m % 64) b) (omega arith))

  run-byte :
      (ys : List ℕ) (bits k m x : ℕ) (source : List ℕ)
      → shift bits (m % 64) / 2 ^ k % 2 ^ 8 ≡ x
      → run w size (base64_char m 43 47 ∷ source) (at w size dest room ys bits (k + 2))
        ≡ run w size source (at w size dest room (ys ++ x ∷ []) (shift bits (m % 64)) k)
  run-byte ys bits k m x source e = rw (base64_char-mod m) (
      subst
        (λ x.
          run w size (base64_char (m % 64) 43 47 ∷ source) (at w size dest room ys bits (k + 2))
          ≡ run w size source (at w size dest room (ys ++ x ∷ []) (shift bits (m % 64)) k))
        e
        (run-push w size (m % 64) source _ _ (omega arith)
          (push-byte w size dest room ys bits k (m % 64))
          (omega (arith, length-append ys (shift bits (m % 64) / 2 ^ k % 2 ^ 8 ∷ [])))))

  -- A group of four characters gives its three bytes.
  run-quad :
      (ys : List ℕ) (bits a b c : ℕ) (source : List ℕ)
      → a < 256
      → b < 256
      → c < 256
      → (bits' : ℕ) × (run w size (quad 43 47 a b c ++ source) (at w size dest room ys bits 0)
          ≡ run w size source (at w size dest room (ys ++ a ∷ b ∷ c ∷ []) bits' 0))
  run-quad ys bits a b c source ha hb hc =
      let g = group a b c in
      let bits1 = shift bits (g / 2 ^ 18 % 64) in
      let bits2 = shift bits1 (g / 2 ^ 12 % 64) in
      let bits3 = shift bits2 (g / 2 ^ 6 % 64) in
      (
        shift bits3 (g % 64),
        run-early ys bits 0 (g / 2 ^ 18) _ (omega arith)
            ∙ run-byte ys bits1 4 (g / 2 ^ 12) a _ (first_byte bits a b c ha hb hc)
            ∙ run-byte (ys ++ a ∷ []) bits2 2 (g / 2 ^ 6) b _ (second_byte bits1 a b c ha hb hc)
            ∙ run-byte (ys ++ a ∷ [] ++ b ∷ []) bits3 0 g c _ (third_byte bits2 a b c hc)
            ∙ ap (λ zs. run w size source (at w size dest room zs (shift bits3 (g % 64)) 0))
                (simp append_assoc),
      )

module _ (w : Bool) (size : ℕ) (dest : List ℕ) (room : size ≤ length dest) (tail : List ℕ)
    (end : is_at_end tail ≡ true) where
  -- The run ends with the bytes `ys` decoded.
  abbrev Ends : List ℕ → Option Scan → Type 0
  Ends ys result =
      (result >>= λ t. finish w t) ≡ some (over (take size ys) dest, decoded (length ys))

  run-encode :
      (xs ys : List ℕ) (bits : ℕ)
      → AllBytes xs
      → length (ys ++ xs) < 2 ^ 63
      → Ends (ys ++ xs) (run w size (encode 43 47 xs ++ tail) (at w size dest room ys bits 0))
  unfolding encode good_base64_tail
  run-encode [] ys bits h n = bind-some _ _ _ _ (run-end w size tail _ end) (
      subst
        (λ zs.
          finish w (stopped tail (at w size dest room ys bits 0))
          ≡ some (over (take size zs) dest, decoded (length zs)))
        (sym (append-nil ys))
        (finish-good w tail _ (omega arith) (rw (good_termination-end tail w end) refl)
          (omega (arith, length-append ys []))))
  run-encode (a ∷ []) ys bits h n =
      let g = a * 2 ^ 16 in
      let bits1 = shift bits (g / 2 ^ 18 % 64) in
      let (byte, rest) = last_byte bits a h.0 in
      subst (Ends (ys ++ a ∷ []))
        (sym (
          run-early w size dest room ys bits 0 (g / 2 ^ 18) _ (omega arith)
          ∙ run-byte w size dest room ys bits1 4 (g / 2 ^ 12) a _ byte
          ∙ run-stop w size 61 (61 ∷ tail) _ refl))
        (finish-good w (61 ∷ 61 ∷ tail) _ rest (rw (good_termination-end tail w end) refl) n)
  run-encode (a ∷ b ∷ []) ys bits h n =
      let g = a * 2 ^ 16 + b * 2 ^ 8 in
      let bits1 = shift bits (g / 2 ^ 18 % 64) in
      let bits2 = shift bits1 (g / 2 ^ 12 % 64) in
      let byte = (last_two_bytes bits a b h.0 h.1.0).0 in
      let (irrelevant, byte', rest) = last_two_bytes bits1 a b h.0 h.1.0 in
      let both : (ys ++ a ∷ []) ++ b ∷ [] ≡ ys ++ a ∷ b ∷ [] = append_assoc ys (a ∷ []) (b ∷ []) in
      subst (Ends (ys ++ a ∷ b ∷ []))
        (sym (
          run-early w size dest room ys bits 0 (g / 2 ^ 18) _ (omega arith)
          ∙ run-byte w size dest room ys bits1 4 (g / 2 ^ 12) a _ byte
          ∙ run-byte w size dest room (ys ++ a ∷ []) bits2 2 (g / 2 ^ 6) b _ byte'
          ∙ ap
              (λ zs.
                run w size (61 ∷ tail) (at w size dest room zs (shift bits2 (g / 2 ^ 6 % 64)) 2))
              both
          ∙ run-stop w size 61 tail _ refl))
        (finish-good w (61 ∷ tail) _ rest (rw (good_termination-end tail w end) refl) n)
  run-encode (a ∷ b ∷ c ∷ q) ys bits h n =
      let (bits', e) =
        run-quad w size dest room ys bits a b c (encode 43 47 q ++ tail) h.0 h.1.0 h.1.1.0 in
      let more : (ys ++ a ∷ b ∷ c ∷ []) ++ q ≡ ys ++ a ∷ b ∷ c ∷ q =
        append_assoc ys (a ∷ b ∷ c ∷ []) q in
      subst (Ends (ys ++ a ∷ b ∷ c ∷ q)) (sym e) (
        subst
          (λ zs. Ends zs (
            run w size (encode 43 47 q ++ tail)
              (at w size dest room (ys ++ a ∷ b ∷ c ∷ []) bits' 0)))
          more
          (run-encode q (ys ++ a ∷ b ∷ c ∷ []) bits' h.1.1.1 (omega (arith, ap length more, n))))

-- `base64_decode_buffer` of the text of some bytes, to the end of the source or a NUL, puts the
-- bytes in the buffer, as far as there is room, and returns their number.
pub base64_decode_buffer-encode :
    (xs tail dest : List ℕ) (size : ℕ) (ignore_wsp : Bool)
    → AllBytes xs
    → is_at_end tail ≡ true
    → size ≤ length dest
    → length xs < 2 ^ 63
    → base64_decode_buffer (encode 43 47 xs ++ tail) dest size 255 255 ignore_wsp
      ≡ some (over (take size xs) dest, decoded (length xs))
unfolding base64_decode_buffer run
base64_decode_buffer-encode xs tail dest size w h end room n =
    bind_assoc (fill 43 47 w (encode 43 47 xs ++ tail) size _) (scan_rest 43 47 w) (finish w)
    ∙ subst
        (λ ys.
          (run w size (encode 43 47 xs ++ tail)
              (record { dest = over ys dest; pi = 0; bits = 0; bit_count = 0 })
            >>= λ t. finish w t)
          ≡ some (over (take size xs) dest, decoded (length xs)))
        (take_all [] size (omega arith)) (run-encode w size dest room tail end xs [] 0 h n)
