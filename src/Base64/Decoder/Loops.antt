-- ===== src/Base64/Decoder/Loops.antt =====
-- The two loops of `base64_decode_buffer` on characters of the alphabet, whichever loop reads
-- them.

use fsdyn.Prelude.{
  ℕ, zero, suc, ◌+◌, ◌-◌, ◌*◌, ◌/◌, ◌%◌, ◌^◌, ◌≤◌, ◌<◌, ◌≡◌, refl, sym, ap, ◌∙◌, bind-some, Option,
  some, ◌>>=◌, Bool, true, false, not, ◌&&◌, ◌||◌, ltb, leb, ◌==◌, if◌then◌else◌, List, [], ◌∷◌,
  ◌++◌, ltb→lt, le→leb, length, length-append, take, arith,
}
use fsdyn.Prelude.Int.{pos, negsuc}
use fsdyn.Prelude.Tables.{checked, checked-entry}
use fsdyn.Prelude.Buffers.{write, over, write-over, take_all}
use fsdyn.Base64.{base64_char}
use fsdyn.Base64.Decoder.{get_bits, Decoder, Scan, stopped, push, count_rest, fill, scan_rest}

-- The character for six bits is decoded to them, and is no end of the text.
is_read : Bool → ℕ → Bool
is_read ignore_wsp n = elim (get_bits (base64_char n 43 47) 43 47 ignore_wsp) [
  | pos v ↦ (v == n) && not (base64_char n 43 47 == 0 || base64_char n 43 47 == 61)
  | negsuc _ ↦ false
]

all_read : (ignore_wsp : Bool) → checked (is_read ignore_wsp) 64 0 ≡ true
unfolding checked is_read get_bits base64_char
all_read true = refl
all_read false = refl

pub char-read :
    (w : Bool) (n : ℕ)
    → n < 64
    → (get_bits (base64_char n 43 47) 43 47 w ≡ pos n)
      × ((base64_char n 43 47 == 0 || base64_char n 43 47 == 61) ≡ false)
unfolding is_read
char-read w n h =
    read-is (checked-entry (is_read w) 64 0 n (all_read w) (omega arith) (omega arith))
  where
    read-is :
        is_read w n ≡ true
        → (get_bits (base64_char n 43 47) 43 47 w ≡ pos n)
          × ((base64_char n 43 47 == 0 || base64_char n 43 47 == 61) ≡ false)
    read-is e = ground arith

pub base64_char-mod : (n : ℕ) → base64_char n 43 47 ≡ base64_char (n % 64) 43 47
unfolding base64_char
base64_char-mod n = let e : n % 2 ^ 8 % 64 ≡ n % 64 % 2 ^ 8 % 64 = omega arith in rw e refl

-- The two loops, one after the other.
unfoldable pub run : Bool → ℕ → List ℕ → Decoder → Option Scan
run w size source s = fill 43 47 w source size s >>= λ t. scan_rest 43 47 w t

module _ (w : Bool) (size : ℕ) where
  fill-full :
      (source : List ℕ) (s : Decoder)
      → ltb s.pi size ≡ false
      → fill 43 47 w source size s ≡ some (stopped source s)
  unfolding fill
  fill-full [] s full = refl
  fill-full (c ∷ source) s full = rw (fill, full) refl

  run-full :
      (source : List ℕ) (s : Decoder)
      → ltb s.pi size ≡ false
      → run w size source s ≡ count_rest 43 47 w source s
  unfolding run scan_rest
  run-full source s full = bind-some _ _ (stopped source s) _ (fill-full source s full) refl

  -- A character that is read as `n` makes each loop go on.
  fill-open :
      (c n : ℕ) (source : List ℕ) (s t : Decoder)
      → get_bits c 43 47 w ≡ pos n
      → (c == 0 || c == 61) ≡ false
      → ltb s.pi size ≡ true
      → push true s n ≡ some t
      → fill 43 47 w (c ∷ source) size s ≡ fill 43 47 w source size t
  unfolding fill
  fill-open c n source s t read more e p = rw (fill, e, more, read, p) refl

  count_rest-open :
      (c n : ℕ) (source : List ℕ) (s t : Decoder)
      → get_bits c 43 47 w ≡ pos n
      → (c == 0 || c == 61) ≡ false
      → push false s n ≡ some t
      → count_rest 43 47 w (c ∷ source) s ≡ count_rest 43 47 w source t
  unfolding count_rest
  count_rest-open c n source s t read more p = rw (count_rest, more, read, p) refl

  run-by_room :
      (c n : ℕ) (source : List ℕ) (s t : Decoder) (room : Bool)
      → get_bits c 43 47 w ≡ pos n
      → (c == 0 || c == 61) ≡ false
      → ltb s.pi size ≡ room
      → push room s n ≡ some t
      → s.pi ≤ t.pi
      → run w size (c ∷ source) s ≡ run w size source t
  unfolding run
  run-by_room c n source s t true read more e p le =
      ap (λ o. o >>= λ t. scan_rest 43 47 w t) (fill-open c n source s t read more e p)
  run-by_room c n source s t false read more e p le =
      run-full (c ∷ source) s e
      ∙ count_rest-open c n source s t read more p
      ∙ sym (run-full source t (ground arith))

  -- A character of the alphabet takes the run on by one `push`, in whichever loop it is read.
  pub run-push :
      (n : ℕ) (source : List ℕ) (s t : Decoder)
      → n < 64
      → push (ltb s.pi size) s n ≡ some t
      → s.pi ≤ t.pi
      → run w size (base64_char n 43 47 ∷ source) s ≡ run w size source t
  run-push n source s t h p le =
      let (read, more) = char-read w n h in
      run-by_room (base64_char n 43 47) n source s t (ltb s.pi size) read more refl p le

take-append_full {ℓ} :
    {A : Type ℓ} (n : ℕ) (xs ys : List A) → n ≤ length xs → take n (xs ++ ys) ≡ take n xs
take-append_full zero xs ys h = refl
take-append_full (suc n) [] ys h = absurd (omega arith)
take-append_full (suc n) (x ∷ xs) ys h = ap (◌∷◌ x) (take-append_full n xs ys (omega arith))

abbrev pub shift : ℕ → ℕ → ℕ
shift bits n = bits * 2 ^ 6 % 2 ^ 32 + n

module _ (w : Bool) (size : ℕ) (dest : List ℕ) (room : size ≤ length dest) where
  -- The bytes `ys` are decoded.
  abbrev pub at : List ℕ → ℕ → ℕ → Decoder
  at ys bits bit_count = record {
    dest = over (take size ys) dest;
    pi = length ys;
    bits = bits;
    bit_count = bit_count;
  }

  put-at :
      (ys : List ℕ) (c : ℕ) (b : Bool)
      → ltb (length ys) size ≡ b
      → (if b
          then write (over (take size ys) dest) (length ys) c
          else some (over (take size ys) dest))
        ≡ some (over (take size (ys ++ c ∷ [])) dest)
  put-at ys c true e =
      let short = ltb→lt (length ys) size e in
      rw
        (
          take_all ys size (omega arith),
          take_all (ys ++ c ∷ []) size (omega (arith, length-append ys (c ∷ []))),
        )
        (write-over ys dest c (omega arith))
  put-at ys c false e = rw (take-append_full size ys (c ∷ []) (ground arith)) refl

  pub push-early :
      (ys : List ℕ) (bits bit_count n : ℕ)
      → bit_count < 2
      → push (ltb (length ys) size) (at ys bits bit_count) n
        ≡ some (at ys (shift bits n) (bit_count + 6))
  unfolding push
  push-early ys bits bit_count n b = ground arith

  pub push-byte :
      (ys : List ℕ) (bits k n : ℕ)
      → push (ltb (length ys) size) (at ys bits (k + 2)) n
        ≡ some (at (ys ++ shift bits n / 2 ^ k % 2 ^ 8 ∷ []) (shift bits n) k)
  unfolding push
  push-byte ys bits k n =
      let c = shift bits n / 2 ^ k % 2 ^ 8 in
      let more : leb 8 (k + 2 + 6) ≡ true = le→leb 8 (k + 2 + 6) (omega arith) in
      let left : k + 2 + 6 - 8 ≡ k = omega arith in
      rw (more, left, put-at ys c (ltb (length ys) size) refl, length-append ys (c ∷ [])) refl
