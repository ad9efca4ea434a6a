-- ===== src/Base64/Decoder/Safe.antt =====
-- `base64_decode_buffer` of src/base64.c on any source: its writes and its assertion.
use fsdyn.Prelude.{
  ℕ, zero, suc, ◌+◌, ◌-◌, ◌*◌, ◌/◌, ◌%◌, ◌^◌, ◌<◌, ◌≡◌, refl, sym, ◌∙◌, Bool, true, false, not,
  ◌||◌, Bool-cases, leb→le, subst, ◌⊎◌, inl, inr, bind_assoc, Option-cases, Option, some, ◌>>=◌,
  ltb, leb, ◌==◌, if◌then◌else◌, List, [], ◌∷◌, length, arith,
}
use fsdyn.Prelude.Int.{ℤ, pos, negsuc}
use fsdyn.Prelude.Buffers.{write, write-inside}
use fsdyn.Base64.{default_char}
use fsdyn.Base64.Decoder.{
  get_bits, good_base64_tail, Decoder, Scan, illegal, stopped, push, count_rest, fill, scan_rest,
  finish, Decoding, eilseq, eoverflow, decoded, base64_decode_buffer,
}

module _ (size : ℕ) where
  -- The buffer has its size, and the bits that wait are an even number below 8.
  abbrev IsSound : Decoder → Type 0
  IsSound s = (length s.dest ≡ size) × (s.bit_count < 8) × (s.bit_count % 2 ≡ 0)

  abbrev Scans : Option Scan → Type 0
  Scans result =
      ((s : Decoder) × (result ≡ some (illegal s)) × IsSound s)
      ⊎ ((tail : List ℕ) × (s : Decoder) × (result ≡ some (stopped tail s)) × IsSound s)

  kept-inside :
      (is_kept : Bool) (dest : List ℕ) (i c : ℕ)
      → (is_kept ≡ true → i < length dest)
      → (r : List ℕ) × ((if is_kept then write dest i c else some dest) ≡ some r)
        × (length r ≡ length dest)
  kept-inside true dest i c h = write-inside dest i c (h refl)
  kept-inside false dest i c h = (dest, refl, refl)

  push-IsSound :
      (is_kept : Bool) (s : Decoder) (n : ℕ)
      → IsSound s
      → (is_kept ≡ true → s.pi < size)
      → (t : Decoder) × (push is_kept s n ≡ some t) × IsSound t
  unfolding push
  push-IsSound is_kept s n h room = elim (Bool-cases (leb 8 (s.bit_count + 6))) [
    | inl e ↦
        let bits = s.bits * 2 ^ 6 % 2 ^ 32 + n in
        let (r, wrote, size_kept) =
          kept-inside is_kept s.dest s.pi (bits / 2 ^ (s.bit_count + 6 - 8) % 2 ^ 8)
            (λ k. subst (λ m. s.pi < m) (sym h.0) (room k)) in
        (
          record { dest = r; pi = s.pi + 1; bits = bits; bit_count = s.bit_count + 6 - 8 },
          rw (push, e, wrote) refl,
          (size_kept ∙ h.0, omega (arith, h), omega (arith, h, leb→le 8 (s.bit_count + 6) e)),
        )
    | inr e ↦ (
      record s { bits = s.bits * 2 ^ 6 % 2 ^ 32 + n; bit_count = s.bit_count + 6 },
      rw (push, e) refl,
      (h.0, ground (arith, e), omega (arith, h)),
    )
  ]

  count_rest-step :
      (w : Bool) (pos62 pos63 c : ℕ) (source : List ℕ) (s : Decoder)
      → IsSound s
      → ((t : Decoder) → IsSound t → Scans (count_rest pos62 pos63 w source t))
      → (b : Bool) → (c == 0 || c == 61) ≡ b
      → (v : ℤ) → get_bits c pos62 pos63 w ≡ v
      → Scans (count_rest pos62 pos63 w (c ∷ source) s)
  unfolding count_rest
  count_rest-step w pos62 pos63 c source s h next true e v f =
      rw (count_rest, e) (inr (c ∷ source, s, refl, h))
  count_rest-step w pos62 pos63 c source s h next false e (pos n) f =
      let (t, pushed, sound) = push-IsSound false s n h (λ no. cc) in
      rw (count_rest, e, f, pushed) (next t sound)
  count_rest-step w pos62 pos63 c source s h next false e (negsuc zero) f =
      rw (count_rest, e, f) (inl (s, refl, h))
  count_rest-step w pos62 pos63 c source s h next false e (negsuc (suc zero)) f =
      rw (count_rest, e, f) (next s h)
  count_rest-step w pos62 pos63 c source s h next false e (negsuc (suc (suc n))) f =
      rw (count_rest, e, f) (inl (s, refl, h))

  count_rest-Scans :
      (w : Bool) (pos62 pos63 : ℕ) (source : List ℕ) (s : Decoder)
      → IsSound s
      → Scans (count_rest pos62 pos63 w source s)
  unfolding count_rest
  count_rest-Scans w pos62 pos63 [] s h = inr ([], s, refl, h)
  count_rest-Scans w pos62 pos63 (c ∷ source) s h =
      count_rest-step w pos62 pos63 c source s h (count_rest-Scans w pos62 pos63 source) _ refl _
        refl

  fill-step :
      (w : Bool) (pos62 pos63 c : ℕ) (source : List ℕ) (s : Decoder)
      → IsSound s
      → ((t : Decoder) → IsSound t → Scans (fill pos62 pos63 w source size t))
      → (b : Bool) → (not (ltb s.pi size) || c == 0 || c == 61) ≡ b
      → (v : ℤ) → get_bits c pos62 pos63 w ≡ v
      → Scans (fill pos62 pos63 w (c ∷ source) size s)
  unfolding fill
  fill-step w pos62 pos63 c source s h next true e v f = rw (fill, e) (inr (c ∷ source, s, refl, h))
  fill-step w pos62 pos63 c source s h next false e (pos n) f =
      let (t, pushed, sound) = push-IsSound true s n h (λ yes. ground (arith, e)) in
      rw (fill, e, f, pushed) (next t sound)
  fill-step w pos62 pos63 c source s h next false e (negsuc zero) f =
      rw (fill, e, f) (inl (s, refl, h))
  fill-step w pos62 pos63 c source s h next false e (negsuc (suc zero)) f =
      rw (fill, e, f) (next s h)
  fill-step w pos62 pos63 c source s h next false e (negsuc (suc (suc n))) f =
      rw (fill, e, f) (inl (s, refl, h))

  fill-Scans :
      (w : Bool) (pos62 pos63 : ℕ) (source : List ℕ) (s : Decoder)
      → IsSound s
      → Scans (fill pos62 pos63 w source size s)
  unfolding fill
  fill-Scans w pos62 pos63 [] s h = inr ([], s, refl, h)
  fill-Scans w pos62 pos63 (c ∷ source) s h =
      fill-step w pos62 pos63 c source s h (fill-Scans w pos62 pos63 source) _ refl _ refl

  scan_rest-Scans :
      (w : Bool) (pos62 pos63 : ℕ) (result : Option Scan)
      → Scans result
      → Scans (result >>= λ t. scan_rest pos62 pos63 w t)
  unfolding scan_rest
  scan_rest-Scans w pos62 pos63 result (inl (s, e, h)) = rw e (inl (s, refl, h))
  scan_rest-Scans w pos62 pos63 result (inr (tail, s, e, h)) =
      rw e (count_rest-Scans w pos62 pos63 tail s h)

  -- The assertion holds for an even number of bits.
  good_base64_tail-some :
      (tail : List ℕ) (bit_count : ℕ) (w : Bool)
      → bit_count < 8
      → bit_count % 2 ≡ 0
      → (good : Bool) × (good_base64_tail tail bit_count w ≡ some good)
  unfolding good_base64_tail
  good_base64_tail-some tail bit_count w lt even =
      elim (Option-cases (good_base64_tail tail bit_count w)) [
        | inl e ↦ absurd (ground (arith, e))
        | inr found ↦ found
      ]

  finish-some :
      (w : Bool) (result : Option Scan)
      → Scans result
      → (r : List ℕ × Decoding) × ((result >>= λ t. finish w t) ≡ some r) × (length (r.0) ≡ size)
  unfolding finish
  finish-some w result (inl (s, e, h)) = ((s.dest, eilseq), rw e refl, h.0)
  finish-some w result (inr (tail, s, e, h)) =
      let (good, found) = good_base64_tail-some tail s.bit_count w h.1 h.2 in
      let code =
        if not (s.bits % 2 ^ s.bit_count == 0) || not good
        then eilseq
        else if leb (2 ^ 63) s.pi
        then eoverflow
        else decoded s.pi in
      ((s.dest, code), rw (e, found) refl, h.0)

-- For any source, alphabet and buffer, `base64_decode_buffer` ends without a write outside of the
-- buffer and without a failed assertion.
pub base64_decode_buffer-IsSafe :
    (source dest : List ℕ) (pos62 pos63 : ℕ) (ignore_wsp : Bool)
    → (r : List ℕ × Decoding) × (base64_decode_buffer source dest
          (length dest)
          pos62
          pos63
          ignore_wsp
        ≡ some r)
      × (length (r.0) ≡ length dest)
unfolding base64_decode_buffer
base64_decode_buffer-IsSafe source dest pos62 pos63 w =
    let size = length dest in
    let c62 = default_char pos62 43 in
    let c63 = default_char pos63 47 in
    let start : Decoder = record { dest = dest; pi = 0; bits = 0; bit_count = 0 } in
    let filled = fill c62 c63 w source size start in
    let (r, e, n) = finish-some size w _ (
      scan_rest-Scans size w c62 c63 filled
        (fill-Scans size w c62 c63 source start (refl, omega arith, refl))) in
    (r, bind_assoc filled (scan_rest c62 c63 w) (finish w) ∙ e, n)
