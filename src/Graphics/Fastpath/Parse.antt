-- ===== src/Graphics/Fastpath/Parse.antt =====
-- graphics/fastpath.rs: parsing what a server sends, and arbitrary bytes.
use ferropipe_rdp.Graphics.Fastpath.{
  body_length, read_body, read_fp_length, read_updates, parse_output_pdu, read_update,
  FastPathUpdate,
}
use ferropipe_rdp.Common.{
  take, ◌-◌, take_all, zero, refl, ◌%◌, ◌%◌, ltb, if◌then◌else◌, [], All, length-drop, List,
  drop_left, take_left, length-append, bit_and, ◌/◌, arith, suc, ◌≤◌, ◌≤◌, ◌≢◌, ◌≡◌, ◌≢◌, ◌≡◌, ◌^◌,
  ◌*◌, ◌++◌, ◌∷◌, length, ◌++◌, ◌+◌, ℕ, Bytes, ◌<◌,
}
use ferropipe_rdp.Outcome.{◌>>=◌, ◌>>=◌, >>=-ne-panic, panic, ok}
use ferropipe_rdp.Wire.{u16_le}
use ferropipe_rdp.Common.Bits.{
  bit_or-shift_left, bit_and-0x7f, bit_and-0x80, bit_and-0x02, bit_and-0x03, bit_and-0x0f,
}

-- An update as a server writes it: uncompressed, in the given fragmentation.
abbrev pub IsUpdate : FastPathUpdate → Type 0
IsUpdate u = (u.update_code < 16) × (u.fragmentation < 4) × (length u.content < 2 ^ 16)

unfoldable pub write_update : FastPathUpdate → Bytes
write_update u = (u.update_code + 16 * u.fragmentation) ∷ (u16_le (length u.content) ++ u.content)

pub read_update-write_update :
    (u : FastPathUpdate) (rest : Bytes)
    → IsUpdate u
    → read_update (write_update u ++ rest) ≡ ok (u, rest)
unfolding read_update write_update
read_update-write_update u rest h = ground (
  arith,
  bit_and-0x0f (u.update_code + 16 * u.fragmentation),
  bit_and-0x03 ((u.update_code + 16 * u.fragmentation) / 2 ^ 4),
  bit_and-0x03 ((u.update_code + 16 * u.fragmentation) / 2 ^ 6),
  bit_and-0x02 (bit_and ((u.update_code + 16 * u.fragmentation) / 2 ^ 6) 0x03),
  length-append u.content rest,
  take_left u.content rest (length u.content),
  drop_left u.content rest (length u.content),
)

-- A round takes three bytes at least, and never panics on a body that is not empty.
read_update_takes :
    (b : ℕ) (body : Bytes) (u : FastPathUpdate) (rest : Bytes)
    → read_update (b ∷ body) ≡ ok (u, rest)
    → length rest + 3 ≤ suc (length body)
unfolding read_update
read_update_takes b (x ∷ y ∷ z ∷ r) u rest h =
    ground (arith, length-drop (x + 256 * y) (z ∷ r), length-drop (y + 256 * z) r)
read_update_takes b (x ∷ y ∷ []) u rest h = ground (arith, length-drop {A = ℕ} (x + 256 * y) [])
read_update_takes b _ u rest h = ground arith

read_update-ne-panic : (b : ℕ) (body : Bytes) → read_update (b ∷ body) ≢ panic
unfolding read_update
read_update-ne-panic b (x ∷ y ∷ z ∷ r) = λ e. ground arith
read_update-ne-panic b _ = λ e. ground arith

read_updates-ne-panic :
    (fuel : ℕ) (body : Bytes) → length body ≤ fuel → read_updates fuel body ≢ panic
unfolding read_updates
read_updates-ne-panic fuel [] h = λ e. cc
read_updates-ne-panic zero (b ∷ body) h = absurd (omega arith)
read_updates-ne-panic (suc fuel) (b ∷ body) h =
    >>=-ne-panic (read_update (b ∷ body)) _ (read_update-ne-panic b body) (λ p e.
      >>=-ne-panic (read_updates fuel p.1) _
        (read_updates-ne-panic fuel p.1 (omega (arith, read_update_takes b body p.0 p.1 e)))
        (λ us e' x. cc))

read_fp_length-ne-panic : (buf : Bytes) → read_fp_length buf ≢ panic
unfolding read_fp_length
read_fp_length-ne-panic [] = λ e. cc
read_fp_length-ne-panic (a ∷ []) = λ e. ground arith
read_fp_length-ne-panic (a ∷ b ∷ r) = λ e. ground arith

read_body-ne-panic : (n total_len : ℕ) (buf : Bytes) → read_body n total_len buf ≢ panic
unfolding read_body
read_body-ne-panic n total_len buf =
    let len : ℕ = body_length total_len (n - length buf) (length buf) in
    λ e. ground (arith, read_updates-ne-panic (length (take len buf)) (take len buf))

length_and_body-ne-panic :
    (n : ℕ) (buf : Bytes) → (read_fp_length buf >>= λ p. read_body n p.0 p.1) ≢ panic
length_and_body-ne-panic n buf =
    >>=-ne-panic (read_fp_length buf) _ (read_fp_length-ne-panic buf)
      (λ p e. read_body-ne-panic n p.0 p.1)

-- `parse_output_pdu` never panics and its loop always ends, whatever the bytes: it returns updates
-- or an error.
pub parse_output_pdu-ne-panic : (pdu : Bytes) → parse_output_pdu pdu ≢ panic
unfolding parse_output_pdu
parse_output_pdu-ne-panic [] = λ e. cc
parse_output_pdu-ne-panic (a ∷ r) = λ e. ground (arith, length_and_body-ne-panic (suc (length r)) r)

updates_bytes : List FastPathUpdate → Bytes
updates_bytes [] = []
updates_bytes (u ∷ us) = write_update u ++ updates_bytes us

-- A PDU as a server writes it, with a length of one or two bytes that counts the whole PDU.
unfoldable pub write_pdu : List FastPathUpdate → Bytes
unfolding updates_bytes
write_pdu us =
    let body = updates_bytes us in
    if ltb (length body + 2) 0x80
    then 0 ∷ (length body + 2) ∷ body
    else 0 ∷ (0x80 + (length body + 3) / 256) ∷ ((length body + 3) % 256) ∷ body

length-write_update :
    (u : FastPathUpdate) (rest : Bytes) → length rest + 3 ≤ length (write_update u ++ rest)
unfolding write_update
length-write_update u rest = omega (arith, length-append u.content rest)

updates_step :
    (u : FastPathUpdate) (rest : Bytes) (fuel : ℕ)
    → IsUpdate u
    → read_updates (suc fuel) (write_update u ++ rest)
      ≡ (do us ← read_updates fuel rest; ok (u ∷ us))
unfolding read_updates write_update
updates_step u rest fuel h = rw (read_update-write_update u rest h)

read_updates-bytes :
    (us : List FastPathUpdate) (fuel : ℕ)
    → All IsUpdate us
    → length (updates_bytes us) ≤ fuel
    → read_updates fuel (updates_bytes us) ≡ ok us
unfolding read_updates updates_bytes
read_updates-bytes [] fuel h enough = refl
read_updates-bytes (u ∷ us) zero h enough =
    absurd (omega (arith, length-write_update u (updates_bytes us)))
read_updates-bytes (u ∷ us) (suc fuel) h enough = rw (
  updates_step u (updates_bytes us) fuel h.0,
  read_updates-bytes us fuel h.1 (omega (arith, length-write_update u (updates_bytes us))),
)

-- Updates that were written into one PDU of less than 32768 bytes, of either length form, are
-- parsed to exactly these updates, in order.
pub parse_output_pdu-write_pdu :
    (us : List FastPathUpdate)
    → All IsUpdate us
    → length (write_pdu us) < 2 ^ 15
    → parse_output_pdu (write_pdu us) ≡ ok us
unfolding parse_output_pdu read_fp_length read_body write_pdu
parse_output_pdu-write_pdu us h fits =
    let body : Bytes = updates_bytes us in
    ground (
      arith,
      take_all (length body) body,
      read_updates-bytes us (length body) h,
      bit_and-0x80 (length body + 2),
      bit_and-0x80 (0x80 + (length body + 3) / 256),
      bit_and-0x7f (0x80 + (length body + 3) / 256),
      bit_or-shift_left 8 ((length body + 3) / 256) ((length body + 3) % 256),
    )
