-- ===== src/Mcs/Per/Lengths.antt =====
-- mcs/per.rs: which lengths are read back.
use ferropipe_rdp.Wire.{u16_be, ByteLaws, ByteOps, list_bytes, lawful-eq}
use ferropipe_rdp.Mcs.Per.{write_length, read_length}
use ferropipe_rdp.Common.{
  ltb→le, inr, ltb→lt, inl, Bool-cases, ltb, if◌then◌else◌, ◌%◌, ◌/◌, ◌/◌, ◌∷◌, ◌+◌, ◌∷◌, ◌+◌,
  append_assoc, arith, ◌≤◌, ◌≡◌, ◌≤◌, ◌≡◌, [], ◌++◌, ◌^◌, ◌++◌, ◌<◌, ◌<◌, ℕ, Bytes,
}
use ferropipe_rdp.Outcome.{protocol, ok, err}
use ferropipe_rdp.Common.Bits.{
  bit_or-shift_left, bit_and-0x3f, bit_or-low_left, bit_and-0xc0, bit_and-0x80,
}

-- The octets of a length determinant.
unfoldable pub length_octets : ℕ → Bytes
length_octets n =
    if ltb n 0x80
    then n ∷ []
    else if ltb n 0x4000
    then (0x80 + n / 256) ∷ (n % 256) ∷ []
    else 0xC1 ∷ u16_be n

pub write_length-octets :
    (out : Bytes) (n : ℕ) → write_length list_bytes out n ≡ out ++ length_octets n
unfolding write_length length_octets
write_length-octets out n =
    ground (arith, append_assoc out (0xC1 ∷ []) (u16_be n), bit_or-low_left 15 1 n)

pub read_length-octets :
    (n : ℕ) (rest : Bytes)
    → n < 0x4000
    → read_length list_bytes (length_octets n ++ rest) ≡ ok (n, rest)
unfolding read_length length_octets
read_length-octets n rest h = ground (
  arith,
  bit_and-0x80 n,
  bit_and-0x80 (0x80 + n / 256),
  bit_and-0xc0 (0x80 + n / 256),
  bit_and-0x3f (0x80 + n / 256),
  bit_or-shift_left 8 (n / 256) (n % 256),
)

pub read_length-long :
    (n : ℕ) (rest : Bytes)
    → 0x4000 ≤ n
    → read_length list_bytes (length_octets n ++ rest)
      ≡ err (protocol "unsupported PER fragmented length")
unfolding read_length length_octets
read_length-long n rest k = ground arith

read-write_length_list :
    (n : ℕ) (rest : Bytes)
    → n < 2 ^ 16
    → read_length list_bytes (write_length list_bytes [] n ++ rest)
      ≡ (if ltb n 0x4000 then ok (n, rest) else err (protocol "unsupported PER fragmented length"))
read-write_length_list n rest h = rw (write_length-octets [] n) (elim (Bool-cases (ltb n 0x4000)) [
  | inl e ↦ rw e (read_length-octets n rest (ltb→lt _ _ e))
  | inr e ↦ rw e (read_length-long n rest (ltb→le _ _ e))
])

-- Of the lengths up to 65535 that `write_length` writes, exactly those below 0x4000 are read back
-- by `read_length`; the form written for the others is refused.
pub read_length-write_length :
    (B : ByteOps)
    → ByteLaws B
    → (n : ℕ) (rest : Bytes) → n < 2 ^ 16
    → read_length B (write_length B [] n ++ rest)
      ≡ (if ltb n 0x4000 then ok (n, rest) else err (protocol "unsupported PER fragmented length"))
read_length-write_length B L = rw (lawful-eq L) read-write_length_list
