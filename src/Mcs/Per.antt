-- ===== src/Mcs/Per.antt =====
-- mcs/per.rs: the ALIGNED PER primitives that the MCS domain PDUs and GCC use.
pub mod Lengths
use ferropipe_rdp.Wire.{ByteOps}
use ferropipe_rdp.Common.{
  ◌==◌, ◌*◌, ◌==◌, ◌*◌, bit_and, ◌^◌, ◌^◌, bit_or, ◌%◌, is_empty, ◌%◌, ltb, if◌then◌else◌, length,
  ℕ, Bytes,
}
use ferropipe_rdp.Outcome.{protocol, err, ok, ◌>>=◌, short, fail_if, ◌>>◌, Result}

module _ (B : ByteOps) where
  -- A length determinant. From 0x4000 on: the single-fragment form.
  unfoldable pub write_length : Bytes → ℕ → Bytes
  write_length out n =
      if ltb n 0x80
      then B.put_u8 out (n % 256)
      else if ltb n 0x4000
      then B.put_u16 out (bit_or (n % 2 ^ 16) 0x8000)
      else B.put_u16 (B.put_u8 out 0xC1) (n % 2 ^ 16)

  abbrev pub second_octet : ℕ → Bytes → Result (ℕ × Bytes)
  second_octet first buf = do
    fail_if (is_empty buf) (short 1 0)
    (lo, rest) ← B.get_u8 buf
    ok (bit_or (bit_and first 0x3f * 2 ^ 8) lo, rest)

  unfoldable pub read_length : Bytes → Result (ℕ × Bytes)
  read_length buf = do
    fail_if (is_empty buf) (short 1 0)
    (first, rest) ← B.get_u8 buf
    if bit_and first 0x80 == 0
        then ok (first, rest)
        else if bit_and first 0xC0 == 0x80
        then second_octet first rest
        else err (protocol "unsupported PER fragmented length")

  unfoldable pub write_u16 : Bytes → ℕ → Bytes
  write_u16 out v = B.put_u16 out v

  unfoldable pub write_u8 : Bytes → ℕ → Bytes
  write_u8 out v = B.put_u8 out v

  unfoldable pub write_object_identifier : Bytes → Bytes → Bytes
  write_object_identifier out oid_encoded =
      B.extend_from_slice (write_length out (length oid_encoded)) oid_encoded

  unfoldable pub write_octet_string : Bytes → Bytes → Bytes
  write_octet_string out octets = B.extend_from_slice (write_length out (length octets)) octets
