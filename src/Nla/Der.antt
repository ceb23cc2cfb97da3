-- ===== src/Nla/Der.antt =====
-- nla/der.rs: the DER encodings, and the reader over a slice: what is read, and what is left. The
-- bytes of a number are put together and taken apart by the loops of mcs/ber.rs.
pub mod Laws
use ferropipe_rdp.Mcs.Ber.{insert_bytes, fold_bytes}
use ferropipe_rdp.Common.{
  ◌||◌, ◌||◌, ◌!=◌, is_empty, get_or, ◌!=◌, ◌++◌, bit_or, bit_and, ◌++◌, ◌==◌, ◌%◌, ltb, length,
  ◌==◌, ◌%◌, ◌∷◌, ◌+◌, ◌∷◌, if◌then◌else◌, [], ◌+◌, ℕ, Bytes,
}
use ferropipe_rdp.Outcome.{
  slice, slice_from, protocol, index, short, ok, fail_if, ◌>>◌, ◌>>=◌, Result,
}

abbrev pub tag_integer : ℕ
tag_integer = 0x02

abbrev pub tag_octet_string : ℕ
tag_octet_string = 0x04

abbrev pub tag_sequence : ℕ
tag_sequence = 0x30

-- `0xA0 + n` on a u8
abbrev pub context_tag : ℕ → ℕ
context_tag n = (0xA0 + n) % 256

-- A `usize` has 8 bytes.
unfoldable pub encode_len : ℕ → Bytes
unfolding insert_bytes
encode_len len =
    if ltb len 0x80
    then (len % 256) ∷ []
    else (let bytes = insert_bytes 8 len [] in bit_or 0x80 (length bytes % 256) ∷ bytes)

unfoldable pub der_tlv : ℕ → Bytes → Bytes
unfolding encode_len
der_tlv tag value = tag ∷ (encode_len (length value) ++ value)

-- A zero in front where the first byte would make the number negative.
unfoldable pub der_integer_bytes : ℕ → Bytes
unfolding insert_bytes
der_integer_bytes v =
    let bytes = insert_bytes 8 v [] in
    if v == 0 then 0 ∷ [] else if bit_and (get_or bytes 0 0) 0x80 != 0 then 0 ∷ bytes else bytes

unfoldable pub der_integer : ℕ → Bytes
unfolding der_tlv der_integer_bytes
der_integer v = der_tlv tag_integer (der_integer_bytes v)

unfoldable pub der_octet_string : Bytes → Bytes
unfolding der_tlv
der_octet_string bytes = der_tlv tag_octet_string bytes

unfoldable pub der_sequence : Bytes → Bytes
unfolding der_tlv
der_sequence contents = der_tlv tag_sequence contents

unfoldable pub context : ℕ → Bytes → Bytes
unfolding der_tlv
context n contents = der_tlv (context_tag n) contents

-- The length, and the bytes of its header.
unfoldable pub decode_len : Bytes → Result (ℕ × ℕ)
unfolding fold_bytes
decode_len buf = do
  fail_if (is_empty buf) (short 1 0)
  first ← index buf 0
  if ltb first 0x80 then ok (first, 1) else (do
    let n = bit_and first 0x7f
    fail_if (n == 0 || ltb 4 n || ltb (length buf) (1 + n)) (protocol "bad DER length")
    octets ← slice buf 1 (1 + n)
    ok (fold_bytes 64 0 octets, 1 + n))

unfoldable pub read_tlv : Bytes → Result ((ℕ × Bytes) × Bytes)
unfolding decode_len
read_tlv buf = do
  fail_if (ltb (length buf) 2) (short 2 (length buf))
  tag ← index buf 0
  behind ← slice_from buf 1
  (len, header) ← decode_len behind
  let start = 1 + header
  let end = start + len
  fail_if (ltb (length buf) end) (short end (length buf))
  value ← slice buf start end
  rest ← slice_from buf end
  ok ((tag, value), rest)

unfoldable pub expect_tag : ℕ → Bytes → Result (Bytes × Bytes)
unfolding read_tlv
expect_tag tag buf = do
  ((t, v), rest) ← read_tlv buf
  fail_if (t != tag) (protocol "unexpected DER tag")
  ok (v, rest)

unfoldable pub read_der_integer : Bytes → Result (ℕ × Bytes)
unfolding expect_tag fold_bytes
read_der_integer buf = do (v, rest) ← expect_tag tag_integer buf; ok (fold_bytes 64 0 v, rest)
