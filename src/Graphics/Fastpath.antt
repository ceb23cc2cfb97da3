-- ===== src/Graphics/Fastpath.antt =====
-- graphics/fastpath.rs: the fast-path output PDU and the updates in it.
pub mod Parse
mod Checks
use ferropipe_rdp.Common.{
  ◌+◌, ◌*◌, zero, ◌+◌, ◌*◌, ◌^◌, bit_or, ◌^◌, [], ◌==◌, ◌/◌, suc, ◌==◌, ◌/◌, length, ◌∷◌, is_empty,
  ◌-◌, ◌!=◌, ◌-◌, ◌!=◌, ltb, bit_and, List, if◌then◌else◌, ℕ, Bytes,
}
use ferropipe_rdp.Outcome.{
  slice_to, slice_from, protocol, short, panic, ok, index, fail_if, ◌>>◌, ◌>>=◌, Result,
}

abbrev pub updatetype_bitmap : ℕ
updatetype_bitmap = 0x1

abbrev pub updatetype_ptr_null : ℕ
updatetype_ptr_null = 0x5

abbrev pub updatetype_ptr_position : ℕ
updatetype_ptr_position = 0x8

abbrev pub updatetype_color : ℕ
updatetype_color = 0x9

abbrev pub updatetype_pointer : ℕ
updatetype_pointer = 0xB

abbrev pub fragment_single : ℕ
fragment_single = 0x0

abbrev pub fragment_last : ℕ
fragment_last = 0x1

abbrev pub fragment_first : ℕ
fragment_first = 0x2

abbrev pub fragment_next : ℕ
fragment_next = 0x3

abbrev pub compression_used : ℕ
compression_used = 0x2

pub record FastPathUpdate : Type 0 where
  pub update_code : ℕ
  pub fragmentation : ℕ
  pub content : Bytes

-- One or two bytes of length, and what follows.
unfoldable pub read_fp_length : Bytes → Result (ℕ × Bytes)
read_fp_length buf = do
  fail_if (is_empty buf) (short 1 0)
  b0 ← index buf 0
  if bit_and b0 0x80 == 0 then (do rest ← slice_from buf 1; ok (b0, rest)) else (do
    fail_if (ltb (length buf) 2) (short 2 (length buf))
    b1 ← index buf 1
    rest ← slice_from buf 2
    ok (bit_or (bit_and b0 0x7f * 2 ^ 8) b1, rest))

-- The `compressionFlags` byte, which is skipped where it is there.
abbrev pub skip_compression : ℕ → Bytes → Result Bytes
skip_compression compression body =
    if bit_and compression compression_used != 0
    then (do fail_if (is_empty body) (short 1 0); slice_from body 1)
    else ok body

-- One round of the loop: an update and the rest of the body.
unfoldable pub read_update : Bytes → Result (FastPathUpdate × Bytes)
read_update body = do
  update_header ← index body 0
  body1 ← slice_from body 1
  let update_code = bit_and update_header 0x0f
  let fragmentation = bit_and (update_header / 2 ^ 4) 0x03
  let compression = bit_and (update_header / 2 ^ 6) 0x03
  body2 ← skip_compression compression body1
  fail_if (ltb (length body2) 2) (short 2 (length body2))
  lo ← index body2 0
  hi ← index body2 1
  let size = lo + 256 * hi
  body3 ← slice_from body2 2
  fail_if (ltb (length body3) size) (short size (length body3))
  content ← slice_to body3 size
  rest ← slice_from body3 size
  ok (record { update_code = update_code; fragmentation = fragmentation; content = content }, rest)

-- `while !body.is_empty()`, on fuel: each round takes three bytes at least.
unfoldable pub read_updates : ℕ → Bytes → Result (List FastPathUpdate)
read_updates fuel [] = ok []
read_updates zero (b ∷ body) = panic
read_updates (suc fuel) (b ∷ body) = do
  (u, rest) ← read_update (b ∷ body)
  us ← read_updates fuel rest
  ok (u ∷ us)

-- `total_len.checked_sub(consumed).unwrap_or(buf.len())`
abbrev pub body_length : ℕ → ℕ → ℕ → ℕ
body_length total_len consumed rest = if ltb total_len consumed then rest else total_len - consumed

-- The updates of the PDU, once its length is read.
unfoldable pub read_body : ℕ → ℕ → Bytes → Result (List FastPathUpdate)
read_body pdu_len total_len buf = do
  let consumed = pdu_len - length buf
  let body_len = body_length total_len consumed (length buf)
  fail_if (ltb (length buf) body_len) (short body_len (length buf))
  body ← slice_to buf body_len
  read_updates (length body) body

unfoldable pub parse_output_pdu : Bytes → Result (List FastPathUpdate)
parse_output_pdu pdu = do
  fail_if (is_empty pdu) (short 1 0)
  header ← index pdu 0
  buf ← slice_from pdu 1
  fail_if (bit_and header 0x03 != 0) (protocol "not a fast-path output PDU")
  fail_if (bit_and header 0xC0 != 0) (protocol "unexpected fast-path security flags under TLS")
  (total_len, buf') ← read_fp_length buf
  read_body (length pdu) total_len buf'
