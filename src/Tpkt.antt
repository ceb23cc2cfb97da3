-- ===== src/Tpkt.antt =====
-- tpkt.rs: TPKT framing, a version byte, a reserved byte and a 16-bit length over the whole packet.
pub mod Laws
mod Checks
use ferropipe_rdp.Common.{ℕ, ◌+◌, ◌-◌, ◌*◌, ◌%◌, ◌^◌, [], Bytes, length, ltb, ◌!=◌}
use ferropipe_rdp.Outcome.{Result, ok, short, protocol, ◌>>=◌, ◌>>◌, fail_if, index, slice}
use ferropipe_rdp.Wire.{ByteOps}

abbrev pub tpkt_version : ℕ
tpkt_version = 3

abbrev pub tpkt_header_len : ℕ
tpkt_header_len = 4

abbrev pub max_tpkt_payload : ℕ
max_tpkt_payload = 2 ^ 16 - 1 - tpkt_header_len

-- Does not read past the header; the declared length counts the header too.
unfoldable pub peek_total_len : Bytes → Result ℕ
peek_total_len buf = do
  fail_if (ltb (length buf) tpkt_header_len) (short tpkt_header_len (length buf))
  version ← index buf 0
  fail_if (version != tpkt_version) (protocol "bad TPKT version")
  hi ← index buf 2
  lo ← index buf 3
  let total = 256 * hi + lo
  fail_if (ltb total tpkt_header_len) (protocol "TPKT length shorter than header")
  ok total

module _ (B : ByteOps) where
  unfoldable pub encode : Bytes → Result Bytes
  encode payload = do
    fail_if (ltb max_tpkt_payload (length payload)) (protocol "TPKT payload exceeds u16 length")
    let total = (length payload + tpkt_header_len) % 2 ^ 16
    let head = B.put_u16 (B.put_u8 (B.put_u8 [] tpkt_version) 0) total
    ok (B.extend_from_slice head payload)

  unfoldable pub decode : Bytes → Result Bytes
  unfolding peek_total_len
  decode buf = do
    total ← peek_total_len buf
    fail_if (ltb (length buf) total) (short total (length buf))
    header ← slice buf 0 tpkt_header_len
    header' ← B.advance header 2
    B.get_u16 header'
    slice buf tpkt_header_len total
