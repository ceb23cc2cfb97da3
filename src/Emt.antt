-- ===== src/Emt.antt =====
-- emt.rs: the PDUs of a multitransport tunnel.
pub mod Laws
mod Checks
use ferropipe_rdp.Wire.{from_u32_le, ByteOps}
use ferropipe_rdp.Common.{
  ◌+◌, ◌+◌, ◌||◌, ◌||◌, ◌^◌, ◌^◌, ◌%◌, ltb, ◌%◌, ◌==◌, length, ◌==◌, if◌then◌else◌, bit_and, [], ℕ,
  Bytes,
}
use ferropipe_rdp.Outcome.{slice, protocol, ok, index, ◌>>=◌, short, fail_if, ◌>>◌, Result}

abbrev pub action_create_request : ℕ
action_create_request = 0x0

abbrev pub action_create_response : ℕ
action_create_response = 0x1

abbrev pub action_data : ℕ
action_data = 0x2

abbrev pub min_header_len : ℕ
min_header_len = 4

pub data TunnelPdu : Type 0 where
  create_response : ℕ → TunnelPdu
  data_pdu : Bytes → TunnelPdu
  other : ℕ → TunnelPdu

module _ (B : ByteOps) where
  unfoldable pub tunnel_pdu : ℕ → Bytes → Bytes
  tunnel_pdu action body =
      let o1 = B.put_u8 [] (bit_and action 0x0f) in
      let o2 = B.put_u16_le o1 (length body % 2 ^ 16) in
      let o3 = B.put_u8 o2 min_header_len in B.extend_from_slice o3 body

  unfoldable pub create_request : ℕ → Bytes → Bytes
  unfolding tunnel_pdu
  create_request request_id security_cookie =
      let b1 = B.put_u32_le [] request_id in
      let b2 = B.put_u32_le b1 0 in
      tunnel_pdu action_create_request (B.extend_from_slice b2 security_cookie)

  unfoldable pub data_message : Bytes → Bytes
  unfolding tunnel_pdu
  data_message higher_layer = tunnel_pdu action_data higher_layer

  unfoldable pub parse_body : ℕ → Bytes → Result TunnelPdu
  parse_body action body =
      if action == action_create_response
      then (do
        fail_if (ltb (length body) 4) (short 4 (length body))
        a ← index body 0
        b ← index body 1
        c ← index body 2
        d ← index body 3
        ok (create_response (from_u32_le a b c d)))
      else if action == action_data
      then ok (data_pdu body)
      else ok (other action)

  unfoldable pub parse : Bytes → Result TunnelPdu
  unfolding parse_body
  parse pdu = do
    fail_if (ltb (length pdu) min_header_len) (short min_header_len (length pdu))
    (first, b1) ← B.get_u8 pdu
    (payload_len, b2) ← B.get_u16_le b1
    (header_len, b3) ← B.get_u8 b2
    fail_if (ltb header_len min_header_len || ltb (length pdu) (header_len + payload_len))
        (protocol "bad RDP_TUNNEL_HEADER length")
    body ← slice pdu header_len (header_len + payload_len)
    parse_body (bit_and first 0x0f) body
