-- ===== src/Multitransport.antt =====
-- multitransport.rs: the request to open a side-band transport, and the response.
pub mod Laws
mod Checks
use ferropipe_rdp.Wire.{ByteOps}
use ferropipe_rdp.Common.{
  ◌||◌, ◌||◌, ◌==◌, ◌==◌, ◌*◌, ◌*◌, ◌+◌, ◌+◌, leb, length, if◌then◌else◌, some, none, ltb, ◌∷◌, ◌∷◌,
  [], Option, ℕ, List, Bytes,
}
use ferropipe_rdp.Outcome.{
  slice_from, slice_to, index, ◌>>=◌, short, panic, err, ok, fail_if, ◌>>◌, Result,
}

abbrev pub protocol_udpfecr : ℕ
protocol_udpfecr = 0x01

abbrev pub protocol_udpfecl : ℕ
protocol_udpfecl = 0x02

abbrev pub transporttype_udpfecr : ℕ
transporttype_udpfecr = 0x01

abbrev pub transporttype_udp_preferred : ℕ
transporttype_udp_preferred = 0x100

pub record InitiateRequest : Type 0 where
  pub request_id : ℕ
  pub requested_protocol : ℕ
  pub security_cookie : Bytes

module _ (B : ByteOps) where
  unfoldable pub parse_initiate : Bytes → Result InitiateRequest
  parse_initiate buf = do
    fail_if (ltb (length buf) 24) (short 24 (length buf))
    (request_id, b1) ← B.get_u32_le buf
    (requested_protocol, b2) ← B.get_u16_le b1
    (reserved, b3) ← B.get_u16_le b2
    security_cookie ← slice_to b3 16
    ok (record {
      request_id = request_id;
      requested_protocol = requested_protocol;
      security_cookie = security_cookie;
    })

  -- `Result::ok`
  abbrev pub found : Result InitiateRequest → Result (Option InitiateRequest)
  found (ok r) = ok (some r)
  found (err e) = ok none
  found panic = panic

  -- `for off in [0, 4]`: the first offset with a transport that is known.
  unfoldable pub detect_at : List ℕ → Bytes → Result (Option InitiateRequest)
  unfolding parse_initiate
  detect_at [] pdu = ok none
  detect_at (off ∷ offs) pdu =
      let later = detect_at offs pdu in
      if leb (off + 24) (length pdu)
      then (do
        lo ← index pdu (off + 4)
        hi ← index pdu (off + 5)
        let proto = lo + 256 * hi
        if proto == protocol_udpfecr || proto == protocol_udpfecl
            then (do part ← slice_from pdu off; found (parse_initiate part))
            else later)
      else later

  unfoldable pub detect : Bytes → Result (Option InitiateRequest)
  unfolding detect_at
  detect pdu = detect_at (0 ∷ 4 ∷ []) pdu

  unfoldable pub initiate_response : ℕ → ℕ → Bytes
  initiate_response request_id hr_response = B.put_u32_le (B.put_u32_le [] request_id) hr_response
