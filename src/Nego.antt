-- ===== src/Nego.antt =====
-- nego.rs: the RDP security-protocol negotiation structures, eight bytes each, little-endian.
pub mod Laws
mod Checks
use ferropipe_rdp.Common.{
  ℕ, ◌-◌, Bool, ◌||◌, String, Bytes, length, ltb, ◌==◌, ◌!=◌, bit_and, bit_or, if◌then◌else◌,
}
use ferropipe_rdp.Outcome.{Result, ok, err, short, protocol, ◌>>=◌, ◌>>◌, fail_if}
use ferropipe_rdp.Wire.{ByteOps}

-- A bitmask of security protocols.
pub record SecurityProtocol : Type 0 where
  pub bits : ℕ

abbrev pub ssl : ℕ
ssl = 0x1

abbrev pub hybrid : ℕ
hybrid = 0x2

abbrev pub rdstls : ℕ
rdstls = 0x4

abbrev pub hybrid_ex : ℕ
hybrid_ex = 0x8

unfoldable pub has : SecurityProtocol → ℕ → Bool
has p bit = bit == 0 || bit_and p.bits bit != 0

unfoldable pub with_bit : SecurityProtocol → ℕ → SecurityProtocol
with_bit p bit = record { bits = bit_or p.bits bit }

abbrev pub type_rdp_neg_req : ℕ
type_rdp_neg_req = 0x01

abbrev pub type_rdp_neg_rsp : ℕ
type_rdp_neg_rsp = 0x02

abbrev pub type_rdp_neg_failure : ℕ
type_rdp_neg_failure = 0x03

abbrev pub neg_len : ℕ
neg_len = 8

pub record NegotiationRequest : Type 0 where
  pub flags : ℕ
  pub requested : SecurityProtocol

abbrev pub request_size : ℕ
request_size = 8

pub data NegotiationResponse : Type 0 where
  selected : ℕ → SecurityProtocol → NegotiationResponse
  failure : ℕ → NegotiationResponse

abbrev pub response_size : ℕ
response_size = 8

unfoldable pub failure_reason : ℕ → String
failure_reason code =
    if code == 0x0001
    then "SSL_REQUIRED_BY_SERVER"
    else if code == 0x0002
    then "SSL_NOT_ALLOWED_BY_SERVER"
    else if code == 0x0003
    then "SSL_CERT_NOT_ON_SERVER"
    else if code == 0x0004
    then "INCONSISTENT_FLAGS"
    else if code == 0x0005
    then "HYBRID_REQUIRED_BY_SERVER"
    else if code == 0x0006
    then "SSL_WITH_USER_AUTH_REQUIRED_BY_SERVER"
    else "unknown negotiation failure"

module _ (B : ByteOps) where
  unfoldable pub write_request : NegotiationRequest → Bytes → Bytes
  write_request r out =
      B.put_u32_le (B.put_u16_le (B.put_u8 (B.put_u8 out type_rdp_neg_req) r.flags) neg_len)
        r.requested.bits

  -- The cursor `&mut &[u8]` is the argument, and what is left is returned.
  unfoldable pub read_request : Bytes → Result (NegotiationRequest × Bytes)
  read_request buf = do
    fail_if (ltb (length buf) request_size) (short request_size (length buf))
    (ty, buf') ← B.get_u8 buf
    fail_if (ty != type_rdp_neg_req) (protocol "not an RDP_NEG_REQ")
    (flags, buf'') ← B.get_u8 buf'
    (len, buf''') ← B.get_u16_le buf''
    (requested, rest) ← B.get_u32_le buf'''
    ok (record { flags = flags; requested = record { bits = requested } }, rest)

  unfoldable pub write_response : NegotiationResponse → Bytes → Bytes
  write_response (selected flags p) out =
      B.put_u32_le (B.put_u16_le (B.put_u8 (B.put_u8 out type_rdp_neg_rsp) flags) neg_len) p.bits
  write_response (failure code) out =
      B.put_u32_le (B.put_u16_le (B.put_u8 (B.put_u8 out type_rdp_neg_failure) 0) neg_len) code

  unfoldable pub read_response : Bytes → Result (NegotiationResponse × Bytes)
  read_response buf = do
    fail_if (ltb (length buf) response_size) (short response_size (length buf))
    (ty, buf') ← B.get_u8 buf
    (flags, buf'') ← B.get_u8 buf'
    (len, buf''') ← B.get_u16_le buf''
    (value, rest) ← B.get_u32_le buf'''
    if ty == type_rdp_neg_rsp
        then ok (selected flags (record { bits = value }), rest)
        else if ty == type_rdp_neg_failure
        then ok (failure value, rest)
        else err (protocol "not an RDP_NEG_RSP/FAILURE")
