-- ===== src/Multitransport/Laws.antt =====
-- multitransport.rs: a request is found where it stands.
use ferropipe_rdp.Wire.{ByteOps, ByteLaws, list_bytes, lawful-eq, u16_le, u32_le}
use ferropipe_rdp.Multitransport.{
  found, InitiateRequest, parse_initiate, detect, protocol_udpfecr, protocol_udpfecl,
}
use ferropipe_rdp.Common.{
  append-nil, [], inr, inl, ◌/◌, Bool-cases, ◌/◌, take, ◌*◌, ◌+◌, ◌||◌, ◌==◌, ◌%◌, ◌%◌,
  if◌then◌else◌, ap, ◌∙◌, ◌∙◌, length-append, take_left, some, arith, length, ◌⊎◌, ◌⊎◌, ◌≡◌, ◌++◌,
  ◌≡◌, ◌++◌, ◌^◌, ◌^◌, Bytes, ℕ, ◌<◌,
}
use ferropipe_rdp.Outcome.{ok}

-- A request as a server sends it.
abbrev pub sent_request : InitiateRequest → ℕ → Bytes
sent_request r reserved =
    u32_le r.request_id ++ (u16_le r.requested_protocol ++ (u16_le reserved ++ r.security_cookie))

abbrev pub IsInitiateRequest : InitiateRequest → Type 0
IsInitiateRequest r =
    (r.request_id < 2 ^ 32)
    × ((r.requested_protocol ≡ protocol_udpfecr) ⊎ (r.requested_protocol ≡ protocol_udpfecl))
    × (length r.security_cookie ≡ 16)

parse-sent_request :
    (r : InitiateRequest) (reserved : ℕ) (rest : Bytes)
    → IsInitiateRequest r
    → parse_initiate list_bytes (sent_request r reserved ++ rest) ≡ ok r
unfolding parse_initiate
parse-sent_request r reserved rest (hi, hp, hc) =
    ground (arith, take_left r.security_cookie rest 16, length-append r.security_cookie rest)

-- The first offset is taken.
first_offset :
    (r : InitiateRequest) (reserved : ℕ) (rest : Bytes)
    → IsInitiateRequest r
    → detect list_bytes (sent_request r reserved ++ rest)
      ≡ found list_bytes (parse_initiate list_bytes (sent_request r reserved ++ rest))
unfolding detect
first_offset r reserved rest (hi, hp, hc) = ground (arith, length-append r.security_cookie rest)

detect-sent_request_list :
    (r : InitiateRequest) (reserved : ℕ) (rest : Bytes)
    → IsInitiateRequest r
    → detect list_bytes (sent_request r reserved ++ rest) ≡ ok (some r)
unfolding detect
detect-sent_request_list r reserved rest h =
    first_offset r reserved rest h ∙ ap (found list_bytes) (parse-sent_request r reserved rest h)

-- detect: a request for either transport that stands at the front of a PDU is found, and nothing of
-- it is lost, whatever follows.
pub detect-sent_request :
    {B : ByteOps} (L : ByteLaws B) (r : InitiateRequest) (reserved : ℕ) (rest : Bytes)
    → IsInitiateRequest r
    → detect B (sent_request r reserved ++ rest) ≡ ok (some r)
detect-sent_request L = rw (lawful-eq L) detect-sent_request_list

-- What is read where the request is behind a header of four bytes, as a Basic Security Header is.
abbrev pub behind_header : ℕ → ℕ → InitiateRequest → ℕ → InitiateRequest
behind_header flags flags_hi r reserved =
    if r.request_id % 2 ^ 16 == 1 || r.request_id % 2 ^ 16 == 2
    then record {
      request_id = flags + 2 ^ 16 * flags_hi;
      requested_protocol = r.request_id % 2 ^ 16;
      security_cookie =
          take 16 (u16_le r.requested_protocol ++ (u16_le reserved ++ r.security_cookie));
    }
    else r

low_half : (v : ℕ) → v % 256 + 256 * (v / 256 % 256) ≡ v % 2 ^ 16
low_half v = omega arith

pub detect_header_list :
    (flags flags_hi reserved : ℕ) (r : InitiateRequest)
    → flags < 2 ^ 16
    → flags_hi < 2 ^ 16
    → IsInitiateRequest r
    → detect list_bytes (u16_le flags ++ (u16_le flags_hi ++ sent_request r reserved))
      ≡ ok (some (behind_header flags flags_hi r reserved))
unfolding detect parse_initiate
detect_header_list flags flags_hi reserved r hf hh (hi, hp, hc) =
    let low = r.request_id % 2 ^ 16 in
    elim (Bool-cases (low == 1 || low == 2)) [
      | inl e ↦ rw (low_half r.request_id, e) (ground arith)
      | inr e ↦
          rw (low_half r.request_id, e)
            (ground
              (arith, parse-sent_request r reserved [] (hi, hp, hc), append-nil r.security_cookie))
    ]

-- detect: a request behind a header of four bytes is found with all its fields, except where the low
-- half of its request id is 1 or 2. Then that half is taken for the protocol, the header for the
-- request id, and the cookie starts four bytes early.
pub detect-behind_header :
    {B : ByteOps} (L : ByteLaws B) (flags flags_hi reserved : ℕ) (r : InitiateRequest)
    → flags < 2 ^ 16
    → flags_hi < 2 ^ 16
    → IsInitiateRequest r
    → detect B (u16_le flags ++ (u16_le flags_hi ++ sent_request r reserved))
      ≡ ok (some (behind_header flags flags_hi r reserved))
detect-behind_header L = rw (lawful-eq L) detect_header_list
