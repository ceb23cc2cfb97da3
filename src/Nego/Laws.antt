-- ===== src/Nego/Laws.antt =====
-- nego.rs: reading back what was written, and inputs that are no such structure.
use ferropipe_rdp.Common.{
  ℕ, ◌+◌, ◌*◌, ◌/◌, ◌%◌, ◌^◌, ◌<◌, ◌≡◌, [], ◌∷◌, ◌++◌, append_assoc, Bytes, arith,
}
use ferropipe_rdp.Outcome.{ok}
use ferropipe_rdp.Wire.{ByteOps, ByteLaws, list_bytes, lawful-eq, u16_le, u32_le}
use ferropipe_rdp.Nego.{
  NegotiationRequest, NegotiationResponse, selected, failure, write_request, read_request,
  write_response, read_response,
}

-- The fields are within their Rust types.
abbrev pub IsRequest : NegotiationRequest → Type 0
IsRequest r = (r.flags < 256) × (r.requested.bits < 2 ^ 32)

abbrev pub IsResponse : NegotiationResponse → Type 0
IsResponse (selected flags p) = (flags < 256) × (p.bits < 2 ^ 32)
IsResponse (failure code) = code < 2 ^ 32

pub u32_bytes :
    (v : ℕ)
    → v < 2 ^ 32
    → v % 256 + 256 * (v / 256 % 256) + 65536 * (v / 65536 % 256) + 16777216 * (v / 16777216 % 256)
      ≡ v
u32_bytes v h = omega arith

unfoldable pub request_bytes : NegotiationRequest → Bytes
request_bytes r = 1 ∷ r.flags ∷ (u16_le 8 ++ u32_le r.requested.bits)

unfoldable pub response_bytes : NegotiationResponse → Bytes
response_bytes (selected flags p) = 2 ∷ flags ∷ (u16_le 8 ++ u32_le p.bits)
response_bytes (failure code) = 3 ∷ 0 ∷ (u16_le 8 ++ u32_le code)

pub write_request_list :
    (r : NegotiationRequest) (out : Bytes) → write_request list_bytes r out ≡ out ++ request_bytes r
unfolding write_request request_bytes
write_request_list r out = simp append_assoc

pub write_response_list :
    (r : NegotiationResponse) (out : Bytes)
    → write_response list_bytes r out ≡ out ++ response_bytes r
unfolding write_response response_bytes
write_response_list (selected flags p) out = simp append_assoc
write_response_list (failure code) out = simp append_assoc

pub read-request_bytes :
    (r : NegotiationRequest) (rest : Bytes)
    → IsRequest r
    → read_request list_bytes (request_bytes r ++ rest) ≡ ok (r, rest)
unfolding read_request request_bytes
read-request_bytes r rest h = ground (arith, u32_bytes r.requested.bits)

pub read-response_bytes :
    (r : NegotiationResponse) (rest : Bytes)
    → IsResponse r
    → read_response list_bytes (response_bytes r ++ rest) ≡ ok (r, rest)
unfolding read_response response_bytes
read-response_bytes (selected flags p) rest h = ground (arith, u32_bytes p.bits)
read-response_bytes (failure code) rest h = ground (arith, u32_bytes code)

read-write_request_list :
    (r : NegotiationRequest) (rest : Bytes)
    → IsRequest r
    → read_request list_bytes (write_request list_bytes r [] ++ rest) ≡ ok (r, rest)
read-write_request_list r rest h = rw write_request_list (read-request_bytes r rest h)

-- `NegotiationRequest::read` gives back the request that `write` wrote, and leaves what follows.
pub read-write_request :
    (B : ByteOps)
    → ByteLaws B
    → (r : NegotiationRequest) (rest : Bytes) → IsRequest r
    → read_request B (write_request B r [] ++ rest) ≡ ok (r, rest)
read-write_request B L = rw (lawful-eq L) read-write_request_list

read-write_response_list :
    (r : NegotiationResponse) (rest : Bytes)
    → IsResponse r
    → read_response list_bytes (write_response list_bytes r [] ++ rest) ≡ ok (r, rest)
read-write_response_list r rest h = rw write_response_list (read-response_bytes r rest h)

-- `NegotiationResponse::read` gives back the response that `write` wrote, a selection or a failure,
-- and leaves what follows.
pub read-write_response :
    (B : ByteOps)
    → ByteLaws B
    → (r : NegotiationResponse) (rest : Bytes) → IsResponse r
    → read_response B (write_response B r [] ++ rest) ≡ ok (r, rest)
read-write_response B L = rw (lawful-eq L) read-write_response_list
