-- ===== src/Multitransport/Checks.antt =====
-- Runs of multitransport.rs, and its theorem at a concrete input.
use ferropipe_rdp.Wire.{u16_le, list_bytes, list_bytes-ByteLaws}
use ferropipe_rdp.Multitransport.{initiate_response, detect, InitiateRequest}
use ferropipe_rdp.Common.{inr, arith, some, none, refl, ◌++◌, [], ◌++◌, ◌∷◌, ◌≡◌, ◌∷◌, replicate}
use ferropipe_rdp.Multitransport.Laws.{
  detect-behind_header, behind_header, detect-sent_request, sent_request,
}
use ferropipe_rdp.Outcome.{ok}

abbrev request : InitiateRequest
request = record { request_id = 7; requested_protocol = 2; security_cookie = replicate 16 5 }

detect_runs : detect list_bytes (1 ∷ 2 ∷ []) ≡ ok none
unfolding detect
detect_runs = refl

response_runs : initiate_response list_bytes 7 0 ≡ 7 ∷ 0 ∷ 0 ∷ 0 ∷ 0 ∷ 0 ∷ 0 ∷ 0 ∷ []
unfolding initiate_response
response_runs = refl

detect-sent_request_example :
    detect list_bytes (sent_request request 0 ++ (9 ∷ [])) ≡ ok (some request)
detect-sent_request_example =
    detect-sent_request list_bytes-ByteLaws request 0 (9 ∷ []) (omega arith, inr refl, refl)

-- A request with the id 1 behind a Basic Security Header is not found as it was sent.
abbrev first_request : InitiateRequest
first_request = record { request_id = 1; requested_protocol = 2; security_cookie = replicate 16 5 }

detect-behind_header_example :
    detect list_bytes (u16_le 2 ++ (u16_le 0 ++ sent_request first_request 0))
    ≡ ok (some (behind_header 2 0 first_request 0))
detect-behind_header_example =
    detect-behind_header list_bytes-ByteLaws 2 0 0 first_request (omega arith) (omega arith)
      (omega arith, inr refl, refl)
