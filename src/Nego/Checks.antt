-- ===== src/Nego/Checks.antt =====
-- Runs of nego.rs, and its theorems at concrete inputs.
use ferropipe_rdp.Common.{◌≡◌, refl, [], ◌∷◌, ◌++◌, arith}
use ferropipe_rdp.Outcome.{ok}
use ferropipe_rdp.Wire.{list_bytes, list_bytes-ByteLaws}
use ferropipe_rdp.Nego.{
  NegotiationRequest, failure, write_request, read_request, write_response, read_response, with_bit,
  ssl, hybrid, failure_reason,
}
use ferropipe_rdp.Nego.Laws.{read-write_request, read-write_response}

abbrev request : NegotiationRequest
request = record { flags = 0; requested = record { bits = 3 } }

write_runs : write_request list_bytes request [] ≡ 1 ∷ 0 ∷ 8 ∷ 0 ∷ 3 ∷ 0 ∷ 0 ∷ 0 ∷ []
unfolding write_request
write_runs = refl

with_runs : with_bit (with_bit (record { bits = 0 }) ssl) hybrid ≡ record { bits = 3 }
unfolding with_bit
with_runs = refl

reason_runs : failure_reason 5 ≡ "HYBRID_REQUIRED_BY_SERVER"
unfolding failure_reason
reason_runs = refl

read-write_request_example :
    read_request list_bytes (write_request list_bytes request [] ++ (9 ∷ [])) ≡ ok (request, 9 ∷ [])
read-write_request_example =
    read-write_request list_bytes list_bytes-ByteLaws request (9 ∷ []) (omega arith)

read-write_response_example :
    read_response list_bytes (write_response list_bytes (failure 5) [] ++ (9 ∷ []))
    ≡ ok (failure 5, 9 ∷ [])
read-write_response_example =
    read-write_response list_bytes list_bytes-ByteLaws (failure 5) (9 ∷ []) (omega arith)
