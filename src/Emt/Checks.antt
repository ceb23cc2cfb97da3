-- ===== src/Emt/Checks.antt =====
-- Runs of emt.rs, and its theorems at concrete inputs.
use ferropipe_rdp.Wire.{list_bytes, list_bytes-ByteLaws}
use ferropipe_rdp.Emt.{data_pdu, create_response, data_message, parse, create_request}
use ferropipe_rdp.Common.{arith, refl, ◌≡◌, ◌≡◌, ◌∷◌, []}
use ferropipe_rdp.Outcome.{ok}
use ferropipe_rdp.Emt.Laws.{parse-data_message}

parse_runs : parse list_bytes (1 ∷ 4 ∷ 0 ∷ 4 ∷ 5 ∷ 0 ∷ 0 ∷ 0 ∷ []) ≡ ok (create_response 5)
unfolding parse
parse_runs = refl

request_runs : create_request list_bytes 7 [] ≡ 0 ∷ 8 ∷ 0 ∷ 4 ∷ 7 ∷ 0 ∷ 0 ∷ 0 ∷ 0 ∷ 0 ∷ 0 ∷ 0 ∷ []
unfolding create_request
request_runs = refl

parse-data_message_example :
    parse list_bytes (data_message list_bytes (1 ∷ 2 ∷ [])) ≡ ok (data_pdu (1 ∷ 2 ∷ []))
parse-data_message_example = parse-data_message list_bytes-ByteLaws (1 ∷ 2 ∷ []) (omega arith)
