-- ===== src/Mcs/Connect/Checks.antt =====
-- Runs of mcs/connect.rs, and its theorem at a concrete input.
use ferropipe_rdp.Mcs.Connect.{connect_response_tag, parse_connect_response, uint, connect_initial}
use ferropipe_rdp.Mcs.Ber.{octet_string, sequence, enumerated, application, integer}
use ferropipe_rdp.Common.{arith, ◌++◌, refl, [], ◌∷◌, ◌≡◌, take}
use ferropipe_rdp.Mcs.Connect.Laws.{
  parse_connect_response-application, response_result, response_body,
}

uint_runs : uint 0xFFFF ≡ 2 ∷ 2 ∷ 0xFF ∷ 0xFF ∷ []
unfolding uint
uint_runs = refl

initial_runs : take 5 (connect_initial (9 ∷ [])) ≡ 0x7f ∷ 0x65 ∷ 0x60 ∷ 0x04 ∷ 0x01 ∷ []
unfolding connect_initial
initial_runs = refl

parse_connect_response-application_example :
    parse_connect_response
      (application connect_response_tag (response_body 0 7 (2 ∷ 1 ∷ 34 ∷ []) (5 ∷ 6 ∷ [])) ++ [])
    ≡ response_result 0 (5 ∷ 6 ∷ [])
unfolding integer enumerated sequence octet_string
parse_connect_response-application_example =
    parse_connect_response-application 0 7 (2 ∷ 1 ∷ 34 ∷ []) (5 ∷ 6 ∷ []) [] (omega arith)
      (omega arith) (omega arith) (omega arith)
