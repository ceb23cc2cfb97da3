-- ===== src/Dvc/Checks.antt =====
-- Runs of dvc.rs, and its theorems at concrete inputs.
use ferropipe_rdp.Wire.{list_bytes, list_bytes-ByteLaws}
use ferropipe_rdp.Dvc.{data_pdu, create, data_message, parse, create_response}
use ferropipe_rdp.Common.Utf8.{from_utf8_lossy}
use ferropipe_rdp.Common.{arith, refl, [], ◌∷◌, ◌≡◌, ◌∷◌}
use ferropipe_rdp.Outcome.{ok}
use ferropipe_rdp.Dvc.Laws.{parse-data}

create_runs : parse list_bytes (0x10 ∷ 3 ∷ 0x45 ∷ 0x43 ∷ 0 ∷ []) ≡ ok (create 3 (0x45 ∷ 0x43 ∷ []))
unfolding parse from_utf8_lossy
create_runs = refl

response_runs : create_response list_bytes 3 0 ≡ 0x10 ∷ 3 ∷ 0 ∷ 0 ∷ 0 ∷ 0 ∷ []
unfolding create_response
response_runs = refl

parse-data_example :
    parse list_bytes (data_message list_bytes 300 (1 ∷ [])) ≡ ok (data_pdu 300 (1 ∷ []))
parse-data_example = parse-data list_bytes-ByteLaws 300 (1 ∷ []) (omega arith)
