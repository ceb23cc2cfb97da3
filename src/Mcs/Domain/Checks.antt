-- ===== src/Mcs/Domain/Checks.antt =====
-- Runs of mcs/per.rs and mcs/domain.rs, and their theorems at concrete inputs.
use ferropipe_rdp.Wire.{list_bytes, list_bytes-ByteLaws}
use ferropipe_rdp.Mcs.Domain.Laws.{
  channel_join-attach_user, parse_indication-send_data_request, indication_result, as_indication,
  AssignedUser,
}
use ferropipe_rdp.Mcs.Domain.{mcs_base, send_data_request, parse_send_data_indication}
use ferropipe_rdp.Mcs.Per.{write_length, read_length}
use ferropipe_rdp.Common.{
  ◌^◌, arith, ◌%◌, ltb, refl, if◌then◌else◌, ◌+◌, ◌≡◌, ◌++◌, ◌≡◌, ◌++◌, ◌*◌, ◌∷◌, ◌∷◌, [],
}
use ferropipe_rdp.Outcome.{protocol, err, ok}
use ferropipe_rdp.Mcs.Per.Lengths.{read_length-write_length}

request_runs :
    send_data_request list_bytes 1004 1003 (9 ∷ []) ≡ 0x64 ∷ 0 ∷ 3 ∷ 3 ∷ 0xeb ∷ 0x70 ∷ 1 ∷ 9 ∷ []
unfolding send_data_request write_length
request_runs = refl

read_length-write_length_example :
    read_length list_bytes (write_length list_bytes [] 300 ++ (9 ∷ [])) ≡ (
      if ltb 300 0x4000
      then ok (300, 9 ∷ [])
      else err (protocol "unsupported PER fragmented length"))
read_length-write_length_example =
    read_length-write_length list_bytes list_bytes-ByteLaws 300 (9 ∷ []) (omega arith)

parse_indication-send_data_request_example :
    parse_send_data_indication list_bytes
      (as_indication (send_data_request list_bytes 1004 1003 (9 ∷ [])))
    ≡ indication_result 1003 (9 ∷ [])
parse_indication-send_data_request_example =
    parse_indication-send_data_request list_bytes list_bytes-ByteLaws 1004 1003 (9 ∷ [])
      (omega arith)

channel_join-attach_user_example :
    AssignedUser list_bytes 0 3 [] 1003 ((256 * 0 + 3 + mcs_base) % 2 ^ 16)
channel_join-attach_user_example =
    channel_join-attach_user list_bytes list_bytes-ByteLaws 0 3 [] 1003 (omega arith) (omega arith)
