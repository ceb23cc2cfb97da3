-- ===== src/Pdu/Checks.antt =====
-- Runs of pdu.rs, and its theorem at a concrete input.
use ferropipe_rdp.Wire.{list_bytes, list_bytes-ByteLaws}
use ferropipe_rdp.Pdu.{
  pdutype_data, pdutype2_synchronize, share_data, ctrlaction_cooperate, synchronize, font_list,
  control,
}
use ferropipe_rdp.Common.{arith, ◌++◌, refl, ◌++◌, [], ◌∷◌, ◌≡◌}
use ferropipe_rdp.Outcome.{ok}
use ferropipe_rdp.Pdu.Laws.{unwrap_share_data, parse_share_data-share_data}

control_runs : control list_bytes ctrlaction_cooperate 0 0 ≡ 4 ∷ 0 ∷ 0 ∷ 0 ∷ 0 ∷ 0 ∷ 0 ∷ 0 ∷ []
unfolding control
control_runs = refl

font_list_runs : font_list list_bytes ≡ 0 ∷ 0 ∷ 0 ∷ 0 ∷ 3 ∷ 0 ∷ 0x32 ∷ 0 ∷ []
unfolding font_list
font_list_runs = refl

parse_share_data-share_data_example :
    unwrap_share_data list_bytes (
      share_data list_bytes 1007 0x103EA pdutype2_synchronize (synchronize list_bytes 1002)
      ++ (9 ∷ []))
    ≡ ok (
      record { pdu_type = pdutype_data; pdu_source = 1007 },
      (pdutype2_synchronize, synchronize list_bytes 1002),
    )
unfolding synchronize
parse_share_data-share_data_example =
    parse_share_data-share_data list_bytes-ByteLaws 1007 0x103EA pdutype2_synchronize
      (synchronize list_bytes 1002) (9 ∷ []) (omega arith) (omega arith)
