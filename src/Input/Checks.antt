-- ===== src/Input/Checks.antt =====
-- Runs of input.rs, and its theorem at a concrete input.
use mathlib.Core.List.{flatten}
use ferropipe_rdp.Common.{
  arith, refl, ◌^◌, ◌<◌, [], ◌<◌, ◌∷◌, true, ◌+◌, ◌≡◌, ◌≡◌, length, false, Bytes, List,
}
use ferropipe_rdp.Input.{scancode_event, input_pdu, input_body}
use ferropipe_rdp.Graphics.Fastpath.{read_fp_length}
use ferropipe_rdp.Input.Laws.{read_fp_length-input_pdu, behind_header}
use ferropipe_rdp.Outcome.{ok}

abbrev events : List Bytes
events = (0 ∷ 30 ∷ []) ∷ (1 ∷ 30 ∷ []) ∷ []

scancode_runs : scancode_event 30 false true ≡ 3 ∷ 30 ∷ []
unfolding scancode_event
scancode_runs = refl

pdu_runs : input_pdu events ≡ 8 ∷ 6 ∷ 0 ∷ 30 ∷ 1 ∷ 30 ∷ []
unfolding input_pdu flatten
pdu_runs = refl

short_events : length (input_body events) + 3 < 2 ^ 15
unfolding input_body flatten
short_events = omega arith

read_fp_length-input_pdu_example :
    read_fp_length (behind_header (input_pdu events))
    ≡ ok (length (input_pdu events), input_body events)
read_fp_length-input_pdu_example = read_fp_length-input_pdu events short_events
