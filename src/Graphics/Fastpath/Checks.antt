-- ===== src/Graphics/Fastpath/Checks.antt =====
-- Runs of graphics/fastpath.rs, and its theorems at concrete inputs.
use ferropipe_rdp.Common.{◌^◌, ◌<◌, ◌<◌, length, arith, refl, ◌≡◌, ◌≡◌, [], ◌∷◌, List}
use ferropipe_rdp.Graphics.Fastpath.{
  read_update, read_updates, read_body, read_fp_length, FastPathUpdate, parse_output_pdu,
}
use ferropipe_rdp.Graphics.Fastpath.Parse.{write_update, parse_output_pdu-write_pdu, write_pdu}
use ferropipe_rdp.Outcome.{ok}

abbrev updates : List FastPathUpdate
updates =
    record { update_code = 1; fragmentation = 0; content = 5 ∷ 6 ∷ [] }
    ∷ record { update_code = 5; fragmentation = 2; content = [] }
    ∷ []

parse_runs :
    parse_output_pdu (0 ∷ 6 ∷ 1 ∷ 1 ∷ 0 ∷ 9 ∷ [])
    ≡ ok (record { update_code = 1; fragmentation = 0; content = 9 ∷ [] } ∷ [])
unfolding parse_output_pdu read_fp_length read_body read_updates read_update
parse_runs = refl

updates-length : length (write_pdu updates) < 2 ^ 15
unfolding write_pdu write_update
updates-length = omega arith

parse_output_pdu-write_pdu_example : parse_output_pdu (write_pdu updates) ≡ ok updates
parse_output_pdu-write_pdu_example =
    parse_output_pdu-write_pdu updates
      ((omega arith, omega arith, omega arith), ((omega arith, omega arith, omega arith), tt))
      updates-length
