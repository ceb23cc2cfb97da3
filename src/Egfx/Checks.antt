-- ===== src/Egfx/Checks.antt =====
-- Runs of egfx.rs, and its theorems at concrete inputs.
use ferropipe_rdp.Wire.{list_bytes, list_bytes-ByteLaws}
use ferropipe_rdp.Egfx.Store.{apply_commands}
use ferropipe_rdp.Common.{some, arith, refl, [], ◌∷◌, ◌≡◌, ◌≡◌, List}
use ferropipe_rdp.Egfx.Surfaces.{surface, new_store, apply_command}
use ferropipe_rdp.Egfx.{
  unknown_command, start_frame, wire_to_surface_1, create_surface, GfxCommand, parse_all,
  frame_acknowledge,
}
use ferropipe_rdp.Egfx.Commands.{commands_of, sent_commands, SentCommand}
use ferropipe_rdp.Graphics.Framebuffer.{new_framebuffer, blit_rows, blit_rgba}
use ferropipe_rdp.Outcome.{ok}
use ferropipe_rdp.Egfx.Laws.{parse_all-sent_commands}

acknowledge_run :
    frame_acknowledge list_bytes 5 1
    ≡ 0x0D ∷ 0 ∷ 0 ∷ 0 ∷ 20 ∷ 0 ∷ 0 ∷ 0 ∷ 0 ∷ 0 ∷ 0 ∷ 0 ∷ 5 ∷ 0 ∷ 0 ∷ 0 ∷ 1 ∷ 0 ∷ 0 ∷ 0 ∷ []
unfolding frame_acknowledge
acknowledge_run = refl

abbrev commands : List GfxCommand
commands =
    create_surface 1 1 1 0x20
    ∷ wire_to_surface_1 1 0 0x20 (record { left = 0; top = 0; right = 1; bottom = 1 })
        (10 ∷ 20 ∷ 30 ∷ 0 ∷ [])
    ∷ unknown_command 0x99
    ∷ []

paint_run :
    surface (apply_commands new_store commands).0 1
    ≡ some (record { width = 1; height = 1; pixels = 30 ∷ 20 ∷ 10 ∷ 255 ∷ [] })
unfolding apply_command blit_rgba blit_rows new_framebuffer
paint_run = refl

abbrev message : List SentCommand
message =
    record { command = create_surface 1 64 64 0x20; hidden = 0; more = 7 ∷ [] }
    ∷ record {
      command =
          wire_to_surface_1 1 0 0x20 (record { left = 0; top = 0; right = 1; bottom = 1 })
            (10 ∷ 20 ∷ 30 ∷ 0 ∷ []);
      hidden = 0;
      more = [];
    }
    ∷ record { command = start_frame 9; hidden = 77; more = [] }
    ∷ []

parse_all-sent_commands_example :
    parse_all list_bytes (sent_commands list_bytes message) ≡ ok (commands_of message)
parse_all-sent_commands_example = parse_all-sent_commands list_bytes-ByteLaws message (
  ((omega arith, omega arith, omega arith), omega arith),
  (
    (
      (omega arith, omega arith, omega arith, omega arith, omega arith, omega arith, omega arith),
      omega arith,
    ),
    ((omega arith, omega arith), tt),
  ),
)
