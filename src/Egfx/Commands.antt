-- ===== src/Egfx/Commands.antt =====
-- egfx.rs: the commands as the server sends them.
use ferropipe_rdp.Wire.{ByteOps, u16_le, u32_le}
use ferropipe_rdp.Common.{◌≢◌, ◌≢◌, ◌^◌, ◌<◌, [], ◌<◌, ◌∷◌, ◌++◌, ℕ, ◌++◌, ◌+◌, length, List, Bytes}
use ferropipe_rdp.Egfx.{
  unknown_command, cmdid_capsconfirm, cmdid_wiretosurface_1, caps_confirm, wire_to_surface_1,
  cmdid_resetgraphics, reset_graphics, cmdid_endframe, end_frame, cmdid_startframe, start_frame,
  cmdid_mapsurfacetooutput, map_surface_to_output, cmdid_deletesurface, delete_surface,
  frame_header, cmdid_createsurface, create_surface, GfxCommand,
}

-- The id of a command, and its body. A field that the client does not use is `hidden`.
abbrev pub id_of : GfxCommand → ℕ
id_of (create_surface id width height format) = cmdid_createsurface
id_of (delete_surface id) = cmdid_deletesurface
id_of (map_surface_to_output id x y) = cmdid_mapsurfacetooutput
id_of (start_frame id) = cmdid_startframe
id_of (end_frame id) = cmdid_endframe
id_of (reset_graphics width height) = cmdid_resetgraphics
id_of (wire_to_surface_1 id codec format dest content) = cmdid_wiretosurface_1
id_of (caps_confirm version) = cmdid_capsconfirm
id_of (unknown_command id) = id

abbrev pub body_of : GfxCommand → ℕ → Bytes
body_of (create_surface id width height format) hidden =
    u16_le id ++ (u16_le width ++ (u16_le height ++ (format ∷ [])))
body_of (delete_surface id) hidden = u16_le id
body_of (map_surface_to_output id x y) hidden =
    u16_le id ++ (u16_le hidden ++ (u32_le x ++ u32_le y))
body_of (start_frame id) hidden = u32_le hidden ++ u32_le id
body_of (end_frame id) hidden = u32_le id
body_of (reset_graphics width height) hidden = u32_le width ++ u32_le height
body_of (wire_to_surface_1 id codec format dest content) hidden =
    u16_le id
    ++ (u16_le codec
        ++ (format
            ∷ (u16_le dest.left
                ++ (u16_le dest.top
                    ++ (u16_le dest.right
                        ++ (u16_le dest.bottom ++ (u32_le (length content) ++ content)))))))
body_of (caps_confirm version) hidden = u32_le version
body_of (unknown_command id) hidden = []

-- The fields fit, and an unknown command has none of the ids above.
abbrev pub IsCommand : GfxCommand → Type 0
IsCommand (create_surface id width height format) =
    (id < 2 ^ 16) × (width < 2 ^ 16) × (height < 2 ^ 16)
IsCommand (delete_surface id) = id < 2 ^ 16
IsCommand (map_surface_to_output id x y) = (id < 2 ^ 16) × (x < 2 ^ 32) × (y < 2 ^ 32)
IsCommand (start_frame id) = id < 2 ^ 32
IsCommand (end_frame id) = id < 2 ^ 32
IsCommand (reset_graphics width height) = (width < 2 ^ 32) × (height < 2 ^ 32)
IsCommand (wire_to_surface_1 id codec format dest content) =
    (id < 2 ^ 16)
    × (codec < 2 ^ 16)
    × (dest.left < 2 ^ 16)
    × (dest.top < 2 ^ 16)
    × (dest.right < 2 ^ 16)
    × (dest.bottom < 2 ^ 16)
    × (length content < 2 ^ 32)
IsCommand (caps_confirm version) = version < 2 ^ 32
IsCommand (unknown_command id) =
    (id < 2 ^ 16)
    × (id ≢ cmdid_createsurface)
    × (id ≢ cmdid_deletesurface)
    × (id ≢ cmdid_mapsurfacetooutput)
    × (id ≢ cmdid_startframe)
    × (id ≢ cmdid_endframe)
    × (id ≢ cmdid_resetgraphics)
    × (id ≢ cmdid_wiretosurface_1)
    × (id ≢ cmdid_capsconfirm)

-- A command on the wire, with the hidden field and the bytes behind its fields.
pub record SentCommand : Type 0 where
  pub command : GfxCommand
  pub hidden : ℕ
  pub more : Bytes

abbrev pub sent_body : SentCommand → Bytes
sent_body s = body_of s.command s.hidden ++ s.more

abbrev pub IsSentCommand : SentCommand → Type 0
IsSentCommand s = IsCommand s.command × (length (sent_body s) + 8 < 2 ^ 32)

abbrev pub sent_commands : ByteOps → List SentCommand → Bytes
sent_commands B [] = []
sent_commands B (s ∷ ss) = frame_header B (id_of s.command) (sent_body s) ++ sent_commands B ss

abbrev pub commands_of : List SentCommand → List GfxCommand
commands_of [] = []
commands_of (s ∷ ss) = s.command ∷ commands_of ss
