-- ===== src/Egfx.antt =====
-- egfx.rs: the commands of the graphics pipeline. The surfaces are in Egfx/Surfaces.antt.
pub mod Surfaces
pub mod Commands
pub mod Laws
pub mod Screen
pub mod Shows
pub mod Paint
pub mod Store
pub mod Panics
mod Checks
use ferropipe_rdp.Wire.{all_of, u16, u32, put, ByteOps}
use ferropipe_rdp.Common.{
  zero, ◌||◌, ◌||◌, ◌^◌, ◌^◌, ◌+◌, ◌%◌, suc, ◌+◌, ◌%◌, ◌==◌, ltb, ◌==◌, length, if◌then◌else◌, [],
  ◌∷◌, ℕ, List, Bytes,
}
use ferropipe_rdp.Outcome.{
  slice, protocol, slice_to, slice_from, ◌>>◌, ◌>>=◌, short, panic, ok, fail_if, Result,
}

abbrev pub cmdid_wiretosurface_1 : ℕ
cmdid_wiretosurface_1 = 0x0001

abbrev pub cmdid_createsurface : ℕ
cmdid_createsurface = 0x0009

abbrev pub cmdid_deletesurface : ℕ
cmdid_deletesurface = 0x000A

abbrev pub cmdid_startframe : ℕ
cmdid_startframe = 0x000B

abbrev pub cmdid_endframe : ℕ
cmdid_endframe = 0x000C

abbrev pub cmdid_frameacknowledge : ℕ
cmdid_frameacknowledge = 0x000D

abbrev pub cmdid_resetgraphics : ℕ
cmdid_resetgraphics = 0x000E

abbrev pub cmdid_mapsurfacetooutput : ℕ
cmdid_mapsurfacetooutput = 0x000F

abbrev pub cmdid_capsadvertise : ℕ
cmdid_capsadvertise = 0x0012

abbrev pub cmdid_capsconfirm : ℕ
cmdid_capsconfirm = 0x0013

abbrev pub header_len : ℕ
header_len = 8

pub record Rect16 : Type 0 where
  pub left : ℕ
  pub top : ℕ
  pub right : ℕ
  pub bottom : ℕ

-- Surface ids, sizes, and formats, in the order of the fields.
pub data GfxCommand : Type 0 where
  create_surface : ℕ → ℕ → ℕ → ℕ → GfxCommand
  delete_surface : ℕ → GfxCommand
  map_surface_to_output : ℕ → ℕ → ℕ → GfxCommand
  start_frame : ℕ → GfxCommand
  end_frame : ℕ → GfxCommand
  reset_graphics : ℕ → ℕ → GfxCommand
  wire_to_surface_1 : ℕ → ℕ → ℕ → Rect16 → Bytes → GfxCommand
  caps_confirm : ℕ → GfxCommand
  unknown_command : ℕ → GfxCommand

unfoldable pub need : Bytes → ℕ → Result (Unit {0})
need buf n = fail_if (ltb (length buf) n) (short n (length buf))

module _ (B : ByteOps) where
  unfoldable pub read_create : Bytes → Result GfxCommand
  unfolding need
  read_create body = do
    need body 7
    (surface_id, b1) ← B.get_u16_le body
    (width, b2) ← B.get_u16_le b1
    (height, b3) ← B.get_u16_le b2
    (pixel_format, b4) ← B.get_u8 b3
    ok (create_surface surface_id width height pixel_format)

  unfoldable pub read_map : Bytes → Result GfxCommand
  unfolding need
  read_map body = do
    need body 12
    (surface_id, b1) ← B.get_u16_le body
    (reserved, b2) ← B.get_u16_le b1
    (x, b3) ← B.get_u32_le b2
    (y, b4) ← B.get_u32_le b3
    ok (map_surface_to_output surface_id x y)

  unfoldable pub read_wire : Bytes → Result GfxCommand
  unfolding need
  read_wire body = do
    need body 17
    (surface_id, b1) ← B.get_u16_le body
    (codec_id, b2) ← B.get_u16_le b1
    (pixel_format, b3) ← B.get_u8 b2
    (left, b4) ← B.get_u16_le b3
    (top, b5) ← B.get_u16_le b4
    (right, b6) ← B.get_u16_le b5
    (bottom, b7) ← B.get_u16_le b6
    (data_len, b8) ← B.get_u32_le b7
    need b8 data_len
    content ← slice_to b8 data_len
    ok (
        wire_to_surface_1 surface_id codec_id pixel_format
          (record { left = left; top = top; right = right; bottom = bottom }) content)

  -- `match cmd_id`
  unfoldable pub read_body : ℕ → Bytes → Result GfxCommand
  unfolding read_create read_map read_wire
  read_body cmd_id body =
      if cmd_id == cmdid_createsurface
      then read_create body
      else if cmd_id == cmdid_deletesurface
      then (do need body 2; (surface_id, b1) ← B.get_u16_le body; ok (delete_surface surface_id))
      else if cmd_id == cmdid_mapsurfacetooutput
      then read_map body
      else if cmd_id == cmdid_startframe
      then (do
        need body 8
        (timestamp, b1) ← B.get_u32_le body
        (frame_id, b2) ← B.get_u32_le b1
        ok (start_frame frame_id))
      else if cmd_id == cmdid_endframe
      then (do need body 4; (frame_id, b1) ← B.get_u32_le body; ok (end_frame frame_id))
      else if cmd_id == cmdid_resetgraphics
      then (do
        need body 8
        (width, b1) ← B.get_u32_le body
        (height, b2) ← B.get_u32_le b1
        ok (reset_graphics width height))
      else if cmd_id == cmdid_wiretosurface_1
      then read_wire body
      else if cmd_id == cmdid_capsconfirm
      then (do need body 4; (version, b1) ← B.get_u32_le body; ok (caps_confirm version))
      else ok (unknown_command cmd_id)

  unfoldable pub parse_command : Bytes → Result (GfxCommand × ℕ)
  unfolding read_body
  parse_command buf = do
    fail_if (ltb (length buf) header_len) (short header_len (length buf))
    (cmd_id, h1) ← B.get_u16_le buf
    (flags, h2) ← B.get_u16_le h1
    (pdu_length, h3) ← B.get_u32_le h2
    fail_if (ltb pdu_length header_len || ltb (length buf) pdu_length)
        (protocol "bad RDPGFX pduLength")
    body ← slice buf header_len pdu_length
    cmd ← read_body cmd_id body
    ok (cmd, pdu_length)

  -- `while !buf.is_empty()`, on fuel. A command has 8 bytes at least.
  unfoldable pub parse_commands : ℕ → Bytes → Result (List GfxCommand)
  unfolding parse_command
  parse_commands fuel [] = ok []
  parse_commands zero (b ∷ bs) = panic
  parse_commands (suc fuel) (b ∷ bs) = do
    (cmd, consumed) ← parse_command (b ∷ bs)
    rest ← slice_from (b ∷ bs) consumed
    cmds ← parse_commands fuel rest
    ok (cmd ∷ cmds)

  unfoldable pub parse_all : Bytes → Result (List GfxCommand)
  unfolding parse_commands
  parse_all buf = parse_commands (length buf) buf

  unfoldable pub frame_header : ℕ → Bytes → Bytes
  frame_header cmd_id body =
      put B [] (u16 cmd_id ∷ u16 0 ∷ u32 ((header_len + length body) % 2 ^ 32) ∷ all_of body ∷ [])

  -- `for &v in versions`
  abbrev pub put_versions : Bytes → List ℕ → Bytes
  put_versions body [] = body
  put_versions body (v ∷ versions) = put_versions (put B body (u32 v ∷ u32 0 ∷ [])) versions

  unfoldable pub caps_advertise : List ℕ → Bytes
  unfolding frame_header
  caps_advertise versions =
      frame_header cmdid_capsadvertise
        (put_versions (put B [] (u16 (length versions % 2 ^ 16) ∷ [])) versions)

  unfoldable pub frame_acknowledge : ℕ → ℕ → Bytes
  unfolding frame_header
  frame_acknowledge frame_id total_frames_decoded =
      frame_header cmdid_frameacknowledge
        (put B [] (u32 0 ∷ u32 frame_id ∷ u32 total_frames_decoded ∷ []))
