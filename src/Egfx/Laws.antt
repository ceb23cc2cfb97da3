-- ===== src/Egfx/Laws.antt =====
-- egfx.rs: the commands of a message are parsed as they were sent.
use ferropipe_rdp.Outcome.{Result, slice_to_left, slice_mid, slice_from_right, ok, ◌>>=◌}
use ferropipe_rdp.Wire.{
  from_u32_le-u32_le, from_u16_le-u16_le, ByteOps, ByteLaws, list_bytes, lawful-eq, u16_le, u32_le,
}
use ferropipe_rdp.Egfx.{
  cmdid_capsconfirm, cmdid_wiretosurface_1, cmdid_resetgraphics, cmdid_endframe, cmdid_startframe,
  cmdid_mapsurfacetooutput, cmdid_deletesurface, cmdid_createsurface, unknown_command, caps_confirm,
  reset_graphics, end_frame, start_frame, map_surface_to_output, delete_surface, create_surface,
  wire_to_surface_1, read_map, read_create, Rect16, read_wire, read_body, parse_commands,
  parse_command, parse_all, frame_header, GfxCommand,
}
use ferropipe_rdp.Common.{
  ne→==, zero, refl, ap, [], ◌∙◌, ◌∙◌, length-append, ◌∷◌, suc, arith, ◌≤◌, ◌≡◌, ◌≤◌, ◌≡◌, ◌^◌, ◌+◌,
  ◌<◌, ◌++◌, length, All, ◌<◌, ◌++◌, Bytes, ℕ, List,
}
use ferropipe_rdp.Egfx.Commands.{
  sent_body, commands_of, sent_commands, body_of, IsSentCommand, id_of, SentCommand, IsCommand,
}

read_wire-body :
    (id codec format : ℕ) (dest : Rect16) (content more : Bytes)
    → IsCommand (wire_to_surface_1 id codec format dest content)
    → read_wire list_bytes (body_of (wire_to_surface_1 id codec format dest content) 0 ++ more)
      ≡ ok (wire_to_surface_1 id codec format dest content)
unfolding read_wire
read_wire-body id codec format dest content more (hi, hc, hl, ht, hr, hb, hn) =
    rw
      (
        from_u16_le-u16_le id hi,
        from_u16_le-u16_le codec hc,
        from_u16_le-u16_le dest.left hl,
        from_u16_le-u16_le dest.top ht,
        from_u16_le-u16_le dest.right hr,
        from_u16_le-u16_le dest.bottom hb,
        from_u32_le-u32_le (length content) hn,
        slice_to_left content more (length content) refl,
      )
      (ground (arith, length-append content more))

read_body-sent :
    (cmd : GfxCommand) (hidden : ℕ) (more : Bytes)
    → IsCommand cmd
    → read_body list_bytes (id_of cmd) (body_of cmd hidden ++ more) ≡ ok cmd
unfolding read_body read_create read_map
read_body-sent (create_surface id width height format) hidden more (hi, hw, hh) =
    rw (from_u16_le-u16_le id hi, from_u16_le-u16_le width hw, from_u16_le-u16_le height hh)
      (ground arith)
read_body-sent (delete_surface id) hidden more h = rw (from_u16_le-u16_le id h) (ground arith)
read_body-sent (map_surface_to_output id x y) hidden more (hi, hx, hy) =
    rw (from_u16_le-u16_le id hi, from_u32_le-u32_le x hx, from_u32_le-u32_le y hy) (ground arith)
read_body-sent (start_frame id) hidden more h = rw (from_u32_le-u32_le id h) (ground arith)
read_body-sent (end_frame id) hidden more h = rw (from_u32_le-u32_le id h) (ground arith)
read_body-sent (reset_graphics width height) hidden more (hw, hh) =
    rw (from_u32_le-u32_le width hw, from_u32_le-u32_le height hh) (ground arith)
read_body-sent (wire_to_surface_1 id codec format dest content) hidden more h =
    read_wire-body id codec format dest content more h
read_body-sent (caps_confirm version) hidden more h =
    rw (from_u32_le-u32_le version h) (ground arith)
read_body-sent (unknown_command id) hidden more h =
    rw
      (
        ne→== id cmdid_createsurface h.1,
        ne→== id cmdid_deletesurface h.2,
        ne→== id cmdid_mapsurfacetooutput h.3,
        ne→== id cmdid_startframe h.4,
        ne→== id cmdid_endframe h.5,
        ne→== id cmdid_resetgraphics h.6,
        ne→== id cmdid_wiretosurface_1 h.7,
        ne→== id cmdid_capsconfirm h.8,
      )
      refl

id_of-IsU16 : (cmd : GfxCommand) → IsCommand cmd → id_of cmd < 2 ^ 16
id_of-IsU16 (create_surface id width height format) h = omega arith
id_of-IsU16 (delete_surface id) h = omega arith
id_of-IsU16 (map_surface_to_output id x y) h = omega arith
id_of-IsU16 (start_frame id) h = omega arith
id_of-IsU16 (end_frame id) h = omega arith
id_of-IsU16 (reset_graphics width height) h = omega arith
id_of-IsU16 (wire_to_surface_1 id codec format dest content) h = omega arith
id_of-IsU16 (caps_confirm version) h = omega arith
id_of-IsU16 (unknown_command id) h = h.0

-- A framed command, with what follows.
abbrev framed : ℕ → Bytes → Bytes
framed id body = u16_le id ++ (u16_le 0 ++ (u32_le (length body + 8) ++ body))

frame_header-framed :
    (id : ℕ) (body : Bytes)
    → length body + 8 < 2 ^ 32
    → frame_header list_bytes id body ≡ framed id body
unfolding frame_header
frame_header-framed id body h = ground arith

parse_command-framed :
    (id : ℕ) (body rest : Bytes) (cmd : GfxCommand)
    → id < 2 ^ 16
    → length body + 8 < 2 ^ 32
    → read_body list_bytes id body ≡ ok cmd
    → parse_command list_bytes (framed id body ++ rest) ≡ ok (cmd, length body + 8)
unfolding parse_command
parse_command-framed id body rest cmd hi hb h =
    rw
      (
        from_u16_le-u16_le id hi,
        from_u32_le-u32_le (length body + 8) hb,
        slice_mid (u16_le id ++ (u16_le 0 ++ u32_le (length body + 8))) body rest 8
            (length body + 8) refl (omega arith),
        h,
      )
      (ground (arith, length-append body rest))

parse_commands_step :
    (n id : ℕ) (body rest : Bytes) (cmd : GfxCommand)
    → id < 2 ^ 16
    → length body + 8 < 2 ^ 32
    → read_body list_bytes id body ≡ ok cmd
    → parse_commands list_bytes (suc n) (framed id body ++ rest)
      ≡ (parse_commands list_bytes n rest >>= λ cmds. ok (cmd ∷ cmds))
unfolding parse_commands
parse_commands_step n id body rest cmd hi hb h =
    rw
      (
        parse_command-framed id body rest cmd hi hb h,
        slice_from_right (framed id body) rest (length body + 8) (omega arith),
      )
      refl

parse_commands-sent_commands :
    (ss : List SentCommand) (n : ℕ)
    → All IsSentCommand ss
    → length ss ≤ n
    → parse_commands list_bytes n (sent_commands list_bytes ss) ≡ ok (commands_of ss)
unfolding parse_commands
parse_commands-sent_commands [] zero h hn = refl
parse_commands-sent_commands [] (suc n) h hn = refl
parse_commands-sent_commands (s ∷ ss) zero h hn = absurd (omega arith)
parse_commands-sent_commands (s ∷ ss) (suc n) ((hc, hl), hs) hn =
    rw (frame_header-framed (id_of s.command) (sent_body s) hl) (
      parse_commands_step n (id_of s.command) (sent_body s) (sent_commands list_bytes ss) s.command
        (id_of-IsU16 s.command hc) hl (read_body-sent s.command s.hidden s.more hc)
      ∙ ap (λ (r : Result (List GfxCommand)). r >>= λ cmds. ok (s.command ∷ cmds))
          (parse_commands-sent_commands ss n hs (omega arith)))

-- Fuel is left over.
length-sent_commands :
    (ss : List SentCommand)
    → All IsSentCommand ss
    → length ss ≤ length (sent_commands list_bytes ss)
length-sent_commands [] h = omega arith
length-sent_commands (s ∷ ss) ((hc, hl), hs) =
    rw (frame_header-framed (id_of s.command) (sent_body s) hl) (
      omega (
        arith,
        length-sent_commands ss hs,
        length-append (sent_body s) (sent_commands list_bytes ss),
      ))

parse_all-sent_commands_list :
    (ss : List SentCommand)
    → All IsSentCommand ss
    → parse_all list_bytes (sent_commands list_bytes ss) ≡ ok (commands_of ss)
unfolding parse_all
parse_all-sent_commands_list ss h =
    parse_commands-sent_commands ss (length (sent_commands list_bytes ss)) h
      (length-sent_commands ss h)

-- parse_all: the commands of a message, each framed by frame_header, are parsed in order with all
-- their fields, whatever the fields that the client does not use and the bytes behind the fields of
-- a command. A command with another id is passed on as unknown.
pub parse_all-sent_commands :
    {B : ByteOps} (L : ByteLaws B) (ss : List SentCommand)
    → All IsSentCommand ss
    → parse_all B (sent_commands B ss) ≡ ok (commands_of ss)
parse_all-sent_commands L = rw (lawful-eq L) parse_all-sent_commands_list
