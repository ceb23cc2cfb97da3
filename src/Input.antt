-- ===== src/Input.antt =====
-- input.rs: the fast-path input events and the PDU that carries them.
pub mod Laws
mod Checks
use ferropipe_rdp.Wire.{ByteOps, u16_le}
use mathlib.Core.List.{flatten}
use ferropipe_rdp.Common.{
  ◌/◌, bit_and, ◌/◌, ◌++◌, ◌+◌, ◌%◌, length, ◌+◌, ◌%◌, ◌^◌, ◌∷◌, ltb, leb, ◌^◌, ◌*◌, if◌then◌else◌,
  [], ◌*◌, bit_or, Bytes, Bool, ℕ, List,
}

abbrev pub event_scancode : ℕ
event_scancode = 0

abbrev pub event_mouse : ℕ
event_mouse = 1

abbrev pub event_mouse_x : ℕ
event_mouse_x = 2

abbrev pub event_unicode : ℕ
event_unicode = 4

abbrev pub kbdflags_release : ℕ
kbdflags_release = 0x01

abbrev pub kbdflags_extended : ℕ
kbdflags_extended = 0x02

-- `(event_code << 5) | (event_flags & 0x1f)` on a u8
unfoldable pub event_header : ℕ → ℕ → ℕ
event_header event_code event_flags = bit_or (event_code * 2 ^ 5 % 256) (bit_and event_flags 0x1f)

unfoldable pub scancode_event : ℕ → Bool → Bool → Bytes
unfolding event_header
scancode_event key_code pressed extended =
    let released = if pressed then 0 else bit_or 0 kbdflags_release in
    let flags = if extended then bit_or released kbdflags_extended else released in
    event_header event_scancode flags ∷ key_code ∷ []

unfoldable pub unicode_event : ℕ → Bool → Bytes
unfolding event_header
unicode_event code pressed =
    event_header event_unicode (if pressed then 0 else kbdflags_release) ∷ u16_le code

module _ (B : ByteOps) where
  unfoldable pub pointer_event : ℕ → ℕ → ℕ → ℕ → Bytes
  unfolding event_header
  pointer_event event_code pointer_flags x y =
      let b1 = B.put_u8 [] (event_header event_code 0) in
      let b2 = B.put_u16_le b1 pointer_flags in let b3 = B.put_u16_le b2 x in B.put_u16_le b3 y

  unfoldable pub mouse_event : ℕ → ℕ → ℕ → Bytes
  unfolding pointer_event
  mouse_event pointer_flags x y = pointer_event event_mouse pointer_flags x y

  unfoldable pub mouse_x_event : ℕ → ℕ → ℕ → Bytes
  unfolding pointer_event
  mouse_x_event pointer_flags x y = pointer_event event_mouse_x pointer_flags x y

-- The separate byte of the number of events, above 15, and the events.
unfoldable pub input_body : List Bytes → Bytes
input_body events =
    if ltb 15 (length events) then (length events % 256) ∷ flatten events else flatten events

-- The length of the whole PDU, in one byte or in two.
unfoldable pub input_length : ℕ → Bytes
input_length base =
    if ltb (base + 1) 0x80
    then ((base + 1) % 256) ∷ []
    else bit_or 0x80 ((base + 2) / 2 ^ 8 % 256) ∷ ((base + 2) % 256) ∷ []

unfoldable pub input_pdu : List Bytes → Bytes
unfolding input_body input_length
input_pdu events =
    let header = if leb (length events) 15 then length events % 256 * 2 ^ 2 % 256 else 0 in
    let body = input_body events in header ∷ (input_length (1 + length body) ++ body)
