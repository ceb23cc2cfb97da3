-- ===== src/Graphics/Display.antt =====
-- graphics/update.rs: the display, which reassembles fragmented updates and applies them.
pub mod Fragments
mod Checks
use ferropipe_rdp.Graphics.Bitmap
use ferropipe_rdp.Graphics.Bitmap.{BitmapRect, parse_bitmap_update}
use ferropipe_rdp.Graphics.Framebuffer.{Framebuffer, new_framebuffer}
use ferropipe_rdp.Graphics.Pointer.{Cursor, decode_color_pointer, decode_new_pointer}
use ferropipe_rdp.Graphics.Fastpath.{
  updatetype_ptr_null, fragment_last, updatetype_ptr_position, updatetype_pointer, fragment_next,
  updatetype_color, fragment_first, updatetype_bitmap, fragment_single, FastPathUpdate,
}
use ferropipe_rdp.Wire.{ByteOps}
use ferropipe_rdp.Common.{
  ◌++◌, ◌++◌, ◌*◌, ◌*◌, ◌==◌, ◌+◌, false, [], ◌==◌, ◌+◌, ◌∷◌, true, some, none, if◌then◌else◌, Bool,
  ℕ, Option, List, Bytes,
}
use ferropipe_rdp.Outcome.{panic, err, ok, Result}

pub record Display : Type 0 where
  pub framebuffer : Framebuffer
  pub cursor : Option Cursor
  pub cursor_pos : ℕ × ℕ
  pub dirty : Bool
  pub frag : Bytes
  pub frag_code : ℕ

unfoldable pub new_display : ℕ → ℕ → Display
unfolding new_framebuffer
new_display width height = record {
  framebuffer = new_framebuffer width height;
  cursor = none;
  cursor_pos = (0, 0);
  dirty = false;
  frag = [];
  frag_code = 0;
}

-- A display after a step that may fail, with what the call returns: what was written stays.
abbrev pub Outcome : Type 0
Outcome = Display × Result (Unit {0})

-- A rectangle that cannot be decoded is skipped. A panic ends the call.
abbrev pub after_rect : Display → Result Framebuffer → Outcome
after_rect d (ok fb) = (record d { framebuffer = fb; dirty = true }, ok tt)
after_rect d (err e) = (d, ok tt)
after_rect d panic = (d, panic)

abbrev pub then_next : Outcome → (Display → Outcome) → Outcome
then_next (d, ok u) next = next d
then_next (d, err e) next = (d, err e)
then_next (d, panic) next = (d, panic)

unfoldable pub apply_rects : List BitmapRect → Display → Outcome
apply_rects [] d = (d, ok tt)
apply_rects (rect ∷ rects) d =
    then_next (after_rect d (Bitmap.apply d.framebuffer rect)) (apply_rects rects)

abbrev pub bitmap_update : Result (List BitmapRect) → Display → Outcome
bitmap_update (ok rects) d = apply_rects rects d
bitmap_update (err e) d = (d, err e)
bitmap_update panic d = (d, panic)

abbrev pub cursor_update : Result Cursor → Display → Outcome
cursor_update (ok c) d = (record d { cursor = some c; dirty = true }, ok tt)
cursor_update (err e) d = (d, err e)
cursor_update panic d = (d, panic)

abbrev pub position_update : Bytes → Display → Outcome
position_update (a ∷ b ∷ c ∷ e ∷ r) d =
    (record d { cursor_pos = (a + 256 * b, c + 256 * e); dirty = true }, ok tt)
position_update short_content d = (d, ok tt)

module _ (B : ByteOps) where
  -- A complete update payload.
  unfoldable pub process : ℕ → Bytes → Display → Outcome
  process update_code content d =
      if update_code == updatetype_bitmap
      then bitmap_update (parse_bitmap_update B content) d
      else if update_code == updatetype_color
      then cursor_update (decode_color_pointer B content) d
      else if update_code == updatetype_pointer
      then cursor_update (decode_new_pointer B content) d
      else if update_code == updatetype_ptr_position
      then position_update content d
      else if update_code == updatetype_ptr_null
      then (record d { cursor = none; dirty = true }, ok tt)
      else (d, ok tt)

  unfoldable pub apply_update : FastPathUpdate → Display → Outcome
  apply_update u d =
      if u.fragmentation == fragment_single
      then process u.update_code u.content d
      else if u.fragmentation == fragment_first
      then (record d { frag_code = u.update_code; frag = u.content }, ok tt)
      else if u.fragmentation == fragment_next
      then (record d { frag = d.frag ++ u.content }, ok tt)
      else if u.fragmentation == fragment_last
      then process d.frag_code (d.frag ++ u.content) (record d { frag = [] })
      else (d, ok tt)

  -- Up to the first update that fails.
  unfoldable pub apply_all : List FastPathUpdate → Display → Outcome
  apply_all [] d = (d, ok tt)
  apply_all (u ∷ us) d = then_next (apply_update u d) (apply_all us)
