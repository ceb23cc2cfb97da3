-- ===== src/Graphics/Framebuffer.antt =====
-- graphics/framebuffer.rs: the RGBA pixels, and the clipped copy of a rectangle into them.
pub mod Blit
mod Checks
use ferropipe_rdp.Common.{
  false, zero, ◌==◌, ◌==◌, true, ◌+◌, leb, ◌+◌, ◌-◌, suc, ◌-◌, min, ◌*◌, ◌*◌, replicate, Bytes, ℕ,
}
use ferropipe_rdp.Outcome.{splice, slice, ◌>>=◌, ok, Result}

pub record Framebuffer : Type 0 where
  pub width : ℕ
  pub height : ℕ
  pub pixels : Bytes

unfoldable pub new_framebuffer : ℕ → ℕ → Framebuffer
new_framebuffer width height = record {
  width = width;
  height = height;
  pixels = replicate (width * height * 4) 0;
}

-- The pixels after one row of the rectangle was copied.
abbrev pub copy_row : Framebuffer → ℕ → ℕ → ℕ → Bytes → ℕ → Result Framebuffer
copy_row fb x dst_y rect_w rgba row = do
  let copy_w = min rect_w (fb.width - x)
  let src_off = row * rect_w * 4
  let dst_off = (dst_y * fb.width + x) * 4
  part ← slice rgba src_off (src_off + copy_w * 4)
  pixels ← splice fb.pixels dst_off part
  ok (record fb { pixels = pixels })

-- `for row in 0..rect_h`: the number of rows left, and the row.
unfoldable pub blit_rows : ℕ → ℕ → Framebuffer → ℕ → ℕ → ℕ → Bytes → Result Framebuffer
blit_rows zero row fb x y rect_w rgba = ok fb
blit_rows (suc n) row fb x y rect_w rgba = elim (leb fb.height (y + row)) [
  | true ↦ ok fb
  | false ↦ elim (min rect_w (fb.width - x) == 0) [
    | true ↦ blit_rows n (row + 1) fb x y rect_w rgba
    | false ↦
        copy_row fb x (y + row) rect_w rgba row >>= λ fb'. blit_rows n (row + 1) fb' x y rect_w rgba
  ]
]

unfoldable pub blit_rgba : Framebuffer → ℕ → ℕ → ℕ → ℕ → Bytes → Result Framebuffer
blit_rgba fb x y rect_w rect_h rgba = blit_rows rect_h 0 fb x y rect_w rgba
