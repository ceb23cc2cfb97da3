-- ===== src/Graphics/Framebuffer/Checks.antt =====
-- Runs of graphics/framebuffer.rs, and its theorem at a concrete input.
use ferropipe_rdp.Common.{
  arith, ◌+◌, ◌*◌, ◌-◌, get_or, if◌then◌else◌, refl, ◌++◌, ◌++◌, [], ◌≡◌, ◌∷◌, ◌≡◌, ◌∷◌, replicate,
  Bytes,
}
use ferropipe_rdp.Graphics.Framebuffer.{blit_rows, blit_rgba, Framebuffer}
use ferropipe_rdp.Outcome.{ok}
use ferropipe_rdp.Graphics.Framebuffer.Blit.{blit_rgba-paints, inside, at, IsFramebuffer}

abbrev screen : Framebuffer
screen = record { width = 2; height = 2; pixels = replicate 16 0 }

abbrev rect : Bytes
rect = 1 ∷ 2 ∷ 3 ∷ 4 ∷ 5 ∷ 6 ∷ 7 ∷ 8 ∷ []

-- The rectangle is clipped on the right.
blit_runs :
    blit_rgba screen 1 1 2 1 rect
    ≡ ok (record { width = 2; height = 2; pixels = replicate 12 0 ++ (1 ∷ 2 ∷ 3 ∷ 4 ∷ []) })
unfolding blit_rgba blit_rows
blit_runs = refl

blit_rgba-paints_example :
    (fb' : Framebuffer) × (blit_rgba screen 1 1 2 1 rect ≡ ok fb')
    × (fb'.width ≡ 2)
    × (fb'.height ≡ 2)
    × IsFramebuffer fb'
    × (at fb' 1 1 2 ≡ (
        if inside 1 1 2 1 1 1
        then get_or rect (((1 - 1) * 2 + (1 - 1)) * 4 + 2) 0
        else at screen 1 1 2))
blit_rgba-paints_example =
    blit_rgba-paints screen 1 1 2 1 rect 1 1 2 refl (omega arith) (omega arith) (omega arith)
      (omega arith)
