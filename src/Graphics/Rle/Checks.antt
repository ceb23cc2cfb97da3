-- ===== src/Graphics/Rle/Checks.antt =====
-- Runs of graphics/rle.rs, and its theorems at concrete inputs.
-- A run of three background pixels and a white one, on one line of four.
use ferropipe_rdp.Common.{
  false, replicate, List, arith, refl, ◌+◌, [], ◌≡◌, ◌≡◌, ◌∷◌, ◌*◌, length, Bytes,
}
use ferropipe_rdp.Graphics.Rle.{start, white_pixel, pixel_size, orders, decompress}
use ferropipe_rdp.Graphics.Rle.Decompress.{decompress-rounds, decompress-image, image_order}
use ferropipe_rdp.Outcome.{panic, ok}
use ferropipe_rdp.Graphics.Rle.Lines.{
  Run, background_run, foreground_run, coloured_run, carried_run, white_dot, black_dot, first_mask,
}
use ferropipe_rdp.Graphics.Rle.Line.{decompress-line, line_bytes, drawn_line, white_of}

decompress_runs : decompress (0x03 ∷ 0xFD ∷ []) 4 1 8 ≡ ok (0 ∷ 0 ∷ 0 ∷ 0xFF ∷ [])
unfolding decompress
decompress_runs = refl

-- A run that is longer than the rectangle writes past the end of the image.
decompress_long : decompress (0x02 ∷ []) 1 1 8 ≡ panic
unfolding decompress
decompress_long = refl

size_runs : pixel_size 16 ≡ ok 2
unfolding pixel_size
size_runs = refl

abbrev encoded : Bytes
encoded = 0x03 ∷ 0xFD ∷ []

byte_size : pixel_size 8 ≡ ok 1
unfolding pixel_size
byte_size = refl

abbrev white_end : Bytes
white_end = 0 ∷ 0 ∷ 0 ∷ 0xFF ∷ []

decompress-rounds_example :
    orders 1 (4 * 1) encoded (white_pixel 8) (length encoded + 5) (start 4 1 8 1)
    ≡ decompress encoded 4 1 8
decompress-rounds_example = decompress-rounds encoded 4 1 8 1 5 byte_size

decompress-image_example :
    decompress (image_order (1 * 2) (1 ∷ 2 ∷ 3 ∷ 4 ∷ [])) 1 2 16 ≡ ok (1 ∷ 2 ∷ 3 ∷ 4 ∷ [])
decompress-image_example =
    decompress-image (1 ∷ 2 ∷ 3 ∷ 4 ∷ []) 1 2 16 2 size_runs refl (omega arith)

-- Two black runs with the white pixel between them, a colour, carried pixels, a mask and two dots.
abbrev drawing : List Run
drawing =
    background_run 2
    ∷ background_run 2
    ∷ coloured_run 2 (7 ∷ [])
    ∷ carried_run 2 (8 ∷ 9 ∷ [])
    ∷ first_mask
    ∷ foreground_run 1
    ∷ white_dot
    ∷ black_dot
    ∷ []

decompress-line_example :
    decompress (line_bytes drawing) 19 1 8
    ≡ ok (drawn_line (white_of 8) (replicate 1 0) false drawing)
decompress-line_example =
    decompress-line drawing 19 8 1 byte_size
      (
        (omega arith, omega arith),
        (
          (omega arith, omega arith),
          (
            (omega arith, omega arith, (omega arith, tt), refl),
            ((omega arith, omega arith, refl), (tt, ((omega arith, omega arith), (tt, (tt, tt))))),
          ),
        ),
      )
      refl
