-- ===== src/Graphics/Bitmap/Checks.antt =====
-- Runs of graphics/bitmap.rs, and its theorem at a concrete input.
use ferropipe_rdp.Wire.{list_bytes, list_bytes-ByteLaws, u16_le}
use ferropipe_rdp.Graphics.Bitmap.Parse.{
  parse_bitmap_update-sent_rects, rects_of, sent_rects, SentRect,
}
use ferropipe_rdp.Graphics.Bitmap.{pixel_rgba, row_rgba, rows_rgba, to_rgba, parse_bitmap_update}
use ferropipe_rdp.Common.{arith, refl, ◌≡◌, ◌≡◌, [], ◌∷◌, length, ◌++◌, true, ◌++◌}
use ferropipe_rdp.Outcome.{ok}

rgba_runs :
    to_rgba (1 ∷ 2 ∷ 3 ∷ 4 ∷ 5 ∷ 6 ∷ []) 1 2 24 ≡ ok (6 ∷ 5 ∷ 4 ∷ 255 ∷ 3 ∷ 2 ∷ 1 ∷ 255 ∷ [])
unfolding to_rgba rows_rgba row_rgba pixel_rgba
rgba_runs = refl

abbrev sent : SentRect
sent = record {
  rect = record {
    dest_left = 3;
    dest_top = 300;
    width = 1;
    height = 1;
    bits_per_pixel = 16;
    compressed = true;
    content = 0xFD ∷ [];
  };
  right = 3;
  bottom = 300;
  with_header = true;
  scan_width = 2;
  uncompressed = 2;
}

parse_bitmap_update-sent_rects_example :
    parse_bitmap_update list_bytes
      (u16_le 1 ++ (u16_le (length (sent ∷ [])) ++ (sent_rects (sent ∷ []) ++ (9 ∷ []))))
    ≡ ok (rects_of (sent ∷ []))
parse_bitmap_update-sent_rects_example =
    parse_bitmap_update-sent_rects list_bytes-ByteLaws 1 (sent ∷ []) (9 ∷ []) (omega arith)
      ((omega arith, omega arith, omega arith, omega arith, omega arith, omega arith), tt)
