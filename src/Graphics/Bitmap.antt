-- ===== src/Graphics/Bitmap.antt =====
-- graphics/bitmap.rs: the rectangles of a bitmap update, and their pixels as RGBA.
pub mod Parse
mod Checks
use ferropipe_rdp.Graphics.Planar
use ferropipe_rdp.Graphics.Rle
use ferropipe_rdp.Graphics.Framebuffer.{Framebuffer, blit_rgba}
use ferropipe_rdp.Wire.{ByteOps}
use ferropipe_rdp.Common.{
  zero, ◌∷◌, ◌^◌, ◌++◌, ◌%◌, ◌∷◌, length, ◌^◌, ◌++◌, ◌%◌, ◌||◌, ◌/◌, ◌!=◌, ◌||◌, suc, ltb, ◌/◌,
  ◌!=◌, ◌==◌, ◌+◌, ◌&&◌, bit_and, [], ◌==◌, ◌+◌, ◌&&◌, ◌*◌, if◌then◌else◌, List, Bool, ◌*◌, ℕ,
  Bytes,
}
use ferropipe_rdp.Outcome.{
  slice_to, short, protocol, slice, err, index, fail_if, ◌>>◌, ◌>>=◌, ok, Result,
}

abbrev pub bitmap_compression : ℕ
bitmap_compression = 0x0001

abbrev pub no_bitmap_compression_hdr : ℕ
no_bitmap_compression_hdr = 0x0400

pub record BitmapRect : Type 0 where
  pub dest_left : ℕ
  pub dest_top : ℕ
  pub width : ℕ
  pub height : ℕ
  pub bits_per_pixel : ℕ
  pub compressed : Bool
  pub content : Bytes

module _ (B : ByteOps) where
  -- TS_CD_HEADER: the length of the main body, where the header is there.
  abbrev pub data_length : ℕ → ℕ → Bytes → Result (ℕ × Bytes)
  data_length flags bitmap_length buf =
      if bit_and flags bitmap_compression != 0 && bit_and flags no_bitmap_compression_hdr == 0
      then (do
        fail_if (ltb (length buf) 8) (short 8 (length buf))
        (first_row, b1) ← B.get_u16_le buf
        (main_body, b2) ← B.get_u16_le b1
        (scan_width, b3) ← B.get_u16_le b2
        (uncompressed, b4) ← B.get_u16_le b3
        ok (main_body, b4))
      else ok (bitmap_length, buf)

  unfoldable pub read_rect : Bytes → Result (BitmapRect × Bytes)
  read_rect buf = do
    fail_if (ltb (length buf) 18) (short 18 (length buf))
    (dest_left, b1) ← B.get_u16_le buf
    (dest_top, b2) ← B.get_u16_le b1
    (dest_right, b3) ← B.get_u16_le b2
    (dest_bottom, b4) ← B.get_u16_le b3
    (width, b5) ← B.get_u16_le b4
    (height, b6) ← B.get_u16_le b5
    (bits_per_pixel, b7) ← B.get_u16_le b6
    (flags, b8) ← B.get_u16_le b7
    (bitmap_length, b9) ← B.get_u16_le b8
    (data_len, b10) ← data_length flags bitmap_length b9
    fail_if (ltb (length b10) data_len) (short data_len (length b10))
    content ← slice_to b10 data_len
    rest ← B.advance b10 data_len
    ok (
      record {
        dest_left = dest_left;
        dest_top = dest_top;
        width = width;
        height = height;
        bits_per_pixel = bits_per_pixel;
        compressed = bit_and flags bitmap_compression != 0;
        content = content;
      },
      rest,
    )

  -- `for _ in 0..count`
  unfoldable pub read_rects : ℕ → Bytes → Result (List BitmapRect)
  unfolding read_rect
  read_rects zero buf = ok []
  read_rects (suc n) buf = do
    (rect, rest) ← read_rect buf
    rects ← read_rects n rest
    ok (rect ∷ rects)

  unfoldable pub parse_bitmap_update : Bytes → Result (List BitmapRect)
  unfolding read_rects
  parse_bitmap_update buf = do
    fail_if (ltb (length buf) 4) (short 4 (length buf))
    (update_type, b1) ← B.get_u16_le buf
    (count, b2) ← B.get_u16_le b1
    read_rects count b2

-- An n-bit channel value scaled to 8 bits.
abbrev pub scale : ℕ → ℕ → ℕ
scale v top = (v * 255 + top / 2) / top % 256

abbrev pub bytes_per_pixel : ℕ → Result ℕ
bytes_per_pixel bpp =
    if bpp == 15 || bpp == 16
    then ok 2
    else if bpp == 24
    then ok 3
    else if bpp == 32
    then ok 4
    else err (protocol "unsupported bitmap bpp")

-- The pixel at column `col` of the row `src`, as RGBA.
unfoldable pub pixel_rgba : ℕ → Bytes → ℕ → Result Bytes
pixel_rgba bpp src col =
    if bpp == 16
    then (do
      lo ← index src (col * 2)
      hi ← index src (col * 2 + 1)
      let p = lo + 256 * hi
      ok (
          scale (bit_and (p / 2 ^ 11) 0x1f) 31
          ∷ scale (bit_and (p / 2 ^ 5) 0x3f) 63
          ∷ scale (bit_and p 0x1f) 31
          ∷ 255
          ∷ []))
    else if bpp == 15
    then (do
      lo ← index src (col * 2)
      hi ← index src (col * 2 + 1)
      let p = lo + 256 * hi
      ok (
          scale (bit_and (p / 2 ^ 10) 0x1f) 31
          ∷ scale (bit_and (p / 2 ^ 5) 0x1f) 31
          ∷ scale (bit_and p 0x1f) 31
          ∷ 255
          ∷ []))
    else (do
      let at = if bpp == 24 then col * 3 else col * 4
      b ← index src at
      g ← index src (at + 1)
      r ← index src (at + 2)
      ok (r ∷ g ∷ b ∷ 255 ∷ []))

-- The pixels of a row from column `col` on, `n` of them.
unfoldable pub row_rgba : ℕ → Bytes → ℕ → ℕ → Result Bytes
unfolding pixel_rgba
row_rgba bpp src col zero = ok []
row_rgba bpp src col (suc n) = do
  p ← pixel_rgba bpp src col
  rest ← row_rgba bpp src (col + 1) n
  ok (p ++ rest)

-- The rows from the top: with `n` rows left, the source row is `n - 1`.
unfoldable pub rows_rgba : ℕ → Bytes → ℕ → ℕ → ℕ → Result Bytes
unfolding row_rgba
rows_rgba bpp pixels width stride zero = ok []
rows_rgba bpp pixels width stride (suc src_row) = do
  src ← slice pixels (src_row * stride) (src_row * stride + stride)
  row ← row_rgba bpp src 0 width
  rest ← rows_rgba bpp pixels width stride src_row
  ok (row ++ rest)

unfoldable pub to_rgba : Bytes → ℕ → ℕ → ℕ → Result Bytes
unfolding rows_rgba
to_rgba pixels width height bpp = do
  bytes ← bytes_per_pixel bpp
  let stride = width * bytes
  fail_if (ltb (length pixels) (stride * height)) (short (stride * height) (length pixels))
  rows_rgba bpp pixels width stride height

-- The decoder that a rectangle wants.
unfoldable pub decode_rect : BitmapRect → Result Bytes
decode_rect rect =
    if rect.compressed && rect.bits_per_pixel == 32
    then Planar.decode rect.content rect.width rect.height
    else if rect.compressed
    then (do
      pixels ← Rle.decompress rect.content rect.width rect.height rect.bits_per_pixel
      to_rgba pixels rect.width rect.height rect.bits_per_pixel)
    else to_rgba rect.content rect.width rect.height rect.bits_per_pixel

unfoldable pub apply : Framebuffer → BitmapRect → Result Framebuffer
unfolding decode_rect
apply fb rect = do
  rgba ← decode_rect rect
  blit_rgba fb rect.dest_left rect.dest_top rect.width rect.height rgba
