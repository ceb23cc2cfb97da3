-- ===== src/Graphics/Pointer.antt =====
-- graphics/pointer.rs: the cursor shape, from a colour mask and a one-bit transparency mask.
use ferropipe_rdp.Wire.{ByteOps}
use ferropipe_rdp.Common.{
  ◌!=◌, ◌!=◌, ◌%◌, zero, length, ◌%◌, ◌∷◌, ◌^◌, ◌++◌, ◌∷◌, ltb, ◌^◌, ◌++◌, ◌||◌, ◌*◌, ◌||◌, bit_and,
  ◌*◌, ◌==◌, ◌/◌, ◌-◌, suc, ◌==◌, ◌/◌, ◌-◌, ◌+◌, if◌then◌else◌, get_or, [], ◌+◌, ℕ, Bytes,
}
use ferropipe_rdp.Outcome.{slice, slice_to, short, protocol, err, ok, fail_if, ◌>>◌, ◌>>=◌, Result}

pub record Cursor : Type 0 where
  pub width : ℕ
  pub height : ℕ
  pub hotspot_x : ℕ
  pub hotspot_y : ℕ
  pub rgba : Bytes

abbrev pub pad : ℕ → ℕ → ℕ
pad n align = (n + align - 1) / align * align

abbrev pub mask_bytes : ℕ → Result ℕ
mask_bytes xor_bpp =
    if xor_bpp == 24
    then ok 3
    else if xor_bpp == 32
    then ok 4
    else if xor_bpp == 15 || xor_bpp == 16
    then ok 2
    else err (protocol "unsupported cursor bpp")

-- The colour of a pixel at the offset `xo` of the mask; a byte past its end is 0.
unfoldable pub cursor_color : ℕ → Bytes → ℕ → Bytes
cursor_color xor_bpp xor_mask xo =
    if xor_bpp == 24 || xor_bpp == 32
    then get_or xor_mask (xo + 2) 0 ∷ get_or xor_mask (xo + 1) 0 ∷ get_or xor_mask xo 0 ∷ []
    else (let p = get_or xor_mask xo 0 + 256 * get_or xor_mask (xo + 1) 0 in
        (bit_and (p / 2 ^ 11) 0x1f * 255 / 31 % 256)
        ∷ (bit_and (p / 2 ^ 5) 0x3f * 255 / 63 % 256)
        ∷ (bit_and p 0x1f * 255 / 31 % 256)
        ∷ [])

-- Transparent where the bit of the mask is set; a byte past its end is 0xff.
unfoldable pub cursor_alpha : Bytes → ℕ → ℕ → ℕ
cursor_alpha and_mask row_start x =
    let byte = get_or and_mask (row_start + x / 8) 0xff in
    if bit_and (byte / 2 ^ (7 - x % 8)) 1 == 1 then 0 else 255

unfoldable pub cursor_row : ℕ → Bytes → Bytes → ℕ → ℕ → ℕ → ℕ → ℕ → Bytes
unfolding cursor_color cursor_alpha
cursor_row xor_bpp xor_mask and_mask bytes_pp xor_start and_start x zero = []
cursor_row xor_bpp xor_mask and_mask bytes_pp xor_start and_start x (suc n) =
    cursor_color xor_bpp xor_mask (xor_start + x * bytes_pp)
    ++ (cursor_alpha and_mask and_start x
        ∷ cursor_row xor_bpp xor_mask and_mask bytes_pp xor_start and_start (x + 1) n)

-- From the top: with `n` rows left, the source row is `n - 1`.
unfoldable pub cursor_rows : ℕ → Bytes → Bytes → ℕ → ℕ → ℕ → ℕ → ℕ → Bytes
unfolding cursor_row
cursor_rows xor_bpp xor_mask and_mask bytes_pp width xor_stride and_stride zero = []
cursor_rows xor_bpp xor_mask and_mask bytes_pp width xor_stride and_stride (suc src_row) =
    cursor_row xor_bpp xor_mask and_mask bytes_pp (src_row * xor_stride) (src_row * and_stride) 0
      width
    ++ cursor_rows xor_bpp xor_mask and_mask bytes_pp width xor_stride and_stride src_row

unfoldable pub decode_masks : ℕ → ℕ → ℕ → ℕ → Bytes → Bytes → ℕ → Result Cursor
unfolding cursor_rows
decode_masks width height hotspot_x hotspot_y xor_mask and_mask xor_bpp = do
  bytes_pp ← mask_bytes xor_bpp
  let xor_stride = pad (width * bytes_pp) 2
  let and_stride = pad ((width + 7) / 8) 2
  ok (record {
    width = width;
    height = height;
    hotspot_x = hotspot_x;
    hotspot_y = hotspot_y;
    rgba = cursor_rows xor_bpp xor_mask and_mask bytes_pp width xor_stride and_stride height;
  })

module _ (B : ByteOps) where
  -- The fields behind the optional xorBpp, and the masks at the given depth.
  unfoldable pub decode_fields : ℕ → Bytes → Result Cursor
  unfolding decode_masks
  decode_fields xor_bpp buf = do
    (cache_index, b1) ← B.get_u16_le buf
    (hotspot_x, b2) ← B.get_u16_le b1
    (hotspot_y, b3) ← B.get_u16_le b2
    (width, b4) ← B.get_u16_le b3
    (height, b5) ← B.get_u16_le b4
    (len_and, b6) ← B.get_u16_le b5
    (len_xor, b7) ← B.get_u16_le b6
    fail_if (ltb (length b7) (len_xor + len_and)) (short (len_xor + len_and) (length b7))
    xor_mask ← slice_to b7 len_xor
    and_mask ← slice b7 len_xor (len_xor + len_and)
    decode_masks width height hotspot_x hotspot_y xor_mask and_mask xor_bpp

  unfoldable pub decode_color_pointer : Bytes → Result Cursor
  unfolding decode_fields
  decode_color_pointer buf = do
    fail_if (ltb (length buf) 14) (short 14 (length buf))
    decode_fields 24 buf

  unfoldable pub decode_new_pointer : Bytes → Result Cursor
  unfolding decode_color_pointer
  decode_new_pointer buf = do
    fail_if (ltb (length buf) 2) (short 2 (length buf))
    (xor_bpp, rest) ← B.get_u16_le buf
    c ← decode_color_pointer rest
    if xor_bpp != 24 then decode_fields xor_bpp rest else ok c
