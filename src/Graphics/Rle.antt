-- ===== src/Graphics/Rle.antt =====
-- graphics/rle.rs: the interleaved run-length decoder. A pixel is `ps` bytes, lowest first.
pub mod Orders
pub mod Decompress
pub mod Lines
pub mod Runs
pub mod Steps
pub mod Line
mod Checks
use ferropipe_rdp.Common.{
  ◌^◌, ◌-◌, replicate, ◌^◌, ◌-◌, ◌||◌, ◌/◌, ◌*◌, ◌%◌, ◌||◌, zero, true, min, length, leb, bit_xor,
  ◌/◌, ◌*◌, ◌%◌, ◌==◌, ◌&&◌, ◌!=◌, suc, ltb, false, bit_or, bit_and, ◌==◌, ◌&&◌, ◌!=◌, ◌∷◌, ◌+◌,
  if◌then◌else◌, [], Bool, ◌+◌, ℕ, Bytes,
}
use ferropipe_rdp.Outcome.{
  short, protocol, splice, slice_from, slice, panic, index, err, ◌>>◌, ◌>>=◌, ok, fail_if, Result,
}

unfoldable pub pixel_size : ℕ → Result ℕ
pixel_size bpp =
    if bpp == 8
    then ok 1
    else if bpp == 15 || bpp == 16
    then ok 2
    else if bpp == 24
    then ok 3
    else err (protocol "unsupported RLE bpp")

unfoldable pub white_pixel : ℕ → ℕ
white_pixel bpp =
    if bpp == 15 then 0x7FFF else if bpp == 16 then 0xFFFF else if bpp == 24 then 0xFFFFFF else 0xFF

-- The orders, by what the decoder does with them. A code in none of the groups is `unknown`.
pub data Order : Type 0 where
  bg_run mega_bg_run fg_run mega_fg_run lite_set_fg_fg_run mega_set_fg_run : Order
  lite_dithered_run mega_dithered_run color_run mega_color_run : Order
  fgbg_image mega_fgbg_image lite_set_fg_fgbg_image mega_set_fgbg_image : Order
  color_image mega_color_image special_fgbg_1 special_fgbg_2 white_order black_order : Order
  mega_unused unknown : Order

unfoldable pub code_id : ℕ → ℕ
code_id hdr =
    if bit_and hdr 0xC0 != 0xC0
    then hdr / 2 ^ 5
    else if bit_and hdr 0xF0 == 0xF0
    then hdr
    else hdr / 2 ^ 4

-- The constant that a code is. 0xF5 is in the range of the mega orders and in no other pattern.
unfoldable pub order_of : ℕ → Order
order_of code =
    if code == 0x0
    then bg_run
    else if code == 0x1
    then fg_run
    else if code == 0x2
    then fgbg_image
    else if code == 0x3
    then color_run
    else if code == 0x4
    then color_image
    else if code == 0xC
    then lite_set_fg_fg_run
    else if code == 0xD
    then lite_set_fg_fgbg_image
    else if code == 0xE
    then lite_dithered_run
    else if code == 0xF0
    then mega_bg_run
    else if code == 0xF1
    then mega_fg_run
    else if code == 0xF2
    then mega_fgbg_image
    else if code == 0xF3
    then mega_color_run
    else if code == 0xF4
    then mega_color_image
    else if code == 0xF5
    then mega_unused
    else if code == 0xF6
    then mega_set_fg_run
    else if code == 0xF7
    then mega_set_fgbg_image
    else if code == 0xF8
    then mega_dithered_run
    else if code == 0xF9
    then special_fgbg_1
    else if code == 0xFA
    then special_fgbg_2
    else if code == 0xFD
    then white_order
    else if code == 0xFE
    then black_order
    else unknown

-- `get1()?` plus a constant, and two header bytes.
abbrev pub long_length : Bytes → ℕ → Result (ℕ × ℕ)
long_length (b0 ∷ b1 ∷ r) add = ok (b1 + add, 2)
long_length src add = err (short 2 (length src))

abbrev pub mega_length : Bytes → Result (ℕ × ℕ)
mega_length src = do
  fail_if (ltb (length src) 3) (short 3 (length src))
  b1 ← index src 1
  b2 ← index src 2
  ok (bit_or b1 (b2 * 2 ^ 8), 3)

-- A length in the low bits of the first byte, times `unit`; zero stands for the next byte.
abbrev pub short_length : ℕ → ℕ → ℕ → Bytes → Result (ℕ × ℕ)
short_length r unit add src = if r != 0 then ok (r * unit, 1) else long_length src add

-- The run length and the number of header bytes of the order at the front of `src`.
unfoldable pub length_by : Order → ℕ → Bytes → Result (ℕ × ℕ)
length_by fgbg_image b0 src = short_length (bit_and b0 0x1F) 8 1 src
length_by lite_set_fg_fgbg_image b0 src = short_length (bit_and b0 0x0F) 8 1 src
length_by bg_run b0 src = short_length (bit_and b0 0x1F) 1 32 src
length_by fg_run b0 src = short_length (bit_and b0 0x1F) 1 32 src
length_by color_run b0 src = short_length (bit_and b0 0x1F) 1 32 src
length_by color_image b0 src = short_length (bit_and b0 0x1F) 1 32 src
length_by lite_set_fg_fg_run b0 src = short_length (bit_and b0 0x0F) 1 16 src
length_by lite_dithered_run b0 src = short_length (bit_and b0 0x0F) 1 16 src
length_by special_fgbg_1 b0 src = ok (0, 1)
length_by special_fgbg_2 b0 src = ok (0, 1)
length_by white_order b0 src = ok (0, 1)
length_by black_order b0 src = ok (0, 1)
length_by unknown b0 src = ok (0, 1)
length_by mega b0 src = mega_length src

unfoldable pub run_length : Order → Bytes → Result (ℕ × ℕ)
unfolding length_by
run_length order src = do b0 ← index src 0; length_by order b0 src

-- `read_px` and `write_px`: the bytes of a pixel, one after the other.
unfoldable pub pixel_value : Bytes → ℕ
pixel_value [] = 0
pixel_value (b ∷ bs) = bit_or b (pixel_value bs * 2 ^ 8)

unfoldable pub pixel_bytes : ℕ → ℕ → Bytes
pixel_bytes zero v = []
pixel_bytes (suc ps) v = (v % 256) ∷ pixel_bytes ps (v / 2 ^ 8)

unfoldable pub read_px : ℕ → Bytes → ℕ → Result ℕ
unfolding pixel_value
read_px ps buf idx = do part ← slice buf idx (idx + ps); ok (pixel_value part)

-- What the loop changes: the source and target cursors, the foreground, the flags, and the target.
pub record State : Type 0 where
  pub i : ℕ
  pub d : ℕ
  pub fg_pel : ℕ
  pub insert_fg : Bool
  pub first_line : Bool
  pub dst : Bytes

module _ (ps row_delta : ℕ) where
  -- `write_px(&mut dst, d, v); d += ps`
  unfoldable pub write_px : ℕ → State → Result State
  unfolding pixel_bytes
  write_px v s = do
    dst ← splice s.dst s.d (pixel_bytes ps v)
    ok (record s { dst = dst; d = s.d + ps })

  -- The pixel one row back, `read_px(&dst, d - row_delta)`, after the first line.
  unfoldable pub above : State → Result ℕ
  unfolding read_px
  above s = if ltb s.d row_delta then panic else read_px ps s.dst (s.d - row_delta)

  -- A pixel of the background or, with `fg`, of the foreground over what is above.
  unfoldable pub write_over : Bool → State → Result State
  unfolding write_px above
  write_over fg s =
      if s.first_line
      then write_px (if fg then s.fg_pel else 0) s
      else (do v ← above s; write_px (if fg then bit_xor v s.fg_pel else v) s)

  -- `for _ in 0..len`
  unfoldable pub repeat_step : ℕ → (State → Result State) → State → Result State
  repeat_step zero f s = ok s
  repeat_step (suc n) f s = f s >>= repeat_step n f

  -- One mask of a foreground/background image: bit k for the pixel k.
  unfoldable pub write_fgbg : ℕ → ℕ → State → Result State
  unfolding write_over
  write_fgbg zero mask s = ok s
  write_fgbg (suc bits) mask s = do
    s' ← write_over (bit_and mask 1 != 0) s
    write_fgbg bits (mask / 2) s'

  module _ (input : Bytes) where
    abbrev pub need_src : ℕ → State → Result (Unit {0})
    need_src n s = fail_if (ltb (length input) (s.i + n)) (short (s.i + n) (length input))

    -- A pixel of the source.
    unfoldable pub take_px : State → Result (ℕ × State)
    unfolding read_px
    take_px s = do v ← read_px ps input s.i; ok (v, record s { i = s.i + ps })

    -- `while len > 0` of an image, at most eight pixels a mask, on the rounds left.
    unfoldable pub fgbg_masks : ℕ → ℕ → State → Result State
    unfolding write_fgbg
    fgbg_masks zero len s = ok s
    fgbg_masks (suc n) zero s = ok s
    fgbg_masks (suc n) (suc len) s = do
      let bits = min (suc len) 8
      need_src 1 s
      mask ← index input s.i
      s' ← write_fgbg bits mask (record s { i = s.i + 1 })
      fgbg_masks n (suc len - bits) s'

    abbrev pub set_fg : Bool → State → Result State
    set_fg false s = ok s
    set_fg true s = do need_src ps s; (v, s') ← take_px s; ok (record s' { fg_pel = v })

    -- The header of an order is read, and the cursor stands behind it.
    abbrev pub header : Order → State → Result (ℕ × State)
    header order s = do
      src ← slice_from input s.i
      (len, hlen) ← run_length order src
      ok (len, record s { i = s.i + hlen })

    unfoldable pub background : Order → State → Result State
    unfolding repeat_step write_over run_length
    background order s = do
      (len, s1) ← header order s
      let with_fg = s.insert_fg && ltb 0 len
      s2 ← if with_fg then write_over true s1 else ok s1
      s3 ← repeat_step (if with_fg then len - 1 else len) (write_over false) s2
      ok (record s3 { insert_fg = true })

    unfoldable pub foreground : Bool → Order → State → Result State
    unfolding repeat_step write_over run_length take_px
    foreground set order s = do
      (len, s1) ← header order s
      s2 ← set_fg set s1
      repeat_step len (write_over true) s2

    unfoldable pub dithered : Order → State → Result State
    unfolding repeat_step write_px run_length take_px
    dithered order s = do
      (len, s1) ← header order s
      need_src (2 * ps) s1
      (a, s2) ← take_px s1
      (b, s3) ← take_px s2
      repeat_step len (λ t. write_px a t >>= write_px b) s3

    unfoldable pub colored : Order → State → Result State
    unfolding repeat_step write_px run_length take_px
    colored order s = do
      (len, s1) ← header order s
      need_src ps s1
      (a, s2) ← take_px s1
      repeat_step len (write_px a) s2

    unfoldable pub masked : Bool → Order → State → Result State
    unfolding fgbg_masks run_length take_px
    masked set order s = do (len, s1) ← header order s; s2 ← set_fg set s1; fgbg_masks len len s2

    unfoldable pub copied : Order → State → Result State
    unfolding run_length
    copied order s = do
      (len, s1) ← header order s
      let byte_count = len * ps
      need_src byte_count s1
      part ← slice input s1.i (s1.i + byte_count)
      dst ← splice s1.dst s1.d part
      ok (record s1 { dst = dst; i = s1.i + byte_count; d = s1.d + byte_count })

    abbrev pub skip_order : State → State
    skip_order s = record s { i = s.i + 1 }

    -- One order. All but the background runs clear `insert_fg` first.
    unfoldable pub step : ℕ → Order → State → Result State
    unfolding background foreground dithered colored masked copied write_fgbg write_px
    step white order s =
        let t = record s { insert_fg = false } in
        elim order [
          | bg_run ↦ background bg_run s
          | mega_bg_run ↦ background mega_bg_run s
          | fg_run ↦ foreground false fg_run t
          | mega_fg_run ↦ foreground false mega_fg_run t
          | lite_set_fg_fg_run ↦ foreground true lite_set_fg_fg_run t
          | mega_set_fg_run ↦ foreground true mega_set_fg_run t
          | lite_dithered_run ↦ dithered lite_dithered_run t
          | mega_dithered_run ↦ dithered mega_dithered_run t
          | color_run ↦ colored color_run t
          | mega_color_run ↦ colored mega_color_run t
          | fgbg_image ↦ masked false fgbg_image t
          | mega_fgbg_image ↦ masked false mega_fgbg_image t
          | lite_set_fg_fgbg_image ↦ masked true lite_set_fg_fgbg_image t
          | mega_set_fgbg_image ↦ masked true mega_set_fgbg_image t
          | color_image ↦ copied color_image t
          | mega_color_image ↦ copied mega_color_image t
          | special_fgbg_1 ↦ write_fgbg 8 0x03 (skip_order t)
          | special_fgbg_2 ↦ write_fgbg 8 0x05 (skip_order t)
          | white_order ↦ write_px white (skip_order t)
          | black_order ↦ write_px 0 (skip_order t)
          | _ ↦ err (protocol "unknown RLE order")
        ]

    -- The second line starts once the first row is full.
    abbrev pub leave_first_line : State → State
    leave_first_line s =
        if s.first_line && leb row_delta s.d
        then record s { first_line = false; insert_fg = false }
        else s

    -- `while i < data.len()`, on fuel.
    unfoldable pub orders : ℕ → ℕ → State → Result Bytes
    unfolding step code_id order_of
    orders white zero s = ok s.dst
    orders white (suc fuel) s = elim (ltb s.i (length input)) [
      | false ↦ ok s.dst
      | true ↦ index input s.i >>= λ hdr.
          step white (order_of (code_id hdr)) (leave_first_line s) >>= orders white fuel
    ]

-- The start of the loop: an image of zeros, white in the foreground.
abbrev pub start : ℕ → ℕ → ℕ → ℕ → State
start width height bpp ps = record {
  i = 0;
  d = 0;
  fg_pel = white_pixel bpp;
  insert_fg = false;
  first_line = true;
  dst = replicate (width * ps * height) 0;
}

-- Every order takes a byte of the source, so one round for each byte is enough.
unfoldable pub decompress : Bytes → ℕ → ℕ → ℕ → Result Bytes
unfolding pixel_size white_pixel orders
decompress input width height bpp = do
  ps ← pixel_size bpp
  orders ps (width * ps) input (white_pixel bpp) (length input) (start width height bpp ps)
