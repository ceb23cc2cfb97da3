-- ===== src/Graphics/Planar.antt =====
-- graphics/planar.rs: the plane-oriented decoder. The output is filled from the first pixel to the
-- last, so a loop over the pixels is the list of what it writes. An `i32` is an integer.
pub mod Rows
pub mod Planes
use mathlib.Core.List.{flatten}
mod Checks
use ferropipe_rdp.Common.{
  ◌||◌, ◌||◌, true, drop, ◌&&◌, ◌!=◌, zero, take, leb, false, ◌++◌, ◌&&◌, ◌!=◌, ◌==◌, suc, none,
  length, ◌==◌, ◌^◌, ◌/◌, ◌-◌, ◌%◌, some, ltb, ◌^◌, [], ◌/◌, ◌-◌, ◌%◌, ◌∷◌, ◌+◌, ◌*◌, min,
  if◌then◌else◌, bit_and, ◌+◌, ◌*◌, ℕ, Option, List, Bytes, Bool,
}
use ferropipe_rdp.Outcome.{protocol, panic, short, index, ◌>>=◌, ok, err, Result}

abbrev pub cll_mask : ℕ
cll_mask = 0x07

abbrev pub cs_flag : ℕ
cs_flag = 0x08

abbrev pub rle_flag : ℕ
rle_flag = 0x10

abbrev pub na_flag : ℕ
na_flag = 0x20

-- A run control byte: how many literal bytes and how many repetitions follow.
unfoldable pub control_counts : ℕ → ℕ × ℕ
control_counts control =
    let n_run = bit_and control 0x0F in
    let c_raw = bit_and (control / 2 ^ 4) 0x0F in
    if n_run == 1 then (0, 16 + c_raw) else if n_run == 2 then (0, 32 + c_raw) else (c_raw, n_run)

-- What is left of the input after `pos`, the bytes of the row so far, and the last literal.
pub record Row : Type 0 where
  pub input : Bytes
  pub done : Bytes
  pub last : ℕ

-- `for _ in 0..c_raw`
unfoldable pub take_literals : ℕ → ℕ → Row → Result Row
take_literals width zero r = ok r
take_literals width (suc n) r =
    if leb width (length r.done)
    then err (protocol "planar RLE overran scanline")
    else elim r.input [
      | [] ↦ err (protocol "planar RLE overran scanline")
      | b ∷ rest ↦
          take_literals width n (record { input = rest; done = r.done ++ (b ∷ []); last = b })
    ]

-- `for _ in 0..n_run`
unfoldable pub repeat_last : ℕ → ℕ → Row → Result Row
repeat_last width zero r = ok r
repeat_last width (suc n) r =
    if leb width (length r.done)
    then err (protocol "planar RLE run overran scanline")
    else repeat_last width n (record r { done = r.done ++ (r.last ∷ []) })

-- `while x < width`, on fuel: each round takes a control byte.
unfoldable pub decode_row : ℕ → ℕ → ℕ → Row → Result Row
unfolding take_literals repeat_last control_counts
decode_row have width zero r =
    if ltb (length r.done) width then err (short (have + 1) have) else ok r
decode_row have width (suc fuel) r = elim (ltb (length r.done) width) [
  | false ↦ ok r
  | true ↦ elim r.input [
    | [] ↦ err (short (have + 1) have)
    | control ∷ rest ↦
        (take_literals width (control_counts control).0 (record r { input = rest })
          >>= repeat_last width (control_counts control).1)
        >>= decode_row have width fuel
  ]
]

-- The rows of a plane, first to last, with what follows them. `have` is `data.len()`.
unfoldable pub decode_rows : ℕ → ℕ → ℕ → Bytes → Result (List Bytes × Bytes)
unfolding decode_row
decode_rows have width zero input = ok ([], input)
decode_rows have width (suc n) input = do
  r ← decode_row have width (length input) (record { input = input; done = []; last = 0 })
  (rows, rest) ← decode_rows have width n r.input
  ok (r.done ∷ rows, rest)

-- `(above as i16 + delta) as u8`, where the lowest bit of `d` is the sign of the delta.
unfoldable pub add_delta : ℕ → ℕ → ℕ
add_delta above d = if d % 2 == 0 then (above + d / 2) % 256 else (above + 256 - (d / 2 + 1)) % 256

unfoldable pub add_deltas : Bytes → Bytes → Bytes
unfolding add_delta
add_deltas (a ∷ above) (d ∷ row) = add_delta a d ∷ add_deltas above row
add_deltas above row = []

-- Each row but the first holds the differences to the row above.
unfoldable pub undelta_from : Bytes → List Bytes → List Bytes
unfolding add_deltas
undelta_from above [] = []
undelta_from above (row ∷ rows) = let r = add_deltas above row in r ∷ undelta_from r rows

unfoldable pub undelta : List Bytes → List Bytes
unfolding undelta_from
undelta [] = []
undelta (row ∷ rows) = row ∷ undelta_from row rows

-- With no row at all `plane[..width]` of an empty plane panics, unless the width is 0 too.
unfoldable pub decode_rle_plane : ℕ → ℕ → ℕ → Bytes → Result (Bytes × Bytes)
unfolding decode_rows undelta
decode_rle_plane have width height input = do
  (rows, rest) ← decode_rows have width height input
  if height == 0 && ltb 0 width then panic else ok (flatten (undelta rows), rest)

unfoldable pub read_plane : ℕ → Bool → ℕ → ℕ → Bytes → Result (Bytes × Bytes)
unfolding decode_rle_plane
read_plane have rle w h input =
    if rle
    then decode_rle_plane have w h input
    else if ltb (length input) (w * h)
    then err (short (have - length input + w * h) have)
    else ok (take (w * h) input, drop (w * h) input)

-- `[A], R, G, B` woven into pixels; without an alpha plane the alpha is 0xFF.
unfoldable pub weave : Option Bytes → Bytes → Bytes → Bytes → Bytes
weave none (r ∷ rs) (g ∷ gs) (b ∷ bs) = r ∷ g ∷ b ∷ 0xFF ∷ weave none rs gs bs
weave (some (a ∷ as')) (r ∷ rs) (g ∷ gs) (b ∷ bs) = r ∷ g ∷ b ∷ a ∷ weave (some as') rs gs bs
weave alpha rs gs bs = []

-- The uncompressed shortcut: BGRA to RGBA.
unfoldable pub swap_channels : Bytes → Bytes
swap_channels (b ∷ g ∷ r ∷ a ∷ rest) = r ∷ g ∷ b ∷ a ∷ swap_channels rest
swap_channels rest = []

abbrev pub alpha_plane : ℕ → Bool → Bool → ℕ → ℕ → Bytes → Result (Option Bytes × Bytes)
alpha_plane have rle has_alpha w h input =
    if has_alpha
    then (do (p, rest) ← read_plane have rle w h input; ok (some p, rest))
    else ok (none, input)

unfoldable pub decode_argb : ℕ → Bool → Bool → ℕ → ℕ → Bytes → Result Bytes
unfolding read_plane weave
decode_argb have rle has_alpha w h input = do
  (alpha, i1) ← alpha_plane have rle has_alpha w h input
  (red, i2) ← read_plane have rle w h i1
  (green, i3) ← read_plane have rle w h i2
  (blue, i4) ← read_plane have rle w h i3
  ok (weave alpha red green blue)

-- The value of a byte as `i8`, shifted, in offset form: 128 * 2 ^ cll above the integer it is.
abbrev pub chroma : ℕ → ℕ → ℕ
chroma cll b = (b + 128) % 256 * 2 ^ cll

-- `clamp(0, 255)` of the integer `plus - minus`.
abbrev pub clamp_diff : ℕ → ℕ → ℕ
clamp_diff plus minus = min 255 (plus - minus)

-- The inverse YCoCg of one pixel, from the chroma in offset form.
unfoldable pub ycocg_pixel : ℕ → ℕ → ℕ → ℕ → Bytes
ycocg_pixel cll y co cg =
    let off = 128 * 2 ^ cll in
    clamp_diff (y + off + off) (chroma cll co + chroma cll cg)
    ∷ clamp_diff (y + chroma cll cg) off
    ∷ clamp_diff (y + chroma cll co + off) (off + chroma cll cg)
    ∷ []

-- The chroma sample of a pixel: nearest of a 2x2 block where the planes are subsampled.
abbrev pub sample_at : Bool → ℕ → ℕ → ℕ → ℕ → ℕ
sample_at cs cw ch x y =
    if cs
    then min (y / 2) (ch - 1) * cw + min (x / 2) (cw - 1)
    else min y (ch - 1) * cw + min x (cw - 1)

abbrev pub alpha_at : Option Bytes → ℕ → Result ℕ
alpha_at none i = ok 0xFF
alpha_at (some a) i = index a i

-- The pixels from (x, y) on: `n` left in all.
unfoldable pub aycocg_pixels :
    ℕ → Bool → ℕ → ℕ → ℕ → Option Bytes → Bytes → Bytes → Bytes → ℕ → ℕ → Result Bytes
unfolding ycocg_pixel
aycocg_pixels cll cs width cw ch alpha yp cop cgp i zero = ok []
aycocg_pixels cll cs width cw ch alpha yp cop cgp i (suc n) = do
  yy ← index yp i
  let at = sample_at cs cw ch (i % width) (i / width)
  co ← index cop at
  cg ← index cgp at
  a ← alpha_at alpha i
  rest ← aycocg_pixels cll cs width cw ch alpha yp cop cgp (i + 1) n
  ok (ycocg_pixel cll yy co cg ++ (a ∷ rest))

-- `div_ceil(2)` of a subsampled side.
abbrev pub chroma_side : Bool → ℕ → ℕ
chroma_side cs n = if cs then (n + 1) / 2 else n

unfoldable pub decode_aycocg : ℕ → ℕ → Bool → Bool → Bool → ℕ → ℕ → Bytes → Result Bytes
unfolding read_plane aycocg_pixels
decode_aycocg have cll cs has_alpha rle w h input = do
  (alpha, i1) ← alpha_plane have rle has_alpha w h input
  (yp, i2) ← read_plane have rle w h i1
  let cw = chroma_side cs w
  let ch = chroma_side cs h
  (cop, i3) ← read_plane have rle cw ch i2
  (cgp, i4) ← read_plane have rle cw ch i3
  aycocg_pixels cll cs w cw ch alpha yp cop cgp 0 (w * h)

unfoldable pub decode : Bytes → ℕ → ℕ → Result Bytes
unfolding decode_argb decode_aycocg swap_channels
decode [] width height = err (short 1 0)
decode (format ∷ rest) width height =
    let have = suc (length rest) in
    let need = width * height * 4 in
    let cll = bit_and format cll_mask in
    let cs = bit_and format cs_flag != 0 in
    let has_alpha = bit_and format na_flag == 0 in
    let rle = bit_and format rle_flag != 0 in
    if format == 0x00
    then (if ltb have (1 + need)
        then err (short (1 + need) have)
        else ok (swap_channels (take need rest)))
    else if cll != 0 || cs
    then decode_aycocg have cll cs has_alpha rle width height rest
    else decode_argb have rle has_alpha width height rest
