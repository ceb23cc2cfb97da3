-- ===== src/Graphics/Rle/Line.antt =====
-- graphics/rle.rs: an image of one line is what its orders draw.
use ferropipe_rdp.Graphics.Rle.Lines.{
  length-pixel_bytes, line_state, times, Run, background_run, foreground_run, coloured_run,
  carried_run, white_dot, black_dot, first_mask, second_mask, bytes_of, drawn_by, is_background,
  IsRun,
}
use ferropipe_rdp.Common.{
  lt→leb, lt→ltb, append_assoc, ◌==◌, ◌<◌, sym, if◌then◌else◌, ◌<◌, replicate, zero, All, ◌-◌,
  length-append, ◌*◌, ◌≤◌, ◌≤◌, suc, ap, List, true, false, ◌∙◌, ◌∙◌, ◌+◌, Bool, ◌+◌, [], ◌∷◌, ◌++◌,
  ◌≡◌, ℕ, Bytes, length, arith, refl,
}
use ferropipe_rdp.Outcome.{index, ◌>>=◌, ok}
use ferropipe_rdp.Graphics.Rle.{
  white_pixel, decompress, pixel_size, orders, code_id, pixel_bytes, order_of, step,
}
use ferropipe_rdp.Graphics.Rle.Decompress.{decompress-start, orders-end}
use ferropipe_rdp.Graphics.Rle.Steps.{head_of, more_of, bytes_of-parts, step_lem}

-- The bytes of a list of orders, and what they draw together.
abbrev pub line_bytes : List Run → Bytes
line_bytes [] = []
line_bytes (r ∷ runs) = bytes_of r ++ line_bytes runs

abbrev pub drawn_line : Bytes → Bytes → Bool → List Run → Bytes
drawn_line w z ins [] = []
drawn_line w z ins (r ∷ runs) = drawn_by w z ins r ++ drawn_line w z (is_background r) runs

index-head : (pre rest : Bytes) (b : ℕ) → index (pre ++ (b ∷ rest)) (length pre) ≡ ok b
index-head [] rest b = refl
index-head (x ∷ pre) rest b = index-head pre rest b

length-drawn_by :
    (ps : ℕ) (w z : Bytes) (ins : Bool) (r : Run)
    → 1 ≤ ps
    → length w ≡ ps
    → length z ≡ ps
    → IsRun ps r
    → 1 ≤ length (drawn_by w z ins r)
length-drawn_by ps w z false (background_run (suc n)) h hw hz k =
    omega (arith, length-append z (times n z))
length-drawn_by ps w z false (background_run zero) h hw hz k = absurd (omega (arith, k.0))
length-drawn_by ps w z true (background_run n) h hw hz k =
    omega (arith, length-append w (times (n - 1) z))
length-drawn_by ps w z false (foreground_run (suc n)) h hw hz k =
    omega (arith, length-append w (times n w))
length-drawn_by ps w z true (foreground_run (suc n)) h hw hz k =
    omega (arith, length-append w (times n w))
length-drawn_by ps w z false (foreground_run zero) h hw hz k = absurd (omega (arith, k.0))
length-drawn_by ps w z true (foreground_run zero) h hw hz k = absurd (omega (arith, k.0))
length-drawn_by ps w z false (coloured_run (suc n) px) h hw hz k =
    omega (arith, length-append px (times n px), k.3)
length-drawn_by ps w z true (coloured_run (suc n) px) h hw hz k =
    omega (arith, length-append px (times n px), k.3)
length-drawn_by ps w z false (coloured_run zero px) h hw hz k = absurd (omega (arith, k.0))
length-drawn_by ps w z true (coloured_run zero px) h hw hz k = absurd (omega (arith, k.0))
length-drawn_by ps w z false (carried_run n px) h hw hz k = grind (arith, k.0, k.2)
length-drawn_by ps w z true (carried_run n px) h hw hz k = grind (arith, k.0, k.2)
length-drawn_by ps w z false white_dot h hw hz k = omega arith
length-drawn_by ps w z true white_dot h hw hz k = omega arith
length-drawn_by ps w z false black_dot h hw hz k = omega arith
length-drawn_by ps w z true black_dot h hw hz k = omega arith
length-drawn_by ps w z false first_mask h hw hz k = omega (arith, length-append w (w ++ times 6 z))
length-drawn_by ps w z true first_mask h hw hz k = omega (arith, length-append w (w ++ times 6 z))
length-drawn_by ps w z false second_mask h hw hz k =
    omega (arith, length-append w (z ++ (w ++ times 5 z)))
length-drawn_by ps w z true second_mask h hw hz k =
    omega (arith, length-append w (z ++ (w ++ times 5 z)))

module _ (ps rd white : ℕ) (one_byte : 1 ≤ ps) where
  abbrev line : Bool → List Run → Bytes
  line ins runs = drawn_line (pixel_bytes ps white) (pixel_bytes ps 0) ins runs

  orders_more :
      (fuel i hdr : ℕ) (input out : Bytes) (k : ℕ) (ins : Bool)
      → i < length input
      → index input i ≡ ok hdr
      → length out < rd
      → orders ps rd input white (suc fuel) (line_state white i out k ins) ≡ (
          step ps rd input white (order_of (code_id hdr)) (line_state white i out k ins)
          >>= orders ps rd input white fuel)
  unfolding orders
  orders_more fuel i hdr input out k ins h e first =
      rw (lt→ltb i (length input) h, orders, e, lt→leb rd (length out) first) refl

  orders_lem :
      (runs : List Run) (fuel : ℕ) (pre out : Bytes) (k : ℕ) (ins : Bool)
      → All (IsRun ps) runs
      → length runs ≤ fuel
      → k ≡ length (line ins runs)
      → length out + k ≡ rd
      → orders ps rd (pre ++ line_bytes runs) white fuel (line_state white (length pre) out k ins)
        ≡ ok (out ++ line ins runs)
  orders_lem [] fuel pre out k ins h hf e total =
      orders-end ps rd (pre ++ []) white fuel (line_state white (length pre) out k ins)
        (omega (arith, length-append pre []))
      ∙ ap (λ (j : ℕ). ok (out ++ replicate j 0)) e
  orders_lem (r ∷ runs) zero pre out k ins h hf e total = absurd (omega arith)
  orders_lem (r ∷ runs) (suc fuel) pre out k ins (h, hs) hf e total =
      let input = pre ++ (bytes_of r ++ line_bytes runs) in
      let part = drawn_by (pixel_bytes ps white) (pixel_bytes ps 0) ins r in
      let rest = line (is_background r) runs in
      let size = length-append part rest in
      let some_pixels =
        length-drawn_by ps (pixel_bytes ps white) (pixel_bytes ps 0) ins r one_byte
          (length-pixel_bytes ps white) (length-pixel_bytes ps 0) h in
      let index_head : index input (length pre) ≡ ok (head_of r) =
        ap (λ (xs : Bytes). index (pre ++ (xs ++ line_bytes runs)) (length pre)) (bytes_of-parts r)
        ∙ index-head pre (more_of r ++ line_bytes runs) (head_of r) in
      let head_length : length (bytes_of r) ≡ suc (length (more_of r)) =
        ap (λ (xs : Bytes). length xs) (bytes_of-parts r) in
      orders_more fuel (length pre) (head_of r) input out k ins
        (omega (
          arith,
          length-append pre (bytes_of r ++ line_bytes runs),
          length-append (bytes_of r) (line_bytes runs),
          head_length,
        ))
        index_head (omega (arith, total, e, size, some_pixels))
      ∙ ap (λ s. s >>= orders ps rd input white fuel)
          (step_lem ps rd white pre (line_bytes runs) out k (length rest) ins r h
            (omega (arith, e, size)))
      ∙ ap
          (λ (j : ℕ).
            orders ps rd input white fuel
              (line_state white j (out ++ part) (length rest) (is_background r)))
          (sym (length-append pre (bytes_of r)))
      ∙ ap
          (λ (xs : Bytes). orders ps rd xs white fuel (
            line_state white (length (pre ++ bytes_of r)) (out ++ part) (length rest)
              (is_background r)))
          (sym (append_assoc pre (bytes_of r) (line_bytes runs)))
      ∙ orders_lem runs fuel (pre ++ bytes_of r) (out ++ part) (length rest) (is_background r) hs
          (omega (arith, hf)) refl (omega (arith, total, e, size, length-append out part))
      ∙ ap (λ (xs : Bytes). ok xs) (append_assoc out part rest)

length-line_bytes : (runs : List Run) → length runs ≤ length (line_bytes runs)
length-line_bytes [] = omega arith
length-line_bytes (r ∷ runs) =
    let head_length : length (bytes_of r) ≡ suc (length (more_of r)) =
      ap (λ (xs : Bytes). length xs) (bytes_of-parts r) in
    omega (arith, length-line_bytes runs, length-append (bytes_of r) (line_bytes runs), head_length)

-- A white and a black pixel at each depth.
abbrev pub white_of : ℕ → Bytes
white_of bpp =
    if bpp == 15
    then 0xFF ∷ 0x7F ∷ []
    else if bpp == 16
    then 0xFF ∷ 0xFF ∷ []
    else if bpp == 24
    then 0xFF ∷ 0xFF ∷ 0xFF ∷ []
    else 0xFF ∷ []

white_of-pixel :
    (bpp ps : ℕ) → pixel_size bpp ≡ ok ps → pixel_bytes ps (white_pixel bpp) ≡ white_of bpp
unfolding pixel_size white_pixel pixel_bytes
white_of-pixel bpp ps h = ground arith

zero_pixel : (ps : ℕ) → pixel_bytes ps 0 ≡ replicate ps 0
unfolding pixel_bytes
zero_pixel zero = refl
zero_pixel (suc ps) = ap (λ (xs : Bytes). 0 ∷ xs) (zero_pixel ps)

one_byte_pixel : (bpp ps : ℕ) → pixel_size bpp ≡ ok ps → 1 ≤ ps
unfolding pixel_size
one_byte_pixel bpp ps h = ground arith

-- decompress: an image of one line is what its orders draw, one after the other, at each color depth,
-- where they draw as many pixels as the line has. The orders are runs of 1 to 31 pixels of black,
-- of white, of a colour, or of pixels that are carried, single pixels of white and black, and the two
-- fixed masks. A black run directly behind another starts with a white pixel.
pub decompress-line :
    (runs : List Run) (width bpp ps : ℕ)
    → pixel_size bpp ≡ ok ps
    → All (IsRun ps) runs
    → length (drawn_line (white_of bpp) (replicate ps 0) false runs) ≡ width * ps
    → decompress (line_bytes runs) width 1 bpp
      ≡ ok (drawn_line (white_of bpp) (replicate ps 0) false runs)
decompress-line runs width bpp ps h valid size =
    let white = white_pixel bpp in
    let size' : length (drawn_line (pixel_bytes ps white) (pixel_bytes ps 0) false runs)
        ≡ width * ps =
      rw (white_of-pixel bpp ps h, zero_pixel ps) size in
    decompress-start (line_bytes runs) width 1 bpp ps h
    ∙ orders_lem ps (width * ps) white (one_byte_pixel bpp ps h) runs (length (line_bytes runs)) []
        [] (width * ps * 1) false valid (length-line_bytes runs) (omega (arith, size'))
        (omega arith)
    ∙ ap (λ (xs : Bytes). ok xs) (rw (white_of-pixel bpp ps h, zero_pixel ps) refl)
