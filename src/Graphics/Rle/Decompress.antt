-- ===== src/Graphics/Rle/Decompress.antt =====
-- graphics/rle.rs: the whole decoder.
use ferropipe_rdp.Graphics.Rle.Orders.{Moves, step-Moves, Moves-trans}
use ferropipe_rdp.Common.{
  lt→ltb, leb, ◌&&◌, append-nil, drop_all, le→leb, drop, [], false, Bool, length-replicate, sym,
  le→ltb, ap, ◌/◌, ◌%◌, ◌∷◌, ◌^◌, ◌<◌, ◌<◌, ◌*◌, refl, zero, inr, ◌∙◌, ◌∙◌, inl, ltb, Bool-cases,
  suc, ◌+◌, ◌≤◌, ◌≡◌, arith, length, Bytes, ℕ,
}
use ferropipe_rdp.Graphics.Rle.{
  need_src, Order, run_length, copied, start, white_pixel, pixel_size, mega_color_image, decompress,
  code_id, order_of, step, leave_first_line, orders, State,
}
use ferropipe_rdp.Outcome.{Result, splice, slice, slice_end, >>=-cong, ◌>>=◌, ok, index, Post}
use ferropipe_rdp.Common.Bits.{bit_or-low_left}

suc_plus : (m n : ℕ) → suc m + n ≡ suc (m + n)
suc_plus m n = omega arith

module _ (ps row_delta : ℕ) (input : Bytes) (white : ℕ) where
  leave_first_line-Moves : (s : State) → Moves 0 s (leave_first_line ps row_delta input s)
  leave_first_line-Moves s = ground arith

  round-Moves :
      (hdr : ℕ) (s : State)
      → Post
          (step ps row_delta input white
            (order_of (code_id hdr))
            (leave_first_line ps row_delta input s))
          (Moves 1 s)
  round-Moves hdr s = λ t e.
      Moves-trans 0 1 1 s (leave_first_line ps row_delta input s) t (omega arith)
        (leave_first_line-Moves s) (step-Moves ps row_delta input white _ _ t e)

  pub orders-end :
      (fuel : ℕ) (s : State)
      → length input ≤ s.i
      → orders ps row_delta input white fuel s ≡ ok s.dst
  unfolding orders
  orders-end zero s h = refl
  orders-end (suc fuel) s h = rw (le→ltb s.i (length input) h, orders) refl

  -- More rounds than there are bytes left change nothing: the loop has ended.
  pub orders-enough :
      (fuel more : ℕ) (s : State)
      → length input ≤ s.i + fuel
      → orders ps row_delta input white (fuel + more) s ≡ orders ps row_delta input white fuel s
  unfolding orders
  orders-enough zero more s h = orders-end (0 + more) s (omega arith)
  orders-enough (suc fuel) more s h =
      rw (suc_plus fuel more) elim (Bool-cases (ltb s.i (length input))) [
        | inl e ↦
            rw (e, orders)
              (>>=-cong (index input s.i) _ _ (λ hdr k.
                >>=-cong
                  (step ps row_delta input white (order_of (code_id hdr))
                    (leave_first_line ps row_delta input s))
                  _ _
                  (λ t k'. orders-enough fuel more t (omega (arith, (round-Moves hdr s t k').1)))))
        | inr e ↦ rw (e, orders) refl
      ]

pub decompress-start :
    (input : Bytes) (width height bpp ps : ℕ)
    → pixel_size bpp ≡ ok ps
    → decompress input width height bpp
      ≡ orders ps (width * ps) input (white_pixel bpp) (length input) (start width height bpp ps)
unfolding decompress
decompress-start input width height bpp ps h =
    ap
      (λ r. r >>= λ p.
        orders p (width * p) input (white_pixel bpp) (length input) (start width height bpp p))
      h

-- decompress: a round of the loop for each byte of the input is enough, as any more rounds give the
-- same result.
pub decompress-rounds :
    (input : Bytes) (width height bpp ps more : ℕ)
    → pixel_size bpp ≡ ok ps
    → orders ps
        (width * ps)
        input
        (white_pixel bpp)
        (length input + more)
        (start width height bpp ps)
      ≡ decompress input width height bpp
decompress-rounds input width height bpp ps more h =
    orders-enough ps (width * ps) input (white_pixel bpp) (length input) more
      (start width height bpp ps) (omega arith)
    ∙ sym (decompress-start input width height bpp ps h)

abbrev pub image_order : ℕ → Bytes → Bytes
image_order n pixels = 0xF4 ∷ n % 256 ∷ n / 256 ∷ pixels

image-code : order_of (code_id 0xF4) ≡ mega_color_image
unfolding order_of code_id
image-code = refl

image-length :
    (n : ℕ) (pixels : Bytes) → run_length mega_color_image (image_order n pixels) ≡ ok (n, 3)
unfolding run_length
image-length n pixels = ground (arith, bit_or-low_left 8 (n / 256) (n % 256))

pub copied_from :
    (ps row_delta : ℕ) (input : Bytes) (order : Order) (s : State) (len hlen : ℕ)
    → run_length order (drop s.i input) ≡ ok (len, hlen)
    → s.i + hlen + len * ps ≤ length input
    → copied ps row_delta input order s ≡ (
        slice input (s.i + hlen) (s.i + hlen + len * ps) >>= λ part.
        splice s.dst s.d part >>= λ dst.
        ok (record s { dst = dst; i = s.i + hlen + len * ps; d = s.d + len * ps }))
unfolding copied
copied_from ps row_delta input order s len hlen h b = rw (le→leb s.i (length input) (omega arith)) (
    ap
      (λ (r : Result (ℕ × ℕ)).
        (r >>= λ (p : ℕ × ℕ). let q : ℕ × State = (p.0, record s { i = s.i + p.1 }) in ok q)
        >>= λ p. need_src ps row_delta input (p.0 * ps) p.1 >>= λ u.
            slice input p.1.i (p.1.i + p.0 * ps) >>= λ part. splice p.1.dst p.1.d part >>= λ dst.
            ok (record p.1 { dst = dst; i = p.1.i + p.0 * ps; d = p.1.d + p.0 * ps }))
      h
    ∙ rw (le→ltb (length input) (s.i + hlen + len * ps) b) refl)

splice_all : (dst part : Bytes) → length part ≡ length dst → splice dst 0 part ≡ ok part
splice_all dst part h = ground (arith, drop_all (length part) dst, append-nil part)

abbrev at_start : Bytes → ℕ → Bool → State
at_start dst fg first = record {
  i = 0;
  d = 0;
  fg_pel = fg;
  insert_fg = false;
  first_line = first;
  dst = dst;
}

-- The order is copied over a target of its size.
image-copied :
    (ps row_delta n : ℕ) (pixels dst : Bytes) (fg : ℕ) (first : Bool)
    → length pixels ≡ n * ps
    → length dst ≡ n * ps
    → copied ps row_delta (image_order n pixels) mega_color_image (at_start dst fg first)
      ≡ ok (record (at_start pixels fg first) { i = 3 + n * ps; d = n * ps })
image-copied ps row_delta n pixels dst fg first l k =
    copied_from ps row_delta (image_order n pixels) mega_color_image (at_start dst fg first) n 3
      (image-length n pixels) (omega arith)
    ∙ rw (slice_end (0xF4 ∷ n % 256 ∷ n / 256 ∷ []) pixels 3 (3 + n * ps) refl (omega arith)) (
        rw (splice_all dst pixels (omega arith)) (
          ap (λ m. ok (record (at_start pixels fg first) { i = 3 + n * ps; d = m }))
            {x = 0 + n * ps} {y = n * ps} (omega arith)))

leave-at_start :
    (ps row_delta : ℕ) (input dst : Bytes) (fg : ℕ) (first : Bool)
    → (first' : Bool) × (leave_first_line ps row_delta input (at_start dst fg first)
        ≡ at_start dst fg first')
leave-at_start ps row_delta input dst fg first = elim (Bool-cases (first && leb row_delta 0)) [
  | inl e ↦ (false, rw e refl)
  | inr e ↦ (first, rw e refl)
]

orders-image :
    (ps row_delta white n fuel : ℕ) (pixels dst : Bytes) (fg : ℕ) (first : Bool)
    → length pixels ≡ n * ps
    → length dst ≡ n * ps
    → orders ps row_delta (image_order n pixels) white (suc fuel) (at_start dst fg first)
      ≡ ok pixels
unfolding orders step
orders-image ps row_delta white n fuel pixels dst fg first l k =
    let (first', e) = leave-at_start ps row_delta (image_order n pixels) dst fg first in
    let input = image_order n pixels in
    rw (lt→ltb 0 (length input) (omega arith), orders)
      (ap
          (λ t.
            step ps row_delta input white mega_color_image t
            >>= orders ps row_delta input white fuel)
          e
        ∙ ap (λ r. r >>= orders ps row_delta input white fuel)
            (image-copied ps row_delta n pixels dst fg first' l k)
        ∙ orders-end ps row_delta input white fuel _ (omega arith))

-- decompress: the order that carries an image of the size of the rectangle, less than 65536 pixels,
-- gives back the pixels it carries, at each color depth.
pub decompress-image :
    (pixels : Bytes) (width height bpp ps : ℕ)
    → pixel_size bpp ≡ ok ps
    → length pixels ≡ width * height * ps
    → width * height < 2 ^ 16
    → decompress (image_order (width * height) pixels) width height bpp ≡ ok pixels
decompress-image pixels width height bpp ps h l b =
    decompress-start (image_order (width * height) pixels) width height bpp ps h
    ∙ orders-image ps (width * ps) (white_pixel bpp) (width * height) (suc (suc (length pixels)))
        pixels _ _ _ l (length-replicate (width * ps * height) 0 ∙ omega arith)
