-- ===== src/Graphics/Rle/Runs.antt =====
-- graphics/rle.rs: one order of a line.
use ferropipe_rdp.Graphics.Rle.Lines.{
  splice_zeros, run_length-carried, pixel_bytes-pixel_value, run_length-coloured,
  run_length-foreground, run_length-background, length-pixel_bytes, line_state, times, write_px_lem,
  write_over_lem, repeat_step_lem,
}
use ferropipe_rdp.Common.{
  drop_left, append-nil, ◌/◌, ◌∙◌, ◌∙◌, sym, ◌!=◌, bit_and, append_assoc, le→ltb, ap, lt→ltb, true,
  IsByte, zero, false, All, ◌-◌, ◌<◌, length-append, if◌then◌else◌, ◌<◌, ◌+◌, ◌≤◌, ◌≤◌, suc, ◌*◌,
  Bool, ◌*◌, [], ◌∷◌, ◌++◌, ◌≡◌, ℕ, Bytes, length, arith, refl,
}
use ferropipe_rdp.Outcome.{slice_mid, slice, slice_from_right, ◌>>=◌, ok}
use ferropipe_rdp.Graphics.Rle.{
  color_image, write_fgbg, pixel_value, copied, color_run, write_px, write_over, fg_run,
  repeat_step, header, bg_run, run_length, read_px, take_px, pixel_bytes, State, foreground,
  colored, background, Order,
}
use ferropipe_rdp.Graphics.Rle.Decompress.{copied_from}

pub length-times : (n : ℕ) (p : Bytes) → length (times n p) ≡ n * length p
length-times zero p = omega arith
length-times (suc n) p = omega (arith, length-append p (times n p), length-times n p)

module _ (ps rd white i : ℕ) (ins : Bool) where
  over_run :
      (fg : Bool) (n : ℕ) (out : Bytes) (k m : ℕ)
      → k ≡ length (times n (pixel_bytes ps (if fg then white else 0))) + m
      → repeat_step ps rd n (write_over ps rd fg) (line_state white i out k ins)
        ≡ ok (line_state white i (out ++ times n (pixel_bytes ps (if fg then white else 0))) m ins)
  over_run fg n out k m e =
      let part = pixel_bytes ps (if fg then white else 0) in
      repeat_step_lem ps rd white i ins (write_over ps rd fg) part n
        (λ out' k' m' e'.
          write_over_lem ps rd white i ins fg out' k' m'
            (omega (arith, e', length-pixel_bytes ps (if fg then white else 0))))
        out k m (omega (arith, e, length-times n part))

  colour_run :
      (v n : ℕ) (out : Bytes) (k m : ℕ)
      → k ≡ length (times n (pixel_bytes ps v)) + m
      → repeat_step ps rd n (write_px ps rd v) (line_state white i out k ins)
        ≡ ok (line_state white i (out ++ times n (pixel_bytes ps v)) m ins)
  colour_run v n out k m e =
      repeat_step_lem ps rd white i ins (write_px ps rd v) (pixel_bytes ps v) n
        (λ out' k' m' e'.
          write_px_lem ps rd white i ins v out' k' m' (omega (arith, e', length-pixel_bytes ps v)))
        out k m (omega (arith, e, length-times n (pixel_bytes ps v)))

module _ (ps rd white : ℕ) (pre more : Bytes) where
  abbrev input : Bytes → Bytes
  input order = pre ++ (order ++ more)

  header_lem :
      (order : Order) (b n : ℕ) (px : Bytes) (s : State)
      → s.i ≡ length pre
      → run_length order (b ∷ (px ++ more)) ≡ ok (n, 1)
      → header ps rd (input (b ∷ px)) order s ≡ ok (n, record s { i = s.i + 1 })
  header_lem order b n px s e h = rw (slice_from_right pre (b ∷ (px ++ more)) s.i e, h) refl

  carried_slice :
      (b : ℕ) (px : Bytes) (i j : ℕ)
      → i ≡ length pre + 1
      → j ≡ length pre + 1 + length px
      → slice (input (b ∷ px)) i j ≡ ok px
  carried_slice b px i j hi hj =
      ap (λ (xs : Bytes). slice xs i j) (sym (append_assoc pre (b ∷ []) (px ++ more)))
      ∙ slice_mid (pre ++ (b ∷ [])) px more i j (omega (arith, hi, length-append pre (b ∷ [])))
          (omega (arith, hj, length-append pre (b ∷ [])))

  take_px_lem :
      (b : ℕ) (px : Bytes) (s : State)
      → length px ≡ ps
      → s.i ≡ length pre + 1
      → take_px ps rd (input (b ∷ px)) s ≡ ok (pixel_value px, record s { i = s.i + ps })
  unfolding take_px read_px
  take_px_lem b px s h e = rw (carried_slice b px s.i (s.i + ps) e (omega (arith, e, h))) refl

  pixel_back : (px : Bytes) → All IsByte px → length px ≡ ps → pixel_bytes ps (pixel_value px) ≡ px
  pixel_back px hb h =
      ap (λ (n : ℕ). pixel_bytes n (pixel_value px)) (sym h) ∙ pixel_bytes-pixel_value px hb

  pub first_background :
      (n : ℕ) (out : Bytes) (k m : ℕ)
      → 1 ≤ n
      → n < 32
      → k ≡ length (times n (pixel_bytes ps 0)) + m
      → background ps rd (input (n ∷ [])) bg_run (line_state white (length pre) out k false)
        ≡ ok (line_state white (length pre + 1) (out ++ times n (pixel_bytes ps 0)) m true)
  unfolding background
  first_background n out k m l h e =
      rw
        (
          header_lem bg_run n n [] (line_state white (length pre) out k false) refl
              (run_length-background n more l h),
          over_run ps rd white (length pre + 1) false false n out k m e,
        )
        refl

  pub later_background :
      (n : ℕ) (out : Bytes) (k m : ℕ)
      → 1 ≤ n
      → n < 32
      → k ≡ length (pixel_bytes ps white ++ times (n - 1) (pixel_bytes ps 0)) + m
      → background ps rd (input (n ∷ [])) bg_run (line_state white (length pre) out k true)
        ≡ ok (
            line_state white
              (length pre + 1)
              (out ++ (pixel_bytes ps white ++ times (n - 1) (pixel_bytes ps 0)))
              m
              true)
  unfolding background
  later_background n out k m l h e =
      let w = pixel_bytes ps white in
      let rest = times (n - 1) (pixel_bytes ps 0) in
      rw
        (
          header_lem bg_run n n [] (line_state white (length pre) out k true) refl
              (run_length-background n more l h),
          lt→ltb 0 n (omega (arith, l)),
          write_over_lem ps rd white (length pre + 1) true true out k (length rest + m)
              (omega (arith, e, length-append w rest, length-pixel_bytes ps white)),
          over_run ps rd white (length pre + 1) true false (n - 1) (out ++ w) (length rest + m) m
              refl,
        )
        (ap (λ (xs : Bytes). ok (line_state white (length pre + 1) xs m true))
          (append_assoc out w rest))

  pub foreground_lem :
      (n : ℕ) (out : Bytes) (k m : ℕ)
      → 1 ≤ n
      → n < 32
      → k ≡ length (times n (pixel_bytes ps white)) + m
      → foreground ps rd
          (input ((0x20 + n) ∷ []))
          false
          fg_run
          (line_state white (length pre) out k false)
        ≡ ok (line_state white (length pre + 1) (out ++ times n (pixel_bytes ps white)) m false)
  unfolding foreground
  foreground_lem n out k m l h e =
      rw
        (
          header_lem fg_run (0x20 + n) n [] (line_state white (length pre) out k false) refl
              (run_length-foreground n more l h),
          over_run ps rd white (length pre + 1) false true n out k m e,
        )
        refl

  pub colored_lem :
      (n : ℕ) (px out : Bytes) (k m : ℕ)
      → 1 ≤ n
      → n < 32
      → All IsByte px
      → length px ≡ ps
      → k ≡ length (times n px) + m
      → colored ps rd
          (input ((0x60 + n) ∷ px))
          color_run
          (line_state white (length pre) out k false)
        ≡ ok (line_state white (length pre + 1 + ps) (out ++ times n px) m false)
  unfolding colored take_px read_px
  colored_lem n px out k m l h hb hl e =
      rw
        (
          header_lem color_run (0x60 + n) n px (line_state white (length pre) out k false) refl
              (run_length-coloured n (px ++ more) l h),
          le→ltb (length (input ((0x60 + n) ∷ px))) (length pre + 1 + ps)
              (omega (arith, length-append pre ((0x60 + n) ∷ (px ++ more)), length-append px more)),
          take_px_lem (0x60 + n) px (line_state white (length pre + 1) out k false) hl refl,
          colour_run ps rd white (length pre + 1 + ps) false (pixel_value px) n out k m
              (rw (pixel_back px hb hl) e),
          pixel_back px hb hl,
        )
        refl

  pub carried_lem :
      (n : ℕ) (px out : Bytes) (k m : ℕ)
      → 1 ≤ n
      → n < 32
      → length px ≡ n * ps
      → k ≡ length px + m
      → copied ps rd
          (input ((0x80 + n) ∷ px))
          color_image
          (line_state white (length pre) out k false)
        ≡ ok (line_state white (length pre + 1 + n * ps) (out ++ px) m false)
  carried_lem n px out k m l h hl e =
      copied_from ps rd (input ((0x80 + n) ∷ px)) color_image
        (line_state white (length pre) out k false) n 1
        (rw (drop_left pre ((0x80 + n) ∷ (px ++ more)) (length pre) refl)
          (run_length-carried n (px ++ more) l h))
        (omega (arith, length-append pre ((0x80 + n) ∷ (px ++ more)), length-append px more))
      ∙ rw
          (
            carried_slice (0x80 + n) px (length pre + 1) (length pre + 1 + n * ps) refl
                (omega (arith, hl)),
            splice_zeros out px k m (omega (arith, e)) e,
          )
          (ap
            (λ (j : ℕ).
              ok
                (record (line_state white (length pre + 1 + n * ps) (out ++ px) m false) { d = j }))
            {x = length out + n * ps} {y = length (out ++ px)}
            (omega (arith, length-append out px, hl)))

abbrev pub mask_pixels : ℕ → ℕ → ℕ → ℕ → Bytes
mask_pixels ps white zero mask = []
mask_pixels ps white (suc n) mask =
    pixel_bytes ps (if bit_and mask 1 != 0 then white else 0) ++ mask_pixels ps white n (mask / 2)

pub write_fgbg_lem :
    (ps rd white i n mask : ℕ) (out : Bytes) (k m : ℕ)
    → k ≡ length (mask_pixels ps white n mask) + m
    → write_fgbg ps rd n mask (line_state white i out k false)
      ≡ ok (line_state white i (out ++ mask_pixels ps white n mask) m false)
unfolding write_fgbg
write_fgbg_lem ps rd white i zero mask out k m e =
    ap (λ (j : ℕ). ok (line_state white i out j false)) {x = k} {y = m} (omega (arith, e))
    ∙ ap (λ (xs : Bytes). ok (line_state white i xs m false)) (sym (append-nil out))
write_fgbg_lem ps rd white i (suc n) mask out k m e =
    let fg = bit_and mask 1 != 0 in
    let px = pixel_bytes ps (if fg then white else 0) in
    let rest = mask_pixels ps white n (mask / 2) in
    ap (λ r. r >>= write_fgbg ps rd n (mask / 2))
      (write_over_lem ps rd white i false fg out k (length rest + m)
        (omega (arith, e, length-append px rest, length-pixel_bytes ps (if fg then white else 0))))
    ∙ write_fgbg_lem ps rd white i n (mask / 2) (out ++ px) (length rest + m) m refl
    ∙ ap (λ (xs : Bytes). ok (line_state white i xs m false)) (append_assoc out px rest)
