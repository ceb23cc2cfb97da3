-- ===== src/Graphics/Rle/Orders.antt =====
-- graphics/rle.rs: every order keeps the size of the target and moves on in the source.
use ferropipe_rdp.Common.{
  ltb, ◌*◌, ◌&&◌, true, ◌-◌, min, false, [], ◌∷◌, Bytes, refl, bit_xor, zero, ◌/◌, suc, ◌∙◌, ◌∙◌,
  if◌then◌else◌, arith, ◌≡◌, ◌≡◌, ◌+◌, ◌≤◌, ◌≤◌, length, Bool, ℕ,
}
use ferropipe_rdp.Graphics.Rle.{
  mega_unused, mega_color_image, mega_set_fgbg_image, mega_fgbg_image, mega_color_run,
  mega_dithered_run, mega_set_fg_run, mega_fg_run, mega_bg_run, step, skip_order, masked,
  foreground, dithered, copied, colored, background, unknown, black_order, white_order,
  special_fgbg_2, special_fgbg_1, lite_dithered_run, lite_set_fg_fg_run, color_image, color_run,
  fg_run, bg_run, lite_set_fg_fgbg_image, read_px, need_src, header, fgbg_image, take_px,
  short_length, set_fg, mega_length, fgbg_masks, Order, run_length, length_by, above, pixel_bytes,
  write_px, write_over, write_fgbg, repeat_step, State,
}
use ferropipe_rdp.Outcome.{
  slice, slice_from, index, ◌>>=◌, ok, length-splice, Post-then, splice, Post-ok, Post-if,
  Post-bind, Result, Post,
}

-- From `s` to `s'` the target has kept its size, and the source cursor has moved `k` on at least.
abbrev pub Moves : ℕ → State → State → Type 0
Moves k s s' = (length s'.dst ≡ length s.dst) × (s.i + k ≤ s'.i)

abbrev MovesBeside : ℕ → State → ℕ × State → Type 0
MovesBeside k s p = Moves k s p.1

pub Moves-trans : (j k n : ℕ) (s t u : State) → n ≤ j + k → Moves j s t → Moves k t u → Moves n s u
Moves-trans j k n s t u h p q = (q.0 ∙ p.0, omega arith)

module _ (ps row_delta : ℕ) where
  pub write_px-Moves : (v : ℕ) (s : State) → Post (write_px ps row_delta v s) (Moves 0 s)
  unfolding write_px
  write_px-Moves v s =
      Post-bind (splice s.dst s.d (pixel_bytes ps v)) _ (λ d. length d ≡ length s.dst) (Moves 0 s)
        (λ d e. length-splice s.dst s.d _ d e) (λ d h. Post-ok (Moves 0 s) _ (h, omega arith))

  write_over-Moves : (fg : Bool) (s : State) → Post (write_over ps row_delta fg s) (Moves 0 s)
  unfolding write_over
  write_over-Moves fg s =
      Post-if s.first_line _ _ (Moves 0 s) (write_px-Moves (if fg then s.fg_pel else 0) s) (
        Post-then (above ps row_delta s) _ (Moves 0 s)
          (λ v. write_px-Moves (if fg then bit_xor v s.fg_pel else v) s))

  repeat_step-Moves :
      (f : State → Result State)
      → ((s : State) → Post (f s) (Moves 0 s))
      → (n : ℕ) (s : State) → Post (repeat_step ps row_delta n f s) (Moves 0 s)
  unfolding repeat_step
  repeat_step-Moves f h zero s = Post-ok (Moves 0 s) s (refl, omega arith)
  repeat_step-Moves f h (suc n) s =
      Post-bind (f s) _ (Moves 0 s) (Moves 0 s) (h s)
        (λ t p u e. Moves-trans 0 0 0 s t u (omega arith) p (repeat_step-Moves f h n t u e))

  pub write_fgbg-Moves :
      (bits mask : ℕ) (s : State) → Post (write_fgbg ps row_delta bits mask s) (Moves 0 s)
  unfolding write_fgbg
  write_fgbg-Moves zero mask s = Post-ok (Moves 0 s) s (refl, omega arith)
  write_fgbg-Moves (suc bits) mask s =
      Post-bind (write_over ps row_delta _ s) _ (Moves 0 s) (Moves 0 s) (write_over-Moves _ s)
        (λ t p u e.
          Moves-trans 0 0 0 s t u (omega arith) p (write_fgbg-Moves bits (mask / 2) t u e))

-- The header of an order has a byte at least.
abbrev HasHeader : ℕ × ℕ → Type 0
HasHeader p = 1 ≤ p.1

short_length-HasHeader :
    (r unit add : ℕ) (src : Bytes) → Post (short_length r unit add src) HasHeader
short_length-HasHeader r unit add [] = λ p e. ground arith
short_length-HasHeader r unit add (a ∷ []) = λ p e. ground arith
short_length-HasHeader r unit add (a ∷ b ∷ c) = λ p e. ground arith

mega_length-HasHeader : (src : Bytes) → Post (mega_length src) HasHeader
mega_length-HasHeader [] = λ p e. ground arith
mega_length-HasHeader (a ∷ []) = λ p e. ground arith
mega_length-HasHeader (a ∷ b ∷ []) = λ p e. ground arith
mega_length-HasHeader (a ∷ b ∷ c ∷ d) = λ p e. ground arith

one_byte-HasHeader : Post (ok (0, 1)) HasHeader
one_byte-HasHeader = Post-ok HasHeader (0, 1) (omega arith)

length_by-HasHeader :
    (order : Order) (b0 : ℕ) (src : Bytes) → Post (length_by order b0 src) HasHeader
unfolding length_by
length_by-HasHeader fgbg_image b0 src = short_length-HasHeader _ 8 1 src
length_by-HasHeader lite_set_fg_fgbg_image b0 src = short_length-HasHeader _ 8 1 src
length_by-HasHeader bg_run b0 src = short_length-HasHeader _ 1 32 src
length_by-HasHeader fg_run b0 src = short_length-HasHeader _ 1 32 src
length_by-HasHeader color_run b0 src = short_length-HasHeader _ 1 32 src
length_by-HasHeader color_image b0 src = short_length-HasHeader _ 1 32 src
length_by-HasHeader lite_set_fg_fg_run b0 src = short_length-HasHeader _ 1 16 src
length_by-HasHeader lite_dithered_run b0 src = short_length-HasHeader _ 1 16 src
length_by-HasHeader special_fgbg_1 b0 src = one_byte-HasHeader
length_by-HasHeader special_fgbg_2 b0 src = one_byte-HasHeader
length_by-HasHeader white_order b0 src = one_byte-HasHeader
length_by-HasHeader black_order b0 src = one_byte-HasHeader
length_by-HasHeader unknown b0 src = one_byte-HasHeader
length_by-HasHeader _ b0 src = mega_length-HasHeader src

run_length-HasHeader : (order : Order) (src : Bytes) → Post (run_length order src) HasHeader
unfolding run_length
run_length-HasHeader order src =
    Post-then (index src 0) _ HasHeader (λ b0. length_by-HasHeader order b0 src)

module _ (ps row_delta : ℕ) (input : Bytes) where
  header-Moves :
      (order : Order) (s : State) → Post (header ps row_delta input order s) (MovesBeside 1 s)
  header-Moves order s = Post-then (slice_from input s.i) _ (MovesBeside 1 s) (λ src.
      Post-bind (run_length order src) _ HasHeader (MovesBeside 1 s)
        (run_length-HasHeader order src) (λ p h. Post-ok (MovesBeside 1 s) _ (refl, omega arith)))

  take_px-Moves : (s : State) → Post (take_px ps row_delta input s) (MovesBeside 0 s)
  unfolding take_px
  take_px-Moves s =
      Post-then (read_px ps input s.i) _ (MovesBeside 0 s)
        (λ v. Post-ok (MovesBeside 0 s) _ (refl, omega arith))

  set_fg-Moves : (set : Bool) (s : State) → Post (set_fg ps row_delta input set s) (Moves 0 s)
  set_fg-Moves false s = Post-ok (Moves 0 s) s (refl, omega arith)
  set_fg-Moves true s = Post-then (need_src ps row_delta input ps s) _ (Moves 0 s) (λ u.
      Post-bind (take_px ps row_delta input s) _ (MovesBeside 0 s) (Moves 0 s) (take_px-Moves s)
        (λ p h. Post-ok (Moves 0 s) _ h))

  -- The header, and then what does not move back.
  after_header :
      (order : Order) (s : State) (f : ℕ × State → Result State)
      → ((p : ℕ × State) → Post (f p) (Moves 0 p.1))
      → Post (header ps row_delta input order s >>= f) (Moves 1 s)
  after_header order s f h =
      Post-bind (header ps row_delta input order s) f (MovesBeside 1 s) (Moves 1 s)
        (header-Moves order s) (λ p m t e. Moves-trans 1 0 1 s p.1 t (omega arith) m (h p t e))

  and_then :
      (m : Result State) (f : State → Result State) (s : State)
      → Post m (Moves 0 s)
      → ((t : State) → Post (f t) (Moves 0 t))
      → Post (m >>= f) (Moves 0 s)
  and_then m f s h k =
      Post-bind m f (Moves 0 s) (Moves 0 s) h
        (λ t p u e. Moves-trans 0 0 0 s t u (omega arith) p (k t u e))

  after_pixel :
      (f : ℕ × State → Result State) (s : State)
      → ((p : ℕ × State) → Post (f p) (Moves 0 p.1))
      → Post (take_px ps row_delta input s >>= f) (Moves 0 s)
  after_pixel f s h =
      Post-bind (take_px ps row_delta input s) f (MovesBeside 0 s) (Moves 0 s) (take_px-Moves s)
        (λ p m t e. Moves-trans 0 0 0 s p.1 t (omega arith) m (h p t e))

  fgbg_masks-Moves :
      (n len : ℕ) (s : State) → Post (fgbg_masks ps row_delta input n len s) (Moves 0 s)
  unfolding fgbg_masks
  fgbg_masks-Moves zero len s = Post-ok (Moves 0 s) s (refl, omega arith)
  fgbg_masks-Moves (suc n) zero s = Post-ok (Moves 0 s) s (refl, omega arith)
  fgbg_masks-Moves (suc n) (suc len) s =
      Post-then (need_src ps row_delta input 1 s) _ (Moves 0 s) (λ u.
        Post-then (index input s.i) _ (Moves 0 s) (λ mask.
          Post-bind (write_fgbg ps row_delta (min (suc len) 8) mask (record s { i = s.i + 1 })) _
            (Moves 0 (record s { i = s.i + 1 })) (Moves 0 s)
            (write_fgbg-Moves ps row_delta _ mask _)
            (λ t p v e.
              Moves-trans 0 0 0 s t v (omega arith) (p.0, omega arith)
                (fgbg_masks-Moves n (suc len - min (suc len) 8) t v e))))

  background-Moves :
      (order : Order) (s : State) → Post (background ps row_delta input order s) (Moves 1 s)
  unfolding background
  background-Moves order s = after_header order s _ (λ p.
      and_then _ _ p.1
        (Post-if (s.insert_fg && ltb 0 p.0) _ _ (Moves 0 p.1)
          (write_over-Moves ps row_delta true p.1) (Post-ok (Moves 0 p.1) p.1 (refl, omega arith)))
        (λ t.
          and_then _ _ t
            (repeat_step-Moves ps row_delta _ (write_over-Moves ps row_delta false) _ t)
            (λ u. Post-ok (Moves 0 u) _ (refl, omega arith))))

  foreground-Moves :
      (set : Bool) (order : Order) (s : State)
      → Post (foreground ps row_delta input set order s) (Moves 1 s)
  unfolding foreground
  foreground-Moves set order s = after_header order s _ (λ p.
      and_then _ _ p.1 (set_fg-Moves set p.1)
        (λ t. repeat_step-Moves ps row_delta _ (write_over-Moves ps row_delta true) p.0 t))

  dithered-Moves :
      (order : Order) (s : State) → Post (dithered ps row_delta input order s) (Moves 1 s)
  unfolding dithered
  dithered-Moves order s = after_header order s _ (λ p.
      Post-then (need_src ps row_delta input (2 * ps) p.1) _ (Moves 0 p.1) (λ u.
        after_pixel _ p.1 (λ q. after_pixel _ q.1 (λ r.
          repeat_step-Moves ps row_delta _
            (λ t.
              and_then _ _ t (write_px-Moves ps row_delta q.0 t) (write_px-Moves ps row_delta r.0))
            p.0 r.1))))

  colored-Moves :
      (order : Order) (s : State) → Post (colored ps row_delta input order s) (Moves 1 s)
  unfolding colored
  colored-Moves order s = after_header order s _ (λ p.
      Post-then (need_src ps row_delta input ps p.1) _ (Moves 0 p.1) (λ u.
        after_pixel _ p.1
          (λ q. repeat_step-Moves ps row_delta _ (write_px-Moves ps row_delta q.0) p.0 q.1)))

  masked-Moves :
      (set : Bool) (order : Order) (s : State)
      → Post (masked ps row_delta input set order s) (Moves 1 s)
  unfolding masked
  masked-Moves set order s =
      after_header order s _
        (λ p. and_then _ _ p.1 (set_fg-Moves set p.1) (λ t. fgbg_masks-Moves p.0 p.0 t))

  copied-Moves : (order : Order) (s : State) → Post (copied ps row_delta input order s) (Moves 1 s)
  unfolding copied
  copied-Moves order s = after_header order s _ (λ p.
      Post-then (need_src ps row_delta input (p.0 * ps) p.1) _ (Moves 0 p.1) (λ u.
        Post-then (slice input p.1.i (p.1.i + p.0 * ps)) _ (Moves 0 p.1) (λ part.
          Post-bind (splice p.1.dst p.1.d part) _ (λ d. length d ≡ length p.1.dst) (Moves 0 p.1)
            (λ d e. length-splice p.1.dst p.1.d part d e)
            (λ d h. Post-ok (Moves 0 p.1) _ (h, omega arith)))))

  skipped :
      (m : Result State) (s : State)
      → Post m (Moves 0 (skip_order ps row_delta input s))
      → Post m (Moves 1 s)
  skipped m s h = λ t e. let (a, b) = h t e in (a, omega arith)

  -- Every order that is decoded keeps the size of the target and takes a byte of the source.
  pub step-Moves :
      (white : ℕ) (order : Order) (s : State)
      → Post (step ps row_delta input white order s) (Moves 1 s)
  unfolding step
  step-Moves white bg_run s = background-Moves bg_run s
  step-Moves white mega_bg_run s = background-Moves mega_bg_run s
  step-Moves white fg_run s = foreground-Moves false fg_run _
  step-Moves white mega_fg_run s = foreground-Moves false mega_fg_run _
  step-Moves white lite_set_fg_fg_run s = foreground-Moves true lite_set_fg_fg_run _
  step-Moves white mega_set_fg_run s = foreground-Moves true mega_set_fg_run _
  step-Moves white lite_dithered_run s = dithered-Moves lite_dithered_run _
  step-Moves white mega_dithered_run s = dithered-Moves mega_dithered_run _
  step-Moves white color_run s = colored-Moves color_run _
  step-Moves white mega_color_run s = colored-Moves mega_color_run _
  step-Moves white fgbg_image s = masked-Moves false fgbg_image _
  step-Moves white mega_fgbg_image s = masked-Moves false mega_fgbg_image _
  step-Moves white lite_set_fg_fgbg_image s = masked-Moves true lite_set_fg_fgbg_image _
  step-Moves white mega_set_fgbg_image s = masked-Moves true mega_set_fgbg_image _
  step-Moves white color_image s = copied-Moves color_image _
  step-Moves white mega_color_image s = copied-Moves mega_color_image _
  step-Moves white special_fgbg_1 s = skipped _ s (write_fgbg-Moves ps row_delta 8 0x03 _)
  step-Moves white special_fgbg_2 s = skipped _ s (write_fgbg-Moves ps row_delta 8 0x05 _)
  step-Moves white white_order s = skipped _ s (write_px-Moves ps row_delta white _)
  step-Moves white black_order s = skipped _ s (write_px-Moves ps row_delta 0 _)
  step-Moves white mega_unused s = λ t e. cc
  step-Moves white unknown s = λ t e. cc
