-- ===== src/Graphics/Rle/Lines.antt =====
-- graphics/rle.rs: a line is drawn as its orders say.
use ferropipe_rdp.Common.{
  ◌<◌, false, ◌<◌, ◌-◌, append-nil, length-replicate, ◌*◌, ◌≤◌, ◌≤◌, replicate, if◌then◌else◌,
  append_assoc, drop_left, ◌^◌, ◌+◌, take_left, sym, ◌/◌, ◌∙◌, ◌∙◌, zero, true, length-append, ap,
  IsByte, suc, Bool, All, [], ◌∷◌, ◌++◌, ◌≡◌, ℕ, Bytes, length, arith, refl,
}
use ferropipe_rdp.Graphics.Rle.{
  order_of, fg_run, color_run, color_image, bg_run, run_length, code_id, pixel_bytes, pixel_value,
  write_px, repeat_step, write_over, State,
}
use ferropipe_rdp.Outcome.{Result, splice, ok, ◌>>=◌}
use ferropipe_rdp.Common.Bits.{bit_and-0xc0, bit_and-0x1f, bit_or-low_left}

-- The state in which `out` is written and `m` bytes are left of the first line.
abbrev pub line_state : ℕ → ℕ → Bytes → ℕ → Bool → State
line_state white i out m ins = record {
  i = i;
  d = length out;
  fg_pel = white;
  insert_fg = ins;
  first_line = true;
  dst = out ++ replicate m 0;
}

abbrev pub times : ℕ → Bytes → Bytes
times zero bs = []
times (suc n) bs = bs ++ times n bs

pub length-pixel_bytes : (ps v : ℕ) → length (pixel_bytes ps v) ≡ ps
unfolding pixel_bytes
length-pixel_bytes zero v = refl
length-pixel_bytes (suc ps) v = ap (λ (n : ℕ). suc n) (length-pixel_bytes ps (v / 2 ^ 8))

pub pixel_bytes-pixel_value :
    (px : Bytes) → All IsByte px → pixel_bytes (length px) (pixel_value px) ≡ px
unfolding pixel_bytes pixel_value
pixel_bytes-pixel_value [] h = refl
pixel_bytes-pixel_value (b ∷ bs) (h, hs) =
    ground (arith, bit_or-low_left 8 (pixel_value bs) b, pixel_bytes-pixel_value bs hs)

splice_here :
    (out part old rest : Bytes)
    → length old ≡ length part
    → splice (out ++ (old ++ rest)) (length out) part ≡ ok ((out ++ part) ++ rest)
splice_here out part old rest h = ground (
  arith,
  length-append out (old ++ rest),
  length-append old rest,
  take_left out (old ++ rest) (length out),
  drop_left (out ++ old) rest (length out + length part),
  append_assoc out old rest,
  append_assoc out part rest,
  length-append out old,
)

replicate-add : (n m : ℕ) → replicate {A = ℕ} (n + m) 0 ≡ replicate n 0 ++ replicate m 0
replicate-add zero m = ap (λ k. replicate {A = ℕ} k 0) {x = 0 + m} {y = m} (omega arith)
replicate-add (suc n) m =
    ap (λ k. replicate {A = ℕ} k 0) {x = suc n + m} {y = suc (n + m)} (omega arith)
    ∙ ap (λ xs. 0 ∷ xs) (replicate-add n m)

pub splice_zeros :
    (out part : Bytes) (k m : ℕ)
    → length part ≤ k
    → k ≡ length part + m
    → splice (out ++ replicate k 0) (length out) part ≡ ok ((out ++ part) ++ replicate m 0)
splice_zeros out part k m h e =
    ap (λ (j : ℕ). splice (out ++ replicate j 0) (length out) part) e
    ∙ ap (λ (xs : Bytes). splice (out ++ xs) (length out) part) (replicate-add (length part) m)
    ∙ splice_here out part (replicate (length part) 0) (replicate m 0)
        (length-replicate (length part) 0)

module _ (ps rd white i : ℕ) (ins : Bool) where
  pub write_px_lem :
      (v : ℕ) (out : Bytes) (k m : ℕ)
      → k ≡ ps + m
      → write_px ps rd v (line_state white i out k ins)
        ≡ ok (line_state white i (out ++ pixel_bytes ps v) m ins)
  unfolding write_px
  write_px_lem v out k m h =
      rw
        (splice_zeros out (pixel_bytes ps v) k m (omega (arith, length-pixel_bytes ps v))
          (omega (arith, length-pixel_bytes ps v)))
        (ap (λ (n : ℕ). ok (record (line_state white i (out ++ pixel_bytes ps v) m ins) { d = n }))
          {x = length out + ps} {y = length (out ++ pixel_bytes ps v)}
          (omega (arith, length-append out (pixel_bytes ps v), length-pixel_bytes ps v)))

  pub write_over_lem :
      (fg : Bool) (out : Bytes) (k m : ℕ)
      → k ≡ ps + m
      → write_over ps rd fg (line_state white i out k ins)
        ≡ ok (line_state white i (out ++ pixel_bytes ps (if fg then white else 0)) m ins)
  unfolding write_over
  write_over_lem fg out k m h = write_px_lem (if fg then white else 0) out k m h

  -- A call that appends, again and again.
  pub repeat_step_lem :
      (f : State → Result State) (part : Bytes) (n : ℕ)
      → ((out : Bytes) (k m : ℕ)
          → k ≡ length part + m
          → f (line_state white i out k ins) ≡ ok (line_state white i (out ++ part) m ins))
      → (out : Bytes) (k m : ℕ) → k ≡ n * length part + m
      → repeat_step ps rd n f (line_state white i out k ins)
        ≡ ok (line_state white i (out ++ times n part) m ins)
  unfolding repeat_step
  repeat_step_lem f part zero h out k m e =
      ap (λ (j : ℕ). ok (line_state white i out j ins)) {x = k} {y = m} (omega (arith, e))
      ∙ ap (λ (xs : Bytes). ok (line_state white i xs m ins)) (sym (append-nil out))
  repeat_step_lem f part (suc n) h out k m e =
      ap (λ r. r >>= repeat_step ps rd n f) (h out k (n * length part + m) (omega (arith, e)))
      ∙ repeat_step_lem f part n h (out ++ part) (n * length part + m) m refl
      ∙ ap (λ (xs : Bytes). ok (line_state white i xs m ins)) (append_assoc out part (times n part))

-- The orders of a line: runs of the background and the foreground, of a colour and of pixels that
-- are carried, by their lengths; one white or black pixel; and eight pixels of two fixed masks.
pub data Run : Type 0 where
  background_run foreground_run : ℕ → Run
  coloured_run carried_run : ℕ → Bytes → Run
  white_dot black_dot first_mask second_mask : Run

abbrev pub bytes_of : Run → Bytes
bytes_of (background_run n) = n ∷ []
bytes_of (foreground_run n) = (0x20 + n) ∷ []
bytes_of (coloured_run n px) = (0x60 + n) ∷ px
bytes_of (carried_run n px) = (0x80 + n) ∷ px
bytes_of white_dot = 0xFD ∷ []
bytes_of black_dot = 0xFE ∷ []
bytes_of first_mask = 0xF9 ∷ []
bytes_of second_mask = 0xFA ∷ []

-- What is drawn on the first line, of pixels `w` in the foreground and `z` in the background; a
-- background run behind another starts with a pixel of the foreground.
abbrev pub drawn_by : Bytes → Bytes → Bool → Run → Bytes
drawn_by w z false (background_run n) = times n z
drawn_by w z true (background_run n) = w ++ times (n - 1) z
drawn_by w z ins (foreground_run n) = times n w
drawn_by w z ins (coloured_run n px) = times n px
drawn_by w z ins (carried_run n px) = px
drawn_by w z ins white_dot = w
drawn_by w z ins black_dot = z
drawn_by w z ins first_mask = w ++ (w ++ times 6 z)
drawn_by w z ins second_mask = w ++ (z ++ (w ++ times 5 z))

abbrev pub is_background : Run → Bool
is_background (background_run n) = true
is_background r = false

abbrev pub IsRun : ℕ → Run → Type 0
IsRun ps (background_run n) = (1 ≤ n) × (n < 32)
IsRun ps (foreground_run n) = (1 ≤ n) × (n < 32)
IsRun ps (coloured_run n px) = (1 ≤ n) × (n < 32) × All IsByte px × (length px ≡ ps)
IsRun ps (carried_run n px) = (1 ≤ n) × (n < 32) × (length px ≡ n * ps)
IsRun ps r = Unit

pub code-background : (n : ℕ) → n < 32 → order_of (code_id n) ≡ bg_run
unfolding code_id order_of
code-background n h = ground (arith, bit_and-0xc0 n)

pub code-foreground : (n : ℕ) → n < 32 → order_of (code_id (0x20 + n)) ≡ fg_run
unfolding code_id order_of
code-foreground n h = ground (arith, bit_and-0xc0 (0x20 + n))

pub code-coloured : (n : ℕ) → n < 32 → order_of (code_id (0x60 + n)) ≡ color_run
unfolding code_id order_of
code-coloured n h = ground (arith, bit_and-0xc0 (0x60 + n))

pub code-carried : (n : ℕ) → n < 32 → order_of (code_id (0x80 + n)) ≡ color_image
unfolding code_id order_of
code-carried n h = ground (arith, bit_and-0xc0 (0x80 + n))

pub run_length-background :
    (n : ℕ) (more : Bytes) → 1 ≤ n → n < 32 → run_length bg_run (n ∷ more) ≡ ok (n, 1)
unfolding run_length
run_length-background n more l h = ground (arith, bit_and-0x1f n)

pub run_length-foreground :
    (n : ℕ) (more : Bytes) → 1 ≤ n → n < 32 → run_length fg_run ((0x20 + n) ∷ more) ≡ ok (n, 1)
unfolding run_length
run_length-foreground n more l h = ground (arith, bit_and-0x1f (0x20 + n))

pub run_length-coloured :
    (n : ℕ) (more : Bytes) → 1 ≤ n → n < 32 → run_length color_run ((0x60 + n) ∷ more) ≡ ok (n, 1)
unfolding run_length
run_length-coloured n more l h = ground (arith, bit_and-0x1f (0x60 + n))

pub run_length-carried :
    (n : ℕ) (more : Bytes) → 1 ≤ n → n < 32 → run_length color_image ((0x80 + n) ∷ more) ≡ ok (n, 1)
unfolding run_length
run_length-carried n more l h = ground (arith, bit_and-0x1f (0x80 + n))
