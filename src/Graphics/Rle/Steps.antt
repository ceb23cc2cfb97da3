-- ===== src/Graphics/Rle/Steps.antt =====
-- graphics/rle.rs: one round of the loop, for any order of a line.
use ferropipe_rdp.Graphics.Rle.Lines.{
  length-pixel_bytes, code-carried, code-coloured, code-foreground, code-background, line_state,
  times, write_px_lem, Run, background_run, foreground_run, coloured_run, carried_run, white_dot,
  black_dot, first_mask, second_mask, bytes_of, drawn_by, is_background, IsRun,
}
use ferropipe_rdp.Graphics.Rle.Runs.{
  first_background, later_background, foreground_lem, colored_lem, carried_lem, write_fgbg_lem,
}
use ferropipe_rdp.Common.{
  ◌*◌, suc, ap, true, false, ◌∙◌, ◌∙◌, ◌+◌, Bool, ◌+◌, [], ◌∷◌, ◌++◌, ◌≡◌, ℕ, Bytes, length, arith,
  refl,
}
use ferropipe_rdp.Outcome.{ok}
use ferropipe_rdp.Graphics.Rle.{code_id, pixel_bytes, order_of, step}

abbrev pub head_of : Run → ℕ
head_of (background_run n) = n
head_of (foreground_run n) = 0x20 + n
head_of (coloured_run n px) = 0x60 + n
head_of (carried_run n px) = 0x80 + n
head_of white_dot = 0xFD
head_of black_dot = 0xFE
head_of first_mask = 0xF9
head_of second_mask = 0xFA

abbrev pub more_of : Run → Bytes
more_of (coloured_run n px) = px
more_of (carried_run n px) = px
more_of r = []

pub bytes_of-parts : (r : Run) → bytes_of r ≡ head_of r ∷ more_of r
bytes_of-parts (background_run n) = refl
bytes_of-parts (foreground_run n) = refl
bytes_of-parts (coloured_run n px) = refl
bytes_of-parts (carried_run n px) = refl
bytes_of-parts white_dot = refl
bytes_of-parts black_dot = refl
bytes_of-parts first_mask = refl
bytes_of-parts second_mask = refl

module _ (ps rd white : ℕ) (pre more out : Bytes) (k m : ℕ) where
  abbrev drawn : Bool → Run → Bytes
  drawn ins r = drawn_by (pixel_bytes ps white) (pixel_bytes ps 0) ins r

  abbrev Steps : Bool → Run → Type 0
  Steps ins r =
      step ps rd (pre ++ (bytes_of r ++ more)) white (order_of (code_id (head_of r)))
        (line_state white (length pre) out k ins)
      ≡ ok (
          line_state white (length pre + length (bytes_of r)) (out ++ drawn ins r) m
            (is_background r))

  moved :
      (out' : Bytes) (i j : ℕ)
      → i ≡ j
      → ok (line_state white i out' m false) ≡ ok (line_state white j out' m false)
  moved out' i j e = ap (λ (i' : ℕ). ok (line_state white i' out' m false)) e

  pub step_lem : (ins : Bool) (r : Run) → IsRun ps r → k ≡ length (drawn ins r) + m → Steps ins r
  unfolding step order_of code_id
  step_lem false (background_run n) (l, h) e =
      rw (code-background n h, step) (first_background ps rd white pre more n out k m l h e)
  step_lem true (background_run n) (l, h) e =
      rw (code-background n h, step) (later_background ps rd white pre more n out k m l h e)
  step_lem false (foreground_run n) (l, h) e =
      rw (code-foreground n h, step) (foreground_lem ps rd white pre more n out k m l h e)
  step_lem true (foreground_run n) (l, h) e =
      rw (code-foreground n h, step) (foreground_lem ps rd white pre more n out k m l h e)
  step_lem false (coloured_run n px) (l, h, hb, hl) e =
      rw (code-coloured n h, step)
        (colored_lem ps rd white pre more n px out k m l h hb hl e
          ∙ moved (out ++ times n px) (length pre + 1 + ps) (length pre + suc (length px))
              (omega (arith, hl)))
  step_lem true (coloured_run n px) (l, h, hb, hl) e =
      rw (code-coloured n h, step)
        (colored_lem ps rd white pre more n px out k m l h hb hl e
          ∙ moved (out ++ times n px) (length pre + 1 + ps) (length pre + suc (length px))
              (omega (arith, hl)))
  step_lem false (carried_run n px) (l, h, hl) e =
      rw (code-carried n h, step)
        (carried_lem ps rd white pre more n px out k m l h hl e
          ∙ moved (out ++ px) (length pre + 1 + n * ps) (length pre + suc (length px))
              (omega (arith, hl)))
  step_lem true (carried_run n px) (l, h, hl) e =
      rw (code-carried n h, step)
        (carried_lem ps rd white pre more n px out k m l h hl e
          ∙ moved (out ++ px) (length pre + 1 + n * ps) (length pre + suc (length px))
              (omega (arith, hl)))
  step_lem false white_dot h e =
      write_px_lem ps rd white (length pre + 1) false white out k m
        (omega (arith, e, length-pixel_bytes ps white))
  step_lem true white_dot h e =
      write_px_lem ps rd white (length pre + 1) false white out k m
        (omega (arith, e, length-pixel_bytes ps white))
  step_lem false black_dot h e =
      write_px_lem ps rd white (length pre + 1) false 0 out k m
        (omega (arith, e, length-pixel_bytes ps 0))
  step_lem true black_dot h e =
      write_px_lem ps rd white (length pre + 1) false 0 out k m
        (omega (arith, e, length-pixel_bytes ps 0))
  step_lem false first_mask h e = write_fgbg_lem ps rd white (length pre + 1) 8 0x03 out k m e
  step_lem true first_mask h e = write_fgbg_lem ps rd white (length pre + 1) 8 0x03 out k m e
  step_lem false second_mask h e = write_fgbg_lem ps rd white (length pre + 1) 8 0x05 out k m e
  step_lem true second_mask h e = write_fgbg_lem ps rd white (length pre + 1) 8 0x05 out k m e
