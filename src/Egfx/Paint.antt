-- ===== src/Egfx/Paint.antt =====
-- egfx.rs: what is painted on a surface.
use ferropipe_rdp.Outcome.{index-get_or}
use ferropipe_rdp.Common.{
  ne→==, lt→ltb, ◌||◌, false, ◌-◌, true, ◌-◌, sym, if◌then◌else◌, le→ltb, ◌≢◌, ◌≢◌, ◌∙◌, ◌∙◌, ap,
  inr, inl, zero, ◌==◌, arith, Bool-cases, ◌≤◌, ◌≤◌, suc, refl, ◌≡◌, ◌<◌, ◌*◌, ◌≡◌, length, get_or,
  ◌<◌, ◌+◌, ◌*◌, ℕ, some, Bytes, [], ◌∷◌,
}
use ferropipe_rdp.Graphics.Framebuffer.{Framebuffer, blit_rgba}
use ferropipe_rdp.Graphics.Framebuffer.Blit.{
  at_zero, at, blit_rows-Blits, inside, at_zero, row_below,
}
use ferropipe_rdp.Egfx.{Rect16}
use ferropipe_rdp.Egfx.Screen.{Picture, colour, overlaid}
use ferropipe_rdp.Egfx.Surfaces.{rect_height, rect_width, decode_surface_bits, paint, bgra_to_rgba}
use ferropipe_rdp.Outcome.{short, protocol, err, ok}
use ferropipe_rdp.Egfx.Shows.{Shows}

-- The `n` pixels of the data from pixel `i` on.
abbrev Converted : ℕ → ℕ → Bytes → Bytes → Type 0
Converted n i content rgba =
    (length rgba ≡ n * 4)
    × ((k c : ℕ) → k < n → c < 4 → get_or rgba (k * 4 + c) 0 ≡ colour content (i + k) c)

get_or-behind_pixel :
    (r g b a : ℕ) (rest : Bytes) (j k : ℕ)
    → j ≡ k + 4
    → get_or (r ∷ g ∷ b ∷ a ∷ rest) j 0 ≡ get_or rest k 0
get_or-behind_pixel r g b a rest (suc (suc (suc (suc j)))) k h =
    ap (λ (i : ℕ). get_or rest i 0) {x = j} {y = k} (omega arith)
get_or-behind_pixel r g b a rest _ k h = absurd (omega arith)

abbrev opaque : Bytes → ℕ → Bytes → Bytes
opaque content i rest = colour content i 0 ∷ colour content i 1 ∷ colour content i 2 ∷ 255 ∷ rest

one_more :
    (n i : ℕ) (content rest : Bytes)
    → Converted n (i + 1) content rest
    → (k c : ℕ) → k < suc n
    → c < 4
    → get_or (opaque content i rest) (k * 4 + c) 0 ≡ colour content (i + k) c
one_more n i content rest h zero zero hk hc = ground arith
one_more n i content rest h zero (suc zero) hk hc = ground arith
one_more n i content rest h zero (suc (suc zero)) hk hc = ground arith
one_more n i content rest h zero (suc (suc (suc c))) hk hc = ground arith
one_more n i content rest h (suc k) c hk hc =
    get_or-behind_pixel _ _ _ _ rest (suc k * 4 + c) (k * 4 + c) (omega arith)
    ∙ h.1 k c (omega arith) hc
    ∙ ap (λ (j : ℕ). colour content j c) {x = i + 1 + k} {y = i + suc k} (omega arith)

bgra_to_rgba-Converted :
    (n i : ℕ) (content : Bytes)
    → (i + n) * 4 ≤ length content
    → (rgba : Bytes) × (bgra_to_rgba n i content ≡ ok rgba) × Converted n i content rgba
unfolding bgra_to_rgba
bgra_to_rgba-Converted zero i content h = ([], refl, (refl, λ k c hk hc. absurd (omega arith)))
bgra_to_rgba-Converted (suc n) i content h =
    let (rest, e, converted) = bgra_to_rgba-Converted n (i + 1) content (omega arith) in
    (
      opaque content i rest,
      rw
          (
            index-get_or content (i * 4 + 2) (omega arith),
            index-get_or content (i * 4 + 1) (omega arith),
            index-get_or content (i * 4) (omega arith),
            e,
          )
          refl,
      (omega (arith, converted.0), one_more n i content rest converted),
    )

-- A pixel of the rectangle is in its data.
in_data : (x y w h px py : ℕ) → inside x y w h px py ≡ true → (py - y) * w + (px - x) < w * h
in_data x y w h px py e = ground (arith, row_below (py - y) h w)

painted_colour :
    (dest : Rect16) (content rgba : Bytes) (old old' px py c : ℕ)
    → Converted (rect_width dest * rect_height dest) 0 content rgba
    → c < 4
    → old ≡ old'
    → (if inside dest.left dest.top (rect_width dest) (rect_height dest) px py
        then get_or rgba (((py - dest.top) * rect_width dest + (px - dest.left)) * 4 + c) 0
        else old)
      ≡ (if inside dest.left dest.top (rect_width dest) (rect_height dest) px py
          then colour content ((py - dest.top) * rect_width dest + (px - dest.left)) c
          else old')
painted_colour dest content rgba old old' px py c h hc same =
    let w = rect_width dest in
    let rows = rect_height dest in
    elim (Bool-cases (inside dest.left dest.top w rows px py)) [
      | inl e ↦ rw e (
          h.1 ((py - dest.top) * w + (px - dest.left)) c (in_data dest.left dest.top w rows px py e)
            hc
          ∙ ap (λ (n : ℕ). colour content n c) {x = 0 + ((py - dest.top) * w + (px - dest.left))}
              (omega arith))
      | inr e ↦ rw e same
    ]

-- Data that is all there is painted.
pub paint-Shows :
    (fb : Framebuffer) (picture : Picture) (codec_id : ℕ) (dest : Rect16) (content : Bytes)
    → Shows (some fb) (some picture)
    → (codec_id == 0) ≡ true
    → rect_width dest * rect_height dest * 4 ≤ length content
    → (fb' : Framebuffer) × (paint fb codec_id dest content ≡ ok fb')
      × Shows (some fb') (some (overlaid picture dest content))
unfolding paint decode_surface_bits blit_rgba
paint-Shows fb picture codec_id dest content (valid, w, h, pixels) plain enough =
    let rw_ = rect_width dest in
    let rh = rect_height dest in
    let (rgba, e, converted) = bgra_to_rgba-Converted (rw_ * rh) 0 content (omega arith) in
    let (fb', e', p) =
      blit_rows-Blits dest.left dest.top rw_ rgba rh 0 fb valid (omega (arith, converted.0)) in
    (
      fb',
      rw (plain, le→ltb (length content) (rw_ * rh * 4) enough, e) e',
      (
        p.2,
        p.0 ∙ w,
        p.1 ∙ h,
        λ px py c hx hy hc.
            let on_row : px < fb.width = rw (sym p.0) hx in
            let on_column : py < fb.height = rw (sym p.1) hy in
            rw (at_zero dest.top) at (p.3 px py c on_row on_column hc)
            ∙ painted_colour dest content rgba (at fb px py c) (picture.pixel px py c) px py c
                converted hc (pixels px py c on_row on_column hc),
      ),
    )

pub paint_short :
    (fb : Framebuffer) (codec_id : ℕ) (dest : Rect16) (content : Bytes)
    → (codec_id == 0) ≡ true
    → length content < rect_width dest * rect_height dest * 4
    → paint fb codec_id dest content
      ≡ err (short (rect_width dest * rect_height dest * 4) (length content))
unfolding paint decode_surface_bits
paint_short fb codec_id dest content e h = rw (e, lt→ltb _ _ h) refl

pub paint_codec :
    (fb : Framebuffer) (codec_id : ℕ) (dest : Rect16) (content : Bytes)
    → (codec_id == 0) ≡ false
    → codec_id ≢ 0x0A
    → paint fb codec_id dest content ≡ (
        if codec_id == 0x0B || codec_id == 0x0E
        then err (protocol "EGFX H.264 codec requires an external decoder")
        else err (protocol "unsupported EGFX codec"))
unfolding paint decode_surface_bits
paint_codec fb codec_id dest content e plain =
    elim (Bool-cases (codec_id == 0x0B || codec_id == 0x0E)) [
      | inl k ↦ rw (e, ne→== codec_id 0x0A plain, k) refl
      | inr k ↦ rw (e, ne→== codec_id 0x0A plain, k) refl
    ]
