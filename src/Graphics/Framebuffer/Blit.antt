-- ===== src/Graphics/Framebuffer/Blit.antt =====
-- graphics/framebuffer.rs: what a blit changes, pixel by pixel.
use ferropipe_rdp.Common.{
  leb→lt, inr, leb→le, inl, true, Bool-cases, ◌⊎◌, ◌⊎◌, le→leb, length-drop, ◌∙◌, ◌&&◌, ◌∙◌, min,
  length-take, length-append, leb, ◌&&◌, ◌≤◌, ◌≤◌, Bool, ◌==◌, refl, zero, [], ◌∷◌, ◌-◌, suc, ltb,
  ap, if◌then◌else◌, drop, arith, ◌++◌, take, ◌++◌, ◌+◌, ◌*◌, ◌≡◌, ◌<◌, ◌≡◌, length-replicate,
  length, get_or, ◌<◌, ℕ, Bytes,
}
use ferropipe_rdp.Graphics.Framebuffer.{
  blit_rgba, blit_rows, copy_row, new_framebuffer, Framebuffer,
}
use ferropipe_rdp.Outcome.{slice_ok, ok}

-- The buffer holds four bytes for each pixel.
abbrev pub IsFramebuffer : Framebuffer → Type 0
IsFramebuffer fb = length fb.pixels ≡ fb.width * fb.height * 4

pub new_framebuffer-IsFramebuffer : (w h : ℕ) → IsFramebuffer (new_framebuffer w h)
unfolding new_framebuffer
new_framebuffer-IsFramebuffer w h = length-replicate (w * h * 4) 0

-- Reading back from a splice.
get_or-append :
    (xs ys : Bytes) (k : ℕ)
    → get_or (xs ++ ys) k 0
      ≡ (if ltb k (length xs) then get_or xs k 0 else get_or ys (k - length xs) 0)
get_or-append [] ys k = ground arith
get_or-append (x ∷ xs) ys zero = ground arith
get_or-append (x ∷ xs) ys (suc k) = ground (arith, get_or-append xs ys k)

get_or-take : (n : ℕ) (xs : Bytes) (k : ℕ) → k < n → get_or (take n xs) k 0 ≡ get_or xs k 0
get_or-take zero xs k h = absurd (omega arith)
get_or-take (suc n) [] k h = refl
get_or-take (suc n) (x ∷ xs) zero h = refl
get_or-take (suc n) (x ∷ xs) (suc k) h = get_or-take n xs k (omega arith)

get_or-drop : (n : ℕ) (xs : Bytes) (k j : ℕ) → j ≡ n + k → get_or (drop n xs) k 0 ≡ get_or xs j 0
get_or-drop zero xs k j h = ap (λ (i : ℕ). get_or xs i 0) {x = k} {y = j} (omega arith)
get_or-drop (suc n) [] k j h = refl
get_or-drop (suc n) (x ∷ xs) k zero h = absurd (omega arith)
get_or-drop (suc n) (x ∷ xs) k (suc j) h = get_or-drop n xs k j (omega arith)

abbrev spliced : Bytes → ℕ → Bytes → Bytes
spliced xs off part = take off xs ++ (part ++ drop (off + length part) xs)

length-spliced :
    (xs : Bytes) (off : ℕ) (part : Bytes)
    → off + length part ≤ length xs
    → length (spliced xs off part) ≡ length xs
length-spliced xs off part h = omega (
  arith,
  length-append (take off xs) (part ++ drop (off + length part) xs),
  length-append part (drop (off + length part) xs),
  length-take off xs,
  length-drop (off + length part) xs,
)

get_or-spliced :
    (xs : Bytes) (off : ℕ) (part : Bytes) (k : ℕ)
    → off + length part ≤ length xs
    → get_or (spliced xs off part) k 0
      ≡ (if leb off k && ltb k (off + length part) then get_or part (k - off) 0 else get_or xs k 0)
get_or-spliced xs off part k h = ground (
  arith,
  get_or-append (take off xs) (part ++ drop (off + length part) xs) k,
  get_or-append part (drop (off + length part) xs) (k - off),
  length-take off xs,
  get_or-take off xs k,
  get_or-drop (off + length part) xs (k - off - length part) k,
)

-- The byte `c` of the pixel (px, py).
abbrev pub at : Framebuffer → ℕ → ℕ → ℕ → ℕ
at fb px py c = get_or fb.pixels ((py * fb.width + px) * 4 + c) 0

-- Rows do not overlap.
pub row_below : (a b w : ℕ) → a < b → a * w + w ≤ b * w
row_below a b w h = grind arith

-- The byte of a pixel lies in the copied part of the row `y` exactly if the pixel does.
abbrev in_part : ℕ → ℕ → ℕ → ℕ → ℕ → ℕ → ℕ → Bool
in_part w x y n px py c =
    leb ((y * w + x) * 4) ((py * w + px) * 4 + c)
    && ltb ((py * w + px) * 4 + c) ((y * w + x) * 4 + n * 4)

in_part_iff :
    (w x y n px py c : ℕ)
    → x + n ≤ w
    → px < w
    → c < 4
    → in_part w x y n px py c ≡ (py == y && (leb x px && ltb px (x + n)))
in_part_iff w x y n px py c h hp hc =
    ground (arith, row_below py y w, row_below y py w, ap (λ (t : ℕ). t * w) {x = py} {y = y})

-- What a copied row changes.
abbrev RowCopied : Framebuffer → Framebuffer → ℕ → ℕ → ℕ → ℕ → Bytes → Type 0
RowCopied fb fb' x dst_y rect_w row rgba =
    (fb'.width ≡ fb.width)
    × (fb'.height ≡ fb.height)
    × IsFramebuffer fb'
    × ((px py c : ℕ)
        → px < fb.width
        → c < 4
        → at fb' px py c ≡ (
            if py == dst_y && (leb x px && ltb px (x + rect_w))
            then get_or rgba ((row * rect_w + (px - x)) * 4 + c) 0
            else at fb px py c))

module _ (fb : Framebuffer) (x dst_y rect_w row : ℕ) (rgba : Bytes) (valid : IsFramebuffer fb)
    (on_screen : dst_y < fb.height) (left : x < fb.width)
    (source : (row * rect_w + rect_w) * 4 ≤ length rgba) where
  abbrev copy_w : ℕ
  copy_w = min rect_w (fb.width - x)

  abbrev part : Bytes
  part = take (copy_w * 4) (drop (row * rect_w * 4) rgba)

  length-part : length part ≡ copy_w * 4
  length-part = omega (
    arith,
    length-take (copy_w * 4) (drop (row * rect_w * 4) rgba),
    length-drop (row * rect_w * 4) rgba,
  )

  abbrev dst_off : ℕ
  dst_off = (dst_y * fb.width + x) * 4

  room : dst_off + length part ≤ length fb.pixels
  room =
      let size : length fb.pixels ≡ fb.width * fb.height * 4 = valid in
      omega (arith, size, length-part, row_below dst_y fb.height fb.width on_screen)

  abbrev copied_fb : Framebuffer
  copied_fb = record fb { pixels = spliced fb.pixels dst_off part }

  copy_row_ok : copy_row fb x dst_y rect_w rgba row ≡ ok copied_fb
  copy_row_ok =
      let width : row * rect_w * 4 + copy_w * 4 - row * rect_w * 4 ≡ copy_w * 4 = omega arith in
      rw
        (slice_ok rgba (row * rect_w * 4) (row * rect_w * 4 + copy_w * 4) (omega arith)
          (omega arith))
        (rw width (rw (le→leb _ _ room)))

  part-at :
      (px c : ℕ)
      → x ≤ px
      → px < x + copy_w
      → c < 4
      → get_or part ((px - x) * 4 + c) 0 ≡ get_or rgba ((row * rect_w + (px - x)) * 4 + c) 0
  part-at px c lo hi hc =
      get_or-take (copy_w * 4) (drop (row * rect_w * 4) rgba) ((px - x) * 4 + c) (omega arith)
      ∙ get_or-drop (row * rect_w * 4) rgba ((px - x) * 4 + c) ((row * rect_w + (px - x)) * 4 + c)
          (omega arith)

  pixel :
      (px py c : ℕ)
      → px < fb.width
      → c < 4
      → at copied_fb px py c ≡ (
          if py == dst_y && (leb x px && ltb px (x + rect_w))
          then get_or rgba ((row * rect_w + (px - x)) * 4 + c) 0
          else at fb px py c)
  pixel px py c hp hc = ground (
    arith,
    length-part,
    get_or-spliced fb.pixels dst_off part ((py * fb.width + px) * 4 + c) room,
    in_part_iff fb.width x dst_y copy_w px py c,
    part-at px c,
    ap (λ (t : ℕ). t * fb.width) {x = py} {y = dst_y},
  )

  copied-RowCopied : RowCopied fb copied_fb x dst_y rect_w row rgba
  copied-RowCopied = (
    refl,
    refl,
    length-spliced fb.pixels dst_off part room ∙ valid,
    λ px py c hp hc. pixel px py c hp hc,
  )

-- The pixel (px, py) is in the rectangle of `w` by `h` pixels at (x, y).
abbrev pub inside : ℕ → ℕ → ℕ → ℕ → ℕ → ℕ → Bool
inside x y w h px py = leb y py && ltb py (y + h) && (leb x px && ltb px (x + w))

-- `fb'` is `fb` with the rows from `row` on, `n` of them, painted at (x, y).
abbrev pub Painted : Framebuffer → Framebuffer → ℕ → ℕ → ℕ → ℕ → ℕ → Bytes → Type 0
Painted fb fb' x y rect_w row n rgba =
    (fb'.width ≡ fb.width)
    × (fb'.height ≡ fb.height)
    × IsFramebuffer fb'
    × ((px py c : ℕ)
        → px < fb.width
        → py < fb.height
        → c < 4
        → at fb' px py c ≡ (
            if inside x (y + row) rect_w n px py
            then get_or rgba (((py - y) * rect_w + (px - x)) * 4 + c) 0
            else at fb px py c))

abbrev pub Blits : Framebuffer → ℕ → ℕ → ℕ → ℕ → ℕ → Bytes → Type 0
Blits fb x y rect_w row n rgba =
    (fb' : Framebuffer) × (blit_rows n row fb x y rect_w rgba ≡ ok fb')
    × Painted fb fb' x y rect_w row n rgba

module _ (x y rect_w : ℕ) (rgba : Bytes) where
  -- Nothing of the rows is on the screen.
  unpainted :
      (fb : Framebuffer) (row n : ℕ)
      → IsFramebuffer fb
      → (fb.height ≤ y + row) ⊎ ((rect_w ≡ 0) ⊎ (fb.width ≤ x))
      → Painted fb fb x y rect_w row n rgba
  unpainted fb row n valid off = (refl, refl, valid, λ px py c hp hy hc. ground arith)

  -- One row more in front of painted rows.
  one_row_more :
      (fb fb1 fb2 : Framebuffer) (row n : ℕ)
      → RowCopied fb fb1 x (y + row) rect_w row rgba
      → Painted fb1 fb2 x y rect_w (row + 1) n rgba
      → Painted fb fb2 x y rect_w row (suc n) rgba
  one_row_more fb fb1 fb2 row n c p = (
    p.0 ∙ c.0,
    p.1 ∙ c.1,
    p.2,
    λ px py k hp hy hk. ground (
      arith,
      c.0,
      c.1,
      c.3 px py k hp hk,
      p.3 px py k (rw c.0 hp) (rw c.1 hy) hk,
      ap (λ (t : ℕ). t * rect_w) {x = py - y} {y = row},
    ),
  )

  -- One row that is off to the right.
  skipped_row :
      (fb fb2 : Framebuffer) (row n : ℕ)
      → (rect_w ≡ 0) ⊎ (fb.width ≤ x)
      → Painted fb fb2 x y rect_w (row + 1) n rgba
      → Painted fb fb2 x y rect_w row (suc n) rgba
  skipped_row fb fb2 row n off p =
      (p.0, p.1, p.2, λ px py k hp hy hk. ground (arith, p.3 px py k hp hy hk))

  off_right :
      (fb : Framebuffer) → (min rect_w (fb.width - x) == 0) ≡ true → (rect_w ≡ 0) ⊎ (fb.width ≤ x)
  off_right fb e = ground arith

  pub blit_rows-Blits :
      (n row : ℕ) (fb : Framebuffer)
      → IsFramebuffer fb
      → (row + n) * rect_w * 4 ≤ length rgba
      → Blits fb x y rect_w row n rgba
  unfolding blit_rows
  blit_rows-Blits zero row fb valid enough =
      (fb, refl, (refl, refl, valid, λ px py c hp hy hc. ground arith))
  blit_rows-Blits (suc n) row fb valid enough = elim (Bool-cases (leb fb.height (y + row))) [
    | inl below ↦
        (fb, rw (below, blit_rows) refl, unpainted fb row (suc n) valid (inl (leb→le _ _ below)))
    | inr on ↦ elim (Bool-cases (min rect_w (fb.width - x) == 0)) [
      | inl off ↦
          let (fb2, e, p) = blit_rows-Blits n (row + 1) fb valid (omega arith) in
          (fb2, rw (on, off, blit_rows) e, skipped_row fb fb2 row n (off_right fb off) p)
      | inr some_columns ↦
          let on_screen : y + row < fb.height = leb→lt _ _ on in
          let left : x < fb.width = ground arith in
          let source : (row * rect_w + rect_w) * 4 ≤ length rgba = omega arith in
          let fb1 : Framebuffer =
            copied_fb fb x (y + row) rect_w row rgba valid on_screen left source in
          let c : RowCopied fb fb1 x (y + row) rect_w row rgba =
            copied-RowCopied fb x (y + row) rect_w row rgba valid on_screen left source in
          let (fb2, e, p) = blit_rows-Blits n (row + 1) fb1 c.2 (omega arith) in
          (
            fb2,
            rw
                (
                  on,
                  some_columns,
                  copy_row_ok fb x (y + row) rect_w row rgba valid on_screen left source,
                  blit_rows,
                )
                e,
            one_row_more fb fb1 fb2 row n c p,
          )
    ]
  ]

pub at_zero : (y : ℕ) → y + 0 ≡ y
at_zero y = omega arith

-- blit_rgba: a rectangle whose pixels are there is copied without a panic, wherever it lies. The
-- framebuffer keeps its size, and a pixel of it is the rectangle's where the rectangle covers it,
-- and else what it was.
pub blit_rgba-paints :
    (fb : Framebuffer) (x y rect_w rect_h : ℕ) (rgba : Bytes) (px py c : ℕ)
    → IsFramebuffer fb
    → rect_w * rect_h * 4 ≤ length rgba
    → px < fb.width
    → py < fb.height
    → c < 4
    → (fb' : Framebuffer) × (blit_rgba fb x y rect_w rect_h rgba ≡ ok fb')
      × (fb'.width ≡ fb.width)
      × (fb'.height ≡ fb.height)
      × IsFramebuffer fb'
      × (at fb' px py c ≡ (
          if inside x y rect_w rect_h px py
          then get_or rgba (((py - y) * rect_w + (px - x)) * 4 + c) 0
          else at fb px py c))
unfolding blit_rgba
blit_rgba-paints fb x y rect_w rect_h rgba px py c valid enough hp hy hc =
    let (fb', e, p) = blit_rows-Blits x y rect_w rgba rect_h 0 fb valid (omega arith) in
    (fb', e, p.0, p.1, p.2, rw (at_zero y) at (p.3 px py c hp hy hc))
