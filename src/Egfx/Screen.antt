-- ===== src/Egfx/Screen.antt =====
-- egfx.rs: what the commands mean for the surfaces, as pictures by their ids.
use ferropipe_rdp.Common.{
  ◌||◌, length, ◌+◌, ltb, get_or, ◌*◌, ◌==◌, ◌*◌, ◌-◌, some, if◌then◌else◌, ◌-◌, ℕ, List, Bytes,
  none, [], Option, ◌∷◌,
}
use ferropipe_rdp.Graphics.Framebuffer.Blit.{inside}
use ferropipe_rdp.Egfx.{
  wire_to_surface_1, map_surface_to_output, delete_surface, create_surface, GfxCommand, Rect16,
}
use ferropipe_rdp.Outcome.{short, protocol, err, ok, Result}

-- A size, and the byte `c` of the RGBA pixel (px, py).
pub record Picture : Type 0 where
  pub width : ℕ
  pub height : ℕ
  pub pixel : ℕ → ℕ → ℕ → ℕ

-- The surfaces, and where they are mapped.
pub record Screen : Type 0 where
  pub surfaces : ℕ → Option Picture
  pub mapped : ℕ → Option (ℕ × ℕ)

abbrev pub empty_screen : Screen
empty_screen = record { surfaces = λ id. none; mapped = λ id. none }

-- A function changed at one id.
abbrev pub changed : {A : Type 0} → (ℕ → Option A) → ℕ → Option A → ℕ → Option A
changed f id a id' = if id == id' then a else f id'

abbrev pub black : ℕ → ℕ → Picture
black width height = record { width = width; height = height; pixel = λ px py c. 0 }

-- Pixel `n` of data in the order blue, green, red and a byte that is not used; it is opaque.
abbrev pub colour : Bytes → ℕ → ℕ → ℕ
colour content n c =
    if c == 0
    then get_or content (n * 4 + 2) 0
    else if c == 1
    then get_or content (n * 4 + 1) 0
    else if c == 2
    then get_or content (n * 4) 0
    else 255

-- The picture with the rows of the data in the rectangle.
abbrev pub overlaid : Picture → Rect16 → Bytes → Picture
overlaid picture dest content =
    let w = dest.right - dest.left in
    let h = dest.bottom - dest.top in
    record {
      width = picture.width;
      height = picture.height;
      pixel = λ px py c.
          if inside dest.left dest.top w h px py
          then colour content ((py - dest.top) * w + (px - dest.left)) c
          else picture.pixel px py c;
    }

-- Data that is not compressed (0) is painted if it is all there; H.264 (0x0B, 0x0E) and unknown
-- codecs are errors.
abbrev pub drawn : Screen → ℕ → ℕ → Rect16 → Bytes → Picture → Screen × Result (Option ℕ)
drawn screen id codec_id dest content picture =
    let size = (dest.right - dest.left) * (dest.bottom - dest.top) * 4 in
    if codec_id == 0
    then if ltb (length content) size then (screen, err (short size (length content))) else (
      record {
        surfaces = changed screen.surfaces id (some (overlaid picture dest content));
        mapped = screen.mapped;
      },
      ok (some id),
    )
    else if codec_id == 0x0B || codec_id == 0x0E
    then (screen, err (protocol "EGFX H.264 codec requires an external decoder"))
    else (screen, err (protocol "unsupported EGFX codec"))

-- One command: the screen after it, and the surface that changed.
abbrev pub shown : Screen → GfxCommand → Screen × Result (Option ℕ)
shown screen (create_surface id width height format) = (
  record {
    surfaces = changed screen.surfaces id (some (black width height));
    mapped = screen.mapped;
  },
  ok none,
)
shown screen (delete_surface id) = (
  record { surfaces = changed screen.surfaces id none; mapped = changed screen.mapped id none },
  ok none,
)
shown screen (map_surface_to_output id x y) = (
  record { surfaces = screen.surfaces; mapped = changed screen.mapped id (some (x, y)) },
  ok none,
)
shown screen (wire_to_surface_1 id codec_id format dest content) = elim (screen.surfaces id) [
  | none ↦ (screen, err (protocol "unknown surface"))
  | some picture ↦ drawn screen id codec_id dest content picture
]
shown screen cmd = (screen, ok none)

-- The commands of a session, one after the other, and the result of each.
abbrev pub shown_all : Screen → List GfxCommand → Screen × List (Result (Option ℕ))
shown_all screen [] = (screen, [])
shown_all screen (cmd ∷ cmds) =
    let after = shown screen cmd in let rest = shown_all after.0 cmds in (rest.0, after.1 ∷ rest.1)
