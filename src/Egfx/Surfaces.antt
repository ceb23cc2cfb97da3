-- ===== src/Egfx/Surfaces.antt =====
-- egfx.rs: the surfaces that the commands paint on. The decoder of src/graphics/planar.rs is that of
-- Graphics/Planar.antt.
use ferropipe_rdp.Graphics.Planar
use ferropipe_rdp.Outcome.{short, index, fail_if, ◌>>=◌, ◌>>◌}
use ferropipe_rdp.Graphics.Framebuffer.{Framebuffer, new_framebuffer, blit_rgba}
use ferropipe_rdp.Egfx.{
  wire_to_surface_1, map_surface_to_output, delete_surface, create_surface, Rect16, GfxCommand,
}
use ferropipe_rdp.Common.{
  ◌||◌, ◌||◌, zero, length, ◌+◌, ◌*◌, ltb, ◌*◌, suc, some, ◌==◌, none, if◌then◌else◌, ◌-◌, ◌∷◌,
  Option, Bytes, ◌-◌, ℕ, [], List,
}
use ferropipe_rdp.Outcome.{protocol, panic, err, ok, Result}

abbrev pub codecid_uncompressed : ℕ
codecid_uncompressed = 0x0000

abbrev pub codecid_planar : ℕ
codecid_planar = 0x000A

abbrev pub codecid_avc420 : ℕ
codecid_avc420 = 0x000B

abbrev pub codecid_avc444 : ℕ
codecid_avc444 = 0x000E

-- `saturating_sub`
abbrev pub rect_width : Rect16 → ℕ
rect_width rect = rect.right - rect.left

abbrev pub rect_height : Rect16 → ℕ
rect_height rect = rect.bottom - rect.top

-- A `HashMap` from surface ids.
module _ {A : Type 0} where
  abbrev pub get_surface : List (ℕ × A) → ℕ → Option A
  get_surface [] id = none
  get_surface ((k, a) ∷ entries) id =
      let later = get_surface entries id in if k == id then some a else later

  abbrev pub remove_surface : List (ℕ × A) → ℕ → List (ℕ × A)
  remove_surface [] id = []
  remove_surface ((k, a) ∷ entries) id =
      let later = remove_surface entries id in if k == id then later else (k, a) ∷ later

  abbrev pub insert_surface : List (ℕ × A) → ℕ → A → List (ℕ × A)
  insert_surface entries id a = (id, a) ∷ remove_surface entries id

pub record SurfaceStore : Type 0 where
  pub surfaces : List (ℕ × Framebuffer)
  pub mapped : List (ℕ × (ℕ × ℕ))

abbrev pub new_store : SurfaceStore
new_store = record { surfaces = []; mapped = [] }

-- `for i in 0..w * h`: pixel i of the data, stored as BGRA.
unfoldable pub bgra_to_rgba : ℕ → ℕ → Bytes → Result Bytes
bgra_to_rgba zero i content = ok []
bgra_to_rgba (suc n) i content = do
  r ← index content (i * 4 + 2)
  g ← index content (i * 4 + 1)
  b ← index content (i * 4)
  rest ← bgra_to_rgba n (i + 1) content
  ok (r ∷ g ∷ b ∷ 255 ∷ rest)

unfoldable pub decode_surface_bits : ℕ → Rect16 → Bytes → Result Bytes
unfolding bgra_to_rgba
decode_surface_bits codec_id dest content =
    let w = rect_width dest in
    let h = rect_height dest in
    if codec_id == codecid_uncompressed
    then (do
      fail_if (ltb (length content) (w * h * 4)) (short (w * h * 4) (length content))
      bgra_to_rgba (w * h) 0 content)
    else if codec_id == codecid_planar
    then Planar.decode content w h
    else if codec_id == codecid_avc420 || codec_id == codecid_avc444
    then err (protocol "EGFX H.264 codec requires an external decoder")
    else err (protocol "unsupported EGFX codec")

-- The pixels are decoded and copied into the surface.
unfoldable pub paint : Framebuffer → ℕ → Rect16 → Bytes → Result Framebuffer
unfolding decode_surface_bits
paint fb codec_id dest content = do
  rgba ← decode_surface_bits codec_id dest content
  blit_rgba fb dest.left dest.top (rect_width dest) (rect_height dest) rgba

abbrev pub painted : SurfaceStore → ℕ → Result Framebuffer → SurfaceStore × Result (Option ℕ)
painted store id (ok fb) =
    (record { surfaces = insert_surface store.surfaces id fb; mapped = store.mapped }, ok (some id))
painted store id (err e) = (store, err e)
painted store id panic = (store, panic)

-- The store, which stays as it was where the call fails, and the surface that changed.
unfoldable pub apply_command : SurfaceStore → GfxCommand → SurfaceStore × Result (Option ℕ)
unfolding paint
apply_command store (create_surface id width height format) = (
  record {
    surfaces = insert_surface store.surfaces id (new_framebuffer width height);
    mapped = store.mapped;
  },
  ok none,
)
apply_command store (delete_surface id) = (
  record { surfaces = remove_surface store.surfaces id; mapped = remove_surface store.mapped id },
  ok none,
)
apply_command store (map_surface_to_output id x y) =
    (record { surfaces = store.surfaces; mapped = insert_surface store.mapped id (x, y) }, ok none)
apply_command store (wire_to_surface_1 id codec_id format dest content) =
    elim (get_surface store.surfaces id) [
      | none ↦ (store, err (protocol "unknown surface"))
      | some fb ↦ painted store id (paint fb codec_id dest content)
    ]
apply_command store cmd = (store, ok none)

abbrev pub surface : SurfaceStore → ℕ → Option Framebuffer
surface store id = get_surface store.surfaces id

abbrev pub mapping : SurfaceStore → ℕ → Option (ℕ × ℕ)
mapping store id = get_surface store.mapped id
