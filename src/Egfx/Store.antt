-- ===== src/Egfx/Store.antt =====
-- egfx.rs: the surface store shows what the commands mean.
use ferropipe_rdp.Common.{◌≢◌, ◌≢◌, ◌∙◌, ◌∙◌, ◌≡◌, ◌*◌, ◌≡◌, ◌*◌, ℕ, List, Bytes, [], Option, ◌∷◌}
use ferropipe_rdp.Graphics.Framebuffer.{Framebuffer}
use ferropipe_rdp.Egfx.{wire_to_surface_1, GfxCommand, Rect16}
use ferropipe_rdp.Egfx.Screen.{Picture, Screen, shown_all}
use ferropipe_rdp.Egfx.Surfaces.{apply_command, rect_height, rect_width, SurfaceStore}
use ferropipe_rdp.Outcome.{Result}
use ferropipe_rdp.Egfx.Shows.{Shows, Represents}

-- The same change to the store and to the screen, with the same result.
abbrev Follows : SurfaceStore × Result (Option ℕ) → Screen × Result (Option ℕ) → Type 0
Follows (store, r) (screen, r') = Represents store screen × (r ≡ r')

-- A command whose pixels are not in the planar codec (0x0A).
abbrev pub IsPlain : GfxCommand → Type 0
IsPlain (wire_to_surface_1 id codec_id format dest content) = codec_id ≢ 0x0A
IsPlain cmd = Unit

module _ (store : SurfaceStore) (screen : Screen) (id codec_id : ℕ) (dest : Rect16)
    (content : Bytes) (fb : Framebuffer) (picture : Picture) (h : Represents store screen) where
  abbrev size : ℕ
  size = rect_width dest * rect_height dest * 4

-- The commands of a session, one after the other, and the result of each.
abbrev pub apply_commands : SurfaceStore → List GfxCommand → SurfaceStore × List (Result (Option ℕ))
apply_commands store [] = (store, [])
apply_commands store (cmd ∷ cmds) =
    let after = apply_command store cmd in
    let rest = apply_commands after.0 cmds in (rest.0, after.1 ∷ rest.1)

-- The store after commands shows what they mean, and their results are the same.
abbrev pub ShowsAll : SurfaceStore → Screen → List GfxCommand → Type 0
ShowsAll store screen cmds =
    Represents (apply_commands store cmds).0 (shown_all screen cmds).0
    × ((apply_commands store cmds).1 ≡ (shown_all screen cmds).1)
