-- ===== src/Egfx/Shows.antt =====
-- egfx.rs: the surface store beside the pictures that it shows.
use ferropipe_rdp.Common.{
  inr, inl, zero, ◌==◌, arith, Bool-cases, suc, replicate, refl, ◌≡◌, ◌<◌, ◌*◌, ◌≡◌, get_or, ◌<◌,
  ◌*◌, ℕ, some, List, none, [], Option, ◌∷◌,
}
use ferropipe_rdp.Graphics.Framebuffer.{Framebuffer, new_framebuffer}
use ferropipe_rdp.Graphics.Framebuffer.Blit.{IsFramebuffer, new_framebuffer-IsFramebuffer, at}
use ferropipe_rdp.Egfx.Screen.{Picture, Screen, changed, black}
use ferropipe_rdp.Egfx.Surfaces.{remove_surface, insert_surface, get_surface, SurfaceStore}

-- The framebuffer has the picture's size and its pixels.
abbrev pub Shows : Option Framebuffer → Option Picture → Type 0
Shows none none = Unit
Shows none (some picture) = ⊥
Shows (some fb) none = ⊥
Shows (some fb) (some picture) =
    IsFramebuffer fb
    × (fb.width ≡ picture.width)
    × (fb.height ≡ picture.height)
    × ((px py c : ℕ)
        → px < fb.width
        → py < fb.height
        → c < 4
        → at fb px py c ≡ picture.pixel px py c)

-- The store has the surfaces and the mappings of the screen.
abbrev pub Represents : SurfaceStore → Screen → Type 0
Represents store screen =
    ((id : ℕ) → Shows (get_surface store.surfaces id) (screen.surfaces id))
    × ((id : ℕ) → get_surface store.mapped id ≡ screen.mapped id)

-- Maps.
pub get_surface-remove_surface :
    {A : Type 0} (entries : List (ℕ × A)) (id id' : ℕ)
    → get_surface (remove_surface entries id) id' ≡ changed (get_surface entries) id none id'
get_surface-remove_surface [] id id' = ground arith
get_surface-remove_surface ((k, a) ∷ entries) id id' =
    ground (arith, get_surface-remove_surface entries id id')

pub get_surface-insert_surface :
    {A : Type 0} (entries : List (ℕ × A)) (id : ℕ) (a : A) (id' : ℕ)
    → get_surface (insert_surface entries id a) id' ≡ changed (get_surface entries) id (some a) id'
get_surface-insert_surface entries id a id' =
    ground (arith, get_surface-remove_surface entries id id')

pub inserted-Shows :
    (store : SurfaceStore) (screen : Screen) (id : ℕ) (fb : Framebuffer) (picture : Picture)
    → Shows (some fb) (some picture)
    → ((id' : ℕ) → Shows (get_surface store.surfaces id') (screen.surfaces id'))
    → (id' : ℕ)
    → Shows
        (get_surface (insert_surface store.surfaces id fb) id')
        (changed screen.surfaces id (some picture) id')
inserted-Shows store screen id fb picture s h id' =
    rw (get_surface-insert_surface store.surfaces id fb id')
      (elim (Bool-cases (id == id')) [ inl e ↦ rw e s | inr e ↦ rw e (h id') ])

pub removed-Shows :
    (store : SurfaceStore) (screen : Screen) (id : ℕ)
    → ((id' : ℕ) → Shows (get_surface store.surfaces id') (screen.surfaces id'))
    → (id' : ℕ)
    → Shows
        (get_surface (remove_surface store.surfaces id) id')
        (changed screen.surfaces id none id')
removed-Shows store screen id h id' =
    rw (get_surface-remove_surface store.surfaces id id')
      (elim (Bool-cases (id == id')) [ inl e ↦ rw e tt | inr e ↦ rw e (h id') ])

-- Pixels.
get_or-replicate : (n k : ℕ) → get_or {A = ℕ} (replicate n 0) k 0 ≡ 0
get_or-replicate zero k = refl
get_or-replicate (suc n) zero = refl
get_or-replicate (suc n) (suc k) = get_or-replicate n k

pub new_framebuffer-Shows :
    (width height : ℕ) → Shows (some (new_framebuffer width height)) (some (black width height))
unfolding new_framebuffer
new_framebuffer-Shows width height = (
  new_framebuffer-IsFramebuffer width height,
  refl,
  refl,
  λ px py c hx hy hc. get_or-replicate (width * height * 4) _,
)
