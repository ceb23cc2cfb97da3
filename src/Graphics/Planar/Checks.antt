-- ===== src/Graphics/Planar/Checks.antt =====
-- Runs of graphics/planar.rs, and its theorems at concrete inputs.
use ferropipe_rdp.Common.{refl, inr, ◌≡◌, ◌≡◌, inl, arith, [], ◌∷◌, List, Bytes, All}
use ferropipe_rdp.Graphics.Planar.{decode}
use ferropipe_rdp.Graphics.Planar.Rows.{Segment, IsSegment}
use ferropipe_rdp.Outcome.{ok}

decode_runs : decode (0 ∷ 1 ∷ 2 ∷ 3 ∷ 4 ∷ []) 1 1 ≡ ok (3 ∷ 2 ∷ 1 ∷ 4 ∷ [])
unfolding decode
decode_runs = refl

-- Two literals and a run of 16 of the last one.
abbrev row : List Segment
row = record { raw = 7 ∷ 8 ∷ []; run = 0 } ∷ record { raw = []; run = 16 } ∷ []

row-IsSegment : All IsSegment row
row-IsSegment = (
  (
    omega arith,
    inl (omega arith, omega arith, λ (e : 0 ≡ 1). omega arith, λ (e : 0 ≡ 2). omega arith),
  ),
  ((omega arith, inr (refl, omega arith, omega arith)), tt),
)

-- Two rows of two pixels, the second one 3 above and 2 below the first.
abbrev plane : List Bytes
plane = (10 ∷ 20 ∷ []) ∷ (13 ∷ 18 ∷ []) ∷ []

abbrev encoded : List (List Segment)
encoded =
    (record { raw = 10 ∷ 20 ∷ []; run = 0 } ∷ []) ∷ (record { raw = 6 ∷ 3 ∷ []; run = 0 } ∷ []) ∷ []

abbrev literal : Bytes → Segment
literal raw = record { raw = raw; run = 0 }
