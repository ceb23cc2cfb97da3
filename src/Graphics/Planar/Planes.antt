-- ===== src/Graphics/Planar/Planes.antt =====
-- graphics/planar.rs: a run-length encoded plane, whose rows are differences to the row above.
use ferropipe_rdp.Graphics.Planar.Rows.{Segment, IsSegment, row_bytes, row_pixels}
use ferropipe_rdp.Common.{
  ◌*◌, ltb, if◌then◌else◌, IsByte, ◌%◌, ◌≤◌, ◌≡◌, ◌≤◌, ◌≡◌, [], ◌-◌, ◌++◌, ◌∷◌, ◌<◌, length, All,
  ◌<◌, ◌+◌, ℕ, List, Bytes,
}

-- The delta byte that takes the byte `a` of the row above to the byte `p`.
abbrev pub delta_byte : ℕ → ℕ → ℕ
delta_byte a p = let d = (p + 256 - a) % 256 in if ltb d 128 then d * 2 else (256 - d) * 2 - 1

abbrev pub delta_row : Bytes → Bytes → Bytes
delta_row (a ∷ above) (p ∷ row) = delta_byte a p ∷ delta_row above row
delta_row above row = []

abbrev pub delta_from : Bytes → List Bytes → List Bytes
delta_from above [] = []
delta_from above (row ∷ rows) = delta_row above row ∷ delta_from row rows

-- The rows of a plane as they are encoded: the first as it is, and the differences from then on.
abbrev pub delta_rows : List Bytes → List Bytes
delta_rows [] = []
delta_rows (row ∷ rows) = row ∷ delta_from row rows

-- A row of a plane: `width` bytes.
abbrev pub IsPlaneRow : ℕ → Bytes → Type 0
IsPlaneRow width row = (length row ≡ width) × All IsByte row

-- The rows that the segments of a plane stand for, and their encoding.
abbrev pub rows_pixels : List (List Segment) → List Bytes
rows_pixels [] = []
rows_pixels (ss ∷ es) = row_pixels 0 ss ∷ rows_pixels es

abbrev pub rows_bytes : List (List Segment) → Bytes
rows_bytes [] = []
rows_bytes (ss ∷ es) = row_bytes ss ++ rows_bytes es

abbrev pub IsEncodedRow : ℕ → List Segment → Type 0
IsEncodedRow width ss = All IsSegment ss × (length (row_pixels 0 ss) ≡ width)
