-- ===== src/Graphics/Planar/Rows.antt =====
-- graphics/planar.rs: one row of a run-length encoded plane.
use ferropipe_rdp.Graphics.Planar.{Row, control_counts, take_literals, repeat_last, decode_row}
use ferropipe_rdp.Common.{
  ltb→le, ltb→lt, Bool-cases, le→ltb, inr, lt→ltb, ◌⊎◌, ◌⊎◌, length-replicate, inl, zero,
  append_assoc, ◌∙◌, ◌∙◌, suc, length-append, append-nil, sym, false, leb, ap, All, ◌^◌, ◌/◌, ◌-◌,
  ltb, arith, ◌≢◌, ◌≡◌, ◌≢◌, ◌≡◌, replicate, if◌then◌else◌, [], ◌≤◌, ◌∷◌, ◌<◌, ◌≤◌, ◌<◌, ◌++◌, ◌+◌,
  ◌*◌, ℕ, length, List, Bytes,
}
use ferropipe_rdp.Outcome.{Result, ◌>>=◌, ok}
use ferropipe_rdp.Common.Bits.{bit_and-0x0f}

-- A segment of an encoded row: literal bytes, and then a run that repeats the last byte.
pub record Segment : Type 0 where
  pub raw : Bytes
  pub run : ℕ

-- What a control byte can hold: both counts in four bits, where the runs 1 and 2 stand for a run of
-- 16 to 47 without literals.
abbrev pub IsSegment : Segment → Type 0
IsSegment s =
    (1 ≤ length s.raw + s.run)
    × (((length s.raw < 16) × (s.run < 16) × (s.run ≢ 1) × (s.run ≢ 2))
        ⊎ ((length s.raw ≡ 0) × (16 ≤ s.run) × (s.run < 48)))

abbrev pub control_of : Segment → ℕ
control_of s =
    if ltb s.run 16
    then length s.raw * 16 + s.run
    else if ltb s.run 32
    then (s.run - 16) * 16 + 1
    else (s.run - 32) * 16 + 2

abbrev pub last_of : ℕ → Bytes → ℕ
last_of last [] = last
last_of last (b ∷ bs) = last_of b bs

-- The pixels of a segment that follows the byte `last`.
abbrev pub segment_pixels : ℕ → Segment → Bytes
segment_pixels last s = s.raw ++ replicate s.run (last_of last s.raw)

abbrev pub row_bytes : List Segment → Bytes
row_bytes [] = []
row_bytes (s ∷ ss) = control_of s ∷ (s.raw ++ row_bytes ss)

abbrev pub row_pixels : ℕ → List Segment → Bytes
row_pixels last [] = []
row_pixels last (s ∷ ss) = segment_pixels last s ++ row_pixels (last_of last s.raw) ss

abbrev pub row_last : ℕ → List Segment → ℕ
row_last last [] = last
row_last last (s ∷ ss) = row_last (last_of last s.raw) ss

control_counts-short :
    (m n : ℕ) → m < 16 → n < 16 → n ≢ 1 → n ≢ 2 → control_counts (m * 16 + n) ≡ (m, n)
unfolding control_counts
control_counts-short m n hm hn h1 h2 =
    ground (arith, bit_and-0x0f (m * 16 + n), bit_and-0x0f ((m * 16 + n) / 2 ^ 4))

control_counts-16 : (n : ℕ) → 16 ≤ n → n < 32 → control_counts ((n - 16) * 16 + 1) ≡ (0, n)
unfolding control_counts
control_counts-16 n h k =
    ground (arith, bit_and-0x0f ((n - 16) * 16 + 1), bit_and-0x0f (((n - 16) * 16 + 1) / 2 ^ 4))

control_counts-32 : (n : ℕ) → 32 ≤ n → n < 48 → control_counts ((n - 32) * 16 + 2) ≡ (0, n)
unfolding control_counts
control_counts-32 n h k =
    ground (arith, bit_and-0x0f ((n - 32) * 16 + 2), bit_and-0x0f (((n - 32) * 16 + 2) / 2 ^ 4))

pub control_counts-control_of :
    (s : Segment) → IsSegment s → control_counts (control_of s) ≡ (length s.raw, s.run)
control_counts-control_of s (h, inl (a, b, c, d)) =
    rw (lt→ltb s.run 16 b) (control_counts-short (length s.raw) s.run a b c d)
control_counts-control_of s (h, inr (a, b, c)) = rw (le→ltb s.run 16 b) (
    rw a (elim (Bool-cases (ltb s.run 32)) [
      | inl e ↦ rw e (control_counts-16 s.run b (ltb→lt s.run 32 e))
      | inr e ↦ rw e (control_counts-32 s.run (ltb→le s.run 32 e) c)
    ]))

leb-full : (width n : ℕ) → n < width → leb width n ≡ false
leb-full width n h = ground arith

take_literals_lem :
    (width : ℕ) (raw rest done : Bytes) (last : ℕ)
    → length done + length raw ≤ width
    → take_literals width (length raw) (record { input = raw ++ rest; done = done; last = last })
      ≡ ok (record { input = rest; done = done ++ raw; last = last_of last raw })
unfolding take_literals
take_literals_lem width [] rest done last h =
    ap (λ d. ok (record { input = rest; done = d; last = last })) (sym (append-nil done))
take_literals_lem width (b ∷ raw) rest done last h =
    rw (leb-full width (length done) (omega arith), take_literals)
      (take_literals_lem width raw rest (done ++ (b ∷ [])) b
          (omega (arith, length-append done (b ∷ [])))
        ∙ ap (λ d. ok (record { input = rest; done = d; last = last_of b raw }))
            (append_assoc done (b ∷ []) raw))

repeat_last_lem :
    (width n : ℕ) (r : Row)
    → length r.done + n ≤ width
    → repeat_last width n r ≡ ok (record r { done = r.done ++ replicate n r.last })
unfolding repeat_last
repeat_last_lem width zero r h = ap (λ d. ok (record r { done = d })) (sym (append-nil r.done))
repeat_last_lem width (suc n) r h =
    rw (leb-full width (length r.done) (omega arith), repeat_last)
      (repeat_last_lem width n (record r { done = r.done ++ (r.last ∷ []) })
          (omega (arith, length-append r.done (r.last ∷ [])))
        ∙ ap (λ d. ok (record r { done = d }))
            (append_assoc r.done (r.last ∷ []) (replicate n r.last)))

-- A round of the loop: the literals of a segment and its run.
round_lem :
    (width last : ℕ) (s : Segment) (rest done : Bytes)
    → IsSegment s
    → length done + length (segment_pixels last s) ≤ width
    → (take_literals width
          (control_counts (control_of s)).0
          (record { input = s.raw ++ rest; done = done; last = last })
        >>= repeat_last width (control_counts (control_of s)).1)
      ≡ ok
          (record { input = rest; done = done ++ segment_pixels last s; last = last_of last s.raw })
round_lem width last s rest done h k =
    let l = length-append s.raw (replicate s.run (last_of last s.raw)) in
    let l' = length-replicate s.run (last_of last s.raw) in
    rw (control_counts-control_of s h) (
      rw (take_literals_lem width s.raw rest done last (omega arith)) (
        repeat_last_lem width s.run
          (record { input = rest; done = done ++ s.raw; last = last_of last s.raw })
          (omega (arith, length-append done s.raw))
        ∙ ap (λ d. ok (record { input = rest; done = d; last = last_of last s.raw }))
            (append_assoc done s.raw (replicate s.run (last_of last s.raw)))))

abbrev row_at : Bytes → Bytes → ℕ → Result Row
row_at rest done last = ok (record { input = rest; done = done; last = last })

done_lem : (last : ℕ) (rest done : Bytes) → row_at rest done last ≡ row_at rest (done ++ []) last
done_lem last rest done =
    ap (λ d. ok (record { input = rest; done = d; last = last })) (sym (append-nil done))

segment_pixels-length : (last : ℕ) (s : Segment) → IsSegment s → 1 ≤ length (segment_pixels last s)
segment_pixels-length last s h = omega (
  arith,
  h.0,
  length-append s.raw (replicate s.run (last_of last s.raw)),
  length-replicate s.run (last_of last s.raw),
)

-- decode_row: an encoded row is decoded to the pixels its segments stand for, whatever follows it.
pub decode_row-segments :
    (have width fuel last : ℕ) (ss : List Segment) (rest done : Bytes)
    → All IsSegment ss
    → length done + length (row_pixels last ss) ≡ width
    → length ss ≤ fuel
    → decode_row have width fuel (record { input = row_bytes ss ++ rest; done = done; last = last })
      ≡ ok (record { input = rest; done = done ++ row_pixels last ss; last = row_last last ss })
unfolding decode_row
decode_row-segments have width zero last [] rest done h k b =
    rw (le→ltb (length done) width (omega arith), decode_row) (done_lem last rest done)
decode_row-segments have width (suc fuel) last [] rest done h k b =
    rw (le→ltb (length done) width (omega arith), decode_row) (done_lem last rest done)
decode_row-segments have width zero last (s ∷ ss) rest done h k b = absurd (omega arith)
decode_row-segments have width (suc fuel) last (s ∷ ss) rest done h k b =
    let n = length-append (segment_pixels last s) (row_pixels (last_of last s.raw) ss) in
    let n' = length-append done (segment_pixels last s) in
    let one = segment_pixels-length last s h.0 in
    rw
      (lt→ltb (length done) width (omega arith), append_assoc s.raw (row_bytes ss) rest, decode_row)
      (ap (λ r. r >>= decode_row have width fuel)
          (round_lem width last s (row_bytes ss ++ rest) done h.0 (omega arith))
        ∙ decode_row-segments have width fuel (last_of last s.raw) ss rest
            (done ++ segment_pixels last s) h.1 (omega arith) (omega arith)
        ∙ ap (λ d. ok (record { input = rest; done = d; last = row_last (last_of last s.raw) ss }))
            (append_assoc done (segment_pixels last s) (row_pixels (last_of last s.raw) ss)))
