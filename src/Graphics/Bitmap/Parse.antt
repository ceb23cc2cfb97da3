-- ===== src/Graphics/Bitmap/Parse.antt =====
-- graphics/bitmap.rs: the rectangles a server sends are parsed, and the pixels fill the rectangle.
use ferropipe_rdp.Wire.{ByteOps, ByteLaws, list_bytes, lawful-eq, u16_le}
use ferropipe_rdp.Graphics.Bitmap.{
  bitmap_compression, data_length, BitmapRect, read_rect, read_rects, parse_bitmap_update,
}
use ferropipe_rdp.Common.{
  ◌∙◌, ◌∙◌, suc, ap, drop_left, ◌!=◌, ◌∷◌, take_left, All, length-append, bit_and, List, refl, inr,
  append_assoc, inl, arith, Bool-cases, ◌/◌, [], ◌*◌, ◌≡◌, ◌≡◌, ◌+◌, ◌&&◌, ◌%◌, length,
  if◌then◌else◌, ◌^◌, Bool, ◌++◌, ℕ, Bytes, ◌<◌,
}
use ferropipe_rdp.Outcome.{◌>>=◌, Result, ok}

-- A rectangle as it is sent, where `right` and `bottom` are not used by the client, nor is the size
-- of the scan line and of the uncompressed data in the header of compressed data.
pub record SentRect : Type 0 where
  pub rect : BitmapRect
  pub right : ℕ
  pub bottom : ℕ
  pub with_header : Bool
  pub scan_width : ℕ
  pub uncompressed : ℕ

abbrev pub flags_of : SentRect → ℕ
flags_of s = if s.rect.compressed then (if s.with_header then 0x0001 else 0x0401) else 0

abbrev pub header_of : SentRect → Bytes
header_of s =
    if s.rect.compressed && s.with_header
    then u16_le 0
      ++ (u16_le (length s.rect.content) ++ (u16_le s.scan_width ++ u16_le s.uncompressed))
    else []

-- The length field counts the header of compressed data.
abbrev pub sent_length : SentRect → ℕ
sent_length s = length (header_of s) + length s.rect.content

abbrev pub IsSentRect : SentRect → Type 0
IsSentRect s =
    (s.rect.dest_left < 2 ^ 16)
    × (s.rect.dest_top < 2 ^ 16)
    × (s.rect.width < 2 ^ 16)
    × (s.rect.height < 2 ^ 16)
    × (s.rect.bits_per_pixel < 2 ^ 16)
    × (sent_length s < 2 ^ 16)

abbrev pub sent_rect : SentRect → Bytes
sent_rect s =
    u16_le s.rect.dest_left
    ++ (u16_le s.rect.dest_top
        ++ (u16_le s.right
            ++ (u16_le s.bottom
                ++ (u16_le s.rect.width
                    ++ (u16_le s.rect.height
                        ++ (u16_le s.rect.bits_per_pixel
                            ++ (u16_le (flags_of s)
                                ++ (u16_le (sent_length s)
                                    ++ (header_of s ++ s.rect.content)))))))))

from_u16_le : (v : ℕ) → v < 2 ^ 16 → v % 256 + 256 * (v / 256 % 256) ≡ v
from_u16_le v h = omega arith

from_flags : (s : SentRect) → flags_of s % 256 + 256 * (flags_of s / 256 % 256) ≡ flags_of s
from_flags s = ground arith

compressed_flag :
    (s : SentRect) → (bit_and (flags_of s) bitmap_compression != 0) ≡ s.rect.compressed
compressed_flag s = elim (Bool-cases s.rect.compressed) [
  | inr e ↦ rw e refl
  | inl e ↦ elim (Bool-cases s.with_header) [ inl k ↦ rw (e, k) refl | inr k ↦ rw (e, k) refl ]
]

data_length_lem :
    (s : SentRect) (rest : Bytes)
    → IsSentRect s
    → data_length list_bytes (flags_of s) (sent_length s) (header_of s ++ (s.rect.content ++ rest))
      ≡ ok (length s.rect.content, s.rect.content ++ rest)
data_length_lem s rest h = elim (Bool-cases s.rect.compressed) [
  | inr e ↦ rw e (ground arith)
  | inl e ↦ elim (Bool-cases s.with_header) [
    | inl k ↦ rw (e, k) (ground arith)
    | inr k ↦ rw (e, k) (ground arith)
  ]
]

read_rect-sent_rect :
    (s : SentRect) (rest : Bytes)
    → IsSentRect s
    → read_rect list_bytes (sent_rect s ++ rest) ≡ ok (s.rect, rest)
unfolding read_rect
read_rect-sent_rect s rest (ha, hb, hc, hd, he, hf) =
    rw
      (
        append_assoc (header_of s) s.rect.content rest,
        from_u16_le s.rect.dest_left ha,
        from_u16_le s.rect.dest_top hb,
        from_u16_le s.rect.width hc,
        from_u16_le s.rect.height hd,
        from_u16_le s.rect.bits_per_pixel he,
        from_flags s,
        from_u16_le (sent_length s) hf,
        data_length_lem s rest (ha, hb, hc, hd, he, hf),
        compressed_flag s,
        read_rect,
      )
      (ground (
        arith,
        length-append s.rect.content rest,
        take_left s.rect.content rest (length s.rect.content),
        drop_left s.rect.content rest (length s.rect.content),
      ))

abbrev pub sent_rects : List SentRect → Bytes
sent_rects [] = []
sent_rects (s ∷ ss) = sent_rect s ++ sent_rects ss

abbrev pub rects_of : List SentRect → List BitmapRect
rects_of [] = []
rects_of (s ∷ ss) = s.rect ∷ rects_of ss

read_rects-sent_rects :
    (ss : List SentRect) (rest : Bytes)
    → All IsSentRect ss
    → read_rects list_bytes (length ss) (sent_rects ss ++ rest) ≡ ok (rects_of ss)
unfolding read_rects
read_rects-sent_rects [] rest h = refl
read_rects-sent_rects (s ∷ ss) rest h =
    ap (λ b. read_rects list_bytes (suc (length ss)) b)
      (append_assoc (sent_rect s) (sent_rects ss) rest)
    ∙ ap
        (λ (r : Result (BitmapRect × Bytes)).
          r >>= λ p. read_rects list_bytes (length ss) p.1 >>= λ rs. ok (p.0 ∷ rs))
        (read_rect-sent_rect s (sent_rects ss ++ rest) h.0)
    ∙ ap (λ r. r >>= λ rs. ok (s.rect ∷ rs)) (read_rects-sent_rects ss rest h.1)

parse-sent_rects_list :
    (update_type : ℕ) (ss : List SentRect) (rest : Bytes)
    → length ss < 2 ^ 16
    → All IsSentRect ss
    → parse_bitmap_update list_bytes
        (u16_le update_type ++ (u16_le (length ss) ++ (sent_rects ss ++ rest)))
      ≡ ok (rects_of ss)
unfolding parse_bitmap_update
parse-sent_rects_list update_type ss rest h hs =
    rw (from_u16_le (length ss) h, read_rects-sent_rects ss rest hs, parse_bitmap_update)
      (ground arith)

-- parse_bitmap_update: the rectangles of an update are parsed as they were sent, compressed or not,
-- with the compression header or without it, whatever the update type and whatever follows.
pub parse_bitmap_update-sent_rects :
    {B : ByteOps} (L : ByteLaws B) (update_type : ℕ) (ss : List SentRect) (rest : Bytes)
    → length ss < 2 ^ 16
    → All IsSentRect ss
    → parse_bitmap_update B (u16_le update_type ++ (u16_le (length ss) ++ (sent_rects ss ++ rest)))
      ≡ ok (rects_of ss)
parse_bitmap_update-sent_rects L = rw (lawful-eq L) parse-sent_rects_list
