-- ===== src/Common/Utf8.antt =====
-- `String::from_utf8_lossy` of the standard library, on bytes: a Rust `String` is the list of its
-- UTF-8 bytes, and each maximal ill-formed part is replaced by U+FFFD.
use Prim.Native.Nat.{ℕ, zero, suc, ◌<◌}
use mathlib.Core.Path.{◌≡◌, refl, ap}
use mathlib.Core.Bool.{◌&&◌}
use mathlib.Core.List.{[], ◌∷◌, ◌++◌}
use ferropipe_rdp.Common.Tests.{ltb, leb, ◌==◌, if◌then◌else◌, lt→ltb}
use ferropipe_rdp.Common.Lists.{Bytes, All}

abbrev replacement : Bytes
replacement = 0xef ∷ 0xbf ∷ 0xbd ∷ []

-- Between characters, or inside one: the bytes so far, how many follow, and the range of the next.
pub data Decoder : Type 0 where
  start : Decoder
  inside : Bytes → ℕ → ℕ → ℕ → Decoder

pub record Step : Type 0 where
  pub emit : Bytes
  pub next : Decoder

-- The first byte of a character.
first_byte : ℕ → Step
first_byte b =
    if ltb b 0x80
    then record { emit = b ∷ []; next = start }
    else if leb 0xc2 b && leb b 0xdf
    then record { emit = []; next = inside (b ∷ []) 0 0x80 0xbf }
    else if b == 0xe0
    then record { emit = []; next = inside (b ∷ []) 1 0xa0 0xbf }
    else if b == 0xed
    then record { emit = []; next = inside (b ∷ []) 1 0x80 0x9f }
    else if leb 0xe1 b && leb b 0xef
    then record { emit = []; next = inside (b ∷ []) 1 0x80 0xbf }
    else if b == 0xf0
    then record { emit = []; next = inside (b ∷ []) 2 0x90 0xbf }
    else if b == 0xf4
    then record { emit = []; next = inside (b ∷ []) 2 0x80 0x8f }
    else if leb 0xf1 b && leb b 0xf3
    then record { emit = []; next = inside (b ∷ []) 2 0x80 0xbf }
    else record { emit = replacement; next = start }

decode_byte : Decoder → ℕ → Step
unfolding first_byte
decode_byte start b = first_byte b
decode_byte (inside seen zero lo hi) b =
    if leb lo b && leb b hi
    then record { emit = seen ++ (b ∷ []); next = start }
    else record { emit = replacement ++ (first_byte b).emit; next = (first_byte b).next }
decode_byte (inside seen (suc n) lo hi) b =
    if leb lo b && leb b hi
    then record { emit = []; next = inside (seen ++ (b ∷ [])) n 0x80 0xbf }
    else record { emit = replacement ++ (first_byte b).emit; next = (first_byte b).next }

lossy_from : Decoder → Bytes → Bytes
unfolding decode_byte
lossy_from start [] = []
lossy_from (inside seen n lo hi) [] = replacement
lossy_from d (b ∷ bs) = let s = decode_byte d b in s.emit ++ lossy_from s.next bs

unfoldable pub from_utf8_lossy : Bytes → Bytes
unfolding lossy_from
from_utf8_lossy = lossy_from start

-- The bytes of a Rust `String`, which the decoder leaves as they are.
abbrev pub IsUtf8 : Bytes → Type 0
IsUtf8 s = from_utf8_lossy s ≡ s

-- Text in ASCII is such a string.
pub ascii-IsUtf8 : (s : Bytes) → All (λ b. b < 128) s → IsUtf8 s
unfolding from_utf8_lossy
ascii-IsUtf8 [] h = refl
ascii-IsUtf8 (b ∷ bs) h = rw (lt→ltb b 0x80 h.0) (ap (λ r. b ∷ r) (ascii-IsUtf8 bs h.1))
