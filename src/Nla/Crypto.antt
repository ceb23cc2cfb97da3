-- ===== src/Nla/Crypto.antt =====
-- nla/crypto.rs: the UTF-16 text. `encode_utf16` of the standard library reads a Rust `String`, which
-- is the list of its UTF-8 bytes and always well formed.
use mathlib.Core.List.{flat_map}
use ferropipe_rdp.Common.{
  ◌/◌, ◌/◌, ◌-◌, ◌*◌, ◌-◌, ◌*◌, ◌+◌, ◌%◌, ◌+◌, ◌%◌, [], ◌==◌, ltb, ◌==◌, ◌++◌, ◌∷◌, if◌then◌else◌,
  List, ℕ, Bytes,
}
use ferropipe_rdp.Wire.{u16_le}

-- How many bytes of a character follow, and its bits so far.
pub record Scalar : Type 0 where
  pub follow : ℕ
  pub bits : ℕ

pub record ScalarStep : Type 0 where
  pub done : List ℕ
  pub state : Scalar

-- A byte ends a character, or continues one.
abbrev pub next_scalar : Scalar → ℕ → ScalarStep
next_scalar s b =
    if s.follow == 0
    then if ltb b 0x80
      then record { done = b ∷ []; state = record { follow = 0; bits = 0 } }
      else if ltb b 0xe0
      then record { done = []; state = record { follow = 1; bits = b % 32 } }
      else if ltb b 0xf0
      then record { done = []; state = record { follow = 2; bits = b % 16 } }
      else record { done = []; state = record { follow = 3; bits = b % 8 } }
    else if s.follow == 1
    then record { done = (s.bits * 64 + b % 64) ∷ []; state = record { follow = 0; bits = 0 } }
    else record { done = []; state = record { follow = s.follow - 1; bits = s.bits * 64 + b % 64 } }

unfoldable pub scalars : Scalar → Bytes → List ℕ
scalars s [] = []
scalars s (b ∷ bs) = let step = next_scalar s b in step.done ++ scalars step.state bs

-- The code units of a character.
abbrev pub utf16_units : ℕ → List ℕ
utf16_units c =
    if ltb c 0x10000
    then c ∷ []
    else (0xd800 + (c - 0x10000) / 1024) ∷ (0xdc00 + (c - 0x10000) % 1024) ∷ []

unfoldable pub unicode : Bytes → Bytes
unfolding scalars flat_map
unicode s = flat_map u16_le (flat_map utf16_units (scalars (record { follow = 0; bits = 0 }) s))
