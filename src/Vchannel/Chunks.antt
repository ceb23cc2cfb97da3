-- ===== src/Vchannel/Chunks.antt =====
-- vchannel.rs: what one round of the loop of `chunk` sends, and how a chunk is received.
use ferropipe_rdp.Wire.{from_u32_le, u32_le, list_bytes}
use ferropipe_rdp.Vchannel.{chunk_loop, chunk_pdu, Reassembler, push, accept}
use ferropipe_rdp.Common.{
  zero, le→ltb, length-drop, take_all, ne→==, eq→==, lt→ltb, ◌-◌, min, ◌∷◌, take, drop, ◌≤◌, ◌≤◌,
  suc, length, ◌+◌, refl, arith, ◌/◌, ◌/◌, some, none, false, ◌^◌, ◌++◌, true, [], ◌%◌, ◌≡◌, ◌<◌,
  ◌≡◌, ◌<◌, Bytes, ℕ,
}
use ferropipe_rdp.Outcome.{ok}

-- The header and the part of one chunk.
abbrev pub chunk_bytes : ℕ → ℕ → Bytes → Bytes
chunk_bytes total flags part = u32_le (total % 2 ^ 32) ++ (u32_le flags ++ part)

pub push-chunk :
    (r : Reassembler) (total flags : ℕ) (part : Bytes)
    → flags < 256
    → (t : ℕ) × (push list_bytes r (chunk_pdu list_bytes (total % 2 ^ 32) flags part)
        ≡ accept r t flags part)
unfolding push
push-chunk r total flags part h = (
  from_u32_le (total % 2 ^ 32 % 256) (total % 2 ^ 32 / 256 % 256) (total % 2 ^ 32 / 65536 % 256)
      (total % 2 ^ 32 / 16777216 % 256),
  ground arith,
)

-- A chunk with FIRST starts a message whatever came before; one with LAST ends it.
pub accept_first_last :
    (r : Reassembler) (t : ℕ) (part : Bytes)
    → accept r t 3 part
      ≡ (record { buffer = []; expected = t; in_progress = false }, ok (some part))
unfolding accept
accept_first_last r t part = refl

pub accept_first :
    (r : Reassembler) (t : ℕ) (part : Bytes)
    → accept r t 1 part ≡ (record { buffer = part; expected = t; in_progress = true }, ok none)
unfolding accept
accept_first r t part = refl

pub accept_next :
    (r : Reassembler) (t : ℕ) (part : Bytes)
    → r.in_progress ≡ true
    → accept r t 0 part ≡ (record r { buffer = r.buffer ++ part }, ok none)
unfolding accept
accept_next r t part h = rw h

pub accept_last :
    (r : Reassembler) (t : ℕ) (part : Bytes)
    → r.in_progress ≡ true
    → accept r t 2 part
      ≡ (record r { buffer = []; in_progress = false }, ok (some (r.buffer ++ part)))
unfolding accept
accept_last r t part h = rw h

loop_end : (fuel : ℕ) (payload : Bytes) → chunk_loop list_bytes fuel payload (length payload) ≡ []
unfolding chunk_loop
loop_end zero payload = refl
loop_end (suc fuel) payload = rw (le→ltb (length payload) (length payload) (omega arith)) refl

-- The rounds of the loop: a first, a middle and a last chunk.
module _ (fuel : ℕ) (payload : Bytes) where
  pub round_first :
      1600 < length payload
      → chunk_loop list_bytes (suc fuel) payload 0
        ≡ chunk_pdu list_bytes (length payload % 2 ^ 32) 1 (take 1600 payload)
          ∷ chunk_loop list_bytes fuel payload 1600
  unfolding chunk_loop
  round_first h =
      let end : min (0 + 1600) (length payload) ≡ 1600 = omega arith in
      rw (end, lt→ltb 0 (length payload) (omega arith), ne→== 1600 (length payload) (omega arith))

  pub round_next :
      (offset : ℕ)
      → 0 < offset
      → offset + 1600 < length payload
      → chunk_loop list_bytes (suc fuel) payload offset
        ≡ chunk_pdu list_bytes (length payload % 2 ^ 32) 0 (take 1600 (drop offset payload))
          ∷ chunk_loop list_bytes fuel payload (offset + 1600)
  unfolding chunk_loop
  round_next offset p h =
      let end : min (offset + 1600) (length payload) ≡ offset + 1600 = omega arith in
      let size : offset + 1600 - offset ≡ 1600 = omega arith in
      rw (
        end,
        size,
        lt→ltb offset (length payload) (omega arith),
        ne→== (offset + 1600) (length payload) (omega arith),
        ne→== offset 0 (omega arith),
      )

  pub round_last :
      (offset : ℕ)
      → 0 < offset
      → offset < length payload
      → length payload ≤ offset + 1600
      → chunk_loop list_bytes (suc fuel) payload offset
        ≡ chunk_pdu list_bytes (length payload % 2 ^ 32) 2 (drop offset payload) ∷ []
  unfolding chunk_loop
  round_last offset p h k =
      let end : min (offset + 1600) (length payload) ≡ length payload = omega arith in
      rw (
        end,
        lt→ltb offset (length payload) h,
        eq→== (length payload) (length payload) refl,
        ne→== offset 0 (omega arith),
        loop_end fuel payload,
        take_all (length payload - offset) (drop offset payload)
            (omega (arith, length-drop offset payload)),
      )
