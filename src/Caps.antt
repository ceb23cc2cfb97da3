-- ===== src/Caps.antt =====
-- caps.rs: the capability sets, Demand Active and Confirm Active. The sets are in Caps/Sets.antt.
pub mod Sets
pub mod Laws
mod Checks
use ferropipe_rdp.Wire.{all_of, u32, u16, put, ByteOps}
use mathlib.Core.List.{flatten}
use ferropipe_rdp.Common.{
  zero, ◌-◌, ◌-◌, ◌||◌, ◌||◌, ◌^◌, ◌^◌, ◌+◌, ◌%◌, ◌+◌, ◌%◌, ltb, length, suc, [], ◌∷◌, List, ℕ,
  Bytes,
}
use ferropipe_rdp.Pdu.{pdutype_confirmactive, share_control}
use ferropipe_rdp.Outcome.{slice_to, protocol, ◌>>=◌, short, fail_if, ◌>>◌, ok, Result}

pub record DemandActive : Type 0 where
  pub share_id : ℕ
  pub capability_sets : List (ℕ × Bytes)

-- b"MSTSC\0"
abbrev pub source_descriptor : Bytes
source_descriptor = 0x4d ∷ 0x53 ∷ 0x54 ∷ 0x53 ∷ 0x43 ∷ 0x00 ∷ []

module _ (B : ByteOps) where
  -- The length field counts its own header.
  unfoldable pub capability_set : ℕ → Bytes → Bytes
  capability_set cap_type data' =
      put B [] (u16 cap_type ∷ u16 ((length data' + 4) % 2 ^ 16) ∷ all_of data' ∷ [])

  unfoldable pub confirm_active : ℕ → ℕ → List Bytes → Bytes
  unfolding share_control
  confirm_active pdu_source share_id capability_sets =
      let combined_caps = flatten capability_sets in
      let body = put B [] (
        u32 share_id
        ∷ u16 0x03EA
        ∷ u16 (length source_descriptor % 2 ^ 16)
        ∷ u16 ((length combined_caps + 4) % 2 ^ 16)
        ∷ all_of source_descriptor
        ∷ u16 (length capability_sets % 2 ^ 16)
        ∷ u16 0
        ∷ all_of combined_caps
        ∷ []) in
      share_control B pdutype_confirmactive pdu_source body

  unfoldable pub read_set : Bytes → Result ((ℕ × Bytes) × Bytes)
  read_set b = do
    fail_if (ltb (length b) 4) (short 4 (length b))
    (cap_type, b1) ← B.get_u16_le b
    (cap_len, b2) ← B.get_u16_le b1
    fail_if (ltb cap_len 4 || ltb (length b2) (cap_len - 4)) (protocol "bad capability set length")
    data' ← slice_to b2 (cap_len - 4)
    b3 ← B.advance b2 (cap_len - 4)
    ok ((cap_type, data'), b3)

  -- `for _ in 0..number_caps`
  unfoldable pub read_sets : ℕ → Bytes → Result (List (ℕ × Bytes))
  unfolding read_set
  read_sets zero b = ok []
  read_sets (suc n) b = do (set, rest) ← read_set b; sets ← read_sets n rest; ok (set ∷ sets)

  -- From `number_caps` on.
  unfoldable pub read_capabilities : ℕ → Bytes → Result DemandActive
  unfolding read_sets
  read_capabilities share_id b = do
    (number_caps, b1) ← B.get_u16_le b
    b2 ← B.advance b1 2
    sets ← read_sets number_caps b2
    ok (record { share_id = share_id; capability_sets = sets })

  unfoldable pub parse_demand_active : Bytes → Result DemandActive
  unfolding read_capabilities
  parse_demand_active body = do
    fail_if (ltb (length body) 8) (short 8 (length body))
    (share_id, b1) ← B.get_u32_le body
    (len_source, b2) ← B.get_u16_le b1
    (len_combined, b3) ← B.get_u16_le b2
    fail_if (ltb (length b3) (len_source + 4)) (short (len_source + 4) (length b3))
    b4 ← B.advance b3 len_source
    read_capabilities share_id b4
