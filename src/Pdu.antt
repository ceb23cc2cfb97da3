-- ===== src/Pdu.antt =====
-- pdu.rs: the share headers, and the PDUs of the connection's finalization.
pub mod Laws
mod Checks
use ferropipe_rdp.Wire.{all_of, u8, u32, u16, put, ByteOps}
use ferropipe_rdp.Common.{
  bit_and, bit_or, ◌||◌, ◌^◌, ◌||◌, ◌^◌, ◌%◌, ◌%◌, ◌+◌, ◌+◌, ◌∷◌, ◌∷◌, ltb, length, [], ℕ, Bytes,
}
use ferropipe_rdp.Outcome.{
  slice, ok, slice_from, protocol, index, ◌>>=◌, short, fail_if, ◌>>◌, Result,
}

abbrev pub pdutype_demandactive : ℕ
pdutype_demandactive = 0x1

abbrev pub pdutype_confirmactive : ℕ
pdutype_confirmactive = 0x3

abbrev pub pdutype_data : ℕ
pdutype_data = 0x7

abbrev pub protocol_version : ℕ
protocol_version = 0x10

abbrev pub pdutype2_control : ℕ
pdutype2_control = 20

abbrev pub pdutype2_synchronize : ℕ
pdutype2_synchronize = 31

abbrev pub pdutype2_fontlist : ℕ
pdutype2_fontlist = 39

abbrev pub stream_low : ℕ
stream_low = 1

abbrev pub ctrlaction_request_control : ℕ
ctrlaction_request_control = 0x0001

abbrev pub ctrlaction_cooperate : ℕ
ctrlaction_cooperate = 0x0004

pub record ShareControlHeader : Type 0 where
  pub pdu_type : ℕ
  pub pdu_source : ℕ

module _ (B : ByteOps) where
  unfoldable pub share_control : ℕ → ℕ → Bytes → Bytes
  share_control pdu_type pdu_source body = put B [] (
      u16 ((length body + 6) % 2 ^ 16)
      ∷ u16 (bit_or pdu_type protocol_version)
      ∷ u16 pdu_source
      ∷ all_of body
      ∷ [])

  unfoldable pub parse_share_control : Bytes → Result (ShareControlHeader × Bytes)
  parse_share_control buf = do
    fail_if (ltb (length buf) 6) (short 6 (length buf))
    (total, b1) ← B.get_u16_le buf
    (type_field, b2) ← B.get_u16_le b1
    (pdu_source, b3) ← B.get_u16_le b2
    fail_if (ltb total 6 || ltb (length buf) total) (protocol "bad share control totalLength")
    body ← slice buf 6 total
    ok (record { pdu_type = bit_and type_field 0x0f; pdu_source = pdu_source }, body)

  unfoldable pub share_data : ℕ → ℕ → ℕ → Bytes → Bytes
  unfolding share_control
  share_data pdu_source share_id pdu_type2 body =
      let data' = put B [] (
        u32 share_id
        ∷ u8 0
        ∷ u8 stream_low
        ∷ u16 ((length body + 4) % 2 ^ 16)
        ∷ u8 pdu_type2
        ∷ u8 0
        ∷ u16 0
        ∷ all_of body
        ∷ []) in
      share_control pdutype_data pdu_source data'

  unfoldable pub synchronize : ℕ → Bytes
  synchronize target_user = put B [] (u16 1 ∷ u16 target_user ∷ [])

  unfoldable pub control : ℕ → ℕ → ℕ → Bytes
  control action grant_id control_id = put B [] (u16 action ∷ u16 grant_id ∷ u32 control_id ∷ [])

  unfoldable pub font_list : Bytes
  font_list = put B [] (u16 0 ∷ u16 0 ∷ u16 0x0003 ∷ u16 0x0032 ∷ [])

unfoldable pub parse_share_data : Bytes → Result (ℕ × Bytes)
parse_share_data body = do
  fail_if (ltb (length body) 12) (short 12 (length body))
  pdu_type2 ← index body 8
  inner ← slice_from body 12
  ok (pdu_type2, inner)
