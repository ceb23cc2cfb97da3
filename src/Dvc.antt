-- ===== src/Dvc.antt =====
-- dvc.rs: the PDUs of the dynamic virtual channels.
pub mod Laws
mod Checks
use ferropipe_rdp.Wire.{ByteOps}
use ferropipe_rdp.Common.{
  ◌/◌, ◌/◌, length, ltb, is_empty, bit_and, ◌^◌, ◌%◌, ◌^◌, ◌%◌, ◌==◌, ◌*◌, leb, ◌==◌, ◌*◌, ◌∷◌,
  if◌then◌else◌, bit_or, [], ℕ, Bytes,
}
use ferropipe_rdp.Outcome.{ok, ◌>>=◌, short, fail_if, ◌>>◌, Result}
use ferropipe_rdp.Common.Utf8.{from_utf8_lossy}

abbrev pub cmd_create : ℕ
cmd_create = 0x01

abbrev pub cmd_data_first : ℕ
cmd_data_first = 0x02

abbrev pub cmd_data : ℕ
cmd_data = 0x03

abbrev pub cmd_close : ℕ
cmd_close = 0x04

abbrev pub cmd_capability : ℕ
cmd_capability = 0x05

-- `(cmd << 4) | ((sp & 3) << 2) | (cb_chid & 3)` on a u8
unfoldable pub header_byte : ℕ → ℕ → ℕ → ℕ
header_byte cmd sp cb_chid =
    bit_or (bit_or (cmd * 2 ^ 4 % 256) (bit_and sp 0x03 * 2 ^ 2)) (bit_and cb_chid 0x03)

unfoldable pub cb_chid_for : ℕ → ℕ
cb_chid_for id = if leb id 0xFF then 0 else if leb id 0xFFFF then 1 else 2

pub data DvcPdu : Type 0 where
  capabilities : ℕ → DvcPdu
  create : ℕ → Bytes → DvcPdu
  data_pdu : ℕ → Bytes → DvcPdu
  data_first : ℕ → ℕ → Bytes → DvcPdu
  close : ℕ → DvcPdu
  other : ℕ → DvcPdu

-- `&buf[..end]` where `end` is the first zero byte, or the whole length.
unfoldable pub until_zero : Bytes → Bytes
until_zero [] = []
until_zero (b ∷ bs) = if b == 0 then [] else b ∷ until_zero bs

module _ (B : ByteOps) where
  unfoldable pub write_channel_id : Bytes → ℕ → ℕ → Bytes
  write_channel_id out id cb_chid =
      if cb_chid == 0
      then B.put_u8 out (id % 256)
      else if cb_chid == 1
      then B.put_u16_le out (id % 2 ^ 16)
      else B.put_u32_le out id

  unfoldable pub read_channel_id : Bytes → ℕ → Result (ℕ × Bytes)
  read_channel_id buf cb_chid = do
    let need = if cb_chid == 0 then 1 else if cb_chid == 1 then 2 else 4
    fail_if (ltb (length buf) need) (short need (length buf))
    if cb_chid == 0
        then B.get_u8 buf
        else if cb_chid == 1
        then B.get_u16_le buf
        else B.get_u32_le buf

  unfoldable pub parse_body : ℕ → ℕ → ℕ → Bytes → Result DvcPdu
  unfolding read_channel_id until_zero
  parse_body cmd sp cb_chid buf =
      if cmd == cmd_capability
      then (do
        fail_if (ltb (length buf) 3) (short 3 (length buf))
        (pad, b1) ← B.get_u8 buf
        (version, b2) ← B.get_u16_le b1
        ok (capabilities version))
      else if cmd == cmd_create
      then (do
        (channel_id, rest) ← read_channel_id buf cb_chid
        ok (create channel_id (from_utf8_lossy (until_zero rest))))
      else if cmd == cmd_data
      then (do (channel_id, rest) ← read_channel_id buf cb_chid; ok (data_pdu channel_id rest))
      else if cmd == cmd_data_first
      then (do
        (channel_id, b1) ← read_channel_id buf cb_chid
        (total_length, rest) ← read_channel_id b1 sp
        ok (data_first channel_id total_length rest))
      else if cmd == cmd_close
      then (do (channel_id, rest) ← read_channel_id buf cb_chid; ok (close channel_id))
      else ok (other cmd)

  unfoldable pub parse : Bytes → Result DvcPdu
  unfolding parse_body
  parse pdu = do
    fail_if (is_empty pdu) (short 1 0)
    (header, buf) ← B.get_u8 pdu
    parse_body (header / 2 ^ 4) (bit_and (header / 2 ^ 2) 0x03) (bit_and header 0x03) buf

  unfoldable pub capabilities_response : ℕ → Bytes
  unfolding header_byte
  capabilities_response version =
      let o1 = B.put_u8 [] (header_byte cmd_capability 0 0) in
      let o2 = B.put_u8 o1 0 in B.put_u16_le o2 version

  unfoldable pub create_response : ℕ → ℕ → Bytes
  unfolding header_byte cb_chid_for write_channel_id
  create_response channel_id status =
      let cb = cb_chid_for channel_id in
      let o1 = B.put_u8 [] (header_byte cmd_create 0 cb) in
      let o2 = write_channel_id o1 channel_id cb in B.put_i32_le o2 status

  unfoldable pub data_message : ℕ → Bytes → Bytes
  unfolding header_byte cb_chid_for write_channel_id
  data_message channel_id payload =
      let cb = cb_chid_for channel_id in
      let o1 = B.put_u8 [] (header_byte cmd_data 0 cb) in
      let o2 = write_channel_id o1 channel_id cb in B.extend_from_slice o2 payload
