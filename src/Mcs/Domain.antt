-- ===== src/Mcs/Domain.antt =====
-- mcs/domain.rs: the MCS domain PDUs. A `u16` that overflows wraps, as in a release build.
pub mod Laws
mod Checks
use ferropipe_rdp.Mcs.Per.{write_length, read_length}
use ferropipe_rdp.Wire.{ByteOps}
use ferropipe_rdp.Common.{
  ◌||◌, ◌||◌, ◌==◌, ◌==◌, if◌then◌else◌, bit_and, ◌!=◌, ◌!=◌, ◌/◌, ◌/◌, ltb, is_empty, ◌-◌, length,
  ◌^◌, ◌%◌, ◌∷◌, [], ◌+◌, ◌*◌, ℕ, Bytes,
}
use ferropipe_rdp.Outcome.{
  slice, negotiation_failure, protocol, ok, ◌>>=◌, short, fail_if, ◌>>◌, Result,
}

abbrev pub mcs_base : ℕ
mcs_base = 1001

abbrev pub io_channel : ℕ
io_channel = 1003

abbrev pub erect_domain_request_index : ℕ
erect_domain_request_index = 1

abbrev pub attach_user_request_index : ℕ
attach_user_request_index = 10

abbrev pub attach_user_confirm_index : ℕ
attach_user_confirm_index = 11

abbrev pub channel_join_request_index : ℕ
channel_join_request_index = 14

abbrev pub channel_join_confirm_index : ℕ
channel_join_confirm_index = 15

abbrev pub send_data_request_index : ℕ
send_data_request_index = 25

abbrev pub send_data_indication_index : ℕ
send_data_indication_index = 26

-- `index << 2` on a u8
abbrev pub choice : ℕ → ℕ
choice index = index * 4 % 256

unfoldable pub erect_domain_request : Bytes
erect_domain_request = choice erect_domain_request_index ∷ 0x01 ∷ 0x00 ∷ 0x01 ∷ 0x00 ∷ []

unfoldable pub attach_user_request : Bytes
attach_user_request = choice attach_user_request_index ∷ []

-- `user_id - MCS_BASE` on u16
abbrev pub initiator : ℕ → ℕ
initiator user_id = (user_id + 2 ^ 16 - mcs_base) % 2 ^ 16

module _ (B : ByteOps) where
  unfoldable pub parse_attach_user_confirm : Bytes → Result ℕ
  parse_attach_user_confirm buf = do
    fail_if (ltb (length buf) 2) (short 2 (length buf))
    (tag, b) ← B.get_u8 buf
    fail_if (tag / 4 != attach_user_confirm_index) (protocol "not an Attach User Confirm")
    (result, b') ← B.get_u8 b
    fail_if (result != 0) (negotiation_failure "Attach User Confirm result not successful")
    fail_if (bit_and tag 0x02 == 0 || ltb (length b') 2)
        (protocol "Attach User Confirm missing initiator")
    (user, rest) ← B.get_u16 b'
    ok ((user + mcs_base) % 2 ^ 16)

  unfoldable pub channel_join_request : ℕ → ℕ → Bytes
  channel_join_request user_id channel_id =
      B.put_u16 (B.put_u16 (B.put_u8 [] (choice channel_join_request_index)) (initiator user_id))
        channel_id

  abbrev pub confirmed_channel : ℕ → ℕ → Bytes → Result ℕ
  confirmed_channel tag requested b = do
    fail_if (ltb (length b) 2) (short 2 (length b))
    (channel_id, rest) ← B.get_u16 b
    ok channel_id

  unfoldable pub parse_channel_join_confirm : Bytes → Result ℕ
  parse_channel_join_confirm buf = do
    fail_if (ltb (length buf) 2) (short 2 (length buf))
    (tag, b) ← B.get_u8 buf
    fail_if (tag / 4 != channel_join_confirm_index) (protocol "not a Channel Join Confirm")
    (result, b1) ← B.get_u8 b
    fail_if (result != 0) (negotiation_failure "Channel Join Confirm result not successful")
    fail_if (ltb (length b1) 4) (short 4 (length b1))
    (from, b2) ← B.get_u16 b1
    (requested, b3) ← B.get_u16 b2
    if bit_and tag 0x02 != 0 then confirmed_channel tag requested b3 else ok requested

  unfoldable pub send_data_request : ℕ → ℕ → Bytes → Bytes
  send_data_request user_id channel_id payload =
      let head =
        B.put_u8
          (B.put_u16 (B.put_u16 (B.put_u8 [] (choice send_data_request_index)) (initiator user_id))
            channel_id)
          0x70 in
      B.extend_from_slice (write_length B head (length payload)) payload

  -- The channel, and the payload as a part of the buffer.
  unfoldable pub parse_send_data_indication : Bytes → Result (ℕ × Bytes)
  parse_send_data_indication buf = do
    fail_if (is_empty buf) (short 1 0)
    (tag, b) ← B.get_u8 buf
    fail_if (tag / 4 != send_data_indication_index) (protocol "not a Send Data Indication")
    fail_if (ltb (length b) 5) (short 5 (length b))
    (from, b1) ← B.get_u16 b
    (channel_id, b2) ← B.get_u16 b1
    (priority, b3) ← B.get_u8 b2
    (len, b4) ← read_length B b3
    fail_if (ltb (length b4) len) (short len (length b4))
    let consumed = length buf - length b4
    payload ← slice buf consumed (consumed + len)
    ok (channel_id, payload)
