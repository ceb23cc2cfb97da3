-- ===== src/Gcc.antt =====
-- gcc.rs: the data blocks of the server, and the GCC envelopes. The blocks that the client sends are
-- in Gcc/Client.antt.
pub mod Client
pub mod Blocks
pub mod Laws
pub mod Envelope
pub mod Panics
mod Checks
use ferropipe_rdp.Wire.{ByteOps}
use mathlib.Core.Option
use ferropipe_rdp.Common.{
  true, ◌||◌, ◌||◌, ◌++◌, ◌*◌, zero, ◌++◌, ◌*◌, ◌+◌, ◌+◌, ◌&&◌, take, ltb, leb, ◌&&◌, ◌==◌, suc,
  some, false, ◌==◌, length, if◌then◌else◌, ◌∷◌, ◌∷◌, none, List, Bool, ℕ, [], Option, Bytes,
}
use ferropipe_rdp.Mcs.Per.{write_length, read_length}
use ferropipe_rdp.Outcome.{
  panic, slice, slice_to, short, index, slice_from, protocol, fail_if, ◌>>◌, ◌>>=◌, ok, err, Result,
  Error,
}
use ferropipe_rdp.Mcs.Ber.{same_bytes}

abbrev pub sc_net : ℕ
sc_net = 0x0C03

abbrev pub sc_mcs_msgchannel : ℕ
sc_mcs_msgchannel = 0x0C04

abbrev pub gcc_connect_data_prefix : Bytes
gcc_connect_data_prefix = 0x00 ∷ 0x05 ∷ 0x00 ∷ 0x14 ∷ 0x7c ∷ 0x00 ∷ 0x01 ∷ []

-- b"Duca" and b"McDn"
abbrev pub h221_client_key : Bytes
h221_client_key = 0x44 ∷ 0x75 ∷ 0x63 ∷ 0x61 ∷ []

abbrev pub h221_server_key : Bytes
h221_server_key = 0x4d ∷ 0x63 ∷ 0x44 ∷ 0x6e ∷ []

-- `gcc.windows(4).position(|w| w == key)`
unfoldable pub find_key : Bytes → Option ℕ
find_key [] = none
find_key (b ∷ bs) =
    let later = find_key bs in
    if same_bytes (take 4 (b ∷ bs)) h221_server_key then some 0 else Option.map suc later

abbrev pub ok_or : Option ℕ → Error → Result ℕ
ok_or none e = err e
ok_or (some a) e = ok a

pub record ServerNetworkData : Type 0 where
  pub io_channel_id : ℕ
  pub channel_ids : List ℕ
  pub message_channel_id : Option ℕ

-- `ServerNetworkData::default()`
abbrev pub no_network_data : ServerNetworkData
no_network_data = record { io_channel_id = 0; channel_ids = []; message_channel_id = none }

-- What the walk over the blocks keeps, and what it starts from.
pub record BlockState : Type 0 where
  pub out : ServerNetworkData
  pub found_net : Bool
  pub buf : Bytes

abbrev pub at_start : Bytes → BlockState
at_start buf = record { out = no_network_data; found_net = false; buf = buf }

module _ (B : ByteOps) where
  unfoldable pub conference_create_request : Bytes → Bytes
  unfolding write_length
  conference_create_request data_blocks =
      let head =
        B.extend_from_slice
          (B.extend_from_slice [] (0x00 ∷ 0x08 ∷ 0x00 ∷ 0x10 ∷ 0x00 ∷ 0x01 ∷ 0xc0 ∷ 0x00 ∷ []))
          h221_client_key in
      let gcc = B.extend_from_slice (write_length B head (length data_blocks)) data_blocks in
      let out = B.extend_from_slice [] gcc_connect_data_prefix in
      B.extend_from_slice (write_length B out (length gcc)) gcc

  unfoldable pub parse_conference_create_response : Bytes → Result Bytes
  unfolding find_key read_length
  parse_conference_create_response gcc = do
    pos ← ok_or (find_key gcc) (protocol "GCC response missing McDn key")
    rest ← slice_from gcc (pos + 4)
    (len, blocks) ← read_length B rest
    fail_if (ltb (length blocks) len) (short len (length blocks))
    slice_to blocks len

  -- `for _ in 0..count`: the ids that are pushed.
  unfoldable pub read_ids : ℕ → Bytes → Result (List ℕ)
  read_ids zero b = ok []
  read_ids (suc n) b = do
    fail_if (ltb (length b) 2) (short 2 (length b))
    (channel_id, rest) ← B.get_u16_le b
    ids ← read_ids n rest
    ok (channel_id ∷ ids)

  -- The block SC_NET.
  unfoldable pub read_net : ServerNetworkData → Bytes → Result ServerNetworkData
  unfolding read_ids
  read_net out b = do
    fail_if (ltb (length b) 4) (short 4 (length b))
    (io_channel_id, b1) ← B.get_u16_le b
    (count, b2) ← B.get_u16_le b1
    ids ← read_ids count b2
    ok (record {
      io_channel_id = io_channel_id;
      channel_ids = out.channel_ids ++ ids;
      message_channel_id = out.message_channel_id;
    })

  -- The `match` on the block's type.
  unfoldable pub read_block : ServerNetworkData → ℕ → Bytes → Result ServerNetworkData
  unfolding read_net
  read_block out block_type body =
      if block_type == sc_net
      then read_net out body
      else if block_type == sc_mcs_msgchannel && leb 2 (length body)
      then (do
        lo ← index body 0
        hi ← index body 1
        ok (record {
          io_channel_id = out.io_channel_id;
          channel_ids = out.channel_ids;
          message_channel_id = some (lo + 256 * hi);
        }))
      else ok out

  -- A round of the loop, on at least 4 bytes.
  unfoldable pub read_round : BlockState → Result BlockState
  unfolding read_block
  read_round state = do
    let buf = state.buf
    t0 ← index buf 0
    t1 ← index buf 1
    l0 ← index buf 2
    l1 ← index buf 3
    let block_type = t0 + 256 * t1
    let len = l0 + 256 * l1
    fail_if (ltb len 4 || ltb (length buf) len) (protocol "bad SC data block length")
    body ← slice buf 4 len
    out ← read_block state.out block_type body
    rest ← slice_from buf len
    ok (record { out = out; found_net = state.found_net || block_type == sc_net; buf = rest })

  -- `while buf.len() >= 4`, on fuel. A block has 4 bytes at least. A walk that is not at its end when
  -- the fuel is used up counts as a panic.
  unfoldable pub read_blocks : ℕ → BlockState → Result BlockState
  unfolding read_round
  read_blocks zero state = if leb 4 (length state.buf) then panic else ok state
  read_blocks (suc fuel) state = elim (leb 4 (length state.buf)) [
    | false ↦ ok state
    | true ↦ read_round state >>= read_blocks fuel
  ]

  unfoldable pub parse_server_network_data : Bytes → Result ServerNetworkData
  unfolding read_blocks
  parse_server_network_data server_user_data = do
    state ← read_blocks (length server_user_data) (at_start server_user_data)
    if state.found_net then ok state.out else err (protocol "SC_NET block not found")
