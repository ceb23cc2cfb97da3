-- ===== src/Gcc/Blocks.antt =====
-- gcc.rs: the data blocks as the server means them, and what they come to.
use mathlib.Core.List.{flat_map}
use ferropipe_rdp.Wire.{u16_le}
use ferropipe_rdp.Gcc.{ServerNetworkData, sc_net, sc_mcs_msgchannel, no_network_data}
use ferropipe_rdp.Common.{
  ◌⊎◌, ◌⊎◌, ◌≢◌, ◌≢◌, ◌||◌, if◌then◌else◌, [], All, ◌+◌, ◌∷◌, ◌^◌, true, some, length, false, ◌^◌,
  ℕ, List, Bytes, Bool, ◌<◌, ◌++◌,
}
use ferropipe_rdp.Outcome.{protocol, err, ok, Result}

-- The network block with its I/O channel, its channels and padding; the message channel with what
-- may follow its id; any other block.
pub data ServerBlock : Type 0 where
  network : ℕ → List ℕ → Bytes → ServerBlock
  message_channel : ℕ → Bytes → ServerBlock
  other_block : ℕ → Bytes → ServerBlock

abbrev pub type_of : ServerBlock → ℕ
type_of (network io ids pad) = sc_net
type_of (message_channel id more) = sc_mcs_msgchannel
type_of (other_block ty body) = ty

abbrev pub body_of : ServerBlock → Bytes
body_of (network io ids pad) = u16_le io ++ (u16_le (length ids) ++ (flat_map u16_le ids ++ pad))
body_of (message_channel id more) = u16_le id ++ more
body_of (other_block ty body) = body

abbrev pub IsU16 : ℕ → Type 0
IsU16 v = v < 2 ^ 16

-- A block fits in its length field. A message channel block too short for an id is another block.
abbrev pub IsServerBlock : ServerBlock → Type 0
IsServerBlock (network io ids pad) =
    (io < 2 ^ 16)
    × (length ids < 2 ^ 16)
    × All IsU16 ids
    × (length (body_of (network io ids pad)) + 4 < 2 ^ 16)
IsServerBlock (message_channel id more) = (id < 2 ^ 16) × (length more + 6 < 2 ^ 16)
IsServerBlock (other_block ty body) =
    (ty < 2 ^ 16)
    × (ty ≢ sc_net)
    × ((ty ≢ sc_mcs_msgchannel) ⊎ (length body < 2))
    × (length body + 4 < 2 ^ 16)

abbrev pub sent_block : ServerBlock → Bytes
sent_block b = u16_le (type_of b) ++ (u16_le (length (body_of b) + 4) ++ body_of b)

abbrev pub sent_blocks : List ServerBlock → Bytes
sent_blocks [] = []
sent_blocks (b ∷ bs) = sent_block b ++ sent_blocks bs

-- What a block adds. The channels of a second network block follow those of the first.
abbrev pub with_block : ServerNetworkData → ServerBlock → ServerNetworkData
with_block out (network io ids pad) = record {
  io_channel_id = io;
  channel_ids = out.channel_ids ++ ids;
  message_channel_id = out.message_channel_id;
}
with_block out (message_channel id more) = record {
  io_channel_id = out.io_channel_id;
  channel_ids = out.channel_ids;
  message_channel_id = some id;
}
with_block out (other_block ty body) = out

abbrev pub with_blocks : ServerNetworkData → List ServerBlock → ServerNetworkData
with_blocks out [] = out
with_blocks out (b ∷ bs) = with_blocks (with_block out b) bs

abbrev pub is_network : ServerBlock → Bool
is_network (network io ids pad) = true
is_network (message_channel id more) = false
is_network (other_block ty body) = false

-- A network block is among those so far.
abbrev pub found_after : Bool → List ServerBlock → Bool
found_after found [] = found
found_after found (b ∷ bs) = found_after (found || is_network b) bs

-- What the blocks mean to the client.
abbrev pub network_result : List ServerBlock → Result ServerNetworkData
network_result bs =
    if found_after false bs
    then ok (with_blocks no_network_data bs)
    else err (protocol "SC_NET block not found")
