-- ===== src/Gcc/Checks.antt =====
-- Runs of gcc.rs, and its theorems at concrete inputs.
use mathlib.Core.List.{flat_map}
use ferropipe_rdp.Wire.{list_bytes, list_bytes-ByteLaws}
use ferropipe_rdp.Gcc.Client.{default_core, encode_core, client_network_data, ChannelDef}
use ferropipe_rdp.Common.{Bytes, inl, arith, refl, ◌≡◌, ◌≡◌, [], ◌++◌, ◌∷◌, length, List}
use ferropipe_rdp.Gcc.{parse_server_network_data}
use ferropipe_rdp.Gcc.Blocks.{
  network_result, message_channel, network, other_block, sent_blocks, ServerBlock,
}
use ferropipe_rdp.Gcc.Laws.{parse_server_network_data-sent_blocks}

abbrev rdpdr : ChannelDef
rdpdr = record { name = 0x72 ∷ 0x64 ∷ 0x70 ∷ 0x64 ∷ 0x72 ∷ []; options = 0x80000000 }

channels_run :
    client_network_data list_bytes (rdpdr ∷ [])
    ≡ 0x03 ∷ 0xc0 ∷ 20 ∷ 0 ∷ 1 ∷ 0 ∷ 0 ∷ 0 ∷ 0x72 ∷ 0x64 ∷ 0x70 ∷ 0x64 ∷ 0x72 ∷ 0 ∷ 0 ∷ 0 ∷ 0 ∷ 0
      ∷ 0 ∷ 0x80 ∷ []
unfolding client_network_data
channels_run = refl

core_run : length (encode_core list_bytes default_core) ≡ 216
unfolding encode_core
core_run = refl

abbrev blocks : List ServerBlock
blocks =
    other_block 0x0C01 (4 ∷ 0 ∷ [])
    ∷ network 1003 (1004 ∷ 1005 ∷ []) []
    ∷ message_channel 1006 []
    ∷ []

parse_server_network_data-sent_blocks_example :
    parse_server_network_data list_bytes (sent_blocks blocks ++ (0 ∷ [])) ≡ network_result blocks
unfolding flat_map
parse_server_network_data-sent_blocks_example =
    parse_server_network_data-sent_blocks list_bytes-ByteLaws blocks (0 ∷ [])
      (
        (omega arith, (λ e. omega (arith, e)), inl (λ e. omega (arith, e)), omega arith),
        (
          (omega arith, omega arith, (omega arith, (omega arith, tt)), omega arith),
          ((omega arith, omega arith), tt),
        ),
      )
      (omega arith)

abbrev envelope_prefix : Bytes
envelope_prefix = 0x00 ∷ 0x05 ∷ 0x00 ∷ 0x14 ∷ 0x7c ∷ 0x00 ∷ 0x01 ∷ []
