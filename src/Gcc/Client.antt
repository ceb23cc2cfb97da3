-- ===== src/Gcc/Client.antt =====
-- gcc.rs: the data blocks that the client sends.
use ferropipe_rdp.Wire.{u8, u16, u32, all_of, put, ByteOps, u16_le}
use ferropipe_rdp.Common.{
  ◌^◌, ◌^◌, ◌-◌, ◌+◌, ◌%◌, ◌-◌, ◌+◌, ◌%◌, replicate, length, bit_or, ◌++◌, take, [], ◌++◌, ◌∷◌, ℕ,
  List, Bytes,
}
use ferropipe_rdp.Nla.Crypto.{unicode}

abbrev pub cs_core : ℕ
cs_core = 0xC001

abbrev pub cs_security : ℕ
cs_security = 0xC002

abbrev pub cs_net : ℕ
cs_net = 0xC003

abbrev pub cs_cluster : ℕ
cs_cluster = 0xC004

abbrev pub cs_multitransport : ℕ
cs_multitransport = 0xC00A

abbrev pub cs_mcs_msgchannel : ℕ
cs_mcs_msgchannel = 0xC006

unfoldable pub ud_block : ℕ → Bytes → Bytes
ud_block block_type body = u16_le block_type ++ (u16_le ((length body + 4) % 2 ^ 16) ++ body)

-- `v.resize(n, 0)`
abbrev pub resize : Bytes → ℕ → Bytes
resize v n = take n v ++ replicate (n - length v) 0

unfoldable pub utf16_fixed : Bytes → ℕ → Bytes
unfolding unicode
utf16_fixed s n = resize (unicode s) n

pub record ClientCoreData : Type 0 where
  pub desktop_width : ℕ
  pub desktop_height : ℕ
  pub client_name : Bytes
  pub keyboard_layout : ℕ
  pub client_build : ℕ
  pub server_selected_protocol : ℕ
  pub early_capability_flags : ℕ

-- `ClientCoreData::default()`, whose name is "FERROPIPE".
abbrev pub default_core : ClientCoreData
default_core = record {
  desktop_width = 1024;
  desktop_height = 768;
  client_name = 0x46 ∷ 0x45 ∷ 0x52 ∷ 0x52 ∷ 0x4f ∷ 0x50 ∷ 0x49 ∷ 0x50 ∷ 0x45 ∷ [];
  keyboard_layout = 0x00000409;
  client_build = 2600;
  server_selected_protocol = 0;
  early_capability_flags = bit_or (bit_or (bit_or 0x0001 0x0002) 0x0004) 0x0100;
}

abbrev pub version_rdp5 : ℕ
version_rdp5 = 0x00080004

abbrev pub color_8bpp : ℕ
color_8bpp = 0xCA01

abbrev pub sas_del : ℕ
sas_del = 0xAA03

abbrev pub high_color_24bpp : ℕ
high_color_24bpp = 0x0018

abbrev pub support_all_color_depths : ℕ
support_all_color_depths = 0x000F

pub record ChannelDef : Type 0 where
  pub name : Bytes
  pub options : ℕ

module _ (B : ByteOps) where
  unfoldable pub encode_core : ClientCoreData → Bytes
  unfolding ud_block utf16_fixed
  encode_core core = ud_block cs_core (
      put B [] (
        u32 version_rdp5
        ∷ u16 core.desktop_width
        ∷ u16 core.desktop_height
        ∷ u16 color_8bpp
        ∷ u16 sas_del
        ∷ u32 core.keyboard_layout
        ∷ u32 core.client_build
        ∷ all_of (utf16_fixed core.client_name 32)
        ∷ u32 4
        ∷ u32 0
        ∷ u32 12
        ∷ all_of (replicate 64 0)
        ∷ u16 color_8bpp
        ∷ u16 1
        ∷ u32 0
        ∷ u16 high_color_24bpp
        ∷ u16 support_all_color_depths
        ∷ u16 core.early_capability_flags
        ∷ all_of (replicate 64 0)
        ∷ u8 0
        ∷ u8 0
        ∷ u32 core.server_selected_protocol
        ∷ []))

  unfoldable pub client_security_data : Bytes
  unfolding ud_block
  client_security_data = ud_block cs_security (put B [] (u32 0 ∷ u32 0 ∷ []))

  -- `for ch in channels`
  abbrev pub put_channels : Bytes → List ChannelDef → Bytes
  put_channels b [] = b
  put_channels b (ch ∷ channels) =
      put_channels (put B b (all_of (take 8 (resize ch.name 8)) ∷ u32 ch.options ∷ [])) channels

  unfoldable pub client_network_data : List ChannelDef → Bytes
  unfolding ud_block
  client_network_data channels =
      ud_block cs_net (put_channels (put B [] (u32 (length channels % 2 ^ 32) ∷ [])) channels)

  unfoldable pub client_multitransport_data : ℕ → Bytes
  unfolding ud_block
  client_multitransport_data flags = ud_block cs_multitransport (put B [] (u32 flags ∷ []))

  unfoldable pub client_cluster_data : Bytes
  unfolding ud_block
  client_cluster_data = ud_block cs_cluster (put B [] (u32 0x0000000D ∷ u32 0 ∷ []))

  unfoldable pub client_msgchannel_data : Bytes
  unfolding ud_block
  client_msgchannel_data = ud_block cs_mcs_msgchannel (put B [] (u32 0 ∷ []))
