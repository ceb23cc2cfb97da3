-- ===== src/Caps/Sets.antt =====
-- caps.rs: the capability sets that the client advertises.
use ferropipe_rdp.Wire.{all_of, u8, u32, u16, put, ByteOps}
use ferropipe_rdp.Common.{bit_or, [], ◌∷◌, replicate, ℕ, List, Bytes}
use ferropipe_rdp.Caps.{capability_set}

abbrev pub capstype_general : ℕ
capstype_general = 1

abbrev pub capstype_bitmap : ℕ
capstype_bitmap = 2

abbrev pub capstype_order : ℕ
capstype_order = 3

abbrev pub capstype_pointer : ℕ
capstype_pointer = 8

abbrev pub capstype_share : ℕ
capstype_share = 9

abbrev pub capstype_input : ℕ
capstype_input = 13

abbrev pub capstype_virtualchannel : ℕ
capstype_virtualchannel = 20

abbrev pub capstype_bitmapcache_rev2 : ℕ
capstype_bitmapcache_rev2 = 19

abbrev pub capstype_control : ℕ
capstype_control = 5

abbrev pub capstype_activation : ℕ
capstype_activation = 7

abbrev pub capstype_colorcache : ℕ
capstype_colorcache = 10

abbrev pub capstype_sound : ℕ
capstype_sound = 12

abbrev pub capstype_font : ℕ
capstype_font = 14

abbrev pub capstype_brush : ℕ
capstype_brush = 15

abbrev pub capstype_glyphcache : ℕ
capstype_glyphcache = 16

abbrev pub capstype_offscreencache : ℕ
capstype_offscreencache = 17

abbrev pub capsettype_bitmap_codecs : ℕ
capsettype_bitmap_codecs = 29

abbrev pub capsettype_multifragmentupdate : ℕ
capsettype_multifragmentupdate = 26

abbrev pub capsettype_large_pointer : ℕ
capsettype_large_pointer = 27

abbrev pub capsettype_surface_commands : ℕ
capsettype_surface_commands = 28

abbrev pub capsettype_frame_acknowledge : ℕ
capsettype_frame_acknowledge = 30

module _ (B : ByteOps) where
  unfoldable pub control_caps : Bytes
  unfolding capability_set
  control_caps = capability_set B capstype_control (put B [] (u16 0 ∷ u16 0 ∷ u16 2 ∷ u16 2 ∷ []))

  unfoldable pub activation_caps : Bytes
  unfolding capability_set
  activation_caps = capability_set B capstype_activation (replicate 8 0)

  unfoldable pub color_cache_caps : Bytes
  unfolding capability_set
  color_cache_caps = capability_set B capstype_colorcache (put B [] (u16 6 ∷ u16 0 ∷ []))

  unfoldable pub sound_caps : Bytes
  unfolding capability_set
  sound_caps = capability_set B capstype_sound (0x01 ∷ 0x00 ∷ 0x00 ∷ 0x00 ∷ [])

  unfoldable pub font_caps : Bytes
  unfolding capability_set
  font_caps = capability_set B capstype_font (put B [] (u16 0x0001 ∷ u16 0 ∷ []))

  unfoldable pub brush_caps : Bytes
  unfolding capability_set
  brush_caps = capability_set B capstype_brush (put B [] (u32 2 ∷ []))

  -- The cache definitions: entries, and maximum cell size.
  abbrev pub glyph_caches : List (ℕ × ℕ)
  glyph_caches =
      (254, 4)
      ∷ (254, 4)
      ∷ (254, 8)
      ∷ (254, 8)
      ∷ (254, 16)
      ∷ (254, 32)
      ∷ (254, 64)
      ∷ (254, 128)
      ∷ (254, 256)
      ∷ (254, 256)
      ∷ []

  abbrev pub put_caches : Bytes → List (ℕ × ℕ) → Bytes
  put_caches d [] = d
  put_caches d ((entries, cell) ∷ more) = put_caches (put B d (u16 entries ∷ u16 cell ∷ [])) more

  unfoldable pub glyph_cache_caps : Bytes
  unfolding capability_set
  glyph_cache_caps =
      capability_set B capstype_glyphcache
        (put B (put_caches [] glyph_caches) (u32 0x01000100 ∷ u16 0 ∷ u16 0 ∷ []))

  unfoldable pub offscreen_caps : Bytes
  unfolding capability_set
  offscreen_caps = capability_set B capstype_offscreencache (put B [] (u32 0 ∷ u16 0 ∷ u16 0 ∷ []))

  unfoldable pub bitmap_cache_rev2_caps : Bytes
  unfolding capability_set
  bitmap_cache_rev2_caps = capability_set B capstype_bitmapcache_rev2 (
      0x02 ∷ 0x00 ∷ 0x00 ∷ 0x05 ∷ 0x58 ∷ 0x02 ∷ 0x00 ∷ 0x00 ∷ 0x58 ∷ 0x02 ∷ 0x00 ∷ 0x00 ∷ 0x00
      ∷ 0x08 ∷ 0x00 ∷ 0x00 ∷ 0x00 ∷ 0x10 ∷ 0x00 ∷ 0x00 ∷ 0x00 ∷ 0x08 ∷ 0x00 ∷ 0x00 ∷ 0x00 ∷ 0x00
      ∷ 0x00 ∷ 0x00 ∷ 0x00 ∷ 0x00 ∷ 0x00 ∷ 0x00 ∷ 0x00 ∷ 0x00 ∷ 0x00 ∷ 0x00 ∷ [])

  unfoldable pub bitmap_codecs_caps : Bytes
  unfolding capability_set
  bitmap_codecs_caps = capability_set B capsettype_bitmap_codecs (0x00 ∷ [])

  unfoldable pub multifragment_caps : Bytes
  unfolding capability_set
  multifragment_caps =
      capability_set B capsettype_multifragmentupdate (put B [] (u32 0x0009482b ∷ []))

  unfoldable pub large_pointer_caps : Bytes
  unfolding capability_set
  large_pointer_caps = capability_set B capsettype_large_pointer (put B [] (u16 0x0003 ∷ []))

  unfoldable pub surface_commands_caps : Bytes
  unfolding capability_set
  surface_commands_caps =
      capability_set B capsettype_surface_commands
        (put B [] (u32 (bit_or (bit_or 0x02 0x10) 0x40) ∷ u32 0 ∷ []))

  unfoldable pub frame_acknowledge_caps : Bytes
  unfolding capability_set
  frame_acknowledge_caps = capability_set B capsettype_frame_acknowledge (put B [] (u32 2 ∷ []))

  unfoldable pub general_caps : Bytes
  unfolding capability_set
  general_caps = capability_set B capstype_general (
      put B [] (
        u16 4
        ∷ u16 7
        ∷ u16 0x0200
        ∷ u16 0
        ∷ u16 0
        ∷ u16 (bit_or (bit_or (bit_or (bit_or 0x0001 0x0400) 0x0004) 0x0008) 0x0010)
        ∷ u16 0
        ∷ u16 0
        ∷ u16 0
        ∷ u8 1
        ∷ u8 1
        ∷ []))

  unfoldable pub bitmap_caps : ℕ → ℕ → Bytes
  unfolding capability_set
  bitmap_caps width height = capability_set B capstype_bitmap (
      put B [] (
        u16 32
        ∷ u16 1
        ∷ u16 1
        ∷ u16 1
        ∷ u16 width
        ∷ u16 height
        ∷ u16 0
        ∷ u16 1
        ∷ u16 1
        ∷ u8 0
        ∷ u8 0x0a
        ∷ u16 1
        ∷ u16 0
        ∷ []))

  unfoldable pub pointer_caps : Bytes
  unfolding capability_set
  pointer_caps = capability_set B capstype_pointer (put B [] (u16 1 ∷ u16 25 ∷ u16 25 ∷ []))

  unfoldable pub input_caps : ℕ → Bytes
  unfolding capability_set
  input_caps keyboard_layout = capability_set B capstype_input (
      put B [] (
        u16 0x032d
        ∷ u16 0
        ∷ u32 keyboard_layout
        ∷ u32 4
        ∷ u32 0
        ∷ u32 12
        ∷ all_of (replicate 64 0)
        ∷ []))

  unfoldable pub order_caps : Bytes
  unfolding capability_set
  order_caps = capability_set B capstype_order (
      0 ∷ 0 ∷ 0 ∷ 0 ∷ 0 ∷ 0 ∷ 0 ∷ 0 ∷ 0 ∷ 0 ∷ 0 ∷ 0 ∷ 0 ∷ 0 ∷ 0 ∷ 0 ∷ 0 ∷ 0 ∷ 0 ∷ 0 ∷ 0x01 ∷ 0x00
      ∷ 0x14 ∷ 0x00 ∷ 0x00 ∷ 0x00 ∷ 0x01 ∷ 0x00 ∷ 0x00 ∷ 0x00 ∷ 0xaa ∷ 0x00 ∷ 0x01 ∷ 0x01 ∷ 0x01
      ∷ 0x00 ∷ 0x00 ∷ 0x00 ∷ 0x00 ∷ 0x01 ∷ 0x00 ∷ 0x00 ∷ 0x00 ∷ 0x00 ∷ 0x00 ∷ 0x00 ∷ 0x00 ∷ 0x00
      ∷ 0x01 ∷ 0x00 ∷ 0x00 ∷ 0x00 ∷ 0x01 ∷ 0x00 ∷ 0x00 ∷ 0x00 ∷ 0x00 ∷ 0x00 ∷ 0x00 ∷ 0x00 ∷ 0x00
      ∷ 0x00 ∷ 0x00 ∷ 0x00 ∷ 0x04 ∷ 0x00 ∷ 0x00 ∷ 0x00 ∷ 0x00 ∷ 0x00 ∷ 0x00 ∷ 0x00 ∷ 0x00 ∷ 0x84
      ∷ 0x03 ∷ 0x00 ∷ 0x00 ∷ 0x00 ∷ 0x00 ∷ 0x00 ∷ 0xe9 ∷ 0xfd ∷ 0x00 ∷ 0x00 ∷ [])

  unfoldable pub virtual_channel_caps : Bytes
  unfolding capability_set
  virtual_channel_caps = capability_set B capstype_virtualchannel (put B [] (u32 0 ∷ u32 1600 ∷ []))

  unfoldable pub share_caps : Bytes
  unfolding capability_set
  share_caps = capability_set B capstype_share (put B [] (u16 0 ∷ u16 0 ∷ []))
