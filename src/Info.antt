-- ===== src/Info.antt =====
-- info.rs: the Client Info PDU.
mod Checks
use ferropipe_rdp.Wire.{all_of, u32, u16, put, ByteOps}
use ferropipe_rdp.Common.{
  replicate, is_empty, ◌^◌, not, ◌^◌, ◌&&◌, ◌%◌, ◌&&◌, ◌%◌, ◌-◌, if◌then◌else◌, [], ◌-◌, ◌∷◌, ◌++◌,
  ◌∷◌, length, bit_or, ◌++◌, ℕ, Bytes, Bool,
}
use ferropipe_rdp.Nla.Crypto.{unicode}

abbrev pub sec_info_pkt : ℕ
sec_info_pkt = 0x0040

abbrev pub info_mouse : ℕ
info_mouse = 0x00000001

abbrev pub info_disablectrlaltdel : ℕ
info_disablectrlaltdel = 0x00000002

abbrev pub info_autologon : ℕ
info_autologon = 0x00000008

abbrev pub info_unicode : ℕ
info_unicode = 0x00000010

abbrev pub info_maximizeshell : ℕ
info_maximizeshell = 0x00000020

abbrev pub info_enablewindowskey : ℕ
info_enablewindowskey = 0x00000100

abbrev pub timezone_len : ℕ
timezone_len = 172

pub record LogonInfo : Type 0 where
  pub domain : Bytes
  pub username : Bytes
  pub password : Bytes
  pub alternate_shell : Bytes
  pub working_dir : Bytes

unfoldable pub utf16_z : Bytes → Bytes
unfolding unicode
utf16_z s = unicode s ++ (0 ∷ 0 ∷ [])

abbrev pub info_flags : LogonInfo → Bool → ℕ
info_flags info autologon =
    let flags =
      bit_or
        (bit_or (bit_or (bit_or info_mouse info_disablectrlaltdel) info_unicode) info_maximizeshell)
        info_enablewindowskey in
    if autologon && not (is_empty info.password) then bit_or flags info_autologon else flags

-- `(field.len() - 2) as u16`
abbrev pub cb : Bytes → ℕ
cb field = (length field - 2) % 2 ^ 16

module _ (B : ByteOps) where
  unfoldable pub client_info : LogonInfo → Bool → Bytes
  unfolding utf16_z
  client_info info autologon =
      let flags = info_flags info autologon in
      let domain = utf16_z info.domain in
      let username = utf16_z info.username in
      let password = utf16_z info.password in
      let shell = utf16_z info.alternate_shell in
      let workdir = utf16_z info.working_dir in
      let addr = utf16_z (0x30 ∷ 0x2e ∷ 0x30 ∷ 0x2e ∷ 0x30 ∷ 0x2e ∷ 0x30 ∷ []) in
      let dir = utf16_z [] in
      put B [] (
        u16 sec_info_pkt
        ∷ u16 0
        ∷ u32 0
        ∷ u32 flags
        ∷ u16 (cb domain)
        ∷ u16 (cb username)
        ∷ u16 (cb password)
        ∷ u16 (cb shell)
        ∷ u16 (cb workdir)
        ∷ all_of domain
        ∷ all_of username
        ∷ all_of password
        ∷ all_of shell
        ∷ all_of workdir
        ∷ u16 2
        ∷ u16 (length addr % 2 ^ 16)
        ∷ all_of addr
        ∷ u16 (length dir % 2 ^ 16)
        ∷ all_of dir
        ∷ all_of (replicate timezone_len 0)
        ∷ u32 0
        ∷ u32 0
        ∷ u16 0
        ∷ [])
