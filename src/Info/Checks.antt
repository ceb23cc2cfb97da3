-- ===== src/Info/Checks.antt =====
-- Runs of info.rs and of nla/crypto.rs.
-- U+20AC, and U+1F600 as a surrogate pair.
use ferropipe_rdp.Info.{client_info, LogonInfo}
use ferropipe_rdp.Nla.Crypto.{unicode}
use ferropipe_rdp.Common.{refl, ◌≡◌, ◌≡◌, false, [], ◌∷◌, ◌∷◌, take}
use ferropipe_rdp.Wire.{list_bytes}

unicode_runs :
    unicode (0x41 ∷ 0xe2 ∷ 0x82 ∷ 0xac ∷ 0xf0 ∷ 0x9f ∷ 0x98 ∷ 0x80 ∷ [])
    ≡ 0x41 ∷ 0 ∷ 0xac ∷ 0x20 ∷ 0x3d ∷ 0xd8 ∷ 0x00 ∷ 0xde ∷ []
unfolding unicode
unicode_runs = refl

abbrev logon : LogonInfo
logon = record {
  domain = 0x44 ∷ [];
  username = 0x75 ∷ 0x31 ∷ [];
  password = [];
  alternate_shell = [];
  working_dir = [];
}

info_runs :
    take 26 (client_info list_bytes logon false)
    ≡ 0x40 ∷ 0 ∷ 0 ∷ 0 ∷ 0 ∷ 0 ∷ 0 ∷ 0 ∷ 0x33 ∷ 1 ∷ 0 ∷ 0 ∷ 2 ∷ 0 ∷ 4 ∷ 0 ∷ 0 ∷ 0 ∷ 0 ∷ 0 ∷ 0 ∷ 0
      ∷ 0x44 ∷ 0 ∷ 0 ∷ 0 ∷ []
unfolding client_info
info_runs = refl
