-- ===== src/Connection/Channels.antt =====
-- connection.rs: the settings are exchanged and the channels joined, each in turn.
use ferropipe_rdp.Wire.{list_bytes}
use ferropipe_rdp.Connection.Server.{scripted, attach_confirm, join_confirm, map_list, answered}
use ferropipe_rdp.Connection.{io_channel, to_join, join_channels, channel_connection}
use ferropipe_rdp.Mcs.Domain.{
  attach_user_request, erect_domain_request, channel_join_request, parse_channel_join_confirm,
  parse_attach_user_confirm,
}
use ferropipe_rdp.Common.{
  ◌∙◌, ◌∙◌, refl, append_assoc, append-nil, sym, ap, [], arith, ◌++◌, ◌&&◌, ◌!=◌, ◌≡◌, ◌≡◌,
  if◌then◌else◌, All, ◌∷◌, ◌^◌, ◌^◌, Bytes, ◌≤◌, ◌<◌, ◌≤◌, List, ◌<◌, ℕ,
}
use ferropipe_rdp.Gcc.{ServerNetworkData}
use ferropipe_rdp.Gcc.Blocks.{IsU16}
use ferropipe_rdp.Outcome.{ok}

-- The channels that are kept for the caller.
abbrev pub kept : ℕ → List ℕ → List ℕ
kept user [] = []
kept user (c ∷ cs) = if c != user && c != io_channel then c ∷ kept user cs else kept user cs

join_confirm_lem :
    (user c : ℕ) → c < 2 ^ 16 → parse_channel_join_confirm list_bytes (join_confirm user c) ≡ ok c
unfolding parse_channel_join_confirm
join_confirm_lem user c h = ground arith

attach_confirm_lem :
    (user : ℕ)
    → 1001 ≤ user
    → user < 2 ^ 16
    → parse_attach_user_confirm list_bytes (attach_confirm user) ≡ ok user
unfolding parse_attach_user_confirm
attach_confirm_lem user h k = ground arith

pub join_channels_lem :
    (user : ℕ) (cs : List ℕ) (more sent_pdus : List Bytes)
    → All IsU16 cs
    → join_channels list_bytes scripted user cs
        (answered (map_list (join_confirm user) cs ++ more) sent_pdus)
      ≡ (
        answered more (sent_pdus ++ map_list (channel_join_request list_bytes user) cs),
        ok (kept user cs),
      )
unfolding join_channels
join_channels_lem user [] more sent_pdus h =
    ap (λ s. (answered more s, ok [])) (sym (append-nil sent_pdus))
join_channels_lem user (c ∷ cs) more sent_pdus (h, hs) =
    let request = channel_join_request list_bytes user c in
    rw
      (
        join_confirm_lem user c h,
        join_channels_lem user cs more (sent_pdus ++ (request ∷ [])) hs,
        append_assoc sent_pdus (request ∷ []) (map_list (channel_join_request list_bytes user) cs),
      )
      refl

pub channel_connection_lem :
    (user : ℕ) (net : ServerNetworkData) (more sent_pdus : List Bytes)
    → 1001 ≤ user
    → All IsU16 (to_join user net)
    → channel_connection list_bytes scripted net (
        answered
          (attach_confirm user ∷ (map_list (join_confirm user) (to_join user net) ++ more))
          sent_pdus)
      ≡ (
        answered more (
            sent_pdus
            ++ (erect_domain_request
                ∷ attach_user_request
                ∷ map_list (channel_join_request list_bytes user) (to_join user net))),
        ok (user, kept user (to_join user net)),
      )
unfolding channel_connection
channel_connection_lem user net more sent_pdus h hs =
    let before = (sent_pdus ++ (erect_domain_request ∷ [])) ++ (attach_user_request ∷ []) in
    rw (attach_confirm_lem user h hs.0, join_channels_lem user (to_join user net) more before hs)
      (ap (λ s. (answered more s, ok (user, kept user (to_join user net))))
        (append_assoc (sent_pdus ++ (erect_domain_request ∷ [])) (attach_user_request ∷ [])
            (map_list (channel_join_request list_bytes user) (to_join user net))
          ∙ append_assoc sent_pdus (erect_domain_request ∷ []) (
              attach_user_request
              ∷ map_list (channel_join_request list_bytes user) (to_join user net))))
