-- ===== src/Connection.antt =====
-- connection.rs: the connection sequence.
pub mod Server
pub mod Channels
pub mod Waiting
pub mod Strays
pub mod Settings
pub mod Finalization
pub mod Liveness
pub mod Phases
pub mod Keeps
pub mod Order
mod Checks
use ferropipe_rdp.Wire.{ByteOps}
use ferropipe_rdp.Transport.{PduTransport, Run, give, ◌>>=◌, ◌>>◌}
use ferropipe_rdp.Common.{
  length, ltb, bit_or, ◌&&◌, zero, ◌&&◌, ◌==◌, ◌+◌, ◌!=◌, true, some, ◌==◌, ◌+◌, ◌!=◌, ◌++◌, leb,
  if◌then◌else◌, ◌++◌, suc, false, ◌∷◌, ◌∷◌, [], ℕ, none, Option, List, Bytes,
}
use ferropipe_rdp.Gcc.Client.{
  client_multitransport_data, client_msgchannel_data, client_cluster_data, client_network_data,
  default_core, client_security_data, ChannelDef, encode_core, ClientCoreData,
}
use ferropipe_rdp.Info.{client_info, LogonInfo}
use ferropipe_rdp.Gcc.{
  parse_server_network_data, parse_conference_create_response, conference_create_request,
  ServerNetworkData,
}
use ferropipe_rdp.Multitransport.{
  transporttype_udp_preferred, detect, transporttype_udpfecr, InitiateRequest,
}
use ferropipe_rdp.Outcome.{then_ok, panic, protocol, err, ok, Result}
use ferropipe_rdp.Caps.{parse_demand_active, DemandActive, confirm_active}
use ferropipe_rdp.Mcs.Connect.{parse_connect_response, connect_initial}
use ferropipe_rdp.Mcs.Domain.{
  parse_channel_join_confirm, parse_attach_user_confirm, io_channel, channel_join_request,
  attach_user_request, send_data_request, parse_send_data_indication, erect_domain_request,
}
use ferropipe_rdp.Caps.Sets.{
  virtual_channel_caps, frame_acknowledge_caps, bitmap_codecs_caps, surface_commands_caps,
  large_pointer_caps, multifragment_caps, offscreen_caps, glyph_cache_caps, brush_caps, font_caps,
  sound_caps, input_caps, share_caps, pointer_caps, control_caps, activation_caps, color_cache_caps,
  bitmap_cache_rev2_caps, order_caps, bitmap_caps, general_caps,
}
use ferropipe_rdp.Pdu.{
  font_list, pdutype2_fontlist, ctrlaction_request_control, ctrlaction_cooperate,
  pdutype_demandactive, control, pdutype2_control, synchronize, parse_share_data,
  pdutype2_synchronize, parse_share_control, share_data,
}

pub record SessionConfig : Type 0 where
  pub width : ℕ
  pub height : ℕ
  pub domain : Bytes
  pub username : Bytes
  pub selected_protocol : ℕ
  pub channels : List ChannelDef

pub record Session : Type 0 where
  pub user_id : ℕ
  pub io_channel : ℕ
  pub channel_ids : List ℕ
  pub share_id : ℕ
  pub multitransport_request : Option InitiateRequest

abbrev pub max_skip : ℕ
max_skip = 16

abbrev pub core_of : SessionConfig → ClientCoreData
core_of cfg = record {
  desktop_width = cfg.width;
  desktop_height = cfg.height;
  client_name = default_core.client_name;
  keyboard_layout = default_core.keyboard_layout;
  client_build = default_core.client_build;
  server_selected_protocol = cfg.selected_protocol;
  early_capability_flags = default_core.early_capability_flags;
}

-- `LogonInfo { domain, username, ..Default::default() }`
abbrev pub logon_of : SessionConfig → LogonInfo
logon_of cfg = record {
  domain = cfg.domain;
  username = cfg.username;
  password = [];
  alternate_shell = [];
  working_dir = [];
}

-- The channels to join: the user's, the I/O channel, the server's, and the message channel.
abbrev pub to_join : ℕ → ServerNetworkData → List ℕ
to_join user_id net =
    user_id
    ∷ io_channel
    ∷ (net.channel_ids ++ (elim net.message_channel_id [ none ↦ [] | some msg ↦ msg ∷ [] ]))

module _ (B : ByteOps) where
  unfoldable pub client_blocks : SessionConfig → Bytes
  unfolding encode_core client_security_data client_network_data client_cluster_data
      client_msgchannel_data client_multitransport_data
  client_blocks cfg =
      encode_core B (core_of cfg)
      ++ (client_security_data B
          ++ (client_network_data B cfg.channels
              ++ (client_cluster_data B
                  ++ (client_msgchannel_data B
                      ++ client_multitransport_data B
                          (bit_or transporttype_udpfecr transporttype_udp_preferred)))))

  -- The capability sets of the Confirm Active.
  unfoldable pub client_caps : SessionConfig → List Bytes
  client_caps cfg =
      let caps =
        general_caps B
        ∷ bitmap_caps B cfg.width cfg.height
        ∷ order_caps B
        ∷ bitmap_cache_rev2_caps B
        ∷ color_cache_caps B
        ∷ activation_caps B
        ∷ control_caps B
        ∷ pointer_caps B
        ∷ share_caps B
        ∷ input_caps B 0x00000409
        ∷ sound_caps B
        ∷ font_caps B
        ∷ brush_caps B
        ∷ glyph_cache_caps B
        ∷ offscreen_caps B
        ∷ multifragment_caps B
        ∷ large_pointer_caps B
        ∷ surface_commands_caps B
        ∷ bitmap_codecs_caps B
        ∷ frame_acknowledge_caps B
        ∷ [] in
      if ltb 0 (length cfg.channels) then caps ++ (virtual_channel_caps B ∷ []) else caps

  -- What a PDU is while the Demand Active is awaited: it, with what was seen before, or none.
  unfoldable pub look_at :
      Option InitiateRequest → Bytes → Result (Option InitiateRequest × Option DemandActive)
  look_at seen pdu = elim (parse_share_control B pdu) [
    | ok (header, body) ↦
        if header.pdu_type == pdutype_demandactive
        then then_ok (parse_demand_active B body) (λ demand. (seen, some demand))
        else ok (seen, none)
    | err e ↦ elim seen [
      | none ↦ then_ok (detect B pdu) (λ found. (found, none))
      | some request ↦ ok (some request, none)
    ]
    | panic ↦ panic
  ]

  -- A data PDU of the server's finalization.
  unfoldable pub count_data : ℕ → Bytes → Result ℕ
  count_data seen pdu = elim (parse_share_control B pdu) [
    | ok (header, body) ↦ elim (parse_share_data body) [
      | ok data' ↦ ok (seen + 1)
      | err e ↦ ok seen
      | panic ↦ panic
    ]
    | err e ↦ ok seen
    | panic ↦ panic
  ]

  module _ {T : Type 0} (X : PduTransport T) where
    unfoldable pub basic_settings_exchange : SessionConfig → Run T ServerNetworkData
    basic_settings_exchange cfg = do
      X.send (connect_initial (conference_create_request B (client_blocks cfg)))
      response ← X.recv
      gcc_response ← give (parse_connect_response response)
      server_blocks ← give (parse_conference_create_response B gcc_response)
      give (parse_server_network_data B server_blocks)

    -- `for &channel in &to_join`
    unfoldable pub join_channels : ℕ → List ℕ → Run T (List ℕ)
    join_channels user_id [] = give (ok [])
    join_channels user_id (channel ∷ channels) = do
      X.send (channel_join_request B user_id channel)
      confirm ← X.recv
      confirmed ← give (parse_channel_join_confirm B confirm)
      joined ← join_channels user_id channels
      give (ok (if channel != user_id && channel != io_channel then confirmed ∷ joined else joined))

    unfoldable pub channel_connection : ServerNetworkData → Run T (ℕ × List ℕ)
    unfolding join_channels
    channel_connection server_net = do
      X.send erect_domain_request
      X.send attach_user_request
      confirm ← X.recv
      user_id ← give (parse_attach_user_confirm B confirm)
      joined ← join_channels user_id (to_join user_id server_net)
      give (ok (user_id, joined))

    unfoldable pub send_on_io : ℕ → Bytes → Run T (Unit {0})
    send_on_io user_id pdu = X.send (send_data_request B user_id io_channel pdu)

    unfoldable pub recv_on_io : Run T Bytes
    recv_on_io = do
      mcs ← X.recv
      (channel, payload) ← give (parse_send_data_indication B mcs)
      give (ok payload)

    unfoldable pub send_client_info : ℕ → SessionConfig → Run T (Unit {0})
    unfolding send_on_io
    send_client_info user_id cfg = send_on_io user_id (client_info B (logon_of cfg) false)

    -- `for _ in 0..MAX_SKIP`
    unfoldable pub wait_rounds :
        ℕ → Option InitiateRequest → Run T (Option InitiateRequest × DemandActive)
    unfolding recv_on_io look_at
    wait_rounds zero seen = give (err (protocol "no Demand Active PDU received"))
    wait_rounds (suc n) seen = do
      pdu ← recv_on_io
      (seen', demand) ← give (look_at seen pdu)
      elim demand [ some demand' ↦ give (ok (seen', demand')) | none ↦ wait_rounds n seen' ]

    unfoldable pub wait_for_demand_active :
        Option InitiateRequest → Run T (Option InitiateRequest × DemandActive)
    unfolding wait_rounds
    wait_for_demand_active multitransport = wait_rounds max_skip multitransport

    unfoldable pub send_confirm_active : ℕ → ℕ → SessionConfig → Run T (Unit {0})
    unfolding send_on_io
    send_confirm_active user_id share_id cfg =
        send_on_io user_id (confirm_active B user_id share_id (client_caps cfg))

    -- `for _ in 0..MAX_SKIP`, until four are seen.
    unfoldable pub drain : ℕ → ℕ → Run T (Unit {0})
    unfolding recv_on_io count_data
    drain zero seen = give (ok tt)
    drain (suc n) seen = elim (leb 4 seen) [
      | true ↦ give (ok tt)
      | false ↦ do pdu ← recv_on_io; seen' ← give (count_data seen pdu); drain n seen'
    ]

    unfoldable pub finalization : ℕ → ℕ → Run T (Unit {0})
    unfolding send_on_io drain
    finalization user_id share_id = do
      send_on_io user_id
          (share_data B user_id share_id pdutype2_synchronize (synchronize B io_channel))
      send_on_io user_id
          (share_data B user_id share_id pdutype2_control (control B ctrlaction_cooperate 0 0))
      send_on_io user_id (
          share_data B user_id share_id pdutype2_control (control B ctrlaction_request_control 0 0))
      send_on_io user_id (share_data B user_id share_id pdutype2_fontlist (font_list B))
      drain max_skip 0

    unfoldable pub establish : SessionConfig → Run T Session
    establish cfg = do
      server_net ← basic_settings_exchange cfg
      (user_id, channel_ids) ← channel_connection server_net
      send_client_info user_id cfg
      (multitransport_request, demand) ← wait_for_demand_active none
      send_confirm_active user_id demand.share_id cfg
      finalization user_id demand.share_id
      give (
          ok (record {
            user_id = user_id;
            io_channel = io_channel;
            channel_ids = channel_ids;
            share_id = demand.share_id;
            multitransport_request = multitransport_request;
          }))
