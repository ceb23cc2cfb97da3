-- ===== src/Connection/Liveness.antt =====
-- connection.rs: the connection is established with a server that accepts it.
use ferropipe_rdp.Wire.{ByteOps}
use ferropipe_rdp.Connection.Server.{
  scripted, answered, on_io, map_list, attach_confirm, join_confirm,
}
use ferropipe_rdp.Connection.Settings.{connect_response, IsConnectResponse}
use ferropipe_rdp.Common.{
  ◌+◌, ◌^◌, ◌^◌, ◌<◌, ◌<◌, length, false, ◌∷◌, ◌≡◌, ◌≡◌, none, All, ◌++◌, ◌≤◌, ◌≤◌, [], Bytes, ℕ,
  List,
}
use ferropipe_rdp.Gcc.{conference_create_request, no_network_data, ServerNetworkData}
use ferropipe_rdp.Connection.{
  client_caps, max_skip, client_blocks, logon_of, to_join, io_channel, establish, SessionConfig,
  Session,
}
use ferropipe_rdp.Gcc.Blocks.{IsU16, ServerBlock, with_blocks}
use ferropipe_rdp.Info.{client_info}
use ferropipe_rdp.Mcs.Connect.{connect_initial}
use ferropipe_rdp.Connection.Channels.{kept}
use ferropipe_rdp.Connection.Finalization.{IsReply, to_io, finalization_pdus, reply_pdu, demand_pdu}
use ferropipe_rdp.Outcome.{ok}
use ferropipe_rdp.Connection.Waiting.{IsPayload}
use ferropipe_rdp.Caps.{confirm_active, DemandActive}
use ferropipe_rdp.Mcs.Domain.{channel_join_request, attach_user_request, erect_domain_request}
use ferropipe_rdp.Caps.Laws.{sent_demand, IsDemandActive}
use ferropipe_rdp.Connection.Strays.{request_seen, payloads_of, Stray, IsStray}

-- What a server that accepts the connection says: its settings, the user it assigns, the PDUs
-- before its Demand Active, the Demand Active, and the data PDUs that end the finalization.
pub record Accepting : Type 0 where
  pub connect_id : ℕ
  pub parameters : Bytes
  pub prefix : Bytes
  pub blocks : List ServerBlock
  pub user : ℕ
  pub strays : List Stray
  pub demand : DemandActive
  pub source : Bytes
  pub replies : List (ℕ × Bytes)

abbrev pub network_of : Accepting → ServerNetworkData
network_of s = with_blocks no_network_data s.blocks

abbrev pub channels_of : Accepting → List ℕ
channels_of s = to_join s.user (network_of s)

-- Fewer PDUs than the client skips come before the Demand Active, and four data PDUs behind it.
abbrev pub IsAccepting : ByteOps → Accepting → Type 0
IsAccepting B s =
    IsConnectResponse B s.connect_id s.parameters s.prefix s.blocks
    × (1001 ≤ s.user)
    × All IsU16 (channels_of s)
    × All (IsStray B) s.strays
    × (length s.strays < max_skip)
    × IsDemandActive s.demand
    × (length s.source < 2 ^ 16)
    × IsPayload (demand_pdu B s.demand s.source)
    × (length (sent_demand B s.demand s.source 0 0 ++ []) + 6 < 2 ^ 16)
    × All IsReply s.replies
    × (length s.replies ≡ 4)

-- The answers in order.
abbrev pub responses_of : ByteOps → Accepting → List Bytes
responses_of B s =
    connect_response B s.connect_id s.parameters s.prefix s.blocks
    ∷ attach_confirm s.user
    ∷ (map_list (join_confirm s.user) (channels_of s)
        ++ (map_list on_io (payloads_of B s.strays)
            ++ (on_io (demand_pdu B s.demand s.source)
                ∷ (map_list on_io (map_list (reply_pdu B s.demand.share_id) s.replies) ++ []))))

-- The PDUs that the client sends, in order.
abbrev pub activation_pdus : ByteOps → SessionConfig → Accepting → List Bytes
activation_pdus B cfg s =
    client_info B (logon_of cfg) false
    ∷ confirm_active B s.user s.demand.share_id (client_caps B cfg)
    ∷ finalization_pdus B s.user s.demand.share_id

abbrev pub requests_of : ByteOps → SessionConfig → Accepting → List Bytes
requests_of B cfg s =
    connect_initial (conference_create_request B (client_blocks B cfg))
    ∷ erect_domain_request
    ∷ attach_user_request
    ∷ (map_list (channel_join_request B s.user) (channels_of s)
        ++ map_list (to_io B s.user) (activation_pdus B cfg s))

abbrev pub session_of : Accepting → Session
session_of s = record {
  user_id = s.user;
  io_channel = io_channel;
  channel_ids = kept s.user (channels_of s);
  share_id = s.demand.share_id;
  multitransport_request = request_seen none s.strays;
}

-- The whole sequence, over one implementation of the buffers.
abbrev Establishes : ByteOps → Type 0
Establishes B =
    (cfg : SessionConfig) (s : Accepting)
    → IsAccepting B s
    → establish B scripted cfg (answered (responses_of B s) [])
      ≡ (answered [] (requests_of B cfg s), ok (session_of s))
