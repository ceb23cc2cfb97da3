-- ===== src/Connection/Checks.antt =====
-- Runs of connection.rs, and its theorems at concrete inputs.
use ferropipe_rdp.Wire.{list_bytes, list_bytes-ByteLaws}
use ferropipe_rdp.Connection.Server.{Script, scripted, on_io, map_list, answered}
use ferropipe_rdp.Connection.Liveness.{responses_of, session_of, Accepting}
use ferropipe_rdp.Common.{
  some, replicate, zero, arith, suc, refl, [], ◌++◌, ◌≡◌, ◌≡◌, ◌∷◌, none, List, All, ℕ,
}
use ferropipe_rdp.Connection.Order.{establish-IsLeft}
use ferropipe_rdp.Connection.Keeps.{IsLeft}
use ferropipe_rdp.Connection.{wait_for_demand_active, establish, SessionConfig}
use ferropipe_rdp.Pdu.{share_control}
use ferropipe_rdp.Connection.Strays.{
  wait_for_demand_active-give_up, Stray, share_pdu, transport_request, other_pdu, IsStray,
  payloads_of,
}
use ferropipe_rdp.Multitransport.{InitiateRequest}
use ferropipe_rdp.Connection.Phases.{logged, finished}
use ferropipe_rdp.Outcome.{protocol, err}
use ferropipe_rdp.Gcc.Blocks.{message_channel, network, other_block}

abbrev config : SessionConfig
config = record {
  width = 1024;
  height = 768;
  domain = 0x44 ∷ [];
  username = 0x75 ∷ [];
  selected_protocol = 2;
  channels = record { name = 0x72 ∷ []; options = 0 } ∷ [];
}

-- Before the Demand Active: a share control PDU of type 6 (Deactivate All), a multitransport
-- request, and four bytes that are neither.
abbrev deactivate : Stray
deactivate = share_pdu 6 1002 (1 ∷ 2 ∷ [])

abbrev request : InitiateRequest
request = record { request_id = 0x10007; requested_protocol = 1; security_cookie = replicate 16 5 }

abbrev keep_alive : Stray
keep_alive = other_pdu (9 ∷ 0 ∷ 4 ∷ 0 ∷ [])

abbrev server : Accepting
server = record {
  connect_id = 7;
  parameters = 2 ∷ 1 ∷ 34 ∷ [];
  prefix = 0x00 ∷ 0x05 ∷ 0x00 ∷ 0x14 ∷ 0x7c ∷ 0x00 ∷ 0x01 ∷ [];
  blocks = other_block 0x0C01 (4 ∷ []) ∷ network 1003 (1004 ∷ []) [] ∷ message_channel 1005 [] ∷ [];
  user = 1007;
  strays = keep_alive ∷ transport_request 2 0 request 0 ∷ deactivate ∷ [];
  demand = record { share_id = 0x103EA; capability_sets = (9, 0 ∷ 0 ∷ []) ∷ [] };
  source = 0x52 ∷ 0 ∷ [];
  replies = (31, []) ∷ (20, []) ∷ (20, []) ∷ (40, 0 ∷ []) ∷ [];
}

deactivate-IsStray : IsStray list_bytes deactivate
unfolding share_control
deactivate-IsStray = (omega arith, omega arith, omega arith, (λ e. omega (arith, e)), omega arith)

request_run : (session_of server).multitransport_request ≡ some request
request_run = refl

channels_run : (session_of server).channel_ids ≡ 1004 ∷ 1005 ∷ []
channels_run = refl

establish-IsLeft_example :
    IsLeft list_bytes config Script
      (λ session. finished session.user_id session.share_id)
      (establish list_bytes
        (logged scripted)
        config
        (record { state = answered (responses_of list_bytes server) []; log = [] }))
establish-IsLeft_example =
    establish-IsLeft list_bytes scripted config (answered (responses_of list_bytes server) [])

-- Sixteen such PDUs.
abbrev deactivations : ℕ → List Stray
deactivations zero = []
deactivations (suc n) = deactivate ∷ deactivations n

deactivations-IsStray : (n : ℕ) → All (IsStray list_bytes) (deactivations n)
deactivations-IsStray zero = tt
deactivations-IsStray (suc n) = (deactivate-IsStray, deactivations-IsStray n)

wait_for_demand_active-give_up_example :
    wait_for_demand_active list_bytes scripted none
      (answered (map_list on_io (payloads_of list_bytes (deactivations 16)) ++ ((9 ∷ []) ∷ [])) [])
    ≡ (answered ((9 ∷ []) ∷ []) [], err (protocol "no Demand Active PDU received"))
wait_for_demand_active-give_up_example =
    wait_for_demand_active-give_up list_bytes-ByteLaws none (deactivations 16) ((9 ∷ []) ∷ []) []
      (deactivations-IsStray 16) refl
