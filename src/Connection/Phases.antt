-- ===== src/Connection/Phases.antt =====
-- connection.rs: the order of the connection sequence as a step relation, and calls that keep to
-- it.
use ferropipe_rdp.Wire.{ByteOps}
use ferropipe_rdp.Transport.{PduTransport}
use ferropipe_rdp.Common.{false, [], ◌∷◌, Bytes, ℕ, List, ◌++◌}
use ferropipe_rdp.Connection.{client_caps, logon_of, io_channel, client_blocks, SessionConfig}
use ferropipe_rdp.Outcome.{Result}
use ferropipe_rdp.Mcs.Connect.{connect_initial}
use ferropipe_rdp.Gcc.{conference_create_request}
use ferropipe_rdp.Mcs.Domain.{
  send_data_request, channel_join_request, attach_user_request, erect_domain_request,
}
use ferropipe_rdp.Info.{client_info}
use ferropipe_rdp.Caps.{confirm_active}
use ferropipe_rdp.Pdu.{
  font_list, pdutype2_fontlist, ctrlaction_request_control, ctrlaction_cooperate, control,
  pdutype2_control, synchronize, pdutype2_synchronize, share_data,
}

-- How far the client is: which PDU it sends next.
pub data Phase : Type 0 where
  beginning : Phase
  settled : Phase
  erected : Phase
  attached : Phase
  joining : ℕ → List ℕ → Phase
  informed : ℕ → Phase
  confirmed : ℕ → ℕ → Phase
  synchronized : ℕ → ℕ → Phase
  cooperating : ℕ → ℕ → Phase
  controlling : ℕ → ℕ → Phase
  finished : ℕ → ℕ → Phase

-- A PDU that the sequence allows in a phase. The server chooses the user, the channels after the I/O
-- channel, and the share.
pub data Sends (B : ByteOps) (cfg : SessionConfig) : Phase → Bytes → Phase → Type 0 where
  connect :
      Sends B cfg beginning
        (connect_initial (conference_create_request B (client_blocks B cfg)))
        settled
  erect : Sends B cfg settled erect_domain_request erected
  attach : Sends B cfg erected attach_user_request attached
  join_user :
      (user : ℕ) (channels : List ℕ)
      → Sends B cfg attached
          (channel_join_request B user user)
          (joining user (io_channel ∷ channels))
  join :
      (user channel : ℕ) (channels : List ℕ)
      → Sends B cfg
          (joining user (channel ∷ channels))
          (channel_join_request B user channel)
          (joining user channels)
  inform :
      (user : ℕ)
      → Sends B cfg
          (joining user [])
          (send_data_request B user io_channel (client_info B (logon_of cfg) false))
          (informed user)
  confirm :
      (user share_id : ℕ)
      → Sends B cfg
          (informed user)
          (send_data_request B user io_channel (confirm_active B user share_id (client_caps B cfg)))
          (confirmed user share_id)
  synchronize_user :
      (user share_id : ℕ)
      → Sends B cfg
          (confirmed user share_id)
          (send_data_request B user io_channel
            (share_data B user share_id pdutype2_synchronize (synchronize B io_channel)))
          (synchronized user share_id)
  cooperate :
      (user share_id : ℕ)
      → Sends B cfg
          (synchronized user share_id)
          (send_data_request B user io_channel
            (share_data B user share_id pdutype2_control (control B ctrlaction_cooperate 0 0)))
          (cooperating user share_id)
  request_control :
      (user share_id : ℕ)
      → Sends B cfg
          (cooperating user share_id)
          (send_data_request B user io_channel (
            share_data B user share_id pdutype2_control (control B ctrlaction_request_control 0 0)))
          (controlling user share_id)
  list_fonts :
      (user share_id : ℕ)
      → Sends B cfg
          (controlling user share_id)
          (send_data_request B user io_channel
            (share_data B user share_id pdutype2_fontlist (font_list B)))
          (finished user share_id)

-- The PDUs of several steps from the beginning, in order.
pub data Sequence (B : ByteOps) (cfg : SessionConfig) : List Bytes → Phase → Type 0 where
  nothing_sent : Sequence B cfg [] beginning
  one_more :
      (pdus : List Bytes) (pdu : Bytes) (p q : Phase)
      → Sequence B cfg pdus p
      → Sends B cfg p pdu q
      → Sequence B cfg (pdus ++ (pdu ∷ [])) q

-- A transport, and the PDUs that were handed to it.
pub record Logged (T : Type 0) : Type 0 where
  pub state : T
  pub log : List Bytes

abbrev pub relog : {T A : Type 0} → List Bytes → T × Result A → Logged T × Result A
relog log (t, r) = (record { state = t; log = log }, r)

abbrev pub logged : {T : Type 0} → PduTransport T → PduTransport (Logged T)
logged X = record {
  send = λ pdu s. relog (s.log ++ (pdu ∷ [])) (X.send pdu s.state);
  recv = λ s. relog s.log (X.recv s.state);
}
