-- ===== src/Connection/Order.antt =====
-- connection.rs: whatever the transport does, the client keeps to the sequence.
use ferropipe_rdp.Wire.{ByteOps}
use ferropipe_rdp.Transport.{PduTransport, Run, give}
use ferropipe_rdp.Connection.Phases.{
  nothing_sent, join_user, list_fonts, request_control, controlling, cooperate, attach, cooperating,
  attached, synchronize_user, erect, synchronized, inform, erected, confirm, informed, finished,
  confirmed, join, connect, settled, joining, beginning, Phase, Sends, Logged, logged,
}
use ferropipe_rdp.Connection.{
  to_join, count_data, look_at, max_skip, wait_rounds, wait_for_demand_active, send_confirm_active,
  send_client_info, finalization, establish, drain, channel_connection, recv_on_io, join_channels,
  basic_settings_exchange, SessionConfig,
}
use ferropipe_rdp.Common.{
  some, zero, inr, inl, leb, Bool-cases, suc, none, Option, refl, [], ◌∷◌, ℕ, List,
}
use ferropipe_rdp.Outcome.{ok}
use ferropipe_rdp.Mcs.Domain.{
  channel_join_request, parse_attach_user_confirm, parse_channel_join_confirm,
  parse_send_data_indication,
}
use ferropipe_rdp.Mcs.Connect.{parse_connect_response}
use ferropipe_rdp.Gcc.{
  ServerNetworkData, parse_server_network_data, parse_conference_create_response,
}
use ferropipe_rdp.Multitransport.{InitiateRequest}
use ferropipe_rdp.Caps.{DemandActive}
use ferropipe_rdp.Connection.Keeps.{
  KeepsTo-send_then, KeepsTo-send, KeepsTo-give, KeepsTo-bind, KeepsTo-answer, KeepsTo, IsLeft,
}

module _ {B : ByteOps} {cfg : SessionConfig} {T : Type 0} (X : PduTransport T) where
  basic_settings_exchange-KeepsTo :
      KeepsTo B cfg T beginning (basic_settings_exchange B (logged X) cfg) (λ _. settled)
  unfolding basic_settings_exchange
  basic_settings_exchange-KeepsTo = KeepsTo-send_then X beginning settled _ _ _ connect (
      KeepsTo-answer X settled parse_connect_response _ _ (λ gcc_response.
        KeepsTo-bind settled (give (parse_conference_create_response B gcc_response)) _
          (λ _. settled) _
          (KeepsTo-give settled (parse_conference_create_response B gcc_response) _ (λ a. refl))
          (λ blocks. KeepsTo-give settled (parse_server_network_data B blocks) _ (λ a. refl))))

  -- A channel that the sequence allows next, and the channels after it.
  first_join :
      (p : Phase) (user c : ℕ) (cs : List ℕ)
      → Sends B cfg p (channel_join_request B user c) (joining user cs)
      → KeepsTo B cfg T
          (joining user cs)
          (join_channels B (logged X) user cs)
          (λ _. joining user [])
      → KeepsTo B cfg T p (join_channels B (logged X) user (c ∷ cs)) (λ _. joining user [])
  unfolding join_channels
  first_join p user c cs h later = KeepsTo-send_then X p (joining user cs) _ _ _ h (
      KeepsTo-answer X (joining user cs) (parse_channel_join_confirm B) _ _ (λ confirmed.
        KeepsTo-bind (joining user cs) (join_channels B (logged X) user cs) _ (λ _. joining user [])
          _ later (λ joined s t. t)))

  join_channels-KeepsTo :
      (user : ℕ) (cs : List ℕ)
      → KeepsTo B cfg T
          (joining user cs)
          (join_channels B (logged X) user cs)
          (λ _. joining user [])
  unfolding join_channels
  join_channels-KeepsTo user [] = λ s t. t
  join_channels-KeepsTo user (c ∷ cs) =
      first_join (joining user (c ∷ cs)) user c cs (join user c cs) (join_channels-KeepsTo user cs)

  recv_on_io-KeepsTo : (p : Phase) → KeepsTo B cfg T p (recv_on_io B (logged X)) (λ _. p)
  unfolding recv_on_io
  recv_on_io-KeepsTo p =
      KeepsTo-answer X p (parse_send_data_indication B) _ _
        (λ payload. KeepsTo-give p (ok payload.1) _ (λ a. refl))

  send_client_info-KeepsTo :
      (user : ℕ)
      → KeepsTo B cfg T
          (joining user [])
          (send_client_info B (logged X) user cfg)
          (λ _. informed user)
  unfolding send_client_info
  send_client_info-KeepsTo user = KeepsTo-send X (joining user []) (informed user) _ (inform user)

  -- The Demand Active ends the rounds.
  next_round :
      (p : Phase) (rest : Run (Logged T) (Option InitiateRequest × DemandActive))
      (seen : Option InitiateRequest) (demand : Option DemandActive)
      → KeepsTo B cfg T p rest (λ _. p)
      → KeepsTo B cfg T p
          (elim demand [ some demand' ↦ give (ok (seen, demand')) | none ↦ rest ])
          (λ _. p)
  next_round p rest seen none h = h
  next_round p rest seen (some demand) h = λ s t. t

  wait_rounds-KeepsTo :
      (p : Phase) (n : ℕ) (m : Option InitiateRequest)
      → KeepsTo B cfg T p (wait_rounds B (logged X) n m) (λ _. p)
  unfolding wait_rounds
  wait_rounds-KeepsTo p zero m = λ s t. (p, t)
  wait_rounds-KeepsTo p (suc n) m =
      KeepsTo-bind p (recv_on_io B (logged X)) _ (λ _. p) _ (recv_on_io-KeepsTo p)
        (λ pdu.
          KeepsTo-bind p (give (look_at B m pdu)) _ (λ _. p) _
            (KeepsTo-give p (look_at B m pdu) _ (λ a. refl))
            (λ seen. next_round p _ seen.0 seen.1 (wait_rounds-KeepsTo p n seen.0)))

  wait_for_demand_active-KeepsTo :
      (p : Phase) → KeepsTo B cfg T p (wait_for_demand_active B (logged X) none) (λ _. p)
  unfolding wait_for_demand_active
  wait_for_demand_active-KeepsTo p = wait_rounds-KeepsTo p max_skip none

  send_confirm_active-KeepsTo :
      (user share_id : ℕ)
      → KeepsTo B cfg T
          (informed user)
          (send_confirm_active B (logged X) user share_id cfg)
          (λ _. confirmed user share_id)
  unfolding send_confirm_active
  send_confirm_active-KeepsTo user share_id =
      KeepsTo-send X (informed user) (confirmed user share_id) _ (confirm user share_id)

  drain-KeepsTo : (p : Phase) (n seen : ℕ) → KeepsTo B cfg T p (drain B (logged X) n seen) (λ _. p)
  unfolding drain
  drain-KeepsTo p zero seen = KeepsTo-give p (ok tt) _ (λ a. refl)
  drain-KeepsTo p (suc n) seen = elim (Bool-cases (leb 4 seen)) [
    | inl e ↦ rw (e, drain) (KeepsTo-give p (ok tt) _ (λ a. refl))
    | inr e ↦
        rw (e, drain)
          (KeepsTo-bind p (recv_on_io B (logged X)) _ (λ _. p) _ (recv_on_io-KeepsTo p)
            (λ pdu.
              KeepsTo-bind p (give (count_data B seen pdu)) _ (λ _. p) _
                (KeepsTo-give p (count_data B seen pdu) _ (λ a. refl))
                (λ seen'. drain-KeepsTo p n seen')))
  ]

  finalization-KeepsTo :
      (user share_id : ℕ)
      → KeepsTo B cfg T
          (confirmed user share_id)
          (finalization B (logged X) user share_id)
          (λ _. finished user share_id)
  unfolding finalization
  finalization-KeepsTo user share_id =
      KeepsTo-send_then X (confirmed user share_id) (synchronized user share_id) _ _ _
        (synchronize_user user share_id)
        (KeepsTo-send_then X (synchronized user share_id) (cooperating user share_id) _ _ _
          (cooperate user share_id)
          (KeepsTo-send_then X (cooperating user share_id) (controlling user share_id) _ _ _
            (request_control user share_id)
            (KeepsTo-send_then X (controlling user share_id) (finished user share_id) _ _ _
              (list_fonts user share_id) (drain-KeepsTo (finished user share_id) max_skip 0))))

  channel_connection-KeepsTo :
      (net : ServerNetworkData)
      → KeepsTo B cfg T settled
          (channel_connection B (logged X) net)
          (λ joined. joining joined.0 [])
  unfolding channel_connection
  channel_connection-KeepsTo net = KeepsTo-send_then X settled erected _ _ _ erect (
      KeepsTo-send_then X erected attached _ _ _ attach (
        KeepsTo-answer X attached (parse_attach_user_confirm B) _ _ (λ user.
          KeepsTo-bind attached (join_channels B (logged X) user (to_join user net)) _
            (λ _. joining user []) _
            (first_join attached user user _ (join_user user _) (join_channels-KeepsTo user _))
            (λ joined s t. t))))

  establish_keeps :
      KeepsTo B cfg T beginning
        (establish B (logged X) cfg)
        (λ session. finished session.user_id session.share_id)
  unfolding establish
  establish_keeps =
      KeepsTo-bind beginning (basic_settings_exchange B (logged X) cfg) _ (λ _. settled) _
        basic_settings_exchange-KeepsTo
        (λ net.
          KeepsTo-bind settled (channel_connection B (logged X) net) _ (λ j. joining j.0 []) _
            (channel_connection-KeepsTo net)
            (λ j.
              KeepsTo-bind (joining j.0 []) (send_client_info B (logged X) j.0 cfg) _
                (λ _. informed j.0) _ (send_client_info-KeepsTo j.0)
                (λ u.
                  KeepsTo-bind (informed j.0) (wait_for_demand_active B (logged X) none) _
                    (λ _. informed j.0) _ (wait_for_demand_active-KeepsTo (informed j.0))
                    (λ d.
                      KeepsTo-bind (informed j.0)
                        (send_confirm_active B (logged X) j.0 d.1.share_id cfg) _
                        (λ _. confirmed j.0 d.1.share_id) _
                        (send_confirm_active-KeepsTo j.0 d.1.share_id)
                        (λ u1.
                          KeepsTo-bind (confirmed j.0 d.1.share_id)
                            (finalization B (logged X) j.0 d.1.share_id) _
                            (λ _. finished j.0 d.1.share_id) _
                            (finalization-KeepsTo j.0 d.1.share_id) (λ u2. λ s t. t))))))

-- establish: over any transport, the PDUs that the client hands to it follow the sequence: a Channel
-- Join comes only for a user that was attached and Client Info only when every channel is joined,
-- and nothing comes out of order. If the call returns a session, the sequence is complete, for the
-- user and the share of that session. If it fails, the PDUs so far are the start of a sequence.
pub establish-IsLeft :
    {T : Type 0} (B : ByteOps) (X : PduTransport T) (cfg : SessionConfig) (t : T)
    → IsLeft B cfg T
        (λ session. finished session.user_id session.share_id)
        (establish B (logged X) cfg (record { state = t; log = [] }))
establish-IsLeft B X cfg t = establish_keeps X (record { state = t; log = [] }) nothing_sent
