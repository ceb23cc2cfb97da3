-- ===== src/Connection/Finalization.antt =====
-- connection.rs: the Demand Active is taken, and the finalization runs to its end.
use ferropipe_rdp.Wire.{ByteOps, list_bytes}
use ferropipe_rdp.Connection.Server.{scripted, on_io, map_list, answered}
use ferropipe_rdp.Caps.{DemandActive}
use ferropipe_rdp.Common.{
  zero, lt→leb, append-nil, sym, refl, ne→==, le→leb, ◌∙◌, ◌∙◌, suc, some, none, ap, ◌≢◌, ◌≢◌,
  arith, [], ◌^◌, ◌∷◌, ◌^◌, ◌+◌, ◌≡◌, ◌<◌, ◌≡◌, length, All, ◌<◌, ◌++◌, Option, Bytes, ℕ, List,
}
use ferropipe_rdp.Connection.{
  max_skip, io_channel, send_on_io, look_at, finalization, drain, count_data,
}
use ferropipe_rdp.Multitransport.{InitiateRequest}
use ferropipe_rdp.Connection.Waiting.{recv_on_io_lem, IsPayload}
use ferropipe_rdp.Mcs.Domain.{send_data_request}
use ferropipe_rdp.Pdu.{
  font_list, pdutype2_fontlist, ctrlaction_request_control, ctrlaction_cooperate, control,
  pdutype2_control, synchronize, pdutype_data, parse_share_control, pdutype_demandactive,
  pdutype2_synchronize, share_data, share_control,
}
use ferropipe_rdp.Caps.Laws.{parse-sent_demand_list, sent_demand, IsDemandActive}
use ferropipe_rdp.Outcome.{ok}
use ferropipe_rdp.Pdu.Laws.{
  parse-share_control_list, parse_share_data-sent_data, sent_data, share_control-sent_control,
  share_data-sent_data,
}

parse_share_control_alone :
    (ty src : ℕ) (body : Bytes)
    → ty < 16
    → src < 2 ^ 16
    → length body + 6 < 2 ^ 16
    → parse_share_control list_bytes (share_control list_bytes ty src body)
      ≡ ok (record { pdu_type = ty; pdu_source = src }, body)
parse_share_control_alone ty src body ht hs hb =
    ap (parse_share_control list_bytes) (sym (append-nil (share_control list_bytes ty src body)))
    ∙ parse-share_control_list ty src body [] ht hs hb

-- A share control PDU of another type is skipped.
pub look_at-share_control :
    (m : Option InitiateRequest) (ty src : ℕ) (body : Bytes)
    → ty < 16
    → src < 2 ^ 16
    → length body + 6 < 2 ^ 16
    → ty ≢ pdutype_demandactive
    → look_at list_bytes m (share_control list_bytes ty src body) ≡ ok (m, none)
unfolding look_at
look_at-share_control m ty src body ht hs hb hd =
    rw (parse_share_control_alone ty src body ht hs hb, look_at, ne→== ty pdutype_demandactive hd)
      refl

-- The Demand Active, from the server's channel.
abbrev pub demand_pdu : ByteOps → DemandActive → Bytes → Bytes
demand_pdu B demand source =
    share_control B pdutype_demandactive 0x03EA (sent_demand B demand source 0 0 ++ [])

pub look_at-demand_pdu :
    (m : Option InitiateRequest) (demand : DemandActive) (source : Bytes)
    → IsDemandActive demand
    → length source < 2 ^ 16
    → length (sent_demand list_bytes demand source 0 0 ++ []) + 6 < 2 ^ 16
    → look_at list_bytes m (demand_pdu list_bytes demand source) ≡ ok (m, some demand)
unfolding look_at
look_at-demand_pdu m demand source hd hs hl =
    rw
      (
        parse_share_control_alone pdutype_demandactive 0x03EA
            (sent_demand list_bytes demand source 0 0 ++ []) (omega arith) (omega arith) hl,
        look_at,
        parse-sent_demand_list demand source 0 0 [] hd hs,
      )
      refl

-- A data PDU of the server: its second type and its body.
abbrev pub reply_pdu : ByteOps → ℕ → ℕ × Bytes → Bytes
reply_pdu B share_id (ty2, body) = share_data B 0x03EA share_id ty2 body

abbrev pub IsReply : ℕ × Bytes → Type 0
IsReply (ty2, body) = length body + 18 < 0x4000

count_data-reply_pdu :
    (seen share_id ty2 : ℕ) (body : Bytes)
    → IsReply (ty2, body)
    → count_data list_bytes seen (reply_pdu list_bytes share_id (ty2, body)) ≡ ok (seen + 1)
unfolding count_data
count_data-reply_pdu seen share_id ty2 body h =
    rw
      (
        share_data-sent_data 0x03EA share_id ty2 body,
        parse_share_control_alone pdutype_data 0x03EA (sent_data share_id ty2 body) (omega arith)
            (omega arith) (omega (arith, h)),
        count_data,
        parse_share_data-sent_data share_id ty2 body,
      )
      refl

length-reply_pdu :
    (share_id ty2 : ℕ) (body : Bytes)
    → IsReply (ty2, body)
    → IsPayload (reply_pdu list_bytes share_id (ty2, body))
length-reply_pdu share_id ty2 body h =
    rw
      (
        share_data-sent_data 0x03EA share_id ty2 body,
        share_control-sent_control pdutype_data 0x03EA (sent_data share_id ty2 body) (omega arith)
            (omega (arith, h)),
      )
      (omega (arith, h))

drain_lem :
    (n seen share_id : ℕ) (replies : List (ℕ × Bytes)) (more sent_pdus : List Bytes)
    → All IsReply replies
    → seen + length replies ≡ 4
    → length replies < n
    → drain list_bytes scripted n seen (
        answered
          (map_list on_io (map_list (reply_pdu list_bytes share_id) replies) ++ more)
          sent_pdus)
      ≡ (answered more sent_pdus, ok tt)
unfolding drain
drain_lem zero seen share_id replies more sent_pdus h e hn = absurd (omega arith)
drain_lem (suc n) seen share_id [] more sent_pdus h e hn =
    rw (le→leb 4 seen (omega (arith, e)), drain) refl
drain_lem (suc n) seen share_id ((ty2, body) ∷ replies) more sent_pdus (h, hs) e hn =
    rw
      (
        lt→leb 4 seen (omega (arith, e)),
        recv_on_io_lem (reply_pdu list_bytes share_id (ty2, body))
            (map_list on_io (map_list (reply_pdu list_bytes share_id) replies) ++ more) sent_pdus
            (length-reply_pdu share_id ty2 body h),
        count_data-reply_pdu seen share_id ty2 body h,
        drain_lem n (seen + 1) share_id replies more sent_pdus hs (omega (arith, e))
            (omega (arith, hn)),
        drain,
      )
      refl

-- The four PDUs of the client's finalization.
abbrev pub finalization_pdus : ByteOps → ℕ → ℕ → List Bytes
finalization_pdus B user share_id =
    share_data B user share_id pdutype2_synchronize (synchronize B io_channel)
    ∷ share_data B user share_id pdutype2_control (control B ctrlaction_cooperate 0 0)
    ∷ share_data B user share_id pdutype2_control (control B ctrlaction_request_control 0 0)
    ∷ share_data B user share_id pdutype2_fontlist (font_list B)
    ∷ []

abbrev pub to_io : ByteOps → ℕ → Bytes → Bytes
to_io B user pdu = send_data_request B user io_channel pdu

four_sent :
    (xs : List Bytes) (a b c d : Bytes)
    → (((xs ++ (a ∷ [])) ++ (b ∷ [])) ++ (c ∷ [])) ++ (d ∷ []) ≡ xs ++ (a ∷ b ∷ c ∷ d ∷ [])
four_sent [] a b c d = refl
four_sent (x ∷ xs) a b c d = ap (λ ys. x ∷ ys) (four_sent xs a b c d)

pub finalization_lem :
    (user share_id : ℕ) (replies : List (ℕ × Bytes)) (more sent_pdus : List Bytes)
    → All IsReply replies
    → length replies ≡ 4
    → finalization list_bytes scripted user share_id (
        answered
          (map_list on_io (map_list (reply_pdu list_bytes share_id) replies) ++ more)
          sent_pdus)
      ≡ (
        answered more (
            sent_pdus
            ++ map_list (to_io list_bytes user) (finalization_pdus list_bytes user share_id)),
        ok tt,
      )
unfolding finalization send_on_io
finalization_lem user share_id replies more sent_pdus h e =
    drain_lem max_skip 0 share_id replies more _ h (omega (arith, e)) (omega (arith, e))
    ∙ ap (λ s. (answered more s, ok tt)) (four_sent sent_pdus _ _ _ _)
