-- ===== src/Connection/Strays.antt =====
-- connection.rs: the PDUs that come before the Demand Active, as a server sends them.
use ferropipe_rdp.Outcome.{index-get_or}
use ferropipe_rdp.Wire.{ByteOps, ByteLaws, list_bytes, lawful-eq, u16_le}
use ferropipe_rdp.Connection.Server.{scripted, on_io, map_list, answered}
use ferropipe_rdp.Common.{
  ne→==, ◌∙◌, ◌∙◌, sym, ◌≢◌, ◌*◌, ◌≢◌, subst, ◌*◌, ◌⊎◌, ◌^◌, ◌+◌, ◌%◌, ◌⊎◌, get_or, ap, ◌^◌, ◌+◌,
  ◌%◌, suc, refl, arith, some, none, ◌++◌, ◌≡◌, ◌<◌, ◌∷◌, [], All, ℕ, length, List, Option, Bytes,
}
use ferropipe_rdp.Connection.Waiting.{at_end, skip}
use ferropipe_rdp.Multitransport.{InitiateRequest, detect}
use ferropipe_rdp.Multitransport.Laws.{
  sent_request, IsInitiateRequest, detect_header_list, behind_header,
}
use ferropipe_rdp.Outcome.{short, Error, protocol, err, ok}
use ferropipe_rdp.Connection.Waiting.{wait_rounds-give_up, Skipped, IsPayload}
use ferropipe_rdp.Connection.{wait_for_demand_active, max_skip, look_at}
use ferropipe_rdp.Pdu.{share_control, parse_share_control}
use ferropipe_rdp.Connection.Finalization.{look_at-share_control}

-- A share control PDU by its type, source and body; a multitransport request behind the two halves
-- of a Basic Security Header, with its reserved field; and any PDU that is neither.
pub data Stray : Type 0 where
  share_pdu : ℕ → ℕ → Bytes → Stray
  transport_request : ℕ → ℕ → InitiateRequest → ℕ → Stray
  other_pdu : Bytes → Stray

abbrev pub payload_of : ByteOps → Stray → Bytes
payload_of B (share_pdu ty src body) = share_control B ty src body
payload_of B (transport_request flags flags_hi r reserved) =
    u16_le flags ++ (u16_le flags_hi ++ sent_request r reserved)
payload_of B (other_pdu payload) = payload

abbrev pub payloads_of : ByteOps → List Stray → List Bytes
payloads_of B [] = []
payloads_of B (s ∷ strays) = payload_of B s ∷ payloads_of B strays

-- The word at an offset.
abbrev word_at : Bytes → ℕ → ℕ
word_at payload off = get_or payload off 0 + 256 * get_or payload (off + 1) 0

-- No request stands at the offset: it has no room there, or its protocol is not one of the two.
abbrev pub HasNoRequest : Bytes → ℕ → Type 0
HasNoRequest payload off =
    (length payload < off + 24)
    ⊎ ((word_at payload (off + 4) ≢ 1) × (word_at payload (off + 4) ≢ 2))

-- The first word is no total length of a share control PDU.
abbrev pub IsNoSharePdu : Bytes → Type 0
IsNoSharePdu payload =
    (length payload < 6) ⊎ ((word_at payload 0 < 6) ⊎ (length payload < word_at payload 0))

-- A share control PDU is not of the type of a Demand Active (1). The flags of a request are such
-- that its header is no total length, as SEC_TRANSPORT_REQ (2), and the low half of its id is not
-- the number of a protocol.
abbrev pub IsStray : ByteOps → Stray → Type 0
IsStray B (share_pdu ty src body) =
    (ty < 16)
    × (src < 2 ^ 16)
    × (length body + 6 < 2 ^ 16)
    × (ty ≢ 1)
    × IsPayload (payload_of B (share_pdu ty src body))
IsStray B (transport_request flags flags_hi r reserved) =
    (flags < 6)
    × (flags_hi < 2 ^ 16)
    × IsInitiateRequest r
    × (r.request_id % 2 ^ 16 ≢ 1)
    × (r.request_id % 2 ^ 16 ≢ 2)
IsStray B (other_pdu payload) =
    IsPayload payload × IsNoSharePdu payload × HasNoRequest payload 0 × HasNoRequest payload 4

-- The first request of the PDUs, if none was seen before.
abbrev pub seen_after : Option InitiateRequest → Stray → Option InitiateRequest
seen_after none (transport_request flags flags_hi r reserved) = some r
seen_after m s = m

abbrev pub request_seen : Option InitiateRequest → List Stray → Option InitiateRequest
request_seen m [] = m
request_seen m (s ∷ strays) = request_seen (seen_after m s) strays

request_is_no_share :
    (flags flags_hi reserved : ℕ) (r : InitiateRequest)
    → flags < 6
    → parse_share_control list_bytes (u16_le flags ++ (u16_le flags_hi ++ sent_request r reserved))
      ≡ err (protocol "bad share control totalLength")
unfolding parse_share_control
request_is_no_share flags flags_hi reserved r h = ground arith

behind_header_ok :
    (flags flags_hi reserved : ℕ) (r : InitiateRequest)
    → r.request_id % 2 ^ 16 ≢ 1
    → r.request_id % 2 ^ 16 ≢ 2
    → behind_header flags flags_hi r reserved ≡ r
behind_header_ok flags flags_hi reserved r h1 h2 =
    rw (ne→== (r.request_id % 2 ^ 16) 1 h1, ne→== (r.request_id % 2 ^ 16) 2 h2) refl

look_at-request :
    (m : Option InitiateRequest) (flags flags_hi reserved : ℕ) (r : InitiateRequest)
    → IsStray list_bytes (transport_request flags flags_hi r reserved)
    → look_at list_bytes m (u16_le flags ++ (u16_le flags_hi ++ sent_request r reserved))
      ≡ ok (seen_after m (transport_request flags flags_hi r reserved), none)
unfolding look_at
look_at-request none flags flags_hi reserved r (hf, hh, hr, h1, h2) =
    rw
      (
        request_is_no_share flags flags_hi reserved r hf,
        detect_header_list flags flags_hi reserved r (omega arith) hh hr,
        behind_header_ok flags flags_hi reserved r h1 h2,
        look_at,
      )
      refl
look_at-request (some m) flags flags_hi reserved r (hf, hh, hr, h1, h2) =
    rw (request_is_no_share flags flags_hi reserved r hf, look_at) refl

other_is_no_share :
    (payload : Bytes)
    → IsNoSharePdu payload
    → (e : Error) × (parse_share_control list_bytes payload ≡ err e)
unfolding parse_share_control
other_is_no_share (a ∷ b ∷ c ∷ d ∷ e ∷ f ∷ rest) h =
    (protocol "bad share control totalLength", ground arith)
other_is_no_share payload h = (short 6 (length payload), ground arith)

detect-no_request :
    (payload : Bytes)
    → HasNoRequest payload 0
    → HasNoRequest payload 4
    → detect list_bytes payload ≡ ok none
unfolding detect
detect-no_request payload h0 h4 = ground (
  arith,
  index-get_or payload 4,
  index-get_or payload 5,
  index-get_or payload 8,
  index-get_or payload 9,
)

look_at-other :
    (m : Option InitiateRequest) (payload : Bytes)
    → IsStray list_bytes (other_pdu payload)
    → look_at list_bytes m payload ≡ ok (m, none)
unfolding look_at
look_at-other none payload (hp, hs, h0, h4) =
    rw ((other_is_no_share payload hs).1, detect-no_request payload h0 h4, look_at) refl
look_at-other (some m) payload (hp, hs, h0, h4) =
    rw ((other_is_no_share payload hs).1, look_at) refl

look_at-stray :
    (m : Option InitiateRequest) (s : Stray)
    → IsStray list_bytes s
    → look_at list_bytes m (payload_of list_bytes s) ≡ ok (seen_after m s, none)
look_at-stray none (share_pdu ty src body) (ht, hs, hb, hd, hp) =
    look_at-share_control none ty src body ht hs hb hd
look_at-stray (some m) (share_pdu ty src body) (ht, hs, hb, hd, hp) =
    look_at-share_control (some m) ty src body ht hs hb hd
look_at-stray m (transport_request flags flags_hi r reserved) h =
    look_at-request m flags flags_hi reserved r h
look_at-stray none (other_pdu payload) h = look_at-other none payload h
look_at-stray (some m) (other_pdu payload) h = look_at-other (some m) payload h

pub strays-Skipped :
    (m : Option InitiateRequest) (strays : List Stray)
    → All (IsStray list_bytes) strays
    → Skipped list_bytes m (payloads_of list_bytes strays) (request_seen m strays)
strays-Skipped m [] h = at_end m
strays-Skipped m (s ∷ strays) (h, hs) =
    skip m (seen_after m s) (request_seen (seen_after m s) strays) (payload_of list_bytes s)
      (payloads_of list_bytes strays) (look_at-stray m s h)
      (strays-Skipped (seen_after m s) strays hs)

stray-IsPayload : (s : Stray) → IsStray list_bytes s → IsPayload (payload_of list_bytes s)
stray-IsPayload (share_pdu ty src body) h = h.4
stray-IsPayload (transport_request flags flags_hi r reserved) h =
    let cookie : length r.security_cookie ≡ 16 = h.2.2 in omega (arith, cookie)
stray-IsPayload (other_pdu payload) h = h.0

pub strays-IsPayload :
    (strays : List Stray)
    → All (IsStray list_bytes) strays
    → All IsPayload (payloads_of list_bytes strays)
strays-IsPayload [] h = tt
strays-IsPayload (s ∷ strays) (h, hs) = (stray-IsPayload s h, strays-IsPayload strays hs)

pub length-payloads_of :
    (B : ByteOps) (strays : List Stray) → length (payloads_of B strays) ≡ length strays
length-payloads_of B [] = refl
length-payloads_of B (s ∷ strays) = ap (λ (n : ℕ). suc n) (length-payloads_of B strays)

abbrev GivesUp : ByteOps → Type 0
GivesUp B =
    (m : Option InitiateRequest) (strays : List Stray) (more sent_pdus : List Bytes)
    → All (IsStray B) strays
    → length strays ≡ max_skip
    → wait_for_demand_active B scripted m
        (answered (map_list on_io (payloads_of B strays) ++ more) sent_pdus)
      ≡ (answered more sent_pdus, err (protocol "no Demand Active PDU received"))

give_up_list : GivesUp list_bytes
unfolding wait_for_demand_active
give_up_list m strays more sent_pdus h hn =
    wait_rounds-give_up max_skip m (request_seen m strays) (payloads_of list_bytes strays) more
      sent_pdus (strays-Skipped m strays h) (strays-IsPayload strays h)
      (length-payloads_of list_bytes strays ∙ hn)

-- wait_for_demand_active: after 16 payloads on the I/O channel, of less than 16384 bytes each, the
-- client gives up with an error, and reads no more of what the server says. Each payload is a share
-- control PDU of another type than a Demand Active; a multitransport request, of which the first
-- half of the header is below 6, and the low half of the id neither 1 nor 2; or a PDU whose first
-- word is no total length of a share control PDU, with no request at its front or behind four bytes.
pub wait_for_demand_active-give_up :
    {B : ByteOps} (L : ByteLaws B) (m : Option InitiateRequest) (strays : List Stray)
    (more sent_pdus : List Bytes)
    → All (IsStray B) strays
    → length strays ≡ max_skip
    → wait_for_demand_active B scripted m
        (answered (map_list on_io (payloads_of B strays) ++ more) sent_pdus)
      ≡ (answered more sent_pdus, err (protocol "no Demand Active PDU received"))
wait_for_demand_active-give_up L = subst GivesUp (sym (lawful-eq L)) give_up_list
