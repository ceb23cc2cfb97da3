-- ===== src/Connection/Waiting.antt =====
-- connection.rs: what comes before the Demand Active is skipped.
use ferropipe_rdp.Wire.{ByteOps, list_bytes}
use ferropipe_rdp.Connection.Server.{scripted, on_io, map_list, answered}
use ferropipe_rdp.Common.{
  zero, suc, refl, arith, some, none, ◌++◌, ◌≡◌, ◌≡◌, ◌<◌, ◌∷◌, [], All, ◌<◌, ℕ, length, List,
  Option, Bytes,
}
use ferropipe_rdp.Connection.{io_channel, look_at, wait_rounds, recv_on_io}
use ferropipe_rdp.Multitransport.{InitiateRequest}
use ferropipe_rdp.Caps.{DemandActive}
use ferropipe_rdp.Outcome.{protocol, err, ok}
use ferropipe_rdp.Mcs.Domain.Laws.{indication-sent}

-- PDUs that are passed over, and the multitransport request seen before and after them.
pub data Skipped (B : ByteOps)
    : Option InitiateRequest → List Bytes → Option InitiateRequest → Type 0 where
  at_end : (m : Option InitiateRequest) → Skipped B m [] m
  skip :
      (m m' m'' : Option InitiateRequest) (pdu : Bytes) (pdus : List Bytes)
      → look_at B m pdu ≡ ok (m', none)
      → Skipped B m' pdus m''
      → Skipped B m (pdu ∷ pdus) m''

abbrev pub IsPayload : Bytes → Type 0
IsPayload payload = length payload < 0x4000

pub recv_on_io_lem :
    (payload : Bytes) (more sent_pdus : List Bytes)
    → IsPayload payload
    → recv_on_io list_bytes scripted (answered (on_io payload ∷ more) sent_pdus)
      ≡ (answered more sent_pdus, ok payload)
unfolding recv_on_io
recv_on_io_lem payload more sent_pdus h =
    rw (indication-sent 1002 io_channel payload (omega arith) h) refl

pub wait_rounds_lem :
    (n : ℕ) (m m' : Option InitiateRequest) (strays : List Bytes) (last : Bytes)
    (demand : DemandActive) (more sent_pdus : List Bytes)
    → Skipped list_bytes m strays m'
    → All IsPayload strays
    → IsPayload last
    → length strays < n
    → look_at list_bytes m' last ≡ ok (m', some demand)
    → wait_rounds list_bytes scripted n m
        (answered (map_list on_io strays ++ (on_io last ∷ more)) sent_pdus)
      ≡ (answered more sent_pdus, ok (m', demand))
unfolding wait_rounds
wait_rounds_lem zero m m' strays last demand more sent_pdus s h hl hn e = absurd (omega arith)
wait_rounds_lem (suc n) m m' _ last demand more sent_pdus (at_end _) h hl hn e =
    rw (recv_on_io_lem last more sent_pdus hl, e) refl
wait_rounds_lem (suc n) m m' _ last demand more sent_pdus (skip _ m1 _ pdu pdus k s) h hl hn e =
    rw
      (
        recv_on_io_lem pdu (map_list on_io pdus ++ (on_io last ∷ more)) sent_pdus h.0,
        k,
        wait_rounds_lem n m1 m' pdus last demand more sent_pdus s h.1 hl (omega arith) e,
      )
      refl

pub wait_rounds-give_up :
    (n : ℕ) (m m' : Option InitiateRequest) (strays : List Bytes) (more sent_pdus : List Bytes)
    → Skipped list_bytes m strays m'
    → All IsPayload strays
    → length strays ≡ n
    → wait_rounds list_bytes scripted n m (answered (map_list on_io strays ++ more) sent_pdus)
      ≡ (answered more sent_pdus, err (protocol "no Demand Active PDU received"))
unfolding wait_rounds
wait_rounds-give_up zero m m' _ more sent_pdus (at_end _) h hn = refl
wait_rounds-give_up (suc n) m m' _ more sent_pdus (at_end _) h hn = absurd (omega arith)
wait_rounds-give_up zero m m' _ more sent_pdus (skip _ m1 _ pdu pdus k s) h hn =
    absurd (omega arith)
wait_rounds-give_up (suc n) m m' _ more sent_pdus (skip _ m1 _ pdu pdus k s) h hn =
    rw
      (
        recv_on_io_lem pdu (map_list on_io pdus ++ more) sent_pdus h.0,
        k,
        wait_rounds-give_up n m1 m' pdus more sent_pdus s h.1 (omega arith),
      )
      refl
