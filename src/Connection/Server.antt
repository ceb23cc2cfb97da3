-- ===== src/Connection/Server.antt =====
-- connection.rs: a server whose answers are written down, and what it says when the connection
-- succeeds, in the encodings of the crate.
use ferropipe_rdp.Transport.{PduTransport, Run}
use ferropipe_rdp.Wire.{u16_be}
use ferropipe_rdp.Mcs.Domain.Laws.{sent}
use ferropipe_rdp.Common.{[], ◌∷◌, ◌++◌, ◌∷◌, ◌++◌, ℕ, List, Bytes}
use ferropipe_rdp.Outcome.{protocol, ok, err, Result}
use ferropipe_rdp.Mcs.Domain.{initiator}
use ferropipe_rdp.Connection.{io_channel}

-- What it has still to answer, and what it was sent.
pub record Script : Type 0 where
  pub responses : List Bytes
  pub sent_pdus : List Bytes

abbrev script_send : Bytes → Run Script (Unit {0})
script_send pdu t =
    (record { responses = t.responses; sent_pdus = t.sent_pdus ++ (pdu ∷ []) }, ok tt)

abbrev next_response : List Bytes → List Bytes → Script × Result Bytes
next_response [] sent_pdus =
    (record { responses = []; sent_pdus = sent_pdus }, err (protocol "mock: no more responses"))
next_response (r ∷ rs) sent_pdus = (record { responses = rs; sent_pdus = sent_pdus }, ok r)

abbrev pub scripted : PduTransport Script
scripted = record { send = script_send; recv = λ t. next_response t.responses t.sent_pdus }

-- The user channel that the server takes for itself.
abbrev server_user : ℕ
server_user = 1002

-- Attach User Confirm and Channel Join Confirm.
abbrev pub attach_confirm : ℕ → Bytes
attach_confirm user = 0x2E ∷ 0 ∷ u16_be (initiator user)

abbrev pub join_confirm : ℕ → ℕ → Bytes
join_confirm user channel =
    0x3E ∷ 0 ∷ (u16_be (initiator user) ++ (u16_be channel ++ u16_be channel))

-- A PDU on the I/O channel.
abbrev pub on_io : Bytes → Bytes
on_io payload = 0x68 ∷ sent server_user io_channel payload

module _ {A C : Type 0} where
  abbrev pub map_list : (A → C) → List A → List C
  map_list f [] = []
  map_list f (x ∷ xs) = f x ∷ map_list f xs

abbrev pub answered : List Bytes → List Bytes → Script
answered responses sent_pdus = record { responses = responses; sent_pdus = sent_pdus }
