-- ===== src/Mcs/Domain/Laws.antt =====
-- mcs/domain.rs: the requests and the parsers of the confirms and indications.
use ferropipe_rdp.Wire.{ByteLaws, ByteOps, u16_be, list_bytes, lawful-eq}
use ferropipe_rdp.Mcs.Per.Lengths.{
  length_octets, write_length-octets, read_length-octets, read_length-long,
}
use ferropipe_rdp.Common.{
  ltb→le, ◌%◌, inr, ltb→lt, ◌*◌, inl, IsByte, ◌≢◌, ◌≢◌, ltb, if◌then◌else◌, Bool-cases,
  length-append, arith, [], ◌+◌, ◌≤◌, ◌≡◌, ◌≤◌, ◌≡◌, ◌-◌, ◌++◌, ◌^◌, ◌++◌, ◌∷◌, ◌<◌, length, ◌<◌, ℕ,
  Bytes,
}
use ferropipe_rdp.Mcs.Domain.{
  mcs_base, channel_join_request, parse_channel_join_confirm, parse_attach_user_confirm,
  send_data_indication_index, initiator, choice, send_data_request, parse_send_data_indication,
}
use ferropipe_rdp.Outcome.{panic, Result, slice_end, protocol, ok, err, slice}
use ferropipe_rdp.Mcs.Per.{read_length}

-- The PDU with the choice byte of a Send Data Indication, as a server sends it on.
abbrev pub as_indication : Bytes → Bytes
as_indication [] = []
as_indication (tag ∷ rest) = choice send_data_indication_index ∷ rest

-- The octets of a Send Data Request behind its choice byte.
abbrev pub sent : ℕ → ℕ → Bytes → Bytes
sent user_id channel_id payload =
    u16_be (initiator user_id)
    ++ (u16_be channel_id ++ (0x70 ∷ (length_octets (length payload) ++ payload)))

send_data_request-sent :
    (u c : ℕ) (p : Bytes) → send_data_request list_bytes u c p ≡ 0x64 ∷ sent u c p
unfolding send_data_request
send_data_request-sent u c p = rw (write_length-octets _ (length p))

abbrev sent_head : ℕ → ℕ → Bytes → Bytes
sent_head u c p = 0x68 ∷ (u16_be (initiator u) ++ (u16_be c ++ (0x70 ∷ length_octets (length p))))

consumed_part :
    (head p : Bytes)
    → slice (head ++ p) (length (head ++ p) - length p) (length (head ++ p) - length p + length p)
      ≡ ok p
consumed_part head p =
    slice_end head p _ _ (omega (arith, length-append head p)) (omega (arith, length-append head p))

pub indication-sent :
    (u c : ℕ) (p : Bytes)
    → c < 2 ^ 16
    → length p < 0x4000
    → parse_send_data_indication list_bytes (0x68 ∷ sent u c p) ≡ ok (c, p)
unfolding parse_send_data_indication
indication-sent u c p hc hp =
    rw (read_length-octets (length p) p hp) (ground (arith, consumed_part (sent_head u c p) p))

indication-sent_long :
    (u c : ℕ) (p : Bytes)
    → 0x4000 ≤ length p
    → parse_send_data_indication list_bytes (0x68 ∷ sent u c p)
      ≡ err (protocol "unsupported PER fragmented length")
unfolding parse_send_data_indication
indication-sent_long u c p k = rw (read_length-long (length p) p k) (ground arith)

abbrev pub indication_result : ℕ → Bytes → Result (ℕ × Bytes)
indication_result c p =
    if ltb (length p) 0x4000 then ok (c, p) else err (protocol "unsupported PER fragmented length")

indication-request_list :
    (u c : ℕ) (p : Bytes)
    → c < 2 ^ 16
    → parse_send_data_indication list_bytes (as_indication (send_data_request list_bytes u c p))
      ≡ indication_result c p
indication-request_list u c p hc =
    rw (send_data_request-sent u c p) (elim (Bool-cases (ltb (length p) 0x4000)) [
      | inl e ↦ rw e (indication-sent u c p hc (ltb→lt _ _ e))
      | inr e ↦ rw e (indication-sent_long u c p (ltb→le _ _ e))
    ])

-- A Send Data Request, taken as the indication that the server makes of it, yields its channel and
-- its payload where the payload is shorter than 16384 bytes. A longer one, however long, has its
-- length field in a form that the parser refuses.
pub parse_indication-send_data_request :
    (B : ByteOps)
    → ByteLaws B
    → (u c : ℕ) (p : Bytes) → c < 2 ^ 16
    → parse_send_data_indication B (as_indication (send_data_request B u c p))
      ≡ indication_result c p
parse_indication-send_data_request B L = rw (lawful-eq L) indication-request_list

-- The user that the server assigned, in the PDUs that name it.
abbrev pub AssignedUser : ByteOps → ℕ → ℕ → Bytes → ℕ → ℕ → Type 0
AssignedUser B hi lo rest c user =
    (parse_attach_user_confirm B (0x2E ∷ 0 ∷ hi ∷ lo ∷ rest) ≡ ok user)
    × (channel_join_request B user c ≡ 0x38 ∷ hi ∷ lo ∷ u16_be c)

pub joined_user_list :
    (hi lo : ℕ) (rest : Bytes) (c : ℕ)
    → IsByte hi
    → IsByte lo
    → AssignedUser list_bytes hi lo rest c ((256 * hi + lo + mcs_base) % 2 ^ 16)
unfolding parse_attach_user_confirm channel_join_request
joined_user_list hi lo rest c h l = (ground arith, ground arith)

-- The initiator of an Attach User Confirm is read as the user `1001` above it (modulo 2 ^ 16), and
-- a Channel Join Request for that user carries the very same two bytes, whatever they are.
pub channel_join-attach_user :
    (B : ByteOps)
    → ByteLaws B
    → (hi lo : ℕ) (rest : Bytes) (c : ℕ) → IsByte hi
    → IsByte lo
    → AssignedUser B hi lo rest c ((256 * hi + lo + mcs_base) % 2 ^ 16)
channel_join-attach_user B L = rw (lawful-eq L) joined_user_list

attach_ne_panic : (buf : Bytes) → parse_attach_user_confirm list_bytes buf ≢ panic
unfolding parse_attach_user_confirm
attach_ne_panic (a ∷ b ∷ c ∷ d ∷ r) = λ e. ground arith
attach_ne_panic _ = λ e. ground arith

join_ne_panic : (buf : Bytes) → parse_channel_join_confirm list_bytes buf ≢ panic
unfolding parse_channel_join_confirm
join_ne_panic (a ∷ b ∷ c ∷ d ∷ e ∷ f ∷ g ∷ h ∷ r) = λ p. ground arith
join_ne_panic _ = λ p. ground arith

indication_ne_panic : (buf : Bytes) → parse_send_data_indication list_bytes buf ≢ panic
unfolding parse_send_data_indication read_length
indication_ne_panic (a ∷ b ∷ c ∷ d ∷ e ∷ f ∷ g ∷ h ∷ r) = λ p. ground arith
indication_ne_panic _ = λ p. ground arith

-- The three parsers of what the server sends never panic, whatever the bytes.
pub parsers-ne-panic :
    (B : ByteOps)
    → ByteLaws B
    → (buf : Bytes)
    → (parse_attach_user_confirm B buf ≢ panic)
      × (parse_channel_join_confirm B buf ≢ panic)
      × (parse_send_data_indication B buf ≢ panic)
parsers-ne-panic B L =
    rw (lawful-eq L) (λ buf. (attach_ne_panic buf, join_ne_panic buf, indication_ne_panic buf))
