-- ===== src/Pdu/Laws.antt =====
-- pdu.rs: what is wrapped is unwrapped again.
use ferropipe_rdp.Wire.{ByteOps, ByteLaws, list_bytes, lawful-eq, u16_le, u32_le}
use ferropipe_rdp.Pdu.{
  ShareControlHeader, pdutype_data, share_data, share_control, parse_share_data,
  parse_share_control,
}
use ferropipe_rdp.Common.{
  take_left, length-append, refl, arith, ◌%◌, ◌∷◌, ◌^◌, ◌+◌, ◌≢◌, ◌≡◌, ◌<◌, ◌++◌, ◌≢◌, ◌≡◌, length,
  ◌<◌, ◌++◌, Bytes, ℕ,
}
use ferropipe_rdp.Outcome.{Result, ◌>>=◌, panic, ok}
use ferropipe_rdp.Common.Bits.{bit_and-0x0f, bit_or-low_left}

-- The bytes of a PDU behind a share control header.
abbrev pub sent_control : ℕ → ℕ → Bytes → Bytes
sent_control ty src body = u16_le (length body + 6) ++ (u16_le (ty + 16) ++ (u16_le src ++ body))

pub share_control-sent_control :
    (ty src : ℕ) (body : Bytes)
    → ty < 16
    → length body + 6 < 2 ^ 16
    → share_control list_bytes ty src body ≡ sent_control ty src body
unfolding share_control
share_control-sent_control ty src body ht hb =
    rw (bit_or-low_left 4 1 ty (omega arith)) (ground arith)

pub parse-share_control_list :
    (ty src : ℕ) (body rest : Bytes)
    → ty < 16
    → src < 2 ^ 16
    → length body + 6 < 2 ^ 16
    → parse_share_control list_bytes (share_control list_bytes ty src body ++ rest)
      ≡ ok (record { pdu_type = ty; pdu_source = src }, body)
unfolding parse_share_control
parse-share_control_list ty src body rest ht hs hb =
    rw (share_control-sent_control ty src body ht hb) (
      ground
        (arith, length-append body rest, take_left body rest (length body), bit_and-0x0f (ty + 16)))

-- The data PDU behind its share data header.
abbrev pub sent_data : ℕ → ℕ → Bytes → Bytes
sent_data share_id ty2 body =
    u32_le share_id ++ (0 ∷ 1 ∷ (u16_le ((length body + 4) % 2 ^ 16) ++ (ty2 ∷ 0 ∷ 0 ∷ 0 ∷ body)))

pub share_data-sent_data :
    (src share_id ty2 : ℕ) (body : Bytes)
    → share_data list_bytes src share_id ty2 body
      ≡ share_control list_bytes pdutype_data src (sent_data share_id ty2 body)
unfolding share_data
share_data-sent_data src share_id ty2 body = refl

pub parse_share_data-sent_data :
    (share_id ty2 : ℕ) (body : Bytes)
    → parse_share_data (sent_data share_id ty2 body) ≡ ok (ty2, body)
unfolding parse_share_data
parse_share_data-sent_data share_id ty2 body = ground arith

-- Both headers are taken off again.
abbrev pub unwrap_share_data : ByteOps → Bytes → Result (ShareControlHeader × (ℕ × Bytes))
unwrap_share_data B pdu = do
  (header, body) ← parse_share_control B pdu
  data' ← parse_share_data body
  ok (header, data')

data_pdu_list :
    (src share_id ty2 : ℕ) (body rest : Bytes)
    → src < 2 ^ 16
    → length body + 18 < 2 ^ 16
    → unwrap_share_data list_bytes (share_data list_bytes src share_id ty2 body ++ rest)
      ≡ ok (record { pdu_type = pdutype_data; pdu_source = src }, (ty2, body))
data_pdu_list src share_id ty2 body rest hs hb =
    rw
      (
        share_data-sent_data src share_id ty2 body,
        parse-share_control_list pdutype_data src (sent_data share_id ty2 body) rest (omega arith)
            hs (omega arith),
        parse_share_data-sent_data share_id ty2 body,
      )
      refl

-- share_data: a data PDU whose length fits in its 16-bit field is read back by parse_share_control
-- and parse_share_data, with its type, its source, its second type and its body, whatever follows.
pub parse_share_data-share_data :
    {B : ByteOps} (L : ByteLaws B) (src share_id ty2 : ℕ) (body rest : Bytes)
    → src < 2 ^ 16
    → length body + 18 < 2 ^ 16
    → unwrap_share_data B (share_data B src share_id ty2 body ++ rest)
      ≡ ok (record { pdu_type = pdutype_data; pdu_source = src }, (ty2, body))
parse_share_data-share_data L = rw (lawful-eq L) data_pdu_list

pub parse_share_control-ne-panic_list : (buf : Bytes) → parse_share_control list_bytes buf ≢ panic
unfolding parse_share_control
parse_share_control-ne-panic_list (a ∷ b ∷ c ∷ d ∷ e ∷ f ∷ r) = λ p. ground arith
parse_share_control-ne-panic_list _ = λ p. ground arith

pub parse_share_data-ne-panic : (buf : Bytes) → parse_share_data buf ≢ panic
unfolding parse_share_data
parse_share_data-ne-panic (a ∷ b ∷ c ∷ d ∷ e ∷ f ∷ g ∷ h ∷ i ∷ r) = λ p. ground arith
parse_share_data-ne-panic _ = λ p. ground arith
