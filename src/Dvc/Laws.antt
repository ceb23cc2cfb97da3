-- ===== src/Dvc/Laws.antt =====
-- dvc.rs: what is written is parsed back.
use ferropipe_rdp.Wire.{ByteOps, ByteLaws, list_bytes, lawful-eq}
use ferropipe_rdp.Dvc.{
  data_first, close, until_zero, create, cmd_capability, read_channel_id, parse_body, parse,
  data_message, capabilities_response, data_pdu, capabilities,
}
use ferropipe_rdp.Common.{bit_and, ◌/◌, [], ◌∷◌, ◌≢◌, ◌≢◌, arith, ◌≡◌, ◌≡◌, ◌^◌, ◌<◌, ◌<◌, Bytes, ℕ}
use ferropipe_rdp.Outcome.{>>=-ne-panic, ◌>>=◌, panic, Result, ok}
use ferropipe_rdp.Common.Utf8.{from_utf8_lossy}

parse-data_list :
    (id : ℕ) (payload : Bytes)
    → id < 2 ^ 32
    → parse list_bytes (data_message list_bytes id payload) ≡ ok (data_pdu id payload)
unfolding parse data_message
parse-data_list id payload h = ground arith

-- data, parse: a payload sent on a 32-bit channel id is parsed back, with the id.
pub parse-data :
    {B : ByteOps} (L : ByteLaws B) (id : ℕ) (payload : Bytes)
    → id < 2 ^ 32
    → parse B (data_message B id payload) ≡ ok (data_pdu id payload)
parse-data L = rw (lawful-eq L) parse-data_list

parse-capabilities_list :
    (version : ℕ)
    → version < 2 ^ 16
    → parse list_bytes (capabilities_response list_bytes version) ≡ ok (capabilities version)
unfolding parse capabilities_response
parse-capabilities_list version h = ground arith

read_channel_id-ne-panic : (buf : Bytes) (cb : ℕ) → read_channel_id list_bytes buf cb ≢ panic
unfolding read_channel_id
read_channel_id-ne-panic [] cb = ground arith
read_channel_id-ne-panic (a ∷ []) cb = ground arith
read_channel_id-ne-panic (a ∷ b ∷ []) cb = ground arith
read_channel_id-ne-panic (a ∷ b ∷ c ∷ []) cb = ground arith
read_channel_id-ne-panic (a ∷ b ∷ c ∷ d ∷ r) cb = ground arith

-- The id is read, and what follows does not panic.
id_then :
    {A : Type 0} (buf : Bytes) (cb : ℕ) (f : ℕ × Bytes → Result A)
    → ((p : ℕ × Bytes) → f p ≢ panic)
    → (read_channel_id list_bytes buf cb >>= f) ≢ panic
id_then buf cb f h =
    >>=-ne-panic (read_channel_id list_bytes buf cb) f (read_channel_id-ne-panic buf cb)
      (λ p e. h p)

capability-ne-panic :
    (sp cb : ℕ) (buf : Bytes) → parse_body list_bytes cmd_capability sp cb buf ≢ panic
unfolding parse_body
capability-ne-panic sp cb [] = ground arith
capability-ne-panic sp cb (a ∷ []) = ground arith
capability-ne-panic sp cb (a ∷ b ∷ []) = ground arith
capability-ne-panic sp cb (a ∷ b ∷ c ∷ r) = ground arith

parse_body-ne-panic : (cmd sp cb : ℕ) (buf : Bytes) → parse_body list_bytes cmd sp cb buf ≢ panic
unfolding parse_body
parse_body-ne-panic cmd sp cb buf = ground (
  arith,
  capability-ne-panic sp cb buf,
  id_then buf cb (λ p. ok (create p.0 (from_utf8_lossy (until_zero p.1)))) (λ p q. cc),
  id_then buf cb (λ p. ok (data_pdu p.0 p.1)) (λ p q. cc),
  id_then buf cb (λ p. ok (close p.0)) (λ p q. cc),
  id_then buf cb (λ p. read_channel_id list_bytes p.1 sp >>= λ q. ok (data_first p.0 q.0 q.1))
      (λ p. id_then p.1 sp (λ q. ok (data_first p.0 q.0 q.1)) (λ q e. cc)),
)

parse-ne-panic_list : (pdu : Bytes) → parse list_bytes pdu ≢ panic
unfolding parse
parse-ne-panic_list [] = λ e. cc
parse-ne-panic_list (h ∷ buf) =
    parse_body-ne-panic (h / 2 ^ 4) (bit_and (h / 2 ^ 2) 0x03) (bit_and h 0x03) buf

-- parse: no input makes the parser of a dynamic channel PDU panic.
pub parse-ne-panic : {B : ByteOps} (L : ByteLaws B) (pdu : Bytes) → parse B pdu ≢ panic
parse-ne-panic L = rw (lawful-eq L) parse-ne-panic_list

-- capabilities_response, parse: the 16-bit version of a response is parsed back.
pub parse-capabilities :
    {B : ByteOps} (L : ByteLaws B) (version : ℕ)
    → version < 2 ^ 16
    → parse B (capabilities_response B version) ≡ ok (capabilities version)
parse-capabilities L = rw (lawful-eq L) parse-capabilities_list
