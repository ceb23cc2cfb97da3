-- ===== src/Emt/Laws.antt =====
-- emt.rs: what is written is parsed back, and no input makes the parser panic.
use ferropipe_rdp.Wire.{ByteOps, ByteLaws, list_bytes, lawful-eq}
use ferropipe_rdp.Emt.{parse, parse_body, data_message, data_pdu}
use ferropipe_rdp.Common.{
  drop, ◌-◌, ◌-◌, ◌*◌, ◌*◌, ◌+◌, take_all, take, bit_and, [], ◌≡◌, ◌∷◌, ◌≡◌, arith, ◌^◌, ◌<◌, ◌<◌,
  ◌≢◌, ◌≢◌, length, ℕ, Bytes,
}
use ferropipe_rdp.Outcome.{ok, panic}

parse-data_list :
    (payload : Bytes)
    → length payload < 2 ^ 16
    → parse list_bytes (data_message list_bytes payload) ≡ ok (data_pdu payload)
unfolding parse data_message
parse-data_list payload h = ground (arith, take_all (length payload) payload)

-- data, parse: a payload of 16-bit length that is wrapped is parsed back.
pub parse-data_message :
    {B : ByteOps} (L : ByteLaws B) (payload : Bytes)
    → length payload < 2 ^ 16
    → parse B (data_message B payload) ≡ ok (data_pdu payload)
parse-data_message L = rw (lawful-eq L) parse-data_list

parse_body-ne-panic : (action : ℕ) (body : Bytes) → parse_body list_bytes action body ≢ panic
unfolding parse_body
parse_body-ne-panic action [] = ground arith
parse_body-ne-panic action (a ∷ []) = ground arith
parse_body-ne-panic action (a ∷ b ∷ []) = ground arith
parse_body-ne-panic action (a ∷ b ∷ c ∷ []) = ground arith
parse_body-ne-panic action (a ∷ b ∷ c ∷ d ∷ r) = ground arith

parse-ne-panic_list : (pdu : Bytes) → parse list_bytes pdu ≢ panic
unfolding parse
parse-ne-panic_list [] = ground arith
parse-ne-panic_list (a ∷ []) = ground arith
parse-ne-panic_list (a ∷ b ∷ []) = ground arith
parse-ne-panic_list (a ∷ b ∷ c ∷ []) = ground arith
parse-ne-panic_list (a ∷ b ∷ c ∷ n ∷ r) = ground (
  arith,
  parse_body-ne-panic (bit_and a 0x0f) (take (n + (b + 256 * c) - n) (drop n (a ∷ b ∷ c ∷ n ∷ r))),
)

-- parse: no input makes the parser of a tunnel PDU panic.
pub tunnel_parse-ne-panic : {B : ByteOps} (L : ByteLaws B) (pdu : Bytes) → parse B pdu ≢ panic
tunnel_parse-ne-panic L = rw (lawful-eq L) parse-ne-panic_list
