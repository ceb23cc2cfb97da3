-- ===== src/Mcs/Connect/Laws.antt =====
-- mcs/connect.rs: the user data of a Connect-Response is found.
-- The body of a Connect-Response, with the encodings of mcs/ber.rs.
use ferropipe_rdp.Mcs.Connect.{starts_with_zero, connect_response_tag, parse_connect_response}
use ferropipe_rdp.Common.{
  not, arith, ◌∷◌, ◌≡◌, ◌≡◌, length, ◌^◌, ◌<◌, [], ◌<◌, ◌==◌, if◌then◌else◌, ◌++◌, ◌≢◌, ◌≢◌, Bytes,
  ℕ,
}
use ferropipe_rdp.Mcs.Ber.{
  read_integer, expect, application_tag_bytes, octet_string, integer, sequence, enumerated,
  application,
}
use ferropipe_rdp.Outcome.{
  fail_if-ne-panic, fail_if, >>=-ne-panic, negotiation_failure, err, ok, panic, Result,
}
use ferropipe_rdp.Mcs.Ber.Laws.{
  read_integer-ne-panic, expect-ne-panic, read_integer-integer, expect-tlv,
}

abbrev pub response_body : ℕ → ℕ → Bytes → Bytes → Bytes
response_body result connect_id parameters user_data =
    enumerated result
    ++ (integer connect_id ++ (sequence parameters ++ (octet_string user_data ++ [])))

abbrev pub response_result : ℕ → Bytes → Result Bytes
response_result result user_data =
    if result == 0
    then ok user_data
    else err (negotiation_failure "MCS Connect-Response not rt-successful")

-- parse_connect_response: of a response whose result is 0 the user data is returned, and a response
-- with any other result is refused, whatever its connect id, its domain parameters and the bytes
-- behind it.
pub parse_connect_response-application :
    (result connect_id : ℕ) (parameters user_data rest : Bytes)
    → connect_id < 2 ^ 32
    → length parameters < 2 ^ 64
    → length user_data < 2 ^ 64
    → length (response_body result connect_id parameters user_data) < 2 ^ 64
    → parse_connect_response (
        application connect_response_tag (response_body result connect_id parameters user_data)
        ++ rest)
      ≡ response_result result user_data
unfolding parse_connect_response application enumerated sequence octet_string
parse_connect_response-application result connect_id parameters user_data rest hi hp hu hb =
    rw
      (
        expect-tlv (application_tag_bytes connect_response_tag)
            (response_body result connect_id parameters user_data) rest hb,
        expect-tlv (0x0a ∷ []) (result ∷ [])
            (integer connect_id ++ (sequence parameters ++ (octet_string user_data ++ [])))
            (omega arith),
        read_integer-integer connect_id (sequence parameters ++ (octet_string user_data ++ [])) hi,
        expect-tlv (0x30 ∷ []) parameters (octet_string user_data ++ []) hp,
        expect-tlv (0x04 ∷ []) user_data [] hu,
      )
      (ground arith)

pub parse_connect_response-ne-panic : (pdu : Bytes) → parse_connect_response pdu ≢ panic
unfolding parse_connect_response
parse_connect_response-ne-panic pdu =
    >>=-ne-panic (expect (application_tag_bytes connect_response_tag) pdu) _ (expect-ne-panic _ pdu)
      (λ body e. >>=-ne-panic (expect (0x0a ∷ []) body.0) _ (expect-ne-panic _ body.0) (λ r1 e1.
        >>=-ne-panic (fail_if (not (starts_with_zero r1.0)) _) _ (fail_if-ne-panic _ _) (λ u e2.
          >>=-ne-panic (read_integer r1.1) _ (read_integer-ne-panic r1.1) (λ r2 e3.
            >>=-ne-panic (expect (0x30 ∷ []) r2.1) _ (expect-ne-panic _ r2.1) (λ r3 e4.
              >>=-ne-panic (expect (0x04 ∷ []) r3.1) _ (expect-ne-panic _ r3.1) (λ r4 e5 p. cc))))))
