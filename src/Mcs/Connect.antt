-- ===== src/Mcs/Connect.antt =====
-- mcs/connect.rs: Connect-Initial, and the parser of Connect-Response.
pub mod Laws
mod Checks
use mathlib.Core.List.{flat_map}
use ferropipe_rdp.Common.{
  not, if◌then◌else◌, ◌||◌, ◌||◌, true, ◌!=◌, ◌!=◌, ◌%◌, ◌++◌, ◌%◌, ◌^◌, ◌==◌, length, ◌^◌, ◌==◌,
  ◌/◌, false, [], ◌/◌, ◌∷◌, Bool, ℕ, List, Bytes,
}
use ferropipe_rdp.Outcome.{ok, negotiation_failure, fail_if, ◌>>◌, ◌>>=◌, Result}
use ferropipe_rdp.Mcs.Ber.{
  read_integer, application, boolean, application_tag_bytes, octet_string, expect, sequence,
}

abbrev pub connect_initial_tag : ℕ
connect_initial_tag = 101

abbrev pub connect_response_tag : ℕ
connect_response_tag = 102

-- `for shift in [24, 16, 8, 0]`: the byte is pushed from the first that is not zero on.
unfoldable pub push_shifted : ℕ → List ℕ → Bool → Bytes → Bytes
push_shifted v [] started bytes = bytes
push_shifted v (shift ∷ shifts) started bytes =
    let b = v / 2 ^ shift % 256 in
    let pushed = b != 0 || started || shift == 0 in
    push_shifted v shifts (pushed || started) (if pushed then bytes ++ (b ∷ []) else bytes)

unfoldable pub uint : ℕ → Bytes
unfolding push_shifted
uint v =
    let bytes = push_shifted v (24 ∷ 16 ∷ 8 ∷ 0 ∷ []) false [] in
    0x02 ∷ (length bytes % 256) ∷ bytes

unfoldable pub domain_parameters : List ℕ → Bytes
unfolding uint flat_map
domain_parameters vals = sequence (flat_map uint vals)

unfoldable pub connect_initial : Bytes → Bytes
unfolding domain_parameters application octet_string boolean sequence
connect_initial gcc_ccr =
    let target = domain_parameters (34 ∷ 2 ∷ 0 ∷ 1 ∷ 0 ∷ 1 ∷ 0xFFFF ∷ 2 ∷ []) in
    let minimum = domain_parameters (1 ∷ 1 ∷ 1 ∷ 1 ∷ 0 ∷ 1 ∷ 0x420 ∷ 2 ∷ []) in
    let maximum = domain_parameters (0xFFFF ∷ 0xFC17 ∷ 0xFFFF ∷ 1 ∷ 0 ∷ 1 ∷ 0xFFFF ∷ 2 ∷ []) in
    let body =
      octet_string (0x01 ∷ [])
      ++ (octet_string (0x01 ∷ [])
          ++ (boolean true ++ (target ++ (minimum ++ (maximum ++ octet_string gcc_ccr))))) in
    application connect_initial_tag body

-- `result.first() != Some(&0)`
abbrev pub starts_with_zero : Bytes → Bool
starts_with_zero [] = false
starts_with_zero (b ∷ bs) = b == 0

unfoldable pub parse_connect_response : Bytes → Result Bytes
parse_connect_response pdu = do
  (body, after) ← expect (application_tag_bytes connect_response_tag) pdu
  (result, r1) ← expect (0x0a ∷ []) body
  fail_if (not (starts_with_zero result))
      (negotiation_failure "MCS Connect-Response not rt-successful")
  (called_connect_id, r2) ← read_integer r1
  (domain_params, r3) ← expect (0x30 ∷ []) r2
  (user_data, r4) ← expect (0x04 ∷ []) r3
  ok user_data
