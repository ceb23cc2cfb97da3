-- ===== src/Nla/Credssp/Checks.antt =====
-- Runs of nla/der.rs and nla/credssp.rs, and their theorem at a concrete input.
use ferropipe_rdp.Nla.Credssp.{
  no_request, decode_ts_request, encode_ts_request, encode_request_body, TsRequest,
}
use ferropipe_rdp.Common.{replicate, arith, some, refl, none, ◌≡◌, ◌≡◌, [], ◌++◌, ◌∷◌, ◌∷◌}
use ferropipe_rdp.Outcome.{ok}
use ferropipe_rdp.Nla.Credssp.RoundTrip.{decode_ts_request-encode_ts_request}

abbrev tokens : TsRequest
tokens = record {
  version = 6;
  nego_tokens = (1 ∷ 2 ∷ 3 ∷ []) ∷ (4 ∷ []) ∷ [];
  auth_info = none;
  pub_key_auth = some (9 ∷ 9 ∷ []);
  error_code = some 0x1234;
  client_nonce = some (replicate 32 7);
}

version_run :
    encode_ts_request (record no_request { version = 6 }) ≡ 0x30 ∷ 5 ∷ 0xA0 ∷ 3 ∷ 2 ∷ 1 ∷ 6 ∷ []
unfolding encode_ts_request
version_run = refl

decode_ts_request-encode_ts_request_example :
    decode_ts_request (encode_ts_request tokens ++ (5 ∷ [])) ≡ ok tokens
unfolding encode_request_body
decode_ts_request-encode_ts_request_example =
    decode_ts_request-encode_ts_request tokens (5 ∷ [])
      (omega arith, omega arith, refl, omega arith)
