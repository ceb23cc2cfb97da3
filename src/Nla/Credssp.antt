-- ===== src/Nla/Credssp.antt =====
-- nla/credssp.rs: the CredSSP messages. The hash SHA-256 is a parameter: of the pieces that it is
-- updated with, one after the other.
pub mod Laws
pub mod RoundTrip
mod Checks
use ferropipe_rdp.Outcome.{panic, ok, Result, ◌>>=◌, ◌>>◌}
use ferropipe_rdp.Common.{
  ◌^◌, zero, ◌^◌, ◌%◌, suc, ◌%◌, ◌==◌, some, length, ◌==◌, ◌∷◌, ◌++◌, ◌∷◌, none, if◌then◌else◌,
  Option, ◌++◌, ℕ, [], List, Bytes,
}
use ferropipe_rdp.Nla.Der.{
  tag_octet_string, context_tag, tag_sequence, der_octet_string, read_tlv, read_der_integer,
  expect_tag, der_sequence, der_integer, context,
}
use ferropipe_rdp.Nla.Crypto.{unicode}

abbrev pub client_server_magic : Bytes
client_server_magic =
    0x43 ∷ 0x72 ∷ 0x65 ∷ 0x64 ∷ 0x53 ∷ 0x53 ∷ 0x50 ∷ 0x20 ∷ 0x43 ∷ 0x6c ∷ 0x69 ∷ 0x65 ∷ 0x6e ∷ 0x74
    ∷ 0x2d ∷ 0x54 ∷ 0x6f ∷ 0x2d ∷ 0x53 ∷ 0x65 ∷ 0x72 ∷ 0x76 ∷ 0x65 ∷ 0x72 ∷ 0x20 ∷ 0x42 ∷ 0x69
    ∷ 0x6e ∷ 0x64 ∷ 0x69 ∷ 0x6e ∷ 0x67 ∷ 0x20 ∷ 0x48 ∷ 0x61 ∷ 0x73 ∷ 0x68 ∷ []

abbrev pub server_client_magic : Bytes
server_client_magic =
    0x43 ∷ 0x72 ∷ 0x65 ∷ 0x64 ∷ 0x53 ∷ 0x53 ∷ 0x50 ∷ 0x20 ∷ 0x53 ∷ 0x65 ∷ 0x72 ∷ 0x76 ∷ 0x65 ∷ 0x72
    ∷ 0x2d ∷ 0x54 ∷ 0x6f ∷ 0x2d ∷ 0x43 ∷ 0x6c ∷ 0x69 ∷ 0x65 ∷ 0x6e ∷ 0x74 ∷ 0x20 ∷ 0x42 ∷ 0x69
    ∷ 0x6e ∷ 0x64 ∷ 0x69 ∷ 0x6e ∷ 0x67 ∷ 0x20 ∷ 0x48 ∷ 0x61 ∷ 0x73 ∷ 0x68 ∷ []

module _ (sha256 : Bytes → Bytes) where
  unfoldable pub binding_hash : Bytes → Bytes → Bytes → Bytes
  binding_hash magic nonce key = sha256 (magic ++ ((0x00 ∷ []) ++ (nonce ++ key)))

  unfoldable pub client_server_binding_hash : Bytes → Bytes → Bytes
  unfolding binding_hash
  client_server_binding_hash nonce key = binding_hash client_server_magic nonce key

  unfoldable pub server_client_binding_hash : Bytes → Bytes → Bytes
  unfolding binding_hash
  server_client_binding_hash nonce key = binding_hash server_client_magic nonce key

pub record PasswordCreds : Type 0 where
  pub domain : Bytes
  pub username : Bytes
  pub password : Bytes

unfoldable pub encode_creds : PasswordCreds → Bytes
unfolding context der_octet_string der_sequence unicode
encode_creds creds = der_sequence (
    context 0 (der_octet_string (unicode creds.domain))
    ++ (context 1 (der_octet_string (unicode creds.username))
        ++ context 2 (der_octet_string (unicode creds.password))))

unfoldable pub ts_credentials_password : PasswordCreds → Bytes
unfolding encode_creds der_integer
ts_credentials_password creds =
    der_sequence (context 0 (der_integer 1) ++ context 1 (der_octet_string (encode_creds creds)))

pub record TsRequest : Type 0 where
  pub version : ℕ
  pub nego_tokens : List Bytes
  pub auth_info : Option Bytes
  pub pub_key_auth : Option Bytes
  pub error_code : Option ℕ
  pub client_nonce : Option Bytes

-- `TsRequest::default()`
abbrev pub no_request : TsRequest
no_request = record {
  version = 0;
  nego_tokens = [];
  auth_info = none;
  pub_key_auth = none;
  error_code = none;
  client_nonce = none;
}

-- `for token in &self.nego_tokens`
unfoldable pub nego_items : List Bytes → Bytes
unfolding context der_octet_string der_sequence
nego_items [] = []
nego_items (token ∷ tokens) = der_sequence (context 0 (der_octet_string token)) ++ nego_items tokens

unfoldable pub nego_part : List Bytes → Bytes
unfolding nego_items
nego_part [] = []
nego_part (token ∷ tokens) = context 1 (der_sequence (nego_items (token ∷ tokens)))

-- `if let Some(x) = &self.field`
unfoldable pub bytes_part : ℕ → Option Bytes → Bytes
unfolding context der_octet_string
bytes_part n none = []
bytes_part n (some bytes) = context n (der_octet_string bytes)

unfoldable pub code_part : Option ℕ → Bytes
unfolding context der_integer
code_part none = []
code_part (some code) = context 4 (der_integer code)

unfoldable pub encode_request_body : TsRequest → Bytes
unfolding nego_part bytes_part code_part context der_integer
encode_request_body req =
    context 0 (der_integer req.version)
    ++ (nego_part req.nego_tokens
        ++ (bytes_part 2 req.auth_info
            ++ (bytes_part 3 req.pub_key_auth
                ++ (code_part req.error_code ++ bytes_part 5 req.client_nonce))))

unfoldable pub encode_ts_request : TsRequest → Bytes
unfolding encode_request_body der_sequence
encode_ts_request req = der_sequence (encode_request_body req)

-- `while !lr.is_empty()`, on fuel. An item has 2 bytes at least.
unfoldable pub read_tokens : ℕ → Bytes → Result (List Bytes)
unfolding expect_tag
read_tokens fuel [] = ok []
read_tokens zero (b ∷ bs) = panic
read_tokens (suc fuel) (b ∷ bs) = do
  (item, rest) ← expect_tag tag_sequence (b ∷ bs)
  (tok, r1) ← expect_tag (context_tag 0) item
  (bytes, r2) ← expect_tag tag_octet_string tok
  tokens ← read_tokens fuel rest
  ok (bytes ∷ tokens)

-- A nonce of another length is passed over.
abbrev pub with_nonce : TsRequest → Bytes → TsRequest
with_nonce req n = if length n == 32 then record req { client_nonce = some n } else req

-- The `match` on the tag.
unfoldable pub read_field : TsRequest → ℕ → Bytes → Result TsRequest
unfolding read_tokens read_der_integer
read_field req tag value =
    if tag == context_tag 0
    then (do (n, r) ← read_der_integer value; ok (record req { version = n % 2 ^ 32 }))
    else if tag == context_tag 1
    then (do
      (list, r) ← expect_tag tag_sequence value
      tokens ← read_tokens (length list) list
      ok (record req { nego_tokens = req.nego_tokens ++ tokens }))
    else if tag == context_tag 2
    then (do
      (bytes, r) ← expect_tag tag_octet_string value
      ok (record req { auth_info = some bytes }))
    else if tag == context_tag 3
    then (do
      (bytes, r) ← expect_tag tag_octet_string value
      ok (record req { pub_key_auth = some bytes }))
    else if tag == context_tag 4
    then (do (n, r) ← read_der_integer value; ok (record req { error_code = some (n % 2 ^ 32) }))
    else if tag == context_tag 5
    then (do (n, r) ← expect_tag tag_octet_string value; ok (with_nonce req n))
    else ok req

-- `while !r.is_empty()`, on fuel. A field has 2 bytes at least.
unfoldable pub read_fields : ℕ → TsRequest → Bytes → Result TsRequest
unfolding read_field read_tlv
read_fields fuel req [] = ok req
read_fields zero req (b ∷ bs) = panic
read_fields (suc fuel) req (b ∷ bs) = do
  ((tag, value), rest) ← read_tlv (b ∷ bs)
  req' ← read_field req tag value
  read_fields fuel req' rest

unfoldable pub decode_ts_request : Bytes → Result TsRequest
unfolding read_fields expect_tag
decode_ts_request buf = do
  (inner, after) ← expect_tag tag_sequence buf
  read_fields (length inner) no_request inner
