-- ===== src/Nla/Credssp/RoundTrip.antt =====
-- nla/credssp.rs: the fields of a request, one after the other.
use ferropipe_rdp.Common.{
  ◌∙◌, ◌∙◌, append-nil, ap, length-append, sym, subst, arith, ◌++◌, refl, ◌^◌, ◌≡◌, ◌<◌, ◌≡◌, some,
  none, length, [], List, ◌<◌, ℕ, Option, Bytes, ◌∷◌,
}
use ferropipe_rdp.Nla.Credssp.{
  read_fields, encode_ts_request, no_request, decode_ts_request, nego_items, read_field,
  encode_request_body, nego_part, code_part, bytes_part, TsRequest,
}
use ferropipe_rdp.Nla.Credssp.Laws.{
  nothing-IsRead, read_version, length-der_sequence, read_nonce, read_nego, read_key, read_code,
  read_auth, field_then, length-context, length-der_octet_string, IsRead,
}
use ferropipe_rdp.Nla.Der.{
  tag_sequence, context_tag, der_sequence, der_integer, der_octet_string, context,
}
use ferropipe_rdp.Outcome.{◌>>=◌, Result, ok}
use ferropipe_rdp.Nla.Der.Laws.{expect_tag-der_tlv}

-- What the fields must be, for each that is there.
abbrev pub IsCode : Option ℕ → Type 0
IsCode none = Unit
IsCode (some code) = code < 2 ^ 32

abbrev pub IsNonce : Option Bytes → Type 0
IsNonce none = Unit
IsNonce (some nonce) = length nonce ≡ 32

abbrev pub IsTsRequest : TsRequest → Type 0
IsTsRequest req =
    (req.version < 2 ^ 32)
    × IsCode req.error_code
    × IsNonce req.client_nonce
    × (length (encode_request_body req) < 2 ^ 32)

abbrev request : ℕ → List Bytes → Option Bytes → Option Bytes → Option ℕ → Option Bytes → TsRequest
request v ts a p e c = record {
  version = v;
  nego_tokens = ts;
  auth_info = a;
  pub_key_auth = p;
  error_code = e;
  client_nonce = c;
}

bytes_part-some : (k : ℕ) (x : Bytes) → bytes_part k (some x) ≡ context k (der_octet_string x)
unfolding bytes_part
bytes_part-some k x = refl

bytes_part-none : (k : ℕ) → bytes_part k none ≡ []
unfolding bytes_part
bytes_part-none k = refl

code_part-some : (x : ℕ) → code_part (some x) ≡ context 4 (der_integer x)
unfolding code_part
code_part-some x = refl

code_part-none : code_part none ≡ []
unfolding code_part
code_part-none = refl

nego_part-cons :
    (t : Bytes) (ts : List Bytes)
    → nego_part (t ∷ ts) ≡ context 1 (der_sequence (nego_items (t ∷ ts)))
unfolding nego_part
nego_part-cons t ts = refl

nego_part-nil : nego_part [] ≡ []
unfolding nego_part
nego_part-nil = refl

-- A part that is not there, and a part that is one field.
module _ (r r' : TsRequest) (part rest : Bytes) where
  part_absent : part ≡ [] → IsRead r rest r' → IsRead r (part ++ rest) r'
  part_absent e h = subst (λ b. IsRead r (b ++ rest) r') (sym e) h

  part_field :
      (k : ℕ) (mid : TsRequest) (v : Bytes)
      → part ≡ context k v
      → length part < 2 ^ 32
      → (length v < 2 ^ 32 → read_field r (context_tag k) v ≡ ok mid)
      → IsRead mid rest r'
      → IsRead r (part ++ rest) r'
  part_field k mid v e h f later =
      let short_value : length v < 2 ^ 32 =
        omega (arith, length-context k v, subst (λ (b : Bytes). length b < 2 ^ 32) e h) in
      subst (λ b. IsRead r (b ++ rest) r') (sym e)
        (field_then k r mid r' v rest short_value (f short_value) later)

octets_short : (x : Bytes) → length (der_octet_string x) < 2 ^ 32 → length x < 2 ^ 32
octets_short x h = omega (arith, h, length-der_octet_string x)

-- Each part takes the request a field further.
module _ (rest : Bytes) (r' : TsRequest) where
  nego_part-IsRead :
      (v : ℕ) (ts : List Bytes)
      → length (nego_part ts) < 2 ^ 32
      → IsRead (request v ts none none none none) rest r'
      → IsRead (request v [] none none none none) (nego_part ts ++ rest) r'
  nego_part-IsRead v [] l h =
      part_absent (request v [] none none none none) r' (nego_part []) rest nego_part-nil h
  nego_part-IsRead v (t ∷ ts) l h =
      let r = request v [] none none none none in
      let items = nego_items (t ∷ ts) in
      part_field r r' (nego_part (t ∷ ts)) rest 1 (request v (t ∷ ts) none none none none)
        (der_sequence items) (nego_part-cons t ts) l
        (λ s. read_nego r (t ∷ ts) (omega (arith, s, length-der_sequence items))) h

  auth_info-IsRead :
      (v : ℕ) (ts : List Bytes) (a : Option Bytes)
      → length (bytes_part 2 a) < 2 ^ 32
      → IsRead (request v ts a none none none) rest r'
      → IsRead (request v ts none none none none) (bytes_part 2 a ++ rest) r'
  auth_info-IsRead v ts none l h =
      part_absent (request v ts none none none none) r' (bytes_part 2 none) rest (bytes_part-none 2)
        h
  auth_info-IsRead v ts (some x) l h =
      let r = request v ts none none none none in
      part_field r r' (bytes_part 2 (some x)) rest 2 (request v ts (some x) none none none)
        (der_octet_string x) (bytes_part-some 2 x) l (λ s. read_auth r x (octets_short x s)) h

  pub_key_auth-IsRead :
      (v : ℕ) (ts : List Bytes) (a p : Option Bytes)
      → length (bytes_part 3 p) < 2 ^ 32
      → IsRead (request v ts a p none none) rest r'
      → IsRead (request v ts a none none none) (bytes_part 3 p ++ rest) r'
  pub_key_auth-IsRead v ts a none l h =
      part_absent (request v ts a none none none) r' (bytes_part 3 none) rest (bytes_part-none 3) h
  pub_key_auth-IsRead v ts a (some x) l h =
      let r = request v ts a none none none in
      part_field r r' (bytes_part 3 (some x)) rest 3 (request v ts a (some x) none none)
        (der_octet_string x) (bytes_part-some 3 x) l (λ s. read_key r x (octets_short x s)) h

  error_code-IsRead :
      (v : ℕ) (ts : List Bytes) (a p : Option Bytes) (e : Option ℕ)
      → IsCode e
      → length (code_part e) < 2 ^ 32
      → IsRead (request v ts a p e none) rest r'
      → IsRead (request v ts a p none none) (code_part e ++ rest) r'
  error_code-IsRead v ts a p none c l h =
      part_absent (request v ts a p none none) r' (code_part none) rest code_part-none h
  error_code-IsRead v ts a p (some x) c l h =
      let r = request v ts a p none none in
      part_field r r' (code_part (some x)) rest 4 (request v ts a p (some x) none) (der_integer x)
        (code_part-some x) l (λ s. read_code r x c) h

  client_nonce-IsRead :
      (v : ℕ) (ts : List Bytes) (a p : Option Bytes) (e : Option ℕ) (n : Option Bytes)
      → IsNonce n
      → length (bytes_part 5 n) < 2 ^ 32
      → IsRead (request v ts a p e n) rest r'
      → IsRead (request v ts a p e none) (bytes_part 5 n ++ rest) r'
  client_nonce-IsRead v ts a p e none c l h =
      part_absent (request v ts a p e none) r' (bytes_part 5 none) rest (bytes_part-none 5) h
  client_nonce-IsRead v ts a p e (some x) c l h =
      let r = request v ts a p e none in
      part_field r r' (bytes_part 5 (some x)) rest 5 (request v ts a p e (some x))
        (der_octet_string x) (bytes_part-some 5 x) l (λ s. read_nonce r x c) h

-- The parts of the body, and that each is as short as the whole.
body_parts :
    (req : TsRequest)
    → encode_request_body req
      ≡ context 0 (der_integer req.version)
        ++ (nego_part req.nego_tokens
            ++ (bytes_part 2 req.auth_info
                ++ (bytes_part 3 req.pub_key_auth
                    ++ (code_part req.error_code ++ bytes_part 5 req.client_nonce))))
unfolding encode_request_body
body_parts req = refl

six_short :
    (p0 p1 p2 p3 p4 p5 : Bytes)
    → length (p0 ++ (p1 ++ (p2 ++ (p3 ++ (p4 ++ p5))))) < 2 ^ 32
    → (length p0 < 2 ^ 32)
      × (length p1 < 2 ^ 32)
      × (length p2 < 2 ^ 32)
      × (length p3 < 2 ^ 32)
      × (length p4 < 2 ^ 32)
      × (length p5 < 2 ^ 32)
six_short p0 p1 p2 p3 p4 p5 h =
    let l0 = length-append p0 (p1 ++ (p2 ++ (p3 ++ (p4 ++ p5)))) in
    let l1 = length-append p1 (p2 ++ (p3 ++ (p4 ++ p5))) in
    let l2 = length-append p2 (p3 ++ (p4 ++ p5)) in
    let l3 = length-append p3 (p4 ++ p5) in
    let l4 = length-append p4 p5 in
    (omega arith, omega arith, omega arith, omega arith, omega arith, omega arith)

encode_request_body-IsRead :
    (req : TsRequest) → IsTsRequest req → IsRead no_request (encode_request_body req) req
encode_request_body-IsRead req (hv, he, hn, hb) =
    let l =
      six_short (context 0 (der_integer req.version)) (nego_part req.nego_tokens)
        (bytes_part 2 req.auth_info) (bytes_part 3 req.pub_key_auth) (code_part req.error_code)
        (bytes_part 5 req.client_nonce)
        (subst (λ (b : Bytes). length b < 2 ^ 32) (body_parts req) hb) in
    subst (λ b. IsRead no_request b req) (sym (body_parts req))
      (field_then 0 no_request (request req.version [] none none none none) req
        (der_integer req.version) _ (omega (arith, l.0, length-context 0 (der_integer req.version)))
        (read_version no_request req.version hv)
        (nego_part-IsRead _ req req.version req.nego_tokens l.1 (
          auth_info-IsRead _ req req.version req.nego_tokens req.auth_info l.2 (
            pub_key_auth-IsRead _ req req.version req.nego_tokens req.auth_info req.pub_key_auth l.3
              (error_code-IsRead _ req req.version req.nego_tokens req.auth_info req.pub_key_auth
                req.error_code he l.4
                (subst
                  (λ b.
                    IsRead
                      (request req.version req.nego_tokens req.auth_info req.pub_key_auth
                        req.error_code none)
                      b req)
                  (append-nil (bytes_part 5 req.client_nonce))
                  (client_nonce-IsRead [] req req.version req.nego_tokens req.auth_info
                    req.pub_key_auth req.error_code req.client_nonce hn l.5
                    (nothing-IsRead req))))))))

-- TsRequest: a request is decoded as it was encoded, with its tokens in order and each field that is
-- there, where its body is shorter than 2^32 bytes, whatever follows.
pub decode_ts_request-encode_ts_request :
    (req : TsRequest) (rest : Bytes)
    → IsTsRequest req
    → decode_ts_request (encode_ts_request req ++ rest) ≡ ok req
unfolding decode_ts_request encode_ts_request der_sequence
decode_ts_request-encode_ts_request req rest h =
    let body = encode_request_body req in
    ap (λ (r : Result (Bytes × Bytes)). r >>= λ p. read_fields (length p.0) no_request p.0)
      (expect_tag-der_tlv tag_sequence body rest h.3)
    ∙ encode_request_body-IsRead req h (length body) (omega arith)
