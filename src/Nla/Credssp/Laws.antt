-- ===== src/Nla/Credssp/Laws.antt =====
-- nla/credssp.rs: a request is decoded as it was encoded.
use native.Mathlib.Nat.{mod-eq_of_lt}
use ferropipe_rdp.Outcome.{Result, ok, ◌>>=◌}
use ferropipe_rdp.Common.{
  eq→==, some, subst, ◌∙◌, ◌∙◌, append-nil, sym, refl, zero, ap, [], length-append, ◌++◌, ◌≡◌, ◌≡◌,
  suc, arith, ◌≤◌, ◌≤◌, ◌^◌, ◌<◌, ◌+◌, ◌<◌, ◌+◌, length, List, Bytes, ℕ, ◌∷◌,
}
use ferropipe_rdp.Nla.Der.{
  read_der_integer, der_integer, encode_len, tag_sequence, tag_octet_string, expect_tag,
  context_tag, der_tlv, der_sequence, der_octet_string, context,
}
use ferropipe_rdp.Nla.Credssp.{read_field, nego_items, TsRequest, read_tokens, read_fields}
use ferropipe_rdp.Nla.Der.Laws.{
  read_der_integer-der_integer, some_len, expect_tag-der_tlv, read_tlv-der_tlv,
}

-- A value is shorter than what frames it.
length-der_tlv : (tag : ℕ) (v : Bytes) → length v + 2 ≤ length (der_tlv tag v)
unfolding der_tlv
length-der_tlv tag v = omega (arith, length-append (encode_len (length v)) v, some_len (length v))

pub length-context : (n : ℕ) (v : Bytes) → length v + 2 ≤ length (context n v)
unfolding context
length-context n v = length-der_tlv (context_tag n) v

pub length-der_octet_string : (v : Bytes) → length v + 2 ≤ length (der_octet_string v)
unfolding der_octet_string
length-der_octet_string v = length-der_tlv tag_octet_string v

pub length-der_sequence : (v : Bytes) → length v + 2 ≤ length (der_sequence v)
unfolding der_sequence
length-der_sequence v = length-der_tlv tag_sequence v

-- A field in front of the others.
read_fields-context :
    (n k : ℕ) (req : TsRequest) (v rest : Bytes)
    → length v < 2 ^ 32
    → read_fields (suc n) req (context k v ++ rest)
      ≡ (read_field req (context_tag k) v >>= λ req'. read_fields n req' rest)
unfolding read_fields context der_tlv
read_fields-context n k req v rest h = rw (read_tlv-der_tlv (context_tag k) v rest h) refl

alone : (tag : ℕ) (v : Bytes) → length v < 2 ^ 32 → expect_tag tag (der_tlv tag v) ≡ ok (v, [])
alone tag v h =
    ap (expect_tag tag) (sym (append-nil (der_tlv tag v))) ∙ expect_tag-der_tlv tag v [] h

no_tokens : (n : ℕ) → read_tokens n (nego_items []) ≡ ok []
unfolding read_tokens nego_items
no_tokens zero = refl
no_tokens (suc n) = refl

tokens_step :
    (n : ℕ) (item tok token rest : Bytes)
    → length item < 2 ^ 32
    → expect_tag (context_tag 0) item ≡ ok (tok, [])
    → expect_tag tag_octet_string tok ≡ ok (token, [])
    → read_tokens (suc n) (der_tlv tag_sequence item ++ rest)
      ≡ (read_tokens n rest >>= λ tokens. ok (token ∷ tokens))
unfolding read_tokens der_tlv
tokens_step n item tok token rest h e f =
    rw (expect_tag-der_tlv tag_sequence item rest h, e, f) refl

-- The items of a list of tokens.
item_of : Bytes → Bytes
item_of token = der_tlv (context_tag 0) (der_tlv tag_octet_string token)

nego_items-cons :
    (t : Bytes) (tokens : List Bytes)
    → nego_items (t ∷ tokens) ≡ der_tlv tag_sequence (item_of t) ++ nego_items tokens
unfolding nego_items item_of
nego_items-cons t tokens = refl

token_lengths :
    (t : Bytes) (rest : Bytes)
    → length (der_tlv tag_sequence (item_of t) ++ rest) < 2 ^ 32
    → (length (item_of t) < 2 ^ 32)
      × (length (der_tlv tag_octet_string t) < 2 ^ 32)
      × (length t < 2 ^ 32)
      × (length rest + 2 < 2 ^ 32)
unfolding item_of
token_lengths t rest h =
    let a = length-append (der_tlv tag_sequence (item_of t)) rest in
    let b = length-der_tlv tag_sequence (item_of t) in
    let c = length-der_tlv (context_tag 0) (der_tlv tag_octet_string t) in
    let d = length-der_tlv tag_octet_string t in
    (omega (arith, h), omega (arith, h), omega (arith, h), omega (arith, h))

item-expect :
    (t : Bytes)
    → length (der_tlv tag_octet_string t) < 2 ^ 32
    → expect_tag (context_tag 0) (item_of t) ≡ ok (der_tlv tag_octet_string t, [])
unfolding item_of
item-expect t h = alone (context_tag 0) (der_tlv tag_octet_string t) h

read_tokens-nego_items :
    (tokens : List Bytes) (n : ℕ)
    → length (nego_items tokens) < 2 ^ 32
    → length tokens ≤ n
    → read_tokens n (nego_items tokens) ≡ ok tokens
read_tokens-nego_items [] zero h hn = no_tokens zero
read_tokens-nego_items [] (suc n) h hn = no_tokens (suc n)
read_tokens-nego_items (t ∷ tokens) zero h hn = absurd (omega arith)
read_tokens-nego_items (t ∷ tokens) (suc n) h hn =
    let l =
      token_lengths t (nego_items tokens)
        (subst (λ (b : Bytes). length b < 2 ^ 32) (nego_items-cons t tokens) h) in
    ap (read_tokens (suc n)) (nego_items-cons t tokens)
    ∙ tokens_step n (item_of t) (der_tlv tag_octet_string t) t (nego_items tokens) l.0
        (item-expect t l.1) (alone tag_octet_string t l.2)
    ∙ ap (λ (r : Result (List Bytes)). r >>= λ found. ok (t ∷ found))
        (read_tokens-nego_items tokens n (omega (arith, l.3)) (omega arith))

length-nego_items : (tokens : List Bytes) → length tokens ≤ length (nego_items tokens)
length-nego_items [] = omega arith
length-nego_items (t ∷ tokens) = rw (nego_items-cons t tokens) (
    omega (
      arith,
      length-nego_items tokens,
      length-append (der_tlv tag_sequence (item_of t)) (nego_items tokens),
      length-der_tlv tag_sequence (item_of t),
    ))

-- Bytes that are read to their end, from a request to another.
abbrev pub IsRead : TsRequest → Bytes → TsRequest → Type 0
IsRead req buf req' = (n : ℕ) → length buf ≤ n → read_fields n req buf ≡ ok req'

pub nothing-IsRead : (req : TsRequest) → IsRead req [] req
unfolding read_fields
nothing-IsRead req zero h = refl
nothing-IsRead req (suc n) h = refl

pub field_then :
    (k : ℕ) (req mid req' : TsRequest) (v rest : Bytes)
    → length v < 2 ^ 32
    → read_field req (context_tag k) v ≡ ok mid
    → IsRead mid rest req'
    → IsRead req (context k v ++ rest) req'
field_then k req mid req' v rest h e later zero hn =
    absurd (omega (arith, hn, length-append (context k v) rest, length-context k v))
field_then k req mid req' v rest h e later (suc n) hn =
    read_fields-context n k req v rest h
    ∙ ap (λ (r : Result TsRequest). r >>= λ req1. read_fields n req1 rest) e
    ∙ later n (omega (arith, hn, length-append (context k v) rest, length-context k v))

integer_alone : (v : ℕ) → v < 2 ^ 32 → read_der_integer (der_integer v) ≡ ok (v, [])
integer_alone v h =
    ap read_der_integer (sym (append-nil (der_integer v)))
    ∙ read_der_integer-der_integer v [] (omega (arith, h))

octets_alone :
    (v : Bytes) → length v < 2 ^ 32 → expect_tag tag_octet_string (der_octet_string v) ≡ ok (v, [])
unfolding der_octet_string
octets_alone v h = alone tag_octet_string v h

sequence_alone :
    (v : Bytes) → length v < 2 ^ 32 → expect_tag tag_sequence (der_sequence v) ≡ ok (v, [])
unfolding der_sequence
sequence_alone v h = alone tag_sequence v h

module _ (req : TsRequest) where
  pub read_version :
      (v : ℕ)
      → v < 2 ^ 32
      → read_field req (context_tag 0) (der_integer v) ≡ ok (record req { version = v })
  unfolding read_field
  read_version v h = rw (integer_alone v h, mod-eq_of_lt {n = v} {m = 2 ^ 32} h) refl

  pub read_nego :
      (tokens : List Bytes)
      → length (nego_items tokens) < 2 ^ 32
      → read_field req (context_tag 1) (der_sequence (nego_items tokens))
        ≡ ok (record req { nego_tokens = req.nego_tokens ++ tokens })
  unfolding read_field
  read_nego tokens h =
      rw
        (
          sequence_alone (nego_items tokens) h,
          read_tokens-nego_items tokens (length (nego_items tokens)) h (length-nego_items tokens),
        )
        refl

  pub read_auth :
      (v : Bytes)
      → length v < 2 ^ 32
      → read_field req (context_tag 2) (der_octet_string v) ≡ ok (record req { auth_info = some v })
  unfolding read_field
  read_auth v h = rw (octets_alone v h) refl

  pub read_key :
      (v : Bytes)
      → length v < 2 ^ 32
      → read_field req (context_tag 3) (der_octet_string v)
        ≡ ok (record req { pub_key_auth = some v })
  unfolding read_field
  read_key v h = rw (octets_alone v h) refl

  pub read_code :
      (v : ℕ)
      → v < 2 ^ 32
      → read_field req (context_tag 4) (der_integer v) ≡ ok (record req { error_code = some v })
  unfolding read_field
  read_code v h = rw (integer_alone v h, mod-eq_of_lt {n = v} {m = 2 ^ 32} h) refl

  pub read_nonce :
      (v : Bytes)
      → length v ≡ 32
      → read_field req (context_tag 5) (der_octet_string v)
        ≡ ok (record req { client_nonce = some v })
  unfolding read_field
  read_nonce v h = rw (octets_alone v (omega (arith, h)), eq→== (length v) 32 h) refl
