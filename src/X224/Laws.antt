-- ===== src/X224/Laws.antt =====
-- x224.rs: what is encoded is decoded again.
use ferropipe_rdp.Common.{
  append-nil, ◌∙◌, ◌≢◌, length-append, All, ◌≤◌, ap, append_assoc, Option, ℕ, ◌+◌, ◌≡◌, refl, none,
  some, [], ◌∷◌, ◌++◌, Bytes, length, take_all, arith,
}
use ferropipe_rdp.Outcome.{slice_mid, slice_end, slice, ok}
use ferropipe_rdp.Wire.{ByteOps, ByteLaws, list_bytes, lawful-eq}
use ferropipe_rdp.X224.{
  tpdu_cc, nego_response, nego_request, encode_confirm, decode_request, decode_confirm,
  ConnectionConfirm, tpdu_cr, encode_request, cookie_bytes, cookie_prefix, cookie_at, take_cookie,
  cookie_line, ConnectionRequest, crlf, find_crlf, wrap_data, unwrap_data, split_cr_cc,
}
use ferropipe_rdp.Common.Utf8.{IsUtf8}
use ferropipe_rdp.Nego.{
  read_request, read_response, failure, selected, NegotiationResponse, NegotiationRequest,
}
use ferropipe_rdp.Nego.Laws.{
  read-request_bytes, write_response_list, read-response_bytes, write_request_list, response_bytes,
  IsResponse, IsRequest, request_bytes,
}

unwrap-wrap_list : (payload : Bytes) → unwrap_data (wrap_data list_bytes payload) ≡ ok payload
unfolding unwrap_data wrap_data
unwrap-wrap_list payload = ground (arith, take_all (length payload) payload)

-- `unwrap_data` gives back every payload that `wrap_data` framed.
pub unwrap_data-wrap_data :
    (B : ByteOps) → ByteLaws B → (payload : Bytes) → unwrap_data (wrap_data B payload) ≡ ok payload
unwrap_data-wrap_data B L = rw (lawful-eq L) unwrap-wrap_list

-- A TPDU whose length indicator covers exactly the variable part `body`.
abbrev pub tpdu : ℕ → Bytes → Bytes
tpdu code body = (6 + length body) ∷ code ∷ 0 ∷ 0 ∷ 0 ∷ 0 ∷ 0 ∷ body

split-tpdu : (code : ℕ) (body : Bytes) → split_cr_cc list_bytes (tpdu code body) ≡ ok (body, code)
unfolding split_cr_cc
split-tpdu code body = ground (arith, take_all (length body) body)

find_crlf-append :
    (id rest : Bytes) → find_crlf id ≡ none → find_crlf (id ++ (crlf ++ rest)) ≡ some (length id)
unfolding find_crlf
find_crlf-append [] rest h = refl
find_crlf-append (a ∷ []) rest h = ground arith
find_crlf-append (a ∷ b ∷ id) rest h = ground (arith, find_crlf-append (b ∷ id) rest)

-- A string that a connection request can carry: UTF-8, as every `String` is, with no line end.
abbrev pub IsCookie : Bytes → Type 0
IsCookie id = IsUtf8 id × (find_crlf id ≡ none)

-- No line end begins in a part that has no carriage return.
find_crlf-prefix :
    (p xs : Bytes) (k : ℕ)
    → All (λ c. c ≢ 0x0d) p
    → find_crlf xs ≡ some k
    → find_crlf (p ++ xs) ≡ some (length p + k)
unfolding find_crlf
find_crlf-prefix [] xs k h e = e ∙ ap some {x = k} {y = 0 + k} (omega arith)
find_crlf-prefix (c ∷ []) [] k h e = cc
find_crlf-prefix (c ∷ []) (x ∷ xs) k h e = ground (arith, h.0)
find_crlf-prefix (c ∷ d ∷ p) xs k h e = ground (arith, find_crlf-prefix (d ∷ p) xs k h.1 e, h.0)

find_crlf-cookie_line :
    (id rest : Bytes)
    → find_crlf id ≡ none
    → find_crlf (cookie_line id ++ rest) ≡ some (17 + length id)
unfolding cookie_line
find_crlf-cookie_line id rest h =
    find_crlf-prefix cookie_prefix ((id ++ crlf) ++ rest) (length id) (omega arith)
      (rw append_assoc (find_crlf-append id rest h))

length-cookie_line : (id : Bytes) → length (cookie_line id) ≡ 19 + length id
unfolding cookie_line
length-cookie_line id = rw length-append (rw length-append (omega arith))

cookie_slice : (id rest : Bytes) → slice (cookie_line id ++ rest) 17 (17 + length id) ≡ ok id
unfolding cookie_line
cookie_slice id rest =
    rw append_assoc
      (slice_mid cookie_prefix id (crlf ++ rest) 17 (17 + length id) (omega arith) (omega arith))

cookie_at_end :
    (id rest : Bytes)
    → IsUtf8 id
    → cookie_at (cookie_line id ++ rest) (some (17 + length id)) ≡ ok (some id, rest)
unfolding cookie_at
cookie_at_end id rest h =
    let after : slice (cookie_line id ++ rest) (17 + length id + 2)
          (length (cookie_line id ++ rest))
        ≡ ok rest =
      slice_end (cookie_line id) rest _ _ (omega (arith, length-cookie_line id)) refl in
    rw (cookie_slice id rest, after, h) refl

take_cookie-cookie_line :
    (id rest : Bytes) → IsCookie id → take_cookie (cookie_line id ++ rest) ≡ ok (some id, rest)
unfolding take_cookie
take_cookie-cookie_line id rest h =
    rw (find_crlf-cookie_line id rest h.1) (unfold cookie_line in cookie_at_end id rest h.0)

-- A negotiation request is not mistaken for a cookie.
take_cookie-request :
    (r : NegotiationRequest) → take_cookie (request_bytes r) ≡ ok (none, request_bytes r)
unfolding take_cookie request_bytes
take_cookie-request r = refl

abbrev pub IsNegoRequest : Option NegotiationRequest → Type 0
IsNegoRequest none = Unit
IsNegoRequest (some r) = IsRequest r

abbrev pub IsNegoResponse : Option NegotiationResponse → Type 0
IsNegoResponse none = Unit
IsNegoResponse (some r) = IsResponse r

-- The fields are in range, and the length indicator fits its byte: up to 222 bytes of cookie.
abbrev pub IsRequestParts : Option Bytes → Option NegotiationRequest → Type 0
IsRequestParts none nego = IsNegoRequest nego
IsRequestParts (some id) nego = IsCookie id × (length id ≤ 222) × IsNegoRequest nego

abbrev pub IsConnectionRequest : ConnectionRequest → Type 0
IsConnectionRequest r = IsRequestParts r.cookie r.nego

length-request_bytes : (r : NegotiationRequest) → length (request_bytes r) ≡ 8
unfolding request_bytes
length-request_bytes r = refl

length-response_bytes : (r : NegotiationResponse) → length (response_bytes r) ≡ 8
unfolding response_bytes
length-response_bytes (selected flags p) = refl
length-response_bytes (failure code) = refl

-- The bytes of a request: its variable part behind the fixed octets.
request_body : Option Bytes → Option NegotiationRequest → Bytes
request_body c none = cookie_bytes list_bytes c
request_body c (some r) = cookie_bytes list_bytes c ++ request_bytes r

length-cookie_bytes :
    (c : Option Bytes) (n : Option NegotiationRequest)
    → IsRequestParts c n
    → length (cookie_bytes list_bytes c) ≤ 241
length-cookie_bytes none n h = omega arith
length-cookie_bytes (some id) n h = omega (arith, length-cookie_line id)

encode-tpdu :
    (c : Option Bytes) (n : Option NegotiationRequest)
    → IsRequestParts c n
    → encode_request list_bytes (record { cookie = c; nego = n }) ≡ tpdu tpdu_cr (request_body c n)
unfolding encode_request request_body
encode-tpdu c none h = ground (arith, length-cookie_bytes c none h)
encode-tpdu c (some r) h = rw write_request_list (
    ground (
      arith,
      length-cookie_bytes c (some r) h,
      length-request_bytes r,
      length-append (cookie_bytes list_bytes c) (request_bytes r),
    ))

take_cookie-body :
    (c : Option Bytes) (n : Option NegotiationRequest) (tail : Bytes)
    → IsRequestParts c n
    → take_cookie tail ≡ ok (none, tail)
    → take_cookie (cookie_bytes list_bytes c ++ tail) ≡ ok (c, tail)
take_cookie-body none n tail h e = e
take_cookie-body (some id) n tail h e = take_cookie-cookie_line id tail h.0

request_nego :
    (c : Option Bytes) (n : Option NegotiationRequest) → IsRequestParts c n → IsNegoRequest n
request_nego none n h = h
request_nego (some id) n h = h.2

nego-request_bytes :
    (r : NegotiationRequest) → IsRequest r → nego_request list_bytes (request_bytes r) ≡ ok (some r)
nego-request_bytes r h =
    let e : request_bytes r ++ [] ≡ request_bytes r = append-nil (request_bytes r) in
    let back : read_request list_bytes (request_bytes r) ≡ ok (r, []) =
      rw e at (read-request_bytes r [] h) in
    unfold request_bytes in rw back

decode-body :
    (c : Option Bytes) (n : Option NegotiationRequest)
    → IsRequestParts c n
    → decode_request list_bytes (tpdu tpdu_cr (request_body c n))
      ≡ ok (record { cookie = c; nego = n })
unfolding decode_request request_body
decode-body c none h =
    let e : cookie_bytes list_bytes c ++ [] ≡ cookie_bytes list_bytes c = append-nil _ in
    let back : take_cookie (cookie_bytes list_bytes c) ≡ ok (c, []) =
      rw e at (take_cookie-body c none [] h (unfold take_cookie in refl)) in
    rw (split-tpdu tpdu_cr (cookie_bytes list_bytes c), back)
decode-body c (some r) h = rw (
  split-tpdu tpdu_cr (cookie_bytes list_bytes c ++ request_bytes r),
  take_cookie-body c (some r) (request_bytes r) h (take_cookie-request r),
  nego-request_bytes r (request_nego c (some r) h),
)

decode-encode_request_list :
    (r : ConnectionRequest)
    → IsConnectionRequest r
    → decode_request list_bytes (encode_request list_bytes r) ≡ ok r
decode-encode_request_list r h = rw (encode-tpdu r.cookie r.nego h) (decode-body r.cookie r.nego h)

-- A connection request with or without a cookie, and with or without a negotiation request, is
-- decoded to itself, where its length indicator fits a byte.
pub decode-encode_request :
    (B : ByteOps)
    → ByteLaws B
    → (r : ConnectionRequest) → IsConnectionRequest r
    → decode_request B (encode_request B r) ≡ ok r
decode-encode_request B L = rw (lawful-eq L) decode-encode_request_list

confirm_body : Option NegotiationResponse → Bytes
confirm_body none = []
confirm_body (some r) = response_bytes r

encode_confirm-tpdu :
    (n : Option NegotiationResponse)
    → encode_confirm list_bytes (record { nego = n }) ≡ tpdu tpdu_cc (confirm_body n)
unfolding encode_confirm confirm_body
encode_confirm-tpdu none = refl
encode_confirm-tpdu (some r) = rw (write_response_list, length-response_bytes)

nonempty_response :
    (r : NegotiationResponse)
    → read_response list_bytes (response_bytes r) ≡ ok (r, [])
    → nego_response list_bytes (response_bytes r) ≡ ok (some r)
unfolding response_bytes
nonempty_response (selected flags p) e = rw e
nonempty_response (failure code) e = rw e

nego-response_bytes :
    (r : NegotiationResponse)
    → IsResponse r
    → nego_response list_bytes (response_bytes r) ≡ ok (some r)
nego-response_bytes r h =
    let e : response_bytes r ++ [] ≡ response_bytes r = append-nil (response_bytes r) in
    let back : read_response list_bytes (response_bytes r) ≡ ok (r, []) =
      rw e at (read-response_bytes r [] h) in
    nonempty_response r back

decode-confirm_body :
    (n : Option NegotiationResponse)
    → IsNegoResponse n
    → decode_confirm list_bytes (tpdu tpdu_cc (confirm_body n)) ≡ ok (record { nego = n })
unfolding decode_confirm confirm_body
decode-confirm_body none h = rw (split-tpdu tpdu_cc [])
decode-confirm_body (some r) h = rw (split-tpdu tpdu_cc (response_bytes r), nego-response_bytes r h)

decode-encode_confirm_list :
    (c : ConnectionConfirm)
    → IsNegoResponse c.nego
    → decode_confirm list_bytes (encode_confirm list_bytes c) ≡ ok c
decode-encode_confirm_list c h = rw (encode_confirm-tpdu c.nego) (decode-confirm_body c.nego h)

-- A connection confirm with a selected protocol, a failure code or neither is decoded to itself.
pub decode-encode_confirm :
    (B : ByteOps)
    → ByteLaws B
    → (c : ConnectionConfirm) → IsNegoResponse c.nego
    → decode_confirm B (encode_confirm B c) ≡ ok c
decode-encode_confirm B L = rw (lawful-eq L) decode-encode_confirm_list
