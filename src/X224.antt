-- ===== src/X224.antt =====
-- x224.rs: the X.224 Connection Request, Connection Confirm and Data TPDUs inside a TPKT payload.
-- A Rust `String` is the list of its UTF-8 bytes.
pub mod Laws
pub mod Panics
mod Checks
use ferropipe_rdp.Common.{
  is_empty, ℕ, suc, ◌+◌, ◌%◌, Bool, true, false, ◌&&◌, Option, none, some, List, [], ◌∷◌, ◌++◌,
  Bytes, length, drop, ltb, ◌==◌, ◌!=◌, if◌then◌else◌,
}
use ferropipe_rdp.Common.Utf8.{from_utf8_lossy}
use ferropipe_rdp.Outcome.{Result, ok, err, short, protocol, ◌>>=◌, ◌>>◌, fail_if, index, slice}
use ferropipe_rdp.Wire.{ByteOps}
use ferropipe_rdp.Nego.{
  NegotiationRequest, NegotiationResponse, request_size, response_size, write_request, read_request,
  write_response, read_response,
}

abbrev pub tpdu_cr : ℕ
tpdu_cr = 0xE0

abbrev pub tpdu_cc : ℕ
tpdu_cc = 0xD0

abbrev pub tpdu_dt : ℕ
tpdu_dt = 0xF0

abbrev pub eot : ℕ
eot = 0x80

abbrev pub cr_cc_fixed : ℕ
cr_cc_fixed = 6

abbrev pub data_header : Bytes
data_header = 0x02 ∷ tpdu_dt ∷ eot ∷ []

pub record ConnectionRequest : Type 0 where
  pub cookie : Option Bytes
  pub nego : Option NegotiationRequest

pub record ConnectionConfirm : Type 0 where
  pub nego : Option NegotiationResponse

-- "Cookie: mstshash="
abbrev pub cookie_prefix : Bytes
cookie_prefix =
    b'C' ∷ b'o' ∷ b'o' ∷ b'k' ∷ b'i' ∷ b'e' ∷ b':' ∷ 0x20 ∷ b'm' ∷ b's' ∷ b't' ∷ b's' ∷ b'h' ∷ b'a'
    ∷ b's' ∷ b'h' ∷ b'=' ∷ []

abbrev pub crlf : Bytes
crlf = 0x0d ∷ 0x0a ∷ []

unfoldable pub cookie_line : Bytes → Bytes
cookie_line id = cookie_prefix ++ (id ++ crlf)

abbrev pub starts_with : Bytes → Bytes → Bool
starts_with body [] = true
starts_with [] (p ∷ ps) = false
starts_with (b ∷ body) (p ∷ ps) = b == p && starts_with body ps

abbrev pub next_position : Option ℕ → Option ℕ
next_position none = none
next_position (some i) = some (suc i)

-- `b.windows(2).position(|w| w == b"\r\n")`
unfoldable pub find_crlf : Bytes → Option ℕ
find_crlf [] = none
find_crlf (a ∷ []) = none
find_crlf (a ∷ b ∷ r) =
    let rest = next_position (find_crlf (b ∷ r)) in if a == 0x0d && b == 0x0a then some 0 else rest

pub cookie_at : Bytes → Option ℕ → Result (Option Bytes × Bytes)
cookie_at body none = ok (none, body)
cookie_at body (some end) = do
  id ← slice body (length cookie_prefix) end
  rest ← slice body (end + 2) (length body)
  ok (some (from_utf8_lossy id), rest)

unfoldable pub take_cookie : Bytes → Result (Option Bytes × Bytes)
unfolding cookie_at
take_cookie body =
    if starts_with body cookie_prefix then cookie_at body (find_crlf body) else ok (none, body)

-- Prefix `payload` with the X.224 Data TPDU header, and strip it.
module _ (B : ByteOps) where
  unfoldable pub wrap_data : Bytes → Bytes
  wrap_data payload = B.extend_from_slice (B.extend_from_slice [] data_header) payload

unfoldable pub unwrap_data : Bytes → Result Bytes
unwrap_data buf = do
  fail_if (ltb (length buf) (length data_header)) (short (length data_header) (length buf))
  code ← index buf 1
  fail_if (code != tpdu_dt) (protocol "not an X.224 Data TPDU")
  li ← index buf 0
  slice buf (li + 1) (length buf)

module _ (B : ByteOps) where
  -- The variable part of a CR or CC, and its code.
  unfoldable pub split_cr_cc : Bytes → Result (Bytes × ℕ)
  split_cr_cc buf = do
    fail_if (ltb (length buf) (cr_cc_fixed + 1)) (short (cr_cc_fixed + 1) (length buf))
    li ← index buf 0
    fail_if (ltb (length buf) (li + 1)) (short (li + 1) (length buf))
    code ← index buf 1
    fixed ← slice buf 1 (length buf)
    fixed1 ← B.advance fixed 1
    (dst, fixed2) ← B.get_u16 fixed1
    (src, fixed3) ← B.get_u16 fixed2
    (class, fixed4) ← B.get_u8 fixed3
    body ← slice buf (1 + cr_cc_fixed) (1 + li)
    ok (body, code)

  -- The fixed octets of a CR or CC, with the length indicator `li as u8` in front.
  abbrev pub fixed_part : ℕ → ℕ → Bytes
  fixed_part li code =
      B.put_u8 (B.put_u16 (B.put_u16 (B.put_u8 (B.put_u8 [] (li % 256)) code) 0) 0) 0

  abbrev pub cookie_bytes : Option Bytes → Bytes
  cookie_bytes none = []
  cookie_bytes (some id) = cookie_line id

  abbrev pub request_len : Option NegotiationRequest → ℕ
  request_len none = 0
  request_len (some r) = request_size

  abbrev pub put_request : Option NegotiationRequest → Bytes → Bytes
  put_request none out = out
  put_request (some r) out = write_request B r out

  unfoldable pub encode_request : ConnectionRequest → Bytes
  encode_request r =
      let cookie = cookie_bytes r.cookie in
      let li = cr_cc_fixed + length cookie + request_len r.nego in
      put_request r.nego (B.extend_from_slice (fixed_part li tpdu_cr) cookie)

  abbrev pub nego_request : Bytes → Result (Option NegotiationRequest)
  nego_request body =
      if is_empty body then ok none else do (r, rest) ← read_request B body; ok (some r)

  unfoldable pub decode_request : Bytes → Result ConnectionRequest
  decode_request buf = do
    (body, code) ← split_cr_cc buf
    fail_if (code != tpdu_cr) (protocol "not an X.224 Connection Request")
    (cookie, rest) ← take_cookie body
    nego ← nego_request rest
    ok (record { cookie = cookie; nego = nego })

  abbrev pub response_len : Option NegotiationResponse → ℕ
  response_len none = 0
  response_len (some r) = response_size

  abbrev pub put_response : Option NegotiationResponse → Bytes → Bytes
  put_response none out = out
  put_response (some r) out = write_response B r out

  unfoldable pub encode_confirm : ConnectionConfirm → Bytes
  encode_confirm c = put_response c.nego (fixed_part (cr_cc_fixed + response_len c.nego) tpdu_cc)

  abbrev pub nego_response : Bytes → Result (Option NegotiationResponse)
  nego_response body =
      if is_empty body then ok none else do (r, rest) ← read_response B body; ok (some r)

  unfoldable pub decode_confirm : Bytes → Result ConnectionConfirm
  decode_confirm buf = do
    (body, code) ← split_cr_cc buf
    fail_if (code != tpdu_cc) (protocol "not an X.224 Connection Confirm")
    nego ← nego_response body
    ok (record { nego = nego })
