-- ===== src/X224/Checks.antt =====
-- Runs of x224.rs, and its theorems at concrete inputs.
use ferropipe_rdp.Wire.{list_bytes, list_bytes-ByteLaws}
use ferropipe_rdp.Common.{
  ◌<◌, ◌<◌, get_or, length, ◌≤◌, ◌≤◌, arith, ◌↔◌, ◌↔◌, refl, [], ◌≡◌, ◌≡◌, ◌∷◌, some, none, Bytes,
}
use ferropipe_rdp.X224.{
  find_crlf, tpdu_dt, wrap_data, encode_confirm, unwrap_data, split_cr_cc, encode_request,
  decode_request, decode_confirm, ConnectionRequest, ConnectionConfirm,
}
use ferropipe_rdp.Nego.{failure}
use ferropipe_rdp.Outcome.{panic, ok}
use ferropipe_rdp.X224.Laws.{unwrap_data-wrap_data, decode-encode_request, decode-encode_confirm}
use ferropipe_rdp.X224.Panics.{unwrap_data-panic_iff, split_cr_cc-panic_iff}
use ferropipe_rdp.Common.Utf8.{ascii-IsUtf8}

abbrev request : ConnectionRequest
request = record {
  cookie = some (0x75 ∷ []);
  nego = some (record { flags = 0; requested = record { bits = 3 } });
}

abbrev confirm : ConnectionConfirm
confirm = record { nego = some (failure 5) }

request_runs :
    encode_request list_bytes (record { cookie = none; nego = none })
    ≡ 6 ∷ 0xe0 ∷ 0 ∷ 0 ∷ 0 ∷ 0 ∷ 0 ∷ []
unfolding encode_request
request_runs = refl

wrap_runs : unwrap_data (2 ∷ 0xf0 ∷ 0x80 ∷ 7 ∷ []) ≡ ok (7 ∷ [])
unfolding unwrap_data
wrap_runs = refl

unwrap_data-wrap_data_example : unwrap_data (wrap_data list_bytes (1 ∷ 2 ∷ [])) ≡ ok (1 ∷ 2 ∷ [])
unwrap_data-wrap_data_example = unwrap_data-wrap_data list_bytes list_bytes-ByteLaws (1 ∷ 2 ∷ [])

no_crlf : find_crlf (0x75 ∷ []) ≡ none
unfolding find_crlf
no_crlf = refl

decode-encode_request_example :
    decode_request list_bytes (encode_request list_bytes request) ≡ ok request
decode-encode_request_example =
    decode-encode_request list_bytes list_bytes-ByteLaws request (
      (ascii-IsUtf8 (0x75 ∷ []) (omega arith, tt), no_crlf),
      omega arith,
      (omega arith, omega arith),
    )

decode-encode_confirm_example :
    decode_confirm list_bytes (encode_confirm list_bytes confirm) ≡ ok confirm
decode-encode_confirm_example =
    decode-encode_confirm list_bytes list_bytes-ByteLaws confirm (omega arith)

abbrev octets : Bytes
octets = 9 ∷ 0xf0 ∷ 0x80 ∷ []

unwrap_data-panic_iff_example :
    (unwrap_data octets ≡ panic)
    ↔ ((3 ≤ length octets) × (get_or octets 1 0 ≡ tpdu_dt) × (length octets ≤ get_or octets 0 0))
unwrap_data-panic_iff_example = unwrap_data-panic_iff octets

abbrev short_header : Bytes
short_header = 2 ∷ 0xe0 ∷ 0 ∷ 0 ∷ 0 ∷ 0 ∷ 0 ∷ []

split_cr_cc-panic_iff_example :
    (split_cr_cc list_bytes short_header ≡ panic)
    ↔ ((7 ≤ length short_header) × (get_or short_header 0 0 < 6))
split_cr_cc-panic_iff_example = split_cr_cc-panic_iff list_bytes list_bytes-ByteLaws short_header
