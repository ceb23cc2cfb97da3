-- ===== src/Tpkt/Checks.antt =====
-- Runs of tpkt.rs, and its theorems at concrete inputs.
use ferropipe_rdp.Common.{◌<◌, ◌≡◌, ◌⊎◌, refl, [], ◌∷◌, ◌++◌, Bytes, length, ◌≤◌}
use ferropipe_rdp.Outcome.{ok, err, short, protocol}
use ferropipe_rdp.Wire.{list_bytes, list_bytes-ByteLaws}
use ferropipe_rdp.Tpkt.{encode, decode, max_tpkt_payload}
use ferropipe_rdp.Tpkt.Laws.{decode-encode, decode_sound, IsPacket}

abbrev payload : Bytes
payload = 0xe0 ∷ 0 ∷ []

abbrev framed : Bytes
framed = 3 ∷ 0 ∷ 0 ∷ 6 ∷ 0xe0 ∷ 0 ∷ []

encode_runs : encode list_bytes payload ≡ ok framed
unfolding encode
encode_runs = refl

decode_runs : decode list_bytes (framed ++ (9 ∷ [])) ≡ ok payload
unfolding decode
decode_runs = refl

decode_cut : decode list_bytes (3 ∷ 0 ∷ 0 ∷ 6 ∷ 0xe0 ∷ []) ≡ err (short 6 5)
unfolding decode
decode_cut = refl

decode-encode_example :
    ((pkt : Bytes) × (length payload ≤ max_tpkt_payload)
      × (encode list_bytes payload ≡ ok pkt)
      × (decode list_bytes (pkt ++ (9 ∷ [])) ≡ ok payload))
    ⊎ ((max_tpkt_payload < length payload)
        × (encode list_bytes payload ≡ err (protocol "TPKT payload exceeds u16 length")))
decode-encode_example = decode-encode list_bytes list_bytes-ByteLaws payload (9 ∷ [])

decode_sound_example : IsPacket (framed ++ (9 ∷ [])) payload
decode_sound_example =
    decode_sound list_bytes list_bytes-ByteLaws (framed ++ (9 ∷ [])) payload decode_runs
