-- ===== src/Tpkt/Laws.antt =====
-- tpkt.rs: what `encode` and `decode` do on every input.
use ferropipe_rdp.Common.{
  ℕ, ◌+◌, ◌-◌, ◌*◌, ◌≤◌, ◌<◌, ◌≡◌, ◌≢◌, ◌⊎◌, inl, inr, [], ◌∷◌, ◌++◌, Bytes, length, drop, ltb,
  Bool-cases, ltb→lt, ltb→le, take_left, length-append, length-take, take-append-drop, arith,
}
use ferropipe_rdp.Outcome.{ok, err, panic, protocol}
use ferropipe_rdp.Wire.{ByteOps, ByteLaws, list_bytes, lawful-eq, u16_be}
use ferropipe_rdp.Tpkt.{max_tpkt_payload, encode, decode}

-- The packet of a payload that fits.
abbrev pub packet : Bytes → Bytes
packet payload = 3 ∷ 0 ∷ (u16_be (length payload + 4) ++ payload)

pub encode_fits : (p : Bytes) → length p ≤ max_tpkt_payload → encode list_bytes p ≡ ok (packet p)
unfolding encode
encode_fits p h = ground arith

pub decode-packet :
    (p rest : Bytes) → length p ≤ max_tpkt_payload → decode list_bytes (packet p ++ rest) ≡ ok p
unfolding decode
decode-packet p rest h = ground (arith, length-append p rest, take_left p rest (length p))

encode_long :
    (p : Bytes)
    → max_tpkt_payload < length p
    → encode list_bytes p ≡ err (protocol "TPKT payload exceeds u16 length")
unfolding encode
encode_long p h = ground arith

decode-encode_list :
    (p rest : Bytes)
    → ((pkt : Bytes) × (length p ≤ max_tpkt_payload)
        × (encode list_bytes p ≡ ok pkt)
        × (decode list_bytes (pkt ++ rest) ≡ ok p))
      ⊎ ((max_tpkt_payload < length p)
          × (encode list_bytes p ≡ err (protocol "TPKT payload exceeds u16 length")))
decode-encode_list p rest = elim (Bool-cases (ltb max_tpkt_payload (length p))) [
  | inl e ↦ inr (ltb→lt _ _ e, encode_long p (ltb→lt _ _ e))
  | inr e ↦
      let h : length p ≤ max_tpkt_payload = ltb→le _ _ e in
      inl (packet p, h, encode_fits p h, decode-packet p rest h)
]

-- A payload of at most 65531 bytes is framed, and `decode` gives it back from the packet whatever
-- bytes follow; a longer payload is refused.
pub decode-encode :
    (B : ByteOps)
    → ByteLaws B
    → (p rest : Bytes)
    → ((pkt : Bytes) × (length p ≤ max_tpkt_payload)
        × (encode B p ≡ ok pkt)
        × (decode B (pkt ++ rest) ≡ ok p))
      ⊎ ((max_tpkt_payload < length p)
          × (encode B p ≡ err (protocol "TPKT payload exceeds u16 length")))
decode-encode B L = rw (lawful-eq L) decode-encode_list

-- The buffer starts with a packet of the payload: the version 3, a reserved byte, the length of the
-- whole packet in two bytes, and the payload.
abbrev pub IsPacket : Bytes → Bytes → Type 0
IsPacket buf p =
    (reserved : ℕ) × (hi : ℕ) × (lo : ℕ) × (rest : Bytes) × (buf
      ≡ 3 ∷ reserved ∷ hi ∷ lo ∷ (p ++ rest))
    × (length p + 4 ≡ 256 * hi + lo)

decode_sound_list : (buf p : Bytes) → decode list_bytes buf ≡ ok p → IsPacket buf p
unfolding decode
decode_sound_list [] p h = cc
decode_sound_list (a ∷ []) p h = cc
decode_sound_list (a ∷ b ∷ []) p h = cc
decode_sound_list (a ∷ b ∷ c ∷ []) p h = cc
decode_sound_list (a ∷ b ∷ c ∷ d ∷ rest) p h = (
  b,
  c,
  d,
  drop (256 * c + d - 4) rest,
  ground (arith, take-append-drop (256 * c + d - 4) rest),
  ground (arith, length-take (256 * c + d - 4) rest),
)

-- What `decode` returns is the payload of a packet that stands at the front of the buffer: a header
-- of version 3 and any reserved byte, with the length of header and payload in two bytes, and then
-- the payload itself.
pub decode_sound :
    (B : ByteOps) → ByteLaws B → (buf p : Bytes) → decode B buf ≡ ok p → IsPacket buf p
decode_sound B L = rw (lawful-eq L) decode_sound_list

decode-ne-panic_list : (buf : Bytes) → decode list_bytes buf ≢ panic
unfolding decode
decode-ne-panic_list [] = λ h. cc
decode-ne-panic_list (a ∷ []) = λ h. cc
decode-ne-panic_list (a ∷ b ∷ []) = λ h. cc
decode-ne-panic_list (a ∷ b ∷ c ∷ []) = λ h. cc
decode-ne-panic_list (a ∷ b ∷ c ∷ d ∷ rest) = λ h. ground arith

-- `decode` never panics, whatever the bytes.
pub decode-ne-panic : (B : ByteOps) → ByteLaws B → (buf : Bytes) → decode B buf ≢ panic
decode-ne-panic B L = rw (lawful-eq L) decode-ne-panic_list
