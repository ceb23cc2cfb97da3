-- ===== src/Gcc/Panics.antt =====
-- gcc.rs: the parsers of the server's data do not panic.
use ferropipe_rdp.Wire.{list_bytes}
use ferropipe_rdp.Gcc.{
  at_start, BlockState, read_round, read_blocks, parse_server_network_data,
  parse_conference_create_response, ServerNetworkData, read_net, read_ids, read_block,
}
use ferropipe_rdp.Common.{
  length-drop, ◌≡◌, ◌≡◌, lt→leb, drop, ◌-◌, ◌-◌, take, Bool, inr, leb→le, inl, leb, ◌≤◌, ◌≤◌,
  length, Bool-cases, [], ◌*◌, zero, ◌+◌, arith, ◌∷◌, suc, ◌≢◌, ◌≢◌, Bytes, ℕ,
}
use ferropipe_rdp.Outcome.{ok, >>=-ne-panic, panic}
use ferropipe_rdp.Gcc.Envelope.{find_key-IsWithin}

read_ids-ne-panic : (n : ℕ) (b : Bytes) → read_ids list_bytes n b ≢ panic
unfolding read_ids
read_ids-ne-panic zero b = λ p. cc
read_ids-ne-panic (suc n) [] = λ p. cc
read_ids-ne-panic (suc n) (x ∷ []) = λ p. cc
read_ids-ne-panic (suc n) (x ∷ y ∷ r) = λ p. ground (arith, read_ids-ne-panic n r)

read_net-ne-panic : (out : ServerNetworkData) (b : Bytes) → read_net list_bytes out b ≢ panic
unfolding read_net
read_net-ne-panic out (a ∷ b ∷ c ∷ d ∷ r) = λ p. ground (arith, read_ids-ne-panic (c + 256 * d) r)
read_net-ne-panic out _ = λ p. ground arith

read_block-ne-panic :
    (out : ServerNetworkData) (ty : ℕ) (body : Bytes) → read_block list_bytes out ty body ≢ panic
unfolding read_block
read_block-ne-panic out ty [] = λ p. ground (arith, read_net-ne-panic out [])
read_block-ne-panic out ty (a ∷ []) = λ p. ground (arith, read_net-ne-panic out (a ∷ []))
read_block-ne-panic out ty (a ∷ b ∷ r) = λ p. ground (arith, read_net-ne-panic out (a ∷ b ∷ r))

round_ne_panic :
    (out : ServerNetworkData) (found : Bool) (buf : Bytes)
    → 4 ≤ length buf
    → read_round list_bytes (record { out = out; found_net = found; buf = buf }) ≢ panic
unfolding read_round
round_ne_panic out found (a ∷ b ∷ c ∷ d ∷ r) h = λ p. ground (
  arith,
  read_block-ne-panic out (a + 256 * b) (take (c + 256 * d - 4) (drop 4 (a ∷ b ∷ c ∷ d ∷ r))),
)
round_ne_panic out found _ h = absurd (omega arith)

read_round-ne-panic :
    (state : BlockState) → 4 ≤ length state.buf → read_round list_bytes state ≢ panic
read_round-ne-panic state h = round_ne_panic state.out state.found_net state.buf h

-- A round takes a block of four bytes or more off the buffer.
shorter_after :
    (out : ServerNetworkData) (found : Bool) (buf : Bytes) (state' : BlockState)
    → read_round list_bytes (record { out = out; found_net = found; buf = buf }) ≡ ok state'
    → length state'.buf + 4 ≤ length buf
unfolding read_round
shorter_after out found (a ∷ b ∷ c ∷ d ∷ r) state' h =
    ground (arith, length-drop (c + 256 * d) (a ∷ b ∷ c ∷ d ∷ r))
shorter_after out found _ state' h = ground arith

length-read_round :
    (state state' : BlockState)
    → read_round list_bytes state ≡ ok state'
    → length state'.buf + 4 ≤ length state.buf
length-read_round state state' h = shorter_after state.out state.found_net state.buf state' h

-- A round for each byte of the buffer is enough.
read_blocks-ne-panic :
    (n : ℕ) (state : BlockState) → length state.buf ≤ n → read_blocks list_bytes n state ≢ panic
unfolding read_blocks
read_blocks-ne-panic zero state h =
    rw (lt→leb 4 (length state.buf) (omega arith), read_blocks) (λ p. cc)
read_blocks-ne-panic (suc n) state h = elim (Bool-cases (leb 4 (length state.buf))) [
  | inl e ↦
      rw (e, read_blocks)
        (>>=-ne-panic (read_round list_bytes state) _
          (read_round-ne-panic state (leb→le 4 (length state.buf) e))
          (λ s k.
            let shorter : length s.buf + 4 ≤ length state.buf = length-read_round state s k in
            read_blocks-ne-panic n s (omega arith)))
  | inr e ↦ rw (e, read_blocks) (λ p. cc)
]

pub parse_server_network_data-ne-panic_list :
    (buf : Bytes) → parse_server_network_data list_bytes buf ≢ panic
unfolding parse_server_network_data
parse_server_network_data-ne-panic_list buf =
    >>=-ne-panic (read_blocks list_bytes (length buf) (at_start buf)) _
      (read_blocks-ne-panic (length buf) (at_start buf) (omega arith)) (λ s e. λ p. ground arith)

pub parse_conference_create_response-ne-panic_list :
    (gcc : Bytes) → parse_conference_create_response list_bytes gcc ≢ panic
unfolding parse_conference_create_response
parse_conference_create_response-ne-panic_list gcc = λ p. ground (arith, find_key-IsWithin gcc)
