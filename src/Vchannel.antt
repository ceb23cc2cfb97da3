-- ===== src/Vchannel.antt =====
-- vchannel.rs: static virtual channel framing, the splitting of a message into chunks, and the
-- reassembly of chunks into messages.
pub mod Chunks
pub mod Reassembly
mod Checks
use ferropipe_rdp.Wire.{ByteOps}
use ferropipe_rdp.Common.{
  zero, none, some, not, ◌++◌, ◌++◌, true, ◌!=◌, ◌!=◌, ◌==◌, ltb, leb, bit_and, ◌==◌, if◌then◌else◌,
  ◌∷◌, drop, ◌-◌, take, bit_or, ◌+◌, min, ◌^◌, suc, ◌%◌, length, false, Option, List, Bool, ℕ, [],
  Bytes,
}
use ferropipe_rdp.Outcome.{protocol, ◌>>=◌, short, fail_if, ◌>>◌, panic, err, ok, Result}

abbrev pub channel_chunk_length : ℕ
channel_chunk_length = 1600

abbrev pub channel_flag_first : ℕ
channel_flag_first = 0x1

abbrev pub channel_flag_last : ℕ
channel_flag_last = 0x2

module _ (B : ByteOps) where
  -- One chunk: the total length as a u32, the flags, and the part.
  abbrev pub chunk_pdu : ℕ → ℕ → Bytes → Bytes
  chunk_pdu total flags part = B.extend_from_slice (B.put_u32_le (B.put_u32_le [] total) flags) part

  unfoldable pub wrap : Bytes → Bytes
  wrap payload =
      chunk_pdu (length payload % 2 ^ 32) (bit_or channel_flag_first channel_flag_last) payload

  abbrev pub first_flag : ℕ → ℕ
  first_flag offset = if offset == 0 then channel_flag_first else 0

  abbrev pub last_flag : ℕ → ℕ → ℕ
  last_flag end len = if end == len then channel_flag_last else 0

  -- The `while offset < data.len()` loop, on fuel. A slice is within the guards of the loop.
  unfoldable pub chunk_loop : ℕ → Bytes → ℕ → List Bytes
  chunk_loop zero payload offset = []
  chunk_loop (suc fuel) payload offset =
      let end = min (offset + channel_chunk_length) (length payload) in
      let flags = bit_or (bit_or 0 (first_flag offset)) (last_flag end (length payload)) in
      let part = take (end - offset) (drop offset payload) in
      let rest = chunk_pdu (length payload % 2 ^ 32) flags part ∷ chunk_loop fuel payload end in
      if ltb offset (length payload) then rest else []

  -- Each round takes a byte at least, so one round for each byte is enough.
  unfoldable pub chunk : Bytes → List Bytes
  chunk payload =
      if leb (length payload) channel_chunk_length
      then wrap payload ∷ []
      else chunk_loop (length payload) payload 0

pub record Reassembler : Type 0 where
  pub buffer : Bytes
  pub expected : ℕ
  pub in_progress : Bool

abbrev pub new_reassembler : Reassembler
new_reassembler = record { buffer = []; expected = 0; in_progress = false }

-- What `push` does once the header is read.
unfoldable pub accept : Reassembler → ℕ → ℕ → Bytes → Reassembler × Result (Option Bytes)
accept r total flags payload =
    let r1 =
      if bit_and flags channel_flag_first != 0
      then record { buffer = []; expected = total; in_progress = true }
      else r in
    let r2 = record r1 { buffer = r1.buffer ++ payload } in
    if not r1.in_progress
    then (r1, err (protocol "virtual channel chunk without FIRST"))
    else if bit_and flags channel_flag_last != 0
    then (record r2 { in_progress = false; buffer = [] }, ok (some r2.buffer))
    else (r2, ok none)

abbrev pub accept_read : Reassembler → Result (ℕ × ℕ × Bytes) → Reassembler × Result (Option Bytes)
accept_read r (ok (total, flags, payload)) = accept r total flags payload
accept_read r (err e) = (r, err e)
accept_read r panic = (r, panic)

module _ (B : ByteOps) where
  abbrev pub read_header : Bytes → Result (ℕ × ℕ × Bytes)
  read_header pdu = do
    fail_if (ltb (length pdu) 8) (short 8 (length pdu))
    (total, b) ← B.get_u32_le pdu
    (flags, payload) ← B.get_u32_le b
    ok (total, flags, payload)

  -- The new state, and what the call returns.
  unfoldable pub push : Reassembler → Bytes → Reassembler × Result (Option Bytes)
  unfolding accept
  push r pdu = accept_read r (read_header pdu)
