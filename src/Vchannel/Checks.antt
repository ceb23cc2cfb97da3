-- ===== src/Vchannel/Checks.antt =====
-- Runs of vchannel.rs, and its theorem at a concrete input.
use mathlib.Core.List.{flat_map}
use ferropipe_rdp.Wire.{list_bytes, list_bytes-ByteLaws}
use ferropipe_rdp.Common.{refl, ◌≡◌, ◌≡◌, replicate, [], ◌∷◌, Bytes, List}
use ferropipe_rdp.Vchannel.{wrap, new_reassembler, push, chunk, Reassembler}
use ferropipe_rdp.Vchannel.Reassembly.{collect-chunks, collect}
use ferropipe_rdp.Outcome.{ok, protocol, err}

abbrev messages : List Bytes
messages = (1 ∷ 2 ∷ []) ∷ replicate 1700 7 ∷ []

chunk_runs : chunk list_bytes (5 ∷ []) ≡ (1 ∷ 0 ∷ 0 ∷ 0 ∷ 3 ∷ 0 ∷ 0 ∷ 0 ∷ 5 ∷ []) ∷ []
unfolding chunk wrap
chunk_runs = refl

push_runs :
    push list_bytes new_reassembler (2 ∷ 0 ∷ 0 ∷ 0 ∷ 2 ∷ 0 ∷ 0 ∷ 0 ∷ 5 ∷ [])
    ≡ (new_reassembler, err (protocol "virtual channel chunk without FIRST"))
unfolding push
push_runs = refl

collect-chunks_example :
    (s : Reassembler) × (collect list_bytes new_reassembler (flat_map (chunk list_bytes) messages)
      ≡ ok (messages, s))
collect-chunks_example = collect-chunks list_bytes list_bytes-ByteLaws new_reassembler messages
