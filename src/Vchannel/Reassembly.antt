-- ===== src/Vchannel/Reassembly.antt =====
-- vchannel.rs: what `chunk` splits, `Reassembler` puts together again.
use mathlib.Core.List.{flat_map}
use ferropipe_rdp.Wire.{lawful-eq, ByteLaws, list_bytes, ByteOps}
use ferropipe_rdp.Outcome.{panic, err, ◌>>=◌, ok, Result}
use ferropipe_rdp.Common.{
  leb→lt, zero, refl, ltb→le, leb, inr, take-append-take, ltb→lt, inl, ltb, Bool-cases,
  take-append-drop, drop, suc, ◌∙◌, ◌∙◌, ◌+◌, ◌≤◌, ◌≤◌, arith, length, ◌^◌, take, ◌%◌, true, ◌≡◌,
  ◌<◌, ◌≡◌, ◌<◌, ◌++◌, ℕ, false, none, [], ◌∷◌, some, List, Bytes, Option,
}
use ferropipe_rdp.Vchannel.{wrap, chunk, chunk_loop, accept, chunk_pdu, push, Reassembler}
use ferropipe_rdp.Vchannel.Chunks.{
  accept_next, accept_first_last, accept_first, round_next, round_first, round_last, accept_last,
  push-chunk,
}

-- What a run of PDUs completes: the messages so far, and the state; the first error ends the run.
abbrev pub note :
    Result (Option Bytes) → Result (List Bytes × Reassembler) → Result (List Bytes × Reassembler)
note (ok none) later = later
note (ok (some message)) later = do (messages, r) ← later; ok (message ∷ messages, r)
note (err e) later = err e
note panic later = panic

module _ (B : ByteOps) where
  unfoldable pub collect : Reassembler → List Bytes → Result (List Bytes × Reassembler)
  collect r [] = ok ([], r)
  collect r (pdu ∷ pdus) = note (push B r pdu).1 (collect (push B r pdu).0 pdus)

-- Receiving the chunks of `payload` in front of `more`, from a state that has `seen` so far,
-- completes `payload` and goes on with `more` from a state that has seen nothing.
abbrev Completes : Reassembler → Bytes → List Bytes → List Bytes → Type 0
Completes r payload chunks more =
    (s : Reassembler) × (collect list_bytes r (chunks ++ more)
      ≡ note (ok (some payload)) (collect list_bytes s more))

abbrev cleared : Reassembler → Reassembler
cleared r = record r { buffer = []; in_progress = false }

-- One more chunk in front.
collect-chunk :
    (r : Reassembler) (total flags : ℕ) (part : Bytes) (pdus : List Bytes)
    → flags < 256
    → (t : ℕ) × (collect list_bytes r (chunk_pdu list_bytes (total % 2 ^ 32) flags part ∷ pdus)
        ≡ note (accept r t flags part).1 (collect list_bytes (accept r t flags part).0 pdus))
unfolding collect
collect-chunk r total flags part pdus h = let (t, e) = push-chunk r total flags part h in (t, rw e)

last-Completes :
    (r : Reassembler) (total : ℕ) (part : Bytes) (more : List Bytes)
    → r.in_progress ≡ true
    → Completes r (r.buffer ++ part) (chunk_pdu list_bytes (total % 2 ^ 32) 2 part ∷ []) more
last-Completes r total part more h =
    let (t, e) = collect-chunk r total 2 part more (omega arith) in
    (cleared r, e ∙ rw (accept_last r t part h))

-- The last round, and a middle one before a loop that completes.
last_round :
    (fuel : ℕ) (r : Reassembler) (payload : Bytes) (offset : ℕ) (more : List Bytes)
    → r.in_progress ≡ true
    → r.buffer ≡ take offset payload
    → 0 < offset
    → offset < length payload
    → length payload ≤ offset + 1600
    → Completes r payload (chunk_loop list_bytes (suc fuel) payload offset) more
last_round fuel r payload offset more hp hb pos lt h =
    let whole : r.buffer ++ drop offset payload ≡ payload =
      rw hb (take-append-drop offset payload) in
    rw (round_last fuel payload offset pos lt h)
      (rw whole at (last-Completes r (length payload) (drop offset payload) more hp))

next_round :
    (fuel : ℕ) (r : Reassembler) (payload : Bytes) (offset : ℕ) (more : List Bytes)
    → r.in_progress ≡ true
    → 0 < offset
    → offset + 1600 < length payload
    → ((s : Reassembler)
        → s.in_progress ≡ true
        → s.buffer ≡ r.buffer ++ take 1600 (drop offset payload)
        → Completes s payload (chunk_loop list_bytes fuel payload (offset + 1600)) more)
    → Completes r payload (chunk_loop list_bytes (suc fuel) payload offset) more
next_round fuel r payload offset more hp pos h later =
    let part : Bytes = take 1600 (drop offset payload) in
    let rest : List Bytes = chunk_loop list_bytes fuel payload (offset + 1600) ++ more in
    let (t, e) = collect-chunk r (length payload) 0 part rest (omega arith) in
    let (s, done) = later (record r { buffer = r.buffer ++ part }) hp refl in
    (s, rw (round_next fuel payload offset pos h) (e ∙ rw (accept_next r t part hp) done))

loop-Completes :
    (fuel : ℕ) (r : Reassembler) (payload : Bytes) (offset : ℕ) (more : List Bytes)
    → r.in_progress ≡ true
    → r.buffer ≡ take offset payload
    → 0 < offset
    → offset < length payload
    → length payload ≤ offset + fuel
    → Completes r payload (chunk_loop list_bytes fuel payload offset) more
loop-Completes zero r payload offset more hp hb pos lt enough = absurd (omega arith)
loop-Completes (suc fuel) r payload offset more hp hb pos lt enough =
    elim (Bool-cases (ltb (offset + 1600) (length payload))) [
      | inl e ↦ next_round fuel r payload offset more hp pos (ltb→lt _ _ e) (λ s sp sb.
          loop-Completes fuel s payload (offset + 1600) more sp
            (sb ∙ rw hb (take-append-take offset 1600 (offset + 1600) payload refl)) (omega arith)
            (ltb→lt _ _ e) (omega arith))
      | inr e ↦ last_round fuel r payload offset more hp hb pos lt (ltb→le _ _ e)
    ]

single-Completes :
    (r : Reassembler) (payload : Bytes) (more : List Bytes)
    → Completes r payload (wrap list_bytes payload ∷ []) more
unfolding wrap
single-Completes r payload more =
    let (t, e) = collect-chunk r (length payload) 3 payload more (omega arith) in
    (
      record { buffer = []; expected = t; in_progress = false },
      e ∙ rw (accept_first_last r t payload),
    )

many-Completes :
    (fuel : ℕ) (r : Reassembler) (payload : Bytes) (more : List Bytes)
    → 1600 < length payload
    → length payload ≤ fuel
    → Completes r payload (chunk_loop list_bytes fuel payload 0) more
many-Completes zero r payload more h enough = absurd (omega arith)
many-Completes (suc fuel) r payload more h enough =
    let part : Bytes = take 1600 payload in
    let rest : List Bytes = chunk_loop list_bytes fuel payload 1600 ++ more in
    let (t, e) = collect-chunk r (length payload) 1 part rest (omega arith) in
    let (s, done) =
      loop-Completes fuel (record { buffer = part; expected = t; in_progress = true }) payload 1600
        more refl refl (omega arith) h (omega arith) in
    (s, rw (round_first fuel payload h) (e ∙ rw (accept_first r t part) done))

chunk-Completes :
    (r : Reassembler) (payload : Bytes) (more : List Bytes)
    → Completes r payload (chunk list_bytes payload) more
unfolding chunk
chunk-Completes r payload more = elim (Bool-cases (leb (length payload) 1600)) [
  | inl e ↦ rw e (single-Completes r payload more)
  | inr e ↦ rw e (many-Completes (length payload) r payload more (leb→lt _ _ e) (omega arith))
]

collect-chunks_list :
    (r : Reassembler) (payloads : List Bytes)
    → (s : Reassembler) × (collect list_bytes r (flat_map (chunk list_bytes) payloads)
        ≡ ok (payloads, s))
unfolding collect flat_map
collect-chunks_list r [] = (r, refl)
collect-chunks_list r (p ∷ ps) =
    let (s, e) = chunk-Completes r p (flat_map (chunk list_bytes) ps) in
    let (t, later) = collect-chunks_list s ps in (t, e ∙ rw later)

-- Whatever the reassembler has seen before, fed the chunks of any messages one after the other it
-- completes exactly these messages, in order and with no error.
pub collect-chunks :
    (B : ByteOps)
    → ByteLaws B
    → (r : Reassembler) (payloads : List Bytes)
    → (s : Reassembler) × (collect B r (flat_map (chunk B) payloads) ≡ ok (payloads, s))
collect-chunks B L = rw (lawful-eq L) collect-chunks_list
