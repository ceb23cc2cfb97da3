-- ===== src/Input/Laws.antt =====
-- input.rs: the length field of an input PDU, as a reader of fast-path lengths takes it.
use ferropipe_rdp.Input.{input_length, input_body, input_pdu}
use ferropipe_rdp.Graphics.Fastpath.{read_fp_length}
use ferropipe_rdp.Common.{
  ◌*◌, ◌/◌, inr, ◌%◌, arith, inl, ap, ◌∙◌, ◌∙◌, ltb, List, Bool-cases, ◌≡◌, ◌≡◌, ◌++◌, ◌^◌, ◌<◌,
  ◌<◌, ◌+◌, length, drop, Bytes,
}
use ferropipe_rdp.Outcome.{ok}
use ferropipe_rdp.Common.Bits.{bit_and-0x7f, bit_or-shift_left, bit_and-0x80}

-- What follows the header byte of a PDU.
abbrev pub behind_header : Bytes → Bytes
behind_header pdu = drop 1 pdu

read_fp_length-input_length :
    (body : Bytes)
    → length body + 3 < 2 ^ 15
    → read_fp_length (input_length (1 + length body) ++ body)
      ≡ ok (1 + length (input_length (1 + length body) ++ body), body)
unfolding read_fp_length input_length
read_fp_length-input_length body h =
    let total = 1 + length body + 2 in
    elim (Bool-cases (ltb (1 + length body + 1) 0x80)) [
      | inl e ↦ rw e (ground (arith, bit_and-0x80 ((1 + length body + 1) % 256)))
      | inr e ↦
          rw (e, bit_or-shift_left 7 1 (total / 2 ^ 8 % 256) (omega arith))
            (ground (
              arith,
              bit_and-0x80 (1 * 2 ^ 7 + total / 2 ^ 8 % 256),
              bit_and-0x7f (1 * 2 ^ 7 + total / 2 ^ 8 % 256),
              bit_or-shift_left 8 (total / 2 ^ 8) (total % 256),
            ))
    ]

-- input_pdu: behind the header byte the PDU has a fast-path length, which the reader of fast-path
-- lengths takes for the length of the whole PDU where that is below 32768, and the body follows.
pub read_fp_length-input_pdu :
    (events : List Bytes)
    → length (input_body events) + 3 < 2 ^ 15
    → read_fp_length (behind_header (input_pdu events))
      ≡ ok (length (input_pdu events), input_body events)
unfolding input_pdu
read_fp_length-input_pdu events h =
    read_fp_length-input_length (input_body events) h
    ∙ ap (λ n. ok (n, input_body events)) (omega arith)
