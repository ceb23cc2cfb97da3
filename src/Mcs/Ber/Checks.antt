-- ===== src/Mcs/Ber/Checks.antt =====
-- Runs of mcs/ber.rs, and its theorems at concrete inputs.
use ferropipe_rdp.Mcs.Ber.{tlv, read_integer, integer, expect, ber_length}
use ferropipe_rdp.Common.{arith, refl, [], ◌∷◌, ◌++◌, ◌≡◌, ◌∷◌, ◌++◌}
use ferropipe_rdp.Outcome.{ok}
use ferropipe_rdp.Mcs.Ber.Laws.{read_integer-integer, expect-tlv}

length_runs : ber_length 300 ≡ 0x82 ∷ 1 ∷ 44 ∷ []
unfolding ber_length
length_runs = refl

integer_runs : integer 0x8000 ≡ 2 ∷ 3 ∷ 0 ∷ 0x80 ∷ 0 ∷ []
unfolding integer
integer_runs = refl

expect-tlv_example :
    expect (0x04 ∷ []) (tlv (0x04 ∷ []) (7 ∷ 8 ∷ []) ++ (9 ∷ [])) ≡ ok (7 ∷ 8 ∷ [], 9 ∷ [])
expect-tlv_example = expect-tlv (0x04 ∷ []) (7 ∷ 8 ∷ []) (9 ∷ []) (omega arith)

read_integer-integer_example : read_integer (integer 200 ++ (9 ∷ [])) ≡ ok (200, 9 ∷ [])
read_integer-integer_example = read_integer-integer 200 (9 ∷ []) (omega arith)
