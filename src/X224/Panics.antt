-- ===== src/X224/Panics.antt =====
-- x224.rs: the length indicator comes from the peer, and two of its uses are not checked.
use ferropipe_rdp.X224.{tpdu_dt, unwrap_data, split_cr_cc}
use ferropipe_rdp.Wire.{lawful-eq, list_bytes, ByteLaws, ByteOps}
use ferropipe_rdp.Common.{arith, ◌<◌, get_or, length, ◌≤◌, ◌↔◌, ◌≡◌, ◌∷◌, Bytes}
use ferropipe_rdp.Outcome.{panic}

-- `unwrap_data` panics exactly on a Data TPDU of three bytes or more whose length indicator says
-- that the header ends past the buffer.
pub unwrap_data-panic_iff :
    (buf : Bytes)
    → (unwrap_data buf ≡ panic)
      ↔ ((3 ≤ length buf) × (get_or buf 1 0 ≡ tpdu_dt) × (length buf ≤ get_or buf 0 0))
unfolding unwrap_data
unwrap_data-panic_iff (li ∷ code ∷ eot ∷ rest) = ground arith
unwrap_data-panic_iff _ = ground arith

split-panic_list :
    (buf : Bytes) → (split_cr_cc list_bytes buf ≡ panic) ↔ ((7 ≤ length buf) × (get_or buf 0 0 < 6))
unfolding split_cr_cc
split-panic_list (a ∷ b ∷ c ∷ d ∷ e ∷ f ∷ g ∷ r) = ground arith
split-panic_list _ = ground arith

-- `split_cr_cc` panics exactly on seven bytes or more whose length indicator is below 6, the length
-- of the fixed octets.
pub split_cr_cc-panic_iff :
    (B : ByteOps)
    → ByteLaws B
    → (buf : Bytes) → (split_cr_cc B buf ≡ panic) ↔ ((7 ≤ length buf) × (get_or buf 0 0 < 6))
split_cr_cc-panic_iff B L = rw (lawful-eq L) split-panic_list
