-- ===== src/Mcs/Ber/Laws.antt =====
-- mcs/ber.rs: what is encoded is read back.
use native.Mathlib.Nat.{mod-eq_of_lt}
use ferropipe_rdp.Mcs.Ber.{
  insert_bytes, ber_length, tlv, integer_bytes, integer, fold_bytes, read_ber_length, same_bytes,
  expect, read_integer,
}
use ferropipe_rdp.Common.{
  drop, ◌≢◌, ◌≢◌, ◌!=◌, get_or, bit_and, ◌==◌, if◌then◌else◌, refl, true, append_assoc, drop_left,
  take_left, length-append, bit_or, [], ◌*◌, ◌∙◌, ◌∙◌, inl, zero, ltb→le, ◌∷◌, inr, ltb, ◌%◌,
  Bool-cases, ◌/◌, suc, arith, ap, ◌≡◌, ◌+◌, ◌≡◌, ◌++◌, ◌+◌, ◌≤◌, ◌≤◌, ◌^◌, ◌<◌, length, ◌<◌, Bytes,
  ℕ,
}
use ferropipe_rdp.Outcome.{>>=-ne-panic, panic, ◌>>=◌, Result, ok}
use ferropipe_rdp.Common.Bits.{bit_and-0x7f, bit_or-shift_left}

-- The numbers that fit `n` bytes.
abbrev pub byte_range : ℕ → ℕ
byte_range zero = 1
byte_range (suc n) = byte_range n * 256

append_byte : (w v : ℕ) → v < 2 ^ w → bit_or (v / 2 ^ 8 * 2 ^ 8 % 2 ^ w) (v % 256) ≡ v
append_byte w v h =
    rw (mod-eq_of_lt {n = v / 2 ^ 8 * 2 ^ 8} {m = 2 ^ w} (omega arith))
      (bit_or-shift_left 8 (v / 2 ^ 8) (v % 256) (omega arith) ∙ omega arith)

-- The bytes put in front of others fold to the value, and then the others.
pub fold_bytes-insert_bytes :
    (w n v : ℕ) (bytes : Bytes)
    → v < 2 ^ w
    → v < byte_range n
    → fold_bytes w 0 (insert_bytes n v bytes) ≡ fold_bytes w v bytes
unfolding fold_bytes insert_bytes
fold_bytes-insert_bytes w zero v bytes h k =
    ap (λ m. fold_bytes w m bytes) {x = 0} {y = v} (omega arith)
fold_bytes-insert_bytes w (suc n) v bytes h k = elim (Bool-cases (ltb 0 v)) [
  | inr e ↦
      rw (e, insert_bytes)
        (ap (λ m. fold_bytes w m bytes) {x = 0} {y = v} (omega (arith, ltb→le 0 v e)))
  | inl e ↦
      rw (e, insert_bytes)
        (fold_bytes-insert_bytes w n (v / 2 ^ 8) ((v % 256) ∷ bytes) (omega arith) (omega arith)
          ∙ ap (λ m. fold_bytes w m bytes) (append_byte w v h))
]

pub length-insert_bytes :
    (n v : ℕ) (bytes : Bytes) → length (insert_bytes n v bytes) ≤ n + length bytes
unfolding insert_bytes
length-insert_bytes zero v bytes = omega arith
length-insert_bytes (suc n) v bytes =
    ground (arith, length-insert_bytes n (v / 2 ^ 8) ((v % 256) ∷ bytes))

read_ber_length-ber_length :
    (n : ℕ) (rest : Bytes) → n < 2 ^ 64 → read_ber_length (ber_length n ++ rest) ≡ ok (n, rest)
unfolding read_ber_length ber_length
read_ber_length-ber_length n rest h = elim (Bool-cases (ltb n 0x80)) [
  | inl e ↦ rw e (ground arith)
  | inr e ↦
      let bytes : Bytes = insert_bytes 8 n [] in
      let l = length-insert_bytes 8 n [] in
      rw (e, bit_or-shift_left 7 1 (length bytes % 256) (omega arith))
        (ground (
          arith,
          bit_and-0x7f (1 * 2 ^ 7 + length bytes % 256),
          length-append bytes rest,
          take_left bytes rest (length bytes),
          drop_left bytes rest (length bytes),
          fold_bytes-insert_bytes 64 8 n [] h h,
        ))
]

same_bytes_refl : (bs : Bytes) → same_bytes bs bs ≡ true
same_bytes_refl [] = refl
same_bytes_refl (b ∷ bs) = rw (same_bytes_refl bs) (ground arith)

-- tlv, expect: contents of less than 2^64 bytes under a tag are read back with the same tag, and
-- what follows is left.
pub expect-tlv :
    (tag contents rest : Bytes)
    → length contents < 2 ^ 64
    → expect tag (tlv tag contents ++ rest) ≡ ok (contents, rest)
unfolding expect tlv
expect-tlv tag contents rest h =
    let body = ber_length (length contents) ++ (contents ++ rest) in
    rw
      (
        append_assoc tag (ber_length (length contents) ++ contents) rest,
        append_assoc (ber_length (length contents)) contents rest,
      )
      (ground (
        arith,
        length-append tag body,
        take_left tag body (length tag),
        drop_left tag body (length tag),
        same_bytes_refl tag,
        read_ber_length-ber_length (length contents) (contents ++ rest) h,
        length-append contents rest,
        take_left contents rest (length contents),
        drop_left contents rest (length contents),
      ))

is_zero : (v : ℕ) → (v == 0) ≡ true → bit_or (v * 2 ^ 8 % 2 ^ 32) 0 ≡ v
is_zero v e = ap (λ m. bit_or (m * 2 ^ 8 % 2 ^ 32) 0) {x = v} {y = 0} (ground arith) ∙ ground arith

zero_byte : (v : ℕ) → fold_bytes 32 v (if v == 0 then 0 ∷ [] else []) ≡ v
unfolding fold_bytes
zero_byte v = elim (Bool-cases (v == 0)) [ inl e ↦ rw e (is_zero v e) | inr e ↦ rw e refl ]

fold_bytes-integer_bytes : (v : ℕ) → v < 2 ^ 32 → fold_bytes 32 0 (integer_bytes v) ≡ v
unfolding integer_bytes fold_bytes
fold_bytes-integer_bytes v h =
    let bytes : Bytes = insert_bytes 4 v (if v == 0 then 0 ∷ [] else []) in
    let whole : fold_bytes 32 0 bytes ≡ v =
      fold_bytes-insert_bytes 32 4 v (if v == 0 then 0 ∷ [] else []) h h ∙ zero_byte v in
    elim (Bool-cases (bit_and (get_or bytes 0 0) 0x80 != 0)) [
      | inl e ↦ rw e whole
      | inr e ↦ rw e whole
    ]

length-integer_bytes : (v : ℕ) → length (integer_bytes v) < 2 ^ 64
unfolding integer_bytes
length-integer_bytes v =
    let bytes : Bytes = insert_bytes 4 v (if v == 0 then 0 ∷ [] else []) in
    let l = length-insert_bytes 4 v (if v == 0 then 0 ∷ [] else []) in ground arith

-- integer, read_integer: a 32-bit number is read back, and what follows is left.
pub read_integer-integer :
    (v : ℕ) (rest : Bytes) → v < 2 ^ 32 → read_integer (integer v ++ rest) ≡ ok (v, rest)
unfolding read_integer integer
read_integer-integer v rest h =
    ap (λ (r : Result (Bytes × Bytes)). r >>= λ p. ok (fold_bytes 32 0 p.0, p.1))
      (expect-tlv (0x02 ∷ []) (integer_bytes v) rest (length-integer_bytes v))
    ∙ ap (λ n. ok (n, rest)) (fold_bytes-integer_bytes v h)

read_ber_length-ne-panic : (buf : Bytes) → read_ber_length buf ≢ panic
unfolding read_ber_length
read_ber_length-ne-panic [] = λ p. ground arith
read_ber_length-ne-panic (a ∷ r) = λ p. ground arith

pub expect-ne-panic : (tag buf : Bytes) → expect tag buf ≢ panic
unfolding expect
expect-ne-panic tag buf = λ p. ground (arith, read_ber_length-ne-panic (drop (length tag) buf))

pub read_integer-ne-panic : (buf : Bytes) → read_integer buf ≢ panic
unfolding read_integer
read_integer-ne-panic buf =
    >>=-ne-panic (expect (0x02 ∷ []) buf) _ (expect-ne-panic (0x02 ∷ []) buf) (λ p e q. cc)
