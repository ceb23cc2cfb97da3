-- ===== src/Nla/Der/Laws.antt =====
-- nla/der.rs: what is encoded is read back.
use ferropipe_rdp.Mcs.Ber.{insert_bytes, fold_bytes}
use ferropipe_rdp.Mcs.Ber.Laws.{byte_range, fold_bytes-insert_bytes, length-insert_bytes}
use ferropipe_rdp.Nla.Der.{
  tag_integer, der_tlv, der_integer, read_tlv, read_der_integer, expect_tag, der_integer_bytes,
  encode_len, decode_len,
}
use ferropipe_rdp.Common.{
  ◌∙◌, ◌∙◌, sym, ap, refl, append_assoc, take_left, length-append, ◌*◌, ◌*◌, ltb→le, inr, zero, inl,
  ◌∷◌, ltb, Bool-cases, ◌%◌, ◌/◌, le→ltb, ◌/◌, ◌≡◌, ◌≡◌, suc, lt→ltb, arith, [], ◌++◌, ◌+◌, ◌≤◌,
  ◌^◌, ◌≤◌, length, ◌^◌, ◌<◌, Bytes, ◌<◌, ℕ,
}
use ferropipe_rdp.Outcome.{slice_from_right, slice_from, slice_mid, ok}
use ferropipe_rdp.Common.Bits.{bit_and-0x7f, bit_or-shift_left}

-- A number of `k` bytes puts at most `k` of them in front.
insert_bytes-byte_range :
    (n k v : ℕ) (bytes : Bytes)
    → v < byte_range k
    → length (insert_bytes n v bytes) ≤ k + length bytes
unfolding insert_bytes
insert_bytes-byte_range zero k v bytes h = omega arith
insert_bytes-byte_range (suc n) zero v bytes h =
    rw (le→ltb 0 v (omega (arith, h)), insert_bytes) (omega arith)
insert_bytes-byte_range (suc n) (suc k) v bytes h =
    ground (arith, insert_bytes-byte_range n k (v / 2 ^ 8) ((v % 256) ∷ bytes) (omega (arith, h)))

insert_bytes-grows : (n v : ℕ) (bytes : Bytes) → length bytes ≤ length (insert_bytes n v bytes)
unfolding insert_bytes
insert_bytes-grows zero v bytes = omega arith
insert_bytes-grows (suc n) v bytes =
    ground (arith, insert_bytes-grows n (v / 2 ^ 8) ((v % 256) ∷ bytes))

some_bytes : (v : ℕ) → 0 < v → 1 ≤ length (insert_bytes 8 v [])
unfolding insert_bytes
some_bytes v h = rw (lt→ltb 0 v h, insert_bytes) (insert_bytes-grows 7 (v / 2 ^ 8) ((v % 256) ∷ []))

decode_len-encode_len :
    (n : ℕ) (rest : Bytes)
    → n < 2 ^ 32
    → decode_len (encode_len n ++ rest) ≡ ok (n, length (encode_len n))
unfolding decode_len encode_len
decode_len-encode_len n rest h = elim (Bool-cases (ltb n 0x80)) [
  | inl e ↦ rw e (ground arith)
  | inr e ↦
      let bytes : Bytes = insert_bytes 8 n [] in
      let few = insert_bytes-byte_range 8 4 n [] h in
      let one = some_bytes n (omega (arith, ltb→le n 0x80 e)) in
      rw (e, bit_or-shift_left 7 1 (length bytes % 256) (omega (arith, few)))
        (ground (
          arith,
          few,
          one,
          bit_and-0x7f (1 * 2 ^ 7 + length bytes % 256),
          length-append bytes rest,
          take_left bytes rest (length bytes),
          fold_bytes-insert_bytes 64 8 n [] (omega (arith, h)) (omega (arith, h)),
        ))
]

pub some_len : (n : ℕ) → 1 ≤ length (encode_len n)
unfolding encode_len
some_len n = ground arith

-- der_tlv, read_tlv: a value of less than 2^32 bytes is read back with its tag, and what follows is
-- left.
pub read_tlv-der_tlv :
    (tag : ℕ) (value rest : Bytes)
    → length value < 2 ^ 32
    → read_tlv (der_tlv tag value ++ rest) ≡ ok ((tag, value), rest)
unfolding read_tlv der_tlv
read_tlv-der_tlv tag value rest h =
    let head = encode_len (length value) in
    let end = 1 + length head + length value in
    let tail : slice_from (tag ∷ (head ++ (value ++ rest))) end ≡ ok rest =
      ap (λ b. slice_from (tag ∷ b) end) (sym (append_assoc head value rest))
      ∙ slice_from_right (tag ∷ (head ++ value)) rest end
          (omega (arith, length-append head value)) in
    rw
      (
        append_assoc head value rest,
        slice_from_right (tag ∷ []) (head ++ (value ++ rest)) 1 refl,
        decode_len-encode_len (length value) (value ++ rest) h,
        slice_mid (tag ∷ head) value rest (1 + length head) end (omega arith) (omega arith),
        tail,
      )
      (ground (
        arith,
        length-append head (value ++ rest),
        length-append value rest,
        some_len (length value),
      ))

pub expect_tag-der_tlv :
    (tag : ℕ) (value rest : Bytes)
    → length value < 2 ^ 32
    → expect_tag tag (der_tlv tag value ++ rest) ≡ ok (value, rest)
unfolding expect_tag
expect_tag-der_tlv tag value rest h = rw (read_tlv-der_tlv tag value rest h) (ground arith)

fold_bytes-der_integer_bytes : (v : ℕ) → v < 2 ^ 64 → fold_bytes 64 0 (der_integer_bytes v) ≡ v
unfolding der_integer_bytes fold_bytes
fold_bytes-der_integer_bytes v h = ground (arith, fold_bytes-insert_bytes 64 8 v [] h h)

length-der_integer_bytes : (v : ℕ) → length (der_integer_bytes v) < 2 ^ 32
unfolding der_integer_bytes
length-der_integer_bytes v = ground (arith, length-insert_bytes 8 v [])

pub read_der_integer-der_integer :
    (v : ℕ) (rest : Bytes) → v < 2 ^ 64 → read_der_integer (der_integer v ++ rest) ≡ ok (v, rest)
unfolding read_der_integer der_integer
read_der_integer-der_integer v rest h =
    rw
      (
        expect_tag-der_tlv tag_integer (der_integer_bytes v) rest (length-der_integer_bytes v),
        fold_bytes-der_integer_bytes v h,
      )
      refl
