-- ===== src/Mcs/Ber.antt =====
-- mcs/ber.rs: the BER encodings, and the reader over a slice: what is read, and what is left.
pub mod Laws
mod Checks
use mathlib.Core.List.{reverse}
use ferropipe_rdp.Common.{
  not, ◌!=◌, false, ◌!=◌, ◌&&◌, zero, is_empty, get_or, ◌&&◌, ◌^◌, ◌*◌, ◌%◌, true, bit_and, ◌^◌,
  ◌*◌, ◌%◌, ◌==◌, ◌/◌, ltb, length, bit_or, [], ◌==◌, ◌/◌, ◌∷◌, ◌++◌, ◌∷◌, suc, if◌then◌else◌, ◌++◌,
  ℕ, Bytes, Bool,
}
use ferropipe_rdp.Outcome.{
  protocol, slice_from, slice_to, index, short, ok, fail_if, ◌>>◌, ◌>>=◌, Result,
}

-- `while v > 0 { bytes.insert(0, v & 0xff); v >>= 8 }`, on a round for each byte of the word.
unfoldable pub insert_bytes : ℕ → ℕ → Bytes → Bytes
insert_bytes zero v bytes = bytes
insert_bytes (suc n) v bytes =
    let rest = insert_bytes n (v / 2 ^ 8) ((v % 256) ∷ bytes) in if ltb 0 v then rest else bytes

-- A `usize` has 8 bytes.
unfoldable pub ber_length : ℕ → Bytes
unfolding insert_bytes
ber_length len =
    if ltb len 0x80
    then (len % 256) ∷ []
    else (let bytes = insert_bytes 8 len [] in bit_or 0x80 (length bytes % 256) ∷ bytes)

unfoldable pub tlv : Bytes → Bytes → Bytes
unfolding ber_length
tlv tag contents = tag ++ (ber_length (length contents) ++ contents)

-- The bytes of the value, with a zero in front where the first would make it negative.
unfoldable pub integer_bytes : ℕ → Bytes
unfolding insert_bytes
integer_bytes v =
    let bytes = insert_bytes 4 v (if v == 0 then 0 ∷ [] else []) in
    if bit_and (get_or bytes 0 0) 0x80 != 0 then 0 ∷ bytes else bytes

unfoldable pub integer : ℕ → Bytes
unfolding tlv integer_bytes
integer v = tlv (0x02 ∷ []) (integer_bytes v)

unfoldable pub boolean : Bool → Bytes
unfolding tlv
boolean b = tlv (0x01 ∷ []) ((if b then 0xff else 0x00) ∷ [])

unfoldable pub octet_string : Bytes → Bytes
unfolding tlv
octet_string bytes = tlv (0x04 ∷ []) bytes

unfoldable pub enumerated : ℕ → Bytes
unfolding tlv
enumerated v = tlv (0x0a ∷ []) (v ∷ [])

unfoldable pub sequence : Bytes → Bytes
unfolding tlv
sequence contents = tlv (0x30 ∷ []) contents

-- The digits of a tag in base 128, the last first, on a round for each digit of a `u32`.
unfoldable pub tag_digits : ℕ → ℕ → Bytes → Bytes
tag_digits zero n digits = digits
tag_digits (suc fuel) n digits =
    let more = tag_digits fuel (n / 2 ^ 7) (digits ++ (bit_or (bit_and n 0x7f) 0x80 ∷ [])) in
    if ltb 0 n then more else digits

unfoldable pub application_tag_bytes : ℕ → Bytes
unfolding tag_digits
application_tag_bytes tag_number =
    if ltb tag_number 31
    then bit_or (bit_or 0x40 0x20) (tag_number % 256) ∷ []
    else 0x7f ∷ reverse (tag_digits 5 (tag_number / 2 ^ 7) (bit_and tag_number 0x7f ∷ []))

unfoldable pub application : ℕ → Bytes → Bytes
unfolding tlv application_tag_bytes
application tag_number contents = tlv (application_tag_bytes tag_number) contents

-- `len = (len << 8) | b` over the bytes, in words of `w` bits.
unfoldable pub fold_bytes : ℕ → ℕ → Bytes → ℕ
fold_bytes w acc [] = acc
fold_bytes w acc (b ∷ bs) = fold_bytes w (bit_or (acc * 2 ^ 8 % 2 ^ w) b) bs

unfoldable pub read_ber_length : Bytes → Result (ℕ × Bytes)
unfolding fold_bytes
read_ber_length buf = do
  fail_if (is_empty buf) (short 1 0)
  first ← index buf 0
  buf1 ← slice_from buf 1
  if ltb first 0x80 then ok (first, buf1) else (do
    let n = bit_and first 0x7f
    fail_if (ltb (length buf1) n) (short n (length buf1))
    octets ← slice_to buf1 n
    rest ← slice_from buf1 n
    ok (fold_bytes 64 0 octets, rest))

-- The tag is at the front of the buffer.
abbrev pub same_bytes : Bytes → Bytes → Bool
same_bytes [] [] = true
same_bytes (a ∷ as') (b ∷ bs) = a == b && same_bytes as' bs
same_bytes as' bs = false

unfoldable pub expect : Bytes → Bytes → Result (Bytes × Bytes)
unfolding read_ber_length
expect tag buf = do
  fail_if (ltb (length buf) (length tag)) (short (length tag) (length buf))
  front ← slice_to buf (length tag)
  fail_if (not (same_bytes front tag)) (protocol "unexpected BER tag")
  buf1 ← slice_from buf (length tag)
  (len, buf2) ← read_ber_length buf1
  fail_if (ltb (length buf2) len) (short len (length buf2))
  v ← slice_to buf2 len
  rest ← slice_from buf2 len
  ok (v, rest)

unfoldable pub read_integer : Bytes → Result (ℕ × Bytes)
unfolding expect fold_bytes
read_integer buf = do (v, rest) ← expect (0x02 ∷ []) buf; ok (fold_bytes 32 0 v, rest)
