-- ===== src/Wire.antt =====
-- The `bytes` crate, which the framing and parsing code is written over: the operations of `BufMut`
-- on a `BytesMut` (its content so far), and of `Buf` on a `&[u8]` (what is left to read). The crate
-- is not part of the repository, so every definition that uses it takes a `ByteOps`, and theorems
-- take the crate's documented behaviour, `ByteLaws`.
use ferropipe_rdp.Common.{
  drop_left, length-append, ◌^◌, ◌^◌, List, ℕ, ◌+◌, ◌*◌, ◌/◌, ◌%◌, ◌≤◌, ◌<◌, ◌≡◌, refl, fun_ext, [],
  ◌∷◌, ◌++◌, Bytes, length, drop, ltb, ltb→lt, ltb→le, lt→ltb, le→ltb, Bool-cases, inl, inr,
  if◌then◌else◌, arith,
}
use ferropipe_rdp.Outcome.{Result, ok, panic}

pub record ByteOps : Type 0 where
  pub put_u8 : Bytes → ℕ → Bytes
  pub put_u16 : Bytes → ℕ → Bytes
  pub put_u16_le : Bytes → ℕ → Bytes
  pub put_u32_le : Bytes → ℕ → Bytes
  pub put_i32_le : Bytes → ℕ → Bytes
  pub extend_from_slice : Bytes → Bytes → Bytes
  pub get_u8 : Bytes → Result (ℕ × Bytes)
  pub get_u16 : Bytes → Result (ℕ × Bytes)
  pub get_u16_le : Bytes → Result (ℕ × Bytes)
  pub get_u32_le : Bytes → Result (ℕ × Bytes)
  pub advance : Bytes → ℕ → Result Bytes

-- A run of writes, one after the other: `out.put_u8(v)`, `out.put_u16_le(v)`, `out.put_u32_le(v)`
-- and `out.extend_from_slice(bytes)`.
pub data Put : Type 0 where
  u8 : ℕ → Put
  u16 : ℕ → Put
  u32 : ℕ → Put
  all_of : Bytes → Put

abbrev pub put : ByteOps → Bytes → List Put → Bytes
put B out [] = out
put B out (u8 v ∷ more) = put B (B.put_u8 out v) more
put B out (u16 v ∷ more) = put B (B.put_u16_le out v) more
put B out (u32 v ∷ more) = put B (B.put_u32_le out v) more
put B out (all_of bytes ∷ more) = put B (B.extend_from_slice out bytes) more

-- The bytes of a 16-bit and a 32-bit number, and a number from its bytes.
abbrev pub u16_be : ℕ → Bytes
u16_be v = (v / 256 % 256) ∷ (v % 256) ∷ []

abbrev pub u16_le : ℕ → Bytes
u16_le v = (v % 256) ∷ (v / 256 % 256) ∷ []

abbrev pub u32_le : ℕ → Bytes
u32_le v = (v % 256) ∷ (v / 256 % 256) ∷ (v / 65536 % 256) ∷ (v / 16777216 % 256) ∷ []

abbrev pub from_u32_le : ℕ → ℕ → ℕ → ℕ → ℕ
from_u32_le a b c d = a + 256 * b + 65536 * c + 16777216 * d

-- What the documentation of `bytes` says. A read past the end panics; an `i32` is its bit pattern.
pub record ByteLaws (B : ByteOps) : Type 0 where
  pub put_u8_lem : (out : Bytes) (v : ℕ) → B.put_u8 out v ≡ out ++ (v ∷ [])
  pub put_u16_lem : (out : Bytes) (v : ℕ) → B.put_u16 out v ≡ out ++ u16_be v
  pub put_u16_le_lem : (out : Bytes) (v : ℕ) → B.put_u16_le out v ≡ out ++ u16_le v
  pub put_u32_le_lem : (out : Bytes) (v : ℕ) → B.put_u32_le out v ≡ out ++ u32_le v
  pub put_i32_le_lem : (out : Bytes) (v : ℕ) → B.put_i32_le out v ≡ out ++ u32_le v
  pub extend_lem : (out more : Bytes) → B.extend_from_slice out more ≡ out ++ more
  pub get_u8_short : (buf : Bytes) → length buf < 1 → B.get_u8 buf ≡ panic
  pub get_u8_lem : (a : ℕ) (r : Bytes) → B.get_u8 (a ∷ r) ≡ ok (a, r)
  pub get_u16_short : (buf : Bytes) → length buf < 2 → B.get_u16 buf ≡ panic
  pub get_u16_lem : (a b : ℕ) (r : Bytes) → B.get_u16 (a ∷ b ∷ r) ≡ ok (256 * a + b, r)
  pub get_u16_le_short : (buf : Bytes) → length buf < 2 → B.get_u16_le buf ≡ panic
  pub get_u16_le_lem : (a b : ℕ) (r : Bytes) → B.get_u16_le (a ∷ b ∷ r) ≡ ok (a + 256 * b, r)
  pub get_u32_le_short : (buf : Bytes) → length buf < 4 → B.get_u32_le buf ≡ panic
  pub get_u32_le_lem :
      (a b c d : ℕ) (r : Bytes) → B.get_u32_le (a ∷ b ∷ c ∷ d ∷ r) ≡ ok (from_u32_le a b c d, r)
  pub advance_short : (buf : Bytes) (n : ℕ) → length buf < n → B.advance buf n ≡ panic
  pub advance_lem : (buf : Bytes) (n : ℕ) → n ≤ length buf → B.advance buf n ≡ ok (drop n buf)

-- Operations that behave as documented, over plain lists.
abbrev get1 : Bytes → Result (ℕ × Bytes)
get1 [] = panic
get1 (a ∷ r) = ok (a, r)

abbrev get2 : (ℕ → ℕ → ℕ) → Bytes → Result (ℕ × Bytes)
get2 f [] = panic
get2 f (a ∷ []) = panic
get2 f (a ∷ b ∷ r) = ok (f a b, r)

abbrev get4 : Bytes → Result (ℕ × Bytes)
get4 [] = panic
get4 (a ∷ []) = panic
get4 (a ∷ b ∷ []) = panic
get4 (a ∷ b ∷ c ∷ []) = panic
get4 (a ∷ b ∷ c ∷ d ∷ r) = ok (from_u32_le a b c d, r)

abbrev pub list_bytes : ByteOps
list_bytes = record {
  put_u8 = λ out v. out ++ (v ∷ []);
  put_u16 = λ out v. out ++ u16_be v;
  put_u16_le = λ out v. out ++ u16_le v;
  put_u32_le = λ out v. out ++ u32_le v;
  put_i32_le = λ out v. out ++ u32_le v;
  extend_from_slice = ◌++◌;
  get_u8 = get1;
  get_u16 = get2 (λ a b. 256 * a + b);
  get_u16_le = get2 (λ a b. a + 256 * b);
  get_u32_le = get4;
  advance = λ buf n. if ltb (length buf) n then panic else ok (drop n buf);
}

get1_short : (buf : Bytes) → length buf < 1 → get1 buf ≡ panic
get1_short [] h = refl
get1_short (a ∷ r) h = absurd (omega arith)

get2_short : (f : ℕ → ℕ → ℕ) (buf : Bytes) → length buf < 2 → get2 f buf ≡ panic
get2_short f [] h = refl
get2_short f (a ∷ []) h = refl
get2_short f (a ∷ b ∷ r) h = absurd (omega arith)

get4_short : (buf : Bytes) → length buf < 4 → get4 buf ≡ panic
get4_short [] h = refl
get4_short (a ∷ []) h = refl
get4_short (a ∷ b ∷ []) h = refl
get4_short (a ∷ b ∷ c ∷ []) h = refl
get4_short (a ∷ b ∷ c ∷ d ∷ r) h = absurd (omega arith)

-- The laws can be met.
pub list_bytes-ByteLaws : ByteLaws list_bytes
list_bytes-ByteLaws = record {
  put_u8_lem = λ out v. refl;
  put_u16_lem = λ out v. refl;
  put_u16_le_lem = λ out v. refl;
  put_u32_le_lem = λ out v. refl;
  put_i32_le_lem = λ out v. refl;
  extend_lem = λ out more. refl;
  get_u8_short = get1_short;
  get_u8_lem = λ a r. refl;
  get_u16_short = get2_short _;
  get_u16_lem = λ a b r. refl;
  get_u16_le_short = get2_short _;
  get_u16_le_lem = λ a b r. refl;
  get_u32_le_short = get4_short;
  get_u32_le_lem = λ a b c d r. refl;
  advance_short = λ buf n h. rw (lt→ltb _ _ h);
  advance_lem = λ buf n h. rw (le→ltb _ _ h);
}

module _ {B : ByteOps} (L : ByteLaws B) where
  get_u8_eq : (buf : Bytes) → B.get_u8 buf ≡ get1 buf
  get_u8_eq [] = L.get_u8_short [] (omega arith)
  get_u8_eq (a ∷ r) = L.get_u8_lem a r

  get_u16_eq : (buf : Bytes) → B.get_u16 buf ≡ get2 (λ a b. 256 * a + b) buf
  get_u16_eq [] = L.get_u16_short [] (omega arith)
  get_u16_eq (a ∷ []) = L.get_u16_short (a ∷ []) (omega arith)
  get_u16_eq (a ∷ b ∷ r) = L.get_u16_lem a b r

  get_u16_le_eq : (buf : Bytes) → B.get_u16_le buf ≡ get2 (λ a b. a + 256 * b) buf
  get_u16_le_eq [] = L.get_u16_le_short [] (omega arith)
  get_u16_le_eq (a ∷ []) = L.get_u16_le_short (a ∷ []) (omega arith)
  get_u16_le_eq (a ∷ b ∷ r) = L.get_u16_le_lem a b r

  get_u32_le_eq : (buf : Bytes) → B.get_u32_le buf ≡ get4 buf
  get_u32_le_eq [] = L.get_u32_le_short [] (omega arith)
  get_u32_le_eq (a ∷ []) = L.get_u32_le_short (a ∷ []) (omega arith)
  get_u32_le_eq (a ∷ b ∷ []) = L.get_u32_le_short (a ∷ b ∷ []) (omega arith)
  get_u32_le_eq (a ∷ b ∷ c ∷ []) = L.get_u32_le_short (a ∷ b ∷ c ∷ []) (omega arith)
  get_u32_le_eq (a ∷ b ∷ c ∷ d ∷ r) = L.get_u32_le_lem a b c d r

  advance_eq :
      (buf : Bytes) (n : ℕ)
      → B.advance buf n ≡ (if ltb (length buf) n then panic else ok (drop n buf))
  advance_eq buf n = elim (Bool-cases (ltb (length buf) n)) [
    | inl e ↦ rw e (L.advance_short buf n (ltb→lt _ _ e))
    | inr e ↦ rw e (L.advance_lem buf n (ltb→le _ _ e))
  ]

  -- The laws leave no choice, so what is proved over `list_bytes` holds of any such crate.
  pub lawful-eq : B ≡ list_bytes
  lawful-eq = λ i. record {
    put_u8 = fun_ext (λ out. fun_ext (L.put_u8_lem out)) i;
    put_u16 = fun_ext (λ out. fun_ext (L.put_u16_lem out)) i;
    put_u16_le = fun_ext (λ out. fun_ext (L.put_u16_le_lem out)) i;
    put_u32_le = fun_ext (λ out. fun_ext (L.put_u32_le_lem out)) i;
    put_i32_le = fun_ext (λ out. fun_ext (L.put_i32_le_lem out)) i;
    extend_from_slice = fun_ext (λ out. fun_ext (L.extend_lem out)) i;
    get_u8 = fun_ext get_u8_eq i;
    get_u16 = fun_ext get_u16_eq i;
    get_u16_le = fun_ext get_u16_le_eq i;
    get_u32_le = fun_ext get_u32_le_eq i;
    advance = fun_ext (λ buf. fun_ext (advance_eq buf)) i;
  }

-- Numbers that are read back from their bytes.
pub from_u16_le-u16_le : (v : ℕ) → v < 2 ^ 16 → v % 256 + 256 * (v / 256 % 256) ≡ v
from_u16_le-u16_le v h = omega arith

pub from_u32_le-u32_le :
    (v : ℕ)
    → v < 2 ^ 32
    → from_u32_le (v % 256) (v / 256 % 256) (v / 65536 % 256) (v / 16777216 % 256) ≡ v
from_u32_le-u32_le v h = omega arith

pub advance_left : (xs ys : Bytes) (n : ℕ) → n ≡ length xs → list_bytes.advance (xs ++ ys) n ≡ ok ys
advance_left xs ys n e =
    rw (le→ltb (length (xs ++ ys)) n (omega (arith, length-append xs ys)), drop_left xs ys n e) refl
