-- ===== src/Outcome.antt =====
-- lib.rs: the crate's `Error`, and what a call can come to. `panic` is no Rust value: an index or
-- slice out of range, or a read past the end of a `bytes` buffer, ends the thread.
use ferropipe_rdp.Common.{
  length-drop, subst, length-take, ◌≢◌, ◌≢◌, take_left, take_all, drop_left, ap, ◌∙◌, length-append,
  ◌++◌, ◌+◌, ℕ, zero, suc, ◌-◌, ◌≤◌, ◌<◌, String, ◌≡◌, ◌⊎◌, refl, Bool, true, false, ◌&&◌, [], ◌∷◌,
  get_or, Bytes, length, take, drop, leb, if◌then◌else◌, arith,
}

pub data Error : Type 0 where
  short : ℕ → ℕ → Error
  protocol : String → Error
  negotiation_failure : String → Error

pub data Result {ℓ} (A : Type ℓ) : Type ℓ where
  ok : A → Result A
  err : Error → Result A
  panic : Result A

-- `?`: an error or a panic ends the function.
infixl 5 ◌>>=◌ ◌>>◌
abbrev pub ◌>>=◌ {ℓ κ} : {A : Type ℓ} {C : Type κ} → Result A → (A → Result C) → Result C
panic >>= next = panic
err e >>= next = err e
ok value >>= next = next value

abbrev pub ◌>>◌ {ℓ κ} : {A : Type ℓ} {B : Type κ} → Result A → Result B → Result B
first >> second = first >>= λ _. second

-- `Ok(f(m?))`
abbrev pub then_ok {ℓ κ} : {A : Type ℓ} {C : Type κ} → Result A → (A → C) → Result C
then_ok (ok a) f = ok (f a)
then_ok (err e) f = err e
then_ok panic f = panic

-- `if test { return Err(e) }`
abbrev pub fail_if : Bool → Error → Result (Unit {0})
fail_if true e = err e
fail_if false e = ok tt

-- `buf[i]` and `&buf[a..b]`, which panic out of range; `&buf[a..]` ends at the length.
abbrev pub index : Bytes → ℕ → Result ℕ
index [] i = panic
index (x ∷ xs) zero = ok x
index (x ∷ xs) (suc i) = index xs i

pub index-get_or : (xs : Bytes) (i : ℕ) → i < length xs → index xs i ≡ ok (get_or xs i 0)
index-get_or [] i h = absurd (omega arith)
index-get_or (x ∷ xs) zero h = refl
index-get_or (x ∷ xs) (suc i) h = index-get_or xs i (omega arith)

abbrev pub slice : Bytes → ℕ → ℕ → Result Bytes
slice xs a b = if leb a b && leb b (length xs) then ok (take (b - a) (drop a xs)) else panic

pub slice_ok :
    (xs : Bytes) (a b : ℕ) → a ≤ b → b ≤ length xs → slice xs a b ≡ ok (take (b - a) (drop a xs))
slice_ok xs a b h k = ground arith

pub slice_panic : (xs : Bytes) (a b : ℕ) → (b < a) ⊎ (length xs < b) → slice xs a b ≡ panic
slice_panic xs a b h = ground arith

-- The middle and the end of a list in parts.
pub slice_mid :
    (p q r : Bytes) (a b : ℕ)
    → a ≡ length p
    → b ≡ length p + length q
    → slice (p ++ (q ++ r)) a b ≡ ok q
slice_mid p q r a b ha hb =
    slice_ok (p ++ (q ++ r)) a b (omega arith)
      (omega (arith, length-append p (q ++ r), length-append q r))
    ∙ ap ok (rw (drop_left p (q ++ r) a ha) (take_left q r (b - a) (omega arith)))

pub slice_end :
    (p r : Bytes) (a b : ℕ) → a ≡ length p → b ≡ length (p ++ r) → slice (p ++ r) a b ≡ ok r
slice_end p r a b ha hb =
    slice_ok (p ++ r) a b (omega (arith, length-append p r)) (omega arith)
    ∙ ap ok (rw (drop_left p r a ha) (take_all (b - a) r (omega (arith, length-append p r))))

-- `&buf[a..]` and `&buf[..b]`.
abbrev pub slice_from : Bytes → ℕ → Result Bytes
slice_from xs a = if leb a (length xs) then ok (drop a xs) else panic

abbrev pub slice_to : Bytes → ℕ → Result Bytes
slice_to xs b = if leb b (length xs) then ok (take b xs) else panic

pub slice_from_right : (p r : Bytes) (a : ℕ) → a ≡ length p → slice_from (p ++ r) a ≡ ok r
slice_from_right p r a h = rw (drop_left p r a h) (ground (arith, length-append p r))

pub slice_to_left : (p r : Bytes) (b : ℕ) → b ≡ length p → slice_to (p ++ r) b ≡ ok p
slice_to_left p r b h = rw (take_left p r b h) (ground (arith, length-append p r))

-- A call does not panic if none of its steps does.
pub >>=-ne-panic {ℓ κ} :
    {A : Type ℓ} {B : Type κ} (m : Result A) (f : A → Result B)
    → m ≢ panic
    → ((a : A) → m ≡ ok a → f a ≢ panic)
    → (m >>= f) ≢ panic
>>=-ne-panic (ok a) f h k = k a refl
>>=-ne-panic (err e) f h k = λ p. cc
>>=-ne-panic panic f h k = absurd (h refl)

pub fail_if-ne-panic : (b : Bool) (e : Error) → fail_if b e ≢ panic
fail_if-ne-panic true e = λ p. cc
fail_if-ne-panic false e = λ p. cc

-- Two continuations that agree on what comes back.
pub >>=-cong {ℓ κ} :
    {A : Type ℓ} {B : Type κ} (m : Result A) (f g : A → Result B)
    → ((a : A) → m ≡ ok a → f a ≡ g a)
    → (m >>= f) ≡ (m >>= g)
>>=-cong (ok a) f g h = h a refl
>>=-cong (err e) f g h = refl
>>=-cong panic f g h = refl

-- `buf[at..at + part.len()].copy_from_slice(part)`, and `buf[at] = b`.
abbrev pub splice : Bytes → ℕ → Bytes → Result Bytes
splice xs at part =
    if leb (at + length part) (length xs)
    then ok (take at xs ++ (part ++ drop (at + length part) xs))
    else panic

-- A splice keeps the length.
pub length-splice :
    (xs : Bytes) (at : ℕ) (part ys : Bytes) → splice xs at part ≡ ok ys → length ys ≡ length xs
length-splice xs at part ys h = ground (
  arith,
  length-append (take at xs) (part ++ drop (at + length part) xs),
  length-append part (drop (at + length part) xs),
  length-take at xs,
  length-drop (at + length part) xs,
)

-- What holds of every value that a call returns. The rules follow a `do` block.
abbrev pub Post {ℓ} : {A : Type ℓ} → Result A → (A → Type 0) → Type ℓ
Post {A = A} r P = (a : A) → r ≡ ok a → P a

module _ {A B : Type 0} where
  pub Post-bind :
      (m : Result A) (f : A → Result B) (P : A → Type 0) (Q : B → Type 0)
      → Post m P
      → ((a : A) → P a → Post (f a) Q)
      → Post (m >>= f) Q
  Post-bind (ok a) f P Q h k = k a (h a refl)
  Post-bind (err e) f P Q h k = λ b p. cc
  Post-bind panic f P Q h k = λ b p. cc

  -- Nothing is needed of the first value.
  pub Post-then :
      (m : Result A) (f : A → Result B) (Q : B → Type 0)
      → ((a : A) → Post (f a) Q)
      → Post (m >>= f) Q
  Post-then (ok a) f Q k = k a
  Post-then (err e) f Q k = λ b p. cc
  Post-then panic f Q k = λ b p. cc

ok-injective : {A : Type 0} {a b : A} → ok a ≡ ok b → a ≡ b
ok-injective e = cc

pub Post-ok : {A : Type 0} (P : A → Type 0) (a : A) → P a → Post (ok a) P
Post-ok P a h = λ b e. subst P (ok-injective e) h

pub Post-if :
    {A : Type 0} (b : Bool) (r r' : Result A) (P : A → Type 0)
    → Post r P
    → Post r' P
    → Post (if b then r else r') P
Post-if true r r' P h k = h
Post-if false r r' P h k = k

-- What comes after a test that did not fail.
pub Post-guard :
    {A : Type 0} (b : Bool) (e : Error) (rest : Result A) (P : A → Type 0)
    → (b ≡ false → Post rest P)
    → Post (fail_if b e >> rest) P
Post-guard true e rest P h = λ a k. cc
Post-guard false e rest P h = h refl
