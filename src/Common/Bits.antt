-- ===== src/Common/Bits.antt =====
-- Masks and shifts as arithmetic, from the digit recursion that the native operations stand for.
use Prim.Native.Nat.{
  ℕ, zero, suc, ◌+◌, ◌-◌, ◌*◌, ◌/◌, ◌%◌, ◌^◌, ◌≤◌, ◌<◌, min, max, bit_and, bit_or, digits,
  bit_and-bitwise, bit_or-bitwise,
}
use mathlib.Core.Path.{◌≡◌, refl, ap, ◌∙◌}
use native.Mathlib.Nat.{two-pow-succ}
use native.Mathlib.Omega.{arith}

-- One more digit to go changes nothing where there were enough.
module _ (z : ℕ → ℕ) (f : ℕ → ℕ → ℕ) where
  spare_digit : (n a b : ℕ) → a ≤ n → digits z f (suc n) a b ≡ digits z f n a b
  spare_digit zero zero b h = refl
  spare_digit zero (suc a) b h = absurd (omega arith)
  spare_digit (suc n) zero b h = refl
  spare_digit (suc n) (suc a) b h = omega (arith, spare_digit n (suc a / 2) (b / 2) (omega arith))

  enough_digits : (k n a b : ℕ) → n ≡ k + a → digits z f n a b ≡ digits z f a a b
  enough_digits zero n a b e = ap (λ m. digits z f m a b) {x = n} {y = a} (omega arith)
  enough_digits (suc k) zero a b e = absurd (omega arith)
  enough_digits (suc k) (suc n) a b e =
      spare_digit n a b (omega arith) ∙ enough_digits k n a b (omega arith)

zero-bit_and : (b : ℕ) → bit_and 0 b ≡ 0
zero-bit_and b = bit_and-bitwise 0 b

-- The lowest digit, and the others.
bit_and_step : (m k : ℕ) → bit_and m k ≡ bit_and (m / 2) (k / 2) * 2 + min (m % 2) (k % 2)
bit_and_step zero mask = omega (arith, zero-bit_and mask, zero-bit_and (mask / 2))
bit_and_step (suc p) mask =
    let both =
      enough_digits (λ _. zero) min (p - suc p / 2) p (suc p / 2) (mask / 2) (omega arith) in
    omega (arith, both, bit_and-bitwise (suc p) mask, bit_and-bitwise (suc p / 2) (mask / 2))

zero-bit_or : (b : ℕ) → bit_or 0 b ≡ b
zero-bit_or b = bit_or-bitwise 0 b

bit_or_step : (a b : ℕ) → bit_or a b ≡ bit_or (a / 2) (b / 2) * 2 + max (a % 2) (b % 2)
bit_or_step zero b = omega (arith, zero-bit_or b, zero-bit_or (b / 2))
bit_or_step (suc a) b = omega (
  arith,
  bit_or-bitwise (suc a) b,
  bit_or-bitwise (suc a / 2) (b / 2),
  enough_digits (λ b. b) max (a - suc a / 2) a (suc a / 2) (b / 2) (omega arith),
)

bit_or-zero_fuel : (n a : ℕ) → a ≤ n → bit_or a 0 ≡ a
bit_or-zero_fuel n zero h = refl
bit_or-zero_fuel zero (suc a) h = absurd (omega arith)
bit_or-zero_fuel (suc n) (suc a) h =
    omega (arith, bit_or_step (suc a) 0, bit_or-zero_fuel n (suc a / 2) (omega arith))

-- Bits that do not overlap add up: `(a << k) | b` and `b | (a << k)` for b below 2 ^ k.
pub bit_or-shift_left : (k a b : ℕ) → b < 2 ^ k → bit_or (a * 2 ^ k) b ≡ a * 2 ^ k + b
bit_or-shift_left zero a b h = omega (
  arith,
  bit_or-zero_fuel a a (omega arith),
  ap (λ (t : ℕ). bit_or t b) {x = a * 2 ^ 0} {y = a} (omega arith),
  ap (λ (t : ℕ). bit_or a t) {x = b} {y = 0} (omega arith),
)
bit_or-shift_left (suc k) a b h = omega (
  arith,
  two-pow-succ k,
  ap (λ (t : ℕ). a * t) (two-pow-succ k),
  bit_or_step (a * 2 ^ suc k) b,
  bit_or-shift_left k a (b / 2) (omega (arith, two-pow-succ k)),
  ap (λ (t : ℕ). bit_or t (b / 2)) {x = a * 2 ^ suc k / 2} {y = a * 2 ^ k}
      (omega (arith, ap (λ (t : ℕ). a * t) (two-pow-succ k))),
)

pub bit_or-low_left : (k a b : ℕ) → b < 2 ^ k → bit_or b (a * 2 ^ k) ≡ b + a * 2 ^ k
bit_or-low_left zero a b h = omega (
  arith,
  zero-bit_or a,
  ap (λ (t : ℕ). bit_or t (a * 1)) {x = b} {y = 0} (omega arith),
  ap (λ (t : ℕ). bit_or 0 t) {x = a * 1} {y = a} (omega arith),
)
bit_or-low_left (suc k) a b h = omega (
  arith,
  two-pow-succ k,
  ap (λ (t : ℕ). a * t) (two-pow-succ k),
  bit_or_step b (a * 2 ^ suc k),
  bit_or-low_left k a (b / 2) (omega (arith, two-pow-succ k)),
  ap (λ (t : ℕ). bit_or (b / 2) t) {x = a * 2 ^ suc k / 2} {y = a * 2 ^ k}
      (omega (arith, ap (λ (t : ℕ). a * t) (two-pow-succ k))),
)

-- With no digits in the mask there are none in the result, on `rounds` halvings.
no_digits : (rounds m : ℕ) → m ≤ rounds → bit_and m 0 ≡ 0
no_digits rounds zero h = refl
no_digits zero (suc p) h = absurd (omega arith)
no_digits (suc rounds) (suc p) h =
    let halved = no_digits rounds (suc p / 2) (omega arith) in
    omega (arith, halved, bit_and_step (suc p) 0)

-- A single bit, and a mask of ones, at every number.
pub bit_and-0x01 : (a : ℕ) → bit_and a 0x01 ≡ a % 2
bit_and-0x01 a = omega (arith, bit_and_step a 1, no_digits (a / 2) (a / 2) (omega arith))

pub bit_and-0x02 : (a : ℕ) → bit_and a 0x02 ≡ a / 2 % 2 * 2
bit_and-0x02 a = omega (arith, bit_and_step a 2, bit_and-0x01 (a / 2))

pub bit_and-0x03 : (a : ℕ) → bit_and a 0x03 ≡ a % 4
bit_and-0x03 a = omega (arith, bit_and_step a 3, bit_and-0x01 (a / 2))

pub bit_and-0x07 : (a : ℕ) → bit_and a 0x07 ≡ a % 8
bit_and-0x07 a = omega (arith, bit_and_step a 7, bit_and-0x03 (a / 2))

pub bit_and-0x0f : (a : ℕ) → bit_and a 0x0f ≡ a % 16
bit_and-0x0f a = omega (arith, bit_and_step a 15, bit_and-0x07 (a / 2))

pub bit_and-0x1f : (a : ℕ) → bit_and a 0x1f ≡ a % 32
bit_and-0x1f a = omega (arith, bit_and_step a 31, bit_and-0x0f (a / 2))

pub bit_and-0x3f : (a : ℕ) → bit_and a 0x3f ≡ a % 64
bit_and-0x3f a = omega (arith, bit_and_step a 63, bit_and-0x1f (a / 2))

pub bit_and-0x7f : (a : ℕ) → bit_and a 0x7f ≡ a % 128
bit_and-0x7f a = omega (arith, bit_and_step a 127, bit_and-0x3f (a / 2))

pub bit_and-0xff : (a : ℕ) → bit_and a 0xff ≡ a % 256
bit_and-0xff a = omega (arith, bit_and_step a 255, bit_and-0x7f (a / 2))

-- A two-bit mask shifted up to the top of a byte, and the top bit alone.
bit_and-0x80_step : (a : ℕ) → bit_and a 0x10 ≡ a / 16 % 2 * 16
bit_and-0x80_step a = omega (
  arith,
  bit_and_step a 16,
  bit_and_step (a / 2) 8,
  bit_and_step (a / 2 / 2) 4,
  bit_and-0x02 (a / 2 / 2 / 2),
)

pub bit_and-0x80 : (a : ℕ) → bit_and a 0x80 ≡ a / 128 % 2 * 128
bit_and-0x80 a = omega (
  arith,
  bit_and_step a 128,
  bit_and_step (a / 2) 64,
  bit_and_step (a / 2 / 2) 32,
  bit_and-0x80_step (a / 2 / 2 / 2),
)

and_0x18 : (a : ℕ) → bit_and a 0x18 ≡ a / 8 % 4 * 8
and_0x18 a = omega (
  arith,
  bit_and_step a 24,
  bit_and_step (a / 2) 12,
  bit_and_step (a / 2 / 2) 6,
  bit_and-0x03 (a / 2 / 2 / 2),
)

pub bit_and-0xc0 : (a : ℕ) → bit_and a 0xc0 ≡ a / 64 % 4 * 64
bit_and-0xc0 a = omega (
  arith,
  bit_and_step a 192,
  bit_and_step (a / 2) 96,
  bit_and_step (a / 2 / 2) 48,
  and_0x18 (a / 2 / 2 / 2),
)
