-- ===== src/Base/Bits.antt =====
-- `|`, `&` and `^` of C at variable operands, one binary digit at a time.
use Prim.Native.Nat.{
  ℕ, zero, suc, ◌+◌, ◌-◌, ◌*◌, ◌/◌, ◌%◌, ◌^◌, ◌≤◌, ◌<◌, min, max, bit_and, bit_or, digits,
  bit_and-bitwise, bit_or-bitwise,
}
use mathlib.Core.Path.{◌≡◌, refl, ap, ap₂, ◌∙◌}
use native.Mathlib.Nat.{pow-suc, one-le-pow}
use native.Mathlib.Omega.{arith}

-- The definition of all three counts its rounds; any count that is large enough will do.
module _ (rest : ℕ → ℕ) (op : ℕ → ℕ → ℕ) where
  digits_rounds : (i j a b : ℕ) → a ≤ i → a ≤ j → digits rest op i a b ≡ digits rest op j a b
  digits_rounds zero zero a b h k = refl
  digits_rounds zero (suc j) zero b h k = refl
  digits_rounds zero (suc j) (suc a) b h k = absurd (omega arith)
  digits_rounds (suc i) zero zero b h k = refl
  digits_rounds (suc i) zero (suc a) b h k = absurd (omega arith)
  digits_rounds (suc i) (suc j) zero b h k = refl
  digits_rounds (suc i) (suc j) (suc a) b h k =
      omega (arith, digits_rounds i j (suc a / 2) (b / 2) (omega arith) (omega arith))

zero-bit_or : (b : ℕ) → bit_or 0 b ≡ b
zero-bit_or b = bit_or-bitwise 0 b

zero-bit_and : (b : ℕ) → bit_and 0 b ≡ 0
zero-bit_and b = bit_and-bitwise 0 b

pub bit_or_digit : (a b : ℕ) → bit_or a b ≡ 2 * bit_or (a / 2) (b / 2) + max (a % 2) (b % 2)
bit_or_digit zero b = omega (arith, zero-bit_or b, zero-bit_or (b / 2))
bit_or_digit (suc a) b = omega (
  arith,
  bit_or-bitwise (suc a) b,
  bit_or-bitwise (suc a / 2) (b / 2),
  digits_rounds (λ x. x) max a (suc a / 2) (suc a / 2) (b / 2) (omega arith) (omega arith),
)

pub bit_and_digit : (a b : ℕ) → bit_and a b ≡ 2 * bit_and (a / 2) (b / 2) + min (a % 2) (b % 2)
bit_and_digit zero b = omega (arith, zero-bit_and b, zero-bit_and (b / 2))
bit_and_digit (suc a) b = omega (
  arith,
  bit_and-bitwise (suc a) b,
  bit_and-bitwise (suc a / 2) (b / 2),
  digits_rounds (λ x. zero) min a (suc a / 2) (suc a / 2) (b / 2) (omega arith) (omega arith),
)

bit_or-zero_below : (bound a : ℕ) → a ≤ bound → bit_or a 0 ≡ a
bit_or-zero_below bound zero h = refl
bit_or-zero_below zero (suc a) h = absurd (omega arith)
bit_or-zero_below (suc bound) (suc a) h =
    omega (arith, bit_or_digit (suc a) 0, bit_or-zero_below bound (suc a / 2) (omega arith))

pub bit_and-zero_below : (bound a : ℕ) → a ≤ bound → bit_and a 0 ≡ 0
bit_and-zero_below bound zero h = refl
bit_and-zero_below zero (suc a) h = absurd (omega arith)
bit_and-zero_below (suc bound) (suc a) h =
    omega (arith, bit_and_digit (suc a) 0, bit_and-zero_below bound (suc a / 2) (omega arith))

-- `(a << k) | b` is a sum when `b` has no digit from the `k`-th on.
pub bit_or-shifted : (k a b : ℕ) → b < 2 ^ k → bit_or (a * 2 ^ k) b ≡ a * 2 ^ k + b
bit_or-shifted zero a b h =
    omega
      (arith, bit_or-zero_below (a * 1) (a * 1) (omega arith), ap (λ x. bit_or (a * 1) x) zero_b)
  where
    zero_b : b ≡ 0
    zero_b = omega arith
bit_or-shifted (suc k) a b h = omega (
  arith,
  bit_or_digit (a * 2 ^ suc k) b,
  doubled,
  pow-suc 2 k,
  ap (λ x. bit_or x (b / 2)) halved,
  bit_or-shifted k a (b / 2) (omega (arith, pow-suc 2 k)),
)
  where
    doubled : a * 2 ^ suc k ≡ 2 * (a * 2 ^ k)
    doubled = omega (arith, ap (λ x. a * x) (pow-suc 2 k))

    halved : a * 2 ^ suc k / 2 ≡ a * 2 ^ k
    halved = omega (arith, doubled)

-- A mask of `k` ones keeps what lies below the `k`-th digit.
pub bit_and-masked : (k q r : ℕ) → r < 2 ^ k → bit_and (q * 2 ^ k + r) (2 ^ k - 1) ≡ r
bit_and-masked zero q r h = omega (arith, bit_and-zero_below (q * 1 + r) (q * 1 + r) (omega arith))
bit_and-masked (suc k) q r h = omega (
  arith,
  bit_and_digit (q * 2 ^ suc k + r) (2 ^ suc k - 1),
  pow-suc 2 k,
  one-le-pow k 2,
  ap₂ bit_and upper halved,
  bit_and-masked k q (r / 2) (omega (arith, pow-suc 2 k)),
  doubled,
)
  where
    doubled : q * 2 ^ suc k ≡ 2 * (q * 2 ^ k)
    doubled = omega (arith, ap (λ x. q * x) (pow-suc 2 k))

    upper : (q * 2 ^ suc k + r) / 2 ≡ q * 2 ^ k + r / 2
    upper = omega (arith, doubled)

    halved : (2 ^ suc k - 1) / 2 ≡ 2 ^ k - 1
    halved = omega (arith, pow-suc 2 k, one-le-pow k 2)

-- `a & 0xff` is the remainder.
pub bit_and_byte : (a : ℕ) → bit_and a 0xff ≡ a % 256
bit_and_byte a = ap (λ x. bit_and x 0xff) parts ∙ bit_and-masked 8 (a / 256) (a % 256) (omega arith)
  where
    parts : a ≡ a / 256 * 2 ^ 8 + a % 256
    parts = omega arith
