-- ===== src/Base/Bits.antt =====
-- Binary digits at variables: `bit k a` is digit `k` of `a`, and the native operations on words
-- are described digit by digit.
use Prim.Native.Nat.{
  ℕ, zero, suc, ◌+◌, ◌-◌, ◌*◌, ◌/◌, ◌%◌, ◌^◌, ◌≤◌, ◌<◌, min, max, differ, digits, bitwise, bit_and,
  bit_or, bit_xor, bit_and-bitwise, bit_or-bitwise, bit_xor-bitwise,
}
use mathlib.Core.Path.{◌≡◌, refl, sym, ap, ap₂, ◌∙◌}
use native.Mathlib.Nat.{pow-suc, one-le-pow, div-add-mod, mod-lt}
use native.Mathlib.Omega.{arith}

abbrev pub bit : ℕ → ℕ → ℕ
bit zero a = a % 2
bit (suc k) a = bit k (a / 2)

-- The digits of zero, and: the count of digits to go is immaterial once it covers the number `x`.
module _ (z : ℕ → ℕ) (f : ℕ → ℕ → ℕ) where
  digits-zero : (k y : ℕ) → digits z f k 0 y ≡ z y
  digits-zero zero y = refl
  digits-zero (suc k) y = refl

  digits_enough : (x k l y : ℕ) → (x ≤ k) × (x ≤ l) → digits z f k x y ≡ digits z f l x y
  digits_enough zero k l y covers = digits-zero k y ∙ sym (digits-zero l y)
  digits_enough (suc x) zero l y covers = absurd (omega (arith, covers.0))
  digits_enough (suc x) (suc k) zero y covers = absurd (omega (arith, covers.1))
  digits_enough (suc x) (suc k) (suc l) y covers =
      let half : (suc x / 2 ≤ k) × (suc x / 2 ≤ l) =
        (omega (arith, covers.0), omega (arith, covers.1)) in
      ap (λ high. high * 2 + f (suc x % 2) (y % 2)) (digits_enough (suc x / 2) k l (y / 2) half)

  bitwise_low :
      (x y : ℕ)
      → bitwise z f (suc x) y ≡ bitwise z f (suc x / 2) (y / 2) * 2 + f (suc x % 2) (y % 2)
  bitwise_low x y =
      let half : (suc x / 2 ≤ x) × (suc x / 2 ≤ suc x / 2) = (omega arith, omega arith) in
      ap (λ high. high * 2 + f (suc x % 2) (y % 2))
        (digits_enough (suc x / 2) x (suc x / 2) (y / 2) half)

pub bit_and_low : (x y : ℕ) → bit_and x y ≡ bit_and (x / 2) (y / 2) * 2 + min (x % 2) (y % 2)
bit_and_low zero y = omega (arith, bit_and-bitwise 0 (y / 2), bit_and-bitwise 0 y)
bit_and_low (suc x) y =
    let lowest = bitwise_low (λ k. 0) min x y in
    omega (arith, lowest, bit_and-bitwise (suc x / 2) (y / 2), bit_and-bitwise (suc x) y)

pub bit_or_low : (x y : ℕ) → bit_or x y ≡ bit_or (x / 2) (y / 2) * 2 + max (x % 2) (y % 2)
bit_or_low zero y = omega (arith, bit_or-bitwise 0 (y / 2), bit_or-bitwise 0 y)
bit_or_low (suc x) y =
    let lowest = bitwise_low (λ k. k) max x y in
    omega (arith, lowest, bit_or-bitwise (suc x / 2) (y / 2), bit_or-bitwise (suc x) y)

differ_digit : (x y : ℕ) → x < 2 → y < 2 → differ x y ≡ (x + y) % 2
differ_digit zero y h k = omega arith
differ_digit (suc zero) zero h k = refl
differ_digit (suc zero) (suc zero) h k = refl
differ_digit (suc zero) (suc (suc y)) h k = absurd (omega arith)
differ_digit (suc (suc x)) y h k = absurd (omega arith)

pub bit_xor_low : (a b : ℕ) → bit_xor a b ≡ bit_xor (a / 2) (b / 2) * 2 + (a % 2 + b % 2) % 2
bit_xor_low zero b = omega (arith, bit_xor-bitwise 0 b, bit_xor-bitwise 0 (b / 2))
bit_xor_low (suc a) b = omega (
  arith,
  bit_xor-bitwise (suc a) b,
  bit_xor-bitwise (suc a / 2) (b / 2),
  bitwise_low (λ b. b) differ a b,
  differ_digit (suc a % 2) (b % 2) (omega arith) (omega arith),
)

-- Exclusive or is a commutative group in which every number is its own inverse. The first number
-- of each law bounds the induction on the digits.
xor_zero_below : (n a : ℕ) → a ≤ n → bit_xor a 0 ≡ a
xor_zero_below n zero h = bit_xor-bitwise 0 0
xor_zero_below zero (suc a) h = absurd (omega arith)
xor_zero_below (suc n) (suc a) h =
    omega (arith, bit_xor_low (suc a) 0, xor_zero_below n (suc a / 2) (omega arith))

pub xor-zero : (a : ℕ) → bit_xor a 0 ≡ a
xor-zero a = xor_zero_below a a (omega arith)

pub zero-xor : (a : ℕ) → bit_xor 0 a ≡ a
zero-xor a = bit_xor-bitwise 0 a

xor_self_below : (n a : ℕ) → a ≤ n → bit_xor a a ≡ 0
xor_self_below n zero h = bit_xor-bitwise 0 0
xor_self_below zero (suc a) h = absurd (omega arith)
xor_self_below (suc n) (suc a) h =
    omega (arith, bit_xor_low (suc a) (suc a), xor_self_below n (suc a / 2) (omega arith))

pub xor_self : (a : ℕ) → bit_xor a a ≡ 0
xor_self a = xor_self_below a a (omega arith)

xor_comm_below : (n a b : ℕ) → a ≤ n → bit_xor a b ≡ bit_xor b a
xor_comm_below n zero b h = omega (arith, bit_xor-bitwise 0 b, xor-zero b)
xor_comm_below zero (suc a) b h = absurd (omega arith)
xor_comm_below (suc n) (suc a) b h = omega (
  arith,
  bit_xor_low (suc a) b,
  bit_xor_low b (suc a),
  xor_comm_below n (suc a / 2) (b / 2) (omega arith),
)

pub xor_comm : (a b : ℕ) → bit_xor a b ≡ bit_xor b a
xor_comm a b = xor_comm_below a a b (omega arith)

-- A number is its lowest digit and the rest.
half_digit : (q r : ℕ) → r < 2 → ((q * 2 + r) / 2 ≡ q) × ((q * 2 + r) % 2 ≡ r)
half_digit q r h = omega arith

xor_half :
    (a b : ℕ)
    → (bit_xor a b / 2 ≡ bit_xor (a / 2) (b / 2)) × (bit_xor a b % 2 ≡ (a % 2 + b % 2) % 2)
xor_half a b = omega (arith, bit_xor_low a b)

xor_assoc_below : (n a b c : ℕ) → a ≤ n → bit_xor (bit_xor a b) c ≡ bit_xor a (bit_xor b c)
xor_assoc_below n zero b c h = ap (λ t. bit_xor t c) (zero-xor b) ∙ sym (zero-xor (bit_xor b c))
xor_assoc_below zero (suc a) b c h = absurd (omega arith)
xor_assoc_below (suc n) (suc a) b c h = omega (
  arith,
  bit_xor_low (bit_xor (suc a) b) c,
  bit_xor_low (suc a) (bit_xor b c),
  xor_half (suc a) b,
  xor_half b c,
  ap (λ t. bit_xor t (c / 2)) (xor_half (suc a) b).0,
  ap (λ t. bit_xor (suc a / 2) t) (xor_half b c).0,
  xor_assoc_below n (suc a / 2) (b / 2) (c / 2) (omega arith),
)

pub xor_assoc : (a b c : ℕ) → bit_xor (bit_xor a b) c ≡ bit_xor a (bit_xor b c)
xor_assoc a b c = xor_assoc_below a a b c (omega arith)

pub xor-lt-pow : (k a b : ℕ) → a < 2 ^ k → b < 2 ^ k → bit_xor a b < 2 ^ k
xor-lt-pow zero zero b h g = omega (arith, zero-xor b)
xor-lt-pow zero (suc a) b h g = absurd (omega arith)
xor-lt-pow (suc k) a b h g = omega (
  arith,
  bit_xor_low a b,
  pow-suc 2 k,
  xor-lt-pow k (a / 2) (b / 2) (omega (arith, pow-suc 2 k)) (omega (arith, pow-suc 2 k)),
)

pub or-lt-pow : (k a b : ℕ) → a < 2 ^ k → b < 2 ^ k → bit_or a b < 2 ^ k
or-lt-pow zero zero b h g = omega (arith, bit_or-bitwise 0 b)
or-lt-pow zero (suc a) b h g = absurd (omega arith)
or-lt-pow (suc k) a b h g = omega (
  arith,
  bit_or_low a b,
  pow-suc 2 k,
  or-lt-pow k (a / 2) (b / 2) (omega (arith, pow-suc 2 k)) (omega (arith, pow-suc 2 k)),
)

pub xor-lt-byte : (a b : ℕ) → a < 256 → b < 256 → bit_xor a b < 256
xor-lt-byte a b h g = xor-lt-pow 8 a b h g

-- Digits of the results.
pub bit_lt_two : (k a : ℕ) → bit k a < 2
bit_lt_two zero a = omega arith
bit_lt_two (suc k) a = bit_lt_two k (a / 2)

pub bit-or : (k a b : ℕ) → bit k (bit_or a b) ≡ max (bit k a) (bit k b)
bit-or zero a b = omega (arith, bit_or_low a b)
bit-or (suc k) a b = ap (bit k) (or_half a b) ∙ bit-or k (a / 2) (b / 2)
  where
    or_half : (a b : ℕ) → bit_or a b / 2 ≡ bit_or (a / 2) (b / 2)
    or_half a b = omega (arith, bit_or_low a b)

shl_half : (s a : ℕ) → (a * 2 ^ suc s / 2 ≡ a * 2 ^ s) × (a * 2 ^ suc s % 2 ≡ 0)
shl_half s a = omega (arith, ap (λ t. a * t) (pow-suc 2 s))

pub bit-shl : (s k a : ℕ) → s ≤ k → bit k (a * 2 ^ s) ≡ bit (k - s) a
bit-shl zero k a h = ap₂ bit {x = k} {y = k - 0} {u = a * 2 ^ 0} {v = a} (omega arith) (omega arith)
bit-shl (suc s) zero a h = absurd (omega arith)
bit-shl (suc s) (suc k) a h =
    ap (bit k) (shl_half s a).0
    ∙ bit-shl s k a (omega arith)
    ∙ ap (λ j. bit j a) {x = k - s} {y = suc k - suc s} (omega arith)

pub bit-shl_low : (s k a : ℕ) → k < s → bit k (a * 2 ^ s) ≡ 0
bit-shl_low zero k a h = absurd (omega arith)
bit-shl_low (suc s) zero a h = (shl_half s a).1
bit-shl_low (suc s) (suc k) a h = ap (bit k) (shl_half s a).0 ∙ bit-shl_low s k a (omega arith)

pub or-zero : (a : ℕ) → bit_or a 0 ≡ a
or-zero a = below a a (omega arith)
  where
    below : (n a : ℕ) → a ≤ n → bit_or a 0 ≡ a
    below n zero h = bit_or-bitwise 0 0
    below zero (suc a) h = absurd (omega arith)
    below (suc n) (suc a) h = omega (arith, bit_or_low (suc a) 0, below n (suc a / 2) (omega arith))

-- `(a << k) | b` is a sum where `b` has at most `k` digits.
pub or-fields : (k a b : ℕ) → b < 2 ^ k → bit_or (a * 2 ^ k) b ≡ a * 2 ^ k + b
or-fields zero a zero h = or-zero (a * 2 ^ 0) ∙ omega arith
or-fields zero a (suc b) h = absurd (omega arith)
or-fields (suc k) a b h = omega (
  arith,
  bit_or_low (a * 2 ^ suc k) b,
  shl_half k a,
  ap (λ t. bit_or t (b / 2)) (shl_half k a).0,
  ap (λ t. a * t) (pow-suc 2 k),
  or-fields k a (b / 2) (omega (arith, pow-suc 2 k)),
)

pub bit_and-zero : (a : ℕ) → bit_and a 0 ≡ 0
bit_and-zero a = below a a (omega arith)
  where
    below : (n a : ℕ) → a ≤ n → bit_and a 0 ≡ 0
    below n zero h = bit_and-bitwise 0 0
    below zero (suc a) h = absurd (omega arith)
    below (suc n) (suc a) h =
        omega (arith, bit_and_low (suc a) 0, below n (suc a / 2) (omega arith))

-- `a & (1 << k)` tests digit `k`.
pub and_mask : (k a : ℕ) → bit_and a (2 ^ k) ≡ bit k a * 2 ^ k
and_mask zero a = omega (arith, bit_and_low a 1, bit_and-zero (a / 2))
and_mask (suc k) a = omega (
  arith,
  bit_and_low a (2 ^ suc k),
  pow-suc 2 k,
  and_mask k (a / 2),
  ap (λ t. bit_and (a / 2) t) halved,
  ap (λ t. bit k (a / 2) * t) (pow-suc 2 k),
)
  where
    halved : 2 ^ suc k / 2 ≡ 2 ^ k
    halved = omega (arith, pow-suc 2 k)

mod_twice : (m a : ℕ) → 0 < m → a % (m * 2) ≡ a / 2 % m * 2 + a % 2
mod_twice m a h = grind (arith, div-add-mod (a / 2) m, mod-lt (a / 2) h, div-add-mod a (m * 2))

mod_half : (n a : ℕ) → (a % 2 ^ suc n / 2 ≡ a / 2 % 2 ^ n) × (a % 2 ^ suc n % 2 ≡ a % 2)
mod_half n a = rw (pow-suc 2 n) (omega (arith, mod_twice (2 ^ n) a (one-le-pow n 2 (omega arith))))

pub bit-mod_pow : (n k a : ℕ) → k < n → bit k (a % 2 ^ n) ≡ bit k a
bit-mod_pow zero k a h = absurd (omega arith)
bit-mod_pow (suc n) zero a h = (mod_half n a).1
bit-mod_pow (suc n) (suc k) a h =
    ap (bit k) (mod_half n a).0 ∙ bit-mod_pow n k (a / 2) (omega arith)

pub bit-zero : (k : ℕ) → bit k 0 ≡ 0
bit-zero zero = refl
bit-zero (suc k) = bit-zero k

pub bit-one : (k : ℕ) → bit (suc k) 1 ≡ 0
bit-one k = bit-zero k
