-- ===== src/Base/Bits.antt =====
-- The exclusive or with a power of two: it flips the top bit.
use Prim.Native.Nat.{
  ℕ, zero, suc, ◌+◌, ◌*◌, ◌/◌, ◌%◌, ◌^◌, ◌≤◌, ◌<◌, bit_xor, digits, differ, bit_xor-bitwise,
}
use native.Mathlib.Nat.{pow-suc}
use mathlib.Core.Path.{◌≡◌, refl}
use native.Mathlib.Omega.{arith}

abbrev xor_digits : ℕ → ℕ → ℕ → ℕ
xor_digits n a b = digits (λ b. b) differ n a b

-- More fuel than the first number needs changes nothing.
xor_digits_fuel : (n m a b : ℕ) → a ≤ n → a ≤ m → xor_digits n a b ≡ xor_digits m a b
xor_digits_fuel zero zero a b p q = refl
xor_digits_fuel zero (suc m) zero b p q = refl
xor_digits_fuel zero (suc m) (suc a) b p q = absurd (omega arith)
xor_digits_fuel (suc n) zero zero b p q = refl
xor_digits_fuel (suc n) zero (suc a) b p q = absurd (omega arith)
xor_digits_fuel (suc n) (suc m) zero b p q = refl
xor_digits_fuel (suc n) (suc m) (suc a) b p q =
    omega (arith, xor_digits_fuel n m (suc a / 2) (b / 2) (omega arith) (omega arith))

zero-bit_xor : (b : ℕ) → bit_xor 0 b ≡ b
zero-bit_xor b = bit_xor-bitwise 0 b

-- The lowest digit apart from the others.
bit_xor_step : (a b : ℕ) → bit_xor a b ≡ bit_xor (a / 2) (b / 2) * 2 + differ (a % 2) (b % 2)
bit_xor_step zero b = omega (arith, zero-bit_xor b, zero-bit_xor (b / 2))
bit_xor_step (suc a) b = omega (
  arith,
  bit_xor-bitwise (suc a) b,
  bit_xor-bitwise (suc a / 2) (b / 2),
  xor_digits_fuel a (suc a / 2) (suc a / 2) (b / 2) (omega arith) (omega arith),
)

differ-zero : (x : ℕ) → differ x 0 ≡ x
differ-zero zero = refl
differ-zero (suc x) = refl

bit_xor_even : (a b : ℕ) → bit_xor a (b * 2) ≡ bit_xor (a / 2) b * 2 + a % 2
bit_xor_even a b =
    let half : b * 2 / 2 ≡ b = omega arith in
    let low : b * 2 % 2 ≡ 0 = omega arith in
    rw (bit_xor_step a (b * 2), half, low, differ-zero (a % 2))

-- The bit above a number is set, and cleared again.
pub bit_xor-pow_set : (k x : ℕ) → x < 2 ^ k → bit_xor x (2 ^ k) ≡ x + 2 ^ k
bit_xor-pow_set zero x h = let e : x ≡ 0 = omega arith in rw e (zero-bit_xor 1)
bit_xor-pow_set (suc k) x h =
    let p : 2 ^ suc k ≡ 2 ^ k * 2 = pow-suc 2 k in
    rw (p, bit_xor_even x (2 ^ k), bit_xor-pow_set k (x / 2) (omega arith)) (omega arith)

pub bit_xor-pow_clear : (k x : ℕ) → x < 2 ^ k → bit_xor (x + 2 ^ k) (2 ^ k) ≡ x
bit_xor-pow_clear zero x h = let e : x ≡ 0 = omega arith in rw e
bit_xor-pow_clear (suc k) x h =
    let p : 2 ^ suc k ≡ 2 ^ k * 2 = pow-suc 2 k in
    let half : (x + 2 ^ k * 2) / 2 ≡ x / 2 + 2 ^ k = omega arith in
    rw (p, bit_xor_even (x + 2 ^ k * 2) (2 ^ k), half, bit_xor-pow_clear k (x / 2) (omega arith))
      (omega arith)
