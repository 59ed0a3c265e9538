-- ===== src/Prelude/Bits.antt =====
-- Laws of `bit_xor` at variables, from the digit recursion that the native operation stands for.
use Prim.Native.Nat.{
  ℕ, zero, suc, ◌+◌, ◌*◌, ◌/◌, ◌%◌, ◌^◌, ◌≤◌, ◌<◌, bit_xor, digits, differ, bit_xor-bitwise,
}
use mathlib.Core.Path.{◌≡◌, refl}
use native.Mathlib.Nat.{pow-suc}
use native.Mathlib.Omega.{arith}

differ_bits : (x y : ℕ) → x < 2 → y < 2 → differ x y ≡ (x + y) % 2
differ_bits zero y hx hy = omega arith
differ_bits (suc zero) zero hx hy = refl
differ_bits (suc zero) (suc zero) hx hy = refl
differ_bits (suc zero) (suc (suc y)) hx hy = absurd (omega arith)
differ_bits (suc (suc x)) y hx hy = absurd (omega arith)

abbrev xor_digits : ℕ → ℕ → ℕ → ℕ
xor_digits n a b = digits (λ y. y) differ n a b

xor_digits_fuel : (n m a b : ℕ) → a ≤ n → a ≤ m → xor_digits n a b ≡ xor_digits m a b
xor_digits_fuel zero zero a b p q = refl
xor_digits_fuel zero (suc m) zero b p q = refl
xor_digits_fuel zero (suc m) (suc a) b p q = absurd (omega arith)
xor_digits_fuel (suc n) zero zero b p q = refl
xor_digits_fuel (suc n) zero (suc a) b p q = absurd (omega arith)
xor_digits_fuel (suc n) (suc m) zero b p q = refl
xor_digits_fuel (suc n) (suc m) (suc a) b p q =
    omega (arith, xor_digits_fuel n m (suc a / 2) (b / 2) (omega arith) (omega arith))

zero-bit_xor : (b : ℕ) → bit_xor 0 b ≡ b
zero-bit_xor b = bit_xor-bitwise 0 b

-- The lowest digit of the exclusive or is the sum of the lowest digits, without the carry.
bit_xor_step : (a b : ℕ) → bit_xor a b ≡ bit_xor (a / 2) (b / 2) * 2 + (a % 2 + b % 2) % 2
bit_xor_step zero b = omega (arith, zero-bit_xor b, zero-bit_xor (b / 2))
bit_xor_step (suc a) b = omega (
  arith,
  bit_xor-bitwise (suc a) b,
  bit_xor-bitwise (suc a / 2) (b / 2),
  differ_bits (suc a % 2) (b % 2) (omega arith) (omega arith),
  xor_digits_fuel a (suc a / 2) (suc a / 2) (b / 2) (omega arith) (omega arith),
)

bit_xor-half_right :
    (a b c : ℕ)
    → bit_xor a c ≡ bit_xor b c
    → (bit_xor (a / 2) (c / 2) ≡ bit_xor (b / 2) (c / 2)) × (a % 2 ≡ b % 2)
bit_xor-half_right a b c e = omega (arith, bit_xor_step a c, bit_xor_step b c)

bit_xor-cancel_right_fuel : (n a b c : ℕ) → a ≤ n → b ≤ n → bit_xor a c ≡ bit_xor b c → a ≡ b
bit_xor-cancel_right_fuel zero a b c ha hb e = omega arith
bit_xor-cancel_right_fuel (suc n) a b c ha hb e =
    let (halves, low) = bit_xor-half_right a b c e in
    omega (
      arith,
      low,
      bit_xor-cancel_right_fuel n (a / 2) (b / 2) (c / 2) (omega arith) (omega arith) halves,
    )

pub bit_xor-cancel_right : (a b c : ℕ) → bit_xor a c ≡ bit_xor b c → a ≡ b
bit_xor-cancel_right a b c e = bit_xor-cancel_right_fuel (a + b) a b c (omega arith) (omega arith) e

bit_xor-half_left :
    (a b c : ℕ)
    → bit_xor a b ≡ bit_xor a c
    → (bit_xor (a / 2) (b / 2) ≡ bit_xor (a / 2) (c / 2)) × (b % 2 ≡ c % 2)
bit_xor-half_left a b c e = omega (arith, bit_xor_step a b, bit_xor_step a c)

bit_xor-cancel_left_fuel : (n a b c : ℕ) → b ≤ n → c ≤ n → bit_xor a b ≡ bit_xor a c → b ≡ c
bit_xor-cancel_left_fuel zero a b c hb hc e = omega arith
bit_xor-cancel_left_fuel (suc n) a b c hb hc e =
    let (halves, low) = bit_xor-half_left a b c e in
    omega (
      arith,
      low,
      bit_xor-cancel_left_fuel n (a / 2) (b / 2) (c / 2) (omega arith) (omega arith) halves,
    )

pub bit_xor-cancel_left : (a b c : ℕ) → bit_xor a b ≡ bit_xor a c → b ≡ c
bit_xor-cancel_left a b c e = bit_xor-cancel_left_fuel (b + c) a b c (omega arith) (omega arith) e

bit_xor-lt_pow : (k a b : ℕ) → a < 2 ^ k → b < 2 ^ k → bit_xor a b < 2 ^ k
bit_xor-lt_pow zero zero zero ha hb = omega arith
bit_xor-lt_pow zero zero (suc b) ha hb = absurd (omega arith)
bit_xor-lt_pow zero (suc a) b ha hb = absurd (omega arith)
bit_xor-lt_pow (suc k) a b ha hb =
    omega (
      arith,
      bit_xor_step a b,
      pow-suc 2 k,
      bit_xor-lt_pow k (a / 2) (b / 2) (half a ha) (half b hb),
    )
  where
    half : (x : ℕ) → x < 2 ^ suc k → x / 2 < 2 ^ k
    half x h = omega (arith, pow-suc 2 k)

pub bit_xor-lt_byte : (a b : ℕ) → a < 256 → b < 256 → bit_xor a b < 256
bit_xor-lt_byte a b ha hb = bit_xor-lt_pow 8 a b ha hb
