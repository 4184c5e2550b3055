-- ===== src/Bpv7/Flags/Bits.antt =====
-- The lowest binary digit under the bit operations that the flag words use.
use Prim.Native.Nat.{bit_and, bit_or, bit_xor, bit_and-bitwise, bit_or-bitwise, bit_xor-bitwise}
use Prim.Native.Nat.{digits, differ, min, max}
use ma_sinafadavi_iran.Prelude.{ℕ, zero, suc, ◌+◌, ◌/◌, ◌%◌, ◌-◌, ◌≤◌, ◌<◌, ◌≡◌, refl, arith}

-- Past the digits of the first number the count of digits to go makes no difference.
module _ (z : ℕ → ℕ) (f : ℕ → ℕ → ℕ) where
  digits_enough : (k n a b : ℕ) → a ≤ k → a ≤ n → digits z f k a b ≡ digits z f n a b
  digits_enough zero zero a b p q = refl
  digits_enough zero (suc n) zero b p q = refl
  digits_enough (suc k) zero zero b p q = refl
  digits_enough (suc k) (suc n) zero b p q = refl
  digits_enough zero n (suc a) b p q = absurd (omega arith)
  digits_enough (suc k) zero (suc a) b p q = absurd (omega arith)
  digits_enough (suc k) (suc n) (suc a) b p q =
      rw (digits_enough k n (suc a / 2) (b / 2) (omega arith) (omega arith))

bit_and-zero : (n a : ℕ) → digits (λ b. zero) min n a 0 ≡ 0
bit_and-zero zero a = refl
bit_and-zero (suc n) zero = refl
bit_and-zero (suc n) (suc a) = omega (arith, bit_and-zero n (suc a / 2))

bit_or-zero : (n a : ℕ) → a ≤ n → digits (λ b. b) max n a 0 ≡ a
bit_or-zero zero zero h = refl
bit_or-zero zero (suc a) h = absurd (omega arith)
bit_or-zero (suc n) zero h = refl
bit_or-zero (suc n) (suc a) h = omega (arith, bit_or-zero n (suc a / 2) (omega arith))

pub bit_and-one : (a : ℕ) → bit_and a 1 ≡ a % 2
bit_and-one zero = refl
bit_and-one (suc a) = omega (arith, bit_and-bitwise (suc a) 1, bit_and-zero a (suc a / 2))

pub bit_or-one : (a : ℕ) → bit_or a 1 ≡ a - a % 2 + 1
bit_or-one zero = refl
bit_or-one (suc a) =
    omega (arith, bit_or-bitwise (suc a) 1, bit_or-zero a (suc a / 2) (omega arith))

differ-zero : (x : ℕ) → differ x 0 ≡ x
differ-zero zero = refl
differ-zero (suc x) = refl

bit_xor-zero : (n a : ℕ) → a ≤ n → digits (λ b. b) differ n a 0 ≡ a
bit_xor-zero zero zero h = refl
bit_xor-zero zero (suc a) h = absurd (omega arith)
bit_xor-zero (suc n) zero h = refl
bit_xor-zero (suc n) (suc a) h =
    omega (arith, bit_xor-zero n (suc a / 2) (omega arith), differ-zero (suc a % 2))

differ-one : (x : ℕ) → x < 2 → differ x 1 ≡ 1 - x
differ-one zero h = refl
differ-one (suc zero) h = refl
differ-one (suc (suc x)) h = absurd (omega arith)

-- The exclusive or with 1 flips the lowest digit.
pub bit_xor-one : (a : ℕ) → bit_xor a 1 ≡ a - a % 2 + (1 - a % 2)
bit_xor-one zero = refl
bit_xor-one (suc a) = omega (
  arith,
  bit_xor-bitwise (suc a) 1,
  bit_xor-zero a (suc a / 2) (omega arith),
  differ-one (suc a % 2) (omega arith),
)
