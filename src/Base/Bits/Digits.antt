-- ===== src/Base/Bits/Digits.antt =====
-- The digits of the native bit operations, read off their definition by recursion on digits.
use Prim.Native.Nat.{ℕ, zero, suc, ◌/◌, ◌%◌, ◌≤◌, ◌<◌, min, max, bit_and, bit_or, bit_xor}
use Prim.Native.Nat.{digits, differ, bit_and-bitwise, bit_or-bitwise, bit_xor-bitwise}
use mathlib.Core.Path.{◌≡◌, refl, ap, ◌∙◌}
use native.Mathlib.Omega.{arith}

-- Digit `k` of `n`, counted from the lowest.
unfoldable pub bit : ℕ → ℕ → ℕ
bit n zero = n % 2
bit n (suc k) = bit (n / 2) k

pub bit-lt : (n k : ℕ) → bit n k < 2
unfolding bit
bit-lt n zero = omega arith
bit-lt n (suc k) = bit-lt (n / 2) k

pub zero-bit : (k : ℕ) → bit 0 k ≡ 0
unfolding bit
zero-bit zero = refl
zero-bit (suc k) = zero-bit k

module _ (z : ℕ → ℕ) (f : ℕ → ℕ → ℕ) (ends : (b k : ℕ) → bit (z b) k ≡ f 0 (bit b k))
    (fits : (x y : ℕ) → x < 2 → y < 2 → f x y < 2) where
  bit-digits : (n a b k : ℕ) → a ≤ n → bit (digits z f n a b) k ≡ f (bit a k) (bit b k)
  unfolding bit
  bit-digits zero zero b k h = ends b k ∙ ap (λ t. f t (bit b k)) (omega (arith, zero-bit k))
  bit-digits zero (suc a) b k h = absurd (omega arith)
  bit-digits (suc n) zero b k h = ends b k ∙ ap (λ t. f t (bit b k)) (omega (arith, zero-bit k))
  bit-digits (suc n) (suc a) b zero h =
      omega (arith, fits (suc a % 2) (b % 2) (omega arith) (omega arith))
  bit-digits (suc n) (suc a) b (suc k) h =
      let low = fits (suc a % 2) (b % 2) (omega arith) (omega arith) in
      let rest = bit-digits n (suc a / 2) (b / 2) k (omega arith) in
      ap (λ t. bit t k) (omega arith) ∙ rest

pub bit-bit_and : (a b k : ℕ) → bit (bit_and a b) k ≡ min (bit a k) (bit b k)
bit-bit_and a b k = rw bit_and-bitwise (
    bit-digits (λ b. 0) min (λ b k. omega (arith, zero-bit k)) (λ x y p q. omega arith) a a b k
      (omega arith))

pub bit-bit_or : (a b k : ℕ) → bit (bit_or a b) k ≡ max (bit a k) (bit b k)
bit-bit_or a b k =
    rw bit_or-bitwise
      (bit-digits (λ b. b) max (λ b k. omega arith) (λ x y p q. omega arith) a a b k (omega arith))

differ-lt : (x y : ℕ) → x < 2 → y < 2 → differ x y < 2
differ-lt zero y p q = q
differ-lt (suc x) zero p q = p
differ-lt (suc x) (suc y) p q = differ-lt x y (omega arith) (omega arith)

pub bit-bit_xor : (a b k : ℕ) → bit (bit_xor a b) k ≡ differ (bit a k) (bit b k)
bit-bit_xor a b k =
    rw bit_xor-bitwise (bit-digits (λ b. b) differ (λ b k. refl) differ-lt a a b k (omega arith))
