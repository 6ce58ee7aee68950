-- ===== src/Base/Bits/Words.antt =====
-- Words described by their digits.
use Prim.Native.Nat.{ℕ, zero, suc, ◌+◌, ◌-◌, ◌/◌, ◌^◌, ◌≤◌, ◌<◌}
use mathlib.Core.Path.{◌≡◌, refl, ◌∙◌}
use mathlib.Core.Logic.{◌≢◌}
use native.Mathlib.Nat.{pow-suc, one-le-pow}
use Prim.Native.Nat.{min, bit_and}
use mathlib.Core.Bool.{Bool, true, ◌&&◌}
use mathlib.Core.Path.{ap}
use native.Mathlib.Omega.{arith}
use titan_os.Base.Tests.{◌==◌, if◌then◌else◌, ==_iff}
use titan_os.Base.Bits.Digits.{bit, zero-bit, bit-bit_and}

-- Two numbers with the same digits are equal.
eq_of_bit_fuel : (n a b : ℕ) → a ≤ n → b ≤ n → ((k : ℕ) → bit a k ≡ bit b k) → a ≡ b
unfolding bit
eq_of_bit_fuel zero a b p q h = omega arith
eq_of_bit_fuel (suc n) zero zero p q h = refl
eq_of_bit_fuel (suc n) a b p q h =
    omega
      (arith, h 0, eq_of_bit_fuel n (a / 2) (b / 2) (omega arith) (omega arith) (λ k. h (suc k)))

pub eq_of_bit : (a b : ℕ) → ((k : ℕ) → bit a k ≡ bit b k) → a ≡ b
eq_of_bit a b h = eq_of_bit_fuel (a + b) a b (omega arith) (omega arith) h

-- A number below `2 ^ w` has no digit from `w` on, and is characterised by that.
pub bit_of_lt : (w n k : ℕ) → n < 2 ^ w → w ≤ k → bit n k ≡ 0
unfolding bit
bit_of_lt zero n k h p = rw (zero_of h) (zero-bit k)
  where
    zero_of : n < 2 ^ 0 → n ≡ 0
    zero_of lt = omega arith
bit_of_lt (suc w) n zero h p = absurd (omega arith)
bit_of_lt (suc w) n (suc k) h p = bit_of_lt w (n / 2) k (omega (arith, pow-suc 2 w)) (omega arith)

pub lt_of_bit : (w n : ℕ) → ((k : ℕ) → w ≤ k → bit n k ≡ 0) → n < 2 ^ w
unfolding bit
lt_of_bit zero n h =
    omega (arith, eq_of_bit n 0 (λ k. h k (omega arith) ∙ omega (arith, zero-bit k)))
lt_of_bit (suc w) n h =
    omega (arith, pow-suc 2 w, lt_of_bit w (n / 2) (λ k p. h (suc k) (omega arith)))

pub bit-pow : (j k : ℕ) → bit (2 ^ j) k ≡ (if j == k then 1 else 0)
unfolding bit
bit-pow zero zero = refl
bit-pow zero (suc k) = ground (arith, zero-bit k)
bit-pow (suc j) zero = ground (arith, pow-suc 2 j)
bit-pow (suc j) (suc k) = rw halved (ground (arith, bit-pow j k))
  where
    halved : 2 ^ suc j / 2 ≡ 2 ^ j
    halved = omega (arith, pow-suc 2 j)

-- The digits of a word with all `w` digits set.
pub bit-ones : (w k : ℕ) → k < w → bit (2 ^ w - 1) k ≡ 1
unfolding bit
bit-ones zero k h = absurd (omega arith)
bit-ones (suc w) zero h = omega (arith, pow-suc 2 w, one-le-pow w 2)
bit-ones (suc w) (suc k) h = rw (halved) (bit-ones w k (omega arith))
  where
    halved : (2 ^ suc w - 1) / 2 ≡ 2 ^ w - 1
    halved = omega (arith, pow-suc 2 w, one-le-pow w 2)

module _ (a m : ℕ) where
  -- `a & m` is zero when no digit is set in both.
  pub bit_and-eq-zero : ((k : ℕ) → min (bit a k) (bit m k) ≡ 0) → bit_and a m ≡ 0
  bit_and-eq-zero h =
      eq_of_bit (bit_and a m) 0 (λ k. bit-bit_and a m k ∙ h k ∙ omega (arith, zero-bit k))

  pub bit_and-ne-zero : (k : ℕ) → bit a k ≡ 1 → bit m k ≡ 1 → bit_and a m ≢ 0
  bit_and-ne-zero k p q e =
      let e' : bit (bit_and a m) k ≡ bit 0 k = ap (λ t. bit t k) e in
      omega (arith, bit-bit_and a m k, zero-bit k)

-- A test over a small range, made value by value.
unfoldable pub every_below : ℕ → (ℕ → Bool) → Bool
every_below zero test = true
every_below (suc n) test = test n && every_below n test

pub every_below_lem :
    (n k : ℕ) (test : ℕ → Bool) → every_below n test ≡ true → k < n → test k ≡ true
unfolding every_below
every_below_lem zero k test h lt = absurd (omega arith)
every_below_lem (suc n) k test h lt = ground (arith, every_below_lem n k test)

-- The digits of a numeral of at most 64 binary digits, from a table.
pub bit_table :
    (m : ℕ) (digit : ℕ → ℕ)
    → m < 2 ^ 64
    → every_below 64 (λ k. bit m k == digit k) ≡ true
    → (k : ℕ) → k < 64
    → bit m k ≡ digit k
bit_table m digit small table k lt =
    (==_iff _ _).0 (every_below_lem 64 k (λ k. bit m k == digit k) table lt)
