-- ===== src/Acpi/Tables.antt =====
-- Checksums, and the search for a table by its signature.
use titan_os.Base.{
  ℕ, zero, suc, ◌+◌, ◌%◌, ◌^◌, ◌≡◌, ◌≢◌, ◌<◌, ◌⊎◌, inl, inr, refl, sym, ◌∙◌, ap, true, false, some,
  List, [], ◌∷◌, ◌++◌, ◌==◌, length, u8, u32, bit_and, Bool-cases, arith,
}
use titan_os.Base.Bits.{bit, bit-lt, bit-bit_and, bit-ones, bit_of_lt, eq_of_bit}
use native.Mathlib.Decide.{dec_lt}
use titan_os.Strings.Laws.{take, memcmp-take}
use titan_os.Acpi.{checksum_loop, validate_checksum, bytes_at, get_acpi_table}

-- The lowest 8 digits of a number.
bit_mod : (n k : ℕ) → k < 8 → bit (n % 256) k ≡ bit n k
unfolding bit
bit_mod n zero lt = omega arith
bit_mod n (suc zero) lt = omega arith
bit_mod n (suc (suc zero)) lt = omega arith
bit_mod n (suc (suc (suc zero))) lt = omega arith
bit_mod n (suc (suc (suc (suc zero)))) lt = omega arith
bit_mod n (suc (suc (suc (suc (suc zero))))) lt = omega arith
bit_mod n (suc (suc (suc (suc (suc (suc zero)))))) lt = omega arith
bit_mod n (suc (suc (suc (suc (suc (suc (suc zero))))))) lt = omega arith
bit_mod n (suc (suc (suc (suc (suc (suc (suc (suc k)))))))) lt = absurd (omega arith)

bit_and-mod : (n : ℕ) → bit_and n 0xff ≡ n % 256
bit_and-mod n = eq_of_bit (bit_and n 0xff) (n % 256) (λ k.
    let e = bit-bit_and n 0xff k in
    let small = bit-lt n k in
    elim (dec_lt k 8) [
      | yes lt ↦ omega (arith, bit-ones 8 k lt, bit_mod n k lt)
      | no ge ↦ omega (
        arith,
        bit_of_lt 8 0xff k (omega arith) (omega arith),
        bit_of_lt 8 (n % 256) k (omega arith) (omega arith),
      )
    ])

-- The sum of the bytes.
abbrev pub sum : List ℕ → ℕ
sum [] = 0
sum (x ∷ xs) = x + sum xs

checksum_loop-sum :
    (left : ℕ) (bytes : ℕ → ℕ) (p c : ℕ)
    → checksum_loop left bytes p c % 2 ^ 8 ≡ (c + sum (bytes_at bytes p left)) % 2 ^ 8
unfolding checksum_loop bytes_at
checksum_loop-sum zero bytes p c = omega arith
checksum_loop-sum (suc left) bytes p c =
    checksum_loop-sum left bytes (p + 1) (u32 (c + u8 (bytes p))) ∙ omega arith

-- `validate_checksum` answers whether the sum of the bytes, without a bound, is divisible by 256.
pub validate_checksum-sum :
    (bytes : ℕ → ℕ) (p n : ℕ) → validate_checksum bytes p n ≡ (sum (bytes_at bytes p n) % 256 == 0)
unfolding validate_checksum
validate_checksum-sum bytes p n =
    let total : (0 + sum (bytes_at bytes p n)) % 2 ^ 8 ≡ sum (bytes_at bytes p n) % 256 =
      omega arith in
    ap (λ x. x == 0)
      (bit_and-mod (checksum_loop n bytes p 0) ∙ checksum_loop-sum n bytes p 0 ∙ total)

length-bytes_at : (bytes : ℕ → ℕ) (p n : ℕ) → length (bytes_at bytes p n) ≡ n
unfolding bytes_at
length-bytes_at bytes p zero = refl
length-bytes_at bytes p (suc n) = ap suc (length-bytes_at bytes (p + 1) n)

take_all : (n : ℕ) (xs : List ℕ) → length xs ≡ n → take n xs ≡ xs
take_all zero [] e = refl
take_all zero (x ∷ xs) e = absurd (omega arith)
take_all (suc n) [] e = refl
take_all (suc n) (x ∷ xs) e = ap (λ ys. x ∷ ys) (take_all n xs (omega arith))

false_ne : false ≡ true → ⊥
false_ne e = cc

-- None of the tables has the signature.
pub NoneHas : (ℕ → ℕ) → List ℕ → List ℕ → Type 0
NoneHas bytes sig [] = Unit
NoneHas bytes sig (t ∷ ts) = (bytes_at bytes t 4 ≢ sig) × NoneHas bytes sig ts

-- `get_acpi_table` of a signature of 4 bytes is defined. It returns the first of the tables that has
-- the signature, or NULL where none has.
pub get_acpi_table-first :
    (bytes : ℕ → ℕ) (tables sig : List ℕ)
    → length sig ≡ 4
    → ((get_acpi_table bytes tables sig ≡ some 0) × NoneHas bytes sig tables)
      ⊎ ((before : List ℕ) × (t : ℕ) × (after : List ℕ) × (tables ≡ before ++ (t ∷ after))
          × (get_acpi_table bytes tables sig ≡ some t)
          × (bytes_at bytes t 4 ≡ sig)
          × NoneHas bytes sig before)
unfolding get_acpi_table NoneHas
get_acpi_table-first bytes [] sig four = inl (refl, tt)
get_acpi_table-first bytes (t ∷ tables) sig four =
    let n = length-bytes_at bytes t 4 in
    let (b, run, (to, from)) = memcmp-take 4 (bytes_at bytes t 4) sig (omega arith) (omega arith) in
    let here = take_all 4 (bytes_at bytes t 4) (omega arith) in
    let there = take_all 4 sig (omega arith) in
    elim (Bool-cases b) [
      | inl e ↦ inr ([], t, tables, refl, rw (run, e), sym here ∙ to e ∙ there, tt)
      | inr e ↦
          let other : bytes_at bytes t 4 ≢ sig =
            λ same. false_ne (sym e ∙ from (here ∙ same ∙ sym there)) in
          elim (get_acpi_table-first bytes tables sig four) [
            | inl (all, without) ↦ inl (rw (run, e) all, (other, without))
            | inr (before, u, after, was, found, has, without) ↦ inr (
              t ∷ before,
              u,
              after,
              ap (λ x. t ∷ x) was,
              rw (run, e) found,
              has,
              (other, without),
            )
          ]
    ]
