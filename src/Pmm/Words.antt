-- ===== src/Pmm/Words.antt =====
-- Words of the bit map in which the digits 31 to 63 agree. On those every test and update that the
-- allocator makes with `1 << j` is determined, digit by digit.
use titan_os.Base.{
  ℕ, ◌^◌, ◌≤◌, ◌<◌, min, bit_and, bit_or, bit_xor, ◌≡◌, refl, inl, inr, Bool, true, none, some, ltb,
  leb, ◌==◌, if◌then◌else◌, arith, Bool-cases, ==_iff,
}
use native.Mathlib.Decide.{dec_le, dec_lt}
use native.Mathlib.Nat.{pow-le-pow_right}
use titan_os.Base.Bits.{
  bit, bit-lt, bit-bit_and, bit-bit_or, bit-bit_xor, bit_of_lt, lt_of_bit, bit-pow, bit-ones,
  bit_and-eq-zero, bit_and-ne-zero, bit_table, every_below,
}
use titan_os.Pmm.{mask_of, all_taken}

pub record IsWord (w : ℕ) : Type 0 where
  pub small : w < 2 ^ 64
  pub high : (k : ℕ) → 31 ≤ k → k < 64 → bit w k ≡ bit w 31

-- The digits that the mask for digit `j` covers: `j` alone, and all from 31 on for 31.
abbrev pub covers : ℕ → ℕ → Bool
covers j k = if ltb j 31 then k == j else leb 31 k

bit_sign_mask : (k : ℕ) → k < 64 → bit 0xffff_ffff_8000_0000 k ≡ (if leb 31 k then 1 else 0)
bit_sign_mask =
    bit_table 0xffff_ffff_8000_0000 (λ k. if leb 31 k then 1 else 0) (omega arith)
      (unfold bit every_below in refl)

pub mask_of-bit :
    (j : ℕ) {m : ℕ}
    → mask_of j ≡ some m
    → (k : ℕ) → k < 64
    → bit m k ≡ (if covers j k then 1 else 0)
unfolding mask_of
mask_of-bit j h k lt = ground (arith, bit-pow j k, bit_sign_mask k lt)

pub mask_of-some : (j : ℕ) → j ≤ 31 → (m : ℕ) × (mask_of j ≡ some m)
unfolding mask_of
mask_of-some j h = (if ltb j 31 then 2 ^ j else 0xffff_ffff_8000_0000, ground arith)

pub mask_of-none : (j : ℕ) → 31 < j → mask_of j ≡ none
unfolding mask_of
mask_of-none j h = ground arith

pub mask_of-lt : (j : ℕ) {m : ℕ} → mask_of j ≡ some m → m < 2 ^ 64
unfolding mask_of
mask_of-lt j h = elim (dec_le j 30) [
  | yes p ↦ ground (arith, pow-le-pow_right {n = 2} (omega arith) p)
  | no p ↦ ground arith
]

pub mask_of-le : (j : ℕ) {m : ℕ} → mask_of j ≡ some m → j ≤ 31
unfolding mask_of
mask_of-le j h = ground arith

pub mask_of-high : (j : ℕ) {m : ℕ} → mask_of j ≡ some m → (k : ℕ) → 64 ≤ k → bit m k ≡ 0
mask_of-high j h k p = bit_of_lt 64 _ k (mask_of-lt j h) p

-- The digits of a word are 0 or 1, and agree from 31 on with digit 31.
module _ {w : ℕ} (v : IsWord w) (j : ℕ) {m : ℕ} (e : mask_of j ≡ some m) where
  covered : (k : ℕ) → k < 64 → covers j k ≡ true → bit w k ≡ bit w j
  unfolding mask_of
  covered k lt c = ground (arith, v.high k)

  -- Where digit `j` is clear, the mask meets no digit.
  disjoint : bit w j ≡ 0 → (k : ℕ) → min (bit w k) (bit m k) ≡ 0
  disjoint z k = elim (dec_lt k 64) [
    | yes p ↦ ground (arith, mask_of-bit j e k p, covered k p)
    | no p ↦ omega (arith, mask_of-high j e k)
  ]

  -- The test of `1 << j` reads digit `j`.
  pub mask_test : (bit_and w m == 0) ≡ (bit w j == 0)
  mask_test = elim (Bool-cases (bit w j == 0)) [
    | inl z ↦ rw (z, bit_and-eq-zero w m (disjoint ((==_iff _ _).0 z)))
    | inr n ↦ ground (arith, bit-lt w j, mask_of-le j e, mask_of-bit j e j, bit_and-ne-zero w m j)
  ]

  -- Setting the mask sets the digits that it covers.
  pub bit-mark : (k : ℕ) → k < 64 → bit (bit_or w m) k ≡ (if covers j k then 1 else bit w k)
  bit-mark k lt = ground (arith, bit-bit_or w m k, mask_of-bit j e k lt, bit-lt w k)

  pub mark-IsWord : IsWord (bit_or w m)
  mark-IsWord = record {
    small =
        lt_of_bit 64 _ (λ k p.
          omega (arith, bit-bit_or w m k, mask_of-high j e k p, bit_of_lt 64 w k v.small p));
    high = λ k p lt.
        ground (arith, bit-mark k lt, bit-mark 31 (omega arith), v.high k p lt, mask_of-le j e);
  }

  -- Clearing it clears them.
  pub bit-clear :
      (k : ℕ)
      → k < 64
      → bit (bit_and w (bit_xor all_taken m)) k ≡ (if covers j k then 0 else bit w k)
  bit-clear k lt = ground (
    arith,
    bit-bit_and w (bit_xor all_taken m) k,
    bit-bit_xor all_taken m k,
    bit-ones 64 k lt,
    mask_of-bit j e k lt,
    bit-lt w k,
  )

  pub clear-IsWord : IsWord (bit_and w (bit_xor all_taken m))
  clear-IsWord = record {
    small =
        lt_of_bit 64 _
          (λ k p. omega (arith, bit-bit_and w (bit_xor all_taken m) k, bit_of_lt 64 w k v.small p));
    high = λ k p lt.
        ground (arith, bit-clear k lt, bit-clear 31 (omega arith), v.high k p lt, mask_of-le j e);
  }
