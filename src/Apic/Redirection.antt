-- ===== src/Apic/Redirection.antt =====
-- The bits of the registers that the code changes.
use titan_os.Base.{
  ℕ, ◌≡◌, ◌≢◌, ◌<◌, ◌≤◌, refl, ◌∙◌, ◌==◌, ==_ne, ==_self, ltb, ltb-true, ltb-false, if◌then◌else◌,
  bit_and, bit_or, arith,
}
use titan_os.Base.Bits.{bit, bit-lt, bit-bit_and, bit-bit_or, bit_table, every_below}
use native.Mathlib.Decide.{ℕ_discrete, dec_lt}
use titan_os.Apic.{
  IoApic, write_reg, local_apic_enable, write_io_apic_reg, read_io_apic_reg, remap_ioredtbl,
}

-- Digit `k` of a register whose lowest 8 digits become those of `vector`, and digit `at` becomes `b`.
abbrev pub redirected : ℕ → ℕ → ℕ → ℕ → ℕ → ℕ
redirected vector at b v k = if ltb k 8 then bit vector k else if k == at then b else bit v k

-- The mask and the flags that are set behind it, by their digits.
masked_lem :
    (mask flags vector at c b v k : ℕ)
    → c ≤ b
    → k < 32
    → bit mask k ≡ (if ltb k 8 then 0 else if k == at then c else if ltb k 32 then 1 else 0)
    → bit flags k ≡ (if ltb k 8 then bit vector k else if k == at then b else 0)
    → bit (bit_or (bit_and v mask) flags) k ≡ redirected vector at b v k
masked_lem mask flags vector at c b v k cb top em ef =
    let e1 = bit-bit_or (bit_and v mask) flags k in
    let e2 = bit-bit_and v mask k in
    let small = bit-lt v k in
    elim (dec_lt k 8) [
      | yes lt ↦
          let em' : bit mask k ≡ 0 = em ∙ rw (ltb-true k 8 lt) in
          let ef' : bit flags k ≡ bit vector k = ef ∙ rw (ltb-true k 8 lt) in
          rw (ltb-true k 8 lt) (omega arith)
      | no ge ↦ elim (ℕ_discrete k at) [
        | yes e ↦
            let em' : bit mask k ≡ c = em ∙ rw (ltb-false k 8 (omega arith), e, ==_self at) in
            let ef' : bit flags k ≡ b = ef ∙ rw (ltb-false k 8 (omega arith), e, ==_self at) in
            let r : redirected vector at b v k ≡ b =
              rw (ltb-false k 8 (omega arith), e, ==_self at) in
            omega arith
        | no ne ↦
            let em' : bit mask k ≡ 1 =
              em ∙ rw (ltb-false k 8 (omega arith), ==_ne k at ne, ltb-true k 32 top) in
            let ef' : bit flags k ≡ 0 = ef ∙ rw (ltb-false k 8 (omega arith), ==_ne k at ne) in
            let r : redirected vector at b v k ≡ bit v k =
              rw (ltb-false k 8 (omega arith), ==_ne k at ne) in
            omega arith
      ]
    ]

-- The mask of the high word.
high_lem : (v k : ℕ) → k < 32 → bit (bit_and v 0xff000000) k ≡ (if ltb k 24 then 0 else bit v k)
unfolding every_below bit
high_lem v k lt =
    let e = bit-bit_and v 0xff000000 k in
    let small = bit-lt v k in
    let em =
      bit_table 0xff000000 (λ k. if ltb k 24 then 0 else if ltb k 32 then 1 else 0) (omega arith)
        refl k (omega arith) in
    elim (dec_lt k 24) [
      | yes low ↦
          let em' : bit 0xff000000 k ≡ 0 = em ∙ rw (ltb-true k 24 low) in
          rw (ltb-true k 24 low) (omega arith)
      | no ge ↦
          let em' : bit 0xff000000 k ≡ 1 =
            em ∙ rw (ltb-false k 24 (omega arith), ltb-true k 32 lt) in
          rw (ltb-false k 24 (omega arith)) (omega arith)
    ]

-- After `remap_ioredtbl`, the low word of the second redirection entry has the vector 0x40 and is not
-- masked, and has its other digits as before; the high word has only its highest 8 digits as before,
-- and 0 below; every other register is as before.
pub remap_ioredtbl_lem :
    (io : IoApic) (k : ℕ)
    → k < 32
    → (bit ((remap_ioredtbl io).regs 0x12) k ≡ redirected 0x40 16 0 (io.regs 0x12) k)
      × (bit ((remap_ioredtbl io).regs 0x13) k ≡ (if ltb k 24 then 0 else bit (io.regs 0x13) k))
      × ((o : ℕ) → o ≢ 0x12 → o ≢ 0x13 → (remap_ioredtbl io).regs o ≡ io.regs o)
unfolding remap_ioredtbl write_io_apic_reg read_io_apic_reg write_reg every_below bit
remap_ioredtbl_lem io k lt = (
  masked_lem 0xfffeff00 0x40 0x40 16 0 0 (io.regs 0x12) k (omega arith) lt
      (bit_table 0xfffeff00
        (λ k. if ltb k 8 then 0 else if k == 16 then 0 else if ltb k 32 then 1 else 0) (omega arith)
        refl k (omega arith))
      (bit_table 0x40 (λ k. if ltb k 8 then bit 0x40 k else if k == 16 then 0 else 0) (omega arith)
        refl k (omega arith)),
  high_lem (io.regs 0x13) k lt,
  (λ o n12 n13. rw (==_ne o 0x13 n13, ==_ne o 0x12 n12)),
)

-- After `local_apic_enable`, the spurious interrupt register has the vector 0xf0 and its enabling digit,
-- and its other digits as before; every other register is as before.
pub local_apic_enable_lem :
    (regs : ℕ → ℕ) (k : ℕ)
    → k < 32
    → (bit (local_apic_enable regs 0xf0) k ≡ redirected 0xf0 8 1 (regs 0xf0) k)
      × ((o : ℕ) → o ≢ 0xf0 → local_apic_enable regs o ≡ regs o)
unfolding local_apic_enable write_reg every_below bit
local_apic_enable_lem regs k lt = (
  masked_lem 0xffffff00 0x1f0 0xf0 8 1 1 (regs 0xf0) k (omega arith) lt
      (bit_table 0xffffff00
        (λ k. if ltb k 8 then 0 else if k == 8 then 1 else if ltb k 32 then 1 else 0) (omega arith)
        refl k (omega arith))
      (bit_table 0x1f0 (λ k. if ltb k 8 then bit 0xf0 k else if k == 8 then 1 else 0) (omega arith)
        refl k (omega arith)),
  (λ o n. rw (==_ne o 0xf0 n)),
)
