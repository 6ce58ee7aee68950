-- ===== src/Pmm/Alloc.antt =====
-- `pmm_alloc_page` takes the first free page.
use titan_os.Base.{
  ℕ, zero, suc, ◌+◌, ◌/◌, ◌≤◌, ◌<◌, ◌≡◌, refl, ◌∙◌, sym, ◌≢◌, ◌⊎◌, inl, inr, true, Option, some,
  ltb, ◌==◌, arith, Bool-cases, get_elem?, ◌>>=◌, get_elem?-eq-get_or, get_or, ==_iff,
}
use titan_os.Base.Bits.{bit, bit-lt, eq_of_bit, bit-ones, bit_of_lt}
use native.Mathlib.Decide.{ℕ_discrete, dec_le, dec_lt}
use titan_os.Pmm.{Map, all_taken, scan_word, alloc_from, alloc_page, bitmap_to_paddr, take_found}
use titan_os.Pmm.Words.{IsWord, mask_of-some, mask_test}
use titan_os.Pmm.State.{IsValid, Updated, mark-Updated}

-- Digit `j` is the lowest clear digit of `w`.
pub record FirstClear (w j : ℕ) : Type 0 where
  pub low : j ≤ 31
  pub clear : bit w j ≡ 0
  pub before : (k : ℕ) → k < j → bit w k ≡ 1

module _ {w : ℕ} (v : IsWord w) where
  -- A word whose digits up to 31 are set is the full word.
  full_of_low : ((k : ℕ) → k < 32 → bit w k ≡ 1) → w ≡ all_taken
  full_of_low h = eq_of_bit w all_taken λ k. elim (dec_lt k 64) [
    | yes p ↦ elim (dec_lt k 32) [
      | yes q ↦ h k q ∙ sym (bit-ones 64 k p)
      | no q ↦ v.high k (omega arith) p ∙ h 31 (omega arith) ∙ sym (bit-ones 64 k p)
    ]
    | no p ↦
        bit_of_lt 64 w k v.small (omega arith)
        ∙ sym (bit_of_lt 64 all_taken k (omega arith) (omega arith))
  ]

  scan_word-FirstClear :
      (left j : ℕ)
      → j + left ≡ 64
      → w ≢ all_taken
      → ((k : ℕ) → k < j → bit w k ≡ 1)
      → (r : ℕ) × (scan_word left j w ≡ some (some r)) × FirstClear w r
  unfolding scan_word
  scan_word-FirstClear zero j e ne below = absurd (ne (full_of_low λ k p. below k (omega arith)))
  scan_word-FirstClear (suc left) j e ne below = elim (dec_le j 31) [
    | yes p ↦
        let (mask, f) = mask_of-some j p in
        elim (Bool-cases (bit w j == 0)) [
          | inl z ↦ (
            j,
            rw (f, mask_test v j f, z),
            record { low = p; clear = (==_iff _ _).0 z; before = below },
          )
          | inr n ↦
              let (r, run, first) =
                scan_word-FirstClear left (j + 1) (omega arith) ne
                  (λ k q. ground (arith, below k, bit-lt w j)) in
              (r, rw (f, mask_test v j f, n) run, first)
        ]
    | no p ↦ absurd (ne (full_of_low λ k q. below k (omega arith)))
  ]

-- Every word before `n` is full.
abbrev pub FullBelow : Map → ℕ → Type 0
FullBelow m n = (i : ℕ) → i < n → get_elem? m.bitmap i ≡ some all_taken

-- The page of the first clear digit of the first word that is not full, now taken.
pub record Takes (m : Map) (paddr : ℕ) (m' : Map) : Type 0 where
  pub i : ℕ
  pub j : ℕ
  pub w : ℕ
  pub in_range : i < m.num_pages / 64
  pub word : get_elem? m.bitmap i ≡ some w
  pub first : FirstClear w j
  pub earlier : FullBelow m i
  pub address : paddr ≡ bitmap_to_paddr j i
  pub taken : Updated m i j 1 m'

abbrev pub Allocates : Map → ℕ → Map → Type 0
Allocates m paddr m' = ((paddr ≡ 0) × (m' ≡ m) × FullBelow m (m.num_pages / 64)) ⊎ Takes m paddr m'

module _ {m : Map} (v : IsValid m) where
  abbrev Returned : Option (ℕ × Map) → Type 0
  Returned r = (paddr : ℕ) × (m' : Map) × (r ≡ some (paddr, m')) × IsValid m' × Allocates m paddr m'

  take_found-Returned :
      (i w : ℕ) (rest : Option (ℕ × Map))
      → i < m.num_pages / 64
      → FullBelow m i
      → get_elem? m.bitmap i ≡ some w
      → w ≢ all_taken
      → Returned (scan_word 64 0 w >>= take_found m i rest)
  unfolding take_found
  take_found-Returned i w rest lt full e ne =
      let (j, run, first) =
        scan_word-FirstClear (v.words i w e) 64 0 (omega arith) ne (λ k q. absurd (omega arith)) in
      let (mask, f) = mask_of-some j first.low in
      let (m', made, valid, updated) = mark-Updated v i e j f in
      (
        bitmap_to_paddr j i,
        m',
        rw (run, made),
        valid,
        inr (record {
          i = i;
          j = j;
          w = w;
          in_range = lt;
          word = e;
          first = first;
          earlier = full;
          address = refl;
          taken = updated;
        }),
      )

  alloc_from-Returned :
      (left i : ℕ) → i + left ≡ m.num_pages / 64 → FullBelow m i → Returned (alloc_from left i m)
  unfolding alloc_from
  alloc_from-Returned zero i e full = (0, m, refl, v, inl (refl, refl, λ k p. full k (omega arith)))
  alloc_from-Returned (suc left) i e full =
      let w = get_or m.bitmap i 0 in
      let h : get_elem? m.bitmap i ≡ some w =
        get_elem?-eq-get_or m.bitmap i 0 (omega (arith, v.covered)) in
      rw h (elim (ℕ_discrete w all_taken) [
        | yes p ↦ rw p (alloc_from-Returned left (i + 1) (omega arith) (λ k q. extend w h p k q))
        | no p ↦
            rw (below_full w h p)
              (take_found-Returned i w (alloc_from left (i + 1) m) (omega arith) full h p)
      ])
    where
      extend : (w : ℕ) → get_elem? m.bitmap i ≡ some w → w ≡ all_taken → FullBelow m (i + 1)
      extend w h p k q = elim (ℕ_discrete k i) [
        | yes s ↦ rw (s, h, p)
        | no s ↦ full k (omega arith)
      ]

      below_full : (w : ℕ) → get_elem? m.bitmap i ≡ some w → w ≢ all_taken → ltb w all_taken ≡ true
      below_full w h p = ground (arith, (v.words i w h).small)

-- On a valid map `pmm_alloc_page` is free of undefined behaviour. It returns 0 with the map unchanged
-- if all the words that it scans are full; otherwise it takes the lowest clear digit of the first word
-- that is not full, which is at most digit 31, sets the digits of that word which the mask covers
-- (that digit alone, and 31 to 63 for digit 31) and nothing else, and returns the address that
-- `bitmap_to_paddr` gives the digit. Either way the map stays valid.
pub alloc_page-Allocates :
    {m : Map}
    → IsValid m
    → (paddr : ℕ) × (m' : Map) × (alloc_page m ≡ some (paddr, m'))
      × IsValid m'
      × Allocates m paddr m'
unfolding alloc_page
alloc_page-Allocates {m} v =
    alloc_from-Returned v (m.num_pages / 64) 0 (omega arith) (λ i p. absurd (omega arith))
