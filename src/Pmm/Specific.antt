-- ===== src/Pmm/Specific.antt =====
-- `pmm_check_page_taken`, `pmm_alloc_specific_page` and `pmm_free_page` on the pages that the bit map
-- can tell apart, and on the others.
use titan_os.Base.{
  ℕ, ◌/◌, ◌%◌, ◌≤◌, ◌<◌, ◌≡◌, refl, ◌∙◌, ap, sym, ◌≢◌, ◌⊎◌, inl, inr, Bool, true, false, not, none,
  some, ◌==◌, if◌then◌else◌, arith, Bool-cases, Option-cases, length, get_elem?, ◌>>=◌,
  get_elem?-eq-get_or, get_or, get_or_of_get_elem?, get_or_congr, u32, u8,
}
use titan_os.Base.Bits.{bit}
use native.Mathlib.Decide.{ℕ_discrete}
use titan_os.Pmm.{
  Map, mark, mask_of, paddr_to_bitmap, check_page_taken, alloc_specific_page, free_page,
}
use titan_os.Pmm.Words.{covers, mask_of-some, mask_of-none, mask_test}
use titan_os.Pmm.State.{IsValid, Updated, mark-Updated, clear-Updated}

-- The page has a word in the map, and its digit is one that `1 << x` reaches.
pub record IsTracked (m : Map) (paddr : ℕ) : Type 0 where
  pub low : (paddr_to_bitmap paddr).x ≤ 31
  pub in_range : (paddr_to_bitmap paddr).y < length m.bitmap

-- The digit for a page.
abbrev pub digit : Map → ℕ → ℕ
digit m paddr = bit (get_or m.bitmap (paddr_to_bitmap paddr).y 0) (paddr_to_bitmap paddr).x

module _ {m : Map} (v : IsValid m) {paddr : ℕ} (t : IsTracked m paddr) where
  abbrev y : ℕ
  y = (paddr_to_bitmap paddr).y

  abbrev x : ℕ
  x = (paddr_to_bitmap paddr).x

  read : get_elem? m.bitmap y ≡ some (get_or m.bitmap y 0)
  read = get_elem?-eq-get_or m.bitmap y 0 t.in_range

  pub check-digit : check_page_taken paddr m ≡ some (not (digit m paddr == 0))
  unfolding check_page_taken
  check-digit =
      let (mask, f) = mask_of-some x t.low in
      rw (read, f) (ground (arith, mask_test (v.words y _ read) x f))

  alloc_specific_test :
      (mask : ℕ)
      → mask_of x ≡ some mask
      → alloc_specific_page paddr m
        ≡ (if digit m paddr == 0 then (mark m y x >>= λ m'. some (false, m')) else some (true, m))
  unfolding alloc_specific_page
  alloc_specific_test mask f = rw (read, f, mask_test (v.words y _ read) x f)

-- A page that the update of digit `j` of word `i` leaves alone.
abbrev pub IsApart : ℕ → ℕ → ℕ → Type 0
IsApart i j paddr = ((paddr_to_bitmap paddr).y ≢ i) ⊎ (covers j (paddr_to_bitmap paddr).x ≡ false)

module _ {m m' : Map} {i j d : ℕ} (u : Updated m i j d m') where
  get_or_now : get_or m'.bitmap i 0 ≡ u.new
  get_or_now = get_or_of_get_elem? m'.bitmap i 0 u.now

  get_or_was : get_or m.bitmap i 0 ≡ u.old
  get_or_was = get_or_of_get_elem? m.bitmap i 0 u.was

  get_or_others : (k : ℕ) → i ≢ k → get_or m'.bitmap k 0 ≡ get_or m.bitmap k 0
  get_or_others k ne = get_or_congr m'.bitmap m.bitmap k 0 (u.others k ne)

  IsTracked-Updated : {paddr : ℕ} → IsTracked m paddr → IsTracked m' paddr
  IsTracked-Updated t = record { low = t.low; in_range = omega (arith, t.in_range, u.same_length) }

  -- The digit of a page after the update.
  digit_apart : {paddr : ℕ} → IsTracked m paddr → IsApart i j paddr → digit m' paddr ≡ digit m paddr
  digit_apart {paddr} t a = elim (ℕ_discrete i (paddr_to_bitmap paddr).y) [
    | yes p ↦ rw (← p, get_or_now, get_or_was) (ground (arith, u.digits (paddr_to_bitmap paddr).x))
    | no p ↦ rw (get_or_others (paddr_to_bitmap paddr).y p)
  ]

  digit_set :
      {paddr : ℕ}
      → IsTracked m paddr
      → (paddr_to_bitmap paddr).y ≡ i
      → (paddr_to_bitmap paddr).x ≡ j
      → digit m' paddr ≡ d
  digit_set {paddr} t p q = rw (p, q, get_or_now) (ground (arith, u.digits j))

-- After an operation on `paddr` that left `m'`: what the digit of `paddr` tells, and that the other
-- tracked pages tell what they told before.
pub record Sets (m : Map) (paddr : ℕ) (b : Bool) (m' : Map) : Type 0 where
  pub valid : IsValid m'
  pub told : check_page_taken paddr m' ≡ some b
  pub apart :
      (q : ℕ)
      → IsTracked m q
      → IsApart (paddr_to_bitmap paddr).y (paddr_to_bitmap paddr).x q
      → check_page_taken q m' ≡ check_page_taken q m

module _ {m : Map} (v : IsValid m) {paddr : ℕ} (t : IsTracked m paddr) where
  Updated-Sets :
      {d : ℕ} {m' : Map} {b : Bool}
      → IsValid m'
      → Updated m (paddr_to_bitmap paddr).y (paddr_to_bitmap paddr).x d m'
      → not (d == 0) ≡ b
      → Sets m paddr b m'
  Updated-Sets v' u e = record {
    valid = v';
    told = check-digit v' (IsTracked-Updated u t) ∙ rw (digit_set u t refl refl) (ap some e);
    apart = λ q s a.
        check-digit v' (IsTracked-Updated u s) ∙ rw (digit_apart u s a) (sym (check-digit v s));
  }

  -- `pmm_alloc_specific_page` of a tracked page is free of undefined behaviour, returns what
  -- `pmm_check_page_taken` says of the page, and leaves a valid map in which the page is taken. A page
  -- that was taken leaves the map as it is, and the answer for every other tracked page is unchanged,
  -- those that share the digit group 31 to 63 excepted.
  pub alloc_specific_page-check :
      (b : Bool) × (m' : Map) × (alloc_specific_page paddr m ≡ some (b, m'))
      × (check_page_taken paddr m ≡ some b)
      × (b ≡ true → m' ≡ m)
      × Sets m paddr true m'
  alloc_specific_page-check =
      let (mask, f) = mask_of-some _ t.low in
      elim (Bool-cases (digit m paddr == 0)) [
        | inl z ↦
            let (m', made, v', u) = mark-Updated v _ (read v t) _ f in
            (
              false,
              m',
              alloc_specific_test v t mask f ∙ rw (z, made),
              check-digit v t ∙ rw z,
              (λ h. cc),
              Updated-Sets v' u refl,
            )
        | inr n ↦ (
          true,
          m,
          alloc_specific_test v t mask f ∙ rw n,
          check-digit v t ∙ rw n,
          (λ h. refl),
          record { valid = v; told = check-digit v t ∙ rw n; apart = λ q s a. refl },
        )
      ]

  -- `pmm_free_page` of a tracked page is free of undefined behaviour and leaves a valid map in which
  -- the page is free; the answer for every other tracked page is unchanged, those that share the digit
  -- group 31 to 63 excepted.
  pub free_page-check : (m' : Map) × (free_page paddr m ≡ some m') × Sets m paddr false m'
  unfolding free_page
  free_page-check =
      let (mask, f) = mask_of-some _ t.low in
      let (m', made, v', u) = clear-Updated v _ (read v t) _ f in
      (m', rw (read v t, f) made, Updated-Sets v' u refl)

-- For every map, the three operations on a page whose number is 32 or more modulo 64 are undefined:
-- they shift an `int` by its width or more, or read past the array first.
pub untracked_undefined :
    (m : Map) (paddr : ℕ)
    → 32 ≤ paddr / 0x1000 % 64
    → (check_page_taken paddr m ≡ none)
      × (alloc_specific_page paddr m ≡ none)
      × (free_page paddr m ≡ none)
unfolding check_page_taken alloc_specific_page free_page paddr_to_bitmap
untracked_undefined m paddr h =
    elim (Option-cases (get_elem? m.bitmap (u32 (paddr / 0x1000 / 64)))) [
      | inl e ↦ rw e (refl, refl, refl)
      | inr (w, e) ↦
          rw (e, mask_of-none (u8 (paddr / 0x1000 % 64)) (omega arith)) (refl, refl, refl)
    ]
