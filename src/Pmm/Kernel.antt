-- ===== src/Pmm/Kernel.antt =====
-- The pages that `pmm_init` marks.
use titan_os.Base.{
  ℕ, zero, suc, ◌+◌, ◌-◌, ◌*◌, ◌/◌, ◌%◌, ◌^◌, ◌≡◌, ◌≢◌, ◌<◌, ◌≤◌, inl, inr, refl, sym, ap, ◌∙◌,
  Bool, true, false, ◌&&◌, none, some, List, [], ◌∷◌, ltb, leb, ◌==◌, if◌then◌else◌, length,
  replicate, set, get_elem?, u64, arith, Bool-cases, Option-cases, length-set, some_injective,
  length-replicate, get_or-replicate, get_or_of_get_elem?, ltb-true, ltb-false, bit_and, bit_or,
}
use native.Mathlib.Decide.{ℕ_discrete}
use titan_os.MemoryMap.{Entry}
use titan_os.Pmm.{Map, mark, mask_of, paddr_to_bitmap, check_page_taken, alloc_specific_page}
use mathlib.Core.Path.{subst}
use titan_os.Base.Bits.{bit_of_lt}
use titan_os.Pmm.Words.{IsWord}
use titan_os.Pmm.State.{IsValid}
use titan_os.Pmm.Specific.{
  IsTracked, IsApart, alloc_specific_page-check, untracked_undefined, check-digit,
}
use titan_os.Pmm.Init.{mark_above, mark_reserved, mark_below, first_page, mark_initial, pmm_init}
use titan_os.Vmm.Regions.{Region, Backing}

pair_injective : {A B : Type 0} {a b : A × B} → a ≡ b → (a.0 ≡ b.0) × (a.1 ≡ b.1)
pair_injective e = (ap (λ x. x.0) e, ap (λ x. x.1) e)

-- The number of pages plays no part in `pmm_alloc_specific_page`, and the array keeps its length.
alloc_specific_page-num_pages :
    (p n : ℕ) (m m' : Map) (b : Bool)
    → alloc_specific_page p m ≡ some (b, m')
    → (alloc_specific_page p (record m { num_pages = n }) ≡ some (b, record m' { num_pages = n }))
      × (length m'.bitmap ≡ length m.bitmap)
unfolding alloc_specific_page mark
alloc_specific_page-num_pages p n m m' b e =
    let y = (paddr_to_bitmap p).y in
    elim (Option-cases (get_elem? m.bitmap y)) [
      | inl no_word ↦ (let x : alloc_specific_page p m ≡ none = rw no_word in cc)
      | inr (w, word) ↦ elim (Option-cases (mask_of (paddr_to_bitmap p).x)) [
        | inl no_mask ↦ (let x : alloc_specific_page p m ≡ none = rw (word, no_mask) in cc)
        | inr (mask, f) ↦ elim (Bool-cases (bit_and w mask == 0)) [
          | inl z ↦
              (let ws = set m.bitmap y (bit_or w mask) in
                let x : alloc_specific_page p m ≡ some (false, record m { bitmap = ws }) =
                  rw (word, f, z) in
                let (eb, em) = pair_injective (some_injective (sym e ∙ x)) in
                rw (eb, em) (rw (word, f, z), length-set m.bitmap y (bit_or w mask)))
          | inr z ↦
              (let x : alloc_specific_page p m ≡ some (true, m) = rw (word, f, z) in
                let (eb, em) = pair_injective (some_injective (sym e ∙ x)) in
                rw (eb, em) (rw (word, f, z), refl))
        ]
      ]
    ]

abbrev renumbered : ℕ → Map → Map
renumbered n m = record m { num_pages = n }

-- A page below 128 MiB that the masks can tell apart from the others of its word.
abbrev pub IsLow : ℕ → Type 0
IsLow q = (q < 0x8000000) × (q / 0x1000 % 64 ≤ 31)

-- Of the low pages, those from number `first` up to `last` are taken.
pub record Marks (first last : ℕ) (m : Map) : Type 0 where
  pub valid : IsValid m
  pub size : length m.bitmap ≡ 512
  pub told :
      (q : ℕ)
      → IsLow q
      → check_page_taken q m ≡ some (leb first (q / 0x1000) && ltb (q / 0x1000) last)

IsLow-IsTracked : (m : Map) (q : ℕ) → length m.bitmap ≡ 512 → IsLow q → IsTracked m q
unfolding paddr_to_bitmap
IsLow-IsTracked m q size (small, low) = record { low = omega arith; in_range = omega (arith, size) }

-- Two low pages with other numbers are told apart.
IsLow-IsApart :
    (p q : ℕ)
    → IsLow p
    → IsLow q
    → p / 0x1000 ≢ q / 0x1000
    → IsApart (paddr_to_bitmap p).y (paddr_to_bitmap p).x q
unfolding paddr_to_bitmap
IsLow-IsApart p q (small, low) (small', low') ne =
    elim (ℕ_discrete (q / 0x1000 / 64) (p / 0x1000 / 64)) [
      | no other ↦ inl (omega (arith, other))
      | yes same ↦ inr (ground arith)
    ]

check_page_taken-same_page :
    (p q : ℕ) (m : Map) → p / 0x1000 ≡ q / 0x1000 → check_page_taken q m ≡ check_page_taken p m
unfolding check_page_taken paddr_to_bitmap
check_page_taken-same_page p q m e = rw e

-- One marked page.
Marks-next :
    (first c n : ℕ) (m : Map)
    → Marks first c m
    → first ≤ c
    → IsLow (c * 0x1000)
    → (b : Bool) × (m' : Map) × (alloc_specific_page (c * 0x1000) (renumbered n m)
        ≡ some (b, renumbered n m'))
      × Marks first (c + 1) m'
Marks-next first c n m v le low =
    let p = c * 0x1000 in
    let (b, m', e, _, _, sets) =
      alloc_specific_page-check v.valid (IsLow-IsTracked m p v.size low) in
    let (again, size) = alloc_specific_page-num_pages p n m m' b e in
    (
      b,
      m',
      again,
      record {
        valid = sets.valid;
        size = omega (arith, size, v.size);
        told = λ q low'. elim (ℕ_discrete (p / 0x1000) (q / 0x1000)) [
          | yes same ↦ check_page_taken-same_page p q m' same ∙ sets.told ∙ ap some (ground arith)
          | no ne ↦
              sets.apart q (IsLow-IsTracked m q v.size low') (IsLow-IsApart p q low low' ne)
              ∙ v.told q low'
              ∙ ap some (ground arith)
        ];
      },
    )

add_zero : (c : ℕ) → c + 0 ≡ c
add_zero c = omega arith

mark_below-Marks :
    (fuel left first c n end : ℕ) (m : Map)
    → Marks first c m
    → first ≤ c
    → left ≤ fuel
    → c % 64 + left ≤ 32
    → c + left ≤ 0x8000
    → (end + 0xfff) / 0x1000 ≡ c + left
    → (m' : Map) × (mark_below fuel (c * 0x1000) end (renumbered n m) ≡ some (renumbered n m'))
      × Marks first (c + left) m'
unfolding mark_below
mark_below-Marks zero zero first c n end m v le lf low top e =
    (m, rw (ltb-false (c * 0x1000) end (omega arith)), rw (add_zero c) v)
mark_below-Marks zero (suc left) first c n end m v le lf low top e = absurd (omega arith)
mark_below-Marks (suc fuel) zero first c n end m v le lf low top e =
    (m, rw (ltb-false (c * 0x1000) end (omega arith)), rw (add_zero c) v)
mark_below-Marks (suc fuel) (suc left) first c n end m v le lf low top e =
    let (b, m1, marked, v1) = Marks-next first c n m v le (omega arith, omega arith) in
    let (m2, rest, v2) =
      mark_below-Marks fuel left first (c + 1) n end m1 v1 (omega arith) (omega arith) (omega arith)
        (omega arith) (omega arith) in
    let next : u64 (c * 0x1000 + 0x1000) ≡ (c + 1) * 0x1000 = omega arith in
    (
      m2,
      rw (ltb-true (c * 0x1000) end (omega arith), marked, next) rest,
      subst (λ k. Marks first k m2) (omega arith) v2,
    )

-- Where page `c + k` has a number of 32 modulo 64 and lies in front of the end, the loop is undefined.
mark_below-none :
    (fuel k c end : ℕ) (m : Map)
    → c % 64 + k ≡ 32
    → k < fuel
    → (c + k) * 0x1000 < end
    → end < 2 ^ 64
    → mark_below fuel (c * 0x1000) end m ≡ none
unfolding mark_below
mark_below-none zero k c end m e lt below small = absurd (omega arith)
mark_below-none (suc fuel) zero c end m e lt below small =
    let (_, undefined, _) = untracked_undefined m (c * 0x1000) (omega arith) in
    rw (ltb-true (c * 0x1000) end (omega arith), undefined)
mark_below-none (suc fuel) (suc k) c end m e lt below small =
    let next : u64 (c * 0x1000 + 0x1000) ≡ (c + 1) * 0x1000 = omega arith in
    elim (Option-cases (alloc_specific_page (c * 0x1000) m)) [
      | inl none_marked ↦ rw (ltb-true (c * 0x1000) end (omega arith), none_marked)
      | inr ((b, m1), marked) ↦
          rw (ltb-true (c * 0x1000) end (omega arith), marked, next)
            (mark_below-none fuel k (c + 1) end m1 (omega arith) (omega arith) (omega arith) small)
    ]

-- Entries whose ends lie within 64 bits.
abbrev pub Ends : List Entry → Type 0
Ends [] = Unit
Ends (e ∷ es) = (e.addr + e.len < 2 ^ 64) × Ends es

mark_reserved-same : (es : List Entry) (m : Map) → Ends es → mark_reserved es m ≡ some m
unfolding mark_reserved mark_above
mark_reserved-same [] m ends = refl
mark_reserved-same (e ∷ es) m (fits, ends) =
    rw (ltb-false (u64 (e.addr + e.len)) e.addr (omega arith)) (mark_reserved-same es m ends)

zero-IsWord : IsWord 0
zero-IsWord = record {
  small = omega arith;
  high = λ k le lt.
      bit_of_lt 0 0 k (omega arith) (omega arith)
      ∙ sym (bit_of_lt 0 0 31 (omega arith) (omega arith));
}

first_page-Marks : (c : ℕ) → Marks c c (renumbered 0 first_page)
first_page-Marks c =
    let zeros : List ℕ = replicate 512 0 in
    let size : length zeros ≡ 512 = length-replicate {A = ℕ} 512 0 in
    let v : IsValid (renumbered 0 first_page) = record {
      covered = omega arith;
      words = λ i w e.
          subst IsWord (sym (get_or-replicate {A = ℕ} 512 i 0) ∙ get_or_of_get_elem? zeros i 0 e)
            zero-IsWord;
    } in
    record {
      valid = v;
      size = size;
      told = λ q low.
          check-digit v (IsLow-IsTracked (renumbered 0 first_page) q size low)
          ∙ rw
              (
                get_or-replicate {A = ℕ} 512 (paddr_to_bitmap q).y 0,
                bit_of_lt 0 0 (paddr_to_bitmap q).x (omega arith) (omega arith),
              )
              (ap some (ground arith));
    }

-- For a kernel that starts at page `first` and whose pages, with two more behind it, lie in the first
-- half of a word of the bit map, and for fewer than 20 reserved entries within 64 bits, the marking of
-- `pmm_init` is free of undefined behaviour. After it, of the pages below 128 MiB that the masks can
-- tell apart, exactly those of the kernel and the two behind it are taken: no reserved page is.
pub mark_initial-Marks :
    (first kernel_size : ℕ) (reserved : List Entry)
    → length reserved < 20
    → Ends reserved
    → first % 64 + (kernel_size + 0x2fff) / 0x1000 ≤ 32
    → first < 0x7f00
    → (m : Map) × (mark_initial (first * 0x1000) kernel_size reserved ≡ some m)
      × ((q : ℕ)
          → IsLow q
          → check_page_taken q m
            ≡ some (
                leb first (q / 0x1000)
                && ltb (q / 0x1000) (first + (kernel_size + 0x2fff) / 0x1000)))
unfolding mark_initial check_page_taken
mark_initial-Marks first kernel_size reserved few ends fits low =
    let end = u64 (kernel_size + first * 0x1000 + 0x2000) in
    let left = (kernel_size + 0x2fff) / 0x1000 in
    let (m, marked, v) =
      mark_below-Marks 33 left first first (first_page.num_pages) end (renumbered 0 first_page)
        (first_page-Marks first) (omega arith) (omega arith) fits (omega arith) (omega arith) in
    (
      renumbered (first_page.num_pages) m,
      rw (ltb-true (length reserved) 20 few, mark_reserved-same reserved first_page ends) marked,
      v.told,
    )

-- For a kernel that starts in the first half of a word of the bit map and that reaches, with two pages
-- behind it, into the second half, `pmm_init` is undefined: it shifts an `int` by 32.
pub pmm_init_undefined :
    {M : Type 0} (backing : Backing M) (map : M → Map) (with_map : Map → M → M)
    (first kernel_size : ℕ) (reserved : List Entry) (fresh : List ℕ) (regions : List Region) (s : M)
    → first % 64 ≤ 32
    → 32 * 0x1000 < first % 64 * 0x1000 + kernel_size + 0x2000
    → kernel_size + first * 0x1000 + 0x2000 < 2 ^ 64
    → pmm_init backing map with_map (first * 0x1000) kernel_size reserved fresh regions s ≡ none
unfolding pmm_init mark_initial
pmm_init_undefined backing map with_map first kernel_size reserved fresh regions s half far small =
    let end = u64 (kernel_size + first * 0x1000 + 0x2000) in
    let undefined : (m : Map) → mark_below 33 (first * 0x1000) end m ≡ none = λ m.
      mark_below-none 33 (32 - first % 64) first end m (omega arith) (omega arith) (omega arith)
        (omega arith) in
    elim (Option-cases
      (if ltb (length reserved) 20 then mark_reserved reserved first_page else none)) [
        | inl e ↦ rw e
        | inr (m, e) ↦ rw (e, undefined m)
      ]
