-- ===== src/Pmm/Tests.antt =====
-- The allocator at small bit maps, and its theorems at them.
use titan_os.Base.{
  ℕ, zero, suc, ◌+◌, ◌<◌, ◌≡◌, refl, true, none, some, [], ◌∷◌, arith, leb, ltb, ◌&&◌, ◌*◌, ◌/◌,
  ◌≢◌, ==_iff, ◌==◌, if◌then◌else◌, get_elem?,
}
use mathlib.Core.Path.{subst}
use titan_os.Base.Bits.{bit, every_below, every_below_lem}
use titan_os.Pmm.{
  Map, mask_of, mark, scan_word, take_found, alloc_from, alloc_page, check_page_taken,
  bitmap_to_paddr,
}
use titan_os.Pmm.Sample.{table-IsWord, seven-IsWord}
use titan_os.Pmm.Words.{IsWord, covers}
use titan_os.Pmm.State.{IsValid}
use titan_os.Pmm.Alloc.{Allocates, FirstClear, FullBelow, Takes, alloc_page-Allocates}
use titan_os.Pmm.Init.{mark_initial, pmm_init}
use titan_os.Pmm.Kernel.{IsLow, mark_initial-Marks, pmm_init_undefined}
use titan_os.Vmm.Regions.{Backing}

-- Word 0 full, word 1 with the pages 0 and 2 taken.
abbrev sample : Map
sample = record { num_pages = 128; bitmap = 0xffff_ffff_ffff_ffff ∷ 5 ∷ [] }

-- What the next page taken leaves.
abbrev sample_next : Map
sample_next = record { num_pages = 128; bitmap = 0xffff_ffff_ffff_ffff ∷ 7 ∷ [] }

abbrev empty : Map
empty = record { num_pages = 64; bitmap = 0 ∷ [] }

alloc_page_runs : alloc_page sample ≡ some (0x21000, sample_next)
unfolding alloc_page alloc_from take_found scan_word mark mask_of bitmap_to_paddr
alloc_page_runs = refl

-- Digit 31 takes the upper half of its word with it.
alloc_page_upper_half :
    alloc_page (record { num_pages = 64; bitmap = 0x7fff_ffff ∷ [] })
    ≡ some (0x1f000, record { num_pages = 64; bitmap = 0xffff_ffff_ffff_ffff ∷ [] })
unfolding alloc_page alloc_from take_found scan_word mark mask_of bitmap_to_paddr
alloc_page_upper_half = refl

full-IsWord : IsWord 0xffff_ffff_ffff_ffff
unfolding bit every_below
full-IsWord = table-IsWord 0xffff_ffff_ffff_ffff (omega arith) refl

five-IsWord : IsWord 5
unfolding bit every_below
five-IsWord = table-IsWord 5 (omega arith) refl

zero-IsWord : IsWord 0
unfolding bit every_below
zero-IsWord = table-IsWord 0 (omega arith) refl

words_of_two :
    {a b : ℕ} → IsWord a → IsWord b → (i w : ℕ) → get_elem? (a ∷ b ∷ []) i ≡ some w → IsWord w
words_of_two p q zero w h = subst IsWord (cc) p
words_of_two p q (suc zero) w h = subst IsWord (cc) q
words_of_two p q (suc (suc i)) w h = cc

sample-IsValid : IsValid sample
sample-IsValid = record { covered = omega arith; words = words_of_two full-IsWord five-IsWord }

sample_next-IsValid : IsValid sample_next
sample_next-IsValid = record {
  covered = omega arith;
  words = words_of_two full-IsWord seven-IsWord;
}

alloc_page-Allocates_example :
    (paddr : ℕ) × (m' : Map) × (alloc_page sample ≡ some (paddr, m'))
    × IsValid m'
    × Allocates sample paddr m'
alloc_page-Allocates_example = alloc_page-Allocates sample-IsValid

five_to_seven : (k : ℕ) → k < 64 → bit 7 k ≡ (if covers 1 k then 1 else bit 5 k)
five_to_seven k lt = (==_iff _ _).0 (
    every_below_lem 64 k (λ k. bit 7 k == (if covers 1 k then 1 else bit 5 k))
      (unfold bit every_below in refl) lt)

five-FirstClear : FirstClear 5 1
unfolding bit
five-FirstClear = record { low = omega arith; clear = refl; before = first }
  where
    first : (k : ℕ) → k < 1 → bit 5 k ≡ 1
    first zero h = refl
    first (suc k) h = absurd (omega arith)

sample-Takes : Takes sample 0x21000 sample_next
unfolding bitmap_to_paddr
sample-Takes = record {
  i = 1;
  j = 1;
  w = 5;
  in_range = omega arith;
  word = refl;
  first = five-FirstClear;
  earlier = earlier;
  address = refl;
  taken = record {
    same_pages = refl;
    same_length = refl;
    others = others;
    old = 5;
    new = 7;
    was = refl;
    now = refl;
    digits = five_to_seven;
  };
}
  where
    earlier : FullBelow sample 1
    earlier zero h = refl
    earlier (suc k) h = absurd (omega arith)

    others : (y : ℕ) → 1 ≢ y → get_elem? sample_next.bitmap y ≡ get_elem? sample.bitmap y
    others zero ne = refl
    others (suc zero) ne = absurd (ne refl)
    others (suc (suc y)) ne = refl

one_word : ℕ → Map
one_word w = record { num_pages = 64; bitmap = w ∷ [] }

one_word-IsValid : IsValid (one_word 7)
unfolding one_word
one_word-IsValid = record { covered = omega arith; words = words }
  where
    words : (i w : ℕ) → get_elem? (one_word 7).bitmap i ≡ some w → IsWord w
    words zero w h = subst IsWord (cc) seven-IsWord
    words (suc i) w h = cc

one_word-Takes : Takes (one_word 5) 0x1000 (one_word 7)
unfolding bitmap_to_paddr one_word
one_word-Takes = record {
  i = 0;
  j = 1;
  w = 5;
  in_range = omega arith;
  word = refl;
  first = five-FirstClear;
  earlier = λ k h. absurd (omega arith);
  address = refl;
  taken = record {
    same_pages = refl;
    same_length = refl;
    others = others;
    old = 5;
    new = 7;
    was = refl;
    now = refl;
    digits = five_to_seven;
  };
}
  where
    others : (y : ℕ) → 0 ≢ y → get_elem? (one_word 7).bitmap y ≡ get_elem? (one_word 5).bitmap y
    others zero ne = absurd (ne refl)
    others (suc y) ne = refl

-- A kernel of 19 pages at 1 MiB, and an entry of the boot loader.
mark_initial-Marks_example :
    (m : Map) × (mark_initial
        (0x100 * 0x1000)
        0x13000
        (record { addr = 0xfffc0000; len = 0x40000; kind = 2 } ∷ [])
      ≡ some m)
    × ((q : ℕ)
        → IsLow q
        → check_page_taken q m
          ≡ some (leb 0x100 (q / 0x1000) && ltb (q / 0x1000) (0x100 + (0x13000 + 0x2fff) / 0x1000)))
mark_initial-Marks_example =
    mark_initial-Marks 0x100 0x13000 (record { addr = 0xfffc0000; len = 0x40000; kind = 2 } ∷ [])
      (omega arith) (omega arith, tt) (omega arith) (omega arith)

abbrev idle_backing : Backing Map
idle_backing = record { back = λ v a f m. some (true, m) }

-- A kernel of 31 pages.
pmm_init_undefined_example :
    pmm_init idle_backing (λ m. m) (λ m old. m) (0x100 * 0x1000) 0x1f000 [] [] [] empty ≡ none
pmm_init_undefined_example =
    pmm_init_undefined idle_backing (λ m. m) (λ m old. m) 0x100 0x1f000 [] [] [] empty (omega arith)
      (omega arith) (omega arith)
