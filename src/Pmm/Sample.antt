-- ===== src/Pmm/Sample.antt =====
-- A bit map of one word whose lowest free page is page 3.
use titan_os.Base.{
  ℕ, zero, suc, ◌^◌, ◌<◌, ◌≡◌, refl, true, some, [], ◌∷◌, arith, leb, ◌==◌, if◌then◌else◌,
  get_elem?,
}
use mathlib.Core.Path.{subst}
use titan_os.Base.Bits.{bit, every_below, every_below_lem}
use titan_os.Pmm.{
  Map, mask_of, mark, scan_word, take_found, alloc_from, alloc_page, bitmap_to_paddr,
}
use titan_os.Pmm.Words.{IsWord}
use titan_os.Pmm.State.{IsValid}

pub table-IsWord :
    (w : ℕ)
    → w < 2 ^ 64
    → every_below 64 (λ k. if leb 31 k then bit w k == bit w 31 else true) ≡ true
    → IsWord w
table-IsWord w lt t = record {
  small = lt;
  high = λ k p q.
      let h = every_below_lem 64 k (λ k. if leb 31 k then bit w k == bit w 31 else true) t q in
      ground arith;
}

pub seven-IsWord : IsWord 7
unfolding bit every_below
seven-IsWord = table-IsWord 7 (omega arith) refl

abbrev pub three_taken : Map
three_taken = record { num_pages = 64; bitmap = 7 ∷ [] }

abbrev pub four_taken : Map
four_taken = record { num_pages = 64; bitmap = 15 ∷ [] }

pub alloc_page-three_taken : alloc_page three_taken ≡ some (0x3000, four_taken)
unfolding alloc_page alloc_from take_found scan_word mark mask_of bitmap_to_paddr
alloc_page-three_taken = refl

three_taken-words : (i w : ℕ) → get_elem? (7 ∷ []) i ≡ some w → IsWord w
three_taken-words zero w h = subst IsWord (cc) seven-IsWord
three_taken-words (suc i) w h = cc

pub three_taken-IsValid : IsValid three_taken
three_taken-IsValid = record { covered = omega arith; words = three_taken-words }
