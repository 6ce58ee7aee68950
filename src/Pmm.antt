-- ===== src/Pmm.antt =====
-- The physical page allocator, src/kernel/mm/pmm.c: a bit map of 64-bit words in which a set digit
-- is a taken page. `none` is undefined behaviour.
pub mod Words
pub mod State
pub mod Alloc
pub mod Specific
pub mod Address
pub mod Free
pub mod Init
pub mod Kernel
pub mod Sample
mod Tests
use titan_os.Base.{
  ℕ, zero, suc, ◌+◌, ◌-◌, ◌*◌, ◌/◌, ◌%◌, ◌^◌, bit_and, bit_or, bit_xor, Bool, true, false, not,
  Option, none, some, List, ltb, ◌==◌, if◌then◌else◌, get_elem?, set, u8, u32, u64, ◌>>=◌,
}

pub record Map : Type 0 where
  pub num_pages : ℕ
  pub bitmap : List ℕ

-- `struct bitmap_coords`.
pub record Coords : Type 0 where
  pub y : ℕ
  pub x : ℕ

abbrev pub page_size : ℕ
page_size = 0x1000

abbrev pub all_taken : ℕ
all_taken = 0xffff_ffff_ffff_ffff

-- `1 << j` where it meets a `uint64_t`. The 1 is an `int`: at 31 the result is the least `int`,
-- which is sign-extended, and from 32 on the shift is undefined.
pub mask_of : ℕ → Option ℕ
mask_of j = if ltb j 31 then some (2 ^ j) else if j == 31 then some 0xffff_ffff_8000_0000 else none

-- The sum and the products are of `uint32_t`.
pub bitmap_to_paddr : ℕ → ℕ → ℕ
bitmap_to_paddr x y = u32 (u32 (x * 0x1000) + u32 (y * 0x20000))

pub paddr_to_bitmap : ℕ → Coords
paddr_to_bitmap paddr =
    let phys_addr = paddr / 0x1000 in record { y = u32 (phys_addr / 64); x = u8 (phys_addr % 64) }

-- The `while` loop of `pmm_alloc_page` at digit `j`, with `left` rounds to go; `some none` when it
-- ends without a free digit.
pub scan_word : ℕ → ℕ → ℕ → Option (Option ℕ)
scan_word zero j w = some none
scan_word (suc left) j w =
    let rest = scan_word left (j + 1) w in
    mask_of j >>= λ mask. if bit_and w mask == 0 then some (some j) else rest

-- `map.bitmap[i] |= (1 << j)`.
pub mark : Map → ℕ → ℕ → Option Map
mark m i j = do
  w ← get_elem? m.bitmap i
  mask ← mask_of j
  some (record m { bitmap = set m.bitmap i (bit_or w mask) })

-- What the loop does with the digit that it found in word `i`; `rest` is the next round.
pub take_found : Map → ℕ → Option (ℕ × Map) → Option ℕ → Option (ℕ × Map)
take_found m i rest none = rest
take_found m i rest (some j) = mark m i j >>= λ m'. some (bitmap_to_paddr j i, m')

-- The `for` loop of `pmm_alloc_page` at word `i`, with `left` words to go.
pub alloc_from : ℕ → ℕ → Map → Option (ℕ × Map)
alloc_from zero i m = some (0, m)
alloc_from (suc left) i m =
    let rest = alloc_from left (i + 1) m in
    get_elem? m.bitmap i >>= λ w.
    if ltb w all_taken then scan_word 64 0 w >>= take_found m i rest else rest

-- The address of the page, 0 when there is none, and the new map.
pub alloc_page : Map → Option (ℕ × Map)
alloc_page m = alloc_from (m.num_pages / 64) 0 m

pub check_page_taken : ℕ → Map → Option Bool
check_page_taken paddr m = do
  let coords = paddr_to_bitmap paddr
  w ← get_elem? m.bitmap coords.y
  mask ← mask_of coords.x
  some (ltb 0 (bit_and w mask))

-- Whether the page was taken before, and the new map.
pub alloc_specific_page : ℕ → Map → Option (Bool × Map)
alloc_specific_page paddr m = do
  let coords = paddr_to_bitmap paddr
  w ← get_elem? m.bitmap coords.y
  mask ← mask_of coords.x
  if bit_and w mask == 0
      then (mark m coords.y coords.x >>= λ m'. some (false, m'))
      else some (true, m)

pub free_page : ℕ → Map → Option Map
free_page paddr m = do
  let coords = paddr_to_bitmap paddr
  w ← get_elem? m.bitmap coords.y
  mask ← mask_of coords.x
  some (record m { bitmap = set m.bitmap coords.y (bit_and w (bit_xor all_taken mask)) })
