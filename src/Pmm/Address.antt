-- ===== src/Pmm/Address.antt =====
-- The two translations between digits and addresses do not agree beyond the first word.
use titan_os.Base.{ℕ, ◌+◌, ◌*◌, ◌/◌, ◌%◌, ◌^◌, ◌<◌, ◌≡◌, arith}
use titan_os.Pmm.{bitmap_to_paddr, paddr_to_bitmap}

-- Digit `x` of word `y`, for the 32 digits that `pmm_alloc_page` hands out, has an address that
-- `paddr_to_bitmap` reads as a digit of word `y / 2`: a word stands for 64 pages there, and for 32 here.
pub paddr_to_bitmap-bitmap_to_paddr :
    (x y : ℕ)
    → x < 32
    → y < 2 ^ 15
    → paddr_to_bitmap (bitmap_to_paddr x y) ≡ record { y = y / 2; x = y % 2 * 32 + x }
unfolding paddr_to_bitmap bitmap_to_paddr
paddr_to_bitmap-bitmap_to_paddr x y p q = ground arith

-- Distinct digits below word 2 ^ 15 have distinct addresses; from there on the `uint32_t` sum wraps,
-- and the addresses repeat.
pub bitmap_to_paddr_injective :
    (x y x' y' : ℕ)
    → x < 32
    → x' < 32
    → y < 2 ^ 15
    → y' < 2 ^ 15
    → bitmap_to_paddr x y ≡ bitmap_to_paddr x' y'
    → (x ≡ x') × (y ≡ y')
unfolding bitmap_to_paddr
bitmap_to_paddr_injective x y x' y' a b c d e = omega arith

pub bitmap_to_paddr_wraps : (x y : ℕ) → bitmap_to_paddr x (y + 2 ^ 15) ≡ bitmap_to_paddr x y
unfolding bitmap_to_paddr
bitmap_to_paddr_wraps x y = omega arith
