-- ===== src/Heap/Bytes.antt =====
-- Reading back what was written to the bytes of a header.
use titan_os.Base.{
  ℕ, ◌+◌, ◌/◌, ◌^◌, ◌≡◌, ◌<◌, ◌≤◌, ◌⊎◌, refl, Bool, true, false, not, ◌==◌, ==_ne, ==_self,
  if◌then◌else◌, u8, arith,
}
use titan_os.Heap.{Memory, Region, read_region, read_size, write_region}

write_region-used :
    (a : ℕ) (r : Region) (m : Memory) → write_region a r m a ≡ (if r.used then 1 else 0)
unfolding write_region
write_region-used a r m = rw (==_self a)

write_region_other :
    (a b : ℕ) (r : Region) (m : Memory) → (b < a) ⊎ (a + 5 ≤ b) → write_region a r m b ≡ m b
unfolding write_region
write_region_other a b r m far = rw (
  ==_ne b a (omega arith),
  ==_ne b (a + 1) (omega arith),
  ==_ne b (a + 2) (omega arith),
  ==_ne b (a + 3) (omega arith),
  ==_ne b (a + 4) (omega arith),
)

used_byte : (b : Bool) → not (u8 (if b then 1 else 0) == 0) ≡ b
used_byte true = refl
used_byte false = refl

module _ (a : ℕ) (r : Region) (m : Memory) where
  byte1 : (b : ℕ) → b ≡ a + 1 → write_region a r m b ≡ u8 r.size
  unfolding write_region
  byte1 b e = rw (e, ==_ne (a + 1) a (omega arith), ==_self (a + 1))

  byte2 : (b : ℕ) → b ≡ a + 2 → write_region a r m b ≡ u8 (r.size / 2 ^ 8)
  unfolding write_region
  byte2 b e =
      rw (e, ==_ne (a + 2) a (omega arith), ==_ne (a + 2) (a + 1) (omega arith), ==_self (a + 2))

  byte3 : (b : ℕ) → b ≡ a + 3 → write_region a r m b ≡ u8 (r.size / 2 ^ 16)
  unfolding write_region
  byte3 b e = rw (
    e,
    ==_ne (a + 3) a (omega arith),
    ==_ne (a + 3) (a + 1) (omega arith),
    ==_ne (a + 3) (a + 2) (omega arith),
    ==_self (a + 3),
  )

  byte4 : (b : ℕ) → b ≡ a + 4 → write_region a r m b ≡ u8 (r.size / 2 ^ 24)
  unfolding write_region
  byte4 b e = rw (
    e,
    ==_ne (a + 4) a (omega arith),
    ==_ne (a + 4) (a + 1) (omega arith),
    ==_ne (a + 4) (a + 2) (omega arith),
    ==_ne (a + 4) (a + 3) (omega arith),
    ==_self (a + 4),
  )

  read_size-write_region : r.size < 2 ^ 32 → read_size (write_region a r m) (a + 1) ≡ r.size
  unfolding read_size
  read_size-write_region lt =
      rw
        (
          byte1 (a + 1) (omega arith),
          byte2 (a + 1 + 1) (omega arith),
          byte3 (a + 1 + 2) (omega arith),
          byte4 (a + 1 + 3) (omega arith),
        )
        (omega arith)

  -- A header that fits is read back.
  pub read_region-write_region : r.size < 2 ^ 32 → read_region (write_region a r m) a ≡ r
  unfolding read_region
  read_region-write_region lt =
      rw (read_size-write_region lt, write_region-used a r m, used_byte r.used)

  -- A header elsewhere is read as before.
  pub read_region-write_other :
      (b : ℕ) → (b + 5 ≤ a) ⊎ (a + 5 ≤ b) → read_region (write_region a r m) b ≡ read_region m b
  unfolding read_region read_size
  read_region-write_other b far = rw (
    write_region_other a b r m (omega arith),
    write_region_other a (b + 1) r m (omega arith),
    write_region_other a (b + 1 + 1) r m (omega arith),
    write_region_other a (b + 1 + 2) r m (omega arith),
    write_region_other a (b + 1 + 3) r m (omega arith),
  )
