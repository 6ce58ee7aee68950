-- ===== src/Vmm/Spaces/Mmio.antt =====
-- The memory of devices, from the console's buffer up to the bit map of the physical memory manager.
use titan_os.Base.{
  ℕ, ◌+◌, ◌-◌, ◌^◌, ◌≡◌, ◌<◌, ◌≤◌, ◌%◌, ◌/◌, ==_ne, true, refl, ◌++◌, [], ◌∙◌, ap, none, some, List,
  ◌∷◌, u64, bit_or, arith,
}
use titan_os.Vmm.Regions.{Region, Backing, page_align, vmm_alloc, insert_at, back_pages}
use titan_os.Vmm.Spaces.Placement.{
  Behind, Behind-append, Behind-le, insert_at-Behind, insert_at-taken, alloc-backs,
}
use titan_os.Vmm.Paging.{page_align_down}
use titan_os.Vmm.Spaces.{vm_flag_mmio, Space, alloc, alloc_mmio, get_mmio_ptr}

-- When the next address for devices is where a region starts, such as the bit map, `alloc_mmio` of less
-- than what lies between that address and the region behind succeeds without a backing: it returns the
-- address, and no page is asked for or mapped.
pub alloc_mmio_collides :
    {M : Type 0} (backing : Backing M) (phys length flags : ℕ) (r : Region) (rs : List Region)
    (p n : Region) (ps : List Region) (s : Space M)
    → s.regions ≡ r ∷ (rs ++ (p ∷ n ∷ ps))
    → Behind p.base (r ∷ rs)
    → s.mmio_region ≡ p.base
    → p.base % 0x1000 ≡ 0
    → 0 < p.base
    → 0 < p.length
    → p.base + p.length < 2 ^ 64
    → p.base + page_align length < n.base
    → n.base < 2 ^ 64
    → alloc_mmio backing phys length flags s
      ≡ some (p.base, record s { mmio_region = p.base + page_align length })
unfolding alloc_mmio get_mmio_ptr alloc vmm_alloc
alloc_mmio_collides backing phys length flags r rs p n ps s regions all at aligned positive some_
      fits room top =
    let full = page_align length in
    let refused : insert_at p.base full (bit_or vm_flag_mmio flags) s.regions ≡ none =
      ap (insert_at p.base full (bit_or vm_flag_mmio flags)) regions
      ∙ insert_at-taken full (bit_or vm_flag_mmio flags) r rs p n ps all some_ fits room top in
    let next : u64 (s.mmio_region + full) ≡ p.base + full = omega arith in
    let found : u64 (p.base + full + 2 ^ 64 - full) ≡ p.base = omega arith in
    let same : page_align_down p.base ≡ p.base = omega arith in
    rw (
      alloc_mmio,
      get_mmio_ptr,
      next,
      found,
      alloc,
      vmm_alloc,
      same,
      ==_ne p.base 0 (omega arith),
      refused,
      get_mmio_ptr,
      next,
      found,
    )

-- The regions of the space are some that end at the next address for
-- devices or before it, then others from a region `n` on. Where a device's memory fits in front of `n`
-- and its pages are backed, `alloc_mmio` succeeds: it returns that address, puts a region of whole pages there, and leaves the
-- next address behind it, so that no two devices share a page.
pub alloc_mmio-next :
    {M : Type 0} (backing : Backing M) (phys length flags : ℕ) (r : Region) (rs : List Region)
    (n : Region) (ps : List Region) (s : Space M) (m : M)
    → s.regions ≡ r ∷ (rs ++ (n ∷ ps))
    → Behind s.mmio_region (r ∷ rs)
    → s.mmio_region % 0x1000 ≡ 0
    → 0 < s.mmio_region
    → s.mmio_region < n.base
    → s.mmio_region + page_align length ≤ n.base
    → n.base < 2 ^ 64
    → back_pages backing
        ((page_align length + 0xfff) / 0x1000)
        s.mmio_region
        (page_align_down phys)
        (bit_or vm_flag_mmio flags)
        s.pages
      ≡ some (true, m)
    → (t : Space M) × (new : Region) × (alloc_mmio backing phys length flags s
        ≡ some (s.mmio_region, t))
      × (t.regions ≡ r ∷ (rs ++ (new ∷ n ∷ ps)))
      × (new.base ≡ s.mmio_region)
      × (new.base + new.length ≡ t.mmio_region)
      × (t.mmio_region ≡ s.mmio_region + page_align length)
      × Behind t.mmio_region (r ∷ (rs ++ (new ∷ [])))
unfolding alloc_mmio get_mmio_ptr
alloc_mmio-next backing phys length flags r rs n ps s m regions all aligned positive below fits top
      backs =
    let full = page_align length in
    let f = bit_or vm_flag_mmio flags in
    let new : Region = record { base = s.mmio_region; length = full; flags = f } in
    let there : insert_at s.mmio_region full f s.regions ≡ some (r ∷ (rs ++ (new ∷ n ∷ ps))) =
      ap (insert_at s.mmio_region full f) regions
      ∙ insert_at-Behind s.mmio_region full f r rs n ps all below top in
    let next : u64 (s.mmio_region + full) ≡ s.mmio_region + full = omega arith in
    let found : u64 (s.mmio_region + full + 2 ^ 64 - full) ≡ s.mmio_region = omega arith in
    let s1 = record s { mmio_region = s.mmio_region + full } in
    let run =
      alloc-backs backing s.mmio_region length f phys (r ∷ (rs ++ (new ∷ n ∷ ps))) s1 m aligned
        positive there backs in
    (
      record s1 { regions = r ∷ (rs ++ (new ∷ n ∷ ps)); pages = m },
      new,
      rw (alloc_mmio, get_mmio_ptr, next, found, run, get_mmio_ptr, next, found),
      refl,
      refl,
      refl,
      refl,
      Behind-append (s.mmio_region + full) (r ∷ rs) new
          (Behind-le s.mmio_region (s.mmio_region + full) (r ∷ rs) all (omega arith)) (omega arith),
    )
