-- ===== src/Vmm/Paging/Mapping.antt =====
-- What `mmap` and `umap` do to the page tables.
use titan_os.Base.{
  ℕ, zero, suc, ◌-◌, ◌%◌, ◌≡◌, ◌≢◌, ◌⊎◌, inl, inr, refl, true, some, ==_ne, ==_self, bit_or, arith,
}
use native.Mathlib.Decide.{ℕ_discrete}
use titan_os.Vmm.Paging.{
  Tables, PageOps, get_index, page_align_down, write_entry, descend, mmap, umap, umap_loop,
}

sub_self : (n : ℕ) → n - n ≡ 0
sub_self n = omega arith

umap_loop-zero :
    {M : Type 0} (ops : PageOps M) (level i table virt start end : ℕ) (t : Tables M)
    → umap_loop ops level zero i table virt start end t ≡ some t
unfolding umap_loop
umap_loop-zero ops zero i table virt start end t = refl
umap_loop-zero ops (suc level) i table virt start end t = refl

-- `umap` at any level changes no entry and frees no page and no table, since its loop ends at the
-- index of the region's start: whatever the tables hold, the state after it is the state before it.
pub umap-same :
    {M : Type 0} (ops : PageOps M) (table virt level start end : ℕ) (t : Tables M)
    → umap ops table virt level start end t ≡ some t
unfolding umap
umap-same ops table virt level start end t =
    rw (sub_self (get_index start level))
      (umap_loop-zero ops level (get_index start level) table virt start end t)

-- The three steps from a root table to the table of level 0 for an address pass present entries, whose
-- tables are known.
pub record Path3 {M : Type 0} (ops : PageOps M) (t : Tables M) (root vaddr bottom : ℕ)
    : Type 0 where
  pub table2 : ℕ
  pub table1 : ℕ
  pub present3 : t.entry root (get_index vaddr 3) % 2 ≡ 1
  pub known3 :
      ops.get_ptbl_vaddr (page_align_down (t.entry root (get_index vaddr 3))) t.pages ≡ some table2
  pub present2 : t.entry table2 (get_index vaddr 2) % 2 ≡ 1
  pub known2 :
      ops.get_ptbl_vaddr (page_align_down (t.entry table2 (get_index vaddr 2))) t.pages
      ≡ some table1
  pub present1 : t.entry table1 (get_index vaddr 1) % 2 ≡ 1
  pub known1 :
      ops.get_ptbl_vaddr (page_align_down (t.entry table1 (get_index vaddr 1))) t.pages
      ≡ some bottom
  pub some2 : table2 ≢ 0
  pub some1 : table1 ≢ 0
  pub some0 : bottom ≢ 0

-- Where the tables for an address are present, `mmap` succeeds without making a table, and changes one
-- entry, that of the address in its table of level 0, to the physical address, the flags
-- and 0x7, put together by `or`.
pub mmap-Path3 :
    {M : Type 0} (ops : PageOps M) (t : Tables M) (root paddr vaddr flags bottom : ℕ)
    → Path3 ops t root vaddr bottom
    → (u : Tables M) × (mmap ops root paddr vaddr flags t ≡ some (true, u))
      × (u.entry bottom (get_index vaddr 0) ≡ bit_or (bit_or paddr flags) 0x7)
      × ((a i : ℕ) → (a ≢ bottom) ⊎ (i ≢ get_index vaddr 0) → u.entry a i ≡ t.entry a i)
      × (u.pages ≡ t.pages)
unfolding mmap descend
mmap-Path3 ops t root paddr vaddr flags bottom p =
    let i = get_index vaddr 0 in
    (
      write_entry bottom i (bit_or (bit_or paddr flags) 0x7) t,
      rw (
        p.present3,
        p.known3,
        ==_ne p.table2 0 p.some2,
        p.present2,
        p.known2,
        ==_ne p.table1 0 p.some1,
        p.present1,
        p.known1,
        ==_ne bottom 0 p.some0,
        ==_ne bottom 0 p.some0,
      ),
      rw (==_self bottom, ==_self i),
      (λ a j ne. elim (ℕ_discrete a bottom) [
        | no other ↦ rw (==_ne a bottom other)
        | yes same ↦ elim ne [
          | inl other ↦ absurd (other same)
          | inr other ↦ rw (same, ==_self bottom, ==_ne j i other)
        ]
      ]),
      refl,
    )
