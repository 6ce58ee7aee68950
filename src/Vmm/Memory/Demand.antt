-- ===== src/Vmm/Memory/Demand.antt =====
-- A page whose table is not there yet.
use titan_os.Base.{
  ℕ, suc, ◌%◌, ◌≡◌, ◌≢◌, sym, ap, ◌∙◌, true, some, ◌==◌, ==_self, ==_ne, if◌then◌else◌, bit_or,
}
use titan_os.PageTables.{get_ptbl_vaddr}
use titan_os.PageTables.State.{IsMap, IsEnough}
use titan_os.PageTables.Put.{known, get_ptbl_vaddr-known}
use titan_os.Vmm.Paging.{get_index, page_align_down, write_entry, descend, mmap}
use titan_os.Vmm.Paging.Mapping.{Path3}
use titan_os.Vmm.Memory.{Memory, ops}
use titan_os.Vmm.Memory.NewTable.{Ready, next_table, alloc_pg_table-Path3}

-- The tables of the levels 3 and 2 are present for an address, and its entry in the table of level 1 is
-- not.
pub record Path2 (walk : ℕ) (t : Memory) (root vaddr table1 : ℕ) : Type 0 where
  pub table2 : ℕ
  pub present3 : t.entry root (get_index vaddr 3) % 2 ≡ 1
  pub known3 :
      get_ptbl_vaddr walk (page_align_down (t.entry root (get_index vaddr 3))) t.pages.hashmap
      ≡ some table2
  pub present2 : t.entry table2 (get_index vaddr 2) % 2 ≡ 1
  pub known2 :
      get_ptbl_vaddr walk (page_align_down (t.entry table2 (get_index vaddr 2))) t.pages.hashmap
      ≡ some table1
  pub absent1 : t.entry table1 (get_index vaddr 1) % 2 ≡ 0
  pub some2 : table2 ≢ 0
  pub some1 : table1 ≢ 0

-- When only the table of level 0 is missing for an address, and `alloc_pg_table` can map a table, `mmap`
-- is free of undefined behaviour and succeeds. The entry of level 1 names the new table, by its
-- physical address and 0x7, the new table has the page with its flags, and its other entries are 0. The
-- new table is known, and no other table's address changes.
pub mmap-makes_table :
    {walk : ℕ} {t : Memory} (r : Ready (suc walk) t)
    → IsEnough r.valid walk
    → (fuel bottom paddr vaddr flags table1 : ℕ)
    → Path3 (ops (suc walk) fuel) t t.pages.current_pml4t_ptr (next_table r) bottom
    → bottom ≢ next_table r
    → next_table r ≢ 0
    → table1 ≢ next_table r
    → Path2 (suc walk) t t.pages.current_pml4t_ptr vaddr table1
    → (w : Memory) × (mmap (ops (suc walk) (suc fuel)) t.pages.current_pml4t_ptr paddr vaddr flags t
        ≡ some (true, w))
      × (w.entry table1 (get_index vaddr 1) ≡ bit_or r.paddr 0x7)
      × (w.entry (next_table r) (get_index vaddr 0) ≡ bit_or (bit_or paddr flags) 0x7)
      × ((i : ℕ) → i ≢ get_index vaddr 0 → w.entry (next_table r) i ≡ 0)
      × (v : IsMap w.pages.hashmap) × ((q : ℕ)
          → known v q ≡ (if q == r.paddr then next_table r else known r.valid q))
unfolding mmap descend
mmap-makes_table {walk} {t} r enough fuel bottom paddr vaddr flags table1 p apart there other p2 =
    let new = next_table r in
    let (u, run, _, _, _, _, _, zeros, _, _, v, finds, grows) =
      alloc_pg_table-Path3 r fuel bottom p apart in
    let known_new : get_ptbl_vaddr (suc walk) r.paddr u.pages.hashmap ≡ some new =
      get_ptbl_vaddr-known v (suc walk) r.paddr (grows walk enough)
      ∙ ap some (finds r.paddr ∙ rw (==_self r.paddr)) in
    let i1 = get_index vaddr 1 in
    let i0 = get_index vaddr 0 in
    let linked = write_entry table1 i1 (bit_or r.paddr 0x7) u in
    (
      write_entry new i0 (bit_or (bit_or paddr flags) 0x7) linked,
      rw (
        p2.present3,
        p2.known3,
        ==_ne p2.table2 0 p2.some2,
        p2.present2,
        p2.known2,
        ==_ne table1 0 p2.some1,
        p2.absent1,
        run,
        known_new,
        ==_ne new 0 there,
        ==_ne new 0 there,
      ),
      rw (==_ne table1 new other, ==_self table1, ==_self i1),
      rw (==_self new, ==_self i0),
      (λ i ne. rw (==_self new, ==_ne i i0 ne, ==_ne new table1 (λ e. other (sym e))) (zeros i)),
      v,
      finds,
    )
