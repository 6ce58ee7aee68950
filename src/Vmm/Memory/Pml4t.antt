-- ===== src/Vmm/Memory/Pml4t.antt =====
-- The tables of a new address space.
use titan_os.Base.{ℕ, suc, ◌≡◌, ◌≢◌, inl, refl, ap, ◌∙◌, some, ==_self, ==_ne}
use titan_os.PageTables.{get_ptbl_vaddr}
use titan_os.PageTables.State.{IsEnough}
use titan_os.PageTables.Put.{get_ptbl_vaddr-known}
use titan_os.Vmm.Paging.{write_entry}
use titan_os.Vmm.Paging.Mapping.{Path3}
use titan_os.Vmm.Memory.{Memory, with_pages, ops, create_new_pml4t, load_pml4t}
use titan_os.Vmm.Memory.NewTable.{Ready, next_table, alloc_pg_table-Path3}

-- Where `alloc_pg_table` can map a table, `create_new_pml4t` is free of undefined behaviour: the last
-- entry of the new table is that of the current one, so that both spaces share the kernel's half, and
-- its other entries are 0. After `switch_vm_space` to it the new table is the current one.
pub create_new_pml4t-shares :
    {walk : ℕ} {t : Memory} (r : Ready (suc walk) t)
    → IsEnough r.valid walk
    → (fuel bottom : ℕ)
    → Path3 (ops (suc walk) fuel) t t.pages.current_pml4t_ptr (next_table r) bottom
    → bottom ≢ next_table r
    → next_table r ≢ 0
    → t.pages.current_pml4t_ptr ≢ next_table r
    → t.pages.current_pml4t_ptr ≢ bottom
    → (u u' : Memory) × (create_new_pml4t (suc walk) (suc fuel) t ≡ some (r.paddr, u))
      × (u.entry (next_table r) 511 ≡ t.entry t.pages.current_pml4t_ptr 511)
      × ((i : ℕ) → i ≢ 511 → u.entry (next_table r) i ≡ 0)
      × ((i : ℕ) → u.entry t.pages.current_pml4t_ptr i ≡ t.entry t.pages.current_pml4t_ptr i)
      × (load_pml4t (suc walk) r.paddr u ≡ some u')
      × (u'.pages.current_pml4t_ptr ≡ next_table r)
      × (u'.pages.cr3 ≡ r.paddr)
unfolding create_new_pml4t load_pml4t
create_new_pml4t-shares {walk} {t} r enough fuel bottom p apart there far far' =
    let root = t.pages.current_pml4t_ptr in
    let new = next_table r in
    let (u, run, _, _, same_root, _, _, zeros, _, others, v, finds, grows) =
      alloc_pg_table-Path3 r fuel bottom p apart in
    let known_new : get_ptbl_vaddr (suc walk) r.paddr u.pages.hashmap ≡ some new =
      get_ptbl_vaddr-known v (suc walk) r.paddr (grows walk enough)
      ∙ ap some (finds r.paddr ∙ rw (==_self r.paddr)) in
    let w = write_entry new 511 (u.entry u.pages.current_pml4t_ptr 511) u in
    (
      w,
      with_pages (record u.pages { cr3 = r.paddr; current_pml4t_ptr = new }) w,
      rw (run, known_new, ==_ne new 0 there),
      rw (==_self new) (rw same_root (others root 511 far (inl far'))),
      (λ i ne. rw (==_self new, ==_ne i 511 ne) (zeros i)),
      (λ i. rw (==_ne root new far) (others root i far (inl far'))),
      rw known_new,
      refl,
      refl,
    )
