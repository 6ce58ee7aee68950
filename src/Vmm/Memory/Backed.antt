-- ===== src/Vmm/Memory/Backed.antt =====
-- What backs a page of a region.
use titan_os.Base.{ℕ, ◌≡◌, ◌≢◌, ◌⊎◌, true, some, bit_or}
use titan_os.Pmm
use titan_os.Pmm.{Map}
use titan_os.Pmm.State.{IsValid}
use titan_os.Pmm.Alloc.{Allocates, alloc_page-Allocates}
use titan_os.Vmm.Paging.{get_index}
use titan_os.Vmm.Paging.Mapping.{Path3, mmap-Path3}
use titan_os.Vmm.Memory.{Memory, with_pages, ops, backing}

-- The free pages play no part in a path.
abbrev with_map : Map → Memory → Memory
with_map m t = with_pages (record t.pages { map = m }) t

Path3-with_map :
    (walk fuel : ℕ) {t : Memory} {root vaddr bottom : ℕ} (m : Map)
    → Path3 (ops walk fuel) t root vaddr bottom
    → Path3 (ops walk fuel) (with_map m t) root vaddr bottom
Path3-with_map walk fuel m p = record {
  table2 = p.table2;
  table1 = p.table1;
  present3 = p.present3;
  known3 = p.known3;
  present2 = p.present2;
  known2 = p.known2;
  present1 = p.present1;
  known1 = p.known1;
  some2 = p.some2;
  some1 = p.some1;
  some0 = p.some0;
}

-- Where the tables for an address are present and the map of the pages is valid, a round of the loop of
-- `vmm_alloc` is free of undefined behaviour and succeeds. The entry of the address in its table of
-- level 0 gets the page of `pmm_alloc_page`, the flags and 0x7; no other entry changes, and the tables
-- that are known stay so. With no free page it succeeds with page 0.
pub backing-Path3 :
    {t : Memory} (walk fuel vaddr flags bottom : ℕ)
    → IsValid t.pages.map
    → Path3 (ops walk fuel) t t.pages.current_pml4t_ptr vaddr bottom
    → (paddr : ℕ) × (m : Map) × (u : Memory) × ((backing walk fuel).back vaddr 0 flags t
        ≡ some (true, u))
      × (Pmm.alloc_page t.pages.map ≡ some (paddr, m))
      × Allocates t.pages.map paddr m
      × IsValid m
      × (u.entry bottom (get_index vaddr 0) ≡ bit_or (bit_or paddr flags) 0x7)
      × ((a i : ℕ) → (a ≢ bottom) ⊎ (i ≢ get_index vaddr 0) → u.entry a i ≡ t.entry a i)
      × (u.pages ≡ record t.pages { map = m })
unfolding backing
backing-Path3 {t} walk fuel vaddr flags bottom v p =
    let (paddr, m, page, valid, allocates) = alloc_page-Allocates v in
    let (u, run, entry, others, same) =
      mmap-Path3 (ops walk fuel) (with_map m t) t.pages.current_pml4t_ptr paddr vaddr flags bottom
        (Path3-with_map walk fuel m p) in
    (paddr, m, u, rw page run, page, allocates, valid, entry, others, same)
