-- ===== src/Vmm/Memory/Tests.antt =====
-- Page tables on demand in a small memory.
use titan_os.Vmm.Spaces.{kernel_page_tbl_start}
use titan_os.Base.{
  ℕ, u64, ◌*◌, true, suc, ◌≡◌, ◌≢◌, ◌⊎◌, refl, none, some, List, [], ◌∷◌, ◌==◌, bit_or, arith,
  if◌then◌else◌,
}
use titan_os.Base.{length, ◌<◌, ◌≤◌, ◌+◌}
use titan_os.Pmm.{Map}
use titan_os.Pmm.State.{IsValid}
use titan_os.Pmm.Sample.{three_taken-IsValid}
use titan_os.Vmm.Regions.{back_pages}
use titan_os.Vmm.Memory.{backing}
use titan_os.Vmm.Memory.Window.{Reaches, Paths, HasPages, alloc_pages, back_pages-alloc_pages}
use titan_os.Pmm.Sample.{three_taken, four_taken, alloc_page-three_taken}
use titan_os.PageTables.{Hashmap, get_ptbl_vaddr}
use titan_os.PageTables.Sample.{two, two-IsMap, two-IsEnough}
use titan_os.PageTables.State.{IsMap, IsEnough}
use titan_os.PageTables.Put.{known, get_ptbl_vaddr-known}
use titan_os.Vmm.Paging.{get_index, mmap}
use titan_os.Vmm.Paging.Mapping.{Path3}
use titan_os.Vmm.Memory.{Memory, ops, alloc_pg_table, create_new_pml4t, load_pml4t, init_tables}
use titan_os.Vmm.Memory.NewTable.{Ready, alloc_pg_table-Path3}
use titan_os.Vmm.Memory.Start.{assoc, init_tables-known}
use titan_os.Vmm.Memory.Nested.{Missing, Full, alloc_pg_table-nested}
use titan_os.Vmm.Memory.Demand.{Path2, mmap-makes_table}
use titan_os.Vmm.Memory.Pml4t.{create_new_pml4t-shares}

-- The root at 0x8000 leads to the table at 0xb000, and all other tables to the one at 0xa000.
abbrev memory : Memory
memory = record {
  entry = λ a i. if a == 0x8000 then 0x6007 else 0x1007;
  pages = record {
    map = three_taken;
    hashmap = two;
    page_tbls_length = 0x6000;
    current_pml4t_ptr = 0x8000;
    cr3 = 0x9000;
    fresh = 7 ∷ [];
  };
}

abbrev memory-Ready : Ready 4 memory
memory-Ready = record {
  valid = two-IsMap;
  enough = λ c lt. omega (arith, two-IsEnough c lt);
  none_freed = refl;
  node = 7;
  rest = [];
  next_node = refl;
  real = omega arith;
  unused = refl;
  paddr = 0x3000;
  map = four_taken;
  page = alloc_page-three_taken;
  there = omega arith;
  unknown = tt;
}

memory-Path3 : (vaddr : ℕ) → Path3 (ops 4 1) memory 0x8000 vaddr 0xa000
unfolding titan_os.PageTables.Lookup.find
memory-Path3 vaddr = record {
  table2 = 0xb000;
  table1 = 0xa000;
  present3 = refl;
  known3 = get_ptbl_vaddr-known two-IsMap 4 0x6000 (λ c lt. omega (arith, two-IsEnough c lt));
  present2 = refl;
  known2 = get_ptbl_vaddr-known two-IsMap 4 0x1000 (λ c lt. omega (arith, two-IsEnough c lt));
  present1 = refl;
  known1 = get_ptbl_vaddr-known two-IsMap 4 0x1000 (λ c lt. omega (arith, two-IsEnough c lt));
  some2 = omega arith;
  some1 = omega arith;
  some0 = omega arith;
}

abbrev new : ℕ
new = 0xffffff8000307000

alloc_pg_table-Path3_example :
    (u : Memory) × (alloc_pg_table 4 2 memory ≡ some (0x3000, u))
    × (u.pages.map ≡ four_taken)
    × (u.pages.page_tbls_length ≡ 0x7000)
    × (u.pages.current_pml4t_ptr ≡ 0x8000)
    × (u.pages.cr3 ≡ 0x9000)
    × (u.pages.fresh ≡ [])
    × ((i : ℕ) → u.entry new i ≡ 0)
    × (u.entry 0xa000 (get_index new 0) ≡ bit_or (bit_or 0x3000 0) 0x7)
    × ((a i : ℕ) → a ≢ new → (a ≢ 0xa000) ⊎ (i ≢ get_index new 0) → u.entry a i ≡ memory.entry a i)
    × (v : IsMap u.pages.hashmap) × ((q : ℕ)
        → known v q ≡ (if q == 0x3000 then new else known two-IsMap q))
    × ((n : ℕ) → IsEnough two-IsMap n → IsEnough v (suc n))
alloc_pg_table-Path3_example =
    alloc_pg_table-Path3 memory-Ready 1 0xa000 (memory-Path3 new) (omega arith)

create_new_pml4t-shares_example :
    (u u' : Memory) × (create_new_pml4t 4 2 memory ≡ some (0x3000, u))
    × (u.entry new 511 ≡ 0x6007)
    × ((i : ℕ) → i ≢ 511 → u.entry new i ≡ 0)
    × ((i : ℕ) → u.entry 0x8000 i ≡ 0x6007)
    × (load_pml4t 4 0x3000 u ≡ some u')
    × (u'.pages.current_pml4t_ptr ≡ new)
    × (u'.pages.cr3 ≡ 0x3000)
create_new_pml4t-shares_example =
    create_new_pml4t-shares memory-Ready two-IsEnough 1 0xa000 (memory-Path3 new) (omega arith)
      (omega arith) (omega arith) (omega arith)

-- Memory before the map is made.
abbrev early : Memory
early = record memory {
  pages = record (memory.pages) {
    hashmap = record { nodes = λ p. none; buckets = none; tables = 0 };
    fresh = 1 ∷ 2 ∷ [];
  };
}

abbrev boot_tables : List (ℕ × ℕ)
boot_tables = (0xffffff8000001000, 0x101000) ∷ (0xffffff8000002000, 0x102000) ∷ []

init_tables-known_example :
    (u : Memory) × (init_tables 2 boot_tables early ≡ some u)
    × (v : IsMap u.pages.hashmap) × ((q : ℕ) → known v q ≡ assoc boot_tables q 0)
init_tables-known_example =
    init_tables-known 2 boot_tables early refl (omega arith) (omega arith)
      (omega arith, refl, (omega arith, tt), (omega arith, refl, tt, tt))
      ((omega arith, tt), (tt, tt))

two-lookups :
    (get_ptbl_vaddr 4 0x6000 two ≡ some 0xb000) × (get_ptbl_vaddr 4 0x1000 two ≡ some 0xa000)
unfolding titan_os.PageTables.Lookup.find
two-lookups = (
  get_ptbl_vaddr-known two-IsMap 4 0x6000 (λ c lt. omega (arith, two-IsEnough c lt)),
  get_ptbl_vaddr-known two-IsMap 4 0x1000 (λ c lt. omega (arith, two-IsEnough c lt)),
)

-- The same memory when the next table lies at the start of 2 MiB without a table of level 0.
abbrev full : Memory
full = record memory {
  entry = λ a i. if a == 0x8000 then 0x6007 else if i == 2 then 0 else 0x6007;
  pages = record (memory.pages) { page_tbls_length = 0xff000 };
}

-- The indices of the next 512 addresses.
next_indices :
    (k : ℕ)
    → k < 512
    → (get_index (u64 (kernel_page_tbl_start + u64 (0xff000 + 0x1000 * suc k))) 2 ≡ 0)
      × (get_index (u64 (kernel_page_tbl_start + u64 (0xff000 + 0x1000 * suc k))) 1 ≡ 2)
unfolding get_index
next_indices k lt = (omega arith, omega arith)

full-Full : Full 4 512 full
unfolding titan_os.PageTables.Lookup.find
full-Full = record {
  valid = two-IsMap;
  enough = λ c lt. omega (arith, two-IsEnough c lt);
  none_freed = refl;
  unused = (omega arith, refl, tt, tt);
  no_null = refl;
  missing = λ k lt.
      let (high, low) = next_indices k lt in
      Missing.below {next = 0xb000} refl two-lookups.0 (omega arith) (
        Missing.below {next = 0xb000} (rw high) (rw high two-lookups.0) (omega arith)
          (Missing.absent (rw low)));
}

alloc_pg_table-nested_example : alloc_pg_table 4 500 full ≡ none
alloc_pg_table-nested_example =
    alloc_pg_table-nested 4 512 500 0x3000 four_taken full (omega arith) full-Full
      alloc_page-three_taken (omega arith)

-- The same memory without a table of level 0 for 0x400000.
abbrev partial : Memory
partial = record memory {
  entry = λ a i. if a == 0x8000 then 0x6007 else if i == 2 then 0 else 0x1007;
}

abbrev partial-Ready : Ready 4 partial
partial-Ready = record {
  valid = two-IsMap;
  enough = λ c lt. omega (arith, two-IsEnough c lt);
  none_freed = refl;
  node = 7;
  rest = [];
  next_node = refl;
  real = omega arith;
  unused = refl;
  paddr = 0x3000;
  map = four_taken;
  page = alloc_page-three_taken;
  there = omega arith;
  unknown = tt;
}

partial-Path3 : Path3 (ops 4 1) partial 0x8000 new 0xa000
unfolding get_index
partial-Path3 = record {
  table2 = 0xb000;
  table1 = 0xa000;
  present3 = refl;
  known3 = two-lookups.0;
  present2 = refl;
  known2 = two-lookups.1;
  present1 = refl;
  known1 = two-lookups.1;
  some2 = omega arith;
  some1 = omega arith;
  some0 = omega arith;
}

partial-Path2 : Path2 4 partial 0x8000 0x400000 0xa000
unfolding get_index
partial-Path2 = record {
  table2 = 0xb000;
  present3 = refl;
  known3 = two-lookups.0;
  present2 = refl;
  known2 = two-lookups.1;
  absent1 = refl;
  some2 = omega arith;
  some1 = omega arith;
}

mmap-makes_table_example :
    (w : Memory) × (mmap (ops 4 2) 0x8000 0x7000 0x400000 3 partial ≡ some (true, w))
    × (w.entry 0xa000 (get_index 0x400000 1) ≡ bit_or 0x3000 0x7)
    × (w.entry new (get_index 0x400000 0) ≡ bit_or (bit_or 0x7000 3) 0x7)
    × ((i : ℕ) → i ≢ get_index 0x400000 0 → w.entry new i ≡ 0)
    × (v : IsMap w.pages.hashmap) × ((q : ℕ)
        → known v q ≡ (if q == 0x3000 then new else known two-IsMap q))
mmap-makes_table_example =
    mmap-makes_table partial-Ready two-IsEnough 1 0xa000 0x7000 0x400000 3 0xa000 partial-Path3
      (omega arith) (omega arith) (omega arith) partial-Path2

-- The same memory with one table for the levels 2 and 1.
abbrev shared : Memory
shared = record memory {
  entry = λ a i. if a == 0x8000 then 0x6007 else if i == 2 then 0x1007 else 0x6007;
}

shared-Reaches :
    (vaddr : ℕ) → get_index vaddr 2 ≡ 0 → get_index vaddr 1 ≡ 2 → Reaches 4 1 shared vaddr 0xa000
shared-Reaches vaddr high low = record {
  path = record {
    table2 = 0xb000;
    table1 = 0xb000;
    present3 = refl;
    known3 = two-lookups.0;
    present2 = rw high;
    known2 = rw high two-lookups.0;
    present1 = rw low;
    known1 = rw low two-lookups.1;
    some2 = omega arith;
    some1 = omega arith;
    some0 = omega arith;
  };
  apart3 = omega arith;
  apart2 = omega arith;
  apart1 = omega arith;
}

two_pages : Paths 4 1 shared 0xa000 2 0x400000 0
unfolding get_index
two_pages = (shared-Reaches 0x400000 refl refl, refl, (shared-Reaches 0x401000 refl refl, refl, tt))

back_pages-alloc_pages_example :
    (paddrs : List ℕ) × (m : Map) × (u : Memory) × (alloc_pages 2 three_taken ≡ some (paddrs, m))
    × (back_pages (backing 4 1) 2 0x400000 0 3 shared ≡ some (true, u))
    × (length paddrs ≡ 2)
    × HasPages u 0xa000 3 0 paddrs
    × ((a i : ℕ) → (a ≢ 0xa000) ⊎ ((i < 0) ⊎ (0 + 2 ≤ i)) → u.entry a i ≡ shared.entry a i)
    × (u.pages ≡ record (shared.pages) { map = m })
    × IsValid m
back_pages-alloc_pages_example =
    back_pages-alloc_pages 4 1 3 0xa000 2 0x400000 0 three_taken-IsValid two_pages
