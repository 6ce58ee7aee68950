-- ===== src/Vmm/Memory.antt =====
-- Page tables on demand: `alloc_pg_table` of src/kernel/mm/vmm_hashmap.c, and the parts of
-- src/kernel/mm/vmm.c that join it with the physical pages, the page table map and the walks of
-- Vmm.Paging. `none` is undefined behaviour, or that `fuel`, the depth to which `mmap` and
-- `alloc_pg_table` call each other, or `walk`, the fuel of the page table map, ran out.
pub mod NewTable
pub mod Start
pub mod Pml4t
pub mod Nested
pub mod Demand
pub mod Backed
pub mod Window
mod Tests
use titan_os.Base.{
  ℕ, zero, suc, ◌+◌, ◌*◌, ◌^◌, Bool, true, false, Option, none, some, List, [], ◌∷◌, ◌==◌,
  if◌then◌else◌, u64, ◌>>=◌,
}
use titan_os.Pmm
use titan_os.PageTables.{Ptr, Node, Hashmap, write, pg_tbl_insert, get_freed_pg_tbl}
use titan_os.PageTables
use titan_os.Vmm.Paging.{Tables, PageOps, write_entry, mmap}
use titan_os.Vmm.Regions.{Region, Backing}
use titan_os.Vmm.Spaces.{kernel_page_tbl_start, space_head}

-- The bit map, the page table map, `kernel_page_tbls_obj.length`, `current_pml4t_ptr`, the register cr3,
-- and the nodes that `kmalloc` will return.
pub record Pages : Type 0 where
  pub map : Pmm.Map
  pub hashmap : Hashmap
  pub page_tbls_length : ℕ
  pub current_pml4t_ptr : ℕ
  pub cr3 : ℕ
  pub fresh : List Ptr

abbrev pub Memory : Type 0
Memory = Tables Pages

abbrev pub with_pages : Pages → Memory → Memory
with_pages p t = record t { pages = p }

-- `memset(vaddr, 0, PAGE_SIZE)` of a table.
abbrev pub clear_table : ℕ → Memory → Memory
clear_table vaddr t = record t { entry = λ (a b : ℕ). if a == vaddr then 0 else t.entry a b }

abbrev pub zero_node : Node
zero_node = record { pt_vaddr = 0; pt_paddr = 0; used = false; next = 0 }

-- The part of `alloc_pg_table` for a new node; without a node it returned NULL.
pub new_table : PageOps Pages → Memory → Option (Option Ptr × Memory)
new_table ops t = elim t.pages.fresh [
  | [] ↦ none
  | node ∷ rest ↦ do
    (paddr, map) ← Pmm.alloc_page t.pages.map
    let p = t.pages
    let h = p.hashmap
    let length = u64 (p.page_tbls_length + 0x1000)
    let vaddr = u64 (kernel_page_tbl_start + length)
    let new = record zero_node { pt_vaddr = vaddr; pt_paddr = paddr }
    if paddr == 0
        then some (
          none,
          with_pages
              (record p {
                map = map;
                fresh = rest;
                hashmap = record h { nodes = write h.nodes node zero_node };
              })
              t,
        )
        else (mmap ops p.current_pml4t_ptr paddr vaddr 0 (
              with_pages
                (record p {
                  map = map;
                  fresh = rest;
                  hashmap = record h { nodes = write h.nodes node new };
                  page_tbls_length = length;
                })
                t)
            >>= λ (ok, u). some ((if ok then some node else none), u))
]

module _ (walk : ℕ) where
  -- The end of `alloc_pg_table`: the table is cleared and entered into the map.
  pub enter_table : Memory → Option Ptr → Option (ℕ × Memory)
  enter_table t none = some (0, t)
  enter_table t (some node) = do
    n ← t.pages.hashmap.nodes node
    (linked, h) ← pg_tbl_insert walk node t.pages.hashmap
    some (
      (if linked then n.pt_paddr else 0),
      with_pages (record t.pages { hashmap = h }) (clear_table n.pt_vaddr t),
    )

  abbrev pub ops_of : (Memory → Option (ℕ × Memory)) → PageOps Pages
  ops_of alloc = record {
    alloc_pg_table = alloc;
    get_ptbl_vaddr = λ paddr p. PageTables.get_ptbl_vaddr walk paddr p.hashmap;
    vmm_hashmap_remove = λ paddr t. PageTables.remove walk paddr t.pages.hashmap >>= λ (_, h).
        some (with_pages (record t.pages { hashmap = h }) t);
    pmm_free_page = λ paddr t.
        Pmm.free_page paddr t.pages.map >>= λ m. some (with_pages (record t.pages { map = m }) t);
  }

  -- The physical address of a cleared table, 0 for NULL.
  pub alloc_pg_table : ℕ → Memory → Option (ℕ × Memory)
  alloc_pg_table zero t = none
  alloc_pg_table (suc fuel) t =
      let new = new_table (ops_of (alloc_pg_table fuel)) t in
      do
        freed ← get_freed_pg_tbl t.pages.hashmap
        (node, u) ← (if freed == 0 then new else some (some freed, t))
        enter_table u node

  abbrev pub ops : ℕ → PageOps Pages
  ops fuel = ops_of (alloc_pg_table fuel)

  -- A round of the loops that back the pages of a region.
  pub backing : ℕ → Backing Memory
  backing fuel = record {
    back = λ vaddr args flags t. do
      (paddr, map) ←
          (if args == 0
            then Pmm.alloc_page t.pages.map
            else (Pmm.alloc_specific_page args t.pages.map >>= λ (_, m). some (args, m)))
      mmap (ops fuel) t.pages.current_pml4t_ptr paddr vaddr flags
          (with_pages (record t.pages { map = map }) t);
  }

  -- The new table of level 4 shares the last entry of the current one.
  pub create_new_pml4t : ℕ → Memory → Option (ℕ × Memory)
  create_new_pml4t fuel t = do
    (paddr, u) ← alloc_pg_table fuel t
    vaddr ← PageTables.get_ptbl_vaddr walk paddr u.pages.hashmap
    if vaddr == 0
        then none
        else some (paddr, write_entry vaddr 511 (u.entry u.pages.current_pml4t_ptr 511) u)

  -- The part of `switch_vm_space` that loads the tables of a space.
  unfoldable pub load_pml4t : ℕ → Memory → Option Memory
  load_pml4t pml4t t = do
    vaddr ← PageTables.get_ptbl_vaddr walk pml4t t.pages.hashmap
    some (with_pages (record t.pages { cr3 = pml4t; current_pml4t_ptr = vaddr }) t)

  -- `vmm_hashmap_put` with the next node of `kmalloc`, whose result is not looked at.
  pub put_table : ℕ × ℕ → Memory → Option Memory
  put_table (vaddr, paddr) t = elim t.pages.fresh [
    | [] ↦ none
    | node ∷ rest ↦ do
      (_, h) ← PageTables.put walk node vaddr paddr t.pages.hashmap
      some (with_pages (record t.pages { hashmap = h; fresh = rest }) t)
  ]

  pub put_tables : List (ℕ × ℕ) → Memory → Option Memory
  put_tables [] t = some t
  put_tables (x ∷ xs) t = put_table x t >>= λ u. put_tables xs u

  -- `vmm_init`, with the addresses of the tables of the boot code.
  pub init_tables : List (ℕ × ℕ) → Memory → Option Memory
  init_tables initial t =
      put_tables initial
        (with_pages (record t.pages { hashmap = PageTables.init t.pages.hashmap }) t)
