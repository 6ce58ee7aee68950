-- ===== src/Vmm/Tests.antt =====
-- Virtual memory at concrete address spaces.
use titan_os.Base.{
  false, ℕ, suc, ◌≡◌, ◌≤◌, ◌<◌, ◌+◌, ◌⊎◌, ◌++◌, refl, true, none, some, List, [], ◌∷◌, arith,
}
use titan_os.Vmm.Paging.{Tables, PageOps}
use titan_os.Vmm.Paging.Mapping.{Path3}
use titan_os.Vmm.Regions.{Region, Backing, back_pages, vmm_lengthen, insert_first_fit}
use titan_os.Vmm.Regions.Layout.{Sorted, Room, NoGap, PlacedFirst, insert_first_fit-Sorted}
use titan_os.Vmm.Regions.Changes.{Unlisted, Reaches, longer, backed, vmm_lengthen-Sorted}
use titan_os.Vmm.Spaces.{
  space_head, kernel_text_obj, kernel_pmm_obj, kernel_page_tbls_obj, vga_text_buffer_obj,
  vga_text_buffer_base, kernel_pmm_start, Space, Run, alloc_kernel_stack, alloc_mmio,
}
use titan_os.Vmm.Spaces.Stacks.{stack_at, stacks, alloc_kernel_stack-stacks}
use titan_os.Vmm.Spaces.Mmio.{alloc_mmio_collides}
use titan_os.Pmm.Sample.{three_taken}
use titan_os.PageTables.{Hashmap}
use titan_os.PageTables.Sample.{two, two-IsMap, two-IsEnough}
use titan_os.PageTables.Put.{get_ptbl_vaddr-known}
use titan_os.PageTables.Removal.{remove-known}
use titan_os.Vmm.Memory.{Memory, with_pages, load_pml4t, backing as memory_backing}
use titan_os.Vmm.Processes.{AddressSpace, memory_ops, free_regions, release_space}
use titan_os.Vmm.Processes.Release.{release_space-idle}

-- Every table is known at 0x9000.
abbrev ops : PageOps Unit
ops = record {
  alloc_pg_table = λ t. some (0x5000, t);
  get_ptbl_vaddr = λ p s. some 0x9000;
  vmm_hashmap_remove = λ p t. some t;
  pmm_free_page = λ p t. some t;
}

-- Every entry is present.
abbrev tables : Tables Unit
tables = record { entry = λ a i. 0x9007; pages = tt }

abbrev head : Region
head = record { base = 0; length = 0; flags = 1 }

abbrev text : Region
text = record { base = 0x400000; length = 0x1000; flags = 1 }

abbrev stack : Region
stack = record { base = 0x600000; length = 0x2000; flags = 1 }

abbrev regions : List Region
regions = head ∷ text ∷ stack ∷ []

regions-Sorted : Sorted regions
unfolding Sorted
regions-Sorted = (omega arith, omega arith, (omega arith, omega arith, omega arith))

regions-Room : Room 0x1000 regions
unfolding Room
regions-Room = (omega arith, (omega arith, (omega arith, tt)))

abbrev backing : Backing ℕ
backing = record { back = λ v a f m. some (true, suc m) }

tables-Path3 : Path3 ops tables 0x9000 0x400000 0x9000
tables-Path3 = record {
  table2 = 0x9000;
  table1 = 0x9000;
  present3 = refl;
  known3 = refl;
  present2 = refl;
  known2 = refl;
  present1 = refl;
  known1 = refl;
  some2 = omega arith;
  some1 = omega arith;
  some0 = omega arith;
}

insert_first_fit-Sorted_example :
    ((insert_first_fit 0x1000 3 regions ≡ none) × NoGap 0x1000 regions)
    ⊎ ((found : ℕ) × (rs' : List Region) × (insert_first_fit 0x1000 3 regions ≡ some (found, rs'))
        × Sorted rs'
        × PlacedFirst found 0x1000 3 regions rs')
insert_first_fit-Sorted_example =
    insert_first_fit-Sorted 0x1000 3 regions regions-Sorted regions-Room

vmm_lengthen-Sorted_example :
    ((vmm_lengthen backing 0x400000 0x1000 regions 0 ≡ some (false, regions, 0))
      × Unlisted 0x400000 regions)
    ⊎ ((before : List Region) × (old : Region) × (after : List Region) × (regions
          ≡ before ++ (old ∷ after))
        × Unlisted 0x400000 before
        × (old.base ≡ 0x400000)
        × (((vmm_lengthen backing 0x400000 0x1000 regions 0 ≡ some (false, regions, 0))
              × Reaches (old.base + old.length + 0x1000) after)
            ⊎ ((vmm_lengthen backing 0x400000 0x1000 regions 0
                  ≡ backed backing 0x1000 old (before ++ (longer 0x1000 old ∷ after)) 0)
                × Sorted (before ++ (longer 0x1000 old ∷ after)))))
vmm_lengthen-Sorted_example =
    vmm_lengthen-Sorted backing 0x400000 0x1000 regions 0 (omega arith) regions-Sorted regions-Room

-- The bit map as `pmm_init` leaves it.
abbrev bit_map : Region
bit_map = record kernel_pmm_obj { length = 0x118000 }

-- The page tables when one was made.
abbrev page_tables : Region
page_tables = record kernel_page_tbls_obj { length = 0x7000 }

-- A device's memory behind the console's buffer.
abbrev device : Region
device = record { base = vga_text_buffer_base + 0x1000; length = 0x1000; flags = 0x11 }

abbrev fixed : List Region
fixed = kernel_text_obj 0x40000 ∷ vga_text_buffer_obj ∷ device ∷ []

abbrev first_space : Space ℕ
first_space = record {
  regions = space_head ∷ (fixed ++ (bit_map ∷ stacks page_tables 1));
  mmio_region = kernel_pmm_start;
  kernel_stack_ptr = stack_at 1;
  bytes = λ a. 7;
  pages = 0;
}

two_backed : back_pages backing 2 0xffffff80002f8000 0 1 0 ≡ some (true, 2)
unfolding back_pages
two_backed = refl

alloc_kernel_stack-stacks_example :
    (t : Space ℕ) × (alloc_kernel_stack backing first_space ≡ Run.done t)
    × (t.regions ≡ space_head ∷ (fixed ++ (bit_map ∷ stacks page_tables 2)))
    × (t.kernel_stack_ptr ≡ 0xffffff80002f8000)
    × (t.pages ≡ 2)
    × ((a : ℕ) → 0xffffff80002f8000 ≤ a → a < 0xffffff80002f8000 + 0x2000 → t.bytes a ≡ 0)
    × ((a : ℕ) → (a < 0xffffff80002f8000) ⊎ (0xffffff80002f8000 + 0x2000 ≤ a) → t.bytes a ≡ 7)
alloc_kernel_stack-stacks_example =
    alloc_kernel_stack-stacks backing page_tables 1 space_head (fixed ++ (bit_map ∷ [])) 2
      first_space refl (omega arith) refl
      (omega arith, (omega arith, (omega arith, (omega arith, (omega arith, tt))))) refl two_backed

alloc_mmio_collides_example :
    alloc_mmio backing 0xfee00000 0x1000 1 first_space
    ≡ some (kernel_pmm_start, record first_space { mmio_region = kernel_pmm_start + 0x1000 })
alloc_mmio_collides_example =
    alloc_mmio_collides backing 0xfee00000 0x1000 1 space_head fixed bit_map
      (record { base = stack_at 1; length = 0x2000; flags = 1 }) (stacks page_tables 0) first_space
      refl (omega arith, (omega arith, (omega arith, (omega arith, tt)))) refl (omega arith)
      (omega arith) (omega arith) (omega arith) (omega arith) (omega arith)

-- A process with the table of level 4 at 0x6000 is released, and the idle process has that at 0x1000.
abbrev idle_space : AddressSpace
idle_space = record { own = space_head ∷ []; pml4t = 0x1000 }

abbrev process_space : Space Memory
process_space = record {
  regions = head ∷ text ∷ stack ∷ kernel_text_obj 0x40000 ∷ [];
  mmio_region = kernel_pmm_start;
  kernel_stack_ptr = stack_at 1;
  bytes = λ a. 7;
  pages = record {
    entry = λ a i. 0;
    pages = record {
      map = three_taken;
      hashmap = two;
      page_tbls_length = 0x6000;
      current_pml4t_ptr = 0xb000;
      cr3 = 0x6000;
      fresh = [];
    };
  };
}

abbrev idle_loaded : Memory
idle_loaded =
    with_pages (record (process_space.pages.pages) { current_pml4t_ptr = 0xa000; cr3 = 0x1000 })
      process_space.pages

loads_idle : (memory_ops 3 1).load_pml4t 0x1000 process_space.pages ≡ some idle_loaded
unfolding load_pml4t titan_os.PageTables.Lookup.find
loads_idle = rw (get_ptbl_vaddr-known two-IsMap 3 0x1000 two-IsEnough)

-- The map of the tables without that of the process.
abbrev without : Hashmap
without = (remove-known two-IsMap 0x6000 3 two-IsEnough).0

abbrev process_removed : Memory
process_removed = with_pages (record (idle_loaded.pages) { hashmap = without }) idle_loaded

removes_process : (memory_ops 3 1).remove_pml4t 0x6000 idle_loaded ≡ some process_removed
removes_process = rw (remove-known two-IsMap 0x6000 3 two-IsEnough).2

release_space-idle_example :
    (free_regions (head ∷ text ∷ stack ∷ []) process_space.regions
      ≡ some (head ∷ kernel_text_obj 0x40000 ∷ []))
    × (release_space
          (memory_backing 3 1)
          (memory_ops 3 1)
          (record { own = head ∷ text ∷ stack ∷ []; pml4t = 0x6000 })
          idle_space
          process_space
        ≡ some (record process_space {
          regions = space_head ∷ kernel_text_obj 0x40000 ∷ [];
          pages = process_removed;
        }))
release_space-idle_example =
    release_space-idle (memory_backing 3 1) (memory_ops 3 1) 0x6000 head (text ∷ stack ∷ [])
      (kernel_text_obj 0x40000) [] idle_space process_space idle_loaded process_removed loads_idle
      removes_process refl (omega arith, (omega arith, tt)) (omega arith) refl
