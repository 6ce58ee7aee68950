-- ===== src/Vmm/Processes/Pages.antt =====
-- The calls of `alloc_user_stack` on the page tables of the program.
use titan_os.Base.{ℕ, ◌≡◌, ap, ◌∙◌, some}
use titan_os.Pmm.State.{IsValid}
use titan_os.PageTables.{get_ptbl_vaddr}
use titan_os.Vmm.Memory.{Memory, with_pages, load_pml4t, backing}
use titan_os.Vmm.Memory.Window.{Paths, back_pages-alloc_pages}
use titan_os.Vmm.Processes.{memory_ops}
use titan_os.Vmm.Processes.Stacks.{StackBacked}

-- The state with a table of level 4 in use.
abbrev pub in_table : ℕ → ℕ → Memory → Memory
in_table pml4t vaddr t = with_pages (record t.pages { cr3 = pml4t; current_pml4t_ptr = vaddr }) t

pub load_pml4t-known :
    (walk pml4t vaddr : ℕ) (t : Memory)
    → get_ptbl_vaddr walk pml4t t.pages.hashmap ≡ some vaddr
    → load_pml4t walk pml4t t ≡ some (in_table pml4t vaddr t)
unfolding load_pml4t
load_pml4t-known walk pml4t vaddr t e = rw e

-- The calls succeed where the tables of level 4 of both spaces are known, the map of the pages is valid,
-- and the lower tables for the two pages of the stack are present. The table of the current process is
-- in use afterwards.
pub memory-StackBacked :
    (walk fuel start pml4t current vaddr back bottom index : ℕ) (t : Memory)
    → get_ptbl_vaddr walk pml4t t.pages.hashmap ≡ some vaddr
    → get_ptbl_vaddr walk current t.pages.hashmap ≡ some back
    → IsValid t.pages.map
    → Paths walk fuel (in_table pml4t vaddr t) bottom 2 start index
    → (u : Memory) × StackBacked
        (backing walk fuel)
        (memory_ops walk fuel)
        start
        pml4t
        current
        t
        (in_table current back u)
memory-StackBacked walk fuel start pml4t current vaddr back bottom index t there known v paths =
    let loaded = in_table pml4t vaddr t in
    let (paddrs, m, u, _, run, _, _, _, pages, _) =
      back_pages-alloc_pages {t = loaded} walk fuel 1 bottom 2 start index v paths in
    (
      u,
      record {
        loaded = loaded;
        mapped = u;
        loads = load_pml4t-known walk pml4t vaddr t there;
        backs = run;
        returns =
            load_pml4t-known walk current back u
              (ap (λ p. get_ptbl_vaddr walk current p.hashmap) pages ∙ known);
      },
    )
