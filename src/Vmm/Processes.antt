-- ===== src/Vmm/Processes.antt =====
-- The address spaces of processes, in src/kernel/mm/vmm.c. The lists of all spaces end in the same
-- objects, from `kernel_text_obj` on. What the functions do with tables of level 4 is an interface,
-- which Vmm.Memory fills.
pub mod Stacks
pub mod Release
pub mod Pages
use titan_os.Base.{
  ℕ, zero, suc, ◌+◌, Option, none, some, List, [], ◌∷◌, ◌++◌, ◌==◌, if◌then◌else◌, ◌>>=◌,
}
use titan_os.Vmm.Regions.{Region, Backing, vmm_free}
use titan_os.Vmm.Spaces.{
  Space, Section, Run, undefined, panicked, done, space_head, kernel_text_start, stack_size,
  vm_flag_read_write, create_sections,
}
use titan_os.Vmm.Memory.{Memory, ops, create_new_pml4t, load_pml4t}

-- `vmm_t`: the regions in front of the kernel's, and the physical address of the table of level 4. No
-- function reads the epochs.
pub record AddressSpace : Type 0 where
  pub own : List Region
  pub pml4t : ℕ

unfoldable pub own_part : List Region → List Region
own_part [] = []
own_part (r ∷ rs) = if r.base == kernel_text_start then [] else r ∷ own_part rs

unfoldable pub kernel_part : List Region → List Region
kernel_part [] = []
kernel_part (r ∷ rs) = if r.base == kernel_text_start then r ∷ rs else kernel_part rs

-- The calls on tables of level 4: a new one, the one to use, and one that is given up.
pub record SpaceOps (M : Type 0) : Type 0 where
  pub create_new_pml4t : M → Option (ℕ × M)
  pub load_pml4t : ℕ → M → Option M
  pub remove_pml4t : ℕ → M → Option M

abbrev pub memory_ops : ℕ → ℕ → SpaceOps Memory
memory_ops walk fuel = record {
  create_new_pml4t = create_new_pml4t walk fuel;
  load_pml4t = load_pml4t walk;
  remove_pml4t = λ pml4t t. (ops walk fuel).vmm_hashmap_remove pml4t t;
}

-- The loop of `reap_process` that frees the regions of a space in front of the kernel's, in the space
-- that is in use.
unfoldable pub free_regions : List Region → List Region → Option (List Region)
free_regions [] rs = some rs
free_regions (r ∷ own) rs = vmm_free r.base rs >>= λ rs'. free_regions own rs'

module _ {M : Type 0} (backing : Backing M) (space_ops : SpaceOps M) where
  unfoldable pub create_vmm : Space M → Option (AddressSpace × Space M)
  create_vmm s = do
    (pml4t, m) ← space_ops.create_new_pml4t s.pages
    some (record { own = space_head ∷ []; pml4t = pml4t }, record s { pages = m })

  unfoldable pub switch_vm_space : AddressSpace → Space M → Option (Space M)
  switch_vm_space vmm s = do
    m ← space_ops.load_pml4t vmm.pml4t s.pages
    some (record s { regions = vmm.own ++ kernel_part s.regions; pages = m })

  -- The space that is in use, as the value of its `vmm_t`.
  abbrev pub in_use : ℕ → Space M → AddressSpace
  in_use pml4t s = record { own = own_part s.regions; pml4t = pml4t }

  -- `alloc_user_stack`, with the space of the current process: the space with the stack.
  unfoldable pub alloc_user_stack :
      ℕ → AddressSpace → AddressSpace → Space M → Run (AddressSpace × Space M)
  alloc_user_stack user_stack vmm current s =
      let section : Section = record {
        type = 1;
        flags = vm_flag_read_write;
        start = user_stack;
        length = stack_size;
      } in
      elim (switch_vm_space vmm s) [
        | none ↦ Run.undefined
        | some s1 ↦ elim (create_sections backing (section ∷ []) s1) [
          | undefined ↦ Run.undefined
          | panicked ↦ Run.panicked
          | done s2 ↦ elim (switch_vm_space current s2) [
            | none ↦ Run.undefined
            | some s3 ↦ Run.done (in_use vmm.pml4t s2, s3)
          ]
        ]
      ]

  -- The end of `reap_process`, for a process whose space is in use: its regions are freed, the space of
  -- the idle process comes into use, and the table of level 4 is given up.
  unfoldable pub release_space : AddressSpace → AddressSpace → Space M → Option (Space M)
  release_space vmm idle s = do
    rs ← free_regions vmm.own s.regions
    s1 ← switch_vm_space idle (record s { regions = rs })
    m ← space_ops.remove_pml4t vmm.pml4t s1.pages
    some (record s1 { pages = m })
