-- ===== src/Vmm/Spaces.antt =====
-- The regions that the kernel starts with, and the stacks and device memory that it adds to them, in
-- src/kernel/mm/vmm.c.
pub mod Placement
pub mod Stacks
pub mod Mmio
use titan_os.Base.{
  ℕ, zero, suc, ◌+◌, ◌-◌, ◌*◌, ◌^◌, Bool, true, false, ◌&&◌, Option, none, some, List, [], ◌∷◌,
  ◌==◌, leb, ltb, if◌then◌else◌, u64, bit_or,
}
use titan_os.Vmm.Regions.{Region, Backing, page_align, vmm_alloc}

abbrev pub vm_flag_read_write : ℕ
vm_flag_read_write = 1

abbrev pub vm_flag_mmio : ℕ
vm_flag_mmio = 0x10

abbrev pub kernel_page_tbl_start : ℕ
kernel_page_tbl_start = 0xffffff8000300000

abbrev pub kernel_stack_start : ℕ
kernel_stack_start = 0xffffff80002fe000

abbrev pub kernel_heap_start : ℕ
kernel_heap_start = 0xffffff8000200000

abbrev pub vga_text_buffer_base : ℕ
vga_text_buffer_base = 0xffffff80000c0000

abbrev pub kernel_pmm_start : ℕ
kernel_pmm_start = vga_text_buffer_base + 0x28000

abbrev pub kernel_text_start : ℕ
kernel_text_start = 0xffffff8000000000

abbrev pub stack_size : ℕ
stack_size = 0x2000

abbrev pub kernel_page_tbls_obj : Region
kernel_page_tbls_obj = record {
  base = kernel_page_tbl_start;
  length = 0x6000;
  flags = vm_flag_read_write;
}

abbrev pub kernel_pmm_obj : Region
kernel_pmm_obj = record { base = kernel_pmm_start; length = 0x1000; flags = vm_flag_read_write }

abbrev pub vga_text_buffer_obj : Region
vga_text_buffer_obj = record { base = vga_text_buffer_base; length = 0x1000; flags = vm_flag_mmio }

-- The length is set to the size of the kernel when it starts.
abbrev pub kernel_text_obj : ℕ → Region
kernel_text_obj kernel_size = record {
  base = kernel_text_start;
  length = kernel_size;
  flags = vm_flag_read_write;
}

-- The head of every address space.
abbrev pub space_head : Region
space_head = record { base = 0; length = 0; flags = vm_flag_read_write }

-- The list of `vmm_init`, with the regions `rs` from behind the bit map on. `pmm_init` lengthens the bit
-- map after it.
abbrev pub vmm_init : ℕ → List Region → List Region
vmm_init kernel_size rs =
    space_head ∷ kernel_text_obj kernel_size ∷ vga_text_buffer_obj ∷ kernel_pmm_obj ∷ rs

-- The globals, the bytes of virtual memory, and what backs the pages. The length of the region of the
-- page tables, which `alloc_pg_table` changes, is kept with the pages; nothing here reads it.
pub record Space (M : Type 0) : Type 0 where
  pub regions : List Region
  pub mmio_region : ℕ
  pub kernel_stack_ptr : ℕ
  pub bytes : ℕ → ℕ
  pub pages : M

-- A `PANIC` loops for ever.
pub data Run (A : Type 0) : Type 0 where
  undefined : Run A
  panicked : Run A
  done : A → Run A

-- `CODE_SECTION` is 0 and `STACK_SECTION` is 1.
pub record Section : Type 0 where
  pub type : ℕ
  pub flags : ℕ
  pub start : ℕ
  pub length : ℕ

unfoldable pub memset_zero : ℕ → ℕ → (ℕ → ℕ) → ℕ → ℕ
memset_zero start length bytes a = if leb start a && ltb a (start + length) then 0 else bytes a

-- `get_mmio_ptr`: the address, and the static variable after it.
unfoldable pub get_mmio_ptr : ℕ → ℕ → ℕ × ℕ
get_mmio_ptr length mmio_region = (
  u64 (u64 (mmio_region + page_align length) + 2 ^ 64 - page_align length),
  u64 (mmio_region + page_align length),
)

module _ {M : Type 0} (backing : Backing M) where
  -- `vmm_alloc` on the regions of a space.
  unfoldable pub alloc : ℕ → ℕ → ℕ → ℕ → Space M → Option (ℕ × Space M)
  alloc start length flags args s =
      elim (vmm_alloc backing start length flags args s.regions s.pages) [
        | none ↦ none
        | some (p, rs, m) ↦ some (p, record s { regions = rs; pages = m })
      ]

  -- A round of `create_sections`. An unknown type prints an error.
  unfoldable pub create_section : Section → Space M → Run (Space M)
  create_section c s =
      if c.type == 0
      then (elim (alloc c.start c.length c.flags 0 s) [
        | none ↦ Run.undefined
        | some (p, t) ↦ if p == 0 then Run.panicked else Run.done t
      ])
      else if c.type == 1
      then (elim (alloc c.start c.length c.flags 0 s) [
        | none ↦ Run.undefined
        | some (p, t) ↦
            if p == 0
            then Run.panicked
            else Run.done (record t { bytes = memset_zero c.start c.length t.bytes })
      ])
      else Run.done s

  unfoldable pub create_sections : List Section → Space M → Run (Space M)
  create_sections [] s = Run.done s
  create_sections (c ∷ cs) s = elim (create_section c s) [
    | undefined ↦ Run.undefined
    | panicked ↦ Run.panicked
    | done t ↦ create_sections cs t
  ]

  -- The address that it returns is the new value of the static variable.
  pub alloc_kernel_stack : Space M → Run (Space M)
  alloc_kernel_stack s =
      let start = u64 (s.kernel_stack_ptr + 2 ^ 64 - (stack_size + 0x1000)) in
      create_sections
        (record { type = 1; flags = vm_flag_read_write; start = start; length = stack_size } ∷ [])
        (record s { kernel_stack_ptr = start })

  -- What `vmm_alloc` returns is not looked at.
  pub alloc_mmio : ℕ → ℕ → ℕ → Space M → Option (ℕ × Space M)
  alloc_mmio phys_region_start length extra_flags s =
      let (found, next) = get_mmio_ptr length s.mmio_region in
      elim (alloc found length (bit_or vm_flag_mmio extra_flags) phys_region_start
        (record s { mmio_region = next })) [ none ↦ none | some (_, t) ↦ some (found, t) ]
