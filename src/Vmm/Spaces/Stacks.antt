-- ===== src/Vmm/Spaces/Stacks.antt =====
-- The stacks that the kernel allocates lie below each other, with a page between them.
use titan_os.Base.{
  ℕ, zero, suc, ◌+◌, ◌-◌, ◌*◌, ◌^◌, ◌≡◌, ◌<◌, ◌≤◌, ◌⊎◌, inl, inr, refl, ◌∙◌, ap, true, some, List,
  [], ◌∷◌, ◌++◌, ==_ne, leb-true, leb-false, ltb-true, ltb-false, u64, arith,
}
use titan_os.Vmm.Regions.{Region, Backing, insert_at, back_pages}
use titan_os.Vmm.Regions.Changes.{Unlisted}
use titan_os.Vmm.Spaces.Placement.{Behind, insert_at-Behind, alloc-backs}
use titan_os.Vmm.Spaces.{
  vm_flag_read_write, kernel_heap_start, kernel_stack_start, stack_size, kernel_page_tbls_obj,
  kernel_page_tbl_start, vmm_init, Space, Run, memset_zero, alloc, create_section, create_sections,
  alloc_kernel_stack,
}

-- The address of a stack, by its number from 1 on.
abbrev pub stack_at : ℕ → ℕ
stack_at n = kernel_stack_start - 0x3000 * n

-- The stacks in front of a region, that of the page tables.
abbrev pub stacks : Region → ℕ → List Region
stacks p zero = p ∷ []
stacks p (suc n) =
    record { base = stack_at (suc n); length = stack_size; flags = vm_flag_read_write } ∷ stacks p n

insert_at-stacks :
    (p : Region) (n : ℕ) (r : Region) (rs : List Region)
    → p.base ≡ kernel_page_tbl_start
    → n < 84
    → Behind (stack_at (suc n)) (r ∷ rs)
    → insert_at (stack_at (suc n)) stack_size vm_flag_read_write (r ∷ (rs ++ stacks p n))
      ≡ some (r ∷ (rs ++ stacks p (suc n)))
insert_at-stacks p zero r rs top lt all =
    insert_at-Behind (stack_at 1) stack_size vm_flag_read_write r rs p [] all (omega arith)
      (omega arith)
insert_at-stacks p (suc n) r rs top lt all =
    insert_at-Behind (stack_at (suc (suc n))) stack_size vm_flag_read_write r rs
      (record { base = stack_at (suc n); length = stack_size; flags = vm_flag_read_write })
      (stacks p n) all (omega arith) (omega arith)

-- The space has some regions that end where the next stack starts or before it, then `n` stacks of the
-- kernel, at most 83 of them, and the page tables, of any length; the static variable is at the last
-- stack, and the two pages of the next stack are backed. `alloc_kernel_stack` then succeeds: the stack
-- `n + 1` is the new value of the static variable and a region in front of the other stacks, its bytes
-- are 0, and no other byte is changed.
pub alloc_kernel_stack-stacks :
    {M : Type 0} (backing : Backing M) (p : Region) (n : ℕ) (r : Region) (rs : List Region) (m : M)
    (s : Space M)
    → p.base ≡ kernel_page_tbl_start
    → n < 84
    → s.regions ≡ r ∷ (rs ++ stacks p n)
    → Behind (stack_at (suc n)) (r ∷ rs)
    → s.kernel_stack_ptr ≡ stack_at n
    → back_pages backing 2 (stack_at (suc n)) 0 vm_flag_read_write s.pages ≡ some (true, m)
    → (t : Space M) × (alloc_kernel_stack backing s ≡ Run.done t)
      × (t.regions ≡ r ∷ (rs ++ stacks p (suc n)))
      × (t.kernel_stack_ptr ≡ stack_at (suc n))
      × (t.pages ≡ m)
      × ((a : ℕ) → stack_at (suc n) ≤ a → a < stack_at (suc n) + stack_size → t.bytes a ≡ 0)
      × ((a : ℕ)
          → (a < stack_at (suc n)) ⊎ (stack_at (suc n) + stack_size ≤ a)
          → t.bytes a ≡ s.bytes a)
unfolding alloc_kernel_stack create_sections create_section memset_zero
alloc_kernel_stack-stacks backing p n r rs m s top lt regions all ptr backs =
    let start = stack_at (suc n) in
    let new = r ∷ (rs ++ stacks p (suc n)) in
    let moved : u64 (s.kernel_stack_ptr + 2 ^ 64 - (stack_size + 0x1000)) ≡ start = omega arith in
    let fits : insert_at start stack_size vm_flag_read_write s.regions ≡ some new =
      ap (insert_at start stack_size vm_flag_read_write) regions
      ∙ insert_at-stacks p n r rs top lt all in
    let run : alloc backing start stack_size vm_flag_read_write 0
          (record s { kernel_stack_ptr = start })
        ≡ some (start, record s { kernel_stack_ptr = start; regions = new; pages = m }) =
      alloc-backs backing start stack_size vm_flag_read_write 0 new
        (record s { kernel_stack_ptr = start }) m (omega arith) (omega arith) fits backs in
    (
      record s {
        regions = new;
        kernel_stack_ptr = start;
        bytes = memset_zero start stack_size s.bytes;
        pages = m;
      },
      rw (moved, create_sections, create_section, run, ==_ne start 0 (omega arith), moved),
      refl,
      refl,
      refl,
      (λ a le below. rw (leb-true start a le, ltb-true a (start + stack_size) below)),
      (λ a far. elim far [
        | inl lt ↦ rw (leb-false start a lt)
        | inr ge ↦ rw (leb-true start a (omega arith), ltb-false a (start + stack_size) ge)
      ]),
    )

-- No region of the kernel starts where the heap starts.
pub stacks-Unlisted :
    (n kernel_size : ℕ)
    → n < 84
    → Unlisted kernel_heap_start (vmm_init kernel_size (stacks kernel_page_tbls_obj n))
unfolding Unlisted
stacks-Unlisted n kernel_size lt =
    (omega arith, (omega arith, (omega arith, (omega arith, above n lt))))
  where
    above : (n : ℕ) → n < 84 → Unlisted kernel_heap_start (stacks kernel_page_tbls_obj n)
    above zero lt = (omega arith, tt)
    above (suc n) lt = (omega arith, above n (omega arith))
