-- ===== src/Vmm/Processes/Stacks.antt =====
-- The stack of a program, in the space of its process.
use titan_os.Base.{
  ℕ, ◌+◌, ◌%◌, ◌≡◌, ◌<◌, ◌≤◌, ◌⊎◌, inl, inr, refl, sym, ap, ◌∙◌, true, some, List, [], ◌∷◌, ◌++◌,
  ==_ne, leb-true, leb-false, ltb-true, ltb-false, arith,
}
use titan_os.Vmm.Regions.{Region, Backing, insert_at, back_pages}
use titan_os.Vmm.Spaces.{
  Space, Run, kernel_text_start, stack_size, vm_flag_read_write, memset_zero, create_section,
  create_sections,
}
use titan_os.Vmm.Spaces.Placement.{Behind, Behind-append, Behind-le, insert_at-Behind, alloc-backs}
use titan_os.Vmm.Processes.{
  AddressSpace, own_part, kernel_part, SpaceOps, switch_vm_space, alloc_user_stack,
}

snoc-append :
    (rs : List Region) (r : Region) (ps : List Region) → (rs ++ (r ∷ [])) ++ ps ≡ rs ++ (r ∷ ps)
snoc-append [] r ps = refl
snoc-append (x ∷ rs) r ps = ap (λ t. x ∷ t) (snoc-append rs r ps)

module _ (k : Region) (ks : List Region) (first : k.base ≡ kernel_text_start) where
  pub own_part-append :
      (end : ℕ) (rs : List Region)
      → Behind end rs
      → end < kernel_text_start
      → own_part (rs ++ (k ∷ ks)) ≡ rs
  unfolding own_part
  own_part-append end [] all lt = rw first
  own_part-append end (r ∷ rs) (le, all) lt =
      rw (==_ne r.base kernel_text_start (λ e. absurd (omega arith)))
        (ap (λ x. r ∷ x) (own_part-append end rs all lt))

  pub kernel_part-append :
      (end : ℕ) (rs : List Region)
      → Behind end rs
      → end < kernel_text_start
      → kernel_part (rs ++ (k ∷ ks)) ≡ k ∷ ks
  unfolding kernel_part
  kernel_part-append end [] all lt = rw first
  kernel_part-append end (r ∷ rs) (le, all) lt =
      rw (==_ne r.base kernel_text_start (λ e. absurd (omega arith)))
        (kernel_part-append end rs all lt)

abbrev pub stack_of : ℕ → Region
stack_of start = record { base = start; length = stack_size; flags = vm_flag_read_write }

-- The calls that `alloc_user_stack` makes on the state of the pages succeed, from the state `m` to the
-- state `m'`: the process's table is loaded, the two pages of the stack are backed, and the table of
-- the current process is loaded.
pub record StackBacked {M : Type 0} (backing : Backing M) (ops : SpaceOps M)
    (start pml4t current : ℕ) (m m' : M) : Type 0 where
  pub loaded : M
  pub mapped : M
  pub loads : ops.load_pml4t pml4t m ≡ some loaded
  pub backs : back_pages backing 2 start 0 vm_flag_read_write loaded ≡ some (true, mapped)
  pub returns : ops.load_pml4t current mapped ≡ some m'

-- The calls of `alloc_user_stack` on the state of the pages succeed. The process's regions `r ∷ rs` end
-- at the stack's address or before it, and the kernel's regions are `k ∷ ks`. `alloc_user_stack` then
-- succeeds: the process has the region of the stack behind its others, the bytes of the stack are
-- 0 and no other byte is changed, and afterwards the space of the current process is in use, with its
-- own regions and the kernel's as they were.
pub alloc_user_stack-maps :
    {M : Type 0} (backing : Backing M) (ops : SpaceOps M) (start pml4t : ℕ) (r : Region)
    (rs : List Region) (current : AddressSpace) (k : Region) (ks : List Region) (s : Space M)
    (m3 : M)
    → StackBacked backing ops start pml4t current.pml4t s.pages m3
    → k.base ≡ kernel_text_start
    → kernel_part s.regions ≡ k ∷ ks
    → Behind start (r ∷ rs)
    → start % 0x1000 ≡ 0
    → 0 < start
    → start + 0x2000 < kernel_text_start
    → (t : Space M) × (alloc_user_stack backing ops start
          (record { own = r ∷ rs; pml4t = pml4t })
          current
          s
        ≡ Run.done (record { own = r ∷ (rs ++ (stack_of start ∷ [])); pml4t = pml4t }, t))
      × (t.regions ≡ current.own ++ (k ∷ ks))
      × (t.kernel_stack_ptr ≡ s.kernel_stack_ptr)
      × (t.pages ≡ m3)
      × ((a : ℕ) → start ≤ a → a < start + 0x2000 → t.bytes a ≡ 0)
      × ((a : ℕ) → (a < start) ⊎ (start + 0x2000 ≤ a) → t.bytes a ≡ s.bytes a)
unfolding alloc_user_stack switch_vm_space create_sections create_section memset_zero
alloc_user_stack-maps backing ops start pml4t r rs current k ks s m3 calls first kernel all aligned
      positive below =
    let stack = stack_of start in
    let s1 = record s { regions = (r ∷ rs) ++ kernel_part s.regions; pages = calls.loaded } in
    let new = r ∷ (rs ++ (stack ∷ k ∷ ks)) in
    let at : insert_at start stack_size vm_flag_read_write s1.regions ≡ some new =
      ap (λ x. insert_at start stack_size vm_flag_read_write ((r ∷ rs) ++ x)) kernel
      ∙ insert_at-Behind start stack_size vm_flag_read_write r rs k ks all (omega arith)
          (omega arith) in
    let run =
      alloc-backs backing start stack_size vm_flag_read_write 0 new s1 calls.mapped aligned positive
        at calls.backs in
    let own = r ∷ (rs ++ (stack ∷ [])) in
    let all' : Behind (start + 0x2000) own =
      Behind-append (start + 0x2000) (r ∷ rs) stack
        (Behind-le start (start + 0x2000) (r ∷ rs) all (omega arith)) (omega arith) in
    let split : own ++ (k ∷ ks) ≡ new = ap (λ x. r ∷ x) (snoc-append rs stack (k ∷ ks)) in
    let own_new : own_part new ≡ own =
      sym (ap own_part split) ∙ own_part-append k ks first (start + 0x2000) own all' below in
    let kernel_new : kernel_part new ≡ k ∷ ks =
      sym (ap kernel_part split) ∙ kernel_part-append k ks first (start + 0x2000) own all' below in
    (
      record s {
        regions = current.own ++ (k ∷ ks);
        bytes = memset_zero start stack_size s.bytes;
        pages = m3;
      },
      rw (
        alloc_user_stack,
        calls.loads,
        create_sections,
        create_section,
        run,
        ==_ne start 0 (omega arith),
        calls.returns,
        own_new,
        kernel_new,
      ),
      refl,
      refl,
      refl,
      (λ a le lt. rw (leb-true start a le, ltb-true a (start + stack_size) lt)),
      (λ a far. elim far [
        | inl lt ↦ rw (leb-false start a lt)
        | inr ge ↦ rw (leb-true start a (omega arith), ltb-false a (start + stack_size) ge)
      ]),
    )
