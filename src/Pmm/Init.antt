-- ===== src/Pmm/Init.antt =====
-- `pmm_init` of src/kernel/mm/pmm.c: the bit map of the kernel's first moments, the pages that it
-- marks, and the lengthening of the bit map. The state `M` of the backing holds the bit map.
use titan_os.Base.{
  ℕ, zero, suc, ◌+◌, ◌-◌, ◌*◌, Option, none, some, List, [], ◌∷◌, ◌++◌, ltb, leb, if◌then◌else◌,
  length, replicate, u64, ◌>>=◌,
}
use titan_os.MemoryMap.{Entry}
use titan_os.Vmm.Regions.{Region, Backing, vmm_lengthen}
use titan_os.Vmm.Spaces.{kernel_heap_start, kernel_pmm_start}
use titan_os.Pmm.{Map, alloc_specific_page}

-- `TMP_PMM_BYTE_SIZE`.
abbrev pub tmp_pmm_byte_size : ℕ
tmp_pmm_byte_size = kernel_heap_start - kernel_pmm_start

-- The rounds that the loops over pages get. Among 33 pages in a row there is one whose number is 32 or
-- more modulo 64, where the round is undefined.
abbrev pub enough : ℕ
enough = 33

-- The loop of `pmm_init` over the pages of a reserved entry: it goes on while `p` is above the end.
unfoldable pub mark_above : ℕ → ℕ → ℕ → Map → Option Map
mark_above zero p end m = if ltb end p then none else some m
mark_above (suc fuel) p end m =
    let next = λ (n : Map). mark_above fuel (u64 (p + 0x1000)) end n in
    if ltb end p then (alloc_specific_page p m >>= λ (_, n). next n) else some m

-- The loop over the reserved entries. Behind fewer than 20 of them it finds an entry of zeros, where it
-- ends, and behind 20 it reads what lies behind the array.
unfoldable pub mark_reserved : List Entry → Map → Option Map
mark_reserved [] m = some m
mark_reserved (e ∷ es) m =
    let next = λ (n : Map). mark_reserved es n in
    mark_above enough e.addr (u64 (e.addr + e.len)) m >>= next

-- The loop over the pages of the kernel.
unfoldable pub mark_below : ℕ → ℕ → ℕ → Map → Option Map
mark_below zero p end m = if ltb p end then none else some m
mark_below (suc fuel) p end m =
    let next = λ (n : Map). mark_below fuel (u64 (p + 0x1000)) end n in
    if ltb p end then (alloc_specific_page p m >>= λ (_, n). next n) else some m

-- The bit map with its first page cleared, the only one that is mapped.
abbrev pub first_page : Map
first_page = record { num_pages = tmp_pmm_byte_size * 8; bitmap = replicate 512 0 }

-- `pmm_init` before the bit map is lengthened.
unfoldable pub mark_initial : ℕ → ℕ → List Entry → Option Map
mark_initial kernel_phys kernel_size reserved = do
  m ← (if ltb (length reserved) 20 then mark_reserved reserved first_page else none)
  mark_below enough kernel_phys (u64 (kernel_size + kernel_phys + 0x2000)) m

module _ {M : Type 0} (backing : Backing M) (map : M → Map) (with_map : Map → M → M) where
  -- `fresh` is what the pages hold that the bit map gets.
  unfoldable pub pmm_init : ℕ → ℕ → List Entry → List ℕ → List Region → M → Option (List Region × M)
  pmm_init kernel_phys kernel_size reserved fresh regions s = do
    m ← mark_initial kernel_phys kernel_size reserved
    let s1 = with_map m s
    if leb tmp_pmm_byte_size 0x1000
        then some (regions, s1)
        else (vmm_lengthen backing kernel_pmm_start (tmp_pmm_byte_size - 0x1000) regions s1
            >>= λ (ok, rs, s2). some (
              rs,
              (if ok
                  then with_map (record (map s2) { bitmap = (map s2).bitmap ++ fresh }) s2
                  else with_map (record (map s2) { num_pages = 8 * 0x1000 }) s2),
            ))
