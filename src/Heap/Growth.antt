-- ===== src/Heap/Growth.antt =====
-- `get_more_pages` with `vmm_lengthen` of the virtual memory.
use titan_os.Base.{
  ℕ, zero, suc, ◌+◌, ◌-◌, ◌*◌, ◌^◌, ◌≡◌, ◌<◌, ◌≤◌, refl, ◌∙◌, Bool, false, Option, none, some, List,
  [], ◌∷◌, ◌++◌, leb-true, leb-false, arith, length, length-append, u32, ◌>>=◌,
}
use titan_os.Heap.{
  Region, Heap, load, save, write_new_mem_reg, go_to_next_memory_region, page_round, get_more_pages,
  grow_at, merge_loop, kmalloc_loop, kmalloc,
}
use titan_os.Heap.Chain.{Chain, gross, Chain-gross, Chain-split, IsHeap}
use titan_os.Heap.Merge.{AllFree, load_head, merge_round, grow_at_inside}
use titan_os.Heap.Walk.{Segment, flatten, TooSmall, Passed, kmalloc_segments, segments_fewer}
use titan_os.Vmm.Regions as Vmm
use titan_os.Vmm.Regions.Changes.{Unlisted, vmm_lengthen-Unlisted}

-- The call of `get_more_pages`: a page for the region that starts at `heap_start`.
pub lengthen_heap :
    {M : Type 0} → Vmm.Backing M → ℕ → List Vmm.Region × M → Option (Bool × (List Vmm.Region × M))
lengthen_heap backing heap_start (rs, m) =
    Vmm.vmm_lengthen backing heap_start 0x1000 rs m >>= λ (ok, rs', m'). some (ok, (rs', m'))

pub lengthen_heap-Unlisted :
    {M : Type 0} (backing : Vmm.Backing M) (heap_start : ℕ) (rs : List Vmm.Region) (m : M)
    → Unlisted heap_start rs
    → lengthen_heap backing heap_start (rs, m) ≡ some (false, (rs, m))
unfolding lengthen_heap
lengthen_heap-Unlisted backing heap_start rs m out =
    rw (vmm_lengthen-Unlisted backing heap_start 0x1000 rs m (omega arith) out)

module _ {V : Type 0} (vmm_lengthen : V → Option (Bool × V)) where
  get_more_pages-refused :
      (n : ℕ) (h : Heap V)
      → vmm_lengthen h.vmm ≡ some (false, h.vmm)
      → get_more_pages vmm_lengthen n h ≡ some (false, h)
  unfolding get_more_pages
  get_more_pages-refused n h full = rw full

  grow_at-refused :
      (next pages : ℕ) (h : Heap V)
      → vmm_lengthen h.vmm ≡ some (false, h.vmm)
      → h.heap_end ≤ next
      → grow_at vmm_lengthen next pages h ≡ some h
  unfolding grow_at
  grow_at-refused next pages h full le =
      rw (leb-true h.heap_end next le, get_more_pages-refused pages h full)

  load_faults : (a : ℕ) (h : Heap V) → h.mapped < a + 5 → load a h ≡ none
  unfolding load
  load_faults a h lt = rw (leb-false (a + 5) h.mapped lt)

  save_faults : (a : ℕ) (r : Region) (h : Heap V) → h.mapped < a + 5 → save a r h ≡ none
  unfolding save
  save_faults a r h lt = rw (leb-false (a + 5) h.mapped lt)

  -- The end of a region is inside the heap, or at its end, where it does not grow.
  grow_at_stays :
      (next : ℕ) (rs : List Region) (h : Heap V)
      → vmm_lengthen h.vmm ≡ some (false, h.vmm)
      → Chain h.memory next h.heap_end rs
      → (pages : ℕ) → grow_at vmm_lengthen next pages h ≡ some h
  unfolding Chain
  grow_at_stays next [] h full c pages = grow_at-refused next pages h full (omega arith)
  grow_at_stays next (r ∷ rs) h full (_, _, c) pages =
      grow_at_inside vmm_lengthen next pages h
        (omega (arith, Chain-gross h.memory (next + r.size + 5) h.heap_end rs c))

  -- The inner loop runs over the end of the heap.
  merge_loop_faults :
      (fuel curr total a size : ℕ) (run : List Region) (h : Heap V)
      → Chain h.memory a h.heap_end run
      → h.heap_end ≤ h.mapped
      → h.mapped < h.heap_end + 5
      → vmm_lengthen h.vmm ≡ some (false, h.vmm)
      → AllFree run
      → total + gross run < size
      → total + gross run < 2 ^ 32
      → merge_loop vmm_lengthen fuel curr total a size h ≡ none
  unfolding merge_loop Chain
  merge_loop_faults zero curr total a size run h c le top full free short small = refl
  merge_loop_faults (suc fuel) curr total a size [] h c le top full free short small =
      rw (load_faults a h (omega arith))
  merge_loop_faults (suc fuel) curr total a size (r ∷ run) h c le top full (rf, free) short small =
      merge_round vmm_lengthen fuel curr total a size r run h c le
        (grow_at_stays (a + r.size + 5) run h full c.2) rf (omega arith) (omega arith)
      ∙ merge_loop_faults fuel curr (total + (r.size + 5)) (a + r.size + 5) size run h c.2 le top
          full free (omega arith) (omega arith)

  -- So does the outer loop at the last regions, which are free and too small.
  kmalloc_loop_faults :
      (fuel a size : ℕ) (run : List Region) (h : Heap V)
      → Chain h.memory a h.heap_end run
      → h.heap_end ≤ h.mapped
      → h.mapped < h.heap_end + 5
      → h.heap_end < a + 2 ^ 32
      → vmm_lengthen h.vmm ≡ some (false, h.vmm)
      → AllFree run
      → TooSmall size run
      → kmalloc_loop vmm_lengthen fuel a size h ≡ none
  unfolding kmalloc_loop write_new_mem_reg go_to_next_memory_region Chain
  kmalloc_loop_faults zero a size run h c le top near full free short = refl
  kmalloc_loop_faults (suc fuel) a size [] h c le top near full free short = rw (
    leb-true h.heap_end a (omega arith),
    get_more_pages-refused 1 h full,
    save_faults a (record { used = false; size = u32 (h.heap_end + 2 ^ 64 - a) }) h (omega arith),
  )
  kmalloc_loop_faults (suc fuel) a size (r ∷ run) h c le top near full (rf, free) short =
      let end = Chain-gross h.memory (a + r.size + 5) h.heap_end run c.2 in
      rw (
        leb-false h.heap_end a (omega arith),
        load_head vmm_lengthen a r run h c le,
        rf,
        leb-false size r.size (omega arith),
        grow_at_stays (a + r.size + 5) run h full c.2 (page_round (size - r.size)),
        merge_loop_faults fuel a r.size (a + r.size + 5) size run h c.2 le top full free
            (omega arith) (omega arith),
      )

-- On a heap of less than 4 GiB that ends at the end of the mapped pages, whose regions are passed
-- segments and then free regions that are too small together, and where no region of the kernel's
-- address space starts at `heap_start`, `kmalloc` does not grow the heap: it accesses memory behind the
-- mapped pages, with any fuel above twice the number of regions.
pub kmalloc_full :
    {M : Type 0} (backing : Vmm.Backing M) (fuel heap_start size : ℕ) (segments : List Segment)
    (run : List Region) (h : Heap (List Vmm.Region × M))
    → IsHeap heap_start (flatten segments ++ run) h
    → h.mapped ≡ h.heap_end
    → h.heap_end < heap_start + 2 ^ 32
    → Passed size segments
    → AllFree run
    → TooSmall size run
    → Unlisted heap_start h.vmm.0
    → 2 * length (flatten segments ++ run) < fuel
    → kmalloc (lengthen_heap backing heap_start) fuel heap_start size h ≡ none
unfolding kmalloc
kmalloc_full backing fuel heap_start size segments run h heap top near passed free short out lt =
    let left = fuel - length segments in
    let (_, back) = Chain-split h.memory heap_start h.heap_end (flatten segments) run heap.chain in
    let few = segments_fewer (lengthen_heap backing heap_start) segments in
    let n = length-append (flatten segments) run in
    kmalloc_segments (lengthen_heap backing heap_start) segments run fuel left heap_start size h
      (omega arith) heap.chain heap.pages near passed (omega arith)
    ∙ kmalloc_loop_faults (lengthen_heap backing heap_start) left
        (heap_start + gross (flatten segments)) size run h back heap.pages (omega arith)
        (omega arith) (lengthen_heap-Unlisted backing heap_start h.vmm.0 h.vmm.1 out) free short
