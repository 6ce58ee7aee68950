-- ===== src/Heap/Malloc.antt =====
-- `kmalloc` and `kfree` on the list of regions.
use titan_os.Base.{
  ℕ, suc, ◌+◌, ◌-◌, ◌*◌, ◌^◌, ◌≡◌, ◌<◌, ◌≤◌, ◌∙◌, Bool, true, false, Option, some, List, ◌∷◌, ◌++◌,
  arith, length, length-append,
}
use mathlib.Core.Path.{subst}
use titan_os.Heap.{Region, Heap, kmalloc}
use titan_os.Heap.Chain.{Chain, gross, Chain-gross, Chain-split, IsHeap}
use titan_os.Heap.Merge.{AllFree, Reaches, Reaches-le}
use titan_os.Heap.Place.{placed, take_region_lem, take_merged_lem}
use titan_os.Heap.Walk.{
  Segment, flatten, Passed, kmalloc_segments, segments-IsAt, kmalloc_fits, kmalloc_merges,
  segments_fewer,
}

module _ {V : Type 0} (vmm_lengthen : V → Option (Bool × V)) where
  -- On a heap of less than 4 GiB whose regions are passed segments, then a free region `r` of at least
  -- 5 bytes that holds `size`, `kmalloc` is defined, with fuel above twice the number of regions. It
  -- returns the address behind the header of `r`, and leaves a heap of the same end in which `r` has
  -- become a used region of `size` bytes and a free one of the rest, or a used one of its old size where
  -- no more than a header is left, and every other region is as before.
  pub kmalloc-placed :
      (fuel heap_start size : ℕ) (segments : List Segment) (r : Region) (after : List Region)
      (h : Heap V)
      → IsHeap heap_start (flatten segments ++ (r ∷ after)) h
      → h.heap_end < heap_start + 2 ^ 32
      → Passed size segments
      → r.used ≡ false
      → size ≤ r.size
      → 5 ≤ r.size
      → 2 * length (flatten segments ++ (r ∷ after)) < fuel
      → (h' : Heap V) × (kmalloc vmm_lengthen fuel heap_start size h
          ≡ some (heap_start + gross (flatten segments) + 5, h'))
        × IsHeap heap_start (flatten segments ++ (placed size r.size ++ after)) h'
        × (h'.heap_end ≡ h.heap_end)
  unfolding kmalloc
  kmalloc-placed fuel heap_start size segments r after h heap near p free fits five lt =
      let at = segments-IsAt vmm_lengthen heap_start segments r after h heap in
      let n = length-append (flatten segments) (r ∷ after) in
      let few = segments_fewer vmm_lengthen segments in
      let left = fuel - length segments - 1 in
      let (h', run, heap', end) = take_region_lem size at fits five in
      (
        h',
        kmalloc_segments vmm_lengthen segments (r ∷ after) fuel (suc left) heap_start size h
              (omega arith) heap.chain heap.pages near p (omega arith)
            ∙ kmalloc_fits vmm_lengthen left size at free fits
            ∙ run,
        heap',
        end,
      )

  -- On a heap of less than 4 GiB whose regions are passed segments, then a free region `r` that is too
  -- small, and free ones behind it with which it holds `size`, `kmalloc` is defined, with fuel above
  -- twice the number of regions, and returns the address behind the header of `r`. Where more than a
  -- header is left of their bytes, they become a used region of `size` bytes and a free one of the rest.
  -- Where not, the header of `r` keeps its size, which is below `size`, and the free regions behind it
  -- stay in the list: they overlap the memory that was given out.
  pub kmalloc_merged :
      (fuel heap_start size : ℕ) (segments : List Segment) (r s : Region) (run after : List Region)
      (h : Heap V)
      → IsHeap heap_start (flatten segments ++ (r ∷ s ∷ (run ++ after))) h
      → h.heap_end < heap_start + 2 ^ 32
      → Passed size segments
      → r.used ≡ false
      → r.size < size
      → AllFree (s ∷ run)
      → Reaches r.size size (s ∷ run)
      → 2 * length (flatten segments ++ (r ∷ s ∷ (run ++ after))) < fuel
      → (h' : Heap V) × (kmalloc vmm_lengthen fuel heap_start size h
          ≡ some (heap_start + gross (flatten segments) + 5, h'))
        × (h'.heap_end ≡ h.heap_end)
        × (size + 5 < r.size + gross (s ∷ run)
            → IsHeap heap_start
                (flatten segments ++ (placed size (r.size + gross (s ∷ run)) ++ after))
                h')
        × (r.size + gross (s ∷ run) ≤ size + 5
            → IsHeap heap_start
                (flatten segments ++ (record { used = true; size = r.size } ∷ s ∷ (run ++ after)))
                h')
  unfolding kmalloc Chain
  kmalloc_merged fuel heap_start size segments r s run after h heap near p free short all reach lt =
      let at = segments-IsAt vmm_lengthen heap_start segments r (s ∷ (run ++ after)) h heap in
      let n = length-append (flatten segments) (r ∷ s ∷ (run ++ after)) in
      let n' = length-append run after in
      let few = segments_fewer vmm_lengthen segments in
      let left = fuel - length segments - 1 in
      let b = heap_start + gross (flatten segments) in
      let total = r.size + gross (s ∷ run) in
      let (_, back) = Chain-split h.memory (b + r.size + 5) h.heap_end (s ∷ run) after at.here.2 in
      let end = Chain-gross h.memory (b + r.size + 5 + gross (s ∷ run)) h.heap_end after back in
      let (h', run', same, fit, over) =
        take_merged_lem (s ∷ run) after total size at
          (subst (λ x. Chain h.memory x h.heap_end after) (omega arith) back) (omega arith)
          (omega arith) (Reaches-le r.size size (s ∷ run) reach) in
      (
        h',
        kmalloc_segments vmm_lengthen segments (r ∷ s ∷ (run ++ after)) fuel (suc left) heap_start
              size h (omega arith) heap.chain heap.pages near p (omega arith)
            ∙ kmalloc_merges vmm_lengthen s run after left size at (omega arith) free short all
                reach (omega arith)
            ∙ run',
        same,
        fit,
        over,
      )
