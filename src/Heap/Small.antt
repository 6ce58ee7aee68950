-- ===== src/Heap/Small.antt =====
-- `kmalloc` in a free region that is smaller than a header.
use titan_os.Base.{
  ℕ, suc, ◌+◌, ◌-◌, ◌*◌, ◌^◌, ◌≡◌, ◌<◌, ◌≤◌, refl, sym, ◌∙◌, ap, Bool, true, false, Option, some,
  List, [], ◌∷◌, ◌++◌, ltb-true, arith, length, length-append, u32, u64,
}
use mathlib.Core.Path.{subst}
use titan_os.Heap.{Memory, Region, Heap, write_region, read_region, kmalloc, take_region}
use titan_os.Heap.Bytes.{read_region-write_region}
use titan_os.Heap.Chain.{
  Chain, gross, Chain-gross, Chain-append, Chain-write_behind, IsHeap, save-write_region,
}
use titan_os.Heap.Walk.{
  Segment, flatten, Passed, kmalloc_segments, segments-IsAt, kmalloc_fits, segments_fewer,
}

-- A list of regions that reaches further goes on from the end of every other one from the same place.
Chain-follows :
    (m : Memory) (a b e : ℕ) (rs ss : List Region)
    → Chain m a b rs
    → Chain m a e ss
    → b ≤ e
    → (ts : List Region) × Chain m b e ts
unfolding Chain
Chain-follows m a b e [] ss c d le = (ss, subst (λ x. Chain m x e ss) c d)
Chain-follows m a b e (r ∷ rs) [] (at, lt, c) d le =
    absurd (omega (arith, Chain-gross m (a + r.size + 5) b rs c))
Chain-follows m a b e (r ∷ rs) (s ∷ ss) (at, lt, c) (at', lt', d) le =
    Chain-follows m (a + r.size + 5) b e rs ss c
      (subst (λ x. Chain m (a + x.size + 5) e ss) (sym at' ∙ at) d) le

-- A header whose region does not fit in front of the end.
Chain-overlong :
    (m : Memory) (a e : ℕ) (rs : List Region)
    → Chain m a e rs
    → a < e
    → e < a + (read_region m a).size + 5
    → ⊥
unfolding Chain
Chain-overlong m a e [] c lt over = omega arith
Chain-overlong m a e (r ∷ rs) (at, _, c) lt over =
    omega (arith, Chain-gross m (a + r.size + 5) e rs c, ap (λ x. x.size) at)

module _ {V : Type 0} (vmm_lengthen : V → Option (Bool × V)) where
  -- On a heap of less than 4 GiB whose regions are passed segments, then a free region `r` of fewer than
  -- 5 bytes that holds `size`, and at least one more region, `kmalloc` is defined, with fuel above twice
  -- the number of regions, and returns the address behind the header of `r`. After it no list of regions
  -- describes the heap.
  pub kmalloc_small :
      (fuel heap_start size : ℕ) (segments : List Segment) (r s : Region) (after : List Region)
      (h : Heap V)
      → IsHeap heap_start (flatten segments ++ (r ∷ s ∷ after)) h
      → h.heap_end < heap_start + 2 ^ 32
      → Passed size segments
      → r.used ≡ false
      → size ≤ r.size
      → r.size < 5
      → 2 * length (flatten segments ++ (r ∷ s ∷ after)) < fuel
      → (h' : Heap V) × (kmalloc vmm_lengthen fuel heap_start size h
          ≡ some (heap_start + gross (flatten segments) + 5, h'))
        × ((rs : List Region) → IsHeap heap_start rs h' → ⊥)
  unfolding kmalloc take_region Chain
  kmalloc_small fuel heap_start size segments r s after h heap near p free fits small lt =
      let at = segments-IsAt vmm_lengthen heap_start segments r (s ∷ after) h heap in
      let n = length-append (flatten segments) (r ∷ s ∷ after) in
      let few = segments_fewer vmm_lengthen segments in
      let left = fuel - length segments - 1 in
      let b = heap_start + gross (flatten segments) in
      let behind = Chain-gross h.memory (b + r.size + 5) h.heap_end (s ∷ after) at.here.2 in
      let wrapped : u64 (r.size + 2 ^ 64 - 5) ≡ r.size + 2 ^ 64 - 5 = omega arith in
      let same : u32 size ≡ size = omega arith in
      let huge : u32 (r.size + 2 ^ 64 - size - 5) ≡ r.size + 2 ^ 32 - size - 5 = omega arith in
      let taken : Region = record { used = true; size = size } in
      let rest : Region = record { used = false; size = r.size + 2 ^ 32 - size - 5 } in
      let m1 = write_region b taken h.memory in
      let h1 : Heap V = record h { memory = m1 } in
      let m2 = write_region (b + size + 5) rest m1 in
      let known : Chain m2 heap_start (b + size + 5) (flatten segments ++ (taken ∷ [])) =
        Chain-write_behind m1 heap_start (b + size + 5) (b + size + 5) rest
          (flatten segments ++ (taken ∷ []))
          (Chain-append m1 heap_start b (b + size + 5) (flatten segments) (taken ∷ [])
            (Chain-write_behind h.memory heap_start b b taken (flatten segments) at.front
              (omega arith))
            (read_region-write_region b taken h.memory (omega arith), omega arith, refl))
          (omega arith) in
      (
        record h { memory = m2 },
        kmalloc_segments vmm_lengthen segments (r ∷ s ∷ after) fuel (suc left) heap_start size h
              (omega arith) heap.chain heap.pages near p (omega arith)
            ∙ kmalloc_fits vmm_lengthen left size at free fits
            ∙ rw (
              wrapped,
              ltb-true size (r.size + 2 ^ 64 - 5) (omega arith),
              same,
              huge,
              save-write_region b taken h (omega arith),
              save-write_region (b + size + 5) rest h1 (omega arith),
            ),
        λ rs other.
            let (ts, c) =
              Chain-follows m2 heap_start (b + size + 5) h.heap_end
                (flatten segments ++ (taken ∷ [])) rs known other.chain (omega arith) in
            Chain-overlong m2 (b + size + 5) h.heap_end ts c (omega arith) (
              omega (
                arith,
                ap (λ x. x.size) (read_region-write_region (b + size + 5) rest m1 (omega arith)),
              )),
      )
