-- ===== src/Heap/Free.antt =====
-- `kfree`, with `kmalloc` before it and after it, and the first region of `kheap_init`.
use titan_os.Base.{
  ℕ, ◌+◌, ◌-◌, ◌*◌, ◌^◌, ◌≡◌, ◌<◌, ◌≤◌, refl, sym, ◌∙◌, ap, Bool, true, false, Option, none, some,
  List, [], ◌∷◌, ◌++◌, ltb, ltb-true, ltb-false, if◌then◌else◌, arith, length, length-append, u32,
}
use mathlib.Core.Path.{subst}
use mathlib.Core.List.{append_assoc}
use native.Mathlib.Decide.{dec_lt}
use titan_os.Heap.{Region, Heap, write_region, kmalloc, kfree, kheap_init}
use titan_os.Heap.Bytes.{read_region-write_region}
use titan_os.Heap.Chain.{Chain, gross, Chain-split, IsHeap, save-write_region}
use titan_os.Heap.Merge.{load_head}
use titan_os.Heap.Place.{placed, IsAt, save-IsAt}
use titan_os.Heap.Walk.{Segment, flatten, Passed}
use titan_os.Heap.Malloc.{kmalloc-placed}

module _ {V : Type 0} where
  -- `kfree` of the address behind a header.
  pub kfree-IsHeap :
      (heap_start : ℕ) (before : List Region) (r : Region) (after : List Region) (h : Heap V)
      → IsHeap heap_start (before ++ (r ∷ after)) h
      → (h' : Heap V) × (kfree (heap_start + gross before + 5) h ≡ some h')
        × IsHeap heap_start (before ++ (record { used = false; size = r.size } ∷ after)) h'
        × (h'.heap_end ≡ h.heap_end)
  unfolding kfree
  kfree-IsHeap heap_start before r after h heap =
      let b = heap_start + gross before in
      let (front, here) =
        Chain-split h.memory heap_start h.heap_end before (r ∷ after) heap.chain in
      let at : IsAt heap_start b before r after h = record {
        front = front;
        here = here;
        pages = heap.pages;
      } in
      let (h', run, heap', end) = save-IsAt (record { used = false; size = r.size }) at refl in
      let back : b + 5 - 5 ≡ b = omega arith in
      (h', rw (back, load_head (λ v. none) b r after h here heap.pages, run), heap', end)

  -- `kheap_init` on a mapped page.
  pub kheap_init-IsHeap :
      (heap_start : ℕ) (h : Heap V)
      → heap_start < 2 ^ 64
      → h.heap_end ≡ heap_start + 0x1000
      → h.heap_end ≤ h.mapped
      → (h' : Heap V) × (kheap_init heap_start h ≡ some h')
        × IsHeap heap_start (record { used = false; size = 0x1000 - 5 } ∷ []) h'
  unfolding kheap_init Chain
  kheap_init-IsHeap heap_start h lt end le =
      let s : u32 (u32 h.heap_end + 2 ^ 65 - heap_start - 5) ≡ 0x1000 - 5 = omega arith in
      let new : Region = record { used = false; size = 0x1000 - 5 } in
      (
        record h { memory = write_region heap_start new h.memory },
        rw (s, save-write_region heap_start new h (omega arith)),
        record {
          chain = (
            read_region-write_region heap_start new h.memory (omega arith),
            omega arith,
            omega arith,
          );
          pages = le;
        },
      )

-- The region that `kfree` leaves where `kmalloc` has placed one, and what lies behind it.
given_back : ℕ → ℕ → Region
given_back size total = record { used = false; size = if ltb (size + 5) total then size else total }

behind : ℕ → ℕ → List Region
behind size total =
    if ltb (size + 5) total then record { used = false; size = total - size - 5 } ∷ [] else []

placed-behind :
    (size total : ℕ)
    → placed size total ≡ (record (given_back size total) { used = true }) ∷ behind size total
unfolding given_back behind
placed-behind size total = elim (dec_lt (size + 5) total) [
  | yes lt ↦ rw (ltb-true (size + 5) total lt)
  | no ge ↦ rw (ltb-false (size + 5) total (omega arith))
]

-- The same size is placed there again, and nothing is split off.
placed_again :
    (size total : ℕ)
    → size ≤ total
    → placed size (given_back size total).size ++ behind size total ≡ placed size total
unfolding given_back behind
placed_again size total le = elim (dec_lt (size + 5) total) [
  | yes lt ↦ rw (ltb-true (size + 5) total lt, ltb-false (size + 5) size (omega arith))
  | no ge ↦ rw (ltb-false (size + 5) total (omega arith), ltb-false (size + 5) total (omega arith))
]

given_back-size :
    (size total : ℕ)
    → size ≤ total
    → (size ≤ (given_back size total).size) × ((given_back size total).size ≤ total)
unfolding given_back
given_back-size size total le = elim (dec_lt (size + 5) total) [
  | yes lt ↦ rw (ltb-true (size + 5) total lt) (omega arith, le)
  | no ge ↦ rw (ltb-false (size + 5) total (omega arith)) (le, omega arith)
]

length-behind : (size total : ℕ) → length (behind size total) ≤ 1
unfolding behind
length-behind size total = elim (dec_lt (size + 5) total) [
  | yes lt ↦ rw (ltb-true (size + 5) total lt) (omega arith)
  | no ge ↦ rw (ltb-false (size + 5) total (omega arith)) (omega arith)
]

module _ {V : Type 0} (vmm_lengthen : V → Option (Bool × V)) where
  -- On a heap of less than 4 GiB whose regions are passed segments, then a free region that holds `size`,
  -- for a `size` of at least 5 bytes, and with fuel above twice the number of regions and two more:
  -- `kmalloc`, `kfree` of its result and `kmalloc` of the same size again are all defined. The second
  -- `kmalloc` returns the same address as the first, and leaves the same regions.
  pub kmalloc-kfree :
      (fuel heap_start size : ℕ) (segments : List Segment) (r : Region) (after : List Region)
      (h : Heap V)
      → IsHeap heap_start (flatten segments ++ (r ∷ after)) h
      → h.heap_end < heap_start + 2 ^ 32
      → Passed size segments
      → r.used ≡ false
      → size ≤ r.size
      → 5 ≤ size
      → 2 * length (flatten segments ++ (r ∷ after)) + 2 < fuel
      → (p : ℕ) × (h1 : Heap V) × (h2 : Heap V) × (h3 : Heap V) × (kmalloc vmm_lengthen fuel
            heap_start size h
          ≡ some (p, h1))
        × (kfree p h1 ≡ some h2)
        × (kmalloc vmm_lengthen fuel heap_start size h2 ≡ some (p, h3))
        × IsHeap heap_start (flatten segments ++ (placed size r.size ++ after)) h1
        × IsHeap heap_start (flatten segments ++ (placed size r.size ++ after)) h3
  unfolding given_back
  kmalloc-kfree fuel heap_start size segments r after h heap near passed free fits five lt =
      let before = flatten segments in
      let mid = given_back size r.size in
      let n1 = length-append before (r ∷ after) in
      let n2 = length-append before (mid ∷ (behind size r.size ++ after)) in
      let n3 = length-append (behind size r.size) after in
      let (small, big) = given_back-size size r.size fits in
      let b1 = length-behind size r.size in
      let (h1, run1, heap1, end1) =
        kmalloc-placed vmm_lengthen fuel heap_start size segments r after h heap near passed free
          fits (omega arith) (omega arith) in
      let (h2, run2, heap2, end2) =
        kfree-IsHeap heap_start before (record mid { used = true }) (behind size r.size ++ after) h1
          (subst (λ rs. IsHeap heap_start (before ++ (rs ++ after)) h1) (placed-behind size r.size)
            heap1) in
      let (h3, run3, heap3, end3) =
        kmalloc-placed vmm_lengthen fuel heap_start size segments mid (behind size r.size ++ after)
          h2 heap2 (omega arith) passed refl small (omega arith) (omega arith) in
      (
        heap_start + gross before + 5,
        h1,
        h2,
        h3,
        run1,
        run2,
        run3,
        heap1,
        subst (λ rs. IsHeap heap_start (before ++ rs) h3)
            (sym (append_assoc (placed size mid.size) (behind size r.size) after)
              ∙ ap (λ rs. rs ++ after) (placed_again size r.size fits))
            heap3,
      )
