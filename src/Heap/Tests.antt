-- ===== src/Heap/Tests.antt =====
-- The heap with a few regions.
use titan_os.Base.{
  ℕ, suc, ◌+◌, ◌≡◌, ◌<◌, ◌≤◌, refl, Bool, true, false, Option, none, some, List, [], ◌∷◌, arith,
}
use titan_os.Heap.{Memory, Region, Heap, read_region, read_size, write_region, kmalloc, kfree}
use titan_os.Heap.Chain.{Chain, IsHeap}
use titan_os.Heap.Walk.{Segment}
use titan_os.Heap.Malloc.{kmalloc-placed, kmalloc_merged}
use titan_os.Heap.Free.{kmalloc-kfree}
use titan_os.Heap.Small.{kmalloc_small}
use titan_os.Heap.Growth.{lengthen_heap, kmalloc_full}
use titan_os.Vmm.Regions as Vmm
use titan_os.Vmm.Spaces.{kernel_page_tbls_obj, vmm_init}
use titan_os.Vmm.Spaces.Stacks.{stacks, stacks-Unlisted}

abbrev used_of : ℕ → Region
used_of n = record { used = true; size = n }

abbrev free_of : ℕ → Region
free_of n = record { used = false; size = n }

-- The headers of regions from an address on.
abbrev headers : ℕ → List Region → Memory
headers a [] b = 0
headers a (r ∷ rs) b = write_region a r (headers (a + r.size + 5) rs) b

abbrev start : ℕ
start = 0xffffff8000200000

-- Nothing grows.
abbrev refuse : ℕ → Option (Bool × ℕ)
refuse v = some (false, v)

abbrev split_heap : Heap ℕ
split_heap = record {
  memory = headers start (used_of 10 ∷ free_of 40 ∷ used_of 8 ∷ []);
  heap_end = start + 73;
  mapped = start + 0x1000;
  vmm = 0;
}

split_heap-IsHeap : IsHeap start (used_of 10 ∷ free_of 40 ∷ used_of 8 ∷ []) split_heap
unfolding Chain read_region read_size write_region
split_heap-IsHeap = record {
  chain = (refl, omega arith, (refl, omega arith, (refl, omega arith, refl)));
  pages = omega arith;
}

abbrev first : Segment
first = record { run = []; stop = used_of 10 }

kmalloc-placed_example :
    (h' : Heap ℕ) × (kmalloc refuse 20 start 16 split_heap ≡ some (start + 15 + 5, h'))
    × IsHeap start (used_of 10 ∷ used_of 16 ∷ free_of 19 ∷ used_of 8 ∷ []) h'
    × (h'.heap_end ≡ start + 73)
kmalloc-placed_example =
    kmalloc-placed refuse 20 start 16 (first ∷ []) (free_of 40) (used_of 8 ∷ []) split_heap
      split_heap-IsHeap (omega arith) (tt, tt, refl, tt) refl (omega arith) (omega arith)
      (omega arith)

kmalloc-kfree_example :
    (p : ℕ) × (h1 : Heap ℕ) × (h2 : Heap ℕ) × (h3 : Heap ℕ) × (kmalloc refuse 20 start 16 split_heap
      ≡ some (p, h1))
    × (kfree p h1 ≡ some h2)
    × (kmalloc refuse 20 start 16 h2 ≡ some (p, h3))
    × IsHeap start (used_of 10 ∷ used_of 16 ∷ free_of 19 ∷ used_of 8 ∷ []) h1
    × IsHeap start (used_of 10 ∷ used_of 16 ∷ free_of 19 ∷ used_of 8 ∷ []) h3
kmalloc-kfree_example =
    kmalloc-kfree refuse 20 start 16 (first ∷ []) (free_of 40) (used_of 8 ∷ []) split_heap
      split_heap-IsHeap (omega arith) (tt, tt, refl, tt) refl (omega arith) (omega arith)
      (omega arith)

-- Two free regions that are merged for 30 bytes.
abbrev merge_heap : Heap ℕ
merge_heap = record {
  memory = headers start (used_of 10 ∷ free_of 20 ∷ free_of 20 ∷ []);
  heap_end = start + 65;
  mapped = start + 0x1000;
  vmm = 0;
}

merge_heap-IsHeap : IsHeap start (used_of 10 ∷ free_of 20 ∷ free_of 20 ∷ []) merge_heap
unfolding Chain read_region read_size write_region
merge_heap-IsHeap = record {
  chain = (refl, omega arith, (refl, omega arith, (refl, omega arith, refl)));
  pages = omega arith;
}

kmalloc_merged_example :
    (h' : Heap ℕ) × (kmalloc refuse 20 start 30 merge_heap ≡ some (start + 15 + 5, h'))
    × (h'.heap_end ≡ start + 65)
    × (30 + 5 < 20 + 25 → IsHeap start (used_of 10 ∷ used_of 30 ∷ free_of 10 ∷ []) h')
    × (20 + 25 ≤ 30 + 5 → IsHeap start (used_of 10 ∷ used_of 20 ∷ free_of 20 ∷ []) h')
kmalloc_merged_example =
    kmalloc_merged refuse 20 start 30 (first ∷ []) (free_of 20) (free_of 20) [] [] merge_heap
      merge_heap-IsHeap (omega arith) (tt, tt, refl, tt) refl (omega arith) (refl, tt) (omega arith)
      (omega arith)

-- A free region of 2 bytes.
abbrev small_regions : List Region
small_regions = used_of 10 ∷ free_of 2 ∷ used_of 4 ∷ []

abbrev small_heap : Heap (List Vmm.Region × ℕ)
small_heap = record {
  memory = headers start small_regions;
  heap_end = start + 31;
  mapped = start + 31;
  vmm = (vmm_init 0x40000 (stacks kernel_page_tbls_obj 1), 0);
}

small_heap-IsHeap : IsHeap start small_regions small_heap
unfolding Chain read_region read_size write_region
small_heap-IsHeap = record {
  chain = (refl, omega arith, (refl, omega arith, (refl, omega arith, refl)));
  pages = omega arith;
}

abbrev backing : Vmm.Backing ℕ
backing = record { back = λ v a f m. some (true, suc m) }

kmalloc_small_example :
    (h' : Heap (List Vmm.Region × ℕ)) × (kmalloc (lengthen_heap backing start) 20 start 1 small_heap
      ≡ some (start + 15 + 5, h'))
    × ((rs : List Region) → IsHeap start rs h' → ⊥)
kmalloc_small_example =
    kmalloc_small (lengthen_heap backing start) 20 start 1 (first ∷ []) (free_of 2) (used_of 4) []
      small_heap small_heap-IsHeap (omega arith) (tt, tt, refl, tt) refl (omega arith) (omega arith)
      (omega arith)

kmalloc_full_example : kmalloc (lengthen_heap backing start) 20 start 100 small_heap ≡ none
kmalloc_full_example =
    kmalloc_full backing 20 start 100
      (first ∷ record { run = free_of 2 ∷ []; stop = used_of 4 } ∷ []) [] small_heap
      small_heap-IsHeap refl (omega arith) (tt, tt, refl, ((refl, tt), omega arith, refl, tt)) tt tt
      (stacks-Unlisted 1 0x40000 (omega arith)) (omega arith)
