-- ===== src/Heap/Merge.antt =====
-- The inner loop of `kmalloc` over a run of free regions.
use titan_os.Base.{
  ℕ, zero, suc, ◌+◌, ◌-◌, ◌^◌, ◌≡◌, ◌<◌, ◌≤◌, ◌∙◌, ap, Bool, true, false, Option, some, List, [],
  ◌∷◌, ◌++◌, leb-true, leb-false, arith, length, u32, ◌>>=◌,
}
use titan_os.Heap.{
  Region, Heap, Merged, load, go_to_next_memory_region, grow_at, take_merged, merge_loop,
  page_round,
}
use titan_os.Heap.Chain.{Chain, gross, Chain-gross, Chain-inside, load-read_region}

abbrev pub AllFree : List Region → Type 0
AllFree [] = Unit
AllFree (r ∷ rs) = (r.used ≡ false) × AllFree rs

-- The regions behind `total` bytes reach `size` with the last of them, and not before.
abbrev pub Reaches : ℕ → ℕ → List Region → Type 0
Reaches total size [] = ⊥
Reaches total size (r ∷ []) = size ≤ total + (r.size + 5)
Reaches total size (r ∷ s ∷ rs) =
    (total + (r.size + 5) < size) × Reaches (total + (r.size + 5)) size (s ∷ rs)

pub Reaches-le :
    (total size : ℕ) (rs : List Region) → Reaches total size rs → size ≤ total + gross rs
Reaches-le total size [] reach = absurd reach
Reaches-le total size (r ∷ []) reach = omega arith
Reaches-le total size (r ∷ s ∷ rs) (_, reach) =
    omega (arith, Reaches-le (total + (r.size + 5)) size (s ∷ rs) reach)

add_zero : (a : ℕ) → a + 0 ≡ a
add_zero a = omega arith

gross_one : (total n : ℕ) → total + (n + 5 + 0) ≡ total + (n + 5)
gross_one total n = omega arith

module _ {V : Type 0} (vmm_lengthen : V → Option (Bool × V)) where
  -- Inside the heap no page is asked for.
  pub grow_at_inside :
      (next pages : ℕ) (h : Heap V) → next < h.heap_end → grow_at vmm_lengthen next pages h ≡ some h
  unfolding grow_at
  grow_at_inside next pages h lt = rw (leb-false h.heap_end next lt)

  pub load_head :
      (a : ℕ) (r : Region) (rs : List Region) (h : Heap V)
      → Chain h.memory a h.heap_end (r ∷ rs)
      → h.heap_end ≤ h.mapped
      → load a h ≡ some r
  unfolding Chain
  load_head a r rs h (at, lt, c) le =
      load-read_region a h (omega (arith, Chain-gross h.memory (a + r.size + 5) h.heap_end rs c))
      ∙ ap some at

  sum_small : (total n : ℕ) → total + (n + 5) < 2 ^ 32 → u32 (total + u32 (n + 5)) ≡ total + (n + 5)
  sum_small total n lt = omega arith

  -- A round that does not reach the size goes on to the next region.
  pub merge_round :
      (fuel curr total a size : ℕ) (r : Region) (rs : List Region) (h : Heap V)
      → Chain h.memory a h.heap_end (r ∷ rs)
      → h.heap_end ≤ h.mapped
      → ((pages : ℕ) → grow_at vmm_lengthen (a + r.size + 5) pages h ≡ some h)
      → r.used ≡ false
      → total + (r.size + 5) < size
      → total + (r.size + 5) < 2 ^ 32
      → merge_loop vmm_lengthen (suc fuel) curr total a size h
        ≡ merge_loop vmm_lengthen fuel curr (total + (r.size + 5)) (a + r.size + 5) size h
  unfolding merge_loop go_to_next_memory_region Chain
  merge_round fuel curr total a size r rs h c le stays free short small = rw (
    load_head a r rs h c le,
    free,
    sum_small total r.size small,
    leb-false size (total + (r.size + 5)) short,
    stays (page_round (size - (total + (r.size + 5)))),
  )

  merge_step :
      (fuel curr total a size : ℕ) (r : Region) (rs : List Region) (h : Heap V)
      → Chain h.memory a h.heap_end (r ∷ rs)
      → h.heap_end ≤ h.mapped
      → a + r.size + 5 < h.heap_end
      → r.used ≡ false
      → total + (r.size + 5) < size
      → total + (r.size + 5) < 2 ^ 32
      → merge_loop vmm_lengthen (suc fuel) curr total a size h
        ≡ merge_loop vmm_lengthen fuel curr (total + (r.size + 5)) (a + r.size + 5) size h
  merge_step fuel curr total a size r rs h c le inside =
      merge_round fuel curr total a size r rs h c le
        (λ pages. grow_at_inside (a + r.size + 5) pages h inside)

  -- A run of free regions that stays below the size ends at the used region behind it.
  pub merge_loop_stops :
      (fuel curr total a size : ℕ) (run : List Region) (u : Region) (rs : List Region) (h : Heap V)
      → Chain h.memory a h.heap_end (run ++ (u ∷ rs))
      → h.heap_end ≤ h.mapped
      → AllFree run
      → u.used ≡ true
      → total + gross run < size
      → total + gross run < 2 ^ 32
      → length run < fuel
      → merge_loop vmm_lengthen fuel curr total a size h ≡ some (Merged.stopped (a + gross run) h)
  unfolding merge_loop Chain
  merge_loop_stops zero curr total a size run u rs h c le free used short small lt =
      absurd (omega arith)
  merge_loop_stops (suc fuel) curr total a size [] u rs h c le free used short small lt =
      rw (load_head a u rs h c le, used, add_zero a)
  merge_loop_stops (suc fuel) curr total a size (r ∷ run) u rs h c le (rf, free) used short small
        lt =
      merge_step fuel curr total a size r (run ++ (u ∷ rs)) h c le
        (omega (arith, Chain-inside h.memory (a + r.size + 5) h.heap_end run u rs c.2)) rf
        (omega arith) (omega arith)
      ∙ merge_loop_stops fuel curr (total + (r.size + 5)) (a + r.size + 5) size run u rs h c.2 le
          free used (omega arith) (omega arith) (omega arith)
      ∙ ap (λ x. some (Merged.stopped x h)) (omega arith)

  -- A run that reaches the size with its last region is taken as a whole.
  pub merge_loop_takes :
      (fuel curr total a size : ℕ) (run rs : List Region) (h : Heap V)
      → Chain h.memory a h.heap_end (run ++ rs)
      → h.heap_end ≤ h.mapped
      → AllFree run
      → Reaches total size run
      → total + gross run < 2 ^ 32
      → length run ≤ fuel
      → merge_loop vmm_lengthen fuel curr total a size h
        ≡ (take_merged curr (total + gross run) size h >>= λ (p, h1). some (Merged.taken p h1))
  unfolding merge_loop Chain
  merge_loop_takes fuel curr total a size [] rs h c le free reach small lt = absurd reach
  merge_loop_takes zero curr total a size (r ∷ run) rs h c le free reach small lt =
      absurd (omega arith)
  merge_loop_takes (suc fuel) curr total a size (r ∷ []) rs h c le (rf, _) reach small lt = rw (
    load_head a r rs h c le,
    rf,
    sum_small total r.size (omega arith),
    leb-true size (total + (r.size + 5)) reach,
    gross_one total r.size,
  )
  merge_loop_takes (suc fuel) curr total a size (r ∷ s ∷ run) rs h c le (rf, free) (short, reach)
        small lt =
      merge_step fuel curr total a size r ((s ∷ run) ++ rs) h c le
        (omega (arith, Chain-inside h.memory (a + r.size + 5) h.heap_end [] s (run ++ rs) c.2)) rf
        short (omega arith)
      ∙ merge_loop_takes fuel curr (total + (r.size + 5)) (a + r.size + 5) size (s ∷ run) rs h c.2
          le free reach (omega arith) (omega arith)
      ∙ ap (λ t. take_merged curr t size h >>= λ (p, h1). some (Merged.taken p h1)) (omega arith)
