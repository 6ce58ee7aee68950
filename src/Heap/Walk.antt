-- ===== src/Heap/Walk.antt =====
-- The regions that the outer loop of `kmalloc` passes, and the one that it stops at.
use titan_os.Base.{
  ℕ, zero, suc, ◌+◌, ◌-◌, ◌^◌, ◌≡◌, ◌<◌, ◌≤◌, refl, ◌∙◌, ap, Bool, true, false, Option, none, some,
  List, [], ◌∷◌, ◌++◌, leb-true, leb-false, arith, length, length-append, ◌>>=◌,
}
use mathlib.Core.Path.{subst}
use mathlib.Core.List.{append_assoc}
use titan_os.Heap.{
  Region, Heap, Merged, taken, stopped, go_to_next_memory_region, page_round, take_region,
  take_merged, kmalloc_loop,
}
use titan_os.Heap.Chain.{Chain, gross, Chain-gross, gross-append, Chain-inside, Chain-split, IsHeap}
use titan_os.Heap.Merge.{
  AllFree, Reaches, grow_at_inside, load_head, merge_loop_stops, merge_loop_takes,
}
use titan_os.Heap.Place.{IsAt}

-- A run of free regions, and the used region behind it.
pub record Segment : Type 0 where
  pub run : List Region
  pub stop : Region

abbrev pub flatten : List Segment → List Region
flatten [] = []
flatten (s ∷ ss) = s.run ++ (s.stop ∷ flatten ss)

abbrev pub TooSmall : ℕ → List Region → Type 0
TooSmall size [] = Unit
TooSmall size (r ∷ rs) = r.size + gross rs < size

-- The segments that `kmalloc` passes over.
abbrev pub Passed : ℕ → List Segment → Type 0
Passed size [] = Unit
Passed size (s ∷ ss) = AllFree s.run × TooSmall size s.run × (s.stop.used ≡ true) × Passed size ss

zero_add : (n : ℕ) → 0 + n ≡ n
zero_add n = omega arith

add_zero : (n : ℕ) → n + 0 ≡ n
add_zero n = omega arith

-- The result that the inner loop hands on.
taken_back :
    {V : Type 0} (k : ℕ → Heap V → Option (ℕ × Heap V)) (o : Option (ℕ × Heap V))
    → ((o >>= λ (p, h1). some (Merged.taken p h1)) >>= λ m. elim m [
      | taken p h2 ↦ some (p, h2)
      | stopped n h2 ↦ k n h2
    ])
      ≡ o
taken_back k none = refl
taken_back k (some (p, h)) = refl

module _ {V : Type 0} (vmm_lengthen : V → Option (Bool × V)) where
  -- A used region is passed over.
  kmalloc_used :
      (fuel a size : ℕ) (u : Region) (rs : List Region) (h : Heap V)
      → Chain h.memory a h.heap_end (u ∷ rs)
      → h.heap_end ≤ h.mapped
      → u.used ≡ true
      → kmalloc_loop vmm_lengthen (suc fuel) a size h
        ≡ kmalloc_loop vmm_lengthen fuel (a + u.size + 5) size h
  unfolding kmalloc_loop go_to_next_memory_region
  kmalloc_used fuel a size u rs h c le used = rw (
    leb-false h.heap_end a (omega (arith, Chain-inside h.memory a h.heap_end [] u rs c)),
    load_head vmm_lengthen a u rs h c le,
    used,
  )

  -- A free region that is too small, and the run of free ones behind it, up to a used one.
  kmalloc_run :
      (fuel a size : ℕ) (r : Region) (run : List Region) (u : Region) (rs : List Region)
      (h : Heap V)
      → Chain h.memory a h.heap_end (r ∷ (run ++ (u ∷ rs)))
      → h.heap_end ≤ h.mapped
      → h.heap_end < a + 2 ^ 32
      → r.used ≡ false
      → AllFree run
      → r.size + gross run < size
      → u.used ≡ true
      → length run < fuel
      → kmalloc_loop vmm_lengthen (suc fuel) a size h
        ≡ kmalloc_loop vmm_lengthen fuel (a + (r.size + 5 + gross run) + u.size + 5) size h
  unfolding kmalloc_loop go_to_next_memory_region Chain
  kmalloc_run fuel a size r run u rs h c le near rf free short used lt =
      let next = a + r.size + 5 in
      let inside = Chain-inside h.memory next h.heap_end run u rs c.2 in
      let (_, back) = Chain-split h.memory next h.heap_end run (u ∷ rs) c.2 in
      let here : next + gross run ≡ a + (r.size + 5 + gross run) = omega arith in
      rw (
        leb-false h.heap_end a (omega arith),
        load_head vmm_lengthen a r (run ++ (u ∷ rs)) h c le,
        rf,
        leb-false size r.size (omega arith),
        grow_at_inside vmm_lengthen next (page_round (size - r.size)) h (omega arith),
        merge_loop_stops vmm_lengthen fuel a r.size next size run u rs h c.2 le free used short
            (omega arith) lt,
        load_head vmm_lengthen (next + gross run) u rs h back le,
        here,
      )

  -- The first segment is passed.
  kmalloc_segment :
      (fuel a size : ℕ) (run : List Region) (u : Region) (rs : List Region) (h : Heap V)
      → Chain h.memory a h.heap_end (run ++ (u ∷ rs))
      → h.heap_end ≤ h.mapped
      → h.heap_end < a + 2 ^ 32
      → AllFree run
      → TooSmall size run
      → u.used ≡ true
      → length run ≤ fuel
      → kmalloc_loop vmm_lengthen (suc fuel) a size h
        ≡ kmalloc_loop vmm_lengthen fuel (a + (gross run + (u.size + 5))) size h
  kmalloc_segment fuel a size [] u rs h c le near free small used lt =
      kmalloc_used fuel a size u rs h c le used
      ∙ ap (λ x. kmalloc_loop vmm_lengthen fuel x size h) (omega arith)
  kmalloc_segment fuel a size (r ∷ run) u rs h c le near (rf, free) small used lt =
      kmalloc_run fuel a size r run u rs h c le near rf free small used (omega arith)
      ∙ ap (λ x. kmalloc_loop vmm_lengthen fuel x size h) (omega arith)

  -- Segments that are passed change nothing.
  pub kmalloc_segments :
      (segments : List Segment) (rs : List Region) (fuel left a size : ℕ) (h : Heap V)
      → fuel ≡ length segments + left
      → Chain h.memory a h.heap_end (flatten segments ++ rs)
      → h.heap_end ≤ h.mapped
      → h.heap_end < a + 2 ^ 32
      → Passed size segments
      → length (flatten segments) ≤ left
      → kmalloc_loop vmm_lengthen fuel a size h
        ≡ kmalloc_loop vmm_lengthen left (a + gross (flatten segments)) size h
  unfolding Chain
  kmalloc_segments [] rs fuel left a size h e c le near p lt = rw (e, zero_add left, add_zero a)
  kmalloc_segments (s ∷ ss) rs zero left a size h e c le near p lt = absurd (omega arith)
  kmalloc_segments (s ∷ ss) rs (suc fuel) left a size h e c le near (free, small, used, p) lt =
      let flat = append_assoc s.run (s.stop ∷ flatten ss) rs in
      let c' = subst (λ x. Chain h.memory a h.heap_end x) flat c in
      let (_, there) = Chain-split h.memory a h.heap_end s.run (s.stop ∷ (flatten ss ++ rs)) c' in
      let g = gross-append s.run (s.stop ∷ flatten ss) in
      let n = length-append s.run (s.stop ∷ flatten ss) in
      let b : a + gross s.run + s.stop.size + 5 ≡ a + (gross s.run + (s.stop.size + 5)) =
        omega arith in
      kmalloc_segment fuel a size s.run s.stop (flatten ss ++ rs) h c' le near free small used
        (omega arith)
      ∙ kmalloc_segments ss rs fuel left (a + (gross s.run + (s.stop.size + 5))) size h
          (omega arith) (subst (λ x. Chain h.memory x h.heap_end (flatten ss ++ rs)) b there.2) le
          (omega arith) p (omega arith)
      ∙ ap (λ x. kmalloc_loop vmm_lengthen left x size h) (omega arith)

  -- The region that a walk over `segments` comes to.
  pub segments-IsAt :
      (heap_start : ℕ) (segments : List Segment) (r : Region) (after : List Region) (h : Heap V)
      → IsHeap heap_start (flatten segments ++ (r ∷ after)) h
      → IsAt heap_start (heap_start + gross (flatten segments)) (flatten segments) r after h
  segments-IsAt heap_start segments r after h heap =
      let (front, back) =
        Chain-split h.memory heap_start h.heap_end (flatten segments) (r ∷ after) heap.chain in
      record { front = front; here = back; pages = heap.pages }

  -- At a free region that holds the size.
  pub kmalloc_fits :
      {heap_start b : ℕ} {before : List Region} {r : Region} {after : List Region} {h : Heap V}
      (fuel size : ℕ)
      → IsAt heap_start b before r after h
      → r.used ≡ false
      → size ≤ r.size
      → kmalloc_loop vmm_lengthen (suc fuel) b size h ≡ take_region b r size h
  unfolding kmalloc_loop
  kmalloc_fits {heap_start} {b} {before} {r} {after} {h} fuel size i free fits = rw (
    leb-false h.heap_end b (omega (arith, Chain-inside h.memory b h.heap_end [] r after i.here)),
    load_head vmm_lengthen b r after h i.here i.pages,
    free,
    leb-true size r.size fits,
  )

  -- At a free region that holds it together with the run behind it.
  pub kmalloc_merges :
      {heap_start b : ℕ} {before : List Region} {r : Region} (s : Region) (run after : List Region)
      {h : Heap V} (fuel size : ℕ)
      → IsAt heap_start b before r (s ∷ (run ++ after)) h
      → h.heap_end < b + 2 ^ 32
      → r.used ≡ false
      → r.size < size
      → AllFree (s ∷ run)
      → Reaches r.size size (s ∷ run)
      → length (s ∷ run) ≤ fuel
      → kmalloc_loop vmm_lengthen (suc fuel) b size h
        ≡ take_merged b (r.size + gross (s ∷ run)) size h
  unfolding kmalloc_loop go_to_next_memory_region Chain
  kmalloc_merges {heap_start} {b} {before} {r} s run after {h} fuel size i near free short all reach
        lt =
      let next = b + r.size + 5 in
      let inside = Chain-inside h.memory next h.heap_end [] s (run ++ after) i.here.2 in
      let whole = Chain-gross h.memory next h.heap_end (s ∷ (run ++ after)) i.here.2 in
      let parts = gross-append run after in
      rw
        (
          leb-false h.heap_end b (omega arith),
          load_head vmm_lengthen b r (s ∷ (run ++ after)) h i.here i.pages,
          free,
          leb-false size r.size short,
          grow_at_inside vmm_lengthen next (page_round (size - r.size)) h (omega arith),
          merge_loop_takes vmm_lengthen fuel b r.size next size (s ∷ run) after h i.here.2 i.pages
              all reach (omega arith) lt,
        )
        (taken_back _ (take_merged b (r.size + gross (s ∷ run)) size h))

  pub segments_fewer : (segments : List Segment) → length segments ≤ length (flatten segments)
  segments_fewer [] = omega arith
  segments_fewer (s ∷ ss) =
      omega (arith, segments_fewer ss, length-append s.run (s.stop ∷ flatten ss))
