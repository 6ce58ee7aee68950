-- ===== src/Heap/Place.antt =====
-- What taking and giving back a region does to the list of regions.
use titan_os.Base.{
  ℕ, ◌+◌, ◌-◌, ◌^◌, ◌≡◌, ◌<◌, ◌≤◌, refl, sym, ◌∙◌, ap, true, false, some, List, [], ◌∷◌, ◌++◌, ltb,
  ltb-true, ltb-false, if◌then◌else◌, arith, inl, u32, u64,
}
use mathlib.Core.Path.{subst}
use native.Mathlib.Decide.{dec_lt}
use titan_os.Heap.{Memory, Region, Heap, load, save, write_region, take_region, take_merged}
use titan_os.Heap.Bytes.{read_region-write_region, read_region-write_other}
use titan_os.Heap.Chain.{
  Chain, Chain-gross, Chain-inside, Chain-append, Chain-write_behind, Chain-write_before, IsHeap,
  load-read_region, save-write_region,
}

-- What becomes of free space of `total` bytes behind a header.
abbrev pub placed : ℕ → ℕ → List Region
placed size total =
    if ltb (size + 5) total
    then record { used = true; size = size } ∷ record { used = false; size = total - size - 5 } ∷ []
    else record { used = true; size = total } ∷ []

-- The flag of one region is changed.
pub replace_region :
    (m : Memory) (a b e : ℕ) (before : List Region) (r new : Region) (after : List Region)
    → Chain m a b before
    → Chain m b e (r ∷ after)
    → new.size ≡ r.size
    → Chain (write_region b new m) a e (before ++ (new ∷ after))
unfolding Chain
replace_region m a b e before r new after c (at, lt, d) same =
    Chain-append (write_region b new m) a b e before (new ∷ after)
      (Chain-write_behind m a b b new before c (omega arith))
      (
        read_region-write_region b new m (omega arith),
        omega arith,
        subst (λ n. Chain (write_region b new m) (b + n + 5) e after) (sym same)
            (Chain-write_before m (b + r.size + 5) e b new after d (omega arith)),
      )

-- Space of `total` bytes is split into a used and a free region.
pub split_region :
    (m : Memory) (a b e total size : ℕ) (before after : List Region)
    → Chain m a b before
    → Chain m (b + total + 5) e after
    → total < 2 ^ 32
    → size + 5 < total
    → Chain
        (write_region
          (b + size + 5)
          (record { used = false; size = total - size - 5 })
          (write_region b (record { used = true; size = size }) m))
        a
        e
        (before
          ++ (record { used = true; size = size }
              ∷ record { used = false; size = total - size - 5 }
              ∷ after))
unfolding Chain
split_region m a b e total size before after c d small lt =
    let taken : Region = record { used = true; size = size } in
    let left : Region = record { used = false; size = total - size - 5 } in
    let m1 = write_region b taken m in
    let m2 = write_region (b + size + 5) left m1 in
    Chain-append m2 a b e before (taken ∷ left ∷ after)
      (Chain-write_behind m1 a b (b + size + 5) left before
        (Chain-write_behind m a b b taken before c (omega arith)) (omega arith))
      (
        read_region-write_other (b + size + 5) left m1 b (inl (omega arith))
            ∙ read_region-write_region b taken m (omega arith),
        omega arith,
        (
          read_region-write_region (b + size + 5) left m1 (omega arith),
          omega arith,
          subst (λ x. Chain m2 x e after) (omega arith)
              (Chain-write_before m1 (b + total + 5) e (b + size + 5) left after
                (Chain-write_before m (b + total + 5) e b taken after d (omega arith))
                (omega arith)),
        ),
      )

module _ {V : Type 0} where
  -- The region `r` at `b` of a heap, with `before` in front of it and `after` behind it.
  pub record IsAt (heap_start b : ℕ) (before : List Region) (r : Region) (after : List Region)
      (h : Heap V) : Type 0 where
    pub front : Chain h.memory heap_start b before
    pub here : Chain h.memory b h.heap_end (r ∷ after)
    pub pages : h.heap_end ≤ h.mapped

  -- The region gets the header `new` of the same size.
  pub save-IsAt :
      {heap_start b : ℕ} {before : List Region} {r : Region} {after : List Region} {h : Heap V}
      (new : Region)
      → IsAt heap_start b before r after h
      → new.size ≡ r.size
      → (h' : Heap V) × (save b new h ≡ some h')
        × IsHeap heap_start (before ++ (new ∷ after)) h'
        × (h'.heap_end ≡ h.heap_end)
  save-IsAt {heap_start} {b} {before} {r} {after} {h} new i same = (
    record h { memory = write_region b new h.memory },
    save-write_region b new h
        (omega (arith, Chain-inside h.memory b h.heap_end [] r after i.here, i.pages)),
    record {
      chain =
          replace_region h.memory heap_start b h.heap_end before r new after i.front i.here same;
      pages = i.pages;
    },
    refl,
  )

  -- Both ways to split come to this.
  save_two :
      (heap_start b : ℕ) (before after : List Region) (h : Heap V) (total size : ℕ)
      → Chain h.memory heap_start b before
      → Chain h.memory (b + total + 5) h.heap_end after
      → h.heap_end ≤ h.mapped
      → total < 2 ^ 32
      → size + 5 < total
      → (h1 : Heap V) × (h' : Heap V) × (save b (record { used = true; size = size }) h ≡ some h1)
        × (save (b + size + 5) (record { used = false; size = total - size - 5 }) h1 ≡ some h')
        × IsHeap heap_start (before ++ (placed size total ++ after)) h'
        × (h'.heap_end ≡ h.heap_end)
  save_two heap_start b before after h total size c d le small lt =
      let taken : Region = record { used = true; size = size } in
      let left : Region = record { used = false; size = total - size - 5 } in
      let end = Chain-gross h.memory (b + total + 5) h.heap_end after d in
      let h1 = record h { memory = write_region b taken h.memory } in
      (
        h1,
        record h { memory = write_region (b + size + 5) left h1.memory },
        save-write_region b taken h (omega arith),
        save-write_region (b + size + 5) left h1 (omega arith),
        record {
          chain =
              rw (ltb-true (size + 5) total lt) (
                split_region h.memory heap_start b h.heap_end total size before after c d small lt);
          pages = le;
        },
        refl,
      )

  pub take_region_lem :
      {heap_start b : ℕ} {before : List Region} {r : Region} {after : List Region} {h : Heap V}
      (size : ℕ)
      → IsAt heap_start b before r after h
      → size ≤ r.size
      → 5 ≤ r.size
      → (h' : Heap V) × (take_region b r size h ≡ some (b + 5, h'))
        × IsHeap heap_start (before ++ (placed size r.size ++ after)) h'
        × (h'.heap_end ≡ h.heap_end)
  unfolding take_region Chain
  take_region_lem {heap_start} {b} {before} {r} {after} {h} size i fits five =
      let rest : u64 (r.size + 2 ^ 64 - 5) ≡ r.size - 5 = omega (arith, i.here.1) in
      elim (dec_lt (size + 5) r.size) [
        | yes lt ↦
            let s : u32 size ≡ size = omega (arith, i.here.1) in
            let l : u32 (r.size + 2 ^ 64 - size - 5) ≡ r.size - size - 5 =
              omega (arith, i.here.1) in
            let (h1, h', run1, run2, heap, end) =
              save_two heap_start b before after h r.size size i.front i.here.2 i.pages i.here.1
                lt in
            (h', rw (rest, ltb-true size (r.size - 5) (omega arith), s, l, run1, run2), heap, end)
        | no ge ↦
            let (h', run, heap, end) = save-IsAt (record { used = true; size = r.size }) i refl in
            (
              h',
              rw (rest, ltb-false size (r.size - 5) (omega arith), run),
              rw (ltb-false (size + 5) r.size (omega arith)) heap,
              end,
            )
      ]

  -- Space of `total` bytes from the region `r` on, `run` being the regions that it is merged with.
  pub take_merged_lem :
      {heap_start b : ℕ} {before : List Region} {r : Region} (run after : List Region) {h : Heap V}
      (total size : ℕ)
      → IsAt heap_start b before r (run ++ after) h
      → Chain h.memory (b + total + 5) h.heap_end after
      → total < 2 ^ 32
      → 5 ≤ total
      → size ≤ total
      → (h' : Heap V) × (take_merged b total size h ≡ some (b + 5, h'))
        × (h'.heap_end ≡ h.heap_end)
        × (size + 5 < total → IsHeap heap_start (before ++ (placed size total ++ after)) h')
        × (total ≤ size + 5
            → IsHeap heap_start
                (before ++ (record { used = true; size = r.size } ∷ (run ++ after)))
                h')
  unfolding take_merged Chain
  take_merged_lem {heap_start} {b} {before} {r} run after {h} total size i d small five fits =
      let end = Chain-gross h.memory (b + total + 5) h.heap_end after d in
      let le = i.pages in
      let loads : load b h ≡ some r = load-read_region b h (omega arith) ∙ ap some i.here.0 in
      let rest : u32 (total + 2 ^ 32 - 5) ≡ total - 5 = omega arith in
      elim (dec_lt (size + 5) total) [
        | yes lt ↦
            let s : u32 size ≡ size = omega arith in
            let l : u32 (total + 2 ^ 64 - size - 5) ≡ total - size - 5 = omega arith in
            let (h1, h', run1, run2, heap, same) =
              save_two heap_start b before after h total size i.front d i.pages small lt in
            (
              h',
              rw (loads, rest, ltb-true size (total - 5) (omega arith), s, l, run1, run2),
              same,
              (λ p. heap),
              (λ p. absurd (omega arith)),
            )
        | no ge ↦
            let (h', saved, heap, same) =
              save-IsAt (record { used = true; size = r.size }) i refl in
            (
              h',
              rw (loads, rest, ltb-false size (total - 5) (omega arith), saved),
              same,
              (λ p. absurd (ge p)),
              (λ p. heap),
            )
      ]
