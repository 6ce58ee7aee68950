-- ===== src/Vmm/Spaces/Placement.antt =====
-- A region at an address that regions end in front of.
use titan_os.Base.{
  ℕ, ◌+◌, ◌/◌, ◌%◌, ◌^◌, ◌≡◌, ◌<◌, ◌≤◌, ◌++◌, true, none, some, List, [], ◌∷◌, ==_ne, leb-true,
  ltb-false, ltb-true, u64, arith,
}
use titan_os.Vmm.Regions.{
  Region, Backing, page_align, vmm_alloc, insert_at, back_region, back_pages,
}
use titan_os.Vmm.Paging.{page_align_down}
use titan_os.Vmm.Spaces.{Space, alloc}

-- Regions that end at `start` or before it.
abbrev pub Behind : ℕ → List Region → Type 0
Behind start [] = Unit
Behind start (r ∷ rs) = (r.base + r.length ≤ start) × Behind start rs

pub Behind-append :
    (start : ℕ) (rs : List Region) (r : Region)
    → Behind start rs
    → r.base + r.length ≤ start
    → Behind start (rs ++ (r ∷ []))
Behind-append start [] r all le = (le, tt)
Behind-append start (x ∷ rs) r (le', all) le = (le', Behind-append start rs r all le)

pub Behind-le : (start end : ℕ) (rs : List Region) → Behind start rs → start ≤ end → Behind end rs
Behind-le start end [] all le = tt
Behind-le start end (r ∷ rs) (le', all) le = (omega arith, Behind-le start end rs all le)

pub insert_at-Behind :
    (start length flags : ℕ) (r : Region) (rs : List Region) (n : Region) (ps : List Region)
    → Behind start (r ∷ rs)
    → start < n.base
    → n.base < 2 ^ 64
    → insert_at start length flags (r ∷ (rs ++ (n ∷ ps)))
      ≡ some (r ∷ (rs ++ (record { base = start; length = length; flags = flags } ∷ n ∷ ps)))
unfolding insert_at
insert_at-Behind start length flags r [] n ps (le, all) below top =
    let small : u64 (r.base + r.length) ≡ r.base + r.length = omega arith in
    rw (
      leb-true r.base start (omega arith),
      ltb-true start n.base below,
      small,
      ltb-false start (r.base + r.length) le,
    )
insert_at-Behind start length flags r (x ∷ rs) n ps (le, all) below top = rw (
  leb-true r.base start (omega arith),
  ltb-false start x.base (omega arith),
  insert_at-Behind start length flags x rs n ps all below top,
)

-- A start that a region has is refused where the length fits in front of the next one.
pub insert_at-taken :
    (length flags : ℕ) (r : Region) (rs : List Region) (p n : Region) (ps : List Region)
    → Behind p.base (r ∷ rs)
    → 0 < p.length
    → p.base + p.length < 2 ^ 64
    → p.base + length < n.base
    → n.base < 2 ^ 64
    → insert_at p.base length flags (r ∷ (rs ++ (p ∷ n ∷ ps))) ≡ none
unfolding insert_at
insert_at-taken length flags r [] p n ps (le, all) positive fits room top =
    let small : u64 (p.base + length) ≡ p.base + length = omega arith in
    let end : u64 (p.base + p.length) ≡ p.base + p.length = omega arith in
    rw (
      leb-true r.base p.base (omega arith),
      ltb-false p.base p.base (omega arith),
      leb-true p.base p.base (omega arith),
      ltb-true p.base n.base (omega arith),
      end,
      small,
      ltb-true p.base (p.base + p.length) (omega arith),
      ltb-true (p.base + length) n.base room,
    )
insert_at-taken length flags r (x ∷ rs) p n ps (le, all) positive fits room top = rw (
  leb-true r.base p.base (omega arith),
  ltb-false p.base x.base (omega arith),
  insert_at-taken length flags x rs p n ps all positive fits room top,
)

-- `vmm_alloc` at the start of a page, at a place that the list of regions has, when its pages are
-- backed.
pub vmm_alloc-backs :
    {M : Type 0} (backing : Backing M) (start size flags args : ℕ) (rs rs' : List Region) (m m' : M)
    → start % 0x1000 ≡ 0
    → 0 < start
    → insert_at start (page_align size) flags rs ≡ some rs'
    → back_pages backing ((page_align size + 0xfff) / 0x1000) start (page_align_down args) flags m
      ≡ some (true, m')
    → vmm_alloc backing start size flags args rs m ≡ some (start, rs', m')
unfolding vmm_alloc back_region
vmm_alloc-backs backing start size flags args rs rs' m m' aligned positive at run =
    let same : page_align_down start ≡ start = omega arith in
    rw (same, ==_ne start 0 (omega arith), at, back_region, same, run)

pub alloc-backs :
    {M : Type 0} (backing : Backing M) (start size flags args : ℕ) (rs' : List Region) (s : Space M)
    (m : M)
    → start % 0x1000 ≡ 0
    → 0 < start
    → insert_at start (page_align size) flags s.regions ≡ some rs'
    → back_pages backing
        ((page_align size + 0xfff) / 0x1000)
        start
        (page_align_down args)
        flags
        s.pages
      ≡ some (true, m)
    → alloc backing start size flags args s ≡ some (start, record s { regions = rs'; pages = m })
unfolding alloc
alloc-backs backing start size flags args rs' s m aligned positive at run = rw (
  alloc,
  vmm_alloc-backs backing start size flags args s.regions rs' s.pages m aligned positive at run,
)
