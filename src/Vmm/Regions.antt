-- ===== src/Vmm/Regions.antt =====
-- The list of regions of an address space in src/kernel/mm/vmm.c, from `current_vmm->head` on. What
-- backs a page, the call of `pmm_alloc_page` or `pmm_alloc_specific_page` and that of `mmap`, is an
-- operation on a state `M`.
pub mod Layout
pub mod Changes
use titan_os.Base.{
  ℕ, zero, suc, ◌+◌, ◌-◌, ◌*◌, ◌/◌, ◌%◌, ◌^◌, Bool, true, false, not, ◌&&◌, Option, none, some,
  List, [], ◌∷◌, ◌==◌, leb, ltb, if◌then◌else◌, u64, ◌>>=◌, bit_and,
}
use titan_os.Vmm.Paging.{page_align_down}

-- `vm_object`.
pub record Region : Type 0 where
  pub base : ℕ
  pub length : ℕ
  pub flags : ℕ

-- The end of a region.
abbrev pub end_of : Region → ℕ
end_of r = u64 (r.base + r.length)

abbrev pub page_align : ℕ → ℕ
page_align n = (n + 0xfff) / 0x1000 * 0x1000

-- Whether `pages` pages from `vaddr` on are backed. The page at `args` is asked for if `args` is not
-- NULL, and any page otherwise.
pub record Backing (M : Type 0) : Type 0 where
  pub back : ℕ → ℕ → ℕ → M → Option (Bool × M)

-- The answer of a walk through the list: the list with the change, or none of it.
pub data Walk : Type 0 where
  changed : List Region → Region → Walk
  refused : Walk

pub then_walk : Region → Walk → Walk
then_walk r (changed rs old) = Walk.changed (r ∷ rs) old
then_walk r refused = Walk.refused

-- The walk of `vmm_lengthen`, which changes the length of the region that starts at `start`.
pub lengthen_walk : ℕ → ℕ → List Region → Walk
lengthen_walk start inc [] = Walk.refused
lengthen_walk start inc (r ∷ []) =
    if r.base == start
    then Walk.changed (record r { length = u64 (r.length + inc) } ∷ []) r
    else Walk.refused
lengthen_walk start inc (r ∷ n ∷ rs) =
    let rest = lengthen_walk start inc (n ∷ rs) in
    if r.base == start
    then (if leb (u64 (r.base + r.length + inc)) n.base
        then Walk.changed (record r { length = u64 (r.length + inc) } ∷ n ∷ rs) r
        else Walk.refused)
    else then_walk r rest

module _ {M : Type 0} (backing : Backing M) where
  -- The loops that back the new pages, from `vaddr` on.
  unfoldable pub back_pages : ℕ → ℕ → ℕ → ℕ → M → Option (Bool × M)
  back_pages zero vaddr args flags m = some (true, m)
  back_pages (suc left) vaddr args flags m =
      let rest = λ (m' : M).
        back_pages left (u64 (vaddr + 0x1000)) (if args == 0 then 0 else u64 (args + 0x1000)) flags
          m' in
      do (ok, m') ← backing.back vaddr args flags m; if ok then rest m' else some (false, m')

  -- `vmm_lengthen` by an `inc` that is not negative. `PAGE_ALIGN` adds to an int, which is undefined
  -- where the sum does not fit. A region of devices is refused after its length was changed.
  pub vmm_lengthen : ℕ → ℕ → List Region → M → Option (Bool × List Region × M)
  vmm_lengthen start inc rs m =
      if ltb (inc + 0xfff) (2 ^ 31)
      then (elim (lengthen_walk start (page_align inc) rs) [
        | refused ↦ some (false, rs, m)
        | changed rs' old ↦
            if bit_and old.flags 0x10 == 0
            then (back_pages (page_align inc / 0x1000) (end_of old) 0 old.flags m >>= λ (ok, m').
                some (ok, rs', m'))
            else some (page_align inc == 0, rs', m)
      ])
      else none

-- The first fit of `vmm_alloc`: the list with the new region, behind the first region that leaves room.
-- Without such a region `found` has no value, which is undefined.
pub insert_first_fit : ℕ → ℕ → List Region → Option (ℕ × List Region)
insert_first_fit length flags [] = none
insert_first_fit length flags (r ∷ []) = none
insert_first_fit length flags (r ∷ n ∷ rs) =
    let rest = insert_first_fit length flags (n ∷ rs) in
    let base = end_of r in
    if ltb (u64 (base + length)) n.base
    then some (base, r ∷ record { base = base; length = length; flags = flags } ∷ n ∷ rs)
    else (rest >>= λ (found, rs'). some (found, r ∷ rs'))

-- The placement of `vmm_alloc` at a given address: none of it where the test of the code refuses.
unfoldable pub insert_at : ℕ → ℕ → ℕ → List Region → Option (List Region)
insert_at start length flags [] = none
insert_at start length flags (r ∷ []) =
    some (r ∷ record { base = start; length = length; flags = flags } ∷ [])
insert_at start length flags (r ∷ n ∷ rs) =
    let rest = insert_at start length flags (n ∷ rs) in
    if leb r.base start && ltb start n.base
    then (if ltb start (end_of r) && ltb (u64 (start + length)) n.base
        then none
        else some (r ∷ record { base = start; length = length; flags = flags } ∷ n ∷ rs))
    else (rest >>= λ rs'. some (r ∷ rs'))

module _ {M : Type 0} (backing : Backing M) where
  -- The end of `vmm_alloc`: 0 stands for NULL.
  unfoldable pub back_region : ℕ → ℕ → ℕ → ℕ → List Region → M → Option (ℕ × List Region × M)
  back_region found length flags args rs m = do
    (ok, m') ← back_pages backing ((length + 0xfff) / 0x1000) found args flags m
    some ((if ok then found else 0), rs, m')

  unfoldable pub vmm_alloc : ℕ → ℕ → ℕ → ℕ → List Region → M → Option (ℕ × List Region × M)
  vmm_alloc start_region size flags args rs m =
      let length = page_align size in
      let start = page_align_down start_region in
      if start == 0
      then (insert_first_fit length flags rs >>= λ (found, rs').
          back_region found length flags (page_align_down args) rs' m)
      else elim (insert_at start length flags rs) [
        | none ↦ some (0, rs, m)
        | some rs' ↦ back_region start length flags (page_align_down args) rs' m
      ]

-- The walk of `vmm_free` behind the head: the region that starts at `start` leaves the list.
unfoldable pub unlink : ℕ → List Region → Option (List Region)
unlink start [] = none
unlink start (r ∷ rs) =
    let rest = unlink start rs in
    if r.base == start then some rs else (rest >>= λ rs'. some (r ∷ rs'))

-- `vmm_free`, without `umap`, which changes nothing.
unfoldable pub vmm_free : ℕ → List Region → Option (List Region)
vmm_free start [] = none
vmm_free start (r ∷ rs) =
    if r.base == start then some (r ∷ rs) else (unlink start rs >>= λ rs'. some (r ∷ rs'))
