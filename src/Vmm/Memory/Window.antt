-- ===== src/Vmm/Memory/Window.antt =====
-- The loop of `vmm_alloc` that backs a region in one table of level 0.
use titan_os.Base.{
  ℕ, zero, suc, ◌+◌, ◌<◌, ◌≤◌, ◌≡◌, ◌≢◌, ◌⊎◌, inl, inr, refl, sym, ap, ◌∙◌, Option, true, some,
  List, [], ◌∷◌, ◌>>=◌, u64, length, bit_or, arith,
}
use titan_os.Pmm.{Map, alloc_page}
use titan_os.Pmm.State.{IsValid}
use titan_os.Vmm.Paging.{get_index}
use titan_os.Vmm.Paging.Mapping.{Path3}
use titan_os.Vmm.Regions.{back_pages}
use titan_os.Vmm.Memory.{Memory, Pages, ops, backing}
use titan_os.Vmm.Memory.Backed.{backing-Path3}
use mathlib.Core.Path.{subst}

-- The pages of `n` calls of `pmm_alloc_page`, in their order.
pub alloc_pages : ℕ → Map → Option (List ℕ × Map)
alloc_pages zero m = some ([], m)
alloc_pages (suc n) m = do
  (paddr, m1) ← alloc_page m
  (paddrs, m2) ← alloc_pages n m1
  some (paddr ∷ paddrs, m2)

-- The tables for an address are present, and the upper ones are not the table of level 0.
pub record Reaches (walk fuel : ℕ) (t : Memory) (vaddr bottom : ℕ) : Type 0 where
  pub path : Path3 (ops walk fuel) t t.pages.current_pml4t_ptr vaddr bottom
  pub apart3 : t.pages.current_pml4t_ptr ≢ bottom
  pub apart2 : path.table2 ≢ bottom
  pub apart1 : path.table1 ≢ bottom

-- The tables for `n` pages from an address on are present, and the entries of the pages in the table of
-- level 0 are those from `index` on.
abbrev pub Paths : ℕ → ℕ → Memory → ℕ → ℕ → ℕ → ℕ → Type 0
Paths walk fuel t bottom zero vaddr index = Unit
Paths walk fuel t bottom (suc n) vaddr index =
    Reaches walk fuel t vaddr bottom
    × (get_index vaddr 0 ≡ index)
    × Paths walk fuel t bottom n (u64 (vaddr + 0x1000)) (suc index)

-- The entries of a table from `index` on have the pages of a list with flags.
abbrev pub HasPages : Memory → ℕ → ℕ → ℕ → List ℕ → Type 0
HasPages t bottom flags index [] = Unit
HasPages t bottom flags index (paddr ∷ paddrs) =
    (t.entry bottom index ≡ bit_or (bit_or paddr flags) 0x7)
    × HasPages t bottom flags (suc index) paddrs

-- A change to the table of level 0 and to the free pages leaves a path as it is.
module _ (walk fuel : ℕ) (t u : Memory) (m : Map) (bottom : ℕ)
    (pages : u.pages ≡ record t.pages { map = m })
    (others : (a i : ℕ) → a ≢ bottom → u.entry a i ≡ t.entry a i) where
  Reaches-same : {vaddr : ℕ} → Reaches walk fuel t vaddr bottom → Reaches walk fuel u vaddr bottom
  Reaches-same {vaddr} r =
      let p = r.path in
      let root : u.pages.current_pml4t_ptr ≡ t.pages.current_pml4t_ptr = rw pages in
      record {
        path = record {
          table2 = p.table2;
          table1 = p.table1;
          present3 =
              rw (root, others t.pages.current_pml4t_ptr (get_index vaddr 3) r.apart3) p.present3;
          known3 =
              rw (root, others t.pages.current_pml4t_ptr (get_index vaddr 3) r.apart3, pages)
                p.known3;
          present2 = rw (others p.table2 (get_index vaddr 2) r.apart2) p.present2;
          known2 = rw (others p.table2 (get_index vaddr 2) r.apart2, pages) p.known2;
          present1 = rw (others p.table1 (get_index vaddr 1) r.apart1) p.present1;
          known1 = rw (others p.table1 (get_index vaddr 1) r.apart1, pages) p.known1;
          some2 = p.some2;
          some1 = p.some1;
          some0 = p.some0;
        };
        apart3 = rw root r.apart3;
        apart2 = r.apart2;
        apart1 = r.apart1;
      }

  Paths-same :
      (n vaddr index : ℕ)
      → Paths walk fuel t bottom n vaddr index
      → Paths walk fuel u bottom n vaddr index
  Paths-same zero vaddr index ps = tt
  Paths-same (suc n) vaddr index (r, at, ps) =
      (Reaches-same r, at, Paths-same n (u64 (vaddr + 0x1000)) (suc index) ps)

-- The loop of `vmm_alloc` over `n` pages with no address given, where the tables for them are present,
-- the map of the pages is valid and the entries are in one table of level 0: it is free of undefined
-- behaviour and succeeds. The pages are those that `n` calls of `pmm_alloc_page` return, in their order;
-- each entry has its page with the flags and 0x7, no other entry of any table changes, and the tables
-- that are known stay so.
pub back_pages-alloc_pages :
    {t : Memory} (walk fuel flags bottom n vaddr index : ℕ)
    → IsValid t.pages.map
    → Paths walk fuel t bottom n vaddr index
    → (paddrs : List ℕ) × (m : Map) × (u : Memory) × (alloc_pages n t.pages.map ≡ some (paddrs, m))
      × (back_pages (backing walk fuel) n vaddr 0 flags t ≡ some (true, u))
      × (length paddrs ≡ n)
      × HasPages u bottom flags index paddrs
      × ((a i : ℕ) → (a ≢ bottom) ⊎ ((i < index) ⊎ (index + n ≤ i)) → u.entry a i ≡ t.entry a i)
      × (u.pages ≡ record t.pages { map = m })
      × IsValid m
unfolding back_pages alloc_pages
back_pages-alloc_pages {t} walk fuel flags bottom zero vaddr index v ps =
    ([], t.pages.map, t, refl, refl, refl, tt, (λ a i o. refl), refl, v)
back_pages-alloc_pages {t} walk fuel flags bottom (suc n) vaddr index v (r, at, ps) =
    let (paddr, m1, t1, run, page, _, valid, entry, others, same) =
      backing-Path3 walk fuel vaddr flags bottom v r.path in
    let apart : (a i : ℕ) → a ≢ bottom → t1.entry a i ≡ t.entry a i = λ a i o. others a i (inl o) in
    let (paddrs, m, u, calls, loop, count, has, kept, same2, valid2) =
      back_pages-alloc_pages {t = t1} walk fuel flags bottom n (u64 (vaddr + 0x1000)) (suc index)
        (subst IsValid (rw same) valid)
        (Paths-same walk fuel t t1 m1 bottom same apart n (u64 (vaddr + 0x1000)) (suc index) ps) in
    (
      paddr ∷ paddrs,
      m,
      u,
      rw (page, subst (λ p. alloc_pages n p.map ≡ some (paddrs, m)) same calls),
      rw run loop,
      ap suc count,
      (kept bottom index (inr (inl (omega arith))) ∙ ap (t1.entry bottom) (sym at) ∙ entry, has),
      (λ a i o. elim o [
        | inl ne ↦ kept a i (inl ne) ∙ others a i (inl ne)
        | inr (inl lt) ↦
            kept a i (inr (inl (omega arith))) ∙ others a i (inr (λ e. omega (arith, e ∙ at)))
        | inr (inr le) ↦
            kept a i (inr (inr (omega arith))) ∙ others a i (inr (λ e. omega (arith, e ∙ at)))
      ]),
      same2 ∙ ap {A = Pages} (λ p. record p { map = m }) same,
      valid2,
    )
