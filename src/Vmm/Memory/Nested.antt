-- ===== src/Vmm/Memory/Nested.antt =====
-- `alloc_pg_table` calls itself through `mmap` when the address of the new table has no table yet.
use titan_os.Base.{
  ℕ, ◌<◌, ◌≤◌, zero, suc, ◌+◌, ◌*◌, ◌%◌, ◌≡◌, ◌≢◌, ◌⊎◌, inl, inr, refl, sym, ap, ◌∙◌, false, Option,
  none, some, List, [], ◌∷◌, ==_ne, u64, arith, Option-cases, some_injective,
}
use native.Mathlib.Decide.{ℕ_discrete}
use mathlib.Core.Path.{subst}
use titan_os.Pmm
use titan_os.PageTables.{Ptr, write, get_ptbl_vaddr}
use titan_os.PageTables.State.{IsMap, IsEnough}
use titan_os.PageTables.Put.{known, written-IsMap, get_ptbl_vaddr-written, get_ptbl_vaddr-known}
use titan_os.Vmm.Paging.{get_index, page_align_down, descend, mmap}
use titan_os.Vmm.Spaces.{kernel_page_tbl_start}
use titan_os.Vmm.Memory.{
  Memory, with_pages, zero_node, new_table, enter_table, ops_of, ops, alloc_pg_table,
}
use titan_os.Vmm.Memory.NewTable.{get_freed_pg_tbl-none, alloc_pg_table-new}
use titan_os.Vmm.Memory.Start.{Unused, Unused-frame}

-- On the walk from a table of a level to the one of level 0 for an address an entry is absent; the
-- tables in front of it are known.
pub data Missing (walk : ℕ) (t : Memory) (vaddr : ℕ) : ℕ → ℕ → Type 0 where
  absent :
      {level table : ℕ}
      → t.entry table (get_index vaddr (suc level)) % 2 ≡ 0
      → Missing walk t vaddr (suc level) table
  below :
      {level table next : ℕ}
      → t.entry table (get_index vaddr (suc level)) % 2 ≡ 1
      → get_ptbl_vaddr walk
          (page_align_down (t.entry table (get_index vaddr (suc level))))
          t.pages.hashmap
        ≡ some next
      → next ≢ 0
      → Missing walk t vaddr level next
      → Missing walk t vaddr (suc level) table

-- The result of `alloc_pg_table` gives no table: it is undefined, or NULL.
abbrev pub NoTable : ℕ → Option (ℕ × Memory) → Type 0
NoTable walk r =
    (r ≡ none)
    ⊎ ((u : Memory) × (r ≡ some (0, u)) × (get_ptbl_vaddr walk 0 u.pages.hashmap ≡ some 0))

module _ (walk : ℕ) (alloc : Memory → Option (ℕ × Memory)) where
  descend-Missing :
      (t : Memory) (vaddr level table : ℕ)
      → Missing walk t vaddr level table
      → NoTable walk (alloc t)
      → descend (ops_of walk alloc) level table vaddr t ≡ none
  unfolding descend
  descend-Missing t vaddr zero table m nil = elim m [ ]
  descend-Missing t vaddr (suc level) table (absent e) (inl undefined) = rw (e, undefined)
  descend-Missing t vaddr (suc level) table (absent e) (inr (u, null, unknown)) =
      rw (e, null, unknown)
  descend-Missing t vaddr (suc level) table (below {next} e there ne m) nil =
      rw (e, there, ==_ne next 0 ne) (descend-Missing t vaddr level next m nil)

Missing-same :
    (walk : ℕ) (t u : Memory) (vaddr level table : ℕ)
    → ((a i : ℕ) → u.entry a i ≡ t.entry a i)
    → ((q : ℕ) → get_ptbl_vaddr walk q u.pages.hashmap ≡ get_ptbl_vaddr walk q t.pages.hashmap)
    → Missing walk t vaddr level table
    → Missing walk u vaddr level table
Missing-same walk t u vaddr zero table entries same m = elim m [ ]
Missing-same walk t u vaddr (suc level) table entries same (absent e) =
    Missing.absent (rw (entries table (get_index vaddr (suc level))) e)
Missing-same walk t u vaddr (suc level) table entries same (below {next} e there ne m) =
    Missing.below (rw (entries table (get_index vaddr (suc level))) e)
      (rw (entries table (get_index vaddr (suc level))) (same _ ∙ there)) ne
      (Missing-same walk t u vaddr level next entries same m)

-- The region of the page tables has reached addresses without tables: the next `n` of them have none.
-- The map has no freed table and does not know a table at the physical address 0.
pub record Full (walk n : ℕ) (t : Memory) : Type 0 where
  pub valid : IsMap t.pages.hashmap
  pub enough : IsEnough valid walk
  pub none_freed : t.pages.hashmap.tables ≡ 0
  pub unused : Unused t.pages.hashmap.nodes t.pages.fresh
  pub no_null : known valid 0 ≡ 0
  pub missing :
      (k : ℕ)
      → k < n
      → Missing walk t
          (u64 (kernel_page_tbl_start + u64 (t.pages.page_tbls_length + 0x1000 * suc k)))
          3
          t.pages.current_pml4t_ptr

module _ (walk n : ℕ) (t : Memory) (f : Full walk (suc n) t) (node : Ptr) (rest : List Ptr)
    (next : t.pages.fresh ≡ node ∷ rest) where
  free : Unused t.pages.hashmap.nodes (node ∷ rest)
  free = subst (Unused t.pages.hashmap.nodes) next f.unused

  -- The state with the new node written.
  abbrev written : ℕ → ℕ → ℕ → Pmm.Map → Memory
  written vaddr paddr length map =
      with_pages
        (record t.pages {
          map = map;
          fresh = rest;
          hashmap = record t.pages.hashmap {
            nodes =
                write t.pages.hashmap.nodes node
                  (record zero_node { pt_vaddr = vaddr; pt_paddr = paddr });
          };
          page_tbls_length = length;
        })
        t

  same_lookups :
      (vaddr paddr length : ℕ) (map : Pmm.Map) (q : ℕ)
      → get_ptbl_vaddr walk q (written vaddr paddr length map).pages.hashmap
        ≡ get_ptbl_vaddr walk q t.pages.hashmap
  same_lookups vaddr paddr length map q =
      get_ptbl_vaddr-written f.valid node free.0 free.1 vaddr paddr false walk q f.enough

  no_null_written :
      (vaddr paddr length : ℕ) (map : Pmm.Map)
      → get_ptbl_vaddr walk 0 (written vaddr paddr length map).pages.hashmap ≡ some 0
  no_null_written vaddr paddr length map =
      same_lookups vaddr paddr length map 0
      ∙ get_ptbl_vaddr-known f.valid walk 0 f.enough
      ∙ ap some f.no_null

  written-Full :
      (vaddr paddr : ℕ) (map : Pmm.Map)
      → Full walk n (written vaddr paddr (u64 (t.pages.page_tbls_length + 0x1000)) map)
  unfolding written-IsMap
  written-Full vaddr paddr map =
      let u = written vaddr paddr (u64 (t.pages.page_tbls_length + 0x1000)) map in
      record {
        valid = written-IsMap f.valid node free.0 free.1 vaddr paddr false;
        enough = f.enough;
        none_freed = f.none_freed;
        unused =
            Unused-frame t.pages.hashmap.nodes u.pages.hashmap.nodes node rest
              (λ a out ne. rw (==_ne node a (λ e. ne (sym e))) out) free.2 free.3;
        no_null = f.no_null;
        missing = λ k lt.
            subst (λ x. Missing walk u x 3 u.pages.current_pml4t_ptr)
              (ap (λ x. u64 (kernel_page_tbl_start + x)) (omega arith))
              (Missing-same walk t u _ 3 t.pages.current_pml4t_ptr (λ a i. refl)
                (same_lookups vaddr paddr (u64 (t.pages.page_tbls_length + 0x1000)) map)
                (f.missing (suc k) (omega arith)));
      }

-- `new_table` without a table for the next address.
new_table-none :
    (walk n : ℕ) (alloc : Memory → Option (ℕ × Memory)) (t : Memory)
    → Full walk (suc n) t
    → ((u : Memory) → Full walk n u → NoTable walk (alloc u))
    → (new_table (ops_of walk alloc) t ≡ none)
      ⊎ ((u : Memory) × (new_table (ops_of walk alloc) t ≡ some (none, u))
          × ((map : Pmm.Map) × (Pmm.alloc_page t.pages.map ≡ some (0, map)))
          × (get_ptbl_vaddr walk 0 u.pages.hashmap ≡ some 0))
unfolding new_table mmap
new_table-none walk n alloc t f nothing = by_node t.pages.fresh refl
  where
    Goal : Type 0
    Goal =
        (new_table (ops_of walk alloc) t ≡ none)
        ⊎ ((u : Memory) × (new_table (ops_of walk alloc) t ≡ some (none, u))
            × ((map : Pmm.Map) × (Pmm.alloc_page t.pages.map ≡ some (0, map)))
            × (get_ptbl_vaddr walk 0 u.pages.hashmap ≡ some 0))

    by_page :
        (node : Ptr) (rest : List Ptr) (paddr : ℕ) (map : Pmm.Map)
        → t.pages.fresh ≡ node ∷ rest
        → Pmm.alloc_page t.pages.map ≡ some (paddr, map)
        → Goal
    by_page node rest paddr map e page = elim (ℕ_discrete paddr 0) [
      | yes null ↦ inr (
        written walk n t f node rest e 0 0 t.pages.page_tbls_length map,
        rw (e, page, null),
        (map, rw page (ap (λ p. some (p, map)) null)),
        no_null_written walk n t f node rest e 0 0 t.pages.page_tbls_length map,
      )
      | no there ↦
          let length = u64 (t.pages.page_tbls_length + 0x1000) in
          let vaddr = u64 (kernel_page_tbl_start + length) in
          let u = written walk n t f node rest e vaddr paddr length map in
          let m : Missing walk u vaddr 3 t.pages.current_pml4t_ptr =
            Missing-same walk t u vaddr 3 t.pages.current_pml4t_ptr (λ a i. refl)
              (same_lookups walk n t f node rest e vaddr paddr length map)
              (f.missing 0 (omega arith)) in
          inl (
            rw (
              e,
              page,
              ==_ne paddr 0 there,
              descend-Missing walk alloc u vaddr 3 t.pages.current_pml4t_ptr m
                  (nothing u (written-Full walk n t f node rest e vaddr paddr map)),
            ))
    ]

    by_node : (ps : List Ptr) → t.pages.fresh ≡ ps → Goal
    by_node [] e = inl (rw e)
    by_node (node ∷ rest) e = elim (Option-cases (Pmm.alloc_page t.pages.map)) [
      | inl none_given ↦ inl (rw (e, none_given))
      | inr ((paddr, map), page) ↦ by_page node rest paddr map e page
    ]

alloc_pg_table-none :
    (walk fuel : ℕ) (t : Memory)
    → t.pages.hashmap.tables ≡ 0
    → new_table (ops walk fuel) t ≡ none
    → alloc_pg_table walk (suc fuel) t ≡ none
unfolding alloc_pg_table
alloc_pg_table-none walk fuel t none_freed made =
    rw (get_freed_pg_tbl-none t.pages.hashmap none_freed, made)

enter_table-none : (walk : ℕ) (u : Memory) → enter_table walk u none ≡ some (0, u)
unfolding enter_table
enter_table-none walk u = refl

alloc_pg_table-NoTable :
    (walk fuel : ℕ) (t : Memory) → Full walk fuel t → NoTable walk (alloc_pg_table walk fuel t)
unfolding alloc_pg_table
alloc_pg_table-NoTable walk zero t f = inl refl
alloc_pg_table-NoTable walk (suc fuel) t f =
    elim (new_table-none walk fuel (alloc_pg_table walk fuel) t f
      (λ u g. alloc_pg_table-NoTable walk fuel u g)) [
        | inl e ↦ inl (alloc_pg_table-none walk fuel t f.none_freed e)
        | inr (u, made, _, unknown) ↦ inr (
          u,
          alloc_pg_table-new walk fuel t u f.none_freed made ∙ enter_table-none walk u,
          unknown,
        )
      ]

Full-fewer : {walk n fuel : ℕ} {t : Memory} → fuel ≤ n → Full walk n t → Full walk fuel t
Full-fewer le f = record {
  valid = f.valid;
  enough = f.enough;
  none_freed = f.none_freed;
  unused = f.unused;
  no_null = f.no_null;
  missing = λ k lt. f.missing k (omega arith);
}

-- When the next `n` addresses in the region of the page tables have no tables, as `Full` says, and a
-- page other than page 0 is free, `alloc_pg_table` has no result with `n` nested calls of it or fewer:
-- each asks `mmap` for the table of its new table's address, which calls it again for the next
-- address, unless one of the calls is undefined.
pub alloc_pg_table-nested :
    (walk n fuel paddr : ℕ) (map : Pmm.Map) (t : Memory)
    → fuel ≤ n
    → Full walk n t
    → Pmm.alloc_page t.pages.map ≡ some (paddr, map)
    → paddr ≢ 0
    → alloc_pg_table walk fuel t ≡ none
unfolding alloc_pg_table
alloc_pg_table-nested walk n zero paddr map t le f page there = refl
alloc_pg_table-nested walk n (suc fuel) paddr map t le f page there =
    elim (new_table-none walk fuel (alloc_pg_table walk fuel) t (Full-fewer le f)
      (λ u g. alloc_pg_table-NoTable walk fuel u g)) [
        | inl e ↦ alloc_pg_table-none walk fuel t f.none_freed e
        | inr (u, made, (map', null), unknown) ↦
            absurd (there (ap (λ p. p.0) (some_injective (sym page ∙ null))))
      ]
