-- ===== src/Vmm/Memory/NewTable.antt =====
-- A new page table.
use titan_os.Base.{
  ℕ, suc, ◌+◌, ◌%◌, ◌<◌, ◌++◌, length, length-append, ◌≡◌, ◌≢◌, ◌⊎◌, refl, ap, ◌∙◌, Option, true,
  false, none, some, List, [], ◌∷◌, ◌==◌, ==_self, ==_ne, if◌then◌else◌, u64, bit_or, arith,
}
use titan_os.Pmm
use titan_os.PageTables.{Ptr, Node, Hashmap, write, get_freed_pg_tbl, pg_tbl_insert}
use titan_os.PageTables.Chain.{Entry, All}
use titan_os.PageTables.Entries.{put_bucket, links, heads_with}
use titan_os.PageTables.State.{IsMap, IsEnough, rechain, rechain_all}
use titan_os.PageTables.Insert.{knows, put_rest}
use titan_os.PageTables.Put.{known, get_ptbl_vaddr-written, pg_tbl_insert-known}
use titan_os.Vmm.Paging.{get_index}
use titan_os.Vmm.Paging.Mapping.{Path3, mmap-Path3}
use titan_os.Vmm.Spaces.{kernel_page_tbl_start}
use titan_os.Vmm.Memory.{
  Memory, Pages, with_pages, clear_table, zero_node, new_table, enter_table, alloc_pg_table, ops,
}

-- No entry has the address.
abbrev pub IsUnknown : ℕ → List Entry → Type 0
IsUnknown paddr = All (λ e. e.paddr ≢ paddr)

pub knows-IsUnknown : (paddr : ℕ) (xs : List Entry) → IsUnknown paddr xs → knows paddr xs ≡ false
unfolding knows
knows-IsUnknown paddr [] u = refl
knows-IsUnknown paddr (e ∷ xs) (ne, u) = ground (arith, knows-IsUnknown paddr xs u)

pub links-IsUnknown : (paddr : ℕ) (xs : List Entry) → IsUnknown paddr xs → links paddr xs ≡ true
unfolding links
links-IsUnknown paddr [] u = refl
links-IsUnknown paddr (e ∷ xs) (ne, u) = rw (knows-IsUnknown paddr xs u)

pub heads_with-IsUnknown :
    (paddr : ℕ) (xs : List Entry) → IsUnknown paddr xs → heads_with paddr xs ≡ false
unfolding heads_with
heads_with-IsUnknown paddr [] u = refl
heads_with-IsUnknown paddr (e ∷ xs) (ne, u) = ==_ne e.paddr paddr ne

-- A node for an address that its bucket does not have goes to the end.
pub put_bucket-IsUnknown :
    (new : Entry) (xs : List Entry) → IsUnknown new.paddr xs → put_bucket new xs ≡ xs ++ (new ∷ [])
unfolding put_bucket put_rest
put_bucket-IsUnknown new [] u = refl
put_bucket-IsUnknown new (e ∷ xs) (ne, u) = rw (knows-IsUnknown new.paddr xs u)

-- The chains with a new entry.
abbrev pub longer : (ℕ → List Entry) → Entry → ℕ → List Entry
longer chain new = rechain chain (new.paddr % 20) (put_bucket new (chain (new.paddr % 20)))

module _ (chain : ℕ → List Entry) (new : Entry)
    (unknown : IsUnknown new.paddr (chain (new.paddr % 20))) where
  pub length-longer :
      (n : ℕ)
      → ((c : ℕ) → c < 20 → length (chain c) < n)
      → (c : ℕ) → c < 20
      → length (longer chain new c) < suc n
  length-longer n short =
      rechain_all (λ c ys. c < 20 → length ys < suc n) chain (new.paddr % 20)
        (put_bucket new (chain (new.paddr % 20)))
        (λ lt. rw (put_bucket-IsUnknown new (chain (new.paddr % 20)) unknown) (
          omega
            (arith, length-append (chain (new.paddr % 20)) (new ∷ []), short (new.paddr % 20) lt)))
        (λ c other lt. omega (arith, short c lt))

pub get_freed_pg_tbl-none : (h : Hashmap) → h.tables ≡ 0 → get_freed_pg_tbl h ≡ some 0
unfolding get_freed_pg_tbl
get_freed_pg_tbl-none h e = ground (arith, e)

module _ (walk : ℕ) where
  pub alloc_pg_table-new :
      (fuel : ℕ) (t u : Memory) {node : Option Ptr}
      → t.pages.hashmap.tables ≡ 0
      → new_table (ops walk fuel) t ≡ some (node, u)
      → alloc_pg_table walk (suc fuel) t ≡ enter_table walk u node
  unfolding alloc_pg_table
  alloc_pg_table-new fuel t u none_freed made =
      rw (get_freed_pg_tbl-none t.pages.hashmap none_freed, made)

  enter_table-linked :
      (u : Memory) (p : Pages) (node : Ptr) (n : Node) (h : Hashmap)
      → u.pages ≡ p
      → p.hashmap.nodes node ≡ some n
      → pg_tbl_insert walk node p.hashmap ≡ some (true, h)
      → enter_table walk u (some node)
        ≡ some (n.pt_paddr, with_pages (record p { hashmap = h }) (clear_table n.pt_vaddr u))
  unfolding enter_table
  enter_table-linked u p node n h e there run = rw (e, there, run)

-- What a new node needs: the invariant with fuel for every bucket, no freed table, an unused node, and
-- a page that is no table yet.
pub record Ready (walk : ℕ) (t : Memory) : Type 0 where
  pub valid : IsMap t.pages.hashmap
  pub enough : IsEnough valid walk
  pub none_freed : t.pages.hashmap.tables ≡ 0
  pub node : Ptr
  pub rest : List Ptr
  pub next_node : t.pages.fresh ≡ node ∷ rest
  pub real : node ≢ 0
  pub unused : t.pages.hashmap.nodes node ≡ none
  pub paddr : ℕ
  pub map : Pmm.Map
  pub page : Pmm.alloc_page t.pages.map ≡ some (paddr, map)
  pub there : paddr ≢ 0
  pub unknown : IsUnknown paddr (valid.chain (paddr % 20))

module _ {walk : ℕ} {t : Memory} (r : Ready walk t) where
  -- The length of the region of the tables after the allocation, and the address of the new table.
  abbrev pub next_length : ℕ
  next_length = u64 (t.pages.page_tbls_length + 0x1000)

  abbrev pub next_table : ℕ
  next_table = u64 (kernel_page_tbl_start + next_length)

  abbrev new_node : Node
  new_node = record zero_node { pt_vaddr = next_table; pt_paddr = r.paddr }

  -- The state in which `alloc_pg_table` calls `mmap`.
  abbrev pub before_mmap : Memory
  before_mmap =
      with_pages
        (record t.pages {
          map = r.map;
          fresh = r.rest;
          hashmap = record t.pages.hashmap { nodes = write t.pages.hashmap.nodes r.node new_node };
          page_tbls_length = next_length;
        })
        t

  -- The walk to the last table is the same in that state.
  Path3-before_mmap :
      (fuel root vaddr bottom : ℕ)
      → Path3 (ops walk fuel) t root vaddr bottom
      → Path3 (ops walk fuel) before_mmap root vaddr bottom
  Path3-before_mmap fuel root vaddr bottom p =
      let same = λ (q : ℕ).
        get_ptbl_vaddr-written r.valid r.node r.real r.unused next_table r.paddr false walk q
          r.enough in
      record {
        table2 = p.table2;
        table1 = p.table1;
        present3 = p.present3;
        known3 = same _ ∙ p.known3;
        present2 = p.present2;
        known2 = same _ ∙ p.known2;
        present1 = p.present1;
        known1 = same _ ∙ p.known1;
        some2 = p.some2;
        some1 = p.some1;
        some0 = p.some0;
      }

  -- What `mmap` leaves, and the part of `alloc_pg_table` behind it.
  new_table-Path3 :
      (fuel bottom : ℕ)
      → Path3 (ops walk fuel) t t.pages.current_pml4t_ptr next_table bottom
      → (u : Memory) × (new_table (ops walk fuel) t ≡ some (some r.node, u))
        × (u.pages ≡ before_mmap.pages)
        × (u.entry bottom (get_index next_table 0) ≡ bit_or (bit_or r.paddr 0) 0x7)
        × ((a i : ℕ) → (a ≢ bottom) ⊎ (i ≢ get_index next_table 0) → u.entry a i ≡ t.entry a i)
  unfolding new_table
  new_table-Path3 fuel bottom p =
      let (u, run, written, others, same) =
        mmap-Path3 (ops walk fuel) before_mmap t.pages.current_pml4t_ptr r.paddr next_table 0 bottom
          (Path3-before_mmap fuel t.pages.current_pml4t_ptr next_table bottom p) in
      (u, rw (r.next_node, r.page, ==_ne r.paddr 0 r.there, run), same, written, others)

  -- In a state with no freed table, a node to put into the map, and a free page other than page 0 that
  -- is no known table's, and where the tables for the next address in the region of the tables are
  -- present, `alloc_pg_table` is free of undefined behaviour and returns the page that `pmm_alloc_page`
  -- gives. The page is mapped at that address, which is then known as the table's, all its entries are
  -- 0, and no other entry and no other table's address changes, nor does the table of level 4 that is in
  -- use. The region of the tables is a page longer, and the node is taken. The map keeps its invariant,
  -- and a walk in it gets longer by one node at most.
  pub alloc_pg_table-Path3 :
      (fuel bottom : ℕ)
      → Path3 (ops walk fuel) t t.pages.current_pml4t_ptr next_table bottom
      → bottom ≢ next_table
      → (u : Memory) × (alloc_pg_table walk (suc fuel) t ≡ some (r.paddr, u))
        × (u.pages.map ≡ r.map)
        × (u.pages.page_tbls_length ≡ next_length)
        × (u.pages.current_pml4t_ptr ≡ t.pages.current_pml4t_ptr)
        × (u.pages.cr3 ≡ t.pages.cr3)
        × (u.pages.fresh ≡ r.rest)
        × ((i : ℕ) → u.entry next_table i ≡ 0)
        × (u.entry bottom (get_index next_table 0) ≡ bit_or (bit_or r.paddr 0) 0x7)
        × ((a i : ℕ)
            → a ≢ next_table
            → (a ≢ bottom) ⊎ (i ≢ get_index next_table 0)
            → u.entry a i ≡ t.entry a i)
        × (v : IsMap u.pages.hashmap) × ((q : ℕ)
            → known v q ≡ (if q == r.paddr then next_table else known r.valid q))
        × ((n : ℕ) → IsEnough r.valid n → IsEnough v (suc n))
  alloc_pg_table-Path3 fuel bottom p apart =
      let (u, made, pages, written, others) = new_table-Path3 fuel bottom p in
      let xs = r.valid.chain (r.paddr % 20) in
      let new_entry : Entry = record { addr = r.node; paddr = r.paddr; vaddr = next_table } in
      let (h, v, run, finds, chain, _) =
        pg_tbl_insert-known r.valid r.node r.real r.unused next_table r.paddr false walk r.enough in
      let linked : pg_tbl_insert walk r.node before_mmap.pages.hashmap ≡ some (true, h) =
        run ∙ ap (λ b. some (b, h)) (links-IsUnknown r.paddr xs r.unknown) in
      (
        with_pages (record before_mmap.pages { hashmap = h }) (clear_table next_table u),
        alloc_pg_table-new walk fuel t u r.none_freed made
            ∙ enter_table-linked walk u before_mmap.pages r.node new_node h pages
                (rw (==_self r.node)) linked,
        refl,
        refl,
        refl,
        refl,
        refl,
        (λ i. rw (==_self next_table)),
        rw (==_ne bottom next_table apart) written,
        (λ a i ne far. rw (==_ne a next_table ne) (others a i far)),
        v,
        (λ q. finds q ∙ rw (heads_with-IsUnknown r.paddr xs r.unknown) (ground arith)),
        (λ n short c lt. rw chain (length-longer r.valid.chain new_entry r.unknown n short c lt)),
      )
