-- ===== src/PageTables.antt =====
-- The hash map from physical to virtual addresses of page tables, src/kernel/mm/vmm_hashmap.c.
-- Nodes live in a store of their own; `none` is undefined behaviour, or that a walk ran out of fuel.
pub mod Chain
pub mod Lookup
pub mod Insert
pub mod Remove
pub mod State
pub mod Slot
pub mod Entries
pub mod Put
pub mod Removal
pub mod Reuse
pub mod Sample
mod Tests
use titan_os.Base.{
  ℕ, zero, suc, ◌%◌, Bool, true, false, Option, none, some, List, ◌==◌, if◌then◌else◌, get_elem?,
  set, replicate, ◌>>=◌,
}

abbrev pub Ptr : Type 0
Ptr = ℕ

-- `page_table_t`. No function reads or writes the field `level`, except for clearing the whole node.
pub record Node : Type 0 where
  pub pt_vaddr : ℕ
  pub pt_paddr : ℕ
  pub used : Bool
  pub next : Ptr

abbrev pub Store : Type 0
Store = Ptr → Option Node

abbrev pub write : Store → Ptr → Node → Store
write h p n q = if p == q then some n else h q

-- The globals `vmm_hashmap` (`none` while it is NULL) and `tables`, and the store.
pub record Hashmap : Type 0 where
  pub nodes : Store
  pub buckets : Option (List Ptr)
  pub tables : Ptr

abbrev pub hash_map_buckets : ℕ
hash_map_buckets = 20

pub hash_function : ℕ → ℕ
hash_function paddr = paddr % hash_map_buckets

-- `vmm_hashmap_init`, with the array that `kmalloc` returned.
unfoldable pub init : Hashmap → Hashmap
init m = record m { buckets = some (replicate hash_map_buckets 0) }

-- The walk of `pg_tbl_insert` from a node that is not NULL. The answer is the new store, and whether
-- `table` was linked in.
pub insert_walk : ℕ → Ptr → Ptr → Store → Option (Bool × Store)
insert_walk zero cur table h = none
insert_walk (suc fuel) cur table h = do
  n ← h cur
  t ← h table
  if n.next == 0
      then some (true, write h cur (record n { next = table }))
      else (h n.next >>= λ s.
          let rest = insert_walk fuel n.next table h in
          if s.pt_paddr == t.pt_paddr
          then some (false, write h n.next (record s { pt_vaddr = t.pt_vaddr }))
          else rest)

pub pg_tbl_insert : ℕ → Ptr → Hashmap → Option (Bool × Hashmap)
pg_tbl_insert fuel table m = do
  t ← m.nodes table
  buckets ← m.buckets
  let index = hash_function t.pt_paddr
  head ← get_elem? buckets index
  if head == 0
      then some (true, record m { buckets = some (set buckets index table) })
      else (insert_walk fuel head table m.nodes >>= λ (b, h). some (b, record m { nodes = h }))

-- `fresh` is the node that `kmalloc` returned.
pub put : ℕ → Ptr → ℕ → ℕ → Hashmap → Option (Bool × Hashmap)
put fuel fresh pt_vaddr pt_paddr m = elim m.buckets [
  | none ↦ some (false, m)
  | some _ ↦
      let node : Node = record {
        pt_vaddr = pt_vaddr;
        pt_paddr = pt_paddr;
        used = true;
        next = 0;
      } in
      pg_tbl_insert fuel fresh (record m { nodes = write m.nodes fresh node })
]

pub lookup_walk : ℕ → Ptr → ℕ → Store → Option ℕ
lookup_walk zero cur paddr h = none
lookup_walk (suc fuel) cur paddr h =
    if cur == 0
    then some 0
    else (h cur >>= λ n.
        let rest = lookup_walk fuel n.next paddr h in
        if n.pt_paddr == paddr then some n.pt_vaddr else rest)

-- The virtual address, 0 when the table is not known.
pub get_ptbl_vaddr : ℕ → ℕ → Hashmap → Option ℕ
get_ptbl_vaddr fuel paddr m = elim m.buckets [
  | none ↦ some 0
  | some buckets ↦
      get_elem? buckets (hash_function paddr) >>= λ head. lookup_walk fuel head paddr m.nodes
]

-- The walk of `vmm_hashmap_remove` from a node that is not NULL, with `tables`.
pub remove_walk : ℕ → Ptr → ℕ → Ptr → Store → Option (Bool × Ptr × Store)
remove_walk zero cur paddr tables h = none
remove_walk (suc fuel) cur paddr tables h = do
  n ← h cur
  if n.next == 0
      then some (false, tables, h)
      else (h n.next >>= λ s.
          let rest = remove_walk fuel n.next paddr tables h in
          if s.pt_paddr == paddr
          then some (
            true,
            n.next,
            write (write h cur (record n { next = s.next })) n.next (record s { next = tables }),
          )
          else rest)

pub remove : ℕ → ℕ → Hashmap → Option (Bool × Hashmap)
remove fuel paddr m = elim m.buckets [
  | none ↦ some (false, m)
  | some buckets ↦ do
    head ← get_elem? buckets (hash_function paddr)
    if head == 0
        then some (false, m)
        else (remove_walk fuel head paddr m.tables m.nodes >>= λ (b, t, h).
            some (b, record m { nodes = h; tables = t }))
]

-- `get_freed_pg_tbl`: the node that it returns stays in the list.
unfoldable pub get_freed_pg_tbl : Hashmap → Option Ptr
get_freed_pg_tbl m = if m.tables == 0 then some 0 else (m.nodes m.tables >>= λ n. some n.next)
