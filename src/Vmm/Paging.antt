-- ===== src/Vmm/Paging.antt =====
-- The page tables of src/kernel/mm/vmm.c. A table is named by its virtual address.
pub mod Mapping
use titan_os.Base.{
  ℕ, zero, suc, ◌+◌, ◌-◌, ◌*◌, ◌/◌, ◌%◌, ◌^◌, Bool, true, false, not, ◌&&◌, ◌||◌, Option, none,
  some, ◌==◌, leb, bit_or, if◌then◌else◌, u64, ◌>>=◌,
}

-- The entries of all tables, and the state of what the walks call.
pub record Tables (M : Type 0) : Type 0 where
  pub entry : ℕ → ℕ → ℕ
  pub pages : M

-- What the walks call: `alloc_pg_table`, which returns a physical address, `get_ptbl_vaddr`, where 0
-- is NULL, `vmm_hashmap_remove` and `pmm_free_page`.
pub record PageOps (M : Type 0) : Type 0 where
  pub alloc_pg_table : Tables M → Option (ℕ × Tables M)
  pub get_ptbl_vaddr : ℕ → M → Option ℕ
  pub vmm_hashmap_remove : ℕ → Tables M → Option (Tables M)
  pub pmm_free_page : ℕ → Tables M → Option (Tables M)

unfoldable pub get_index : ℕ → ℕ → ℕ
get_index addr table_level = addr / 2 ^ (9 * table_level + 12) % 2 ^ 9

-- `get_block_vaddr`. The shift is one of an int, which is undefined by 32 or more, and where the
-- result does not fit 31 bits.
pub get_block_vaddr : ℕ → ℕ → ℕ → Option ℕ
get_block_vaddr table_virt_addr table_index table_level =
    let offset = table_index * 2 ^ (9 * table_level + 12) in
    if leb 3 table_level || leb (2 ^ 31) offset then none else some (u64 (table_virt_addr + offset))

abbrev pub page_align_down : ℕ → ℕ
page_align_down n = n - n % 0x1000

abbrev pub write_entry : {M : Type 0} → ℕ → ℕ → ℕ → Tables M → Tables M
write_entry table i value t = record t {
  entry = λ (a b : ℕ). if a == table then (if b == i then value else t.entry a b) else t.entry a b;
}

module _ {M : Type 0} (ops : PageOps M) where
  -- The loop of `mmap`: the table of level 0 for `vaddr`, or NULL where a present entry names a table
  -- that is not known. A new table that is not known either is used as NULL.
  unfoldable pub descend : ℕ → ℕ → ℕ → Tables M → Option (ℕ × Tables M)
  descend zero table vaddr t = some (table, t)
  descend (suc level) table vaddr t =
      let value = t.entry table (get_index vaddr (suc level)) in
      let down = λ (a : ℕ) (u : Tables M). descend level a vaddr u in
      if value % 2 == 1
      then (ops.get_ptbl_vaddr (page_align_down value) t.pages >>= λ next.
          if next == 0 then some (0, t) else down next t)
      else (do
        (paddr, u) ← ops.alloc_pg_table t
        let v = write_entry table (get_index vaddr (suc level)) (bit_or paddr 0x7) u
        next ← ops.get_ptbl_vaddr paddr v.pages
        if next == 0 then none else down next v)

  unfoldable pub mmap : ℕ → ℕ → ℕ → ℕ → Tables M → Option (Bool × Tables M)
  mmap root_table paddr vaddr flags t = do
    (table, u) ← descend 3 root_table vaddr t
    some (
        if table == 0
        then (false, u)
        else (true, write_entry table (get_index vaddr 0) (bit_or (bit_or paddr flags) 0x7) u))

  -- The loop of `umap` at the index `i` with `left` rounds to go. The inner call runs the loop of the
  -- level below from the index of its start up to the index of that same start.
  pub umap_loop : ℕ → ℕ → ℕ → ℕ → ℕ → ℕ → ℕ → Tables M → Option (Tables M)
  umap_loop level zero i table virt start end t = some t
  umap_loop zero (suc left) i table virt start end t = do
    u ← ops.pmm_free_page (page_align_down (t.entry table i)) t
    umap_loop zero left (i + 1) table virt start end (write_entry table i 0 u)
  umap_loop (suc level) (suc left) i table virt start end t =
      let below =
        λ (n first pt block from : ℕ) (u : Tables M). umap_loop level n first pt block from end u in
      let next = λ (u : Tables M). umap_loop (suc level) left (i + 1) table virt start end u in
      do
        block_start ← get_block_vaddr virt i (suc level)
        block_end ← get_block_vaddr virt (i + 1) (suc level)
        let pt = page_align_down (t.entry table i)
        let from = (if leb block_end end || leb start block_start then block_start else start)
        let first = get_index from level
        table_ptr ← ops.get_ptbl_vaddr pt t.pages
        u ← below (first - first) first table_ptr block_start from t
        v ←
            (if leb start block_start && leb block_end end
              then (ops.vmm_hashmap_remove (page_align_down (u.entry table i)) u >>= λ w.
                  some (write_entry table i 0 w))
              else some u)
        next v

  pub umap : ℕ → ℕ → ℕ → ℕ → ℕ → Tables M → Option (Tables M)
  umap table virt level start end t =
      let start_index = get_index start level in
      let end_index = get_index start level in
      umap_loop level (end_index - start_index) start_index table virt start end t
