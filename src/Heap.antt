-- ===== src/Heap.antt =====
-- The kernel heap, src/kernel/mm/kernel_heap_manager.c. The memory is one of bytes; an access behind
-- the mapped pages is a page fault, which is `none`. What `vmm_lengthen` does is an operation on a
-- state `V`. Addresses do not wrap at 64 bits.
pub mod Bytes
pub mod Chain
pub mod Place
pub mod Merge
pub mod Walk
pub mod Malloc
pub mod Free
pub mod Small
pub mod Growth
mod Tests
use titan_os.Base.{
  ℕ, zero, suc, ◌+◌, ◌-◌, ◌*◌, ◌/◌, ◌%◌, ◌^◌, Bool, true, false, not, Option, none, some, ◌==◌, ltb,
  leb, if◌then◌else◌, u8, u32, u64, ◌>>=◌,
}

-- The bytes, by their addresses.
abbrev pub Memory : Type 0
Memory = ℕ → ℕ

-- `memory_region_t`: a byte that is not 0 when the region is used, and four bytes of its size.
pub record Region : Type 0 where
  pub used : Bool
  pub size : ℕ

abbrev pub header_size : ℕ
header_size = 5

pub read_size : Memory → ℕ → ℕ
read_size m a =
    u8 (m a) + 2 ^ 8 * u8 (m (a + 1)) + 2 ^ 16 * u8 (m (a + 2)) + 2 ^ 24 * u8 (m (a + 3))

pub read_region : Memory → ℕ → Region
read_region m a = record { used = not (u8 (m a) == 0); size = read_size m (a + 1) }

-- A write of one field leaves the other as it was read.
pub write_region : ℕ → Region → Memory → Memory
write_region a r m b =
    if b == a
    then (if r.used then 1 else 0)
    else if b == a + 1
    then u8 r.size
    else if b == a + 2
    then u8 (r.size / 2 ^ 8)
    else if b == a + 3
    then u8 (r.size / 2 ^ 16)
    else if b == a + 4
    then u8 (r.size / 2 ^ 24)
    else m b

-- `heap_end`, the memory, and the end of the mapped pages.
pub record Heap (V : Type 0) : Type 0 where
  pub memory : Memory
  pub heap_end : ℕ
  pub mapped : ℕ
  pub vmm : V

-- The address behind a region.
pub go_to_next_memory_region : ℕ → Region → ℕ
go_to_next_memory_region curr r = curr + r.size + header_size

-- `PAGE_ROUND`: the macro gives a number of pages.
abbrev pub page_round : ℕ → ℕ
page_round n = (n + 0xfff) / 0x1000

-- What the inner loop of `kmalloc` comes to: a pointer to give out, or the used region that it met.
pub data Merged (V : Type 0) : Type 0 where
  taken : ℕ → Heap V → Merged V
  stopped : ℕ → Heap V → Merged V

module _ {V : Type 0} where
  pub load : ℕ → Heap V → Option Region
  load a h = if leb (a + header_size) h.mapped then some (read_region h.memory a) else none

  pub save : ℕ → Region → Heap V → Option (Heap V)
  save a r h =
      if leb (a + header_size) h.mapped
      then some (record h { memory = write_region a r h.memory })
      else none

  -- `write_new_mem_reg`.
  pub write_new_mem_reg : ℕ → Heap V → Option (Heap V)
  write_new_mem_reg a h = save a (record { used = false; size = u32 (h.heap_end + 2 ^ 64 - a) }) h

  -- Case 2 of `kmalloc`: the region `r` at `curr` is taken, and what is left of it becomes a region.
  pub take_region : ℕ → Region → ℕ → Heap V → Option (ℕ × Heap V)
  take_region curr r size h =
      if ltb size (u64 (r.size + 2 ^ 64 - header_size))
      then (do
        h1 ← save curr (record { used = true; size = u32 size }) h
        h2 ←
            save (curr + u32 size + header_size)
              (record { used = false; size = u32 (r.size + 2 ^ 64 - size - header_size) }) h1
        some (curr + header_size, h2))
      else (save curr (record { used = true; size = r.size }) h >>= λ h1.
          some (curr + header_size, h1))

  -- The end of case 3: the regions from `curr` on hold `total` bytes together.
  pub take_merged : ℕ → ℕ → ℕ → Heap V → Option (ℕ × Heap V)
  take_merged curr total size h = do
    r ← load curr h
    if ltb size (u32 (total + 2 ^ 32 - 5))
        then (do
          h1 ← save curr (record { used = true; size = u32 size }) h
          h2 ←
              save (curr + u32 size + header_size)
                (record { used = false; size = u32 (total + 2 ^ 64 - size - 5) }) h1
          some (curr + header_size, h2))
        else (save curr (record { used = true; size = r.size }) h >>= λ h1.
            some (curr + header_size, h1))

  -- `kfree`.
  pub kfree : ℕ → Heap V → Option (Heap V)
  kfree ptr h = do
    r ← load (ptr - header_size) h
    save (ptr - header_size) (record r { used = false }) h

  -- `kheap_init`.
  pub kheap_init : ℕ → Heap V → Option (Heap V)
  kheap_init heap_start h =
      save heap_start
        (record { used = false; size = u32 (u32 h.heap_end + 2 ^ 65 - heap_start - 5) }) h

module _ {V : Type 0} (vmm_lengthen : V → Option (Bool × V)) where
  -- `get_more_pages`: whatever the number of pages, one page is asked for.
  pub get_more_pages : ℕ → Heap V → Option (Bool × Heap V)
  get_more_pages num_pages h = do
    (ok, v) ← vmm_lengthen h.vmm
    some (
        if ok
        then (
          true,
          record h {
            heap_end = h.heap_end + 0x1000 * num_pages;
            mapped = h.mapped + 0x1000;
            vmm = v;
          },
        )
        else (false, record h { vmm = v }))

  -- The loops go on when it fails. The region that the code then writes is a local variable.
  pub grow_at : ℕ → ℕ → Heap V → Option (Heap V)
  grow_at next pages h =
      if leb h.heap_end next then (get_more_pages pages h >>= λ (ok, h1). some h1) else some h

  -- The inner loop of case 3, with the `total` of the regions so far.
  pub merge_loop : ℕ → ℕ → ℕ → ℕ → ℕ → Heap V → Option (Merged V)
  merge_loop zero curr total next size h = none
  merge_loop (suc fuel) curr total next size h =
      let rest = λ (t n : ℕ) (h' : Heap V). merge_loop fuel curr t n size h' in
      do
        r ← load next h
        if r.used
            then some (Merged.stopped next h)
            else (let sum = u32 (total + u32 (r.size + 5)) in
                if leb size sum
                then (take_merged curr sum size h >>= λ (p, h1). some (Merged.taken p h1))
                else (do
                  let behind = go_to_next_memory_region next r
                  h1 ← grow_at behind (page_round (size - sum)) h
                  rest sum behind h1))

  -- The outer loop of `kmalloc`, at the region `curr`.
  pub kmalloc_loop : ℕ → ℕ → ℕ → Heap V → Option (ℕ × Heap V)
  kmalloc_loop zero curr size h = none
  kmalloc_loop (suc fuel) curr size h =
      let rest = λ (n : ℕ) (h' : Heap V). kmalloc_loop fuel n size h' in
      do
        h0 ←
            (if leb h.heap_end curr
              then (get_more_pages 1 h >>= λ (ok, h'). write_new_mem_reg curr h')
              else some h)
        r ← load curr h0
        if r.used
            then rest (go_to_next_memory_region curr r) h0
            else if leb size r.size
            then take_region curr r size h0
            else (do
              let next = go_to_next_memory_region curr r
              h1 ← grow_at next (page_round (size - r.size)) h0
              m ← merge_loop fuel curr r.size next size h1
              elim m [
                | taken p h2 ↦ some (p, h2)
                | stopped n h2 ↦ (load n h2 >>= λ u. rest (go_to_next_memory_region n u) h2)
              ])

  pub kmalloc : ℕ → ℕ → ℕ → Heap V → Option (ℕ × Heap V)
  kmalloc fuel heap_start size h = kmalloc_loop fuel heap_start size h
