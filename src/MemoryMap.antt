-- ===== src/MemoryMap.antt =====
-- The memory map of the boot loader, src/kernel/mm/mb2_mmap.c.
pub mod Laws
pub mod Parse
mod Tests
use titan_os.Base.{
  ℕ, zero, suc, ◌+◌, ◌%◌, ◌^◌, Bool, true, false, ◌&&◌, ◌||◌, Option, none, some, List, [], ◌∷◌,
  ◌++◌, ◌==◌, ltb, length, if◌then◌else◌, u64, ◌>>=◌,
}

-- `mmap_entry_t`; the kind of available memory is 1.
pub record Entry : Type 0 where
  pub addr : ℕ
  pub len : ℕ
  pub kind : ℕ

abbrev pub max_mmap_entries : ℕ
max_mmap_entries = 20

-- `available_entries` and `reserved_entries`.
pub record Lists : Type 0 where
  pub available : List Entry
  pub reserved : List Entry

-- The end of a list of 20 entries is undefined behaviour.
pub append : List Entry → Entry → Option (List Entry)
append es e = if ltb (length es) max_mmap_entries then some (es ++ (e ∷ [])) else none

-- The loop of `mb2_mmap_init` over the entries of the tag.
pub add_entries : List Entry → Lists → Option Lists
add_entries [] l = some l
add_entries (e ∷ es) l =
    if e.kind == 1
    then (append l.available e >>= λ new. add_entries es (record l { available = new }))
    else (append l.reserved e >>= λ new. add_entries es (record l { reserved = new }))

-- One loop of `get_max_memory_addr`.
pub max_loop : List Entry → ℕ → ℕ
max_loop [] max_addr = max_addr
max_loop (e ∷ es) max_addr =
    max_loop es (if ltb max_addr (u64 (e.addr + e.len)) then u64 (e.addr + e.len) else max_addr)

pub get_max_memory_addr : Lists → ℕ
get_max_memory_addr l = max_loop l.reserved (max_loop l.available 0)

-- The macro `WITHIN`.
pub within : ℕ → ℕ → ℕ → ℕ → Bool
within r1 r2 l1 l2 = (ltb r2 (u64 (r1 + l1)) && ltb r1 r2) || (ltb r1 (u64 (r2 + l2)) && ltb r2 r1)

-- `check_region_reserved`: each of its rounds tests the first entry.
pub reserved_loop : ℕ → Entry → ℕ → ℕ → Bool
reserved_loop zero e start length = false
reserved_loop (suc left) e start length =
    let rest = reserved_loop left e start length in
    if within start e.addr length e.len then true else rest

pub check_region_reserved : ℕ → ℕ → Lists → Bool
check_region_reserved start len l = elim l.reserved [
  | [] ↦ false
  | e ∷ es ↦ reserved_loop (length (e ∷ es)) e start len
]
