-- ===== src/MemoryMap/Tests.antt =====
-- The memory map of a small machine.
use titan_os.Base.{ℕ, ◌≡◌, refl, [], ◌∷◌, ◌==◌, if◌then◌else◌, arith}
use titan_os.Multiboot.{read_u32, read_u64, next_tag}
use titan_os.Multiboot.Tags.{Layout}
use titan_os.Vmm.Spaces.{Run}
use titan_os.MemoryMap.{Entry, Lists}
use titan_os.MemoryMap.Parse.{entry_at, mb2_mmap_init, mb2_mmap_init-of}

abbrev low : Entry
low = record { addr = 0; len = 0x9fc00; kind = 1 }

abbrev bios : Entry
bios = record { addr = 0xf0000; len = 0x10000; kind = 2 }

abbrev high : Entry
high = record { addr = 0x100000; len = 0x7ee0000; kind = 1 }

abbrev lists : Lists
lists = record { available = low ∷ high ∷ []; reserved = bios ∷ [] }

-- A tag of one entry of available memory at 0x1008, and the end behind it.
abbrev bytes : ℕ → ℕ
bytes a =
    if a == 0x1008
    then 6
    else if a == 0x100c
    then 40
    else if a == 0x1010
    then 24
    else if a == 0x1022
    then 0x10
    else if a == 0x1028
    then 1
    else 0

bytes-Layout : Layout bytes 0x1008 (record { type = 6; size = 40 } ∷ [])
unfolding read_u32 next_tag
bytes-Layout = (refl, omega arith, refl, refl)

mb2_mmap_init-of_example :
    mb2_mmap_init 2 2 bytes 0x1000 lists
    ≡ Run.done (record {
      available = low ∷ high ∷ record { addr = 0; len = 0x100000; kind = 1 } ∷ [];
      reserved = bios ∷ [];
    })
unfolding read_u32 read_u64 entry_at
mb2_mmap_init-of_example =
    mb2_mmap_init-of 2 2 1 bytes 0x1000 0x1008 24 (record { type = 6; size = 40 } ∷ []) lists
      (omega arith) bytes-Layout refl (omega arith) (omega arith) refl (omega arith) refl
      (omega arith) (omega arith) (omega arith)
