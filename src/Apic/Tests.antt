-- ===== src/Apic/Tests.antt =====
-- The registers, and a table with one entry of each kind.
use titan_os.Base.{
  ℕ, ◌+◌, ◌≡◌, ◌≢◌, ◌<◌, ◌≤◌, refl, some, [], ◌∷◌, ◌==◌, ==_ne, if◌then◌else◌, ltb, u8, arith,
}
use titan_os.Base.Bits.{bit}
use titan_os.Vmm.Spaces.{Run}
use titan_os.Acpi.{get_acpi_table, bytes_at}
use titan_os.Multiboot.{read_u32}
use titan_os.Apic.{IoApic, remap_ioredtbl, local_apic_enable, read_ioapic, get_ioapic, apic_sig}
use titan_os.Apic.Redirection.{redirected, remap_ioredtbl_lem, local_apic_enable_lem}
use titan_os.Apic.Madt.{Entries, get_ioapic-Entries}
use titan_os.Strings.{memcmp}

abbrev controller : IoApic
controller = record { select = 0; regs = λ o. 0x10000 + o }

remap_ioredtbl_lem_example :
    (bit ((remap_ioredtbl controller).regs 0x12) 16 ≡ redirected 0x40 16 0 0x10012 16)
    × (bit ((remap_ioredtbl controller).regs 0x13) 16 ≡ (if ltb 16 24 then 0 else bit 0x10013 16))
    × ((o : ℕ) → o ≢ 0x12 → o ≢ 0x13 → (remap_ioredtbl controller).regs o ≡ 0x10000 + o)
remap_ioredtbl_lem_example = remap_ioredtbl_lem controller 16 (omega arith)

local_apic_enable_lem_example :
    (bit (local_apic_enable (λ o. 0xff) 0xf0) 3 ≡ redirected 0xf0 8 1 0xff 3)
    × ((o : ℕ) → o ≢ 0xf0 → local_apic_enable (λ o. 0xff) o ≡ 0xff)
local_apic_enable_lem_example = local_apic_enable_lem (λ o. 0xff) 3 (omega arith)

-- A table at 0x1000 of 64 bytes: an entry of 8 bytes at 44, and one of an I/O controller at 52.
abbrev bytes : ℕ → ℕ
bytes a =
    if a == 0x1000
    then 65
    else if a == 0x1001
    then 80
    else if a == 0x1002
    then 73
    else if a == 0x1003
    then 67
    else if a == 0x1004
    then 64
    else if a == 0x1005
    then 0
    else if a == 0x1006
    then 0
    else if a == 0x1007
    then 0
    else if a == 0x1000 + 44
    then 0
    else if a == 0x1000 + 45
    then 8
    else if a == 0x1000 + 52
    then 1
    else 12

found_at : get_acpi_table bytes (0x1000 ∷ []) apic_sig ≡ some 0x1000
unfolding get_acpi_table bytes_at memcmp
found_at = refl

get_ioapic-Entries_example :
    (u8 (bytes 0x1034) ≡ 1
      → get_ioapic 5 bytes (0x1000 ∷ []) ≡ some (Run.done (read_ioapic bytes 0x1034)))
    × (5 < u8 (bytes 0x1034) → get_ioapic 5 bytes (0x1000 ∷ []) ≡ some Run.panicked)
    × (u8 (bytes 0x1034) ≢ 1
        → u8 (bytes 0x1034) ≤ 5
        → u8 (bytes 0x1035) ≡ 0
        → get_ioapic 5 bytes (0x1000 ∷ []) ≡ some Run.undefined)
unfolding read_u32 Entries
get_ioapic-Entries_example =
    get_ioapic-Entries 5 bytes (0x1000 ∷ []) 0x1000 0x1034 (record { type = 0; size = 8 } ∷ [])
      found_at (omega arith) (refl, refl, omega arith, omega arith, omega arith, refl) (omega arith)
      (omega arith)

-- A table of 60 bytes, with entries of 2 bytes of type 2 without end.
abbrev plain : ℕ → ℕ
plain a =
    if a == 0x1000
    then 65
    else if a == 0x1001
    then 80
    else if a == 0x1002
    then 73
    else if a == 0x1003
    then 67
    else if a == 0x1004
    then 60
    else if a == 0x1005
    then 0
    else if a == 0x1006
    then 0
    else if a == 0x1007
    then 0
    else 2

plain_found : get_acpi_table plain (0x1000 ∷ []) apic_sig ≡ some 0x1000
unfolding get_acpi_table bytes_at memcmp
plain_found = refl

plain_behind : (b : ℕ) → 0x1008 ≤ b → plain b ≡ 2
plain_behind b le = rw (
  ==_ne b 0x1000 (omega arith),
  ==_ne b 0x1001 (omega arith),
  ==_ne b 0x1002 (omega arith),
  ==_ne b 0x1003 (omega arith),
  ==_ne b 0x1004 (omega arith),
  ==_ne b 0x1005 (omega arith),
  ==_ne b 0x1006 (omega arith),
  ==_ne b 0x1007 (omega arith),
)
