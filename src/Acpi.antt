-- ===== src/Acpi.antt =====
-- The tables of the firmware, src/kernel/drivers/acpi.c. The memory is one of bytes by virtual address,
-- in the space of Vmm.Spaces. What the functions print is left out.
pub mod Tables
pub mod Root
mod Tests
use titan_os.Base.{
  ℕ, zero, suc, ◌+◌, ◌-◌, ◌*◌, ◌/◌, ◌%◌, ◌^◌, Bool, true, false, not, Option, none, some, List, [],
  ◌∷◌, ◌==◌, ltb, if◌then◌else◌, u8, u32, u64, bit_and, ◌>>=◌,
}
use titan_os.Multiboot.{read_u32, get_mb2_tag, tag_type_acpi_new}
use titan_os.Strings.{memcmp}
use titan_os.Vmm.Regions.{Backing, page_align, vmm_alloc}
use titan_os.Vmm.Paging.{page_align_down}
use titan_os.Vmm.Spaces.{Space, alloc_mmio, get_mmio_ptr, alloc, vm_flag_read_write, vm_flag_mmio}

-- `sizeof(acpi_sdt_header_t)` and `sizeof(rsdp_t)`.
abbrev pub sdt_header_size : ℕ
sdt_header_size = 36

abbrev pub rsdp_size : ℕ
rsdp_size = 20

abbrev pub page_size : ℕ
page_size = 0x1000

-- The field `length` of a header.
abbrev pub table_length : (ℕ → ℕ) → ℕ → ℕ
table_length bytes table = read_u32 bytes (table + 4)

-- The loop of `validate_checksum`, with `left` bytes to go.
pub checksum_loop : ℕ → (ℕ → ℕ) → ℕ → ℕ → ℕ
checksum_loop zero bytes p checksum = checksum
checksum_loop (suc left) bytes p checksum =
    checksum_loop left bytes (p + 1) (u32 (checksum + u8 (bytes p)))

pub validate_checksum : (ℕ → ℕ) → ℕ → ℕ → Bool
validate_checksum bytes p length = bit_and (checksum_loop length bytes p 0) 0xff == 0

-- Bytes of memory as a buffer.
unfoldable pub bytes_at : (ℕ → ℕ) → ℕ → ℕ → List ℕ
bytes_at bytes p zero = []
bytes_at bytes p (suc n) = u8 (bytes p) ∷ bytes_at bytes (p + 1) n

-- `get_acpi_table`, where 0 is NULL.
unfoldable pub get_acpi_table : (ℕ → ℕ) → List ℕ → List ℕ → Option ℕ
get_acpi_table bytes [] sig = some 0
get_acpi_table bytes (t ∷ tables) sig =
    let rest = get_acpi_table bytes tables sig in
    do same ← memcmp (bytes_at bytes t 4) sig 4; if same then some t else rest

abbrev pub extended_bios_start_addr : ℕ
extended_bios_start_addr = 0xe0000

abbrev pub extended_bios_end_addr : ℕ
extended_bios_end_addr = 0xfffff

-- "RSD PTR ".
abbrev pub rsdp_signature : List ℕ
rsdp_signature = 82 ∷ 83 ∷ 68 ∷ 32 ∷ 80 ∷ 84 ∷ 82 ∷ 32 ∷ []

-- The scan of `get_rsdp` from `p` on, with `left` rounds to go: where it ends, with a hit or not.
pub scan_rsdp : ℕ → (ℕ → ℕ) → ℕ → Option (ℕ × Bool)
scan_rsdp zero bytes p = some (p, false)
scan_rsdp (suc left) bytes p =
    let rest = scan_rsdp left bytes (p + 16) in
    do same ← memcmp (bytes_at bytes p 8) rsdp_signature 8; if same then some (p, true) else rest

module _ {M : Type 0} (backing : Backing M) where
  -- `map_table` of the physical address `table`. The pointer of the second call is scaled by the size
  -- of the header, and the length is read at the physical address.
  pub map_table : ℕ → Space M → Option (ℕ × Space M)
  map_table table s = do
    (new_table_page, s1) ← alloc_mmio backing table (page_size * 2) 0 s
    let new_table = u64 (new_table_page + (table - page_align_down table))
    if ltb (page_size * 2) (table_length s1.bytes new_table)
        then (do
          (_, s2) ←
              alloc_mmio backing (u64 (table + sdt_header_size * (page_size * 2)))
                (page_align (u64 (table_length s1.bytes table + 2 ^ 64 - page_size * 2))) 0 s1
          some (new_table, s2))
        else some (new_table, s1)

  -- The loop of `parse_rsdt`: the tables from the entry at `entry` on. A wrong checksum is printed.
  pub parse_loop : ℕ → ℕ → Space M → Option (List ℕ × Space M)
  parse_loop zero entry s = some ([], s)
  parse_loop (suc left) entry s = do
    (t, s1) ← map_table (read_u32 s.bytes entry) s
    (ts, s2) ← parse_loop left (entry + 4) s1
    some (t ∷ ts, s2)

  -- `parse_rsdt` of an `rsdt` that is not NULL.
  pub parse_rsdt : ℕ → Space M → Option (List ℕ × Space M)
  parse_rsdt rsdt s =
      parse_loop (u64 (table_length s.bytes rsdt + 2 ^ 64 - sdt_header_size) / 4)
        (rsdt + sdt_header_size) s

  -- `get_rsdp` with the static variable `current_sig_ptr`: the pointer, 0 for NULL, and the variable
  -- after it. The loop runs up to a physical address.
  pub get_rsdp : ℕ → ℕ → ℕ → Space M → Option (ℕ × ℕ × Space M)
  get_rsdp walk mb2_info current_sig_ptr s =
      if not (current_sig_ptr == 0)
      then some (current_sig_ptr, current_sig_ptr, s)
      else (get_mb2_tag walk s.bytes mb2_info tag_type_acpi_new >>= λ xsdp_tag.
          if not (xsdp_tag == 0) then some (xsdp_tag + 8, xsdp_tag + 8, s) else (do
            (p, t) ←
                alloc backing 0 (extended_bios_end_addr - extended_bios_start_addr) vm_flag_mmio
                  extended_bios_start_addr s
            (q, hit) ← scan_rsdp ((extended_bios_end_addr - p + 15) / 16) t.bytes p
            some ((if hit then q else 0), q, t)))

  -- `acpi_init` with the `rsdp_t` at `rsdp`, 0 for NULL: the address of the root table and the tables.
  -- Without a result inside it panics.
  pub acpi_init : ℕ → Space M → Option (Option (ℕ × List ℕ) × Space M)
  acpi_init rsdp s =
      let valid = validate_checksum s.bytes rsdp rsdp_size in
      if rsdp == 0
      then some (none, s)
      else if valid
      then (do
        let rsdt_addr = read_u32 s.bytes (rsdp + 16)
        let (page, next) = get_mmio_ptr (2 * page_size) s.mmio_region
        (found, s1) ←
            alloc backing page (2 * page_size) vm_flag_read_write rsdt_addr
              (record s { mmio_region = next })
        let rsdt = u64 (found + (rsdt_addr - page_align_down rsdt_addr))
        (tables, s2) ← parse_rsdt rsdt s1
        some (some (rsdt, tables), s2))
      else some (none, s)

  -- `acpi_init` with its call of `get_rsdp`, and the static variable of that.
  pub acpi_start : ℕ → ℕ → ℕ → Space M → Option (Option (ℕ × List ℕ) × ℕ × Space M)
  acpi_start walk mb2_info current_sig_ptr s = do
    (rsdp, current, t) ← get_rsdp walk mb2_info current_sig_ptr s
    (found, u) ← acpi_init rsdp t
    some (found, current, u)
