-- ===== src/Acpi/Root.antt =====
-- The search for the `rsdp_t`.
use titan_os.Base.{ℕ, ◌+◌, ◌-◌, ◌/◌, ◌<◌, ◌≡◌, ◌≢◌, false, some, List, length, ==_ne, arith}
use titan_os.Multiboot.{tag_type_acpi_new, first_tag}
use titan_os.Multiboot.Tags.{Tag, Layout, place, get_mb2_tag-place}
use titan_os.Vmm.Regions.{Backing}
use titan_os.Vmm.Spaces.{Space, alloc, vm_flag_mmio}
use titan_os.Acpi.{get_rsdp, scan_rsdp, extended_bios_start_addr, extended_bios_end_addr}

-- When the boot loader passed no `rsdp_t` and the scan of the BIOS's memory ends at `q` without a hit,
-- the first call of `get_rsdp` returns NULL, but the second one returns `q`.
pub get_rsdp_unfound :
    {M : Type 0} (backing : Backing M) (walk mb2_info p q : ℕ) (ts : List Tag) (s t : Space M)
    → length ts < walk
    → Layout s.bytes (first_tag mb2_info) ts
    → place tag_type_acpi_new (first_tag mb2_info) ts (λ end. 0) ≡ 0
    → alloc backing 0 0x1ffff vm_flag_mmio extended_bios_start_addr s ≡ some (p, t)
    → scan_rsdp ((extended_bios_end_addr - p + 15) / 16) t.bytes p ≡ some (q, false)
    → q ≢ 0
    → (get_rsdp backing walk mb2_info 0 s ≡ some (0, q, t))
      × (get_rsdp backing walk mb2_info q t ≡ some (q, q, t))
unfolding get_rsdp
get_rsdp_unfound backing walk mb2_info p q ts s t lt l absent maps scan there = (
  rw (
    get_rsdp,
    get_mb2_tag-place walk s.bytes mb2_info tag_type_acpi_new ts (omega arith) lt l,
    absent,
    maps,
    scan,
  ),
  rw (get_rsdp, ==_ne q 0 there),
)
