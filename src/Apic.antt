-- ===== src/Apic.antt =====
-- The interrupt controllers, src/kernel/drivers/apic.c. Ports and registers are the values written to
-- them; the model specific register that holds the base of the local one is an argument. What the
-- functions print is left out.
pub mod Madt
pub mod Redirection
mod Tests
use titan_os.Base.{
  ℕ, zero, suc, ◌+◌, ◌-◌, ◌*◌, ◌/◌, ◌%◌, ◌^◌, Bool, true, false, Option, none, some, List, [], ◌∷◌,
  ◌==◌, ltb, leb, if◌then◌else◌, u8, u32, u64, bit_and, bit_or, ◌>>=◌,
}
use titan_os.Vmm.Regions.{Backing}
use titan_os.Vmm.Paging.{page_align_down}
use titan_os.Vmm.Spaces.{Run, undefined, panicked, done, Space, alloc_mmio, vm_flag_read_write}
use titan_os.Multiboot.{read_u32}
use titan_os.Acpi.{table_length, sdt_header_size, get_acpi_table}

-- The ports of the two old controllers, and what `disable_8259` writes to them, in order.
abbrev pub disable_8259 : List (ℕ × ℕ)
disable_8259 =
    (0x20, 0x11)
    ∷ (0xa0, 0x11)
    ∷ (0x21, 0x20)
    ∷ (0xa1, 0x28)
    ∷ (0x21, 0x2)
    ∷ (0xa1, 0x4)
    ∷ (0x21, 0x1)
    ∷ (0xa1, 0x1)
    ∷ (0x21, 0xff)
    ∷ (0xa1, 0xff)
    ∷ []

-- `get_lapic`.
pub get_lapic : ℕ → ℕ
get_lapic msr_reg = bit_and (msr_reg / 2 ^ 12) 0x000fffff * 2 ^ 12

-- The registers of the local controller, by their offsets.
pub write_reg : ℕ → ℕ → (ℕ → ℕ) → ℕ → ℕ
write_reg offset value regs o = if o == offset then value else regs o

pub local_apic_enable : (ℕ → ℕ) → ℕ → ℕ
local_apic_enable regs =
    let cleared = write_reg 0xf0 (bit_and (regs 0xf0) 0xffffff00) regs in
    write_reg 0xf0 (bit_or (cleared 0xf0) 0x000001f0) cleared

pub send_local_apic_eoi : (ℕ → ℕ) → ℕ → ℕ
send_local_apic_eoi regs = write_reg 0xb0 0 regs

-- The selected register of the other controller, and the registers.
pub record IoApic : Type 0 where
  pub select : ℕ
  pub regs : ℕ → ℕ

abbrev pub ioredtbl : ℕ → ℕ
ioredtbl i = 2 * i + 0x10

pub write_io_apic_reg : ℕ → ℕ → IoApic → IoApic
write_io_apic_reg offset val io = record { select = offset; regs = write_reg offset val io.regs }

pub read_io_apic_reg : ℕ → IoApic → ℕ × IoApic
read_io_apic_reg offset io = (io.regs offset, record io { select = offset })

pub remap_ioredtbl : IoApic → IoApic
remap_ioredtbl io =
    let (low, io1) = read_io_apic_reg (ioredtbl 1) io in
    let io2 = write_io_apic_reg (ioredtbl 1) (bit_or (bit_and low 0xfffeff00) 0x00000040) io1 in
    let (high, io3) = read_io_apic_reg (ioredtbl 1 + 1) io2 in
    write_io_apic_reg (ioredtbl 1 + 1) (bit_and high 0xff000000) io3

-- The pointer in an entry of an I/O controller: 8 bytes are read.
pub read_ioapic : (ℕ → ℕ) → ℕ → ℕ
read_ioapic bytes entry = read_u32 bytes (entry + 4) + 2 ^ 32 * read_u32 bytes (entry + 8)

-- The loop of `get_ioapic` from the entry at `entry` on; fuel that runs out is `undefined`.
pub madt_loop : ℕ → (ℕ → ℕ) → ℕ → ℕ → Run ℕ
madt_loop zero bytes entry end = Run.undefined
madt_loop (suc fuel) bytes entry end =
    let rest = madt_loop fuel bytes (entry + u8 (bytes (entry + 1))) end in
    if leb entry end
    then (if u8 (bytes entry) == 1
        then Run.done (read_ioapic bytes entry)
        else if leb (u8 (bytes entry)) 5
        then rest
        else Run.panicked)
    else Run.done 0

-- The string "APIC".
abbrev pub apic_sig : List ℕ
apic_sig = 65 ∷ 80 ∷ 73 ∷ 67 ∷ []

pub get_ioapic : ℕ → (ℕ → ℕ) → List ℕ → Option (Run ℕ)
get_ioapic fuel bytes tables = do
  madt ← get_acpi_table bytes tables apic_sig
  some (
      if madt == 0
      then Run.panicked
      else madt_loop fuel bytes (madt + sdt_header_size + 8) (madt + table_length bytes madt))

-- The registers of both controllers with the addresses where they are mapped, and the address space.
pub record Controllers (M : Type 0) : Type 0 where
  pub local_apic_regs : ℕ
  pub io_apic_regs : ℕ
  pub local : ℕ → ℕ
  pub io : IoApic
  pub space : Space M

-- `CALC_VIRT_ADDRESS`.
abbrev pub calc_virt_address : ℕ → ℕ → ℕ
calc_virt_address p v = page_align_down v + p % 0x1000

module _ {M : Type 0} (backing : Backing M) where
  -- `apic_init` with the value of the model specific register and the tables of the firmware.
  pub apic_init : ℕ → ℕ → List ℕ → Controllers M → Run (Controllers M)
  apic_init fuel msr_reg tables c =
      let lapic_phys = get_lapic msr_reg in
      elim (alloc_mmio backing (page_align_down lapic_phys) 0x1000 vm_flag_read_write c.space) [
        | none ↦ Run.undefined
        | some (v, s1) ↦
            let c1 = record c {
              local_apic_regs = calc_virt_address lapic_phys v;
              local = local_apic_enable c.local;
              space = s1;
            } in
            elim (get_ioapic fuel s1.bytes tables) [
              | none ↦ Run.undefined
              | some undefined ↦ Run.undefined
              | some panicked ↦ Run.panicked
              | some (done ioapic_phys) ↦
                  if ioapic_phys == 0
                  then Run.panicked
                  else (elim (alloc_mmio backing ioapic_phys 0x1000 vm_flag_read_write s1) [
                    | none ↦ Run.undefined
                    | some (w, s2) ↦
                        Run.done
                          (record c1 { io_apic_regs = w; io = remap_ioredtbl c.io; space = s2 })
                  ])
            ]
      ]
