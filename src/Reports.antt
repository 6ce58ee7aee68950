-- ===== src/Reports.antt =====
-- The functions that print what the kernel has found: `dump_regions` of src/kernel/mm/mb2_mmap.c, those
-- of src/kernel/drivers/acpi.c, `dump_ehdr` of src/kernel/syscalls/exec_elf.c and `print_name` of
-- src/kernel/kernel.c. A report is the text that the calls of the console's functions print in order.
pub mod Texts
pub mod Screens
use titan_os.Base.{
  ℕ, zero, suc, ◌+◌, Option, none, some, List, [], ◌∷◌, ◌++◌, ◌==◌, if◌then◌else◌, u8, ◌>>=◌,
}
use titan_os.Vga.{
  Console, Arg, Printed, returns, hangs, undefined, after, printf, printlong, printstr,
}
use titan_os.MemoryMap.{Entry, Lists}
use titan_os.Multiboot.{read_u64}
use titan_os.Acpi.{table_length}
use titan_os.Programs.{read_u16}
use titan_os.Reports.Texts.{
  available_title, reserved_title, region_format, rsdt_addr_title, rsdt_length_title,
  rsdt_signature_title, version_format, oem_title, found_title, phoff_format, phnum_format,
  signature_format, name_text,
}

-- One call and then another.
unfoldable pub then_print : Printed → Printed → Printed
then_print (returns out) next = after out next
then_print (hangs out) next = hangs out
then_print undefined next = undefined

-- A report on the console; a call that does not return has none.
pub show : Printed → Console → Option Console
show (returns out) s = printstr out s
show (hangs out) s = none
show undefined s = none

pub dump_region : Entry → Printed
dump_region e = printf region_format (Arg.long e.addr ∷ Arg.long e.len ∷ [])

pub dump_list : List Entry → Printed
dump_list [] = returns []
dump_list (e ∷ es) = then_print (dump_region e) (dump_list es)

pub dump_regions : Lists → Printed
dump_regions l = then_print (printf available_title []) (
    then_print (dump_list l.available)
      (then_print (printf reserved_title []) (dump_list l.reserved)))

-- The characters from an address on, each by `printc`.
pub print_chars : ℕ → (ℕ → ℕ) → ℕ → List ℕ
print_chars zero bytes p = []
print_chars (suc n) bytes p = u8 (bytes p) ∷ print_chars n bytes (p + 1)

-- The field `signature` of a header, and `oemid`, which lies 10 bytes into it.
pub print_signature : (ℕ → ℕ) → ℕ → List ℕ
print_signature bytes acpi_header = print_chars 4 bytes acpi_header

pub print_oem_signature : (ℕ → ℕ) → ℕ → List ℕ
print_oem_signature bytes acpi_header = print_chars 6 bytes (acpi_header + 10)

pub print_rsdt_info : (ℕ → ℕ) → ℕ → List ℕ
print_rsdt_info bytes rsdt =
    rsdt_addr_title
    ++ (printlong rsdt
        ++ (b'\n'
            ∷ (rsdt_length_title
                ++ (printlong (table_length bytes rsdt)
                    ++ (b'\n'
                        ∷ (rsdt_signature_title
                            ++ (print_signature bytes rsdt ++ (b'\n' ∷ []))))))))

-- The loop of `dump_acpi_info`.
pub dump_tables : (ℕ → ℕ) → List ℕ → Printed
dump_tables bytes [] = returns []
dump_tables bytes (t ∷ ts) =
    then_print (printf found_title [])
      (then_print (returns (print_signature bytes t ++ (b'\n' ∷ []))) (dump_tables bytes ts))

-- `dump_acpi_info` after the tables were found. The revision lies 8 bytes into the header.
pub dump_acpi_info : (ℕ → ℕ) → ℕ → List ℕ → Printed
dump_acpi_info bytes rsdt tables =
    if rsdt == 0
    then returns []
    else then_print (printf version_format (Arg.int (u8 (bytes (rsdt + 8))) ∷ [])) (
        then_print (printf oem_title []) (
          then_print (returns (print_oem_signature bytes rsdt ++ (b'\n' ∷ [])))
            (dump_tables bytes tables)))

-- `dump_ehdr` of the header at `ehdr`, with the string that starts there.
pub dump_ehdr : (ℕ → ℕ) → ℕ → List ℕ → Printed
dump_ehdr bytes ehdr eident = then_print (printf signature_format (Arg.str eident ∷ [])) (
    then_print (printf phoff_format (Arg.long (read_u64 bytes (ehdr + 32)) ∷ []))
      (printf phnum_format (Arg.int (read_u16 bytes (ehdr + 56)) ∷ [])))

pub print_name : Console → Option Console
print_name s = printstr name_text s
