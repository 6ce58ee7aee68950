-- ===== src/Multiboot.antt =====
-- The information of the boot loader, src/include/multiboot2.h: its tags by their addresses in a
-- memory of bytes. `none` is that the walk has not ended with its fuel.
pub mod Tags
mod Tests
use titan_os.Base.{
  ℕ, zero, suc, ◌+◌, ◌-◌, ◌*◌, ◌%◌, ◌^◌, Bool, true, false, ◌||◌, Option, none, some, ◌==◌,
  if◌then◌else◌, u8, u64, ◌>>=◌,
}

-- Numbers of 32 bits in memory.
unfoldable pub read_u32 : (ℕ → ℕ) → ℕ → ℕ
read_u32 bytes a =
    u8 (bytes a)
    + 2 ^ 8 * u8 (bytes (a + 1))
    + 2 ^ 16 * u8 (bytes (a + 2))
    + 2 ^ 24 * u8 (bytes (a + 3))

unfoldable pub read_u64 : (ℕ → ℕ) → ℕ → ℕ
read_u64 bytes a = read_u32 bytes a + 2 ^ 32 * read_u32 bytes (a + 4)

-- `MULTIBOOT_TAG_TYPE_MODULE`, `MULTIBOOT_TAG_TYPE_MMAP` and `MULTIBOOT_TAG_TYPE_ACPI_NEW`; the type
-- of the tag at the end is 0.
abbrev pub tag_type_module : ℕ
tag_type_module = 3

abbrev pub tag_type_mmap : ℕ
tag_type_mmap = 6

abbrev pub tag_type_acpi_new : ℕ
tag_type_acpi_new = 15

-- The fields of `struct multiboot_tag`.
abbrev pub tag_type : (ℕ → ℕ) → ℕ → ℕ
tag_type bytes tag = read_u32 bytes tag

abbrev pub tag_size : (ℕ → ℕ) → ℕ → ℕ
tag_size bytes tag = read_u32 bytes (tag + 4)

-- `tags` of `struct multiboot_info`.
abbrev pub first_tag : ℕ → ℕ
first_tag mb2_info = mb2_info + 8

-- The step of the walk: the macro `ALIGN_UP` with 8.
unfoldable pub next_tag : ℕ → ℕ → ℕ
next_tag tag size = let end = u64 (tag + size + 7) in end - end % 8

-- The walk to the first tag of the type, or to the end, from `tag` on.
unfoldable pub find_tag : ℕ → (ℕ → ℕ) → ℕ → ℕ → Option ℕ
find_tag zero bytes type tag = none
find_tag (suc fuel) bytes type tag =
    let rest = find_tag fuel bytes type (next_tag tag (tag_size bytes tag)) in
    if (tag_type bytes tag == 0) || (tag_type bytes tag == type) then some tag else rest

-- `get_mb2_tag`, where 0 is NULL.
unfoldable pub get_mb2_tag : ℕ → (ℕ → ℕ) → ℕ → ℕ → Option ℕ
get_mb2_tag fuel bytes mb2_info type = find_tag fuel bytes type (first_tag mb2_info) >>= λ tag.
    some (if tag_type bytes tag == type then tag else 0)
