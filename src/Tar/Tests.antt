-- ===== src/Tar/Tests.antt =====
-- The archive of a small boot module.
use titan_os.Base.{
  ap, ◌∙◌, ltb, suc, true, ℕ, ◌≡◌, refl, some, List, [], ◌∷◌, ◌==◌, if◌then◌else◌, replicate, arith,
}
use titan_os.Tar.{get_file_size, next_header}
use titan_os.Tar.Laws.{Archive, fill, get_file_size-octal}
use titan_os.Tar.Init.{header_at, module_size, map_module, tar_init, tar_init-Archive}
use titan_os.Multiboot.{read_u32, next_tag}
use titan_os.Multiboot.Tags.{Layout}
use titan_os.Acpi.{bytes_at}
use titan_os.Vmm.Regions.{Region, Backing, vmm_alloc, insert_at, back_region, back_pages}
use titan_os.Vmm.Spaces.{Space, Run, alloc, get_mmio_ptr}

abbrev size_text : List ℕ
size_text = 48 ∷ 48 ∷ 48 ∷ 48 ∷ 48 ∷ 48 ∷ 48 ∷ 49 ∷ 48 ∷ 48 ∷ 48 ∷ 0 ∷ []

size_text-512 : get_file_size size_text ≡ some 512
size_text-512 =
    get_file_size-octal 0 0 0 0 0 0 0 1 0 0 0 (0 ∷ []) (omega arith) (omega arith) (omega arith)
      (omega arith) (omega arith) (omega arith) (omega arith) (omega arith) (omega arith)
      (omega arith) (omega arith)

-- The tag of a module from 0x200000 to 0x200600 at 0x1008, and the module at 0x5000: a file "a" of 512
-- bytes.
abbrev bytes : ℕ → ℕ
bytes a =
    if a == 0x1008
    then 3
    else if a == 0x100c
    then 16
    else if a == 0x1012
    then 0x20
    else if a == 0x1015
    then 6
    else if a == 0x1016
    then 0x20
    else if a == 0x5000
    then b'a'
    else if ltb a 0x507c
    then 0
    else if a == 0x5083
    then 49
    else if ltb a 0x5087
    then 48
    else 0

bytes-Layout : Layout bytes 0x1008 (record { type = 3; size = 16 } ∷ [])
unfolding read_u32 next_tag
bytes-Layout = (refl, omega arith, refl, refl)

bytes-size : bytes_at bytes 0x507c 12 ≡ size_text
unfolding bytes_at
bytes-size = refl

bytes-Archive : Archive (header_at bytes) 0x5000 (0x5000 ∷ [])
unfolding Archive next_header header_at bytes_at
bytes-Archive = (
  refl,
  record { filename = bytes_at bytes 0x5000 100; size = bytes_at bytes 0x507c 12 },
  b'a',
  512,
  refl,
  refl,
  omega arith,
  ap get_file_size bytes-size ∙ size_text-512,
  (record { filename = bytes_at bytes 0x5400 100; size = bytes_at bytes 0x547c 12 }, refl, refl),
)

abbrev head : Region
head = record { base = 0; length = 0; flags = 1 }

abbrev space : Space ℕ
space = record {
  regions = head ∷ [];
  mmio_region = 0x5000;
  kernel_stack_ptr = 0;
  bytes = bytes;
  pages = 0;
}

abbrev backing : Backing ℕ
backing = record { back = λ v a f m. some (true, suc m) }

abbrev mapped : Space ℕ
mapped = record space {
  regions = head ∷ record { base = 0x5000; length = 0x1000; flags = 3 } ∷ [];
  mmio_region = 0x6000;
  pages = 1;
}

maps : map_module backing 0x1008 space ≡ some (0x5000, mapped)
unfolding map_module module_size read_u32 get_mmio_ptr alloc vmm_alloc insert_at back_region
    back_pages
maps = refl

tar_init-Archive_example :
    tar_init backing 2 2 0x1000 space ≡ Run.done (fill (replicate 5 0) 0 (0x5000 ∷ []), mapped)
tar_init-Archive_example =
    tar_init-Archive backing 2 2 0x1000 0x1008 0x5000 (record { type = 3; size = 16 } ∷ [])
      (0x5000 ∷ []) space mapped (omega arith) bytes-Layout refl (omega arith) maps (omega arith)
      bytes-Archive (omega arith) (omega arith)
