-- ===== src/Tar/Init.antt =====
-- `tar_init` of src/kernel/fs/tar.c: from the tag of the module to the headers of its files. The memory
-- is one of bytes by virtual address, in the space of Vmm.Spaces.
use titan_os.Base.{
  ℕ, ◌+◌, ◌-◌, ◌*◌, ◌/◌, ◌^◌, ◌<◌, ◌≤◌, ◌≡◌, ◌≢◌, Option, none, some, List, ◌==◌, ==_ne,
  if◌then◌else◌, length, replicate, u32, arith,
}
use titan_os.Multiboot.{read_u32, tag_type, tag_type_module, first_tag, find_tag}
use titan_os.Multiboot.Tags.{Tag, Layout, place, find_tag-found}
use titan_os.Acpi.{bytes_at}
use titan_os.Vmm.Regions.{Backing}
use titan_os.Vmm.Spaces.{Space, Run, get_mmio_ptr, alloc}
use titan_os.Tar.{Header, header_list_size, parse_loop}
use titan_os.Tar.Laws.{Archive, fill, parse_loop-Archive}

-- A header in memory.
unfoldable pub header_at : (ℕ → ℕ) → ℕ → Option Header
header_at bytes a =
    some (record { filename = bytes_at bytes a 100; size = bytes_at bytes (a + 124) 12 })

-- The size of the module in whole pages, in 32 bits.
unfoldable pub module_size : ℕ → ℕ → ℕ
module_size mod_start mod_end =
    u32 (u32 (u32 (mod_end + 2 ^ 32 - mod_start) + 0xfff) / 0x1000 * 0x1000)

module _ {M : Type 0} (backing : Backing M) where
  -- The place of `vmm_alloc` for the module of a tag.
  unfoldable pub map_module : ℕ → Space M → Option (ℕ × Space M)
  map_module tag s =
      let mod_start = read_u32 s.bytes (tag + 8) in
      let file_size = module_size mod_start (read_u32 s.bytes (tag + 12)) in
      let (found, next) = get_mmio_ptr file_size s.mmio_region in
      alloc backing found file_size 3 mod_start (record s { mmio_region = next })

  -- `walk` and `fuel` are those of the loops; without an end they are undefined here.
  pub tar_init : ℕ → ℕ → ℕ → Space M → Run (List ℕ × Space M)
  tar_init walk fuel mb_info s = elim (find_tag walk s.bytes tag_type_module (first_tag mb_info)) [
    | none ↦ Run.undefined
    | some tag ↦
        if tag_type s.bytes tag == tag_type_module
        then (elim (map_module tag s) [
          | none ↦ Run.undefined
          | some (tar_file, t) ↦
              if tar_file == 0
              then Run.undefined
              else elim (parse_loop fuel (header_at t.bytes) tar_file 0
                  (replicate header_list_size 0)) [
                    | none ↦ Run.undefined
                    | some file_headers ↦ Run.done (file_headers, t)
                  ]
        ])
        else Run.panicked
  ]

  -- When the boot loader's tags have one of a module, and `vmm_alloc` maps it to an address where an
  -- archive of at most five files lies, `tar_init` is defined with fuel above the numbers of tags and
  -- of files, and `file_headers` are the addresses of the headers in order, and NULL behind them.
  pub tar_init-Archive :
      (walk fuel mb_info tag tar_file : ℕ) (ts : List Tag) (files : List ℕ) (s t : Space M)
      → length ts < walk
      → Layout s.bytes (first_tag mb_info) ts
      → place tag_type_module (first_tag mb_info) ts (λ end. 0) ≡ tag
      → tag ≢ 0
      → map_module tag s ≡ some (tar_file, t)
      → tar_file ≢ 0
      → Archive (header_at t.bytes) tar_file files
      → length files < fuel
      → length files ≤ 5
      → tar_init walk fuel mb_info s ≡ Run.done (fill (replicate 5 0) 0 files, t)
  unfolding tar_init
  tar_init-Archive walk fuel mb_info tag tar_file ts files s t lt l e there maps mapped ar enough
        few =
      let (found, is) =
        find_tag-found walk s.bytes tag_type_module (first_tag mb_info) tag ts lt l e there in
      let (fits, _) =
        parse_loop-Archive fuel (header_at t.bytes) tar_file 0 (replicate 5 0) files ar enough
          (omega arith) in
      rw (tar_init, found, is, maps, ==_ne tar_file 0 mapped, fits (omega arith))
