-- ===== src/Programs.antt =====
-- The loader of programs, src/kernel/syscalls/exec_elf.c. The file system and the address space are
-- those of Vfs and Vmm.Spaces. The local variables lie at `ehdr_at` and `phdr_at`; the header of the
-- file is read once, before the segments are loaded. What the functions print is left out.
pub mod Segments
pub mod Exec
mod Tests
use titan_os.Base.{
  ℕ, zero, suc, ◌+◌, ◌*◌, ◌^◌, ◌%◌, Bool, true, false, Option, none, some, List, ◌==◌,
  if◌then◌else◌, u8, u64,
}
use titan_os.Tar.{Header}
use titan_os.Vmm.Regions.{Backing}
use titan_os.Vmm.Spaces.{Space, Run, undefined, panicked, done, alloc}
use titan_os.Vfs.{Vfs, vfs_open, vfs_read, vfs_seek}
use titan_os.Multiboot.{read_u32, read_u64}

abbrev pub pt_load : ℕ
pt_load = 1

-- `sizeof(elf64_ehdr_t)` and `sizeof(elf64_phdr_t)`.
abbrev pub ehdr_size : ℕ
ehdr_size = 64

abbrev pub phdr_size : ℕ
phdr_size = 56

-- `VM_FLAG_READ_WRITE | VM_FLAG_USER`.
abbrev pub segment_flags : ℕ
segment_flags = 3

pub read_u16 : (ℕ → ℕ) → ℕ → ℕ
read_u16 bytes a = u8 (bytes a) + 2 ^ 8 * u8 (bytes (a + 1))

-- `elf64_phdr_t`, the fields that are read.
pub record ProgramHeader : Type 0 where
  pub p_type : ℕ
  pub p_offset : ℕ
  pub p_vaddr : ℕ
  pub p_filesz : ℕ
  pub p_memsz : ℕ

pub program_header : (ℕ → ℕ) → ℕ → ProgramHeader
program_header bytes a = record {
  p_type = read_u32 bytes a;
  p_offset = read_u64 bytes (a + 8);
  p_vaddr = read_u64 bytes (a + 16);
  p_filesz = read_u64 bytes (a + 32);
  p_memsz = read_u64 bytes (a + 40);
}

-- The file system, and the address space with the bytes of the memory.
pub record Machine (M : Type 0) : Type 0 where
  pub vfs : Vfs
  pub space : Space M

module _ {M : Type 0} (backing : Backing M) where
  -- `vfs_read` and `vfs_seek`, whose results the loader does not look at.
  pub read_file : ℕ → ℕ → ℕ → Machine M → Run (Machine M)
  read_file handle buf n m = elim (vfs_read handle buf n m.vfs m.space.bytes) [
    | none ↦ Run.undefined
    | some (_, v, bytes) ↦ Run.done (record { vfs = v; space = record m.space { bytes = bytes } })
  ]

  pub seek_file : ℕ → ℕ → Machine M → Run (Machine M)
  seek_file handle pos m = elim (vfs_seek handle pos m.vfs) [
    | none ↦ Run.undefined
    | some (_, v) ↦ Run.done (record m { vfs = v })
  ]

  pub then_run : Run (Machine M) → (Machine M → Run (Machine M)) → Run (Machine M)
  then_run r k = elim r [ undefined ↦ Run.undefined | panicked ↦ Run.panicked | done m ↦ k m ]

  -- A segment that is loaded, before the file is at `file_pos` again.
  pub load_segment : ℕ → ProgramHeader → ℕ → Machine M → Run (Machine M)
  load_segment handle h file_pos m =
      elim (alloc backing h.p_vaddr h.p_memsz segment_flags 0 m.space) [
        | none ↦ Run.undefined
        | some (p, s) ↦
            if p == 0
            then Run.panicked
            else then_run (seek_file handle h.p_offset (record m { space = s })) (λ m1.
              then_run (read_file handle h.p_vaddr h.p_filesz m1)
                (λ m2. seek_file handle file_pos m2))
      ]

  -- A round of the loop of `load_elf`, with the position `file_pos` behind it.
  pub load_round : ℕ → ℕ → ℕ → Machine M → Run (Machine M)
  load_round phdr_at handle file_pos m = then_run (read_file handle phdr_at phdr_size m) (λ m1.
      let h = program_header m1.space.bytes phdr_at in
      if h.p_type == pt_load then load_segment handle h file_pos m1 else Run.done m1)

  pub load_loop : ℕ → ℕ → ℕ → ℕ → Machine M → Run (Machine M)
  load_loop zero phdr_at handle file_pos m = Run.done m
  load_loop (suc left) phdr_at handle file_pos m =
      then_run (load_round phdr_at handle (u64 (file_pos + phdr_size)) m)
        (λ m1. load_loop left phdr_at handle (u64 (file_pos + phdr_size)) m1)

  -- `load_elf`: the machine after it; the address that it returns is `e_entry`. A file that is not
  -- opened has the handle -1, which no descriptor has.
  pub load_elf : (ℕ → Option Header) → List ℕ → List ℕ → ℕ → ℕ → Machine M → Run (Machine M)
  load_elf memory file_headers filename ehdr_at phdr_at m =
      elim (vfs_open memory file_headers filename m.vfs) [
        | none ↦ Run.undefined
        | some (none, v) ↦ Run.undefined
        | some (some handle, v) ↦
            then_run (read_file handle ehdr_at ehdr_size (record m { vfs = v })) (λ m1.
              let e_phoff = read_u64 m1.space.bytes (ehdr_at + 32) in
              let e_phnum = read_u16 m1.space.bytes (ehdr_at + 56) in
              then_run (seek_file handle e_phoff m1)
                (λ m2. load_loop e_phnum phdr_at handle e_phoff m2))
      ]

-- What `load_elf` returns, from the memory after it.
pub e_entry : (ℕ → ℕ) → ℕ → ℕ
e_entry bytes ehdr_at = read_u64 bytes (ehdr_at + 24)
