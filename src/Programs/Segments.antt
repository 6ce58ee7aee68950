-- ===== src/Programs/Segments.antt =====
-- A round of the loader.
use titan_os.Base.{ℕ, ◌+◌, ◌^◌, ◌≡◌, ◌≢◌, ◌<◌, refl, ◌∙◌, ap, ==_ne, arith}
use titan_os.Vmm.Regions.{Backing}
use titan_os.Vmm.Spaces.{Run}
use titan_os.Vfs.{FileDescriptor, ustar_read}
use titan_os.Vfs.Reads.{IsOpen, Forward, at_pos, vfs_read-at_pos, ustar_read-inside}
use titan_os.Multiboot.{read_u32, read_u64}
use titan_os.Programs.{program_header, Machine, read_file, then_run, load_round}

module _ (from at : ℕ) (bytes : ℕ → ℕ) (forward : Forward from at 56) where
  copied :
      (i a c : ℕ) → a ≡ at + i → c ≡ from + i → i < 56 → ustar_read from at 56 bytes a ≡ bytes c
  copied i a c e f lt =
      ustar_read-inside from at 56 a bytes forward (omega arith) (omega arith)
      ∙ ap bytes (omega arith)

  copied-u32 :
      (i a c : ℕ)
      → a ≡ at + i
      → c ≡ from + i
      → i + 3 < 56
      → read_u32 (ustar_read from at 56 bytes) a ≡ read_u32 bytes c
  unfolding read_u32
  copied-u32 i a c e f lt = rw (
    copied i a c e f (omega arith),
    copied (i + 1) (a + 1) (c + 1) (omega arith) (omega arith) (omega arith),
    copied (i + 2) (a + 2) (c + 2) (omega arith) (omega arith) (omega arith),
    copied (i + 3) (a + 3) (c + 3) (omega arith) (omega arith) (omega arith),
  )

  copied-u64 :
      (i a c : ℕ)
      → a ≡ at + i
      → c ≡ from + i
      → i + 7 < 56
      → read_u64 (ustar_read from at 56 bytes) a ≡ read_u64 bytes c
  unfolding read_u64
  copied-u64 i a c e f lt = rw (
    copied-u32 i a c e f (omega arith),
    copied-u32 (i + 4) (a + 4) (c + 4) (omega arith) (omega arith) (omega arith),
  )

  -- The header that was read is the one in the file.
  program_header-ustar_read :
      program_header (ustar_read from at 56 bytes) at ≡ program_header bytes from
  unfolding program_header
  program_header-ustar_read = rw (
    copied-u32 0 at from (omega arith) (omega arith) (omega arith),
    copied-u64 8 (at + 8) (from + 8) refl refl (omega arith),
    copied-u64 16 (at + 16) (from + 16) refl refl (omega arith),
    copied-u64 32 (at + 32) (from + 32) refl refl (omega arith),
    copied-u64 40 (at + 40) (from + 40) refl refl (omega arith),
  )

module _ {M : Type 0} (backing : Backing M) where
  read_file-IsOpen :
      (handle buf n : ℕ) (fd : FileDescriptor) (m : Machine M)
      → IsOpen m.vfs handle fd
      → fd.buf_read_pos + n < 2 ^ 31
      → fd.file_buffer + fd.buf_read_pos < 2 ^ 64
      → read_file backing handle buf n m
        ≡ Run.done (record {
          vfs = at_pos m.vfs handle fd (fd.buf_read_pos + n);
          space = record m.space {
            bytes = ustar_read (fd.file_buffer + fd.buf_read_pos) buf n m.space.bytes;
          };
        })
  unfolding read_file
  read_file-IsOpen handle buf n fd m o small fits =
      rw (read_file, vfs_read-at_pos m.vfs handle buf n fd m.space.bytes o small fits)

  -- The header at the read position of an open file is not of a segment to load, and its copy writes to
  -- no byte that it has yet to read. A round of the loop
  -- reads it, and changes only the buffer and the read position, which is then behind the header.
  pub load_round-skips :
      (phdr_at handle file_pos : ℕ) (fd : FileDescriptor) (m : Machine M)
      → IsOpen m.vfs handle fd
      → fd.buf_read_pos + 56 < 2 ^ 31
      → fd.file_buffer + fd.buf_read_pos < 2 ^ 64
      → Forward (fd.file_buffer + fd.buf_read_pos) phdr_at 56
      → (program_header m.space.bytes (fd.file_buffer + fd.buf_read_pos)).p_type ≢ 1
      → load_round backing phdr_at handle file_pos m
        ≡ Run.done (record {
          vfs = at_pos m.vfs handle fd (fd.buf_read_pos + 56);
          space = record m.space {
            bytes = ustar_read (fd.file_buffer + fd.buf_read_pos) phdr_at 56 m.space.bytes;
          };
        })
  unfolding load_round then_run
  load_round-skips phdr_at handle file_pos fd m o small fits forward other =
      let from = fd.file_buffer + fd.buf_read_pos in
      rw (
        read_file-IsOpen handle phdr_at 56 fd m o small fits,
        program_header-ustar_read from phdr_at m.space.bytes forward,
        ==_ne (program_header m.space.bytes from).p_type 1 other,
      )
