-- ===== src/Vfs/Tests.antt =====
-- The file system with one file "a" of 8 bytes.
use titan_os.Base.{
  inr, ℕ, zero, suc, ◌+◌, ◌≡◌, ◌≢◌, ◌<◌, ◌≤◌, ◌⊎◌, inl, refl, Bool, true, Option, none, some, List,
  [], ◌∷◌, get_elem?, set, replicate, arith, ◌==◌, if◌then◌else◌,
}
use titan_os.Strings.{strncpy, strnlen, memcpy, memset, at_offset, strncmp, strncmp_loop}
use titan_os.Tar.{Header, ustar_open, get_file_header, find_loop, get_file_size, size_loop}
use titan_os.Vfs.{
  Mountpoint, FileDescriptor, Vfs, open_tar, initramfs, root, tar, name_of, vfs_init, vfs_mount,
  vfs_open, vfs_read, vfs_seek,
}
use titan_os.Vfs.Mounts.{vfs_mount_unknown}
use titan_os.Vfs.Files.{first_byte, vfs_init-vfs_open}
use titan_os.Vfs.Reads.{IsOpen, vfs_seek-vfs_read, vfs_read-vfs_read}

abbrev free_file : FileDescriptor
free_file = record {
  fs_file_id = 0;
  mountpoint_id = 0;
  filename = replicate 64 0;
  buf_read_pos = 0;
  buf_write_pos = 0;
  file_size = 0;
  file_buffer = 0;
}

abbrev fresh : Mountpoint
fresh = record { type = replicate 32 7; device = replicate 64 7; mountpoint = replicate 64 7 }

abbrev empty : Vfs
empty = record {
  mountpoints = replicate 12 0;
  mountpoint_at = λ q. none;
  files = replicate 10 free_file;
}

-- The header at 0x2000, whose size is "00000000010".
abbrev header : Header
header = record {
  filename = 97 ∷ replicate 99 0;
  size = 48 ∷ 48 ∷ 48 ∷ 48 ∷ 48 ∷ 48 ∷ 48 ∷ 48 ∷ 48 ∷ 49 ∷ 48 ∷ 0 ∷ [];
}

abbrev archive : ℕ → Option Header
archive a = if a == 0x2000 then some header else none

abbrev headers : List ℕ
headers = 0x2000 ∷ replicate 4 0

-- The path "/a".
abbrev path : List ℕ
path = 47 ∷ 97 ∷ 0 ∷ []

abbrev opened_file : FileDescriptor
opened_file = record free_file {
  filename = 97 ∷ replicate 63 0;
  file_size = 8;
  file_buffer = 0x2200;
}

open_tar_opened : open_tar archive headers (name_of path) ≡ some opened_file
unfolding open_tar ustar_open get_file_header find_loop get_file_size size_loop strncpy strnlen
    memcpy memset at_offset strncmp strncmp_loop
open_tar_opened = refl

-- The string "ext".
abbrev ext : List ℕ
ext = 101 ∷ 120 ∷ 116 ∷ 0 ∷ []

abbrev mounted : Vfs
mounted = record {
  mountpoints = 0x5000 ∷ replicate 11 0;
  mountpoint_at = λ q.
      if q == 0x5000
      then some (record { type = tar; device = initramfs; mountpoint = root })
      else none;
  files = opened_file ∷ replicate 9 free_file;
}

mounted-IsOpen : IsOpen mounted 0 opened_file
unfolding strncmp strncmp_loop
mounted-IsOpen = record {
  mount = 0x5000;
  point = record { type = tar; device = initramfs; mountpoint = root };
  opened = refl;
  mounted = refl;
  known = refl;
  archive = refl;
}

names_known : (n k : ℕ) → k < n → (c : ℕ) × (first_byte (replicate n free_file) k ≡ some c)
names_known zero k lt = absurd (omega arith)
names_known (suc n) zero lt = (0, refl)
names_known (suc n) (suc k) lt = names_known n k (omega arith)

vfs_init-vfs_open_example :
    (v1 : Vfs) × (vfs_init 0x5000 fresh empty ≡ some (true, v1))
    × (((vfs_open archive headers path v1 ≡ some (none, v1))
          × ((k : ℕ) → k < 10 → first_byte empty.files k ≢ some 0))
        ⊎ ((k : ℕ) × (k < 10)
            × (vfs_open archive headers path v1
                ≡ some (some k, record v1 { files = set empty.files k opened_file }))
            × (first_byte empty.files k ≡ some 0)
            × ((j : ℕ) → j < k → first_byte empty.files j ≢ some 0)))
vfs_init-vfs_open_example =
    vfs_init-vfs_open 0x5000 fresh empty (replicate 11 0) archive headers path opened_file
      (omega arith) (omega arith) (omega arith) refl (names_known 10) open_tar_opened

vfs_mount_unknown_example :
    (ok : Bool) × (v' : Vfs) × (vfs_mount 0x6000 fresh initramfs root ext empty ≡ some (ok, v'))
    × (v'.mountpoints ≡ replicate 12 0)
    × ((j : ℕ) → get_elem? empty.mountpoints j ≡ some 0 → ok ≡ true)
unfolding strncpy strnlen memcpy memset at_offset strncmp strncmp_loop
vfs_mount_unknown_example =
    vfs_mount_unknown 0x6000 fresh initramfs root ext
      (105 ∷ 110 ∷ 105 ∷ 116 ∷ 114 ∷ 97 ∷ 109 ∷ 102 ∷ 115 ∷ replicate 55 0)
      (101 ∷ 120 ∷ 116 ∷ replicate 29 0) (47 ∷ replicate 63 0) empty refl refl refl refl refl

vfs_seek-vfs_read_example :
    (v1 : Vfs) × (v2 : Vfs) × (bytes' : ℕ → ℕ) × (vfs_seek 0 4 mounted ≡ some (4, v1))
    × (vfs_read 0 0x9000 3 v1 (λ a. a) ≡ some (3, v2, bytes'))
    × ((i : ℕ) → i < 3 → bytes' (0x9000 + i) ≡ 0x2200 + 4 + i)
    × ((a : ℕ) → (a < 0x9000) ⊎ (0x9000 + 3 ≤ a) → bytes' a ≡ a)
    × IsOpen v2 0 (record opened_file { buf_read_pos = 7 })
vfs_seek-vfs_read_example =
    vfs_seek-vfs_read mounted 0 0x9000 4 3 opened_file (λ a. a) mounted-IsOpen (omega arith)
      (omega arith) (inr (omega arith))

vfs_read-vfs_read_example :
    (v1 : Vfs) × (v2 : Vfs) × (bytes1 : ℕ → ℕ) × (bytes2 : ℕ → ℕ) × (whole : ℕ → ℕ) × (vfs_read 0
        0x9000 3 mounted
        (λ a. a)
      ≡ some (3, v1, bytes1))
    × (vfs_read 0 0x9003 2 v1 bytes1 ≡ some (2, v2, bytes2))
    × (vfs_read 0 0x9000 5 mounted (λ a. a) ≡ some (5, v2, whole))
    × ((a : ℕ) → bytes2 a ≡ whole a)
vfs_read-vfs_read_example =
    vfs_read-vfs_read mounted 0 0x9000 3 2 opened_file (λ a. a) mounted-IsOpen (omega arith)
      (omega arith) (inl (omega arith))
