-- ===== src/Vfs.antt =====
-- The file system, src/kernel/fs/vfs.c. The pointer that `kmalloc` returns for a mount point is an
-- argument, a NULL in the table of mount points is 0, and errors are printed nowhere. The only type of
-- file system is the archive. A number of type int is kept as its 32 bits.
pub mod Mounts
pub mod Files
pub mod Reads
mod Tests
use titan_os.Base.{
  ℕ, zero, suc, ◌+◌, ◌-◌, ◌*◌, ◌^◌, Bool, true, false, ◌&&◌, Option, none, some, List, [], ◌∷◌,
  ◌==◌, ltb, leb, if◌then◌else◌, get_elem?, set, replicate, u32, u64, ◌>>=◌,
}
use titan_os.Strings.{strncpy, strncmp}
use titan_os.Tar.{Header, ustar_open}

abbrev pub max_mountpoints : ℕ
max_mountpoints = 12

abbrev pub max_opened_files : ℕ
max_opened_files = 10

abbrev pub vfs_path_length : ℕ
vfs_path_length = 64

-- `mountpoint_t`, without the pointers to functions, which nothing calls.
pub record Mountpoint : Type 0 where
  pub type : List ℕ
  pub device : List ℕ
  pub mountpoint : List ℕ

-- `file_descriptor_t`.
pub record FileDescriptor : Type 0 where
  pub fs_file_id : ℕ
  pub mountpoint_id : ℕ
  pub filename : List ℕ
  pub buf_read_pos : ℕ
  pub buf_write_pos : ℕ
  pub file_size : ℕ
  pub file_buffer : ℕ

-- The tables `mountpoints` and `vfs_opened_files`, and the mount points by pointer.
pub record Vfs : Type 0 where
  pub mountpoints : List ℕ
  pub mountpoint_at : ℕ → Option Mountpoint
  pub files : List FileDescriptor

-- The string "tar".
abbrev pub tar : List ℕ
tar = 116 ∷ 97 ∷ 114 ∷ 0 ∷ []

pub put_mountpoint : ℕ → Option Mountpoint → Vfs → Vfs
put_mountpoint p m v = record v { mountpoint_at = λ q. if q == p then m else v.mountpoint_at q }

-- `create_mountpoint` with the memory `fresh` at the pointer `p`. The result 0 is NULL.
pub create_mountpoint : ℕ → Mountpoint → List ℕ → List ℕ → List ℕ → Vfs → Option (ℕ × Vfs)
create_mountpoint p fresh device target fs_type v = do
  device' ← strncpy fresh.device device vfs_path_length
  type' ← strncpy fresh.type fs_type 32
  target' ← strncpy fresh.mountpoint target vfs_path_length
  same ← strncmp fs_type tar vfs_path_length
  some (
      if same
      then (
        p,
        put_mountpoint p (some (record { type = type'; device = device'; mountpoint = target' })) v,
      )
      else (0, put_mountpoint p none v))

-- `add_mountpoint` from the index `i` on.
pub add_loop : ℕ → ℕ → ℕ → List ℕ → Option (Bool × List ℕ)
add_loop zero i p table = some (false, table)
add_loop (suc left) i p table =
    let rest = add_loop left (i + 1) p table in
    do q ← get_elem? table i; if q == 0 then some (true, set table i p) else rest

pub add_mountpoint : ℕ → Vfs → Option (Bool × Vfs)
add_mountpoint p v = add_loop max_mountpoints 0 p v.mountpoints >>= λ (ok, table).
    some (ok, record v { mountpoints = table })

-- `get_mountpoint` from the index `i` on. A NULL in the table is read through.
unfoldable pub get_loop : ℕ → ℕ → List ℕ → Vfs → Option ℕ
get_loop zero i path v = some 0
get_loop (suc left) i path v =
    let rest = get_loop left (i + 1) path v in
    do
      q ← get_elem? v.mountpoints i
      m ← v.mountpoint_at q
      same ← strncmp m.mountpoint path vfs_path_length
      if same then some q else rest

unfoldable pub get_mountpoint : List ℕ → Vfs → Option ℕ
get_mountpoint path v = get_loop max_mountpoints 0 path v

-- `vfs_mount` and, with the arguments of the initial file system, `vfs_init`. The result false is the
-- `PANIC`.
pub vfs_mount : ℕ → Mountpoint → List ℕ → List ℕ → List ℕ → Vfs → Option (Bool × Vfs)
vfs_mount p fresh device target fs_type v = do
  (q, v1) ← create_mountpoint p fresh device target fs_type v
  add_mountpoint q v1

-- The strings "initramfs" and "/".
abbrev pub initramfs : List ℕ
initramfs = 105 ∷ 110 ∷ 105 ∷ 116 ∷ 114 ∷ 97 ∷ 109 ∷ 102 ∷ 115 ∷ 0 ∷ []

abbrev pub root : List ℕ
root = 47 ∷ 0 ∷ []

pub vfs_init : ℕ → Mountpoint → Vfs → Option (Bool × Vfs)
vfs_init p fresh v = vfs_mount p fresh initramfs root tar v

-- `kfree` of a mount point. The header of NULL lies outside the memory.
pub free_mountpoint : ℕ → Vfs → Option Vfs
free_mountpoint p v = if p == 0 then none else some (put_mountpoint p none v)

-- The loop of `vfs_umount`, which ends at the index of the result.
pub umount_loop : ℕ → ℕ → List ℕ → Vfs → Option (ℕ × Vfs)
umount_loop zero i device v = some (i, v)
umount_loop (suc left) i device v =
    let rest = umount_loop left (i + 1) device v in
    do
      q ← get_elem? v.mountpoints i
      m ← v.mountpoint_at q
      same ← strncmp m.device device vfs_path_length
      if same then some (i, record v { mountpoints = set v.mountpoints i 0 }) else rest

pub vfs_umount : List ℕ → Vfs → Option Vfs
vfs_umount device v = do
  (i, v1) ← umount_loop max_mountpoints 0 device v
  q ← get_elem? v1.mountpoints i
  free_mountpoint q v1

-- The descriptor that `ustar_open` returns.
unfoldable pub open_tar : (ℕ → Option Header) → List ℕ → List ℕ → Option FileDescriptor
open_tar memory file_headers file_name = do
  (file_size, file_buffer) ← ustar_open memory file_headers file_name
  filename ← strncpy (replicate vfs_path_length 0) file_name vfs_path_length
  some (record {
    fs_file_id = 0;
    mountpoint_id = 0;
    filename = filename;
    buf_read_pos = 0;
    buf_write_pos = 0;
    file_size = u32 file_size;
    file_buffer = file_buffer;
  })

-- The loop of `vfs_open` from the index `i` on: the handle, or none of it for -1.
unfoldable pub open_loop :
    ℕ → ℕ → FileDescriptor → List FileDescriptor → Option (Option ℕ × List FileDescriptor)
open_loop zero i fd files = some (none, files)
open_loop (suc left) i fd files =
    let rest = open_loop left (i + 1) fd files in
    do
      old ← get_elem? files i
      first ← get_elem? old.filename 0
      if first == 0 then some (some i, set files i fd) else rest

-- The name behind the first byte of a path.
abbrev pub name_of : List ℕ → List ℕ
name_of [] = []
name_of (c ∷ path) = path

unfoldable pub vfs_open : (ℕ → Option Header) → List ℕ → List ℕ → Vfs → Option (Option ℕ × Vfs)
vfs_open memory file_headers path v = do
  p ← get_mountpoint path v
  m ← v.mountpoint_at p
  same ← strncmp tar m.type 3
  if same
      then (do
        fd ← open_tar memory file_headers (name_of path)
        (handle, files) ← open_loop max_opened_files 0 fd v.files
        some (handle, record v { files = files }))
      else some (none, v)

-- `vfs_close`.
pub vfs_close : ℕ → Vfs → Bool × Vfs
vfs_close handle v = (true, v)

-- An int as a number of 64 bits.
abbrev pub sign_extend : ℕ → ℕ
sign_extend n = if ltb n (2 ^ 31) then n else n + (2 ^ 64 - 2 ^ 32)

-- `memcpy` within the memory, byte by byte from the first on.
unfoldable pub copy_bytes : ℕ → ℕ → ℕ → (ℕ → ℕ) → ℕ → ℕ
copy_bytes zero dest src bytes = bytes
copy_bytes (suc n) dest src bytes =
    copy_bytes n (dest + 1) (src + 1) (λ a. if a == dest then bytes src else bytes a)

unfoldable pub ustar_read : ℕ → ℕ → ℕ → (ℕ → ℕ) → ℕ → ℕ
ustar_read file_handle buffer nbytes bytes = copy_bytes nbytes buffer file_handle bytes

-- `vfs_read`: the result, the tables and the bytes of the memory.
unfoldable pub vfs_read : ℕ → ℕ → ℕ → Vfs → (ℕ → ℕ) → Option (ℕ × Vfs × (ℕ → ℕ))
vfs_read handle buf nbytes v bytes = do
  fd ← get_elem? v.files handle
  q ← get_elem? v.mountpoints fd.mountpoint_id
  m ← v.mountpoint_at q
  same ← strncmp tar m.type 3
  some (
      if same
      then (
        nbytes,
        record v {
          files =
              set v.files handle
                (record fd { buf_read_pos = u32 (sign_extend fd.buf_read_pos + nbytes) });
        },
        ustar_read (u64 (fd.file_buffer + sign_extend fd.buf_read_pos)) buf nbytes bytes,
      )
      else (2 ^ 64 - 1, v, bytes))

-- `vfs_seek`.
unfoldable pub vfs_seek : ℕ → ℕ → Vfs → Option (ℕ × Vfs)
vfs_seek handle pos v = do
  fd ← get_elem? v.files handle
  some (pos, record v { files = set v.files handle (record fd { buf_read_pos = u32 pos }) })
