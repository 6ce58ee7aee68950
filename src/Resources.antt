-- ===== src/Resources.antt =====
-- The resources of a process, src/kernel/fs/resource_handling.c. The table is the field
-- `resource_table` of the process, where NULL is `none`. A pointer to a function is 0 for NULL.
pub mod Laws
mod Tests
use titan_os.Base.{
  ℕ, zero, suc, ◌+◌, Bool, true, false, Option, none, some, List, [], ◌∷◌, ◌==◌, ltb, get_elem?,
  set, if◌then◌else◌, ◌>>=◌,
}

-- `resource_type_t`.
pub data ResourceType : Type 0 where
  file : ResourceType
  message_endpoint : ResourceType
  shared_mem : ResourceType

-- `resource_t`.
pub record Resource : Type 0 where
  pub kind : ResourceType
  pub internal_handle : ℕ
  pub read : ℕ
  pub write : ℕ
  pub open_with : ℕ
  pub close_with : ℕ

abbrev pub max_handles : ℕ
max_handles = 100

abbrev pub max_resources : ℕ
max_resources = 5

-- `read_resource`: what a read of a file does is an argument, the call of `vfs_read`.
pub read_resource : (ℕ → Option ℕ) → Resource → Option ℕ
read_resource vfs_read r = elim r.kind [
  | file ↦ vfs_read r.internal_handle
  | message_endpoint ↦ some 0
  | shared_mem ↦ some 0
]

-- `get_resource` of a handle that is not negative. The test allows handles that the table has not.
pub get_resource : List (Option Resource) → ℕ → Option (Option Resource)
get_resource table handle = if ltb handle max_handles then get_elem? table handle else some none

pub remove_resource : List (Option Resource) → ℕ → Option (Bool × List (Option Resource))
remove_resource table handle = get_resource table handle >>= λ found. elim found [
  | none ↦ some (false, table)
  | some r ↦ if r.close_with == 0 then some (false, table) else some (true, set table handle none)
]

-- The loop of `register_resource` at `handle`: the handle that it returns, or none of it for -1.
pub register_loop :
    ℕ → ℕ → List (Option Resource) → Resource → Option (Option ℕ × List (Option Resource))
register_loop zero handle table r = some (none, table)
register_loop (suc left) handle table r =
    let rest = register_loop left (handle + 1) table r in
    do
      entry ← get_elem? table handle
      elim entry [ none ↦ some (some handle, set table handle (some r)) | some old ↦ rest ]

pub register_resource :
    List (Option Resource) → Resource → Option (Option ℕ × List (Option Resource))
register_resource table r = register_loop max_resources 0 table r

-- `register_file_resource`, for the handle that `vfs_open` returned and the address of `read_resource`.
pub register_file_resource :
    ℕ → ℕ → List (Option Resource) → Option (Option ℕ × List (Option Resource))
register_file_resource opened read_at table = register_resource table (record {
  kind = ResourceType.file;
  internal_handle = opened;
  read = read_at;
  write = 0;
  open_with = 0;
  close_with = 0;
})
