-- ===== src/Vfs/Reads.antt =====
-- Reads of an opened file.
use titan_os.Base.{
  ℕ, zero, suc, ◌+◌, ◌-◌, ◌^◌, ◌≡◌, ◌<◌, ◌≤◌, ◌⊎◌, inl, inr, refl, sym, ◌∙◌, ap, true, some, List,
  [], ◌∷◌, ltb-true, ==_ne, ==_self, ◌≢◌, get_elem?, set, get_elem?-set_self, lt_of_get_elem?, u32,
  u64, arith,
}
use native.Mathlib.Decide.{ℕ_discrete, dec_lt}
use titan_os.Strings.{strncmp}
use titan_os.Vfs.{Mountpoint, FileDescriptor, Vfs, tar, copy_bytes, ustar_read, vfs_read, vfs_seek}

-- A handle of a file of the archive, its descriptor `fd`.
pub record IsOpen (v : Vfs) (handle : ℕ) (fd : FileDescriptor) : Type 0 where
  pub mount : ℕ
  pub point : Mountpoint
  pub opened : get_elem? v.files handle ≡ some fd
  pub mounted : get_elem? v.mountpoints fd.mountpoint_id ≡ some mount
  pub known : v.mountpoint_at mount ≡ some point
  pub archive : strncmp tar point.type 3 ≡ some true

-- The tables with the read position of the file at `pos`.
abbrev pub at_pos : Vfs → ℕ → FileDescriptor → ℕ → Vfs
at_pos v handle fd pos = record v { files = set v.files handle (record fd { buf_read_pos = pos }) }

set-set :
    (xs : List FileDescriptor) (i : ℕ) (a b : FileDescriptor) → set (set xs i a) i b ≡ set xs i b
set-set [] i a b = refl
set-set (x ∷ xs) zero a b = refl
set-set (x ∷ xs) (suc i) a b = ap (λ ys. x ∷ ys) (set-set xs i a b)

pub at_pos-IsOpen :
    (v : Vfs) (handle : ℕ) (fd : FileDescriptor) (pos : ℕ)
    → IsOpen v handle fd
    → IsOpen (at_pos v handle fd pos) handle (record fd { buf_read_pos = pos })
at_pos-IsOpen v handle fd pos o = record {
  mount = o.mount;
  point = o.point;
  opened =
      get_elem?-set_self v.files handle (record fd { buf_read_pos = pos })
        (lt_of_get_elem? v.files handle o.opened);
  mounted = o.mounted;
  known = o.known;
  archive = o.archive;
}

-- A read at a position, none of which wraps.
pub vfs_read-at_pos :
    (v : Vfs) (handle buf n : ℕ) (fd : FileDescriptor) (bytes : ℕ → ℕ)
    → IsOpen v handle fd
    → fd.buf_read_pos + n < 2 ^ 31
    → fd.file_buffer + fd.buf_read_pos < 2 ^ 64
    → vfs_read handle buf n v bytes
      ≡ some (
        n,
        at_pos v handle fd (fd.buf_read_pos + n),
        ustar_read (fd.file_buffer + fd.buf_read_pos) buf n bytes,
      )
unfolding vfs_read
vfs_read-at_pos v handle buf n fd bytes o small fits =
    let pos : u32 (fd.buf_read_pos + n) ≡ fd.buf_read_pos + n = omega arith in
    let at : u64 (fd.file_buffer + fd.buf_read_pos) ≡ fd.file_buffer + fd.buf_read_pos =
      omega arith in
    rw (
      vfs_read,
      o.opened,
      o.mounted,
      o.known,
      o.archive,
      ltb-true fd.buf_read_pos (2 ^ 31) (omega arith),
      pos,
      at,
    )

-- A copy that goes on from the first byte does not write to a byte that it has yet to read.
abbrev pub Forward : ℕ → ℕ → ℕ → Type 0
Forward from buf n = (buf ≤ from) ⊎ (from + n ≤ buf)

copy_bytes-outside :
    (n from buf a : ℕ) (bytes : ℕ → ℕ)
    → (a < buf) ⊎ (buf + n ≤ a)
    → copy_bytes n buf from bytes a ≡ bytes a
unfolding copy_bytes
copy_bytes-outside zero from buf a bytes far = refl
copy_bytes-outside (suc n) from buf a bytes far =
    copy_bytes-outside n (from + 1) (buf + 1) a _
      (elim far [ inl lt ↦ inl (omega arith) | inr ge ↦ inr (omega arith) ])
    ∙ rw (
        ==_ne a buf
          (elim far [ inl lt ↦ λ e. absurd (omega arith) | inr ge ↦ λ e. absurd (omega arith) ]))

copy_bytes-inside :
    (n from buf a : ℕ) (bytes : ℕ → ℕ)
    → Forward from buf n
    → buf ≤ a
    → a < buf + n
    → copy_bytes n buf from bytes a ≡ bytes (from + (a - buf))
unfolding copy_bytes
copy_bytes-inside zero from buf a bytes forward le lt = absurd (omega arith)
copy_bytes-inside (suc n) from buf a bytes forward le lt = elim (ℕ_discrete a buf) [
  | yes e ↦
      let first : from + (a - buf) ≡ from = omega arith in
      copy_bytes-outside n (from + 1) (buf + 1) a _ (inl (omega arith))
      ∙ rw (e, ==_self buf) (ap bytes (sym (first) ∙ ap (λ x. from + (x - buf)) e))
  | no ne ↦
      let next : from + 1 + (a - (buf + 1)) ≡ from + (a - buf) = omega arith in
      let other : from + (a - buf) ≢ buf = elim forward [
        | inl le' ↦ λ e. absurd (omega arith)
        | inr le' ↦ λ e. absurd (omega arith)
      ] in
      copy_bytes-inside n (from + 1) (buf + 1) a _
        (elim forward [ inl le' ↦ inl (omega arith) | inr le' ↦ inr (omega arith) ]) (omega arith)
        (omega arith)
      ∙ rw (next, ==_ne (from + (a - buf)) buf other)
]

pub ustar_read-inside :
    (from buf n a : ℕ) (bytes : ℕ → ℕ)
    → Forward from buf n
    → buf ≤ a
    → a < buf + n
    → ustar_read from buf n bytes a ≡ bytes (from + (a - buf))
unfolding ustar_read
ustar_read-inside from buf n a bytes forward le lt =
    copy_bytes-inside n from buf a bytes forward le lt

pub ustar_read-outside :
    (from buf n a : ℕ) (bytes : ℕ → ℕ)
    → (a < buf) ⊎ (buf + n ≤ a)
    → ustar_read from buf n bytes a ≡ bytes a
unfolding ustar_read
ustar_read-outside from buf n a bytes far = copy_bytes-outside n from buf a bytes far

pub vfs_seek-at_pos :
    (v : Vfs) (handle pos : ℕ) (fd : FileDescriptor)
    → IsOpen v handle fd
    → pos < 2 ^ 31
    → vfs_seek handle pos v ≡ some (pos, at_pos v handle fd pos)
unfolding vfs_seek
vfs_seek-at_pos v handle pos fd o small =
    let same : u32 pos ≡ pos = omega arith in rw (vfs_seek, o.opened, same)

-- `vfs_seek` to `pos` and `vfs_read` of `n` bytes of an open file are defined, where no position reaches
-- 2 ^ 31, and no byte of the file is written before it is read. The buffer gets the `n` bytes that lie `pos` bytes behind the start of the file's contents,
-- also where they are not the file's; other bytes are as before. The next position is `pos + n`.
pub vfs_seek-vfs_read :
    (v : Vfs) (handle buf pos n : ℕ) (fd : FileDescriptor) (bytes : ℕ → ℕ)
    → IsOpen v handle fd
    → pos + n < 2 ^ 31
    → fd.file_buffer + pos < 2 ^ 64
    → Forward (fd.file_buffer + pos) buf n
    → (v1 : Vfs) × (v2 : Vfs) × (bytes' : ℕ → ℕ) × (vfs_seek handle pos v ≡ some (pos, v1))
      × (vfs_read handle buf n v1 bytes ≡ some (n, v2, bytes'))
      × ((i : ℕ) → i < n → bytes' (buf + i) ≡ bytes (fd.file_buffer + pos + i))
      × ((a : ℕ) → (a < buf) ⊎ (buf + n ≤ a) → bytes' a ≡ bytes a)
      × IsOpen v2 handle (record fd { buf_read_pos = pos + n })
vfs_seek-vfs_read v handle buf pos n fd bytes o small fits forward =
    let fd1 = record fd { buf_read_pos = pos } in
    let v1 = at_pos v handle fd pos in
    let o1 = at_pos-IsOpen v handle fd pos o in
    (
      v1,
      at_pos v1 handle fd1 (pos + n),
      ustar_read (fd.file_buffer + pos) buf n bytes,
      vfs_seek-at_pos v handle pos fd o (omega arith),
      vfs_read-at_pos v1 handle buf n fd1 bytes o1 small fits,
      (λ i lt.
          ustar_read-inside (fd.file_buffer + pos) buf n (buf + i) bytes forward (omega arith)
            (omega arith)
          ∙ ap (λ x. bytes (fd.file_buffer + pos + x)) (omega arith)),
      (λ a far. ustar_read-outside (fd.file_buffer + pos) buf n a bytes far),
      at_pos-IsOpen v1 handle fd1 (pos + n) o1,
    )

at_pos-at_pos :
    (v : Vfs) (handle : ℕ) (fd : FileDescriptor) (pos n m : ℕ)
    → at_pos
        (at_pos v handle fd (pos + n))
        handle
        (record fd { buf_read_pos = pos + n })
        (pos + n + m)
      ≡ at_pos v handle fd (pos + (n + m))
at_pos-at_pos v handle fd pos n m =
    let e : pos + n + m ≡ pos + (n + m) = omega arith in
    ap (λ files. record v { files = files })
      (set-set v.files handle (record fd { buf_read_pos = pos + n })
          (record fd { buf_read_pos = pos + n + m })
        ∙ ap (λ x. set v.files handle (record fd { buf_read_pos = x })) e)

-- The second part of a copy from `from` on lies at `second`.
ustar_read-ustar_read :
    (from buf n m second : ℕ) (bytes : ℕ → ℕ)
    → second ≡ from + n
    → (from + (n + m) ≤ buf) ⊎ (buf + (n + m) ≤ from)
    → (a : ℕ)
    → ustar_read second (buf + n) m (ustar_read from buf n bytes) a
      ≡ ustar_read from buf (n + m) bytes a
ustar_read-ustar_read from buf n m second bytes e apart a =
    let first = ustar_read from buf n bytes in
    let one : Forward from buf n = elim apart [
      | inl le ↦ inr (omega arith)
      | inr le ↦ inl (omega arith)
    ] in
    let all : Forward from buf (n + m) = elim apart [
      | inl le ↦ inr (omega arith)
      | inr le ↦ inl (omega arith)
    ] in
    let two : Forward second (buf + n) m = elim apart [
      | inl le ↦ inr (omega arith)
      | inr le ↦ inl (omega arith)
    ] in
    elim (dec_lt a buf) [
      | yes lt ↦
          ustar_read-outside second (buf + n) m a first (inl (omega arith))
          ∙ ustar_read-outside from buf n a bytes (inl lt)
          ∙ sym (ustar_read-outside from buf (n + m) a bytes (inl lt))
      | no ge ↦ elim (dec_lt a (buf + n)) [
        | yes lt ↦
            ustar_read-outside second (buf + n) m a first (inl lt)
            ∙ ustar_read-inside from buf n a bytes one (omega arith) lt
            ∙ sym (ustar_read-inside from buf (n + m) a bytes all (omega arith) (omega arith))
        | no ge' ↦ elim (dec_lt a (buf + (n + m))) [
          | yes lt ↦
              ustar_read-inside second (buf + n) m a first two (omega arith) (omega arith)
              ∙ ustar_read-outside from buf n (second + (a - (buf + n))) bytes
                  (elim apart [ inl before ↦ inl (omega arith) | inr behind ↦ inr (omega arith) ])
              ∙ ap bytes (omega arith)
              ∙ sym (ustar_read-inside from buf (n + m) a bytes all (omega arith) lt)
          | no out ↦
              ustar_read-outside second (buf + n) m a first (inr (omega arith))
              ∙ ustar_read-outside from buf n a bytes (inr (omega arith))
              ∙ sym (ustar_read-outside from buf (n + m) a bytes (inr (omega arith)))
        ]
      ]
    ]

-- Two reads in sequence into adjacent buffers, which do not overlap what is read, leave the tables of
-- one read of both sizes, and the same bytes.
pub vfs_read-vfs_read :
    (v : Vfs) (handle buf n m : ℕ) (fd : FileDescriptor) (bytes : ℕ → ℕ)
    → IsOpen v handle fd
    → fd.buf_read_pos + (n + m) < 2 ^ 31
    → fd.file_buffer + fd.buf_read_pos + n < 2 ^ 64
    → (fd.file_buffer + fd.buf_read_pos + (n + m) ≤ buf)
      ⊎ (buf + (n + m) ≤ fd.file_buffer + fd.buf_read_pos)
    → (v1 : Vfs) × (v2 : Vfs) × (bytes1 : ℕ → ℕ) × (bytes2 : ℕ → ℕ) × (whole : ℕ → ℕ) × (vfs_read
          handle buf n v bytes
        ≡ some (n, v1, bytes1))
      × (vfs_read handle (buf + n) m v1 bytes1 ≡ some (m, v2, bytes2))
      × (vfs_read handle buf (n + m) v bytes ≡ some (n + m, v2, whole))
      × ((a : ℕ) → bytes2 a ≡ whole a)
vfs_read-vfs_read v handle buf n m fd bytes o small fits apart =
    let pos = fd.buf_read_pos in
    let from = fd.file_buffer + pos in
    let fd1 = record fd { buf_read_pos = pos + n } in
    let v1 = at_pos v handle fd (pos + n) in
    let o1 = at_pos-IsOpen v handle fd (pos + n) o in
    let bytes1 = ustar_read from buf n bytes in
    let second = fd.file_buffer + (pos + n) in
    let v2 = at_pos v1 handle fd1 (pos + n + m) in
    (
      v1,
      v2,
      bytes1,
      ustar_read second (buf + n) m bytes1,
      ustar_read from buf (n + m) bytes,
      vfs_read-at_pos v handle buf n fd bytes o (omega arith) (omega arith),
      vfs_read-at_pos v1 handle (buf + n) m fd1 bytes1 o1 (omega arith) (omega arith),
      vfs_read-at_pos v handle buf (n + m) fd bytes o small (omega arith)
          ∙ ap (λ w. some (n + m, w, ustar_read from buf (n + m) bytes))
              (sym (at_pos-at_pos v handle fd pos n m)),
      ustar_read-ustar_read from buf n m second bytes (omega arith) apart,
    )
