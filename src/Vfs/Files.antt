-- ===== src/Vfs/Files.antt =====
-- Opened files and their read positions.
use titan_os.Base.{
  ℕ, zero, suc, ◌+◌, ◌≡◌, ◌≢◌, ◌<◌, ◌≤◌, ◌⊎◌, inl, inr, refl, sym, ◌∙◌, ap, true, Option, none,
  some, List, [], ◌∷◌, ◌++◌, ◌==◌, ==_ne, ==_self, if◌then◌else◌, get_elem?, set, length, drop,
  replicate, some_injective, >>=-eq-some, arith, ◌>>=◌,
}
use mathlib.Core.Path.{subst}
use native.Mathlib.Decide.{ℕ_discrete}
use titan_os.Strings.{strncmp, strncmp_loop}
use titan_os.Strings.Laws.{Text, strncpy-Text}
use titan_os.Tar.{Header}
use titan_os.Vfs.{
  Mountpoint, FileDescriptor, Vfs, put_mountpoint, create_mountpoint, add_loop, add_mountpoint,
  get_loop, get_mountpoint, vfs_mount, vfs_init, open_tar, open_loop, name_of, vfs_open,
}

-- The first byte of the name of an opened file; it is 0 when the descriptor is free.
abbrev pub first_byte : List FileDescriptor → ℕ → Option ℕ
first_byte files k = get_elem? files k >>= λ f. get_elem? f.filename 0

open_loop_lem :
    (left i : ℕ) (fd : FileDescriptor) (files : List FileDescriptor)
    → ((k : ℕ) → i ≤ k → k < i + left → (c : ℕ) × (first_byte files k ≡ some c))
    → ((open_loop left i fd files ≡ some (none, files))
        × ((k : ℕ) → i ≤ k → k < i + left → first_byte files k ≢ some 0))
      ⊎ ((k : ℕ) × (i ≤ k)
          × (k < i + left)
          × (open_loop left i fd files ≡ some (some k, set files k fd))
          × (first_byte files k ≡ some 0)
          × ((j : ℕ) → i ≤ j → j < k → first_byte files j ≢ some 0))
unfolding open_loop
open_loop_lem zero i fd files named = inl (refl, (λ k p q. absurd (omega arith)))
open_loop_lem (suc left) i fd files named =
    let (c, at) = named i (omega arith) (omega arith) in
    let (old, e, g) = >>=-eq-some (get_elem? files i) (λ f. get_elem? f.filename 0) at in
    elim (ℕ_discrete c 0) [
      | yes z ↦ inr (
        i,
        omega arith,
        omega arith,
        rw (e, g, z),
        at ∙ ap some z,
        (λ j p q. absurd (omega arith)),
      )
      | no ne ↦
          let used : first_byte files i ≢ some 0 = λ free. ne (some_injective (sym at ∙ free)) in
          elim (open_loop_lem left (i + 1) fd files
            (λ k p q. named k (omega arith) (omega arith))) [
              | inl (run, all) ↦ inl (
                rw (e, g, ==_ne c 0 ne) run,
                (λ k p q. elim (ℕ_discrete k i) [
                  | yes s ↦ subst (λ x. first_byte files x ≢ some 0) (sym s) used
                  | no other ↦ all k (omega arith) (omega arith)
                ]),
              )
              | inr (k, p, q, run, free, all) ↦ inr (
                k,
                omega arith,
                omega arith,
                rw (e, g, ==_ne c 0 ne) run,
                free,
                (λ j p' q'. elim (ℕ_discrete j i) [
                  | yes s ↦ subst (λ x. first_byte files x ≢ some 0) (sym s) used
                  | no other ↦ all j (omega arith) q'
                ]),
              )
            ]
    ]

-- The strings without their end marks.
abbrev initramfs_text : List ℕ
initramfs_text = 105 ∷ 110 ∷ 105 ∷ 116 ∷ 114 ∷ 97 ∷ 109 ∷ 102 ∷ 115 ∷ []

abbrev tar_text : List ℕ
tar_text = 116 ∷ 97 ∷ 114 ∷ []

abbrev root_text : List ℕ
root_text = 47 ∷ []

initramfs-Text : Text initramfs_text
initramfs-Text = (
  omega arith,
  (
    omega arith,
    (
      omega arith,
      (omega arith, (omega arith, (omega arith, (omega arith, (omega arith, (omega arith, tt)))))),
    ),
  ),
)

tar-Text : Text tar_text
tar-Text = (omega arith, (omega arith, (omega arith, tt)))

root-Text : Text root_text
root-Text = (omega arith, tt)

-- The mount point of `vfs_init`, and the tables behind it.
abbrev initial_mountpoint : Mountpoint → Mountpoint
initial_mountpoint fresh = record {
  type = tar_text ++ (replicate 29 0 ++ drop 32 fresh.type);
  device = initramfs_text ++ (replicate 55 0 ++ drop 64 fresh.device);
  mountpoint = root_text ++ (replicate 63 0 ++ drop 64 fresh.mountpoint);
}

initial : ℕ → Mountpoint → Vfs → List ℕ → Vfs
initial p fresh v rest = record v {
  mountpoints = p ∷ rest;
  mountpoint_at = λ q. if q == p then some (initial_mountpoint fresh) else v.mountpoint_at q;
}

vfs_init-initial :
    (p : ℕ) (fresh : Mountpoint) (v : Vfs) (rest : List ℕ)
    → 64 ≤ length fresh.device
    → 32 ≤ length fresh.type
    → 64 ≤ length fresh.mountpoint
    → v.mountpoints ≡ 0 ∷ rest
    → vfs_init p fresh v ≡ some (true, initial p fresh v rest)
unfolding vfs_init vfs_mount create_mountpoint add_mountpoint add_loop put_mountpoint initial
    strncmp strncmp_loop
vfs_init-initial p fresh v rest d64 t32 m64 empty = rw (
  vfs_init,
  vfs_mount,
  create_mountpoint,
  strncpy-Text initramfs_text [] fresh.device 64 initramfs-Text (omega arith) d64,
  strncpy-Text tar_text [] fresh.type 32 tar-Text (omega arith) t32,
  strncpy-Text root_text [] fresh.mountpoint 64 root-Text (omega arith) m64,
  add_mountpoint,
  empty,
)

-- Every path leads to it, since `strncmp` finds its end mark at the first place that it compares.
vfs_open-initial :
    (p : ℕ) (fresh : Mountpoint) (v : Vfs) (rest : List ℕ) (memory : ℕ → Option Header)
    (file_headers path : List ℕ) (fd : FileDescriptor)
    → open_tar memory file_headers (name_of path) ≡ some fd
    → vfs_open memory file_headers path (initial p fresh v rest) ≡ (
        open_loop 10 0 fd v.files >>= λ (handle, files).
        some (handle, record (initial p fresh v rest) { files = files }))
unfolding vfs_open get_mountpoint get_loop initial strncmp strncmp_loop
vfs_open-initial p fresh v rest memory file_headers path fd opens = rw (==_self p, ==_self p, opens)

-- `vfs_init` with a first place free, and with buffers of the full size, is defined and mounts the
-- archive. `vfs_open` then is defined for every path whose name behind the first byte the archive
-- opens: it returns the first of the 10 descriptors that is free, and puts the file there; or none is
-- free, and it returns -1 and changes nothing.
pub vfs_init-vfs_open :
    (p : ℕ) (fresh : Mountpoint) (v : Vfs) (rest : List ℕ) (memory : ℕ → Option Header)
    (file_headers path : List ℕ) (fd : FileDescriptor)
    → 64 ≤ length fresh.device
    → 32 ≤ length fresh.type
    → 64 ≤ length fresh.mountpoint
    → v.mountpoints ≡ 0 ∷ rest
    → ((k : ℕ) → k < 10 → (c : ℕ) × (first_byte v.files k ≡ some c))
    → open_tar memory file_headers (name_of path) ≡ some fd
    → (v1 : Vfs) × (vfs_init p fresh v ≡ some (true, v1))
      × (((vfs_open memory file_headers path v1 ≡ some (none, v1))
            × ((k : ℕ) → k < 10 → first_byte v.files k ≢ some 0))
          ⊎ ((k : ℕ) × (k < 10)
              × (vfs_open memory file_headers path v1
                  ≡ some (some k, record v1 { files = set v.files k fd }))
              × (first_byte v.files k ≡ some 0)
              × ((j : ℕ) → j < k → first_byte v.files j ≢ some 0)))
unfolding initial
vfs_init-vfs_open p fresh v rest memory file_headers path fd d64 t32 m64 empty named opens =
    let opened = vfs_open-initial p fresh v rest memory file_headers path fd opens in
    (
      initial p fresh v rest,
      vfs_init-initial p fresh v rest d64 t32 m64 empty,
      elim (open_loop_lem 10 0 fd v.files (λ k p q. named k q)) [
        | inl (run, all) ↦ inl (opened ∙ rw (run), (λ k lt. all k (omega arith) lt))
        | inr (k, _, lt, run, free, all) ↦
            inr (k, lt, opened ∙ rw (run), free, (λ j q. all j (omega arith) q))
      ],
    )
