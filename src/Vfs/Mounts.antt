-- ===== src/Vfs/Mounts.antt =====
-- The table of mount points.
use titan_os.Base.{
  ℕ, zero, suc, ◌+◌, ◌≡◌, ◌<◌, ◌≤◌, refl, ◌∙◌, ap, Bool, true, false, Option, none, some, List, [],
  ◌∷◌, ==_ne, get_elem?, set, length, get_elem?-set_self, get_or, get_or_of_get_elem?,
  get_elem?-none, get_elem?-eq-get_or, lt_of_get_elem?, Bool-cases, Option-cases, inl, inr, arith,
  ◌>>=◌,
}
use mathlib.Core.Path.{subst}
use native.Mathlib.Decide.{ℕ_discrete}
use titan_os.Strings.{strncpy, strncmp}
use titan_os.Vfs.{
  Mountpoint, Vfs, vfs_path_length, tar, put_mountpoint, create_mountpoint, add_loop,
  add_mountpoint, vfs_mount, free_mountpoint, umount_loop, vfs_umount,
}

set-same : (xs : List ℕ) (i x : ℕ) → get_elem? xs i ≡ some x → set xs i x ≡ xs
set-same [] i x e = refl
set-same (y ∷ xs) zero x e = let same : y ≡ x = cc in rw (same)
set-same (y ∷ xs) (suc i) x e = ap (λ ys. y ∷ ys) (set-same xs i x e)

-- A NULL pointer is put where a NULL is.
add_loop-null :
    (left i : ℕ) (table : List ℕ)
    → i + left ≤ length table
    → (ok : Bool) × (add_loop left i 0 table ≡ some (ok, table))
      × ((j : ℕ) → i ≤ j → j < i + left → get_elem? table j ≡ some 0 → ok ≡ true)
unfolding add_loop
add_loop-null zero i table lt = (false, refl, (λ j p q e. absurd (omega arith)))
add_loop-null (suc left) i table lt =
    let (ok, e, free) = add_loop-null left (i + 1) table (omega arith) in
    let at = get_elem?-eq-get_or table i 0 (omega arith) in
    elim (ℕ_discrete (get_or table i 0) 0) [
      | yes z ↦ (
        true,
        rw (at, z) (ap (λ t. some (true, t)) (set-same table i 0 (at ∙ ap some z))),
        (λ j p q g. refl),
      )
      | no ne ↦ (
        ok,
        rw (at, ==_ne (get_or table i 0) 0 ne) e,
        (λ j p q g. elim (ℕ_discrete j i) [
          | yes same ↦
              absurd (
                ne (get_or_of_get_elem? table i 0 (subst (λ x. get_elem? table x ≡ some 0) same g)))
          | no other ↦ free j (omega arith) (omega arith) g
        ]),
      )
    ]

-- `vfs_mount` of a type that `strncmp` does not take for "tar", with names that `strncpy` copies, does
-- not change the table of 12 mount points. Where a place is free, it still returns true.
pub vfs_mount_unknown :
    (p : ℕ) (fresh : Mountpoint) (device target fs_type d t f : List ℕ) (v : Vfs)
    → length v.mountpoints ≡ 12
    → strncpy fresh.device device 64 ≡ some d
    → strncpy fresh.type fs_type 32 ≡ some t
    → strncpy fresh.mountpoint target 64 ≡ some f
    → strncmp fs_type tar 64 ≡ some false
    → (ok : Bool) × (v' : Vfs) × (vfs_mount p fresh device target fs_type v ≡ some (ok, v'))
      × (v'.mountpoints ≡ v.mountpoints)
      × ((j : ℕ) → get_elem? v.mountpoints j ≡ some 0 → ok ≡ true)
unfolding vfs_mount create_mountpoint add_mountpoint put_mountpoint
vfs_mount_unknown p fresh device target fs_type d t f v size ed et ef differs =
    let (ok, e, free) = add_loop-null 12 0 v.mountpoints (omega arith) in
    (
      ok,
      put_mountpoint p none v,
      rw (ed, et, ef, differs, e),
      refl,
      (λ j g. free j (omega arith) (omega (arith, lt_of_get_elem? v.mountpoints j g)) g),
    )

-- The end of `vfs_umount`.
free_at : ℕ × Vfs → Option Vfs
free_at (i, v) = get_elem? v.mountpoints i >>= λ q. free_mountpoint q v

-- The loop ends behind the table, or at a place that it has cleared.
umount_loop-free_at :
    (left i : ℕ) (device : List ℕ) (v : Vfs)
    → i + left ≡ length v.mountpoints
    → (umount_loop left i device v >>= free_at) ≡ none
unfolding umount_loop free_at free_mountpoint
umount_loop-free_at zero i device v size = rw (get_elem?-none v.mountpoints i (omega arith))
umount_loop-free_at (suc left) i device v size =
    let q = get_or v.mountpoints i 0 in
    let at = get_elem?-eq-get_or v.mountpoints i 0 (omega arith) in
    elim (Option-cases (v.mountpoint_at q)) [
      | inl e ↦ rw (at, e)
      | inr (m, e) ↦ elim (Option-cases (strncmp m.device device vfs_path_length)) [
        | inl s ↦ rw (at, e, s)
        | inr (b, s) ↦ elim (Bool-cases b) [
          | inl t ↦ rw (at, e, s, t, get_elem?-set_self v.mountpoints i 0 (omega arith))
          | inr f ↦ rw (at, e, s, f) (umount_loop-free_at left (i + 1) device v (omega arith))
        ]
      ]
    ]

-- `vfs_umount` on a table of 12 mount points is undefined for every device: what it passes to `kfree`
-- is outside the table, or the NULL that it has just written.
pub vfs_umount_undefined :
    (device : List ℕ) (v : Vfs) → length v.mountpoints ≡ 12 → vfs_umount device v ≡ none
unfolding vfs_umount free_at
vfs_umount_undefined device v size = umount_loop-free_at 12 0 device v (omega arith)
