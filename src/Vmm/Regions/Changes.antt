-- ===== src/Vmm/Regions/Changes.antt =====
-- Lengthened, freed and overlapping regions.
use titan_os.Base.{
  ℕ, ◌+◌, ◌/◌, ◌^◌, ◌<◌, ◌≤◌, ◌≡◌, ◌≢◌, ◌∙◌, Option, ◌>>=◌, ◌⊎◌, inl, inr, refl, ap, Bool, true,
  false, ◌&&◌, none, some, List, [], ◌∷◌, ◌++◌, ◌==◌, ==_ne, ==_self, leb-true, leb-false, ltb-true,
  ltb-false, ltb, if◌then◌else◌, u64, bit_and, arith,
}
use titan_os.Vmm.Regions.{
  Region, end_of, Walk, then_walk, lengthen_walk, insert_at, unlink, vmm_free,
}
use mathlib.Core.Path.{subst}
use native.Mathlib.Decide.{ℕ_discrete, dec_le}
use titan_os.Vmm.Regions.{Backing, back_pages, vmm_lengthen, page_align}
use titan_os.Vmm.Regions.Layout.{Sorted, Room, bases, u64_small, Sorted-cons}

-- No region starts there.
unfoldable pub Unlisted : ℕ → List Region → Type 0
Unlisted start [] = Unit
Unlisted start (r ∷ rs) = (r.base ≢ start) × Unlisted start rs

-- The next region starts before an end.
abbrev pub Reaches : ℕ → List Region → Type 0
Reaches end [] = ⊥
Reaches end (n ∷ rs) = n.base < end

bases-replaced :
    (before : List Region) (old new : Region) (after : List Region)
    → old.base ≡ new.base
    → bases (before ++ (old ∷ after)) ≡ bases (before ++ (new ∷ after))
unfolding bases
bases-replaced [] old new after e = ap (λ x. x ∷ bases after) e
bases-replaced (r ∷ before) old new after e =
    ap (λ x. r.base ∷ x) (bases-replaced before old new after e)

-- A region that is longer by `inc`.
abbrev pub longer : ℕ → Region → Region
longer inc r = record r { length = r.length + inc }

-- The walk of `vmm_lengthen` on sorted regions with room for `inc` refuses a start that no region has,
-- and `inc` bytes that reach into the next region; otherwise it makes the first region with that start
-- longer by `inc`.
lengthen_walk_lem :
    (start inc : ℕ) (rs : List Region)
    → Sorted rs
    → Room inc rs
    → ((lengthen_walk start inc rs ≡ Walk.refused) × Unlisted start rs)
      ⊎ ((before : List Region) × (old : Region) × (after : List Region) × (rs
            ≡ before ++ (old ∷ after))
          × Unlisted start before
          × (old.base ≡ start)
          × (((lengthen_walk start inc rs ≡ Walk.refused)
                × Reaches (old.base + old.length + inc) after)
              ⊎ ((lengthen_walk start inc rs
                    ≡ Walk.changed (before ++ (longer inc old ∷ after)) old)
                  × Sorted (before ++ (longer inc old ∷ after)))))
unfolding lengthen_walk Sorted Room Unlisted then_walk
lengthen_walk_lem start inc [] s room = inl (refl, tt)
lengthen_walk_lem start inc (r ∷ []) s (here, _) = elim (ℕ_discrete r.base start) [
  | no ne ↦ inl (rw (==_ne r.base start ne), (ne, tt))
  | yes e ↦
      let small : u64 (r.length + inc) ≡ r.length + inc = omega arith in
      inr ([], r, [], refl, tt, e, inr (rw (e, ==_self start, small), omega arith))
]
lengthen_walk_lem start inc (r ∷ n ∷ rs) (fits, le, s) (here, room) =
    elim (ℕ_discrete r.base start) [
      | no ne ↦ elim (lengthen_walk_lem start inc (n ∷ rs) s room) [
        | inl (e, out) ↦ inl (rw (==_ne r.base start ne, e), (ne, out))
        | inr (before, old, after, was, out, at, result) ↦ inr (
          r ∷ before,
          old,
          after,
          ap (λ x. r ∷ x) was,
          (ne, out),
          at,
          elim result [
            | inl (e, full) ↦ inl (rw (==_ne r.base start ne, e), full)
            | inr (e, s') ↦ inr (
              rw (==_ne r.base start ne, e),
              Sorted-cons r (n ∷ rs) (before ++ (longer inc old ∷ after))
                  (ap bases was ∙ bases-replaced before old (longer inc old) after refl)
                  (fits, le, s) s',
            )
          ],
        )
      ]
      | yes e ↦
          let small : u64 (r.base + r.length + inc) ≡ r.base + r.length + inc = u64_small here in
          let small' : u64 (r.length + inc) ≡ r.length + inc = omega arith in
          inr (
            [],
            r,
            n ∷ rs,
            refl,
            tt,
            e,
            elim (dec_le (r.base + r.length + inc) n.base) [
              | no gt ↦ inl (
                rw (
                  small,
                  leb-false (r.base + r.length + inc) n.base (omega arith),
                  e,
                  ==_self start,
                ),
                omega arith,
              )
              | yes fit ↦ inr (
                rw (small, leb-true (r.base + r.length + inc) n.base fit, e, ==_self start, small'),
                (omega arith, omega arith, s),
              )
            ],
          )
    ]

Sorted-skip : (r n : Region) (rs : List Region) → Sorted (r ∷ n ∷ rs) → Sorted (r ∷ rs)
unfolding Sorted
Sorted-skip r n [] (fits, le, s) = fits
Sorted-skip r n (m ∷ rs) (fits, le, (_, le', s)) = (fits, omega arith, s)

unlink_lem :
    (start : ℕ) (r : Region) (rs : List Region)
    → Sorted (r ∷ rs)
    → ((unlink start rs ≡ none) × Unlisted start rs)
      ⊎ ((before : List Region) × (old : Region) × (after : List Region) × (rs
            ≡ before ++ (old ∷ after))
          × (old.base ≡ start)
          × (unlink start rs ≡ some (before ++ after))
          × Sorted (r ∷ (before ++ after)))
unfolding unlink Unlisted Sorted
unlink_lem start r [] s = inl (refl, tt)
unlink_lem start r (n ∷ rs) s = elim (ℕ_discrete n.base start) [
  | yes e ↦ inr ([], n, rs, refl, e, rw (e, ==_self start), Sorted-skip r n rs s)
  | no ne ↦ elim (unlink_lem start n rs s.2) [
    | inl (e, out) ↦ inl (rw (==_ne n.base start ne, e), (ne, out))
    | inr (before, old, after, was, at, e, s') ↦ inr (
      n ∷ before,
      old,
      after,
      ap (λ x. n ∷ x) was,
      at,
      rw (==_ne n.base start ne, e),
      (s.0, s.1, s'),
    )
  ]
]

-- `vmm_free` on sorted regions: a start that a region behind the head has is found, the first such
-- region leaves the list, and the regions stay sorted; the start of the head changes nothing; and any
-- other start runs past the end of the list, which is undefined.
pub vmm_free-Sorted :
    (start : ℕ) (r : Region) (rs : List Region)
    → Sorted (r ∷ rs)
    → (r.base ≡ start → vmm_free start (r ∷ rs) ≡ some (r ∷ rs))
      × (r.base ≢ start
          → ((vmm_free start (r ∷ rs) ≡ none) × Unlisted start rs)
            ⊎ ((before : List Region) × (old : Region) × (after : List Region) × (rs
                  ≡ before ++ (old ∷ after))
                × (old.base ≡ start)
                × (vmm_free start (r ∷ rs) ≡ some (r ∷ (before ++ after)))
                × Sorted (r ∷ (before ++ after))))
unfolding vmm_free
vmm_free-Sorted start r rs s = (
  (λ e. rw (e, ==_self start)),
  (λ ne. elim (unlink_lem start r rs s) [
    | inl (e, out) ↦ inl (rw (==_ne r.base start ne, e), out)
    | inr (before, old, after, was, at, e, s') ↦
        inr (before, old, after, was, at, rw (==_ne r.base start ne, e), s')
  ]),
)

-- A start within a region and not its end is not refused when the new region reaches the next one:
-- `vmm_alloc` then puts a region over the end of the first of two regions.
pub insert_at_overlaps :
    (start length flags : ℕ) (r n : Region) (rs : List Region)
    → r.base ≤ start
    → start < r.base + r.length
    → r.base + r.length ≤ n.base
    → n.base ≤ start + length
    → start + length < 2 ^ 64
    → insert_at start length flags (r ∷ n ∷ rs)
      ≡ some (r ∷ record { base = start; length = length; flags = flags } ∷ n ∷ rs)
unfolding insert_at
insert_at_overlaps start length flags r n rs a b c d e =
    rw
      (
        leb-true r.base start a,
        ltb-true start n.base (omega arith),
        u64_small {n = start + length} e,
        ltb-false (start + length) n.base d,
      )
      (both (ltb start (end_of r)) _ _)
  where
    both : (x : Bool) {A : Type 0} (a b : A) → (if x && false then a else b) ≡ b
    both true a b = refl
    both false a b = refl

-- Every one of sorted regions ends within the address space.
Sorted-end :
    (before : List Region) (r : Region) (after : List Region)
    → Sorted (before ++ (r ∷ after))
    → r.base + r.length < 2 ^ 64
unfolding Sorted
Sorted-end [] r [] s = s
Sorted-end [] r (n ∷ after) s = s.0
Sorted-end (b ∷ []) r after s = Sorted-end [] r after s.2
Sorted-end (b ∷ c ∷ before) r after s = Sorted-end (c ∷ before) r after s.2

-- What `vmm_lengthen` returns when it has found `old` and the list has become `rs`: the pages behind the
-- old end are backed, unless the region is one of devices.
abbrev pub backed :
    {M : Type 0} → Backing M → ℕ → Region → List Region → M → Option (Bool × List Region × M)
backed backing inc old rs m =
    if bit_and old.flags 0x10 == 0
    then (back_pages backing (inc / 0x1000) (old.base + old.length) 0 old.flags m >>= λ (ok, m').
        some (ok, rs, m'))
    else some (inc == 0, rs, m)

-- On sorted regions, with room for the increment in whole pages behind each, and for an increment whose
-- rounding fits an int, `vmm_lengthen` returns false and changes nothing when no region has the start,
-- or when the first one with it would reach into the next. Otherwise that region gets longer by the
-- increment in whole pages, the regions stay sorted and the others are as they were, whether its pages,
-- from the old end on, are backed or not; a region of devices is changed and has no page backed.
pub vmm_lengthen-Sorted :
    {M : Type 0} (backing : Backing M) (start inc : ℕ) (rs : List Region) (m : M)
    → inc + 0xfff < 2 ^ 31
    → Sorted rs
    → Room (page_align inc) rs
    → ((vmm_lengthen backing start inc rs m ≡ some (false, rs, m)) × Unlisted start rs)
      ⊎ ((before : List Region) × (old : Region) × (after : List Region) × (rs
            ≡ before ++ (old ∷ after))
          × Unlisted start before
          × (old.base ≡ start)
          × (((vmm_lengthen backing start inc rs m ≡ some (false, rs, m))
                × Reaches (old.base + old.length + page_align inc) after)
              ⊎ ((vmm_lengthen backing start inc rs m
                    ≡ backed backing
                        (page_align inc)
                        old
                        (before ++ (longer (page_align inc) old ∷ after))
                        m)
                  × Sorted (before ++ (longer (page_align inc) old ∷ after)))))
unfolding vmm_lengthen
vmm_lengthen-Sorted backing start inc rs m int s room =
    let fits = ltb-true (inc + 0xfff) (2 ^ 31) int in
    elim (lengthen_walk_lem start (page_align inc) rs s room) [
      | inl (e, out) ↦ inl (rw (vmm_lengthen, fits, e), out)
      | inr (before, old, after, was, out, at, result) ↦ inr (
        before,
        old,
        after,
        was,
        out,
        at,
        elim result [
          | inl (e, full) ↦ inl (rw (vmm_lengthen, fits, e), full)
          | inr (e, s') ↦
              let end : end_of old ≡ old.base + old.length =
                u64_small (Sorted-end before old after (subst Sorted was s)) in
              inr (rw (vmm_lengthen, fits, e, end), s')
        ],
      )
    ]

lengthen_walk-Unlisted :
    (start inc : ℕ) (rs : List Region)
    → Unlisted start rs
    → lengthen_walk start inc rs ≡ Walk.refused
unfolding lengthen_walk then_walk Unlisted
lengthen_walk-Unlisted start inc [] out = refl
lengthen_walk-Unlisted start inc (r ∷ []) (ne, out) = rw (==_ne r.base start ne)
lengthen_walk-Unlisted start inc (r ∷ n ∷ rs) (ne, out) =
    rw (==_ne r.base start ne, lengthen_walk-Unlisted start inc (n ∷ rs) out)

-- `vmm_lengthen` at a start that no region has.
pub vmm_lengthen-Unlisted :
    {M : Type 0} (backing : Backing M) (start inc : ℕ) (rs : List Region) (m : M)
    → inc + 0xfff < 2 ^ 31
    → Unlisted start rs
    → vmm_lengthen backing start inc rs m ≡ some (false, rs, m)
unfolding vmm_lengthen
vmm_lengthen-Unlisted backing start inc rs m int out = rw (
  vmm_lengthen,
  ltb-true (inc + 0xfff) (2 ^ 31) int,
  lengthen_walk-Unlisted start (page_align inc) rs out,
)
