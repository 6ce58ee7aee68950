-- ===== src/Vmm/Regions/Layout.antt =====
-- Regions stay in order and apart.
use titan_os.Base.{
  ℕ, ◌+◌, ◌^◌, ◌<◌, ◌≤◌, ◌≡◌, ◌⊎◌, inl, inr, refl, ap, none, some, List, [], ◌∷◌, ◌++◌, ltb-true,
  ltb-false, u64, arith,
}
use titan_os.Vmm.Regions.{Region, insert_first_fit}
use mathlib.Core.Path.{subst}
use native.Mathlib.Decide.{dec_lt}

-- Each region ends within the address space, at the start of the next one or before it.
unfoldable pub Sorted : List Region → Type 0
Sorted [] = Unit
Sorted (r ∷ []) = r.base + r.length < 2 ^ 64
Sorted (r ∷ n ∷ rs) = (r.base + r.length < 2 ^ 64) × (r.base + r.length ≤ n.base) × Sorted (n ∷ rs)

-- No region comes within `inc` bytes of the end of the address space.
unfoldable pub Room : ℕ → List Region → Type 0
Room inc [] = Unit
Room inc (r ∷ rs) = (r.base + r.length + inc < 2 ^ 64) × Room inc rs

-- The starts of the regions.
unfoldable pub bases : List Region → List ℕ
bases [] = []
bases (r ∷ rs) = r.base ∷ bases rs

-- Between no two neighbours are there more than `length` bytes.
pub NoGap : ℕ → List Region → Type 0
NoGap length [] = Unit
NoGap length (r ∷ []) = Unit
NoGap length (r ∷ n ∷ rs) = (n.base ≤ r.base + r.length + length) × NoGap length (n ∷ rs)

-- `rs'` is `rs` with one more region, right behind the end of the first region with more than `length`
-- bytes between it and the next one.
pub PlacedFirst : ℕ → ℕ → ℕ → List Region → List Region → Type 0
PlacedFirst found length flags rs rs' =
    (before : List Region) × (r : Region) × (n : Region) × (after : List Region) × (rs
      ≡ before ++ (r ∷ n ∷ after))
    × (rs' ≡ before ++ (r ∷ record { base = found; length = length; flags = flags } ∷ n ∷ after))
    × (found ≡ r.base + r.length)
    × (found + length < n.base)
    × NoGap length (before ++ (r ∷ []))

-- A region in front of regions without a gap that follow it without one.
NoGap-cons :
    (length : ℕ) (q n r m : Region) (before after rs : List Region)
    → n.base ≤ q.base + q.length + length
    → (n ∷ rs) ≡ before ++ (r ∷ m ∷ after)
    → NoGap length (before ++ (r ∷ []))
    → NoGap length (q ∷ (before ++ (r ∷ [])))
unfolding NoGap
NoGap-cons length q n r m [] after rs le was full =
    let same : n.base ≡ r.base = cc in (omega arith, tt)
NoGap-cons length q n r m (b ∷ before) after rs le was full =
    let same : n.base ≡ b.base = cc in (omega arith, full)

pub u64_small : {n : ℕ} → n < 2 ^ 64 → u64 n ≡ n
u64_small lt = omega arith

-- A sorted list whose head is followed by a sorted list with the same first start, or none.
pub Sorted-cons :
    (r : Region) (ns ns' : List Region)
    → bases ns ≡ bases ns'
    → Sorted (r ∷ ns)
    → Sorted ns'
    → Sorted (r ∷ ns')
unfolding Sorted bases
Sorted-cons r [] [] e s s' = s
Sorted-cons r [] (n ∷ ns') e s s' = cc
Sorted-cons r (n ∷ ns) [] e s s' = cc
Sorted-cons r (n ∷ ns) (n' ∷ ns') e (fits, le, _) s' =
    let same : n.base ≡ n'.base = cc in (fits, omega arith, s')

Placed-head :
    (before after : List Region) (n r new : Region) {rs rs' : List Region}
    → (n ∷ rs) ≡ before ++ (r ∷ after)
    → rs' ≡ before ++ (r ∷ new ∷ after)
    → (t : List Region) × (rs' ≡ n ∷ t)
Placed-head [] after n r new was is = (new ∷ after, cc)
Placed-head (b ∷ before) after n r new was is = (before ++ (r ∷ new ∷ after), cc)

Sorted-placed :
    (q n : Region) (found length flags : ℕ) (rs rs' : List Region)
    → PlacedFirst found length flags (n ∷ rs) rs'
    → Sorted rs'
    → Sorted (q ∷ n ∷ rs)
    → Sorted (q ∷ rs')
unfolding PlacedFirst Sorted
Sorted-placed q n found length flags rs rs' (before, r, m, after, was, is, _, _, _) s'
      (fits, le, _) =
    let new : Region = record { base = found; length = length; flags = flags } in
    let (t, e) = Placed-head before (m ∷ after) n r new was is in rw e (fits, le, subst Sorted e s')

-- The first fit on sorted regions with room for `length`. If no two neighbours have more than `length`
-- bytes between them, it has no place. Otherwise the new region goes, with the flags, right behind the
-- end of the first region that has more than `length` bytes between it and the next one, and the new
-- list is sorted.
pub insert_first_fit-Sorted :
    (length flags : ℕ) (rs : List Region)
    → Sorted rs
    → Room length rs
    → ((insert_first_fit length flags rs ≡ none) × NoGap length rs)
      ⊎ ((found : ℕ) × (rs' : List Region) × (insert_first_fit length flags rs ≡ some (found, rs'))
          × Sorted rs'
          × PlacedFirst found length flags rs rs')
unfolding insert_first_fit Sorted Room NoGap PlacedFirst
insert_first_fit-Sorted length flags [] s room = inl (refl, tt)
insert_first_fit-Sorted length flags (r ∷ []) s room = inl (refl, tt)
insert_first_fit-Sorted length flags (r ∷ n ∷ rs) (fits, le, s) (here, room) =
    let e1 : u64 (r.base + r.length) ≡ r.base + r.length = u64_small fits in
    let e2 : u64 (r.base + r.length + length) ≡ r.base + r.length + length = u64_small here in
    elim (dec_lt (r.base + r.length + length) n.base) [
      | yes lt ↦ inr (
        r.base + r.length,
        r ∷ record { base = r.base + r.length; length = length; flags = flags } ∷ n ∷ rs,
        rw (e1, e2, ltb-true (r.base + r.length + length) n.base lt),
        (fits, omega arith, (here, omega arith, s)),
        ([], r, n, rs, refl, refl, refl, lt, tt),
      )
      | no ge ↦ elim (insert_first_fit-Sorted length flags (n ∷ rs) s room) [
        | inl (e, full) ↦ inl (
          rw (e1, e2, ltb-false (r.base + r.length + length) n.base (omega arith), e),
          (omega arith, full),
        )
        | inr (found, rs', e, s', p) ↦
            let (before, q, m, after, was, is, at, gap, full) = p in
            inr (
              found,
              r ∷ rs',
              rw (e1, e2, ltb-false (r.base + r.length + length) n.base (omega arith), e),
              Sorted-placed r n found length flags rs rs' p s' (fits, le, s),
              (
                r ∷ before,
                q,
                m,
                after,
                ap (λ x. r ∷ x) was,
                ap (λ x. r ∷ x) is,
                at,
                gap,
                NoGap-cons length r n q m before after rs (omega arith) was full,
              ),
            )
      ]
    ]
