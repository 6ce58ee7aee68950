-- ===== src/PageTables/Removal.antt =====
-- `vmm_hashmap_remove` keeps the map, hands the node over to the freed ones, and what lookups see of it.
use titan_os.Base.{
  ℕ, ◌%◌, ◌<◌, ◌≡◌, ◌≢◌, refl, ap, ◌∙◌, true, false, not, ◌||◌, ◌&&◌, none, some, List, [], ◌∷◌,
  ◌++◌, arith, ◌==◌, if◌then◌else◌, length, Bool-cases, inl, inr, get_or, ==_self, ==_ne,
}
use native.Mathlib.Decide.{ℕ_discrete}
use titan_os.PageTables.{Ptr, Hashmap, remove, hash_function}
use titan_os.PageTables.Chain.{Entry, Chain, has, Distinct, All, SameOutside}
use titan_os.PageTables.Lookup.{find}
use titan_os.PageTables.Insert.{knows}
use titan_os.PageTables.Remove.{drop_first, first_match, remove_walk-drop_first}
use titan_os.PageTables.Entries.{heads_with, IsHashed}
use titan_os.PageTables.State.{
  IsMap, IsEnough, head_read, one_bucket, others_linked, rechain, rechain_all,
}
use titan_os.PageTables.Put.{known}

-- The entries behind the first, which are the ones that the walk looks at.
unfoldable pub behind : List Entry → List Entry
behind [] = []
behind (e ∷ xs) = xs

has-behind : (a : Ptr) (xs : List Entry) → has a (behind xs) ≡ true → has a xs ≡ true
unfolding behind
has-behind a [] h = h
has-behind a (e ∷ xs) h = ground arith

unfoldable pub remove_bucket : ℕ → List Entry → List Entry
remove_bucket paddr [] = []
remove_bucket paddr (e ∷ xs) = e ∷ drop_first paddr xs

has-drop_first : (a p : ℕ) (xs : List Entry) → has a (drop_first p xs) ≡ true → has a xs ≡ true
unfolding drop_first
has-drop_first a p [] h = h
has-drop_first a p (e ∷ xs) h = ground (arith, has-drop_first a p xs)

has-first_match : (a p : ℕ) (xs : List Entry) → has a (first_match p xs) ≡ true → has a xs ≡ true
unfolding first_match
has-first_match a p [] h = h
has-first_match a p (e ∷ xs) h = ground (arith, has-first_match a p xs)

has-remove_bucket :
    (a p : ℕ) (xs : List Entry) → has a (remove_bucket p xs) ≡ true → has a xs ≡ true
unfolding remove_bucket
has-remove_bucket a p [] h = h
has-remove_bucket a p (e ∷ xs) h = ground (arith, has-drop_first a p xs)

Distinct-drop_first : (p : ℕ) (xs : List Entry) → Distinct xs → Distinct (drop_first p xs)
unfolding drop_first
Distinct-drop_first p [] d = d
Distinct-drop_first p (e ∷ xs) d = elim (Bool-cases (e.paddr == p)) [
  | inl y ↦ rw y d.1
  | inr n ↦ rw n (ground (arith, has-drop_first e.addr p xs), Distinct-drop_first p xs d.1)
]

Distinct-remove_bucket : (p : ℕ) (xs : List Entry) → Distinct xs → Distinct (remove_bucket p xs)
unfolding remove_bucket
Distinct-remove_bucket p [] d = d
Distinct-remove_bucket p (e ∷ xs) d =
    (ground (arith, has-drop_first e.addr p xs), Distinct-drop_first p xs d.1)

IsHashed-drop_first : (b p : ℕ) (xs : List Entry) → IsHashed b xs → IsHashed b (drop_first p xs)
unfolding drop_first
IsHashed-drop_first b p [] d = d
IsHashed-drop_first b p (e ∷ xs) d = elim (Bool-cases (e.paddr == p)) [
  | inl y ↦ rw y d.1
  | inr n ↦ rw n (d.0, IsHashed-drop_first b p xs d.1)
]

IsHashed-remove_bucket :
    (b p : ℕ) (xs : List Entry) → IsHashed b xs → IsHashed b (remove_bucket p xs)
unfolding remove_bucket
IsHashed-remove_bucket b p [] d = d
IsHashed-remove_bucket b p (e ∷ xs) d = (d.0, IsHashed-drop_first b p xs d.1)

-- The node that goes is not among those that stay.
drop_first-first_match :
    (a p : ℕ) (xs : List Entry)
    → Distinct xs
    → has a (drop_first p xs) ≡ true
    → has a (first_match p xs) ≡ false
unfolding drop_first first_match
drop_first-first_match a p [] d h = refl
drop_first-first_match a p (e ∷ xs) d h =
    ground (arith, drop_first-first_match a p xs d.1, has-first_match a p xs)

stays_apart :
    (a p : ℕ) (xs : List Entry)
    → Distinct xs
    → has a (remove_bucket p xs) ≡ true
    → has a (first_match p (behind xs)) ≡ false
unfolding remove_bucket behind
stays_apart a p [] d h = cc
stays_apart a p (e ∷ xs) d h =
    ground (arith, drop_first-first_match a p xs d.1, has-first_match a p xs)

has-append : (a : ℕ) (xs ys : List Entry) → has a (xs ++ ys) ≡ (has a xs || has a ys)
has-append a [] ys = refl
has-append a (x ∷ xs) ys = ground (arith, has-append a xs ys)

find-drop_first : (q p : ℕ) (xs : List Entry) → q ≢ p → find q (drop_first p xs) ≡ find q xs
unfolding find drop_first
find-drop_first q p [] ne = refl
find-drop_first q p (e ∷ xs) ne = ground (arith, find-drop_first q p xs)

find-remove_bucket :
    (q p : ℕ) (xs : List Entry)
    → find q (remove_bucket p xs)
      ≡ (if (q == p) && not (heads_with p xs) then find p (drop_first p xs) else find q xs)
unfolding find remove_bucket heads_with drop_first
find-remove_bucket q p [] = ground arith
find-remove_bucket q p (e ∷ xs) = ground (arith, find-drop_first q p xs)

record Removed (m : Hashmap) (head : Ptr) (p : ℕ) (xs freed : List Entry) (m' : Hashmap)
    : Type 0 where
  same_buckets : m'.buckets ≡ m.buckets
  linked : Chain m'.nodes head (remove_bucket p xs)
  free_linked : Chain m'.nodes m'.tables (first_match p (behind xs) ++ freed)
  same : SameOutside xs m.nodes m'.nodes

module _ {m : Hashmap} (v : IsMap m) (paddr : ℕ) where
  abbrev b : ℕ
  b = paddr % 20

  lb : b < 20
  lb = omega arith

  abbrev head : Ptr
  head = get_or v.buckets b 0

  remove-Removed :
      (fuel : ℕ) (xs : List Entry)
      → length xs < fuel
      → Chain m.nodes head xs
      → Distinct xs
      → ((a : Ptr) → has a xs ≡ true → has a v.freed ≡ false)
      → (m' : Hashmap) × (remove fuel paddr m ≡ some (knows paddr (behind xs), m'))
        × Removed m head paddr xs v.freed m'
  unfolding remove hash_function behind remove_bucket knows first_match
  remove-Removed fuel [] lt c d o = (
    m,
    rw (v.ready, head_read v b lb, c),
    record { same_buckets = refl; linked = c; free_linked = v.free_linked; same = λ a i. refl },
  )
  remove-Removed fuel (e ∷ xs) lt c d o =
      let (t, h', run, linked, free, same) =
        remove_walk-drop_first m.nodes paddr m.tables v.freed v.free_linked fuel head e xs
          (omega arith) c d o in
      let busy : (head == 0) ≡ false = ==_ne head 0 c.1 in
      (
        record m { nodes = h'; tables = t },
        rw (v.ready, head_read v b lb, busy, run),
        record { same_buckets = refl; linked = linked; free_linked = free; same = same },
      )

  module _ {m' : Hashmap} (r : Removed m head paddr (v.chain b) v.freed m') where
    same_used : (a : Ptr) → m.nodes a ≢ none → has a (v.chain b) ≡ false → m'.nodes a ≡ m.nodes a
    same_used a ne out = r.same a out

    -- A node of bucket `c` other than `b` is not the one that was freed.
    other_apart :
        (c : ℕ)
        → c < 20
        → c ≢ b
        → (a : Ptr) → has a (v.chain c) ≡ true
        → has a (first_match paddr (behind (v.chain b)) ++ v.freed) ≡ false
    other_apart c lc ne a i =
        has-append a (first_match paddr (behind (v.chain b))) v.freed
        ∙ ground (
          arith,
          one_bucket v c b lc lb ne a i,
          has-behind a (v.chain b),
          has-first_match a paddr (behind (v.chain b)),
          v.apart c lc a i,
        )

    same_apart :
        (a : Ptr)
        → has a (remove_bucket paddr (v.chain b)) ≡ true
        → has a (first_match paddr (behind (v.chain b)) ++ v.freed) ≡ false
    same_apart a i =
        has-append a (first_match paddr (behind (v.chain b))) v.freed
        ∙ ground (
          arith,
          stays_apart a paddr (v.chain b) (v.distinct b lb) i,
          v.apart b lb a (has-remove_bucket a paddr (v.chain b) i),
        )

    Removed-IsMap : IsMap m'
    Removed-IsMap = record {
      buckets = v.buckets;
      ready = r.same_buckets ∙ v.ready;
      size = v.size;
      chain = rechain v.chain b (remove_bucket paddr (v.chain b));
      freed = first_match paddr (behind (v.chain b)) ++ v.freed;
      linked =
          rechain_all (λ c ys. c < 20 → Chain m'.nodes (get_or v.buckets c 0) ys) v.chain b _
            (λ lt. r.linked) (λ c ne lt. others_linked v m'.nodes b lb same_used c lt ne);
      distinct =
          rechain_all (λ c ys. c < 20 → Distinct ys) v.chain b _
            (λ lt. Distinct-remove_bucket paddr (v.chain b) (v.distinct b lb))
            (λ c ne lt. v.distinct c lt);
      hashed =
          rechain_all (λ c ys. c < 20 → All (λ e. e.paddr % 20 ≡ c) ys) v.chain b _
            (λ lt. IsHashed-remove_bucket b paddr (v.chain b) (v.hashed b lb))
            (λ c ne lt. v.hashed c lt);
      free_linked = r.free_linked;
      apart =
          rechain_all
            (λ c ys.
              c < 20
              → (a : Ptr) → has a ys ≡ true
              → has a (first_match paddr (behind (v.chain b)) ++ v.freed) ≡ false)
            v.chain b _ (λ lt. same_apart) (λ c ne lt. other_apart c lt ne);
    }

  known-removed :
      (q : ℕ)
      → find q (rechain v.chain b (remove_bucket paddr (v.chain b)) (q % 20)) ≡ (
          if (q == paddr) && not (heads_with paddr (v.chain b))
          then find paddr (drop_first paddr (v.chain b))
          else known v q)
  known-removed q = elim (ℕ_discrete (q % 20) b) [
    | yes e ↦ rw (e, ==_self b) (find-remove_bucket q paddr (v.chain b))
    | no ne ↦ rw (==_ne (q % 20) b ne, ==_ne q paddr (λ e. ne (ap (λ t. t % 20) e)))
  ]

  -- `vmm_hashmap_remove` with enough fuel is free of undefined behaviour, and says whether an entry
  -- behind the first of the bucket has the physical address. It keeps the invariant: the first such
  -- entry, if there is one, moves to the front of the freed nodes, and no other node is touched or
  -- freed. Lookups of other addresses are unchanged, and so is that of `paddr` where the first entry
  -- of the bucket has it, since that entry is never removed; else the next entry with it is found, or
  -- none.
  pub remove-known :
      (fuel : ℕ)
      → IsEnough v fuel
      → (m' : Hashmap) × (v' : IsMap m') × (remove fuel paddr m
          ≡ some (knows paddr (behind (v.chain b)), m'))
        × (v'.freed ≡ first_match paddr (behind (v.chain b)) ++ v.freed)
        × ((q : ℕ)
            → known v' q ≡ (
                if (q == paddr) && not (heads_with paddr (v.chain b))
                then find paddr (drop_first paddr (v.chain b))
                else known v q))
  unfolding Removed-IsMap
  remove-known fuel enough =
      let (m', run, r) =
        remove-Removed fuel (v.chain b) (enough b lb) (v.linked b lb) (v.distinct b lb)
          (v.apart b lb) in
      (m', Removed-IsMap r, run, refl, known-removed)
