-- ===== src/PageTables/Entries.antt =====
-- What insertion and removal make of the entries of a bucket, as functions on lists.
use titan_os.Base.{
  ℕ, ◌%◌, ◌≡◌, ◌≢◌, refl, ◌∙◌, Bool, true, false, not, ◌||◌, ◌&&◌, List, [], ◌∷◌, ◌++◌, arith, ◌==◌,
  if◌then◌else◌, Bool-cases, inl, inr,
}
use titan_os.PageTables.Chain.{Entry, has, Distinct, All}
use titan_os.PageTables.Lookup.{find}
use titan_os.PageTables.Insert.{knows, update_first, put_rest}

unfoldable pub put_bucket : Entry → List Entry → List Entry
put_bucket new [] = new ∷ []
put_bucket new (e ∷ xs) = e ∷ put_rest new xs

-- Whether `pg_tbl_insert` links the new node in.
unfoldable pub links : ℕ → List Entry → Bool
links paddr [] = true
links paddr (e ∷ xs) = not (knows paddr xs)

-- Whether the first entry has the address.
unfoldable pub heads_with : ℕ → List Entry → Bool
heads_with paddr [] = false
heads_with paddr (e ∷ xs) = e.paddr == paddr

has-update_first : (a p v : ℕ) (xs : List Entry) → has a (update_first p v xs) ≡ has a xs
unfolding update_first
has-update_first a p v [] = refl
has-update_first a p v (e ∷ xs) = ground (arith, has-update_first a p v xs)

has-append :
    (a : ℕ) (xs : List Entry) (e : Entry) → has a (xs ++ (e ∷ [])) ≡ (has a xs || (a == e.addr))
has-append a [] e = ground arith
has-append a (x ∷ xs) e = ground (arith, has-append a xs e)

has-put_rest :
    (a : ℕ) (new : Entry) (xs : List Entry) → a ≢ new.addr → has a (put_rest new xs) ≡ has a xs
unfolding put_rest
has-put_rest a new xs ne =
    ground (arith, has-update_first a new.paddr new.vaddr xs, has-append a xs new)

pub has-put_bucket :
    (a : ℕ) (new : Entry) (xs : List Entry) → a ≢ new.addr → has a (put_bucket new xs) ≡ has a xs
unfolding put_bucket
has-put_bucket a new [] ne = ground arith
has-put_bucket a new (e ∷ xs) ne = ground (arith, has-put_rest a new xs ne)

Distinct-update_first : (p v : ℕ) (xs : List Entry) → Distinct xs → Distinct (update_first p v xs)
unfolding update_first
Distinct-update_first p v [] d = d
Distinct-update_first p v (e ∷ xs) d = elim (Bool-cases (e.paddr == p)) [
  | inl y ↦ rw y d
  | inr n ↦ rw n (has-update_first e.addr p v xs ∙ d.0, Distinct-update_first p v xs d.1)
]

Distinct-append :
    (xs : List Entry) (e : Entry) → Distinct xs → has e.addr xs ≡ false → Distinct (xs ++ (e ∷ []))
Distinct-append [] e d o = (refl, tt)
Distinct-append (x ∷ xs) e d o =
    (rw has-append (ground arith), Distinct-append xs e d.1 (ground arith))

Distinct-put_rest :
    (new : Entry) (xs : List Entry)
    → Distinct xs
    → has new.addr xs ≡ false
    → Distinct (put_rest new xs)
unfolding put_rest
Distinct-put_rest new xs d o = elim (Bool-cases (knows new.paddr xs)) [
  | inl y ↦ rw y (Distinct-update_first new.paddr new.vaddr xs d)
  | inr n ↦ rw n (Distinct-append xs new d o)
]

pub Distinct-put_bucket :
    (new : Entry) (xs : List Entry)
    → Distinct xs
    → has new.addr xs ≡ false
    → Distinct (put_bucket new xs)
unfolding put_bucket
Distinct-put_bucket new [] d o = (refl, tt)
Distinct-put_bucket new (e ∷ xs) d o = (
  rw (has-put_rest e.addr new xs (ground arith)) d.0,
  Distinct-put_rest new xs d.1 (ground arith),
)

-- The addresses of the entries still hash to their bucket.
abbrev pub IsHashed : ℕ → List Entry → Type 0
IsHashed b xs = All (λ e. e.paddr % 20 ≡ b) xs

All-update_first : (b p v : ℕ) (xs : List Entry) → IsHashed b xs → IsHashed b (update_first p v xs)
unfolding update_first
All-update_first b p v [] k = k
All-update_first b p v (e ∷ xs) k = elim (Bool-cases (e.paddr == p)) [
  | inl y ↦ rw y k
  | inr n ↦ rw n (k.0, All-update_first b p v xs k.1)
]

All-append :
    (b : ℕ) (xs : List Entry) (e : Entry)
    → IsHashed b xs
    → e.paddr % 20 ≡ b
    → IsHashed b (xs ++ (e ∷ []))
All-append b [] e k h = (h, tt)
All-append b (x ∷ xs) e k h = (k.0, All-append b xs e k.1 h)

All-put_rest :
    (b : ℕ) (new : Entry) (xs : List Entry)
    → IsHashed b xs
    → new.paddr % 20 ≡ b
    → IsHashed b (put_rest new xs)
unfolding put_rest
All-put_rest b new xs k h = elim (Bool-cases (knows new.paddr xs)) [
  | inl y ↦ rw y (All-update_first b new.paddr new.vaddr xs k)
  | inr n ↦ rw n (All-append b xs new k h)
]

pub IsHashed-put_bucket :
    (b : ℕ) (new : Entry) (xs : List Entry)
    → IsHashed b xs
    → new.paddr % 20 ≡ b
    → IsHashed b (put_bucket new xs)
unfolding put_bucket
IsHashed-put_bucket b new [] k h = (h, tt)
IsHashed-put_bucket b new (e ∷ xs) k h = (k.0, All-put_rest b new xs k.1 h)

find-update_first :
    (q p v : ℕ) (xs : List Entry)
    → knows p xs ≡ true
    → find q (update_first p v xs) ≡ (if q == p then v else find q xs)
unfolding find update_first knows
find-update_first q p v [] k = cc
find-update_first q p v (e ∷ xs) k = ground (arith, find-update_first q p v xs)

find-append :
    (q : ℕ) (new : Entry) (xs : List Entry)
    → knows new.paddr xs ≡ false
    → find q (xs ++ (new ∷ [])) ≡ (if q == new.paddr then new.vaddr else find q xs)
unfolding find knows
find-append q new [] k = ground arith
find-append q new (e ∷ xs) k = ground (arith, find-append q new xs)

-- A lookup after an insertion: the new address gives the new value, unless it is the first of its bucket.
pub find-put_bucket :
    (q : ℕ) (new : Entry) (xs : List Entry)
    → find q (put_bucket new xs)
      ≡ (if (q == new.paddr) && not (heads_with new.paddr xs) then new.vaddr else find q xs)
unfolding put_bucket heads_with find put_rest
find-put_bucket q new [] = ground arith
find-put_bucket q new (e ∷ xs) =
    ground (arith, find-update_first q new.paddr new.vaddr xs, find-append q new xs)
