-- ===== src/PageTables/Lookup.antt =====
-- `get_ptbl_vaddr` finds the first entry of its bucket with the address.
use titan_os.Base.{ℕ, zero, suc, ◌<◌, ◌≡◌, some, List, [], ◌∷◌, arith, ◌==◌, if◌then◌else◌, length}
use titan_os.PageTables.{Ptr, Store, lookup_walk}
use titan_os.PageTables.Chain.{Entry, Chain}

unfoldable pub find : ℕ → List Entry → ℕ
find paddr [] = 0
find paddr (e ∷ xs) = if e.paddr == paddr then e.vaddr else find paddr xs

pub lookup_walk-find :
    (fuel : ℕ) (p : Ptr) (paddr : ℕ) (h : Store) (xs : List Entry)
    → length xs < fuel
    → Chain h p xs
    → lookup_walk fuel p paddr h ≡ some (find paddr xs)
unfolding lookup_walk find
lookup_walk-find zero p paddr h xs lt c = absurd (omega arith)
lookup_walk-find (suc fuel) p paddr h [] lt c = ground arith
lookup_walk-find (suc fuel) p paddr h (e ∷ xs) lt (a, b, n, i, j, k, rest) =
    ground (arith, lookup_walk-find fuel n.next paddr h xs (omega arith) rest)
