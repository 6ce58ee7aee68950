-- ===== src/PageTables/Reuse.antt =====
-- `get_freed_pg_tbl` does not take a node off the list of freed ones.
use titan_os.Base.{◌≡◌, ◌≢◌, refl, true, some, List, [], ◌∷◌, arith}
use titan_os.PageTables.{Ptr, Hashmap, get_freed_pg_tbl}
use titan_os.PageTables.Chain.{Entry, Chain, has}
use titan_os.PageTables.State.{IsMap}

-- The second freed node, NULL if there is none.
unfoldable pub second : List Entry → Ptr
second [] = 0
second (e ∷ []) = 0
second (e ∷ f ∷ xs) = f.addr

get_freed_pg_tbl-Chain :
    (m : Hashmap) (xs : List Entry)
    → Chain m.nodes m.tables xs
    → get_freed_pg_tbl m ≡ some (second xs)
unfolding get_freed_pg_tbl second
get_freed_pg_tbl-Chain m [] c = rw c
get_freed_pg_tbl-Chain m (e ∷ []) (a, ne, n, i, j, k, z) = ground arith
get_freed_pg_tbl-Chain m (e ∷ f ∷ xs) (a, ne, n, i, j, k, rest) = ground (arith, rest.0)

-- On a map of the invariant `get_freed_pg_tbl` answers with the second freed node, NULL when fewer than
-- two nodes are freed, so the first one is never handed out; a node that it does hand out is still
-- among the freed ones, of which no node may be in a bucket.
pub get_freed_pg_tbl-second :
    {m : Hashmap} (v : IsMap m)
    → (get_freed_pg_tbl m ≡ some (second v.freed))
      × (second v.freed ≢ 0 → has (second v.freed) v.freed ≡ true)
unfolding second
get_freed_pg_tbl-second {m} v = (get_freed_pg_tbl-Chain m v.freed v.free_linked, still v.freed)
  where
    still : (xs : List Entry) → second xs ≢ 0 → has (second xs) xs ≡ true
    still [] ne = absurd (ne refl)
    still (e ∷ []) ne = absurd (ne refl)
    still (e ∷ f ∷ xs) ne = ground arith
