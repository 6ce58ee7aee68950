-- ===== src/PageTables/Tests.antt =====
-- The page table map at a bucket of two nodes, and its theorems there.
use titan_os.Base.{ℕ, ◌≡◌, refl, not, ◌&&◌, some, [], ◌++◌, arith, ◌==◌, if◌then◌else◌}
use titan_os.PageTables.{Hashmap, put, get_ptbl_vaddr, remove, hash_function, lookup_walk}
use titan_os.PageTables.Insert.{knows}
use titan_os.PageTables.Remove.{drop_first, first_match}
use titan_os.PageTables.Lookup.{find}
use titan_os.PageTables.Entries.{links, heads_with}
use titan_os.PageTables.State.{IsMap}
use titan_os.PageTables.Put.{known, put-known}
use titan_os.PageTables.Sample.{two, two-IsMap, two-IsEnough, entries}
use titan_os.PageTables.Removal.{behind, remove-known}

lookups :
    (get_ptbl_vaddr 3 0x1000 two ≡ some 0xa000)
    × (get_ptbl_vaddr 3 0x6000 two ≡ some 0xb000)
    × (get_ptbl_vaddr 3 0x2000 two ≡ some 0)
unfolding get_ptbl_vaddr lookup_walk hash_function
lookups = (refl, refl, refl)

put-known_example :
    (m' : Hashmap) × (v' : IsMap m') × (put 3 7 0xc000 0x6000 two ≡ some (links 0x6000 entries, m'))
    × ((q : ℕ)
        → known v' q ≡ (
            if (q == 0x6000) && not (heads_with 0x6000 entries) then 0xc000 else known two-IsMap q))
put-known_example = put-known two-IsMap 7 (omega arith) refl 0xc000 0x6000 3 two-IsEnough

remove-known_example :
    (m' : Hashmap) × (v' : IsMap m') × (remove 3 0x6000 two
      ≡ some (knows 0x6000 (behind entries), m'))
    × (v'.freed ≡ first_match 0x6000 (behind entries) ++ [])
    × ((q : ℕ)
        → known v' q ≡ (
            if (q == 0x6000) && not (heads_with 0x6000 entries)
            then find 0x6000 (drop_first 0x6000 entries)
            else known two-IsMap q))
remove-known_example = remove-known two-IsMap 0x6000 3 two-IsEnough
