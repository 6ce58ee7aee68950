-- ===== src/PageTables/Slot.antt =====
-- `pg_tbl_insert` on one bucket of the table.
use titan_os.Base.{
  ℕ, ◌%◌, ◌<◌, ◌≡◌, ◌≢◌, refl, sym, false, some, List, [], ◌∷◌, arith, ◌==◌, length, get_elem?,
  get_or, get_elem?-eq-get_or, set, get_or_congr, get_elem?-set_ne, get_elem?-set_self,
  get_or_of_get_elem?, length-set,
}
use titan_os.PageTables.{Ptr, Node, Hashmap, pg_tbl_insert, hash_function}
use titan_os.PageTables.Chain.{Entry, Chain, has, Distinct}
use titan_os.PageTables.Insert.{entry, insert_walk-put_rest}
use titan_os.PageTables.Entries.{put_bucket, links}

-- `m'` is `m` with the list of bucket `b` made `xs'`, its nodes and unused pointers apart unchanged.
pub record Inserted (m : Hashmap) (buckets : List Ptr) (b : ℕ) (xs xs' : List Entry) (m' : Hashmap)
    : Type 0 where
  pub heads : List Ptr
  pub ready : m'.buckets ≡ some heads
  pub size : length heads ≡ length buckets
  pub others : (c : ℕ) → c ≢ b → get_or heads c 0 ≡ get_or buckets c 0
  pub linked : Chain m'.nodes (get_or heads b 0) xs'
  pub same_tables : m'.tables ≡ m.tables
  pub same : (a : Ptr) → has a xs ≡ false → m'.nodes a ≡ m.nodes a

module _ (m : Hashmap) (buckets : List Ptr) (ready : m.buckets ≡ some buckets) (t : Ptr) (tn : Node)
    (there : m.nodes t ≡ some tn) (alone : tn.next ≡ 0) (real : t ≢ 0)
    (room : tn.pt_paddr % 20 < length buckets) where
  abbrev slot : ℕ
  slot = tn.pt_paddr % 20

  head_of : get_elem? buckets slot ≡ some (get_or buckets slot 0)
  head_of = get_elem?-eq-get_or buckets slot 0 room

  pub pg_tbl_insert-Inserted :
      (fuel : ℕ) (xs : List Entry)
      → length xs < fuel
      → Chain m.nodes (get_or buckets slot 0) xs
      → Distinct xs
      → has t xs ≡ false
      → (m' : Hashmap) × (pg_tbl_insert fuel t m ≡ some (links tn.pt_paddr xs, m'))
        × Inserted m buckets slot xs (put_bucket (entry t tn) xs) m'
  unfolding pg_tbl_insert hash_function put_bucket links
  pg_tbl_insert-Inserted fuel [] lt c d o = (
    record m { buckets = some (set buckets slot t) },
    rw (there, ready, head_of, c),
    record {
      heads = set buckets slot t;
      ready = refl;
      size = length-set buckets slot t;
      others = λ k ne. get_or_congr _ _ k 0 (get_elem?-set_ne buckets slot k t (λ e. ne (sym e)));
      linked =
          rw (get_or_of_get_elem? _ slot 0 (get_elem?-set_self buckets slot t room))
            (refl, real, tn, there, refl, refl, alone);
      same_tables = refl;
      same = λ a i. refl;
    },
  )
  pg_tbl_insert-Inserted fuel (e ∷ xs) lt c d o =
      let (h', run, linked, same) =
        insert_walk-put_rest there alone real fuel (get_or buckets slot 0) e xs (omega arith) c d
          o in
      let busy : (get_or buckets slot 0 == 0) ≡ false = ground (arith, c.1) in
      (
        record m { nodes = h' },
        rw (there, ready, head_of, busy, run),
        record {
          heads = buckets;
          ready = ready;
          size = refl;
          others = λ k ne. refl;
          linked = linked;
          same_tables = refl;
          same = same;
        },
      )
