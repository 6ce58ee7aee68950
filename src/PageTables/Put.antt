-- ===== src/PageTables/Put.antt =====
-- `vmm_hashmap_put` keeps the map, and what lookups see of it.
use titan_os.Base.{
  ℕ, ◌%◌, ◌<◌, ◌≡◌, ◌≢◌, refl, ap, sym, ◌∙◌, Bool, true, false, not, ◌&&◌, none, some, List, arith,
  ◌==◌, if◌then◌else◌, get_or, ==_self, ==_ne,
}
use native.Mathlib.Decide.{ℕ_discrete}
use titan_os.PageTables.{
  Ptr, Node, write, Hashmap, pg_tbl_insert, put, get_ptbl_vaddr, hash_function,
}
use titan_os.PageTables.Chain.{Entry, Chain, Chain-write, has, Distinct, All, not-has_of_none}
use titan_os.PageTables.Lookup.{find, lookup_walk-find}
use titan_os.PageTables.Entries.{
  put_bucket, links, heads_with, has-put_bucket, Distinct-put_bucket, IsHashed-put_bucket,
  find-put_bucket,
}
use titan_os.PageTables.Slot.{Inserted, pg_tbl_insert-Inserted}
use titan_os.PageTables.State.{
  IsMap, IsEnough, head_read, others_linked, freed_linked, rechain, rechain_all,
}

-- The lookup that the lists of a map stand for.
abbrev pub known : {m : Hashmap} → IsMap m → ℕ → ℕ
known v q = find q (v.chain (q % 20))

-- On a map of the invariant a lookup with enough fuel is defined, and gives the virtual address of the
-- first entry of its bucket that has the physical address, or 0.
pub get_ptbl_vaddr-known :
    {m : Hashmap} (v : IsMap m) (fuel q : ℕ)
    → IsEnough v fuel
    → get_ptbl_vaddr fuel q m ≡ some (known v q)
unfolding get_ptbl_vaddr hash_function
get_ptbl_vaddr-known {m} v fuel q enough =
    let lt : q % 20 < 20 = omega arith in
    rw (v.ready, head_read v (q % 20) lt)
      (lookup_walk-find fuel (get_or v.buckets (q % 20) 0) q m.nodes (v.chain (q % 20))
        (enough _ lt) (v.linked _ lt))

module _ {m : Hashmap} (v : IsMap m) (fresh : Ptr) (real : fresh ≢ 0)
    (unused : m.nodes fresh ≡ none) (vaddr paddr : ℕ) (flag : Bool) where
  abbrev b : ℕ
  b = paddr % 20

  abbrev new : Entry
  new = record { addr = fresh; paddr = paddr; vaddr = vaddr }

  abbrev node : Node
  node = record { pt_vaddr = vaddr; pt_paddr = paddr; used = flag; next = 0 }

  abbrev before : Hashmap
  before = record m { nodes = write m.nodes fresh node }

  module _ {m' : Hashmap}
      (i : Inserted before v.buckets b (v.chain b) (put_bucket new (v.chain b)) m') where
    lb : b < 20
    lb = omega arith

    same : (a : Ptr) → m.nodes a ≢ none → has a (v.chain b) ≡ false → m'.nodes a ≡ m.nodes a
    same a ne out = ground (arith, i.same a out)

    new_apart :
        (xs : List Entry)
        → ((a : Ptr) → has a xs ≡ true → has a v.freed ≡ false)
        → (a : Ptr) → has a (put_bucket new xs) ≡ true
        → has a v.freed ≡ false
    new_apart xs old a j = elim (ℕ_discrete a fresh) [
      | yes e ↦ rw e (not-has_of_none m.nodes m.tables v.freed fresh unused v.free_linked)
      | no ne ↦ old a (sym (has-put_bucket a new xs ne) ∙ j)
    ]

    unknown : has fresh (v.chain b) ≡ false
    unknown = not-has_of_none m.nodes _ (v.chain b) fresh unused (v.linked b lb)

    Inserted-IsMap : IsMap m'
    Inserted-IsMap = record {
      buckets = i.heads;
      ready = i.ready;
      size = i.size ∙ v.size;
      chain = rechain v.chain b (put_bucket new (v.chain b));
      freed = v.freed;
      linked =
          rechain_all (λ c ys. c < 20 → Chain m'.nodes (get_or i.heads c 0) ys) v.chain b _
            (λ lt. i.linked)
            (λ c ne lt. rw (i.others c ne) (others_linked v m'.nodes b lb same c lt ne));
      distinct =
          rechain_all (λ c ys. c < 20 → Distinct ys) v.chain b _
            (λ lt. Distinct-put_bucket new (v.chain b) (v.distinct b lb) unknown)
            (λ c ne lt. v.distinct c lt);
      hashed =
          rechain_all (λ c ys. c < 20 → All (λ e. e.paddr % 20 ≡ c) ys) v.chain b _
            (λ lt. IsHashed-put_bucket b new (v.chain b) (v.hashed b lb) refl)
            (λ c ne lt. v.hashed c lt);
      free_linked = rw i.same_tables (freed_linked v m'.nodes b lb same);
      apart =
          rechain_all (λ c ys. c < 20 → (a : Ptr) → has a ys ≡ true → has a v.freed ≡ false) v.chain
            b _ (λ lt. new_apart (v.chain b) (v.apart b lb)) (λ c ne lt. v.apart c lt);
    }

  known-rechain :
      (q : ℕ)
      → find q (rechain v.chain b (put_bucket new (v.chain b)) (q % 20))
        ≡ (if (q == paddr) && not (heads_with paddr (v.chain b)) then vaddr else known v q)
  known-rechain q = elim (ℕ_discrete (q % 20) b) [
    | yes e ↦ rw (e, ==_self b) (find-put_bucket q new (v.chain b))
    | no ne ↦ rw (==_ne (q % 20) b ne, ==_ne q paddr (λ e. ne (ap (λ t. t % 20) e)))
  ]

  -- A node that is in no list changes no list, and no lookup.
  unfoldable pub written-IsMap : IsMap before
  written-IsMap = record {
    buckets = v.buckets;
    ready = v.ready;
    size = v.size;
    chain = v.chain;
    freed = v.freed;
    linked = λ c lt.
        Chain-write m.nodes _ (v.chain c) fresh node
          (not-has_of_none m.nodes _ (v.chain c) fresh unused (v.linked c lt)) (v.linked c lt);
    distinct = v.distinct;
    hashed = v.hashed;
    free_linked =
        Chain-write m.nodes m.tables v.freed fresh node
          (not-has_of_none m.nodes m.tables v.freed fresh unused v.free_linked) v.free_linked;
    apart = v.apart;
  }

  pub get_ptbl_vaddr-written :
      (fuel q : ℕ) → IsEnough v fuel → get_ptbl_vaddr fuel q before ≡ get_ptbl_vaddr fuel q m
  unfolding written-IsMap
  get_ptbl_vaddr-written fuel q enough =
      get_ptbl_vaddr-known written-IsMap fuel q enough ∙ sym (get_ptbl_vaddr-known v fuel q enough)

  -- `pg_tbl_insert` of a new node.
  pub pg_tbl_insert-known :
      (fuel : ℕ)
      → IsEnough v fuel
      → (m' : Hashmap) × (v' : IsMap m') × (pg_tbl_insert fuel fresh before
          ≡ some (links paddr (v.chain b), m'))
        × ((q : ℕ)
            → known v' q
              ≡ (if (q == paddr) && not (heads_with paddr (v.chain b)) then vaddr else known v q))
        × (v'.chain ≡ rechain v.chain b (put_bucket new (v.chain b)))
        × ((a : Ptr) → m.nodes a ≡ none → a ≢ fresh → m'.nodes a ≡ none)
  unfolding Inserted-IsMap
  pg_tbl_insert-known fuel enough =
      let (m', run, i) =
        pg_tbl_insert-Inserted before v.buckets v.ready fresh node (ground arith) refl real
          (omega (arith, v.size)) fuel (v.chain b) (enough b (omega arith))
          (Chain-write m.nodes _ (v.chain b) fresh node
            (not-has_of_none m.nodes _ (v.chain b) fresh unused (v.linked b (omega arith)))
            (v.linked b (omega arith)))
          (v.distinct b (omega arith))
          (not-has_of_none m.nodes _ (v.chain b) fresh unused (v.linked b (omega arith))) in
      (
        m',
        Inserted-IsMap i,
        run,
        known-rechain,
        refl,
        λ a out ne.
            i.same a (not-has_of_none m.nodes _ (v.chain b) a out (v.linked b (omega arith)))
            ∙ rw (==_ne fresh a (λ e. ne (sym e))) out,
      )

pub put_enters :
    {m : Hashmap} (v : IsMap m) (fuel : ℕ) (fresh : Ptr) (vaddr paddr : ℕ)
    → put fuel fresh vaddr paddr m
      ≡ pg_tbl_insert fuel fresh (record m {
        nodes =
            write m.nodes fresh
              (record { pt_vaddr = vaddr; pt_paddr = paddr; used = true; next = 0 });
      })
unfolding put
put_enters v fuel fresh vaddr paddr = ground (arith, v.ready)

-- `vmm_hashmap_put` with enough fuel and an unused node is free of undefined behaviour. It says
-- whether it linked the node in, keeps the invariant, and afterwards the table at `paddr` is known
-- at `vaddr`, unless the first entry of its bucket already had that physical address: then the old
-- virtual address is still found. Every other lookup is unchanged.
pub put-known :
    {m : Hashmap} (v : IsMap m) (fresh : Ptr)
    → fresh ≢ 0
    → m.nodes fresh ≡ none
    → (vaddr paddr fuel : ℕ) → IsEnough v fuel
    → (m' : Hashmap) × (v' : IsMap m') × (put fuel fresh vaddr paddr m
        ≡ some (links paddr (v.chain (paddr % 20)), m'))
      × ((q : ℕ)
          → known v' q ≡ (
              if (q == paddr) && not (heads_with paddr (v.chain (paddr % 20)))
              then vaddr
              else known v q))
put-known v fresh real unused vaddr paddr fuel enough =
    let (m', v', run, finds, _, _) =
      pg_tbl_insert-known v fresh real unused vaddr paddr true fuel enough in
    (m', v', put_enters v fuel fresh vaddr paddr ∙ run, finds)
