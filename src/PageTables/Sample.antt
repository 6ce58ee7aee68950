-- ===== src/PageTables/Sample.antt =====
-- A page table map with two tables in one bucket.
use titan_os.Base.{
  ℕ, ◌<◌, ◌≡◌, ◌≢◌, refl, true, none, some, List, [], ◌∷◌, arith, length, get_or, set, replicate,
  get_or-replicate, get_or_congr, get_elem?-set_ne, sym, ◌∙◌,
}
use titan_os.PageTables.{Ptr, Node, Store, write, Hashmap}
use titan_os.PageTables.Chain.{Entry, Chain, Distinct}
use titan_os.PageTables.Entries.{IsHashed}
use titan_os.PageTables.State.{IsMap, IsEnough, rechain, rechain_all}

abbrev pub node : ℕ → ℕ → Ptr → Node
node v p n = record { pt_vaddr = v; pt_paddr = p; used = true; next = n }

-- The tables at 0x1000 and 0x6000 share bucket 16.
abbrev pub nodes : Store
nodes = write (write (λ _. none) 2 (node 0xb000 0x6000 0)) 1 (node 0xa000 0x1000 2)

abbrev pub heads : List Ptr
heads = set (replicate 20 0) 16 1

abbrev pub two : Hashmap
two = record { nodes = nodes; buckets = some heads; tables = 0 }

abbrev pub entries : List Entry
entries =
    record { addr = 1; paddr = 0x1000; vaddr = 0xa000 }
    ∷ record { addr = 2; paddr = 0x6000; vaddr = 0xb000 }
    ∷ []

pub entries-Chain : Chain nodes 1 entries
entries-Chain = (
  refl,
  omega arith,
  node 0xa000 0x1000 2,
  refl,
  refl,
  refl,
  (refl, omega arith, node 0xb000 0x6000 0, refl, refl, refl, refl),
)

pub empty_head : (c : ℕ) → c ≢ 16 → get_or heads c 0 ≡ 0
empty_head c ne =
    get_or_congr heads (replicate 20 0) c 0
      (get_elem?-set_ne (replicate 20 0) 16 c 1 (λ e. ne (sym e)))
    ∙ get_or-replicate 20 c 0

abbrev pub two-IsMap : IsMap two
two-IsMap = record {
  buckets = heads;
  ready = refl;
  size = refl;
  chain = rechain (λ _. []) 16 entries;
  freed = [];
  linked =
      rechain_all (λ c ys. c < 20 → Chain nodes (get_or heads c 0) ys) (λ _. []) 16 entries
        (λ lt. entries-Chain) (λ c ne lt. empty_head c ne);
  distinct =
      rechain_all (λ c ys. c < 20 → Distinct ys) (λ _. []) 16 entries (λ lt. (refl, (refl, tt)))
        (λ c ne lt. tt);
  hashed =
      rechain_all (λ c ys. c < 20 → IsHashed c ys) (λ _. []) 16 entries (λ lt. (refl, (refl, tt)))
        (λ c ne lt. tt);
  free_linked = refl;
  apart = λ b lt a i. refl;
}

pub two-IsEnough : IsEnough two-IsMap 3
two-IsEnough =
    rechain_all (λ c ys. c < 20 → length ys < 3) (λ _. []) 16 entries (λ lt. omega arith)
      (λ c ne lt. omega arith)
