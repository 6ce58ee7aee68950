-- ===== src/Heap/Chain.antt =====
-- The regions of the heap as a list: headers that tile the addresses from one to another.
use titan_os.Base.{
  ℕ, ◌+◌, ◌^◌, ◌≡◌, ◌<◌, ◌≤◌, sym, ◌∙◌, some, List, [], ◌∷◌, ◌++◌, leb-true, arith, inl, inr,
}
use mathlib.Core.Path.{subst}
use titan_os.Heap.{Memory, Region, Heap, read_region, write_region, load, save}
use titan_os.Heap.Bytes.{read_region-write_other}

-- The regions lie one behind the other from `a` up to `e`.
unfoldable pub Chain : Memory → ℕ → ℕ → List Region → Type 0
Chain m a e [] = a ≡ e
Chain m a e (r ∷ rs) = (read_region m a ≡ r) × (r.size < 2 ^ 32) × Chain m (a + r.size + 5) e rs

-- The bytes of the regions with their headers.
abbrev pub gross : List Region → ℕ
gross [] = 0
gross (r ∷ rs) = r.size + 5 + gross rs

pub gross-append : (rs ss : List Region) → gross (rs ++ ss) ≡ gross rs + gross ss
gross-append [] ss = omega arith
gross-append (r ∷ rs) ss = omega (arith, gross-append rs ss)

pub Chain-gross : (m : Memory) (a e : ℕ) (rs : List Region) → Chain m a e rs → a + gross rs ≡ e
unfolding Chain
Chain-gross m a e [] c = omega arith
Chain-gross m a e (r ∷ rs) (_, _, c) = omega (arith, Chain-gross m (a + r.size + 5) e rs c)

pub Chain-append :
    (m : Memory) (a e f : ℕ) (rs ss : List Region)
    → Chain m a e rs
    → Chain m e f ss
    → Chain m a f (rs ++ ss)
unfolding Chain
Chain-append m a e f [] ss c d = subst (λ x. Chain m x f ss) (sym c) d
Chain-append m a e f (r ∷ rs) ss (h, lt, c) d =
    (h, lt, Chain-append m (a + r.size + 5) e f rs ss c d)

pub Chain-split :
    (m : Memory) (a f : ℕ) (rs ss : List Region)
    → Chain m a f (rs ++ ss)
    → Chain m a (a + gross rs) rs × Chain m (a + gross rs) f ss
unfolding Chain
Chain-split m a f [] ss c = (omega arith, subst (λ x. Chain m x f ss) (omega arith) c)
Chain-split m a f (r ∷ rs) ss (h, lt, c) =
    let (left, right) = Chain-split m (a + r.size + 5) f rs ss c in
    let e : a + r.size + 5 + gross rs ≡ a + (r.size + 5 + gross rs) = omega arith in
    (
      (h, lt, subst (λ x. Chain m (a + r.size + 5) x rs) e left),
      subst (λ x. Chain m x f ss) e right,
    )

-- There is room for the header of a region in the list.
pub Chain-inside :
    (m : Memory) (a e : ℕ) (rs : List Region) (u : Region) (ss : List Region)
    → Chain m a e (rs ++ (u ∷ ss))
    → a + gross rs + 5 ≤ e
Chain-inside m a e rs u ss c =
    omega (arith, Chain-gross m (a + gross rs) e (u ∷ ss) (Chain-split m a e rs (u ∷ ss) c).1)

-- Headers are untouched by the write of another behind them or before them.
pub Chain-write_behind :
    (m : Memory) (a e p : ℕ) (new : Region) (rs : List Region)
    → Chain m a e rs
    → e ≤ p
    → Chain (write_region p new m) a e rs
unfolding Chain
Chain-write_behind m a e p new [] c le = c
Chain-write_behind m a e p new (r ∷ rs) (h, lt, c) le =
    let before = Chain-gross m (a + r.size + 5) e rs c in
    (
      read_region-write_other p new m a (inl (omega arith)) ∙ h,
      lt,
      Chain-write_behind m (a + r.size + 5) e p new rs c le,
    )

pub Chain-write_before :
    (m : Memory) (a e p : ℕ) (new : Region) (rs : List Region)
    → Chain m a e rs
    → p + 5 ≤ a
    → Chain (write_region p new m) a e rs
unfolding Chain
Chain-write_before m a e p new [] c le = c
Chain-write_before m a e p new (r ∷ rs) (h, lt, c) le = (
  read_region-write_other p new m a (inr le) ∙ h,
  lt,
  Chain-write_before m (a + r.size + 5) e p new rs c (omega arith),
)

-- A heap whose regions are `rs`: they reach up to `heap_end`, and their pages are mapped.
pub record IsHeap {V : Type 0} (heap_start : ℕ) (rs : List Region) (h : Heap V) : Type 0 where
  pub chain : Chain h.memory heap_start h.heap_end rs
  pub pages : h.heap_end ≤ h.mapped

module _ {V : Type 0} where
  pub load-read_region :
      (a : ℕ) (h : Heap V) → a + 5 ≤ h.mapped → load a h ≡ some (read_region h.memory a)
  unfolding load
  load-read_region a h le = rw (leb-true (a + 5) h.mapped le)

  pub save-write_region :
      (a : ℕ) (r : Region) (h : Heap V)
      → a + 5 ≤ h.mapped
      → save a r h ≡ some (record h { memory = write_region a r h.memory })
  unfolding save
  save-write_region a r h le = rw (leb-true (a + 5) h.mapped le)
