-- ===== src/PageTables/Chain.antt =====
-- The lists of nodes that the buckets head, and what writes elsewhere leave of them.
use titan_os.Base.{
  ℕ, ◌%◌, ◌≡◌, ◌≢◌, refl, Bool, true, false, ◌||◌, Bool-cases, inl, inr, none, some, List, [], ◌∷◌,
  arith, ◌==◌,
}
use titan_os.PageTables.{Ptr, Node, Store, write}

-- What a node stands for.
pub record Entry : Type 0 where
  pub addr : Ptr
  pub paddr : ℕ
  pub vaddr : ℕ

-- From `p` the `next` pointers lead through the entries to NULL.
abbrev pub Chain : Store → Ptr → List Entry → Type 0
Chain h p [] = p ≡ 0
Chain h p (e ∷ xs) =
    (p ≡ e.addr)
    × (p ≢ 0)
    × (n : Node) × (h p ≡ some n)
    × (n.pt_paddr ≡ e.paddr)
    × (n.pt_vaddr ≡ e.vaddr)
    × Chain h n.next xs

-- Whether a node is among the entries.
abbrev pub has : Ptr → List Entry → Bool
has a [] = false
has a (e ∷ xs) = (a == e.addr) || has a xs

abbrev pub Distinct : List Entry → Type 0
Distinct [] = Unit
Distinct (e ∷ xs) = (has e.addr xs ≡ false) × Distinct xs

-- `g` differs from `h` at nodes of `xs` only.
abbrev pub SameOutside : List Entry → Store → Store → Type 0
SameOutside xs h g = (a : Ptr) → has a xs ≡ false → g a ≡ h a

pub Chain-frame :
    (h g : Store) (p : Ptr) (xs : List Entry)
    → ((a : Ptr) → has a xs ≡ true → g a ≡ h a)
    → Chain h p xs
    → Chain g p xs
Chain-frame h g p [] same c = c
Chain-frame h g p (e ∷ xs) same (a, b, n, i, j, k, rest) = (
  a,
  b,
  n,
  ground (arith, same p),
  j,
  k,
  Chain-frame h g n.next xs (λ q m. same q (ground arith)) rest,
)

pub Chain-write :
    (h : Store) (p : Ptr) (xs : List Entry) (a : Ptr) (n : Node)
    → has a xs ≡ false
    → Chain h p xs
    → Chain (write h a n) p xs
Chain-write h p xs a n out = Chain-frame h (write h a n) p xs (λ q m. ground arith)

-- An unused pointer is in no list.
pub not-has_of_none :
    (h : Store) (p : Ptr) (xs : List Entry) (a : Ptr) → h a ≡ none → Chain h p xs → has a xs ≡ false
not-has_of_none h p [] a z c = refl
not-has_of_none h p (e ∷ xs) a z (i, j, n, k, l, m, rest) =
    ground (arith, not-has_of_none h n.next xs a z rest)

abbrev pub All : (Entry → Type 0) → List Entry → Type 0
All P [] = Unit
All P (e ∷ xs) = P e × All P xs

-- A node of a list whose addresses all hash to `b` holds an address that hashes to `b`.
pub hash_of_has :
    (h : Store) (p : Ptr) (xs : List Entry) (b : ℕ) (a : Ptr)
    → Chain h p xs
    → All (λ e. e.paddr % 20 ≡ b) xs
    → has a xs ≡ true
    → (n : Node) × (h a ≡ some n) × (n.pt_paddr % 20 ≡ b)
hash_of_has h p [] b a c k i = cc
hash_of_has h p (e ∷ xs) b a (x, y, n, z, u, v, rest) (k, ks) i = elim (Bool-cases (a == e.addr)) [
  | inl here ↦ (n, ground arith, ground arith)
  | inr there ↦ hash_of_has h n.next xs b a rest ks (ground arith)
]
