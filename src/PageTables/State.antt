-- ===== src/PageTables/State.antt =====
-- The invariant of the page table map: twenty bucket lists and the list of freed nodes, no node in two.
use titan_os.Base.{
  ℕ, ◌%◌, ◌<◌, ◌≡◌, ◌≢◌, true, false, none, some, List, arith, ◌==◌, if◌then◌else◌, length,
  Bool-cases, inl, inr, get_elem?, get_or, get_elem?-eq-get_or, ==_self, ==_ne,
}
use native.Mathlib.Decide.{ℕ_discrete}
use titan_os.PageTables.{Ptr, Store, Hashmap}
use titan_os.PageTables.Chain.{
  Entry, Chain, has, Distinct, Chain-frame, All, hash_of_has, not-has_of_none,
}

pub record IsMap (m : Hashmap) : Type 0 where
  pub buckets : List Ptr
  pub ready : m.buckets ≡ some buckets
  pub size : length buckets ≡ 20
  pub chain : ℕ → List Entry
  pub freed : List Entry
  pub linked : (b : ℕ) → b < 20 → Chain m.nodes (get_or buckets b 0) (chain b)
  pub distinct : (b : ℕ) → b < 20 → Distinct (chain b)
  pub hashed : (b : ℕ) → b < 20 → All (λ e. e.paddr % 20 ≡ b) (chain b)
  pub free_linked : Chain m.nodes m.tables freed
  pub apart : (b : ℕ) → b < 20 → (a : Ptr) → has a (chain b) ≡ true → has a freed ≡ false

-- The fuel is enough for a walk of any bucket.
abbrev pub IsEnough : {m : Hashmap} → IsMap m → ℕ → Type 0
IsEnough v fuel = (b : ℕ) → b < 20 → length (v.chain b) < fuel

module _ {m : Hashmap} (v : IsMap m) where
  -- The head of a bucket is read in range.
  pub head_read : (b : ℕ) → b < 20 → get_elem? v.buckets b ≡ some (get_or v.buckets b 0)
  head_read b lt = get_elem?-eq-get_or v.buckets b 0 (omega (arith, v.size))

  -- A node is in one bucket at most.
  pub one_bucket :
      (b c : ℕ)
      → b < 20
      → c < 20
      → b ≢ c
      → (a : Ptr) → has a (v.chain b) ≡ true
      → has a (v.chain c) ≡ false
  one_bucket b c lb lc ne a i = elim (Bool-cases (has a (v.chain c))) [
    | inl j ↦
        let (n, e, k) = hash_of_has m.nodes _ (v.chain b) b a (v.linked b lb) (v.hashed b lb) i in
        let (n', e', k') =
          hash_of_has m.nodes _ (v.chain c) c a (v.linked c lc) (v.hashed c lc) j in
        absurd (ne (ground arith))
    | inr out ↦ out
  ]

  -- A store that differs from the old one only at nodes of bucket `b`, and at unused pointers, keeps
  -- the other buckets and the freed nodes.
  module _ (h : Store) (b : ℕ) (lb : b < 20)
      (same : (a : Ptr) → m.nodes a ≢ none → has a (v.chain b) ≡ false → h a ≡ m.nodes a) where
    used :
        (p : Ptr) (xs : List Entry)
        → Chain m.nodes p xs
        → (a : Ptr) → has a xs ≡ true
        → m.nodes a ≢ none
    used p xs c a i e = cc (not-has_of_none m.nodes p xs a e c)

    pub others_linked : (c : ℕ) → c < 20 → c ≢ b → Chain h (get_or v.buckets c 0) (v.chain c)
    others_linked c lc ne =
        Chain-frame m.nodes h _ (v.chain c)
          (λ a i. same a (used _ (v.chain c) (v.linked c lc) a i) (one_bucket c b lc lb ne a i))
          (v.linked c lc)

    apart_bucket : (a : Ptr) → has a v.freed ≡ true → has a (v.chain b) ≡ false
    apart_bucket a i = elim (Bool-cases (has a (v.chain b))) [
      | inl j ↦ cc (v.apart b lb a j)
      | inr out ↦ out
    ]

    pub freed_linked : Chain h m.tables v.freed
    freed_linked =
        Chain-frame m.nodes h m.tables v.freed
          (λ a i. same a (used _ v.freed v.free_linked a i) (apart_bucket a i)) v.free_linked

-- The chains with that of bucket `b` replaced.
abbrev pub rechain : (ℕ → List Entry) → ℕ → List Entry → ℕ → List Entry
rechain f b xs c = if c == b then xs else f c

-- A property of each bucket's list holds of the replaced lists.
pub rechain_all :
    (P : ℕ → List Entry → Type 0) (f : ℕ → List Entry) (b : ℕ) (xs : List Entry)
    → P b xs
    → ((c : ℕ) → c ≢ b → P c (f c))
    → (c : ℕ) → P c (rechain f b xs c)
rechain_all P f b xs p q c = elim (ℕ_discrete c b) [
  | yes e ↦ rw (e, ==_self b) p
  | no ne ↦ rw (==_ne c b ne) (q c ne)
]
