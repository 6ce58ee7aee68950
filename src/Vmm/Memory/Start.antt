-- ===== src/Vmm/Memory/Start.antt =====
-- The page table map after `vmm_init`: the tables of the boot code.
use titan_os.Base.{
  ℕ, suc, ◌+◌, ◌%◌, ◌<◌, ◌≤◌, ◌≡◌, ◌≢◌, refl, ◌∙◌, true, ◌&&◌, none, some, List, [], ◌∷◌, ◌++◌,
  ◌==◌, ==_self, ==_ne, if◌then◌else◌, length, arith, replicate, length-replicate, get_or,
  get_or-replicate,
}
use native.Mathlib.Decide.{ℕ_discrete}
use titan_os.PageTables.{Ptr, Store, Hashmap, init}
use titan_os.PageTables.Chain.{Entry, Chain}
use titan_os.PageTables.Entries.{put_bucket}
use titan_os.PageTables.Lookup.{find}
use titan_os.PageTables.State.{IsMap, rechain_all}
use titan_os.PageTables.Put.{known, put_enters, pg_tbl_insert-known}
use titan_os.Vmm.Memory.{Memory, with_pages, put_table, put_tables, init_tables}
use titan_os.Vmm.Memory.NewTable.{
  put_bucket-IsUnknown, longer, length-longer, IsUnknown, heads_with-IsUnknown,
}

-- The address of the first pair for a physical address, and another value without such a pair.
abbrev pub assoc : List (ℕ × ℕ) → ℕ → ℕ → ℕ
assoc [] q d = d
assoc ((vaddr, paddr) ∷ xs) q d = if q == paddr then vaddr else assoc xs q d

-- No pair is for the physical address.
abbrev pub IsOther : ℕ → List (ℕ × ℕ) → Type 0
IsOther q [] = Unit
IsOther q ((_, paddr) ∷ xs) = (q ≢ paddr) × IsOther q xs

-- The pairs are for different physical addresses.
abbrev pub Differ : List (ℕ × ℕ) → Type 0
Differ [] = Unit
Differ ((_, paddr) ∷ xs) = IsOther paddr xs × Differ xs

-- The pointer is none of these.
abbrev pub IsApart : Ptr → List Ptr → Type 0
IsApart p [] = Unit
IsApart p (q ∷ qs) = (q ≢ p) × IsApart p qs

-- Different pointers without a node.
abbrev pub Unused : Store → List Ptr → Type 0
Unused h [] = Unit
Unused h (p ∷ ps) = (p ≢ 0) × (h p ≡ none) × IsApart p ps × Unused h ps

pub Unused-frame :
    (h g : Store) (p : Ptr) (ps : List Ptr)
    → ((a : Ptr) → h a ≡ none → a ≢ p → g a ≡ none)
    → IsApart p ps
    → Unused h ps
    → Unused g ps
Unused-frame h g p [] same apart u = tt
Unused-frame h g p (q ∷ qs) same (ne, apart) (real, out, far, u) =
    (real, same q out ne, far, Unused-frame h g p qs same apart u)

IsUnknown-append :
    (q : ℕ) (new : Entry) (xs : List Entry)
    → IsUnknown q xs
    → new.paddr ≢ q
    → IsUnknown q (xs ++ (new ∷ []))
IsUnknown-append q new [] u ne = (ne, tt)
IsUnknown-append q new (e ∷ xs) (far, u) ne = (far, IsUnknown-append q new xs u ne)

-- No bucket has an entry for the pairs.
abbrev pub NoneOf : (ℕ → List Entry) → List (ℕ × ℕ) → Type 0
NoneOf chain [] = Unit
NoneOf chain ((_, paddr) ∷ xs) = IsUnknown paddr (chain (paddr % 20)) × NoneOf chain xs

module _ (chain : ℕ → List Entry) (new : Entry)
    (unknown : IsUnknown new.paddr (chain (new.paddr % 20))) where
  abbrev b : ℕ
  b = new.paddr % 20

  NoneOf-longer :
      (xs : List (ℕ × ℕ)) → IsOther new.paddr xs → NoneOf chain xs → NoneOf (longer chain new) xs
  NoneOf-longer [] o u = tt
  NoneOf-longer ((va, pa) ∷ xs) (ne, o) (there, u) = (
    rechain_all (λ c ys. c ≡ pa % 20 → IsUnknown pa ys) chain b (put_bucket new (chain b))
        (λ e.
          rw (put_bucket-IsUnknown new (chain b) unknown)
            (IsUnknown-append pa new (chain b) (rw e there) ne))
        (λ c other e. rw e there) (pa % 20) refl,
    NoneOf-longer xs o u,
  )

assoc-IsOther : (q : ℕ) (xs : List (ℕ × ℕ)) (d : ℕ) → IsOther q xs → assoc xs q d ≡ d
assoc-IsOther q [] d o = refl
assoc-IsOther q ((va, pa) ∷ xs) d (ne, o) = rw (==_ne q pa ne) (assoc-IsOther q xs d o)

assoc-next :
    (q va pa : ℕ) (xs : List (ℕ × ℕ)) (w w' : ℕ)
    → IsOther pa xs
    → w' ≡ (if (q == pa) && true then va else w)
    → assoc xs q w' ≡ assoc ((va, pa) ∷ xs) q w
assoc-next q va pa xs w w' other e = elim (ℕ_discrete q pa) [
  | yes same ↦ rw (e, same, ==_self pa) (assoc-IsOther pa xs va other)
  | no ne ↦ rw (e, ==_ne q pa ne)
]

put_tables-known :
    (walk n : ℕ) (xs : List (ℕ × ℕ)) (ps : List Ptr) (t : Memory) (v : IsMap t.pages.hashmap)
    → t.pages.fresh ≡ ps
    → ((c : ℕ) → c < 20 → length (v.chain c) < n)
    → n + length xs ≤ suc walk
    → length xs ≤ length ps
    → Unused t.pages.hashmap.nodes ps
    → Differ xs
    → NoneOf v.chain xs
    → (u : Memory) × (put_tables walk xs t ≡ some u)
      × (v' : IsMap u.pages.hashmap) × ((q : ℕ) → known v' q ≡ assoc xs q (known v q))
unfolding put_tables put_table
put_tables-known walk n [] ps t v e short le few free differ none_of = (t, refl, v, λ q. refl)
put_tables-known walk n ((va, pa) ∷ xs) [] t v e short le few free differ none_of =
    absurd (omega arith)
put_tables-known walk n ((va, pa) ∷ xs) (p ∷ ps) t v e short le few (real, out, apart, free)
      (other, differ) (unknown, none_of) =
    let new : Entry = record { addr = p; paddr = pa; vaddr = va } in
    let (h, v1, run, finds, chain, keeps) =
      pg_tbl_insert-known v p real out va pa true walk (λ c lt. omega (arith, short c lt)) in
    let t1 = with_pages (record t.pages { hashmap = h; fresh = ps }) t in
    let (u, rest, v', finds') =
      put_tables-known walk (suc n) xs ps t1 v1 refl
        (λ c lt. rw chain (length-longer v.chain new unknown n short c lt)) (omega arith)
        (omega arith) (Unused-frame t.pages.hashmap.nodes h.nodes p ps keeps apart free) differ
        (rw chain (NoneOf-longer v.chain new unknown xs other none_of)) in
    (
      u,
      rw (e, put_enters v walk p va pa ∙ run) rest,
      v',
      λ q.
          finds' q
          ∙ assoc-next q va pa xs _ _ other
              (finds q ∙ rw (heads_with-IsUnknown pa (v.chain (pa % 20)) unknown)),
    )

-- A page table map without entries.
empty-Chain : (h : Store) (c : ℕ) → Chain h (get_or (replicate 20 0) c 0) []
empty-Chain h c = get_or-replicate {A = ℕ} 20 c 0

NoneOf-empty : (xs : List (ℕ × ℕ)) → NoneOf (λ c. []) xs
NoneOf-empty [] = tt
NoneOf-empty ((va, pa) ∷ xs) = (tt, NoneOf-empty xs)

init-IsMap : (m : Hashmap) → m.tables ≡ 0 → IsMap (init m)
unfolding init
init-IsMap m none_freed = record {
  buckets = replicate 20 0;
  ready = refl;
  size = length-replicate {A = ℕ} 20 0;
  chain = λ c. [];
  freed = [];
  linked = λ c lt. empty-Chain m.nodes c;
  distinct = λ c lt. tt;
  hashed = λ c lt. tt;
  free_linked = none_freed;
  apart = λ c lt a i. refl;
}

-- With no freed tables, enough new nodes and fuel, and different physical addresses, the start of
-- `vmm_init` is free of undefined behaviour, and leaves a map of the invariant. Each of the tables is
-- known at its virtual address, and no other physical address is known.
pub init_tables-known :
    (walk : ℕ) (xs : List (ℕ × ℕ)) (t : Memory)
    → t.pages.hashmap.tables ≡ 0
    → length xs ≤ walk
    → length xs ≤ length t.pages.fresh
    → Unused t.pages.hashmap.nodes t.pages.fresh
    → Differ xs
    → (u : Memory) × (init_tables walk xs t ≡ some u)
      × (v : IsMap u.pages.hashmap) × ((q : ℕ) → known v q ≡ assoc xs q 0)
unfolding init_tables init init-IsMap find
init_tables-known walk xs t none_freed le few free differ =
    put_tables-known walk 1 xs t.pages.fresh
      (with_pages (record t.pages { hashmap = init t.pages.hashmap }) t)
      (init-IsMap t.pages.hashmap none_freed) refl (λ c lt. omega arith) (omega arith) few free
      differ (NoneOf-empty xs)
