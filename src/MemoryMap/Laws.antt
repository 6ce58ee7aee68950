-- ===== src/MemoryMap/Laws.antt =====
-- What the memory map answers.
use titan_os.Base.{
  ℕ, zero, suc, ◌+◌, ◌≤◌, ◌≡◌, inl, inr, refl, ap, sym, ◌∙◌, Bool, true, false, ◌&&◌, ◌||◌, some,
  List, [], ◌∷◌, ◌++◌, ◌==◌, ltb-true, ltb-false, length, length-append, if◌then◌else◌, u64,
  Bool-cases, arith,
}
use titan_os.MemoryMap.{
  Entry, Lists, append, add_entries, max_loop, get_max_memory_addr, within, reserved_loop,
  check_region_reserved,
}
use mathlib.Core.Path.{subst}
use native.Mathlib.Decide.{dec_lt}

-- The entries of available memory, in their order, and the others.
abbrev pub available_of : List Entry → List Entry
available_of [] = []
available_of (e ∷ es) = if e.kind == 1 then e ∷ available_of es else available_of es

abbrev pub reserved_of : List Entry → List Entry
reserved_of [] = []
reserved_of (e ∷ es) = if e.kind == 1 then reserved_of es else e ∷ reserved_of es

append_assoc :
    (xs : List Entry) (e : Entry) (ys : List Entry) → (xs ++ (e ∷ [])) ++ ys ≡ xs ++ (e ∷ ys)
append_assoc [] e ys = refl
append_assoc (x ∷ xs) e ys = ap (λ t. x ∷ t) (append_assoc xs e ys)

append-nil : (xs : List Entry) → xs ++ [] ≡ xs
append-nil [] = refl
append-nil (x ∷ xs) = ap (λ t. x ∷ t) (append-nil xs)

-- When both lists have room for the entries of the tag, the loop of `mb2_mmap_init` is defined, and
-- puts the entries of available memory behind the one list and the others behind the other, in order.
pub add_entries-of :
    (es : List Entry) (l : Lists)
    → length l.available + length (available_of es) ≤ 20
    → length l.reserved + length (reserved_of es) ≤ 20
    → add_entries es l
      ≡ some (record {
        available = l.available ++ available_of es;
        reserved = l.reserved ++ reserved_of es;
      })
unfolding add_entries append
add_entries-of [] l p q = rw (append-nil l.available, append-nil l.reserved)
add_entries-of (e ∷ es) l p q = elim (Bool-cases (e.kind == 1)) [
  | inl is ↦
      let a : length (available_of (e ∷ es)) ≡ suc (length (available_of es)) = rw is in
      let r : length (reserved_of (e ∷ es)) ≡ length (reserved_of es) = rw is in
      let n : length (l.available ++ (e ∷ [])) ≡ length l.available + 1 =
        length-append l.available (e ∷ []) in
      rw (is, ltb-true (length l.available) 20 (omega (arith, a)))
        (add_entries-of es (record l { available = l.available ++ (e ∷ []) }) (omega (arith, a, n))
            (omega (arith, r))
          ∙ rw (append_assoc l.available e (available_of es)))
  | inr is ↦
      let a : length (available_of (e ∷ es)) ≡ length (available_of es) = rw is in
      let r : length (reserved_of (e ∷ es)) ≡ suc (length (reserved_of es)) = rw is in
      let n : length (l.reserved ++ (e ∷ [])) ≡ length l.reserved + 1 =
        length-append l.reserved (e ∷ []) in
      rw (is, ltb-true (length l.reserved) 20 (omega (arith, r)))
        (add_entries-of es (record l { reserved = l.reserved ++ (e ∷ []) }) (omega (arith, a))
            (omega (arith, r, n))
          ∙ rw (append_assoc l.reserved e (reserved_of es)))
]

-- The end of an entry.
abbrev pub end_of : Entry → ℕ
end_of e = u64 (e.addr + e.len)

-- Every entry ends at `m` or before it.
pub Below : ℕ → List Entry → Type 0
Below m [] = Unit
Below m (e ∷ es) = (end_of e ≤ m) × Below m es

max_loop-Below : (es : List Entry) (m : ℕ) → (m ≤ max_loop es m) × Below (max_loop es m) es
unfolding max_loop Below
max_loop-Below [] m = (omega arith, tt)
max_loop-Below (e ∷ es) m = elim (dec_lt m (end_of e)) [
  | yes lt ↦
      let (le, b) = max_loop-Below es (end_of e) in
      let step : max_loop (e ∷ es) m ≡ max_loop es (end_of e) = rw (ltb-true m (end_of e) lt) in
      subst (λ x. (m ≤ x) × ((end_of e ≤ x) × Below x es)) (sym step) (omega arith, (le, b))
  | no ge ↦
      let (le, b) = max_loop-Below es m in
      let step : max_loop (e ∷ es) m ≡ max_loop es m = rw (ltb-false m (end_of e) (omega arith)) in
      subst (λ x. (m ≤ x) × ((end_of e ≤ x) × Below x es)) (sym step) (le, (omega arith, b))
]

Below-mono : (es : List Entry) {m m' : ℕ} → m ≤ m' → Below m es → Below m' es
unfolding Below
Below-mono [] le b = tt
Below-mono (e ∷ es) le (b, bs) = (omega arith, Below-mono es le bs)

-- `get_max_memory_addr` gives an address at or behind the end of every entry of both lists.
pub get_max_memory_addr-Below :
    (l : Lists)
    → Below (get_max_memory_addr l) l.available × Below (get_max_memory_addr l) l.reserved
unfolding get_max_memory_addr
get_max_memory_addr-Below l =
    let (_, first) = max_loop-Below l.available 0 in
    let (le, second) = max_loop-Below l.reserved (max_loop l.available 0) in
    (Below-mono l.available le first, second)

loop_false :
    (left : ℕ) (e : Entry) (start len : ℕ)
    → within start e.addr len e.len ≡ false
    → reserved_loop left e start len ≡ false
unfolding reserved_loop
loop_false zero e start len is = refl
loop_false (suc left) e start len is = rw is (loop_false left e start len is)

loop_lem :
    (left : ℕ) (e : Entry) (start len : ℕ)
    → reserved_loop (suc left) e start len ≡ within start e.addr len e.len
unfolding reserved_loop
loop_lem left e start len = elim (Bool-cases (within start e.addr len e.len)) [
  | inl is ↦ rw is
  | inr is ↦ rw is (loop_false left e start len is)
]

and_false : (a b : Bool) → ((a && false) || (b && false)) ≡ false
and_false true true = refl
and_false true false = refl
and_false false true = refl
and_false false false = refl

-- `check_region_reserved` looks at the first reserved entry only: for the others it answers as if they
-- were not there, and a region that starts where the first entry starts is never reserved.
pub check_region_reserved-first :
    (start len : ℕ) (e : Entry) (es av : List Entry)
    → (check_region_reserved start len (record { available = av; reserved = e ∷ es })
        ≡ within start e.addr len e.len)
      × (start ≡ e.addr
          → check_region_reserved start len (record { available = av; reserved = e ∷ es }) ≡ false)
unfolding check_region_reserved within
check_region_reserved-first start len e es av = (
  loop_lem (length es) e start len,
  λ at.
      loop_lem (length es) e start len
      ∙ rw (at, ltb-false e.addr e.addr (omega arith)) (and_false _ _),
)
