-- ===== src/Resources/Laws.antt =====
-- Handles and the resources behind them.
use titan_os.Base.{
  some_injective, ℕ, zero, suc, ◌+◌, ◌<◌, ◌≤◌, ◌≡◌, ◌≢◌, ◌⊎◌, inl, inr, refl, ap, sym, ◌∙◌, false,
  Option, none, some, List, ltb-true, get_elem?, get_or, get_elem?-eq-get_or, get_elem?-set_self,
  get_elem?-set_ne, get_elem?-none, length, length-set, set, Option-cases, arith,
}
use mathlib.Core.Path.{subst}
use native.Mathlib.Decide.{ℕ_discrete}
use titan_os.Resources.{
  Resource, ResourceType, get_resource, remove_resource, register_loop, register_resource,
  register_file_resource,
}

-- `register_loop` from `handle` on, at a table with a place for each round.
register_loop_lem :
    (left handle : ℕ) (table : List (Option Resource)) (r : Resource)
    → handle + left ≤ length table
    → ((register_loop left handle table r ≡ some (none, table))
        × ((k : ℕ) → handle ≤ k → k < handle + left → get_elem? table k ≢ some none))
      ⊎ ((k : ℕ) × (handle ≤ k)
          × (k < handle + left)
          × (register_loop left handle table r ≡ some (some k, set table k (some r)))
          × (get_elem? table k ≡ some none)
          × ((j : ℕ) → handle ≤ j → j < k → get_elem? table j ≢ some none))
unfolding register_loop
register_loop_lem zero handle table r le = inl (refl, (λ k p q. absurd (omega arith)))
register_loop_lem (suc left) handle table r le =
    let at = get_elem?-eq-get_or table handle none (omega arith) in
    elim (Option-cases (get_or table handle none)) [
      | inl free ↦ inr (
        handle,
        omega arith,
        omega arith,
        rw (at, free),
        at ∙ ap some free,
        (λ j p q. absurd (omega arith)),
      )
      | inr (old, taken) ↦
          let used : get_elem? table handle ≢ some none = λ e. cc in
          elim (register_loop_lem left (handle + 1) table r (omega arith)) [
            | inl (e, full) ↦ inl (
              rw (at, taken, e),
              (λ k p q. elim (ℕ_discrete k handle) [
                | yes s ↦ subst (λ x. get_elem? table x ≢ some none) (sym s) used
                | no ne ↦ full k (omega arith) (omega arith)
              ]),
            )
            | inr (k, p, q, e, free, first) ↦ inr (
              k,
              omega arith,
              omega arith,
              rw (at, taken, e),
              free,
              (λ j p' q'. elim (ℕ_discrete j handle) [
                | yes s ↦ subst (λ x. get_elem? table x ≢ some none) (sym s) used
                | no ne ↦ first j (omega arith) q'
              ]),
            )
          ]
    ]

-- `register_resource` on a table of 5 places is defined. It fills the first free place, whose handle it
-- returns and at which `get_resource` then finds the resource, and leaves the other places; or no place
-- is free, and it returns -1 and changes nothing.
pub register_resource-first_free :
    (table : List (Option Resource)) (r : Resource)
    → length table ≡ 5
    → ((register_resource table r ≡ some (none, table))
        × ((k : ℕ) → k < 5 → get_elem? table k ≢ some none))
      ⊎ ((k : ℕ) × (table' : List (Option Resource)) × (k < 5)
          × (register_resource table r ≡ some (some k, table'))
          × (get_resource table' k ≡ some (some r))
          × (get_elem? table k ≡ some none)
          × ((j : ℕ) → j < k → get_elem? table j ≢ some none)
          × ((j : ℕ) → j ≢ k → get_elem? table' j ≡ get_elem? table j)
          × (length table' ≡ 5))
unfolding register_resource get_resource
register_resource-first_free table r size = elim (register_loop_lem 5 0 table r (omega arith)) [
  | inl (e, full) ↦ inl (e, (λ k lt. full k (omega arith) (omega arith)))
  | inr (k, _, lt, e, free, first) ↦ inr (
    k,
    set table k (some r),
    omega arith,
    e,
    rw (ltb-true k 100 (omega arith)) (get_elem?-set_self table k (some r) (omega arith)),
    free,
    (λ j p. first j (omega arith) p),
    (λ j ne. get_elem?-set_ne table k j (some r) (λ s. ne (sym s))),
    length-set table k (some r) ∙ size,
  )
]

-- A handle from 5 to 99 passes the test of `get_resource`, and the read of the table is out of range.
pub get_resource_beyond :
    (table : List (Option Resource)) (handle : ℕ)
    → length table ≡ 5
    → 5 ≤ handle
    → handle < 100
    → (get_resource table handle ≡ none) × (remove_resource table handle ≡ none)
unfolding get_resource remove_resource
get_resource_beyond table handle size low high =
    let out = get_elem?-none table handle (omega arith) in
    (rw (ltb-true handle 100 high) out, rw (ltb-true handle 100 high, out))

-- The resource that `register_file_resource` registers.
abbrev pub file_resource : ℕ → ℕ → Resource
file_resource opened read_at = record {
  kind = ResourceType.file;
  internal_handle = opened;
  read = read_at;
  write = 0;
  open_with = 0;
  close_with = 0;
}

pub register_file_resource-first_free :
    (opened read_at : ℕ) (table : List (Option Resource))
    → length table ≡ 5
    → ((register_file_resource opened read_at table ≡ some (none, table))
        × ((k : ℕ) → k < 5 → get_elem? table k ≢ some none))
      ⊎ ((k : ℕ) × (table' : List (Option Resource)) × (k < 5)
          × (register_file_resource opened read_at table ≡ some (some k, table'))
          × (get_elem? table k ≡ some none)
          × ((j : ℕ) → j < k → get_elem? table j ≢ some none)
          × (get_elem? table' k ≡ some (some (file_resource opened read_at))))
unfolding register_file_resource get_resource
register_file_resource-first_free opened read_at table size =
    elim (register_resource-first_free table (file_resource opened read_at) size) [
      | inl full ↦ inl full
      | inr (k, table', lt, run, at, free, first, _, _) ↦
          let reads : get_resource table' k ≡ get_elem? table' k =
            rw (get_resource, ltb-true k 100 (omega arith)) in
          inr (k, table', lt, run, free, first, sym reads ∙ at)
    ]

-- A file that `register_file_resource` put into a table of 5 places is never removed again:
-- `remove_resource` of its handle answers false and leaves the table.
pub remove_resource-register_file_resource :
    (opened read_at k : ℕ) (table table' : List (Option Resource))
    → length table ≡ 5
    → register_file_resource opened read_at table ≡ some (some k, table')
    → remove_resource table' k ≡ some (false, table')
unfolding register_file_resource remove_resource
remove_resource-register_file_resource opened read_at k table table' size run =
    elim (register_resource-first_free table (file_resource opened read_at) size) [
      | inl (e, _) ↦ cc
      | inr (k', new, _, e, get, _, _, _, _) ↦
          let same : (some k', new) ≡ (some k, table') = some_injective (sym e ∙ run) in
          let handle : k' ≡ k =
            some_injective (ap (λ (x : Option ℕ × List (Option Resource)). x.0) same) in
          let list : new ≡ table' = ap (λ (x : Option ℕ × List (Option Resource)). x.1) same in
          let found : get_resource table' k ≡ some (some (file_resource opened read_at)) =
            subst (λ x. get_resource table' x ≡ some (some (file_resource opened read_at))) handle
              (subst (λ x. get_resource x k' ≡ some (some (file_resource opened read_at))) list
                get) in
          rw found
    ]
