-- ===== src/PageTables/Insert.antt =====
-- The walk of `pg_tbl_insert`: it overwrites the virtual address of a later node with the same physical
-- address, or links the new node in at the end. The first node is not looked at.
use titan_os.Base.{
  ℕ, zero, suc, ◌<◌, ◌≡◌, ◌≢◌, refl, Bool, false, not, ◌||◌, some, List, [], ◌∷◌, ◌++◌, arith, ◌==◌,
  if◌then◌else◌, length,
}
use mathlib.Core.Path.{sym, ◌∙◌}
use native.Mathlib.Decide.{ℕ_discrete}
use titan_os.PageTables.{Ptr, Node, Store, write, insert_walk}
use titan_os.PageTables.Chain.{Entry, Chain, has, Distinct, SameOutside, Chain-write}

unfoldable pub knows : ℕ → List Entry → Bool
knows paddr [] = false
knows paddr (e ∷ xs) = (e.paddr == paddr) || knows paddr xs

unfoldable pub update_first : ℕ → ℕ → List Entry → List Entry
update_first paddr vaddr [] = []
update_first paddr vaddr (e ∷ xs) =
    if e.paddr == paddr then record e { vaddr = vaddr } ∷ xs else e ∷ update_first paddr vaddr xs

-- What becomes of the entries behind the first.
unfoldable pub put_rest : Entry → List Entry → List Entry
put_rest new xs =
    if knows new.paddr xs then update_first new.paddr new.vaddr xs else xs ++ (new ∷ [])

abbrev pub entry : Ptr → Node → Entry
entry t n = record { addr = t; paddr = n.pt_paddr; vaddr = n.pt_vaddr }

put_rest-hit :
    (new f : Entry) (ys : List Entry)
    → f.paddr ≡ new.paddr
    → put_rest new (f ∷ ys) ≡ record f { vaddr = new.vaddr } ∷ ys
unfolding put_rest knows update_first
put_rest-hit new f ys e = ground arith

put_rest-miss :
    (new f : Entry) (ys : List Entry)
    → f.paddr ≢ new.paddr
    → put_rest new (f ∷ ys) ≡ f ∷ put_rest new ys
unfolding put_rest knows update_first
put_rest-miss new f ys e = ground arith

module _ {h : Store} {t : Ptr} {tn : Node} (there : h t ≡ some tn) (alone : tn.next ≡ 0)
    (real : t ≢ 0) where
  pub insert_walk-put_rest :
      (fuel : ℕ) (cur : Ptr) (e : Entry) (xs : List Entry)
      → length xs < fuel
      → Chain h cur (e ∷ xs)
      → Distinct (e ∷ xs)
      → has t (e ∷ xs) ≡ false
      → (h' : Store) × (insert_walk fuel cur t h ≡ some (not (knows tn.pt_paddr xs), h'))
        × Chain h' cur (e ∷ put_rest (entry t tn) xs)
        × SameOutside (e ∷ xs) h h'
  unfolding insert_walk put_rest knows update_first
  insert_walk-put_rest zero cur e xs lt c d o = absurd (omega arith)
  insert_walk-put_rest (suc fuel) cur e [] lt (a, b, n, i, j, k, stop) d o = (
    write h cur (record n { next = t }),
    ground arith,
    (
      a,
      b,
      record n { next = t },
      ground arith,
      j,
      k,
      (refl, real, tn, ground arith, refl, refl, alone),
    ),
    λ q out. ground arith,
  )
  insert_walk-put_rest (suc fuel) cur e (f ∷ ys) lt
        (a, b, n, i, j, k, (a', b', s, i', j', k', rest)) d o =
      elim (ℕ_discrete s.pt_paddr tn.pt_paddr) [
        | yes hit ↦
            let new : Node = record s { pt_vaddr = tn.pt_vaddr } in
            let out : has n.next ys ≡ false = rw a' d.1.0 in
            (
              write h n.next new,
              ground arith,
              rw (put_rest-hit (entry t tn) f ys (sym j' ∙ hit)) (
                a,
                b,
                n,
                ground arith,
                j,
                k,
                (a', b', new, ground arith, j', refl, Chain-write h s.next ys n.next new out rest),
              ),
              λ q o'. ground arith,
            )
        | no miss ↦
            let (h', run, c, same) =
              insert_walk-put_rest fuel n.next f ys (omega arith) (a', b', s, i', j', k', rest) d.1
                (ground arith) in
            (
              h',
              ground arith,
              rw (put_rest-miss (entry t tn) f ys (λ z. miss (j' ∙ z)))
                  (a, b, n, ground (arith, same cur), j, k, c),
              λ q o'. ground (arith, same q),
            )
      ]
