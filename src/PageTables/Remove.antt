-- ===== src/PageTables/Remove.antt =====
-- The walk of `vmm_hashmap_remove`: it unlinks the first node behind the head with the address, and puts
-- it on the list of freed nodes. The head is not looked at.
use titan_os.Base.{
  ℕ, zero, suc, ◌<◌, ◌≡◌, ◌≢◌, refl, true, false, some, List, [], ◌∷◌, ◌++◌, arith, ◌==◌,
  if◌then◌else◌, length,
}
use mathlib.Core.Path.{sym, ◌∙◌}
use native.Mathlib.Decide.{ℕ_discrete}
use titan_os.PageTables.{Ptr, Node, Store, write, remove_walk}
use titan_os.PageTables.Chain.{Entry, Chain, has, Distinct, SameOutside, Chain-write}
use titan_os.PageTables.Insert.{knows}

unfoldable pub drop_first : ℕ → List Entry → List Entry
drop_first paddr [] = []
drop_first paddr (e ∷ xs) = if e.paddr == paddr then xs else e ∷ drop_first paddr xs

unfoldable pub first_match : ℕ → List Entry → List Entry
first_match paddr [] = []
first_match paddr (e ∷ xs) = if e.paddr == paddr then e ∷ [] else first_match paddr xs

drop_first-miss :
    (p : ℕ) (f : Entry) (ys : List Entry)
    → f.paddr ≢ p
    → drop_first p (f ∷ ys) ≡ f ∷ drop_first p ys
unfolding drop_first
drop_first-miss p f ys e = ground arith

drop_first-hit : (p : ℕ) (f : Entry) (ys : List Entry) → f.paddr ≡ p → drop_first p (f ∷ ys) ≡ ys
unfolding drop_first
drop_first-hit p f ys e = ground arith

first_match-miss :
    (p : ℕ) (f : Entry) (ys : List Entry) → f.paddr ≢ p → first_match p (f ∷ ys) ≡ first_match p ys
unfolding first_match
first_match-miss p f ys e = ground arith

first_match-hit :
    (p : ℕ) (f : Entry) (ys : List Entry) → f.paddr ≡ p → first_match p (f ∷ ys) ≡ f ∷ []
unfolding first_match
first_match-hit p f ys e = ground arith

module _ (h : Store) (paddr : ℕ) (tables : Ptr) (freed : List Entry)
    (free_chain : Chain h tables freed) where
  pub remove_walk-drop_first :
      (fuel : ℕ) (cur : Ptr) (e : Entry) (xs : List Entry)
      → length xs < fuel
      → Chain h cur (e ∷ xs)
      → Distinct (e ∷ xs)
      → ((a : Ptr) → has a (e ∷ xs) ≡ true → has a freed ≡ false)
      → (t : Ptr) × (h' : Store) × (remove_walk fuel cur paddr tables h
          ≡ some (knows paddr xs, t, h'))
        × Chain h' cur (e ∷ drop_first paddr xs)
        × Chain h' t (first_match paddr xs ++ freed)
        × SameOutside (e ∷ xs) h h'
  unfolding remove_walk knows
  remove_walk-drop_first zero cur e xs lt c d o = absurd (omega arith)
  remove_walk-drop_first (suc fuel) cur e [] lt (a, b, n, i, j, k, stop) d o = (
    tables,
    h,
    ground arith,
    unfold drop_first in (a, b, n, i, j, k, stop),
    unfold first_match in free_chain,
    λ q o'. refl,
  )
  remove_walk-drop_first (suc fuel) cur e (f ∷ ys) lt
        (a, b, n, i, j, k, (a', b', s, i', j', k', rest)) d o =
      elim (ℕ_discrete s.pt_paddr paddr) [
        | yes hit ↦
            let cur' : Node = record n { next = s.next } in
            let mid : Store = write h cur cur' in
            let gone : Node = record s { next = tables } in
            let out : has n.next ys ≡ false = rw a' d.1.0 in
            let out' : has cur ys ≡ false = ground arith in
            let ne : cur ≢ n.next = ground arith in
            (
              n.next,
              write mid n.next gone,
              ground arith,
              rw (drop_first-hit paddr f ys (sym j' ∙ hit)) (
                a,
                b,
                cur',
                ground arith,
                j,
                k,
                Chain-write mid s.next ys n.next gone out
                    (Chain-write h s.next ys cur cur' out' rest),
              ),
              rw (first_match-hit paddr f ys (sym j' ∙ hit)) (
                a',
                b',
                gone,
                ground arith,
                j',
                k',
                Chain-write mid tables freed n.next gone (o n.next (ground arith))
                    (Chain-write h tables freed cur cur' (o cur (ground arith)) free_chain),
              ),
              λ q o'. ground arith,
            )
        | no miss ↦
            let (t, h', run, c, fr, same) =
              remove_walk-drop_first fuel n.next f ys (omega arith) (a', b', s, i', j', k', rest)
                d.1 (λ q m. o q (ground arith)) in
            (
              t,
              h',
              ground arith,
              rw (drop_first-miss paddr f ys (λ z. miss (j' ∙ z)))
                  (a, b, n, ground (arith, same cur), j, k, c),
              rw (first_match-miss paddr f ys (λ z. miss (j' ∙ z))) fr,
              λ q o'. ground (arith, same q),
            )
      ]
