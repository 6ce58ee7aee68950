-- ===== src/Locks/Exclusion.antt =====
-- Which threads are between `acquire` and `release`, and what a thread in the loop waits for.
use titan_os.Base.{
  ℕ, ◌≡◌, ◌≢◌, refl, sym, ◌∙◌, ap, true, false, ==_ne, ==_self, Bool-cases, ◌⊎◌, inl, inr,
}
use native.Mathlib.Decide.{ℕ_discrete}
use titan_os.Locks.{
  Place, Lock, put, test_and_set, acquire_round, release, Step, calls, rounds, releases, Reach,
  here, next, unused,
}

-- The lock is set exactly when one thread is inside, and then only that one.
pub record IsExclusive (s : Lock) : Type 0 where
  pub free : s.locked ≡ false → (t : ℕ) → s.place t ≢ Place.inside
  pub held :
      s.locked ≡ true
      → (t : ℕ) × (s.place t ≡ Place.inside) × ((u : ℕ) → s.place u ≡ Place.inside → u ≡ t)

put_self : (t : ℕ) (p : Place) (place : ℕ → Place) → put t p place t ≡ p
unfolding put
put_self t p place = rw (==_self t)

put_other : (t u : ℕ) (p : Place) (place : ℕ → Place) → u ≢ t → put t p place u ≡ place u
unfolding put
put_other t u p place ne = rw (==_ne u t ne)

-- Whoever is inside after a thread has moved elsewhere was inside before.
put-inside :
    (t u : ℕ) (p : Place) (place : ℕ → Place)
    → p ≢ Place.inside
    → put t p place u ≡ Place.inside
    → (u ≢ t) × (place u ≡ Place.inside)
put-inside t u p place other at = elim (ℕ_discrete u t) [
  | yes e ↦ absurd (other (sym (put_self t p place) ∙ ap (put t p place) (sym e) ∙ at))
  | no ne ↦ (ne, sym (put_other t u p place ne) ∙ at)
]

-- A thread that is not inside stays out of it.
put-IsExclusive :
    (s : Lock) (t : ℕ) (p : Place)
    → s.place t ≢ Place.inside
    → p ≢ Place.inside
    → IsExclusive s
    → IsExclusive (record s { place = put t p s.place })
put-IsExclusive s t p out other i = record {
  free = λ e u at. i.free e u (put-inside t u p s.place other at).1;
  held = λ e.
      let (h, at, only) = i.held e in
      (
        h,
        put_other t h p s.place (λ same. out (ap s.place (sym same) ∙ at)) ∙ at,
        (λ u in_u. only u (put-inside t u p s.place other in_u).1),
      );
}

Step-IsExclusive : {s u : Lock} → Step s u → IsExclusive s → IsExclusive u
unfolding acquire_round release test_and_set
Step-IsExclusive (calls s t at) i = put-IsExclusive s t Place.spinning (λ e. cc) (λ e. cc) i
Step-IsExclusive (rounds s t at) i = elim (Bool-cases s.locked) [
  | inl e ↦
      let j = put-IsExclusive s t Place.spinning (λ e. cc) (λ e. cc) i in
      rw (e) (record { free = λ f. cc; held = λ f. j.held e })
  | inr e ↦ rw (e) (record {
    free = λ f. cc;
    held = λ f. (
      t,
      put_self t Place.inside s.place,
      (λ u in_u. elim (ℕ_discrete u t) [
        | yes same ↦ same
        | no ne ↦ absurd (i.free e u (sym (put_other t u Place.inside s.place ne) ∙ in_u))
      ]),
    );
  })
]
Step-IsExclusive (releases s t at) i = record {
  free = λ f u in_u.
      let (ne, was) = put-inside t u Place.outside s.place (λ e. cc) in_u in
      elim (Bool-cases s.locked) [
        | inl e ↦ let (h, _, only) = i.held e in ne (only u was ∙ sym (only t at))
        | inr e ↦ i.free e t at
      ];
  held = λ f. cc;
}

unused-IsExclusive : IsExclusive unused
unused-IsExclusive = record { free = λ e t at. cc; held = λ e. cc }

Reach-IsExclusive : {s u : Lock} → Reach s u → IsExclusive s → IsExclusive u
Reach-IsExclusive here i = i
Reach-IsExclusive (next r step) i = Step-IsExclusive step (Reach-IsExclusive r i)

-- In every state that the threads can reach from an unused lock, by steps in any order, two threads
-- that are between `acquire` and `release` are the same.
pub Reach-exclusive :
    (s : Lock) (t u : ℕ)
    → Reach unused s
    → s.place t ≡ Place.inside
    → s.place u ≡ Place.inside
    → t ≡ u
Reach-exclusive s t u reach in_t in_u =
    let i = Reach-IsExclusive reach unused-IsExclusive in
    elim (Bool-cases s.locked) [
      | inl e ↦ let (h, _, only) = i.held e in only t in_t ∙ sym (only u in_u)
      | inr e ↦ absurd (i.free e t in_t)
    ]

acquire_round-free :
    (s : Lock) (t : ℕ) → s.locked ≡ false → (acquire_round t s).place t ≡ Place.inside
unfolding acquire_round test_and_set
acquire_round-free s t e = rw (e) (put_self t Place.inside s.place)

acquire_round-held :
    (s : Lock) (t : ℕ) → s.locked ≡ true → (acquire_round t s).place t ≡ Place.spinning
unfolding acquire_round test_and_set
acquire_round-held s t e = rw (e) (put_self t Place.spinning s.place)

release-locked : (s : Lock) (t : ℕ) → (release t s).locked ≡ false
unfolding release
release-locked s t = refl

release_other : (s : Lock) (t u : ℕ) → u ≢ t → (release t s).place u ≡ s.place u
unfolding release
release_other s t u ne = put_other t u Place.outside s.place ne

inside_ne : Place.inside ≢ Place.spinning
inside_ne e = cc

-- In every state that the threads can reach from an unused lock, with a thread in the loop of `acquire`,
-- the lock is either free, and the thread is inside after its next round; or another thread is inside,
-- the next round leaves the thread in the loop, and after a `release` by the one that is inside its next
-- round gets the lock.
pub Reach-acquires :
    (s : Lock) (t : ℕ)
    → Reach unused s
    → s.place t ≡ Place.spinning
    → ((s.locked ≡ false)
        × Step s (acquire_round t s)
        × ((acquire_round t s).place t ≡ Place.inside))
      ⊎ ((h : ℕ) × (h ≢ t)
          × (s.place h ≡ Place.inside)
          × ((acquire_round t s).place t ≡ Place.spinning)
          × Step s (release h s)
          × Step (release h s) (acquire_round t (release h s))
          × ((acquire_round t (release h s)).place t ≡ Place.inside))
Reach-acquires s t reach spins =
    let i = Reach-IsExclusive reach unused-IsExclusive in
    elim (Bool-cases s.locked) [
      | inl e ↦
          let (h, at, _) = i.held e in
          let apart : h ≢ t = λ same. inside_ne (sym at ∙ ap s.place same ∙ spins) in
          let still : (release h s).place t ≡ Place.spinning =
            release_other s h t (λ same. apart (sym same)) ∙ spins in
          inr (
            h,
            apart,
            at,
            acquire_round-held s t e,
            Step.releases s h at,
            Step.rounds (release h s) t still,
            acquire_round-free (release h s) t (release-locked s h),
          )
      | inr e ↦ inl (e, Step.rounds s t spins, acquire_round-free s t e)
    ]
