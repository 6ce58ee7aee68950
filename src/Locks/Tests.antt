-- ===== src/Locks/Tests.antt =====
-- Two threads at the lock.
use titan_os.Base.{◌⊎◌, ◌≢◌, false, ℕ, ◌≡◌, refl}
use titan_os.Locks.{
  Step, release, Place, Lock, put, test_and_set, acquire_round, Reach, here, next, calls, rounds,
  unused,
}
use titan_os.Locks.Exclusion.{Reach-exclusive, Reach-acquires}

abbrev called : Lock
called = record unused { place = put 1 Place.spinning unused.place }

-- Thread 1 has the lock, and thread 2 is in the loop.
abbrev taken : Lock
taken = acquire_round 1 called

abbrev contended : Lock
contended = record taken { place = put 2 Place.spinning taken.place }

contended-Reach : Reach unused contended
unfolding put acquire_round test_and_set
contended-Reach =
    next (next (next here (calls unused 1 refl)) (rounds called 1 refl)) (calls taken 2 refl)

inside_1 : contended.place 1 ≡ Place.inside
unfolding put acquire_round test_and_set
inside_1 = refl

spinning_2 : contended.place 2 ≡ Place.spinning
unfolding put acquire_round test_and_set
spinning_2 = refl

Reach-exclusive_example : ◌≡◌ {A = ℕ} 1 1
Reach-exclusive_example = Reach-exclusive contended 1 1 contended-Reach inside_1 inside_1

Reach-acquires_example :
    ((contended.locked ≡ false)
      × Step contended (acquire_round 2 contended)
      × ((acquire_round 2 contended).place 2 ≡ Place.inside))
    ⊎ ((h : ℕ) × (h ≢ 2)
        × (contended.place h ≡ Place.inside)
        × ((acquire_round 2 contended).place 2 ≡ Place.spinning)
        × Step contended (release h contended)
        × Step (release h contended) (acquire_round 2 (release h contended))
        × ((acquire_round 2 (release h contended)).place 2 ≡ Place.inside))
Reach-acquires_example = Reach-acquires contended 2 contended-Reach spinning_2
