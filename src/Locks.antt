-- ===== src/Locks.antt =====
-- The spin lock, src/kernel/sched/locks.c. The two operations of the compiler are atomic; threads take
-- their steps in any order.
pub mod Exclusion
mod Tests
use titan_os.Base.{ℕ, ◌≡◌, Bool, true, false, ◌==◌, if◌then◌else◌}

-- `__atomic_test_and_set`: the old value, and the new one. `__atomic_clear` writes false.
pub test_and_set : Bool → Bool × Bool
test_and_set locked = (locked, true)

-- Where a thread is: it does not use the lock, it is in the loop of `acquire`, or it has returned from
-- `acquire` and not yet called `release`.
pub data Place : Type 0 where
  outside : Place
  spinning : Place
  inside : Place

-- `spinlock_t`, and the places of the threads.
pub record Lock : Type 0 where
  pub locked : Bool
  pub place : ℕ → Place

pub put : ℕ → Place → (ℕ → Place) → ℕ → Place
put t p place u = if u == t then p else place u

-- One round of the loop of `acquire` by the thread `t`.
pub acquire_round : ℕ → Lock → Lock
acquire_round t s =
    let (old, new) = test_and_set s.locked in
    record { locked = new; place = put t (if old then Place.spinning else Place.inside) s.place }

pub release : ℕ → Lock → Lock
release t s = record { locked = false; place = put t Place.outside s.place }

-- The steps of the threads.
pub data Step : Lock → Lock → Type 0 where
  calls :
      (s : Lock) (t : ℕ)
      → s.place t ≡ Place.outside
      → Step s (record s { place = put t Place.spinning s.place })
  rounds : (s : Lock) (t : ℕ) → s.place t ≡ Place.spinning → Step s (acquire_round t s)
  releases : (s : Lock) (t : ℕ) → s.place t ≡ Place.inside → Step s (release t s)

pub data Reach (s : Lock) : Lock → Type 0 where
  here : Reach s s
  next : {t u : Lock} → Reach s t → Step t u → Reach s u

-- No thread uses the lock.
abbrev pub unused : Lock
unused = record { locked = false; place = λ t. Place.outside }
