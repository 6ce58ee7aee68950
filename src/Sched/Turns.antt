-- ===== src/Sched/Turns.antt =====
-- How long a thread waits for its turn.
use titan_os.Base.{
  ℕ, zero, suc, ◌+◌, ◌%◌, ◌<◌, ◌≤◌, ◌-◌, ◌≡◌, refl, sym, Option, some, List, length,
  lt_of_get_elem?, ◌>>=◌, arith,
}
use titan_os.Cpu.Interrupts.{Context}
use titan_os.Sched.{Sched, schedule}
use native.Mathlib.Decide.{dec_le}
use native.Mathlib.Nat.{mod-eq_of_lt, mod_self}
use mathlib.Core.Path.{subst}
use titan_os.Sched.Schedule.{Ring, At, schedule-Ring}

-- Calls of `schedule`, each with the context that the call before returned.
pub schedule_times : ℕ → ℕ → Context → Sched → Option (Context × Sched)
schedule_times zero fuel c s = some (c, s)
schedule_times (suc n) fuel c s = schedule fuel c s >>= λ (c', s'). schedule_times n fuel c' s'

zero_add : (k : ℕ) → 0 + k ≡ k
zero_add k = omega arith

suc_add : (n k : ℕ) → suc (n + k) ≡ suc n + k
suc_add n k = omega arith

wraps : (j n : ℕ) → j + 1 ≡ n → (j + 1) % n ≡ 0
wraps j n e = rw e (mod_self n)

add_zero : (j : ℕ) → j + 0 ≡ j
add_zero j = omega arith

add_suc : (j n : ℕ) → j + 1 + n ≡ j + suc n
add_suc j n = omega arith

-- A number of calls that lead from index `j` to index `k`.
abbrev Reaches : List (ℕ × ℕ) → ℕ → ℕ → ℕ → Context → Sched → Type 0
Reaches order n k fuel c s =
    (c' : Context) × (s' : Sched) × (schedule_times n fuel c s ≡ some (c', s'))
    × Ring order s'
    × At order k s'

one_more :
    {order : List (ℕ × ℕ)} {s : Sched} (j k n fuel : ℕ) (c : Context)
    → Ring order s
    → At order j s
    → ((c' : Context) (s' : Sched)
        → Ring order s'
        → At order ((j + 1) % length order) s'
        → Reaches order n k fuel c' s')
    → Reaches order (suc n) k fuel c s
unfolding schedule_times
one_more j k n fuel c r at next =
    let (c1, s1, _, e, r1, at1, _, _, _) = schedule-Ring j fuel c r at in
    let (c2, s2, e2, r2, at2) = next c1 s1 r1 at1 in (c2, s2, rw e e2, r2, at2)

forward :
    {order : List (ℕ × ℕ)} {s : Sched} (n j fuel : ℕ) (c : Context)
    → Ring order s
    → At order j s
    → j + n < length order
    → Reaches order n (j + n) fuel c s
unfolding schedule_times
forward {order} {s} zero j fuel c r at lt =
    (c, s, refl, r, subst (λ i. At order i s) (sym (add_zero j)) at)
forward {order} (suc n) j fuel c r at lt = one_more j (j + suc n) n fuel c r at (λ c' s' r' at'.
    let at2 = subst (λ i. At order i s') (mod-eq_of_lt (omega arith)) at' in
    subst (λ i. Reaches order n i fuel c' s') (add_suc j n)
      (forward n (j + 1) fuel c' r' at2 (omega arith)))

around :
    {order : List (ℕ × ℕ)} {s : Sched} (n j k fuel : ℕ) (c : Context)
    → Ring order s
    → At order j s
    → j + n + 1 ≡ length order
    → k < length order
    → Reaches order (suc (n + k)) k fuel c s
around {order} {s} zero j k fuel c r at e lt =
    subst (λ m. Reaches order (suc m) k fuel c s) (sym (zero_add k))
      (one_more j k k fuel c r at (λ c' s' r' at'.
        subst (λ i. Reaches order k i fuel c' s') (zero_add k)
          (forward k 0 fuel c' r'
            (subst (λ i. At order i s') (wraps j (length order) (omega arith)) at') (omega arith))))
around {order} {s} (suc n) j k fuel c r at e lt =
    subst (λ m. Reaches order (suc m) k fuel c s) (suc_add n k)
      (one_more j k (suc (n + k)) fuel c r at (λ c' s' r' at'.
        around n (j + 1) k fuel c' r' (subst (λ i. At order i s') (mod-eq_of_lt (omega arith)) at')
          (omega arith) lt))

-- From the thread at index `j` of a ring of live threads, the thread at any index `k` runs after a
-- number of calls of `schedule` that is at most the length of the ring: no thread waits for ever.
pub schedule_times-reaches :
    {order : List (ℕ × ℕ)} {s : Sched} (j k fuel : ℕ) (c : Context)
    → Ring order s
    → At order j s
    → k < length order
    → (n : ℕ) × (n ≤ length order)
      × (c' : Context) × (s' : Sched) × (schedule_times n fuel c s ≡ some (c', s'))
      × At order k s'
schedule_times-reaches {order} {s} j k fuel c r at lt = elim (dec_le j k) [
  | yes le ↦
      let (c', s', e, _, at') = forward (k - j) j fuel c r at (omega arith) in
      (k - j, omega arith, c', s', e, subst (λ i. At order i s') (omega arith) at')
  | no gt ↦
      let n = length order - 1 - j in
      let (c', s', e, _, at') =
        around n j k fuel c r at (omega (arith, lt_of_get_elem? order j at)) lt in
      (suc (n + k), omega (arith, lt_of_get_elem? order j at), c', s', e, at')
]
