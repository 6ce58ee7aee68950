-- ===== src/Sched/Tests.antt =====
-- The scheduler on two processes, one of them with two threads.
use titan_os.Base.{
  ℕ, zero, suc, ◌≡◌, ◌≢◌, ◌≤◌, ◌%◌, ◌+◌, refl, true, Option, none, some, List, [], ◌∷◌, get_elem?,
  arith, inl, inr, ◌==◌, if◌then◌else◌,
}
use mathlib.Core.Path.{subst}
use titan_os.Cpu.Interrupts.{Context}
use titan_os.Sched.{Status, Thread, Process, Sched, schedule}
use titan_os.Sched.Schedule.{Ring, Follows, At, schedule-Ring}
use titan_os.Sched.Turns.{schedule_times, schedule_times-reaches}
use titan_os.Sched.Create.{new_context}

abbrev context : Context
context = new_context 5 6 7 0x1000 true

abbrev thread : ℕ → Status → ℕ → Thread
thread parent status next = record {
  tid = 0;
  parent = parent;
  context = context;
  stack = 0;
  status = status;
  next = next;
}

-- Process 10 has the threads 20 and 21, process 11 has 22, and the idle process 9 has 19.
abbrev thread_at : ℕ → Option Thread
thread_at q =
    if q == 19
    then some (thread 9 Status.ready 0)
    else if q == 20
    then some (thread 10 Status.ready 21)
    else if q == 21
    then some (thread 10 Status.running 0)
    else if q == 22
    then some (thread 11 Status.ready 0)
    else none

abbrev process_at : ℕ → Option Process
process_at q =
    if q == 9
    then some (record { pid = 0; threads = 19; next = 0 })
    else if q == 10
    then some (record { pid = 1; threads = 20; next = 11 })
    else if q == 11
    then some (record { pid = 2; threads = 22; next = 0 })
    else none

abbrev queue : Sched
queue = record {
  thread_at = thread_at;
  process_at = process_at;
  idle_proc = 9;
  head_proc = 10;
  current_process = 10;
  current_thread = 21;
}

abbrev order : List (ℕ × ℕ)
order = (10, 20) ∷ (10, 21) ∷ (11, 22) ∷ []

queue-Ring : Ring order queue
queue-Ring = record {
  idle = record { pid = 0; threads = 19; next = 0 };
  idle_at = refl;
  head = omega arith;
  follows = follows;
}
  where
    pair_p : ℕ × ℕ → ℕ
    pair_p x = x.0

    pair_t : ℕ × ℕ → ℕ
    pair_t x = x.1

    some_injective : {A : Type 0} {a b : A} → some a ≡ some b → a ≡ b
    some_injective e = cc

    ready_alive : Status.ready ≢ Status.dead
    ready_alive e = cc

    running_alive : Status.running ≢ Status.dead
    running_alive e = cc

    follows :
        (j p t : ℕ)
        → get_elem? order j ≡ some (p, t)
        → Follows queue p t (get_elem? order ((j + 1) % 3))
    follows zero p t e =
        subst (λ x. Follows queue (pair_p x) (pair_t x) (some (10, 21))) (some_injective e)
          (record {
            thread = thread 10 Status.ready 21;
            at = refl;
            alive = ready_alive;
            linked = inl ((omega arith), refl);
          })
    follows (suc zero) p t e =
        subst (λ x. Follows queue (pair_p x) (pair_t x) (some (11, 22))) (some_injective e)
          (record {
            thread = thread 10 Status.running 0;
            at = refl;
            alive = running_alive;
            linked = inr (refl, _, _, refl, refl, refl);
          })
    follows (suc (suc zero)) p t e =
        subst (λ x. Follows queue (pair_p x) (pair_t x) (some (10, 20))) (some_injective e)
          (record {
            thread = thread 11 Status.ready 0;
            at = refl;
            alive = ready_alive;
            linked = inr (refl, _, _, refl, refl, refl);
          })
    follows (suc (suc (suc j))) p t e = cc

-- The two threads of process 10 run in turn with that of process 11, and its context comes back.
schedule-Ring_example :
    (c' : Context) × (s' : Sched) × (t : Thread) × (schedule 0 context queue ≡ some (c', s'))
    × Ring order s'
    × At order (2 % 3) s'
    × (s'.thread_at s'.current_thread ≡ some t)
    × (t.context ≡ c')
    × (t.status ≡ Status.running)
schedule-Ring_example = schedule-Ring 1 0 context queue-Ring refl

schedule_times-reaches_example :
    (n : ℕ) × (n ≤ 3)
    × (c' : Context) × (s' : Sched) × (schedule_times n 0 context queue ≡ some (c', s'))
    × At order 0 s'
schedule_times-reaches_example = schedule_times-reaches 1 0 0 context queue-Ring refl (omega arith)
