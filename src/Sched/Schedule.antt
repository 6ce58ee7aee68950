-- ===== src/Sched/Schedule.antt =====
-- The order in which `schedule` runs the threads.
use titan_os.Base.{
  ℕ, ◌+◌, ◌%◌, ◌≡◌, ◌≢◌, ◌⊎◌, inl, inr, refl, ap, sym, ◌∙◌, Option, some, List, ◌==◌, get_elem?,
  length, if◌then◌else◌, ==_ne, ==_self, Bool-cases,
}
use titan_os.Cpu.Interrupts.{Context}
use titan_os.Sched.{
  Status, ready, running, dead, Thread, Process, Sched, write, write_thread, switch_process,
  save_context, retire, advance, mark_running, schedule,
}
use native.Mathlib.Decide.{ℕ_discrete}

-- The process behind `p` in the queue, for its record.
abbrev pub successor : Sched → Process → ℕ
successor s pr = if pr.next == 0 then s.head_proc else pr.next

-- What a thread of process `p` with the field `next` is followed by: the next thread of the process,
-- or the first thread of the next process.
abbrev pub Linked : Sched → ℕ → ℕ → Option (ℕ × ℕ) → Type 0
Linked s p next following =
    ((next ≢ 0) × (following ≡ some (p, next)))
    ⊎ ((next ≡ 0)
        × (pr : Process) × (pr' : Process) × (s.process_at p ≡ some pr)
        × (s.process_at (successor s pr) ≡ some pr')
        × (following ≡ some (successor s pr, pr'.threads)))

-- The thread `t` of process `p` is alive, and `following` comes after it.
pub record Follows (s : Sched) (p t : ℕ) (following : Option (ℕ × ℕ)) : Type 0 where
  pub thread : Thread
  pub at : s.thread_at t ≡ some thread
  pub alive : thread.status ≢ Status.dead
  pub linked : Linked s p thread.next following

-- The queue holds the threads of `order`, each a process and a thread, in a ring.
pub record Ring (order : List (ℕ × ℕ)) (s : Sched) : Type 0 where
  pub idle : Process
  pub idle_at : s.process_at s.idle_proc ≡ some idle
  pub head : s.head_proc ≢ 0
  pub follows :
      (j p t : ℕ)
      → get_elem? order j ≡ some (p, t)
      → Follows s p t (get_elem? order ((j + 1) % length order))

-- The current thread is the one at index `j` of the ring.
abbrev pub At : List (ℕ × ℕ) → ℕ → Sched → Type 0
At order j s = get_elem? order j ≡ some (s.current_process, s.current_thread)

write-eq : {A : Type 0} (p : ℕ) (a : A) (m : ℕ → Option A) → write p a m p ≡ some a
write-eq p a m = rw (==_self p)

write-ne : {A : Type 0} (p q : ℕ) (a : A) (m : ℕ → Option A) → q ≢ p → write p a m q ≡ m q
write-ne p q a m ne = rw (==_ne q p ne)

some_injective : {A : Type 0} {a b : A} → some a ≡ some b → a ≡ b
some_injective e = cc

Follows-write :
    {s : Sched} (q : ℕ) (u u' : Thread) {p t : ℕ} {following : Option (ℕ × ℕ)}
    → s.thread_at q ≡ some u
    → u'.next ≡ u.next
    → u'.status ≢ Status.dead
    → Follows s p t following
    → Follows (write_thread q u' s) p t following
Follows-write {s} q u u' {p} {t} {following} here same alive f = elim (ℕ_discrete t q) [
  | yes e ↦
      let g : s.thread_at q ≡ some f.thread = rw (← e) f.at in
      let n : u'.next ≡ f.thread.next =
        same ∙ ap (λ (x : Thread). x.next) (some_injective (sym here ∙ g)) in
      record {
        thread = u';
        at = rw e (write-eq q u' s.thread_at);
        alive = alive;
        linked = rw n f.linked;
      }
  | no ne ↦ record {
    thread = f.thread;
    at = write-ne q t u' s.thread_at ne ∙ f.at;
    alive = f.alive;
    linked = f.linked;
  }
]

Ring-write :
    {order : List (ℕ × ℕ)} {s : Sched} (q : ℕ) (u u' : Thread)
    → s.thread_at q ≡ some u
    → u'.next ≡ u.next
    → u'.status ≢ Status.dead
    → Ring order s
    → Ring order (write_thread q u' s)
Ring-write q u u' here same alive r = record {
  idle = r.idle;
  idle_at = r.idle_at;
  head = r.head;
  follows = λ j p t e. Follows-write q u u' here same alive (r.follows j p t e);
}

Status-cases : (a : Status) → a ≢ Status.dead → (a ≡ Status.ready) ⊎ (a ≡ Status.running)
Status-cases ready ne = inl refl
Status-cases running ne = inr refl
Status-cases dead ne = absurd (ne refl)

ready_alive : Status.ready ≢ Status.dead
ready_alive e = cc

running_alive : Status.running ≢ Status.dead
running_alive e = cc

save_context_lem :
    {order : List (ℕ × ℕ)} {s : Sched} (j : ℕ) (c : Context)
    → Ring order s
    → At order j s
    → (s' : Sched) × (save_context c s ≡ some s') × Ring order s' × At order j s'
unfolding save_context
save_context_lem {order} {s} j c r at =
    let f = r.follows j s.current_process s.current_thread at in
    elim (Bool-cases (s.current_thread == r.idle.threads)) [
      | inl e ↦ (s, rw (r.idle_at, f.at, e), r, at)
      | inr e ↦
          let u = record f.thread { context = c } in
          (
            write_thread s.current_thread u s,
            rw (r.idle_at, f.at, e),
            Ring-write s.current_thread f.thread u f.at refl f.alive r,
            at,
          )
    ]

retire_lem :
    {order : List (ℕ × ℕ)} {s : Sched} (j fuel : ℕ)
    → Ring order s
    → At order j s
    → (s' : Sched) × (retire fuel s ≡ some s') × Ring order s' × At order j s'
unfolding retire
retire_lem {order} {s} j fuel r at =
    let f = r.follows j s.current_process s.current_thread at in
    let u = record f.thread { status = Status.ready } in
    (
      write_thread s.current_thread u s,
      elim (Status-cases f.thread.status f.alive) [ inl e ↦ rw (f.at, e) | inr e ↦ rw (f.at, e) ],
      Ring-write s.current_thread f.thread u f.at refl ready_alive r,
      at,
    )

moved :
    {s : Sched} {a b p t : ℕ} {following : Option (ℕ × ℕ)}
    → Follows s p t following
    → Follows (record s { current_process = a; current_thread = b }) p t following
moved f = record { thread = f.thread; at = f.at; alive = f.alive; linked = f.linked }

advance_lem :
    {order : List (ℕ × ℕ)} {s : Sched} (j : ℕ)
    → Ring order s
    → At order j s
    → (s' : Sched) × (advance s ≡ some s') × Ring order s' × At order ((j + 1) % length order) s'
unfolding advance switch_process
advance_lem {order} {s} j r at =
    let f = r.follows j s.current_process s.current_thread at in
    elim f.linked [
      | inl (ne, e) ↦ (
        record s { current_thread = f.thread.next },
        rw (f.at, ==_ne f.thread.next 0 ne),
        record {
          idle = r.idle;
          idle_at = r.idle_at;
          head = r.head;
          follows = λ i p t g. moved (r.follows i p t g);
        },
        e,
      )
      | inr (z, pr, pr', a, b, e) ↦ (
        record s { current_process = successor s pr; current_thread = pr'.threads },
        rw (f.at, z, ==_ne s.head_proc 0 r.head, a, b),
        record {
          idle = r.idle;
          idle_at = r.idle_at;
          head = r.head;
          follows = λ i p t g. moved (r.follows i p t g);
        },
        e,
      )
    ]

mark_running_lem :
    {order : List (ℕ × ℕ)} {s : Sched} (j : ℕ)
    → Ring order s
    → At order j s
    → (c : Context) × (s' : Sched) × (t : Thread) × (mark_running s ≡ some (c, s'))
      × Ring order s'
      × At order j s'
      × (s'.thread_at s'.current_thread ≡ some t)
      × (t.context ≡ c)
      × (t.status ≡ Status.running)
unfolding mark_running
mark_running_lem {order} {s} j r at =
    let f = r.follows j s.current_process s.current_thread at in
    let u = record f.thread { status = Status.running } in
    elim (Status-cases f.thread.status f.alive) [
      | inl e ↦ (
        u.context,
        write_thread s.current_thread u s,
        u,
        rw (f.at, e),
        Ring-write s.current_thread f.thread u f.at refl running_alive r,
        at,
        write-eq s.current_thread u s.thread_at,
        refl,
        refl,
      )
      | inr e ↦ (f.thread.context, s, f.thread, rw (f.at, e), r, at, f.at, refl, e)
    ]

-- When the queue is a ring of live threads, `schedule` is defined, keeps the ring, hands the processor
-- from the thread at index `j` to the one at index `j + 1`, around the end of the ring, returns that
-- thread's context and marks it as running, whatever context and fuel it is given.
pub schedule-Ring :
    {order : List (ℕ × ℕ)} {s : Sched} (j fuel : ℕ) (c : Context)
    → Ring order s
    → At order j s
    → (c' : Context) × (s' : Sched) × (t : Thread) × (schedule fuel c s ≡ some (c', s'))
      × Ring order s'
      × At order ((j + 1) % length order) s'
      × (s'.thread_at s'.current_thread ≡ some t)
      × (t.context ≡ c')
      × (t.status ≡ Status.running)
unfolding schedule
schedule-Ring j fuel c r at =
    let (s1, e1, r1, at1) = save_context_lem j c r at in
    let (s2, e2, r2, at2) = retire_lem j fuel r1 at1 in
    let (s3, e3, r3, at3) = advance_lem j r2 at2 in
    let (c', s', t, e4, r4, at4, here, same, runs) = mark_running_lem _ r3 at3 in
    (c', s', t, rw (e1, e2, e3) e4, r4, at4, here, same, runs)
