-- ===== src/Sched.antt =====
-- Processes and threads, src/kernel/sched/scheduler.c. Pointers are numbers, and 0 is NULL; a read at
-- a pointer with no object is undefined. `kfree` leaves the object's bytes, and the code reads them
-- afterwards, so a freed object stays readable. A pointer that an allocation returns is an argument.
pub mod Schedule
pub mod Turns
pub mod Create
mod Tests
use titan_os.Base.{
  ℕ, zero, suc, ◌+◌, ◌-◌, ◌%◌, ◌^◌, Bool, true, false, Option, none, some, List, [], ◌∷◌, ◌==◌,
  if◌then◌else◌, u64, ◌>>=◌,
}
use titan_os.Cpu.Interrupts.{Context}

-- `status_t`.
pub data Status : Type 0 where
  ready : Status
  running : Status
  dead : Status

-- `thread_t`, without the name, which stays zero: `create_thread` copies it the other way round.
pub record Thread : Type 0 where
  pub tid : ℕ
  pub parent : ℕ
  pub context : Context
  pub stack : ℕ
  pub status : Status
  pub next : ℕ

-- `process_t`, without the address space and the resources, which are other components' state.
pub record Process : Type 0 where
  pub pid : ℕ
  pub threads : ℕ
  pub next : ℕ

-- Objects by their pointers.
abbrev pub Store : Type 0 → Type 0
Store A = ℕ → Option A

abbrev pub write : {A : Type 0} → ℕ → A → Store A → Store A
write p a m q = if q == p then some a else m q

-- The globals, and the objects that they reach.
pub record Sched : Type 0 where
  pub thread_at : Store Thread
  pub process_at : Store Process
  pub idle_proc : ℕ
  pub head_proc : ℕ
  pub current_process : ℕ
  pub current_thread : ℕ

abbrev pub write_thread : ℕ → Thread → Sched → Sched
write_thread p t s = record s { thread_at = write p t s.thread_at }

abbrev pub write_process : ℕ → Process → Sched → Sched
write_process p t s = record s { process_at = write p t s.process_at }

-- `switch_process`, without the load of the page table register.
pub switch_process : Sched → Option Sched
switch_process s =
    if s.head_proc == 0 then some (record s { current_process = s.idle_proc }) else (do
      p ← s.process_at s.current_process
      some (record s { current_process = if p.next == 0 then s.head_proc else p.next }))

-- The walks that unlink an object from behind others, with fuel for the length of the list.
pub unlink_thread : ℕ → ℕ → ℕ → Sched → Option Sched
unlink_thread zero t current s = none
unlink_thread (suc fuel) t current s =
    let rest = λ (next : ℕ). unlink_thread fuel t next s in
    do
      c ← s.thread_at current
      if c.next == t
          then (s.thread_at c.next >>= λ n.
              some (write_thread current (record c { next = n.next }) s))
          else rest c.next

pub unlink_process : ℕ → ℕ → ℕ → Sched → Option Sched
unlink_process zero p current s = none
unlink_process (suc fuel) p current s =
    let rest = λ (next : ℕ). unlink_process fuel p next s in
    do
      c ← s.process_at current
      if c.next == p
          then (s.process_at c.next >>= λ n.
              some (write_process current (record c { next = n.next }) s))
          else rest c.next

-- The first part of `reap_process`. The threads that it then reaps are none when `reap_thread` calls
-- it, and the rest releases memory of other components.
pub reap_process : ℕ → ℕ → Sched → Option Sched
reap_process fuel p s =
    if s.head_proc == p
    then (s.process_at p >>= λ c. some (record s { head_proc = c.next }))
    else unlink_process fuel p s.head_proc s

-- `reap_thread`, without the release of the stack and of the thread.
pub reap_thread : ℕ → ℕ → Sched → Option Sched
reap_thread fuel t s = do
  dying ← s.thread_at t
  parent ← s.process_at dying.parent
  first ← s.thread_at parent.threads
  s1 ←
      (if parent.threads == t
        then some (write_process dying.parent (record parent { threads = first.next }) s)
        else unlink_thread fuel t parent.threads s)
  after ← s1.process_at dying.parent
  if after.threads == 0 then reap_process fuel dying.parent s1 else some s1

-- The parts of `schedule`: the context is kept, the thread is reaped or made ready, the next one is
-- chosen, and it is marked as running.
pub save_context : Context → Sched → Option Sched
save_context context s = do
  idle ← s.process_at s.idle_proc
  t ← s.thread_at s.current_thread
  some (
      if s.current_thread == idle.threads
      then s
      else write_thread s.current_thread (record t { context = context }) s)

pub retire : ℕ → Sched → Option Sched
retire fuel s = do
  t ← s.thread_at s.current_thread
  elim t.status [
    | dead ↦ reap_thread fuel s.current_thread s
    | ready ↦ some (write_thread s.current_thread (record t { status = Status.ready }) s)
    | running ↦ some (write_thread s.current_thread (record t { status = Status.ready }) s)
  ]

pub advance : Sched → Option Sched
advance s = do
  t ← s.thread_at s.current_thread
  if t.next == 0
      then (do
        s1 ← switch_process s
        p ← s1.process_at s1.current_process
        some (record s1 { current_thread = p.threads }))
      else some (record s { current_thread = t.next })

pub mark_running : Sched → Option (Context × Sched)
mark_running s = do
  t ← s.thread_at s.current_thread
  elim t.status [
    | ready ↦
        some (t.context, write_thread s.current_thread (record t { status = Status.running }) s)
    | running ↦ some (t.context, s)
    | dead ↦ some (t.context, s)
  ]

pub schedule : ℕ → Context → Sched → Option (Context × Sched)
schedule fuel context s = do
  s1 ← save_context context s
  s2 ← retire fuel s1
  s3 ← advance s2
  mark_running s3
