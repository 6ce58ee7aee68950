-- ===== src/Sched/Create.antt =====
-- New threads and processes of src/kernel/sched/scheduler.c. The pointers that `kmalloc` returns and
-- the stack are arguments, as is the address of `kernel_thread_wrapper`.
use titan_os.Base.{
  ℕ, zero, suc, ◌+◌, ◌-◌, ◌^◌, ◌≡◌, ◌≢◌, refl, Bool, true, false, Option, none, some, ◌==◌,
  if◌then◌else◌, u64, ◌>>=◌, ==_ne, ==_self,
}
use titan_os.Cpu.Interrupts.{Context}
use titan_os.Cpu.Gdt.{kernel_stack_size}
use titan_os.Sched.{Status, Thread, Process, Sched, write_thread, write_process}

abbrev pub code_offset : ℕ
code_offset = 0x8

abbrev pub data_offset : ℕ
data_offset = 0x10

abbrev pub user_code_offset : ℕ
user_code_offset = 0x1b

abbrev pub user_data_offset : ℕ
user_data_offset = 0x23

-- The context that `create_thread` writes.
pub new_context : ℕ → ℕ → ℕ → ℕ → Bool → Context
new_context wrapper func func_arg stack is_user = record {
  rax = 0;
  rbx = 0;
  rcx = 0;
  rdx = 0;
  rdi = func;
  rsi = func_arg;
  rbp = 0;
  r8 = 0;
  r9 = 0;
  r10 = 0;
  r11 = 0;
  r12 = 0;
  r13 = 0;
  r14 = 0;
  r15 = 0;
  vec = 0;
  error_code = 0;
  rip_i = wrapper;
  cs_i = (if is_user then user_code_offset else code_offset);
  flags_i = 0x202;
  rsp_i = u64 (stack + kernel_stack_size + 2 ^ 64 - 8);
  ss_i = (if is_user then user_data_offset else data_offset);
}

-- The walk to the last thread of a process, which then points to the new one.
pub append_thread : ℕ → ℕ → ℕ → Sched → Option Sched
append_thread zero t scan s = none
append_thread (suc fuel) t scan s =
    let rest = λ (next : ℕ). append_thread fuel t next s in
    do
      c ← s.thread_at scan
      if c.next == 0 then some (write_thread scan (record c { next = t }) s) else rest c.next

-- `create_thread` in process `p`, of the thread at `t` with the identifier `next_tid`.
pub create_thread : ℕ → ℕ → ℕ → ℕ → Context → ℕ → Sched → Option Sched
create_thread fuel p t next_tid context stack s = do
  parent ← s.process_at p
  s1 ←
      (if parent.threads == 0
        then some (write_process p (record parent { threads = t }) s)
        else append_thread fuel t parent.threads s)
  some (
      write_thread t
        (record {
          tid = next_tid;
          parent = p;
          context = context;
          stack = stack;
          status = Status.ready;
          next = 0;
        })
        s1)

-- `create_proc` of the process at `p` with the identifier `next_pid`, and its first thread at `t`.
pub create_proc : ℕ → ℕ → ℕ → ℕ → Context → ℕ → Bool → Sched → Option Sched
create_proc p t next_pid next_tid context stack add_to_queue s = do
  s1 ←
      create_thread 1 p t next_tid context stack
        (write_process p (record { pid = next_pid; threads = 0; next = 0 }) s)
  new ← s1.process_at p
  some (
      if add_to_queue
      then record (write_process p (record new { next = s1.head_proc }) s1) { head_proc = p }
      else s1)

-- `sched_init`: the idle process is current, and is not in the queue.
pub sched_init : ℕ → ℕ → ℕ → ℕ → Context → ℕ → Sched → Option Sched
sched_init p t next_pid next_tid context stack s = do
  s1 ← create_proc p t next_pid next_tid context stack false s
  idle ← s1.process_at p
  some (record s1 { idle_proc = p; current_process = p; current_thread = idle.threads })

-- `create_proc` for the queue is defined, whatever the state. The new process is its head, in front of
-- the old head, with the new thread as its only one, ready to run with the given context.
pub create_proc-head :
    (p t next_pid next_tid : ℕ) (context : Context) (stack : ℕ) (s : Sched)
    → (s' : Sched) × (pr : Process) × (th : Thread) × (create_proc p t next_pid next_tid context
          stack true s
        ≡ some s')
      × (s'.head_proc ≡ p)
      × (s'.process_at p ≡ some pr)
      × (pr.next ≡ s.head_proc)
      × (pr.threads ≡ t)
      × (s'.thread_at t ≡ some th)
      × (th.context ≡ context)
      × (th.status ≡ Status.ready)
      × (th.parent ≡ p)
      × (th.next ≡ 0)
      × ((q : ℕ) → q ≢ p → s'.process_at q ≡ s.process_at q)
      × ((q : ℕ) → q ≢ t → s'.thread_at q ≡ s.thread_at q)
unfolding create_proc create_thread
create_proc-head p t next_pid next_tid context stack s =
    let pr : Process = record { pid = next_pid; threads = t; next = s.head_proc } in
    let th : Thread = record {
      tid = next_tid;
      parent = p;
      context = context;
      stack = stack;
      status = Status.ready;
      next = 0;
    } in
    let s1 = write_process p (record { pid = next_pid; threads = 0; next = 0 }) s in
    let s2 =
      write_thread t th (write_process p (record { pid = next_pid; threads = t; next = 0 }) s1) in
    (
      record (write_process p pr s2) { head_proc = p },
      pr,
      th,
      rw (==_self p, ==_self p),
      refl,
      rw (==_self p),
      refl,
      refl,
      rw (==_self t),
      refl,
      refl,
      refl,
      refl,
      (λ q ne. rw (==_ne q p ne)),
      (λ q ne. rw (==_ne q t ne)),
    )
