-- ===== src/Syscalls.antt =====
-- System calls, src/kernel/syscalls/syscall.c. What a branch calls in other components is an operation
-- on their state `S`; the table of resources of the process and the threads are those of Resources and
-- Sched.
pub mod Handles
mod Tests
use titan_os.Base.{
  ℕ, ◌+◌, ◌-◌, ◌^◌, Bool, true, false, Option, none, some, List, ◌==◌, if◌then◌else◌, get_elem?,
}
use titan_os.Cpu.Interrupts.{Context}
use titan_os.Resources.{Resource, register_file_resource}
use titan_os.Sched.{Sched, Thread, Status, write_thread}
use titan_os.Vmm.Spaces.{Run, undefined, panicked, done}

-- `printf` of the string at an address, the function that a resource is read with, and `vfs_open` of
-- the name at an address, which gives a handle of 32 bits.
pub record Services (S : Type 0) : Type 0 where
  pub print : ℕ → S → Option S
  pub read : Resource → ℕ → ℕ → S → Option S
  pub vfs_open : ℕ → S → Option (ℕ × S)
  pub read_resource : ℕ

-- The resources of the current process, the threads, and the rest.
pub record Kernel (S : Type 0) : Type 0 where
  pub resource_table : List (Option Resource)
  pub sched : Sched
  pub rest : S

module _ {S : Type 0} (services : Services S) where
  -- `read`, through the entry of the table. Its result is dropped.
  pub syscall_read : Context → Kernel S → Run (Context × Kernel S)
  syscall_read c k = elim (get_elem? k.resource_table c.rdi) [
    | none ↦ Run.undefined
    | some none ↦ Run.undefined
    | some (some r) ↦ elim (services.read r c.rsi c.rdx k.rest) [
      | none ↦ Run.undefined
      | some s ↦ Run.done (c, record k { rest = s })
    ]
  ]

  -- `write to console`.
  pub syscall_print : Context → Kernel S → Run (Context × Kernel S)
  syscall_print c k = elim (services.print c.rdi k.rest) [
    | none ↦ Run.undefined
    | some s ↦ Run.done (c, record k { rest = s })
  ]

  -- `open file`: the int -1 is widened to 64 bits.
  pub syscall_open : Context → Kernel S → Run (Context × Kernel S)
  syscall_open c k = elim (services.vfs_open c.rdi k.rest) [
    | none ↦ Run.undefined
    | some (opened, s) ↦
        elim (register_file_resource opened services.read_resource k.resource_table) [
          | none ↦ Run.undefined
          | some (none, table) ↦
              Run.done
                (record c { rax = 2 ^ 64 - 1 }, record k { resource_table = table; rest = s })
          | some (some handle, table) ↦
              Run.done (record c { rax = handle }, record k { resource_table = table; rest = s })
        ]
  ]

  -- `exit`.
  pub syscall_exit : Context → Kernel S → Run (Context × Kernel S)
  syscall_exit c k = elim (k.sched.thread_at k.sched.current_thread) [
    | none ↦ Run.undefined
    | some t ↦ Run.done (
      c,
      record k {
        sched = write_thread k.sched.current_thread (record t { status = Status.dead }) k.sched;
      },
    )
  ]

  pub syscall_handler : Context → Kernel S → Run (Context × Kernel S)
  syscall_handler c k =
      if c.rax == 0
      then syscall_read c k
      else if c.rax == 1
      then syscall_print c k
      else if c.rax == 2
      then syscall_open c k
      else if c.rax == 60
      then syscall_exit c k
      else Run.panicked
