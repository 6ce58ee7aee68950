-- ===== src/Programs/Exec.antt =====
-- `exec_elf` of src/kernel/syscalls/exec_elf.c: a program becomes a process. The local variables of
-- the loader lie at `ehdr_at` and `phdr_at`, the path at `name_at`; the pointers that `kmalloc` returns
-- for the process and its thread are arguments, as is the address of `kernel_thread_wrapper`.
use titan_os.Base.{ℕ, true, Option, none, some, List, ◌==◌, if◌then◌else◌}
use titan_os.Cpu.Interrupts.{Context}
use titan_os.Sched.{Sched}
use titan_os.Sched.Create.{new_context, create_proc}
use titan_os.Tar.{Header}
use titan_os.Vmm.Regions.{Backing}
use titan_os.Vmm.Spaces.{Run, undefined, panicked, done}
use titan_os.Vmm.Processes.{
  AddressSpace, SpaceOps, create_vmm, switch_vm_space, in_use, alloc_user_stack,
}
use titan_os.Programs.{Machine, load_elf, e_entry}

abbrev pub user_stack_start : ℕ
user_stack_start = 0xc0000000

-- The machine, the scheduler, the address spaces of the processes, and the process whose space is
-- `current_vmm`, if it is one's. What `vmm_of` holds for that process is from when it came into use.
pub record System (M : Type 0) : Type 0 where
  pub machine : Machine M
  pub sched : Sched
  pub vmm_of : ℕ → AddressSpace
  pub owner : Option ℕ

-- A file to execute, and where things lie.
pub record Job : Type 0 where
  pub filename : List ℕ
  pub name_at : ℕ
  pub ehdr_at : ℕ
  pub phdr_at : ℕ
  pub process : ℕ
  pub thread : ℕ
  pub next_pid : ℕ
  pub next_tid : ℕ

module _ {M : Type 0} (backing : Backing M) (ops : SpaceOps M) where
  -- The address spaces, with what the one in use has become.
  abbrev pub spaces_of : System M → ℕ → AddressSpace
  spaces_of s q = elim s.owner [
    | none ↦ s.vmm_of q
    | some p ↦ if q == p then in_use backing ops (s.vmm_of p).pml4t s.machine.space else s.vmm_of q
  ]

  module _ (wrapper : ℕ) (memory : ℕ → Option Header) (file_headers : List ℕ) (job : Job) where
    abbrev pub context_of : Machine M → Context
    context_of m =
        new_context wrapper (e_entry m.space.bytes job.ehdr_at) job.name_at user_stack_start true

    -- The end of `exec_elf`, after `load_elf` in the new space: `create_proc`, and the switch back.
    unfoldable pub start_process : ℕ → Machine M → System M → Run (System M)
    start_process pml4t m s =
        let current = spaces_of s s.sched.current_process in
        elim (alloc_user_stack backing ops user_stack_start (in_use backing ops pml4t m.space)
          current m.space) [
            | undefined ↦ Run.undefined
            | panicked ↦ Run.panicked
            | done (vmm, space) ↦
                elim (create_proc job.process job.thread job.next_pid job.next_tid (context_of m)
                  user_stack_start true s.sched) [
                    | none ↦ Run.undefined
                    | some sched ↦ elim (switch_vm_space backing ops current space) [
                      | none ↦ Run.undefined
                      | some back ↦ Run.done (record {
                        machine = record m { space = back };
                        sched = sched;
                        vmm_of = λ (q : ℕ). if q == job.process then vmm else spaces_of s q;
                        owner = some s.sched.current_process;
                      })
                    ]
                  ]
          ]

    -- `load_elf` in a new space, with the physical address of its table.
    unfoldable pub load_program : System M → Run (ℕ × Machine M)
    load_program s = elim (create_vmm backing ops s.machine.space) [
      | none ↦ Run.undefined
      | some (vmm, s1) ↦ elim (switch_vm_space backing ops vmm s1) [
        | none ↦ Run.undefined
        | some s2 ↦
            elim (load_elf backing memory file_headers job.filename job.ehdr_at job.phdr_at
              (record s.machine { space = s2 })) [
                | undefined ↦ Run.undefined
                | panicked ↦ Run.panicked
                | done m ↦ Run.done (vmm.pml4t, m)
              ]
      ]
    ]

    unfoldable pub exec_elf : System M → Run (System M)
    exec_elf s = elim (load_program s) [
      | undefined ↦ Run.undefined
      | panicked ↦ Run.panicked
      | done (pml4t, m) ↦ start_process pml4t m s
    ]
