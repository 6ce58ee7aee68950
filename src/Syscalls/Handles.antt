-- ===== src/Syscalls/Handles.antt =====
-- Files that a program opens and reads.
use titan_os.Base.{
  ℕ, ◌-◌, ◌^◌, ◌≡◌, ◌≢◌, ◌<◌, ◌⊎◌, inl, inr, ◌∙◌, ap, none, some, ◌==◌, if◌then◌else◌, get_elem?,
  length,
}
use titan_os.Cpu.Interrupts.{Context}
use titan_os.Resources.{}
use titan_os.Resources.Laws.{file_resource, register_file_resource-first_free}
use titan_os.Vmm.Spaces.{Run}
use titan_os.Syscalls.{
  Services, Kernel, syscall_read, syscall_print, syscall_open, syscall_exit, syscall_handler,
}

module _ {S : Type 0} (services : Services S) where
  -- The branches of the handler.
  branch : Context → Kernel S → ℕ → Run (Context × Kernel S)
  branch c k n =
      if n == 0
      then syscall_read services c k
      else if n == 1
      then syscall_print services c k
      else if n == 2
      then syscall_open services c k
      else if n == 60
      then syscall_exit services c k
      else Run.panicked

  syscall_handler-branch :
      (c : Context) (k : Kernel S) (n : ℕ) → c.rax ≡ n → syscall_handler services c k ≡ branch c k n
  unfolding syscall_handler branch
  syscall_handler-branch c k n e = ap (branch c k) e

  -- The process has a table of 5 resources, `vfs_open` gives the handle `opened`, and a read of the file
  -- of that handle is defined in every state. The system call 2 either finds no free entry, and returns
  -- -1 with the table as it was, or returns the handle of the first free entry. The system call 0 with
  -- that handle then reads the file `opened` into the buffer that it is given. It leaves the registers,
  -- so the program finds 0, the number of the call, where the size that was read should be.
  pub syscall_open-read :
      (c d : Context) (k : Kernel S) (opened : ℕ) (s t : S)
      → length k.resource_table ≡ 5
      → c.rax ≡ 2
      → services.vfs_open c.rdi k.rest ≡ some (opened, s)
      → d.rax ≡ 0
      → services.read (file_resource opened services.read_resource) d.rsi d.rdx s ≡ some t
      → ((syscall_handler services c k
            ≡ Run.done (record c { rax = 2 ^ 64 - 1 }, record k { rest = s }))
          × ((i : ℕ) → i < 5 → get_elem? k.resource_table i ≢ some none))
        ⊎ ((i : ℕ) × (k1 : Kernel S) × (i < 5)
            × (get_elem? k.resource_table i ≡ some none)
            × ((j : ℕ) → j < i → get_elem? k.resource_table j ≢ some none)
            × (syscall_handler services c k ≡ Run.done (record c { rax = i }, k1))
            × (syscall_handler services (record d { rdi = i }) k1
                ≡ Run.done (record d { rdi = i }, record k1 { rest = t })))
  unfolding branch syscall_open syscall_read
  syscall_open-read c d k opened s t size two opens zero reads =
      elim (register_file_resource-first_free opened services.read_resource k.resource_table size) [
        | inl (e, full) ↦ inl (syscall_handler-branch c k 2 two ∙ rw (syscall_open, opens, e), full)
        | inr (i, table, lt, e, free, first, at) ↦ inr (
          i,
          record k { resource_table = table; rest = s },
          lt,
          free,
          first,
          syscall_handler-branch c k 2 two ∙ rw (syscall_open, opens, e),
          syscall_handler-branch (record d { rdi = i })
                (record k { resource_table = table; rest = s }) 0 zero
              ∙ rw (syscall_read, at, reads),
        )
      ]
