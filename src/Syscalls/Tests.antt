-- ===== src/Syscalls/Tests.antt =====
-- A program that opens its first file and reads it.
use titan_os.Base.{ℕ, ◌-◌, ◌^◌, ◌≡◌, ◌≢◌, ◌<◌, ◌⊎◌, refl, true, none, some, [], ◌∷◌, get_elem?, suc}
use titan_os.Cpu.Interrupts.{Context}
use titan_os.Sched.Create.{new_context}
use titan_os.Vmm.Spaces.{Run}
use titan_os.Syscalls.{Services, Kernel, syscall_handler}
use titan_os.Syscalls.Handles.{syscall_open-read}

-- The state counts the calls.
abbrev services : Services ℕ
services = record {
  print = λ a n. some (suc n);
  read = λ r buf len n. some (suc n);
  vfs_open = λ a n. some (3, suc n);
  read_resource = 0x7000;
}

abbrev kernel : Kernel ℕ
kernel = record {
  resource_table = none ∷ none ∷ none ∷ none ∷ none ∷ [];
  sched = record {
    thread_at = λ p. none;
    process_at = λ p. none;
    idle_proc = 0;
    head_proc = 0;
    current_process = 0;
    current_thread = 0;
  };
  rest = 0;
}

abbrev opens : Context
opens = record (new_context 0 0 0 0x1000 true) { rax = 2 }

abbrev reads : Context
reads = record (new_context 0 0 0 0x1000 true) { rax = 0 }

syscall_open-read_example :
    ((syscall_handler services opens kernel
        ≡ Run.done (record opens { rax = 2 ^ 64 - 1 }, record kernel { rest = 1 }))
      × ((i : ℕ) → i < 5 → get_elem? kernel.resource_table i ≢ some none))
    ⊎ ((i : ℕ) × (k1 : Kernel ℕ) × (i < 5)
        × (get_elem? kernel.resource_table i ≡ some none)
        × ((j : ℕ) → j < i → get_elem? kernel.resource_table j ≢ some none)
        × (syscall_handler services opens kernel ≡ Run.done (record opens { rax = i }, k1))
        × (syscall_handler services (record reads { rdi = i }) k1
            ≡ Run.done (record reads { rdi = i }, record k1 { rest = 2 })))
syscall_open-read_example =
    syscall_open-read services opens reads kernel 3 1 2 refl refl refl refl refl
