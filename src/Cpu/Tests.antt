-- ===== src/Cpu/Tests.antt =====
-- Interrupts, the keyboard and the descriptor tables at concrete inputs.
use titan_os.Base.{
  ℕ, suc, ◌+◌, ◌-◌, ◌*◌, ◌<◌, ◌≤◌, ◌≡◌, ◌≢◌, refl, true, false, none, some, List, [], ◌∷◌, ◌==◌,
  if◌then◌else◌, ◌>>=◌, length, length-replicate, replicate, get_elem?, arith,
}
use titan_os.Vga.{Console}
use titan_os.Vga.Screen.{IsValid}
use titan_os.Cpu.Idt.{IdtEntry, entry_of, setup_idt, handler_addr, setup_idt_lem}
use titan_os.Cpu.Interrupts.{
  Context, Handlers, Handled, Irq, pushed_vec, finish, keyboard_branch, interrupt_handler,
  interrupt_handler-pushed_vec,
}
use titan_os.Cpu.Keyboard.{Keyboard, keyboard_handler}
use titan_os.Cpu.Keyboard.Buffer.{Holds, typed_after, keyboard_handler-Holds}
use titan_os.Sched.Create.{new_context}

abbrev idt : List IdtEntry
idt = replicate 256 (entry_of 0 0)

setup_idt_lem_example :
    (idt' : List IdtEntry) × (setup_idt 0xffffff8000001000 idt ≡ some idt')
    × (length idt' ≡ 256)
    × ((vec : ℕ)
        → vec < 256
        → (e : IdtEntry) × (get_elem? idt' vec ≡ some e)
          × (handler_addr e ≡ 0xffffff8000001000 + vec * 16)
          × (e.flags ≡ (if vec == 0xfe then 0b11101110 else 0b10001110)))
setup_idt_lem_example =
    setup_idt_lem 0xffffff8000001000 idt (length-replicate {A = IdtEntry} 256 (entry_of 0 0))
      (omega arith)

-- The rest of the kernel as a count of the signals to the local APIC.
abbrev handlers : Handlers ℕ
handlers = record {
  keyboard_handler = λ s. some s;
  schedule = λ c s. some (c, s);
  syscall_handler = λ c s. some (c, s);
  printstr = λ s. some s;
  printlong = λ n s. some s;
  send_local_apic_eoi = λ s. suc s;
}

abbrev irq : Irq ℕ
irq = record { rest = 0; should_sched = true }

-- The context behind the stub of vector 0xfe.
abbrev context : Context
context = record (new_context 0 0 0 0x1000 true) { vec = 0xe6 }

abbrev entry_vec : ℕ
entry_vec = 0xfe

syscall_vec : 0xe6 ≡ pushed_vec entry_vec
unfolding pushed_vec
syscall_vec = refl

interrupt_handler-pushed_vec_example :
    (entry_vec ≡ 0x40
      → interrupt_handler handlers context irq ≡ keyboard_branch handlers context irq)
    × (entry_vec ≡ 0x80
        → interrupt_handler handlers context irq
          ≡ (handlers.schedule context 0 >>= λ (c', s). some (finish handlers true c' s)))
    × (entry_vec ≡ 0xfe
        → interrupt_handler handlers context irq
          ≡ (handlers.syscall_handler context 0 >>= λ (c', s). some (finish handlers true c' s)))
    × (entry_vec < 15
        → interrupt_handler handlers context irq
          ≡ (handlers.printstr 0 >>= λ s. some (Handled.panics entry_vec s)))
    × (15 ≤ entry_vec → entry_vec < 32 → interrupt_handler handlers context irq ≡ none)
    × (39 ≤ entry_vec → entry_vec ≤ 56 → interrupt_handler handlers context irq ≡ none)
    × (32 ≤ entry_vec
        → entry_vec < 39
        → interrupt_handler handlers context irq
          ≡ (handlers.printstr 0 >>= λ s. some (Handled.panics (entry_vec - 24) s)))
    × (56 < entry_vec
        → entry_vec < 256
        → entry_vec ≢ 0x40
        → entry_vec ≢ 0x80
        → entry_vec ≢ 0xfe
        → interrupt_handler handlers context irq ≡ (
            handlers.printstr 0 >>= λ s.
            handlers.printlong (entry_vec - 24) s >>= λ s'. some (finish handlers true context s')))
interrupt_handler-pushed_vec_example =
    interrupt_handler-pushed_vec handlers entry_vec context irq syscall_vec

abbrev keyboard : Keyboard
keyboard = record { buffer = replicate 32 0; pos = 0; is_make = true }

abbrev screen : Console
screen = record { cells = replicate 2000 0; x = 0; y = 0 }

keyboard-Holds : Holds [] keyboard
keyboard-Holds = record {
  size = length-replicate {A = ℕ} 32 0;
  place = refl;
  held = λ i p q. absurd (omega arith);
}

screen-IsValid : IsValid screen
screen-IsValid = record {
  size = length-replicate {A = ℕ} 2000 0;
  column = omega arith;
  row = omega arith;
}

keyboard_handler-Holds_example :
    (kb' : Keyboard) × (screen' : Console) × (keyboard_handler 0x1e keyboard screen
      ≡ some (kb', screen'))
    × (kb'.is_make ≡ false)
    × Holds (typed_after 0x1e keyboard []) kb'
    × IsValid screen'
keyboard_handler-Holds_example = keyboard_handler-Holds 0x1e keyboard-Holds screen-IsValid

typed_runs : typed_after 0x1e keyboard [] ≡ b'a' ∷ []
unfolding typed_after
typed_runs = refl
