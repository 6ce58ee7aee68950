-- ===== src/Cpu/Interrupts.antt =====
-- The stubs of src/kernel/cpu/isr_stubs.S and the dispatch of src/kernel/cpu/isr.c. What the branches
-- call is the record `Handlers`, over a state `S` of the rest of the kernel.
use titan_os.Base.{
  ℕ, ◌-◌, ◌<◌, ◌≤◌, ◌≡◌, ◌≢◌, refl, Bool, not, Option, none, some, ◌==◌, ==_ne, leb-true, leb-false,
  ltb-true, ltb-false, ◌∙◌, leb, ltb, if◌then◌else◌, ◌>>=◌, need, arith,
}

-- `cpu_context_t`, what a stub leaves on the stack.
pub record Context : Type 0 where
  pub rax : ℕ
  pub rbx : ℕ
  pub rcx : ℕ
  pub rdx : ℕ
  pub rdi : ℕ
  pub rsi : ℕ
  pub rbp : ℕ
  pub r8 : ℕ
  pub r9 : ℕ
  pub r10 : ℕ
  pub r11 : ℕ
  pub r12 : ℕ
  pub r13 : ℕ
  pub r14 : ℕ
  pub r15 : ℕ
  pub vec : ℕ
  pub error_code : ℕ
  pub rip_i : ℕ
  pub cs_i : ℕ
  pub flags_i : ℕ
  pub rsp_i : ℕ
  pub ss_i : ℕ

-- The number that the stub `n` pushes: the repeated stubs behind the first 32 count from 8.
unfoldable pub pushed_vec : ℕ → ℕ
pushed_vec n = if ltb n 32 then n else n - 24

-- What `interrupt_handler` calls.
pub record Handlers (S : Type 0) : Type 0 where
  pub keyboard_handler : S → Option S
  pub schedule : Context → S → Option (Context × S)
  pub syscall_handler : Context → S → Option (Context × S)
  pub printstr : S → Option S
  pub printlong : ℕ → S → Option S
  pub send_local_apic_eoi : S → S

-- The state with the static `should_sched`.
pub record Irq (S : Type 0) : Type 0 where
  pub rest : S
  pub should_sched : Bool

-- How a call ends: it prints the name of exception `vec` and loops, or it returns a context.
pub data Handled (S : Type 0) : Type 0 where
  panics : ℕ → S → Handled S
  resumes : Context → Irq S → Handled S

bind-none {ℓ κ} :
    {A : Type ℓ} {B : Type κ} (m : Option A) (k : A → Option B)
    → ((a : A) → k a ≡ none)
    → (m >>= k) ≡ none
bind-none none k h = refl
bind-none (some a) k h = h a

below : (n : ℕ) → n < 32 → pushed_vec n ≡ n
unfolding pushed_vec
below n lt = ground arith

above : (n : ℕ) → 32 ≤ n → pushed_vec n ≡ n - 24
unfolding pushed_vec
above n le = rw (ltb-false n 32 le)

module _ {S : Type 0} (h : Handlers S) where
  -- The end of the handler.
  abbrev pub finish : Bool → Context → S → Handled S
  finish should_sched c s =
      Handled.resumes c (record { rest = h.send_local_apic_eoi s; should_sched = should_sched })

  -- The branch of the keyboard.
  pub keyboard_branch : Context → Irq S → Option (Handled S)
  keyboard_branch c q = do
    s ← h.keyboard_handler q.rest
    (c', s') ← (if q.should_sched then h.schedule c s else some (c, s))
    some (finish (not q.should_sched) c' s')

  -- `interrupt_handler`. There are 15 names of exceptions, and a read behind them is out of range.
  pub interrupt_handler : Context → Irq S → Option (Handled S)
  interrupt_handler c q =
      if leb c.vec 32
      then (h.printstr q.rest >>= λ s. need (ltb c.vec 15) >>= λ _. some (Handled.panics c.vec s))
      else if c.vec == 0xf0
      then (h.printstr q.rest >>= λ s. some (finish q.should_sched c s))
      else if c.vec == 0x28
      then keyboard_branch c q
      else if c.vec == 0x68
      then (h.schedule c q.rest >>= λ (c', s). some (finish q.should_sched c' s))
      else if c.vec == 0xe6
      then (h.syscall_handler c q.rest >>= λ (c', s). some (finish q.should_sched c' s))
      else (h.printstr q.rest >>= λ s.
          h.printlong c.vec s >>= λ s'. some (finish q.should_sched c s'))

  exception_lem :
      (c : Context) (q : Irq S)
      → c.vec ≤ 32
      → interrupt_handler c q
        ≡ (h.printstr q.rest >>= λ s. need (ltb c.vec 15) >>= λ _. some (Handled.panics c.vec s))
  unfolding interrupt_handler
  exception_lem c q le = rw (leb-true c.vec 32 le)

  out_of_names : (c : Context) (q : Irq S) → 15 ≤ c.vec → c.vec ≤ 32 → interrupt_handler c q ≡ none
  out_of_names c q low high =
      rw (exception_lem c q high, ltb-false c.vec 15 low)
        (bind-none (h.printstr q.rest) _ (λ s. refl))

  other_lem :
      (c : Context) (q : Irq S)
      → 32 < c.vec
      → c.vec ≢ 0xf0
      → c.vec ≢ 0x28
      → c.vec ≢ 0x68
      → c.vec ≢ 0xe6
      → interrupt_handler c q ≡ (
          h.printstr q.rest >>= λ s.
          h.printlong c.vec s >>= λ s'. some (finish q.should_sched c s'))
  unfolding interrupt_handler
  other_lem c q gt n1 n2 n3 n4 = rw (
    leb-false c.vec 32 gt,
    ==_ne c.vec 0xf0 n1,
    ==_ne c.vec 0x28 n2,
    ==_ne c.vec 0x68 n3,
    ==_ne c.vec 0xe6 n4,
  )

  keyboard_lem :
      (c : Context) (q : Irq S) → c.vec ≡ 0x28 → interrupt_handler c q ≡ keyboard_branch c q
  unfolding interrupt_handler
  keyboard_lem c q v = rw v

  schedule_lem :
      (c : Context) (q : Irq S)
      → c.vec ≡ 0x68
      → interrupt_handler c q
        ≡ (h.schedule c q.rest >>= λ (c', s). some (finish q.should_sched c' s))
  unfolding interrupt_handler
  schedule_lem c q v = rw v

  syscall_lem :
      (c : Context) (q : Irq S)
      → c.vec ≡ 0xe6
      → interrupt_handler c q
        ≡ (h.syscall_handler c q.rest >>= λ (c', s). some (finish q.should_sched c' s))
  unfolding interrupt_handler
  syscall_lem c q v = rw v

  -- For a context as the stub of vector `n` leaves it: vector 0x40 is the keyboard's, 0x80 calls the
  -- scheduler, and 0xfe is the system call, each ended by the signal to the local APIC; vectors below 15
  -- are reported as the exception of that number; vectors 15 to 31 and 39 to 56 read behind the names
  -- of exceptions; vectors 32 to 38 are reported as the exceptions 8 to 14; and every other vector from 57 to 255, the
  -- spurious vector 0xf0 of the local APIC among them, is printed as unknown.
  pub interrupt_handler-pushed_vec :
      (n : ℕ) (c : Context) (q : Irq S)
      → c.vec ≡ pushed_vec n
      → (n ≡ 0x40 → interrupt_handler c q ≡ keyboard_branch c q)
        × (n ≡ 0x80
            → interrupt_handler c q
              ≡ (h.schedule c q.rest >>= λ (c', s). some (finish q.should_sched c' s)))
        × (n ≡ 0xfe
            → interrupt_handler c q
              ≡ (h.syscall_handler c q.rest >>= λ (c', s). some (finish q.should_sched c' s)))
        × (n < 15 → interrupt_handler c q ≡ (h.printstr q.rest >>= λ s. some (Handled.panics n s)))
        × (15 ≤ n → n < 32 → interrupt_handler c q ≡ none)
        × (39 ≤ n → n ≤ 56 → interrupt_handler c q ≡ none)
        × (32 ≤ n
            → n < 39
            → interrupt_handler c q ≡ (h.printstr q.rest >>= λ s. some (Handled.panics (n - 24) s)))
        × (56 < n
            → n < 256
            → n ≢ 0x40
            → n ≢ 0x80
            → n ≢ 0xfe
            → interrupt_handler c q ≡ (
                h.printstr q.rest >>= λ s.
                h.printlong (n - 24) s >>= λ s'. some (finish q.should_sched c s')))
  interrupt_handler-pushed_vec n c q e = (
    (λ p. keyboard_lem c q (omega (arith, e, above n (omega arith), p))),
    (λ p. schedule_lem c q (omega (arith, e, above n (omega arith), p))),
    (λ p. syscall_lem c q (omega (arith, e, above n (omega arith), p))),
    (λ low.
        let v = e ∙ below n (omega arith) in
        exception_lem c q (omega (arith, v)) ∙ rw (v, ltb-true n 15 low)),
    (λ low high.
        out_of_names c q (omega (arith, e ∙ below n high)) (omega (arith, e ∙ below n high))),
    (λ low high.
        out_of_names c q (omega (arith, e ∙ above n (omega arith)))
          (omega (arith, e ∙ above n (omega arith)))),
    (λ low high.
        let v = e ∙ above n low in
        exception_lem c q (omega (arith, v)) ∙ rw (v, ltb-true (n - 24) 15 (omega arith))),
    (λ low high n1 n2 n3.
        let v = e ∙ above n (omega arith) in
        (other_lem c q (omega (arith, v)) (omega (arith, v)) (omega (arith, v)) (omega (arith, v))
            (omega (arith, v))
          ∙ rw v)),
  )
