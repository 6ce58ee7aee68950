-- ===== src/Cpu/Idt.antt =====
-- The interrupt descriptor table of src/kernel/cpu/isr.c.
use titan_os.Base.{
  ℕ, zero, suc, ◌+◌, ◌*◌, ◌/◌, ◌%◌, ◌^◌, ◌<◌, ◌≤◌, ◌≡◌, refl, Option, some, List, ◌==◌,
  if◌then◌else◌, get_elem?, set, length, bit_or, u8, u32, ◌>>=◌, arith, length-set,
  get_elem?-set_self, get_elem?-set_ne, get_elem?-eq-get_or, ◌∙◌, sym, ==_ne,
}
use native.Mathlib.Decide.{ℕ_discrete}

-- `struct idt_entry`.
pub record IdtEntry : Type 0 where
  pub low_addr : ℕ
  pub code_selector : ℕ
  pub ist : ℕ
  pub flags : ℕ
  pub mid_addr : ℕ
  pub high_addr : ℕ
  pub reserved : ℕ

abbrev pub num_stubs : ℕ
num_stubs = 256

-- The entry that `set_idt_entry` writes.
pub entry_of : ℕ → ℕ → IdtEntry
entry_of isr_addr dpl = record {
  low_addr = isr_addr % 2 ^ 16;
  code_selector = 0x8;
  ist = 1;
  flags = u8 (bit_or 0b10001110 (dpl * 2 ^ 5));
  mid_addr = isr_addr / 2 ^ 16 % 2 ^ 16;
  high_addr = u32 (isr_addr / 2 ^ 32);
  reserved = 0;
}

pub set_idt_entry : ℕ → ℕ → ℕ → List IdtEntry → Option (List IdtEntry)
set_idt_entry vec isr_addr dpl idt =
    get_elem? idt (u8 vec) >>= λ old. some (set idt (u8 vec) (entry_of isr_addr dpl))

-- The loop of `setup_idt` at `vec`, with `left` entries to go. A stub is 16 bytes long.
pub setup_loop : ℕ → ℕ → ℕ → List IdtEntry → Option (List IdtEntry)
setup_loop zero vec start_isr_stubs idt = some idt
setup_loop (suc left) vec start_isr_stubs idt = do
  idt' ← set_idt_entry vec (start_isr_stubs + vec * 16) 0 idt
  setup_loop left (vec + 1) start_isr_stubs idt'

pub setup_idt : ℕ → List IdtEntry → Option (List IdtEntry)
setup_idt start_isr_stubs idt = do
  idt' ← setup_loop num_stubs 0 start_isr_stubs idt
  set_idt_entry 0xfe (start_isr_stubs + 0xfe * 16) 3 idt'

-- The address that the processor reads from an entry.
abbrev pub handler_addr : IdtEntry → ℕ
handler_addr e = e.high_addr * 2 ^ 32 + e.mid_addr * 2 ^ 16 + e.low_addr

set_idt_entry_lem :
    (vec addr dpl : ℕ) (idt : List IdtEntry)
    → vec < 256
    → length idt ≡ 256
    → set_idt_entry vec addr dpl idt ≡ some (set idt vec (entry_of addr dpl))
unfolding set_idt_entry
set_idt_entry_lem vec addr dpl idt lt size =
    let e : u8 vec ≡ vec = omega arith in
    rw (e, get_elem?-eq-get_or idt vec (entry_of 0 0) (omega arith))

setup_loop_lem :
    (left vec base : ℕ) (idt : List IdtEntry)
    → vec + left ≡ 256
    → length idt ≡ 256
    → (idt' : List IdtEntry) × (setup_loop left vec base idt ≡ some idt')
      × (length idt' ≡ 256)
      × ((k : ℕ) → k < vec → get_elem? idt' k ≡ get_elem? idt k)
      × ((k : ℕ) → vec ≤ k → k < 256 → get_elem? idt' k ≡ some (entry_of (base + k * 16) 0))
unfolding setup_loop
setup_loop_lem zero vec base idt e size =
    (idt, refl, size, (λ k p. refl), (λ k p q. absurd (omega arith)))
setup_loop_lem (suc left) vec base idt e size =
    let new = entry_of (base + vec * 16) 0 in
    let (idt', run, size', below, above) =
      setup_loop_lem left (vec + 1) base (set idt vec new) (omega arith)
        (length-set idt vec new ∙ size) in
    (
      idt',
      rw (set_idt_entry_lem vec (base + vec * 16) 0 idt (omega arith) size) run,
      size',
      (λ k p. below k (omega arith) ∙ get_elem?-set_ne idt vec k new (omega arith)),
      (λ k p q. elim (ℕ_discrete vec k) [
        | yes s ↦ rw (← s) (below vec (omega arith) ∙ get_elem?-set_self idt vec new (omega arith))
        | no s ↦ above k (omega arith) q
      ]),
    )

-- `setup_idt` on a table of 256 entries writes within it. Afterwards each vector's entry is present,
-- names the stub of that vector, whose address the processor reads back whole, and only vector 0xfe
-- may be raised from user mode.
pub setup_idt_lem :
    (base : ℕ) (idt : List IdtEntry)
    → length idt ≡ 256
    → base + 255 * 16 < 2 ^ 64
    → (idt' : List IdtEntry) × (setup_idt base idt ≡ some idt')
      × (length idt' ≡ 256)
      × ((vec : ℕ)
          → vec < 256
          → (e : IdtEntry) × (get_elem? idt' vec ≡ some e)
            × (handler_addr e ≡ base + vec * 16)
            × (e.flags ≡ (if vec == 0xfe then 0b11101110 else 0b10001110)))
unfolding setup_idt entry_of
setup_idt_lem base idt size fits =
    let (mid, run, size', _, above) = setup_loop_lem 256 0 base idt (omega arith) size in
    let new = entry_of (base + 0xfe * 16) 3 in
    (
      set mid 0xfe new,
      rw run (set_idt_entry_lem 0xfe (base + 0xfe * 16) 3 mid (omega arith) size'),
      length-set mid 0xfe new ∙ size',
      λ vec lt. elim (ℕ_discrete 0xfe vec) [
        | yes s ↦
            (new, rw (← s) (get_elem?-set_self mid 0xfe new (omega arith)), omega arith, rw (← s))
        | no s ↦ (
          entry_of (base + vec * 16) 0,
          get_elem?-set_ne mid 0xfe vec new s ∙ above vec (omega arith) lt,
          omega arith,
          rw (==_ne vec 0xfe (λ t. s (sym t))),
        )
      ],
    )
