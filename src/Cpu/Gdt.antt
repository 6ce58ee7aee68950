-- ===== src/Cpu/Gdt.antt =====
-- The global descriptor table, src/kernel/cpu/gdt64.c.
use titan_os.Base.{ℕ, ◌+◌, ◌-◌, ◌*◌, ◌/◌, ◌^◌, ◌<◌, ◌≡◌, refl, bit_or, u8, u16, u32, u64, arith}

-- `gdt_segment_t`.
pub record Segment : Type 0 where
  pub limit : ℕ
  pub base0 : ℕ
  pub base1 : ℕ
  pub access_byte : ℕ
  pub flags_and_limit : ℕ
  pub base2 : ℕ

-- `gdt64_segment_t`.
pub record SystemSegment : Type 0 where
  pub limit : ℕ
  pub base0 : ℕ
  pub base1 : ℕ
  pub access_byte : ℕ
  pub flags_and_limit : ℕ
  pub base2 : ℕ
  pub base3 : ℕ
  pub reserved : ℕ

-- `gdt64_t`.
pub record Gdt64 : Type 0 where
  pub null_segment : Segment
  pub code_segment : Segment
  pub data_segment : Segment
  pub user_code_segment : Segment
  pub user_data_segment : Segment
  pub tss_segment : SystemSegment

-- `tss_t`, the fields that the kernel sets.
pub record Tss : Type 0 where
  pub rsp0 : ℕ
  pub rsp1 : ℕ
  pub rsp2 : ℕ
  pub ist1 : ℕ
  pub iopb : ℕ

-- `sizeof(tss_t)`: 104 bytes of fields in a struct aligned to 16.
abbrev pub tss_size : ℕ
tss_size = 112

-- A segment of base 0 with the largest limit.
abbrev pub flat : ℕ → ℕ → Segment
flat access flags = record {
  limit = 0xffff;
  base0 = 0;
  base1 = 0;
  access_byte = access;
  flags_and_limit = flags;
  base2 = 0;
}

-- The initial `gdt64`.
abbrev pub gdt64 : Gdt64
gdt64 = record {
  null_segment = record {
    limit = 0;
    base0 = 0;
    base1 = 0;
    access_byte = 0;
    flags_and_limit = 0;
    base2 = 0;
  };
  code_segment = flat 0b10011010 0b10101111;
  data_segment = flat 0b10010010 0b10100000;
  user_code_segment = flat 0b11111010 0b10101111;
  user_data_segment = flat 0b11110010 0b10100000;
  tss_segment = record {
    limit = tss_size - 1;
    base0 = 0;
    base1 = 0;
    access_byte = 0b10001001;
    flags_and_limit = bit_or 0b00100000 ((tss_size - 1) / 2 ^ 16);
    base2 = 0;
    base3 = 0;
    reserved = 0;
  };
}

abbrev pub kernel_stack_size : ℕ
kernel_stack_size = 0x2000

-- The part of `remap_gdt` that writes the descriptor of the task state segment at `tss_addr`.
pub remap_tss_segment : ℕ → Gdt64 → Gdt64
remap_tss_segment tss_addr g = record g {
  tss_segment = record g.tss_segment {
    base0 = u16 tss_addr;
    base1 = u8 (tss_addr / 2 ^ 16);
    base2 = u8 (tss_addr / 2 ^ 24);
    base3 = u32 (tss_addr / 2 ^ 32);
  };
}

-- `remap_gdt` up to the loads of the registers, for the address of `tss` and the two stacks that
-- `alloc_kernel_stack` returns.
pub remap_gdt : ℕ → ℕ → ℕ → Gdt64 → Tss → Gdt64 × Tss
remap_gdt tss_addr stack1 stack2 g tss = (
  remap_tss_segment tss_addr g,
  record tss {
    ist1 = u64 (stack1 + kernel_stack_size + 2 ^ 64 - 8);
    rsp1 = u64 (stack2 + kernel_stack_size + 2 ^ 64 - 8);
  },
)

-- The eight bytes of a descriptor, read as one number, lowest byte first.
abbrev pub word_of : Segment → ℕ
word_of s =
    s.limit
    + 2 ^ 16 * s.base0
    + 2 ^ 32 * s.base1
    + 2 ^ 40 * s.access_byte
    + 2 ^ 48 * s.flags_and_limit
    + 2 ^ 56 * s.base2

-- The base address that the processor reads from a descriptor of 16 bytes.
abbrev pub base_of : SystemSegment → ℕ
base_of s = s.base0 + 2 ^ 16 * s.base1 + 2 ^ 24 * s.base2 + 2 ^ 32 * s.base3

-- After `remap_gdt` the processor reads the whole 64-bit address of the task state segment from its
-- descriptor, every other field of the table is as it was, and the two stack pointers lie 8 bytes
-- below the top of stacks that end in the address space.
pub remap_gdt_lem :
    (tss_addr stack1 stack2 : ℕ) (g : Gdt64) (tss : Tss)
    → tss_addr < 2 ^ 64
    → stack1 + 0x2000 < 2 ^ 64
    → stack2 + 0x2000 < 2 ^ 64
    → (g' : Gdt64) × (tss' : Tss) × (remap_gdt tss_addr stack1 stack2 g tss ≡ (g', tss'))
      × (base_of g'.tss_segment ≡ tss_addr)
      × (g'.tss_segment.access_byte ≡ g.tss_segment.access_byte)
      × (g'.tss_segment.limit ≡ g.tss_segment.limit)
      × (g'.code_segment ≡ g.code_segment)
      × (g'.user_code_segment ≡ g.user_code_segment)
      × (tss'.ist1 + 8 ≡ stack1 + 0x2000)
      × (tss'.rsp1 + 8 ≡ stack2 + 0x2000)
      × (tss'.rsp0 ≡ tss.rsp0)
unfolding remap_gdt remap_tss_segment
remap_gdt_lem tss_addr stack1 stack2 g tss lt lt1 lt2 =
    (_, _, refl, omega arith, refl, refl, refl, refl, omega arith, omega arith, refl)
