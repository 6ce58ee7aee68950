-- ===== src/Programs/Tests.antt =====
-- A file at 0x2200 whose program header loads 4 bytes from its byte 100 to 0x400000.
use titan_os.Base.{
  ℕ, suc, ◌≡◌, refl, Option, List, true, none, some, [], ◌∷◌, ◌==◌, if◌then◌else◌, replicate,
}
use titan_os.Vmm.Regions.{back_pages, Region, Backing, back_pages}
use titan_os.Vfs.{FileDescriptor, tar, initramfs, root}
use titan_os.Multiboot.{read_u32, read_u64}
use titan_os.Programs.{ProgramHeader, program_header, Machine}
use titan_os.Programs.Exec.{System, Job}
use titan_os.Vmm.Processes.{AddressSpace, SpaceOps}
use titan_os.Tar.{Header}
use titan_os.Vfs.{ustar_read}

abbrev file : FileDescriptor
file = record {
  fs_file_id = 0;
  mountpoint_id = 0;
  filename = 97 ∷ replicate 63 0;
  buf_read_pos = 0;
  buf_write_pos = 0;
  file_size = 200;
  file_buffer = 0x2200;
}

abbrev head : Region
head = record { base = 0; length = 0; flags = 1 }

abbrev kernel : Region
kernel = record { base = 0xffffff8000000000; length = 0x40000; flags = 1 }

abbrev segment : Region
segment = record { base = 0x400000; length = 0x1000; flags = 3 }

abbrev backing : Backing ℕ
backing = record { back = λ v a f m. some (true, suc m) }

abbrev bytes : ℕ → ℕ
bytes a =
    if a == 0x2200
    then 1
    else if a == 0x2208
    then 100
    else if a == 0x2212
    then 0x40
    else if a == 0x2220
    then 4
    else if a == 0x2229
    then 0x10
    else 0

abbrev header : ProgramHeader
header = record { p_type = 1; p_offset = 100; p_vaddr = 0x400000; p_filesz = 4; p_memsz = 0x1000 }

abbrev machine : Machine ℕ
machine = record {
  vfs = record {
    mountpoints = 0x5000 ∷ replicate 11 0;
    mountpoint_at = λ q.
        if q == 0x5000
        then some (record { type = tar; device = initramfs; mountpoint = root })
        else none;
    files = file ∷ [];
  };
  space = record {
    regions = head ∷ kernel ∷ [];
    mmio_region = 0;
    kernel_stack_ptr = 0;
    bytes = bytes;
    pages = 0;
  };
}

header_at : program_header bytes 0x2200 ≡ header
unfolding program_header read_u64 read_u32
header_at = refl

-- The program "a" without segments, which starts at 0x400000, in a system with the idle process at
-- 0x100 and its thread at 0x200.
abbrev archive : ℕ → Option Header
archive a =
    if a == 0x2000
    then some (record {
      filename = 97 ∷ replicate 99 0;
      size = 48 ∷ 48 ∷ 48 ∷ 48 ∷ 48 ∷ 48 ∷ 48 ∷ 48 ∷ 49 ∷ 48 ∷ 48 ∷ 0 ∷ [];
    })
    else none

abbrev program : ℕ → ℕ
program a = if a == 0x221a then 0x40 else 0

abbrev closed : FileDescriptor
closed = record file { filename = replicate 64 0; file_size = 0; file_buffer = 0 }

abbrev idle_space : AddressSpace
idle_space = record { own = head ∷ []; pml4t = 0x7000 }

abbrev system : System ℕ
system = record {
  machine = record machine {
    vfs = record (machine.vfs) { files = closed ∷ [] };
    space = record (machine.space) { bytes = program };
  };
  sched = record {
    thread_at = λ q. none;
    process_at =
        λ q. if q == 0x100 then some (record { pid = 0; threads = 0x200; next = 0 }) else none;
    idle_proc = 0x100;
    head_proc = 0;
    current_process = 0x100;
    current_thread = 0x200;
  };
  vmm_of = λ q. idle_space;
  owner = some 0x100;
}

abbrev ops : SpaceOps ℕ
ops = record {
  create_new_pml4t = λ n. some (0x3000, suc n);
  load_pml4t = λ p n. some n;
  remove_pml4t = λ p n. some n;
}

abbrev job : Job
job = record {
  filename = 47 ∷ 97 ∷ 0 ∷ [];
  name_at = 0x600;
  ehdr_at = 0x9000;
  phdr_at = 0x9100;
  process = 0x300;
  thread = 0x400;
  next_pid = 1;
  next_tid = 1;
}

abbrev file_headers : List ℕ
file_headers = 0x2000 ∷ replicate 4 0

abbrev loaded : Machine ℕ
loaded = record {
  vfs = record (machine.vfs) { files = record file { file_size = 64 } ∷ [] };
  space = record (machine.space) { bytes = ustar_read 0x2200 0x9000 64 program; pages = 1 };
}
