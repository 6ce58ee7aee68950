-- ===== src/Lib.antt =====
-- TitanOS, a kernel for x86-64 (src/kernel and src/include of the repository), its parts modelled one
-- to a module. State is passed explicitly; `none` stands for undefined behaviour in the sense of C, and
-- where a loop takes fuel, for fuel that ran out.
--
-- Base: lists with native indices, the comparisons and widths of C, undefined behaviour as a result,
--   and the binary digits of words.
-- Multiboot: the tags of the boot loader, src/include/multiboot2.h, with `get_mb2_tag`; the walk takes
--   fuel, and a fuel above the number of tags is enough. Multiboot/Tags has its theorems.
-- Pmm: src/kernel/mm/pmm.c. `Map` is the global `map`; `alloc_page`, `alloc_specific_page`,
--   `check_page_taken` and `free_page` are the functions of the same names with `pmm_`, and `mask_of` is
--   the expression `1 << j`. Pmm/State holds the invariant, Pmm/Alloc, Pmm/Specific, Pmm/Address and
--   Pmm/Free the theorems. These loops are bounded by the code's own counters, and need no fuel.
--   Pmm/Init is `pmm_init`, whose loops over pages get 33 rounds: among 33 pages in a row there is one
--   at which the code is undefined. Pmm/Kernel has its theorems.
-- PageTables: src/kernel/mm/vmm_hashmap.c, the map from physical to virtual addresses of page tables.
--   Nodes live in a store by pointer, the buckets are a list of pointers, and a pointer that `kmalloc`
--   returns is an argument. Walks of a bucket take fuel; a fuel above the length of each bucket's list
--   is enough. PageTables/Chain relates pointers to lists, PageTables/State holds the invariant, and
--   PageTables/Put, PageTables/Removal and PageTables/Reuse the theorems.
-- Vmm: src/kernel/mm/vmm.c. Vmm/Paging has `umap` and `mmap` over `Tables`, the entries of all page
--   tables; the loop of `mmap` goes down by level, and that of `umap` by its count of rounds. Vmm/Regions
--   has the list of regions of one address space, with `vmm_lengthen`, `vmm_alloc` and `vmm_free`; what
--   backs a page is the record `Backing`. Vmm/Paging/Mapping, Vmm/Regions/Layout and Vmm/Regions/Changes
--   hold the theorems. Vmm/Spaces has the regions that the kernel starts with, and the stacks and the
--   device memory that it allocates, with Vmm/Spaces/Placement and the theorems in Vmm/Spaces/Stacks
--   and Vmm/Spaces/Mmio. Vmm/Memory joins Pmm, PageTables and Vmm/Paging: `alloc_pg_table` of
--   vmm_hashmap.c, which calls `mmap`, which calls it; the fuel is the depth of these calls, and 1 is enough where the tables for a new table are
--   present. Its children have a new table (Vmm/Memory/NewTable, Vmm/Memory/Nested), a page whose table
--   is not there yet (Vmm/Memory/Demand), what backs the pages of a region (Vmm/Memory/Backed,
--   Vmm/Memory/Window), the tables of the boot code (Vmm/Memory/Start) and the table of a new space
--   (Vmm/Memory/Pml4t). Vmm/Processes has the spaces of processes, with `create_vmm`, `switch_vm_space`, `alloc_user_stack` and the part of
--   `reap_process` that releases a space, with theorems in Vmm/Processes/Stacks and
--   Vmm/Processes/Release; Vmm/Processes/Pages joins them with Vmm/Memory.
-- Heap: src/kernel/mm/kernel_heap_manager.c, on the bytes of the heap. Heap/Bytes reads back headers,
--   Heap/Chain relates the bytes to a list of regions, Heap/Place, Heap/Merge and Heap/Walk follow the
--   branches of `kmalloc`, and Heap/Malloc, Heap/Free, Heap/Small and Heap/Growth hold the theorems. The
--   loops take fuel; more than twice the number of regions is enough.
-- MemoryMap: src/kernel/mm/mb2_mmap.c, the lists of available and reserved memory; MemoryMap/Parse is
--   `mb2_mmap_init`, with fuel for the tags and for the entries.
-- Sched: src/kernel/sched/scheduler.c. `Sched` holds the globals and the threads and processes by
--   pointer; `schedule` is composed of the parts `save_context`, `retire`, `advance` and `mark_running`.
--   Sched/Create has the functions that make threads and processes, Sched/Schedule and Sched/Turns the
--   theorems on the order in which threads run. The walks that unlink an object take fuel for the length
--   of the list; the theorems on the ring of live threads hold for every fuel, since no thread is
--   unlinked there.
-- Cpu: Cpu/Idt and Cpu/Interrupts are src/kernel/cpu/isr.c with the vectors that the stubs of
--   src/kernel/cpu/isr_stubs.S push; Cpu/Gdt is src/kernel/cpu/gdt64.c; Cpu/Keyboard is
--   src/kernel/drivers/keyboard.c, with its theorem in Cpu/Keyboard/Buffer. What the branches of
--   `interrupt_handler` call is the record `Handlers`.
-- Vga: src/kernel/drivers/vga.c, the cells and the cursor of the console and the functions that print.
--   `printint` is modelled for numbers that are not negative.
-- Strings: src/kernel/libtitan/mem.c and str.c, on lists of bytes.
-- Tar: src/kernel/fs/tar.c, the sizes and headers of the archive of initial files. The walk over the
--   headers takes fuel; a fuel above the number of headers is enough. Tar/Init is `tar_init`.
-- Resources: src/kernel/fs/resource_handling.c, the table of resources of a process.
-- Vfs: src/kernel/fs/vfs.c, the mount points (Vfs/Mounts), the opened files (Vfs/Files) and their reads
--   and read positions (Vfs/Reads).
-- Acpi: src/kernel/drivers/acpi.c; Acpi/Tables has checksums and signatures, and Acpi/Root the search
--   for the `rsdp_t`.
-- Apic: src/kernel/drivers/apic.c; Apic/Madt has the walk over the table of controllers, which takes
--   fuel, and Apic/Redirection the bits of the registers.
-- Programs: src/kernel/syscalls/exec_elf.c, the loader; Programs/Segments has a round of its loop, and
--   Programs/Exec is `exec_elf`.
-- Syscalls: src/kernel/syscalls/syscall.c, with files that a program opens in Syscalls/Handles.
-- Reports: the functions that print what was found: `dump_regions` of src/kernel/mm/mb2_mmap.c, those of
--   src/kernel/drivers/acpi.c, `dump_ehdr` of src/kernel/syscalls/exec_elf.c and `print_name` of
--   src/kernel/kernel.c, as calls of Vga.
-- Locks: src/kernel/sched/locks.c. The threads are places by number, and their steps a relation;
--   Locks/Exclusion has the invariant and what can be reached.
--
-- The parts meet in `Keyboard`, which prints on the console of Vga, in Sched/Create, which writes the
-- contexts of Cpu/Interrupts, and in Tar, which compares names with Strings. Heap/Growth ties `kmalloc`
-- to `vmm_lengthen`, Acpi maps its tables with `alloc_mmio`, Programs loads from Vfs into a space of Vmm
-- and makes a process of Sched from it, and Syscalls puts what `vfs_open` returns into the table of
-- Resources. Pmm/Init lengthens its bit map with `vmm_lengthen`, and reads the entries of MemoryMap; what
-- Vmm/Regions and Vmm/Processes ask of the pages are the interfaces `Backing` and `SpaceOps`, which
-- Vmm/Memory fills.
--
-- Not modelled: the boot code in assembly (src/boot, src/kernel/kernel_init.S, context_switch.S), the
-- order of the initial calls (src/kernel/kernel.c), the tests, the end of a process with several threads,
-- and the processor's and the devices' side of ports and registers.
pub mod Base
pub mod Multiboot
pub mod Pmm
pub mod PageTables
pub mod Vga
pub mod Cpu
pub mod Sched
pub mod Vmm
pub mod MemoryMap
pub mod Strings
pub mod Tar
pub mod Resources
pub mod Heap
pub mod Vfs
pub mod Acpi
pub mod Apic
pub mod Programs
pub mod Syscalls
pub mod Locks
pub mod Reports
