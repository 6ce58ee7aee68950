-- ===== src/Vmm.antt =====
-- Virtual memory, src/kernel/mm/vmm.c: the page tables in Vmm.Paging and the list of regions of an
-- address space in Vmm.Regions, with their theorems in their child modules.
pub mod Paging
pub mod Regions
pub mod Spaces
pub mod Memory
pub mod Processes
mod Tests
