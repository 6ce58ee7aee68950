-- ===== src/Cpu.antt =====
-- The descriptor tables and interrupts: src/kernel/cpu, and the parts of src/kernel/drivers that
-- interrupts reach.
pub mod Idt
pub mod Gdt
pub mod Interrupts
pub mod Keyboard
mod Tests
