-- ===== src/Vm.antt =====
-- arch/mips/vm/ram.c and arch/mips/vm/dumbvm.c: physical memory, address spaces and page faults.
pub mod Ram
pub mod AddrSpace
pub mod Fault
