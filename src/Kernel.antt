-- ===== src/Kernel.antt =====
-- The kernel objects that system calls share: files, descriptor tables, vnodes and processes, each at
-- an address, with the process table of proc/proc.c.
mod Store
pub mod Access
unfoldable pub use Store.*
