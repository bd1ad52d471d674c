-- ===== src/Lib.antt =====
-- The OS/161 kernel (os161/src/kern): the parts that manage memory, files and processes.
--
-- A thread runs kernel code on the kernel's state. What the code does is a `Run`: it returns a value
-- and the new state, it panics (a failed KASSERT, or an access that C leaves undefined), or its
-- thread goes to sleep on a lock or a semaphore. Numbers are natural; a 32-bit or 16-bit value has
-- its wrap-around written out.
--
-- Common is lists, tests, error numbers and the `Run` type that the models share.
-- Bitmap is lib/bitmap.c. An array of bytes with the bits past the end marked as in use.
-- Vm.Ram is arch/mips/vm/ram.c, and getppages and alloc_kpages of arch/mips/vm/dumbvm.c. Physical
--   memory is its two bounds and a function from addresses to bytes.
-- Vm.AddrSpace is the as_ functions of dumbvm.c, on top of Vm.Ram.
-- Vm.Fault is vm_fault and as_activate of dumbvm.c, with the TLB as a list of entries of any length.
-- Synch is locks and semaphores of thread/synch.c, as one thread sees them.
-- Synch.Threads is lock_acquire, lock_release and lock_do_i_hold again, as the steps of any number of
--   threads on one lock, with the wait channel and the two spinlocks of thread/synch.c and thread/thread.c.
-- Kernel is the heap objects that the next parts share (files, descriptor tables, processes) as maps
--   from pointers, and reading, writing and locking them; VOP_INCREF and VOP_DECREF of vfs/vnode.c,
--   under the lock of vfs/vfslist.c.
-- FileDesc is io/filedesc.c, the descriptor table of a process.
-- File is io/file.c, files by descriptor and closing them.
-- Proc is proc/proc.c: the process table, of which slot 0 is given like any other.
-- Fork is ___waitpid and sys_exit of syscall/fork.c, up to thread_exit.
-- FileSyscall is k_open, sys_close, sys_dup2, sys_read, sys_write and sys_lseek of
--   syscall/file_syscall.c, on FileDesc and File. vfs_open and the VOP_ calls are arguments.
-- Threadlist is thread/threadlist.c: nodes by address, with their two pointers.
-- Kmalloc is vm/kmalloc.c: the words of the heap's pages, the pagerefs that describe the pages, and
--   Vm.Ram below. Its calls run without another processor's calls between their steps.
-- Copyinout is vm/copyinout.c, for memory as a function from addresses to bytes; which accesses fault
--   is an argument, and setjmp and longjmp are a result that says that the copy was left.
-- Time, Array and Uio are lib/time.c, lib/array.c and lib/uio.c. The loop of array_preallocate has
--   `num + 1` rounds, enough for `num` up to 2^28; that of uiomove is given its number of rounds.
-- Hangman is thread/hangman.c, with the rounds of hangman_check an argument.
-- Sfs is fs/sfs/sfs_balloc.c and fs/sfs/sfs_bmap.c on a Bitmap; a block is read and written by one
--   operation of the device, which succeeds or reports EIO.
--
-- Not modelled: the link between Kmalloc and the objects of Kernel (there kmalloc is an operation
-- that gives a new address or NULL, and kfree gives nothing back), scheduling and interrupts, condition
-- variables, the VFS and device drivers. Uio has copyin and copyout as arguments. A free of an object
-- that a lock or a map holds removes it, and a later access is a panic.
pub mod Common
pub mod Bitmap
pub mod Vm
pub mod Synch
pub mod Kernel
pub mod FileDesc
pub mod File
pub mod Proc
pub mod Fork
pub mod Time
pub mod Array
pub mod Sfs
pub mod Hangman
pub mod Uio
pub mod Threadlist
pub mod Copyinout
pub mod Kmalloc
pub mod FileSyscall
pub mod Tests
