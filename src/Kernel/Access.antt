-- ===== src/Kernel/Access.antt =====
-- What a read, a lock operation or a count of references does where the object is there.
use polito_os161v.Common.{
  ℕ, ◌+◌, ◌-◌, ◌<◌, ◌≡◌, ◌≢◌, refl, arith, Option, none, some, ok, true, false, ◌==◌, and_then,
  ==_self,
}
use polito_os161v.Synch.{Lock, free, held, acquire, release}
use polito_os161v.Kernel.Store.{
  Ptr, File, FileDesc, Proc, Kernel, put, put_self, put-put, load_file, load_fd, load_proc,
  store_file, store_fd, store_proc, fd_lock, fd_unlock, f_lock, f_unlock, proc_lock, proc_unlock,
  allproc_lock, allproc_unlock, vop_incref, vop_decref,
}

abbrev pub with_fd : Kernel → Ptr → FileDesc → Kernel
with_fd k t d = record k { fds = put k.fds t (some d) }

abbrev pub with_file : Kernel → Ptr → File → Kernel
with_file k p f = record k { files = put k.files p (some f) }

abbrev pub with_proc : Kernel → Ptr → Proc → Kernel
with_proc k p x = record k { procs = put k.procs p (some x) }

module _ (t : Ptr) (k : Kernel) where
  pub load_fd_eq : (d : FileDesc) → k.fds t ≡ some d → load_fd t k ≡ ok d k
  unfolding load_fd
  load_fd_eq d e = rw (e, load_fd)

  pub load_file_eq : (f : File) → k.files t ≡ some f → load_file t k ≡ ok f k
  unfolding load_file
  load_file_eq f e = rw (e, load_file)

  pub load_proc_eq : (x : Proc) → k.procs t ≡ some x → load_proc t k ≡ ok x k
  unfolding load_proc
  load_proc_eq x e = rw (e, load_proc)

  pub fd_lock_eq :
      (d : FileDesc)
      → k.fds t ≡ some d
      → d.lk ≡ free
      → fd_lock t k ≡ ok tt (with_fd k t (record d { lk = held k.cur }))
  unfolding fd_lock
  fd_lock_eq d e l = ground arith

  pub fd_unlock_eq :
      (d : FileDesc)
      → k.fds t ≡ some d
      → d.lk ≡ held k.cur
      → fd_unlock t k ≡ ok tt (with_fd k t (record d { lk = free }))
  unfolding fd_unlock
  fd_unlock_eq d e l = ground arith

  pub f_lock_eq :
      (f : File)
      → k.files t ≡ some f
      → f.lk ≡ free
      → f_lock t k ≡ ok tt (with_file k t (record f { lk = held k.cur }))
  unfolding f_lock
  f_lock_eq f e l = ground arith

  pub f_unlock_eq :
      (f : File)
      → k.files t ≡ some f
      → f.lk ≡ held k.cur
      → f_unlock t k ≡ ok tt (with_file k t (record f { lk = free }))
  unfolding f_unlock
  f_unlock_eq f e l = ground arith

  pub proc_lock_eq :
      (x : Proc)
      → k.procs t ≡ some x
      → x.lk ≡ free
      → proc_lock t k ≡ ok tt (with_proc k t (record x { lk = held k.cur }))
  unfolding proc_lock
  proc_lock_eq x e l = ground arith

  pub proc_unlock_eq :
      (x : Proc)
      → k.procs t ≡ some x
      → x.lk ≡ held k.cur
      → proc_unlock t k ≡ ok tt (with_proc k t (record x { lk = free }))
  unfolding proc_unlock
  proc_unlock_eq x e l = ground arith

pub allproc_lock_eq :
    (k : Kernel)
    → k.lk_allproc ≡ free
    → allproc_lock k ≡ ok tt (record k { lk_allproc = held k.cur })
unfolding allproc_lock
allproc_lock_eq k e = ground arith

pub allproc_unlock_eq :
    (k : Kernel)
    → k.lk_allproc ≡ held k.cur
    → allproc_unlock k ≡ ok tt (record k { lk_allproc = free })
unfolding allproc_unlock
allproc_unlock_eq k e = ground arith

-- The equations by which `simp` runs kernel code on objects that are there.
pub ruleset exec = (
  and_then, load_fd, store_fd, fd_lock, fd_unlock, load_file, store_file, f_lock, f_unlock,
  load_proc, store_proc, proc_lock, proc_unlock, allproc_lock, allproc_unlock, acquire, release,
  put_self, put-put, ==_self,
)
