-- ===== src/Proc.antt =====
-- proc/proc.c: the table of processes, and their creation and destruction.
pub mod Pid
pub mod Laws
use polito_os161v.Common.{
  ℕ, zero, suc, ◌+◌, ◌-◌, Bool, true, false, ◌&&◌, not, ◌==◌, if◌then◌else◌, ltb, leb, Option, none,
  some, List, get_or, set, ℤ, pos, negsuc, Res, good, fail, enomem, enproc, einval, esrch, Run, ok,
  panic, Cmd, pure, ◌>>=◌, ◌>>◌, replicate,
}
use polito_os161v.Synch.{destroy, free}
use polito_os161v.Kernel.{
  Ptr, Kernel, Proc, kmalloc, load_proc, store_proc, proc_lock, allproc_lock, allproc_unlock,
  on_lock,
}
use polito_os161v.FileDesc.{fd_create, fd_destroy, file_copy}
use polito_os161v.File.{kassert}

-- MAX_PROCESSES and PROC_RESERVED_SPOT
abbrev pub max_processes : ℕ
max_processes = 32

abbrev pub proc_reserved_spot : ℕ
proc_reserved_spot = 0xcafebabe

-- A loop over the process table: `n` rounds from slot `i` on, for one that is NULL.
unfoldable pub scan : ℕ → ℕ → List Ptr → Option ℕ
scan zero i l = none
scan (suc n) i l = let rest = scan n (i + 1) l in if get_or l i 0 == 0 then some i else rest

-- `proc_found_spot`
proc_found_spot : ℕ → Cmd Kernel (Res ℕ)
unfolding allproc_unlock
proc_found_spot spot = do
  λ k. kassert (get_or k.p_table spot 0 == 0) k
  λ k. ok tt (record k { next_pid = spot + 1 })
  allproc_unlock
  pure (good spot)

-- What `proc_alloc_pid` does with what its two loops found.
found : Option ℕ → Option ℕ → Cmd Kernel (Res ℕ)
unfolding proc_found_spot allproc_unlock
found (some i) _ = proc_found_spot i
found none (some i) = proc_found_spot i
found none none = do allproc_unlock; pure (fail enproc)

-- The part of `proc_alloc_pid` under the lock, from the slot `start` on.
search : ℕ → Cmd Kernel (Res ℕ)
unfolding found scan
search start k =
    found (scan (max_processes - start) start k.p_table) (scan start 0 k.p_table)
      (record k { next_pid = start })

-- `proc_alloc_pid`
unfoldable pub proc_alloc_pid : Cmd Kernel (Res ℕ)
unfolding search allproc_lock
proc_alloc_pid = do
  allproc_lock
  λ k. search (if leb max_processes k.next_pid then 0 else k.next_pid) k

-- `proc_add_to_allproc`
unfoldable pub proc_add_to_allproc : Ptr → ℕ → Cmd Kernel (Unit {0})
unfolding allproc_lock allproc_unlock
proc_add_to_allproc p spot = do
  allproc_lock
  λ k. ok tt (record k { p_table = set k.p_table spot p })
  allproc_unlock

-- `proc_dealloc_pid`
unfoldable pub proc_dealloc_pid : ℕ → Cmd Kernel (Unit {0})
unfolding allproc_lock allproc_unlock
proc_dealloc_pid pid = do
  allproc_lock
  λ k. kassert (not (get_or k.p_table pid 0 == 0)) k
  λ k. ok tt (record k { p_table = set k.p_table pid 0 })
  allproc_unlock

-- The end of `proc_create`, for what `sem_create` returned. `lock_create` and `sem_create` are one
-- allocation each; a process that is not stored yet needs no `kfree`.
with_sem : ℕ → Ptr → Ptr → Option Ptr → Cmd Kernel (Res Ptr)
unfolding fd_destroy proc_dealloc_pid store_proc proc_add_to_allproc
with_sem pid p t none = do fd_destroy t; proc_dealloc_pid pid; pure (fail enomem)
with_sem pid p t (some _) = do
  store_proc p (
      some
        (record { pid = pid; parent = 0; fd = t; lk = free; sem = 0; is_dead = false; retval = 0 }))
  proc_add_to_allproc p pid
  pure (good p)

with_lock : ℕ → Ptr → Ptr → Option Ptr → Cmd Kernel (Res Ptr)
unfolding with_sem kmalloc fd_destroy proc_dealloc_pid
with_lock pid p t none = do fd_destroy t; proc_dealloc_pid pid; pure (fail enomem)
with_lock pid p t (some _) = kmalloc >>= with_sem pid p t

with_table : ℕ → Ptr → Res Ptr → Cmd Kernel (Res Ptr)
unfolding with_lock kmalloc proc_dealloc_pid
with_table pid p (fail e) = do proc_dealloc_pid pid; pure (fail e)
with_table pid p (good t) = kmalloc >>= with_lock pid p t

with_memory : ℕ → Option Ptr → Cmd Kernel (Res Ptr)
unfolding with_table fd_create proc_dealloc_pid
with_memory pid none = do proc_dealloc_pid pid; pure (fail enomem)
with_memory pid (some p) = fd_create >>= with_table pid p

with_pid : Res ℕ → Cmd Kernel (Res Ptr)
unfolding with_memory kmalloc
with_pid (fail e) = pure (fail e)
with_pid (good pid) = kmalloc >>= with_memory pid

-- `proc_create`
unfoldable pub proc_create : Cmd Kernel (Res Ptr)
unfolding with_pid proc_alloc_pid
proc_create = proc_alloc_pid >>= with_pid

-- What `proc_copy` does with the new process.
copied : Ptr → Res Ptr → Cmd Kernel (Res Ptr)
copied source (fail e) = pure (fail e)
copied source (good p) = do
  s ← load_proc source
  x ← load_proc p
  file_copy s.fd x.fd
  pure (good p)

-- `proc_copy`
unfoldable pub proc_copy : Ptr → Cmd Kernel (Res Ptr)
unfolding copied proc_create
proc_copy source = proc_create >>= copied source

-- `proc_destroy`
unfoldable pub proc_destroy : Ptr → Cmd Kernel (Unit {0})
unfolding load_proc store_proc fd_destroy proc_dealloc_pid destroy
proc_destroy p = do
  x ← load_proc p
  λ k. on_lock (destroy x.lk) (λ l. store_proc p (some (record x { lk = l }))) k
  fd_destroy x.fd
  store_proc p none
  proc_dealloc_pid x.pid

-- What `proc_get` does with the slot's pointer: the process is returned locked.
pub got : Ptr → Cmd Kernel (Res Ptr)
unfolding proc_lock allproc_unlock
got p =
    if not (p == 0) && not (p == proc_reserved_spot)
    then (do proc_lock p; allproc_unlock; pure (good p))
    else (do allproc_unlock; pure (fail esrch))

-- `proc_get`
unfoldable pub proc_get : ℤ → Cmd Kernel (Res Ptr)
unfolding got allproc_lock
proc_get (negsuc n) = pure (fail einval)
proc_get (pos pid) =
    if leb max_processes pid
    then pure (fail einval)
    else if pid == 0
    then pure (fail einval)
    else (do allproc_lock; λ k. got (get_or k.p_table pid 0) k)

-- `pid_alloc`, which makes its search without the lock and leaves slot 0 out.
unfoldable pub pid_alloc : Cmd Kernel (Res ℕ)
unfolding scan
pid_alloc k = elim (scan (max_processes - 1) 1 k.p_table) [
  | none ↦ ok (fail enproc) k
  | some i ↦ ok (good i) k
]

-- `proc_system_init`, for whether the two `lock_create` calls succeed.
unfoldable pub proc_system_init : Bool → Bool → Cmd Kernel (Unit {0})
proc_system_init true true k =
    ok tt (record k { p_table = replicate max_processes 0; lk_allproc = free; next_pid = 0 })
proc_system_init true false k = panic
proc_system_init false _ k = panic
