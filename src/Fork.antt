-- ===== src/Fork.antt =====
-- syscall/fork.c: how a process ends and how its parent collects its exit code.
pub mod Exit
use polito_os161v.Common.{
  ℕ, ◌+◌, ◌*◌, ◌^◌, ◌%◌, Bool, true, false, ◌&&◌, not, ◌==◌, if◌then◌else◌, u32, none, some, ℤ, pos,
  negsuc, Res, good, fail, einval, echild, enomem, Run, ok, panic, Cmd, pure, ◌>>=◌, ◌>>◌, Option,
}
use polito_os161v.Synch.{sem_down, sem_up}
use polito_os161v.Kernel.{Ptr, Kernel, Proc, load_proc, store_proc, proc_lock, proc_unlock, kmalloc}
use polito_os161v.File.{kassert, close_all_f}
use polito_os161v.Proc.{proc_get, proc_destroy, proc_copy}

-- WNOHANG
abbrev pub wnohang : ℕ
wnohang = 1

-- `_MKWAIT_EXIT`, in 32 bits; `__WEXITED` is 0.
abbrev pub mkwait_exit : ℕ → ℕ
mkwait_exit x = u32 (x * 4)

-- `P` and `V` on the `p_sem` of a process
unfoldable pub proc_down : Ptr → Cmd Kernel (Unit {0})
unfolding load_proc store_proc sem_down
proc_down p = do
  x ← load_proc p
  λ k. elim (sem_down x.sem) [
    | ok _ n ↦ store_proc p (some (record x { sem = n })) k
    | panic ↦ panic
    | Run.block ↦ Run.block
  ]

unfoldable pub proc_up : Ptr → Cmd Kernel (Unit {0})
unfolding load_proc store_proc sem_up
proc_up p = do
  x ← load_proc p
  λ k. elim (sem_up x.sem) [
    | ok _ n ↦ store_proc p (some (record x { sem = n })) k
    | panic ↦ panic
    | Run.block ↦ Run.block
  ]

-- The part of `___waitpid` that waits for the process and collects its code.
collect : Ptr → Cmd Kernel (Res ℕ)
unfolding proc_unlock proc_lock proc_down proc_destroy load_proc
collect p = do
  proc_unlock p
  proc_down p
  proc_lock p
  y ← load_proc p
  kassert y.is_dead
  proc_unlock p
  proc_destroy p
  pure (good (mkwait_exit y.retval))

-- The part of `___waitpid` after `proc_get`.
waiting : Ptr → ℕ → Res Ptr → Cmd Kernel (Res ℕ)
unfolding collect proc_unlock load_proc
waiting me options (fail e) = pure (fail e)
waiting me options (good p) = do
  x ← load_proc p
  if not (x.parent == me)
      then (do proc_unlock p; pure (fail echild))
      else if not x.is_dead && (options == wnohang)
      then (do proc_unlock p; pure (good 0))
      else collect p

-- `___waitpid`, called by the process `me`. The result is what goes to `*retval`.
unfoldable pub waitpid : Ptr → ℤ → ℕ → Cmd Kernel (Res ℕ)
unfolding waiting
waitpid me pid options =
    if not (options == 0) && not (options == wnohang)
    then pure (fail einval)
    else proc_get pid >>= waiting me options

-- The part of `sys_exit` after the files are closed.
leave : Ptr → ℕ → Cmd Kernel (Unit {0})
unfolding load_proc store_proc proc_lock proc_unlock proc_up
leave p code = do
  proc_lock p
  x ← load_proc p
  store_proc p (some (record x { retval = code; is_dead = true }))
  if x.parent == 0 then (do proc_unlock p; proc_destroy p) else (do proc_up p; proc_unlock p)

-- `sys_exit` by the process `p`, up to `thread_exit`. `exitcode` is the 32-bit pattern of the `int`.
unfoldable pub sys_exit : Ptr → ℕ → Cmd Kernel (Unit {0})
unfolding leave load_proc
sys_exit p exitcode = do
  x ← load_proc p
  r ← close_all_f x.fd
  elim r [ fail _ ↦ (λ k. panic) | good _ ↦ leave p exitcode ]
