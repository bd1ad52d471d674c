-- ===== src/Fork/Exit.antt =====
-- sys_exit and ___waitpid of syscall/fork.c: the exit code that the parent collects.
use polito_os161v.Common.{
  ℕ, ◌+◌, ◌-◌, ◌^◌, ◌<◌, ◌≡◌, ◌≢◌, arith, ok, ◌==◌, leb, ltb, true, false, none, some, get_or, set,
  good, u32, pos, not, ◌&&◌,
}
use polito_os161v.Synch.{free, held, sem_up, sem_down, destroy}
use polito_os161v.Kernel.{Ptr, Kernel, Proc, put}
use polito_os161v.Kernel.Access.{exec, with_proc}
use polito_os161v.FileDesc.Copy.{empty_table}
use polito_os161v.File.{close_all_f, kassert}
use polito_os161v.FileDesc.{fd_destroy}
use polito_os161v.Proc.{proc_dealloc_pid, got, proc_get, max_processes, proc_reserved_spot}
use polito_os161v.Fork.{sys_exit, leave, proc_up, proc_down, waitpid, waiting, collect, mkwait_exit}

-- `x` after it has exited with `code`.
abbrev pub ended : Proc → ℕ → Proc
ended x code = record x { retval = code; is_dead = true; sem = x.sem + 1; lk = free }

-- What a child's exit and the wait for it need: it has a parent, nobody holds its lock or the process
-- table's, it stands in its slot, and its count of exits has room.
pub record IsChild (k : Kernel) (me p : Ptr) (x : Proc) : Type 0 where
  pub there : k.procs p ≡ some x
  pub parent : x.parent ≡ me
  pub has_parent : me ≢ 0
  pub unlocked : x.lk ≡ free
  pub table : k.lk_allproc ≡ free
  pub low : x.pid < max_processes
  pub positive : x.pid ≢ 0
  pub slot : get_or k.p_table x.pid 0 ≡ p
  pub real : (p ≢ 0) × (p ≢ proc_reserved_spot)
  pub room : x.sem + 1 < 2 ^ 32

-- sys_exit of a child whose files are closed by close_all_f marks it dead with its code and raises its
-- semaphore, and its lock is free again. It stays in the process table until it is waited for.
pub sys_exit_child :
    (me p : Ptr) (code : ℕ) (k j : Kernel) (x : Proc)
    → IsChild k me p x
    → close_all_f x.fd k ≡ ok (good tt) j
    → IsChild j me p x
    → sys_exit p code k ≡ ok tt (with_proc j p (ended x code))
unfolding sys_exit
sys_exit_child me p code k j x c e d =
    let z : (me == 0) ≡ false = ground (arith, c.has_parent) in
    let n : u32 (x.sem + 1) ≡ x.sem + 1 = omega (arith, c.room) in
    let w : ltb 0 (x.sem + 1) ≡ true = ground arith in
    simp (exec, sys_exit, c.there, e) simp
      (exec, leave, proc_up, sem_up, d.there, d.unlocked, d.parent, z, n, w)

-- The kernel `j` after the child at `p` is collected by the thread `t`.
abbrev pub collected : Kernel → ℕ → Ptr → Proc → Kernel
collected j t p x = record j {
  cur = t;
  fds = put j.fds x.fd none;
  procs = put j.procs p none;
  p_table = set j.p_table x.pid 0;
}

module _ (me p : Ptr) (code t : ℕ) (j : Kernel) (x : Proc) (d : IsChild j me p x)
    (f : j.fds x.fd ≡ some empty_table) where
  abbrev after_exit : Kernel
  after_exit = record j { cur = t; procs = put j.procs p (some (ended x code)) }

  gotten :
      proc_get (pos x.pid) after_exit
      ≡ ok (good p) (with_proc after_exit p (record (ended x code) { lk = held t }))
  unfolding proc_get
  gotten =
      let low : leb max_processes x.pid ≡ false = ground (arith, d.low) in
      let pos_pid : (x.pid == 0) ≡ false = ground (arith, d.positive) in
      let real : (not (p == 0) && not (p == proc_reserved_spot)) ≡ true = ground (arith, d.real) in
      simp (exec, proc_get, got, low, pos_pid, d.table, d.slot, real)

  waited : waitpid me (pos x.pid) 0 after_exit ≡ ok (good (mkwait_exit code)) (collected j t p x)
  unfolding waitpid
  waited =
      let m : (me == me) ≡ true = ground arith in
      let z : (x.sem + 1 == 0) ≡ false = ground arith in
      let n : x.sem + 1 - 1 ≡ x.sem = omega arith in
      let pz : (p == 0) ≡ false = ground (arith, d.real) in
      rw (waitpid, gotten) simp (exec, waiting, collect, proc_down, sem_down, d.parent, z, n) simp
        (exec, fd_destroy, destroy, proc_dealloc_pid, kassert, f, d.table, d.slot, pz)

-- A child whose files are closed exits with a code, and its parent then waits for it on the thread
-- `t`: neither panics nor sleeps, the parent gets _MKWAIT_EXIT of that code, and the child, its
-- descriptor table and its slot of the process table are free again.
pub exit_then_wait :
    (me p : Ptr) (code t : ℕ) (k j : Kernel) (x : Proc)
    → IsChild k me p x
    → close_all_f x.fd k ≡ ok (good tt) j
    → IsChild j me p x
    → j.fds x.fd ≡ some empty_table
    → (i : Kernel) × (sys_exit p code k ≡ ok tt i)
      × (waitpid me (pos x.pid) 0 (record i { cur = t })
          ≡ ok (good (mkwait_exit code)) (collected j t p x))
exit_then_wait me p code t k j x c e d f =
    (with_proc j p (ended x code), sys_exit_child me p code k j x c e d, waited me p code t j x d f)
