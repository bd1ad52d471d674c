-- ===== src/Kernel/Store.antt =====
-- The state, and how the code reads and writes an object through a pointer.
use mathlib.Core.Path.{fun_ext}
use native.Mathlib.Decide.{ℕ_discrete}
use polito_os161v.Common.{
  ◌||◌, ◌^◌, ◌≡◌, ◌≢◌, arith, ℕ, ◌+◌, ◌-◌, Bool, ◌==◌, if◌then◌else◌, ltb, Option, none, some, List,
  Run, ok, panic, block, Cmd, ◌>>=◌,
}
use polito_os161v.Synch.{Lock, acquire, release}

-- A pointer; 0 is NULL.
abbrev pub Ptr : Type 0
Ptr = ℕ

abbrev pub Heap : Type 0 → Type 0
Heap A = Ptr → Option A

-- A heap with the value at `p` replaced. It is used through the three laws.
unfoldable pub put {ℓ} : {A : Type ℓ} → (Ptr → A) → Ptr → A → Ptr → A
put h p v q = if q == p then v else h q

module _ {ℓ} {A : Type ℓ} (h : Ptr → A) (p : Ptr) where
  pub put_self : (v : A) → put h p v p ≡ v
  unfolding put
  put_self v = ground arith

  pub put_ne : (v : A) (q : Ptr) → q ≢ p → put h p v q ≡ h q
  unfolding put
  put_ne v q ne = ground arith

  pub put-put : (v w : A) → put (put h p v) p w ≡ put h p w
  unfolding put
  put-put v w = fun_ext λ q. ground arith

  pub put_same : {v : A} → h p ≡ v → put h p v ≡ h
  unfolding put
  put_same {v} e = fun_ext λ q. go q (ℕ_discrete q p)
    where
      go : (q : Ptr) → Dec (q ≡ p) → (if q == p then v else h q) ≡ h q
      go q (yes f) = rw (f, e) (ground arith)
      go q (no f) = ground arith

-- `struct file` (include/file.h). `oflags` and `refcount` are `uint16_t`; `lk` is the lock at `f_lk`.
pub record File : Type 0 where
  pub vnode : ℕ
  pub oflags : ℕ
  pub refcount : ℕ
  pub offset : ℕ
  pub lk : Lock

-- `struct filedesc` (include/filedesc.h): MAX_OPEN_FILES pointers, the lock, and the `uint16_t` count.
pub record FileDesc : Type 0 where
  pub ofiles : List Ptr
  pub nfiles : ℕ
  pub lk : Lock

-- The fields of `struct proc` (include/proc.h) that proc/proc.c and syscall/fork.c use. `parent` is
-- `p_proc`, `sem` the count of `p_sem`.
pub record Proc : Type 0 where
  pub pid : ℕ
  pub parent : Ptr
  pub fd : Ptr
  pub lk : Lock
  pub sem : ℕ
  pub is_dead : Bool
  pub retval : ℕ

-- `cur` is the current thread. `next` is the next address that `kmalloc` gives, and `oom` says at
-- which addresses it fails instead. `vrefs` are the reference counts of the vnodes, each an `int`;
-- vnode 0 is NULL. `stays` says which vnodes VOP_RECLAIM leaves as they are: a device's, which returns
-- 0, and one that it refuses. `biglock` is the thread that holds `vfs_biglock`, 0 for none.
-- `p_table`, `next_pid` and `lk_allproc` are the variables of proc.c.
pub record Kernel : Type 0 where
  pub cur : ℕ
  pub next : ℕ
  pub oom : ℕ → Bool
  pub files : Heap File
  pub fds : Heap FileDesc
  pub vrefs : ℕ → ℕ
  pub stays : ℕ → Bool
  pub biglock : ℕ
  pub procs : Heap Proc
  pub p_table : List Ptr
  pub next_pid : ℕ
  pub lk_allproc : Lock

-- `kmalloc`: a new address, or NULL. Addresses are not used twice.
unfoldable pub kmalloc : Cmd Kernel (Option Ptr)
kmalloc k = ok (if k.oom k.next then none else some k.next) (record k { next = k.next + 1 })

-- Reading through a pointer faults at NULL and at what was freed.
unfoldable pub load_file : Ptr → Cmd Kernel File
load_file p k = elim (k.files p) [ none ↦ panic | some f ↦ ok f k ]

unfoldable pub store_file : Ptr → Option File → Cmd Kernel (Unit {0})
store_file p f k = ok tt (record k { files = put k.files p f })

unfoldable pub load_fd : Ptr → Cmd Kernel FileDesc
load_fd p k = elim (k.fds p) [ none ↦ panic | some d ↦ ok d k ]

unfoldable pub store_fd : Ptr → Option FileDesc → Cmd Kernel (Unit {0})
store_fd p d k = ok tt (record k { fds = put k.fds p d })

unfoldable pub load_proc : Ptr → Cmd Kernel Proc
load_proc p k = elim (k.procs p) [ none ↦ panic | some x ↦ ok x k ]

unfoldable pub store_proc : Ptr → Option Proc → Cmd Kernel (Unit {0})
store_proc p x k = ok tt (record k { procs = put k.procs p x })

-- A lock operation on a lock inside an object, with how to write the lock back.
abbrev pub on_lock : Run Lock (Unit {0}) → (Lock → Cmd Kernel (Unit {0})) → Cmd Kernel (Unit {0})
on_lock (ok _ l) write k = write l k
on_lock panic write k = panic
on_lock block write k = block

-- FD_LOCK and FD_UNLOCK
unfoldable pub fd_lock : Ptr → Cmd Kernel (Unit {0})
unfolding load_fd store_fd acquire
fd_lock p = do
  d ← load_fd p
  λ k. on_lock (acquire k.cur d.lk) (λ l. store_fd p (some (record d { lk = l }))) k

unfoldable pub fd_unlock : Ptr → Cmd Kernel (Unit {0})
unfolding load_fd store_fd release
fd_unlock p = do
  d ← load_fd p
  λ k. on_lock (release k.cur d.lk) (λ l. store_fd p (some (record d { lk = l }))) k

-- F_LOCK and `lock_release(f->f_lk)`
unfoldable pub f_lock : Ptr → Cmd Kernel (Unit {0})
unfolding load_file store_file acquire
f_lock p = do
  f ← load_file p
  λ k. on_lock (acquire k.cur f.lk) (λ l. store_file p (some (record f { lk = l }))) k

unfoldable pub f_unlock : Ptr → Cmd Kernel (Unit {0})
unfolding load_file store_file release
f_unlock p = do
  f ← load_file p
  λ k. on_lock (release k.cur f.lk) (λ l. store_file p (some (record f { lk = l }))) k

-- `lock_acquire(p->lock)` and `lock_release(p->lock)` of a process
unfoldable pub proc_lock : Ptr → Cmd Kernel (Unit {0})
unfolding load_proc store_proc acquire
proc_lock p = do
  x ← load_proc p
  λ k. on_lock (acquire k.cur x.lk) (λ l. store_proc p (some (record x { lk = l }))) k

unfoldable pub proc_unlock : Ptr → Cmd Kernel (Unit {0})
unfolding load_proc store_proc release
proc_unlock p = do
  x ← load_proc p
  λ k. on_lock (release k.cur x.lk) (λ l. store_proc p (some (record x { lk = l }))) k

-- `lock_acquire(lk_allproc)` and `lock_release(lk_allproc)`
unfoldable pub allproc_lock : Cmd Kernel (Unit {0})
unfolding acquire
allproc_lock k = on_lock (acquire k.cur k.lk_allproc) (λ l j. ok tt (record j { lk_allproc = l })) k

unfoldable pub allproc_unlock : Cmd Kernel (Unit {0})
unfolding release
allproc_unlock k =
    on_lock (release k.cur k.lk_allproc) (λ l j. ok tt (record j { lk_allproc = l })) k

-- Whether `vfs_biglock_acquire` returns at once; otherwise the thread sleeps. The lock counts how deep
-- its holder is in it, so that the release after a body that leaves the lock alone restores it.
abbrev pub biglock_open : Kernel → Bool
biglock_open k = k.biglock == 0 || k.biglock == k.cur

abbrev pub with_biglock : Cmd Kernel (Unit {0}) → Cmd Kernel (Unit {0})
with_biglock body k = if biglock_open k then body k else block

-- `vnode_incref` (vfs/vnode.c); a count past the largest `int` is undefined.
unfoldable pub vop_incref : ℕ → Cmd Kernel (Unit {0})
vop_incref v k =
    if v == 0
    then panic
    else with_biglock
        (λ k.
          if ltb (k.vrefs v + 1) (2 ^ 31)
          then ok tt (record k { vrefs = put k.vrefs v (k.vrefs v + 1) })
          else panic)
        k

-- `vnode_decref` (vfs/vnode.c): the last reference goes to VOP_RECLAIM, which frees the vnode or
-- leaves it with its reference.
unfoldable pub vop_decref : ℕ → Cmd Kernel (Unit {0})
vop_decref v k =
    if v == 0
    then panic
    else with_biglock
        (λ k.
          if k.vrefs v == 0
          then panic
          else if ltb 1 (k.vrefs v)
          then ok tt (record k { vrefs = put k.vrefs v (k.vrefs v - 1) })
          else if k.stays v
          then ok tt k
          else ok tt (record k { vrefs = put k.vrefs v 0 }))
        k
