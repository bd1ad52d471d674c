-- ===== src/Proc/Laws.antt =====
-- proc_create when memory runs out, proc_destroy and proc_get of proc/proc.c.
use polito_os161v.Common.{
  ℕ, ◌<◌, ◌≤◌, ◌≡◌, ◌≢◌, refl, ◌⊎◌, inl, inr, arith, sym, ap, ok, panic, Run, ◌==◌, leb, true,
  false, Bool-cases, none, some, get_or, set, Res, good, fail, esrch, einval, subst, not, ◌&&◌, ℤ,
  pos, negsuc,
}
use polito_os161v.Synch.{free, held, gone, destroy}
use polito_os161v.Kernel.{Ptr, Kernel, Proc, FileDesc, put, kmalloc}
use polito_os161v.Kernel.Access.{exec, with_proc}
use polito_os161v.FileDesc.Create.{fd_destroy_eq}
use polito_os161v.Proc.Pid.{Numbered, above, below, exhausted, proc_alloc_pid-Numbered}
use polito_os161v.File.{kassert}
use polito_os161v.Proc.{
  proc_alloc_pid, proc_create, with_pid, with_memory, proc_dealloc_pid, proc_destroy, proc_get, got,
  max_processes, proc_reserved_spot,
}

-- What proc_create does when `kmalloc` of the process fails, for the number given.
unreserved :
    (k j : Kernel) (pid : ℕ)
    → proc_alloc_pid k ≡ ok (good pid) j
    → j.lk_allproc ≡ free
    → get_or j.p_table pid 0 ≡ 0
    → j.oom j.next ≡ true
    → proc_create k ≡ panic
unfolding proc_create
unreserved k j pid e l z m =
    rw (proc_create, e) simp
      (exec, with_pid, with_memory, kmalloc, proc_dealloc_pid, kassert, m, l, z)

-- When a slot is left but memory runs out for the process, proc_create panics instead of returning
-- ENOMEM: the slot was not reserved, and giving it back asserts that it is not NULL.
pub proc_create_out_of_memory :
    (k : Kernel) (slot : ℕ)
    → k.lk_allproc ≡ free
    → slot < max_processes
    → get_or k.p_table slot 0 ≡ 0
    → k.oom k.next ≡ true
    → proc_create k ≡ panic
proc_create_out_of_memory k slot l s z m = go (proc_alloc_pid-Numbered k l) refl
  where
    go : {r : Run Kernel (Res ℕ)} → Numbered k r → proc_alloc_pid k ≡ r → proc_create k ≡ panic
    go (above i a b e h) p = unreserved k _ i p l e m
    go (below i a e g h) p = unreserved k _ i p l e m
    go (exhausted h) p = absurd (h slot s z)

-- The outcomes of `proc_get` for the process table of `k`.
pub data Gotten (k : Kernel) : ℤ → Run Kernel (Res Ptr) → Type 0 where
  negative : (n : ℕ) → Gotten k (negsuc n) (ok (fail einval) k)
  out_of_range : (n : ℕ) → (n ≡ 0) ⊎ (max_processes ≤ n) → Gotten k (pos n) (ok (fail einval) k)
  no_process :
      (n : ℕ)
      → (get_or k.p_table n 0 ≡ 0) ⊎ (get_or k.p_table n 0 ≡ proc_reserved_spot)
      → Gotten k (pos n) (ok (fail esrch) k)
  gotten :
      (n : ℕ) (x : Proc)
      → k.procs (get_or k.p_table n 0) ≡ some x
      → Gotten k (pos n) (
          ok
            (good (get_or k.p_table n 0))
            (with_proc k (get_or k.p_table n 0) (record x { lk = held k.cur })))

-- Every process in the table is there and not locked.
abbrev pub AllIdle : Kernel → Type 0
AllIdle k =
    (n : ℕ)
    → get_or k.p_table n 0 ≢ 0
    → (x : Proc) × (k.procs (get_or k.p_table n 0) ≡ some x) × (x.lk ≡ free)

module _ (k : Kernel) (l : k.lk_allproc ≡ free) (n : ℕ) (low : leb max_processes n ≡ false)
    (some_pid : (n == 0) ≡ false) where
  absent :
      (not (get_or k.p_table n 0 == 0) && not (get_or k.p_table n 0 == proc_reserved_spot)) ≡ false
      → proc_get (pos n) k ≡ ok (fail esrch) k
  unfolding proc_get
  absent z =
      simp (exec, proc_get, got, low, some_pid, l, z)
        (ap (λ h. ok (fail esrch) (record k { lk_allproc = h })) (sym l))

  present :
      (x : Proc)
      → (not (get_or k.p_table n 0 == 0) && not (get_or k.p_table n 0 == proc_reserved_spot)) ≡ true
      → k.procs (get_or k.p_table n 0) ≡ some x
      → x.lk ≡ free
      → proc_get (pos n) k
        ≡ ok
            (good (get_or k.p_table n 0))
            (with_proc k (get_or k.p_table n 0) (record x { lk = held k.cur }))
  unfolding proc_get
  present x z e f = simp (exec, proc_get, got, low, some_pid, l, z, e, f)

-- proc_get, with the locks of the table and of the processes free, takes one of the branches of
-- `Gotten`: EINVAL, ESRCH, or the process of that number, locked by the caller.
pub proc_get-Gotten :
    (k : Kernel) (pid : ℤ) → k.lk_allproc ≡ free → AllIdle k → Gotten k pid (proc_get pid k)
unfolding proc_get
proc_get-Gotten k (negsuc n) l a = negative n
proc_get-Gotten k (pos n) l a = elim (Bool-cases (leb max_processes n)) [
  | inl h ↦ let w : max_processes ≤ n = ground arith in rw (proc_get, h) (out_of_range n (inr w))
  | inr h ↦ elim (Bool-cases (n == 0)) [
    | inl z ↦ let w : n ≡ 0 = ground arith in rw (proc_get, h, z) (out_of_range n (inl w))
    | inr z ↦
        elim (Bool-cases
          (not (get_or k.p_table n 0 == 0) && not (get_or k.p_table n 0 == proc_reserved_spot))) [
            | inl p ↦
                let (x, e, f) = a n (ground arith) in
                subst (λ r. Gotten k (pos n) r) (sym (present k l n h z x p e f)) (gotten n x e)
            | inr p ↦
                subst (λ r. Gotten k (pos n) r) (sym (absent k l n h z p))
                  (no_process n (ground arith))
          ]
  ]
]

-- proc_destroy of an unlocked process without open files frees it and its table, and makes its slot
-- NULL again.
pub proc_destroy_lem :
    (p : Ptr) (k : Kernel) (x : Proc) (d : FileDesc)
    → k.procs p ≡ some x
    → x.lk ≡ free
    → k.fds x.fd ≡ some d
    → d.nfiles ≡ 0
    → d.lk ≡ free
    → k.lk_allproc ≡ free
    → get_or k.p_table x.pid 0 ≢ 0
    → proc_destroy p k
      ≡ ok tt (record k {
        fds = put k.fds x.fd none;
        procs = put k.procs p none;
        p_table = set k.p_table x.pid 0;
      })
unfolding proc_destroy
proc_destroy_lem p k x d e xl g n dl l ne =
    let z : (get_or k.p_table x.pid 0 == 0) ≡ false = ground arith in
    simp (exec, proc_destroy, destroy, e, xl) rw
      (fd_destroy_eq x.fd (with_proc k p (record x { lk = gone })) d g n dl) simp
      (exec, proc_dealloc_pid, kassert, l, z)
