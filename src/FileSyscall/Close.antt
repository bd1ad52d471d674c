-- ===== src/FileSyscall/Close.antt =====
-- sys_close of syscall/file_syscall.c.
use native.Mathlib.Decide.{ℕ_discrete}
use polito_os161v.Common.{
  sym, subst, ◌⊎◌, inl, inr, ℤ, negsuc, fail, ebadf, Res, Run, ℕ, ◌+◌, ◌-◌, ◌^◌, ◌<◌, ◌≡◌, ◌≢◌,
  refl, arith, true, false, ◌==◌, ltb, none, some, u16, get_or, get_elem?, get_elem?-eq-get_or, set,
  length, pos, good, ok, panic,
}
use polito_os161v.Synch.{free, gone, destroy}
use polito_os161v.Kernel.{
  Ptr, Kernel, File, FileDesc, put, put_self, load_fd, store_fd, fd_lock, fd_unlock, load_file,
  store_file, vop_decref, with_biglock, biglock_open,
}
use polito_os161v.Kernel.Access.{exec}
use polito_os161v.FileDesc.{max_open_files}
use polito_os161v.FileDesc.Laws.{IsValid}
use polito_os161v.FileSyscall.Laws.{pos-injective}
use polito_os161v.File.{kassert}
use polito_os161v.FileSyscall.{
  sys_close, entry, close_entry, close_last, destroy_fd_lk, set_entry, open_max,
}

module _ (t : Ptr) (fd : ℕ) (k : Kernel) (d : FileDesc) (x : File) (e : k.fds t ≡ some d)
    (l : d.lk ≡ free) (size : length d.ofiles ≡ max_open_files) (inside : fd < max_open_files)
    (n : get_or d.ofiles fd 0 ≢ 0) (g : k.files (get_or d.ofiles fd 0) ≡ some x) where
  abbrev f : Ptr
  f = get_or d.ofiles fd 0

  closes_shared :
      1 < x.refcount
      → x.refcount < 2 ^ 16
      → sys_close t (pos fd) k
        ≡ ok (good tt) (record k {
          files = put k.files f (some (record x { refcount = x.refcount - 1 }));
          fds = put k.fds t (some (record d { lk = free }));
        })
  unfolding sys_close entry close_entry fd_lock fd_unlock load_file store_file
  closes_shared r w =
      let i : ltb (open_max + 1) fd ≡ false = ground arith in
      let z : (f == 0) ≡ false = ground arith in
      let p : ltb 0 x.refcount ≡ true = ground arith in
      let m : u16 (x.refcount + 65535) ≡ x.refcount - 1 = omega arith in
      let q : ((x.refcount - 1) == 0) ≡ false = ground arith in
      let o : get_elem? d.ofiles fd ≡ some f = get_elem?-eq-get_or d.ofiles fd 0 (omega arith) in
      simp (exec, kassert, e, l, i, z, p, m, q, o, g)

  closes_last :
      x.refcount ≡ 1
      → 1 < k.vrefs x.vnode
      → x.vnode ≢ 0
      → biglock_open k ≡ true
      → sys_close t (pos fd) k
        ≡ ok (good tt) (record k {
          files = put k.files f none;
          fds = put k.fds t (some (record d { ofiles = set d.ofiles fd 0; lk = gone }));
          vrefs = put k.vrefs x.vnode (k.vrefs x.vnode - 1);
        })
  unfolding sys_close entry close_entry close_last destroy_fd_lk set_entry fd_lock fd_unlock load_fd
      store_fd load_file store_file vop_decref destroy
  closes_last r w y b =
      let nz : (x.vnode == 0) ≡ false = ground arith in
      let i : ltb (open_max + 1) fd ≡ false = ground arith in
      let z : (f == 0) ≡ false = ground arith in
      let o : get_elem? d.ofiles fd ≡ some f = get_elem?-eq-get_or d.ofiles fd 0 (omega arith) in
      let c : (k.vrefs x.vnode == 0) ≡ false = ground arith in
      let cc' : ltb 1 (k.vrefs x.vnode) ≡ true = ground arith in
      simp (exec, kassert, e, l, i, z, r, o, g, c, cc', nz, with_biglock, b) refl

-- The file `x` can be closed: it has a reference, its vnode one more than one, as `k_open` leaves it,
-- and the VFS lock is not another thread's.
pub record IsClosable (k : Kernel) (x : File) : Type 0 where
  pub some_left : 0 < x.refcount
  pub narrow : x.refcount < 2 ^ 16
  pub one_more : 1 < k.vrefs x.vnode
  pub real : x.vnode ≢ 0
  pub entered : biglock_open k ≡ true

-- The ways in which `sys_close` of a descriptor ends.
pub data Closes (t : Ptr) (k : Kernel) (d : FileDesc)
    : ℤ → Run Kernel (Res (Unit {0})) → Type 0 where
  bad_descriptor : {fd : ℤ} → ((n : ℕ) → fd ≡ pos n → 129 < n) → Closes t k d fd (ok (fail ebadf) k)
  not_open :
      (fd : ℕ)
      → fd < max_open_files
      → get_or d.ofiles fd 0 ≡ 0
      → Closes t k d (pos fd) (ok (fail ebadf) k)
  shared :
      (fd : ℕ) (x : File)
      → k.files (get_or d.ofiles fd 0) ≡ some x
      → 1 < x.refcount
      → Closes t k d (pos fd) (
          ok (good tt) (record k {
            files =
                put k.files (get_or d.ofiles fd 0) (some (record x { refcount = x.refcount - 1 }));
            fds = put k.fds t (some (record d { lk = free }));
          }))
  last :
      (fd : ℕ) (x : File) (k' : Kernel)
      → k.files (get_or d.ofiles fd 0) ≡ some x
      → x.refcount ≡ 1
      → k'.files (get_or d.ofiles fd 0) ≡ none
      → k'.vrefs x.vnode ≡ k.vrefs x.vnode - 1
      → k'.fds t ≡ some (record d { ofiles = set d.ofiles fd 0; lk = gone })
      → fd_lock t k' ≡ panic
      → Closes t k d (pos fd) (ok (good tt) k')

gone-panics :
    (t : Ptr) (k : Kernel) (d : FileDesc) → k.fds t ≡ some d → d.lk ≡ gone → fd_lock t k ≡ panic
unfolding fd_lock load_fd
gone-panics t k d e l = simp (exec, e, l)

refuses :
    (t : Ptr) (fd : ℕ) (k : Kernel) (d : FileDesc)
    → k.fds t ≡ some d
    → length d.ofiles ≡ max_open_files
    → fd < max_open_files
    → get_or d.ofiles fd 0 ≡ 0
    → sys_close t (pos fd) k ≡ ok (fail ebadf) k
unfolding sys_close entry close_entry load_fd
refuses t fd k d e size h z =
    let i : ltb (open_max + 1) fd ≡ false = ground arith in
    let o : get_elem? d.ofiles fd ≡ some (get_or d.ofiles fd 0) =
      get_elem?-eq-get_or d.ofiles fd 0 (omega arith) in
    simp (exec, e, i, o, z)

-- sys_close of a descriptor that is negative, past 129 or in the table, which is valid and whose open
-- files can be closed. It refuses a descriptor that is out of range or not open with EBADF. Where the
-- file has more references it takes one of them, and leaves the descriptor open on the file. On the
-- last reference it drops one reference to the vnode, frees the file and clears the descriptor, but
-- what it destroys is the table's own lock: the next operation that takes the table's lock panics.
pub sys_close-Closes :
    (t : Ptr) (k : Kernel) (d : FileDesc) (fd : ℤ)
    → k.fds t ≡ some d
    → IsValid d
    → ((n : ℕ) → fd ≡ pos n → (n < max_open_files) ⊎ (129 < n))
    → ((n : ℕ)
        → get_or d.ofiles n 0 ≢ 0
        → (x : File) × (k.files (get_or d.ofiles n 0) ≡ some x) × IsClosable k x)
    → Closes t k d fd (sys_close t fd k)
unfolding sys_close
sys_close-Closes t k d (negsuc n) e v range files = bad_descriptor (λ m q. cc)
sys_close-Closes t k d (pos fd) e v range files = elim (range fd refl) [
  | inr far ↦
      let i : ltb (open_max + 1) fd ≡ true = ground arith in
      rw i (bad_descriptor (λ m q. subst (λ l. 129 < l) (pos-injective q) far))
  | inl near ↦ elim (ℕ_discrete (get_or d.ofiles fd 0) 0) [
    | yes z ↦
        subst (Closes t k d (pos fd)) (sym (refuses t fd k d e v.size near z)) (not_open fd near z)
    | no n ↦ close near n (files fd n)
  ]
]
  where
    close :
        fd < max_open_files
        → (n : get_or d.ofiles fd 0 ≢ 0)
        → (x : File) × (k.files (get_or d.ofiles fd 0) ≡ some x) × IsClosable k x
        → Closes t k d (pos fd) (sys_close t (pos fd) k)
    close near n (x, g, c) = elim (ℕ_discrete x.refcount 1) [
      | no m ↦
          subst (Closes t k d (pos fd))
            (sym (
              closes_shared t fd k d x e v.unlocked v.size near n g (omega (arith, c.some_left))
                c.narrow))
            (shared fd x g (omega (arith, c.some_left)))
      | yes m ↦
          let lk_gone : FileDesc = record d { ofiles = set d.ofiles fd 0; lk = gone } in
          subst (Closes t k d (pos fd))
            (sym
              (closes_last t fd k d x e v.unlocked v.size near n g m c.one_more c.real c.entered))
            (last fd x _ g m (put_self k.files (get_or d.ofiles fd 0) none)
              (put_self k.vrefs x.vnode (k.vrefs x.vnode - 1)) (put_self k.fds t (some lk_gone))
              (gone-panics t _ lk_gone (put_self k.fds t (some lk_gone)) refl))
    ]
