-- ===== src/File/Laws.antt =====
-- get_file and des_descriptor of io/file.c: which descriptors they accept, and what closing one does.
use native.Mathlib.Decide.{ℕ_discrete}
use mathlib.Core.Path.{subst}
use polito_os161v.Common.{
  Bool-cases, panic, pure, ◌∙◌, and_then, ℕ, ◌+◌, ◌-◌, ◌^◌, ◌<◌, ◌≤◌, ◌≡◌, ◌≢◌, inl, inr, arith, ok,
  Run, sym, ap, u16, ◌==◌, ltb, leb, true, false, Option, none, some, get_or, ℤ, pos, negsuc, Res,
  good, fail, ebadf,
}
use polito_os161v.Synch.{free, held, destroy}
use polito_os161v.Kernel.{
  on_lock, store_file, put_self, put-put, Ptr, Kernel, File, FileDesc, put, put_same, vop_decref,
  biglock_open,
}
use polito_os161v.Kernel.Access.{exec}
use polito_os161v.FileDesc.{fd_detach, max_open_files}
use polito_os161v.FileDesc.Laws.{
  IsValid, count_open-le, count_open-clear, detached, detached-IsValid, in_table,
}
use polito_os161v.File.{kassert, get_file, got, des_file, des_descriptor, des_got, des_rest}

-- The kernel after descriptor `fd` is closed: the table without it, the file at `f` as `o`, and `n`
-- references to the vnode `v`.
abbrev pub closed : Kernel → Ptr → FileDesc → ℕ → Ptr → Option File → ℕ → ℕ → Kernel
closed k t d fd f o v n = record k {
  files = put k.files f o;
  fds = put k.fds t (some (detached d fd));
  vrefs = put k.vrefs v n;
}

des_file_eq :
    (f : Ptr) (k : Kernel) (x : File)
    → k.files f ≡ some x
    → x.refcount ≡ 0
    → x.lk ≡ free
    → k.vrefs x.vnode ≡ 1
    → k.stays x.vnode ≡ false
    → x.vnode ≢ 0
    → biglock_open k ≡ true
    → des_file f k ≡ ok tt (record k { files = put k.files f none; vrefs = put k.vrefs x.vnode 0 })
unfolding des_file
des_file_eq f k x e r l v b n o =
    let y : (x.vnode == 0) ≡ false = ground arith in
    simp (y, o, exec, des_file, kassert, vop_decref, destroy, e, r, l, v, b)

-- A descriptor below MAX_OPEN_FILES that is open.
module _ (t : Ptr) (fd : ℕ) (k : Kernel) (d : FileDesc) (x : File) (e : k.fds t ≡ some d)
    (v : IsValid d) (n : get_or d.ofiles fd 0 ≢ 0) (g : k.files (get_or d.ofiles fd 0) ≡ some x)
    (l : x.lk ≡ free) where
  abbrev f : Ptr
  f = get_or d.ofiles fd 0

  inside : leb max_open_files fd ≡ false
  inside = ground (arith, in_table d.ofiles fd n, v.size)

  get_open :
      get_file t (pos fd) k
      ≡ ok (good f) (record k {
        files = put k.files f (some (record x { lk = held k.cur }));
        fds = put k.fds t (some d);
      })
  unfolding get_file
  get_open =
      let z : (f == 0) ≡ false = ground arith in
      simp (exec, get_file, got, e, g, l, z, inside, v.unlocked)
        (ap
          (λ m. ok (good f) (record k {
            files = put k.files f (some (record x { lk = held k.cur }));
            fds = put k.fds t (some (record d { lk = m }));
          }))
          (sym v.unlocked))

  -- `des_descriptor` of an entry that other descriptors also refer to.
  pub shared_close :
      1 < x.refcount
      → x.refcount < 2 ^ 16
      → 1 < k.vrefs x.vnode
      → x.vnode ≢ 0
      → biglock_open k ≡ true
      → des_descriptor t (pos fd) k
        ≡ ok (good tt) (
            closed k t d fd f
              (some (record x { refcount = x.refcount - 1; lk = free }))
              x.vnode
              (k.vrefs x.vnode - 1))
  unfolding des_descriptor
  shared_close r w c vn bl =
      let y : (x.vnode == 0) ≡ false = ground arith in
      let z : ltb fd max_open_files ≡ true = ground (arith, in_table d.ofiles fd n, v.size) in
      let p : ltb 0 x.refcount ≡ true = ground arith in
      let m : u16 (x.refcount + 65535) ≡ x.refcount - 1 = omega arith in
      let q : ((x.refcount - 1) == 0) ≡ false = ground arith in
      let o : (k.vrefs x.vnode == 0) ≡ false = ground arith in
      let oo : ltb 1 (k.vrefs x.vnode) ≡ true = ground arith in
      let nn : u16 (d.nfiles + 65535) ≡ d.nfiles - 1 =
        ground (arith, v.counted, count_open-clear d.ofiles fd n, count_open-le d.ofiles, v.size) in
      rw (des_descriptor, get_open) simp
        (
          exec, des_got, des_rest, fd_detach, vop_decref, y, bl, e, g, z, p, m, q, o, oo, nn,
          v.unlocked,
        )

  -- `des_descriptor` of the last descriptor of a file.
  last_close :
      x.refcount ≡ 1
      → k.vrefs x.vnode ≡ 2
      → k.stays x.vnode ≡ false
      → x.vnode ≢ 0
      → biglock_open k ≡ true
      → des_descriptor t (pos fd) k ≡ ok (good tt) (closed k t d fd f none x.vnode 0)
  unfolding des_descriptor
  last_close r c b vn bl =
      let y0 : (x.vnode == 0) ≡ false = ground arith in
      let z : ltb fd max_open_files ≡ true = ground (arith, in_table d.ofiles fd n, v.size) in
      let nn : u16 (d.nfiles + 65535) ≡ d.nfiles - 1 =
        ground (arith, v.counted, count_open-clear d.ofiles fd n, count_open-le d.ofiles, v.size) in
      let y : File = record x { refcount = 0; lk = free } in
      rw (des_descriptor, get_open) simp
        (exec, des_got, des_rest, fd_detach, vop_decref, y0, bl, e, g, z, r, c, b, nn, v.unlocked)
        (ap
            (λ w.
              and_then
                (and_then
                  (elim w [
                    | none ↦ panic
                    | some q ↦ ok q (closed k t (record d { lk = free }) fd f (some y) x.vnode 0)
                  ])
                  (λ q u. on_lock (destroy q.lk) (λ h. store_file f none) u))
                (λ u. pure (good tt)))
            (put_self k.files f (some y))
          ∙ simp put-put)

-- What `get_file` does with a descriptor of the table `d`: a negative or too large one, or one that is
-- not open, is refused and the kernel is as before; the file of an open one is returned locked.
pub data Got (k : Kernel) (t : Ptr) (d : FileDesc) : ℤ → Run Kernel (Res Ptr) → Type 0 where
  negative : (n : ℕ) → Got k t d (negsuc n) (ok (fail ebadf) k)
  too_large : (fd : ℕ) → max_open_files ≤ fd → Got k t d (pos fd) (ok (fail ebadf) k)
  not_open : (fd : ℕ) → get_or d.ofiles fd 0 ≡ 0 → Got k t d (pos fd) (ok (fail ebadf) k)
  opened :
      (fd : ℕ) (x : File)
      → get_or d.ofiles fd 0 ≢ 0
      → k.files (get_or d.ofiles fd 0) ≡ some x
      → Got k t d (pos fd) (
          ok (good (get_or d.ofiles fd 0)) (record k {
            files = put k.files (get_or d.ofiles fd 0) (some (record x { lk = held k.cur }));
            fds = put k.fds t (some d);
          }))

-- Every open descriptor of the table refers to a file that nobody has locked.
abbrev pub AllUnlocked : Kernel → FileDesc → Type 0
AllUnlocked k d =
    (fd : ℕ)
    → get_or d.ofiles fd 0 ≢ 0
    → (x : File) × (k.files (get_or d.ofiles fd 0) ≡ some x) × (x.lk ≡ free)

-- `get_file` on a valid table whose files are unlocked takes one of the four branches of `Got`,
-- with the table's lock free again in each.
pub get_file-Got :
    (t : Ptr) (k : Kernel) (d : FileDesc) (fd : ℤ)
    → k.fds t ≡ some d
    → IsValid d
    → AllUnlocked k d
    → Got k t d fd (get_file t fd k)
unfolding get_file
get_file-Got t k d (negsuc n) e v a = negative n
get_file-Got t k d (pos fd) e v a = elim (Bool-cases (leb max_open_files fd)) [
  | inl h ↦ let w : max_open_files ≤ fd = ground arith in rw (get_file, h) (too_large fd w)
  | inr h ↦ elim (ℕ_discrete (get_or d.ofiles fd 0) 0) [
    | yes z ↦ subst (λ r. Got k t d (pos fd) r) (sym (shut h z)) (not_open fd z)
    | no n ↦
        let (x, g, l) = a fd n in
        subst (λ r. Got k t d (pos fd) r) (sym (get_open t fd k d x e v n g l)) (opened fd x n g)
  ]
]
  where
    shut :
        leb max_open_files fd ≡ false
        → get_or d.ofiles fd 0 ≡ 0
        → get_file t (pos fd) k ≡ ok (fail ebadf) k
    shut h z =
        simp (exec, get_file, got, e, h, z, v.unlocked)
          (ap (λ h. ok (fail ebadf) (record k { fds = h }))
            (put_same k.fds t (rw (← v.unlocked) e)))

-- What `des_descriptor` does with the open descriptor `fd`, whose file is `x`: where other
-- descriptors share the file it loses one reference and the vnode one, and where none does the file
-- is freed and the vnode loses both of its references.
pub data Closed (k : Kernel) (t : Ptr) (d : FileDesc) (fd : ℕ) (x : File)
    : Run Kernel (Res (Unit {0})) → Type 0 where
  shared :
      1 < x.refcount
      → Closed k t d fd x (
          ok (good tt) (
            closed k t d fd
              (get_or d.ofiles fd 0)
              (some (record x { refcount = x.refcount - 1; lk = free }))
              x.vnode
              (k.vrefs x.vnode - 1)))
  last :
      x.refcount ≡ 1
      → Closed k t d fd x (ok (good tt) (closed k t d fd (get_or d.ofiles fd 0) none x.vnode 0))

-- The file `x` has a reference, and its vnode one for each and one for the file itself. VOP_RECLAIM
-- frees the vnode, and the VFS lock is not another thread's.
pub record IsCounted (k : Kernel) (x : File) : Type 0 where
  pub some_left : 0 < x.refcount
  pub narrow : x.refcount < 2 ^ 16
  pub one_more : k.vrefs x.vnode ≡ x.refcount + 1
  pub idle : k.stays x.vnode ≡ false
  pub real : x.vnode ≢ 0
  pub entered : biglock_open k ≡ true

-- `des_descriptor` on an open descriptor whose unlocked file and vnode are counted returns 0 in the
-- state of `Closed`, with a table that is valid again.
pub des_descriptor-Closed :
    (t : Ptr) (fd : ℕ) (k : Kernel) (d : FileDesc) (x : File)
    → k.fds t ≡ some d
    → IsValid d
    → get_or d.ofiles fd 0 ≢ 0
    → k.files (get_or d.ofiles fd 0) ≡ some x
    → x.lk ≡ free
    → IsCounted k x
    → Closed k t d fd x (des_descriptor t (pos fd) k) × IsValid (detached d fd)
des_descriptor-Closed t fd k d x e v n g l c = elim (ℕ_discrete x.refcount 1) [
  | yes o ↦ (
    subst (λ r. Closed k t d fd x r)
        (sym
          (last_close t fd k d x e v n g l o (ground (arith, c.one_more)) c.idle c.real c.entered))
        (last o),
    detached-IsValid fd v n,
  )
  | no o ↦
      let m : 1 < x.refcount = ground (arith, c.some_left) in
      (
        subst (λ r. Closed k t d fd x r)
            (sym (
              shared_close t fd k d x e v n g l m c.narrow (ground (arith, c.one_more)) c.real
                c.entered))
            (shared m),
        detached-IsValid fd v n,
      )
]
