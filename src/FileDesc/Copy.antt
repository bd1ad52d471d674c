-- ===== src/FileDesc/Copy.antt =====
-- file_copy of io/filedesc.c: a child shares its parent's open files.
use native.Mathlib.Decide.{ℕ_discrete}
use polito_os161v.Common.{
  ℕ, zero, suc, ◌+◌, ◌^◌, ◌<◌, ◌≤◌, ◌≡◌, ◌≢◌, refl, ◌⊎◌, inl, inr, arith, ok, sym, ap, subst, ◌∙◌,
  u16, ==_self, ◌==◌, ltb, Bool, true, false, Option, none, some, List, [], ◌∷◌, length, set,
  replicate, Bool-cases, if◌then◌else◌,
}
use polito_os161v.Synch.{free, held}
use polito_os161v.Kernel.{
  Ptr, Heap, Kernel, File, FileDesc, put, put_self, put_ne, put_same, put-put, vop_incref,
  biglock_open, fd_lock, fd_unlock, f_lock, f_unlock,
}
use polito_os161v.Kernel.Access.{with_fd, exec}
use polito_os161v.FileDesc.{file_copy, copy_from, copy_entry, max_open_files}
use polito_os161v.FileDesc.Laws.{IsValid, count_open}

-- How many descriptors of a table are open on the file at `p`.
abbrev pub occurrences : Ptr → List Ptr → ℕ
occurrences p [] = 0
occurrences p (q ∷ rest) = if q == p then suc (occurrences p rest) else occurrences p rest

-- A file with `n` references more.
abbrev pub add_refs : ℕ → Option File → Option File
add_refs n none = none
add_refs n (some x) = some (record x { refcount = x.refcount + n })

abbrev pub points_to : ℕ → Option File → Bool
points_to v none = false
points_to v (some x) = x.vnode == v

-- How many descriptors of a table are open on a file of the vnode `v`.
abbrev pub vnode_uses : ℕ → Heap File → List Ptr → ℕ
vnode_uses v files [] = 0
vnode_uses v files (f ∷ rest) =
    let n = vnode_uses v files rest in
    if f == 0 then n else if points_to v (files f) then suc n else n

-- The file at `f` is there and unlocked, has room for `n` references more, and has a vnode.
abbrev pub Ready : ℕ → Heap File → Ptr → Type 0
Ready n files f =
    (x : File) × (files f ≡ some x) × (x.lk ≡ free) × (x.refcount + n < 2 ^ 16) × (x.vnode ≢ 0)

abbrev pub AllReady : ℕ → Heap File → List Ptr → Type 0
AllReady n files [] = Unit
AllReady n files (f ∷ rest) = ((f ≡ 0) ⊎ ((f ≢ 0) × Ready n files f)) × AllReady n files rest

-- No other thread holds the big lock, and every vnode has room for `n` references more.
pub record HasRoom (n : ℕ) (k : Kernel) : Type 0 where
  pub entered : biglock_open k ≡ true
  pub room : (v : ℕ) → k.vrefs v + n < 2 ^ 31

-- The pointers of a table after the pointers of a list are written from descriptor `i` on.
abbrev fill : ℕ → List Ptr → List Ptr → List Ptr
fill i [] l = l
fill i (f ∷ rest) l = fill (i + 1) rest (if f == 0 then l else set l i f)

-- What the loop has done to the kernel `k` when it stops in `k'`.
record IsShared (dst : Ptr) (d : FileDesc) (i : ℕ) (rest : List Ptr) (k k' : Kernel) : Type 0 where
  files : (p : Ptr) → p ≢ 0 → k'.files p ≡ add_refs (occurrences p rest) (k.files p)
  vrefs : (v : ℕ) → k'.vrefs v ≡ k.vrefs v + vnode_uses v k.files rest
  table :
      k'.fds
      ≡ put k.fds dst
          (some (record d { ofiles = fill i rest d.ofiles; nfiles = d.nfiles + count_open rest }))
  rest_same : k' ≡ record k { files = k'.files; fds = k'.fds; vrefs = k'.vrefs }

-- One round at an open descriptor.
abbrev entered : Ptr → FileDesc → ℕ → Ptr → File → Kernel → Kernel
entered dst d i f x k = record k {
  files = put k.files f (some (record x { refcount = u16 (x.refcount + 1) }));
  fds = put k.fds dst (some (record d { ofiles = set d.ofiles i f; nfiles = u16 (d.nfiles + 1) }));
  vrefs = put k.vrefs x.vnode (k.vrefs x.vnode + 1);
}

copy_entry_null : (dst : Ptr) (i : ℕ) (k : Kernel) → copy_entry dst i 0 k ≡ ok tt k
unfolding copy_entry
copy_entry_null dst i k = refl

copy_entry_open :
    (dst : Ptr) (d : FileDesc) (i : ℕ) (f : Ptr) (x : File) (k : Kernel)
    → f ≢ 0
    → k.fds dst ≡ some d
    → k.files f ≡ some x
    → x.lk ≡ free
    → x.vnode ≢ 0
    → HasRoom 1 k
    → copy_entry dst i f k ≡ ok tt (entered dst d i f x k)
unfolding copy_entry fd_lock fd_unlock f_lock f_unlock vop_incref
copy_entry_open dst d i f x k n e g l r h =
    let z : (f == 0) ≡ false = ground arith in
    let y : (x.vnode == 0) ≡ false = ground arith in
    let m : ltb (k.vrefs x.vnode + 1) (2 ^ 31) ≡ true = ground (arith, h.room x.vnode) in
    simp (exec, copy_entry, vop_incref, z, e, g, l, y, m, h.entered)

add_refs-zero : (o : Option File) → o ≡ add_refs 0 o
add_refs-zero none = refl
add_refs-zero (some x) = ap (λ (n : ℕ). some (record x { refcount = n })) (omega arith)

points_to-put :
    (v : ℕ) (files : Heap File) (f : Ptr) (x x' : File)
    → files f ≡ some x
    → x'.vnode ≡ x.vnode
    → (q : Ptr) → points_to v (put files f (some x') q) ≡ points_to v (files q)
points_to-put v files f x x' e s q = elim (ℕ_discrete q f) [
  | yes p ↦ rw (p, put_self, e, s)
  | no ne ↦ rw (put_ne files f (some x') q ne)
]

pub vnode_uses-put :
    (v : ℕ) (files : Heap File) (f : Ptr) (x x' : File) (l : List Ptr)
    → files f ≡ some x
    → x'.vnode ≡ x.vnode
    → vnode_uses v (put files f (some x')) l ≡ vnode_uses v files l
vnode_uses-put v files f x x' [] e s = refl
vnode_uses-put v files f x x' (q ∷ l) e s =
    rw (points_to-put v files f x x' e s q, vnode_uses-put v files f x x' l e s)

Ready-put :
    (m : ℕ) (files : Heap File) (f : Ptr) (x : File) (q : Ptr)
    → files f ≡ some x
    → x.lk ≡ free
    → x.refcount + suc m < 2 ^ 16
    → x.vnode ≢ 0
    → Ready (suc m) files q
    → Ready m (put files f (some (record x { refcount = u16 (x.refcount + 1) }))) q
Ready-put m files f x q e l b a (y, g, k, c, o) = elim (ℕ_discrete q f) [
  | yes p ↦ (record x { refcount = u16 (x.refcount + 1) }, rw (p, put_self), l, omega arith, a)
  | no ne ↦ (
    y,
    rw (put_ne files f (some (record x { refcount = u16 (x.refcount + 1) })) q ne) g,
    k,
    omega arith,
    o,
  )
]

AllReady-put :
    (m : ℕ) (files : Heap File) (f : Ptr) (x : File) (l : List Ptr)
    → files f ≡ some x
    → x.lk ≡ free
    → x.refcount + suc m < 2 ^ 16
    → x.vnode ≢ 0
    → AllReady (suc m) files l
    → AllReady m (put files f (some (record x { refcount = u16 (x.refcount + 1) }))) l
AllReady-put m files f x [] e u b a r = tt
AllReady-put m files f x (q ∷ l) e u b a (inl z, r) = (inl z, AllReady-put m files f x l e u b a r)
AllReady-put m files f x (q ∷ l) e u b a (inr (n, h), r) =
    (inr (n, Ready-put m files f x q e u b a h), AllReady-put m files f x l e u b a r)

module _ (dst : Ptr) (d : FileDesc) (i : ℕ) (k : Kernel) where
  IsShared-nil : k.fds dst ≡ some d → IsShared dst d i [] k k
  IsShared-nil e = record {
    files = λ p n. add_refs-zero (k.files p);
    vrefs = λ v. omega arith;
    table =
        sym (put_same k.fds dst (e ∙ ap (λ (n : ℕ). some (record d { nfiles = n })) (omega arith)));
    rest_same = refl;
  }

  IsShared-null :
      (rest : List Ptr) (k' : Kernel)
      → IsShared dst d (i + 1) rest k k'
      → IsShared dst d i (0 ∷ rest) k k'
  IsShared-null rest k' h = record {
    files = λ p n. let z : (0 == p) ≡ false = ground arith in rw z (h.files p n);
    vrefs = h.vrefs;
    table = h.table;
    rest_same = h.rest_same;
  }

  module _ (f : Ptr) (x : File) (e : k.files f ≡ some x) (b : x.refcount + 1 < 2 ^ 16) where
    abbrev FilesEntered : List Ptr → Ptr → Type 0
    FilesEntered rest p =
        add_refs (occurrences p rest) ((entered dst d i f x k).files p)
        ≡ add_refs (occurrences p (f ∷ rest)) (k.files p)

    FilesEntered-self : (rest : List Ptr) → FilesEntered rest f
    FilesEntered-self rest =
        rw (put_self, e, ==_self f) (ap (λ (n : ℕ). some (record x { refcount = n })) (omega arith))

    files_entered : (rest : List Ptr) (p : Ptr) → FilesEntered rest p
    files_entered rest p = elim (ℕ_discrete p f) [
      | yes q ↦ subst (FilesEntered rest) (sym q) (FilesEntered-self rest)
      | no ne ↦
          let z : (f == p) ≡ false = ground arith in
          rw (z, put_ne k.files f (some (record x { refcount = u16 (x.refcount + 1) })) p ne)
    ]

    abbrev VrefsEntered : List Ptr → ℕ → Type 0
    VrefsEntered rest v =
        (entered dst d i f x k).vrefs v + vnode_uses v (entered dst d i f x k).files rest
        ≡ k.vrefs v + vnode_uses v k.files (f ∷ rest)

    vrefs_entered : (rest : List Ptr) (v : ℕ) → f ≢ 0 → VrefsEntered rest v
    vrefs_entered rest v n = elim (ℕ_discrete v x.vnode) [
      | yes q ↦
          subst (VrefsEntered rest) (sym q)
            (rw (same_uses x.vnode, z, e, put_self, ==_self x.vnode) (omega arith))
      | no ne ↦
          let y : (x.vnode == v) ≡ false = ground arith in
          rw (same_uses v, z, e, y, put_ne k.vrefs x.vnode (k.vrefs x.vnode + 1) v ne)
    ]
      where
        z : (f == 0) ≡ false
        z = ground arith

        same_uses :
            (v : ℕ) → vnode_uses v (entered dst d i f x k).files rest ≡ vnode_uses v k.files rest
        same_uses v =
            vnode_uses-put v k.files f x (record x { refcount = u16 (x.refcount + 1) }) rest e refl

    IsShared-open :
        (rest : List Ptr) (k' : Kernel)
        → f ≢ 0
        → d.nfiles + 1 < 2 ^ 16
        → IsShared dst
            (record d { ofiles = set d.ofiles i f; nfiles = u16 (d.nfiles + 1) })
            (i + 1)
            rest
            (entered dst d i f x k)
            k'
        → IsShared dst d i (f ∷ rest) k k'
    IsShared-open rest k' n c h = record {
      files = λ p np. h.files p np ∙ files_entered rest p;
      vrefs = λ v. h.vrefs v ∙ vrefs_entered rest v n;
      table =
          let z : (f == 0) ≡ false = ground arith in
          let m : u16 (d.nfiles + 1) + count_open rest ≡ d.nfiles + suc (count_open rest) =
            omega arith in
          h.table ∙ rw (put-put, z, m);
      rest_same = h.rest_same;
    }

entered-HasRoom :
    (n : ℕ) (dst : Ptr) (d : FileDesc) (i : ℕ) (f : Ptr) (x : File) (k : Kernel)
    → HasRoom (suc n) k
    → HasRoom n (entered dst d i f x k)
entered-HasRoom n dst d i f x k h = record {
  entered = h.entered;
  room = λ v. elim (ℕ_discrete v x.vnode) [
    | yes q ↦ rw (q, put_self k.vrefs x.vnode (k.vrefs x.vnode + 1)) (omega (arith, h.room x.vnode))
    | no q ↦ rw (put_ne k.vrefs x.vnode (k.vrefs x.vnode + 1) v q) (omega (arith, h.room v))
  ];
}

copy_from-IsShared :
    (n : ℕ) (dst : Ptr) (d : FileDesc) (i : ℕ) (rest : List Ptr) (k : Kernel)
    → length rest ≤ n
    → k.fds dst ≡ some d
    → d.nfiles + length rest < 2 ^ 16
    → AllReady n k.files rest
    → HasRoom n k
    → (k' : Kernel) × (copy_from dst i rest k ≡ ok tt k') × IsShared dst d i rest k k'
unfolding copy_from
copy_from-IsShared n dst d i [] k l e c r o = (k, refl, IsShared-nil dst d i k e)
copy_from-IsShared zero dst d i (f ∷ rest) k l e c r o = absurd (omega arith)
copy_from-IsShared (suc n) dst d i (f ∷ rest) k l e c (inl z, r) o =
    let (k', p, h) =
      copy_from-IsShared (suc n) dst d (i + 1) rest k (omega arith) e (omega arith) r o in
    (k', rw (z, copy_entry_null dst i k, copy_from) p, rw z (IsShared-null dst d i k rest k' h))
copy_from-IsShared (suc n) dst d i (f ∷ rest) k l e c (inr (ne, (x, g, u, b, a)), r) o =
    let (k', p, h) =
      copy_from-IsShared n dst (record d { ofiles = set d.ofiles i f; nfiles = u16 (d.nfiles + 1) })
        (i + 1) rest (entered dst d i f x k) (omega arith) (put_self k.fds dst _) (omega arith)
        (AllReady-put n k.files f x rest g u b a r) (entered-HasRoom n dst d i f x k o) in
    (
      k',
      rw
          (
            copy_entry_open dst d i f x k ne e g u a
                (record { entered = o.entered; room = λ v. omega (arith, o.room v) }),
            copy_from,
          )
          p,
      IsShared-open dst d i k f x g (omega arith) rest k' ne (omega arith) h,
    )

set-cons : (i : ℕ) (f x : Ptr) (m : List Ptr) → set (x ∷ m) (i + 1) f ≡ x ∷ set m i f
set-cons i f x m = let e : i + 1 ≡ suc i = omega arith in rw e

fill-cons :
    (i : ℕ) (l : List Ptr) (x : Ptr) (m : List Ptr) → fill (i + 1) l (x ∷ m) ≡ x ∷ fill i l m
fill-cons i [] x m = refl
fill-cons i (f ∷ rest) x m = elim (Bool-cases (f == 0)) [
  | inl z ↦ rw z (fill-cons (i + 1) rest x m)
  | inr n ↦ rw (n, set-cons i f x m) (fill-cons (i + 1) rest x (set m i f))
]

-- Writing a table's pointers over as many NULLs gives the table.
fill-zeros : (l : List Ptr) → fill 0 l (replicate (length l) 0) ≡ l
fill-zeros [] = refl
fill-zeros (f ∷ rest) = elim (Bool-cases (f == 0)) [
  | inl z ↦
      let e : f ≡ 0 = ground arith in
      rw z (fill-cons 0 rest 0 (replicate (length rest) 0) ∙ rw (fill-zeros rest, e))
  | inr n ↦ rw n (fill-cons 0 rest f (replicate (length rest) 0) ∙ rw (fill-zeros rest))
]

-- The table of a new process.
abbrev pub empty_table : FileDesc
empty_table = record { ofiles = replicate max_open_files 0; nfiles = 0; lk = free }

-- What file_copy has done to the kernel `k` when it returns in `k'`.
pub record IsCopied (src dst : Ptr) (s : FileDesc) (k k' : Kernel) : Type 0 where
  pub child : k'.fds dst ≡ some s
  pub parent : k'.fds src ≡ some s
  pub others : (q : Ptr) → q ≢ src → q ≢ dst → k'.fds q ≡ k.fds q
  pub files : (p : Ptr) → p ≢ 0 → k'.files p ≡ add_refs (occurrences p s.ofiles) (k.files p)
  pub vrefs : (v : ℕ) → k'.vrefs v ≡ k.vrefs v + vnode_uses v k.files s.ofiles
  pub procs : (k'.procs ≡ k.procs) × (k'.p_table ≡ k.p_table)
  pub lock : (k'.biglock ≡ k.biglock) × (k'.cur ≡ k.cur)

module _ (src dst : Ptr) (s : FileDesc) (k : Kernel) (ne : src ≢ dst) (e : k.fds src ≡ some s)
    (g : k.fds dst ≡ some empty_table) (v : IsValid s)
    (r : AllReady max_open_files k.files s.ofiles) (hr : HasRoom max_open_files k) where
  locked : Kernel
  locked = with_fd k src (record s { lk = held k.cur })

  looped :
      (k' : Kernel) × (copy_from dst 0 s.ofiles locked ≡ ok tt k')
      × IsShared dst empty_table 0 s.ofiles locked k'
  unfolding locked
  looped =
      copy_from-IsShared max_open_files dst empty_table 0 s.ofiles locked (omega (arith, v.size))
        (put_ne k.fds src (some (record s { lk = held k.cur })) dst (λ q. ne (sym q)) ∙ g)
        (omega (arith, v.size)) r (record { entered = hr.entered; room = hr.room })

  copied_table :
      record empty_table {
        ofiles = fill 0 s.ofiles (replicate max_open_files 0);
        nfiles = 0 + count_open s.ofiles;
      }
      ≡ s
  copied_table =
      let f : fill 0 s.ofiles (replicate max_open_files 0) ≡ s.ofiles =
        subst (λ (n : ℕ). fill 0 s.ofiles (replicate n 0) ≡ s.ofiles) v.size
          (fill-zeros s.ofiles) in
      let n : 0 + count_open s.ofiles ≡ s.nfiles = omega (arith, v.counted) in
      rw (f, n, ← v.unlocked)

  module _ (k' : Kernel) (p : copy_from dst 0 s.ofiles locked ≡ ok tt k')
      (h : IsShared dst empty_table 0 s.ofiles locked k') where
    loop_src : k'.fds src ≡ some (record s { lk = held k'.cur })
    unfolding locked
    loop_src =
        rw (h.table, ap (λ j. j.cur) h.rest_same) (put_ne _ dst _ src ne ∙ put_self k.fds src _)

    loop_dst : k'.fds dst ≡ some s
    loop_dst = rw h.table (put_self _ dst _ ∙ ap some copied_table)

    file_copy_run : file_copy src dst k ≡ ok tt (with_fd k' src s)
    unfolding file_copy locked
    file_copy_run =
        simp (exec, file_copy, e, v.unlocked, p, loop_src, loop_dst)
          (ap (λ l. ok tt (with_fd k' src (record s { lk = l }))) (sym v.unlocked))

    loop-IsCopied : IsCopied src dst s k (with_fd k' src s)
    unfolding locked
    loop-IsCopied = record {
      child = put_ne k'.fds src (some s) dst (λ q. ne (sym q)) ∙ loop_dst;
      parent = put_self k'.fds src (some s);
      others = λ q a b.
          put_ne k'.fds src (some s) q a ∙ rw h.table (put_ne _ dst _ q b ∙ put_ne k.fds src _ q a);
      files = h.files;
      vrefs = h.vrefs;
      procs = (ap (λ j. j.procs) h.rest_same, ap (λ j. j.p_table) h.rest_same);
      lock = (ap (λ j. j.biglock) h.rest_same, ap (λ j. j.cur) h.rest_same);
    }

-- file_copy from a valid table to a new one, with the source's files unlocked and on vnodes, room for
-- eight references more in the counts of files and vnodes, and the VFS lock not held by another
-- thread, does not panic or sleep. The child then has the parent's table, the parent's is as it was,
-- each file has one reference more for each descriptor on it, each vnode one for each descriptor on
-- a file of it, and no lock is held.
pub file_copy-IsCopied :
    (src dst : Ptr) (s : FileDesc) (k : Kernel)
    → src ≢ dst
    → k.fds src ≡ some s
    → k.fds dst ≡ some empty_table
    → IsValid s
    → AllReady max_open_files k.files s.ofiles
    → HasRoom max_open_files k
    → (k' : Kernel) × (file_copy src dst k ≡ ok tt k') × IsCopied src dst s k k'
file_copy-IsCopied src dst s k ne e g v r o =
    let (k', p, h) = looped src dst s k ne e g v r o in
    (
      with_fd k' src s,
      file_copy_run src dst s k ne e g v r o k' p h,
      loop-IsCopied src dst s k ne e g v r o k' p h,
    )
