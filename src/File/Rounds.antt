-- ===== src/File/Rounds.antt =====
-- The rounds of close_all_f of io/file.c, one descriptor each.
use polito_os161v.Common.{
  ℕ, zero, suc, ◌+◌, ◌-◌, ◌^◌, ◌<◌, ◌≡◌, ◌≢◌, refl, sym, ap, ◌∙◌, subst, arith, true, false, ◌==◌,
  Option, none, some, List, [], ◌∷◌, length, get_or, set, pos, ok, good,
}
use polito_os161v.Synch.{Lock, free, held}
use polito_os161v.Kernel.{
  Ptr, Kernel, File, FileDesc, put, put_self, put-put, load_fd, fd_lock, fd_unlock, biglock_open,
}
use polito_os161v.Kernel.Access.{exec}
use polito_os161v.FileDesc.Laws.{IsValid, count_open}
use polito_os161v.FileDesc.Copy.{occurrences, vnode_uses, empty_table}
use polito_os161v.File.{close_from, des_descriptor}
use polito_os161v.File.Laws.{shared_close}

-- A file with `n` references fewer.
abbrev pub drop_refs : ℕ → Option File → Option File
drop_refs n none = none
drop_refs n (some x) = some (record x { refcount = x.refcount - n })

-- `i` descriptors that are closed, before the pointers of a list.
abbrev pub pad : ℕ → List Ptr → List Ptr
pad zero l = l
pad (suc i) l = 0 ∷ pad i l

module _ (f : Ptr) (rest : List Ptr) where
  get_or-pad : (i : ℕ) → get_or (pad i (f ∷ rest)) i 0 ≡ f
  get_or-pad zero = refl
  get_or-pad (suc i) = get_or-pad i

  set-pad : (i : ℕ) → set (pad i (f ∷ rest)) i 0 ≡ pad (suc i) rest
  set-pad zero = refl
  set-pad (suc i) = ap (λ l. 0 ∷ l) (set-pad i)

length-pad : (i : ℕ) (l : List Ptr) → length (pad i l) ≡ i + length l
length-pad zero l = omega arith
length-pad (suc i) l = omega (arith, length-pad i l)

count_open-pad : (i : ℕ) (l : List Ptr) → count_open (pad i l) ≡ count_open l
count_open-pad zero l = refl
count_open-pad (suc i) l = count_open-pad i l

-- Each file that the pointers of a list refer to has a reference besides those, and so has its vnode,
-- which is not NULL. The VFS lock is not another thread's.
pub record IsShared (k : Kernel) (l : List Ptr) : Type 0 where
  pub files :
      (p : Ptr)
      → p ≢ 0
      → 0 < occurrences p l
      → (x : File) × (k.files p ≡ some x)
        × (x.lk ≡ free)
        × (occurrences p l < x.refcount)
        × (x.refcount < 2 ^ 16)
        × (x.vnode ≢ 0)
  pub entered : biglock_open k ≡ true
  pub vrefs : (v : ℕ) → 0 < vnode_uses v k.files l → vnode_uses v k.files l < k.vrefs v

-- `k'` is `k` with the table at `t` empty, and one reference fewer for each pointer of the list to a
-- file, and one to its vnode.
pub record IsDrained (t : Ptr) (l : List Ptr) (k k' : Kernel) : Type 0 where
  pub table : k'.fds ≡ put k.fds t (some empty_table)
  pub files : (p : Ptr) → p ≢ 0 → k'.files p ≡ drop_refs (occurrences p l) (k.files p)
  pub vrefs : (v : ℕ) → k'.vrefs v ≡ k.vrefs v - vnode_uses v k.files l
  pub procs : (k'.procs ≡ k.procs) × (k'.p_table ≡ k.p_table) × (k'.lk_allproc ≡ k.lk_allproc)

pub drop_refs-zero : (o : Option File) → o ≡ drop_refs 0 o
drop_refs-zero none = refl
drop_refs-zero (some x) = ap (λ (n : ℕ). some (record x { refcount = n })) (omega arith)

-- The table in round `i`, with its lock as `l`.
abbrev pub round_table : ℕ → List Ptr → Lock → FileDesc
round_table i rest l = record { ofiles = pad i rest; nfiles = count_open rest; lk = l }

abbrev pub at_round : Kernel → Ptr → ℕ → List Ptr → Kernel
at_round k t i rest = record k { fds = put k.fds t (some (round_table i rest (held k.cur))) }

round_table-IsValid :
    (i : ℕ) (rest : List Ptr) → i + length rest ≡ 8 → IsValid (round_table i rest free)
round_table-IsValid i rest e = record {
  size = length-pad i rest ∙ e;
  counted = sym (count_open-pad i rest);
  unlocked = refl;
}

-- `k` after one round that closes the file `x` at `f`.
abbrev pub dropped : Kernel → Ptr → File → Kernel
dropped k f x = record k {
  files = put k.files f (some (record x { refcount = x.refcount - 1; lk = free }));
  vrefs = put k.vrefs x.vnode (k.vrefs x.vnode - 1);
}

module _ (t : Ptr) (i : ℕ) (f : Ptr) (rest : List Ptr) (k : Kernel) (n : ℕ) (ne : f ≢ 0)
    (e : i + length (f ∷ rest) ≡ 8) (x : File) (g : k.files f ≡ some x) (l : x.lk ≡ free)
    (r : 1 < x.refcount) (w : x.refcount < 2 ^ 16) (c : 1 < k.vrefs x.vnode) (vn : x.vnode ≢ 0)
    (bl : biglock_open k ≡ true) where
  abbrev table : FileDesc
  table = round_table i (f ∷ rest) free

  abbrev unlocked : Kernel
  unlocked = record k { fds = put k.fds t (some table) }

  -- What des_descriptor does in this round.
  closes :
      des_descriptor t (pos i) unlocked
      ≡ ok
          (good tt)
          (record (dropped k f x) { fds = put k.fds t (some (round_table (i + 1) rest free)) })
  closes =
      let p : get_or (pad i (f ∷ rest)) i 0 ≡ f = get_or-pad f rest i in
      let z : (f == 0) ≡ false = ground arith in
      let s1 : i + 1 ≡ suc i = omega arith in
      let m : suc (count_open rest) - 1 ≡ count_open rest = omega arith in
      let h =
        shared_close t i unlocked table x (put_self k.fds t (some table))
          (round_table-IsValid i (f ∷ rest) e) (λ q. ne (sym p ∙ q)) (rw p g) l r w c vn bl in
      h ∙ simp (p, set-pad f rest i, put-put, z, s1, m)

  pub one_round :
      close_from (suc n) t i (at_round k t i (f ∷ rest))
      ≡ close_from n t (i + 1) (at_round (dropped k f x) t (i + 1) rest)
  unfolding close_from load_fd fd_lock fd_unlock
  one_round =
      let z : (f == 0) ≡ false = ground arith in
      let p : get_or (pad i (f ∷ rest)) i 0 ≡ f = get_or-pad f rest i in
      let counted : count_open (f ∷ rest) ≡ suc (count_open rest) = rw z refl in
      let h =
        subst
          (λ (c : ℕ).
            des_descriptor t (pos i) (record k {
              fds =
                  put k.fds t (some (record { ofiles = pad i (f ∷ rest); nfiles = c; lk = free }));
            })
            ≡ ok (good tt) (record (dropped k f x) {
              fds = put k.fds t (some (round_table (i + 1) rest free));
            }))
          counted closes in
      simp (exec, p, z, h)

-- A round at a descriptor that is not open.
pub null_round :
    (t : Ptr) (i n : ℕ) (rest : List Ptr) (k : Kernel)
    → close_from (suc n) t i (at_round k t i (0 ∷ rest))
      ≡ close_from n t (i + 1) (at_round k t (i + 1) rest)
unfolding close_from load_fd
null_round t i n rest k =
    let p : get_or (pad i (0 ∷ rest)) i 0 ≡ 0 = get_or-pad 0 rest i in
    let q : pad i (0 ∷ rest) ≡ pad (i + 1) rest = pad_next i in
    simp (exec, p)
      (ap
        (λ v. close_from n t (i + 1) (record k {
          fds =
              put k.fds t (some (record { ofiles = v; nfiles = count_open rest; lk = held k.cur }));
        }))
        q)
  where
    pad_suc : (i : ℕ) → pad i (0 ∷ rest) ≡ pad (suc i) rest
    pad_suc zero = refl
    pad_suc (suc i) = ap (λ l. 0 ∷ l) (pad_suc i)

    pad_next : (i : ℕ) → pad i (0 ∷ rest) ≡ pad (i + 1) rest
    pad_next i = let s1 : i + 1 ≡ suc i = omega arith in rw s1 (pad_suc i)

pub last_round :
    (t : Ptr) (i : ℕ) (k : Kernel)
    → i ≡ 8
    → close_from zero t i (at_round k t i [])
      ≡ ok (good tt) (record k { fds = put k.fds t (some empty_table) })
unfolding close_from fd_unlock
last_round t i k e = rw e simp exec
