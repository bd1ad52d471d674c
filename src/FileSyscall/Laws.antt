-- ===== src/FileSyscall/Laws.antt =====
-- sys_lseek of syscall/file_syscall.c.
use polito_os161v.Common.{
  ℕ, ◌≤◌, ◌≡◌, refl, sym, subst, ◌⊎◌, inl, inr, arith, Option, none, some, get_or, ℤ, pos, Res,
  good, fail, ebadf, einval, zero, suc, ◌+◌, ◌%◌, ◌^◌, ◌<◌, Errno, Run, ok, and_then, Option-cases,
}
use polito_os161v.Synch.{free, held}
use polito_os161v.Kernel.{Ptr, Kernel, File, FileDesc, put, load_file, store_file, f_unlock}
use polito_os161v.Kernel.Access.{exec}
use polito_os161v.FileDesc.{max_open_files}
use polito_os161v.FileDesc.Laws.{IsValid}
use polito_os161v.File.Laws.{Got, negative, too_large, not_open, opened, AllUnlocked, get_file-Got}
use polito_os161v.FileSyscall.{target, sys_lseek, seek_got, seek_to}

pub pos-injective : {m n : ℕ} → pos m ≡ pos n → m ≡ n
pos-injective e = cc

Res-cases : {A : Type 0} (r : Res A) → ((e : Errno) × (r ≡ fail e)) ⊎ ((a : A) × (r ≡ good a))
Res-cases (fail e) = inl (e, refl)
Res-cases (good a) = inr (a, refl)

-- The kernel with the file at `f` as `x`, and the table `d` at `t`.
abbrev pub with_both : Kernel → Ptr → File → Ptr → FileDesc → Kernel
with_both k f x t d = record k { files = put k.files f (some x); fds = put k.fds t (some d) }

module _ (stat : ℕ → Res ℕ) (tryseek : ℕ → ℕ → Option Errno) where
  -- The position that SEEK_SET, SEEK_CUR and SEEK_END ask for, from the start, from the current
  -- position and from the end of the file, as an `off_t`; or the error.
  pub data Position (x : File) (offset : ℕ) : ℕ → Res ℕ → Type 0 where
    from_start : Position x offset 0 (good offset)
    from_current : Position x offset 1 (good ((x.offset + offset) % 2 ^ 64))
    from_end :
        (size : ℕ)
        → stat x.vnode ≡ good size
        → Position x offset 2 (good ((size + offset) % 2 ^ 64))
    no_size : (e : Errno) → stat x.vnode ≡ fail e → Position x offset 2 (fail e)
    bad_whence : {whence : ℕ} → 2 < whence → Position x offset whence (fail einval)

  target-Position :
      (x : File) (offset whence : ℕ) → Position x offset whence (target stat x offset whence)
  target-Position x offset zero = from_start
  target-Position x offset (suc zero) = from_current
  target-Position x offset (suc (suc zero)) = elim (Res-cases (stat x.vnode)) [
    | inl (e, a) ↦ rw a (no_size e a)
    | inr (size, a) ↦ rw a (from_end size a)
  ]
  target-Position x offset (suc (suc (suc n))) =
      subst (Position x offset (suc (suc (suc n)))) (sym (bad n)) (bad_whence (omega arith))
    where
      bad : (m : ℕ) → target stat x offset (suc (suc (suc m))) ≡ fail einval
      bad m = ground arith

  -- The ways in which `sys_lseek` ends.
  pub data Sought (k : Kernel) (t : Ptr) (d : FileDesc) (offset whence : ℕ)
      : ℤ → Run Kernel (Res ℕ) → Type 0 where
    no_file :
        {fd : ℤ}
        → ((n : ℕ) → fd ≡ pos n → (max_open_files ≤ n) ⊎ (get_or d.ofiles n 0 ≡ 0))
        → Sought k t d offset whence fd (ok (fail ebadf) k)
    refused :
        (fd : ℕ) (x : File) (e : Errno)
        → k.files (get_or d.ofiles fd 0) ≡ some x
        → (Position x offset whence (fail e)
            ⊎ ((new : ℕ) × Position x offset whence (good new) × (tryseek x.vnode new ≡ some e)))
        → Sought k t d offset whence
            (pos fd)
            (ok (fail e) (with_both k (get_or d.ofiles fd 0) (record x { lk = free }) t d))
    moved :
        (fd : ℕ) (x : File) (new : ℕ)
        → k.files (get_or d.ofiles fd 0) ≡ some x
        → Position x offset whence (good new)
        → tryseek x.vnode new ≡ none
        → Sought k t d offset whence (pos fd) (
            ok
              (good new)
              (with_both k (get_or d.ofiles fd 0) (record x { offset = new; lk = free }) t d))

  -- The part after `get_file`, with the file `x` at `f` locked.
  module _ (k : Kernel) (t : Ptr) (d : FileDesc) (f : Ptr) (x : File) (offset whence : ℕ) where
    abbrev locked : Kernel
    locked = with_both k f (record x { lk = held k.cur }) t d

    seek_bad :
        (e : Errno)
        → target stat x offset whence ≡ fail e
        → seek_got stat tryseek offset whence (good f) locked
          ≡ ok (fail e) (with_both k f (record x { lk = free }) t d)
    unfolding seek_got load_file f_unlock
    seek_bad e g = simp (exec, g)

    seek_refused :
        (new : ℕ) (e : Errno)
        → target stat x offset whence ≡ good new
        → tryseek x.vnode new ≡ some e
        → seek_got stat tryseek offset whence (good f) locked
          ≡ ok (fail e) (with_both k f (record x { lk = free }) t d)
    unfolding seek_got seek_to load_file store_file f_unlock
    seek_refused new e g h = simp (exec, g, h)

    seek_moved :
        (new : ℕ)
        → target stat x offset whence ≡ good new
        → tryseek x.vnode new ≡ none
        → seek_got stat tryseek offset whence (good f) locked
          ≡ ok (good new) (with_both k f (record x { offset = new; lk = free }) t d)
    unfolding seek_got seek_to load_file store_file f_unlock
    seek_moved new g h = simp (exec, g, h)

  seek_got-Sought :
      (k : Kernel) (t : Ptr) (d : FileDesc) (offset whence : ℕ) (fd : ℤ) (r : Run Kernel (Res Ptr))
      → Got k t d fd r
      → Sought k t d offset whence fd (and_then r (seek_got stat tryseek offset whence))
  unfolding seek_got
  seek_got-Sought k t d offset whence _ _ (negative n) = no_file (λ m e. cc)
  seek_got-Sought k t d offset whence _ _ (too_large fd h) = no_file (λ m e. inl (ground arith))
  seek_got-Sought k t d offset whence _ _ (not_open fd h) =
      no_file (λ m e. inr (subst (λ i. get_or d.ofiles i 0 ≡ 0) (pos-injective e) h))
  seek_got-Sought k t d offset whence _ _ (opened fd x n g) =
      let f : Ptr = get_or d.ofiles fd 0 in
      elim (Res-cases (target stat x offset whence)) [
        | inl (e, a) ↦
            subst (Sought k t d offset whence (pos fd)) (sym (seek_bad k t d f x offset whence e a))
              (refused fd x e g
                (inl (subst (Position x offset whence) a (target-Position x offset whence))))
        | inr (new, a) ↦ elim (Option-cases (tryseek x.vnode new)) [
          | inl b ↦
              subst (Sought k t d offset whence (pos fd))
                (sym (seek_moved k t d f x offset whence new a b))
                (moved fd x new g
                  (subst (Position x offset whence) a (target-Position x offset whence)) b)
          | inr (e, b) ↦
              subst (Sought k t d offset whence (pos fd))
                (sym (seek_refused k t d f x offset whence new e a b))
                (refused fd x e g (
                  inr
                    (new, subst (Position x offset whence) a (target-Position x offset whence), b)))
        ]
      ]

  -- sys_lseek, on a valid table whose files are unlocked, refuses a descriptor that is out of range
  -- or not open with EBADF, and otherwise takes the position that `whence` asks for and asks the
  -- vnode: it stores and returns the position, or returns the error with the position as it was. The file and
  -- the table are unlocked again in every case.
  pub sys_lseek-Sought :
      (k : Kernel) (t : Ptr) (d : FileDesc) (fd : ℤ) (offset whence : ℕ)
      → k.fds t ≡ some d
      → IsValid d
      → AllUnlocked k d
      → Sought k t d offset whence fd (sys_lseek stat tryseek t fd offset whence k)
  unfolding sys_lseek
  sys_lseek-Sought k t d fd offset whence e v a =
      seek_got-Sought k t d offset whence fd _ (get_file-Got t k d fd e v a)
