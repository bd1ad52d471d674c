-- ===== src/Tests/Calls.antt =====
-- File system calls and copies of user memory at a concrete kernel.
use polito_os161v.Common.{
  ℕ, zero, suc, ◌<◌, ◌≡◌, ◌≢◌, subst, get_or, inl, inr, refl, arith, none, some, ◌∷◌, replicate,
  get_or-replicate, good, Res, Option, Errno, false, pos,
}
use polito_os161v.Synch.{free}
use polito_os161v.Kernel.{Kernel, File, FileDesc, put, put_self}
use polito_os161v.FileDesc.Laws.{IsValid}
use polito_os161v.File.Laws.{AllUnlocked}
use polito_os161v.FileSyscall.{sys_lseek, sys_close}
use polito_os161v.FileSyscall.Laws.{pos-injective, Sought, sys_lseek-Sought}
use polito_os161v.FileSyscall.Close.{IsClosable, Closes, sys_close-Closes}
use polito_os161v.Copyinout.{Machine, copyin, copyout, copyinstr, copyoutstr}
use polito_os161v.Copyinout.Laws.{BlockCopied, copy-BlockCopied}
use polito_os161v.Copyinout.Strings.{StrCopied, copystr-StrCopied}

-- A table with the file at 20 at descriptor 0. The vnode 7 has a reference from the file and one
-- for the descriptor.
abbrev one_open : FileDesc
one_open = record { ofiles = 20 ∷ replicate 7 0; nfiles = 1; lk = free }

abbrev console : File
console = record { vnode = 7; oflags = 2; refcount = 1; offset = 0; lk = free }

abbrev kernel : Kernel
kernel = record {
  cur = 1;
  next = 30;
  oom = λ p. false;
  files = put (λ p. none) 20 (some console);
  fds = put (λ p. none) 10 (some one_open);
  vrefs = λ v. 2;
  stays = λ v. false;
  biglock = 0;
  procs = λ p. none;
  p_table = replicate 32 0;
  next_pid = 0;
  lk_allproc = free;
}

one_open-IsValid : IsValid one_open
one_open-IsValid = record { size = refl; counted = refl; unlocked = refl }

has_table : kernel.fds 10 ≡ some one_open
has_table = put_self (λ p. none) 10 (some one_open)

has_file : kernel.files 20 ≡ some console
has_file = put_self (λ p. none) 20 (some console)

all_unlocked : AllUnlocked kernel one_open
all_unlocked zero n = (console, has_file, refl)
all_unlocked (suc i) n = absurd (n (get_or-replicate 7 i 0))

-- Every vnode has 100 bytes, and every position is legal.
abbrev stat : ℕ → Res ℕ
stat v = good 100

abbrev tryseek : ℕ → ℕ → Option Errno
tryseek v p = none

sys_lseek-Sought_example :
    Sought stat tryseek kernel 10 one_open 5 2
      (pos 0)
      (sys_lseek stat tryseek 10 (pos 0) 5 2 kernel)
sys_lseek-Sought_example =
    sys_lseek-Sought stat tryseek kernel 10 one_open (pos 0) 5 2 has_table one_open-IsValid
      all_unlocked

closable :
    (n : ℕ)
    → get_or one_open.ofiles n 0 ≢ 0
    → (x : File) × (kernel.files (get_or one_open.ofiles n 0) ≡ some x) × IsClosable kernel x
closable zero n = (
  console,
  has_file,
  record {
    some_left = omega arith;
    narrow = omega arith;
    one_more = omega arith;
    real = omega arith;
    entered = refl;
  },
)
closable (suc i) n = absurd (n (get_or-replicate 7 i 0))

sys_close-Closes_example : Closes 10 kernel one_open (pos 0) (sys_close 10 (pos 0) kernel)
sys_close-Closes_example =
    sys_close-Closes 10 kernel one_open (pos 0) has_table one_open-IsValid
      (λ n e. inl (subst (λ m. m < 8) (pos-injective e) (omega arith))) closable

-- `vfs_open` gives the vnode 9, with one reference.
abbrev opened : Kernel
opened = record kernel { vrefs = put kernel.vrefs 9 1 }

-- User memory begins at 0x400000, and the kernel's buffer is at 0x80100000.
abbrev machine : Machine
machine = record { mem = λ a. a; guarded = false }

copy-BlockCopied_example :
    BlockCopied
      (λ a. false)
      4194304
      2148532224
      4194304
      8
      machine
      (copyin (λ a. false) 4194304 2148532224 8 machine)
    × BlockCopied
        (λ a. false)
        4194304
        4194304
        2148532224
        8
        machine
        (copyout (λ a. false) 2148532224 4194304 8 machine)
copy-BlockCopied_example =
    copy-BlockCopied (λ a. false) 4194304 2148532224 8 machine (omega arith) (omega arith)
      (inr (omega arith))

copystr-StrCopied_example :
    StrCopied
      (λ a. false)
      4194304
      2148532224
      4194304
      8
      machine
      (copyinstr (λ a. false) 4194304 2148532224 8 machine)
    × StrCopied
        (λ a. false)
        4194304
        4194304
        2148532224
        8
        machine
        (copyoutstr (λ a. false) 2148532224 4194304 8 machine)
copystr-StrCopied_example =
    copystr-StrCopied (λ a. false) 4194304 2148532224 8 machine (omega arith) (omega arith)
      (inr (omega arith))
