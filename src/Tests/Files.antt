-- ===== src/Tests/Files.antt =====
-- Descriptor tables and files at a concrete kernel.
use polito_os161v.Common.{
  ◌≢◌, ap, Option, ℕ, zero, suc, ◌≡◌, inl, inr, refl, arith, none, some, ◌∷◌, replicate,
  get_or-replicate, ok, good, false, pos,
}
use polito_os161v.Synch.{free}
use polito_os161v.Kernel.{Ptr, Kernel, File, FileDesc, put, put_self}
use polito_os161v.Kernel.Access.{with_fd, exec}
use polito_os161v.FileDesc.{find_free, fd_attach, fd_detach, file_copy, max_open_files}
use polito_os161v.FileDesc.Laws.{IsValid, detached, fd_attach_detach}
use polito_os161v.FileDesc.Copy.{empty_table, AllReady, IsCopied, file_copy-IsCopied}
use polito_os161v.File.{close_all_f, get_file, des_descriptor}
use polito_os161v.File.Rounds.{IsShared, IsDrained}
use polito_os161v.File.CloseAll.{close_all_f-IsDrained}
use polito_os161v.File.CloseAll.Restore.{IsReferenced, copy_then_close}
use polito_os161v.File.Laws.{Got, AllUnlocked, Closed, get_file-Got, des_descriptor-Closed}

-- A table with the file at 20 at descriptor 0, and an empty table at 11. The vnode 7 has one
-- reference from the file and one for its descriptor.
abbrev one_open : FileDesc
one_open = record { ofiles = 20 ∷ replicate 7 0; nfiles = 1; lk = free }

abbrev console : File
console = record { vnode = 7; oflags = 2; refcount = 1; offset = 0; lk = free }

abbrev kernel : Kernel
kernel = record {
  cur = 1;
  next = 30;
  oom = λ p. false;
  files = put (λ p. none) 20 (some console);
  fds = put (put (λ p. none) 11 (some empty_table)) 10 (some one_open);
  vrefs = λ v. 2;
  stays = λ v. false;
  biglock = 0;
  procs = λ p. none;
  p_table = replicate 32 0;
  next_pid = 0;
  lk_allproc = free;
}

one_open-IsValid : IsValid one_open
one_open-IsValid = record { size = refl; counted = refl; unlocked = refl }

has_table : kernel.fds 10 ≡ some one_open
has_table = put_self (put (λ p. none) 11 (some empty_table)) 10 (some one_open)

has_file : kernel.files 20 ≡ some console
has_file = put_self (λ p. none) 20 (some console)

-- The table after the file at 21 is opened too.
abbrev two_open : FileDesc
two_open = record { ofiles = 20 ∷ 21 ∷ replicate 6 0; nfiles = 2; lk = free }

attached : fd_attach 10 21 kernel ≡ ok (good 1) (with_fd kernel 10 two_open)
unfolding fd_attach find_free
attached = simp (exec, fd_attach)

fd_attach_detach_example : fd_detach 10 1 (with_fd kernel 10 two_open) ≡ ok tt kernel
fd_attach_detach_example =
    fd_attach_detach 10 21 1 kernel (with_fd kernel 10 two_open) one_open has_table one_open-IsValid
      (omega arith) attached

all_ready : AllReady max_open_files kernel.files one_open.ofiles
all_ready = (
  inr (omega arith, (console, has_file, refl, omega arith, omega arith)),
  (inl refl, (inl refl, (inl refl, (inl refl, (inl refl, (inl refl, (inl refl, tt))))))),
)

file_copy-IsCopied_example :
    (k : Kernel) × (file_copy 10 11 kernel ≡ ok tt k) × IsCopied 10 11 one_open kernel k
unfolding put
file_copy-IsCopied_example =
    file_copy-IsCopied 10 11 one_open kernel (omega arith) has_table refl one_open-IsValid all_ready
      (record { entered = refl; room = λ v. omega arith })

all_unlocked : AllUnlocked kernel one_open
all_unlocked zero n = (console, has_file, refl)
all_unlocked (suc i) n = absurd (n (get_or-replicate 7 i 0))

get_file-Got_example : Got kernel 10 one_open (pos 0) (get_file 10 (pos 0) kernel)
get_file-Got_example =
    get_file-Got 10 kernel one_open (pos 0) has_table one_open-IsValid all_unlocked

des_descriptor-Closed_example :
    Closed kernel 10 one_open 0 console (des_descriptor 10 (pos 0) kernel)
    × IsValid (detached one_open 0)
des_descriptor-Closed_example =
    des_descriptor-Closed 10 0 kernel one_open console has_table one_open-IsValid (omega arith)
      has_file refl
      (record {
        some_left = omega arith;
        narrow = omega arith;
        one_more = refl;
        idle = refl;
        real = omega arith;
        entered = refl;
      })

-- A kernel where every address has a file with two references.
abbrev shared_file : File
shared_file = record console { refcount = 2 }

abbrev full : Kernel
full = record kernel { files = λ p. some shared_file; vrefs = λ v. 3 }

full-IsShared : IsShared full one_open.ofiles
full-IsShared = record {
  files = λ p n o. (shared_file, refl, refl, ground arith, omega arith, omega arith);
  entered = refl;
  vrefs = λ v o. ground arith;
}

close_all_f-IsDrained_example :
    (k : Kernel) × (close_all_f 10 full ≡ ok (good tt) k) × IsDrained 10 one_open.ofiles full k
close_all_f-IsDrained_example =
    close_all_f-IsDrained 10 full one_open has_table one_open-IsValid full-IsShared

full_ready : AllReady max_open_files full.files one_open.ofiles
full_ready = (
  inr (omega arith, (shared_file, refl, refl, omega arith, omega arith)),
  (inl refl, (inl refl, (inl refl, (inl refl, (inl refl, (inl refl, (inl refl, tt))))))),
)

full-IsReferenced : IsReferenced full one_open.ofiles
full-IsReferenced = record {
  files = λ p x e o.
      let r : 2 ≡ x.refcount =
        ap (λ (f : Option File). elim f as (λ f. ℕ) [ none ↦ 2 | some y ↦ y.refcount ]) e in
      omega (arith, r);
  vrefs = λ v o. omega arith;
}

copy_then_close_example :
    (j k : Kernel) × (file_copy 10 11 full ≡ ok tt j)
    × (close_all_f 11 j ≡ ok (good tt) k)
    × ((p : Ptr) → p ≢ 0 → k.files p ≡ some shared_file)
    × ((v : ℕ) → k.vrefs v ≡ 3)
    × (k.fds 10 ≡ some one_open)
    × (k.fds 11 ≡ some empty_table)
unfolding put
copy_then_close_example =
    copy_then_close 10 11 one_open full (omega arith) has_table refl one_open-IsValid full_ready
      full-IsReferenced (record { entered = refl; room = λ v. omega arith })
