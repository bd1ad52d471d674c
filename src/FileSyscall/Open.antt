-- ===== src/FileSyscall/Open.antt =====
-- k_open of syscall/file_syscall.c, where the table has a free descriptor and where it is full.
use polito_os161v.Common.{
  ℕ, ◌+◌, ◌≡◌, ◌≢◌, Run, ◌⊎◌, true, false, ◌==◌, none, some, u16, bit_and, Res, good, ok, panic,
  Cmd,
}
use polito_os161v.Synch.{free, held}
use polito_os161v.Kernel.{Ptr, Kernel, File, FileDesc, put, biglock_open}
use polito_os161v.FileDesc.Laws.{IsValid, FirstFree, attached}
use polito_os161v.FileSyscall.{o_append}

-- The file that `k_open` makes.
abbrev pub new_file : ℕ → ℕ → ℕ → File
new_file vn flags offset = record {
  vnode = vn;
  oflags = u16 flags;
  refcount = 1;
  offset = offset;
  lk = free;
}

module _ (stat : ℕ → Res ℕ) (vfs_open : Cmd Kernel (Res ℕ)) (t : Ptr) (flags vn : ℕ) (k k1 : Kernel)
    (d : FileDesc) (found : vfs_open k ≡ ok (good vn) k1) (e : k1.fds t ≡ some d) (v : IsValid d)
    (room : k1.oom k1.next ≡ false) (room' : k1.oom (k1.next + 1) ≡ false) (real : vn ≢ 0)
    (entered : biglock_open k1 ≡ true) (one : k1.vrefs vn ≡ 1) (idle : k1.stays vn ≡ false) where
  -- The kernel with the new file at `f` locked.
  abbrev locked : Ptr → ℕ → Kernel
  locked f offset = record k1 {
    next = k1.next + 1 + 1;
    files =
        put k1.files f
          (some (record (new_file vn flags offset) { refcount = 0; lk = held k1.cur }));
  }

  -- `sized` says which offset the new file has.
  abbrev pub Sized : ℕ → Type 0
  Sized offset =
      (((bit_and flags o_append == 0) ≡ true) × (offset ≡ 0))
      ⊎ (((bit_and flags o_append == 0) ≡ false) × (stat vn ≡ good offset))

  -- The kernel with the new file at a fresh address, open at descriptor `i`.
  abbrev pub with_new : ℕ → ℕ → Kernel
  with_new offset i = record k1 {
    next = k1.next + 1 + 1;
    files = put k1.files k1.next (some (new_file vn flags offset));
    fds = put k1.fds t (some (attached t k1.next k1 d e v i));
    vrefs = put k1.vrefs vn 2;
  }

  -- The two ways in which `k_open` ends when it has a vnode and memory.
  pub data Opens (offset : ℕ) : Run Kernel (Res ℕ) → Type 0 where
    opens : (i : ℕ) → FirstFree d.ofiles (some i) → Opens offset (ok (good i) (with_new offset i))
    crashes : FirstFree d.ofiles none → Opens offset panic
