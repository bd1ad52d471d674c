-- ===== src/FileSyscall.antt =====
-- syscall/file_syscall.c: opening, closing, duplicating, reading and positioning files. `t` is the
-- table `p_fd` of the current process.
pub mod Laws
pub mod Close
pub mod Open
use polito_os161v.Common.{
  ℕ, ◌+◌, ◌-◌, ◌^◌, ◌%◌, Bool, true, false, ◌||◌, ◌==◌, if◌then◌else◌, ltb, leb, Option, none, some,
  u16, get_elem?, get_or, set, bit_and, ℤ, pos, negsuc, Res, good, fail, ebadf, einval, efault,
  eacces, enomem, Errno, Run, panic, Cmd, pure, ◌>>=◌, ◌>>◌,
}
use polito_os161v.Synch.{destroy, free}
use polito_os161v.Kernel.{
  Ptr, Kernel, File, FileDesc, kmalloc, load_fd, store_fd, fd_lock, fd_unlock, load_file,
  store_file, f_lock, f_unlock, vop_incref, vop_decref, on_lock,
}
use polito_os161v.FileDesc.{fd_attach}
use polito_os161v.File.{kassert, get_file, des_file}
use polito_os161v.Uio.{Uio, Rw, uio_read, uio_write, uio_uinit}

-- OPEN_MAX, and the flags of kern/include/kern/fcntl.h
abbrev pub open_max : ℕ
open_max = 128

abbrev pub o_accmode : ℕ
o_accmode = 3

abbrev pub o_append : ℕ
o_append = 32

-- `valid_flags`: the access mode is one of O_RDWR, O_RDONLY and O_WRONLY.
unfoldable pub valid_flags : ℕ → Bool
valid_flags flags =
    let accmode = bit_and flags o_accmode in
    (if accmode == 2 then 1 else 0)
      + (if accmode == 0 then 1 else 0)
      + (if accmode == 1 then 1 else 0)
    == 1

-- The value of `VOP_STAT`'s `st_size`, or its error.
module _ (stat : ℕ → Res ℕ) where
  -- The end of `k_open`, once `fd_attach` has run with the file locked.
  open_attached : Ptr → ℕ → Res ℕ → Cmd Kernel (Res ℕ)
  open_attached f vn (fail e) = do f_unlock f; vop_decref vn; des_file f; pure (fail e)
  open_attached f vn (good fd) = do
    x ← load_file f
    store_file f (some (record x { refcount = u16 (x.refcount + 1) }))
    y ← load_file f
    vop_incref y.vnode
    f_unlock f
    pure (good fd)

  -- The part of `k_open` from `F_LOCK` on.
  open_attach : Ptr → Ptr → ℕ → Cmd Kernel (Res ℕ)
  unfolding open_attached
  open_attach t f vn = do f_lock f; r ← fd_attach t f; open_attached f vn r

  -- `VOP_STAT` for O_APPEND; on its failure the vnode is closed twice.
  open_sized : Ptr → Ptr → ℕ → Res ℕ → Cmd Kernel (Res ℕ)
  unfolding open_attach
  open_sized t f vn (fail e) = do vop_decref vn; des_file f; pure (fail e)
  open_sized t f vn (good size) = do
    x ← load_file f
    store_file f (some (record x { offset = size }))
    open_attach t f vn

  -- `k_open` with the new file at `f`, for what `lock_create` gave. On NULL the file is freed, but the
  -- error is overwritten by 0, and the code goes on.
  open_made : Ptr → ℕ → ℕ → Ptr → Option Ptr → Cmd Kernel (Res ℕ)
  unfolding open_sized open_attach
  open_made t flags vn f lk = do
    store_file f (elim lk [
      | none ↦ none
      | some _ ↦
          some (record { vnode = vn; oflags = u16 flags; refcount = 0; offset = 0; lk = free })
    ])
    if bit_and flags o_append == 0
        then open_attach t f vn
        else (do x ← load_file f; open_sized t f vn (stat x.vnode))

  open_alloc : Ptr → ℕ → ℕ → Option Ptr → Cmd Kernel (Res ℕ)
  unfolding open_made
  open_alloc t flags vn none = pure (fail enomem)
  open_alloc t flags vn (some f) = kmalloc >>= open_made t flags vn f

  open_vnode : Ptr → ℕ → Res ℕ → Cmd Kernel (Res ℕ)
  unfolding open_alloc
  open_vnode t flags (fail e) = pure (fail e)
  open_vnode t flags (good vn) = kmalloc >>= open_alloc t flags vn

  -- `k_open`; `vfs_open` is that call of vfs/vfspath.c for the path, a vnode or an error.
  unfoldable pub k_open : Cmd Kernel (Res ℕ) → Ptr → ℕ → Cmd Kernel (Res ℕ)
  unfolding open_vnode open_alloc open_made open_sized open_attach open_attached fd_attach des_file
  k_open vfs_open t flags = vfs_open >>= open_vnode t flags

  -- `new_offset` of `sys_lseek`, an `off_t` of 64 bits.
  abbrev pub target : File → ℕ → ℕ → Res ℕ
  target x offset whence =
      if whence == 0
      then good offset
      else if whence == 1
      then good ((x.offset + offset) % 2 ^ 64)
      else if whence == 2
      then elim (stat x.vnode) [ fail e ↦ fail e | good size ↦ good ((size + offset) % 2 ^ 64) ]
      else fail einval

  -- The end of `sys_lseek`, for what `VOP_TRYSEEK` returns.
  seek_to : Ptr → ℕ → Option Errno → Cmd Kernel (Res ℕ)
  seek_to f new (some e) = do f_unlock f; pure (fail e)
  seek_to f new none = do
    x ← load_file f
    store_file f (some (record x { offset = new }))
    f_unlock f
    pure (good new)

  module _ (tryseek : ℕ → ℕ → Option Errno) where
    seek_got : ℕ → ℕ → Res Ptr → Cmd Kernel (Res ℕ)
    unfolding seek_to
    seek_got offset whence (fail e) = pure (fail e)
    seek_got offset whence (good f) = do
      x ← load_file f
      elim (target x offset whence) [
        | fail e ↦ f_unlock f >> pure (fail e)
        | good new ↦ seek_to f new (tryseek x.vnode new)
      ]

    -- `sys_lseek`
    unfoldable pub sys_lseek : Ptr → ℤ → ℕ → ℕ → Cmd Kernel (Res ℕ)
    unfolding seek_got seek_to get_file
    sys_lseek t fd offset whence = get_file t fd >>= seek_got offset whence

-- `fd_ofiles[fd]`, which C leaves undefined past the array.
entry : Ptr → ℕ → Cmd Kernel Ptr
entry t fd = do
  d ← load_fd t
  elim (get_elem? d.ofiles fd) [ none ↦ (λ k. panic) | some f ↦ pure f ]

set_entry : Ptr → ℕ → Ptr → Cmd Kernel (Unit {0})
set_entry t fd f = do d ← load_fd t; store_fd t (some (record d { ofiles = set d.ofiles fd f }))

-- `lock_destroy` of the table's lock
destroy_fd_lk : Ptr → Cmd Kernel (Unit {0})
unfolding destroy
destroy_fd_lk t = do
  d ← load_fd t
  λ k. on_lock (destroy d.lk) (λ l. store_fd t (some (record d { lk = l }))) k

-- `sys_close` of the last reference: the lock that goes is that of the table.
close_last : Ptr → ℕ → Ptr → Cmd Kernel (Res (Unit {0}))
unfolding destroy_fd_lk set_entry
close_last t fd f = do
  x ← load_file f
  vop_decref x.vnode
  fd_unlock t
  destroy_fd_lk t
  store_file f none
  set_entry t fd 0
  pure (good tt)

close_entry : Ptr → ℕ → Ptr → Cmd Kernel (Res (Unit {0}))
unfolding close_last
close_entry t fd f = if f == 0 then pure (fail ebadf) else (do
  fd_lock t
  x ← load_file f
  kassert (ltb 0 x.refcount)
  store_file f (some (record x { refcount = u16 (x.refcount + 65535) }))
  y ← load_file f
  if y.refcount == 0 then close_last t fd f else (do fd_unlock t; pure (good tt)))

-- `sys_close`
unfoldable pub sys_close : Ptr → ℤ → Cmd Kernel (Res (Unit {0}))
unfolding entry close_entry close_last
sys_close t (negsuc n) = pure (fail ebadf)
sys_close t (pos fd) =
    if ltb (open_max + 1) fd then pure (fail ebadf) else (do f ← entry t fd; close_entry t fd f)

-- The end of `sys_dup2`, where `newfd` was open. The reference that is dropped is that of `oldfd`.
dup2_drop : Ptr → ℕ → Cmd Kernel (Unit {0})
unfolding entry destroy_fd_lk
dup2_drop t oldfd = do
  fd_lock t
  f ← entry t oldfd
  x ← load_file f
  store_file f (some (record x { refcount = u16 (x.refcount + 65535) }))
  y ← load_file f
  fd_unlock t
  if ltb 0 y.refcount then pure tt else (do
    destroy_fd_lk t
    g ← entry t oldfd
    z ← load_file g
    vop_decref z.vnode
    store_fd t none)

-- `sys_dup2` of two descriptors that are in range; `f` and `g` are the pointers at them.
dup2_at : Ptr → ℕ → ℕ → Ptr → Ptr → Cmd Kernel (Res ℕ)
unfolding dup2_drop set_entry
dup2_at t oldfd newfd f g = do
  fd_lock t
  set_entry t newfd f
  x ← load_file f
  store_file f (some (record x { refcount = u16 (x.refcount + 1) }))
  fd_unlock t
  if g == 0 then pure tt else dup2_drop t oldfd
  pure (good newfd)

-- `sys_dup2`
unfoldable pub sys_dup2 : Ptr → ℤ → ℤ → Cmd Kernel (Res ℕ)
unfolding entry dup2_at dup2_drop
sys_dup2 t (negsuc n) newfd = pure (fail ebadf)
sys_dup2 t (pos oldfd) (negsuc n) = pure (fail ebadf)
sys_dup2 t (pos oldfd) (pos newfd) =
    if leb open_max oldfd || leb open_max newfd then pure (fail ebadf) else (do
      f ← entry t oldfd
      if f == 0
          then pure (fail ebadf)
          else if oldfd == newfd
          then pure (good newfd)
          else (do g ← entry t newfd; dup2_at t oldfd newfd f g))

-- `VOP_READ` or `VOP_WRITE` of a vnode, on a uio for the address space `space`.
module _ (vop : ℕ → Uio → Res Uio) (space : ℕ) where
  -- The end of `sys_read` and `sys_write`: the offset moves as far as the transfer went.
  transferred : Ptr → Ptr → ℕ → Res Uio → Cmd Kernel (Res ℕ)
  transferred t f nbytes (fail e) = do fd_unlock t; pure (fail e)
  transferred t f nbytes (good u) = do
    x ← load_file f
    store_file f (some (record x { offset = u.offset }))
    fd_unlock t
    pure (good (nbytes - u.resid))

  transfer_entry : Rw → ℕ → Ptr → ℕ → ℕ → Ptr → Cmd Kernel (Res ℕ)
  unfolding transferred uio_uinit
  transfer_entry rw refused t buffer nbytes f =
      if f == 0 then pure (fail ebadf) else if buffer == 0 then pure (fail efault) else (do
        x ← load_file f
        if x.oflags == refused
            then pure (fail eacces)
            else if nbytes == 0
            then pure (fail einval)
            else (do
              fd_lock t
              y ← load_file f
              transferred t f nbytes (vop y.vnode (uio_uinit space buffer nbytes y.offset rw))))

  -- `sys_read`, with O_WRONLY
  unfoldable pub sys_read : Ptr → ℤ → ℕ → ℕ → Cmd Kernel (Res ℕ)
  unfolding entry transfer_entry
  sys_read t (negsuc n) buffer nbytes = pure (fail ebadf)
  sys_read t (pos fd) buffer nbytes =
      if ltb (open_max + 1) fd
      then pure (fail ebadf)
      else (do f ← entry t fd; transfer_entry uio_read 1 t buffer nbytes f)

  -- `sys_write`, with O_RDONLY
  unfoldable pub sys_write : Ptr → ℤ → ℕ → ℕ → Cmd Kernel (Res ℕ)
  unfolding entry transfer_entry
  sys_write t (negsuc n) buffer nbytes = pure (fail ebadf)
  sys_write t (pos fd) buffer nbytes =
      if ltb (open_max + 1) fd
      then pure (fail ebadf)
      else (do f ← entry t fd; transfer_entry uio_write 0 t buffer nbytes f)
