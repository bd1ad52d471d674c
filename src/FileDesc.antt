-- ===== src/FileDesc.antt =====
-- io/filedesc.c: the descriptor table of a process.
pub mod Laws
pub mod Copy
pub mod Create
use polito_os161v.Common.{
  ℕ, zero, suc, ◌+◌, ◌-◌, Bool, true, false, ◌==◌, if◌then◌else◌, ltb, Option, none, some, List, [],
  ◌∷◌, u16, get_elem?, set, replicate, Res, good, fail, enfile, emfile, enomem, Run, ok, panic, Cmd,
  pure, ◌>>=◌, ◌>>◌,
}
use polito_os161v.Synch.{Lock, destroy, free}
use polito_os161v.Kernel.{
  Ptr, Kernel, File, FileDesc, kmalloc, load_fd, store_fd, fd_lock, fd_unlock, load_file,
  store_file, f_lock, f_unlock, vop_incref, on_lock, put,
}

-- MAX_OPEN_FILES
abbrev pub max_open_files : ℕ
max_open_files = 8

-- The loop of `fd_attach`: the first descriptor from `i` on that is NULL.
unfoldable pub find_free : ℕ → List Ptr → Option ℕ
find_free i [] = none
find_free i (p ∷ rest) = let later = find_free (i + 1) rest in if p == 0 then some i else later

-- What `fd_attach` does with the descriptor found.
attach_at : Ptr → Ptr → Option ℕ → Cmd Kernel (Res ℕ)
attach_at t f none = do fd_unlock t; pure (fail enfile)
attach_at t f (some i) = do
  d ← load_fd t
  store_fd t (some (record d { ofiles = set d.ofiles i f; nfiles = u16 (d.nfiles + 1) }))
  fd_unlock t
  pure (good i)

-- `fd_attach`
unfoldable pub fd_attach : Ptr → Ptr → Cmd Kernel (Res ℕ)
unfolding attach_at fd_lock fd_unlock
fd_attach t f = do fd_lock t; d ← load_fd t; attach_at t f (find_free 0 d.ofiles)

-- `fd_detach`; a write past the array is a fault, and the `uint16_t` count wraps.
unfoldable pub fd_detach : Ptr → ℕ → Cmd Kernel (Unit {0})
unfolding fd_lock fd_unlock
fd_detach t fd = do
  fd_lock t
  d ← load_fd t
  if ltb fd max_open_files
      then store_fd t
          (some (record d { ofiles = set d.ofiles fd 0; nfiles = u16 (d.nfiles + 65535) }))
      else (λ k. panic)
  fd_unlock t

-- `fd_destroy`
unfoldable pub fd_destroy : Ptr → Cmd Kernel (Unit {0})
unfolding load_fd store_fd destroy
fd_destroy t = do
  d ← load_fd t
  if d.nfiles == 0 then pure tt else (λ k. panic)
  λ k. on_lock (destroy d.lk) (λ l. store_fd t none) k

-- The end of `fd_create`, for what `lock_create` returned; on NULL the table is freed again.
fd_init : Ptr → Option Ptr → Cmd Kernel (Res Ptr)
fd_init t none = pure (fail enomem)
fd_init t (some _) = do
  store_fd t (some (record { ofiles = replicate max_open_files 0; nfiles = 0; lk = free }))
  pure (good t)

fd_alloc : Option Ptr → Cmd Kernel (Res Ptr)
unfolding fd_init
fd_alloc none = pure (fail enomem)
fd_alloc (some t) = kmalloc >>= fd_init t

-- `fd_create`. `lock_create` is one more allocation.
unfoldable pub fd_create : Cmd Kernel (Res Ptr)
unfolding fd_alloc kmalloc store_fd
fd_create = kmalloc >>= fd_alloc

-- `fd_attach_into`
unfoldable pub fd_attach_into : Ptr → Ptr → ℕ → Cmd Kernel (Res (Unit {0}))
unfolding fd_lock fd_unlock
fd_attach_into t f fd = do
  fd_lock t
  d ← load_fd t
  elim (get_elem? d.ofiles fd) [
    | none ↦ (λ k. panic)
    | some p ↦
        if p == 0
        then (do
          store_fd t (some (record d { ofiles = set d.ofiles fd f; nfiles = u16 (d.nfiles + 1) }))
          fd_unlock t
          pure (good tt))
        else (do fd_unlock t; pure (fail emfile))
  ]

-- One round of `file_copy`, for the pointer `f` at descriptor `i` of the source.
copy_entry : Ptr → ℕ → Ptr → Cmd Kernel (Unit {0})
copy_entry dst i f = if f == 0 then pure tt else (do
  f_lock f
  d ← load_fd dst
  store_fd dst (some (record d { ofiles = set d.ofiles i f; nfiles = u16 (d.nfiles + 1) }))
  x ← load_file f
  store_file f (some (record x { refcount = u16 (x.refcount + 1) }))
  vop_incref x.vnode
  f_unlock f)

-- The loop of `file_copy`, over the source's pointers from descriptor `i` on. The source is another
-- table than `dst`, so no round changes the pointers that are still to come.
copy_from : Ptr → ℕ → List Ptr → Cmd Kernel (Unit {0})
copy_from dst i [] = pure tt
copy_from dst i (f ∷ rest) = do copy_entry dst i f; copy_from dst (i + 1) rest

-- `file_copy`, which ends in a KASSERT that the counts agree.
unfoldable pub file_copy : Ptr → Ptr → Cmd Kernel (Unit {0})
unfolding copy_from copy_entry fd_lock fd_unlock f_lock f_unlock vop_incref
file_copy src dst = do
  fd_lock src
  d ← load_fd src
  copy_from dst 0 d.ofiles
  a ← load_fd src
  b ← load_fd dst
  if a.nfiles == b.nfiles then pure tt else (λ k. panic)
  fd_unlock src
