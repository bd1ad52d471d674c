-- ===== src/File.antt =====
-- io/file.c: files by descriptor, and closing them. `t` is the `p->p_fd` of the process `p`.
pub mod Laws
pub mod Rounds
pub mod CloseAll
use polito_os161v.Common.{
  ℕ, zero, suc, ◌+◌, ◌-◌, Bool, true, false, ◌==◌, if◌then◌else◌, ltb, leb, none, some, u16, get_or,
  ℤ, pos, negsuc, Res, good, fail, ebadf, minus_1, Run, panic, Cmd, pure, ◌>>=◌, ◌>>◌,
}
use polito_os161v.Synch.{destroy}
use polito_os161v.Kernel.{
  Ptr, Kernel, load_fd, fd_lock, fd_unlock, load_file, store_file, f_lock, f_unlock, vop_decref,
  on_lock,
}
use polito_os161v.FileDesc.{fd_detach, max_open_files}

-- KASSERT
abbrev pub kassert : Bool → Cmd Kernel (Unit {0})
kassert b = if b then pure tt else (λ k. panic)

-- What `get_file` does with the pointer at the descriptor: the file is returned locked.
got : Ptr → Ptr → Cmd Kernel (Res Ptr)
got t f =
    if f == 0
    then (do fd_unlock t; pure (fail ebadf))
    else (do f_lock f; fd_unlock t; pure (good f))

-- `get_file`
unfoldable pub get_file : Ptr → ℤ → Cmd Kernel (Res Ptr)
unfolding got fd_lock fd_unlock f_lock
get_file t (negsuc _) = pure (fail ebadf)
get_file t (pos fd) =
    if leb max_open_files fd
    then pure (fail ebadf)
    else (do fd_lock t; d ← load_fd t; got t (get_or d.ofiles fd 0))

-- `des_file`. `vfs_close` is one VOP_DECREF.
unfoldable pub des_file : Ptr → Cmd Kernel (Unit {0})
unfolding load_file store_file vop_decref destroy
des_file f = do
  x ← load_file f
  kassert (x.refcount == 0)
  vop_decref x.vnode
  y ← load_file f
  λ k. on_lock (destroy y.lk) (λ l. store_file f none) k

-- The end of `des_descriptor`, for the count that is left.
des_rest : Ptr → ℕ → Cmd Kernel (Res (Unit {0}))
unfolding des_file
des_rest f count =
    if count == 0
    then (do f_unlock f; des_file f; pure (good tt))
    else (do f_unlock f; pure (good tt))

-- The part of `des_descriptor` after `get_file`.
des_got : Ptr → ℕ → Res Ptr → Cmd Kernel (Res (Unit {0}))
unfolding des_rest
des_got t fd (fail e) = pure (fail e)
des_got t fd (good f) = do
  x ← load_file f
  kassert (ltb 0 x.refcount)
  fd_detach t fd
  y ← load_file f
  store_file f (some (record y { refcount = u16 (y.refcount + 65535) }))
  vop_decref y.vnode
  z ← load_file f
  des_rest f z.refcount

-- `des_descriptor`; a negative descriptor is refused by `get_file`.
unfoldable pub des_descriptor : Ptr → ℤ → Cmd Kernel (Res (Unit {0}))
unfolding get_file des_got fd_detach f_unlock
des_descriptor t (negsuc n) = get_file t (negsuc n) >>= des_got t 0
des_descriptor t (pos fd) = get_file t (pos fd) >>= des_got t fd

-- `file_descriptor_exists`, which makes no test of the descriptor.
unfoldable pub file_descriptor_exists : Ptr → ℕ → Cmd Kernel Bool
unfolding fd_lock fd_unlock
file_descriptor_exists t fd = do
  fd_lock t
  d ← load_fd t
  kassert (ltb fd max_open_files)
  fd_unlock t
  pure (if get_or d.ofiles fd 0 == 0 then false else true)

-- The loop of `close_all_f`: `n` rounds from descriptor `i` on. The table is locked at each round.
unfoldable pub close_from : ℕ → Ptr → ℕ → Cmd Kernel (Res (Unit {0}))
close_from zero t i = do fd_unlock t; pure (good tt)
close_from (suc n) t i =
    let next = close_from n t (i + 1) in
    do
      d ← load_fd t
      if get_or d.ofiles i 0 == 0 then next else (do
        fd_unlock t
        r ← des_descriptor t (pos i)
        elim r [ fail _ ↦ pure (fail minus_1) | good _ ↦ fd_lock t >> next ])

-- `close_all_f`
unfoldable pub close_all_f : Ptr → Cmd Kernel (Res (Unit {0}))
unfolding close_from fd_lock fd_unlock des_descriptor
close_all_f t = do fd_lock t; close_from max_open_files t 0
