-- ===== src/FileDesc/Create.antt =====
-- fd_destroy of io/filedesc.c on an empty, unlocked table.
use polito_os161v.Common.{◌≡◌, some, none, ok}
use polito_os161v.Synch.{free, destroy}
use polito_os161v.Kernel.{Ptr, Kernel, FileDesc, put}
use polito_os161v.Kernel.Access.{exec}
use polito_os161v.FileDesc.{fd_destroy}

pub fd_destroy_eq :
    (t : Ptr) (k : Kernel) (d : FileDesc)
    → k.fds t ≡ some d
    → d.nfiles ≡ 0
    → d.lk ≡ free
    → fd_destroy t k ≡ ok tt (record k { fds = put k.fds t none })
unfolding fd_destroy
fd_destroy_eq t k d e n l = simp (exec, fd_destroy, destroy, e, n, l)
