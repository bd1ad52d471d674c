-- ===== src/Threadlist.antt =====
-- thread/threadlist.c: doubly linked lists of threads between two bookends. A thread is named by
-- the address of its `t_listnode`; 0 is NULL.
pub mod Laws
pub mod Ends
use polito_os161v.Common.{
  ℕ, ◌+◌, ◌-◌, ◌^◌, Bool, ◌==◌, if◌then◌else◌, u32, Run, ok, panic, Cmd, pure, ◌>>=◌, ◌>>◌,
}
use polito_os161v.Kernel.{put}

-- The fields of each `struct threadlistnode`, by its address, and `tl_count` of each list, by the
-- address of its `tl_head`.
pub record Nodes : Type 0 where
  pub next : ℕ → ℕ
  pub prev : ℕ → ℕ
  pub self : ℕ → ℕ
  pub count : ℕ → ℕ

-- `struct threadlist`: the addresses of `tl_head` and `tl_tail`.
pub record Threadlist : Type 0 where
  pub head : ℕ
  pub tail : ℕ

-- A field is read and written through a pointer, which faults at NULL.
abbrev pub get_next : ℕ → Cmd Nodes ℕ
get_next p s = if p == 0 then panic else ok (s.next p) s

abbrev pub get_prev : ℕ → Cmd Nodes ℕ
get_prev p s = if p == 0 then panic else ok (s.prev p) s

abbrev pub set_next : ℕ → ℕ → Cmd Nodes (Unit {0})
set_next p v s = if p == 0 then panic else ok tt (record s { next = put s.next p v })

abbrev pub set_prev : ℕ → ℕ → Cmd Nodes (Unit {0})
set_prev p v s = if p == 0 then panic else ok tt (record s { prev = put s.prev p v })

abbrev pub set_self : ℕ → ℕ → Cmd Nodes (Unit {0})
set_self p v s = if p == 0 then panic else ok tt (record s { self = put s.self p v })

-- `tl_count` after a change; it is an `unsigned`.
abbrev pub set_count : Threadlist → ℕ → Cmd Nodes (Unit {0})
set_count tl n s = ok tt (record s { count = put s.count tl.head n })

abbrev pub kassert : Bool → Cmd Nodes (Unit {0})
kassert b = if b then pure tt else (λ s. panic)

-- `threadlistnode_init`. `DEBUGASSERT` is compiled to nothing.
unfoldable pub threadlistnode_init : ℕ → ℕ → Cmd Nodes (Unit {0})
threadlistnode_init tln t = do
  if t == 0 then (λ s. panic) else pure tt
  set_next tln 0
  set_prev tln 0
  set_self tln t

-- `threadlistnode_cleanup`
unfoldable pub threadlistnode_cleanup : ℕ → Cmd Nodes (Unit {0})
threadlistnode_cleanup tln = do
  n ← get_next tln
  kassert (n == 0)
  p ← get_prev tln
  kassert (p == 0)
  λ s. if s.self tln == 0 then panic else ok tt s

-- `threadlist_init`
unfoldable pub threadlist_init : Threadlist → Cmd Nodes (Unit {0})
threadlist_init tl = do
  set_next tl.head tl.tail
  set_prev tl.head 0
  set_next tl.tail 0
  set_prev tl.tail tl.head
  set_self tl.head 0
  set_self tl.tail 0
  set_count tl 0

-- `threadlist_isempty`
unfoldable pub threadlist_isempty : Threadlist → Cmd Nodes Bool
threadlist_isempty tl s = ok (s.count tl.head == 0) s

-- `threadlist_cleanup`
unfoldable pub threadlist_cleanup : Threadlist → Cmd Nodes (Unit {0})
unfolding threadlist_isempty
threadlist_cleanup tl = do
  e ← threadlist_isempty tl
  kassert e
  λ s. kassert (s.count tl.head == 0) s

-- `threadlist_insertafternode`
unfoldable pub insertafternode : ℕ → ℕ → Cmd Nodes (Unit {0})
insertafternode onlist addee = do
  set_prev addee onlist
  n ← get_next onlist
  set_next addee n
  p ← get_prev addee
  set_next p addee
  m ← get_next addee
  set_prev m addee

-- `threadlist_insertbeforenode`
unfoldable pub insertbeforenode : ℕ → ℕ → Cmd Nodes (Unit {0})
insertbeforenode addee onlist = do
  p ← get_prev onlist
  set_prev addee p
  set_next addee onlist
  q ← get_prev addee
  set_next q addee
  m ← get_next addee
  set_prev m addee

-- `threadlist_removenode`
unfoldable pub removenode : ℕ → Cmd Nodes (Unit {0})
removenode tln = do
  n ← get_next tln
  p ← get_prev tln
  set_next p n
  m ← get_next tln
  q ← get_prev tln
  set_prev m q
  set_prev tln 0
  set_next tln 0

-- `tl->tl_count++` and `tl->tl_count--`
abbrev pub count_up : Threadlist → Cmd Nodes (Unit {0})
count_up tl s = set_count tl (u32 (s.count tl.head + 1)) s

abbrev pub count_down : Threadlist → Cmd Nodes (Unit {0})
count_down tl s = set_count tl (u32 (s.count tl.head + 2 ^ 32 - 1)) s

unfoldable pub addhead : Threadlist → ℕ → Cmd Nodes (Unit {0})
unfolding insertafternode
addhead tl t = do insertafternode tl.head t; count_up tl

unfoldable pub addtail : Threadlist → ℕ → Cmd Nodes (Unit {0})
unfolding insertbeforenode
addtail tl t = do insertbeforenode t tl.tail; count_up tl

-- The end of the two removals, for the node found.
take_off : Threadlist → ℕ → Cmd Nodes ℕ
unfolding removenode
take_off tl tln = do removenode tln; count_down tl; λ s. ok (s.self tln) s

unfoldable pub remhead : Threadlist → Cmd Nodes ℕ
unfolding take_off
remhead tl = do tln ← get_next tl.head; n ← get_next tln; if n == 0 then pure 0 else take_off tl tln

unfoldable pub remtail : Threadlist → Cmd Nodes ℕ
unfolding take_off
remtail tl = do tln ← get_prev tl.tail; p ← get_prev tln; if p == 0 then pure 0 else take_off tl tln

unfoldable pub insertafter : Threadlist → ℕ → ℕ → Cmd Nodes (Unit {0})
unfolding insertafternode
insertafter tl onlist addee = do insertafternode onlist addee; count_up tl

unfoldable pub insertbefore : Threadlist → ℕ → ℕ → Cmd Nodes (Unit {0})
unfolding insertbeforenode
insertbefore tl addee onlist = do insertbeforenode addee onlist; count_up tl

-- `threadlist_remove`
unfoldable pub remove : Threadlist → ℕ → Cmd Nodes (Unit {0})
unfolding removenode
remove tl t = do removenode t; count_down tl
