-- ===== src/Vm/AddrSpace.antt =====
-- The address spaces of arch/mips/vm/dumbvm.c: two regions and a stack, each of contiguous frames.
pub mod Load
pub mod Copy
use polito_os161v.Common.{
  ℕ, ◌+◌, ◌-◌, ◌*◌, ◌/◌, ◌%◌, ◌^◌, Bool, true, false, ◌&&◌, not, ◌==◌, if◌then◌else◌, u32, Option,
  none, some, Res, good, fail, enomem, code_2, Run, ok, panic, Cmd, pure, ◌>>=◌,
}
use polito_os161v.Vm.Ram.{Ram, page_size, page_frame, getppages, stealmem, zero_bytes, move_bytes}

-- `struct addrspace` under OPT_DUMBVM
pub record AddrSpace : Type 0 where
  pub vbase1 : ℕ
  pub pbase1 : ℕ
  pub npages1 : ℕ
  pub vbase2 : ℕ
  pub pbase2 : ℕ
  pub npages2 : ℕ
  pub stackpbase : ℕ

-- DUMBVM_STACKPAGES
abbrev pub stackpages : ℕ
stackpages = 12

-- USERSTACK
abbrev pub userstack : ℕ
userstack = 0x80000000

-- `as_create`; the Boolean says whether `kmalloc` succeeds, and `none` is NULL.
unfoldable pub create : Bool → Option AddrSpace
create false = none
create true = some (record {
  vbase1 = 0;
  pbase1 = 0;
  npages1 = 0;
  vbase2 = 0;
  pbase2 = 0;
  npages2 = 0;
  stackpbase = 0;
})

-- `as_define_region`, with the address space as it leaves it. The permissions are not used.
unfoldable pub define_region : AddrSpace → ℕ → ℕ → Res (Unit {0}) × AddrSpace
define_region s vaddr sz =
    let size = page_frame (u32 (u32 (sz + vaddr % page_size) + page_size - 1)) in
    let base = page_frame vaddr in
    let npages = size / page_size in
    if s.vbase1 == 0
    then (good tt, record s { vbase1 = base; npages1 = npages })
    else if s.vbase2 == 0
    then (good tt, record s { vbase2 = base; npages2 = npages })
    else (fail code_2, s)

-- `as_zero_region`
abbrev pub zero_region : ℕ → ℕ → Cmd Ram (Unit {0})
zero_region paddr npages r =
    ok tt (record r { mem = zero_bytes paddr (u32 (npages * page_size)) r.mem })

-- The end of `as_prepare_load`, which zeroes the frames.
zero_all : AddrSpace → Cmd Ram (Res (Unit {0}) × AddrSpace)
zero_all s = do
  _ ← zero_region s.pbase1 s.npages1
  _ ← zero_region s.pbase2 s.npages2
  _ ← zero_region s.stackpbase stackpages
  pure (good tt, s)

-- The part of `as_prepare_load` from the stack's frames on.
pub prepare_stack : AddrSpace → Cmd Ram (Res (Unit {0}) × AddrSpace)
unfolding zero_all
prepare_stack s = do
  p ← getppages stackpages
  let s' = record s { stackpbase = p }
  if p == 0 then pure (fail enomem, s') else zero_all s'

-- The part of `as_prepare_load` from the second region's frames on.
pub prepare_second : AddrSpace → Cmd Ram (Res (Unit {0}) × AddrSpace)
prepare_second s = do
  p ← getppages s.npages2
  let s' = record s { pbase2 = p }
  if p == 0 then pure (fail enomem, s') else prepare_stack s'

-- The part of `as_prepare_load` from the first region's frames on.
pub prepare_first : AddrSpace → Cmd Ram (Res (Unit {0}) × AddrSpace)
prepare_first s = do
  p ← getppages s.npages1
  let s' = record s { pbase1 = p }
  if p == 0 then pure (fail enomem, s') else prepare_second s'

-- `as_prepare_load`, with the address space as it leaves it.
unfoldable pub prepare_load : AddrSpace → Cmd Ram (Res (Unit {0}) × AddrSpace)
unfolding prepare_first prepare_second prepare_stack
prepare_load s =
    if (s.pbase1 == 0) && (s.pbase2 == 0) && (s.stackpbase == 0) then prepare_first s else λ r.
    panic

-- `as_define_stack`: the initial stack pointer.
unfoldable pub define_stack : AddrSpace → Run (Unit {0}) ℕ
define_stack s = if s.stackpbase == 0 then panic else ok userstack tt

-- `memmove` of `n` pages between two places of physical memory
abbrev pub move_pages : ℕ → ℕ → ℕ → Cmd Ram (Unit {0})
move_pages dst src npages r =
    ok tt (record r { mem = move_bytes dst src (u32 (npages * page_size)) r.mem })

-- The three `memmove` calls of `as_copy`.
move_all : AddrSpace → AddrSpace → Cmd Ram (Res AddrSpace)
move_all old new = do
  _ ← move_pages new.pbase1 old.pbase1 old.npages1
  _ ← move_pages new.pbase2 old.pbase2 old.npages2
  _ ← move_pages new.stackpbase old.stackpbase stackpages
  pure (good new)

-- The end of `as_copy`, once `as_prepare_load` has returned.
pub copy_contents : AddrSpace → Res (Unit {0}) × AddrSpace → Cmd Ram (Res AddrSpace)
copy_contents old (fail _, new) = pure (fail enomem)
copy_contents old (good _, new) =
    if not (new.pbase1 == 0) && not (new.pbase2 == 0) && not (new.stackpbase == 0)
    then move_all old new
    else λ r. panic

-- `as_copy` of `old` into what `as_create` returned.
pub copy_into : AddrSpace → Option AddrSpace → Cmd Ram (Res AddrSpace)
copy_into old none = pure (fail enomem)
copy_into old (some fresh) = do
  out ← prepare_load (record fresh {
    vbase1 = old.vbase1;
    npages1 = old.npages1;
    vbase2 = old.vbase2;
    npages2 = old.npages2;
  })
  copy_contents old out

-- `as_copy`; the Boolean says whether the `kmalloc` of `as_create` succeeds.
unfoldable pub copy : Bool → AddrSpace → Cmd Ram (Res AddrSpace)
unfolding copy_into copy_contents move_all create
copy mem old = copy_into old (create mem)
