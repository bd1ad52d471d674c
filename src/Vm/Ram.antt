-- ===== src/Vm/Ram.antt =====
-- arch/mips/vm/ram.c and the page allocator of dumbvm.c. Physical memory is handed out from
-- `firstpaddr` on, and never given back.
pub mod Laws
use polito_os161v.Common.{
  ℕ, ◌+◌, ◌-◌, ◌*◌, ◌^◌, ◌%◌, ◌/◌, Bool, true, false, ◌&&◌, ltb, leb, ◌==◌, if◌then◌else◌, u32, Run,
  ok, Cmd, ◌>>=◌,
}

abbrev pub page_size : ℕ
page_size = 4096

-- `x & PAGE_FRAME`
abbrev pub page_frame : ℕ → ℕ
page_frame x = x - x % page_size

abbrev pub kseg0 : ℕ
kseg0 = 0x80000000

-- 508*1024*1024, the most memory that is managed
abbrev pub max_ram : ℕ
max_ram = 508 * 1024 * 1024

-- The variables `firstpaddr` and `lastpaddr` of ram.c, and the bytes at each physical address.
-- The kernel sees physical memory at `PADDR_TO_KVADDR`, one to one.
pub record Ram : Type 0 where
  pub firstpaddr : ℕ
  pub lastpaddr : ℕ
  pub mem : ℕ → ℕ

-- `ram_bootstrap`, given what `mainbus_ramsize` returns and what start.S left in `firstfree`.
unfoldable pub bootstrap : ℕ → ℕ → (ℕ → ℕ) → Ram
bootstrap ramsize firstfree mem = record {
  firstpaddr = u32 (firstfree + 2 ^ 32 - kseg0);
  lastpaddr = if ltb max_ram ramsize then max_ram else ramsize;
  mem = mem;
}

-- `ram_stealmem`; 0 is failure. All sums and products are of 32 bits.
unfoldable pub stealmem : ℕ → Cmd Ram ℕ
stealmem npages r =
    let size = u32 (npages * page_size) in
    if ltb r.lastpaddr (u32 (r.firstpaddr + size))
    then ok 0 r
    else ok r.firstpaddr (record r { firstpaddr = u32 (r.firstpaddr + size) })

-- `ram_getsize`: the range that is left, after which the allocator has nothing.
unfoldable pub getsize : Cmd Ram (ℕ × ℕ)
getsize r = ok (r.firstpaddr, r.lastpaddr) (record r { firstpaddr = 0; lastpaddr = 0 })

-- `getppages`: `stealmem` under `stealmem_lock`, which is free on entry and freed on return.
abbrev pub getppages : ℕ → Cmd Ram ℕ
getppages = stealmem

-- `alloc_kpages`: a kernel virtual address, or 0.
unfoldable pub alloc_kpages : ℕ → Cmd Ram ℕ
alloc_kpages npages = do
  pa ← getppages npages
  λ r. if pa == 0 then ok 0 r else ok (u32 (pa + kseg0)) r

-- `bzero` of `n` bytes at a physical address.
abbrev pub zero_bytes : ℕ → ℕ → (ℕ → ℕ) → ℕ → ℕ
zero_bytes p n mem a = if leb p a && ltb a (p + n) then 0 else mem a

-- `memmove` of `n` bytes between physical addresses.
abbrev pub move_bytes : ℕ → ℕ → ℕ → (ℕ → ℕ) → ℕ → ℕ
move_bytes dst src n mem a = if leb dst a && ltb a (dst + n) then mem (src + (a - dst)) else mem a
