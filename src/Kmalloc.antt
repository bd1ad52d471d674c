-- ===== src/Kmalloc.antt =====
-- vm/kmalloc.c: the kernel heap, with none of its debugging modes. `kmalloc_spinlock` is held where
-- the code holds it: no other processor's call comes in between the steps of one call.
pub mod Pagerefs
pub mod Subpage
pub mod Sizes
pub mod Page
pub mod Blocks
pub mod Heap
pub mod Free
pub mod NewPage
use polito_os161v.Common.{
  ℕ, ◌+◌, ◌-◌, ◌*◌, ◌/◌, ◌^◌, ◌%◌, Bool, ◌==◌, ltb, leb, if◌then◌else◌, u32, Run, ok, panic, Cmd,
  ◌>>=◌, ◌>>◌,
}
use polito_os161v.Vm.Ram.{page_size}
use polito_os161v.Kmalloc.Pagerefs.{Kheap, alloc_kpages, free_kpages, kassert}
use polito_os161v.Kmalloc.Subpage.{subpage_kmalloc, subpage_kfree, largest_subpage_size}

-- `kmalloc`: an address, or 0
unfoldable pub kmalloc : ℕ → Cmd Kheap ℕ
unfolding subpage_kmalloc
kmalloc sz = if ltb sz largest_subpage_size then subpage_kmalloc sz else (do
  address ← alloc_kpages (u32 (sz + page_size - 1) / page_size)
  if address == 0
      then (λ s. ok 0 s)
      else (do kassert (address % page_size == 0); λ s. ok address s))

-- `kfree`
unfoldable pub kfree : ℕ → Cmd Kheap (Unit {0})
unfolding subpage_kfree
kfree ptr = if ptr == 0 then (λ s. ok tt s) else (do
  found ← subpage_kfree ptr
  if found then (λ s. ok tt s) else (do kassert (ptr % page_size == 0); free_kpages ptr))
