-- ===== src/Vm/Fault.antt =====
-- The page faults of arch/mips/vm/dumbvm.c, and the TLB that they fill (arch/mips/include/tlb.h).
pub mod Laws
pub mod Isolation
use polito_os161v.Common.{
  ℕ, ◌+◌, ◌-◌, ◌*◌, ◌/◌, ◌%◌, ◌^◌, Bool, true, false, ◌&&◌, ◌||◌, not, ◌==◌, leb, ltb,
  if◌then◌else◌, u32, Option, none, some, List, [], ◌∷◌, Res, good, fail, efault, einval, Run, ok,
  panic, Cmd,
}
use polito_os161v.Vm.Ram.{page_size, page_frame}
use polito_os161v.Vm.AddrSpace.{AddrSpace, stackpages, userstack}

-- The two words of a TLB entry. The processor has NUM_TLB = 64 of them, read and written by
-- `tlb_read` and `tlb_write`; the model is the list of all entries, of any number.
pub record Entry : Type 0 where
  pub ehi : ℕ
  pub elo : ℕ

abbrev pub Tlb : Type 0
Tlb = List Entry

-- TLBLO_VALID and TLBLO_DIRTY
abbrev pub tlblo_valid : ℕ
tlblo_valid = 0x200

abbrev pub tlblo_dirty : ℕ
tlblo_dirty = 0x400

-- `elo & TLBLO_VALID`
abbrev pub is_in_use : Entry → Bool
is_in_use e = e.elo / tlblo_valid % 2 == 1

-- `paddr | TLBLO_DIRTY | TLBLO_VALID`, a sum since `paddr` is page-aligned here.
abbrev pub entry_for : ℕ → ℕ → Entry
entry_for vaddr paddr = record { ehi = vaddr; elo = paddr + tlblo_dirty + tlblo_valid }

-- The loop over the TLB in `vm_fault`: writes the first entry that is not valid.
unfoldable pub install : Entry → Tlb → Option Tlb
install new [] = none
install new (e ∷ rest) =
    let later : Option Tlb = elim (install new rest) [ none ↦ none | some t ↦ some (e ∷ t) ] in
    if is_in_use e then later else some (new ∷ rest)

-- VM_FAULT_READ, VM_FAULT_WRITE and VM_FAULT_READONLY
abbrev pub vm_fault_read : ℕ
vm_fault_read = 0

abbrev pub vm_fault_write : ℕ
vm_fault_write = 1

abbrev pub vm_fault_readonly : ℕ
vm_fault_readonly = 2

abbrev is_aligned : ℕ → Bool
is_aligned x = page_frame x == x

-- The KASSERTs of `vm_fault` on the address space.
unfoldable pub is_set_up : AddrSpace → Bool
is_set_up s =
    not (s.vbase1 == 0)
    && not (s.pbase1 == 0)
    && not (s.npages1 == 0)
    && not (s.vbase2 == 0)
    && not (s.pbase2 == 0)
    && not (s.npages2 == 0)
    && not (s.stackpbase == 0)
    && is_aligned s.vbase1
    && is_aligned s.pbase1
    && is_aligned s.vbase2
    && is_aligned s.pbase2
    && is_aligned s.stackpbase

-- The bottom of the user stack.
abbrev pub stackbase : ℕ
stackbase = userstack - stackpages * page_size

-- The physical address of a faulting page, in 32 bits; `none` is EFAULT.
unfoldable pub translate : AddrSpace → ℕ → Option ℕ
translate s a =
    let vtop1 = u32 (s.vbase1 + u32 (s.npages1 * page_size)) in
    let vtop2 = u32 (s.vbase2 + u32 (s.npages2 * page_size)) in
    if leb s.vbase1 a && ltb a vtop1
    then some (u32 (a - s.vbase1 + s.pbase1))
    else if leb s.vbase2 a && ltb a vtop2
    then some (u32 (a - s.vbase2 + s.pbase2))
    else if leb stackbase a && ltb a userstack
    then some (u32 (a - stackbase + s.stackpbase))
    else none

-- The end of `vm_fault`, for the physical address found.
pub fill : ℕ → Option ℕ → Cmd Tlb (Res (Unit {0}))
fill a none tlb = ok (fail efault) tlb
fill a (some paddr) tlb =
    if is_aligned paddr
    then elim (install (entry_for a paddr) tlb) [
      | none ↦ ok (fail efault) tlb
      | some tlb' ↦ ok (good tt) tlb'
    ]
    else panic

-- The part of `vm_fault` that reads `curthread->t_addrspace`.
pub fault_in : ℕ → Option AddrSpace → Cmd Tlb (Res (Unit {0}))
fault_in a none tlb = ok (fail efault) tlb
fault_in a (some s) tlb = if is_set_up s then fill a (translate s a) tlb else panic

-- `vm_fault`
unfoldable pub vm_fault : ℕ → ℕ → Option AddrSpace → Cmd Tlb (Res (Unit {0}))
unfolding fault_in fill
vm_fault faulttype faultaddress current tlb =
    if faulttype == vm_fault_readonly
    then panic
    else if (faulttype == vm_fault_read) || (faulttype == vm_fault_write)
    then fault_in (page_frame faultaddress) current tlb
    else ok (fail einval) tlb

-- TLBHI_INVALID and TLBLO_INVALID
abbrev pub invalid_entry : ℕ → Entry
invalid_entry i = record { ehi = u32 ((0x80000 + i) * 2 ^ 12); elo = 0 }

-- The loop of `as_activate`, from entry `i` on.
pub invalidate_from : ℕ → Tlb → Tlb
invalidate_from i [] = []
invalidate_from i (e ∷ rest) = invalid_entry i ∷ invalidate_from (i + 1) rest

-- `as_activate`
unfoldable pub activate : Tlb → Tlb
unfolding invalidate_from
activate tlb = invalidate_from 0 tlb
