-- ===== src/Vm/Fault/Laws.antt =====
-- vm_fault of dumbvm.c: which faults are served, and what is left in the TLB.
use polito_os161v.Common.{
  ℕ, ◌+◌, ◌-◌, ◌*◌, ◌%◌, ◌^◌, ◌<◌, ◌≤◌, ◌≡◌, ◌↔◌, refl, ◌⊎◌, inl, inr, arith, ok, Run, Res, good,
  fail, efault, u32, ◌==◌, leb, ltb, true, false, Option, none, some, [], ◌∷◌, ◌++◌, Bool-cases,
  length, suc, ap, sym, ◌∙◌, if◌then◌else◌, ◌&&◌,
}
use polito_os161v.Vm.Ram.{page_size, page_frame}
use polito_os161v.Vm.AddrSpace.{AddrSpace, stackpages, userstack}
use polito_os161v.Vm.Fault.{
  Entry, Tlb, is_in_use, entry_for, install, is_set_up, stackbase, translate, fill, vm_fault,
  activate, invalidate_from,
}

-- An address space that is ready to run: set up, with two regions that lie one above the other
-- below the stack, in either order, and frames that end below 2^32.
pub record IsReady (s : AddrSpace) : Type 0 where
  pub set_up : is_set_up s ≡ true
  pub below1 : s.vbase1 + s.npages1 * page_size ≤ stackbase
  pub below2 : s.vbase2 + s.npages2 * page_size ≤ stackbase
  pub apart :
      (s.vbase1 + s.npages1 * page_size ≤ s.vbase2) ⊎ (s.vbase2 + s.npages2 * page_size ≤ s.vbase1)
  pub frames1 : s.pbase1 + s.npages1 * page_size < 2 ^ 32
  pub frames2 : s.pbase2 + s.npages2 * page_size < 2 ^ 32
  pub frames3 : s.stackpbase + stackpages * page_size < 2 ^ 32

-- The mapping that the fields of an address space stand for: a byte of a region is as far from the
-- region's base in physical memory as in virtual memory.
pub data Maps (s : AddrSpace) (a p : ℕ) : Type 0 where
  first :
      s.vbase1 ≤ a → a < s.vbase1 + s.npages1 * page_size → p + s.vbase1 ≡ a + s.pbase1 → Maps s a p
  second :
      s.vbase2 ≤ a → a < s.vbase2 + s.npages2 * page_size → p + s.vbase2 ≡ a + s.pbase2 → Maps s a p
  stack : stackbase ≤ a → a < userstack → p + stackbase ≡ a + s.stackpbase → Maps s a p

module _ {s : AddrSpace} (v : IsReady s) where
  top1 : u32 (s.vbase1 + u32 (s.npages1 * page_size)) ≡ s.vbase1 + s.npages1 * page_size
  top1 = omega (arith, v.below1)

  top2 : u32 (s.vbase2 + u32 (s.npages2 * page_size)) ≡ s.vbase2 + s.npages2 * page_size
  top2 = omega (arith, v.below2)

  Maps-translate : (a p : ℕ) → Maps s a p → translate s a ≡ some p
  unfolding translate
  Maps-translate a p (first l h e) = rw (top1, top2) (ground arith)
  Maps-translate a p (second l h e) = rw (top1, top2) (ground arith)
  Maps-translate a p (stack l h e) = rw (top1, top2) (ground arith)

  -- The address found is one that the mapping has.
  translate-Maps : (a p : ℕ) → translate s a ≡ some p → Maps s a p
  unfolding translate
  translate-Maps a p h = go (rw (top1, top2) at h)
    where
      go :
          (if leb s.vbase1 a && ltb a (s.vbase1 + s.npages1 * page_size)
              then some (u32 (a - s.vbase1 + s.pbase1))
              else if leb s.vbase2 a && ltb a (s.vbase2 + s.npages2 * page_size)
              then some (u32 (a - s.vbase2 + s.pbase2))
              else if leb stackbase a && ltb a userstack
              then some (u32 (a - stackbase + s.stackpbase))
              else none)
            ≡ some p
          → Maps s a p
      go e = elim (Bool-cases (leb s.vbase1 a && ltb a (s.vbase1 + s.npages1 * page_size))) [
        | inl t ↦ first (ground arith) (ground arith) (ground arith)
        | inr f ↦ elim (Bool-cases (leb s.vbase2 a && ltb a (s.vbase2 + s.npages2 * page_size))) [
          | inl t ↦ second (ground arith) (ground arith) (ground arith)
          | inr g ↦ stack (ground arith) (ground arith) (ground arith)
        ]
      ]

-- The code's translation is that mapping: it finds an address exactly when the mapping has it.
pub translate_iff : {s : AddrSpace} (a p : ℕ) → IsReady s → (translate s a ≡ some p) ↔ Maps s a p
translate_iff a p v = (translate-Maps v a p, Maps-translate v a p)

-- Every entry of a TLB, or of a part of it, is in use.
abbrev pub AllInUse : Tlb → Type 0
AllInUse [] = Unit
AllInUse (e ∷ rest) = (is_in_use e ≡ true) × AllInUse rest

-- `tlb'` is `tlb` with its first entry that is not in use replaced by `new`.
pub data Filled (new : Entry) : Tlb → Tlb → Type 0 where
  filled :
      (used rest : Tlb) (e : Entry) {tlb tlb' : Tlb}
      → AllInUse used
      → is_in_use e ≡ false
      → tlb ≡ used ++ e ∷ rest
      → tlb' ≡ used ++ new ∷ rest
      → Filled new tlb tlb'

Filled-cons :
    {new : Entry} {e : Entry} {tlb tlb' : Tlb}
    → is_in_use e ≡ true
    → Filled new tlb tlb'
    → Filled new (e ∷ tlb) (e ∷ tlb')
Filled-cons {e = x} u (filled used rest d us f p q) =
    filled (x ∷ used) rest d (u, us) f (ap (λ l. x ∷ l) p) (ap (λ l. x ∷ l) q)

install_cases :
    (new : Entry) (tlb : Tlb)
    → ((tlb' : Tlb) × (install new tlb ≡ some tlb') × Filled new tlb tlb')
      ⊎ AllInUse tlb × (install new tlb ≡ none)
unfolding install
install_cases new [] = inr (tt, refl)
install_cases new (e ∷ rest) = elim (Bool-cases (is_in_use e)) [
  | inl u ↦ elim (install_cases new rest) [
    | inl (t, p, f) ↦ inl (e ∷ t, rw (u, p), Filled-cons u f)
    | inr (us, p) ↦ inr ((u, us), rw (u, p))
  ]
  | inr f ↦ inl (new ∷ rest, rw f, filled [] rest e tt f refl refl)
]

-- What a fault at the page `a` of a ready address space may do.
pub data Served (s : AddrSpace) (a : ℕ) (tlb : Tlb) : Run Tlb (Res (Unit {0})) → Type 0 where
  mapped :
      {p : ℕ} {tlb' : Tlb}
      → Maps s a p
      → Filled (entry_for a p) tlb tlb'
      → Served s a tlb (ok (good tt) tlb')
  full : {p : ℕ} → Maps s a p → AllInUse tlb → Served s a tlb (ok (fail efault) tlb)
  unmapped : ((p : ℕ) → ¬ Maps s a p) → Served s a tlb (ok (fail efault) tlb)

-- A page is mapped to a page.
Maps-aligned :
    {s : AddrSpace} (a p : ℕ)
    → is_set_up s ≡ true
    → Maps s a p
    → a % page_size ≡ 0
    → p % page_size ≡ 0
unfolding is_set_up
Maps-aligned a p u (first l h e) g = ground arith
Maps-aligned a p u (second l h e) g = ground arith
Maps-aligned a p u (stack l h e) g = ground arith

fill-Served :
    {s : AddrSpace} (a : ℕ) (tlb : Tlb) (o : Option ℕ)
    → IsReady s
    → a % page_size ≡ 0
    → translate s a ≡ o
    → Served s a tlb (fill a o tlb)
unfolding fill
fill-Served a tlb none v g e = unmapped (λ p m. cc (sym e ∙ Maps-translate v a p m))
fill-Served a tlb (some p) v g e =
    let m = translate-Maps v a p e in
    let al : (page_frame p == p) ≡ true = ground (arith, Maps-aligned a p v.set_up m g) in
    rw al (elim (install_cases (entry_for a p) tlb) [
      | inl (t, q, f) ↦ rw q (mapped m f)
      | inr (us, q) ↦ rw q (full m us)
    ])

-- A read or write fault in a ready address space does not panic. If the faulting page is mapped, the
-- first TLB entry that is not in use becomes that mapping and no other entry changes, or, with all in
-- use, EFAULT; if it is not mapped, EFAULT. On EFAULT the TLB is unchanged.
pub vm_fault-Served :
    {s : AddrSpace} (faulttype faultaddress : ℕ) (tlb : Tlb)
    → IsReady s
    → (faulttype ≡ 0) ⊎ (faulttype ≡ 1)
    → Served s (page_frame faultaddress) tlb (vm_fault faulttype faultaddress (some s) tlb)
unfolding vm_fault
vm_fault-Served {s} faulttype fa tlb v (inl t) =
    rw (t, v.set_up)
      (fill-Served (page_frame fa) tlb (translate s (page_frame fa)) v (omega arith) refl)
vm_fault-Served {s} faulttype fa tlb v (inr t) =
    rw (t, v.set_up)
      (fill-Served (page_frame fa) tlb (translate s (page_frame fa)) v (omega arith) refl)

-- No entry of a TLB is in use.
abbrev pub NoneInUse : Tlb → Type 0
NoneInUse [] = Unit
NoneInUse (e ∷ rest) = (is_in_use e ≡ false) × NoneInUse rest

invalidate_from-NoneInUse :
    (i : ℕ) (tlb : Tlb)
    → NoneInUse (invalidate_from i tlb) × (length (invalidate_from i tlb) ≡ length tlb)
unfolding invalidate_from
invalidate_from-NoneInUse i [] = (tt, refl)
invalidate_from-NoneInUse i (e ∷ rest) =
    let h = invalidate_from-NoneInUse (i + 1) rest in ((refl, h.0), ap suc h.1)

-- as_activate leaves no entry of the TLB in use, and as many entries as before.
pub activate-NoneInUse :
    (tlb : Tlb) → NoneInUse (activate tlb) × (length (activate tlb) ≡ length tlb)
unfolding activate
activate-NoneInUse tlb = invalidate_from-NoneInUse 0 tlb
