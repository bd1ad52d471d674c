-- ===== src/Vm/AddrSpace/Load.antt =====
-- as_define_region and as_prepare_load of dumbvm.c: what a region covers, and which frames it gets.
use native.Mathlib.Decide.{dec_le}
use polito_os161v.Common.{
  ℕ, ◌+◌, ◌*◌, ◌^◌, ◌<◌, ◌≤◌, ◌≡◌, ◌≢◌, refl, ◌⊎◌, inl, inr, arith, ok, Run, Res, good, fail,
  enomem, code_2, u32, ◌==◌, false,
}
use polito_os161v.Vm.Ram.{Ram, page_size, page_frame, max_ram, zero_bytes}
use polito_os161v.Vm.Ram.Laws.{IsValid, advance, advance-IsValid, stealmem_cases}
use polito_os161v.Vm.AddrSpace.{
  AddrSpace, define_region, prepare_load, prepare_first, prepare_second, prepare_stack, zero_all,
  stackpages,
}

-- The first region that is defined starts at the page of `vaddr` and ends less than a page past
-- `vaddr + sz`; a second one likewise goes to the second place, and leaves the first; a third is
-- refused with nothing changed. The region is to end a page below 2^32.
pub define_region_lem :
    (s : AddrSpace) (vaddr sz : ℕ)
    → vaddr + sz + page_size < 2 ^ 32
    → let (out, s') = define_region s vaddr sz in
      (s.vbase1 ≡ 0)
        × (out ≡ good tt)
        × (s'.vbase1 ≡ page_frame vaddr)
        × (vaddr + sz ≤ s'.vbase1 + s'.npages1 * page_size)
        × (s'.vbase1 + s'.npages1 * page_size < vaddr + sz + page_size)
      ⊎ (s.vbase1 ≢ 0)
        × (s.vbase2 ≡ 0)
        × (out ≡ good tt)
        × (s'.vbase1 ≡ s.vbase1)
        × (s'.npages1 ≡ s.npages1)
        × (s'.vbase2 ≡ page_frame vaddr)
        × (vaddr + sz ≤ s'.vbase2 + s'.npages2 * page_size)
        × (s'.vbase2 + s'.npages2 * page_size < vaddr + sz + page_size)
      ⊎ (s.vbase1 ≢ 0) × (s.vbase2 ≢ 0) × (out ≡ fail code_2) × (s' ≡ s)
unfolding define_region
define_region_lem s vaddr sz h = ground arith

-- Pages that an address space asks for, of no size that wraps.
pub record IsSized (s : AddrSpace) : Type 0 where
  pub first : s.npages1 * page_size + max_ram < 2 ^ 32
  pub second : s.npages2 * page_size + max_ram < 2 ^ 32

-- `s` with its frames one after the other from `p` on.
abbrev pub placed : AddrSpace → ℕ → AddrSpace
placed s p = record s {
  pbase1 = p;
  pbase2 = p + s.npages1 * page_size;
  stackpbase = p + s.npages1 * page_size + s.npages2 * page_size;
}

abbrev pub total : AddrSpace → ℕ
total s = s.npages1 + s.npages2 + stackpages

-- `mem` with the three regions of `s` zeroed.
abbrev pub cleared : AddrSpace → (ℕ → ℕ) → ℕ → ℕ
cleared s mem =
    zero_bytes s.stackpbase (stackpages * page_size) (
      zero_bytes s.pbase2 (s.npages2 * page_size) (zero_bytes s.pbase1 (s.npages1 * page_size) mem))

-- The two outcomes of as_prepare_load: all frames, zeroed, or too little memory.
pub data Prepared (s : AddrSpace) (r : Ram) : Run Ram (Res (Unit {0}) × AddrSpace) → Type 0 where
  prepared :
      {s' : AddrSpace} {r' : Ram}
      → r.firstpaddr + total s * page_size ≤ r.lastpaddr
      → s' ≡ placed s r.firstpaddr
      → r'.firstpaddr ≡ r.firstpaddr + total s * page_size
      → r'.lastpaddr ≡ r.lastpaddr
      → r'.mem ≡ cleared s' r.mem
      → IsValid r'
      → Prepared s r (ok (good tt, s') r')
  too_little :
      {s' : AddrSpace} {r' : Ram}
      → r.lastpaddr < r.firstpaddr + total s * page_size
      → r'.mem ≡ r.mem
      → IsValid r'
      → Prepared s r (ok (fail enomem, s') r')

zero_all_eq :
    (s : AddrSpace) (r : Ram)
    → IsSized s
    → zero_all s r ≡ ok (good tt, s) (record r { mem = cleared s r.mem })
unfolding zero_all
zero_all_eq s r z =
    let e : u32 (s.npages1 * page_size) ≡ s.npages1 * page_size = omega (arith, z.first) in
    let e' : u32 (s.npages2 * page_size) ≡ s.npages2 * page_size = omega (arith, z.second) in
    rw (e, e')

nonzero : {r : Ram} → IsValid r → (r.firstpaddr == 0) ≡ false
nonzero v = ground arith

module _ {s : AddrSpace} {r : Ram} (z : IsSized s) (v : IsValid r) where
  stack_eq :
      r.firstpaddr + stackpages * page_size ≤ r.lastpaddr
      → prepare_stack s r
        ≡ ok
            (good tt, record s { stackpbase = r.firstpaddr })
            (record (advance r stackpages) {
              mem = cleared (record s { stackpbase = r.firstpaddr }) r.mem;
            })
  unfolding prepare_stack
  stack_eq h = elim (stealmem_cases stackpages v (omega arith)) [
    | inl (l, e) ↦
        rw (e, nonzero v, prepare_stack)
          (zero_all_eq (record s { stackpbase = r.firstpaddr }) (advance r stackpages)
            (record { first = z.first; second = z.second }))
    | inr (l, e) ↦ absurd (omega arith)
  ]

  stack_fail :
      r.lastpaddr < r.firstpaddr + stackpages * page_size
      → prepare_stack s r ≡ ok (fail enomem, record s { stackpbase = 0 }) r
  unfolding prepare_stack
  stack_fail h = elim (stealmem_cases stackpages v (omega arith)) [
    | inl (l, e) ↦ absurd (omega arith)
    | inr (l, e) ↦ rw (e, prepare_stack)
  ]

after :
    {r : Ram} {mem : ℕ → ℕ}
    → IsValid r
    → r.firstpaddr + stackpages * page_size ≤ r.lastpaddr
    → IsValid (record (advance r stackpages) { mem = mem })
after v h = let v' = advance-IsValid stackpages v h in omega (arith, v')

-- as_prepare_load of an address space with no frames does not panic. It places the two regions and
-- the stack in the next frames, one after the other, and zeroes those frames and no other byte; or
-- it returns ENOMEM, with no byte of memory changed, when fewer frames are left.
pub prepare_load-Prepared :
    {s : AddrSpace} {r : Ram}
    → IsSized s
    → IsValid r
    → s.pbase1 ≡ 0
    → s.pbase2 ≡ 0
    → s.stackpbase ≡ 0
    → Prepared s r (prepare_load s r)
unfolding prepare_load
prepare_load-Prepared {s} {r} z v e1 e2 e3 =
    rw (e1, e2, e3)
      (elim (stealmem_cases s.npages1 v z.first) [
        | inl (l, e) ↦
            let v1 = advance-IsValid s.npages1 v l in
            rw (e, nonzero v, prepare_first)
              (elim (stealmem_cases s.npages2 v1 z.second) [
                | inl (l', e') ↦
                    let v2 = advance-IsValid s.npages2 v1 l' in
                    let z' : IsSized (record s {
                      pbase1 = r.firstpaddr;
                      pbase2 = r.firstpaddr + s.npages1 * page_size;
                      stackpbase = 0;
                    }) =
                      record { first = z.first; second = z.second } in
                    rw (e', nonzero v1, prepare_second)
                      (elim (dec_le (r.firstpaddr + total s * page_size) r.lastpaddr) [
                        | yes p ↦
                            rw (stack_eq z' v2 (omega arith))
                              (prepared p refl (omega arith) refl refl (after v2 (omega arith)))
                        | no p ↦
                            rw (stack_fail z' v2 (omega arith)) (too_little (omega arith) refl v2)
                      ])
                | inr (l', e') ↦ rw (e', prepare_second) (too_little (omega arith) refl v1)
              ])
        | inr (l, e) ↦ rw (e, prepare_first) (too_little (omega arith) refl v)
      ])
