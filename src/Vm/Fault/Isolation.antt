-- ===== src/Vm/Fault/Isolation.antt =====
-- Two address spaces of dumbvm.c never reach the same byte of physical memory.
use polito_os161v.Common.{
  ℕ, ◌+◌, ◌-◌, ◌*◌, ◌<◌, ◌≤◌, ◌≡◌, ◌≢◌, refl, ap, true, Option, none, some, arith, Run, ok, Res,
  good, fail, enomem,
}
use polito_os161v.Vm.Ram.{Ram, page_size}
use polito_os161v.Vm.Ram.Laws.{IsValid}
use polito_os161v.Vm.AddrSpace.{AddrSpace, copy}
use polito_os161v.Vm.AddrSpace.Load.{IsSized, total}
use polito_os161v.Vm.AddrSpace.Copy.{IsBelow, IsCopy, Copied, copied, copy-Copied}
use polito_os161v.Vm.Fault.{translate, stackbase, is_set_up}
use polito_os161v.Vm.Fault.Laws.{IsReady, Maps, first, second, stack, translate_iff}

-- A byte that is mapped lies in the frames of its address space.
Maps-lt : {s : AddrSpace} {a p top : ℕ} → IsBelow s top → Maps s a p → p < top
Maps-lt b (first l h e) = omega (arith, b.first)
Maps-lt b (second l h e) = omega (arith, b.second)
Maps-lt b (stack l h e) = omega (arith, b.stack)

Maps-fresh :
    {s old : AddrSpace} {r r' : Ram} {a p : ℕ} → IsCopy old r s r' → Maps s a p → r.firstpaddr ≤ p
Maps-fresh c (first l h e) = omega (arith, c.fresh)
Maps-fresh c (second l h e) = omega (arith, c.fresh)
Maps-fresh c (stack l h e) = omega (arith, c.fresh)

-- Two places at one distance `o` from the bases of a region.
read_at :
    (m m' : ℕ → ℕ) (x y p q o : ℕ) → q ≡ x + o → p ≡ y + o → m (x + o) ≡ m' (y + o) → m q ≡ m' p
read_at m m' x y p q o e f h = rw (e, f) h

module _ {old new : AddrSpace} {r r' : Ram} (a : ℕ) {p q : ℕ} (c : IsCopy old r new r')
    (v : IsReady old) where
  reads_agree : Maps old a p → Maps new a q → r'.mem q ≡ r.mem p
  reads_agree (first l h e) (first l' h' e') =
      read_at r'.mem r.mem new.pbase1 old.pbase1 p q (a - old.vbase1) (omega (arith, c.layout))
        (omega arith) (c.first (a - old.vbase1) (omega arith))
  reads_agree (second l h e) (second l' h' e') =
      read_at r'.mem r.mem new.pbase2 old.pbase2 p q (a - old.vbase2) (omega (arith, c.layout))
        (omega arith) (c.second (a - old.vbase2) (omega arith))
  reads_agree (stack l h e) (stack l' h' e') =
      read_at r'.mem r.mem new.stackpbase old.stackpbase p q (a - stackbase) (omega arith)
        (omega arith) (c.stack (a - stackbase) (omega arith))
  reads_agree (first l h e) (second l' h' e') =
      absurd (omega (arith, c.layout, v.apart, v.below1, v.below2))
  reads_agree (first l h e) (stack l' h' e') =
      absurd (omega (arith, c.layout, v.apart, v.below1, v.below2))
  reads_agree (second l h e) (first l' h' e') =
      absurd (omega (arith, c.layout, v.apart, v.below1, v.below2))
  reads_agree (second l h e) (stack l' h' e') =
      absurd (omega (arith, c.layout, v.apart, v.below1, v.below2))
  reads_agree (stack l h e) (first l' h' e') =
      absurd (omega (arith, c.layout, v.apart, v.below1, v.below2))
  reads_agree (stack l h e) (second l' h' e') =
      absurd (omega (arith, c.layout, v.apart, v.below1, v.below2))

-- Every address that one of the two maps, the other maps too.
Maps-forth :
    {old new : AddrSpace} {r r' : Ram} {a p : ℕ}
    → IsCopy old r new r'
    → Maps old a p
    → (q : ℕ) × Maps new a q
Maps-forth {new = new} {a = a} c (first l h e) = (
  a - new.vbase1 + new.pbase1,
  first (omega (arith, c.layout)) (omega (arith, c.layout)) (omega (arith, c.layout)),
)
Maps-forth {new = new} {a = a} c (second l h e) = (
  a - new.vbase2 + new.pbase2,
  second (omega (arith, c.layout)) (omega (arith, c.layout)) (omega (arith, c.layout)),
)
Maps-forth {new = new} {a = a} c (stack l h e) =
    (a - stackbase + new.stackpbase, stack l h (omega arith))

Maps-back :
    {old new : AddrSpace} {r r' : Ram} {a q : ℕ}
    → IsCopy old r new r'
    → Maps new a q
    → (p : ℕ) × Maps old a p
Maps-back {old = old} {a = a} c (first l h e) = (
  a - old.vbase1 + old.pbase1,
  first (omega (arith, c.layout)) (omega (arith, c.layout)) (omega (arith, c.layout)),
)
Maps-back {old = old} {a = a} c (second l h e) = (
  a - old.vbase2 + old.pbase2,
  second (omega (arith, c.layout)) (omega (arith, c.layout)) (omega (arith, c.layout)),
)
Maps-back {old = old} {a = a} c (stack l h e) =
    (a - stackbase + old.stackpbase, stack l h (omega arith))

-- What a program reads at the place where its address is mapped, or none where it is not.
abbrev pub read : (ℕ → ℕ) → Option ℕ → Option ℕ
read mem none = none
read mem (some p) = some (mem p)

-- The processes of `old` and `new` see the same memory as the one of `old` did before, and no byte of
-- it is the same one.
pub record IsIsolated (old : AddrSpace) (r : Ram) (new : AddrSpace) (r' : Ram) : Type 0 where
  pub ready : IsReady new
  pub separate : (a b p q : ℕ) → translate old a ≡ some p → translate new b ≡ some q → p ≢ q
  pub child : (a : ℕ) → read r'.mem (translate new a) ≡ read r.mem (translate old a)
  pub parent : (a : ℕ) → read r'.mem (translate old a) ≡ read r.mem (translate old a)

-- The two outcomes of as_copy, as the two processes see them.
pub data IsolatedCopy (old : AddrSpace) (r : Ram) : Run Ram (Res AddrSpace) → Type 0 where
  isolated :
      {new : AddrSpace} {r' : Ram} → IsIsolated old r new r' → IsolatedCopy old r (ok (good new) r')
  no_memory :
      {r' : Ram}
      → r.lastpaddr < r.firstpaddr + total old * page_size
      → ((a : ℕ) → read r'.mem (translate old a) ≡ read r.mem (translate old a))
      → IsolatedCopy old r (ok (fail enomem) r')

copy-IsReady :
    {old new : AddrSpace} {r r' : Ram} → IsCopy old r new r' → IsValid r → IsReady old → IsReady new
unfolding is_set_up
copy-IsReady c v w = record {
  set_up = ground (arith, w.set_up, v.nonzero, v.aligned, c.layout, c.fresh);
  below1 = omega (arith, w.below1, c.layout);
  below2 = omega (arith, w.below2, c.layout);
  apart = omega (arith, w.apart, c.layout);
  frames1 = omega (arith, c.fresh, c.valid.ordered, c.valid.limit);
  frames2 = omega (arith, c.fresh, c.valid.ordered, c.valid.limit);
  frames3 = omega (arith, c.fresh, c.valid.ordered, c.valid.limit);
}

module _ {old new : AddrSpace} {r r' : Ram} (below : IsBelow old r.firstpaddr)
    (c : IsCopy old r new r') (v : IsReady old) (w : IsReady new) where
  child_reads : (a : ℕ) → read r'.mem (translate new a) ≡ read r.mem (translate old a)
  child_reads a = go (translate new a) (translate old a) refl refl
    where
      go :
          (x y : Option ℕ)
          → translate new a ≡ x
          → translate old a ≡ y
          → read r'.mem x ≡ read r.mem y
      go none none e f = refl
      go (some q) (some p) e f =
          ap some (reads_agree a c v ((translate_iff a p v).0 f) ((translate_iff a q w).0 e))
      go none (some p) e f =
          let (q, m) = Maps-forth c ((translate_iff a p v).0 f) in
          let g : translate new a ≡ some q = (translate_iff a q w).1 m in cc
      go (some q) none e f =
          let (p, m) = Maps-back c ((translate_iff a q w).0 e) in
          let g : translate old a ≡ some p = (translate_iff a p v).1 m in cc

  parent_reads : (a : ℕ) → read r'.mem (translate old a) ≡ read r.mem (translate old a)
  parent_reads a = go (translate old a) refl
    where
      go : (x : Option ℕ) → translate old a ≡ x → read r'.mem x ≡ read r.mem x
      go none e = refl
      go (some p) e = ap some (c.untouched p (Maps-lt below ((translate_iff a p v).0 e)))

-- as_copy of an address space that is ready to run, whose frames lie below the free ones: the copy is
-- ready to run, no address of the original and no address of the copy are at the same byte of
-- physical memory, and at every address the copy and the original both read what the original read
-- before, or fault where it faulted. Otherwise it returns ENOMEM, only where the free memory is too
-- little, and the original still reads what it did.
pub copy_isolated :
    (old : AddrSpace) (r : Ram)
    → IsBelow old r.firstpaddr
    → IsSized old
    → IsValid r
    → IsReady old
    → IsolatedCopy old r (copy true old r)
copy_isolated old r below sized valid v = go (copy-Copied old r below sized valid)
  where
    go : {out : Run Ram (Res AddrSpace)} → Copied old r out → IsolatedCopy old r out
    go (copied c) =
        let w = copy-IsReady c valid v in
        isolated (record {
          ready = w;
          separate = λ a b p q e f. omega (
            arith,
            Maps-lt below ((translate_iff a p v).0 e),
            Maps-fresh c ((translate_iff b q w).0 f),
          );
          child = child_reads below c v w;
          parent = parent_reads below c v w;
        })
    go (Copied.no_memory short same) =
        no_memory short (λ a. ap (λ m. read m (translate old a)) same)
