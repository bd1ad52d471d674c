-- ===== src/Vm/AddrSpace/Copy.antt =====
-- as_copy of dumbvm.c: a copy has the contents of the original in frames of its own.
use polito_os161v.Common.{
  ◌∙◌, and_then, ℕ, ◌+◌, ◌-◌, ◌*◌, ◌<◌, ◌≤◌, ◌≡◌, refl, ◌⊎◌, inl, arith, ok, Run, Res, good, fail,
  enomem, u32, ◌==◌, true, false,
}
use polito_os161v.Vm.Ram.{Ram, page_size, zero_bytes, move_bytes}
use polito_os161v.Vm.Ram.Laws.{IsValid}
use polito_os161v.Vm.AddrSpace.{AddrSpace, copy, copy_contents, move_all, prepare_load, stackpages}
use polito_os161v.Vm.AddrSpace.Load.{
  IsSized, placed, total, cleared, Prepared, prepared, too_little, prepare_load-Prepared,
}

-- The regions of `s` lie below the physical address `top`.
pub record IsBelow (s : AddrSpace) (top : ℕ) : Type 0 where
  pub first : s.pbase1 + s.npages1 * page_size ≤ top
  pub second : s.pbase2 + s.npages2 * page_size ≤ top
  pub stack : s.stackpbase + stackpages * page_size ≤ top

-- Two bytes of memory regions of `n` bytes agree at every offset.
abbrev pub SameBytes : (ℕ → ℕ) → ℕ → (ℕ → ℕ) → ℕ → ℕ → Type 0
SameBytes m p m' q n = (o : ℕ) → o < n → m (p + o) ≡ m' (q + o)

-- `new` is laid out like `old` in the frames from `r.firstpaddr` on, with the bytes that `old` has,
-- and nothing below those frames has changed.
pub record IsCopy (old : AddrSpace) (r : Ram) (new : AddrSpace) (r' : Ram) : Type 0 where
  pub layout :
      (new.vbase1 ≡ old.vbase1)
      × (new.npages1 ≡ old.npages1)
      × (new.vbase2 ≡ old.vbase2)
      × (new.npages2 ≡ old.npages2)
  pub fresh :
      (new.pbase1 ≡ r.firstpaddr)
      × (new.pbase2 ≡ new.pbase1 + new.npages1 * page_size)
      × (new.stackpbase ≡ new.pbase2 + new.npages2 * page_size)
      × (r'.firstpaddr ≡ new.stackpbase + stackpages * page_size)
  pub first : SameBytes r'.mem new.pbase1 r.mem old.pbase1 (old.npages1 * page_size)
  pub second : SameBytes r'.mem new.pbase2 r.mem old.pbase2 (old.npages2 * page_size)
  pub stack : SameBytes r'.mem new.stackpbase r.mem old.stackpbase (stackpages * page_size)
  pub untouched : (a : ℕ) → a < r.firstpaddr → r'.mem a ≡ r.mem a
  pub valid : IsValid r'

move_in : (d s n : ℕ) (m : ℕ → ℕ) (o : ℕ) → o < n → move_bytes d s n m (d + o) ≡ m (s + o)
move_in d s n m o h = let e : d + o - d ≡ o = omega arith in rw e (ground arith)

move_out : (d s n : ℕ) (m : ℕ → ℕ) (a : ℕ) → (a < d) ⊎ (d + n ≤ a) → move_bytes d s n m a ≡ m a
move_out d s n m a h = ground arith

zero_out : (d n : ℕ) (m : ℕ → ℕ) (a : ℕ) → a < d → zero_bytes d n m a ≡ m a
zero_out d n m a h = ground arith

-- The memory after the three moves of as_copy.
abbrev moved : AddrSpace → AddrSpace → (ℕ → ℕ) → ℕ → ℕ
moved old new mem = move_bytes new.stackpbase old.stackpbase (stackpages * page_size) (
    move_bytes new.pbase2 old.pbase2 (old.npages2 * page_size)
      (move_bytes new.pbase1 old.pbase1 (old.npages1 * page_size) mem))

module _ (old : AddrSpace) (r : Ram) (b : IsBelow old r.firstpaddr) where
  abbrev new : AddrSpace
  new = placed old r.firstpaddr

  abbrev size1 : ℕ
  size1 = old.npages1 * page_size

  abbrev size2 : ℕ
  size2 = old.npages2 * page_size

  abbrev moved1 : ℕ → ℕ
  moved1 = move_bytes new.pbase1 old.pbase1 size1 (cleared new r.mem)

  abbrev moved2 : ℕ → ℕ
  moved2 = move_bytes new.pbase2 old.pbase2 size2 moved1

  abbrev after : ℕ → ℕ
  after = moved old new (cleared new r.mem)

  cleared_below : (a : ℕ) → a < r.firstpaddr → cleared new r.mem a ≡ r.mem a
  cleared_below a h = ground arith

  moved1_below : (a : ℕ) → a < r.firstpaddr → moved1 a ≡ r.mem a
  moved1_below a h =
      move_out new.pbase1 old.pbase1 size1 (cleared new r.mem) a (inl h) ∙ cleared_below a h

  moved2_below : (a : ℕ) → a < r.firstpaddr → moved2 a ≡ r.mem a
  moved2_below a h =
      move_out new.pbase2 old.pbase2 size2 moved1 a (inl (omega arith)) ∙ moved1_below a h

  after_below : (a : ℕ) → a < r.firstpaddr → after a ≡ r.mem a
  after_below a h =
      move_out new.stackpbase old.stackpbase (stackpages * page_size) moved2 a (inl (omega arith))
      ∙ moved2_below a h

  after_first : SameBytes after new.pbase1 r.mem old.pbase1 size1
  after_first o h =
      move_out new.stackpbase old.stackpbase (stackpages * page_size) moved2 (new.pbase1 + o)
        (inl (omega arith))
      ∙ move_out new.pbase2 old.pbase2 size2 moved1 (new.pbase1 + o) (inl (omega arith))
      ∙ move_in new.pbase1 old.pbase1 size1 (cleared new r.mem) o h
      ∙ cleared_below (old.pbase1 + o) (omega (arith, b.first))

  after_second : SameBytes after new.pbase2 r.mem old.pbase2 size2
  after_second o h =
      move_out new.stackpbase old.stackpbase (stackpages * page_size) moved2 (new.pbase2 + o)
        (inl (omega arith))
      ∙ move_in new.pbase2 old.pbase2 size2 moved1 o h
      ∙ moved1_below (old.pbase2 + o) (omega (arith, b.second))

  after_stack : SameBytes after new.stackpbase r.mem old.stackpbase (stackpages * page_size)
  after_stack o h =
      move_in new.stackpbase old.stackpbase (stackpages * page_size) moved2 o h
      ∙ moved2_below (old.stackpbase + o) (omega (arith, b.stack))

-- The address space that as_copy hands to as_prepare_load.
abbrev blank : AddrSpace → AddrSpace
blank old = record {
  vbase1 = old.vbase1;
  pbase1 = 0;
  npages1 = old.npages1;
  vbase2 = old.vbase2;
  pbase2 = 0;
  npages2 = old.npages2;
  stackpbase = 0;
}

move_all_eq :
    (old new : AddrSpace) (r : Ram)
    → IsSized old
    → move_all old new r ≡ ok (good new) (record r { mem = moved old new r.mem })
unfolding move_all
move_all_eq old new r z =
    let e : u32 (old.npages1 * page_size) ≡ old.npages1 * page_size = omega (arith, z.first) in
    let e' : u32 (old.npages2 * page_size) ≡ old.npages2 * page_size = omega (arith, z.second) in
    rw (e, e')

-- The two outcomes of as_copy.
pub data Copied (old : AddrSpace) (r : Ram) : Run Ram (Res AddrSpace) → Type 0 where
  copied : {new : AddrSpace} {r' : Ram} → IsCopy old r new r' → Copied old r (ok (good new) r')
  no_memory :
      {r' : Ram}
      → r.lastpaddr < r.firstpaddr + total old * page_size
      → r'.mem ≡ r.mem
      → Copied old r (ok (fail enomem) r')

finish :
    (old : AddrSpace) (r : Ram)
    → IsBelow old r.firstpaddr
    → IsSized old
    → IsValid r
    → (out : Run Ram (Res (Unit {0}) × AddrSpace)) → Prepared (blank old) r out
    → Copied old r (and_then out (copy_contents old))
unfolding copy_contents
finish old r b z v _ (too_little l m v') = no_memory l m
finish old r b z v _ (prepared {s'} {r'} l e f k m v') =
    let n1 : (r.firstpaddr == 0) ≡ false = ground arith in
    let n2 : (r.firstpaddr + old.npages1 * page_size == 0) ≡ false = ground arith in
    let n3 : (r.firstpaddr + old.npages1 * page_size + old.npages2 * page_size == 0) ≡ false =
      ground arith in
    let m' : r'.mem ≡ cleared (new old r b) r.mem = rw e at m in
    rw (e, n1, n2, n3, move_all_eq old (new old r b) r' z, m')
      (copied (record {
        layout = (refl, refl, refl, refl);
        fresh = (refl, refl, refl, omega arith);
        first = after_first old r b;
        second = after_second old r b;
        stack = after_stack old r b;
        untouched = after_below old r b;
        valid = omega (arith, v');
      }))

-- as_copy of an address space in frames already handed out returns one with the same layout and
-- the same bytes in fresh frames, and changes no byte below those; or it returns ENOMEM, with no byte
-- changed, when fewer frames are left than it needs. It does not panic.
pub copy-Copied :
    (old : AddrSpace) (r : Ram)
    → IsBelow old r.firstpaddr
    → IsSized old
    → IsValid r
    → Copied old r (copy true old r)
unfolding copy
copy-Copied old r b z v = finish old r b z v (prepare_load (blank old) r) (
    prepare_load-Prepared {s = blank old} (record { first = z.first; second = z.second }) v refl
      refl refl)
