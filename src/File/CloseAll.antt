-- ===== src/File/CloseAll.antt =====
-- close_all_f of io/file.c on files that others still refer to.
pub mod Restore
use native.Mathlib.Decide.{ℕ_discrete}
use polito_os161v.Common.{
  ==_self, ℕ, zero, suc, ◌+◌, ◌-◌, ◌^◌, ◌<◌, ◌≤◌, ◌≡◌, ◌≢◌, refl, sym, ap, ◌∙◌, subst, arith, inl,
  inr, Bool, true, false, ◌==◌, if◌then◌else◌, Bool-cases, Option, none, some, List, [], ◌∷◌,
  length, get_or, set, pos, ok, good, Res, Run, and_then,
}
use polito_os161v.Synch.{Lock, free, held}
use polito_os161v.Kernel.{
  Ptr, Kernel, File, FileDesc, put, put_self, put_ne, put-put, load_fd, fd_lock, fd_unlock,
}
use polito_os161v.Kernel.Access.{exec, fd_lock_eq}
use polito_os161v.FileDesc.Laws.{IsValid, count_open, detached}
use polito_os161v.FileDesc.Copy.{occurrences, vnode_uses, vnode_uses-put, points_to, empty_table}
use polito_os161v.File.{close_all_f, close_from, des_descriptor}
use polito_os161v.File.Laws.{closed, shared_close}
use polito_os161v.File.Rounds.{
  drop_refs, drop_refs-zero, IsShared, IsDrained, at_round, dropped, one_round, null_round,
  last_round,
}

module _ (f : Ptr) (rest : List Ptr) (k : Kernel) (x : File) (ne : f ≢ 0)
    (g : k.files f ≡ some x) where
  abbrev less : File
  less = record x { refcount = x.refcount - 1; lk = free }

  occurrences_self : occurrences f (f ∷ rest) ≡ suc (occurrences f rest)
  occurrences_self = simp ==_self

  occurrences_ne : (p : Ptr) → f ≢ p → occurrences p (f ∷ rest) ≡ occurrences p rest
  occurrences_ne p d = let z : (f == p) ≡ false = ground arith in rw z refl

  uses_cons :
      (v : ℕ)
      → vnode_uses v k.files (f ∷ rest)
        ≡ (if x.vnode == v then suc (vnode_uses v k.files rest) else vnode_uses v k.files rest)
  uses_cons v = let z : (f == 0) ≡ false = ground arith in rw (z, g) refl

  uses_at : vnode_uses x.vnode k.files (f ∷ rest) ≡ suc (vnode_uses x.vnode k.files rest)
  uses_at = uses_cons x.vnode ∙ simp ==_self

  uses_off : (v : ℕ) → v ≢ x.vnode → vnode_uses v k.files (f ∷ rest) ≡ vnode_uses v k.files rest
  uses_off v d = let z : (x.vnode == v) ≡ false = ground arith in uses_cons v ∙ rw z refl

  uses_dropped : (v : ℕ) → vnode_uses v (dropped k f x).files rest ≡ vnode_uses v k.files rest
  uses_dropped v = vnode_uses-put v k.files f x less rest g refl

  module _ (s : IsShared k (f ∷ rest)) where
    -- What is known of `x` itself.
    head :
        (x.lk ≡ free)
        × (suc (occurrences f rest) < x.refcount)
        × (x.refcount < 2 ^ 16)
        × (x.vnode ≢ 0)
    head =
        let (y, h, l, a, b, o) =
          s.files f ne (subst (λ n. 0 < n) (sym occurrences_self) (omega arith)) in
        let same : y ≡ x =
          ap (λ (o : Option File). elim o as (λ o. File) [ none ↦ x | some z ↦ z ]) (sym h ∙ g) in
        subst
          (λ (z : File).
            (z.lk ≡ free)
            × (suc (occurrences f rest) < z.refcount)
            × (z.refcount < 2 ^ 16)
            × (z.vnode ≢ 0))
          same (l, subst (λ n. n < y.refcount) occurrences_self a, b, o)

    -- Closing one reference to `x` leaves the rest of the list shared.
    dropped-IsShared : IsShared (dropped k f x) rest
    dropped-IsShared = record { files = files; entered = s.entered; vrefs = vrefs }
      where
        files :
            (p : Ptr)
            → p ≢ 0
            → 0 < occurrences p rest
            → (y : File) × ((dropped k f x).files p ≡ some y)
              × (y.lk ≡ free)
              × (occurrences p rest < y.refcount)
              × (y.refcount < 2 ^ 16)
              × (y.vnode ≢ 0)
        files p n o = elim (ℕ_discrete f p) [
          | yes e ↦
              subst
                (λ q.
                  (y : File) × ((dropped k f x).files q ≡ some y)
                  × (y.lk ≡ free)
                  × (occurrences q rest < y.refcount)
                  × (y.refcount < 2 ^ 16)
                  × (y.vnode ≢ 0))
                e
                (
                  less,
                  put_self k.files f (some less),
                  refl,
                  omega (arith, head),
                  omega (arith, head),
                  head.3,
                )
          | no d ↦
              let (y, h, l, a, b, q) =
                s.files p n (subst (λ m. 0 < m) (sym (occurrences_ne p d)) o) in
              (
                y,
                put_ne k.files f (some less) p (λ q. d (sym q)) ∙ h,
                l,
                subst (λ m. m < y.refcount) (occurrences_ne p d) a,
                b,
                q,
              )
        ]

        at_vnode : vnode_uses x.vnode (dropped k f x).files rest < (dropped k f x).vrefs x.vnode
        at_vnode = omega (
          arith,
          uses_dropped x.vnode,
          put_self k.vrefs x.vnode (k.vrefs x.vnode - 1),
          uses_at,
          s.vrefs x.vnode (omega (arith, uses_at)),
        )

        vrefs :
            (v : ℕ)
            → 0 < vnode_uses v (dropped k f x).files rest
            → vnode_uses v (dropped k f x).files rest < (dropped k f x).vrefs v
        vrefs v o = elim (ℕ_discrete v x.vnode) [
          | yes e ↦
              subst (λ q. vnode_uses q (dropped k f x).files rest < (dropped k f x).vrefs q) (sym e)
                at_vnode
          | no d ↦ omega (
            arith,
            uses_dropped v,
            put_ne k.vrefs x.vnode (k.vrefs x.vnode - 1) v d,
            uses_off v d,
            s.vrefs v (omega (arith, uses_off v d, uses_dropped v, o)),
          )
        ]

    vnode_shared : 1 < k.vrefs x.vnode
    vnode_shared = omega (arith, uses_at, s.vrefs x.vnode (omega (arith, uses_at)))

    -- What is drained after this round is drained from before it.
    before-IsDrained :
        (t : Ptr) (k' : Kernel) → IsDrained t rest (dropped k f x) k' → IsDrained t (f ∷ rest) k k'
    before-IsDrained t k' d = record {
      table = d.table;
      files = files;
      vrefs = vrefs;
      procs = d.procs;
    }
      where
        count : x.refcount - 1 - occurrences f rest ≡ x.refcount - suc (occurrences f rest)
        count = omega arith

        fewer :
            drop_refs (occurrences f rest) (some less)
            ≡ drop_refs (suc (occurrences f rest)) (some x)
        fewer = λ i. some (record x { refcount = count i; lk = sym head.0 i })

        files : (p : Ptr) → p ≢ 0 → k'.files p ≡ drop_refs (occurrences p (f ∷ rest)) (k.files p)
        files p n = elim (ℕ_discrete f p) [
          | yes e ↦
              subst (λ q. k'.files q ≡ drop_refs (occurrences q (f ∷ rest)) (k.files q)) e
                (d.files f ne
                  ∙ ap (drop_refs (occurrences f rest)) (put_self k.files f (some less))
                  ∙ fewer
                  ∙ (λ i. drop_refs (sym occurrences_self i) (sym g i)))
          | no c ↦
              d.files p n
              ∙ rw (put_ne k.files f (some less) p (λ q. c (sym q)), occurrences_ne p c) refl
        ]

        vrefs : (v : ℕ) → k'.vrefs v ≡ k.vrefs v - vnode_uses v k.files (f ∷ rest)
        vrefs v = elim (ℕ_discrete v x.vnode) [
          | yes e ↦
              subst (λ q. k'.vrefs q ≡ k.vrefs q - vnode_uses q k.files (f ∷ rest)) (sym e)
                (omega (
                  arith,
                  d.vrefs x.vnode,
                  uses_dropped x.vnode,
                  put_self k.vrefs x.vnode (k.vrefs x.vnode - 1),
                  uses_at,
                ))
          | no c ↦ omega (
            arith,
            d.vrefs v,
            uses_dropped v,
            put_ne k.vrefs x.vnode (k.vrefs x.vnode - 1) v c,
            uses_off v c,
          )
        ]

nothing-IsDrained :
    (t : Ptr) (k : Kernel) → IsDrained t [] k (record k { fds = put k.fds t (some empty_table) })
nothing-IsDrained t k = record {
  table = refl;
  files = λ p n. drop_refs-zero (k.files p);
  vrefs = λ v. omega arith;
  procs = (refl, refl, refl);
}

null-IsShared : (rest : List Ptr) (k : Kernel) → IsShared k (0 ∷ rest) → IsShared k rest
null-IsShared rest k s = record {
  files = λ p n o.
      let z : (0 == p) ≡ false = ground arith in
      let e : occurrences p (0 ∷ rest) ≡ occurrences p rest = rw z refl in
      let (y, h, l, a, b, q) = s.files p n (subst (λ m. 0 < m) (sym e) o) in
      (y, h, l, subst (λ m. m < y.refcount) e a, b, q);
  entered = s.entered;
  vrefs = λ v o. s.vrefs v o;
}

null-IsDrained :
    (t : Ptr) (rest : List Ptr) (k k' : Kernel)
    → IsDrained t rest k k'
    → IsDrained t (0 ∷ rest) k k'
null-IsDrained t rest k k' d = record {
  table = d.table;
  files = λ p n. let z : (0 == p) ≡ false = ground arith in d.files p n ∙ rw z refl;
  vrefs = d.vrefs;
  procs = d.procs;
}

drain :
    (t : Ptr) (rest : List Ptr) (i : ℕ) (k : Kernel)
    → i + length rest ≡ 8
    → IsShared k rest
    → (k' : Kernel) × (close_from (length rest) t i (at_round k t i rest) ≡ ok (good tt) k')
      × IsDrained t rest k k'
drain t [] i k e s = (
  record k { fds = put k.fds t (some empty_table) },
  last_round t i k (omega arith),
  nothing-IsDrained t k,
)
drain t (f ∷ rest) i k e s = elim (ℕ_discrete f 0) [
  | yes z ↦
      subst
        (λ f.
          (k' : Kernel) × (close_from (suc (length rest)) t i (at_round k t i (f ∷ rest))
            ≡ ok (good tt) k')
          × IsDrained t (f ∷ rest) k k')
        (sym z)
        (let (k', p, d) =
            drain t rest (i + 1) k (omega arith)
              (null-IsShared rest k (subst (λ f. IsShared k (f ∷ rest)) z s)) in
          (k', null_round t i (length rest) rest k ∙ p, null-IsDrained t rest k k' d))
  | no ne ↦
      let self : 0 < occurrences f (f ∷ rest) =
        subst (λ b. 0 < (if b then suc (occurrences f rest) else occurrences f rest))
          (sym (==_self f)) (omega arith) in
      let (x, g, l, a, b, vn) = s.files f ne self in
      let (k', p, d) =
        drain t rest (i + 1) (dropped k f x) (omega arith) (dropped-IsShared f rest k x ne g s) in
      (
        k',
        one_round t i f rest k (length rest) ne e x g l (omega arith) b
              (vnode_shared f rest k x ne g s) vn s.entered
            ∙ p,
        before-IsDrained f rest k x ne g s t k' d,
      )
]

-- close_all_f on a valid table whose files all have references besides its own and a vnode, with the
-- VFS lock not held by another thread, returns 0: the table
-- is empty and unlocked, each file and each vnode has lost one reference for each descriptor that was
-- open on it, and no file is freed.
pub close_all_f-IsDrained :
    (t : Ptr) (k : Kernel) (d : FileDesc)
    → k.fds t ≡ some d
    → IsValid d
    → IsShared k d.ofiles
    → (k' : Kernel) × (close_all_f t k ≡ ok (good tt) k') × IsDrained t d.ofiles k k'
unfolding close_all_f
close_all_f-IsDrained t k d e v s =
    let (k', p, q) = drain t d.ofiles 0 k (omega (arith, v.size)) s in
    (
      k',
      ap (λ r. and_then r (λ u. close_from 8 t 0)) (fd_lock_eq t k d e v.unlocked)
          ∙ (λ i. close_from (sym v.size i) t 0 (record k {
            fds =
                put k.fds t
                  (some (record { ofiles = d.ofiles; nfiles = v.counted i; lk = held k.cur }));
          }))
          ∙ p,
      q,
    )
