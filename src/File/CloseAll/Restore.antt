-- ===== src/File/CloseAll/Restore.antt =====
-- file_copy of io/filedesc.c and then close_all_f of io/file.c: a child that starts and exits.
use polito_os161v.Common.{
  ℕ, ◌+◌, ◌<◌, ◌≤◌, ◌≡◌, ◌≢◌, refl, ap, ◌∙◌, subst, arith, true, inl, inr, ◌==◌, Bool-cases, Option,
  none, some, List, [], ◌∷◌, length, ok, good,
}
use polito_os161v.Kernel.{Ptr, Heap, Kernel, File, put_ne, put_self, biglock_open}
use polito_os161v.FileDesc.{file_copy, max_open_files}
use polito_os161v.FileDesc.Laws.{IsValid}
use polito_os161v.Kernel.{FileDesc}
use polito_os161v.FileDesc.Copy.{
  occurrences, vnode_uses, points_to, add_refs, empty_table, Ready, AllReady, IsCopied, HasRoom,
  file_copy-IsCopied,
}
use polito_os161v.File.{close_all_f}
use polito_os161v.File.CloseAll.{drop_refs, IsShared, close_all_f-IsDrained}

occurrences-le : (p : Ptr) (l : List Ptr) → occurrences p l ≤ length l
occurrences-le p [] = omega arith
occurrences-le p (q ∷ l) = ground (arith, occurrences-le p l)

-- What AllReady says of one of the files.
AllReady-Ready :
    (n : ℕ) (files : Heap File) (l : List Ptr) (p : Ptr)
    → AllReady n files l
    → p ≢ 0
    → 0 < occurrences p l
    → Ready n files p
AllReady-Ready n files [] p a ne o = absurd (omega arith)
AllReady-Ready n files (q ∷ l) p (h, a) ne o = elim (Bool-cases (q == p)) [
  | inl e ↦ elim h [
    | inl z ↦ absurd (ground (arith, z))
    | inr (_, r) ↦ let w : q ≡ p = ground arith in subst (λ x. Ready n files x) w r
  ]
  | inr e ↦ AllReady-Ready n files l p a ne (rw e at o)
]

points_to-add_refs : (v n : ℕ) (o : Option File) → points_to v (add_refs n o) ≡ points_to v o
points_to-add_refs v n none = refl
points_to-add_refs v n (some x) = refl

vnode_uses-copied :
    (v : ℕ) (files files' : Heap File) (count : Ptr → ℕ) (l : List Ptr)
    → ((p : Ptr) → p ≢ 0 → files' p ≡ add_refs (count p) (files p))
    → vnode_uses v files' l ≡ vnode_uses v files l
vnode_uses-copied v files files' count [] h = refl
vnode_uses-copied v files files' count (q ∷ l) h = elim (Bool-cases (q == 0)) [
  | inl z ↦ rw z (vnode_uses-copied v files files' count l h)
  | inr z ↦
      let e : points_to v (files' q) ≡ points_to v (files q) =
        ap (points_to v) (h q (ground arith)) ∙ points_to-add_refs v (count q) (files q) in
      rw (z, e, vnode_uses-copied v files files' count l h) refl
]

drop_refs-add_refs : (n : ℕ) (o : Option File) → drop_refs n (add_refs n o) ≡ o
drop_refs-add_refs n none = refl
drop_refs-add_refs n (some x) = ap (λ (c : ℕ). some (record x { refcount = c })) (omega arith)

-- Each open file of a table has a reference, and its vnode too.
pub record IsReferenced (k : Kernel) (l : List Ptr) : Type 0 where
  pub files : (p : Ptr) (x : File) → k.files p ≡ some x → 0 < occurrences p l → 0 < x.refcount
  pub vrefs : (v : ℕ) → 0 < vnode_uses v k.files l → 0 < k.vrefs v

-- After the copy, the files of the child are shared with the parent.
copied-IsShared :
    (src dst : Ptr) (s : FileDesc) (k k' : Kernel)
    → IsValid s
    → AllReady max_open_files k.files s.ofiles
    → IsReferenced k s.ofiles
    → biglock_open k ≡ true
    → IsCopied src dst s k k'
    → IsShared k' s.ofiles
copied-IsShared src dst s k k' v a r o c = record {
  files = λ p n oc.
      let (x, e, l, w, vn) = AllReady-Ready max_open_files k.files s.ofiles p a n oc in
      let refs : 0 < x.refcount = r.files p x e oc in
      (
        record x { refcount = x.refcount + occurrences p s.ofiles },
        c.files p n ∙ ap (add_refs (occurrences p s.ofiles)) e,
        l,
        omega arith,
        omega (arith, occurrences-le p s.ofiles, v.size),
        vn,
      );
  entered = rw (c.lock.0, c.lock.1) o;
  vrefs = λ q o.
      let u : vnode_uses q k'.files s.ofiles ≡ vnode_uses q k.files s.ofiles =
        vnode_uses-copied q k.files k'.files (λ p. occurrences p s.ofiles) s.ofiles c.files in
      omega (arith, c.vrefs q, r.vrefs q (omega arith));
}

-- When a child's table is copied from its parent's and all its files, which are on vnodes and have
-- room in their counts, are closed again, with the VFS lock not another thread's, every file and
-- every vnode has the references that it had before; the parent's table is as it was, and the child's
-- is empty.
pub copy_then_close :
    (src dst : Ptr) (s : FileDesc) (k : Kernel)
    → src ≢ dst
    → k.fds src ≡ some s
    → k.fds dst ≡ some empty_table
    → IsValid s
    → AllReady max_open_files k.files s.ofiles
    → IsReferenced k s.ofiles
    → HasRoom max_open_files k
    → (j k' : Kernel) × (file_copy src dst k ≡ ok tt j)
      × (close_all_f dst j ≡ ok (good tt) k')
      × ((p : Ptr) → p ≢ 0 → k'.files p ≡ k.files p)
      × ((v : ℕ) → k'.vrefs v ≡ k.vrefs v)
      × (k'.fds src ≡ some s)
      × (k'.fds dst ≡ some empty_table)
copy_then_close src dst s k ne e g v a r o =
    let (j, p, c) = file_copy-IsCopied src dst s k ne e g v a o in
    let (k', q, d) =
      close_all_f-IsDrained dst j s c.child v (copied-IsShared src dst s k j v a r o.entered c) in
    (
      j,
      k',
      p,
      q,
      (λ f n.
          d.files f n
          ∙ ap (drop_refs (occurrences f s.ofiles)) (c.files f n)
          ∙ drop_refs-add_refs (occurrences f s.ofiles) (k.files f)),
      (λ w.
          let u : vnode_uses w j.files s.ofiles ≡ vnode_uses w k.files s.ofiles =
            vnode_uses-copied w k.files j.files (λ f. occurrences f s.ofiles) s.ofiles c.files in
          omega (arith, d.vrefs w, c.vrefs w)),
      ap (λ h. h src) d.table ∙ put_ne j.fds dst (some empty_table) src ne ∙ c.parent,
      ap (λ h. h dst) d.table ∙ put_self j.fds dst (some empty_table),
    )
