-- ===== src/Sfs/Trunc.antt =====
-- sfs_itrunc of fs/sfs/sfs_bmap.c: which blocks of a file it frees.
use native.Mathlib.Decide.{ℕ_discrete, dec_lt}
use polito_os161v.Common.{
  subst, ℕ, ◌+◌, ◌-◌, ◌/◌, ◌<◌, ◌≤◌, ◌≡◌, ◌≢◌, ◌⊎◌, ◌∙◌, ap, refl, arith, sym, Bool, true, false,
  ◌&&◌, not, ◌==◌, ltb, leb, if◌then◌else◌, u32, List, Res, good, fail, eio, Run, ok, and_then,
  pure, ◌>>=◌, inl, inr, Bool-cases,
}
use polito_os161v.Bitmap.{Bitmap}
use polito_os161v.Kernel.{put, put_same}
use polito_os161v.Sfs.{
  Fs, blocksize, ndirect, dbperidb, bfree, trunc_direct, trunc_indirect, trunc_settle, trunc_buffer,
  trunc_size, itrunc, readblock, writeblock,
}
use polito_os161v.Sfs.Balloc.{IsMounted}
use polito_os161v.Sfs.Map.{
  block_of, block_of-indirect, block_of-none, InUse, IsMapped, SameMap, same_map,
}
use polito_os161v.Sfs.Cut.{IsCut, same-IsCut, then-IsCut, freed, bfree_lem}
use polito_os161v.Sfs.Scan.{
  IsSameRest, gone_direct, trunc_direct-IsCut, flushed, gone_indirect, IsScanned,
  trunc_indirect-IsScanned, get_or_past, last-IsCut,
}

-- The blocks that `sfs_itrunc` frees for a length of `blocklen` blocks.
abbrev pub gone : ℕ → ℕ → Bool
gone blocklen m = if ltb m ndirect then leb blocklen m else ltb blocklen m

abbrev pub blocks : ℕ → ℕ
blocks len = u32 ((len + blocksize - 1) / blocksize)

-- The ways in which `sfs_itrunc` ends.
pub data Truncated (s : Fs) (len : ℕ) : Run Fs (Res (Unit {0})) → Type 0 where
  done :
      {t : Fs} → IsCut s (gone (blocks len)) t → t.size ≡ u32 len → Truncated s len (ok (good tt) t)
  unread :
      {t : Fs}
      → s.indirect ≢ 0
      → s.bad_read s.indirect ≡ true
      → IsCut s (λ m. ltb m ndirect && leb (blocks len) m) t
      → Truncated s len (ok (fail eio) t)
  unwritten :
      {t : Fs} → s.indirect ≢ 0 → s.bad_write s.indirect ≡ true → Truncated s len (ok (fail eio) t)

-- The branches of the code after the loop.
module _ (s : Fs) (buf : List ℕ) where
  settle_empty :
      (d : Bool) (f : Bitmap)
      → bfree s.indirect s ≡ ok tt (freed s f)
      → trunc_settle (buf, false, d) s
        ≡ ok (good tt) (record (freed s f) { indirect = 0; dirty = true })
  unfolding trunc_settle
  settle_empty d f e = simp (and_then, e)

  settle_write :
      s.bad_write s.indirect ≡ false
      → trunc_settle (buf, true, true) s ≡ ok (good tt) (flushed s buf)
  unfolding trunc_settle writeblock
  settle_write w = rw w refl

  settle_fail : s.bad_write s.indirect ≡ true → trunc_settle (buf, true, true) s ≡ ok (fail eio) s
  unfolding trunc_settle writeblock
  settle_fail w = rw w refl

  settle_clean : trunc_settle (buf, true, false) s ≡ ok (good tt) s
  unfolding trunc_settle
  settle_clean = refl

  buffer_lem :
      (blocklen : ℕ)
      → trunc_buffer blocklen (good buf) s
        ≡ and_then (trunc_indirect dbperidb 0 blocklen (buf, false, false) s) trunc_settle
  unfolding trunc_buffer
  buffer_lem blocklen = refl

-- No block of a file is past the last one.
block_of-past : (s : Fs) (m : ℕ) → IsMapped s → ndirect + dbperidb ≤ m → block_of s m ≡ 0
block_of-past s m p h = elim (ℕ_discrete s.indirect 0) [
  | yes z ↦ block_of-none s m (omega arith) z
  | no z ↦
      block_of-indirect s m (omega arith) z
      ∙ get_or_past (s.disk s.indirect) (m - ndirect) (omega (arith, p.indirect_width z))
]

-- Which blocks that the file does not have are named does not matter.
widened-IsCut :
    {s t : Fs} {g h : ℕ → Bool}
    → ((m : ℕ) → (g m ≡ h m) ⊎ (block_of s m ≡ 0))
    → IsCut s g t
    → IsCut s h t
widened-IsCut {s} {t} {g} {h} e c = record {
  mounted = c.mounted;
  mapped = c.mapped;
  cut = λ m. elim (e m) [ inl q ↦ rw (← q) (c.cut m) | inr z ↦ ground (z, c.cut m, arith) ];
  frees = λ m o y. elim (e m) [ inl q ↦ c.frees m (q ∙ o) y | inr z ↦ absurd (y z) ];
  keeps = c.keeps;
}

-- Two descriptions that agree on the blocks that a file can have.
agree :
    {s : Fs} {g h : ℕ → Bool}
    → IsMapped s
    → ((m : ℕ) → m < ndirect + dbperidb → g m ≡ h m)
    → (m : ℕ) → (g m ≡ h m) ⊎ (block_of s m ≡ 0)
agree {s} p e m = elim (dec_lt m (ndirect + dbperidb)) [
  | yes l ↦ inl (e m l)
  | no l ↦ inr (block_of-past s m p (omega arith))
]

abbrev gone_past : ℕ → ℕ → Bool
gone_past blocklen m = not (ltb m ndirect) && ltb blocklen m

-- The ways in which the work on the indirect block ends.
data Settled (s : Fs) (blocklen : ℕ) : Run Fs (Res (Unit {0})) → Type 0 where
  settled : {t : Fs} → IsCut s (gone_past blocklen) t → Settled s blocklen (ok (good tt) t)
  stuck : {t : Fs} → s.bad_write s.indirect ≡ true → Settled s blocklen (ok (fail eio) t)

settle :
    (s : Fs) (blocklen : ℕ) (t : Fs) (buf : List ℕ) (nz d : Bool)
    → s.indirect ≢ 0
    → IsMapped s
    → flushed s (s.disk s.indirect) ≡ s
    → IsScanned dbperidb 0 blocklen s (s.disk s.indirect) false t buf nz d
    → Settled s blocklen (trunc_settle (buf, nz, d) t)
settle s blocklen t buf nz d y p fl c =
    let y' : t.indirect ≢ 0 = λ o. y (sym c.rest.indirect ∙ o) in
    let cuts : IsCut s (gone_past blocklen) (flushed t buf) =
      widened-IsCut (agree p (λ m h. ground arith))
        (subst (λ v. IsCut v (gone_indirect dbperidb 0 blocklen) (flushed t buf)) fl c.cuts) in
    elim (Bool-cases nz) [
      | inl n ↦ elim (Bool-cases d) [
        | inl e ↦ elim (Bool-cases (t.bad_write t.indirect)) [
          | inl w ↦
              let w' : s.bad_write s.indirect ≡ true =
                rw (← c.rest.bad_write, ← c.rest.indirect) w in
              rw (n, e, settle_fail t buf w) (stuck w')
          | inr w ↦ rw (n, e, settle_write t buf w) (settled cuts)
        ]
        | inr e ↦
            let (b, q, _) = c.clean e in
            let back : flushed t buf ≡ t = rw (b, q) fl in
            rw (n, e, settle_clean t buf) (settled (subst (IsCut s (gone_past blocklen)) back cuts))
      ]
      | inr n ↦
          let m : IsMounted (flushed t buf) = c.cuts.mounted in
          let u : InUse (flushed t buf) t.indirect = c.cuts.mapped.indirect_in_use y' in
          let (f, b, v) =
            bfree_lem t t.indirect
              (record { valid = m.valid; covers = m.covers; past_end = m.past_end })
              (record { inside = u.inside; taken = u.taken }) in
          rw (n, settle_empty t buf d f b)
            (settled (
              same-IsCut (λ k. ground arith)
                (then-IsCut cuts (last-IsCut t buf f y' m c.cuts.mapped (c.empty n) v))))
    ]

buffer-Settled :
    (s : Fs) (blocklen : ℕ)
    → s.indirect ≢ 0
    → IsMounted s
    → IsMapped s
    → Settled s blocklen (trunc_buffer blocklen (good (s.disk s.indirect)) s)
buffer-Settled s blocklen y m p =
    let words = s.disk s.indirect in
    let same : put s.disk s.indirect words ≡ s.disk = put_same s.disk s.indirect refl in
    let fl : flushed s words ≡ s = ap (λ d. record s { disk = d }) same in
    let (t, buf, nz, d, a, c) =
      trunc_indirect-IsScanned dbperidb 0 blocklen s words false false refl y
        (subst IsMounted (sym fl) m) (subst IsMapped (sym fl) p) (λ o k h. absurd (omega arith)) in
    rw (buffer_lem s words blocklen, a) (settle s blocklen t buf nz d y p fl c)

-- `sfs_itrunc` after its first loop.
after_direct : ℕ → Fs → Run Fs (Res (Unit {0}))
unfolding readblock
after_direct len t =
    and_then
      ((if ltb (blocks len) (ndirect + dbperidb - 1) && not (t.indirect == 0)
          then readblock t.indirect >>= trunc_buffer (blocks len)
          else pure (good tt))
        t)
      (trunc_size len)

itrunc_after :
    (s : Fs) (len : ℕ) (t : Fs)
    → trunc_direct ndirect 0 (blocks len) s ≡ ok tt t
    → itrunc len s ≡ after_direct len t
unfolding itrunc after_direct
itrunc_after s len t a = ap (λ r. and_then r (λ _. after_direct len)) a

module _ (len : ℕ) (t : Fs) where
  abbrev looks : Bool
  looks = ltb (blocks len) (ndirect + dbperidb - 1) && not (t.indirect == 0)

  after_skip :
      looks ≡ false → after_direct len t ≡ ok (good tt) (record t { size = u32 len; dirty = true })
  unfolding after_direct trunc_size
  after_skip b = rw b refl

  after_unread : looks ≡ true → t.bad_read t.indirect ≡ true → after_direct len t ≡ ok (fail eio) t
  unfolding after_direct trunc_size trunc_buffer
  after_unread b e = rw (b, e) refl

  after_read :
      looks ≡ true
      → t.bad_read t.indirect ≡ false
      → after_direct len t
        ≡ and_then (trunc_buffer (blocks len) (good (t.disk t.indirect)) t) (trunc_size len)
  unfolding after_direct
  after_read b e = rw (b, e) refl

-- The size is not part of the map.
resized-IsCut :
    {s t : Fs} {g : ℕ → Bool} (n : ℕ)
    → IsCut s g t
    → IsCut s g (record t { size = n; dirty = true })
resized-IsCut {s} {t} n c =
    let u : Fs = record t { size = n; dirty = true } in
    let same : SameMap t u = same_map t u refl refl (λ _. refl) in
    record {
      mounted = record {
        valid = c.mounted.valid;
        covers = c.mounted.covers;
        past_end = c.mounted.past_end;
      };
      mapped = record {
        width = c.mapped.width;
        super_block = c.mapped.super_block;
        in_use = λ k o.
            let r : InUse t (block_of t k) = c.mapped.in_use k (λ q. o (same k ∙ q)) in
            rw (same k) (record { inside = r.inside; taken = r.taken });
        apart = λ k l q o. ground (arith, same k, same l, c.mapped.apart k l q);
        indirect_width = c.mapped.indirect_width;
        indirect_in_use = λ o.
            let r : InUse t t.indirect = c.mapped.indirect_in_use o in
            record { inside = r.inside; taken = r.taken };
        indirect_apart = λ k o q. c.mapped.indirect_apart k o (sym (same k) ∙ q);
      };
      cut = λ m. same m ∙ c.cut m;
      frees = c.frees;
      keeps = c.keeps;
    }

sized-Truncated :
    (s t : Fs) (len : ℕ) (r : Run Fs (Res (Unit {0})))
    → s.indirect ≢ 0
    → IsCut s (gone_direct ndirect 0 (blocks len)) t
    → IsSameRest s t
    → Settled t (blocks len) r
    → Truncated s len (and_then r (trunc_size len))
unfolding trunc_size
sized-Truncated s t len _ y c e (settled x) =
    done (resized-IsCut (u32 len) (same-IsCut (λ m. ground arith) (then-IsCut c x))) refl
sized-Truncated s t len _ y c e (stuck w) = unwritten y (rw (← e.bad_write, ← e.indirect) w)

skip-IsCut :
    {s t : Fs} (len : ℕ)
    → IsMapped s
    → looks len t ≡ false
    → s.indirect ≡ t.indirect
    → IsCut s (gone_direct ndirect 0 (blocks len)) t
    → IsCut s (gone (blocks len)) t
skip-IsCut {s} {t} len p b e c = elim (Bool-cases (ltb (blocks len) (ndirect + dbperidb - 1))) [
  | inr l ↦ widened-IsCut (agree p (λ m h. ground arith)) c
  | inl l ↦
      let z : s.indirect ≡ 0 = ground arith in
      widened-IsCut
        (λ m. elim (dec_lt m ndirect) [
          | yes h ↦ inl (ground arith)
          | no h ↦ inr (block_of-none s m (omega arith) z)
        ])
        c
]

-- sfs_itrunc, on a mounted volume with a well-formed block map, does not panic. If it succeeds, the
-- size is set, and of the blocks past the new end exactly those that `gone` names have left the map
-- and are free: from index `blocks len` on among the direct blocks, but only from the next index on
-- among the others. It fails with EIO only if the indirect block cannot be read, with the direct
-- blocks freed, or cannot be written.
pub itrunc-Truncated :
    (s : Fs) (len : ℕ) → IsMounted s → IsMapped s → Truncated s len (itrunc len s)
itrunc-Truncated s len m p =
    let (t, a, c, r) = trunc_direct-IsCut ndirect 0 (blocks len) s refl m p in
    rw (itrunc_after s len t a) (elim (Bool-cases (looks len t)) [
      | inr b ↦
          rw (after_skip len t b)
            (done (resized-IsCut (u32 len) (skip-IsCut len p b (sym r.indirect) c)) refl)
      | inl b ↦
          let y : t.indirect ≢ 0 = ground arith in
          let y' : s.indirect ≢ 0 = λ o. y (r.indirect ∙ o) in
          elim (Bool-cases (t.bad_read t.indirect)) [
            | inl e ↦
                let e' : s.bad_read s.indirect ≡ true = rw (← r.bad_read, ← r.indirect) e in
                rw (after_unread len t b e) (unread y' e' (same-IsCut (λ k. ground arith) c))
            | inr e ↦ rw (after_read len t b e) (
                sized-Truncated s t len _ y' c r
                  (buffer-Settled t (blocks len) y c.mounted c.mapped))
          ]
    ])
