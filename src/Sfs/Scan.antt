-- ===== src/Sfs/Scan.antt =====
-- The two loops of sfs_itrunc of fs/sfs/sfs_bmap.c, and the end of its indirect block.
use native.Mathlib.Decide.{ℕ_discrete, dec_lt}
use polito_os161v.Common.{
  subst, ℕ, zero, suc, ◌+◌, ◌-◌, ◌<◌, ◌≤◌, ◌≡◌, ◌≢◌, ◌∙◌, ap, refl, arith, sym, Bool, true, false,
  ◌&&◌, ◌==◌, ltb, leb, List, [], ◌∷◌, length, length-set, get_or, get_or-set_self, get_or-set_ne,
  set, ok, and_then, inl, inr, Bool-cases,
}
use polito_os161v.Bitmap.{Bitmap}
use polito_os161v.Bitmap.Laws.{IsUpdate}
use polito_os161v.Kernel.{put, put_self}
use polito_os161v.Sfs.{Fs, ndirect, dbperidb, bfree, trunc_direct, trunc_indirect}
use polito_os161v.Sfs.Balloc.{IsMounted}
use polito_os161v.Sfs.Map.{
  block_of, block_of-direct, block_of-indirect, block_of-none, InUse, IsMapped, Extends, SameMap,
  same_map, set-Extends, entry-Extends,
}
use polito_os161v.Sfs.Cut.{
  IsCut, none-IsCut, zero-IsCut, same-IsCut, then-IsCut, removed-IsCut, freed, bfree_lem,
}

-- What the loops leave alone.
pub record IsSameRest (s t : Fs) : Type 0 where
  pub indirect : t.indirect ≡ s.indirect
  pub disk : t.disk ≡ s.disk
  pub bad_write : t.bad_write ≡ s.bad_write
  pub bad_read : t.bad_read ≡ s.bad_read

-- One round of the loop over the direct blocks.
module _ {s : Fs} (m : IsMounted s) (p : IsMapped s) (i : ℕ) (h : i < ndirect) where
  pub direct_freed :
      (f : Bitmap)
      → block_of s i ≢ 0
      → IsUpdate s.freemap (block_of s i) false f
      → IsCut s (λ k. k == i) (record (freed s f) { direct = set s.direct i 0; dirty = true })
  direct_freed f z u =
      let t : Fs = record (freed s f) { direct = set s.direct i 0; dirty = true } in
      let e : Extends s i 0 t = λ k.
        same_map (record s { direct = set s.direct i 0; dirty = true }) t refl refl (λ _. refl) k
        ∙ set-Extends s i 0 h p.width k in
      removed-IsCut m p i z u refl refl (length-set s.direct i 0 ∙ p.width) p.indirect_width e

-- The blocks that `n` rounds from block `i` on free.
abbrev pub gone_direct : ℕ → ℕ → ℕ → ℕ → Bool
gone_direct n i blocklen m = leb i m && (ltb m (i + n) && leb blocklen m)

pub trunc_direct-IsCut :
    (n i blocklen : ℕ) (s : Fs)
    → i + n ≡ ndirect
    → IsMounted s
    → IsMapped s
    → (t : Fs) × (trunc_direct n i blocklen s ≡ ok tt t)
      × IsCut s (gone_direct n i blocklen) t
      × IsSameRest s t
unfolding trunc_direct
trunc_direct-IsCut zero i blocklen s e m p = (
  s,
  refl,
  same-IsCut (λ k. ground arith) (none-IsCut m p),
  record { indirect = refl; disk = refl; bad_write = refl; bad_read = refl },
)
trunc_direct-IsCut (suc n) i blocklen s e m p =
    let x : block_of s i ≡ get_or s.direct i 0 = block_of-direct s i (omega arith) in
    elim (Bool-cases (leb blocklen i)) [
      | inr l ↦
          let (t, a, c, r) = trunc_direct-IsCut n (i + 1) blocklen s (omega arith) m p in
          (t, rw l a, same-IsCut (λ k. ground arith) c, r)
      | inl l ↦ elim (Bool-cases (get_or s.direct i 0 == 0)) [
        | inl z ↦
            let (t, a, c, r) = trunc_direct-IsCut n (i + 1) blocklen s (omega arith) m p in
            let y : block_of s i ≡ 0 = ground arith in
            (t, rw (l, z) a, same-IsCut (λ k. ground arith) (then-IsCut (zero-IsCut i m p y) c), r)
        | inr z ↦
            let y : block_of s i ≢ 0 = ground arith in
            let (f, b, u) = bfree_lem s (block_of s i) m (p.in_use i y) in
            let d = direct_freed m p i (omega arith) f y u in
            let (t, a, c, r) =
              trunc_direct-IsCut n (i + 1) blocklen _ (omega arith) d.mounted d.mapped in
            (
              t,
              (let b' : bfree (get_or s.direct i 0) s ≡ ok tt (freed s f) = rw (← x) b in
                  simp (and_then, l, z, b', a)),
              same-IsCut (λ k. ground arith) (then-IsCut d c),
              record {
                indirect = r.indirect;
                disk = r.disk;
                bad_write = r.bad_write;
                bad_read = r.bad_read;
              },
            )
      ]
    ]

-- The state where the indirect block has the words of the buffer.
abbrev pub flushed : Fs → List ℕ → Fs
flushed s buf = record s { disk = put s.disk s.indirect buf }

abbrev pub gone_indirect : ℕ → ℕ → ℕ → ℕ → Bool
gone_indirect n j blocklen m = leb (ndirect + j) m && (ltb m (ndirect + (j + n)) && ltb blocklen m)

-- Where the loop over the indirect block's buffer ends.
pub record IsScanned (n j blocklen : ℕ) (s : Fs) (buf : List ℕ) (dirty : Bool) (t : Fs)
    (buf' : List ℕ) (nonzero' dirty' : Bool) : Type 0 where
  pub cuts : IsCut (flushed s buf) (gone_indirect n j blocklen) (flushed t buf')
  pub rest : IsSameRest s t
  pub empty : nonzero' ≡ false → (k : ℕ) → k < dbperidb → get_or buf' k 0 ≡ 0
  pub clean : dirty' ≡ false → (buf' ≡ buf) × (t ≡ s) × (dirty ≡ false)

-- The block of the file that entry `j` stands for.
pub entry_block :
    (s : Fs) (buf : List ℕ) (j : ℕ)
    → s.indirect ≢ 0
    → block_of (flushed s buf) (ndirect + j) ≡ get_or buf j 0
entry_block s buf j y =
    let e : (flushed s buf).disk s.indirect ≡ buf = put_self s.disk s.indirect buf in
    block_of-indirect (flushed s buf) (ndirect + j) (omega arith) y
    ∙ (rw e (let o : (ndirect + j) - ndirect ≡ j = omega arith in rw o refl))

pub entry_freed :
    (s : Fs) (buf : List ℕ) (j : ℕ) (f : Bitmap) (m : IsMounted (flushed s buf))
    (p : IsMapped (flushed s buf))
    → j < dbperidb
    → s.indirect ≢ 0
    → block_of (flushed s buf) (ndirect + j) ≢ 0
    → IsUpdate s.freemap (block_of (flushed s buf) (ndirect + j)) false f
    → IsCut (flushed s buf) (λ k. k == ndirect + j) (flushed (freed s f) (set buf j 0))
entry_freed s buf j f m p h y z u =
    let t : Fs = flushed (freed s f) (set buf j 0) in
    let v : Fs = flushed s buf in
    let a : v.disk s.indirect ≡ buf = put_self s.disk s.indirect buf in
    let b : t.disk s.indirect ≡ set buf j 0 = put_self s.disk s.indirect (set buf j 0) in
    let w : length buf ≡ dbperidb = rw (← a) (p.indirect_width y) in
    let o : Extends v (ndirect + j) 0
        (record v { disk = put v.disk s.indirect (set (v.disk s.indirect) j 0) }) =
      entry-Extends v j 0 y h (p.indirect_width y) in
    let c : (record v { disk = put v.disk s.indirect (set (v.disk s.indirect) j 0) }).disk
          s.indirect
        ≡ set buf j 0 =
      put_self v.disk s.indirect (set (v.disk s.indirect) j 0) ∙ ap (λ l. set l j 0) a in
    let e : Extends v (ndirect + j) 0 t = λ k.
      same_map (record v { disk = put v.disk s.indirect (set (v.disk s.indirect) j 0) }) t refl refl
        (λ _. b ∙ sym c) k
      ∙ o k in
    removed-IsCut m p (ndirect + j) z u refl refl p.width (λ _. rw (b, length-set buf j 0) w) e

pub trunc_indirect-IsScanned :
    (n j blocklen : ℕ) (s : Fs) (buf : List ℕ) (nonzero dirty : Bool)
    → j + n ≡ dbperidb
    → s.indirect ≢ 0
    → IsMounted (flushed s buf)
    → IsMapped (flushed s buf)
    → (nonzero ≡ false → (k : ℕ) → k < j → get_or buf k 0 ≡ 0)
    → (t : Fs) × (buf' : List ℕ) × (nonzero' : Bool) × (dirty' : Bool) × (trunc_indirect n j
          blocklen
          (buf, nonzero, dirty)
          s
        ≡ ok (buf', nonzero', dirty') t)
      × IsScanned n j blocklen s buf dirty t buf' nonzero' dirty'
unfolding trunc_indirect
trunc_indirect-IsScanned zero j blocklen s buf nonzero dirty e y m p hz = (
  s,
  buf,
  nonzero,
  dirty,
  refl,
  record {
    cuts = same-IsCut (λ k. ground arith) (none-IsCut m p);
    rest = record { indirect = refl; disk = refl; bad_write = refl; bad_read = refl };
    empty = λ z k h. hz z k (omega arith);
    clean = λ z. (refl, refl, z);
  },
)
trunc_indirect-IsScanned (suc n) j blocklen s buf nonzero dirty e y m p hz =
    let x : block_of (flushed s buf) (ndirect + j) ≡ get_or buf j 0 = entry_block s buf j y in
    elim (Bool-cases (get_or buf j 0 == 0)) [
      | inl z ↦
          let b : block_of (flushed s buf) (ndirect + j) ≡ 0 = ground arith in
          let (t, buf', nz, d, a, c) =
            trunc_indirect-IsScanned n (j + 1) blocklen s buf nonzero dirty (omega arith) y m p
              (λ o k l. elim (ℕ_discrete k j) [
                | yes q ↦ rw q (ground arith)
                | no q ↦ hz o k (omega arith)
              ]) in
          (
            t,
            buf',
            nz,
            d,
            (elim (Bool-cases (ltb blocklen (ndirect + j))) [
              | inl l ↦ rw (l, z) a
              | inr l ↦ rw (l, z) a
            ]),
            record {
              cuts = elim (Bool-cases (ltb blocklen (ndirect + j))) [
                | inl l ↦
                    same-IsCut (λ k. ground arith)
                      (then-IsCut (zero-IsCut (ndirect + j) m p b) c.cuts)
                | inr l ↦ same-IsCut (λ k. ground arith) c.cuts
              ];
              rest = c.rest;
              empty = c.empty;
              clean = c.clean;
            },
          )
      | inr z ↦ elim (Bool-cases (ltb blocklen (ndirect + j))) [
        | inr l ↦
            let (t, buf', nz, d, a, c) =
              trunc_indirect-IsScanned n (j + 1) blocklen s buf true dirty (omega arith) y m p
                (λ o k q. cc) in
            (
              t,
              buf',
              nz,
              d,
              rw (l, z) a,
              record {
                cuts = same-IsCut (λ k. ground arith) c.cuts;
                rest = c.rest;
                empty = c.empty;
                clean = c.clean;
              },
            )
        | inl l ↦
            let b : block_of (flushed s buf) (ndirect + j) ≢ 0 = ground arith in
            let u : InUse (flushed s buf) (block_of (flushed s buf) (ndirect + j)) =
              p.in_use (ndirect + j) b in
            let ms : IsMounted s = record {
              valid = m.valid;
              covers = m.covers;
              past_end = m.past_end;
            } in
            let (f, r, v) =
              bfree_lem s (block_of (flushed s buf) (ndirect + j)) ms
                (record { inside = u.inside; taken = u.taken }) in
            let w : length buf ≡ dbperidb =
              rw (← put_self s.disk s.indirect buf) (p.indirect_width y) in
            let g = entry_freed s buf j f m p (omega arith) y b v in
            let (t, buf', nz, d, a, c) =
              trunc_indirect-IsScanned n (j + 1) blocklen (freed s f) (set buf j 0) nonzero true
                (omega arith) y g.mounted g.mapped
                (λ o k q. elim (ℕ_discrete k j) [
                  | yes i ↦ rw i (get_or-set_self buf j 0 0 (omega (arith, w)))
                  | no i ↦ get_or-set_ne buf j k 0 0 (λ q'. i (sym q')) ∙ hz o k (omega arith)
                ]) in
            (
              t,
              buf',
              nz,
              d,
              (let r' : bfree (get_or buf j 0) s ≡ ok tt (freed s f) = rw (← x) r in
                  simp (and_then, l, z, r', a)),
              record {
                cuts = same-IsCut (λ k. ground arith) (then-IsCut g c.cuts);
                rest = record {
                  indirect = c.rest.indirect;
                  disk = c.rest.disk;
                  bad_write = c.rest.bad_write;
                  bad_read = c.rest.bad_read;
                };
                empty = c.empty;
                clean = λ o. let (_, _, q) = c.clean o in cc;
              },
            )
      ]
    ]

pub get_or_past : (xs : List ℕ) (i : ℕ) → length xs ≤ i → get_or xs i 0 ≡ 0
get_or_past [] i h = refl
get_or_past (x ∷ xs) zero h = absurd (omega arith)
get_or_past (x ∷ xs) (suc i) h = get_or_past xs i (omega arith)

-- An indirect block with no entry left goes too.
pub last-IsCut :
    (t : Fs) (buf : List ℕ) (f : Bitmap)
    → t.indirect ≢ 0
    → IsMounted (flushed t buf)
    → IsMapped (flushed t buf)
    → ((k : ℕ) → k < dbperidb → get_or buf k 0 ≡ 0)
    → IsUpdate t.freemap t.indirect false f
    → IsCut (flushed t buf) (λ k. false) (record (freed t f) { indirect = 0; dirty = true })
last-IsCut t buf f y m p z u =
    let v : Fs = flushed t buf in
    let width : length buf ≡ dbperidb =
      rw (← put_self t.disk t.indirect buf) (p.indirect_width y) in
    let all_zero : (k : ℕ) → get_or buf k 0 ≡ 0 = λ k. elim (dec_lt k dbperidb) [
      | yes h ↦ z k h
      | no h ↦ get_or_past buf k (omega (arith, width))
    ] in
    let w : Fs = record (freed t f) { indirect = 0; dirty = true } in
    let same : SameMap v w = λ k. elim (dec_lt k ndirect) [
      | yes h ↦ block_of-direct w k h ∙ sym (block_of-direct v k h)
      | no h ↦
          let o : ndirect + (k - ndirect) ≡ k = omega arith in
          let e : block_of v k ≡ get_or buf (k - ndirect) 0 =
            subst (λ q. block_of v q ≡ get_or buf (k - ndirect) 0) o
              (entry_block t buf (k - ndirect) y) in
          block_of-none w k (omega arith) refl ∙ sym (e ∙ all_zero (k - ndirect))
    ] in
    let i : InUse v t.indirect = p.indirect_in_use y in
    record {
      mounted = record {
        valid = u.valid;
        covers = ground (arith, m.covers, u.same_size);
        past_end = λ j l h. ground (arith, u.bits j, m.past_end j, u.same_size, i.inside);
      };
      mapped = record {
        width = p.width;
        super_block = ground (arith, u.bits 0, p.super_block);
        in_use = λ n o.
            let n0 : block_of v n ≢ 0 = λ q. o (same n ∙ q) in
            let r : InUse v (block_of v n) = p.in_use n n0 in
            subst (InUse w) (sym (same n)) (record {
              inside = r.inside;
              taken = ground (arith, u.bits (block_of v n), r.taken, p.indirect_apart n y);
            });
        apart = λ k n q o. ground (arith, same k, same n, p.apart k n q);
        indirect_width = λ o. absurd (o refl);
        indirect_in_use = λ o. absurd (o refl);
        indirect_apart = λ n o. absurd (o refl);
      };
      cut = same;
      frees = λ k g. cc;
      keeps = λ j o. ground (arith, u.bits j);
    }
