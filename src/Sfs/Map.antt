-- ===== src/Sfs/Map.antt =====
-- The block map of an inode (fs/sfs/sfs_bmap.c): which disk block holds each block of the file.
use native.Mathlib.Decide.{ℕ_discrete}
use polito_os161v.Common.{
  subst, ℕ, ◌+◌, ◌-◌, ◌<◌, ◌≤◌, ◌≡◌, ◌≢◌, ◌∙◌, refl, arith, sym, true, ◌==◌, ltb, if◌then◌else◌,
  get_or, set, length, get_or-set_self, get_or-set_ne, get_or-replicate,
}
use polito_os161v.Bitmap.{isset}
use polito_os161v.Kernel.{put, put_self}
use polito_os161v.Sfs.{Fs, ndirect, dbperidb, zeros}

-- The disk block of block `n` of the file, 0 where there is none.
pub block_of : Fs → ℕ → ℕ
block_of s n =
    if ltb n ndirect
    then get_or s.direct n 0
    else if s.indirect == 0
    then 0
    else get_or (s.disk s.indirect) (n - ndirect) 0

pub block_of-direct : (s : Fs) (n : ℕ) → n < ndirect → block_of s n ≡ get_or s.direct n 0
unfolding block_of
block_of-direct s n h = ground arith

pub block_of-indirect :
    (s : Fs) (n : ℕ)
    → ndirect ≤ n
    → s.indirect ≢ 0
    → block_of s n ≡ get_or (s.disk s.indirect) (n - ndirect) 0
unfolding block_of
block_of-indirect s n h z = ground arith

pub block_of-none : (s : Fs) (n : ℕ) → ndirect ≤ n → s.indirect ≡ 0 → block_of s n ≡ 0
unfolding block_of
block_of-none s n h z = ground arith

-- The block `b` is one of the volume, and in use.
pub record InUse (s : Fs) (b : ℕ) : Type 0 where
  pub inside : b < s.nblocks
  pub taken : isset s.freemap b ≡ true

-- Every block that the file has is in use, and no two blocks of the file, the indirect block
-- included, are one. Block 0 of the volume is in use, so that 0 can mean that there is none.
pub record IsMapped (s : Fs) : Type 0 where
  pub width : length s.direct ≡ ndirect
  pub super_block : isset s.freemap 0 ≡ true
  pub in_use : (n : ℕ) → block_of s n ≢ 0 → InUse s (block_of s n)
  pub apart : (m n : ℕ) → m ≢ n → block_of s m ≢ 0 → block_of s m ≢ block_of s n
  pub indirect_width : s.indirect ≢ 0 → length (s.disk s.indirect) ≡ dbperidb
  pub indirect_in_use : s.indirect ≢ 0 → InUse s s.indirect
  pub indirect_apart : (n : ℕ) → s.indirect ≢ 0 → block_of s n ≢ s.indirect

-- A block in use that the file does not have.
pub record IsFresh (s : Fs) (b : ℕ) : Type 0 where
  pub nonzero : b ≢ 0
  pub used : InUse s b
  pub unmapped : (n : ℕ) → block_of s n ≢ b
  pub not_indirect : s.indirect ≢ b

-- The same volume, where no block was freed.
pub record IsSameVolume (s s' : Fs) : Type 0 where
  pub freemap : (i : ℕ) → isset s.freemap i ≡ true → isset s'.freemap i ≡ true
  pub volume : s'.nblocks ≡ s.nblocks

-- The block map of `s` with `b` at block `n`.
abbrev pub Extends : Fs → ℕ → ℕ → Fs → Type 0
Extends s n b s' = (m : ℕ) → block_of s' m ≡ (if m == n then b else block_of s m)

-- The block map is as it was.
abbrev pub SameMap : Fs → Fs → Type 0
SameMap s s' = (m : ℕ) → block_of s' m ≡ block_of s m

-- The map looks at the direct blocks, at the number of the indirect block, and at its contents.
pub same_map :
    (s s' : Fs)
    → s'.direct ≡ s.direct
    → s'.indirect ≡ s.indirect
    → (s.indirect ≢ 0 → s'.disk s.indirect ≡ s.disk s.indirect)
    → SameMap s s'
unfolding block_of
same_map s s' e i d m = elim (ℕ_discrete s.indirect 0) [
  | yes z ↦ ground (arith, e, i)
  | no z ↦ rw (e, i, d z) refl
]

-- A new direct block.
pub set-Extends :
    (s : Fs) (n b : ℕ)
    → n < ndirect
    → length s.direct ≡ ndirect
    → Extends s n b (record s { direct = set s.direct n b; dirty = true })
unfolding block_of
set-Extends s n b h w m = elim (ℕ_discrete m n) [
  | yes q ↦ ground (arith, get_or-set_self s.direct n b 0)
  | no q ↦ ground (arith, get_or-set_ne s.direct n m b 0)
]

-- A new indirect block, full of zeros.
pub zeros-SameMap :
    (s : Fs) (b : ℕ)
    → s.indirect ≡ 0
    → s.disk b ≡ zeros
    → SameMap s (record s { indirect = b; dirty = true })
unfolding block_of
zeros-SameMap s b i z m = ground (arith, i, z, get_or-replicate {A = ℕ} dbperidb (m - ndirect) 0)

-- A new entry of the indirect block.
pub entry-Extends :
    (s : Fs) (off b : ℕ)
    → s.indirect ≢ 0
    → off < dbperidb
    → length (s.disk s.indirect) ≡ dbperidb
    → Extends s
        (ndirect + off)
        b
        (record s { disk = put s.disk s.indirect (set (s.disk s.indirect) off b) })
unfolding block_of
entry-Extends s off b i h w m =
    let words = s.disk s.indirect in
    rw (put_self s.disk s.indirect (set words off b)) (elim (ℕ_discrete m (ndirect + off)) [
      | yes q ↦ ground (arith, get_or-set_self words off b 0)
      | no q ↦ ground (arith, get_or-set_ne words off (m - ndirect) b 0)
    ])

-- A fresh block at a block that the file did not have keeps the map well formed.
module _ {s s' : Fs} (p : IsMapped s) (v : IsSameVolume s s') (i : s'.indirect ≡ s.indirect)
    (w : length s'.direct ≡ ndirect)
    (iw : s'.indirect ≢ 0 → length (s'.disk s'.indirect) ≡ dbperidb) where
  moved-InUse : {b : ℕ} → InUse s b → InUse s' b
  moved-InUse {b} u = record {
    inside = ground (arith, u.inside, v.volume);
    taken = v.freemap b u.taken;
  }

  pub extended-IsMapped : (n b : ℕ) → IsFresh s b → Extends s n b s' → IsMapped s'
  extended-IsMapped n b f e = record {
    width = w;
    super_block = v.freemap 0 p.super_block;
    in_use = λ m z. elim (ℕ_discrete m n) [
      | yes q ↦
          let x : block_of s' m ≡ b = ground (arith, e m) in
          subst (InUse s') (sym x) (moved-InUse f.used)
      | no q ↦
          let x : block_of s' m ≡ block_of s m = ground (arith, e m) in
          subst (InUse s') (sym x) (moved-InUse (p.in_use m (λ o. z (x ∙ o))))
    ];
    apart =
        λ m k q z. ground (arith, e m, e k, p.apart m k q, f.unmapped m, f.unmapped k, f.nonzero);
    indirect_width = iw;
    indirect_in_use =
        λ z. subst (InUse s') (sym i) (moved-InUse (p.indirect_in_use (λ o. z (i ∙ o))));
    indirect_apart = λ m z. ground (arith, e m, i, p.indirect_apart m, f.not_indirect);
  }

  pub kept-IsMapped : SameMap s s' → IsMapped s'
  kept-IsMapped e = record {
    width = w;
    super_block = v.freemap 0 p.super_block;
    in_use = λ m z. subst (InUse s') (sym (e m)) (moved-InUse (p.in_use m (λ o. z (e m ∙ o))));
    apart = λ m k q z. ground (arith, e m, e k, p.apart m k q);
    indirect_width = iw;
    indirect_in_use =
        λ z. subst (InUse s') (sym i) (moved-InUse (p.indirect_in_use (λ o. z (i ∙ o))));
    indirect_apart = λ m z. ground (arith, e m, i, p.indirect_apart m);
  }
