-- ===== src/Sfs/Balloc.antt =====
-- sfs_balloc of fs/sfs/sfs_balloc.c: a block that nobody has, full of zeros.
use native.Mathlib.Decide.{ℕ_discrete, dec_lt}
use polito_os161v.Common.{
  subst, ℕ, ◌<◌, ◌≤◌, ◌≡◌, ◌≢◌, refl, arith, sym, ok, Run, Res, good, fail, eio, enospc, true,
  false, leb, Bool-cases, inl, inr, ◌∙◌, and_then,
}
use polito_os161v.Bitmap.{Bitmap, alloc, isset}
use polito_os161v.Bitmap.Laws.{IsValid, IsUpdate, unmark-IsUpdate}
use polito_os161v.Bitmap.Alloc.{Allocated, alloc-Allocated}
use polito_os161v.Kernel.{put_self, put_ne}
use polito_os161v.Sfs.{Fs, balloc, allotted, cleared, writeblock, zeros}

-- The free map is a valid bitmap with a bit for each block, and its bits past the volume are in use.
pub record IsMounted (s : Fs) : Type 0 where
  pub valid : IsValid s.freemap
  pub covers : s.nblocks ≤ s.freemap.nbits
  pub past_end : (i : ℕ) → s.nblocks ≤ i → i < s.freemap.nbits → isset s.freemap i ≡ true

-- The inode and the size of the volume are as they were.
pub record IsSameInode (s s' : Fs) : Type 0 where
  pub direct : s'.direct ≡ s.direct
  pub indirect : s'.indirect ≡ s.indirect
  pub size : s'.size ≡ s.size
  pub volume : s'.nblocks ≡ s.nblocks

-- Where `sfs_balloc` has put the block `i` at the caller's disposal.
pub record IsGiven (s : Fs) (i : ℕ) (s' : Fs) : Type 0 where
  pub inside : i < s.nblocks
  pub was_free : isset s.freemap i ≡ false
  pub taken : IsUpdate s.freemap i true s'.freemap
  pub zeroed : s'.disk i ≡ zeros
  pub others : (b : ℕ) → b ≢ i → s'.disk b ≡ s.disk b
  pub inode : IsSameInode s s'

-- The three ways in which `sfs_balloc` returns.
pub data Balloced (s : Fs) : Run Fs (Res ℕ) → Type 0 where
  given : {i : ℕ} {s' : Fs} → IsGiven s i s' → Balloced s (ok (good i) s')
  volume_full :
      {s' : Fs}
      → ((i : ℕ) → i < s.freemap.nbits → isset s.freemap i ≡ true)
      → s' ≡ s
      → Balloced s (ok (fail enospc) s')
  device_error :
      {i : ℕ} {s' : Fs}
      → s.bad_write i ≡ true
      → IsValid s'.freemap
      → ((j : ℕ) → isset s'.freemap j ≡ isset s.freemap j)
      → s'.freemap.nbits ≡ s.freemap.nbits
      → s'.disk ≡ s.disk
      → IsSameInode s s'
      → Balloced s (ok (fail eio) s')

module _ (s : Fs) (m : IsMounted s) (i : ℕ) (b : Bitmap) (a : i < s.freemap.nbits)
    (z : isset s.freemap i ≡ false) (u : IsUpdate s.freemap i true b)
    (e : alloc s.freemap ≡ ok (good i) b) where
  inside_volume : i < s.nblocks
  inside_volume = elim (dec_lt i s.nblocks) [
    | yes l ↦ l
    | no n ↦ absurd (clash (m.past_end i (omega arith) a))
  ]
    where
      clash : isset s.freemap i ≡ true → ⊥
      clash t = ground (arith, z)

  writable : s.bad_write i ≡ false → Balloced s (balloc s)
  unfolding balloc
  writable w =
      let l : leb s.nblocks i ≡ false = ground (arith, inside_volume) in
      simp (balloc, and_then, allotted, cleared, writeblock, e, l, w)
        (given (record {
          inside = inside_volume;
          was_free = z;
          taken = u;
          zeroed = put_self s.disk i zeros;
          others = put_ne s.disk i zeros;
          inode = record { direct = refl; indirect = refl; size = refl; volume = refl };
        }))

  unwritable : s.bad_write i ≡ true → Balloced s (balloc s)
  unfolding balloc
  unwritable w =
      let l : leb s.nblocks i ≡ false = ground (arith, inside_volume) in
      let in_b : i < b.nbits = ground (arith, u.same_size) in
      let set_i : isset b i ≡ true = u.bits i ∙ ground arith in
      let (b', f, v) = unmark-IsUpdate {b = b} i u.valid in_b set_i in
      let back : (j : ℕ) → isset b' j ≡ isset s.freemap j = λ j. v.bits j ∙ (elim (ℕ_discrete j i) [
        | yes q ↦ rw (q) (ground (arith, z))
        | no q ↦ ground (arith, u.bits j)
      ]) in
      simp (balloc, and_then, allotted, cleared, writeblock, e, l, w, f)
        (device_error w v.valid back (v.same_size ∙ u.same_size) refl
          (record { direct = refl; indirect = refl; size = refl; volume = refl }))

-- sfs_balloc on a mounted volume does not panic. It gives a block of the volume that was free, is in
-- use now and is full of zeros, with every other block and the inode as they were; or reports ENOSPC
-- with nothing changed when no block is free; or reports EIO with every block's use as it was.
pub balloc-Balloced : (s : Fs) → IsMounted s → Balloced s (balloc s)
unfolding balloc
balloc-Balloced s m = go (alloc-Allocated m.valid) refl
  where
    full : alloc s.freemap ≡ ok (fail enospc) s.freemap → balloc s ≡ ok (fail enospc) s
    full e = simp (balloc, and_then, allotted, e)

    go :
        {r : Run Bitmap (Res ℕ)}
        → Allocated s.freemap r
        → alloc s.freemap ≡ r
        → Balloced s (balloc s)
    go (Allocated.found {i} {b' = b} a z l u) e = elim (Bool-cases (s.bad_write i)) [
      | inl w ↦ unwritable s m i b a z u e w
      | inr w ↦ writable s m i b a z u e w
    ]
    go (Allocated.no_space h) e = subst (λ r. Balloced s r) (sym (full e)) (volume_full h refl)
