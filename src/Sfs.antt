-- ===== src/Sfs.antt =====
-- fs/sfs/sfs_balloc.c and fs/sfs/sfs_bmap.c: the blocks of a file.
pub mod Balloc
pub mod Map
pub mod Changes
pub mod Bmap
pub mod Cut
pub mod Scan
pub mod Trunc
use polito_os161v.Common.{
  ℕ, zero, suc, ◌+◌, ◌-◌, ◌*◌, ◌/◌, ◌%◌, ◌^◌, Bool, true, false, ◌&&◌, not, ◌==◌, ltb, leb,
  if◌then◌else◌, u32, List, replicate, get_or, set, Res, good, fail, eio, efbig, Run, ok, panic,
  block, Cmd, pure, ◌>>=◌, ◌>>◌,
}
use polito_os161v.Bitmap.{Bitmap, alloc, unmark, isset}
use polito_os161v.Kernel.{put}

-- SFS_BLOCKSIZE, SFS_NDIRECT, SFS_NINDIRECT and SFS_DBPERIDB
abbrev pub blocksize : ℕ
blocksize = 512

abbrev pub ndirect : ℕ
ndirect = 15

abbrev pub nindirect : ℕ
nindirect = 1

abbrev pub dbperidb : ℕ
dbperidb = 128

-- A mounted volume and one inode of it. `disk` is the contents of each block as `uint32_t` words, and
-- `bad_read` and `bad_write` say on which blocks the device reports EIO. `direct`, `indirect` and
-- `size` are the fields of the inode, `dirty` is `sv_dirty`.
pub record Fs : Type 0 where
  pub freemap : Bitmap
  pub freemapdirty : Bool
  pub nblocks : ℕ
  pub disk : ℕ → List ℕ
  pub bad_read : ℕ → Bool
  pub bad_write : ℕ → Bool
  pub direct : List ℕ
  pub indirect : ℕ
  pub size : ℕ
  pub dirty : Bool

-- A bitmap operation on the free map.
abbrev pub on_freemap : {A : Type 0} → Run Bitmap A → Cmd Fs A
on_freemap (ok a b) s = ok a (record s { freemap = b })
on_freemap panic s = panic
on_freemap block s = block

-- What the device does for `sfs_readblock` and `sfs_writeblock` (fs/sfs/sfs_io.c).
unfoldable pub readblock : ℕ → Cmd Fs (Res (List ℕ))
readblock b s = if s.bad_read b then ok (fail eio) s else ok (good (s.disk b)) s

unfoldable pub writeblock : ℕ → List ℕ → Cmd Fs (Res (Unit {0}))
writeblock b words s =
    if s.bad_write b then ok (fail eio) s else ok (good tt) (record s { disk = put s.disk b words })

-- A block of zeros
abbrev pub zeros : List ℕ
zeros = replicate dbperidb 0

-- `sfs_clearblock`
abbrev pub clearblock : ℕ → Cmd Fs (Res (Unit {0}))
clearblock b = writeblock b zeros

-- The part of `sfs_balloc` after `sfs_clearblock`.
cleared : ℕ → Res (Unit {0}) → Cmd Fs (Res ℕ)
unfolding unmark
cleared b (good _) = pure (good b)
cleared b (fail e) = do (λ s. on_freemap (unmark b s.freemap) s); pure (fail e)

-- The part of `sfs_balloc` after `bitmap_alloc`.
allotted : Res ℕ → Cmd Fs (Res ℕ)
unfolding cleared writeblock
allotted (fail e) = pure (fail e)
allotted (good b) = do
  λ s. ok tt (record s { freemapdirty = true })
  λ s. if leb s.nblocks b then panic else ok tt s
  r ← clearblock b
  cleared b r

-- `sfs_balloc`
unfoldable pub balloc : Cmd Fs (Res ℕ)
unfolding allotted alloc
balloc = (λ s. on_freemap (alloc s.freemap) s) >>= allotted

-- `sfs_bfree`
unfoldable pub bfree : ℕ → Cmd Fs (Unit {0})
unfolding unmark
bfree b = do λ s. on_freemap (unmark b s.freemap) s; λ s. ok tt (record s { freemapdirty = true })

-- `sfs_bused`
unfoldable pub bused : ℕ → Cmd Fs Bool
unfolding isset
bused b s = if leb s.nblocks b then panic else ok (isset s.freemap b) s

-- The end of both halves of `sfs_bmap`: a block that is not 0 must be in use.
hand_back : ℕ → Cmd Fs (Res ℕ)
unfolding bused
hand_back b =
    if b == 0 then pure (good b) else (do u ← bused b; if u then pure (good b) else (λ s. panic))

-- `sfs_bmap` on a direct block: what follows its `sfs_balloc`.
direct_new : ℕ → Res ℕ → Cmd Fs (Res ℕ)
unfolding hand_back
direct_new n (fail e) = pure (fail e)
direct_new n (good b) = do
  λ s. ok tt (record s { direct = set s.direct n b; dirty = true })
  hand_back b

bmap_direct : ℕ → Bool → Cmd Fs (Res ℕ)
unfolding direct_new hand_back balloc
bmap_direct n doalloc s =
    let b = get_or s.direct n 0 in
    (if (b == 0) && doalloc then balloc >>= direct_new n else hand_back b) s

-- `sfs_bmap` on an indirect block, from the buffer `idbuf` on.
indirect_new : ℕ → ℕ → List ℕ → Res ℕ → Cmd Fs (Res ℕ)
unfolding hand_back writeblock
indirect_new idblock off idbuf (fail e) = pure (fail e)
indirect_new idblock off idbuf (good b) = do
  r ← writeblock idblock (set idbuf off b)
  elim r [ fail e ↦ pure (fail e) | good _ ↦ hand_back b ]

from_buffer : ℕ → ℕ → Bool → Res (List ℕ) → Cmd Fs (Res ℕ)
unfolding indirect_new hand_back balloc
from_buffer idblock off doalloc (fail e) = pure (fail e)
from_buffer idblock off doalloc (good idbuf) =
    let b = get_or idbuf off 0 in
    if (b == 0) && doalloc then balloc >>= indirect_new idblock off idbuf else hand_back b

-- What follows the `sfs_balloc` of the indirect block itself.
with_indirect : ℕ → Res ℕ → Cmd Fs (Res ℕ)
unfolding from_buffer
with_indirect off (fail e) = pure (fail e)
with_indirect off (good idblock) = do
  λ s. ok tt (record s { indirect = idblock; dirty = true })
  from_buffer idblock off true (good zeros)

bmap_indirect : ℕ → Bool → Cmd Fs (Res ℕ)
unfolding with_indirect from_buffer balloc readblock
bmap_indirect off doalloc s =
    (if s.indirect == 0
        then (if doalloc then balloc >>= with_indirect off else pure (good 0))
        else readblock s.indirect >>= from_buffer s.indirect off doalloc)
      s

-- `sfs_bmap`
unfoldable pub bmap : ℕ → Bool → Cmd Fs (Res ℕ)
unfolding bmap_direct bmap_indirect
bmap fileblock doalloc =
    if ltb fileblock ndirect
    then bmap_direct fileblock doalloc
    else if leb nindirect ((fileblock - ndirect) / dbperidb)
    then pure (fail efbig)
    else bmap_indirect ((fileblock - ndirect) % dbperidb) doalloc

-- The loop of `sfs_itrunc` over the direct blocks: `n` rounds from block `i` on.
pub trunc_direct : ℕ → ℕ → ℕ → Cmd Fs (Unit {0})
unfolding bfree
trunc_direct zero i blocklen s = ok tt s
trunc_direct (suc n) i blocklen s =
    let b = get_or s.direct i 0 in
    ((if leb blocklen i && not (b == 0)
          then (do bfree b; λ s. ok tt (record s { direct = set s.direct i 0; dirty = true }))
          else pure tt)
        >> trunc_direct n (i + 1) blocklen)
      s

-- The loop over the indirect block's buffer: `n` rounds from entry `j` on, with the buffer,
-- `hasnonzero` and `iddirty`.
pub trunc_indirect : ℕ → ℕ → ℕ → List ℕ × Bool × Bool → Cmd Fs (List ℕ × Bool × Bool)
unfolding bfree
trunc_indirect zero j blocklen acc = pure acc
trunc_indirect (suc n) j blocklen (idbuf, hasnonzero, iddirty) =
    let b = get_or idbuf j 0 in
    if ltb blocklen (ndirect + j) && not (b == 0)
    then bfree b >> trunc_indirect n (j + 1) blocklen (set idbuf j 0, hasnonzero, true)
    else trunc_indirect n (j + 1) blocklen (idbuf, (if b == 0 then hasnonzero else true), iddirty)

-- What `sfs_itrunc` does with the indirect block after the loop.
trunc_settle : List ℕ × Bool × Bool → Cmd Fs (Res (Unit {0}))
unfolding bfree writeblock
trunc_settle (idbuf, hasnonzero, iddirty) s =
    (if not hasnonzero
        then (do
          bfree s.indirect
          λ s. ok tt (record s { indirect = 0; dirty = true })
          pure (good tt))
        else if iddirty
        then writeblock s.indirect idbuf
        else pure (good tt))
      s

trunc_buffer : ℕ → Res (List ℕ) → Cmd Fs (Res (Unit {0}))
unfolding trunc_settle trunc_indirect
trunc_buffer blocklen (fail e) = pure (fail e)
trunc_buffer blocklen (good idbuf) =
    trunc_indirect dbperidb 0 blocklen (idbuf, false, false) >>= trunc_settle

-- The end of `sfs_itrunc`.
trunc_size : ℕ → Res (Unit {0}) → Cmd Fs (Res (Unit {0}))
trunc_size len (fail e) s = ok (fail e) s
trunc_size len (good _) s = ok (good tt) (record s { size = u32 len; dirty = true })

-- `sfs_itrunc`, for a length that is not negative.
unfoldable pub itrunc : ℕ → Cmd Fs (Res (Unit {0}))
unfolding trunc_direct trunc_buffer trunc_size readblock
itrunc len = do
  trunc_direct ndirect 0 (u32 ((len + blocksize - 1) / blocksize))
  r ← (λ s.
      (if ltb (u32 ((len + blocksize - 1) / blocksize)) (ndirect + dbperidb - 1)
            && not (s.indirect == 0)
          then readblock s.indirect >>= trunc_buffer (u32 ((len + blocksize - 1) / blocksize))
          else pure (good tt))
        s)
  trunc_size len r
