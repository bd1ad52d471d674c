-- ===== src/Sfs/Changes.antt =====
-- What each change of a volume and its inode by sfs_bmap does to the block map.
use polito_os161v.Common.{
  ℕ, ◌+◌, ◌<◌, ◌≡◌, ◌≢◌, ◌∙◌, ap, refl, arith, sym, true, set, length, length-set, length-replicate,
}
use polito_os161v.Bitmap.{isset}
use polito_os161v.Bitmap.Laws.{IsValid}
use polito_os161v.Kernel.{put, put_self}
use polito_os161v.Sfs.{Fs, ndirect, dbperidb, zeros}
use polito_os161v.Sfs.Balloc.{IsMounted, IsGiven, IsSameInode}
use polito_os161v.Sfs.Map.{
  block_of, InUse, IsMapped, IsFresh, IsSameVolume, Extends, SameMap, same_map, set-Extends,
  zeros-SameMap, entry-Extends, extended-IsMapped, kept-IsMapped,
}

-- The map is as it was and well formed.
pub record IsKept (s s' : Fs) : Type 0 where
  pub mounted : IsMounted s'
  pub mapped : IsMapped s'
  pub same : SameMap s s'

-- The map has `b` at block `n` too, and is well formed.
pub record IsExtended (s : Fs) (n b : ℕ) (s' : Fs) : Type 0 where
  pub mounted : IsMounted s'
  pub mapped : IsMapped s'
  pub extends : Extends s n b s'

pub unchanged-IsKept : {s : Fs} → IsMounted s → IsMapped s → IsKept s s
unchanged-IsKept m p = record { mounted = m; mapped = p; same = λ n. refl }

-- A change that keeps the map, and then one that does the same or extends it.
pub then-IsKept : {s t u : Fs} → IsKept s t → IsKept t u → IsKept s u
then-IsKept a b = record { mounted = b.mounted; mapped = b.mapped; same = λ n. b.same n ∙ a.same n }

pub then-IsExtended : {s t u : Fs} {n b : ℕ} → IsKept s t → IsExtended t n b u → IsExtended s n b u
then-IsExtended a e = record {
  mounted = e.mounted;
  mapped = e.mapped;
  extends = λ m. rw (← a.same m) (e.extends m);
}

module _ {s : Fs} (m : IsMounted s) (p : IsMapped s) where
  -- The parts of the well-formedness of the map that only look at the inode.
  same_widths :
      {s' : Fs}
      → IsSameInode s s'
      → (s.indirect ≢ 0 → s'.disk s.indirect ≡ s.disk s.indirect)
      → s'.indirect ≢ 0
      → length (s'.disk s'.indirect) ≡ dbperidb
  same_widths {s'} e d z =
      let z' : s.indirect ≢ 0 = λ o. z (e.indirect ∙ o) in
      rw (e.indirect, d z') (p.indirect_width z')

  module _ {i : ℕ} {s' : Fs} (g : IsGiven s i s') where
    not_free : {b : ℕ} → InUse s b → b ≢ i
    not_free u e = ground (arith, u.taken, g.was_free, e)

    pub same_disk : s.indirect ≢ 0 → s'.disk s.indirect ≡ s.disk s.indirect
    same_disk z = g.others s.indirect (not_free (p.indirect_in_use z))

    given_volume : IsSameVolume s s'
    given_volume = record {
      freemap = λ j t. ground (arith, g.taken.bits j);
      volume = g.inode.volume;
    }

    given-IsMounted : IsMounted s'
    given-IsMounted = record {
      valid = g.taken.valid;
      covers = ground (arith, m.covers, g.inode.volume, g.taken.same_size);
      past_end =
          λ j l h. ground (arith, g.taken.bits j, m.past_end j, g.inode.volume, g.taken.same_size);
    }

    given_map : SameMap s s'
    given_map = same_map s s' g.inode.direct g.inode.indirect same_disk

    -- After `sfs_balloc` the map is as it was.
    pub given-IsKept : IsKept s s'
    given-IsKept = record {
      mounted = given-IsMounted;
      mapped =
          kept-IsMapped p given_volume g.inode.indirect (ap length g.inode.direct ∙ p.width)
            (same_widths g.inode same_disk) given_map;
      same = given_map;
    }

    -- The block it gives is fresh.
    pub given-IsFresh : IsFresh s' i
    given-IsFresh = record {
      nonzero = λ e. ground (arith, p.super_block, g.was_free, e);
      used = record {
        inside = ground (arith, g.inside, g.inode.volume);
        taken = ground (arith, g.taken.bits i);
      };
      unmapped = λ n e.
          let o : block_of s n ≡ i = sym (given_map n) ∙ e in
          let z : block_of s n ≢ 0 = ground (arith, p.super_block, g.was_free, o) in
          not_free (p.in_use n z) o;
      not_indirect = λ e.
          let o : s.indirect ≡ i = sym g.inode.indirect ∙ e in
          let z : s.indirect ≢ 0 = ground (arith, p.super_block, g.was_free, o) in
          not_free (p.indirect_in_use z) o;
    }

  -- Where `sfs_balloc` has failed to clear the block, the map is as it was.
  pub failed-IsKept :
      {s' : Fs}
      → IsValid s'.freemap
      → ((j : ℕ) → isset s'.freemap j ≡ isset s.freemap j)
      → s'.freemap.nbits ≡ s.freemap.nbits
      → s'.disk ≡ s.disk
      → IsSameInode s s'
      → IsKept s s'
  failed-IsKept {s'} v bits nbits disk e =
      let d : s'.disk s.indirect ≡ s.disk s.indirect = rw disk refl in
      let same : SameMap s s' = same_map s s' e.direct e.indirect (λ z. d) in
      let volume : IsSameVolume s s' = record { freemap = λ j t. bits j ∙ t; volume = e.volume } in
      record {
        mounted = record {
          valid = v;
          covers = ground (arith, m.covers, nbits, e.volume);
          past_end = λ j l h. ground (arith, bits j, m.past_end j, nbits, e.volume);
        };
        mapped =
            kept-IsMapped p volume e.indirect (ap length e.direct ∙ p.width)
              (same_widths e (λ z. d)) same;
        same = same;
      }

  -- A fresh block becomes a direct block of the file.
  pub direct-IsExtended :
      (n b : ℕ)
      → n < ndirect
      → IsFresh s b
      → IsExtended s n b (record s { direct = set s.direct n b; dirty = true })
  direct-IsExtended n b h f = record {
    mounted = record { valid = m.valid; covers = m.covers; past_end = m.past_end };
    mapped =
        extended-IsMapped p (record { freemap = λ i t. t; volume = refl }) refl
          (length-set s.direct n b ∙ p.width) p.indirect_width n b f (set-Extends s n b h p.width);
    extends = set-Extends s n b h p.width;
  }

  -- A fresh block becomes an entry of the indirect block.
  pub entry-IsExtended :
      (off b : ℕ)
      → off < dbperidb
      → s.indirect ≢ 0
      → IsFresh s b
      → IsExtended s
          (ndirect + off)
          b
          (record s { disk = put s.disk s.indirect (set (s.disk s.indirect) off b) })
  entry-IsExtended off b h z f =
      let words = s.disk s.indirect in
      let e = entry-Extends s off b z h (p.indirect_width z) in
      record {
        mounted = record { valid = m.valid; covers = m.covers; past_end = m.past_end };
        mapped =
            extended-IsMapped p (record { freemap = λ i t. t; volume = refl }) refl p.width
              (λ _.
                rw (put_self s.disk s.indirect (set words off b), length-set words off b)
                  (p.indirect_width z))
              (ndirect + off) b f e;
        extends = e;
      }

  -- A fresh block full of zeros becomes the indirect block.
  pub indirect-IsKept :
      (b : ℕ)
      → s.indirect ≡ 0
      → s.disk b ≡ zeros
      → IsFresh s b
      → IsKept s (record s { indirect = b; dirty = true })
  indirect-IsKept b i z f =
      let s' : Fs = record s { indirect = b; dirty = true } in
      let same : SameMap s s' = zeros-SameMap s b i z in
      record {
        mounted = record { valid = m.valid; covers = m.covers; past_end = m.past_end };
        mapped = record {
          width = p.width;
          super_block = p.super_block;
          in_use = λ n y.
              let u : InUse s (block_of s n) = p.in_use n (λ o. y (same n ∙ o)) in
              rw (same n) (record { inside = u.inside; taken = u.taken });
          apart = λ k n q y. ground (arith, same k, same n, p.apart k n q);
          indirect_width = λ _. rw z (length-replicate {A = ℕ} dbperidb 0);
          indirect_in_use = λ _. record { inside = f.used.inside; taken = f.used.taken };
          indirect_apart = λ n _ y. f.unmapped n (sym (same n) ∙ y);
        };
        same = same;
      }
