-- ===== src/Sfs/Cut.antt =====
-- Blocks that leave a file and are freed, as sfs_itrunc of fs/sfs/sfs_bmap.c does it.
use native.Mathlib.Decide.{ℕ_discrete}
use polito_os161v.Common.{
  subst, ℕ, ◌≡◌, ◌≢◌, ◌∙◌, refl, arith, sym, Bool, true, false, ◌||◌, ◌==◌, if◌then◌else◌, length,
  ok, and_then, inl, inr, Bool-cases,
}
use polito_os161v.Bitmap.{Bitmap, isset}
use polito_os161v.Bitmap.Laws.{IsUpdate, unmark-IsUpdate}
use polito_os161v.Sfs.{Fs, ndirect, dbperidb, bfree}
use polito_os161v.Sfs.Balloc.{IsMounted}
use polito_os161v.Sfs.Map.{block_of, InUse, IsMapped, Extends}

-- `s'` is `s` without the blocks of the file that `gone` names: they are out of the map and free, no
-- other block changes, and the map is well formed.
pub record IsCut (s : Fs) (gone : ℕ → Bool) (s' : Fs) : Type 0 where
  pub mounted : IsMounted s'
  pub mapped : IsMapped s'
  pub cut : (m : ℕ) → block_of s' m ≡ (if gone m then 0 else block_of s m)
  pub frees : (m : ℕ) → gone m ≡ true → block_of s m ≢ 0 → isset s'.freemap (block_of s m) ≡ false
  pub keeps : (j : ℕ) → isset s'.freemap j ≡ true → isset s.freemap j ≡ true

pub none-IsCut : {s : Fs} → IsMounted s → IsMapped s → IsCut s (λ m. false) s
none-IsCut m p = record {
  mounted = m;
  mapped = p;
  cut = λ k. refl;
  frees = λ k g. cc;
  keeps = λ j t. t;
}

-- A cut of a block that the file does not have.
pub zero-IsCut :
    {s : Fs} (n : ℕ) → IsMounted s → IsMapped s → block_of s n ≡ 0 → IsCut s (λ m. m == n) s
zero-IsCut {s} n m p z = record {
  mounted = m;
  mapped = p;
  cut = λ k. elim (ℕ_discrete k n) [ yes q ↦ ground (arith, z, q) | no q ↦ ground arith ];
  frees = λ k g y. elim (ℕ_discrete k n) [ yes q ↦ absurd (y (rw q z)) | no q ↦ ground arith ];
  keeps = λ j t. t;
}

pub same-IsCut : {s t : Fs} {g h : ℕ → Bool} → ((m : ℕ) → g m ≡ h m) → IsCut s g t → IsCut s h t
same-IsCut e c = record {
  mounted = c.mounted;
  mapped = c.mapped;
  cut = λ m. rw (← e m) (c.cut m);
  frees = λ m t. c.frees m (e m ∙ t);
  keeps = c.keeps;
}

pub then-IsCut :
    {s t u : Fs} {g h : ℕ → Bool} → IsCut s g t → IsCut t h u → IsCut s (λ m. g m || h m) u
then-IsCut {s} {t} {u} {g} {h} c d = record {
  mounted = d.mounted;
  mapped = d.mapped;
  cut = λ m. ground (arith, c.cut m, d.cut m);
  frees = λ m o z. elim (Bool-cases (g m)) [
    | inl a ↦ ground (arith, d.keeps (block_of s m), c.frees m a z)
    | inr a ↦
        let x : block_of t m ≡ block_of s m = ground (arith, c.cut m) in
        let y : h m ≡ true = ground arith in
        subst (λ b. isset u.freemap b ≡ false) x (d.frees m y (λ q. z (sym x ∙ q)))
  ];
  keeps = λ j x. c.keeps j (d.keeps j x);
}

-- What a block that leaves the map and is freed does.
module _ {s s' : Fs} (m : IsMounted s) (p : IsMapped s) (n : ℕ) (z : block_of s n ≢ 0)
    (f : IsUpdate s.freemap (block_of s n) false s'.freemap) (v : s'.nblocks ≡ s.nblocks)
    (i : s'.indirect ≡ s.indirect) (w : length s'.direct ≡ ndirect)
    (iw : s'.indirect ≢ 0 → length (s'.disk s'.indirect) ≡ dbperidb) (e : Extends s n 0 s') where
  pub still_used : (b : ℕ) → b ≢ block_of s n → InUse s b → InUse s' b
  still_used b q u = record {
    inside = ground (arith, u.inside, v);
    taken = ground (arith, f.bits b, u.taken);
  }

  pub removed-IsMounted : IsMounted s'
  removed-IsMounted = record {
    valid = f.valid;
    past_end =
        λ j l h. ground (arith, f.bits j, m.past_end j, v, f.same_size, (p.in_use n z).inside);
    covers = ground (arith, m.covers, v, f.same_size);
  }

  pub removed-IsMapped : IsMapped s'
  removed-IsMapped = record {
    width = w;
    super_block = ground (arith, f.bits 0, p.super_block);
    in_use = λ k y. elim (ℕ_discrete k n) [
      | yes q ↦ absurd (ground (arith, e k))
      | no q ↦
          let x : block_of s' k ≡ block_of s k = ground (arith, e k) in
          let y' : block_of s k ≢ 0 = λ o. y (x ∙ o) in
          subst (InUse s') (sym x) (still_used (block_of s k) (p.apart k n q y') (p.in_use k y'))
    ];
    apart = λ k l q y. ground (arith, e k, e l, p.apart k l q);
    indirect_width = iw;
    indirect_in_use = λ y.
        let y' : s.indirect ≢ 0 = λ o. y (i ∙ o) in
        subst (InUse s') (sym i)
          (still_used s.indirect (λ o. p.indirect_apart n y' (sym o)) (p.indirect_in_use y'));
    indirect_apart = λ k y. ground (arith, e k, i, p.indirect_apart k);
  }

  pub removed-IsCut : IsCut s (λ k. k == n) s'
  removed-IsCut = record {
    mounted = removed-IsMounted;
    mapped = removed-IsMapped;
    cut = e;
    frees = λ k g y. let q : k ≡ n = ground arith in rw q (ground (arith, f.bits (block_of s n)));
    keeps = λ j t. ground (arith, f.bits j);
  }

abbrev pub freed : Fs → Bitmap → Fs
freed s f = record s { freemap = f; freemapdirty = true }

pub bfree_lem :
    (s : Fs) (b : ℕ)
    → IsMounted s
    → InUse s b
    → (f : Bitmap) × (bfree b s ≡ ok tt (freed s f)) × IsUpdate s.freemap b false f
unfolding bfree
bfree_lem s b m u =
    let (f, e, x) =
      unmark-IsUpdate {b = s.freemap} b m.valid (omega (arith, u.inside, m.covers)) u.taken in
    (f, simp (and_then, e), x)
