-- ===== src/Kmalloc/Blocks.antt =====
-- What the code of vm/kmalloc.c does to one page.
use polito_os161v.Common.{
  ℕ, suc, ◌+◌, ◌-◌, ◌^◌, ◌≤◌, ◌<◌, ◌≡◌, ◌≢◌, refl, arith, true, false, ◌==◌, ltb, List, [], ◌∷◌,
  ◌++◌, length, u16, u32, ok, lt→ltb,
}
use polito_os161v.Kernel.{put}
use polito_os161v.Kmalloc.Pagerefs.{Kheap, pr_pageaddr}
use polito_os161v.Kmalloc.Subpage.{next_offset, doalloc, push_block}
use polito_os161v.Kmalloc.Sizes.{size_of-IsSize}
use polito_os161v.Kmalloc.Page.{
  IsPage, Blocks, link, head_offset, with_free, given_words, given_block, given_apart,
}

next_offset_lem :
    (page size : ℕ) (free used : List ℕ) (s : Kheap)
    → 0 < page
    → page + 4096 ≤ 2 ^ 32
    → Blocks size (free ++ used)
    → next_offset page (link page free) (length free) s ≡ ok (head_offset free) s
unfolding next_offset
next_offset_lem page size [] used s p l b = refl
next_offset_lem page size (o ∷ free) used s p l b =
    let e : u32 (page + o + 2 ^ 32 - page) ≡ o = omega (arith, b.0) in
    let z : (page + o == 0) ≡ false = ground arith in
    let t : ltb 0 (suc (length free)) ≡ true = ground arith in
    let h : u16 o ≡ o = omega (arith, b.0) in simp (z, t, e, lt→ltb o 4096 b.0, h)

module _ (s : Kheap) (pr : ℕ) where
  -- The heap after the first free block of the page of `pr` is taken.
  abbrev pub taken : List ℕ → Kheap
  taken free = record s {
    refs = put s.refs pr (with_free (s.refs pr) (head_offset free) (length free));
  }

  pub doalloc_lem :
      (o : ℕ) (free used : List ℕ)
      → IsPage s.words (s.refs pr) (o ∷ free) used
      → doalloc pr s ≡ ok (pr_pageaddr (s.refs pr) + o) (taken free)
  unfolding doalloc
  doalloc_lem o free used v =
      let z = size_of-IsSize _ v.type in
      let left : u16 ((s.refs pr).nfree + 65535) ≡ length free =
        omega (arith, v.count, v.full, z.many) in
      simp (
        v.offset,
        left,
        v.links.0,
        lt→ltb o 4096 v.blocks.0,
        next_offset_lem _ _ free used s (omega (arith, v.above)) v.below v.blocks.2,
      )

  -- The heap after the block at `o` of the page of `pr` is put back.
  abbrev pub given : ℕ → List ℕ → Kheap
  given o free = record s {
    words = given_words s.words (s.refs pr) o free;
    refs = put s.refs pr (with_free (s.refs pr) o (suc (length free)));
  }

  pub push_block_lem :
      (o : ℕ) (free pre post : List ℕ)
      → IsPage s.words (s.refs pr) free (pre ++ o ∷ post)
      → push_block pr o s ≡ ok tt (given o free)
  unfolding push_block
  push_block_lem o [] pre post v =
      let l : u16 o ≡ o = omega (arith, (given_block o [] pre post v).0) in
      simp (v.offset, v.count, l)
  push_block_lem o (x ∷ free) pre post v =
      let l : u16 o ≡ o = omega (arith, (given_block o (x ∷ free) pre post v).0) in
      let c : u16 (suc (length free) + 1) ≡ suc (suc (length free)) =
        omega (arith, v.full, (size_of-IsSize _ v.type).many) in
      let real : (x == 65535) ≡ false = ground (arith, v.blocks.0) in
      let ne : o ≢ x = (given_apart o (x ∷ free) pre post v).0 in
      let other : (pr_pageaddr (s.refs pr) + o == pr_pageaddr (s.refs pr) + x) ≡ false =
        ground arith in
      simp (v.offset, v.count, l, c, real, other)
