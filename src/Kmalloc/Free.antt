-- ===== src/Kmalloc/Free.antt =====
-- subpage_kfree of vm/kmalloc.c puts a block back on the free list of its page.
use native.Mathlib.Decide.{ℕ_discrete}
use polito_os161v.Common.{
  ℕ, suc, ◌+◌, ◌-◌, ◌/◌, ◌≤◌, ◌<◌, ◌≡◌, ◌≢◌, refl, sym, subst, ◌⊎◌, inl, inr, arith, true, false,
  ◌==◌, ◌&&◌, ltb, leb, some, List, [], ◌∷◌, ◌++◌, length, length-append, ok, IsIn, lt→ltb,
}
use polito_os161v.Kernel.{put, put_self}
use polito_os161v.Vm.Ram.{page_size}
use polito_os161v.Kmalloc.Pagerefs.{Kheap, pr_pageaddr, pr_blocktype}
use polito_os161v.Kmalloc.Subpage.{size_of, owner, release_page, free_block, subpage_kfree}
use polito_os161v.Kmalloc.Sizes.{size_of-IsSize}
use polito_os161v.Kmalloc.Page.{IsPage, given-IsPage, given_outside, given_block, given_words}
use polito_os161v.Kmalloc.Blocks.{given, push_block_lem}
use polito_os161v.Kmalloc.Heap.{IsValid, other_page, block_end, beyond_page, changed-IsValid}

on_page : (p o : ℕ) → o < 4096 → (leb p (p + o) && ltb (p + o) (p + page_size)) ≡ true
on_page p o l = ground arith

off_page : (p x : ℕ) → (x < p) ⊎ (p + 4096 ≤ x) → (leb p x && ltb x (p + page_size)) ≡ false
off_page p x (inl h) = ground arith
off_page p x (inr h) = ground arith

later : {x y : ℕ} (xs : List ℕ) → IsIn y (x ∷ xs) → x ≢ y → IsIn y xs
later xs (inl e) ne = absurd (ne (sym e))
later xs (inr m) ne = m

-- The first loop of subpage_kfree.
module _ {s : Kheap} {free used : ℕ → List ℕ} (v : IsValid s free used) (pr : ℕ) (o : ℕ)
    (member : IsIn pr s.allbase) (o_lt : o < 4096) where
  owner_lem :
      (xs : List ℕ)
      → ((q : ℕ) → IsIn q xs → IsIn q s.allbase)
      → IsIn pr xs
      → owner (pr_pageaddr (s.refs pr) + o) xs s ≡ ok (some pr) s
  unfolding owner
  owner_lem [] sub m = absurd m
  owner_lem (x ∷ xs) sub m =
      let t = lt→ltb _ 8 (v.pages x (sub x (inl refl))).type in
      rw t (elim (ℕ_discrete x pr) [
        | yes e ↦ rw (e, on_page (pr_pageaddr (s.refs pr)) o o_lt) refl
        | no ne ↦
            rw
              (off_page _ _
                (other_page _ _ o (v.apart pr x member (sub x (inl refl)) (λ e. ne (sym e))) o_lt))
              (owner_lem xs (λ q i. sub q (inr i)) (later xs m ne))
      ])

-- Blocks are left in use on the page.
abbrev pub Kept : List ℕ → List ℕ → Type 0
Kept pre post = 0 < length pre + length post

module _ {s : Kheap} {free used : ℕ → List ℕ} (v : IsValid s free used) (pr o : ℕ)
    (pre post : List ℕ) (member : IsIn pr s.allbase) (in_use : used pr ≡ pre ++ o ∷ post)
    (kept : Kept pre post) where
  freed-IsPage : IsPage s.words (s.refs pr) (free pr) (pre ++ o ∷ post)
  freed-IsPage = subst (λ u. IsPage s.words (s.refs pr) (free pr) u) in_use (v.pages pr member)

  given-IsValid :
      IsValid (given s pr o (free pr)) (put free pr (o ∷ free pr)) (put used pr (pre ++ post))
  given-IsValid =
      let z = size_of-IsSize _ freed-IsPage.type in
      let b = given_block o (free pr) pre post freed-IsPage in
      changed-IsValid v pr o (suc (length (free pr))) (given_words s.words (s.refs pr) o (free pr))
        (o ∷ free pr) (pre ++ post)
        (λ x h.
          given_outside s.words (s.refs pr) o (free pr) x z
            (beyond_page _ _ o b.0 x h (block_end b z)))
        member (given-IsPage o (free pr) pre post freed-IsPage)

  release_page_lem : release_page pr (given s pr o (free pr)) ≡ ok tt (given s pr o (free pr))
  unfolding release_page
  release_page_lem =
      let n : ℕ = page_size / size_of (pr_blocktype (s.refs pr)) in
      let full : length (free pr) + (length pre + suc (length post)) ≡ n =
        omega (arith, freed-IsPage.full, length-append {0} pre (o ∷ post)) in
      let le : leb (suc (length (free pr))) n ≡ true = ground arith in
      let ne : (suc (length (free pr)) == n) ≡ false = ground arith in simp (put_self, le, ne)

  -- subpage_kfree of a block in use, where another block of the page stays in use, puts it back on
  -- the free list of its page: the heap is in order with that block free, and both lists of pages
  -- are as they were.
  pub subpage_kfree_lem :
      (s' : Kheap) × (subpage_kfree (pr_pageaddr (s.refs pr) + o) s ≡ ok true s')
      × IsValid s' (put free pr (o ∷ free pr)) (put used pr (pre ++ post))
      × (s'.allbase ≡ s.allbase)
      × (s'.sizebases ≡ s.sizebases)
  unfolding subpage_kfree free_block
  subpage_kfree_lem =
      let b = given_block o (free pr) pre post freed-IsPage in
      let d : pr_pageaddr (s.refs pr) + o - pr_pageaddr (s.refs pr) ≡ o = omega arith in
      let l : ltb o page_size ≡ true = lt→ltb o 4096 b.0 in
      (
        given s pr o (free pr),
        rw
            (
              owner_lem v pr o member b.0 s.allbase (λ q i. i) member,
              d,
              l,
              b.1,
              push_block_lem s pr o (free pr) pre post freed-IsPage,
              release_page_lem,
            )
            refl,
        given-IsValid,
        refl,
        refl,
      )
