-- ===== src/Kmalloc/Heap.antt =====
-- The whole heap of vm/kmalloc.c: its pages do not overlap, and each is in order.
use native.Mathlib.Decide.{ℕ_discrete}
use polito_os161v.Common.{
  ℕ, ◌+◌, ◌%◌, ◌≤◌, ◌<◌, ◌≡◌, ◌≢◌, refl, sym, subst, ap, ◌∙◌, ◌⊎◌, inl, inr, arith, true, ◌==◌, ltb,
  Option, none, some, List, [], ◌∷◌, length, get_or, Run, ok, Bool-cases, IsIn, ==_self,
}
use polito_os161v.Kernel.{put, put_self, put_ne}
use polito_os161v.Vm.Ram.{page_frame, page_size}
use polito_os161v.Kmalloc.Pagerefs.{Kheap, pr_pageaddr, pr_blocktype}
use polito_os161v.Kmalloc.Subpage.{find_page, doalloc, alloc_block}
use polito_os161v.Kmalloc.Sizes.{IsSize}
use polito_os161v.Kmalloc.Page.{
  IsPage, with_free, head_offset, frame-IsPage, taken-IsPage, blocks_apart,
}
use polito_os161v.Kmalloc.Blocks.{doalloc_lem}

-- `free` and `used` give the free blocks and the blocks in use of each page, by its pageref.
pub record IsValid (s : Kheap) (free used : ℕ → List ℕ) : Type 0 where
  pub pages : (pr : ℕ) → IsIn pr s.allbase → IsPage s.words (s.refs pr) (free pr) (used pr)
  pub apart :
      (p q : ℕ)
      → IsIn p s.allbase
      → IsIn q s.allbase
      → p ≢ q
      → pr_pageaddr (s.refs p) ≢ pr_pageaddr (s.refs q)
  pub bases :
      (b pr : ℕ)
      → IsIn pr (get_or s.sizebases b [])
      → IsIn pr s.allbase × (pr_blocktype (s.refs pr) ≡ b)

-- An address on one page is on no other.
pub other_page :
    (a b i : ℕ)
    → page_frame a ≢ page_frame b
    → i < 4096
    → (page_frame a + i < page_frame b) ⊎ (page_frame b + 4096 ≤ page_frame a + i)
other_page a b i ne l =
    go
      (blocks_apart 4096 (page_frame a) (page_frame b) (omega arith) (omega arith) (omega arith) ne)
  where
    go :
        (page_frame a + 4096 ≤ page_frame b) ⊎ (page_frame b + 4096 ≤ page_frame a)
        → (page_frame a + i < page_frame b) ⊎ (page_frame b + 4096 ≤ page_frame a + i)
    go (inl h) = inl (omega arith)
    go (inr h) = inr (omega arith)

-- A change of one page that stays within it.
module _ {s : Kheap} {free used : ℕ → List ℕ} (v : IsValid s free used) (pr : ℕ) (o n : ℕ)
    (words' : ℕ → ℕ) where
  abbrev pub changed : Kheap
  changed = record s { words = words'; refs = put s.refs pr (with_free (s.refs pr) o n) }

  same_page : (q : ℕ) → (changed.refs q).pageaddr_and_blocktype ≡ (s.refs q).pageaddr_and_blocktype
  same_page q = elim (ℕ_discrete q pr) [
    | yes e ↦ rw (e, put_self) refl
    | no ne ↦ rw (put_ne s.refs pr (with_free (s.refs pr) o n) q ne) refl
  ]

  pub changed-IsValid :
      (f u : List ℕ)
      → ((x : ℕ)
          → (x < pr_pageaddr (s.refs pr)) ⊎ (pr_pageaddr (s.refs pr) + 4096 ≤ x)
          → words' x ≡ s.words x)
      → IsIn pr s.allbase
      → IsPage words' (with_free (s.refs pr) o n) f u
      → IsValid changed (put free pr f) (put used pr u)
  changed-IsValid f u out member page = record {
    pages = λ q h. elim (ℕ_discrete q pr) [
      | yes e ↦
          rw
            (
              e,
              put_self s.refs pr (with_free (s.refs pr) o n),
              put_self free pr f,
              put_self used pr u,
            )
            page
      | no ne ↦
          rw
            (
              put_ne s.refs pr (with_free (s.refs pr) o n) q ne,
              put_ne free pr f q ne,
              put_ne used pr u q ne,
            )
            (frame-IsPage words'
              (λ i l.
                out (pr_pageaddr (s.refs q) + i) (other_page _ _ i (v.apart q pr h member ne) l))
              (v.pages q h))
    ];
    apart = λ p q hp hq ne e.
        v.apart p q hp hq ne (ap page_frame (sym (same_page p)) ∙ e ∙ ap page_frame (same_page q));
    bases = λ b q h. ((v.bases b q h).0, ap (λ x. x % page_size) (same_page q) ∙ (v.bases b q h).1);
  }

-- The first loop of subpage_kmalloc.
data Found (s : Kheap) (xs : List ℕ) : Run Kheap (Option ℕ) → Type 0 where
  has : {pr : ℕ} → IsIn pr xs → 0 < (s.refs pr).nfree → Found s xs (ok (some pr) s)
  has_none : ((pr : ℕ) → IsIn pr xs → (s.refs pr).nfree ≡ 0) → Found s xs (ok none s)

Found-cons :
    {s : Kheap} {x : ℕ} {xs : List ℕ} {r : Run Kheap (Option ℕ)}
    → (s.refs x).nfree ≡ 0
    → Found s xs r
    → Found s (x ∷ xs) r
Found-cons z (has m l) = has (inr m) l
Found-cons {s} {x} {xs} z (has_none h) = has_none go
  where
    go : (pr : ℕ) → IsIn pr (x ∷ xs) → (s.refs pr).nfree ≡ 0
    go pr (inl e) = rw e z
    go pr (inr m) = h pr m

find_page-Found :
    (s : Kheap) (b : ℕ) (xs : List ℕ)
    → ((pr : ℕ) → IsIn pr xs → pr_blocktype (s.refs pr) ≡ b)
    → Found s xs (find_page b xs s)
unfolding find_page
find_page-Found s b [] h = has_none (λ pr m. absurd m)
find_page-Found s b (x ∷ xs) h =
    let t : (pr_blocktype (s.refs x) == b) ≡ true = rw (h x (inl refl)) (==_self b) in
    rw t (elim (Bool-cases (ltb 0 (s.refs x).nfree)) [
      | inl some_free ↦ rw some_free (has (inl refl) (ground arith))
      | inr full ↦
          rw full (Found-cons (ground arith) (find_page-Found s b xs (λ pr m. h pr (inr m))))
    ])

-- A block ends within its page.
pub block_end : {size o : ℕ} → (o < 4096) × (o % size ≡ 0) → IsSize size → o + size ≤ 4096
block_end {size} {o} b z =
    go (blocks_apart size o 4096 (omega (arith, z.least)) b.1 z.fits (omega (arith, b.0)))
  where
    go : (o + size ≤ 4096) ⊎ (4096 + size ≤ o) → o + size ≤ 4096
    go (inl h) = h
    go (inr h) = absurd (omega (arith, b.0))

pub beyond_page :
    (page size o : ℕ)
    → o < 4096
    → (x : ℕ) → (x < page) ⊎ (page + 4096 ≤ x)
    → o + size ≤ 4096
    → (x < page + o) ⊎ (page + o + size ≤ x)
beyond_page page size o l x (inl h) e = inl (omega arith)
beyond_page page size o l x (inr h) e = inr (omega arith)

-- What subpage_kmalloc has done when it has served a request for a block of type `b` from a page.
pub data Allocated (s : Kheap) (free used : ℕ → List ℕ) (b : ℕ) : Run Kheap ℕ → Type 0 where
  from_page :
      {pr o : ℕ} {rest : List ℕ} {s' : Kheap}
      → IsIn pr s.allbase
      → pr_blocktype (s.refs pr) ≡ b
      → free pr ≡ o ∷ rest
      → s'.words ≡ s.words
      → (s'.allbase ≡ s.allbase) × (s'.sizebases ≡ s.sizebases)
      → IsValid s' (put free pr rest) (put used pr (o ∷ used pr))
      → Allocated s free used b (ok (pr_pageaddr (s.refs pr) + o) s')

length-zero : (xs : List ℕ) → length xs ≡ 0 → xs ≡ []
length-zero [] e = refl
length-zero (x ∷ xs) e = absurd (omega arith)

uncons : (xs : List ℕ) → 0 < length xs → (o : ℕ) × (rest : List ℕ) × (xs ≡ o ∷ rest)
uncons [] l = absurd (omega arith)
uncons (o ∷ rest) l = (o, rest, refl)

module _ {s : Kheap} {free used : ℕ → List ℕ} (v : IsValid s free used) where
  doalloc-Allocated :
      (b pr : ℕ)
      → IsIn pr s.allbase
      → pr_blocktype (s.refs pr) ≡ b
      → 0 < (s.refs pr).nfree
      → Allocated s free used b (doalloc pr s)
  doalloc-Allocated b pr member type l =
      let page = v.pages pr member in
      let (o, rest, e) = uncons (free pr) (omega (arith, page.count)) in
      let page' = subst (λ f. IsPage s.words (s.refs pr) f (used pr)) e page in
      rw (doalloc_lem s pr o rest (used pr) page') (
        from_page member type e refl (refl, refl)
          (changed-IsValid v pr (head_offset rest) (length rest) s.words rest (o ∷ used pr)
            (λ x h. refl) member (taken-IsPage o rest (used pr) page')))

  -- On a heap in which every page is in order and some page of the block type has a free block,
  -- subpage_kmalloc takes the first free block of a page of that type, at which the heap stays in
  -- order with that block in use and both lists of pages are as they were.
  pub alloc_block-Allocated :
      (b p : ℕ)
      → IsIn p (get_or s.sizebases b [])
      → free p ≢ []
      → Allocated s free used b (alloc_block b s)
  unfolding alloc_block
  alloc_block-Allocated b p listed some_free =
      go _ (find_page-Found s b (get_or s.sizebases b []) (λ pr m. (v.bases b pr m).1)) refl
    where
      go :
          (r : Run Kheap (Option ℕ))
          → Found s (get_or s.sizebases b []) r
          → find_page b (get_or s.sizebases b []) s ≡ r
          → Allocated s free used b (alloc_block b s)
      go _ (has {pr} m l) e = rw e (doalloc-Allocated b pr (v.bases b pr m).0 (v.bases b pr m).1 l)
      go _ (has_none h) e = absurd (
          some_free
            (length-zero (free p) (sym (v.pages p (v.bases b p listed).0).count ∙ h p listed)))
