-- ===== src/Kmalloc/NewPage.antt =====
-- A new page of vm/kmalloc.c: the free list that is threaded through it has all its blocks.
use mathlib.Core.List.{append-nil}
use native.Mathlib.Nat.{mul-mod_left, mul-le-mul_right}
use polito_os161v.Common.{
  ℕ, zero, suc, ◌+◌, ◌-◌, ◌*◌, ◌/◌, ◌^◌, ◌%◌, ◌≤◌, ◌<◌, ◌≡◌, ◌≢◌, refl, sym, subst, ap, ◌∙◌, arith,
  List, [], ◌∷◌, ◌++◌, length, ok, get_or, set, u16, u32, ◌==◌, ==_self, false, NotIn, Distinct,
}
use polito_os161v.Kernel.{put, put_self, put_ne}
use polito_os161v.Vm.Ram.{page_size}
use polito_os161v.Kmalloc.Pagerefs.{Kheap, Pageref, pr_pageaddr, pr_blocktype, mkpab}
use polito_os161v.Kmalloc.Subpage.{size_of, thread_blocks, new_page}
use polito_os161v.Kmalloc.Sizes.{size_of-IsSize}
use polito_os161v.Kmalloc.Page.{IsPage, Links, Blocks}

-- The offsets of the first `n` blocks, the last one first.
abbrev pub down : ℕ → ℕ → List ℕ
down size zero = []
down size (suc n) = n * size ∷ down size n

-- The words after `n` blocks from block `i` on are linked, each to the one before it.
threaded : ℕ → ℕ → ℕ → ℕ → (ℕ → ℕ) → ℕ → ℕ
threaded zero i page size words = words
threaded (suc n) i page size words =
    threaded n (i + 1) page size (put words (page + i * size) (page + (i - 1) * size))

module _ (size : ℕ) (s0 : 0 < size) where
  -- A number that is no less than `n * size` is none of them.
  NotIn-down : (n x : ℕ) → n * size ≤ x → NotIn x (down size n)
  NotIn-down zero x h = tt
  NotIn-down (suc n) x h = (grind arith, NotIn-down n x (grind arith))

  Distinct-down : (n : ℕ) → Distinct (down size n)
  Distinct-down zero = tt
  Distinct-down (suc n) = (NotIn-down n (n * size) (omega arith), Distinct-down n)

  Blocks-down : (n : ℕ) → n * size ≤ 4096 → Blocks size (down size n)
  Blocks-down zero h = tt
  Blocks-down (suc n) h = (grind arith, mul-mod_left n size, Blocks-down n (grind arith))

  length-down : (n : ℕ) → length (down size n) ≡ n
  length-down zero = refl
  length-down (suc n) = ap suc (length-down n)

  before_block : (page i n : ℕ) → suc n ≤ i → page + n * size ≢ page + i * size
  before_block page i n h e =
      let step : suc n * size ≤ i * size = mul-le-mul_right size h in grind arith

  thread_blocks_lem :
      (n j fla : ℕ) (s : Kheap)
      → thread_blocks n (suc j) fla size (fla + j * size) s
        ≡ ok (fla + (j + n) * size) (record s { words = threaded n (suc j) fla size s.words })
  unfolding thread_blocks threaded
  thread_blocks_lem zero j fla s = let e : j + 0 ≡ j = omega arith in rw e refl
  thread_blocks_lem (suc n) j fla s =
      let back : suc j - 1 ≡ j = omega arith in
      let up : suc j + 1 ≡ suc (suc j) = omega arith in
      let e : j + suc n ≡ suc j + n = omega arith in
      let ne : fla + suc j * size ≢ fla + (suc j - 1) * size =
        λ q. before_block fla (suc j) (suc j - 1) (omega arith) (sym q) in
      let a : (fla + suc j * size == fla + (suc j - 1) * size) ≡ false = ground arith in
      let s' : Kheap = record s {
        words = put s.words (fla + suc j * size) (fla + (suc j - 1) * size);
      } in
      rw (put_self s.words (fla + suc j * size) (fla + (suc j - 1) * size), a, up, e)
        (thread_blocks_lem n (suc j) fla s')

  -- A write at block `i` does not touch the blocks before it.
  Links-down :
      (words : ℕ → ℕ) (page i v n : ℕ)
      → n ≤ i
      → Links words page (down size n)
      → Links (put words (page + i * size) v) page (down size n)
  Links-down words page i v zero h l = tt
  Links-down words page i v (suc n) h l = (
    put_ne words (page + i * size) v (page + n * size) (before_block page i n h) ∙ l.0,
    Links-down words page i v n (omega arith) l.1,
  )

  threaded-Links :
      (k i page : ℕ) (words : ℕ → ℕ)
      → Links words page (down size (suc i))
      → Links (threaded k (suc i) page size words) page (down size (suc i + k))
  unfolding threaded
  threaded-Links zero i page words l =
      let e : suc i ≡ suc i + 0 = omega arith in subst (λ n. Links words page (down size n)) e l
  threaded-Links (suc k) i page words l =
      let e : suc (suc i) + k ≡ suc i + suc k = omega arith in
      let back : suc i - 1 ≡ i = omega arith in
      let words' : ℕ → ℕ = put words (page + suc i * size) (page + (suc i - 1) * size) in
      let up : suc (suc i) ≡ suc i + 1 = omega arith in
      subst (λ j. Links (threaded k j page size words') page (down size (suc i + suc k))) up
        (subst (λ n. Links (threaded k (suc (suc i)) page size words') page (down size n)) e
          (threaded-Links k (suc i) page words' (
            put_self words (page + suc i * size) _ ∙ ap (λ j. page + j * size) back,
            Links-down words page (suc i) (page + (suc i - 1) * size) (suc i) (omega arith) l,
          )))

-- The page that `new_page` sets up for a pageref.
module _ (prpage b pr : ℕ) (s : Kheap) (type : b < 8) (aligned : prpage % page_size ≡ 0)
    (above : 4096 ≤ prpage) (below : prpage + 4096 ≤ 2 ^ 32) where
  abbrev size : ℕ
  size = size_of b

  -- Its pageref, for `suc m` blocks.
  abbrev fresh : ℕ → ℕ → Pageref
  fresh m n = record {
    pageaddr_and_blocktype = mkpab prpage b;
    freelist_offset = m * size;
    nfree = n;
  }

  mkpab-pageaddr : (m n : ℕ) → pr_pageaddr (fresh m n) ≡ prpage
  mkpab-pageaddr m n = omega arith

  mkpab-blocktype : (m n : ℕ) → pr_blocktype (fresh m n) ≡ b
  mkpab-blocktype m n = omega arith

  fresh-IsPage :
      (m : ℕ)
      → 4096 / size ≡ suc m
      → IsPage
          (threaded m 1 prpage size (put s.words prpage 0))
          (fresh m (suc m))
          (down size (suc m))
          []
  fresh-IsPage m e =
      let z = size_of-IsSize b type in
      let s0 : 0 < size = omega (arith, z.least) in
      let ea : pr_pageaddr (fresh m (suc m)) ≡ prpage = mkpab-pageaddr m (suc m) in
      let eb : pr_blocktype (fresh m (suc m)) ≡ b = mkpab-blocktype m (suc m) in
      let first : prpage + 0 * size ≡ prpage = omega arith in
      let one : suc 0 + m ≡ suc m = omega arith in
      let words' : ℕ → ℕ = threaded m 1 prpage size (put s.words prpage 0) in
      let all : suc m * size ≤ 4096 = subst (λ k. k * size ≤ 4096) e (omega (arith, z.exact)) in
      record {
        type = subst (λ x. x < 8) (sym eb) type;
        above = subst (λ x. 4096 ≤ x) (sym ea) above;
        below = subst (λ x. x + 4096 ≤ 2 ^ 32) (sym ea) below;
        offset = refl;
        count = sym (length-down size s0 (suc m));
        links =
            subst (λ p. Links words' p (down size (suc m))) (sym ea)
              (subst (λ n. Links words' prpage (down size n)) one
                (threaded-Links size s0 m 0 prpage (put s.words prpage 0)
                  (ap (put s.words prpage 0) first ∙ put_self s.words prpage 0, tt)));
        blocks =
            subst (λ x. Blocks (size_of x) (down size (suc m) ++ [])) (sym eb)
              (subst (Blocks size) (sym (append-nil (down size (suc m))))
                (Blocks-down size s0 (suc m) all));
        distinct =
            subst Distinct (sym (append-nil (down size (suc m)))) (Distinct-down size s0 (suc m));
        full =
            subst (λ x. length (down size (suc m)) + 0 ≡ 4096 / size_of x) (sym eb)
              (omega (arith, length-down size s0 (suc m), e));
      }

  abbrev final : ℕ → Kheap
  final m = record s {
    words = threaded m 1 prpage size (put s.words prpage 0);
    refs = put s.refs pr (fresh m (4096 / size));
    sizebases = set s.sizebases b (pr ∷ get_or s.sizebases b []);
    allbase = pr ∷ s.allbase;
  }

  -- The code runs through, with every assertion true.
  run :
      (m : ℕ) → 4096 / size ≡ suc m → m ≡ 4096 / size - 1 → new_page prpage b pr s ≡ ok tt (final m)
  unfolding new_page
  run m e d =
      let z = size_of-IsSize b type in
      let s0 : 0 < size = omega (arith, z.least) in
      let s1 : Kheap = record s { words = put s.words prpage 0 } in
      let first : prpage + 0 * size ≡ prpage = omega arith in
      let zm : 0 + m ≡ m = omega arith in
      let t : thread_blocks m 1 prpage size prpage s1
          ≡ ok (prpage + m * size) (record s1 { words = threaded m 1 prpage size s1.words }) =
        rw (first, zm) at (thread_blocks_lem size s0 m 0 prpage s1) in
      let all : suc m * size ≤ 4096 = subst (λ k. k * size ≤ 4096) e (omega (arith, z.exact)) in
      let low : m * size < 4096 = grind arith in
      let o : u16 (u32 (prpage + m * size + 2 ^ 32 - prpage)) ≡ m * size = omega arith in
      let w : u16 (4096 / size) ≡ 4096 / size = omega arith in rw (← d) (simp (t, o, ==_self, w))

  -- subpage_kmalloc gives a new page a free list that runs through every one of its blocks, from the
  -- last to the first, fails no assertion, and puts its pageref in front of the list of its size and
  -- of the list of all pages.
  pub new_page-IsPage :
      (s' : Kheap) × (new_page prpage b pr s ≡ ok tt s')
      × IsPage s'.words (s'.refs pr) (down (size_of b) (4096 / size_of b)) []
      × (pr_pageaddr (s'.refs pr) ≡ prpage)
      × (pr_blocktype (s'.refs pr) ≡ b)
      × (s'.allbase ≡ pr ∷ s.allbase)
      × (s'.sizebases ≡ set s.sizebases b (pr ∷ get_or s.sizebases b []))
  unfolding new_page
  new_page-IsPage =
      let m : ℕ = 4096 / size - 1 in
      let e : 4096 / size ≡ suc m = omega (arith, (size_of-IsSize b type).some_blocks) in
      let r = put_self s.refs pr (fresh m (4096 / size)) in
      (
        final m,
        run m e refl,
        rw r (
            subst
              (λ n.
                IsPage (threaded m 1 prpage size (put s.words prpage 0)) (fresh m n) (down size n)
                  [])
              (sym e) (fresh-IsPage m e)),
        rw r (mkpab-pageaddr m (4096 / size)),
        rw r (mkpab-blocktype m (4096 / size)),
        refl,
        refl,
      )
