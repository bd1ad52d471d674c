-- ===== src/Kmalloc/Pagerefs.antt =====
-- The state of vm/kmalloc.c, and the pagerefs that describe its pages.
use polito_os161v.Common.{
  Option, none, some, ℕ, zero, suc, ◌+◌, ◌-◌, ◌*◌, ◌/◌, ◌^◌, ◌%◌, Bool, true, false, ◌==◌, ltb, leb,
  if◌then◌else◌, List, [], ◌∷◌, get_or, set, bit_and, bit_or, ok, panic, block, Cmd, pure, ◌>>=◌,
  ◌>>◌,
}
use polito_os161v.Vm.Ram
use polito_os161v.Vm.Ram.{Ram, page_size, page_frame}

-- `struct pageref`. The lists threaded through `next_samesize` and `next_all` are those of `Kheap`.
pub record Pageref : Type 0 where
  pub pageaddr_and_blocktype : ℕ
  pub freelist_offset : ℕ
  pub nfree : ℕ

-- `struct kheap_root`; `page` is 0 for NULL.
pub record Root : Type 0 where
  pub page : ℕ
  pub inuse : List ℕ
  pub numinuse : ℕ

-- The 32-bit words of the heap's pages, the pagerefs, each by its address, and the variables
-- `kheaproots`, `sizebases` and `allbase`, the last two as lists of pageref addresses. `ram` is the
-- page allocator below.
pub record Kheap : Type 0 where
  pub words : ℕ → ℕ
  pub refs : ℕ → Pageref
  pub roots : List Root
  pub sizebases : List (List ℕ)
  pub allbase : List ℕ
  pub ram : Ram

abbrev pub invalid_offset : ℕ
invalid_offset = 0xffff

-- PR_PAGEADDR, PR_BLOCKTYPE and MKPAB. The bits of the two arguments of MKPAB's `|` are disjoint.
abbrev pub pr_pageaddr : Pageref → ℕ
pr_pageaddr r = page_frame r.pageaddr_and_blocktype

abbrev pub pr_blocktype : Pageref → ℕ
pr_blocktype r = r.pageaddr_and_blocktype % page_size

abbrev pub mkpab : ℕ → ℕ → ℕ
mkpab pa blk = page_frame pa + blk % page_size

abbrev pub kassert : Bool → Cmd Kheap (Unit {0})
kassert b = if b then pure tt else (λ s. panic)

-- `alloc_kpages` and `free_kpages` of arch/mips/vm/dumbvm.c; the second leaks the pages.
unfoldable pub alloc_kpages : ℕ → Cmd Kheap ℕ
unfolding Ram.alloc_kpages
alloc_kpages n s = elim (Ram.alloc_kpages n s.ram) [
  | ok a r ↦ ok a (record s { ram = r })
  | panic ↦ panic
  | block ↦ block
]

abbrev pub free_kpages : ℕ → Cmd Kheap (Unit {0})
free_kpages addr = pure tt

abbrev pub npagerefs_per_page : ℕ
npagerefs_per_page = 256

abbrev pub no_root : Root
no_root = record { page = 0; inuse = []; numinuse = 0 }

abbrev pub set_root : ℕ → Root → Cmd Kheap (Unit {0})
set_root w r s = ok tt (record s { roots = set s.roots w r })

-- `allocpagerefpage`, for root number `w`. The second test of `page` is for a thread that was faster
-- while the spinlock was free.
unfoldable pub allocpagerefpage : ℕ → Cmd Kheap (Unit {0})
unfolding alloc_kpages
allocpagerefpage w = do
  λ s. kassert ((get_or s.roots w no_root).page == 0) s
  va ← alloc_kpages 1
  if va == 0 then pure tt else (do
    kassert (va % page_size == 0)
    λ s.
        let r = get_or s.roots w no_root in
        if r.page == 0 then set_root w (record r { page = va }) s else free_kpages va s)

-- The loop over `k` in `allocpageref`: the lowest clear bit of a word from bit `j` on, of `n` bits.
unfoldable pub lowest_clear : ℕ → ℕ → ℕ → ℕ
lowest_clear zero j word = j
lowest_clear (suc n) j word =
    let later = lowest_clear n (j + 1) word in if bit_and word (2 ^ j) == 0 then j else later

-- The loop over `i`: the first word that is not full, from word `i` on, and its lowest clear bit.
unfoldable pub find_clear : ℕ → List ℕ → Option (ℕ × ℕ)
unfolding lowest_clear
find_clear i [] = none
find_clear i (word ∷ rest) =
    let later = find_clear (i + 1) rest in
    if word == 0xffffffff then later else some (i, lowest_clear 32 0 word)

-- What `allocpageref` does at root `w` with the bit `j` of word `i`: an address, or 0.
unfoldable pub take_pageref : ℕ → ℕ × ℕ → Cmd Kheap ℕ
unfolding allocpagerefpage
take_pageref w (i, j) = do
  kassert (ltb j 32)
  λ s.
      let r = get_or s.roots w no_root in
      set_root w
        (record r {
          inuse = set r.inuse i (bit_or (get_or r.inuse i 0) (2 ^ j));
          numinuse = r.numinuse + 1;
        })
        s
  λ s. if (get_or s.roots w no_root).page == 0 then allocpagerefpage w s else ok tt s
  λ s.
      let page = (get_or s.roots w no_root).page in
      ok (if page == 0 then 0 else page + (i * 32 + j) * 16) s

-- `allocpageref`: the loop over the roots from number `w` on.
unfoldable pub allocpageref_from : ℕ → List Root → Cmd Kheap ℕ
unfolding take_pageref find_clear
allocpageref_from w [] = pure 0
allocpageref_from w (r ∷ rest) =
    let later = allocpageref_from (w + 1) rest in
    if leb npagerefs_per_page r.numinuse
    then later
    else elim (find_clear 0 r.inuse) [ none ↦ later | some place ↦ take_pageref w place ]

unfoldable pub allocpageref : Cmd Kheap ℕ
unfolding allocpageref_from
allocpageref s = allocpageref_from 0 s.roots s

-- What `freepageref` does at root `w`, on whose page the pageref has index `j`.
unfoldable pub drop_pageref : ℕ → Root → ℕ → Cmd Kheap (Unit {0})
drop_pageref w r j = do
  let word = get_or r.inuse (j / 32) 0
  kassert (if bit_and word (2 ^ (j % 32)) == 0 then false else true)
  kassert (ltb 0 r.numinuse)
  set_root w
      (record r { inuse = set r.inuse (j / 32) (word - 2 ^ (j % 32)); numinuse = r.numinuse - 1 })

-- `freepageref`: the loop over the roots.
unfoldable pub freepageref_from : ℕ → ℕ → List Root → Cmd Kheap (Unit {0})
unfolding drop_pageref
freepageref_from p w [] = λ s. panic
freepageref_from p w (r ∷ rest) =
    let later = freepageref_from p (w + 1) rest in
    let j = (p + 2 ^ 32 - r.page) % 2 ^ 32 / 16 in
    if r.page == 0
    then (do kassert (r.numinuse == 0); later)
    else if ltb j npagerefs_per_page
    then drop_pageref w r j
    else later

unfoldable pub freepageref : ℕ → Cmd Kheap (Unit {0})
unfolding freepageref_from
freepageref p s = freepageref_from p 0 s.roots s
