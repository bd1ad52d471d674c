-- ===== src/Kmalloc/Subpage.antt =====
-- The subpage allocator of vm/kmalloc.c: blocks of eight sizes, with a free list inside each page.
use polito_os161v.Common.{
  ℕ, zero, suc, ◌+◌, ◌-◌, ◌*◌, ◌/◌, ◌^◌, ◌%◌, Bool, true, false, ◌==◌, ◌&&◌, not, ltb, leb,
  if◌then◌else◌, Option, none, some, List, [], ◌∷◌, get_or, set, u16, u32, ok, panic, Cmd, pure,
  ◌>>=◌, ◌>>◌,
}
use polito_os161v.Kernel.{put}
use polito_os161v.Vm.Ram.{page_size}
use polito_os161v.Kmalloc.Pagerefs.{
  Kheap, Pageref, pr_pageaddr, pr_blocktype, mkpab, kassert, invalid_offset, alloc_kpages,
  free_kpages, allocpageref, freepageref,
}

-- `sizes`, NSIZES of them
abbrev pub sizes : List ℕ
sizes = 16 ∷ 32 ∷ 64 ∷ 128 ∷ 256 ∷ 512 ∷ 1024 ∷ 2048 ∷ []

abbrev pub nsizes : ℕ
nsizes = 8

abbrev pub largest_subpage_size : ℕ
largest_subpage_size = 2048

abbrev pub size_of : ℕ → ℕ
size_of blktype = get_or sizes blktype 0

-- The loop of `blocktype`, from size number `i` on; `none` is the panic.
unfoldable pub blocktype_from : ℕ → List ℕ → ℕ → Option ℕ
blocktype_from i [] clientsz = none
blocktype_from i (size ∷ rest) clientsz =
    let later = blocktype_from (i + 1) rest clientsz in if leb clientsz size then some i else later

unfoldable pub blocktype : ℕ → Option ℕ
unfolding blocktype_from
blocktype clientsz = blocktype_from 0 sizes clientsz

-- The loop of `fill_deadbeef`: `n` words from word `i` of the block on.
unfoldable pub fill_deadbeef : ℕ → ℕ → ℕ → (ℕ → ℕ) → ℕ → ℕ
fill_deadbeef zero i ptr words = words
fill_deadbeef (suc n) i ptr words = fill_deadbeef n (i + 1) ptr (put words (ptr + i * 4) 0xdeadbeef)

abbrev pub set_ref : ℕ → Pageref → Cmd Kheap (Unit {0})
set_ref pr r s = ok tt (record s { refs = put s.refs pr r })

-- `freelist_offset` after the first block is taken, where the next one is `fl`; `nfree` is what is
-- left.
unfoldable pub next_offset : ℕ → ℕ → ℕ → Cmd Kheap ℕ
next_offset prpage fl nfree =
    if fl == 0 then (do kassert (nfree == 0); pure invalid_offset) else (do
      kassert (ltb 0 nfree)
      kassert (ltb (u32 (fl + 2 ^ 32 - prpage)) page_size)
      pure (u16 (u32 (fl + 2 ^ 32 - prpage))))

-- The code from `doalloc` on, for the pageref at `pr`: the block.
unfoldable pub doalloc : ℕ → Cmd Kheap ℕ
unfolding next_offset
doalloc pr s =
    let r = s.refs pr in
    let prpage = pr_pageaddr r in
    let retptr = prpage + r.freelist_offset in
    let left = u16 (r.nfree + 65535) in
    (do
      kassert (ltb r.freelist_offset page_size)
      o ← next_offset prpage (s.words retptr) left
      set_ref pr (record r { freelist_offset = o; nfree = left })
      pure retptr)
      s

-- The first loop of `subpage_kmalloc`: the first page of the block type with a free block.
unfoldable pub find_page : ℕ → List ℕ → Cmd Kheap (Option ℕ)
find_page blktype [] = pure none
find_page blktype (pr ∷ rest) = do
  λ s. kassert (pr_blocktype (s.refs pr) == blktype) s
  λ s. if ltb 0 (s.refs pr).nfree then ok (some pr) s else find_page blktype rest s

abbrev pub set_next : ℕ → ℕ → Cmd Kheap (Unit {0})
set_next fl next s = ok tt (record s { words = put s.words fl next })

-- The loop that threads the free list through a new page: `n` rounds from block `i` on; `fl` is the
-- last block so far, and the value is the last one.
unfoldable pub thread_blocks : ℕ → ℕ → ℕ → ℕ → ℕ → Cmd Kheap ℕ
thread_blocks zero i fla size fl = pure fl
thread_blocks (suc n) i fla size fl = do
  set_next (fla + i * size) (fla + (i - 1) * size)
  λ s. kassert (not (fla + i * size == s.words (fla + i * size))) s
  thread_blocks n (i + 1) fla size (fla + i * size)

-- The set-up of the pageref at `pr` for the new page `prpage`.
unfoldable pub new_page : ℕ → ℕ → ℕ → Cmd Kheap (Unit {0})
unfolding thread_blocks
new_page prpage blktype pr s =
    let size = size_of blktype in
    let n = page_size / size in
    (do
      set_next prpage 0
      fl ← thread_blocks (n - 1) 1 prpage size prpage
      kassert (u16 (u32 (fl + 2 ^ 32 - prpage)) == (n - 1) * size)
      set_ref pr (record {
        pageaddr_and_blocktype = mkpab prpage blktype;
        freelist_offset = u16 (u32 (fl + 2 ^ 32 - prpage));
        nfree = u16 n;
      })
      λ s. ok tt (record s {
        sizebases = set s.sizebases blktype (pr ∷ get_or s.sizebases blktype []);
        allbase = pr ∷ s.allbase;
      }))
      s

-- The part of `subpage_kmalloc` after its first loop has found no page.
unfoldable pub grow : ℕ → Cmd Kheap ℕ
unfolding alloc_kpages allocpageref new_page doalloc
grow blktype = do
  prpage ← alloc_kpages 1
  if prpage == 0 then pure 0 else (do
    kassert (prpage % page_size == 0)
    pr ← allocpageref
    if pr == 0 then free_kpages prpage >> pure 0 else (do new_page prpage blktype pr; doalloc pr))

-- `subpage_kmalloc` for a block type
unfoldable pub alloc_block : ℕ → Cmd Kheap ℕ
unfolding find_page doalloc grow
alloc_block blktype s =
    (do
      found ← find_page blktype (get_or s.sizebases blktype [])
      elim found [ some pr ↦ doalloc pr | none ↦ grow blktype ])
      s

-- `subpage_kmalloc`
unfoldable pub subpage_kmalloc : ℕ → Cmd Kheap ℕ
unfolding alloc_block blocktype
subpage_kmalloc sz = elim (blocktype sz) [
  | none ↦ (λ s. panic)
  | some blktype ↦ alloc_block blktype
]

-- One loop of `remove_lists`.
unfoldable pub remove_from : ℕ → List ℕ → List ℕ
remove_from pr [] = []
remove_from pr (guy ∷ rest) =
    let later = remove_from pr rest in if guy == pr then rest else guy ∷ later

-- `remove_lists`
unfoldable pub remove_lists : ℕ → ℕ → Cmd Kheap (Unit {0})
unfolding remove_from
remove_lists pr blktype = do
  kassert (ltb blktype nsizes)
  λ s. ok tt (record s {
    sizebases = set s.sizebases blktype (remove_from pr (get_or s.sizebases blktype []));
    allbase = remove_from pr s.allbase;
  })

-- The first loop of `subpage_kfree`: the page of an address.
unfoldable pub owner : ℕ → List ℕ → Cmd Kheap (Option ℕ)
owner ptraddr [] = pure none
owner ptraddr (pr ∷ rest) = do
  λ s. kassert (ltb (pr_blocktype (s.refs pr)) nsizes) s
  λ s.
      let prpage = pr_pageaddr (s.refs pr) in
      if leb prpage ptraddr && ltb ptraddr (prpage + page_size)
      then ok (some pr) s
      else owner ptraddr rest s

-- The block at `offset` of the page of `pr` goes back to the page's free list.
unfoldable pub push_block : ℕ → ℕ → Cmd Kheap (Unit {0})
unfolding fill_deadbeef
push_block pr offset s =
    let r = s.refs pr in
    let prpage = pr_pageaddr r in
    let size = size_of (pr_blocktype r) in
    let fla = prpage + offset in
    let filled = fill_deadbeef (size / 4) 0 fla s.words in
    let next = if r.freelist_offset == invalid_offset then 0 else prpage + r.freelist_offset in
    (do
      kassert (if r.freelist_offset == invalid_offset then true else not (fla == next))
      λ t. ok tt (record t {
        words = put filled fla next;
        refs = put t.refs pr (record r { freelist_offset = u16 offset; nfree = u16 (r.nfree + 1) });
      }))
      s

-- The page is given back when all of it is free.
unfoldable pub release_page : ℕ → Cmd Kheap (Unit {0})
unfolding remove_lists freepageref
release_page pr s =
    let r = s.refs pr in
    let blktype = pr_blocktype r in
    let n = page_size / size_of blktype in
    (do
      kassert (leb r.nfree n)
      if r.nfree == n
          then (do remove_lists pr blktype; freepageref pr; free_kpages (pr_pageaddr r))
          else pure tt)
      s

-- The rest of `subpage_kfree` for the page found.
unfoldable pub free_block : ℕ → ℕ → Cmd Kheap Bool
unfolding push_block release_page
free_block ptraddr pr s =
    let r = s.refs pr in
    let offset = ptraddr - pr_pageaddr r in
    (do
      kassert (ltb offset page_size && (offset % size_of (pr_blocktype r) == 0))
      push_block pr offset
      release_page pr
      pure true)
      s

-- `subpage_kfree`: `false` is its -1, for an address that is on none of the pages.
unfoldable pub subpage_kfree : ℕ → Cmd Kheap Bool
unfolding owner free_block
subpage_kfree ptraddr s =
    (do
      found ← owner ptraddr s.allbase
      elim found [ none ↦ pure false | some pr ↦ free_block ptraddr pr ])
      s
