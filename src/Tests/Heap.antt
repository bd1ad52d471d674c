-- ===== src/Tests/Heap.antt =====
-- The kernel heap with one page, and a new page.
use polito_os161v.Common.{
  ℕ, zero, suc, ◌+◌, ◌/◌, ◌≡◌, inl, inr, refl, sym, ◌∙◌, arith, List, [], ◌∷◌, get_or, set, ok,
  true, IsIn,
}
use polito_os161v.Kernel.{put}
use polito_os161v.Kmalloc.Pagerefs.{Kheap, pr_pageaddr, pr_blocktype}
use polito_os161v.Kmalloc.Subpage.{size_of, alloc_block, subpage_kfree, new_page}
use polito_os161v.Kmalloc.Page.{IsPage}
use polito_os161v.Kmalloc.Heap.{IsValid, Allocated, alloc_block-Allocated}
use polito_os161v.Kmalloc.Free.{subpage_kfree_lem}
use polito_os161v.Kmalloc.NewPage.{down, new_page-IsPage}

-- A page of blocks of 1024 bytes, of which the first is free, with its pageref at 500.
abbrev page : ℕ
page = 0x80010000

abbrev heap : Kheap
heap = record {
  words = λ a. 0;
  refs = λ p. record { pageaddr_and_blocktype = 0x80010006; freelist_offset = 0; nfree = 1 };
  roots = [];
  sizebases = [] ∷ [] ∷ [] ∷ [] ∷ [] ∷ [] ∷ (500 ∷ []) ∷ [] ∷ [];
  allbase = 500 ∷ [];
  ram = record { firstpaddr = 0x20000; lastpaddr = 0x400000; mem = λ a. 0 };
}

abbrev free_blocks : ℕ → List ℕ
free_blocks p = 0 ∷ []

abbrev used_blocks : ℕ → List ℕ
used_blocks p = 1024 ∷ 2048 ∷ 3072 ∷ []

in_heap : (p : ℕ) → IsIn p heap.allbase → p ≡ 500
in_heap p (inl e) = e
in_heap p (inr h) = absurd h

heap_bases :
    (b p : ℕ)
    → IsIn p (get_or heap.sizebases b [])
    → IsIn p heap.allbase × (pr_blocktype (heap.refs p) ≡ b)
heap_bases zero p h = absurd h
heap_bases (suc zero) p h = absurd h
heap_bases (suc (suc zero)) p h = absurd h
heap_bases (suc (suc (suc zero))) p h = absurd h
heap_bases (suc (suc (suc (suc zero)))) p h = absurd h
heap_bases (suc (suc (suc (suc (suc zero))))) p h = absurd h
heap_bases (suc (suc (suc (suc (suc (suc zero)))))) p h = (h, refl)
heap_bases (suc (suc (suc (suc (suc (suc (suc zero))))))) p h = absurd h
heap_bases (suc (suc (suc (suc (suc (suc (suc (suc b)))))))) p h = absurd h

heap-IsValid : IsValid heap free_blocks used_blocks
heap-IsValid = record {
  pages = λ p h. record {
    type = omega arith;
    above = omega arith;
    below = omega arith;
    offset = refl;
    count = refl;
    links = (refl, tt);
    blocks = omega arith;
    distinct = omega arith;
    full = refl;
  };
  apart = λ p q h k ne. absurd (ne (in_heap p h ∙ sym (in_heap q k)));
  bases = heap_bases;
}

alloc_block-Allocated_example : Allocated heap free_blocks used_blocks 6 (alloc_block 6 heap)
alloc_block-Allocated_example = alloc_block-Allocated heap-IsValid 6 500 (inl refl) (λ e. cc)

subpage_kfree_lem_example :
    (s' : Kheap) × (subpage_kfree (page + 2048) heap ≡ ok true s')
    × IsValid s' (put free_blocks 500 (2048 ∷ 0 ∷ [])) (put used_blocks 500 (1024 ∷ 3072 ∷ []))
    × (s'.allbase ≡ heap.allbase)
    × (s'.sizebases ≡ heap.sizebases)
subpage_kfree_lem_example =
    subpage_kfree_lem heap-IsValid 500 2048 (1024 ∷ []) (3072 ∷ []) (inl refl) refl (omega arith)

new_page-IsPage_example :
    (s' : Kheap) × (new_page page 3 516 heap ≡ ok tt s')
    × IsPage s'.words (s'.refs 516) (down (size_of 3) (4096 / size_of 3)) []
    × (pr_pageaddr (s'.refs 516) ≡ page)
    × (pr_blocktype (s'.refs 516) ≡ 3)
    × (s'.allbase ≡ 516 ∷ heap.allbase)
    × (s'.sizebases ≡ set heap.sizebases 3 (516 ∷ get_or heap.sizebases 3 []))
new_page-IsPage_example =
    new_page-IsPage page 3 516 heap (omega arith) refl (omega arith) (omega arith)
