-- ===== src/Kmalloc/Page.antt =====
-- A page of the subpage allocator: its blocks are on the free list inside it, or in use.
use mathlib.Core.List.{append_assoc}
use native.Mathlib.Decide.{dec_lt}
use native.Mathlib.Nat.{div-add-mod}
use polito_os161v.Common.{
  ℕ, zero, suc, ◌+◌, ◌*◌, ◌/◌, ◌^◌, ◌%◌, ◌≤◌, ◌<◌, ◌≡◌, ◌≢◌, refl, sym, subst, ap, ◌∙◌, ◌⊎◌, inl,
  inr, arith, List, [], ◌∷◌, ◌++◌, length, length-append, NotIn, Distinct, Distinct-insert,
  Distinct-remove, Distinct-NotIn,
}
use polito_os161v.Kernel.{put, put_self, put_ne}
use polito_os161v.Kmalloc.Pagerefs.{Pageref, pr_pageaddr, pr_blocktype, invalid_offset}
use polito_os161v.Kmalloc.Subpage.{size_of, fill_deadbeef}
use polito_os161v.Kmalloc.Sizes.{IsSize, size_of-IsSize}

-- The free list of the page at `page` runs through the blocks at the offsets in the list.
abbrev pub link : ℕ → List ℕ → ℕ
link page [] = 0
link page (o ∷ rest) = page + o

abbrev pub Links : (ℕ → ℕ) → ℕ → List ℕ → Type 0
Links words page [] = Unit {0}
Links words page (o ∷ rest) = (words (page + o) ≡ link page rest) × Links words page rest

-- The offset of the first free block.
abbrev pub head_offset : List ℕ → ℕ
head_offset [] = invalid_offset
head_offset (o ∷ rest) = o

-- The offsets are those of blocks.
abbrev pub Blocks : ℕ → List ℕ → Type 0
Blocks size [] = Unit {0}
Blocks size (o ∷ rest) = (o < 4096) × (o % size ≡ 0) × Blocks size rest

-- The page of the pageref `r`: the blocks at `free` are on its free list, in this order, the blocks
-- at `used` are not, and there are no others.
pub record IsPage (words : ℕ → ℕ) (r : Pageref) (free used : List ℕ) : Type 0 where
  pub type : pr_blocktype r < 8
  pub above : 4096 ≤ pr_pageaddr r
  pub below : pr_pageaddr r + 4096 ≤ 2 ^ 32
  pub offset : r.freelist_offset ≡ head_offset free
  pub count : r.nfree ≡ length free
  pub links : Links words (pr_pageaddr r) free
  pub blocks : Blocks (size_of (pr_blocktype r)) (free ++ used)
  pub distinct : Distinct (free ++ used)
  pub full : length free + length used ≡ 4096 / size_of (pr_blocktype r)

-- `freelist_offset` and `nfree` after a change.
abbrev pub with_free : Pageref → ℕ → ℕ → Pageref
with_free r o n = record r { freelist_offset = o; nfree = n }

-- Words outside the page do not matter to it.
Links-frame :
    (words words' : ℕ → ℕ) (page size : ℕ) (free used : List ℕ)
    → ((o : ℕ) → o < 4096 → words' (page + o) ≡ words (page + o))
    → Blocks size (free ++ used)
    → Links words page free
    → Links words' page free
Links-frame words words' page size [] used e b l = tt
Links-frame words words' page size (o ∷ free) used e b l =
    (e o b.0 ∙ l.0, Links-frame words words' page size free used e b.2 l.1)

pub frame-IsPage :
    {words : ℕ → ℕ} (words' : ℕ → ℕ) {r : Pageref} {free used : List ℕ}
    → ((o : ℕ) → o < 4096 → words' (pr_pageaddr r + o) ≡ words (pr_pageaddr r + o))
    → IsPage words r free used
    → IsPage words' r free used
frame-IsPage {words} words' {r} {free} {used} e v = record {
  type = v.type;
  above = v.above;
  below = v.below;
  offset = v.offset;
  count = v.count;
  links = Links-frame words words' (pr_pageaddr r) _ free used e v.blocks v.links;
  blocks = v.blocks;
  distinct = v.distinct;
  full = v.full;
}

Blocks-insert :
    (size o : ℕ) (xs ys : List ℕ)
    → o < 4096
    → o % size ≡ 0
    → Blocks size (xs ++ ys)
    → Blocks size (xs ++ o ∷ ys)
Blocks-insert size o [] ys l m b = (l, m, b)
Blocks-insert size o (x ∷ xs) ys l m b = (b.0, b.1, Blocks-insert size o xs ys l m b.2)

Blocks-remove :
    (size o : ℕ) (xs ys : List ℕ)
    → Blocks size (xs ++ o ∷ ys)
    → (o < 4096) × (o % size ≡ 0) × Blocks size (xs ++ ys)
Blocks-remove size o [] ys b = b
Blocks-remove size o (x ∷ xs) ys b =
    let (l, m, rest) = Blocks-remove size o xs ys b.2 in (l, m, (b.0, b.1, rest))

-- The first free block is taken.
pub taken-IsPage :
    {words : ℕ → ℕ} {r : Pageref} (o : ℕ) (free used : List ℕ)
    → IsPage words r (o ∷ free) used
    → IsPage words (with_free r (head_offset free) (length free)) free (o ∷ used)
taken-IsPage {words} {r} o free used v = record {
  type = v.type;
  above = v.above;
  below = v.below;
  offset = refl;
  count = refl;
  links = v.links.1;
  blocks = Blocks-insert _ o free used v.blocks.0 v.blocks.1 v.blocks.2;
  distinct = Distinct-insert o free used v.distinct.0 v.distinct.1;
  full = omega (arith, v.full);
}

multiple_apart :
    (size o o' : ℕ) → o % size ≡ 0 → o' % size ≡ 0 → o / size < o' / size → o + size ≤ o'
multiple_apart size o o' m m' l = grind (arith, div-add-mod o size, div-add-mod o' size)

-- Two blocks of one size do not overlap.
pub blocks_apart :
    (size o o' : ℕ)
    → 0 < size
    → o % size ≡ 0
    → o' % size ≡ 0
    → o ≢ o'
    → (o + size ≤ o') ⊎ (o' + size ≤ o)
blocks_apart size o o' s0 m m' ne = elim (dec_lt (o / size) (o' / size)) [
  | yes l ↦ inl (multiple_apart size o o' m m' l)
  | no g ↦ inr (multiple_apart size o' o m' m (omega (arith, differ)))
]
  where
    whole : (x : ℕ) → x % size ≡ 0 → size * (x / size) ≡ x
    whole x e = omega (arith, div-add-mod x size)

    differ : o / size ≢ o' / size
    differ e = ne (sym (whole o m) ∙ ap (λ q. size * q) e ∙ whole o' m')

-- `fill_deadbeef` writes within its block.
fill_outside :
    (n i ptr : ℕ) (words : ℕ → ℕ) (x : ℕ)
    → (x < ptr + i * 4) ⊎ (ptr + (i + n) * 4 ≤ x)
    → fill_deadbeef n i ptr words x ≡ words x
unfolding fill_deadbeef
fill_outside zero i ptr words x h = refl
fill_outside (suc n) i ptr words x (inl h) =
    fill_outside n (i + 1) ptr _ x (inl (omega arith))
    ∙ put_ne words (ptr + i * 4) _ x (omega arith)
fill_outside (suc n) i ptr words x (inr h) =
    fill_outside n (i + 1) ptr _ x (inr (omega arith))
    ∙ put_ne words (ptr + i * 4) _ x (omega arith)

NotIn-prefix : (x : ℕ) (xs ys : List ℕ) → NotIn x (xs ++ ys) → NotIn x xs
NotIn-prefix x [] ys n = tt
NotIn-prefix x (z ∷ xs) ys n = (n.0, NotIn-prefix x xs ys n.1)

Links-apart :
    (words words' : ℕ → ℕ) (page size o : ℕ) (free used : List ℕ)
    → ((x : ℕ) → x < 4096 → x % size ≡ 0 → o ≢ x → words' (page + x) ≡ words (page + x))
    → NotIn o free
    → Blocks size (free ++ used)
    → Links words page free
    → Links words' page free
Links-apart words words' page size o [] used e n b l = tt
Links-apart words words' page size o (x ∷ free) used e n b l =
    (e x b.0 b.1 n.0 ∙ l.0, Links-apart words words' page size o free used e n.1 b.2 l.1)

-- The words after the block at `o` is filled and put in front of the free list.
abbrev pub given_words : (ℕ → ℕ) → Pageref → ℕ → List ℕ → ℕ → ℕ
given_words words r o free =
    put (fill_deadbeef (size_of (pr_blocktype r) / 4) 0 (pr_pageaddr r + o) words)
      (pr_pageaddr r + o) (link (pr_pageaddr r) free)

-- They are as they were outside the block.
pub given_outside :
    (words : ℕ → ℕ) (r : Pageref) (o : ℕ) (free : List ℕ) (x : ℕ)
    → IsSize (size_of (pr_blocktype r))
    → (x < pr_pageaddr r + o) ⊎ (pr_pageaddr r + o + size_of (pr_blocktype r) ≤ x)
    → given_words words r o free x ≡ words x
given_outside words r o free x z (inl h) =
    put_ne _ (pr_pageaddr r + o) _ x (omega arith)
    ∙ fill_outside _ 0 (pr_pageaddr r + o) words x (inl (omega arith))
given_outside words r o free x z (inr h) =
    put_ne _ (pr_pageaddr r + o) _ x (omega (arith, z.least))
    ∙ fill_outside _ 0 (pr_pageaddr r + o) words x (inr (omega (arith, z.words)))

outside_block :
    (page size o x : ℕ)
    → 0 < size
    → (o + size ≤ x) ⊎ (x + size ≤ o)
    → (page + x < page + o) ⊎ (page + o + size ≤ page + x)
outside_block page size o x s0 (inl h) = inr (omega arith)
outside_block page size o x s0 (inr h) = inl (omega arith)

-- The block at `o`, which was in use, is given back.
module _ {words : ℕ → ℕ} {r : Pageref} (o : ℕ) (free pre post : List ℕ)
    (v : IsPage words r free (pre ++ o ∷ post)) where
  joined : free ++ (pre ++ o ∷ post) ≡ (free ++ pre) ++ o ∷ post
  joined = sym (append_assoc free pre (o ∷ post))

  rejoined : (free ++ pre) ++ post ≡ free ++ (pre ++ post)
  rejoined = append_assoc free pre post

  pub given_block : (o < 4096) × (o % size_of (pr_blocktype r) ≡ 0)
  given_block =
      let b = Blocks-remove _ o (free ++ pre) post (subst (Blocks _) joined v.blocks) in (b.0, b.1)

  pub given_apart : NotIn o free
  given_apart = NotIn-prefix o free (pre ++ post) (
      subst (NotIn o) rejoined
        (Distinct-NotIn o (free ++ pre) post (subst Distinct joined v.distinct)))

  pub given-IsPage :
      IsPage
        (given_words words r o free)
        (with_free r o (suc (length free)))
        (o ∷ free)
        (pre ++ post)
  given-IsPage =
      let z = size_of-IsSize _ v.type in
      let b = Blocks-remove _ o (free ++ pre) post (subst (Blocks _) joined v.blocks) in
      let d = subst Distinct joined v.distinct in
      record {
        type = v.type;
        above = v.above;
        below = v.below;
        offset = refl;
        count = refl;
        links = (
          put_self _ (pr_pageaddr r + o) _,
          Links-apart words (given_words words r o free) (pr_pageaddr r) (size_of (pr_blocktype r))
              o free (pre ++ o ∷ post)
              (λ x l m ne. given_outside words r o free (pr_pageaddr r + x) z (
                outside_block (pr_pageaddr r) _ o x (omega (arith, z.least))
                  (blocks_apart _ o x (omega (arith, z.least)) b.1 m ne)))
              given_apart v.blocks v.links,
        );
        blocks = (b.0, b.1, subst (Blocks _) rejoined b.2);
        distinct = (
          subst (NotIn o) rejoined (Distinct-NotIn o (free ++ pre) post d),
          subst Distinct rejoined (Distinct-remove o (free ++ pre) post d),
        );
        full = omega (arith, v.full, length-append {0} pre (o ∷ post), length-append {0} pre post);
      }
