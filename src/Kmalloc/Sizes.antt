-- ===== src/Kmalloc/Sizes.antt =====
-- The block sizes of vm/kmalloc.c.
use polito_os161v.Common.{
  ℕ, zero, suc, ◌+◌, ◌*◌, ◌/◌, ◌%◌, ◌≤◌, ◌<◌, ◌≡◌, refl, ◌⊎◌, inl, inr, arith, leb, List, [], ◌∷◌,
  length, get_or, subst, Option, none, some, Bool-cases,
}
use polito_os161v.Kmalloc.Subpage.{blocktype, blocktype_from, sizes, size_of, largest_subpage_size}

-- What a page needs to know of a block size.
pub record IsSize (size : ℕ) : Type 0 where
  pub least : 16 ≤ size
  pub most : size ≤ largest_subpage_size
  pub words : size % 4 ≡ 0
  pub fits : 4096 % size ≡ 0
  pub many : 4096 / size ≤ 256
  pub exact : 4096 / size * size ≡ 4096
  pub some_blocks : 2 ≤ 4096 / size

pub size_of-IsSize : (b : ℕ) → b < 8 → IsSize (size_of b)
size_of-IsSize zero h = omega arith
size_of-IsSize (suc zero) h = omega arith
size_of-IsSize (suc (suc zero)) h = omega arith
size_of-IsSize (suc (suc (suc zero))) h = omega arith
size_of-IsSize (suc (suc (suc (suc zero)))) h = omega arith
size_of-IsSize (suc (suc (suc (suc (suc zero))))) h = omega arith
size_of-IsSize (suc (suc (suc (suc (suc (suc zero)))))) h = omega arith
size_of-IsSize (suc (suc (suc (suc (suc (suc (suc zero))))))) h = omega arith
size_of-IsSize (suc (suc (suc (suc (suc (suc (suc (suc b)))))))) h = absurd (omega arith)

-- The smallest size that a request fits in.
pub record Fits (sz b : ℕ) : Type 0 where
  pub type : b < 8
  pub enough : sz ≤ size_of b
  pub smallest : (c : ℕ) → c < b → size_of c < sz

-- The first of the sizes `xs`, numbered from `i` on, that `sz` fits in.
data Picked (sz i : ℕ) (xs : List ℕ) : Option ℕ → Type 0 where
  pick :
      {b : ℕ} (j : ℕ)
      → j < length xs
      → sz ≤ get_or xs j 0
      → ((c : ℕ) → c < j → get_or xs c 0 < sz)
      → b ≡ i + j
      → Picked sz i xs (some b)
  none_fits : ((c : ℕ) → c < length xs → get_or xs c 0 < sz) → Picked sz i xs none

-- The sizes before the next one are too small, if the first one is.
smaller :
    {sz size : ℕ} (rest : List ℕ) (j : ℕ)
    → size < sz
    → ((c : ℕ) → c < j → get_or rest c 0 < sz)
    → (c : ℕ) → c < suc j
    → get_or (size ∷ rest) c 0 < sz
smaller rest j l h zero lt = l
smaller rest j l h (suc c) lt = h c (omega arith)

Picked-cons :
    {sz i size : ℕ} {rest : List ℕ} {o : Option ℕ}
    → size < sz
    → Picked sz (i + 1) rest o
    → Picked sz i (size ∷ rest) o
Picked-cons l (pick j lt le small e) =
    pick (suc j) (omega arith) le (smaller _ j l small) (omega arith)
Picked-cons l (none_fits h) = none_fits (smaller _ _ l h)

blocktype_from-Picked : (sz i : ℕ) (xs : List ℕ) → Picked sz i xs (blocktype_from i xs sz)
unfolding blocktype_from
blocktype_from-Picked sz i [] = none_fits (λ c h. absurd (omega arith))
blocktype_from-Picked sz i (size ∷ rest) = elim (Bool-cases (leb sz size)) [
  | inl fits ↦
      rw fits (pick 0 (omega arith) (ground arith) (λ c h. absurd (omega arith)) (omega arith))
  | inr over ↦ rw over (Picked-cons (ground arith) (blocktype_from-Picked sz (i + 1) rest))
]

-- blocktype finds the smallest block size that is large enough, for every request of at most
-- 2048 bytes, and panics for a larger one.
pub blocktype_lem :
    (sz : ℕ)
    → ((sz ≤ largest_subpage_size) × ((b : ℕ) × (blocktype sz ≡ some b) × Fits sz b))
      ⊎ ((largest_subpage_size < sz) × (blocktype sz ≡ none))
unfolding blocktype
blocktype_lem sz = go _ (blocktype_from-Picked sz 0 sizes) refl
  where
    go :
        (o : Option ℕ)
        → Picked sz 0 sizes o
        → blocktype sz ≡ o
        → ((sz ≤ largest_subpage_size) × ((b : ℕ) × (blocktype sz ≡ some b) × Fits sz b))
          ⊎ ((largest_subpage_size < sz) × (blocktype sz ≡ none))
    go _ (pick {b} j lt le small e) eq =
        let z : j ≡ b = omega arith in
        let type : b < 8 = omega arith in
        let enough : sz ≤ size_of b = subst (λ x. sz ≤ size_of x) z le in
        inl (
          omega (arith, (size_of-IsSize b type).most),
          (b, eq, record { type = type; enough = enough; smallest = λ c h. small c (omega arith) }),
        )
    go _ (none_fits h) eq = inr (h 7 (omega arith), eq)
