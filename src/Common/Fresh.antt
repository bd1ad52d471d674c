-- ===== src/Common/Fresh.antt =====
-- Lists of numbers without repetition.
use Prim.Native.Nat.{ℕ}
use mathlib.Core.Path.{◌≡◌, sym}
use mathlib.Core.Logic.{◌≢◌, ◌⊎◌}
use mathlib.Core.List.{List, [], ◌∷◌, ◌++◌}

abbrev pub NotIn : ℕ → List ℕ → Type 0
NotIn x [] = Unit {0}
NotIn x (y ∷ ys) = (x ≢ y) × NotIn x ys

abbrev pub Distinct : List ℕ → Type 0
Distinct [] = Unit {0}
Distinct (x ∷ xs) = NotIn x xs × Distinct xs

module _ (x y : ℕ) where
  pub NotIn-insert : (xs ys : List ℕ) → x ≢ y → NotIn x (xs ++ ys) → NotIn x (xs ++ y ∷ ys)
  NotIn-insert [] ys ne h = (ne, h)
  NotIn-insert (z ∷ xs) ys ne h = (h.0, NotIn-insert xs ys ne h.1)

  pub NotIn-remove : (xs ys : List ℕ) → NotIn x (xs ++ y ∷ ys) → NotIn x (xs ++ ys)
  NotIn-remove [] ys h = h.1
  NotIn-remove (z ∷ xs) ys h = (h.0, NotIn-remove xs ys h.1)

  pub ne_of_NotIn : (xs ys : List ℕ) → NotIn x (xs ++ y ∷ ys) → x ≢ y
  ne_of_NotIn [] ys h = h.0
  ne_of_NotIn (z ∷ xs) ys h = ne_of_NotIn xs ys h.1

module _ (t : ℕ) where
  pub Distinct-insert :
      (xs ys : List ℕ) → NotIn t (xs ++ ys) → Distinct (xs ++ ys) → Distinct (xs ++ t ∷ ys)
  Distinct-insert [] ys n d = (n, d)
  Distinct-insert (x ∷ xs) ys n d =
      (NotIn-insert x t xs ys (λ e. n.0 (sym e)) d.0, Distinct-insert xs ys n.1 d.1)

  pub Distinct-remove : (xs ys : List ℕ) → Distinct (xs ++ t ∷ ys) → Distinct (xs ++ ys)
  Distinct-remove [] ys d = d.1
  Distinct-remove (x ∷ xs) ys d = (NotIn-remove x t xs ys d.0, Distinct-remove xs ys d.1)

  -- What was removed from the middle is not in the rest.
  pub Distinct-NotIn : (xs ys : List ℕ) → Distinct (xs ++ t ∷ ys) → NotIn t (xs ++ ys)
  Distinct-NotIn [] ys d = d.0
  Distinct-NotIn (x ∷ xs) ys d =
      ((λ e. ne_of_NotIn x t xs ys d.0 (sym e)), Distinct-NotIn xs ys d.1)

abbrev pub IsIn : ℕ → List ℕ → Type 0
IsIn x [] = ⊥
IsIn x (y ∷ ys) = (x ≡ y) ⊎ IsIn x ys
