-- ===== src/Tests/Memory.antt =====
-- Bitmaps, physical memory, address spaces and page faults at concrete inputs.
use polito_os161v.Common.{
  ℕ, zero, suc, ◌<◌, refl, arith, true, [], ◌∷◌, all_below, ltb, if◌then◌else◌, all_below_sound,
  get_or,
}
use polito_os161v.Bitmap.{Bitmap, alloc, isset}
use polito_os161v.Bitmap.Laws.{IsValid}
use polito_os161v.Bitmap.Alloc.{Allocated, alloc-Allocated}

-- Ten bits, of which bit 0 is set, and the six bits past the end.
abbrev ten : Bitmap
ten = record { nbits = 10; v = 1 ∷ 252 ∷ [] }

ten-IsValid : IsValid ten
unfolding isset all_below
ten-IsValid = record {
  small = omega arith;
  size = refl;
  bytes = bytes;
  rest = λ i h l.
      let e = all_below_sound 16 (λ j. if ltb j 10 then true else isset ten j) i refl l in
      ground (arith);
}
  where
    bytes : (i : ℕ) → get_or (1 ∷ 252 ∷ []) i 0 < 256
    bytes zero = omega arith
    bytes (suc zero) = omega arith
    bytes (suc (suc i)) = omega arith

alloc-Allocated_example : Allocated ten (alloc ten)
alloc-Allocated_example = alloc-Allocated ten-IsValid
