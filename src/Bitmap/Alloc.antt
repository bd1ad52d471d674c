-- ===== src/Bitmap/Alloc.antt =====
-- bitmap_alloc of lib/bitmap.c takes the lowest clear bit.
use native.Mathlib.Decide.{dec_lt}
use polito_os161v.Common.{
  ℕ, zero, suc, ◌+◌, ◌-◌, ◌*◌, ◌/◌, ◌%◌, ◌<◌, ◌≡◌, true, false, inl, inr, arith, Option, none, some,
  ◌==◌, length, get_or, get_elem?-eq-get_or, Bool-cases, Res, good, fail, Run, ok, enospc, bit_or,
  ==_iff, sym, ◌∙◌, lt→ltb, u32, set,
}
use polito_os161v.Bitmap.{Bitmap, test, mask_of, words, alloc, alloc_from, take_bit, isset}
use polito_os161v.Bitmap.Bits.{Found, missed, first, find_clear-Found, test_full, full_of_test}
use polito_os161v.Bitmap.Laws.{IsValid, IsUpdate, or-IsUpdate}

-- The two ways in which an allocation may return.
pub data Allocated (b : Bitmap) : Run Bitmap (Res ℕ) → Type 0 where
  found :
      {i : ℕ} {b' : Bitmap}
      → i < b.nbits
      → isset b i ≡ false
      → ((j : ℕ) → j < i → isset b j ≡ true)
      → IsUpdate b i true b'
      → Allocated b (ok (good i) b')
  no_space : ((j : ℕ) → j < b.nbits → isset b j ≡ true) → Allocated b (ok (fail enospc) b)

module _ {b : Bitmap} (valid : IsValid b) (ix : ℕ) (inside : ix < length b.v)
    (before : (j : ℕ) → j < ix * 8 → isset b j ≡ true) where
  -- The bits of the word at `ix`.
  isset_word : (o : ℕ) → o < 8 → isset b (ix * 8 + o) ≡ test (get_or b.v ix 0) o
  unfolding isset
  isset_word o h =
      let e : (ix * 8 + o) / 8 ≡ ix = omega arith in
      let e' : (ix * 8 + o) % 8 ≡ o = omega arith in rw (e, e')

  -- The bits before a clear bit of the word are set, if those before it in the word are.
  before_word :
      (o : ℕ)
      → o < 9
      → ((k : ℕ) → k < o → test (get_or b.v ix 0) k ≡ true)
      → (j : ℕ) → j < ix * 8 + o
      → isset b j ≡ true
  before_word o ho h j hj = elim (dec_lt j (ix * 8)) [
    | yes p ↦ before j p
    | no p ↦
        let e : ix * 8 + (j - ix * 8) ≡ j = omega arith in
        rw (← e, isset_word (j - ix * 8) (omega arith)) (h (j - ix * 8) (omega arith))
  ]

  -- A clear bit is no leftover bit, so its number is below `nbits`.
  clear_in_range : (o : ℕ) → o < 8 → isset b (ix * 8 + o) ≡ false → ix * 8 + o < b.nbits
  clear_in_range o ho clear = elim (dec_lt (ix * 8 + o) b.nbits) [
    | yes p ↦ p
    | no p ↦ cc (sym clear ∙ valid.rest (ix * 8 + o) (omega arith) (omega arith))
  ]

  take-IsUpdate :
      (o : ℕ)
      → o < 8
      → ix * 8 + o < b.nbits
      → IsUpdate b
          (ix * 8 + o)
          true
          (record b { v = set b.v ix (bit_or (get_or b.v ix 0) (mask_of o)) })
  take-IsUpdate o ho l =
      let e : (ix * 8 + o) / 8 ≡ ix = omega arith in
      let e' : (ix * 8 + o) % 8 ≡ o = omega arith in
      rw (e, e') at (or-IsUpdate valid (ix * 8 + o) l)

  take_bit-Allocated :
      (r : Option ℕ)
      → Found (get_or b.v ix 0) 8 r
      → (get_or b.v ix 0 == 255) ≡ false
      → Allocated b (take_bit b ix (get_or b.v ix 0) r)
  unfolding take_bit
  take_bit-Allocated none (missed all) ne = cc (full_of_test (get_or b.v ix 0) (valid.bytes ix) all)
  take_bit-Allocated (some o) (first _ ho clear low) ne =
      let clear' : isset b (ix * 8 + o) ≡ false = rw (isset_word o ho) clear in
      let l : ix * 8 + o < b.nbits = clear_in_range o ho clear' in
      let e : u32 (ix * 8 + o) ≡ ix * 8 + o = omega (arith, valid.small) in
      rw (e, lt→ltb _ _ l) (found l clear' (before_word o (omega arith) low) (take-IsUpdate o ho l))

alloc_from-Allocated :
    (n ix : ℕ) {b : Bitmap}
    → IsValid b
    → ix + n ≡ length b.v
    → ((j : ℕ) → j < ix * 8 → isset b j ≡ true)
    → Allocated b (alloc_from n ix b)
unfolding alloc_from
alloc_from-Allocated zero ix {b} valid e before =
    no_space (λ j hj. before j (omega (arith, valid.size)))
alloc_from-Allocated (suc n) ix {b} valid e before =
    let l : ix < length b.v = omega arith in
    rw (get_elem?-eq-get_or b.v ix 0 l, alloc_from)
      (elim (Bool-cases (get_or b.v ix 0 == 255)) [
        | inl full ↦ rw full (
            alloc_from-Allocated n (ix + 1) valid (omega arith) (λ j hj.
              before_word valid ix l before 8 (omega arith)
                (λ k hk. rw ((==_iff _ _).0 full) (test_full k hk)) j (omega arith)))
        | inr ne ↦
            rw ne (take_bit-Allocated valid ix l before _ (find_clear-Found (get_or b.v ix 0)) ne)
      ])

-- bitmap_alloc on a valid bitmap does not panic: it returns the lowest clear bit, set in the new
-- bitmap with every other bit as it was, or ENOSPC, with the bitmap unchanged, if every bit is set.
pub alloc-Allocated : {b : Bitmap} → IsValid b → Allocated b (alloc b)
unfolding alloc
alloc-Allocated {b} valid =
    let e : words b.nbits ≡ length b.v = omega (arith, valid.small, valid.size) in
    rw e (alloc_from-Allocated (length b.v) 0 valid (omega arith) (λ j hj. absurd (omega arith)))
