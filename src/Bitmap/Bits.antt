-- ===== src/Bitmap/Bits.antt =====
-- The bits of one `unsigned char` word of lib/bitmap.c, by evaluation over all bytes.
use polito_os161v.Common.{
  ℕ, zero, suc, ◌+◌, ◌-◌, ◌<◌, ◌≡◌, refl, Bool, true, false, ◌&&◌, not, ◌⊎◌, inl, inr, bit_and,
  bit_or, arith, ltb, leb, ◌==◌, if◌then◌else◌, same, same_eq, all_below, all_below_sound, some,
  none, Option,
}
use polito_os161v.Bitmap.{test, mask_of, find_clear, mark_over}

-- A property of every byte and every offset.
all_bits : (ℕ → ℕ → Bool) → Bool
all_bits p = all_below 256 (λ w. all_below 8 (λ o. p w o))

all_bits_sound : (p : ℕ → ℕ → Bool) (w o : ℕ) → all_bits p ≡ true → w < 256 → o < 8 → p w o ≡ true
unfolding all_bits
all_bits_sound p w o h hw ho =
    all_below_sound 8 (p w) o (all_below_sound 256 (λ w. all_below 8 (λ o. p w o)) w h hw) ho

abbrev or_sets : ℕ → ℕ → ℕ → Bool
or_sets w o k = same (test (bit_or w (mask_of o)) k) (if k == o then true else test w k)

abbrev and_clears : ℕ → ℕ → ℕ → Bool
and_clears w o k = same (test (bit_and w (255 - mask_of o)) k) (if k == o then false else test w k)

or_lt_table : all_bits (λ w o. ltb (bit_or w (mask_of o)) 256) ≡ true
unfolding all_bits all_below
or_lt_table = refl

and_lt_table : all_bits (λ w o. ltb (bit_and w (255 - mask_of o)) 256) ≡ true
unfolding all_bits all_below
and_lt_table = refl

or_table : all_bits (λ w o. all_below 8 (or_sets w o)) ≡ true
unfolding all_bits all_below test
or_table = refl

and_table : all_bits (λ w o. all_below 8 (and_clears w o)) ≡ true
unfolding all_bits all_below test
and_table = refl

pub or-lt : (w o : ℕ) → w < 256 → o < 8 → bit_or w (mask_of o) < 256
or-lt w o hw ho =
    ground (arith, all_bits_sound (λ w o. ltb (bit_or w (mask_of o)) 256) w o or_lt_table hw ho)

pub and-lt : (w o : ℕ) → w < 256 → o < 8 → bit_and w (255 - mask_of o) < 256
and-lt w o hw ho =
    ground
      (arith, all_bits_sound (λ w o. ltb (bit_and w (255 - mask_of o)) 256) w o and_lt_table hw ho)

-- `w |= mask` sets the one bit, `w &= ~mask` clears it.
pub test-or :
    (w o k : ℕ)
    → w < 256
    → o < 8
    → k < 8
    → test (bit_or w (mask_of o)) k ≡ (if k == o then true else test w k)
test-or w o k hw ho hk = same_eq _ _ (
    all_below_sound 8 (or_sets w o) k
      (all_bits_sound (λ w o. all_below 8 (or_sets w o)) w o or_table hw ho) hk)

pub test-and :
    (w o k : ℕ)
    → w < 256
    → o < 8
    → k < 8
    → test (bit_and w (255 - mask_of o)) k ≡ (if k == o then false else test w k)
test-and w o k hw ho hk = same_eq _ _ (
    all_below_sound 8 (and_clears w o) k
      (all_bits_sound (λ w o. all_below 8 (and_clears w o)) w o and_table hw ho) hk)

-- What the search of one word from `offset` on can find.
pub data Found (w : ℕ) (bound : ℕ) : Option ℕ → Type 0 where
  missed : ((k : ℕ) → k < bound → test w k ≡ true) → Found w bound none
  first :
      (o : ℕ)
      → o < bound
      → test w o ≡ false
      → ((k : ℕ) → k < o → test w k ≡ true)
      → Found w bound (some o)

test_cases :
    (w o : ℕ)
    → ((bit_and w (mask_of o) == 0) ≡ true) × (test w o ≡ false)
      ⊎ ((bit_and w (mask_of o) == 0) ≡ false) × (test w o ≡ true)
unfolding test
test_cases w o = ground arith

extend :
    (w o : ℕ)
    → ((k : ℕ) → k < o → test w k ≡ true)
    → test w o ≡ true
    → (k : ℕ) → k < o + 1
    → test w k ≡ true
extend w o h t k hk = elim (le_cases k o hk) [ inl l ↦ h k l | inr e ↦ rw e t ]
  where
    le_cases : (k o : ℕ) → k < o + 1 → (k < o) ⊎ (k ≡ o)
    le_cases k o l = grind arith

find_clear_from :
    (n offset w : ℕ)
    → ((k : ℕ) → k < offset → test w k ≡ true)
    → (bound : ℕ) → offset + n ≡ bound
    → Found w bound (find_clear n offset w)
unfolding find_clear
find_clear_from zero offset w h bound e = missed (λ k hk. h k (omega arith))
find_clear_from (suc n) offset w h bound e = elim (test_cases w offset) [
  | inl (z, t) ↦ rw z (first offset (omega arith) t h)
  | inr (z, t) ↦ rw z (find_clear_from n (offset + 1) w (extend w offset h t) bound (omega arith))
]

-- The search of a whole word finds its lowest clear bit, if it has one.
pub find_clear-Found : (w : ℕ) → Found w 8 (find_clear 8 0 w)
find_clear-Found w = find_clear_from 8 0 w (λ k hk. absurd (omega arith)) 8 refl

full_table : all_bits (λ w o. if w == 255 then test w o else not (all_below 8 (test w))) ≡ true
unfolding all_bits all_below test
full_table = refl

pub test_full : (k : ℕ) → k < 8 → test 255 k ≡ true
test_full k hk =
    all_bits_sound (λ w o. if w == 255 then test w o else not (all_below 8 (test w))) 255 k
      full_table (omega arith) hk

all_below_complete : (n : ℕ) (p : ℕ → Bool) → ((k : ℕ) → k < n → p k ≡ true) → all_below n p ≡ true
unfolding all_below
all_below_complete zero p h = refl
all_below_complete (suc n) p h =
    rw (h n (omega arith)) (all_below_complete n p (λ k hk. h k (omega arith)))

-- A word with every bit set is WORD_ALLBITS.
pub full_of_test : (w : ℕ) → w < 256 → ((k : ℕ) → k < 8 → test w k ≡ true) → (w == 255) ≡ true
full_of_test w hw h = ground (
  arith,
  all_bits_sound (λ w o. if w == 255 then test w o else not (all_below 8 (test w))) w 0 full_table
      hw (omega arith),
  all_below_complete 8 (test w) h,
)

over_table :
    all_bits (λ o k.
      if ltb o 8
      then (same (test (mark_over (8 - o) o 0) k) (leb o k) && ltb (mark_over (8 - o) o 0) 256)
      else true)
    ≡ true
unfolding all_bits all_below test mark_over
over_table = refl

-- The leftover bits of the last word, and no others, are set.
pub test-mark_over :
    (o k : ℕ)
    → o < 8
    → k < 8
    → (test (mark_over (8 - o) o 0) k ≡ leb o k) × (mark_over (8 - o) o 0 < 256)
test-mark_over o k ho hk = ground (
  arith,
  all_bits_sound
      (λ o k.
        if ltb o 8
        then (same (test (mark_over (8 - o) o 0) k) (leb o k) && ltb (mark_over (8 - o) o 0) 256)
        else true)
      o k over_table (omega arith) hk,
)

pub test-zero : (k : ℕ) → k < 8 → test 0 k ≡ false
unfolding all_bits all_below test
test-zero k hk =
    ground (arith, all_bits_sound (λ w k. not (test 0 k)) 0 k zero_table (omega arith) hk)
  where
    zero_table : all_bits (λ w k. not (test 0 k)) ≡ true
    zero_table = refl
