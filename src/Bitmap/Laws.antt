-- ===== src/Bitmap/Laws.antt =====
-- The invariant of a bitmap of lib/bitmap.c, and what mark and unmark do to its bits.
use native.Mathlib.Decide.{ℕ_discrete}
use polito_os161v.Common.{
  ℕ, ◌+◌, ◌-◌, ◌*◌, ◌/◌, ◌%◌, ◌<◌, ◌≤◌, ◌^◌, ◌≡◌, ◌≢◌, refl, Bool, true, false, bit_and, bit_or,
  arith, ◌==◌, if◌then◌else◌, List, length, get_or, set, length-set, get_or-set_self, get_or-set_ne,
  ok, set_cases, inl, inr,
}
use polito_os161v.Bitmap.{Bitmap, test, mask_of, mark, unmark, isset, word_allbits, bits_per_word}
use polito_os161v.Bitmap.Bits.{or-lt, and-lt, test-or, test-and}

-- Every word is a byte, there is a word for each bit, and the bits past the end are in use.
pub record IsValid (b : Bitmap) : Type 0 where
  pub small : b.nbits + 7 < 2 ^ 32
  pub size : length b.v ≡ (b.nbits + 7) / 8
  pub bytes : (i : ℕ) → get_or b.v i 0 < 256
  pub rest : (i : ℕ) → b.nbits ≤ i → i < 8 * length b.v → isset b i ≡ true

-- A byte written into a list of bytes leaves a list of bytes.
pub set-bytes :
    (v : List ℕ) (ix w : ℕ)
    → ((i : ℕ) → get_or v i 0 < 256)
    → w < 256
    → (i : ℕ) → get_or (set v ix w) i 0 < 256
set-bytes v ix w h hw i = elim (ℕ_discrete ix i) [
  | yes e ↦ elim (set_cases v ix w) [
    | inl l ↦ rw (← e, get_or-set_self v ix w 0 l) hw
    | inr g ↦ rw g (h i)
  ]
  | no ne ↦ rw (get_or-set_ne v ix i w 0 ne) (h i)
]

-- Two bit numbers with one word and one offset are one.
same_bit : (i j : ℕ) → i / 8 ≡ j / 8 → (j % 8 == i % 8) ≡ (j == i)
same_bit i j e = ground arith

other_bit : (i j : ℕ) → i / 8 ≢ j / 8 → (j == i) ≡ false
other_bit i j e = ground arith

-- What is read at bit `j` after the word of bit `i` was replaced by `w`.
test-set :
    (v : List ℕ) (i j w : ℕ) (c : Bool)
    → i / 8 < length v
    → ((k : ℕ) → k < 8 → test w k ≡ (if k == i % 8 then c else test (get_or v (i / 8) 0) k))
    → test (get_or (set v (i / 8) w) (j / 8) 0) (j % 8)
      ≡ (if j == i then c else test (get_or v (j / 8) 0) (j % 8))
test-set v i j w c l h = elim (ℕ_discrete (i / 8) (j / 8)) [
  | yes e ↦ rw (← e, get_or-set_self v (i / 8) w 0 l, ← same_bit i j e) (h (j % 8) (omega arith))
  | no ne ↦ rw (get_or-set_ne v (i / 8) (j / 8) w 0 ne, other_bit i j ne) refl
]

-- The bitmap whose word of bit `i` is replaced by `w`.
abbrev pub write_word : Bitmap → ℕ → ℕ → Bitmap
write_word b i w = record b { v = set b.v (i / bits_per_word) w }

-- A byte that differs from the old word in bit `i` alone.
pub record IsFlip (b : Bitmap) (i w : ℕ) (c : Bool) : Type 0 where
  pub byte : w < 256
  pub bits : (k : ℕ) → k < 8 → test w k ≡ (if k == i % 8 then c else test (get_or b.v (i / 8) 0) k)

module _ {b : Bitmap} (valid : IsValid b) (i : ℕ) (h : i < b.nbits) where
  pub isset-write_word :
      (w : ℕ) (c : Bool)
      → IsFlip b i w c
      → (j : ℕ) → isset (write_word b i w) j ≡ (if j == i then c else isset b j)
  unfolding isset
  isset-write_word w c f j = test-set b.v i j w c (omega (arith, valid.size)) f.bits

  pub write_word-IsValid : (w : ℕ) (c : Bool) → IsFlip b i w c → IsValid (write_word b i w)
  write_word-IsValid w c f = record {
    small = valid.small;
    size = rw (length-set b.v (i / 8) w) valid.size;
    bytes = set-bytes b.v (i / 8) w valid.bytes f.byte;
    rest = λ j hj lj.
        rw (isset-write_word w c f j) (ground (arith, valid.rest j, length-set b.v (i / 8) w));
  }

  pub or-IsFlip : IsFlip b i (bit_or (get_or b.v (i / 8) 0) (mask_of (i % 8))) true
  or-IsFlip = record {
    byte = or-lt (get_or b.v (i / 8) 0) (i % 8) (valid.bytes (i / 8)) (omega arith);
    bits = λ k hk. test-or (get_or b.v (i / 8) 0) (i % 8) k (valid.bytes (i / 8)) (omega arith) hk;
  }

  pub and-IsFlip :
      IsFlip b i (bit_and (get_or b.v (i / 8) 0) (word_allbits - mask_of (i % 8))) false
  and-IsFlip = record {
    byte = and-lt (get_or b.v (i / 8) 0) (i % 8) (valid.bytes (i / 8)) (omega arith);
    bits = λ k hk. test-and (get_or b.v (i / 8) 0) (i % 8) k (valid.bytes (i / 8)) (omega arith) hk;
  }

-- `b'` is `b` with bit `i` at `c`: valid, of the same size, and no other bit differs.
pub record IsUpdate (b : Bitmap) (i : ℕ) (c : Bool) (b' : Bitmap) : Type 0 where
  pub valid : IsValid b'
  pub same_size : b'.nbits ≡ b.nbits
  pub bits : (j : ℕ) → isset b' j ≡ (if j == i then c else isset b j)

-- Setting bit `i` of its word is an update of the bitmap.
pub or-IsUpdate :
    {b : Bitmap}
    → IsValid b
    → (i : ℕ) → i < b.nbits
    → IsUpdate b i true (write_word b i (bit_or (get_or b.v (i / 8) 0) (mask_of (i % 8))))
or-IsUpdate valid i h = record {
  valid = write_word-IsValid valid i h _ true (or-IsFlip valid i h);
  same_size = refl;
  bits = isset-write_word valid i h _ true (or-IsFlip valid i h);
}

-- bitmap_mark at a clear bit in range does not panic, and sets that bit and no other.
pub mark-IsUpdate :
    {b : Bitmap} (i : ℕ)
    → IsValid b
    → i < b.nbits
    → isset b i ≡ false
    → (b' : Bitmap) × (mark i b ≡ ok tt b') × IsUpdate b i true b'
unfolding mark isset
mark-IsUpdate {b} i valid h clear = (
  write_word b i (bit_or (get_or b.v (i / 8) 0) (mask_of (i % 8))),
  ground arith,
  or-IsUpdate valid i h,
)

-- bitmap_unmark at a set bit in range does not panic, and clears that bit and no other.
pub unmark-IsUpdate :
    {b : Bitmap} (i : ℕ)
    → IsValid b
    → i < b.nbits
    → isset b i ≡ true
    → (b' : Bitmap) × (unmark i b ≡ ok tt b') × IsUpdate b i false b'
unfolding unmark isset
unmark-IsUpdate {b} i valid h taken = (
  write_word b i (bit_and (get_or b.v (i / 8) 0) (word_allbits - mask_of (i % 8))),
  ground arith,
  record {
    valid = write_word-IsValid valid i h _ false (and-IsFlip valid i h);
    same_size = refl;
    bits = isset-write_word valid i h _ false (and-IsFlip valid i h);
  },
)
