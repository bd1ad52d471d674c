-- ===== src/Bitmap.antt =====
-- kern/lib/bitmap.c: fixed-size bitmaps, which the SFS free-block map uses.
pub mod Bits
pub mod Laws
pub mod Alloc
pub mod Create
use polito_os161v.Common.{
  ℕ, zero, suc, ◌+◌, ◌-◌, ◌*◌, ◌/◌, ◌%◌, ◌^◌, bit_and, bit_or, Bool, true, false, ◌&&◌, Option,
  none, some, List, ltb, ◌==◌, if◌then◌else◌, u32, get_elem?, get_or, set, replicate, Res, good,
  fail, Run, ok, panic, Cmd, enospc,
}

-- `struct bitmap`. `v` holds `unsigned char` words.
pub record Bitmap : Type 0 where
  pub nbits : ℕ
  pub v : List ℕ

-- BITS_PER_WORD and WORD_ALLBITS
abbrev pub bits_per_word : ℕ
bits_per_word = 8

abbrev pub word_allbits : ℕ
word_allbits = 255

-- DIVROUNDUP(nbits, BITS_PER_WORD), in `unsigned`
abbrev pub words : ℕ → ℕ
words nbits = u32 (nbits + bits_per_word - 1) / bits_per_word

-- `(WORD_TYPE)1 << offset`
abbrev pub mask_of : ℕ → ℕ
mask_of offset = 2 ^ offset

-- `(w & mask) != 0` for the mask of `offset`
unfoldable pub test : ℕ → ℕ → Bool
test w offset = if bit_and w (mask_of offset) == 0 then false else true

-- The loop that marks the leftover bits: `n` rounds from bit `j` on.
pub mark_over : ℕ → ℕ → ℕ → ℕ
mark_over zero j w = w
mark_over (suc n) j w = mark_over n (j + 1) (bit_or w (mask_of j))

-- `bitmap_create`; `none` is NULL. The Booleans say whether each `kmalloc` succeeds.
pub create : Bool → Bool → ℕ → Run (Unit {0}) (Option Bitmap)
create false mem_v nbits = ok none tt
create true false nbits = ok none tt
create true true nbits =
    let n = words nbits in
    let zeroed : List ℕ = replicate n 0 in
    let ix = n - 1 in
    let overbits = nbits - ix * bits_per_word in
    let w = mark_over (bits_per_word - overbits) overbits (get_or zeroed ix 0) in
    if ltb (nbits / bits_per_word) n
    then (if (nbits / bits_per_word == n - 1) && ltb 0 overbits && ltb overbits bits_per_word
        then ok (some (record { nbits = nbits; v = set zeroed ix w })) tt
        else panic)
    else ok (some (record { nbits = nbits; v = zeroed })) tt

-- The inner loop of `bitmap_alloc`: `n` rounds from `offset` on, for a bit of `w` that is clear.
pub find_clear : ℕ → ℕ → ℕ → Option ℕ
find_clear zero offset w = none
find_clear (suc n) offset w =
    let rest = find_clear n (offset + 1) w in
    if bit_and w (mask_of offset) == 0 then some offset else rest

-- What `bitmap_alloc` does with the clear bit `offset` of the word `w` at `ix`.
pub take_bit : Bitmap → ℕ → ℕ → Option ℕ → Run Bitmap (Res ℕ)
take_bit b ix w none = panic
take_bit b ix w (some offset) =
    let index = u32 (ix * bits_per_word + offset) in
    if ltb index b.nbits
    then ok (good index) (record b { v = set b.v ix (bit_or w (mask_of offset)) })
    else panic

-- The outer loop of `bitmap_alloc`: `n` rounds from `ix` on. A read past the words is a fault.
pub alloc_from : ℕ → ℕ → Bitmap → Run Bitmap (Res ℕ)
alloc_from zero ix b = ok (fail enospc) b
alloc_from (suc n) ix b =
    let rest = alloc_from n (ix + 1) b in
    elim (get_elem? b.v ix) [
      | none ↦ panic
      | some w ↦ if w == word_allbits then rest else take_bit b ix w (find_clear bits_per_word 0 w)
    ]

-- `bitmap_alloc`
unfoldable pub alloc : Cmd Bitmap (Res ℕ)
unfolding alloc_from take_bit find_clear
alloc b = alloc_from (words b.nbits) 0 b

-- `bitmap_translate`: the word and the mask of a bit.
abbrev pub translate : ℕ → ℕ × ℕ
translate bitno = (bitno / bits_per_word, mask_of (bitno % bits_per_word))

-- `bitmap_mark`
unfoldable pub mark : ℕ → Cmd Bitmap (Unit {0})
mark index b =
    let (ix, mask) = translate index in
    let w = get_or b.v ix 0 in
    if ltb index b.nbits
    then (if bit_and w mask == 0
        then ok tt (record b { v = set b.v ix (bit_or w mask) })
        else panic)
    else panic

-- `bitmap_unmark`; `~mask` is cut to an `unsigned char`.
unfoldable pub unmark : ℕ → Cmd Bitmap (Unit {0})
unmark index b =
    let (ix, mask) = translate index in
    let w = get_or b.v ix 0 in
    if ltb index b.nbits
    then (if bit_and w mask == 0
        then panic
        else ok tt (record b { v = set b.v ix (bit_and w (word_allbits - mask)) }))
    else panic

-- `bitmap_isset`, as the test that its callers make of the result.
unfoldable pub isset : Bitmap → ℕ → Bool
unfolding test
isset b index = test (get_or b.v (index / bits_per_word) 0) (index % bits_per_word)
