-- ===== src/Bitmap/Create.antt =====
-- bitmap_create of lib/bitmap.c makes a valid bitmap with every bit clear.
use native.Mathlib.Decide.{ℕ_discrete}
use polito_os161v.Common.{
  ℕ, ◌+◌, ◌-◌, ◌*◌, ◌/◌, ◌%◌, ◌<◌, ◌^◌, ◌≡◌, ◌≢◌, refl, true, false, arith, leb, some, List, length,
  length-set, length-replicate, get_or, get_or-replicate, get_or-set_self, get_or-set_ne, set,
  replicate, ok,
}
use polito_os161v.Bitmap.{Bitmap, mark_over, create, isset, words}
use polito_os161v.Bitmap.Bits.{test-mark_over, test-zero}
use polito_os161v.Bitmap.Laws.{IsValid, set-bytes}

abbrev zeros : ℕ → List ℕ
zeros n = replicate n 0

get-zeros : (k i : ℕ) → get_or (zeros k) i 0 ≡ 0
get-zeros k i = get_or-replicate k i 0

length-zeros : (k : ℕ) → length (zeros k) ≡ k
length-zeros k = length-replicate k 0

-- A new bitmap of `n` bits, each of them clear.
record IsFresh (n : ℕ) (b : Bitmap) : Type 0 where
  valid : IsValid b
  size : b.nbits ≡ n
  clear : (j : ℕ) → j < n → isset b j ≡ false

-- With a whole number of words there is nothing left over.
abbrev whole : ℕ → Bitmap
whole n = record { nbits = n; v = zeros (n / 8) }

abbrev part : ℕ → Bitmap
part n = record { nbits = n; v = set (zeros (n / 8 + 1)) (n / 8) (mark_over (8 - n % 8) (n % 8) 0) }

create-whole : (n : ℕ) → n + 7 < 2 ^ 32 → n % 8 ≡ 0 → create true true n ≡ ok (some (whole n)) tt
unfolding create
create-whole n h e = let w : words n ≡ n / 8 = omega arith in rw w (ground arith)

create-part : (n : ℕ) → n + 7 < 2 ^ 32 → n % 8 ≢ 0 → create true true n ≡ ok (some (part n)) tt
unfolding create
create-part n h e =
    let w : words n ≡ n / 8 + 1 = omega arith in
    let x : n / 8 + 1 - 1 ≡ n / 8 = omega arith in
    let o : n - n / 8 * 8 ≡ n % 8 = omega arith in
    rw (w, x, o, get-zeros (n / 8 + 1) (n / 8)) (ground arith)

isset-zeros : (n k j : ℕ) → isset (record { nbits = n; v = zeros k }) j ≡ false
unfolding isset
isset-zeros n k j = rw (get-zeros k (j / 8)) (test-zero (j % 8) (omega arith))

isset-part : (n j : ℕ) → j < 8 * (n / 8 + 1) → n % 8 ≢ 0 → isset (part n) j ≡ leb n j
unfolding isset
isset-part n j h e = elim (ℕ_discrete (n / 8) (j / 8)) [
  | yes p ↦
      let t = test-mark_over (n % 8) (j % 8) (omega arith) (omega arith) in
      rw
        (
          ← p,
          get_or-set_self (zeros (n / 8 + 1)) (n / 8) (mark_over (8 - n % 8) (n % 8) 0) 0
              (omega (arith, length-zeros (n / 8 + 1))),
        )
        (rw t.0 (ground arith))
  | no p ↦
      rw
        (
          get_or-set_ne (zeros (n / 8 + 1)) (n / 8) (j / 8) (mark_over (8 - n % 8) (n % 8) 0) 0 p,
          get-zeros (n / 8 + 1) (j / 8),
          test-zero (j % 8) (omega arith),
        )
        (ground arith)
]

whole-IsFresh : (n : ℕ) → n + 7 < 2 ^ 32 → n % 8 ≡ 0 → IsFresh n (whole n)
whole-IsFresh n h e = record {
  valid = record {
    small = h;
    size = omega (arith, length-zeros (n / 8));
    bytes = λ i. rw (get-zeros (n / 8) i) (omega arith);
    rest = λ i hi li. absurd (omega (arith, length-zeros (n / 8)));
  };
  size = refl;
  clear = λ j hj. isset-zeros n (n / 8) j;
}

length-part : (n : ℕ) → length (part n).v ≡ n / 8 + 1
length-part n = omega (
  arith,
  length-zeros (n / 8 + 1),
  length-set (zeros (n / 8 + 1)) (n / 8) (mark_over (8 - n % 8) (n % 8) 0),
)

part-IsFresh : (n : ℕ) → n + 7 < 2 ^ 32 → n % 8 ≢ 0 → IsFresh n (part n)
part-IsFresh n h e = record {
  valid = record {
    small = h;
    size = omega (arith, length-part n);
    bytes =
        set-bytes (zeros (n / 8 + 1)) (n / 8) (mark_over (8 - n % 8) (n % 8) 0)
          (λ i. rw (get-zeros (n / 8 + 1) i) (omega arith))
          (test-mark_over (n % 8) 0 (omega arith) (omega arith)).1;
    rest = λ i hi li. rw (isset-part n i (omega (arith, length-part n)) e) (ground arith);
  };
  size = refl;
  clear = λ j hj. rw (isset-part n j (omega arith) e) (ground arith);
}

-- bitmap_create of at most 2^32 - 8 bits does not panic; if both allocations succeed, it returns a valid bitmap
-- of that size with every bit clear.
pub create-IsFresh :
    (n : ℕ)
    → n + 7 < 2 ^ 32
    → (b : Bitmap) × (create true true n ≡ ok (some b) tt)
      × IsValid b
      × (b.nbits ≡ n)
      × ((j : ℕ) → j < n → isset b j ≡ false)
create-IsFresh n h = elim (ℕ_discrete (n % 8) 0) [
  | yes e ↦ let f = whole-IsFresh n h e in (whole n, create-whole n h e, f.valid, refl, f.clear)
  | no e ↦ let f = part-IsFresh n h e in (part n, create-part n h e, f.valid, refl, f.clear)
]
