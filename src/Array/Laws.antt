-- ===== src/Array/Laws.antt =====
-- What the arrays of lib/array.c keep when they grow or lose an element.
use native.Mathlib.Decide.{ℕ_discrete}
use polito_os161v.Common.{
  subst, length-replicate, ℕ, zero, suc, ◌+◌, ◌-◌, ◌*◌, ◌^◌, ◌<◌, ◌≤◌, ◌≡◌, ◌⊎◌, inl, inr, refl,
  arith, ◌∙◌, Bool, false, ◌==◌, ltb, if◌then◌else◌, u32, some, List, [], ◌∷◌, ◌++◌, get_or, set,
  take, replicate, length, length-set, get_or-set_self, get_or-set_ne, good, fail, enomem, ok,
  Bool-cases,
}
use polito_os161v.Array.{Array, grow, preallocate, moved, move_down, remove, fresh_block, pointers}

-- There is a place for each element, and the block has the size it says.
pub record IsValid (a : Array) : Type 0 where
  pub fits : a.num ≤ a.max
  pub size : length a.v ≡ a.max
  pub width : a.max ≤ 2 ^ 31

-- The doubling passes `num` when the rounds left reach it.
grow_enough :
    (n num newmax : ℕ)
    → 0 < n
    → num < n + newmax
    → num ≤ 2 ^ 31
    → newmax < 2 ^ 32
    → newmax < 2 * num + 4
    → (m : ℕ) × (grow n num newmax ≡ some m) × (num ≤ m) × (newmax ≤ m) × (m < 2 * num + 4)
unfolding grow
grow_enough zero num newmax z h w x y = absurd (omega arith)
grow_enough (suc n) num newmax z h w x y = elim (Bool-cases (ltb newmax num)) [
  | inr f ↦ rw f (newmax, refl, ground arith, omega arith, y)
  | inl t ↦
      let next : ℕ = if newmax == 0 then 4 else u32 (newmax * 2) in
      let up : newmax < next = ground arith in
      let (m, e, a, b, c) =
        grow_enough n num next (ground arith) (ground arith) w (ground arith) (ground arith) in
      rw t (m, e, a, omega arith, c)
]

-- `v` after the element at `i` is taken out: the elements before it stay, and each later one below
-- `last` moves down by one place.
move_down_lem :
    (n i : ℕ) (v : List ℕ) (j : ℕ)
    → i + n < length v
    → ((j < i) × (get_or (move_down n i v) j 0 ≡ get_or v j 0))
      ⊎ ((i ≤ j) × (j < i + n) × (get_or (move_down n i v) j 0 ≡ get_or v (j + 1) 0))
      ⊎ ((i + n ≤ j) × (get_or (move_down n i v) j 0 ≡ get_or v j 0))
unfolding move_down
move_down_lem zero i v j h = elim (Bool-cases (ltb j i)) [
  | inl t ↦ inl (ground arith, refl)
  | inr f ↦ inr (inr (ground arith, refl))
]
move_down_lem (suc n) i v j h =
    elim (move_down_lem n (i + 1) (set v i (get_or v (i + 1) 0)) j
      (omega (arith, length-set v i (get_or v (i + 1) 0)))) [
        | inl (a, e) ↦ elim (ℕ_discrete i j) [
          | yes q ↦ inr (
              inl (
                omega arith,
                omega arith,
                e
                    ∙ subst (λ l. get_or (set v i (get_or v (i + 1) 0)) l 0 ≡ get_or v (l + 1) 0) q
                        (get_or-set_self v i (get_or v (i + 1) 0) 0 (omega arith)),
              ))
          | no ne ↦ inl (omega arith, e ∙ get_or-set_ne v i j (get_or v (i + 1) 0) 0 ne)
        ]
        | inr (inl (a, b, e)) ↦ inr (
            inl (
              omega arith,
              omega arith,
              e ∙ get_or-set_ne v i (j + 1) (get_or v (i + 1) 0) 0 (omega arith),
            ))
        | inr (inr (a, e)) ↦
            inr (inr (omega arith, e ∙ get_or-set_ne v i j (get_or v (i + 1) 0) 0 (omega arith)))
      ]

length-move_down : (n i : ℕ) (v : List ℕ) → length (move_down n i v) ≡ length v
unfolding move_down
length-move_down zero i v = refl
length-move_down (suc n) i v =
    length-move_down n (i + 1) (set v i (get_or v (i + 1) 0)) ∙ length-set v i (get_or v (i + 1) 0)

-- What is left of `a` after its element at `index` is removed.
pub record IsRemoved (a : Array) (index : ℕ) (b : Array) : Type 0 where
  pub fewer : b.num + 1 ≡ a.num
  pub before : (j : ℕ) → j < index → get_or b.v j 0 ≡ get_or a.v j 0
  pub after : (j : ℕ) → index ≤ j → j < b.num → get_or b.v j 0 ≡ get_or a.v (j + 1) 0
  pub valid : IsValid b

-- array_remove of an element of a valid array does not fail an assertion: the elements before it stay
-- where they are, each one after it moves down by a place, and the array is valid.
pub remove-IsRemoved :
    (a : Array) (index : ℕ)
    → IsValid a
    → index < a.num
    → (b : Array) × (remove index a ≡ ok tt b) × IsRemoved a index b
unfolding remove
remove-IsRemoved a index v h =
    let n : ℕ = a.num - (index + 1) in
    let in_block : index + n < length a.v = omega (arith, v.fits, v.size) in
    (
      record a { num = a.num - 1; v = move_down n index a.v },
      ground (arith, v.fits),
      record {
        fewer = omega arith;
        before = λ j l. elim (move_down_lem n index a.v j in_block) [
          | inl (x, e) ↦ e
          | inr (inl (x, y, e)) ↦ absurd (omega arith)
          | inr (inr (x, e)) ↦ e
        ];
        after = λ j l g. elim (move_down_lem n index a.v j in_block) [
          | inl (x, e) ↦ absurd (omega arith)
          | inr (inl (x, y, e)) ↦ e
          | inr (inr (x, e)) ↦ absurd (omega arith)
        ];
        valid = record {
          fits = omega (arith, v.fits);
          size = length-move_down n index a.v ∙ v.size;
          width = v.width;
        };
      },
    )

length-fresh_block :
    (n m : ℕ) (v : List ℕ) → n ≤ length v → length (take n v ++ replicate m 0) ≡ n + m
length-fresh_block zero m v h =
    let e : length (replicate {A = ℕ} m 0) ≡ m = length-replicate m 0 in omega (arith, e)
length-fresh_block (suc n) m [] h = absurd (omega arith)
length-fresh_block (suc n) m (x ∷ v) h = omega (arith, length-fresh_block n m v (omega arith))

get_or-take :
    (n m : ℕ) (v : List ℕ) (j : ℕ)
    → j < n
    → n ≤ length v
    → get_or (take n v ++ replicate m 0) j 0 ≡ get_or v j 0
get_or-take zero m v j l h = absurd (omega arith)
get_or-take (suc n) m [] j l h = absurd (omega arith)
get_or-take (suc n) m (x ∷ v) zero l h = refl
get_or-take (suc n) m (x ∷ v) (suc j) l h = get_or-take n m v j (omega arith) (omega arith)

-- `b` is `a` with room for `num` elements, and every element that `a` had.
pub record IsResized (a : Array) (num : ℕ) (b : Array) : Type 0 where
  pub same_num : b.num ≡ a.num
  pub room : num ≤ b.max
  pub size : length b.v ≡ b.max
  pub same : (j : ℕ) → j < a.num → get_or b.v j 0 ≡ get_or a.v j 0

-- array_preallocate of a valid array for up to 2^28 elements returns: with the room asked for and every
-- element as it was, in a block that has a place for each pointer, or with ENOMEM and the array
-- unchanged where kmalloc refuses some byte count.
pub preallocate-IsResized :
    (memory : ℕ → Bool) (a : Array) (num : ℕ)
    → IsValid a
    → num ≤ 2 ^ 28
    → ((b : Array) × (preallocate memory num a ≡ ok (good tt) b) × IsResized a num b)
      ⊎ ((bytes : ℕ) × (memory bytes ≡ false) × (preallocate memory num a ≡ ok (fail enomem) a))
unfolding preallocate
preallocate-IsResized memory a num v w = elim (Bool-cases (ltb a.max num)) [
  | inr f ↦ inl (
    a,
    rw f refl,
    record { same_num = refl; room = ground arith; size = v.size; same = λ j l. refl },
  )
  | inl t ↦
      let (m, e, n, b, c) =
        grow_enough (num + 1) num a.max (omega arith) (omega arith) (omega arith)
          (omega (arith, v.width)) (ground arith) in
      let block : pointers m ≡ m = omega arith in
      let copied : pointers a.num ≡ a.num = ground (arith, v.fits) in
      let fits : ltb m a.num ≡ false = ground (arith, v.fits) in
      elim (Bool-cases (memory (u32 (m * 4)))) [
        | inr f ↦ inr (u32 (m * 4), f, simp (f, t, e, moved) refl)
        | inl g ↦ inl (
          record a { max = m; v = fresh_block m a.num a.v },
          simp (g, t, e, moved, block, copied, fits) refl,
          record {
            same_num = refl;
            room = n;
            size =
                length-fresh_block a.num (m - a.num) a.v (omega (arith, v.fits, v.size))
                ∙ omega (arith, v.fits);
            same = λ j l. get_or-take a.num (m - a.num) a.v j l (omega (arith, v.fits, v.size));
          },
        )
      ]
]
