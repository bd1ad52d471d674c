-- ===== src/Array.antt =====
-- lib/array.c: arrays of pointers that grow.
pub mod Laws
use polito_os161v.Common.{
  ℕ, zero, suc, ◌+◌, ◌-◌, ◌*◌, ◌/◌, ◌^◌, ◌%◌, Bool, true, false, ◌&&◌, ◌==◌, ltb, leb,
  if◌then◌else◌, u32, Option, none, some, List, [], ◌∷◌, ◌++◌, get_or, set, take, replicate, Res,
  good, fail, enomem, Run, ok, panic, block, Cmd, length,
}

-- `struct array`: `v` has a place for each of `max` pointers.
pub record Array : Type 0 where
  pub num : ℕ
  pub max : ℕ
  pub v : List ℕ

-- `array_init`
unfoldable pub init : Array
init = record { num = 0; max = 0; v = [] }

-- `array_create`, for whether `kmalloc` succeeds
unfoldable pub create : Bool → Option Array
create false = none
create true = some init

-- `array_cleanup`, with ARRAYASSERT in force
unfoldable pub cleanup : Array → Run (Unit {0}) (Unit {0})
cleanup a = if a.num == 0 then ok tt tt else panic

-- `array_destroy`
unfoldable pub destroy : Array → Run (Unit {0}) (Unit {0})
destroy = cleanup

-- The loop of `array_preallocate` that doubles the size; `none` is out of rounds.
unfoldable pub grow : ℕ → ℕ → ℕ → Option ℕ
grow zero num newmax = none
grow (suc n) num newmax =
    let next = grow n num (if newmax == 0 then 4 else u32 (newmax * 2)) in
    if ltb newmax num then next else some newmax

-- `memcpy` of the first `n` pointers into a new block of `m`; the rest of the block is not read
-- before it is written, and is 0 here.
abbrev pub fresh_block : ℕ → ℕ → List ℕ → List ℕ
fresh_block m n v = take n v ++ replicate (m - n) 0

-- How many pointers of four bytes the 32-bit byte count `n * sizeof(*a->v)` has room for.
abbrev pub pointers : ℕ → ℕ
pointers n = u32 (n * 4) / 4

-- The part of `array_preallocate` after the loop; `memory` says for which byte counts `kmalloc`
-- succeeds. A loop that does not end is a thread that never returns, and a copy that does not fit the
-- new block has no result.
moved : (ℕ → Bool) → Option ℕ → Cmd Array (Res (Unit {0}))
moved memory none a = block
moved memory (some newmax) a =
    if memory (u32 (newmax * 4))
    then (if ltb (pointers newmax) (pointers a.num)
        then panic
        else ok (good tt)
            (record a { max = newmax; v = fresh_block (pointers newmax) (pointers a.num) a.v }))
    else ok (fail enomem) a

-- `array_preallocate`: a growing size passes `num` within `num + 1` rounds.
unfoldable pub preallocate : (ℕ → Bool) → ℕ → Cmd Array (Res (Unit {0}))
unfolding grow moved
preallocate memory num a =
    if ltb a.max num then moved memory (grow (num + 1) num a.max) a else ok (good tt) a

-- `array_setsize`
unfoldable pub setsize : (ℕ → Bool) → ℕ → Cmd Array (Res (Unit {0}))
unfolding preallocate
setsize memory num a = elim (preallocate memory num a) [
  | ok (fail e) b ↦ ok (fail e) b
  | ok (good _) b ↦ ok (good tt) (record b { num = num })
  | panic ↦ panic
  | block ↦ block
]

-- `memmove` of `n` pointers to place `i` from the place after it.
unfoldable pub move_down : ℕ → ℕ → List ℕ → List ℕ
move_down zero i v = v
move_down (suc n) i v = move_down n (i + 1) (set v i (get_or v (i + 1) 0))

-- `array_remove`
unfoldable pub remove : ℕ → Cmd Array (Unit {0})
unfolding move_down
remove index a =
    if leb a.num a.max && ltb index a.num
    then ok tt (record a { num = a.num - 1; v = move_down (a.num - (index + 1)) index a.v })
    else panic
