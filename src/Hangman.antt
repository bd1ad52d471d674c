-- ===== src/Hangman.antt =====
-- thread/hangman.c: the detector of deadlocks.
use native.Mathlib.Decide.{ℕ_discrete}
use polito_os161v.Common.{
  ℕ, zero, suc, ◌+◌, ◌<◌, ◌≡◌, ◌≢◌, refl, inl, inr, arith, true, false, not, ◌==◌, if◌then◌else◌,
  Run, ok, panic, block, Cmd, subst, Bool-cases, and_then,
}
use polito_os161v.Kernel.{put}

-- `a_waiting` of each actor and `l_holding` of each lockable; 0 is NULL. The lockable of
-- `hangman_lock` itself is `own`.
pub record Hangman : Type 0 where
  pub waiting : ℕ → ℕ
  pub holding : ℕ → ℕ
  pub own : ℕ

-- The loop of `hangman_check`, for at most `n` rounds from the actor `cur` on. `block` is a loop that
-- has not ended.
unfoldable pub check : ℕ → ℕ → ℕ → Cmd Hangman (Unit {0})
check zero cur target h = block
check (suc n) cur target h =
    let next = check n (h.holding (h.waiting cur)) target h in
    if cur == 0
    then ok tt h
    else if cur == target
    then panic
    else if h.waiting cur == 0
    then ok tt h
    else next

-- `hangman_wait`, with the rounds for its check
unfoldable pub wait : ℕ → ℕ → ℕ → Cmd Hangman (Unit {0})
unfolding check
wait rounds a l h =
    let checked = check rounds (h.holding l) a h in
    if l == h.own
    then ok tt h
    else if not (h.waiting a == 0)
    then panic
    else and_then checked (λ _ j. ok tt (record j { waiting = put j.waiting a l }))

-- `hangman_acquire`
unfoldable pub acquire : ℕ → ℕ → Cmd Hangman (Unit {0})
acquire a l h =
    if l == h.own
    then ok tt h
    else if not (h.waiting a == l)
    then panic
    else if not (h.holding l == 0)
    then panic
    else ok tt (record h { holding = put h.holding l a; waiting = put h.waiting a 0 })

-- `hangman_release`
unfoldable pub release : ℕ → ℕ → Cmd Hangman (Unit {0})
release a l h =
    if l == h.own
    then ok tt h
    else if not (h.waiting a == 0)
    then panic
    else if not (h.holding l == a)
    then panic
    else ok tt (record h { holding = put h.holding l 0 })

-- The actor `c` waits, through locks and their holders, for what the actor `a` holds; or is `a`.
pub data Reaches (h : Hangman) (a : ℕ) : ℕ → Type 0 where
  here : Reaches h a a
  there : (c : ℕ) → c ≢ 0 → h.waiting c ≢ 0 → Reaches h a (h.holding (h.waiting c)) → Reaches h a c

-- No actor waits for itself: the holders along a chain of waits have ever smaller ranks.
abbrev pub IsRanked : Hangman → (ℕ → ℕ) → Type 0
IsRanked h rank =
    (c : ℕ)
    → c ≢ 0
    → h.waiting c ≢ 0
    → h.holding (h.waiting c) ≢ 0
    → rank (h.holding (h.waiting c)) < rank c

-- What a check from the actor `c` comes to.
pub data Checked (h : Hangman) (a c : ℕ) : Run Hangman (Unit {0}) → Type 0 where
  deadlock : Reaches h a c → Checked h a c panic
  harmless : (Reaches h a c → ⊥) → Checked h a c (ok tt h)

-- NULL reaches only itself.
from_null : {h : Hangman} {a c : ℕ} → a ≢ 0 → c ≡ 0 → Reaches h a c → ⊥
from_null ne z here = ne z
from_null ne z (there c n w r) = n z

stops : {h : Hangman} {a c : ℕ} → c ≢ a → h.waiting c ≡ 0 → Reaches h a c → ⊥
stops ne z here = ne refl
stops ne z (there c n w r) = w z

back :
    {h : Hangman} {a c : ℕ}
    → c ≢ a
    → (Reaches h a (h.holding (h.waiting c)) → ⊥)
    → Reaches h a c
    → ⊥
back ne f here = ne refl
back ne f (there c n w r) = f r

pub check-Checked :
    (n : ℕ) (h : Hangman) (rank : ℕ → ℕ) (a c : ℕ)
    → IsRanked h rank
    → a ≢ 0
    → rank c + 1 < n
    → Checked h a c (check n c a h)
unfolding check
check-Checked zero h rank a c k ne l = absurd (omega arith)
check-Checked (suc n) h rank a c k ne l = elim (Bool-cases (c == 0)) [
  | inl z ↦ rw z (harmless (from_null ne (ground arith)))
  | inr z ↦ elim (Bool-cases (c == a)) [
    | inl q ↦ rw (z, q) (deadlock (subst (λ x. Reaches h a x) (ground arith) here))
    | inr q ↦ elim (Bool-cases (h.waiting c == 0)) [
      | inl w ↦ rw (z, q, w) (harmless (stops (ground arith) (ground arith)))
      | inr w ↦
          rw (z, q, w)
            (onward (ground arith) (ground arith) (ground arith)
              (elim (ℕ_discrete (h.holding (h.waiting c)) 0) [
                | yes e ↦ at_null n (h.holding (h.waiting c)) (omega arith) e
                | no d ↦
                    let smaller : rank (h.holding (h.waiting c)) < rank c =
                      k c (ground arith) (ground arith) d in
                    check-Checked n h rank a (h.holding (h.waiting c)) k ne (omega arith)
              ]))
    ]
  ]
]
  where
    at_null : (m c : ℕ) → 0 < m → c ≡ 0 → Checked h a c (check m c a h)
    at_null zero c p e = absurd (omega arith)
    at_null (suc m) c p e =
        let z : (c == 0) ≡ true = ground arith in rw z (harmless (from_null ne e))

    onward :
        {r : Run Hangman (Unit {0})}
        → c ≢ a
        → c ≢ 0
        → h.waiting c ≢ 0
        → Checked h a (h.holding (h.waiting c)) r
        → Checked h a c r
    onward d n w (deadlock r) = deadlock (there c n w r)
    onward d n w (harmless f) = harmless (back d f)

-- What `hangman_wait` of the actor `a` for the lockable `l` comes to.
pub data Waited (h : Hangman) (a l : ℕ) : Run Hangman (Unit {0}) → Type 0 where
  deadlock : Reaches h a (h.holding l) → Waited h a l panic
  waits :
      (Reaches h a (h.holding l) → ⊥)
      → Waited h a l (ok tt (record h { waiting = put h.waiting a l }))

-- With no cycle of waits so far and enough rounds, hangman_wait of an actor that waits for nothing
-- ends: it panics when the holder of the lock waits, directly or through others, for that actor, and
-- only then, and otherwise notes the wait.
pub wait-Waited :
    (rounds : ℕ) (h : Hangman) (rank : ℕ → ℕ) (a l : ℕ)
    → IsRanked h rank
    → a ≢ 0
    → h.waiting a ≡ 0
    → l ≢ h.own
    → rank (h.holding l) + 1 < rounds
    → Waited h a l (wait rounds a l h)
unfolding wait
wait-Waited rounds h rank a l k ne w o e =
    let p : (l == h.own) ≡ false = ground arith in
    let q : not (h.waiting a == 0) ≡ false = ground arith in
    rw (wait, p, q) (noted (check-Checked rounds h rank a (h.holding l) k ne e))
  where
    noted :
        {r : Run Hangman (Unit {0})}
        → Checked h a (h.holding l) r
        → Waited h a l (and_then r (λ _ j. ok tt (record j { waiting = put j.waiting a l })))
    noted (Checked.deadlock r) = Waited.deadlock r
    noted (harmless f) = waits f
