-- ===== src/Synch/Progress.antt =====
-- No deadlock in lock_acquire and lock_release: where a thread waits, another can move.
use native.Mathlib.Decide.{ℕ_discrete}
use polito_os161v.Common.{
  ℕ, Bool, true, false, Bool-cases, ◌≡◌, ◌≢◌, inl, inr, refl, arith, List, [], ◌∷◌,
}
use polito_os161v.Synch.Threads.{
  Pc, outside, critical, asking, asked, admitted, recursive, entering, testing, parking, dozing,
  asleep, taken, checking, checked, confirmed, foreign, leaving, clearing, waking, woken, panicked,
  Lock, Step, ask, answer_no, answer_yes, admit, panic_acquire, lock_spin, lock_wchan, unlock_spin,
  sleep, take, acquired, release, check, confirm, deny, leave, panic_release, release_spin, clear,
  wake_none, wake_one, released, Reach,
}
use polito_os161v.Synch.Exclusion.{IsValid, spins, owns_wchan, owns, Reach-IsValid}
use polito_os161v.Synch.Wakeup.{waits, hopeful, Hope, no_lost_wakeup}

-- A thread that is not outside the two functions can take a step.
abbrev pub Move : Lock → Type 0
Move s = (j : ℕ) × (j ≢ 0) × (s.pc j ≢ outside) × (t : Lock) × Step s t × (t.pc j ≢ s.pc j)

-- Past an assertion that failed.
abbrev pub panics : Pc → Bool
panics (panicked b) = true
panics _ = false

module _ {s : Lock} (v : IsValid s) (sound : (j : ℕ) → panics (s.pc j) ≡ false) where
  -- The owner of the wait channel's lock can always go on.
  wchan-Move : s.wc_lock ≢ 0 → Move s
  wchan-Move n = go (s.pc s.wc_lock) refl (ground (arith, v.wchan s.wc_lock n))
    where
      go : (p : Pc) → s.pc s.wc_lock ≡ p → owns_wchan p ≡ true → Move s
      go parking e o = (s.wc_lock, n, ground arith, _, unlock_spin s.wc_lock n e, ground arith)
      go dozing e o = (s.wc_lock, n, ground arith, _, sleep s.wc_lock n e, ground arith)
      go _ e o = cc

  testing-Move : (i : ℕ) → i ≢ 0 → s.pc i ≡ testing → Move s
  testing-Move i n e = elim (ℕ_discrete s.lk_holder 0) [
    | yes z ↦ (i, n, ground arith, _, take i n e z, ground arith)
    | no h ↦ elim (ℕ_discrete s.wc_lock 0) [
      | yes w ↦ (i, n, ground arith, _, lock_wchan i n e h w, ground arith)
      | no w ↦ wchan-Move w
    ]
  ]

  waking-Move : (i : ℕ) → i ≢ 0 → s.pc i ≡ waking → Move s
  waking-Move i n e = elim (ℕ_discrete s.wc_lock 0) [
    | yes w ↦ go w s.wc_threads refl
    | no w ↦ wchan-Move w
  ]
    where
      go : s.wc_lock ≡ 0 → (l : List ℕ) → s.wc_threads ≡ l → Move s
      go w [] g = (i, n, ground arith, _, wake_none i n e w g, ground arith)
      go w (p ∷ rest) g = (i, n, ground arith, _, wake_one i p rest n e w g, ground arith)

  asked-Move : (i : ℕ) (b : Bool) → i ≢ 0 → s.pc i ≡ asked b → Move s
  asked-Move i b n e = elim (ℕ_discrete s.lk_holder i) [
    | yes h ↦ (i, n, ground arith, _, answer_yes i b n e h, ground arith)
    | no h ↦ (i, n, ground arith, _, answer_no i b n e h, ground arith)
  ]

  checked-Move : (i : ℕ) (b : Bool) → i ≢ 0 → s.pc i ≡ checked b → Move s
  checked-Move i b n e = elim (ℕ_discrete s.lk_holder i) [
    | yes h ↦ (i, n, ground arith, _, confirm i b n e h, ground arith)
    | no h ↦ (i, n, ground arith, _, deny i b n e h, ground arith)
  ]

  -- Where the spinlock has an owner, that thread or the owner of the wait channel's lock can go on.
  spin-Move : s.lk_lock ≢ 0 → Move s
  spin-Move n = go (s.pc s.lk_lock) refl (ground (arith, v.spin s.lk_lock n))
    where
      go : (p : Pc) → s.pc s.lk_lock ≡ p → spins p ≡ true → Move s
      go testing e o = testing-Move s.lk_lock n e
      go parking e o = (s.lk_lock, n, ground arith, _, unlock_spin s.lk_lock n e, ground arith)
      go taken e o = (s.lk_lock, n, ground arith, _, acquired s.lk_lock n e, ground arith)
      go clearing e o = (s.lk_lock, n, ground arith, _, clear s.lk_lock n e, ground arith)
      go waking e o = waking-Move s.lk_lock n e
      go woken e o = (s.lk_lock, n, ground arith, _, released s.lk_lock n e, ground arith)
      go (asked b) e o = asked-Move s.lk_lock b n e
      go admitted e o = (s.lk_lock, n, ground arith, _, admit s.lk_lock n e, ground arith)
      go recursive e o = (s.lk_lock, n, ground arith, _, panic_acquire s.lk_lock n e, ground arith)
      go (checked b) e o = checked-Move s.lk_lock b n e
      go confirmed e o = (s.lk_lock, n, ground arith, _, leave s.lk_lock n e, ground arith)
      go foreign e o = (s.lk_lock, n, ground arith, _, panic_release s.lk_lock n e, ground arith)
      go _ e o = cc

  -- A thread that is not outside, does not wait for a wakeup and has not panicked: it can go on, or
  -- the owner of a spinlock can.
  awake-Move :
      (i : ℕ)
      → i ≢ 0
      → (p : Pc) → s.pc i ≡ p
      → p ≢ outside
      → waits p ≡ false
      → panics p ≡ false
      → Move s
  awake-Move i n outside e o w q = absurd (o refl)
  awake-Move i n critical e o w q = (i, n, ground arith, _, release i n e, ground arith)
  awake-Move i n (asking b) e o w q = elim (ℕ_discrete s.lk_lock 0) [
    | yes z ↦ (i, n, ground arith, _, ask i b n e z, ground arith)
    | no m ↦ spin-Move m
  ]
  awake-Move i n entering e o w q = elim (ℕ_discrete s.lk_lock 0) [
    | yes z ↦ (i, n, ground arith, _, lock_spin i n e z, ground arith)
    | no m ↦ spin-Move m
  ]
  awake-Move i n (checking b) e o w q = elim (ℕ_discrete s.lk_lock 0) [
    | yes z ↦ (i, n, ground arith, _, check i b n e z, ground arith)
    | no m ↦ spin-Move m
  ]
  awake-Move i n leaving e o w q = elim (ℕ_discrete s.lk_lock 0) [
    | yes z ↦ (i, n, ground arith, _, release_spin i n e z, ground arith)
    | no m ↦ spin-Move m
  ]
  awake-Move i n (asked b) e o w q = spin-Move (ground (arith, v.spin i n))
  awake-Move i n admitted e o w q = spin-Move (ground (arith, v.spin i n))
  awake-Move i n recursive e o w q = spin-Move (ground (arith, v.spin i n))
  awake-Move i n testing e o w q = spin-Move (ground (arith, v.spin i n))
  awake-Move i n taken e o w q = spin-Move (ground (arith, v.spin i n))
  awake-Move i n (checked b) e o w q = spin-Move (ground (arith, v.spin i n))
  awake-Move i n confirmed e o w q = spin-Move (ground (arith, v.spin i n))
  awake-Move i n foreign e o w q = spin-Move (ground (arith, v.spin i n))
  awake-Move i n clearing e o w q = spin-Move (ground (arith, v.spin i n))
  awake-Move i n waking e o w q = spin-Move (ground (arith, v.spin i n))
  awake-Move i n woken e o w q = spin-Move (ground (arith, v.spin i n))
  awake-Move i n parking e o w q = cc
  awake-Move i n dozing e o w q = cc
  awake-Move i n asleep e o w q = cc
  awake-Move i n (panicked b) e o w q = cc

  -- A thread that owns the lock, or is on its way to it, does not wait.
  Hope-Move : Hope s.lk_holder s.pc → Move s
  Hope-Move (inl h) =
      awake-Move s.lk_holder h (s.pc s.lk_holder) refl (ground (arith, v.holder s.lk_holder h))
        (not_waiting (s.pc s.lk_holder) (ground (arith, v.holder s.lk_holder h)))
        (sound s.lk_holder)
    where
      not_waiting : (p : Pc) → owns p ≡ true → waits p ≡ false
      not_waiting parking o = cc
      not_waiting dozing o = cc
      not_waiting asleep o = cc
      not_waiting _ o = refl
  Hope-Move (inr (j, n, h)) =
      awake-Move j n (s.pc j) refl (ground arith) (not_waiting (s.pc j) h) (sound j)
    where
      not_waiting : (p : Pc) → hopeful p ≡ true → waits p ≡ false
      not_waiting parking o = cc
      not_waiting dozing o = cc
      not_waiting asleep o = cc
      not_waiting _ o = refl

-- In every state that threads can reach, if no thread is past an assertion that failed and some thread
-- is in lock_acquire, in lock_release or has the lock, then such a thread can take a step of its own:
-- the threads never wait for one another in a circle.
pub no_deadlock :
    {s : Lock}
    → Reach s
    → ((j : ℕ) → panics (s.pc j) ≡ false)
    → (i : ℕ) → i ≢ 0
    → s.pc i ≢ outside
    → Move s
no_deadlock {s} r sound i n o = elim (Bool-cases (waits (s.pc i))) [
  | inl w ↦ Hope-Move (Reach-IsValid r) sound (no_lost_wakeup r i n w)
  | inr w ↦ awake-Move (Reach-IsValid r) sound i n (s.pc i) refl o w (sound i)
]
