-- ===== src/Synch/Wakeup.antt =====
-- No wakeup of a lock is lost: while a thread sleeps, the lock is held or a thread is on its way to it.
use polito_os161v.Common.{ℕ, Bool, true, false, ◌≡◌, ◌≢◌, ◌⊎◌, inl, inr, refl, ap, arith}
use polito_os161v.Synch.Threads.{
  Pc, outside, critical, asking, asked, admitted, recursive, entering, testing, parking, dozing,
  asleep, checking, checked, confirmed, foreign, leaving, clearing, waking, panicked, Lock, at,
  Step, call, call_again, ask, answer_no, answer_yes, admit, panic_acquire, lock_spin, lock_wchan,
  unlock_spin, sleep, take, acquired, release, release_foreign, check, confirm, deny, leave,
  panic_release, release_spin, clear, wake_none, wake_one, released, Reach, start, later,
}
use polito_os161v.Synch.Exclusion.{IsValid, count, Reach-IsValid}

-- The thread will try to take the lock, or is about to wake another that does.
abbrev pub hopeful : Pc → Bool
hopeful entering = true
hopeful testing = true
hopeful waking = true
hopeful _ = false

-- The thread sleeps, or is past the test that makes it sleep.
abbrev pub waits : Pc → Bool
waits parking = true
waits dozing = true
waits asleep = true
waits _ = false

abbrev pub Hope : ℕ → (ℕ → Pc) → Type 0
Hope holder pc = (holder ≢ 0) ⊎ ((j : ℕ) × (j ≢ 0) × (hopeful (pc j) ≡ true))

abbrev pub IsHopeful : Lock → Type 0
IsHopeful s = (i : ℕ) → i ≢ 0 → waits (s.pc i) ≡ true → Hope s.lk_holder s.pc

-- A thread that waits is asleep or owns the wait channel's lock.
waiting_where :
    {s : Lock}
    → IsValid s
    → (i : ℕ) → i ≢ 0
    → waits (s.pc i) ≡ true
    → (count i s.wc_threads ≡ 1) ⊎ (s.wc_lock ≡ i)
waiting_where {s} v i n w = go (s.pc i) refl w
  where
    go : (p : Pc) → s.pc i ≡ p → waits p ≡ true → (count i s.wc_threads ≡ 1) ⊎ (s.wc_lock ≡ i)
    go parking e w' = inr (ground (arith, v.wchan i n))
    go dozing e w' = inr (ground (arith, v.wchan i n))
    go asleep e w' = inl (ground (arith, v.asleep_once i n))
    go _ e w' = cc

module _ {s : Lock} (v : IsValid s) (h : IsHopeful s) where
  -- A step that takes no hope away.
  carry :
      (pc : ℕ → Pc)
      → ((j : ℕ) → hopeful (s.pc j) ≡ true → hopeful (pc j) ≡ true)
      → (k : ℕ) → k ≢ 0
      → waits (s.pc k) ≡ true
      → Hope s.lk_holder pc
  carry pc keep k m w = go (h k m w)
    where
      go : Hope s.lk_holder s.pc → Hope s.lk_holder pc
      go (inl a) = inl a
      go (inr (j, b, c)) = inr (j, b, keep j c)

  Step-IsHopeful : {t : Lock} → Step s t → IsHopeful t
  Step-IsHopeful (call i n e) =
      λ k m w. carry (at s.pc i (asking false)) (λ j c. ground arith) k m (ground arith)
  Step-IsHopeful (call_again i n e) =
      λ k m w. carry (at s.pc i (asking true)) (λ j c. ground arith) k m (ground arith)
  Step-IsHopeful (ask i b n e f) =
      λ k m w. carry (at s.pc i (asked b)) (λ j c. ground arith) k m (ground arith)
  Step-IsHopeful (answer_no i b n e h) =
      λ k m w. carry (at s.pc i admitted) (λ j c. ground arith) k m (ground arith)
  Step-IsHopeful (answer_yes i b n e h) =
      λ k m w. carry (at s.pc i recursive) (λ j c. ground arith) k m (ground arith)
  Step-IsHopeful (admit i n e) =
      λ k m w. carry (at s.pc i entering) (λ j c. ground arith) k m (ground arith)
  Step-IsHopeful (panic_acquire i n e) =
      λ k m w. carry (at s.pc i (panicked true)) (λ j c. ground arith) k m (ground arith)
  Step-IsHopeful (lock_spin i n e f) =
      λ k m w. carry (at s.pc i testing) (λ j c. ground arith) k m (ground arith)
  Step-IsHopeful (lock_wchan i n e f g) = λ k m w. inl f
  Step-IsHopeful (unlock_spin i n e) =
      λ k m w. carry (at s.pc i dozing) (λ j c. ground arith) k m (ground arith)
  Step-IsHopeful (sleep i n e) =
      λ k m w. carry (at s.pc i asleep) (λ j c. ground arith) k m (ground arith)
  Step-IsHopeful (take i n e f) = λ k m w. inl n
  Step-IsHopeful (acquired i n e) =
      λ k m w. carry (at s.pc i critical) (λ j c. ground arith) k m (ground arith)
  Step-IsHopeful (release i n e) =
      λ k m w. carry (at s.pc i (checking true)) (λ j c. ground arith) k m (ground arith)
  Step-IsHopeful (release_foreign i n e) =
      λ k m w. carry (at s.pc i (checking false)) (λ j c. ground arith) k m (ground arith)
  Step-IsHopeful (check i b n e f) =
      λ k m w. carry (at s.pc i (checked b)) (λ j c. ground arith) k m (ground arith)
  Step-IsHopeful (confirm i b n e h) =
      λ k m w. carry (at s.pc i confirmed) (λ j c. ground arith) k m (ground arith)
  Step-IsHopeful (deny i b n e h) =
      λ k m w. carry (at s.pc i foreign) (λ j c. ground arith) k m (ground arith)
  Step-IsHopeful (leave i n e) =
      λ k m w. carry (at s.pc i leaving) (λ j c. ground arith) k m (ground arith)
  Step-IsHopeful (panic_release i n e) =
      λ k m w. carry (at s.pc i (panicked false)) (λ j c. ground arith) k m (ground arith)
  Step-IsHopeful (release_spin i n e f) =
      λ k m w. carry (at s.pc i clearing) (λ j c. ground arith) k m (ground arith)
  Step-IsHopeful (clear i n e) = λ k m w. inr (i, n, ground arith)
  Step-IsHopeful (wake_none i n e f g) =
      λ k m w. absurd (nobody k m (waiting_where v k m (ground arith)))
    where
      nobody : (k : ℕ) → k ≢ 0 → (count k s.wc_threads ≡ 1) ⊎ (s.wc_lock ≡ k) → ⊥
      nobody k m (inl a) = ground (arith, ap (count k) g)
      nobody k m (inr a) = ground arith
  Step-IsHopeful (wake_one i p rest n e f g) =
      let c : p ≢ 0 = ground (arith, v.named, ap (count 0) g) in
      λ k m w. inr (p, c, ground (arith, v.asleep_once p c, ap (count p) g))
  Step-IsHopeful (released i n e) =
      λ k m w. carry (at s.pc i outside) (λ j c. ground arith) k m (ground arith)

Reach-IsHopeful : {s : Lock} → Reach s → IsHopeful s
Reach-IsHopeful start = λ i n w. cc
Reach-IsHopeful (later r step) = Step-IsHopeful (Reach-IsValid r) (Reach-IsHopeful r) step

-- In every state that threads can reach, a thread that sleeps on the lock, or has decided to, sleeps
-- while `lk_holder` is set or while another thread is in lock_acquire, past its assertion and not
-- asleep, or in lock_release with `lk_holder` cleared and the wakeup to come. No release goes by
-- between the test of `lk_holder` and the sleep.
pub no_lost_wakeup :
    {s : Lock} → Reach s → (i : ℕ) → i ≢ 0 → waits (s.pc i) ≡ true → Hope s.lk_holder s.pc
no_lost_wakeup r = Reach-IsHopeful r
