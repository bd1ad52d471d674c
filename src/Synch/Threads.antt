-- ===== src/Synch/Threads.antt =====
-- lock_acquire, lock_release and lock_do_i_hold of thread/synch.c, run by any number of threads on one
-- lock, with wchan_lock, wchan_sleep and wchan_wakeone of thread/thread.c. A thread is a number but 0,
-- which is NULL. Any thread may call either function, with or without the lock.
use polito_os161v.Common.{ℕ, Bool, true, false, ◌==◌, ◌≡◌, ◌≢◌, List, [], ◌∷◌, ◌++◌, if◌then◌else◌}

-- Where a thread is: outside both functions, without or with the lock; in `lock_do_i_hold` of
-- `lock_acquire`, before and after it takes the spinlock, where the flag says whether the thread has
-- the lock, and after the comparison, which admits it or finds that it has the lock; at
-- `spinlock_acquire` of `lock_acquire`; in its loop, with the spinlock; with the wait channel locked,
-- before and after the spinlock is released; asleep on the channel; past the loop with `lk_holder`
-- set; in `lock_do_i_hold` of `lock_release`, in the same way; at `spinlock_acquire` of
-- `lock_release`; before and after `lk_holder` is cleared, and after the wakeup; and past an assertion
-- that failed.
pub data Pc : Type 0 where
  outside critical : Pc
  asking asked : Bool → Pc
  admitted recursive : Pc
  entering testing parking dozing asleep taken : Pc
  checking checked : Bool → Pc
  confirmed foreign : Pc
  leaving clearing waking woken : Pc
  panicked : Bool → Pc

-- `lk_lock` and `wc_lock` are the owners of the two spinlocks.
pub record Lock : Type 0 where
  pub lk_lock : ℕ
  pub wc_lock : ℕ
  pub lk_holder : ℕ
  pub wc_threads : List ℕ
  pub pc : ℕ → Pc

abbrev pub at : (ℕ → Pc) → ℕ → Pc → ℕ → Pc
at pc i p j = if j == i then p else pc j

-- The steps of thread `i`. A spinlock is taken only while it is free. A thread whose assertion fails
-- takes no further step; the others may still run.
pub data Step (s : Lock) : Lock → Type 0 where
  call : (i : ℕ) → i ≢ 0 → s.pc i ≡ outside → Step s (record s { pc = at s.pc i (asking false) })
  call_again :
      (i : ℕ) → i ≢ 0 → s.pc i ≡ critical → Step s (record s { pc = at s.pc i (asking true) })
  ask :
      (i : ℕ) (b : Bool)
      → i ≢ 0
      → s.pc i ≡ asking b
      → s.lk_lock ≡ 0
      → Step s (record s { lk_lock = i; pc = at s.pc i (asked b) })
  answer_no :
      (i : ℕ) (b : Bool)
      → i ≢ 0
      → s.pc i ≡ asked b
      → s.lk_holder ≢ i
      → Step s (record s { pc = at s.pc i admitted })
  answer_yes :
      (i : ℕ) (b : Bool)
      → i ≢ 0
      → s.pc i ≡ asked b
      → s.lk_holder ≡ i
      → Step s (record s { pc = at s.pc i recursive })
  admit :
      (i : ℕ)
      → i ≢ 0
      → s.pc i ≡ admitted
      → Step s (record s { lk_lock = 0; pc = at s.pc i entering })
  panic_acquire :
      (i : ℕ)
      → i ≢ 0
      → s.pc i ≡ recursive
      → Step s (record s { lk_lock = 0; pc = at s.pc i (panicked true) })
  lock_spin :
      (i : ℕ)
      → i ≢ 0
      → s.pc i ≡ entering
      → s.lk_lock ≡ 0
      → Step s (record s { lk_lock = i; pc = at s.pc i testing })
  lock_wchan :
      (i : ℕ)
      → i ≢ 0
      → s.pc i ≡ testing
      → s.lk_holder ≢ 0
      → s.wc_lock ≡ 0
      → Step s (record s { wc_lock = i; pc = at s.pc i parking })
  unlock_spin :
      (i : ℕ) → i ≢ 0 → s.pc i ≡ parking → Step s (record s { lk_lock = 0; pc = at s.pc i dozing })
  sleep :
      (i : ℕ)
      → i ≢ 0
      → s.pc i ≡ dozing
      → Step s
          (record s { wc_lock = 0; wc_threads = s.wc_threads ++ i ∷ []; pc = at s.pc i asleep })
  take :
      (i : ℕ)
      → i ≢ 0
      → s.pc i ≡ testing
      → s.lk_holder ≡ 0
      → Step s (record s { lk_holder = i; pc = at s.pc i taken })
  acquired :
      (i : ℕ) → i ≢ 0 → s.pc i ≡ taken → Step s (record s { lk_lock = 0; pc = at s.pc i critical })
  release :
      (i : ℕ) → i ≢ 0 → s.pc i ≡ critical → Step s (record s { pc = at s.pc i (checking true) })
  release_foreign :
      (i : ℕ) → i ≢ 0 → s.pc i ≡ outside → Step s (record s { pc = at s.pc i (checking false) })
  check :
      (i : ℕ) (b : Bool)
      → i ≢ 0
      → s.pc i ≡ checking b
      → s.lk_lock ≡ 0
      → Step s (record s { lk_lock = i; pc = at s.pc i (checked b) })
  confirm :
      (i : ℕ) (b : Bool)
      → i ≢ 0
      → s.pc i ≡ checked b
      → s.lk_holder ≡ i
      → Step s (record s { pc = at s.pc i confirmed })
  deny :
      (i : ℕ) (b : Bool)
      → i ≢ 0
      → s.pc i ≡ checked b
      → s.lk_holder ≢ i
      → Step s (record s { pc = at s.pc i foreign })
  leave :
      (i : ℕ)
      → i ≢ 0
      → s.pc i ≡ confirmed
      → Step s (record s { lk_lock = 0; pc = at s.pc i leaving })
  panic_release :
      (i : ℕ)
      → i ≢ 0
      → s.pc i ≡ foreign
      → Step s (record s { lk_lock = 0; pc = at s.pc i (panicked false) })
  release_spin :
      (i : ℕ)
      → i ≢ 0
      → s.pc i ≡ leaving
      → s.lk_lock ≡ 0
      → Step s (record s { lk_lock = i; pc = at s.pc i clearing })
  clear :
      (i : ℕ)
      → i ≢ 0
      → s.pc i ≡ clearing
      → Step s (record s { lk_holder = 0; pc = at s.pc i waking })
  wake_none :
      (i : ℕ)
      → i ≢ 0
      → s.pc i ≡ waking
      → s.wc_lock ≡ 0
      → s.wc_threads ≡ []
      → Step s (record s { pc = at s.pc i woken })
  wake_one :
      (i j : ℕ) (rest : List ℕ)
      → i ≢ 0
      → s.pc i ≡ waking
      → s.wc_lock ≡ 0
      → s.wc_threads ≡ j ∷ rest
      → Step s (record s { wc_threads = rest; pc = at (at s.pc j entering) i woken })
  released :
      (i : ℕ) → i ≢ 0 → s.pc i ≡ woken → Step s (record s { lk_lock = 0; pc = at s.pc i outside })

-- `lock_create`, with every thread outside.
abbrev pub init : Lock
init = record { lk_lock = 0; wc_lock = 0; lk_holder = 0; wc_threads = []; pc = λ i. outside }

pub data Reach : Lock → Type 0 where
  start : Reach init
  later : {s t : Lock} → Reach s → Step s t → Reach t
