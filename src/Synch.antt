-- ===== src/Synch.antt =====
-- thread/synch.c: locks and semaphores, as one thread sees them between two of its sleeps.
pub mod Threads
pub mod Exclusion
pub mod Wakeup
pub mod Progress
use polito_os161v.Common.{
  ℕ, ◌+◌, ◌-◌, Bool, false, ◌==◌, if◌then◌else◌, u32, ok, panic, block, Cmd, ltb,
}

-- `struct lock`: nobody holds it, a thread holds it, or `lock_destroy` has freed it.
pub data Lock : Type 0 where
  free : Lock
  held : ℕ → Lock
  gone : Lock

-- `lock_do_i_hold`, for the thread `cur`. The lock's memory must still be there.
unfoldable pub do_i_hold : ℕ → Cmd Lock Bool
do_i_hold cur free = ok false free
do_i_hold cur (held t) = ok (t == cur) (held t)
do_i_hold cur gone = panic

-- `lock_acquire`: a second acquire by the holder fails the KASSERT; where another thread holds the
-- lock the caller sleeps.
unfoldable pub acquire : ℕ → Cmd Lock (Unit {0})
acquire cur free = ok tt (held cur)
acquire cur (held t) = if t == cur then panic else block
acquire cur gone = panic

-- `lock_release`, by the holder only.
unfoldable pub release : ℕ → Cmd Lock (Unit {0})
release cur free = panic
release cur (held t) = if t == cur then ok tt free else panic
release cur gone = panic

-- `lock_destroy`, with the KASSERT that nobody holds the lock.
unfoldable pub destroy : Cmd Lock (Unit {0})
destroy free = ok tt gone
destroy (held t) = panic
destroy gone = panic

-- `P` on `sem_count`: the caller sleeps at 0.
unfoldable pub sem_down : Cmd ℕ (Unit {0})
sem_down count = if count == 0 then block else ok tt (count - 1)

-- `V` on `sem_count`, an `unsigned` whose wrap to 0 fails the KASSERT.
unfoldable pub sem_up : Cmd ℕ (Unit {0})
sem_up count = let n = u32 (count + 1) in if ltb 0 n then ok tt n else panic
