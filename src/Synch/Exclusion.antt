-- ===== src/Synch/Exclusion.antt =====
-- What holds of a lock and its threads in every reachable state.
use polito_os161v.Common.{
  ℕ, ◌+◌, ap, Bool, true, false, ◌==◌, ◌≡◌, ◌≢◌, refl, arith, List, [], ◌∷◌, ◌++◌, if◌then◌else◌,
}
use polito_os161v.Synch.Threads.{
  Pc, outside, critical, asking, asked, admitted, recursive, entering, testing, parking, dozing,
  asleep, taken, checking, checked, confirmed, foreign, leaving, clearing, waking, woken, panicked,
  Lock, at, Step, call, call_again, ask, answer_no, answer_yes, admit, panic_acquire, lock_spin,
  lock_wchan, unlock_spin, sleep, take, acquired, release, release_foreign, check, confirm, deny,
  leave, panic_release, release_spin, clear, wake_none, wake_one, released, init, Reach, start,
  later,
}

-- Which threads own the spinlock, the wait channel and the lock, and which sleep.
abbrev pub spins : Pc → Bool
spins testing = true
spins parking = true
spins taken = true
spins clearing = true
spins waking = true
spins woken = true
spins (asked b) = true
spins admitted = true
spins recursive = true
spins (checked b) = true
spins confirmed = true
spins foreign = true
spins _ = false

abbrev pub owns_wchan : Pc → Bool
owns_wchan parking = true
owns_wchan dozing = true
owns_wchan _ = false

abbrev pub owns : Pc → Bool
owns taken = true
owns critical = true
owns leaving = true
owns clearing = true
owns (asking b) = b
owns (asked b) = b
owns recursive = true
owns (checking b) = b
owns (checked b) = b
owns confirmed = true
owns (panicked b) = b
owns _ = false

abbrev pub sleeps : Pc → Bool
sleeps asleep = true
sleeps _ = false

abbrev pub count : ℕ → List ℕ → ℕ
count i [] = 0
count i (x ∷ xs) = (if x == i then 1 else 0) + count i xs

count-append :
    (i j : ℕ) (xs : List ℕ) → count i (xs ++ j ∷ []) ≡ count i xs + (if j == i then 1 else 0)
count-append i j [] = omega arith
count-append i j (x ∷ xs) = omega (arith, count-append i j xs)

pub record IsValid (s : Lock) : Type 0 where
  pub spin : (i : ℕ) → i ≢ 0 → spins (s.pc i) ≡ (s.lk_lock == i)
  pub wchan : (i : ℕ) → i ≢ 0 → owns_wchan (s.pc i) ≡ (s.wc_lock == i)
  pub holder : (i : ℕ) → i ≢ 0 → owns (s.pc i) ≡ (s.lk_holder == i)
  pub named : count 0 s.wc_threads ≡ 0
  pub asleep_once : (i : ℕ) → i ≢ 0 → count i s.wc_threads ≡ (if sleeps (s.pc i) then 1 else 0)

init-IsValid : IsValid init
init-IsValid = record {
  spin = λ i n. ground arith;
  wchan = λ i n. ground arith;
  holder = λ i n. ground arith;
  named = refl;
  asleep_once = λ i n. ground arith;
}

module _ {s : Lock} (v : IsValid s) (i : ℕ) (n : i ≢ 0) (p : Pc)
    (wchan : owns_wchan p ≡ owns_wchan (s.pc i)) (holder : owns p ≡ owns (s.pc i))
    (asleep_too : sleeps p ≡ sleeps (s.pc i)) where
  -- The thread `i` goes on to `p`.
  goes_on : spins p ≡ spins (s.pc i) → IsValid (record s { pc = at s.pc i p })
  goes_on e = record {
    spin = λ j m. ground (arith, v.spin j m);
    wchan = λ j m. ground (arith, v.wchan j m);
    holder = λ j m. ground (arith, v.holder j m);
    named = v.named;
    asleep_once = λ j m. ground (arith, v.asleep_once j m);
  }

  -- It takes the spinlock on the way.
  takes_spin : s.lk_lock ≡ 0 → spins p ≡ true → IsValid (record s { lk_lock = i; pc = at s.pc i p })
  takes_spin f e = record {
    spin = λ j m. ground (arith, v.spin j m);
    wchan = λ j m. ground (arith, v.wchan j m);
    holder = λ j m. ground (arith, v.holder j m);
    named = v.named;
    asleep_once = λ j m. ground (arith, v.asleep_once j m);
  }

  -- It gives the spinlock back.
  drops_spin :
      spins (s.pc i) ≡ true → spins p ≡ false → IsValid (record s { lk_lock = 0; pc = at s.pc i p })
  drops_spin o e = record {
    spin = λ j m. ground (arith, v.spin j m, v.spin i n);
    wchan = λ j m. ground (arith, v.wchan j m);
    holder = λ j m. ground (arith, v.holder j m);
    named = v.named;
    asleep_once = λ j m. ground (arith, v.asleep_once j m);
  }

module _ {s : Lock} (v : IsValid s) where
  pub Step-IsValid : {t : Lock} → Step s t → IsValid t
  Step-IsValid (call i n e) =
      goes_on v i n (asking false) (ground arith) (ground arith) (ground arith) (ground arith)
  Step-IsValid (call_again i n e) =
      goes_on v i n (asking true) (ground arith) (ground arith) (ground arith) (ground arith)
  Step-IsValid (ask i b n e f) =
      takes_spin v i n (asked b) (ground arith) (ground arith) (ground arith) f refl
  Step-IsValid (answer_no i b n e h) =
      goes_on v i n admitted (ground arith) (ground (arith, v.holder i n)) (ground arith)
        (ground arith)
  Step-IsValid (answer_yes i b n e h) =
      goes_on v i n recursive (ground arith) (ground (arith, v.holder i n)) (ground arith)
        (ground arith)
  Step-IsValid (admit i n e) =
      drops_spin v i n entering (ground arith) (ground arith) (ground arith) (ground arith) refl
  Step-IsValid (panic_acquire i n e) =
      drops_spin v i n (panicked true) (ground arith) (ground arith) (ground arith) (ground arith)
        refl
  Step-IsValid (lock_spin i n e f) =
      takes_spin v i n testing (ground arith) (ground arith) (ground arith) f refl
  Step-IsValid (lock_wchan i n e h f) = record {
    spin = λ j m. ground (arith, v.spin j m, v.spin i n);
    wchan = λ j m. ground (arith, v.wchan j m, v.wchan i n);
    holder = λ j m. ground (arith, v.holder j m, v.holder i n);
    named = v.named;
    asleep_once = λ j m. ground (arith, v.asleep_once j m, v.asleep_once i n);
  }
  Step-IsValid (unlock_spin i n e) =
      drops_spin v i n dozing (ground arith) (ground arith) (ground arith) (ground arith) refl
  Step-IsValid (sleep i n e) = record {
    spin = λ j m. ground (arith, v.spin j m, v.spin i n);
    wchan = λ j m. ground (arith, v.wchan j m, v.wchan i n);
    holder = λ j m. ground (arith, v.holder j m, v.holder i n);
    named = ground (arith, v.named, count-append 0 i s.wc_threads);
    asleep_once =
        λ j m. ground (arith, v.asleep_once j m, v.asleep_once i n, count-append j i s.wc_threads);
  }
  Step-IsValid (take i n e h) = record {
    spin = λ j m. ground (arith, v.spin j m, v.spin i n);
    wchan = λ j m. ground (arith, v.wchan j m, v.wchan i n);
    holder = λ j m. ground (arith, v.holder j m, v.holder i n);
    named = v.named;
    asleep_once = λ j m. ground (arith, v.asleep_once j m, v.asleep_once i n);
  }
  Step-IsValid (acquired i n e) =
      drops_spin v i n critical (ground arith) (ground arith) (ground arith) (ground arith) refl
  Step-IsValid (release i n e) =
      goes_on v i n (checking true) (ground arith) (ground arith) (ground arith) (ground arith)
  Step-IsValid (release_foreign i n e) =
      goes_on v i n (checking false) (ground arith) (ground arith) (ground arith) (ground arith)
  Step-IsValid (check i b n e f) =
      takes_spin v i n (checked b) (ground arith) (ground arith) (ground arith) f refl
  Step-IsValid (confirm i b n e h) =
      goes_on v i n confirmed (ground arith) (ground (arith, v.holder i n)) (ground arith)
        (ground arith)
  Step-IsValid (deny i b n e h) =
      goes_on v i n foreign (ground arith) (ground (arith, v.holder i n)) (ground arith)
        (ground arith)
  Step-IsValid (leave i n e) =
      drops_spin v i n leaving (ground arith) (ground arith) (ground arith) (ground arith) refl
  Step-IsValid (panic_release i n e) =
      drops_spin v i n (panicked false) (ground arith) (ground arith) (ground arith) (ground arith)
        refl
  Step-IsValid (release_spin i n e f) =
      takes_spin v i n clearing (ground arith) (ground arith) (ground arith) f refl
  Step-IsValid (clear i n e) = record {
    spin = λ j m. ground (arith, v.spin j m, v.spin i n);
    wchan = λ j m. ground (arith, v.wchan j m, v.wchan i n);
    holder = λ j m. ground (arith, v.holder j m, v.holder i n);
    named = v.named;
    asleep_once = λ j m. ground (arith, v.asleep_once j m, v.asleep_once i n);
  }
  Step-IsValid (wake_none i n e f w) =
      goes_on v i n woken (ground arith) (ground arith) (ground arith) (ground arith)
  Step-IsValid (wake_one i p rest n e f w) =
      let c : p ≢ 0 = ground (arith, v.named, ap (count 0) w) in
      record {
        spin = λ j m. ground (arith, v.spin j m, v.spin i n, v.asleep_once p c, ap (count p) w);
        wchan = λ j m. ground (arith, v.wchan j m, v.wchan i n, v.asleep_once p c, ap (count p) w);
        holder =
            λ j m. ground (arith, v.holder j m, v.holder i n, v.asleep_once p c, ap (count p) w);
        named = ground (arith, v.named, ap (count 0) w);
        asleep_once = λ j m.
            ground (arith, v.asleep_once j m, ap (count j) w, v.asleep_once p c, ap (count p) w);
      }
  Step-IsValid (released i n e) =
      drops_spin v i n outside (ground arith) (ground arith) (ground arith) (ground arith) refl

pub Reach-IsValid : {s : Lock} → Reach s → IsValid s
Reach-IsValid start = init-IsValid
Reach-IsValid (later r step) = Step-IsValid (Reach-IsValid r) step

-- In every state that threads can reach by lock_acquire and lock_release, called in any order and
-- interleaved in any way, at most one thread is in the part of the code from where lock_acquire has set
-- `lk_holder` to where lock_release is about to clear it; and it is the thread in `lk_holder`.
pub mutual_exclusion :
    {s : Lock}
    → Reach s
    → (i j : ℕ) → i ≢ 0
    → j ≢ 0
    → owns (s.pc i) ≡ true
    → owns (s.pc j) ≡ true
    → (i ≡ j) × (s.lk_holder ≡ i)
mutual_exclusion r i j n m e f =
    let v = Reach-IsValid r in ground (arith, v.holder i n, v.holder j m)
