-- ===== src/Tests/Threads.antt =====
-- Thread lists, and threads on a lock, at concrete states.
use polito_os161v.Common.{ℕ, false, ◌==◌, ◌≡◌, refl, arith, [], ◌∷◌, if◌then◌else◌}
use polito_os161v.Threadlist.{
  Nodes, Threadlist, addhead, addtail, insertafter, insertbefore, remove, remhead, remtail,
}
use polito_os161v.Threadlist.Laws.{Holds, IsFree}
use polito_os161v.Threadlist.Ends.{Does, TakesOff, Ends, add_lem, insert_lem, remove_lem, rem_lem}
use polito_os161v.Synch.Threads.{
  Pc, critical, asleep, entering, Lock, at, call, ask, answer_no, admit, lock_spin, lock_wchan,
  unlock_spin, sleep, take, acquired, init, Reach, start, later,
}
use polito_os161v.Synch.Exclusion.{mutual_exclusion}
use polito_os161v.Synch.Wakeup.{Hope, no_lost_wakeup}
use polito_os161v.Synch.Progress.{panics, Move, no_deadlock}

-- A list between the bookends at 1 and 2 that holds the thread 10.
abbrev queue : Threadlist
queue = record { head = 1; tail = 2 }

abbrev one : Nodes
one = record {
  next = λ a. if a == 1 then 10 else if a == 10 then 2 else 0;
  prev = λ a. if a == 2 then 10 else if a == 10 then 1 else 0;
  self = λ a. a;
  count = λ a. 1;
}

one-Holds : Holds queue (10 ∷ []) one
one-Holds = record {
  links = (refl, refl, (refl, refl, refl));
  distinct = omega arith;
  nonzero = omega arith;
  first = refl;
  selves = (refl, tt);
  counted = refl;
}

spare-IsFree : IsFree queue (10 ∷ []) 11 one
spare-IsFree = record { nonzero = omega arith; apart = omega arith; self = refl }

add_lem_example :
    Does queue (10 ∷ []) 11 one (11 ∷ 10 ∷ []) tt (addhead queue 11 one)
    × Does queue (10 ∷ []) 11 one (10 ∷ 11 ∷ []) tt (addtail queue 11 one)
add_lem_example = add_lem queue one-Holds spare-IsFree

insert_lem_example :
    Does queue (10 ∷ []) 11 one (10 ∷ 11 ∷ []) tt (insertafter queue 10 11 one)
    × Does queue (10 ∷ []) 11 one (11 ∷ 10 ∷ []) tt (insertbefore queue 11 10 one)
insert_lem_example = insert_lem queue [] [] 10 11 one-Holds spare-IsFree

remove_lem_example : TakesOff queue (10 ∷ []) 10 one [] tt (remove queue 10 one)
remove_lem_example = remove_lem queue [] [] 10 one one-Holds

rem_lem_example : Ends queue one (10 ∷ []) (remhead queue one) (remtail queue one)
rem_lem_example = rem_lem queue one (10 ∷ []) one-Holds

-- Thread 7 has the lock, and thread 8 sleeps on it.
abbrev contended : Lock
contended = record {
  lk_lock = 0;
  wc_lock = 0;
  lk_holder = 7;
  wc_threads = 8 ∷ [];
  pc =
      at
        (at
          (at
            (at
              (at
                (at
                  (at
                    (at
                      (at
                        (at
                          (at
                            (at
                              (at (at (at init.pc 7 (Pc.asking false)) 7 (Pc.asked false)) 7
                                Pc.admitted)
                              7 entering)
                            7 Pc.testing)
                          7 Pc.taken)
                        7 critical)
                      8 (Pc.asking false))
                    8 (Pc.asked false))
                  8 Pc.admitted)
                8 entering)
              8 Pc.testing)
            8 Pc.parking)
          8 Pc.dozing)
        8 asleep;
}

contended-Reach : Reach contended
contended-Reach =
    later
      (later
        (later
          (later
            (later
              (later
                (later
                  (later
                    (later
                      (later
                        (later
                          (later
                            (later
                              (later (later start (call 7 (omega arith) refl))
                                (ask 7 false (omega arith) refl refl))
                              (answer_no 7 false (omega arith) refl (omega arith)))
                            (admit 7 (omega arith) refl))
                          (lock_spin 7 (omega arith) refl refl))
                        (take 7 (omega arith) refl refl))
                      (acquired 7 (omega arith) refl))
                    (call 8 (omega arith) refl))
                  (ask 8 false (omega arith) refl refl))
                (answer_no 8 false (omega arith) refl (omega arith)))
              (admit 8 (omega arith) refl))
            (lock_spin 8 (omega arith) refl refl))
          (lock_wchan 8 (omega arith) refl (omega arith) refl))
        (unlock_spin 8 (omega arith) refl))
      (sleep 8 (omega arith) refl)

mutual_exclusion_example : (◌≡◌ {A = ℕ} 7 7) × (contended.lk_holder ≡ 7)
mutual_exclusion_example =
    mutual_exclusion contended-Reach 7 7 (omega arith) (omega arith) refl refl

no_lost_wakeup_example : Hope contended.lk_holder contended.pc
no_lost_wakeup_example = no_lost_wakeup contended-Reach 8 (omega arith) refl

nobody_panicked : (j : ℕ) → panics (contended.pc j) ≡ false
nobody_panicked j = ground arith

no_deadlock_example : Move contended
no_deadlock_example = no_deadlock contended-Reach nobody_panicked 8 (omega arith) (λ e. cc)
