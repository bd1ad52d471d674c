-- ===== src/Proc/Pid.antt =====
-- proc_alloc_pid of proc/proc.c: which slot of the process table is given.
use native.Mathlib.Decide.{dec_le, ℕ_discrete}
use polito_os161v.Common.{
  ℕ, zero, suc, ◌+◌, ◌-◌, ◌<◌, ◌≤◌, ◌≡◌, ◌≢◌, inl, inr, arith, sym, ap, ok, Run, ◌==◌, leb,
  Bool-cases, Option, none, some, List, get_or, if◌then◌else◌, Res, good, fail, enproc, subst,
}
use polito_os161v.Synch.{free, held}
use polito_os161v.Kernel.{Ptr, Kernel}
use polito_os161v.Kernel.Access.{exec}
use polito_os161v.Proc.{scan, proc_alloc_pid, proc_found_spot, found, search, max_processes}
use polito_os161v.File.{kassert}

-- What a scan of the slots from `i` below `top` finds: the first that is NULL, or that none is.
pub data FirstNull (l : List Ptr) (i top : ℕ) : Option ℕ → Type 0 where
  at :
      (j : ℕ)
      → i ≤ j
      → j < top
      → get_or l j 0 ≡ 0
      → ((m : ℕ) → i ≤ m → m < j → get_or l m 0 ≢ 0)
      → FirstNull l i top (some j)
  none_left : ((m : ℕ) → i ≤ m → m < top → get_or l m 0 ≢ 0) → FirstNull l i top none

scan-FirstNull : (n i : ℕ) (l : List Ptr) → FirstNull l i (i + n) (scan n i l)
unfolding scan
scan-FirstNull zero i l = none_left (λ m a b. absurd (omega arith))
scan-FirstNull (suc n) i l = elim (Bool-cases (get_or l i 0 == 0)) [
  | inl e ↦ rw e (at i (omega arith) (omega arith) (ground arith) (λ m a b. absurd (omega arith)))
  | inr e ↦ rw e (later (ground arith) (scan-FirstNull n (i + 1) l))
]
  where
    passed :
        get_or l i 0 ≢ 0
        → (j : ℕ) → ((m : ℕ) → i + 1 ≤ m → m < j → get_or l m 0 ≢ 0)
        → (m : ℕ) → i ≤ m
        → m < j
        → get_or l m 0 ≢ 0
    passed ne j h m a b = elim (ℕ_discrete i m) [ yes e ↦ rw (← e) ne | no d ↦ h m (omega arith) b ]

    later :
        get_or l i 0 ≢ 0
        → {o : Option ℕ} → FirstNull l (i + 1) (i + 1 + n) o
        → FirstNull l i (i + suc n) o
    later ne (at j a b z h) = at j (omega arith) (omega arith) z (passed ne j h)
    later ne (none_left h) = none_left (passed ne (i + suc n) (λ m a b. h m a (omega arith)))

-- The slot where the search starts.
abbrev pub start_of : Kernel → ℕ
start_of k = if leb max_processes k.next_pid then 0 else k.next_pid

-- The outcomes of `proc_alloc_pid`: the first NULL slot from `start_of` on, or else the first before
-- it, which becomes the process number and moves `next_pid` past it; or ENPROC when no slot is NULL.
pub data Numbered (k : Kernel) : Run Kernel (Res ℕ) → Type 0 where
  above :
      (i : ℕ)
      → start_of k ≤ i
      → i < max_processes
      → get_or k.p_table i 0 ≡ 0
      → ((m : ℕ) → start_of k ≤ m → m < i → get_or k.p_table m 0 ≢ 0)
      → Numbered k (ok (good i) (record k { next_pid = i + 1 }))
  below :
      (i : ℕ)
      → i < start_of k
      → get_or k.p_table i 0 ≡ 0
      → ((m : ℕ) → start_of k ≤ m → m < max_processes → get_or k.p_table m 0 ≢ 0)
      → ((m : ℕ) → m < i → get_or k.p_table m 0 ≢ 0)
      → Numbered k (ok (good i) (record k { next_pid = i + 1 }))
  exhausted :
      ((m : ℕ) → m < max_processes → get_or k.p_table m 0 ≢ 0)
      → Numbered k (ok (fail enproc) (record k { next_pid = start_of k }))

module _ (k : Kernel) (free_lock : k.lk_allproc ≡ free) where
  abbrev locked : Kernel
  locked = record k { next_pid = start_of k; lk_allproc = held k.cur }

  give :
      (i : ℕ)
      → get_or k.p_table i 0 ≡ 0
      → proc_found_spot i locked ≡ ok (good i) (record k { next_pid = i + 1 })
  unfolding proc_found_spot
  give i z =
      simp (exec, proc_found_spot, kassert, z)
        (ap (λ l. ok (good i) (record k { next_pid = i + 1; lk_allproc = l })) (sym free_lock))

  refuse : found none none locked ≡ ok (fail enproc) (record k { next_pid = start_of k })
  unfolding found
  refuse =
      simp (exec, found)
        (ap (λ l. ok (fail enproc) (record k { next_pid = start_of k; lk_allproc = l }))
          (sym free_lock))

  -- What the two loops found decides the outcome.
  found-Numbered :
      {a b : Option ℕ}
      → FirstNull k.p_table (start_of k) max_processes a
      → FirstNull k.p_table 0 (start_of k) b
      → Numbered k (found a b locked)
  unfolding found
  found-Numbered (at i l h z m) _ = rw (found, give i z) (above i l h z m)
  found-Numbered (none_left h) (at i l g z m) =
      rw (found, give i z) (below i g z h (λ j. m j (omega arith)))
  found-Numbered (none_left h) (none_left g) = rw refuse (exhausted all)
    where
      all : (m : ℕ) → m < max_processes → get_or k.p_table m 0 ≢ 0
      all m l = elim (dec_le (start_of k) m) [
        | yes a ↦ h m a l
        | no b ↦ g m (omega arith) (omega arith)
      ]

  start_inside : start_of k ≤ max_processes
  start_inside = ground arith

-- With the lock of the process table free, proc_alloc_pid does not panic or sleep: it takes the first
-- NULL slot from next_pid on, going round to the slots before it, or returns ENPROC when there is none.
-- The table itself is unchanged: the slot is still NULL.
pub proc_alloc_pid-Numbered : (k : Kernel) → k.lk_allproc ≡ free → Numbered k (proc_alloc_pid k)
unfolding proc_alloc_pid
proc_alloc_pid-Numbered k e =
    let a : FirstNull k.p_table (start_of k) max_processes
        (scan (max_processes - start_of k) (start_of k) k.p_table) =
      subst
        (λ t.
          FirstNull k.p_table (start_of k) t
            (scan (max_processes - start_of k) (start_of k) k.p_table))
        (omega (arith, start_inside k e))
        (scan-FirstNull (max_processes - start_of k) (start_of k) k.p_table) in
    let b : FirstNull k.p_table 0 (start_of k) (scan (start_of k) 0 k.p_table) =
      subst (λ t. FirstNull k.p_table 0 t (scan (start_of k) 0 k.p_table)) (omega arith)
        (scan-FirstNull (start_of k) 0 k.p_table) in
    simp (proc_alloc_pid, search, exec, e) (found-Numbered k e a b)
