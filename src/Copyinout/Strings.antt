-- ===== src/Copyinout/Strings.antt =====
-- Where copyinstr and copyoutstr of vm/copyinout.c stop, and what they return.
use polito_os161v.Common.{
  ℕ, zero, suc, ◌+◌, ◌^◌, ◌≤◌, ◌<◌, ◌≡◌, ◌≢◌, refl, sym, subst, ◌∙◌, ◌⊎◌, inl, inr, arith, Bool,
  true, false, ◌||◌, ◌==◌, ltb, if◌then◌else◌, Res, good, fail, efault, enametoolong, Run, ok,
  Bool-cases, and_then, ==_iff,
}
use polito_os161v.Kernel.{put}
use polito_os161v.Vm.Ram.{move_bytes}
use polito_os161v.Copyinout.{
  Machine, Ended, ran, jumped, userspacetop, copystr_from, copystr, copyinstr, copyoutstr,
  string_copy, finish,
}
use polito_os161v.Copyinout.Laws.{
  Checked, whole, part, refused, copycheck-Checked, move_bytes_step, below_suc, Apart, swap,
  shorter, NoFault, Outside, Kept, moved-Kept,
}

-- The first `n` characters of the string at `src` are not its end.
abbrev pub NoNul : (ℕ → ℕ) → ℕ → ℕ → Type 0
NoNul m src n = (j : ℕ) → j < n → m (src + j) ≢ 0

-- A copy does not change its source.
source_kept :
    (dst src i : ℕ) (m : ℕ → ℕ)
    → Apart dst src (suc i)
    → move_bytes dst src (i + 1) m (src + i) ≡ m (src + i)
source_kept dst src i m (inl h) = ground arith
source_kept dst src i m (inr h) = ground arith

module _ (faults : ℕ → Bool) where
  -- Some access to the first `n` characters faults, before the end of the string.
  abbrev pub FaultBefore : (ℕ → ℕ) → ℕ → ℕ → ℕ → Type 0
  FaultBefore m dst src n =
      (i : ℕ) × (i < n) × ((faults (src + i) || faults (dst + i)) ≡ true) × NoNul m src i

  -- The ways in which the loop of `copystr` ends, for at most `lim` characters.
  data Scanned (dst src lim : ℕ) (over : Res ℕ) (m : ℕ → ℕ)
      : Run Machine (Ended (Res ℕ)) → Type 0 where
    nul :
        {mem : ℕ → ℕ} {i : ℕ}
        → i < lim
        → NoFault faults dst src (i + 1)
        → m (src + i) ≡ 0
        → NoNul m src i
        → ((a : ℕ) → mem a ≡ move_bytes dst src (i + 1) m a)
        → Scanned dst src lim over m
            (ok (ran (good (i + 1))) (record { mem = mem; guarded = true }))
    no_nul :
        {mem : ℕ → ℕ}
        → NoFault faults dst src lim
        → NoNul m src lim
        → ((a : ℕ) → mem a ≡ move_bytes dst src lim m a)
        → Scanned dst src lim over m (ok (ran over) (record { mem = mem; guarded = true }))
    some_fault :
        {mem : ℕ → ℕ}
        → FaultBefore m dst src lim
        → Kept faults dst lim m mem
        → Scanned dst src lim over m (ok jumped (record { mem = mem; guarded = true }))

  copystr_from-Scanned :
      (k i lim dst src maxlen stoplen : ℕ) (m mem : ℕ → ℕ)
      → i + k ≡ lim
      → Apart dst src lim
      → ((j : ℕ) → j < i → (faults (src + j) || faults (dst + j)) ≡ false)
      → NoNul m src i
      → ((a : ℕ) → mem a ≡ move_bytes dst src i m a)
      → Scanned dst src lim
          (if ltb stoplen maxlen then fail efault else fail enametoolong)
          m
          (copystr_from faults k i dst src maxlen stoplen (record { mem = mem; guarded = true }))
  unfolding copystr_from
  copystr_from-Scanned zero i lim dst src maxlen stoplen m mem e apart clear nz eq =
      let z : i ≡ lim = omega arith in
      no_nul (λ j h. clear j (omega arith)) (λ j h. nz j (omega arith))
        (subst (λ l. (a : ℕ) → mem a ≡ move_bytes dst src l m a) z eq)
  copystr_from-Scanned (suc k) i lim dst src maxlen stoplen m mem e apart clear nz eq =
      elim (Bool-cases (faults (src + i) || faults (dst + i))) [
        | inl bad ↦ rw bad (
            some_fault (i, omega arith, bad, nz)
              (moved-Kept faults dst src i lim m mem (omega arith) eq))
        | inr fine ↦
            let clear' =
              below_suc (λ j. (faults (src + j) || faults (dst + j)) ≡ false) i clear fine in
            let eq' = move_bytes_step dst src i m mem (shorter apart (omega arith)) eq in
            let same = eq' (src + i) ∙ source_kept dst src i m (shorter apart (omega arith)) in
            rw fine (elim (Bool-cases (put mem (dst + i) (mem (src + i)) (src + i) == 0)) [
              | inl end ↦ rw end (nul (omega arith) clear' (sym same ∙ (==_iff _ 0).0 end) nz eq')
              | inr on ↦ rw on (
                  copystr_from-Scanned k (i + 1) lim dst src maxlen stoplen m _ (omega arith) apart
                    clear'
                    (below_suc (λ j. m (src + j) ≢ 0) i nz
                      (λ z. cc (sym on ∙ (==_iff _ 0).1 (same ∙ z))))
                    eq')
            ])
      ]

  -- The ways in which `copyinstr` and `copyoutstr` end, for the user pointer `bot`.
  pub data StrCopied (bot dst src len : ℕ) (s : Machine) : Run Machine (Res ℕ) → Type 0 where
    found :
        {mem : ℕ → ℕ} {i : ℕ}
        → i < len
        → bot + i < userspacetop
        → NoFault faults dst src (i + 1)
        → s.mem (src + i) ≡ 0
        → NoNul s.mem src i
        → ((a : ℕ) → mem a ≡ move_bytes dst src (i + 1) s.mem a)
        → StrCopied bot dst src len s (ok (good (i + 1)) (record { mem = mem; guarded = false }))
    too_long :
        {mem : ℕ → ℕ}
        → bot + len ≤ userspacetop
        → NoNul s.mem src len
        → ((a : ℕ) → mem a ≡ move_bytes dst src len s.mem a)
        → StrCopied bot dst src len s
            (ok (fail enametoolong) (record { mem = mem; guarded = false }))
    ran_out :
        {mem : ℕ → ℕ} {k : ℕ}
        → bot + k ≡ userspacetop
        → k < len
        → NoNul s.mem src k
        → ((a : ℕ) → mem a ≡ move_bytes dst src k s.mem a)
        → StrCopied bot dst src len s (ok (fail efault) (record { mem = mem; guarded = false }))
    faulted :
        {mem : ℕ → ℕ}
        → FaultBefore s.mem dst src len
        → Kept faults dst len s.mem mem
        → StrCopied bot dst src len s (ok (fail efault) (record { mem = mem; guarded = false }))
    rejected : Outside bot len → StrCopied bot dst src len s (ok (fail efault) s)

  module _ (bot dst src len : ℕ) (s : Machine) (apart : Apart dst src len) where
    scan :
        (k lim : ℕ)
        → lim ≤ len
        → (if ltb len k then len else k) ≡ lim
        → Scanned dst src lim
            (if ltb k len then fail efault else fail enametoolong)
            s.mem
            (copystr faults dst src len k (record s { guarded = true }))
    unfolding copystr
    scan k lim le e = rw e (
        copystr_from-Scanned lim 0 lim dst src len k s.mem s.mem (omega arith) (less apart)
          (λ j h. absurd (omega arith)) (λ j h. absurd (omega arith)) (λ a. ground arith))
      where
        less : Apart dst src len → Apart dst src lim
        less (inl h) = inl (omega arith)
        less (inr h) = inr (omega arith)

    -- With the whole length in user space.
    end_whole :
        {r : Run Machine (Ended (Res ℕ))}
        → bot + len ≤ userspacetop
        → Scanned dst src len (fail enametoolong) s.mem r
        → StrCopied bot dst src len s (and_then r (finish faults))
    end_whole u (nul {mem} {i} l f z nz e) = found l (omega arith) f z nz e
    end_whole u (no_nul f nz e) = too_long u nz e
    end_whole u (some_fault f k) = faulted f k

    -- With the first `k` characters in user space.
    end_part :
        {r : Run Machine (Ended (Res ℕ))} (k : ℕ)
        → bot + k ≡ userspacetop
        → k < len
        → Scanned dst src k (fail efault) s.mem r
        → StrCopied bot dst src len s (and_then r (finish faults))
    end_part k u lt (nul {mem} {i} l f z nz e) = found (omega arith) (omega arith) f z nz e
    end_part k u lt (no_nul f nz e) = ran_out u lt nz e
    end_part k u lt (some_fault (i, l, b, nz) keep) =
        faulted (i, omega arith, b, nz) (λ a h. keep a (further h))
      where
        further : {a : ℕ} → (a < dst) ⊎ (dst + len ≤ a) → (a < dst) ⊎ (dst + k ≤ a)
        further (inl h) = inl h
        further (inr h) = inr (omega arith)

    string_copy-StrCopied :
        (c : Res ℕ)
        → Checked bot len c
        → StrCopied bot dst src len s (string_copy faults c dst src len s)
    string_copy-StrCopied _ (whole u) =
        let no : ltb len len ≡ false = ground arith in
        end_whole u.1 (rw no at (scan len len (omega arith) (rw no refl)))
    string_copy-StrCopied _ (part {k} ne u (inl o)) =
        let no : ltb len k ≡ false = ground arith in
        let short : ltb k len ≡ true = ground arith in
        end_part k u (omega arith) (rw short at (scan k k (omega arith) (rw no refl)))
    string_copy-StrCopied _ (part {k} ne u (inr o)) =
        let longer : ltb len k ≡ true = ground arith in
        let no : ltb k len ≡ false = ground arith in
        end_whole (omega arith) (rw no at (scan k len (omega arith) (rw longer refl)))
    string_copy-StrCopied _ (refused o) = rejected o

  -- copyinstr and copyoutstr, between blocks that do not overlap, never panic. They succeed
  -- with the string and its NUL copied, and their number for `*gotlen`, only if the NUL is among the
  -- first `len` characters, below USERSPACETOP, and no access up to it faults. Where no NUL is among
  -- them the result is ENAMETOOLONG if all `len` characters lie below USERSPACETOP, and EFAULT if
  -- user space ends first; a fault before the NUL gives EFAULT with nothing outside the destination
  -- changed; a block that is empty, begins above user space or wraps may give EFAULT at once.
  pub copystr-StrCopied :
      (user kernel len : ℕ) (s : Machine)
      → user < 2 ^ 32
      → len < 2 ^ 32
      → Apart kernel user len
      → StrCopied user kernel user len s (copyinstr faults user kernel len s)
        × StrCopied user user kernel len s (copyoutstr faults kernel user len s)
  unfolding copyinstr copyoutstr
  copystr-StrCopied user kernel len s hb hl apart =
      let c = copycheck-Checked user len hb hl in
      (
        string_copy-StrCopied user kernel user len s apart _ c,
        string_copy-StrCopied user user kernel len s (swap kernel user len apart) _ c,
      )
