-- ===== src/Copyinout/Laws.antt =====
-- What vm/copyinout.c lets a copy touch, and what it returns.
use native.Mathlib.Decide.{dec_lt}
use polito_os161v.Common.{
  u32, ℕ, zero, suc, ◌+◌, ◌-◌, ◌^◌, ◌≤◌, ◌<◌, ◌≡◌, ◌≢◌, subst, ◌⊎◌, inl, inr, arith, Bool, true,
  false, ◌||◌, ◌==◌, ltb, leb, Res, good, fail, efault, Run, ok, Bool-cases, and_then, ==_self,
}
use polito_os161v.Kernel.{put}
use polito_os161v.Vm.Ram.{move_bytes}
use polito_os161v.Copyinout.{
  Machine, Ended, ran, jumped, copycheck, userspacetop, memcpy, copyin, copyout, block_copy, finish,
  done,
}

-- A block of user memory: it is not empty, does not wrap and ends below USERSPACETOP.
abbrev pub InUser : ℕ → ℕ → Type 0
InUser bot len = (0 < len) × (bot + len ≤ userspacetop)

-- The block begins above user space, wraps past the end of memory, or is empty.
abbrev pub Outside : ℕ → ℕ → Type 0
Outside bot len = (userspacetop ≤ bot) ⊎ ((2 ^ 32 < bot + len) ⊎ (len ≡ 0))

-- A copy of whole blocks goes on exactly for a block of user memory.
pub data Checked (bot len : ℕ) : Res ℕ → Type 0 where
  whole : InUser bot len → Checked bot len (good len)
  part :
      {k : ℕ}
      → k ≢ len
      → bot + k ≡ userspacetop
      → (userspacetop < bot + len) ⊎ (len ≡ 0)
      → Checked bot len (good k)
  refused : Outside bot len → Checked bot len (fail efault)

pub copycheck-Checked :
    (bot len : ℕ) → bot < 2 ^ 32 → len < 2 ^ 32 → Checked bot len (copycheck bot len)
unfolding copycheck
copycheck-Checked bot len hb hl = elim (Bool-cases (ltb (u32 (bot + len + 2 ^ 32 - 1)) bot)) [
  | inl wraps ↦ rw wraps (refused (inr (wrapped wraps)))
  | inr f ↦ rw f (elim (Bool-cases (leb userspacetop bot)) [
    | inl high ↦ rw high (refused (inl (ground arith)))
    | inr low ↦ rw low (elim (Bool-cases (leb userspacetop (u32 (bot + len + 2 ^ 32 - 1)))) [
      | inl over ↦ rw over (part (ground arith) (ground arith) (outside (ground arith)))
      | inr inside ↦ rw inside (whole (ground arith, ground arith))
    ])
  ])
]
  where
    wrapped : ltb (u32 (bot + len + 2 ^ 32 - 1)) bot ≡ true → (2 ^ 32 < bot + len) ⊎ (len ≡ 0)
    wrapped t = elim (dec_lt 0 len) [ yes p ↦ inl (ground arith) | no p ↦ inr (omega arith) ]

    outside : ¬ InUser bot len → (userspacetop < bot + len) ⊎ (len ≡ 0)
    outside n = elim (dec_lt 0 len) [
      | yes p ↦ inl (elim (dec_lt userspacetop (bot + len)) [
        | yes q ↦ q
        | no q ↦ absurd (n (p, omega arith))
      ])
      | no p ↦ inr (omega arith)
    ]

-- One byte more of a copy between blocks that do not overlap.
pub move_bytes_step :
    (dst src i : ℕ) (m mem : ℕ → ℕ)
    → (dst + suc i ≤ src) ⊎ (src + suc i ≤ dst)
    → ((a : ℕ) → mem a ≡ move_bytes dst src i m a)
    → (a : ℕ) → put mem (dst + i) (mem (src + i)) a ≡ move_bytes dst src (i + 1) m a
unfolding put
move_bytes_step dst src i m mem (inl h) e a = ground (arith, e a, e (src + i))
move_bytes_step dst src i m mem (inr h) e a = ground (arith, e a, e (src + i))

-- A fact about every number below `i`, and about `i`.
pub below_suc : (P : ℕ → Type 0) (i : ℕ) → ((j : ℕ) → j < i → P j) → P i → (j : ℕ) → j < i + 1 → P j
below_suc P i h p j l = elim (dec_lt j i) [
  | yes q ↦ h j q
  | no q ↦ let e : i ≡ j = omega arith in subst P e p
]

-- The blocks of `n` bytes at `dst` and `src` do not overlap.
abbrev pub Apart : ℕ → ℕ → ℕ → Type 0
Apart dst src n = (dst + n ≤ src) ⊎ (src + n ≤ dst)

pub swap : (dst src n : ℕ) → Apart dst src n → Apart src dst n
swap dst src n (inl h) = inr h
swap dst src n (inr h) = inl h

pub shorter : {dst src n i : ℕ} → Apart dst src n → i < n → Apart dst src (suc i)
shorter (inl h) l = inl (omega arith)
shorter (inr h) l = inr (omega arith)

module _ (faults : ℕ → Bool) where
  -- No access to either block of `n` bytes faults.
  abbrev pub NoFault : ℕ → ℕ → ℕ → Type 0
  NoFault dst src n = (i : ℕ) → i < n → (faults (src + i) || faults (dst + i)) ≡ false

  -- Some access does.
  abbrev pub SomeFault : ℕ → ℕ → ℕ → Type 0
  SomeFault dst src n = (i : ℕ) × (i < n) × ((faults (src + i) || faults (dst + i)) ≡ true)

  -- Memory is as it was but for the `n` bytes at `dst`.
  abbrev pub Kept : ℕ → ℕ → (ℕ → ℕ) → (ℕ → ℕ) → Type 0
  Kept dst n m mem = (a : ℕ) → (a < dst) ⊎ (dst + n ≤ a) → mem a ≡ m a

  -- The ways in which a guarded copy of `n` bytes ends.
  data Copied (dst src n : ℕ) (m : ℕ → ℕ) : Run Machine (Ended (Unit {0})) → Type 0 where
    all :
        {mem : ℕ → ℕ}
        → NoFault dst src n
        → ((a : ℕ) → mem a ≡ move_bytes dst src n m a)
        → Copied dst src n m (ok (ran tt) (record { mem = mem; guarded = true }))
    some_fault :
        {mem : ℕ → ℕ}
        → SomeFault dst src n
        → Kept dst n m mem
        → Copied dst src n m (ok jumped (record { mem = mem; guarded = true }))

  -- What is copied so far touches nothing else.
  pub moved-Kept :
      (dst src i n : ℕ) (m mem : ℕ → ℕ)
      → i ≤ n
      → ((a : ℕ) → mem a ≡ move_bytes dst src i m a)
      → Kept dst n m mem
  moved-Kept dst src i n m mem le e a (inl h) = ground (arith, e a)
  moved-Kept dst src i n m mem le e a (inr h) = ground (arith, e a)

  memcpy-Copied :
      (k i n dst src : ℕ) (m mem : ℕ → ℕ)
      → i + k ≡ n
      → Apart dst src n
      → ((j : ℕ) → j < i → (faults (src + j) || faults (dst + j)) ≡ false)
      → ((a : ℕ) → mem a ≡ move_bytes dst src i m a)
      → Copied dst src n m (memcpy faults k i dst src (record { mem = mem; guarded = true }))
  unfolding memcpy
  memcpy-Copied zero i n dst src m mem e apart clear eq =
      let z : i ≡ n = omega arith in
      all (λ j h. clear j (omega arith))
        (subst (λ l. (a : ℕ) → mem a ≡ move_bytes dst src l m a) z eq)
  memcpy-Copied (suc k) i n dst src m mem e apart clear eq =
      elim (Bool-cases (faults (src + i) || faults (dst + i))) [
        | inl bad ↦
            rw bad
              (some_fault (i, omega arith, bad) (moved-Kept dst src i n m mem (omega arith) eq))
        | inr fine ↦ rw fine (
            memcpy-Copied k (i + 1) n dst src m _ (omega arith) apart
              (below_suc (λ j. (faults (src + j) || faults (dst + j)) ≡ false) i clear fine)
              (move_bytes_step dst src i m mem (shorter apart (omega arith)) eq))
      ]

  -- The ways in which `copyin` and `copyout` end, for the user block of `len` bytes at `bot`.
  pub data BlockCopied (bot dst src len : ℕ) (s : Machine)
      : Run Machine (Res (Unit {0})) → Type 0 where
    copied :
        {mem : ℕ → ℕ}
        → InUser bot len
        → NoFault dst src len
        → ((a : ℕ) → mem a ≡ move_bytes dst src len s.mem a)
        → BlockCopied bot dst src len s (ok (good tt) (record { mem = mem; guarded = false }))
    faulted :
        {mem : ℕ → ℕ}
        → InUser bot len
        → SomeFault dst src len
        → Kept dst len s.mem mem
        → BlockCopied bot dst src len s (ok (fail efault) (record { mem = mem; guarded = false }))
    rejected :
        (userspacetop < bot + len) ⊎ (len ≡ 0) → BlockCopied bot dst src len s (ok (fail efault) s)

  block_copy-BlockCopied :
      (bot dst src len : ℕ) (s : Machine)
      → bot < 2 ^ 32
      → len < 2 ^ 32
      → Apart dst src len
      → BlockCopied bot dst src len s (block_copy faults (copycheck bot len) dst src len s)
  block_copy-BlockCopied bot dst src len s hb hl apart =
      go (copycheck bot len) (copycheck-Checked bot len hb hl)
    where
      end :
          {r : Run Machine (Ended (Unit {0}))}
          → InUser bot len
          → Copied dst src len s.mem r
          → BlockCopied bot dst src len s (and_then (and_then r (done faults)) (finish faults))
      end u (all n e) = copied u n e
      end u (some_fault f k) = faulted u f k

      go :
          (c : Res ℕ)
          → Checked bot len c
          → BlockCopied bot dst src len s (block_copy faults c dst src len s)
      go _ (whole u) = rw (==_self len) (
          end u (
            memcpy-Copied len 0 len dst src s.mem s.mem (omega arith) apart
              (λ j h. absurd (omega arith)) (λ a. ground arith)))
      go _ (part {k} ne h o) = let e : (k == len) ≡ false = ground arith in rw e (rejected o)
      go _ (refused (inl h)) = elim (dec_lt 0 len) [
        | yes p ↦ rejected (inl (omega arith))
        | no p ↦ rejected (inr (omega arith))
      ]
      go _ (refused (inr (inl h))) = rejected (inl (omega arith))
      go _ (refused (inr (inr h))) = rejected (inr h)

  -- copyin and copyout, between blocks that do not overlap, never panic, and leave `tm_badfaultfunc`
  -- clear where they have set it. They succeed, with exactly the block copied, if the block of user
  -- memory is not empty, ends below USERSPACETOP and no access faults; on a fault they return EFAULT
  -- with nothing outside the destination changed; and for a block that is empty or reaches
  -- USERSPACETOP they return EFAULT with nothing changed.
  pub copy-BlockCopied :
      (user kernel len : ℕ) (s : Machine)
      → user < 2 ^ 32
      → len < 2 ^ 32
      → Apart kernel user len
      → BlockCopied user kernel user len s (copyin faults user kernel len s)
        × BlockCopied user user kernel len s (copyout faults kernel user len s)
  unfolding copyin copyout
  copy-BlockCopied user kernel len s hb hl apart = (
    block_copy-BlockCopied user kernel user len s hb hl apart,
    block_copy-BlockCopied user user kernel len s hb hl (swap kernel user len apart),
  )
