-- ===== src/Common/Exec.antt =====
-- What a kernel function does: it returns with a new state, it panics, or its thread goes to sleep.
use mathlib.Core.Path.{◌≡◌, ap}

-- The error numbers of kern/include/kern/errno.h that the modelled code returns.
pub data Errno : Type 0 where
  enoent enomem einval efault ebadf enfile emfile enospc efbig eio : Errno
  enproc esrch echild enametoolong eexist eacces : Errno
  -- `return 2;` in as_define_region, which names no error, and `return -1;` in close_all_f
  code_2 minus_1 : Errno

-- An `int` result with what goes through the out-parameter: 0 with a value, or an error number.
pub data Res {ℓ} (A : Type ℓ) : Type ℓ where
  good : A → Res A
  fail : Errno → Res A

pub data Run (S A : Type 0) : Type 0 where
  ok : A → S → Run S A
  -- `panic`, a failed KASSERT, or an access that C leaves undefined
  panic : Run S A
  -- the thread sleeps on a lock or semaphore
  block : Run S A

abbrev pub Cmd : Type 0 → Type 0 → Type 0
Cmd S A = S → Run S A

abbrev pub pure : {S A : Type 0} → A → Cmd S A
pure a s = ok a s

abbrev pub and_then : {S A B : Type 0} → Run S A → (A → Cmd S B) → Run S B
and_then (ok a s) f = f a s
and_then panic f = panic
and_then block f = block

infixl 5 ◌>>=◌ ◌>>◌
abbrev pub ◌>>=◌ : {S A B : Type 0} → Cmd S A → (A → Cmd S B) → Cmd S B
m >>= f = λ s. and_then (m s) f

abbrev pub ◌>>◌ : {S B : Type 0} → Cmd S (Unit {0}) → Cmd S B → Cmd S B
m >> k = m >>= λ _. k

-- Inversion of a bind that returned, for proofs where the parts stay shut.
pub >>=-eq-ok :
    {S A B : Type 0} (r : Run S A) (f : A → Cmd S B) {b : B} {t : S}
    → and_then r f ≡ ok b t
    → (a : A) × (u : S) × (r ≡ ok a u) × (f a u ≡ ok b t)
>>=-eq-ok (ok a s) f h = (a, s, (λ i. ok a s), h)
>>=-eq-ok panic f h = cc
>>=-eq-ok block f h = cc

pub ok_good-injective :
    {S A : Type 0} (a b : A) (s t : S) → ok (good a) s ≡ ok (good b) t → (a ≡ b) × (s ≡ t)
ok_good-injective {S} {A} a b s t h = (ap value h, ap state h)
  where
    value : Run S (Res A) → A
    value (ok (good x) _) = x
    value _ = a

    state : Run S (Res A) → S
    state (ok _ x) = x
    state _ = s
