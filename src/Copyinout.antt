-- ===== src/Copyinout.antt =====
-- vm/copyinout.c: copies between kernel and user memory that survive a bad user address.
pub mod Laws
pub mod Strings
use polito_os161v.Common.{
  ℕ, zero, suc, ◌+◌, ◌-◌, ◌^◌, Bool, true, false, ◌||◌, ◌==◌, ltb, leb, min, if◌then◌else◌, u32,
  Res, good, fail, efault, enametoolong, Run, ok, panic, Cmd, ◌>>=◌,
}
use polito_os161v.Kernel.{put}
use polito_os161v.Vm.Ram.{kseg0}

-- USERSPACETOP
abbrev pub userspacetop : ℕ
userspacetop = kseg0

-- The bytes that the kernel addresses, and whether `tm_badfaultfunc` is set to `copyfail`.
pub record Machine : Type 0 where
  pub mem : ℕ → ℕ
  pub guarded : Bool

-- How a piece of code ended: it ran on, or a fault made `copyfail` jump to the `setjmp`.
pub data Ended (A : Type 0) : Type 0 where
  ran : A → Ended A
  jumped : Ended A

-- `copycheck`: the length that may be copied
unfoldable pub copycheck : ℕ → ℕ → Res ℕ
copycheck bot len =
    let top = u32 (bot + len + 2 ^ 32 - 1) in
    if ltb top bot
    then fail efault
    else if leb userspacetop bot
    then fail efault
    else if leb userspacetop top
    then good (userspacetop - bot)
    else good len

-- `faults` says at which addresses an access ends in a fatal fault.
module _ (faults : ℕ → Bool) where
  -- A fatal fault in the kernel: `tm_badfaultfunc` if there is one, and a panic otherwise.
  abbrev pub fault : {A : Type 0} → Cmd Machine (Ended A)
  fault s = if s.guarded then ok jumped s else panic

  -- `memcpy` of the `n` bytes from index `i` on.
  unfoldable pub memcpy : ℕ → ℕ → ℕ → ℕ → Cmd Machine (Ended (Unit {0}))
  memcpy zero i dst src s = ok (ran tt) s
  memcpy (suc n) i dst src s =
      let rest =
        memcpy n (i + 1) dst src (record s { mem = put s.mem (dst + i) (s.mem (src + i)) }) in
      if faults (src + i) || faults (dst + i) then fault s else rest

  -- The frame of the four functions: `tm_badfaultfunc` is set, the body runs, and it is cleared.
  abbrev pub finish : {A : Type 0} → Ended (Res A) → Cmd Machine (Res A)
  finish (ran r) s = ok r (record s { guarded = false })
  finish jumped s = ok (fail efault) (record s { guarded = false })

  abbrev pub with_copyfail : {A : Type 0} → Cmd Machine (Ended (Res A)) → Cmd Machine (Res A)
  with_copyfail body s = (body >>= finish) (record s { guarded = true })

  abbrev pub done : Ended (Unit {0}) → Cmd Machine (Ended (Res (Unit {0})))
  done (ran _) s = ok (ran (good tt)) s
  done jumped s = ok jumped s

  -- What `copyin` and `copyout` do with the result of `copycheck`.
  abbrev pub block_copy : Res ℕ → ℕ → ℕ → ℕ → Cmd Machine (Res (Unit {0}))
  block_copy (fail e) dst src len s = ok (fail e) s
  block_copy (good stoplen) dst src len s =
      if stoplen == len then with_copyfail (memcpy len 0 dst src >>= done) s else ok (fail efault) s

  -- `copyin`
  unfoldable pub copyin : ℕ → ℕ → ℕ → Cmd Machine (Res (Unit {0}))
  unfolding memcpy copycheck
  copyin usersrc dest len = block_copy (copycheck usersrc len) dest usersrc len

  -- `copyout`
  unfoldable pub copyout : ℕ → ℕ → ℕ → Cmd Machine (Res (Unit {0}))
  unfolding memcpy copycheck
  copyout src userdest len = block_copy (copycheck userdest len) userdest src len

  -- The loop of `copystr`, with `n` rounds left; `good` has what goes to `*gotlen`.
  unfoldable pub copystr_from : ℕ → ℕ → ℕ → ℕ → ℕ → ℕ → Cmd Machine (Ended (Res ℕ))
  copystr_from zero i dest src maxlen stoplen s =
      ok (ran (if ltb stoplen maxlen then fail efault else fail enametoolong)) s
  copystr_from (suc n) i dest src maxlen stoplen s =
      let s' : Machine = record s { mem = put s.mem (dest + i) (s.mem (src + i)) } in
      let rest = copystr_from n (i + 1) dest src maxlen stoplen s' in
      if faults (src + i) || faults (dest + i)
      then fault s
      else if s'.mem (src + i) == 0
      then ok (ran (good (i + 1))) s'
      else rest

  -- `copystr`: the loop ends at the smaller of the two lengths.
  unfoldable pub copystr : ℕ → ℕ → ℕ → ℕ → Cmd Machine (Ended (Res ℕ))
  unfolding copystr_from
  copystr dest src maxlen stoplen =
      copystr_from (if ltb maxlen stoplen then maxlen else stoplen) 0 dest src maxlen stoplen

  abbrev pub string_copy : Res ℕ → ℕ → ℕ → ℕ → Cmd Machine (Res ℕ)
  string_copy (fail e) dest src len s = ok (fail e) s
  string_copy (good stoplen) dest src len s = with_copyfail (copystr dest src len stoplen) s

  -- `copyinstr`
  unfoldable pub copyinstr : ℕ → ℕ → ℕ → Cmd Machine (Res ℕ)
  unfolding copystr copycheck
  copyinstr usersrc dest len = string_copy (copycheck usersrc len) dest usersrc len

  -- `copyoutstr`
  unfoldable pub copyoutstr : ℕ → ℕ → ℕ → Cmd Machine (Res ℕ)
  unfolding copystr copycheck
  copyoutstr src userdest len = string_copy (copycheck userdest len) userdest src len
