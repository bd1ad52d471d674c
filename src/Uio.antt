-- ===== src/Uio.antt =====
-- lib/uio.c: transfers between a kernel buffer and the buffers of a `struct uio`.
pub mod Laws
use polito_os161v.Common.{
  ℕ, zero, suc, ◌+◌, ◌-◌, ◌*◌, ◌^◌, ◌%◌, Bool, true, false, ◌||◌, ◌==◌, ltb, if◌then◌else◌, u32,
  List, [], ◌∷◌, Res, good, fail, Run, ok, panic, block, Cmd,
}
use polito_os161v.Vm.Ram.{move_bytes}

-- `struct iovec`: `base` is `iov_kbase` or `iov_ubase`.
pub record Iovec : Type 0 where
  pub base : ℕ
  pub len : ℕ

-- `enum uio_seg` and `enum uio_rw`
pub data Seg : Type 0 where
  userispace userspace sysspace : Seg

pub data Rw : Type 0 where
  uio_read uio_write : Rw

-- `struct uio`; `iov` has `uio_iovcnt` elements, and 0 is the NULL of `space`.
pub record Uio : Type 0 where
  pub iov : List Iovec
  pub offset : ℕ
  pub resid : ℕ
  pub segflg : Seg
  pub rw : Rw
  pub space : ℕ

-- The memory that the kernel addresses, and the uio.
pub record Io : Type 0 where
  pub mem : ℕ → ℕ
  pub uio : Uio

-- `copyin` or `copyout` of vm/copyinout.c: destination, source and length.
abbrev pub Copy : Type 0
Copy = ℕ → ℕ → ℕ → (ℕ → ℕ) → Res (ℕ → ℕ)

module _ (copyin copyout : Copy) where
  -- The `switch` of `uiomove`: the memory after `size` bytes at `base` and `ptr` are moved.
  pub transfer : Seg → Rw → ℕ → ℕ → ℕ → (ℕ → ℕ) → Res (ℕ → ℕ)
  transfer sysspace uio_read base ptr size mem = good (move_bytes base ptr size mem)
  transfer sysspace uio_write base ptr size mem = good (move_bytes ptr base size mem)
  transfer userspace uio_read base ptr size mem = copyout base ptr size mem
  transfer userspace uio_write base ptr size mem = copyin ptr base size mem
  transfer userispace uio_read base ptr size mem = copyout base ptr size mem
  transfer userispace uio_write base ptr size mem = copyin ptr base size mem

  -- The uio after `size` bytes of its first buffer are moved.
  abbrev pub advance : Uio → Iovec → List Iovec → ℕ → Uio
  advance u v rest size = record u {
    iov = record { base = u32 (v.base + size); len = v.len - size } ∷ rest;
    offset = (u.offset + size) % 2 ^ 64;
    resid = u32 (u.resid + 2 ^ 32 - size);
  }

  -- The loop of `uiomove`, for at most `k` rounds. `block` is a loop that has not ended.
  unfoldable pub move_loop : ℕ → ℕ → ℕ → Cmd Io (Res (Unit {0}))
  unfolding transfer
  move_loop zero ptr n s = block
  move_loop (suc k) ptr n s =
      if (n == 0) || (s.uio.resid == 0) then ok (good tt) s else elim s.uio.iov [
        | [] ↦ panic
        | v ∷ rest ↦
            let size = if ltb n v.len then n else v.len in
            let skip = move_loop k ptr n (record s { uio = record s.uio { iov = rest } }) in
            if size == 0
            then elim rest [ [] ↦ panic | _ ∷ _ ↦ skip ]
            else elim (transfer s.uio.segflg s.uio.rw v.base ptr size s.mem) [
              | fail e ↦ ok (fail e) s
              | good m ↦
                  move_loop k (ptr + size) (n - size)
                    (record { mem = m; uio = advance s.uio v rest size })
            ]
      ]

  -- The KASSERTs on `uio_space`, for the address space `current` of the thread.
  abbrev right_space : ℕ → Uio → Bool
  right_space current u = elim u.segflg [ sysspace ↦ u.space == 0 | _ ↦ u.space == current ]

  -- `uiomove`, with the rounds for its loop
  unfoldable pub uiomove : ℕ → ℕ → ℕ → ℕ → Cmd Io (Res (Unit {0}))
  unfolding move_loop
  uiomove rounds current ptr n s =
      let moved = move_loop rounds ptr n s in if right_space current s.uio then moved else panic

  -- The loop of `uiomovezeros`, where `zero_buf` is the address of its 16 bytes; each round of it takes
  -- at least one byte.
  zero_loop : ℕ → ℕ → ℕ → ℕ → ℕ → Cmd Io (Res (Unit {0}))
  unfolding uiomove
  zero_loop zero rounds current zero_buf n s = ok (good tt) s
  zero_loop (suc k) rounds current zero_buf n s =
      let amt = if ltb n 16 then n else 16 in
      let moved = uiomove rounds current zero_buf amt s in
      if n == 0 then ok (good tt) s else elim moved [
        | ok (fail e) j ↦ ok (fail e) j
        | ok (good _) j ↦ zero_loop k rounds current zero_buf (n - amt) j
        | panic ↦ panic
        | block ↦ block
      ]

  -- `uiomovezeros`
  unfoldable pub uiomovezeros : ℕ → ℕ → ℕ → ℕ → Cmd Io (Res (Unit {0}))
  unfolding zero_loop
  uiomovezeros rounds current zero_buf n s =
      let moved = zero_loop n rounds current zero_buf n s in
      elim s.uio.rw [ uio_read ↦ moved | uio_write ↦ panic ]

-- `uio_kinit`
unfoldable pub uio_kinit : ℕ → ℕ → ℕ → Rw → Uio
uio_kinit kbuf len pos rw = record {
  iov = record { base = kbuf; len = len } ∷ [];
  offset = pos;
  resid = len;
  segflg = sysspace;
  rw = rw;
  space = 0;
}

-- `uio_uinit`, for the address space `current`
unfoldable pub uio_uinit : ℕ → ℕ → ℕ → ℕ → Rw → Uio
uio_uinit current ubuf len pos rw = record {
  iov = record { base = ubuf; len = len } ∷ [];
  offset = pos;
  resid = len;
  segflg = userspace;
  rw = rw;
  space = current;
}
