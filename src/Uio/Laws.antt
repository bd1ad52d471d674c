-- ===== src/Uio/Laws.antt =====
-- uiomove of lib/uio.c in kernel space: what it moves, and that it ends.
use mathlib.Core.Path.{fun_ext}
use polito_os161v.Vm.Ram.{move_bytes}
use polito_os161v.Common.{
  ℕ, zero, suc, ◌+◌, ◌-◌, ◌^◌, ◌%◌, ◌<◌, ◌≤◌, ◌≡◌, refl, sym, ap, arith, ◌∙◌, inl, inr, true, false,
  ◌||◌, ◌==◌, ltb, if◌then◌else◌, u32, List, [], ◌∷◌, length, good, ok, Bool-cases,
}
use polito_os161v.Uio.{
  Iovec, Uio, Io, Seg, sysspace, Rw, uio_read, uio_write, Copy, transfer, advance, move_loop,
  uiomove,
}

-- The length of all buffers.
abbrev pub total : List Iovec → ℕ
total [] = 0
total (v ∷ rest) = v.len + total rest

-- A kernel-space uio whose `resid` is the length of its buffers.
pub record IsValid (u : Uio) : Type 0 where
  pub kernel : u.segflg ≡ sysspace
  pub no_space : u.space ≡ 0
  pub sized : u.resid ≡ total u.iov
  pub width : u.resid < 2 ^ 32
  pub room : u.offset + u.resid < 2 ^ 63

-- `u'` is `u` after `m` bytes are moved.
pub record IsMoved (u : Uio) (m : ℕ) (u' : Uio) : Type 0 where
  pub resid : u'.resid + m ≡ u.resid
  pub offset : u'.offset ≡ u.offset + m
  pub valid : IsValid u'

abbrev pub least : ℕ → ℕ → ℕ
least a b = if ltb a b then a else b

-- `size` bytes between the buffer at `base` and the one at `ptr`: uio_read fills the former.
abbrev pub move_between : Rw → ℕ → ℕ → ℕ → (ℕ → ℕ) → ℕ → ℕ
move_between uio_read base ptr size = move_bytes base ptr size
move_between uio_write base ptr size = move_bytes ptr base size

-- The memory after `n` bytes at `ptr` are spread over the buffers, or gathered from them: the first
-- buffer has the first bytes, as many as it has room for, and so on.
abbrev pub scatter : Rw → List Iovec → ℕ → ℕ → (ℕ → ℕ) → ℕ → ℕ
scatter w [] ptr n mem = mem
scatter w (v ∷ rest) ptr n mem =
    scatter w rest (ptr + least n v.len) (n - least n v.len)
      (move_between w v.base ptr (least n v.len) mem)

move_none : (w : Rw) (base ptr : ℕ) (mem : ℕ → ℕ) → move_between w base ptr 0 mem ≡ mem
move_none uio_read base ptr mem = fun_ext λ a. ground arith
move_none uio_write base ptr mem = fun_ext λ a. ground arith

-- A buffer that takes no byte.
scatter-skip :
    (w : Rw) (v : Iovec) (rest : List Iovec) (ptr n : ℕ) (mem : ℕ → ℕ)
    → least n v.len ≡ 0
    → scatter w (v ∷ rest) ptr n mem ≡ scatter w rest ptr n mem
scatter-skip w v rest ptr n mem e =
    let p : ptr + 0 ≡ ptr = omega arith in
    let q : n - 0 ≡ n = omega arith in rw (e, move_none w v.base ptr mem, p, q) refl

scatter-none :
    (w : Rw) (l : List Iovec) (ptr n : ℕ) (mem : ℕ → ℕ)
    → least n (total l) ≡ 0
    → scatter w l ptr n mem ≡ mem
scatter-none w [] ptr n mem e = refl
scatter-none w (v ∷ rest) ptr n mem e =
    scatter-skip w v rest ptr n mem (ground arith) ∙ scatter-none w rest ptr n mem (ground arith)

module _ (copyin copyout : Copy) where
  transfers :
      {g : Seg} (w : Rw) (base ptr size : ℕ) (mem : ℕ → ℕ)
      → g ≡ sysspace
      → transfer copyin copyout g w base ptr size mem ≡ good (move_between w base ptr size mem)
  unfolding transfer
  transfers uio_read base ptr size mem e = rw (e, transfer) refl
  transfers uio_write base ptr size mem e = rw (e, transfer) refl

  -- `move_loop` moves what it should, in `k` rounds.
  abbrev Moves : ℕ → Type 0
  Moves k =
      (ptr n : ℕ) (s : Io)
      → IsValid s.uio
      → n + length s.uio.iov < k
      → (s' : Io) × (move_loop copyin copyout k ptr n s ≡ ok (good tt) s')
        × IsMoved s.uio (least n s.uio.resid) s'.uio
        × (s'.mem ≡ scatter s.uio.rw s.uio.iov ptr n s.mem)

  module _ (k ptr n : ℕ) (s : Io) (ih : Moves k) (v : IsValid s.uio)
      (h : n + length s.uio.iov < suc k) where
    round :
        (x : Iovec) (rest : List Iovec) (m : ℕ → ℕ)
        → s.uio.iov ≡ x ∷ rest
        → ((n == 0) || (s.uio.resid == 0)) ≡ false
        → (least n x.len == 0) ≡ false
        → transfer copyin copyout s.uio.segflg s.uio.rw x.base ptr (least n x.len) s.mem ≡ good m
        → move_loop copyin copyout (suc k) ptr n s
          ≡ move_loop copyin copyout k
              (ptr + least n x.len)
              (n - least n x.len)
              (record { mem = m; uio = advance copyin copyout s.uio x rest (least n x.len) })
    unfolding move_loop
    round x rest m e z q f = rw z rw e rw q rw f refl

    moving :
        (x : Iovec) (rest : List Iovec)
        → s.uio.iov ≡ x ∷ rest
        → ((n == 0) || (s.uio.resid == 0)) ≡ false
        → (least n x.len == 0) ≡ false
        → (s' : Io) × (move_loop copyin copyout (suc k) ptr n s ≡ ok (good tt) s')
          × IsMoved s.uio (least n s.uio.resid) s'.uio
          × (s'.mem ≡ scatter s.uio.rw s.uio.iov ptr n s.mem)
    moving x rest e z q =
        let size : ℕ = least n x.len in
        let t : total s.uio.iov ≡ x.len + total rest = rw e refl in
        let c : length s.uio.iov ≡ suc (length rest) = rw e refl in
        let le : size ≤ x.len = ground arith in
        let le_n : size ≤ n = ground arith in
        let some_bytes : 0 < size = ground arith in
        let m : ℕ → ℕ = move_between s.uio.rw x.base ptr size s.mem in
        let f = transfers s.uio.rw x.base ptr size s.mem v.kernel in
        let u : Uio = advance copyin copyout s.uio x rest size in
        let r : u32 (s.uio.resid + 2 ^ 32 - size) ≡ s.uio.resid - size =
          omega (arith, v.sized, v.width) in
        let o : (s.uio.offset + size) % 2 ^ 64 ≡ s.uio.offset + size =
          omega (arith, v.room, v.sized) in
        let w : IsValid u = record {
          kernel = v.kernel;
          no_space = v.no_space;
          sized = omega (arith, v.sized);
          width = omega (arith, v.width);
          room = omega (arith, v.room, v.sized);
        } in
        let (s', p, d, g) =
          ih (ptr + size) (n - size) (record { mem = m; uio = u }) w (omega arith) in
        (
          s',
          round x rest m e z q f ∙ p,
          record {
            resid = ground (arith, d.resid, v.sized);
            offset = ground (arith, d.offset, d.resid, v.sized);
            valid = d.valid;
          },
          g
              ∙ scatter-skip s.uio.rw (record { base = u32 (x.base + size); len = x.len - size })
                  rest (ptr + size) (n - size) m (ground arith)
              ∙ sym (ap (λ l. scatter s.uio.rw l ptr n s.mem) e),
        )

    skipped :
        (x : Iovec) (rest : List Iovec)
        → s.uio.iov ≡ x ∷ rest
        → ((n == 0) || (s.uio.resid == 0)) ≡ false
        → (least n x.len == 0) ≡ true
        → (s' : Io) × (move_loop copyin copyout (suc k) ptr n s ≡ ok (good tt) s')
          × IsMoved s.uio (least n s.uio.resid) s'.uio
          × (s'.mem ≡ scatter s.uio.rw s.uio.iov ptr n s.mem)
    unfolding move_loop
    skipped x [] e z q =
        let t : total s.uio.iov ≡ x.len + 0 = rw e refl in absurd (ground (arith, v.sized))
    skipped x (y ∷ tail) e z q =
        let t : total s.uio.iov ≡ x.len + (y.len + total tail) = rw e refl in
        let c : length s.uio.iov ≡ suc (suc (length tail)) = rw e refl in
        let empty : x.len ≡ 0 = ground arith in
        let w : IsValid (record s.uio { iov = y ∷ tail }) = record {
          kernel = v.kernel;
          no_space = v.no_space;
          sized = omega (arith, v.sized);
          width = v.width;
          room = v.room;
        } in
        let (s', p, d, g) =
          ih ptr n (record s { uio = record s.uio { iov = y ∷ tail } }) w (omega arith) in
        (
          s',
          simp (z, e, q) p,
          record { resid = d.resid; offset = d.offset; valid = d.valid },
          g
              ∙ sym (scatter-skip s.uio.rw x (y ∷ tail) ptr n s.mem (ground arith))
              ∙ sym (ap (λ l. scatter s.uio.rw l ptr n s.mem) e),
        )

    buffers :
        (l : List Iovec)
        → s.uio.iov ≡ l
        → ((n == 0) || (s.uio.resid == 0)) ≡ false
        → (s' : Io) × (move_loop copyin copyout (suc k) ptr n s ≡ ok (good tt) s')
          × IsMoved s.uio (least n s.uio.resid) s'.uio
          × (s'.mem ≡ scatter s.uio.rw s.uio.iov ptr n s.mem)
    buffers [] e z = let t : total s.uio.iov ≡ 0 = rw e refl in absurd (ground (arith, v.sized))
    buffers (x ∷ rest) e z = elim (Bool-cases (least n x.len == 0)) [
      | inr q ↦ moving x rest e z q
      | inl q ↦ skipped x rest e z q
    ]

  pub loop-IsMoved : (k : ℕ) → Moves k
  unfolding move_loop
  loop-IsMoved zero ptr n s v h = absurd (omega arith)
  loop-IsMoved (suc k) ptr n s v h = elim (Bool-cases ((n == 0) || (s.uio.resid == 0))) [
    | inl z ↦ rw z (
      s,
      refl,
      record { resid = ground arith; offset = ground arith; valid = v },
      sym (scatter-none s.uio.rw s.uio.iov ptr n s.mem (ground (arith, v.sized))),
    )
    | inr z ↦ buffers k ptr n s (loop-IsMoved k) v h s.uio.iov refl z
  ]

-- uiomove in kernel space of `n` bytes, on a uio whose resid is the length of its buffers and with
-- more rounds than `n` and the buffers together, returns 0: it has moved the lesser of `n` and resid,
-- by which resid is less and offset is more, resid is still the length of what is left, and the memory is
-- the one in which the bytes at `ptr` are spread over the buffers in their order, or gathered from them.
pub uiomove-IsMoved :
    (copyin copyout : Copy) (rounds current ptr n : ℕ) (s : Io)
    → IsValid s.uio
    → n + length s.uio.iov < rounds
    → (s' : Io) × (uiomove copyin copyout rounds current ptr n s ≡ ok (good tt) s')
      × IsMoved s.uio (least n s.uio.resid) s'.uio
      × (s'.mem ≡ scatter s.uio.rw s.uio.iov ptr n s.mem)
unfolding uiomove
uiomove-IsMoved copyin copyout rounds current ptr n s v h =
    let (s', p, d, g) = loop-IsMoved copyin copyout rounds ptr n s v h in (s', right ∙ p, d, g)
  where
    right : uiomove copyin copyout rounds current ptr n s ≡ move_loop copyin copyout rounds ptr n s
    right = rw (v.kernel, v.no_space) refl
