-- ===== src/Vm/Ram/Laws.antt =====
-- What the physical page allocator of ram.c promises.
use polito_os161v.Common.{
  ℕ, ◌+◌, ◌-◌, ◌*◌, ◌^◌, ◌%◌, ◌<◌, ◌≤◌, ◌≡◌, ◌≢◌, refl, ◌⊎◌, inl, inr, arith, ok, ltb, u32, Run,
  Bool-cases,
}
use polito_os161v.Vm.Ram.{Ram, bootstrap, stealmem, alloc_kpages, page_size, max_ram, kseg0}

-- Physical memory is within the limit, page-aligned where it is handed out, and page 0 is not free.
pub record IsValid (r : Ram) : Type 0 where
  pub nonzero : 0 < r.firstpaddr
  pub ordered : r.firstpaddr ≤ r.lastpaddr
  pub limit : r.lastpaddr ≤ max_ram
  pub aligned : r.firstpaddr % page_size ≡ 0

-- The frames from `p` on, `n` pages of them, taken from `r` and no longer free in `r'`.
pub record IsTaken (r : Ram) (p n : ℕ) (r' : Ram) : Type 0 where
  pub start : p ≡ r.firstpaddr
  pub next : r'.firstpaddr ≡ p + n * page_size
  pub last : r'.lastpaddr ≡ r.lastpaddr
  pub mem : r'.mem ≡ r.mem
  pub valid : IsValid r'

-- The two outcomes of a request for `n` pages.
pub data Stolen (r : Ram) (n : ℕ) : Run Ram ℕ → Type 0 where
  taken : {p : ℕ} {r' : Ram} → p ≢ 0 → IsTaken r p n r' → Stolen r n (ok p r')
  refused : r.lastpaddr < r.firstpaddr + n * page_size → Stolen r n (ok 0 r)

-- The start-up values are a valid allocator, if the kernel image ends at a page boundary below the
-- end of memory and is not empty.
pub bootstrap-IsValid :
    (ramsize firstfree : ℕ) (mem : ℕ → ℕ)
    → kseg0 < firstfree
    → firstfree < 2 ^ 32
    → firstfree % page_size ≡ 0
    → firstfree - kseg0 ≤ ramsize
    → firstfree - kseg0 ≤ max_ram
    → IsValid (bootstrap ramsize firstfree mem)
unfolding bootstrap
bootstrap-IsValid ramsize firstfree mem h k a m l = ground arith

-- `r` after its next `n` pages are taken.
abbrev pub advance : Ram → ℕ → Ram
advance r n = record r { firstpaddr = r.firstpaddr + n * page_size }

pub advance-IsValid :
    {r : Ram} (n : ℕ)
    → IsValid r
    → r.firstpaddr + n * page_size ≤ r.lastpaddr
    → IsValid (advance r n)
advance-IsValid n valid h = omega (arith, valid.nonzero, valid.aligned, valid.limit)

-- The two outcomes as equations.
pub stealmem_cases :
    {r : Ram} (n : ℕ)
    → IsValid r
    → n * page_size + max_ram < 2 ^ 32
    → (r.firstpaddr + n * page_size ≤ r.lastpaddr) × (stealmem n r ≡ ok r.firstpaddr (advance r n))
      ⊎ (r.lastpaddr < r.firstpaddr + n * page_size) × (stealmem n r ≡ ok 0 r)
unfolding stealmem
stealmem_cases {r} n valid h =
    let e : u32 (r.firstpaddr + u32 (n * page_size)) ≡ r.firstpaddr + n * page_size =
      omega (arith, valid.limit, valid.ordered) in
    rw e (elim (Bool-cases (ltb r.lastpaddr (r.firstpaddr + n * page_size))) [
      | inl t ↦ rw t (inr (ground arith, refl))
      | inr f ↦ rw f (inl (ground arith, refl))
    ])

-- A request whose end does not wrap takes exactly the next pages, at a non-zero address, or is
-- refused, with the allocator unchanged, when fewer pages are left.
pub stealmem-Stolen :
    {r : Ram} (n : ℕ) → IsValid r → n * page_size + max_ram < 2 ^ 32 → Stolen r n (stealmem n r)
stealmem-Stolen {r} n valid h = elim (stealmem_cases n valid h) [
  | inl (l, e) ↦ rw e (
      taken (omega (arith, valid.nonzero)) (record {
        start = refl;
        next = refl;
        last = refl;
        mem = refl;
        valid = advance-IsValid n valid l;
      }))
  | inr (l, e) ↦ rw e (refused l)
]

-- A request whose end wraps past 2^32 is granted and moves `firstpaddr` back: the allocator will
-- hand out again what it has handed out before.
pub stealmem_wraps :
    {r : Ram} (n : ℕ)
    → IsValid r
    → n < 2 ^ 20
    → 2 ^ 32 ≤ r.firstpaddr + n * page_size
    → (r' : Ram) × (stealmem n r ≡ ok r.firstpaddr r') × (r'.firstpaddr < r.firstpaddr)
unfolding stealmem
stealmem_wraps {r} n valid h w =
    let e : u32 (r.firstpaddr + u32 (n * page_size)) ≡ r.firstpaddr + n * page_size - 2 ^ 32 =
      omega (arith, valid.limit, valid.ordered) in
    (
      record r { firstpaddr = r.firstpaddr + n * page_size - 2 ^ 32 },
      rw e (ground (arith, valid.limit, valid.ordered)),
      omega arith,
    )

-- alloc_kpages hands out the kernel's view of what stealmem takes, and 0 exactly when that is refused.
pub alloc_kpages_lem :
    {r : Ram} (n : ℕ)
    → IsValid r
    → n * page_size + max_ram < 2 ^ 32
    → ((r' : Ram) × (alloc_kpages n r ≡ ok (r.firstpaddr + kseg0) r') × IsTaken r r.firstpaddr n r')
      ⊎ (alloc_kpages n r ≡ ok 0 r) × (r.lastpaddr < r.firstpaddr + n * page_size)
unfolding alloc_kpages
alloc_kpages_lem {r} n valid h = go (stealmem n r) (stealmem-Stolen n valid h) refl
  where
    go :
        (out : Run Ram ℕ)
        → Stolen r n out
        → stealmem n r ≡ out
        → ((r' : Ram) × (alloc_kpages n r ≡ ok (r.firstpaddr + kseg0) r')
            × IsTaken r r.firstpaddr n r')
          ⊎ (alloc_kpages n r ≡ ok 0 r) × (r.lastpaddr < r.firstpaddr + n * page_size)
    go _ (taken {p} {r'} ne t) e = inl (r', ground arith, rw t.start at t)
    go _ (refused l) e = inr (rw (e, alloc_kpages), l)
