-- ===== src/Time.antt =====
-- lib/time.c: sums and differences of times.
use polito_os161v.Common.{
  ℕ, ◌+◌, ◌-◌, ◌%◌, ◌^◌, ◌<◌, ◌≡◌, arith, true, false, ltb, leb, Bool-cases, inl, inr,
  if◌then◌else◌,
}

-- `struct timespec`: `sec` is the 64-bit pattern of `tv_sec`, a `time_t`.
pub record Timespec : Type 0 where
  pub sec : ℕ
  pub nsec : ℕ

abbrev pub u64 : ℕ → ℕ
u64 n = n % 2 ^ 64

abbrev pub second : ℕ
second = 1000000000

-- `timespec_add`
unfoldable pub timespec_add : Timespec → Timespec → Timespec
timespec_add a b =
    let nsec = a.nsec + b.nsec in
    let sec = u64 (a.sec + b.sec) in
    if leb second nsec
    then record { sec = u64 (sec + 1); nsec = nsec - second }
    else record { sec = sec; nsec = nsec }

-- `timespec_sub`
unfoldable pub timespec_sub : Timespec → Timespec → Timespec
timespec_sub a b =
    if ltb a.nsec b.nsec
    then record {
      sec = u64 (u64 (a.sec + 2 ^ 64 - 1) + 2 ^ 64 - b.sec);
      nsec = a.nsec + second - b.nsec;
    }
    else record { sec = u64 (a.sec + 2 ^ 64 - b.sec); nsec = a.nsec - b.nsec }

-- A time whose nanoseconds are less than a second.
pub record IsNormal (t : Timespec) : Type 0 where
  pub sec : t.sec < 2 ^ 64
  pub nsec : t.nsec < second

same_time : {a : Timespec} {s n : ℕ} → s ≡ a.sec → n ≡ a.nsec → record { sec = s; nsec = n } ≡ a
same_time p q = λ i. record { sec = p i; nsec = q i }

-- Adding a time and subtracting it again gives the first time back, and the sum is a normal time.
pub timespec_add_sub :
    (a b : Timespec)
    → IsNormal a
    → IsNormal b
    → (timespec_sub (timespec_add a b) b ≡ a) × IsNormal (timespec_add a b)
unfolding timespec_add timespec_sub
timespec_add_sub a b n m = elim (Bool-cases (leb second (a.nsec + b.nsec))) [
  | inl h ↦
      let l : ltb (a.nsec + b.nsec - second) b.nsec ≡ true = ground (arith, n.nsec, m.nsec) in
      simp (timespec_add, timespec_sub, h, l)
        (
          same_time (omega (arith, n.sec, m.sec)) (ground (arith, n.nsec, m.nsec)),
          record { sec = omega arith; nsec = ground (arith, n.nsec, m.nsec) },
        )
  | inr h ↦
      let l : ltb (a.nsec + b.nsec) b.nsec ≡ false = ground (arith, n.nsec, m.nsec) in
      simp (timespec_add, timespec_sub, h, l)
        (
          same_time (omega (arith, n.sec, m.sec)) (omega (arith, n.nsec, m.nsec)),
          record { sec = omega arith; nsec = ground (arith, n.nsec, m.nsec) },
        )
]
