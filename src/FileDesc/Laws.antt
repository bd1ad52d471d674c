-- ===== src/FileDesc/Laws.antt =====
-- fd_attach, fd_detach and fd_create of io/filedesc.c keep the count of open files.
use polito_os161v.Common.{
  ℕ, zero, suc, ◌+◌, ◌-◌, ◌<◌, ◌≤◌, ◌≡◌, ◌≢◌, refl, ◌⊎◌, inl, inr, arith, ok, good, fail, enfile,
  u16, ◌==◌, true, false, Option, none, some, List, [], ◌∷◌, length, get_or, set, Bool-cases,
  ok_good-injective, ltb, lt→ltb, ap, sym, length-set, get_or-set_self, get_or-set_ne, ◌∙◌,
  if◌then◌else◌, subst,
}
use polito_os161v.Synch.{free}
use polito_os161v.Kernel.{Ptr, Kernel, FileDesc, put_self, put-put, put_same}
use polito_os161v.Kernel.Access.{with_fd, exec}
use polito_os161v.FileDesc.{fd_attach, fd_detach, find_free, attach_at, max_open_files}

-- How many descriptors are open.
abbrev pub count_open : List Ptr → ℕ
count_open [] = 0
count_open (p ∷ rest) = if p == 0 then count_open rest else suc (count_open rest)

-- A descriptor table that nobody holds, of MAX_OPEN_FILES entries, with the count that they have.
pub record IsValid (d : FileDesc) : Type 0 where
  pub size : length d.ofiles ≡ max_open_files
  pub counted : d.nfiles ≡ count_open d.ofiles
  pub unlocked : d.lk ≡ free

-- The first NULL descriptor of a table, or none if each is open.
pub data FirstFree (l : List Ptr) : Option ℕ → Type 0 where
  all_open : count_open l ≡ length l → FirstFree l none
  at :
      (i : ℕ)
      → i < length l
      → get_or l i 0 ≡ 0
      → ((j : ℕ) → j < i → get_or l j 0 ≢ 0)
      → FirstFree l (some i)

-- The search from descriptor `i` on, in terms of the search from 0.
abbrev shift : ℕ → Option ℕ → Option ℕ
shift i none = none
shift i (some j) = some (i + j)

find_free-FirstFree :
    (i : ℕ) (l : List Ptr) → (o : Option ℕ) × (find_free i l ≡ shift i o) × FirstFree l o
unfolding find_free
find_free-FirstFree i [] = (none, refl, all_open refl)
find_free-FirstFree i (p ∷ rest) = elim (Bool-cases (p == 0)) [
  | inl z ↦ (some 0, ground arith, at 0 (omega arith) (ground arith) (λ j h. absurd (omega arith)))
  | inr n ↦ next p rest n (find_free-FirstFree (i + 1) rest)
]
  where
    next :
        (p : Ptr) (rest : List Ptr)
        → (p == 0) ≡ false
        → (o : Option ℕ) × (find_free (i + 1) rest ≡ shift (i + 1) o) × FirstFree rest o
        → (o : Option ℕ) × (find_free i (p ∷ rest) ≡ shift i o) × FirstFree (p ∷ rest) o
    next p rest n (none, e, all_open c) = (none, rw (n, find_free) e, all_open (rw n (ap suc c)))
    next p rest n (some j, e, at _ h z low) = (
      some (suc j),
      rw (n, find_free) (e ∙ omega_shift j),
      at (suc j) (omega arith) z (λ m hm. below m hm),
    )
      where
        omega_shift : (j : ℕ) → some (i + 1 + j) ≡ some (i + suc j)
        omega_shift j = ap some (omega arith)

        below : (m : ℕ) → m < suc j → get_or (p ∷ rest) m 0 ≢ 0
        below zero hm = ground arith
        below (suc m) hm = low m (omega arith)

-- `find_free` from descriptor 0 on gives the first NULL descriptor.
pub find_free_lem : (l : List Ptr) → FirstFree l (find_free 0 l)
find_free_lem l = go (find_free-FirstFree 0 l)
  where
    go : (o : Option ℕ) × (find_free 0 l ≡ shift 0 o) × FirstFree l o → FirstFree l (find_free 0 l)
    go (none, e, f) = subst (FirstFree l) (sym e) f
    go (some j, e, f) = subst (FirstFree l) (sym (e ∙ ap some (omega arith))) f

pub count_open-le : (l : List Ptr) → count_open l ≤ length l
count_open-le [] = omega arith
count_open-le (p ∷ rest) = ground (arith, count_open-le rest)

count_open-set :
    (l : List Ptr) (i f : ℕ)
    → i < length l
    → get_or l i 0 ≡ 0
    → f ≢ 0
    → count_open (set l i f) ≡ suc (count_open l)
count_open-set [] i f h z n = absurd (omega arith)
count_open-set (p ∷ rest) zero f h z n = ground arith
count_open-set (p ∷ rest) (suc i) f h z n =
    ground (arith, count_open-set rest i f (omega arith) z n)

pub count_open-clear :
    (l : List Ptr) (i : ℕ) → get_or l i 0 ≢ 0 → suc (count_open (set l i 0)) ≡ count_open l
count_open-clear [] i n = absurd (n refl)
count_open-clear (p ∷ rest) zero n = ground arith
count_open-clear (p ∷ rest) (suc i) n = ground (arith, count_open-clear rest i n)

-- `d'` is `d` with the free descriptor `i` open on `f`.
pub record IsOpened (d : FileDesc) (i f : ℕ) (d' : FileDesc) : Type 0 where
  pub was_free : get_or d.ofiles i 0 ≡ 0
  pub lowest : (j : ℕ) → j < i → get_or d.ofiles j 0 ≢ 0
  pub opened : get_or d'.ofiles i 0 ≡ f
  pub others : (j : ℕ) → j ≢ i → get_or d'.ofiles j 0 ≡ get_or d.ofiles j 0
  pub valid : IsValid d'
  pub undo : set d'.ofiles i 0 ≡ d.ofiles

set-set : (l : List Ptr) (i f : ℕ) → get_or l i 0 ≡ 0 → set (set l i f) i 0 ≡ l
set-set [] i f z = refl
set-set (p ∷ rest) zero f z = ap (λ q. q ∷ rest) (sym z)
set-set (p ∷ rest) (suc i) f z = ap (λ l. p ∷ l) (set-set rest i f z)

module _ (t f : Ptr) (k : Kernel) (d : FileDesc) (e : k.fds t ≡ some d) (v : IsValid d) where
  abbrev pub attached : ℕ → FileDesc
  attached i = record d { ofiles = set d.ofiles i f; nfiles = u16 (d.nfiles + 1); lk = free }

  pub fd_attach-some :
      (i : ℕ)
      → find_free 0 d.ofiles ≡ some i
      → fd_attach t f k ≡ ok (good i) (with_fd k t (attached i))
  unfolding fd_attach
  fd_attach-some i g = simp (exec, fd_attach, attach_at, e, v.unlocked, g)

  pub fd_attach-none : find_free 0 d.ofiles ≡ none → fd_attach t f k ≡ ok (fail enfile) k
  unfolding fd_attach
  fd_attach-none g =
      simp (exec, fd_attach, attach_at, e, v.unlocked, g)
        (ap (λ h. ok (fail enfile) (record k { fds = h })) (put_same k.fds t (rw (← v.unlocked) e)))

  attached-IsOpened :
      (i : ℕ)
      → f ≢ 0
      → i < length d.ofiles
      → get_or d.ofiles i 0 ≡ 0
      → ((j : ℕ) → j < i → get_or d.ofiles j 0 ≢ 0)
      → IsOpened d i f (attached i)
  attached-IsOpened i ne h z low = record {
    was_free = z;
    lowest = low;
    opened = get_or-set_self d.ofiles i f 0 h;
    others = λ j n. get_or-set_ne d.ofiles i j f 0 (λ q. n (sym q));
    valid = record {
      size = rw (length-set d.ofiles i f) v.size;
      counted =
          omega
            (arith, count_open-set d.ofiles i f h z ne, count_open-le d.ofiles, v.size, v.counted);
      unlocked = refl;
    };
    undo = set-set d.ofiles i f z;
  }

-- fd_attach on a valid table opens the lowest free descriptor on the file, returns it, and keeps the
-- table valid; or, exactly when MAX_OPEN_FILES descriptors are open, returns ENFILE with nothing changed.
pub fd_attach_lem :
    (t f : Ptr) (k : Kernel) (d : FileDesc)
    → k.fds t ≡ some d
    → IsValid d
    → f ≢ 0
    → ((i : ℕ) × (d' : FileDesc) × (fd_attach t f k ≡ ok (good i) (with_fd k t d'))
        × IsOpened d i f d'
        × (d.nfiles < max_open_files))
      ⊎ (fd_attach t f k ≡ ok (fail enfile) k) × (d.nfiles ≡ max_open_files)
fd_attach_lem t f k d e v ne = go (find_free-FirstFree 0 d.ofiles)
  where
    go :
        (o : Option ℕ) × (find_free 0 d.ofiles ≡ shift 0 o) × FirstFree d.ofiles o
        → ((i : ℕ) × (d' : FileDesc) × (fd_attach t f k ≡ ok (good i) (with_fd k t d'))
            × IsOpened d i f d'
            × (d.nfiles < max_open_files))
          ⊎ (fd_attach t f k ≡ ok (fail enfile) k) × (d.nfiles ≡ max_open_files)
    go (_, g, all_open c) = inr (fd_attach-none t f k d e v g, omega (arith, v.size, v.counted))
    go (_, g, at i h z low) = inl (
      i,
      attached t f k d e v i,
      fd_attach-some t f k d e v i (g ∙ ap some (omega arith)),
      attached-IsOpened t f k d e v i ne h z low,
      omega (
        arith,
        v.size,
        v.counted,
        count_open-set d.ofiles i f h z ne,
        count_open-le (set d.ofiles i f),
        length-set d.ofiles i f,
      ),
    )

-- `d` with descriptor `fd` closed.
abbrev pub detached : FileDesc → ℕ → FileDesc
detached d fd = record d { ofiles = set d.ofiles fd 0; nfiles = d.nfiles - 1 }

pub detached-IsValid :
    {d : FileDesc} (fd : ℕ) → IsValid d → get_or d.ofiles fd 0 ≢ 0 → IsValid (detached d fd)
detached-IsValid {d} fd v ne = record {
  size = rw (length-set d.ofiles fd 0) v.size;
  counted = omega (arith, count_open-clear d.ofiles fd ne, v.counted);
  unlocked = v.unlocked;
}

pub in_table : (l : List Ptr) (i : ℕ) → get_or l i 0 ≢ 0 → i < length l
in_table [] i n = absurd (n refl)
in_table (p ∷ rest) zero n = omega arith
in_table (p ∷ rest) (suc i) n = omega (arith, in_table rest i n)

-- fd_detach of an open descriptor of a valid table sets it to NULL, counts one file fewer, and keeps
-- the table valid.
pub fd_detach_lem :
    (t : Ptr) (fd : ℕ) (k : Kernel) (d : FileDesc)
    → k.fds t ≡ some d
    → IsValid d
    → get_or d.ofiles fd 0 ≢ 0
    → (fd_detach t fd k ≡ ok tt (with_fd k t (detached d fd))) × IsValid (detached d fd)
unfolding fd_detach
fd_detach_lem t fd k d e v ne =
    let l : ltb fd max_open_files ≡ true =
      lt→ltb _ _ (omega (arith, in_table d.ofiles fd ne, v.size)) in
    let n : u16 (d.nfiles + 65535) ≡ d.nfiles - 1 =
      omega (arith, v.counted, count_open-clear d.ofiles fd ne, count_open-le d.ofiles, v.size) in
    (simp (exec, fd_detach, e, v.unlocked, l, n), detached-IsValid fd v ne)

detach_opened :
    (t f i : ℕ) (k : Kernel) (d d' : FileDesc)
    → k.fds t ≡ some d
    → IsValid d
    → f ≢ 0
    → IsOpened d i f d'
    → fd_detach t i (with_fd k t d') ≡ ok tt k
detach_opened t f i k d d' e v ne o =
    let open_i : get_or d'.ofiles i 0 ≢ 0 = λ z. ne (sym o.opened ∙ z) in
    let n : d'.nfiles - 1 ≡ d.nfiles = omega (
      arith,
      o.valid.counted,
      v.counted,
      count_open-clear d'.ofiles i open_i,
      ap count_open o.undo,
    ) in
    let r = (fd_detach_lem t i (with_fd k t d') d' (put_self k.fds t (some d')) o.valid open_i).0 in
    r
    ∙ rw (put-put, o.undo, n, o.valid.unlocked)
        (ap (λ h. ok tt (record k { fds = h })) (put_same k.fds t (rw (← v.unlocked) e)))

-- Closing the descriptor that fd_attach has opened restores the kernel as it was.
pub fd_attach_detach :
    (t f i : ℕ) (k k' : Kernel) (d : FileDesc)
    → k.fds t ≡ some d
    → IsValid d
    → f ≢ 0
    → fd_attach t f k ≡ ok (good i) k'
    → fd_detach t i k' ≡ ok tt k
fd_attach_detach t f i k k' d e v ne h = elim (fd_attach_lem t f k d e v ne) [
  | inl (i', d', r, o, _) ↦
      let (p, q) = ok_good-injective i' i (with_fd k t d') k' (sym r ∙ h) in
      rw (← p, ← q) (detach_opened t f i' k d d' e v ne o)
  | inr (r, _) ↦ cc (sym r ∙ h)
]
