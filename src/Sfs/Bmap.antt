-- ===== src/Sfs/Bmap.antt =====
-- sfs_bmap of fs/sfs/sfs_bmap.c: the disk block of a block of a file, and the blocks it allocates.
use native.Mathlib.Decide.{ℕ_discrete, dec_lt}
use polito_os161v.Common.{
  subst, ℕ, ◌+◌, ◌-◌, ◌/◌, ◌%◌, ◌<◌, ◌≤◌, ◌≡◌, ◌≢◌, ◌⊎◌, ◌∙◌, refl, arith, sym, Bool, true, false,
  ◌==◌, ltb, leb, get_or, set, List, Res, good, fail, Errno, efbig, eio, Run, ok, and_then, inl,
  inr, Bool-cases,
}
use polito_os161v.Bitmap.{isset}
use polito_os161v.Kernel.{put, put_ne}
use polito_os161v.Sfs.{
  Fs, ndirect, nindirect, dbperidb, zeros, balloc, bused, hand_back, direct_new, bmap_direct,
  indirect_new, from_buffer, with_indirect, bmap_indirect, bmap,
}
use polito_os161v.Sfs.Balloc.{
  IsMounted, Balloced, given, volume_full, device_error, balloc-Balloced,
}
use polito_os161v.Sfs.Map.{
  block_of, block_of-direct, block_of-indirect, block_of-none, InUse, IsMapped,
}
use polito_os161v.Sfs.Changes.{
  IsKept, IsExtended, unchanged-IsKept, then-IsKept, then-IsExtended, given-IsKept, given-IsFresh,
  same_disk, failed-IsKept, direct-IsExtended, entry-IsExtended, indirect-IsKept,
}

-- The number of blocks that a file can have
abbrev pub most_blocks : ℕ
most_blocks = ndirect + dbperidb

-- The ways in which `sfs_bmap` ends for block `n`, with and without `doalloc`.
pub data Bmapped (s : Fs) (n : ℕ) : Bool → Run Fs (Res ℕ) → Type 0 where
  there :
      {doalloc : Bool}
      → (block_of s n ≢ 0) ⊎ (doalloc ≡ false)
      → Bmapped s n doalloc (ok (good (block_of s n)) s)
  fresh :
      {b : ℕ} {s' : Fs}
      → block_of s n ≡ 0
      → isset s.freemap b ≡ false
      → s'.disk b ≡ zeros
      → IsExtended s n b s'
      → Bmapped s n true (ok (good b) s')
  failed :
      {doalloc : Bool} {e : Errno} {s' : Fs}
      → n < most_blocks
      → IsKept s s'
      → Bmapped s n doalloc (ok (fail e) s')
  too_large : {doalloc : Bool} → most_blocks ≤ n → Bmapped s n doalloc (ok (fail efbig) s)

hand_back_used : (s : Fs) (b : ℕ) → InUse s b → hand_back b s ≡ ok (good b) s
unfolding hand_back bused
hand_back_used s b u =
    let l : leb s.nblocks b ≡ false = ground (arith, u.inside) in
    elim (Bool-cases (b == 0)) [ inl z ↦ simp (z) | inr z ↦ simp (and_then, z, l, u.taken) ]

hand_back_zero : (s : Fs) → hand_back 0 s ≡ ok (good 0) s
unfolding hand_back
hand_back_zero s = refl

-- A block that the map has is handed back, and so is 0.
hand_back_mapped :
    (s : Fs) (n : ℕ) → IsMapped s → hand_back (block_of s n) s ≡ ok (good (block_of s n)) s
hand_back_mapped s n p = elim (ℕ_discrete (block_of s n) 0) [
  | yes z ↦ rw (z) (hand_back_zero s)
  | no z ↦ hand_back_used s (block_of s n) (p.in_use n z)
]

-- The branches of the code.
module _ (s : Fs) where
  direct_found :
      (n : ℕ) (d : Bool)
      → (get_or s.direct n 0 ≢ 0) ⊎ (d ≡ false)
      → bmap_direct n d s ≡ hand_back (get_or s.direct n 0) s
  unfolding bmap_direct
  direct_found n d (inl z) = let f : (get_or s.direct n 0 == 0) ≡ false = ground arith in rw f refl
  direct_found n d (inr f) = elim (Bool-cases (get_or s.direct n 0 == 0)) [
    | inl t ↦ rw (f, t) refl
    | inr t ↦ rw (f, t) refl
  ]

  direct_missing :
      (n : ℕ) → get_or s.direct n 0 ≡ 0 → bmap_direct n true s ≡ and_then (balloc s) (direct_new n)
  unfolding bmap_direct
  direct_missing n z = let t : (get_or s.direct n 0 == 0) ≡ true = ground arith in rw t refl

  buffer_found :
      (idblock off : ℕ) (idbuf : List ℕ) (d : Bool)
      → (get_or idbuf off 0 ≢ 0) ⊎ (d ≡ false)
      → from_buffer idblock off d (good idbuf) s ≡ hand_back (get_or idbuf off 0) s
  unfolding from_buffer
  buffer_found idblock off idbuf d (inl z) =
      let f : (get_or idbuf off 0 == 0) ≡ false = ground arith in rw f refl
  buffer_found idblock off idbuf d (inr f) = elim (Bool-cases (get_or idbuf off 0 == 0)) [
    | inl t ↦ rw (f, t) refl
    | inr t ↦ rw (f, t) refl
  ]

  buffer_missing :
      (idblock off : ℕ) (idbuf : List ℕ)
      → get_or idbuf off 0 ≡ 0
      → from_buffer idblock off true (good idbuf) s
        ≡ and_then (balloc s) (indirect_new idblock off idbuf)
  unfolding from_buffer
  buffer_missing idblock off idbuf z =
      let t : (get_or idbuf off 0 == 0) ≡ true = ground arith in rw t refl

  indirect_hole : (off : ℕ) → s.indirect ≡ 0 → bmap_indirect off false s ≡ ok (good 0) s
  unfolding bmap_indirect
  indirect_hole off z = let t : (s.indirect == 0) ≡ true = ground arith in rw t refl

  indirect_missing :
      (off : ℕ)
      → s.indirect ≡ 0
      → bmap_indirect off true s ≡ and_then (balloc s) (with_indirect off)
  unfolding bmap_indirect
  indirect_missing off z = let t : (s.indirect == 0) ≡ true = ground arith in rw t refl

  indirect_unread :
      (off : ℕ) (d : Bool)
      → s.indirect ≢ 0
      → s.bad_read s.indirect ≡ true
      → bmap_indirect off d s ≡ ok (fail eio) s
  unfolding bmap_indirect
  indirect_unread off d z b =
      let t : (s.indirect == 0) ≡ false = ground arith in simp (and_then, t, b)

  indirect_read :
      (off : ℕ) (d : Bool)
      → s.indirect ≢ 0
      → s.bad_read s.indirect ≡ false
      → bmap_indirect off d s ≡ from_buffer s.indirect off d (good (s.disk s.indirect)) s
  unfolding bmap_indirect
  indirect_read off d z b = let t : (s.indirect == 0) ≡ false = ground arith in rw (t, b) refl

  entry_unwritten :
      (idblock off b : ℕ) (idbuf : List ℕ)
      → s.bad_write idblock ≡ true
      → indirect_new idblock off idbuf (good b) s ≡ ok (fail eio) s
  unfolding indirect_new
  entry_unwritten idblock off b idbuf w = simp (and_then, w)

  entry_written :
      (idblock off b : ℕ) (idbuf : List ℕ)
      → idblock ≡ s.indirect
      → idbuf ≡ s.disk s.indirect
      → s.bad_write idblock ≡ false
      → InUse s b
      → indirect_new idblock off idbuf (good b) s
        ≡ ok (good b) (record s { disk = put s.disk s.indirect (set (s.disk s.indirect) off b) })
  unfolding indirect_new
  entry_written idblock off b idbuf e d w u =
      let t : Fs = record s { disk = put s.disk s.indirect (set (s.disk s.indirect) off b) } in
      let v : InUse t b = record { inside = u.inside; taken = u.taken } in
      rw (w, e, d) (hand_back_used t b v)

-- A result after a change that has kept the map is one before the change.
lift :
    {s t : Fs} {n : ℕ} (r : Run Fs (Res ℕ))
    → IsKept s t
    → ((j : ℕ) → isset t.freemap j ≡ false → isset s.freemap j ≡ false)
    → block_of s n ≡ 0
    → n < most_blocks
    → Bmapped t n true r
    → Bmapped s n true r
lift _ k free z h (there (inl ne)) = absurd (ne (k.same _ ∙ z))
lift _ k free z h (there (inr f)) = cc
lift _ k free z h (fresh {b} y f d x) = fresh z (free b f) d (then-IsExtended k x)
lift _ k free z h (failed l x) = failed l (then-IsKept k x)
lift _ k free z h (too_large l) = absurd (omega arith)

module _ {s : Fs} (m : IsMounted s) (p : IsMapped s) where
  direct_new-Bmapped :
      (n : ℕ) (r : Run Fs (Res ℕ))
      → n < ndirect
      → block_of s n ≡ 0
      → Balloced s r
      → Bmapped s n true (and_then r (direct_new n))
  unfolding direct_new
  direct_new-Bmapped n _ h z (given {i} {s'} g) =
      let k = given-IsKept m p g in
      let f = given-IsFresh m p g in
      let t : Fs = record s' { direct = set s'.direct n i; dirty = true } in
      let u : InUse t i = record { inside = f.used.inside; taken = f.used.taken } in
      subst (Bmapped s n true) (sym (hand_back_used t i u)) (
        fresh z g.was_free g.zeroed
          (then-IsExtended k (direct-IsExtended k.mounted k.mapped n i h f)))
  direct_new-Bmapped n _ h z (volume_full {s'} full e) =
      failed (omega arith) (subst (IsKept s) (sym e) (unchanged-IsKept m p))
  direct_new-Bmapped n _ h z (device_error {i} {s'} w v bits nbits disk e) =
      failed (omega arith) (failed-IsKept m p v bits nbits disk e)

  bmap_direct-Bmapped :
      (n : ℕ) (doalloc : Bool) → n < ndirect → Bmapped s n doalloc (bmap_direct n doalloc s)
  bmap_direct-Bmapped n doalloc h =
      let e : block_of s n ≡ get_or s.direct n 0 = block_of-direct s n h in
      let back : hand_back (get_or s.direct n 0) s ≡ ok (good (block_of s n)) s =
        rw (← e) (hand_back_mapped s n p) in
      elim (Bool-cases doalloc) [
        | inr d ↦ rw (d, direct_found s n false (inr refl), back) (there (inr refl))
        | inl d ↦ elim (ℕ_discrete (get_or s.direct n 0) 0) [
          | yes z ↦
              rw (d, direct_missing s n z)
                (direct_new-Bmapped n (balloc s) h (e ∙ z) (balloc-Balloced s m))
          | no z ↦ rw (d, direct_found s n true (inl z), back) (there (inl (λ o. z (sym e ∙ o))))
        ]
      ]

  entry_new-Bmapped :
      (off : ℕ) (r : Run Fs (Res ℕ))
      → off < dbperidb
      → s.indirect ≢ 0
      → block_of s (ndirect + off) ≡ 0
      → Balloced s r
      → Bmapped s
          (ndirect + off)
          true
          (and_then r (indirect_new s.indirect off (s.disk s.indirect)))
  unfolding indirect_new
  entry_new-Bmapped off _ h y z (given {i} {s'} g) =
      let k = given-IsKept m p g in
      let f = given-IsFresh m p g in
      let c : s'.indirect ≢ 0 = λ o. y (sym g.inode.indirect ∙ o) in
      let d : s'.disk s'.indirect ≡ s.disk s.indirect = rw g.inode.indirect (same_disk m p g y) in
      let x = entry-IsExtended k.mounted k.mapped off i h c f in
      let zeroed =
        put_ne s'.disk s'.indirect (set (s'.disk s'.indirect) off i) i
          (λ e. f.not_indirect (sym e)) in
      elim (Bool-cases (s'.bad_write s.indirect)) [
        | inl w ↦
            rw (entry_unwritten s' s.indirect off i (s.disk s.indirect) w) (failed (omega arith) k)
        | inr w ↦
            rw
              (entry_written s' s.indirect off i (s.disk s.indirect) (sym g.inode.indirect) (sym d)
                w f.used)
              (fresh z g.was_free (zeroed ∙ g.zeroed) (then-IsExtended k x))
      ]
  entry_new-Bmapped off _ h y z (volume_full {s'} full e) =
      failed (omega arith) (subst (IsKept s) (sym e) (unchanged-IsKept m p))
  entry_new-Bmapped off _ h y z (device_error {i} {s'} w v bits nbits disk e) =
      failed (omega arith) (failed-IsKept m p v bits nbits disk e)

  from_buffer-Bmapped :
      (off : ℕ) (doalloc : Bool)
      → off < dbperidb
      → s.indirect ≢ 0
      → Bmapped s
          (ndirect + off)
          doalloc
          (from_buffer s.indirect off doalloc (good (s.disk s.indirect)) s)
  from_buffer-Bmapped off doalloc h y =
      let x : get_or (s.disk s.indirect) off 0 ≡ block_of s (ndirect + off) =
        ground (arith, block_of-indirect s (ndirect + off)) in
      let back : hand_back (get_or (s.disk s.indirect) off 0) s
          ≡ ok (good (block_of s (ndirect + off))) s =
        rw x (hand_back_mapped s (ndirect + off) p) in
      elim (Bool-cases doalloc) [
        | inr d ↦
            rw (d, buffer_found s s.indirect off (s.disk s.indirect) false (inr refl), back)
              (there (inr refl))
        | inl d ↦ elim (ℕ_discrete (get_or (s.disk s.indirect) off 0) 0) [
          | yes z ↦
              rw (d, buffer_missing s s.indirect off (s.disk s.indirect) z)
                (entry_new-Bmapped off (balloc s) h y (sym x ∙ z) (balloc-Balloced s m))
          | no z ↦
              rw (d, buffer_found s s.indirect off (s.disk s.indirect) true (inl z), back)
                (there (inl (λ o. z (x ∙ o))))
        ]
      ]

module _ {s : Fs} (m : IsMounted s) (p : IsMapped s) where
  with_indirect-Bmapped :
      (off : ℕ) (r : Run Fs (Res ℕ))
      → off < dbperidb
      → s.indirect ≡ 0
      → Balloced s r
      → Bmapped s (ndirect + off) true (and_then r (with_indirect off))
  unfolding with_indirect
  with_indirect-Bmapped off _ h y (given {i} {s'} g) =
      let t : Fs = record s' { indirect = i; dirty = true } in
      let k = given-IsKept m p g in
      let f = given-IsFresh m p g in
      let q = indirect-IsKept k.mounted k.mapped i (g.inode.indirect ∙ y) g.zeroed f in
      let r : Bmapped t (ndirect + off) true (from_buffer i off true (good zeros) t) =
        subst (λ w. Bmapped t (ndirect + off) true (from_buffer i off true (good w) t)) g.zeroed
          (from_buffer-Bmapped q.mounted q.mapped off true h f.nonzero) in
      lift _ (then-IsKept k q) (λ j e. ground (arith, g.taken.bits j))
        (block_of-none s (ndirect + off) (omega arith) y) (omega arith) r
  with_indirect-Bmapped off _ h y (volume_full {s'} full e) =
      failed (omega arith) (subst (IsKept s) (sym e) (unchanged-IsKept m p))
  with_indirect-Bmapped off _ h y (device_error {i} {s'} w v bits nbits disk e) =
      failed (omega arith) (failed-IsKept m p v bits nbits disk e)

  bmap_indirect-Bmapped :
      (off : ℕ) (doalloc : Bool)
      → off < dbperidb
      → Bmapped s (ndirect + off) doalloc (bmap_indirect off doalloc s)
  bmap_indirect-Bmapped off doalloc h = elim (ℕ_discrete s.indirect 0) [
    | yes z ↦ elim (Bool-cases doalloc) [
      | inl d ↦
          rw (d, indirect_missing s off z)
            (with_indirect-Bmapped off (balloc s) h z (balloc-Balloced s m))
      | inr d ↦
          let e : block_of s (ndirect + off) ≡ 0 =
            block_of-none s (ndirect + off) (omega arith) z in
          rw (d, indirect_hole s off z)
            (subst (λ b. Bmapped s (ndirect + off) false (ok (good b) s)) e (there (inr refl)))
    ]
    | no z ↦ elim (Bool-cases (s.bad_read s.indirect)) [
      | inl b ↦ rw (indirect_unread s off doalloc z b) (failed (omega arith) (unchanged-IsKept m p))
      | inr b ↦ rw (indirect_read s off doalloc z b) (from_buffer-Bmapped m p off doalloc h z)
    ]
  ]

-- sfs_bmap, on a mounted volume with a well-formed block map, does not panic. For a block that the
-- file has, or without doalloc, it returns the map's block, 0 for none, and changes nothing, or
-- reports an error. With doalloc and no such block, it gives one that was free and holds zeros, and
-- the map has this block more and is otherwise as it was, or it reports an error with the map as it
-- was. Past the last block that a file can have it reports EFBIG and changes nothing. The map stays
-- well formed: no disk block is in it twice, and all of its blocks are in use.
pub bmap-Bmapped :
    (s : Fs) (n : ℕ) (doalloc : Bool)
    → IsMounted s
    → IsMapped s
    → Bmapped s n doalloc (bmap n doalloc s)
unfolding bmap
bmap-Bmapped s n doalloc m p = elim (dec_lt n ndirect) [
  | yes h ↦
      let t : ltb n ndirect ≡ true = ground arith in rw t (bmap_direct-Bmapped m p n doalloc h)
  | no h ↦ elim (dec_lt n most_blocks) [
    | yes l ↦
        let t : ltb n ndirect ≡ false = ground arith in
        let i : leb nindirect ((n - ndirect) / dbperidb) ≡ false = ground arith in
        let off = (n - ndirect) % dbperidb in
        let e : ndirect + off ≡ n = omega arith in
        rw (t, i)
          (subst (λ j. Bmapped s j doalloc (bmap_indirect off doalloc s)) e
            (bmap_indirect-Bmapped m p off doalloc (omega arith)))
    | no l ↦
        let t : ltb n ndirect ≡ false = ground arith in
        let i : leb nindirect ((n - ndirect) / dbperidb) ≡ true = ground arith in
        rw (t, i) (too_large (omega arith))
  ]
]
