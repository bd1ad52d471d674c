-- ===== src/Tests/Library.antt =====
-- Arrays, transfers, blocks and waits at concrete inputs.
use native.Mathlib.Decide.{dec_lt}
use polito_os161v.Common.{
  get_or-replicate, ◌∙◌, ℕ, zero, suc, ◌<◌, ◌≡◌, ◌⊎◌, refl, arith, [], ◌∷◌, ok, good, fail, efault,
  enomem, true, false, replicate, get_or,
}
use polito_os161v.Array.{Array, preallocate}
use polito_os161v.Array.Laws.{IsRemoved, IsResized, remove-IsRemoved, preallocate-IsResized}
use polito_os161v.Array.Laws as Arrays
use polito_os161v.Hangman.{Hangman, wait, Waited, wait-Waited}
use polito_os161v.Uio.{Io, uiomove, uio_kinit, uio_read, Copy}
use polito_os161v.Uio.Laws.{IsMoved, least, scatter, uiomove-IsMoved}
use polito_os161v.Uio.Laws as Uios
use polito_os161v.Bitmap.{isset}
use polito_os161v.Bitmap.Laws as Bitmaps
use polito_os161v.Sfs.{Fs, balloc, bmap, itrunc, ndirect}
use polito_os161v.Sfs.Trunc.{Truncated, itrunc-Truncated}
use polito_os161v.Sfs.Balloc.{Balloced, balloc-Balloced, IsMounted}
use polito_os161v.Sfs.Map.{IsMapped, block_of, block_of-direct, block_of-none}
use polito_os161v.Sfs.Bmap.{Bmapped, bmap-Bmapped}

abbrev three : Array
three = record { num = 3; max = 4; v = 10 ∷ 11 ∷ 12 ∷ 0 ∷ [] }

three-IsValid : Arrays.IsValid three
three-IsValid = record { fits = omega arith; size = refl; width = omega arith }

preallocate-IsResized_example :
    ((b : Array) × (preallocate (λ n. true) 9 three ≡ ok (good tt) b) × IsResized three 9 b)
    ⊎ ((bytes : ℕ) × (true ≡ false) × (preallocate (λ n. true) 9 three ≡ ok (fail enomem) three))
preallocate-IsResized_example =
    preallocate-IsResized (λ n. true) three 9 three-IsValid (omega arith)

-- Actor 1 holds lock 5, and waits for nothing.
abbrev one_lock : Hangman
one_lock = record { waiting = λ a. 0; holding = λ l. 1; own = 9 }

wait-Waited_example : Waited one_lock 2 5 (wait 4 2 5 one_lock)
wait-Waited_example =
    wait-Waited 4 one_lock (λ a. a) 2 5 (λ c n w. absurd (w refl)) (omega arith) refl (omega arith)
      (omega arith)

-- A transfer of five bytes to a kernel buffer of eight.
abbrev transfer : Io
transfer = record { mem = λ a. a; uio = uio_kinit 4096 8 100 uio_read }

transfer-IsValid : Uios.IsValid transfer.uio
unfolding uio_kinit
transfer-IsValid = record {
  kernel = refl;
  no_space = refl;
  sized = refl;
  width = omega arith;
  room = omega arith;
}

-- No user memory is there to copy from or to.
abbrev no_copy : Copy
no_copy dst src n mem = fail efault

uiomove-IsMoved_example :
    (s : Io) × (uiomove no_copy no_copy 9 0 8192 5 transfer ≡ ok (good tt) s)
    × IsMoved transfer.uio (least 5 transfer.uio.resid) s.uio
    × (s.mem ≡ scatter uio_read transfer.uio.iov 8192 5 transfer.mem)
unfolding uio_kinit
uiomove-IsMoved_example =
    uiomove-IsMoved no_copy no_copy 9 0 8192 5 transfer transfer-IsValid (omega arith)

-- A volume of eight blocks, of which block 0 is in use.
abbrev volume : Fs
volume = record {
  freemap = record { nbits = 8; v = 1 ∷ [] };
  freemapdirty = false;
  nblocks = 8;
  disk = λ b. replicate 128 7;
  bad_read = λ b. false;
  bad_write = λ b. false;
  direct = replicate 15 0;
  indirect = 0;
  size = 0;
  dirty = false;
}

freemap-IsValid : Bitmaps.IsValid volume.freemap
freemap-IsValid = record {
  small = omega arith;
  size = refl;
  bytes = bytes;
  rest = λ i h l. absurd (omega arith);
}
  where
    bytes : (i : ℕ) → get_or (1 ∷ []) i 0 < 256
    bytes zero = omega arith
    bytes (suc i) = omega arith

volume-IsMounted : IsMounted volume
volume-IsMounted = record {
  valid = freemap-IsValid;
  covers = omega arith;
  past_end = λ i h l. absurd (omega arith);
}

no_block : (n : ℕ) → block_of volume n ≡ 0
no_block n = elim (dec_lt n ndirect) [
  | yes h ↦ block_of-direct volume n h ∙ get_or-replicate 15 n 0
  | no h ↦ block_of-none volume n (omega arith) refl
]

volume-IsMapped : IsMapped volume
unfolding isset
volume-IsMapped = record {
  width = refl;
  super_block = refl;
  in_use = λ n z. absurd (z (no_block n));
  apart = λ m n q z. absurd (z (no_block m));
  indirect_width = λ z. absurd (z refl);
  indirect_in_use = λ z. absurd (z refl);
  indirect_apart = λ n z. absurd (z refl);
}

bmap-Bmapped_example : Bmapped volume 20 true (bmap 20 true volume)
bmap-Bmapped_example = bmap-Bmapped volume 20 true volume-IsMounted volume-IsMapped

balloc-Balloced_example : Balloced volume (balloc volume)
balloc-Balloced_example = balloc-Balloced volume volume-IsMounted

itrunc-Truncated_example : Truncated volume 512 (itrunc 512 volume)
itrunc-Truncated_example = itrunc-Truncated volume 512 volume-IsMounted volume-IsMapped
