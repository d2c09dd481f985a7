-- ===== src/Generic/Pattern.antt =====
-- What the ports that know every byte of a file have in common: 086, 406 and 708 in
-- kunit/xfstests/generic compare a file with a formula, chunk by chunk,
-- and 141 and 708 write one.
pub mod Verified
use nfsplayground.Base.{ℕ, zero, suc, ◌+◌, String, true, false, List, [], ◌∷◌, ℤ, pos, ◌==ℤ◌, ltb}
use nfsplayground.Kernel.{Kernel}
use nfsplayground.Files.{read_range}
use nfsplayground.Kunit.{Case, pass, ◌>>=◌, ◌>>◌, run, assert, abort, expect}
use nfsplayground.Generic.G075.{matches}

-- `buf[i] = byte(off + i)` for `len` bytes
unfoldable pub bytes_of : (ℕ → ℕ) → ℕ → ℕ → List ℕ
bytes_of byte off zero = []
bytes_of byte off (suc len) = byte off ∷ bytes_of byte (suc off) len

-- `while (pos < size)`: a chunk of the formula is written where the last write ended. The fuel is the
-- caller's, since it is the kernel that moves the position.
module _ (K : Kernel) (f : K.File) (byte : ℕ → ℕ) (size chunk : ℕ) where
  pub write_pattern : ℕ → ℕ → Case K.Machine (Unit {0})
  write_pattern zero at_pos = abort
  write_pattern (suc fuel) at_pos = elim (ltb at_pos size) [
    | false ↦ pass tt
    | true ↦ do
      (n, at_pos') ← run (K.kernel_write f (bytes_of byte at_pos chunk) at_pos)
      assert (n ==ℤ pos chunk)
      write_pattern fuel at_pos'
  ]

module _ (K : Kernel) (path : String) (byte : ℕ → ℕ) (size chunk : ℕ) where
  open K use {Machine}

  -- `for (off = 0; off < size; off += chunk)`. A difference fails and returns. As many rounds as there
  -- are bytes are enough.
  pub verify_from : ℕ → ℕ → Case Machine (Unit {0})
  verify_from zero off = pass tt
  verify_from (suc rounds) off = elim (ltb off size) [
    | false ↦ pass tt
    | true ↦ do
      (n, buf) ← run (read_range K path chunk off)
      assert (n ==ℤ pos chunk)
      elim (matches byte off chunk buf) [
        | true ↦ verify_from rounds (off + chunk)
        | false ↦ expect false
      ]
  ]

  unfoldable pub verify : Case Machine (Unit {0})
  verify = verify_from size 0
