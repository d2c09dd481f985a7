-- ===== src/Generic/G406.antt =====
-- kunit/xfstests/generic/406.c: one large direct write lands whole.
use Prim.Native.Nat.{bit_xor}
use Prim.Native.String.{◌++◌ as ◌<>◌}
use nfsplayground.Base.{
  ℕ, ◌*◌, ◌/◌, ◌%◌, String, not, Option, none, some, List, [], ◌∷◌, pos, nonzero, State, ◌==◌,
  ◌==ℤ◌, leb,
}
use nfsplayground.Kernel.{Kernel, o_rdwr, o_creat, o_trunc, o_direct, ptr, err_ptr}
use nfsplayground.Paths.{unlink, kstat}
use nfsplayground.Files.{direct_write}
use nfsplayground.Settle.{mnt, rmdir_settled}
use nfsplayground.Server.{export_dir}
use nfsplayground.Fixture.{Fixture}
use nfsplayground.Kunit.{Case, ◌>>=◌, ◌>>◌, run, step, assert, abort, expect}
use nfsplayground.Generic.Steps.{in_root, on_machine}
use nfsplayground.Generic.Pattern.{bytes_of, verify}

abbrev pub root : String
root = mnt <> "/g406"

abbrev pub file : String
file = root <> "/testfile.406"

abbrev pub server_file : String
server_file = export_dir <> "/g406/testfile.406"

abbrev pub file_size : ℕ
file_size = 2 * 1024 * 1024

abbrev pub chunk : ℕ
chunk = 65536

-- `(u8)(off >> 16) ^ (u8)off`
unfoldable pub byte : ℕ → ℕ
byte off = bit_xor (off / 65536 % 256) (off % 256)

-- A buffer is an address: `alloc` gives one of a size, and `fill` stores bytes at it. `wsize` is the
-- most that the client writes in one call to the server, and `size_of` the size in a kstat.
module _ (K : Kernel) (alloc : ℕ → State K.Machine (Option ℕ))
    (fill : ℕ → List ℕ → K.Machine → K.Machine) (wsize : K.File → K.Machine → ℕ)
    (size_of : K.Kstat → ℕ) where
  open K use {Machine, File, Kstat, filp_open, filp_close}

  unfoldable pub verify_copy : String → Case Machine (Unit {0})
  verify_copy path = verify K path byte file_size chunk

  unfoldable write_whole : ℕ → Kstat → File → Case Machine (Unit {0})
  write_whole buf st f = do
    most ← run (λ s. (wsize f s, s))
    expect (leb most (file_size / 2))
    (n, at_pos) ← run (direct_write K f buf file_size 0)
    step (filp_close f)
    assert (n ==ℤ pos file_size)
    (err, st') ← run (kstat K st file)
    assert (not (nonzero err))
    expect (size_of st' == file_size)
    verify_copy file
    verify_copy server_file

  unfoldable lands_whole : Kstat → Case Machine (Unit {0})
  lands_whole st = do
    granted ← run (alloc file_size)
    elim granted [
      | none ↦ abort
      | some buf ↦ do
        step (fill buf (bytes_of byte 0 file_size))
        opened ← run (filp_open file (o_rdwr ∷ o_creat ∷ o_trunc ∷ o_direct ∷ []) 0o644)
        elim opened [ err_ptr e ↦ abort | ptr f ↦ write_whole buf st f ]
    ]

  unfoldable remove_tree : Machine → Machine
  remove_tree s = (rmdir_settled K root (unlink K file s).1).1

  unfoldable one_direct_write : Kstat → Case (Fixture K) (Unit {0})
  one_direct_write st = in_root K root remove_tree (on_machine K (lands_whole st))
