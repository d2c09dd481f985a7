-- ===== src/Generic/G478/One.antt =====
-- kunit/xfstests/generic/478.c: one line of the table in one variant, and the case.
use nfsplayground.Base.{true, false, not, Option, nonzero, replicate, List, [], ◌∷◌}
use nfsplayground.Kernel.{Kernel, ptr, err_ptr}
use nfsplayground.Paths.{unlink}
use nfsplayground.Settle.{settle_fput, rmdir_settled}
use nfsplayground.Fixture.{Fixture}
use nfsplayground.Kunit.{Case, ◌>>=◌, ◌>>◌, run, step, assert, abort, expect, each}
use nfsplayground.Generic.Steps.{in_root, allocated, write_ok, on_machine}
use nfsplayground.Generic.G478.{
  root, file, setter_files, getter_files, Variant, plain, clone_files, dup, other_type, same_type,
  LockCase, want_of, table, LockCalls, lock, flags, close_variant, close_setter,
}

abbrev pub variants : List Variant
variants = plain ∷ clone_files ∷ dup ∷ []

module _ (K : Kernel) (C : LockCalls K) where
  open K use {Machine, File, filp_open}
  open C use {close_as}

  -- From the getter's file on.
  unfoldable pub ask : LockCase → Variant → Option File → File → Case Machine (Unit {0})
  ask c v sf gf = do
    (err, got) ←
        run (lock K C gf true c.g_posix c.g_type c.g_start c.g_len getter_files (other_type 0xff))
    step (close_as gf getter_files)
    step (close_setter K C sf)
    run (settle_fput K)
    assert (not (nonzero err))
    expect (same_type got (want_of c v))

  unfoldable pub getter : LockCase → Variant → Option File → Case Machine (Unit {0})
  getter c v sf = do
    opened ← run (filp_open file (flags c.g_rdonly) 0)
    elim opened [ err_ptr e ↦ step (close_setter K C sf) >> abort | ptr gf ↦ ask c v sf gf ]

  unfoldable pub setter : LockCase → Variant → File → Case Machine (Unit {0})
  setter c v sf = do
    (err, got) ←
        run (lock K C sf false c.s_posix c.s_type c.s_start c.s_len setter_files (other_type 0xff))
    elim (nonzero err) [
      | true ↦ step (close_as sf setter_files) >> abort
      | false ↦ do sf' ← run (close_variant K C v sf); getter c v sf'
    ]

  unfoldable pub one : LockCase → Variant → Case Machine (Unit {0})
  one c v = do
    opened ← run (filp_open file (flags c.s_rdonly) 0)
    elim opened [ err_ptr e ↦ abort | ptr sf ↦ setter c v sf ]

  unfoldable pub every_line : Case Machine (Unit {0})
  every_line = each table (λ c. each variants (one c))

  unfoldable remove_tree : Machine → Machine
  remove_tree s = (rmdir_settled K root (unlink K file s).1).1

  unfoldable locks_across_owners : Case (Fixture K) (Unit {0})
  locks_across_owners =
      in_root K root remove_tree
        (do allocated K; write_ok K file (replicate 4096 0xff); on_machine K every_line)
