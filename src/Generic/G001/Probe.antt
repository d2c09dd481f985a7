-- ===== src/Generic/G001/Probe.antt =====
-- The first case of kunit/xfstests/generic/001.c: one page of random bytes goes over the mount and back.
use Prim.Native.String.{◌++◌ as ◌<>◌}
use nfsplayground.Base.{ℕ, String, not, List, [], ◌∷◌, pos, nonzero, State, ◌==ℤ◌, same}
use nfsplayground.Kernel.{Kernel, o_rdonly, o_wronly, o_creat, o_trunc, ptr, err_ptr}
use nfsplayground.Paths.{unlink, exists}
use nfsplayground.Settle.{mnt}
use nfsplayground.Server.{export_dir}
use nfsplayground.Fixture.{Fixture}
use nfsplayground.Kunit.{Case, ◌>>=◌, ◌>>◌, run, step, assert, abort, expect}
use nfsplayground.Generic.Steps.{mounted, on_machine}

abbrev pub probe : String
probe = mnt <> "/probe"

-- `get_random_bytes` is the kernel's, and `page_size` the architecture's.
module _ (K : Kernel) (get_random_bytes : ℕ → State K.Machine (List ℕ)) (page_size : ℕ) where
  open K use {Machine, kmalloc, filp_open, filp_close, kernel_write, kernel_read}

  page_round_trip : Case Machine (Unit {0})
  page_round_trip = do
    granted ← run kmalloc
    granted' ← run kmalloc
    assert granted
    assert granted'
    sent ← run (get_random_bytes page_size)
    opened ← run (filp_open probe (o_wronly ∷ o_creat ∷ o_trunc ∷ []) 0o644)
    elim opened [
      | err_ptr e ↦ abort
      | ptr f ↦ do
        (n, at_pos) ← run (kernel_write f sent 0)
        step (filp_close f)
        assert (n ==ℤ pos page_size)
        opened ← run (filp_open probe (o_rdonly ∷ []) 0)
        elim opened [
          | err_ptr e ↦ abort
          | ptr f ↦ do
            (n, got, at_pos) ← run (kernel_read f page_size 0)
            step (filp_close f)
            assert (n ==ℤ pos page_size)
            expect (same sent got)
            err ← run (unlink K probe)
            expect (not (nonzero err))
            there ← run (exists K (export_dir <> "/probe"))
            expect (not there)
        ]
    ]

  unfoldable loopback_nfs_mounts : Case (Fixture K) (Unit {0})
  loopback_nfs_mounts = mounted K >> on_machine K page_round_trip
