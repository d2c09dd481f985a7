-- ===== src/Settle.antt =====
-- The bounded waits of kunit/xfstests/nfs_fixture.c: an operation that a delayed fput may keep busy
-- is tried again, a while later.
pub mod Rounds
pub mod Space
use nfsplayground.Base.{
  ℕ, zero, suc, String, true, false, ℤ, e_notempty, e_timedout, State, pure, ◌>>=◌, ◌>>◌, call,
  ◌==ℤ◌, nonzero, if◌then◌else◌, leb, ◌*◌, ◌%◌, ◌^◌, pos,
}
use nfsplayground.Kernel.{Kernel, Kstatfs}
use nfsplayground.Paths.{rmdir, statfs}

-- Where the client mount lives.
abbrev pub mnt : String
mnt = "/mnt/nfs"

-- `(u64)st.f_bavail * st.f_bsize`
unfoldable pub free_bytes : Kstatfs → ℕ
free_bytes st = st.f_bavail * st.f_bsize % 2 ^ 64

module _ (K : Kernel) where
  open K use {Machine, flush_delayed_fput, msleep}

  unfoldable pub settle_fput : State Machine (Unit {0})
  settle_fput = call flush_delayed_fput

  -- `for (tries = 0; tries < 20 && err == busy; tries++)` over the tries left.
  pub settle_loop : ℕ → ℤ → State Machine ℤ → ℤ → State Machine ℤ
  settle_loop zero busy act err = pure err
  settle_loop (suc tries) busy act err = elim (err ==ℤ busy) [
    | false ↦ pure err
    | true ↦ do
      call flush_delayed_fput
      err ← act
      if err ==ℤ busy then call (msleep 100) else pure tt
      settle_loop tries busy act err
  ]

  pub rmdir_settled : String → State Machine ℤ
  rmdir_settled path = settle_loop 20 e_notempty (rmdir K path) e_notempty

  -- `st` starts as whatever the stack holds; every poll that succeeds fills it.
  pub wait_loop : ℕ → ℕ → Kstatfs → State Machine ℤ
  wait_loop zero bytes st = pure e_timedout
  wait_loop (suc tries) bytes st = do
    call flush_delayed_fput
    (err, st) ← statfs K st mnt
    elim (nonzero err) [
      | true ↦ pure err
      | false ↦ elim (leb bytes (free_bytes st)) [
        | true ↦ pure (pos 0)
        | false ↦ do call (msleep 100); wait_loop tries bytes st
      ]
    ]

  pub wait_for_free_bytes : ℕ → Kstatfs → State Machine ℤ
  wait_for_free_bytes bytes st = wait_loop 100 bytes st
