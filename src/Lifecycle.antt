-- ===== src/Lifecycle.antt =====
-- Bringing the deployment up and down, in kunit/xfstests/nfs_fixture.c, and the reference count that
-- lets consecutive suites share it. The warnings that are printed are left out.
pub mod Stages
pub mod Clearing
pub mod Sharing
pub mod Users
use nfsplayground.Base.{
  ℕ, zero, suc, ◌-◌, String, Bool, true, false, not, Option, none, some, List, [], ◌∷◌, ℤ, pos,
  nonzero, State, pure, ◌>>=◌, ◌>>◌, call, after, if◌then◌else◌,
}
use nfsplayground.Kernel.{Kernel, Mutex}
use nfsplayground.Fixture.{Fixture, sys, modify, get}
use nfsplayground.Paths.{rmdir}
use nfsplayground.Settle.{mnt}
use nfsplayground.Mounts.{
  client_opts, scratch_mnt, mkdir_tolerant, mount_at, umount, umount_settled, scratch_umount,
}
use nfsplayground.Server.{export_dir, loopback_up, configure_exports, start_nfsd, stop_nfsd}
use nfsplayground.Programs.{hostbin_umount}

abbrev pub default_opts : String
default_opts = "size=67108864,nr_inodes=32768"

abbrev pub nfsdfs_dir : String
nfsdfs_dir = "/nfsdfs"

module _ (K : Kernel) where
  open K use {
    Machine, PathRef, path_get, path_put, mutex_lock, mutex_unlock, current_root, set_fs_root,
    set_fs_pwd, strscpy,
  }

  abbrev pub Fix : Type 0 → Type 0
  Fix A = State (Fixture K) A

  -- `err = step; if (err) return err;` before the rest.
  pub try_then : Fix ℤ → Fix ℤ → Fix ℤ
  try_then step rest = do err ← step; if nonzero err then pure err else rest

  -- The static buffer has 64 bytes.
  pub export_opts : String → Fix (Unit {0})
  export_opts opts = modify λ w. record w { export_mount_opts = strscpy 64 opts }

  unfoldable pub is_mounted : Fixture K → Bool
  is_mounted w = w.client_mounted

  -- The bring-up thread's root replaces the one remembered.
  remember_root : Fix (Unit {0})
  remember_root = do
    w ← get
    elim w.bringup_root [ none ↦ pure tt | some old ↦ sys (call (path_put old)) ]
    modify λ w. record w { bringup_root = some (current_root w.machine) }
    sys λ s. (tt, path_get (current_root s) s)

  pub make_dirs : Fix ℤ
  make_dirs = try_then (sys (loopback_up K)) (
      try_then (sys (mkdir_tolerant K export_dir)) (
        try_then (sys (mkdir_tolerant K "/mnt"))
          (try_then (sys (mkdir_tolerant K mnt)) (sys (mkdir_tolerant K nfsdfs_dir)))))

  pub mount_tmpfs : Fix ℤ
  mount_tmpfs = do w ← get; sys (mount_at K "none" export_dir "tmpfs" (some w.export_mount_opts))

  -- xfs_bringup, from its last step to its first.
  pub finish : Fix ℤ
  unfolding remember_root
  finish = do modify λ w. record w { client_mounted = true }; remember_root; pure (pos 0)

  pub from_nfsd : Fix ℤ
  from_nfsd = do
    modify λ w. record w { nfsd_up = true }
    try_then (sys (mount_at K "127.0.0.1:/" mnt "nfs4" (some client_opts))) finish

  pub from_nfsdfs : Fix ℤ
  from_nfsdfs = do
    modify λ w. record w { nfsdfs_mounted = true }
    try_then (sys (configure_exports K)) (try_then (sys (start_nfsd K)) from_nfsd)

  pub from_tmpfs : Fix ℤ
  from_tmpfs = do
    modify λ w. record w { tmpfs_mounted = true }
    try_then (sys (mount_at K "nfsd" nfsdfs_dir "nfsd" none)) from_nfsdfs

  pub bringup : Fix ℤ
  bringup = try_then make_dirs (try_then mount_tmpfs from_tmpfs)

  pub case_init : Fix ℤ
  case_init = do
    w ← get
    elim w.bringup_root [
      | none ↦ pure tt
      | some root ↦ do sys (call (set_fs_root root)); sys (call (set_fs_pwd root))
    ]
    pure (pos 0)

  pub stop_client : Fix (Unit {0})
  stop_client = do
    w ← get
    if not w.client_mounted
        then pure tt
        else do _ ← sys (umount_settled K mnt); modify λ w. record w { client_mounted = false }

  pub stop_server : Fix (Unit {0})
  stop_server = do
    w ← get
    if not w.nfsd_up
        then pure tt
        else do sys (stop_nfsd K); modify λ w. record w { nfsd_up = false }

  pub umount_nfsdfs : Fix (Unit {0})
  umount_nfsdfs = do
    w ← get
    if not w.nfsdfs_mounted
        then pure tt
        else do _ ← sys (umount K nfsdfs_dir); modify λ w. record w { nfsdfs_mounted = false }

  pub umount_tmpfs : Fix (Unit {0})
  umount_tmpfs = do
    w ← get
    if not w.tmpfs_mounted
        then pure tt
        else do _ ← sys (umount K export_dir); modify λ w. record w { tmpfs_mounted = false }

  pub forget_root : Fix (Unit {0})
  forget_root = do
    w ← get
    elim w.bringup_root [
      | none ↦ pure tt
      | some root ↦ do sys (call (path_put root)); modify λ w. record w { bringup_root = none }
    ]

  pub teardown : Fix (Unit {0})
  teardown = do
    hostbin_umount K
    _ ← sys (scratch_umount K)
    _ ← sys (rmdir K scratch_mnt)
    stop_client
    stop_server
    umount_nfsdfs
    umount_tmpfs
    _ ← sys (rmdir K mnt)
    _ ← sys (rmdir K nfsdfs_dir)
    _ ← sys (rmdir K export_dir)
    export_opts default_opts
    forget_root

  -- One more user after a bring-up that worked; a half-built stack is cleaned up.
  pub count_user : ℤ → Fix (Unit {0})
  count_user err =
      if nonzero err then teardown else modify λ w. record w { fixture_refs = suc w.fixture_refs }

  -- xfstests_nfs_get
  pub get_fixture : Fix ℤ
  get_fixture = do
    sys (call (mutex_lock Mutex.fixture_lock))
    w ← get
    err ← elim w.fixture_refs [ zero ↦ bringup | suc _ ↦ pure (pos 0) ]
    count_user err
    sys (call (mutex_unlock Mutex.fixture_lock))
    pure err

  -- The count goes down and is tested: at 0 the last user has gone. A put without a get only warns.
  pub put_count : ℕ → Fix (Unit {0})
  put_count zero = pure tt
  put_count (suc n) = do
    modify λ w. record w { fixture_refs = n }
    elim n [ zero ↦ teardown | suc _ ↦ pure tt ]

  -- xfstests_nfs_put
  pub put_fixture : Fix (Unit {0})
  put_fixture = do
    sys (call (mutex_lock Mutex.fixture_lock))
    w ← get
    put_count w.fixture_refs
    sys (call (mutex_unlock Mutex.fixture_lock))
