-- ===== src/Mounts.antt =====
-- Mounting and unmounting by path, in kunit/xfstests/nfs_fixture.c.
pub mod Stack
use nfsplayground.Base.{
  ℕ, zero, suc, ◌+◌, String, Bool, true, false, not, ◌||◌, Option, none, some, ℤ, pos, nonzero,
  e_noent, e_exist, e_busy, e_inval, e_nomem, State, pure, ◌>>=◌, ◌>>◌, call, if◌then◌else◌, ◌==ℤ◌,
}
use nfsplayground.Kernel.{Kernel}
use nfsplayground.Paths.{mkdir}
use nfsplayground.Settle.{mnt, settle_loop}

abbrev pub scratch_mnt : String
scratch_mnt = "/mnt/scratch"

abbrev pub client_opts : String
client_opts = "addr=127.0.0.1,clientaddr=127.0.0.1,vers=4.2,sec=sys"

abbrev pub mnt_detach : ℕ
mnt_detach = 2

abbrev pub ms_rdonly : ℕ
ms_rdonly = 1

abbrev pub ms_remount : ℕ
ms_remount = 32

module _ (K : Kernel) where
  open K use {
    Machine, PathRef, kern_path, path_put, path_mount, path_umount, flush_delayed_fput, msleep,
    kmalloc, kfree,
  }

  unfoldable pub mkdir_tolerant : String → State Machine ℤ
  mkdir_tolerant path = do err ← mkdir K path; pure (if err ==ℤ e_exist then pos 0 else err)

  -- The lookup and the mount, with the option string or none.
  unfoldable pub mount_on : String → String → String → Option String → State Machine ℤ
  mount_on dev mountpoint type opts = do
    (err, p) ← kern_path mountpoint 0
    if nonzero err
        then pure err
        else do err ← path_mount dev p type 0 opts; call (path_put p); pure err

  -- The option string is copied, since the parser takes it to pieces.
  unfoldable pub mount_at : String → String → String → Option String → State Machine ℤ
  mount_at dev mountpoint type none = mount_on dev mountpoint type none
  mount_at dev mountpoint type (some opts) = do
    granted ← kmalloc
    if not granted
        then pure e_nomem
        else do err ← mount_on dev mountpoint type (some opts); call kfree; pure err

  -- path_umount takes the reference over.
  pub umount : String → State Machine ℤ
  umount mountpoint = do
    (err, p) ← kern_path mountpoint 0
    if nonzero err then pure err else path_umount p 0

  pub umount_settled : String → State Machine ℤ
  umount_settled mountpoint = do
    err ← settle_loop K 20 e_busy (umount mountpoint) e_busy
    elim (err ==ℤ e_busy) [
      | false ↦ pure err
      | true ↦ do
        (lookup, p) ← kern_path mountpoint 0
        if nonzero lookup then pure err else path_umount p mnt_detach
    ]

  -- `for (tries = 0; tries < 20 && err == -EBUSY; tries++)` over the tries left.
  unfoldable remount_loop : ℕ → Bool → ℤ → State Machine ℤ
  remount_loop zero ro err = pure err
  remount_loop (suc tries) ro err = elim (err ==ℤ e_busy) [
    | false ↦ pure err
    | true ↦ do
      call flush_delayed_fput
      (err, p) ← kern_path mnt 0
      elim (nonzero err) [
        | true ↦ pure err
        | false ↦ do
          err ← path_mount "127.0.0.1:/" p "nfs4" (ms_remount + (if ro then ms_rdonly else 0)) none
          call (path_put p)
          if err ==ℤ e_busy then call (msleep 100) else pure tt
          remount_loop tries ro err
      ]
  ]

  unfoldable remount_client : Bool → State Machine ℤ
  remount_client ro = remount_loop 20 ro e_busy

  unfoldable pub scratch_mount : State Machine ℤ
  scratch_mount = do
    err ← mkdir_tolerant scratch_mnt
    if nonzero err
        then pure err
        else mount_at "127.0.0.1:/" scratch_mnt "nfs4"
            (some "addr=127.0.0.1,clientaddr=127.0.0.1,vers=4.2,sec=sys,nosharecache")

  -- `for (tries = 0; tries < 8 && !err; tries++)` over the tries left.
  pub scratch_umount_loop : ℕ → ℤ → State Machine ℤ
  scratch_umount_loop zero err = pure err
  scratch_umount_loop (suc tries) err = elim (nonzero err) [
    | true ↦ pure err
    | false ↦ do err ← umount_settled scratch_mnt; scratch_umount_loop tries err
  ]

  pub scratch_umount : State Machine ℤ
  scratch_umount = do
    err ← scratch_umount_loop 8 (pos 0)
    pure (if (err ==ℤ e_inval) || (err ==ℤ e_noent) then pos 0 else err)
