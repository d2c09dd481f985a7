-- ===== src/Creds.antt =====
-- Switching credentials, in kunit/xfstests/nfs_fixture.c.
pub mod Bracket
use Prim.Native.Nat.{bit_or}
use nfsplayground.Base.{
  ℕ, String, Option, none, some, ℤ, pos, nonzero, e_busy, e_nomem, State, pure, ◌>>=◌, ◌>>◌, call,
  if◌then◌else◌, ◌==◌,
}
use nfsplayground.Kernel.{Kernel, Cred}
use nfsplayground.Fixture.{Fixture, sys, modify, get}

-- Every id the user's, and no capabilities.
pub switched : ℕ → ℕ → Cred → Cred
switched user group c = record c {
  uid = user;
  euid = user;
  suid = user;
  fsuid = user;
  gid = group;
  egid = group;
  sgid = group;
  fsgid = group;
  cap_inheritable = 0;
  cap_permitted = 0;
  cap_effective = 0;
}

-- setresuid(-1, uid, -1): only euid and fsuid move.
pub with_euid : ℕ → Cred → Cred
with_euid user c = record c { euid = user; fsuid = user }

-- access(2) checks as the real user, with the permitted capabilities if that is root.
pub access_cred : Cred → Cred
access_cred c = record c {
  fsuid = c.uid;
  fsgid = c.gid;
  cap_effective = if c.uid == 0 then c.cap_permitted else 0;
}

-- MAY_ACCESS
abbrev pub may_access : ℕ
may_access = 0x10

abbrev pub lookup_follow : ℕ
lookup_follow = 1

module _ (K : Kernel) where
  open K use {
    Machine, PathRef, CredRef, kern_path, path_put, inode_permission, current_cred, read_cred,
    write_cred, prepare_creds, override_creds, revert_creds, put_cred, abort_creds,
    security_task_fix_setuid,
  }

  -- Stores into the fields of a cred.
  abbrev pub update_cred : CredRef → (Cred → Cred) → Machine → Machine
  update_cred c f s = write_cred c (f (read_cred c s)) s

  -- The last steps of switching: remember the new cred, install it, remember the old one.
  abbrev pub install : CredRef → State (Fixture K) ℤ
  install c = do
    modify λ w. record w { override = some c }
    old ← sys (override_creds c)
    modify λ w. record w { saved_creds = some old }
    pure (pos 0)

  unfoldable pub switch_creds : ℕ → ℕ → State (Fixture K) ℤ
  unfolding switched
  switch_creds uid gid = do
    w ← get
    elim w.saved_creds [
      | some _ ↦ pure e_busy
      | none ↦ do
        prepared ← sys prepare_creds
        elim prepared [
          | none ↦ pure e_nomem
          | some c ↦ do sys (call (update_cred c (switched uid gid))); install c
        ]
    ]

  unfoldable pub restore_creds : State (Fixture K) (Unit {0})
  restore_creds = do
    w ← get
    elim w.saved_creds [
      | none ↦ pure tt
      | some old ↦ do
        sys (call (revert_creds old))
        elim w.override [ none ↦ pure tt | some c ↦ sys (call (put_cred c)) ]
        modify λ w. record w { saved_creds = none; override = none }
    ]

  unfoldable pub seteuid : ℕ → State (Fixture K) ℤ
  unfolding with_euid
  seteuid uid = do
    w ← get
    elim w.saved_creds [
      | some _ ↦ pure e_busy
      | none ↦ do
        let old = current_cred w.machine
        prepared ← sys prepare_creds
        elim prepared [
          | none ↦ pure e_nomem
          | some c ↦ do
            sys (call (update_cred c (with_euid uid)))
            err ← sys (security_task_fix_setuid c old)
            if nonzero err then (do sys (call (abort_creds c)); pure err) else install c
        ]
    ]

  -- The lookup and the check that access makes under the override.
  pub check_access : String → ℕ → State Machine ℤ
  check_access path mode = do
    (err, p) ← kern_path path lookup_follow
    if nonzero err
        then pure err
        else do err ← inode_permission p (bit_or mode may_access); call (path_put p); pure err

  pub access : String → ℕ → State Machine ℤ
  unfolding access_cred
  access path mode = do
    prepared ← prepare_creds
    elim prepared [
      | none ↦ pure e_nomem
      | some override ↦ do
        call (update_cred override access_cred)
        old ← override_creds override
        err ← check_access path mode
        call (revert_creds old)
        call (put_cred override)
        pure err
    ]
