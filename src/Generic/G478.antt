-- ===== src/Generic/G478.antt =====
-- kunit/xfstests/generic/478.c: which closes release OFD and POSIX locks, as another owner sees it.
pub mod One
pub mod Rules
pub mod Closes
pub mod Kept
pub mod Lines
use Prim.Native.String.{◌++◌ as ◌<>◌}
use nfsplayground.Base.{
  ℕ, ◌+◌, ◌-◌, String, Bool, true, false, not, Option, none, some, List, [], ◌∷◌, ℤ, pos, negsuc,
  e_nomem, nonzero, State, pure, ◌>>=◌, ◌>>◌, call, ◌==◌, if◌then◌else◌,
}
use nfsplayground.Kernel.{Kernel, OpenFlag, o_rdonly, o_rdwr, ptr, err_ptr}
use nfsplayground.Settle.{mnt, settle_fput}

abbrev pub root : String
root = mnt <> "/g478"

abbrev pub file : String
file = root <> "/testfile"

-- One table of file descriptors each.
pub data Files : Type 0 where
  setter_files child_files getter_files : Files

pub data Variant : Type 0 where
  plain clone_files dup : Variant

-- The values of flc_type; `other_type` is any other byte.
pub data LockType : Type 0 where
  rdlck wrlck unlck : LockType
  other_type : ℕ → LockType

unfoldable pub same_type : LockType → LockType → Bool
same_type rdlck rdlck = true
same_type wrlck wrlck = true
same_type unlck unlck = true
same_type (other_type a) (other_type b) = a == b
same_type _ _ = false

pub record Expected : Type 0 where
  pub when_plain : LockType
  pub when_shared : LockType
  pub when_dup : LockType

pub record LockCase : Type 0 where
  pub s_type : LockType
  pub s_rdonly : Bool
  pub s_posix : Bool
  pub s_start : ℕ
  pub s_len : ℕ
  pub g_type : LockType
  pub g_rdonly : Bool
  pub g_posix : Bool
  pub g_start : ℕ
  pub g_len : ℕ
  pub want : Expected

-- `c->want[variant]`
unfoldable pub want_of : LockCase → Variant → LockType
want_of c plain = c.want.when_plain
want_of c clone_files = c.want.when_shared
want_of c dup = c.want.when_dup

-- A line of the table, in the order of the fields.
abbrev pub row :
    LockType
    → Bool
    → Bool
    → ℕ
    → ℕ
    → LockType
    → Bool
    → Bool
    → ℕ
    → ℕ
    → LockType
    → LockType
    → LockType
    → LockCase
row s_type s_rdonly s_posix s_start s_len g_type g_rdonly g_posix g_start g_len a b c = record {
  s_type = s_type;
  s_rdonly = s_rdonly;
  s_posix = s_posix;
  s_start = s_start;
  s_len = s_len;
  g_type = g_type;
  g_rdonly = g_rdonly;
  g_posix = g_posix;
  g_start = g_start;
  g_len = g_len;
  want = record { when_plain = a; when_shared = b; when_dup = c };
}

abbrev pub table : List LockCase
table =
    row wrlck false false 0 10 wrlck false false 0 10 wrlck unlck wrlck
    ∷ row wrlck false false 0 10 wrlck false true 5 20 wrlck unlck wrlck
    ∷ row wrlck false false 0 10 wrlck false false 20 10 unlck unlck unlck
    ∷ row wrlck false true 0 10 wrlck false false 5 20 wrlck unlck unlck
    ∷ row wrlck false true 0 10 wrlck false false 20 10 unlck unlck unlck
    ∷ row wrlck false false 0 10 rdlck false false 0 10 wrlck unlck wrlck
    ∷ row wrlck false false 0 10 rdlck false true 5 20 wrlck unlck wrlck
    ∷ row wrlck false false 0 10 rdlck false false 20 10 unlck unlck unlck
    ∷ row wrlck false true 0 10 rdlck false false 5 20 wrlck unlck unlck
    ∷ row wrlck false true 0 10 rdlck false false 20 10 unlck unlck unlck
    ∷ row rdlck true false 0 10 wrlck true false 0 10 rdlck unlck rdlck
    ∷ row rdlck true false 0 10 wrlck true true 5 20 rdlck unlck rdlck
    ∷ row rdlck true true 0 10 wrlck true false 5 20 rdlck unlck unlck
    ∷ row rdlck false false 0 10 wrlck false false 0 10 rdlck unlck rdlck
    ∷ row rdlck false false 0 10 wrlck false true 5 20 rdlck unlck rdlck
    ∷ row rdlck false true 0 10 wrlck false false 5 20 rdlck unlck unlck
    ∷ row rdlck true false 0 10 wrlck true false 20 10 unlck unlck unlck
    ∷ row rdlck true true 0 10 wrlck true false 20 10 unlck unlck unlck
    ∷ row rdlck false false 0 10 wrlck false false 20 10 unlck unlck unlck
    ∷ row rdlck false true 0 10 wrlck false false 20 10 unlck unlck unlck
    ∷ row rdlck true false 0 10 rdlck true false 0 10 unlck unlck unlck
    ∷ row rdlck true false 0 10 rdlck true true 0 10 unlck unlck unlck
    ∷ row rdlck true true 0 10 rdlck true false 0 10 unlck unlck unlck
    ∷ row rdlck false false 0 10 rdlck false false 0 10 unlck unlck unlck
    ∷ row rdlck false true 0 10 rdlck false false 0 10 unlck unlck unlck
    ∷ row rdlck true false 0 10 rdlck true false 20 10 unlck unlck unlck
    ∷ row rdlck true false 0 10 rdlck true true 20 10 unlck unlck unlck
    ∷ row rdlck true true 0 10 rdlck true false 20 10 unlck unlck unlck
    ∷ row rdlck false false 0 10 rdlck false false 20 10 unlck unlck unlck
    ∷ row rdlck false true 0 10 rdlck false false 20 10 unlck unlck unlck
    ∷ []

abbrev pub flags : Bool → List OpenFlag
flags rdonly = if rdonly then o_rdonly ∷ [] else o_rdwr ∷ []

-- What a lock belongs to: a table of descriptors, or an open file.
pub data Owner (File : Type 0) : Type 0 where
  of_files : Files → Owner File
  of_file : File → Owner File

-- What g478_lock fills into a `struct file_lock`, but for the lock's file. The table's starts are not
-- negative, and its lengths are 10 or 20, so the last byte, which the source has as a loff_t, is none
-- below 0.
pub record Request (File : Type 0) : Type 0 where
  pub flc_type : LockType
  pub ofd : Bool
  pub sleeps : Bool
  pub flc_owner : Owner File
  pub flc_pid : ℤ
  pub fl_start : ℕ
  pub fl_end : ℕ

-- The calls of the kernel that the port makes besides those of the fixture; `close_as` is filp_close
-- with the table whose descriptor is closed, and vfs_test_lock returns the type that it leaves.
pub record LockCalls (K : Kernel) : Type 0 where
  pub vfs_set_lock : K.File → Request K.File → State K.Machine ℤ
  pub vfs_test_lock : K.File → Request K.File → State K.Machine (ℤ × LockType)
  pub get_file : K.File → K.Machine → K.Machine
  pub close_as : K.File → Files → K.Machine → K.Machine
  pub tgid : ℕ

module _ (K : Kernel) (C : LockCalls K) where
  open K use {Machine, File, filp_open, locks_alloc_lock, locks_free_lock}
  open C use {vfs_set_lock, vfs_test_lock, get_file, close_as, tgid}

  abbrev pub request :
      File → (getlk posix : Bool) → LockType → (start len : ℕ) → Files → Request File
  request f getlk posix type start len files = record {
    flc_type = type;
    ofd = not posix;
    sleeps = not getlk;
    flc_owner = if posix then of_files files else of_file f;
    flc_pid = if posix then pos tgid else negsuc 0;
    fl_start = start;
    fl_end = start + len - 1;
  }

  -- `got` is what `*result` holds before; a lock that is set leaves it.
  pub lock :
      File
      → (getlk posix : Bool) → LockType
      → (start len : ℕ) → Files
      → LockType
      → State Machine (ℤ × LockType)
  lock f getlk posix type start len files got = do
    granted ← locks_alloc_lock
    if not granted then pure (e_nomem, got) else do
      let fl = request f getlk posix type start len files
      (err, got') ←
          if getlk then vfs_test_lock f fl else (do err ← vfs_set_lock f fl; pure (err, got))
      call locks_free_lock
      pure (err, got')

  -- `switch (variant)`, with the setter's file after it
  pub close_variant : Variant → File → State Machine (Option File)
  close_variant plain sf = do call (get_file sf); call (close_as sf child_files); pure (some sf)
  close_variant clone_files sf = do call (close_as sf setter_files); settle_fput K; pure none
  close_variant dup sf = do call (get_file sf); call (close_as sf setter_files); pure (some sf)

  -- `if (sf) filp_close(sf, &g478_setter_files)`
  abbrev pub close_setter : Option File → Machine → Machine
  close_setter none s = s
  close_setter (some sf) s = close_as sf setter_files s
