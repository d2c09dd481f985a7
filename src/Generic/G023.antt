-- ===== src/Generic/G023.antt =====
-- kunit/xfstests/generic/023.c: rename between every two types of file.
pub mod Posix
use Prim.Native.String.{◌++◌ as ◌<>◌}
use nfsplayground.Base.{
  ℕ, zero, suc, String, Bool, true, false, not, none as nothing, ◌&&◌, ◌||◌, some, ℤ, pos, nonzero,
  e_noent, e_isdir, e_notdir, e_notempty, e_inval, List, [], ◌∷◌, State, ◌==ℤ◌, ◌==◌, if◌then◌else◌,
}
use nfsplayground.Kernel.{Kernel}
use nfsplayground.Fixture.{Fixture, sys}
use nfsplayground.Paths.{mkdir, rmdir, unlink, rename, link, symlink, exists, kstat}
use nfsplayground.Files.{write_new_file, read_range}
use nfsplayground.Settle.{mnt, settle_fput}
use nfsplayground.Lifecycle.{is_mounted}
use nfsplayground.Kunit.{
  Case, pass, ◌>>=◌, ◌>>◌, run, step, assert, abort, expect, each, with_action,
}

abbrev pub root : String
root = mnt <> "/g023"

-- enum g023_type
pub data FileType : Type 0 where
  none regu symb dire tree : FileType

abbrev pub all_types : List FileType
all_types = none ∷ regu ∷ symb ∷ dire ∷ tree ∷ []

-- enumerators are compared as their numbers
abbrev pub type_number : FileType → ℕ
type_number none = 0
type_number regu = 1
type_number symb = 2
type_number dire = 3
type_number tree = 4

abbrev pub is_dir : FileType → Bool
is_dir none = false
is_dir regu = false
is_dir symb = false
is_dir dire = true
is_dir tree = true

pub expected : FileType → FileType → ℤ
expected stype dtype =
    if type_number stype == 0
    then e_noent
    else if not (is_dir stype)
    then (if is_dir dtype then e_isdir else pos 0)
    else if not (is_dir dtype) && not (type_number dtype == 0)
    then e_notdir
    else if type_number dtype == 4
    then e_notempty
    else pos 0

abbrev pub bar_path : String → String
bar_path dir = dir <> "/bar"

-- "foo\n"
abbrev pub foo : List ℕ
foo = 102 ∷ 111 ∷ 111 ∷ 10 ∷ []

-- `mode_dir` and `mode_lnk` are S_ISDIR and S_ISLNK of what kstat filled in.
module _ (K : Kernel) (mode_dir mode_lnk : K.Kstat → Bool) where
  open K use {Machine, Kstat, kmalloc}

  abbrev pub Body : Type 0 → Type 0
  Body A = Case (Fixture K) A

  -- a call that must return 0
  abbrev pub ok : State Machine ℤ → Body (Unit {0})
  ok call = run (sys call) >>= (λ err. assert (not (nonzero err)))

  -- xfs_write_new_file that must return 0
  abbrev pub write_ok : String → List ℕ → Body (Unit {0})
  write_ok path bytes =
      run (sys (write_new_file K path bytes))
      >>= (λ err. elim err [ nothing ↦ abort | some e ↦ assert (not (nonzero e)) ])

  unfoldable setup_one : String → FileType → Body (Unit {0})
  setup_one path none = pass tt
  setup_one path regu = write_ok path foo
  setup_one path symb = ok (symlink K "foo" path)
  setup_one path dire = ok (mkdir K path)
  setup_one path tree = do ok (mkdir K path); write_ok (bar_path path) foo

  -- `st` is the structure on the stack that kstat fills in.
  unfoldable showtype : Kstat → String → State Machine FileType
  showtype st path s =
      let k = kstat K st path s in
      let b = exists K (bar_path path) k.1 in
      if nonzero k.0.0
      then (none, k.1)
      else if mode_dir k.0.1
      then (if b.0 then (tree, b.1) else (dire, b.1))
      else if mode_lnk k.0.1
      then (symb, k.1)
      else (regu, k.1)

  unfoldable cleanup_one : Kstat → String → Body (Unit {0})
  cleanup_one st path = do
    (err, st') ← run (sys (kstat K st path))
    if nonzero err
        then pass tt
        else if mode_dir st'
        then (do
          _ ← run (sys (settle_fput K))
          err ← run (sys (unlink K (bar_path path)))
          expect (not (nonzero err) || err ==ℤ e_noent)
          err ← run (sys (rmdir K path))
          expect (not (nonzero err)))
        else (do err ← run (sys (unlink K path)); expect (not (nonzero err)))

  -- One row of the matrix.
  unfoldable run_row : Kstat → String → String → FileType → FileType → Body (Unit {0})
  run_row st src dst stype dtype = do
    setup_one src stype
    setup_one dst dtype
    err ← run (sys (rename K src dst))
    expect (err ==ℤ expected stype dtype)
    if nonzero err then pass tt else (do
      shown ← run (sys (showtype st src))
      expect (type_number shown == 0)
      shown ← run (sys (showtype st dst))
      -- the message of a failure is built from one more look
      if type_number shown == type_number stype
          then pass tt
          else (do _ ← run (sys (showtype st dst)); expect false))
    cleanup_one st src
    cleanup_one st dst

  unfoldable run_matrix : Kstat → String → String → Body (Unit {0})
  run_matrix st src dst =
      each all_types (λ stype. each all_types (λ dtype. run_row st src dst stype dtype))

  abbrev ignoring : State Machine ℤ → Machine → Machine
  ignoring call s = (call s).1

  unfoldable remove_tree : Machine → Machine
  remove_tree s =
      let s1 = ignoring (unlink K (root <> "/src")) s in
      let s2 = ignoring (unlink K (root <> "/dst")) s1 in
      let s3 = ignoring (unlink K (root <> "/x/src")) s2 in
      let s4 = ignoring (unlink K (root <> "/y/dst")) s3 in
      let s5 = ignoring (rmdir K (root <> "/x")) s4 in
      let s6 = ignoring (rmdir K (root <> "/y")) s5 in
      let s7 = ignoring (unlink K (root <> "/d1/sub")) s6 in
      let s8 = ignoring (rmdir K (root <> "/d1/sub")) s7 in
      let s9 = ignoring (rmdir K (root <> "/d1")) s8 in
      let s10 = ignoring (unlink K (root <> "/h1")) s9 in
      let s11 = ignoring (unlink K (root <> "/h2")) s10 in ignoring (rmdir K root) s11

  -- The two renames beyond the matrix.
  unfoldable into_own_subtree : Body (Unit {0})
  into_own_subtree = do
    ok (mkdir K (root <> "/d1"))
    ok (mkdir K (root <> "/d1/sub"))
    err ← run (sys (rename K (root <> "/d1") (root <> "/d1/sub/d1")))
    expect (err ==ℤ e_inval)
    ok (rmdir K (root <> "/d1/sub"))
    ok (rmdir K (root <> "/d1"))

  -- The second name is looked up only if the first is there.
  abbrev both_exist : State Machine Bool
  both_exist s =
      let h1 = exists K (root <> "/h1") s in
      if h1.0 then exists K (root <> "/h2") h1.1 else (false, h1.1)

  unfoldable same_inode : Body (Unit {0})
  same_inode = do
    write_ok (root <> "/h1") (b'h' ∷ [])
    ok (link K (root <> "/h1") (root <> "/h2"))
    err ← run (sys (rename K (root <> "/h1") (root <> "/h2")))
    expect (not (nonzero err))
    both ← run (sys both_exist)
    expect both
    (got, bytes) ← run (sys (read_range K (root <> "/h1") 1 0))
    assert (got ==ℤ pos 1)
    expect (first_is bytes)
    where
      first_is : List ℕ → Bool
      first_is [] = false
      first_is (c ∷ _) = c == b'h'

  unfoldable rename_matrix : Kstat → Body (Unit {0})
  rename_matrix st = do
    up ← λ w n. (some (is_mounted K w), w, n)
    assert up
    ok (mkdir K root)
    granted ← run (sys kmalloc)
    with_action granted (λ w. record w { machine = remove_tree w.machine })
        (do
          run_matrix st (root <> "/src") (root <> "/dst")
          ok (mkdir K (root <> "/x"))
          ok (mkdir K (root <> "/y"))
          run_matrix st (root <> "/x/src") (root <> "/y/dst")
          into_own_subtree
          same_inode)
