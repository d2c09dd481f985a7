-- ===== src/Generic/G109.antt =====
-- kunit/xfstests/generic/109.c: six renames, of files and of links, in directories of twenty sizes, and
-- the types of their entries.
pub mod Entries
pub mod Renames
use Prim.Native.String.{◌++◌ as ◌<>◌}
use nfsplayground.Base.{
  ℕ, zero, suc, ◌+◌, String, Bool, true, false, not, none, some, List, [], ◌∷◌, ℤ, pos, nonzero,
  State, ◌==◌, codes, same, if◌then◌else◌,
}
use nfsplayground.Kernel.{Kernel, ptr, err_ptr, o_rdonly, o_directory}
use nfsplayground.Paths.{mkdir, rmdir, unlink, rename, symlink, exists, kstat}
use nfsplayground.Files.{write_new_file}
use nfsplayground.Settle.{mnt, rmdir_settled}
use nfsplayground.Fixture.{Fixture}
use nfsplayground.Lifecycle.{is_mounted}
use nfsplayground.Kunit.{Case, pass, ◌>>=◌, ◌>>◌, run, step, assert, abort, expect, with_action}

abbrev pub root : String
root = mnt <> "/g109"

abbrev pub dir : String
dir = root <> "/dir"

abbrev pub moved_dir : String
moved_dir = root <> "/moved"

abbrev pub sizes : List ℕ
sizes =
    1 ∷ 2 ∷ 3 ∷ 4 ∷ 5 ∷ 8 ∷ 12 ∷ 18 ∷ 27 ∷ 40 ∷ 60 ∷ 90 ∷ 135 ∷ 202 ∷ 303 ∷ 454 ∷ 681 ∷ 1020 ∷ 1530
    ∷ 2295 ∷ []

pub record Target : Type 0 where
  pub name : String
  pub is_link : Bool

abbrev pub target : String → Bool → Target
target name is_link = record { name = name; is_link = is_link }

abbrev pub targets : List Target
targets =
    target "fd1" false
    ∷ target "sd1" false
    ∷ target "ed1" false
    ∷ target "fd2" true
    ∷ target "sd2" true
    ∷ target "ed2" true
    ∷ []

abbrev pub sources : List String
sources = "fs1" ∷ "fs2" ∷ "fs3" ∷ "ss1" ∷ "ss2" ∷ "ss3" ∷ []

abbrev pub files : List String
files = "fs1" ∷ "fs2" ∷ "fs3" ∷ "fd1" ∷ "fd2" ∷ []

abbrev pub links : List String
links = "ss1" ∷ "ss2" ∷ "ss3" ∷ "sd1" ∷ "sd2" ∷ []

abbrev pub renames : List (String × String)
renames =
    ("fs1", "fd1")
    ∷ ("fs2", "sd1")
    ∷ ("fs3", "ed1")
    ∷ ("ss1", "fd2")
    ∷ ("ss2", "sd2")
    ∷ ("ss3", "ed2")
    ∷ []

-- DT_UNKNOWN, DT_REG and DT_LNK
abbrev pub dt_unknown : ℕ
dt_unknown = 0

abbrev pub dtype_of : Bool → ℕ
dtype_of is_link = if is_link then 10 else 8

-- DT_UNKNOWN passes.
abbrev pub type_fits : Bool → ℕ → Bool
type_fits is_link type = if type == dt_unknown then true else type == dtype_of is_link

-- What the actor looks for and has found: the name's bytes and the last type that came with them.
pub record Search : Type 0 where
  pub type : ℕ
  pub found : Bool

unfoldable pub actor : List ℕ → List ℕ × ℕ → Search → Search
actor want (name, type) it = if same want name then record { type = type; found = true } else it

unfoldable pub act_all : List ℕ → List (List ℕ × ℕ) → Search → Search
act_all want [] it = it
act_all want (entry ∷ entries) it = act_all want entries (actor want entry it)

-- A name in a directory.
abbrev pub path_in : String → String → String
path_in d name = d <> "/" <> name

abbrev pub path_of : String → String
path_of name = path_in dir name

-- What the case keeps: the fixture, and g109_cur_files.
pub record Ladder (K : Kernel) : Type 0 where
  pub fixture : Fixture K
  pub cur_files : ℕ

-- `iterate_dir` returns with its errno the names and types that it gives the actor, and `is_lnk` and
-- `is_reg` test the mode in a kstat.
pub record Modes (K : Kernel) : Type 0 where
  pub iterate_dir : K.File → State K.Machine (ℤ × List (List ℕ × ℕ))
  pub is_lnk : K.Kstat → Bool
  pub is_reg : K.Kstat → Bool

module _ (K : Kernel) (M : Modes K) where
  open K use {Machine, File, Kstat, filp_open, filp_close, kmalloc, decimal}
  open M use {iterate_dir, is_lnk, is_reg}

  abbrev pub file_name : ℕ → String
  file_name i = "fname" <> decimal i

  unfoldable pub readdir_type : String → String → State Machine (ℤ × Search)
  readdir_type d name s = elim (filp_open d (o_rdonly ∷ o_directory ∷ []) 0 s).0 [
    | err_ptr e ↦ (
      (e, record { type = dt_unknown; found = false }),
      (filp_open d (o_rdonly ∷ o_directory ∷ []) 0 s).1,
    )
    | ptr f ↦
        let r = iterate_dir f (filp_open d (o_rdonly ∷ o_directory ∷ []) 0 s).1 in
        (
          (r.0.0, act_all (codes name) r.0.1 (record { type = dt_unknown; found = false })),
          filp_close f r.1,
        )
  ]

  unfoldable pub unlink_files : String → ℕ → ℕ → Machine → Machine
  unlink_files d zero i s = s
  unlink_files d (suc left) i s =
      unlink_files d left (suc i) (unlink K (path_in d (file_name i)) s).1

  unfoldable pub unlink_names : String → List String → Machine → Machine
  unlink_names d [] s = s
  unlink_names d (name ∷ names) s = unlink_names d names (unlink K (path_in d name) s).1

  unfoldable pub names_of : List Target → List String
  names_of [] = []
  names_of (t ∷ ts) = t.name ∷ names_of ts

  unfoldable pub empty_dir : String → ℕ → Machine → Machine
  empty_dir d nfiles s =
      (rmdir_settled K d
        (unlink_names d (names_of targets) (unlink_names d sources (unlink_files d nfiles 0 s)))).1

  abbrev pub on_fixture : (Machine → Machine) → Ladder K → Ladder K
  on_fixture f l = record l { fixture = record l.fixture { machine = f l.fixture.machine } }

  unfoldable pub remove_dir : ℕ → Ladder K → Ladder K
  remove_dir nfiles l = record (on_fixture (empty_dir dir nfiles) l) { cur_files = 0 }

  unfoldable pub remove_tree : Ladder K → Ladder K
  remove_tree l =
      let emptied : Machine → Machine =
        λ s. empty_dir moved_dir l.cur_files (empty_dir dir l.cur_files s) in
      record (on_fixture (λ s. (rmdir K root (emptied s)).1) l) { cur_files = 0 }

  abbrev pub call_ok : State Machine ℤ → Case Machine (Unit {0})
  call_ok m = do err ← run m; assert (not (nonzero err))

  -- A file without a byte, and a link to what is not there.
  abbrev pub touch : String → Case Machine (Unit {0})
  touch name = do
    err ← run (write_new_file K (path_of name) [])
    elim err [ none ↦ abort | some e ↦ assert (not (nonzero e)) ]

  abbrev pub link_name : String → Case Machine (Unit {0})
  link_name name = call_ok (symlink K "foo" (path_of name))

  abbrev pub rename_name : String × String → Case Machine (Unit {0})
  rename_name (from, to) = call_ok (rename K (path_of from) (path_of to))

  unfoldable pub for_all :
      {A : Type 0} → (A → Case Machine (Unit {0})) → List A → Case Machine (Unit {0})
  for_all body [] = pass tt
  for_all body (a ∷ rest) = do body a; for_all body rest

  unfoldable pub renamedir : Case Machine (Unit {0})
  renamedir = do for_all touch files; for_all link_name links; for_all rename_name renames

  abbrev pub check_gone : String → Case Machine (Unit {0})
  check_gone name = do there ← run (exists K (path_of name)); expect (not there)

  unfoldable pub check_target : Kstat → Target → Case Machine (Unit {0})
  check_target st t = do
    (err, st') ← run (kstat K st (path_of t.name))
    assert (not (nonzero err))
    expect (if t.is_link then is_lnk st' else is_reg st')
    (err, it) ← run (readdir_type dir t.name)
    assert (not (nonzero err))
    expect it.found
    expect (type_fits t.is_link it.type)

  unfoldable pub check_types : Kstat → Case Machine (Unit {0})
  check_types st = do for_all check_gone sources; for_all (check_target st) targets

  -- A part of the case that is about the machine alone.
  abbrev pub here : {A : Type 0} → Case Machine A → Case (Ladder K) A
  here m l n = let r = m l.fixture.machine n in (r.0, on_fixture (λ _. r.1) l, r.2)

  unfoldable pub filldir : ℕ → ℕ → Case (Ladder K) (Unit {0})
  filldir zero i = pass tt
  filldir (suc left) i = do
    here (touch (file_name i))
    step (λ l. record l { cur_files = i + 1 })
    filldir left (suc i)

  unfoldable pub one_size : Kstat → ℕ → Case (Ladder K) (Unit {0})
  one_size st nfiles = do
    here (call_ok (mkdir K dir))
    filldir nfiles 0
    here renamedir
    here (check_types st)
    step (remove_dir nfiles)

  unfoldable pub every_size : Kstat → List ℕ → Case (Ladder K) (Unit {0})
  every_size st [] = pass tt
  every_size st (nfiles ∷ rest) = do one_size st nfiles; every_size st rest

  -- The mount, the directory and the clean-up.
  abbrev pub in_tree : Case (Ladder K) (Unit {0}) → Case (Ladder K) (Unit {0})
  in_tree body l n =
      (do
        assert (is_mounted K l.fixture)
        here (call_ok (mkdir K root))
        granted ← here (run kmalloc)
        with_action granted remove_tree body)
        l n

  unfoldable pub renames_keep_the_entry_type : Kstat → Case (Ladder K) (Unit {0})
  renames_keep_the_entry_type st = in_tree (every_size st sizes)

  unfoldable pub check_moved : Kstat → Target → Case Machine (Unit {0})
  check_moved st t = do
    (err, st') ← run (kstat K st (path_in moved_dir t.name))
    assert (not (nonzero err))
    expect (if t.is_link then is_lnk st' else not (is_lnk st'))

  unfoldable pub renamed_directories_keep : Kstat → Case (Ladder K) (Unit {0})
  renamed_directories_keep st = in_tree (do
    here (call_ok (mkdir K dir))
    filldir 8 0
    here renamedir
    here (call_ok (rename K dir moved_dir))
    here (for_all (check_moved st) targets)
    here (call_ok (rename K moved_dir dir))
    step (remove_dir 8))
