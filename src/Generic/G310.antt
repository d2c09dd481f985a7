-- ===== src/Generic/G310.antt =====
-- kunit/xfstests/generic/310.c: a thread that reads a directory as if it were a file, while the case
-- lists it, over and over, through the same open file.
pub mod Listed
pub mod Race
use Prim.Native.String.{◌++◌ as ◌<>◌}
use nfsplayground.Base.{
  ℕ, zero, suc, ◌+◌, ◌^◌, ◌%◌, String, Bool, true, false, not, ◌&&◌, none, some, List, [], ◌∷◌, ℤ,
  pos, negsuc, nonzero, State, ◌==◌, ◌==ℤ◌, ltb, if◌then◌else◌,
}
use nfsplayground.Kernel.{Kernel, o_rdonly, o_directory, ptr, err_ptr}
use nfsplayground.Paths.{mkdir, unlink}
use nfsplayground.Files.{write_new_file}
use nfsplayground.Settle.{mnt, rmdir_settled}
use nfsplayground.Fixture.{Fixture}
use nfsplayground.Kunit.{Case, pass, ◌>>=◌, ◌>>◌, run, step, assert, abort, expect}
use nfsplayground.Generic.Steps.{in_root, on_machine}
use nfsplayground.Generic.G339.{is_dots}

abbrev pub root : String
root = mnt <> "/g310"

abbrev pub dir : String
dir = root <> "/tmp"

abbrev pub entries : ℕ
entries = 32

abbrev pub rounds : ℕ
rounds = 40

-- What the reader counts: reads, reads that did not fail, and the last errno but EISDIR.
pub record Reader : Type 0 where
  pub reads : ℕ
  pub wrong : ℕ
  pub err : ℤ

abbrev pub new_reader : Reader
new_reader = record { reads = 0; wrong = 0; err = pos 0 }

-- One read; -EISDIR is -21.
unfoldable pub count_read : ℤ → Reader → Reader
count_read (pos n) r = record r { reads = (r.reads + 1) % 2 ^ 64; wrong = r.wrong + 1 }
count_read (negsuc k) r =
    if k == 20
    then record r { reads = (r.reads + 1) % 2 ^ 64 }
    else record r { reads = (r.reads + 1) % 2 ^ 64; err = negsuc k }

-- What the actor counts.
pub record Walk : Type 0 where
  pub entries_seen : ℕ
  pub alien : ℕ
  pub total : ℕ

abbrev pub new_walk : Walk
new_walk = record { entries_seen = 0; alien = 0; total = 0 }

-- Two bytes at least, the first an `e`
abbrev pub is_entry : List ℕ → Bool
is_entry (a ∷ b ∷ rest) = a == 101
is_entry _ = false

unfoldable pub actor : List ℕ → Walk → Walk
actor name w =
    if is_dots name
    then record w { total = w.total + 1 }
    else if is_entry name
    then record w { total = w.total + 1; entries_seen = w.entries_seen + 1 }
    else record w { total = w.total + 1; alien = w.alien + 1 }

unfoldable pub act_all : List (List ℕ) → Walk → Walk
act_all [] w = w
act_all (name ∷ names) w = act_all names (actor name w)

-- The calls that are not in the repository: vfs_read at offset 0, vfs_llseek to the start, iterate_dir
-- with the names that it gives the actor, an anonymous mapping, and a thread that is started, if the
-- task has an mm.
pub record DirectoryCalls (K : Kernel) : Type 0 where
  pub vfs_read : K.File → ℕ → ℕ → State K.Machine ℤ
  pub seek_start : K.File → State K.Machine ℤ
  pub iterate_dir : K.File → State K.Machine (ℤ × List (List ℕ))
  pub kunit_vm_mmap : State K.Machine ℕ
  pub kthread_run : K.Machine → Bool × K.Machine

-- The two threads: what the reader has counted, and, for each of the next calls of the case, how many
-- reads the reader makes before it.
pub record Racing (K : Kernel) : Type 0 where
  pub machine : K.Machine
  pub reader : Reader
  pub pauses : List ℕ

module _ (K : Kernel) (D : DirectoryCalls K) where
  open K use {Machine, File, filp_open, filp_close, msleep, decimal}
  open D use {vfs_read, seek_start, iterate_dir, kunit_vm_mmap, kthread_run}

  abbrev pub entry_path : ℕ → String
  entry_path i = dir <> "/e" <> decimal i

  unfoldable pub unlink_all : ℕ → ℕ → Machine → Machine
  unlink_all zero i s = s
  unlink_all (suc left) i s = unlink_all left (suc i) (unlink K (entry_path i) s).1

  unfoldable pub remove_tree : Machine → Machine
  remove_tree s = (rmdir_settled K root (rmdir_settled K dir (unlink_all entries 0 s)).1).1

  -- The loop of the reader, so many times.
  unfoldable pub read_loop : ℕ → File → ℕ → Machine → Reader → Machine × Reader
  read_loop zero d buf s r = (s, r)
  read_loop (suc times) d buf s r =
      let n = vfs_read d buf 100 s in read_loop times d buf n.1 (count_read n.0 r)

  -- The reader runs until the case makes its next call.
  unfoldable pub reader_runs : File → ℕ → Racing K → Racing K
  reader_runs d buf s = elim s.pauses [
    | [] ↦ s
    | times ∷ later ↦
        let r = read_loop times d buf s.machine s.reader in
        record s { machine = r.0; reader = r.1; pauses = later }
  ]

  -- A call of the case, after some reads.
  abbrev pub racing : {A : Type 0} → File → ℕ → State Machine A → Case (Racing K) A
  racing d buf m s n =
      let s' = reader_runs d buf s in
      (some (m s'.machine).0, record s' { machine = (m s'.machine).1 }, n)

  -- `for (i = 0; i < 100 && !r.reads; i++)`
  unfoldable pub wait_reader : ℕ → File → ℕ → Case (Racing K) (Unit {0})
  wait_reader zero d buf = pass tt
  wait_reader (suc left) d buf = do
    r ← run (λ s. (s.reader, s))
    elim (r.reads == 0) [
      | true ↦ do racing d buf (λ s. (tt, msleep 10 s)); wait_reader left d buf
      | false ↦ pass tt
    ]

  -- `do … while (w.total > before)`, on fuel.
  unfoldable pub walk_dir : ℕ → File → ℕ → Walk → Case (Racing K) Walk
  walk_dir zero d buf w = pass w
  walk_dir (suc fuel) d buf w = do
    (err, names) ← racing d buf (iterate_dir d)
    assert (not (nonzero err))
    elim (ltb w.total (act_all names w).total) [
      | true ↦ walk_dir fuel d buf (act_all names w)
      | false ↦ pass (act_all names w)
    ]

  unfoldable pub one_round : ℕ → File → ℕ → Case (Racing K) (Unit {0})
  one_round fuel d buf = do
    found ← racing d buf (seek_start d)
    assert (found ==ℤ pos 0)
    w ← walk_dir fuel d buf new_walk
    expect (w.entries_seen == entries)
    expect (w.alien == 0)

  unfoldable pub all_rounds : ℕ → ℕ → File → ℕ → Case (Racing K) (Unit {0})
  all_rounds zero fuel d buf = pass tt
  all_rounds (suc left) fuel d buf = do one_round fuel d buf; all_rounds left fuel d buf

  -- The reader is stopped; what it still reads, it reads before the file is closed.
  unfoldable pub race : ℕ → File → ℕ → Case (Racing K) (Unit {0})
  race fuel d buf = do
    wait_reader 100 d buf
    all_rounds rounds fuel d buf
    racing d buf (λ s. (tt, filp_close d s))
    r ← run (λ s. (s.reader, s))
    expect (ltb 0 r.reads)
    expect (r.wrong == 0)
    expect (r.err ==ℤ pos 0)

  unfoldable pub create_entries : ℕ → ℕ → Case Machine (Unit {0})
  create_entries zero i = pass tt
  create_entries (suc left) i = do
    err ← run (write_new_file K (entry_path i) [])
    elim err [ none ↦ abort | some e ↦ assert (not (nonzero e)) ]
    create_entries left (suc i)

  -- The two threads from the start of the reader on.
  abbrev pub start_race : ℕ → List ℕ → File → ℕ → Case Machine (Unit {0})
  start_race fuel pauses d buf s n =
      let r = race fuel d buf (record { machine = s; reader = new_reader; pauses = pauses }) n in
      (r.0, r.1.machine, r.2)

  unfoldable pub read_and_list : ℕ → List ℕ → Case Machine (Unit {0})
  read_and_list fuel pauses = do
    err ← run (mkdir K dir)
    assert (not (nonzero err))
    create_entries entries 0
    opened ← run (filp_open dir (o_rdonly ∷ o_directory ∷ []) 0)
    elim opened [
      | err_ptr e ↦ abort
      | ptr d ↦ do
        buf ← run kunit_vm_mmap
        assert (not (buf == 0))
        started ← run kthread_run
        assert started
        start_race fuel pauses d buf
    ]

  unfoldable pub reads_racing_readdir : ℕ → List ℕ → Case (Fixture K) (Unit {0})
  reads_racing_readdir fuel pauses =
      in_root K root remove_tree (on_machine K (read_and_list fuel pauses))
