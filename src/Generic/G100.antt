-- ===== src/Generic/G100.antt =====
-- kunit/xfstests/generic/100.c: a tree of files is built locally, copied over NFS, and compared with
-- what it was built from.
pub mod Bytes
pub mod Seeds
use Prim.Native.String.{◌++◌ as ◌<>◌}
use nfsplayground.Base.{
  ℕ, zero, suc, ◌+◌, ◌-◌, ◌*◌, ◌%◌, ◌^◌, String, Bool, true, false, not, ◌&&◌, ◌||◌, Option, none,
  some, List, [], ◌∷◌, ℤ, pos, nonzero, State, ◌==◌, ◌==ℤ◌, ltb, leb, if◌then◌else◌, length,
}
use nfsplayground.Kernel.{Kernel, o_rdonly, o_directory, ptr, err_ptr}
use nfsplayground.Paths.{mkdir, unlink}
use nfsplayground.Files.{write_new_file, read_range}
use nfsplayground.Settle.{mnt, rmdir_settled}
use nfsplayground.Fixture.{Fixture}
use nfsplayground.Kunit.{Case, pass, ◌>>=◌, ◌>>◌, run, step, assert, abort, expect, times}
use nfsplayground.Generic.G339.{is_dots}
use nfsplayground.Generic.Steps.{call_sys, ok, in_root, on_machine}

abbrev pub src : String
src = "/g100src"

abbrev pub root : String
root = mnt <> "/g100"

abbrev pub dst : String
dst = root <> "/populate_root"

abbrev pub dirs : ℕ
dirs = 2

abbrev pub files : ℕ
files = 3

abbrev pub depth : ℕ
depth = 3

abbrev pub file_size : ℕ
file_size = 4096

-- What g100_actor counts.
pub record Dirents : Type 0 where
  pub dirs_seen : ℕ
  pub files_seen : ℕ
  pub alien : ℕ
  pub total : ℕ

-- A name of two bytes, the letter `c` and a digit below `bound`.
abbrev pub is_numbered : ℕ → ℕ → List ℕ → Bool
is_numbered c bound (a ∷ b ∷ []) = (a == c) && (leb 48 b && ltb b (48 + bound))
is_numbered c bound _ = false

unfoldable pub actor : List ℕ → Dirents → Dirents
actor name it =
    if is_dots name
    then record it { total = it.total + 1 }
    else if is_numbered 100 dirs name
    then record it { total = it.total + 1; dirs_seen = it.dirs_seen + 1 }
    else if is_numbered 102 files name
    then record it { total = it.total + 1; files_seen = it.files_seen + 1 }
    else record it { total = it.total + 1; alien = it.alien + 1 }

unfoldable pub act_all : List (List ℕ) → Dirents → Dirents
act_all [] it = it
act_all (name ∷ names) it = act_all names (actor name it)

-- `(u8)(seed * 31 + off)` on 32 bits
abbrev pub byte_of : ℕ → ℕ → ℕ
byte_of seed off = (seed * 31 + off) % 2 ^ 32 % 256

unfoldable pub fill_from : ℕ → ℕ → ℕ → List ℕ
fill_from zero off seed = []
fill_from (suc left) off seed = byte_of seed off ∷ fill_from left (suc off) seed

unfoldable pub fill : ℕ → List ℕ
fill seed = fill_from file_size 0 seed

-- Whether none of the bytes from `off` on is another than that of the seed.
unfoldable pub matches_from : ℕ → ℕ → ℕ → List ℕ → Bool
matches_from zero off seed buf = true
matches_from (suc left) off seed [] = false
matches_from (suc left) off seed (b ∷ buf) =
    (b == byte_of seed off) && matches_from left (suc off) seed buf

-- `++(*seed)` on 32 bits
abbrev pub next : ℕ → ℕ
next seed = (seed + 1) % 2 ^ 32

-- `iterate_dir` returns with its errno the names of one batch.
module _ (K : Kernel) (iterate_dir : K.File → State K.Machine (ℤ × List (List ℕ))) where
  open K use {Machine, File, kmalloc, filp_open, filp_close, decimal}

  abbrev pub Body : Type 0 → Type 0
  Body A = Case Machine A

  abbrev pub child : String → String → ℕ → String
  child path letter i = path <> ("/" <> (letter <> decimal i))

  -- A loop that passes the seed on.
  unfoldable pub for_seed : ℕ → ℕ → (ℕ → ℕ → Body ℕ) → ℕ → Body ℕ
  for_seed zero i body seed = pass seed
  for_seed (suc left) i body seed = do seed' ← body i seed; for_seed left (suc i) body seed'

  unfoldable pub build_file : String → ℕ → ℕ → Body ℕ
  build_file path i seed = do
    let seed' = next seed
    err ← run (write_new_file K (child path "f" i) (fill seed'))
    elim err [ none ↦ abort | some e ↦ do assert (not (nonzero e)); pass seed' ]

  unfoldable pub build : ℕ → String → ℕ → Body ℕ
  build zero path seed = for_seed files 0 (build_file path) seed
  build (suc depth) path seed = do
    seed' ← for_seed files 0 (build_file path) seed
    for_seed dirs 0
        (λ i seed. do
          err ← run (mkdir K (child path "d" i))
          assert (not (nonzero err))
          build depth (child path "d" i) seed)
        seed'

  copy_file : String → String → ℕ → Body (Unit {0})
  copy_file from to i = do
    (n, buf) ← run (read_range K (child from "f" i) file_size 0)
    assert (n ==ℤ pos file_size)
    err ← run (write_new_file K (child to "f" i) buf)
    elim err [ none ↦ abort | some e ↦ assert (not (nonzero e)) ]

  copy : ℕ → String → String → Body (Unit {0})
  copy zero from to = times files 0 (copy_file from to)
  copy (suc depth) from to = do
    times files 0 (copy_file from to)
    times dirs 0 (λ i. do
      err ← run (mkdir K (child to "d" i))
      assert (not (nonzero err))
      copy depth (child from "d" i) (child to "d" i))

  -- `do ... while (it.total > before)`; the kernel decides when a directory ends, and the caller gives
  -- the fuel.
  unfoldable pub list_dir : ℕ → File → Dirents → Body Dirents
  list_dir zero d it = abort
  list_dir (suc fuel) d it = do
    (err, names) ← run (iterate_dir d)
    assert (not (nonzero err))
    let it' = act_all names it
    if ltb it.total it'.total then list_dir fuel d it' else pass it'

  unfoldable pub verify_dir : ℕ → String → ℕ → Body (Unit {0})
  verify_dir fuel path dirs_there = do
    opened ← run (filp_open path (o_rdonly ∷ o_directory ∷ []) 0)
    elim opened [
      | err_ptr e ↦ abort
      | ptr d ↦ do
        it ← list_dir fuel d (record { dirs_seen = 0; files_seen = 0; alien = 0; total = 0 })
        step (filp_close d)
        expect (it.files_seen == files)
        expect (it.dirs_seen == dirs_there)
        expect (it.alien == 0)
    ]

  unfoldable pub verify_file : String → ℕ → ℕ → Body ℕ
  verify_file path i seed = do
    let seed' = next seed
    (n, buf) ← run (read_range K (child path "f" i) file_size 0)
    assert (n ==ℤ pos file_size)
    expect (matches_from file_size 0 seed' buf)
    pass seed'

  unfoldable pub verify : ℕ → ℕ → String → ℕ → Body ℕ
  verify fuel zero path seed = verify_dir fuel path 0 >> for_seed files 0 (verify_file path) seed
  verify fuel (suc depth) path seed = do
    verify_dir fuel path dirs
    seed' ← for_seed files 0 (verify_file path) seed
    for_seed dirs 0 (λ i seed. verify fuel depth (child path "d" i) seed) seed'

  unlink_files : ℕ → ℕ → String → Machine → Machine
  unlink_files zero i path s = s
  unlink_files (suc left) i path s =
      unlink_files left (suc i) path (unlink K (child path "f" i) s).1

  in_dirs : ℕ → ℕ → (ℕ → Machine → Machine) → Machine → Machine
  in_dirs zero i body s = s
  in_dirs (suc left) i body s = in_dirs left (suc i) body (body i s)

  rmtree : ℕ → String → Machine → Machine
  rmtree zero path s = (rmdir_settled K path (unlink_files files 0 path s)).1
  rmtree (suc depth) path s =
      (rmdir_settled K path
        (in_dirs dirs 0 (λ i. rmtree depth (child path "d" i)) (unlink_files files 0 path s))).1

  unfoldable remove_tree : Machine → Machine
  remove_tree s = rmtree depth src (rmdir_settled K root (rmtree depth dst s)).1

  unfoldable copied_tree : ℕ → Case (Fixture K) (Unit {0})
  copied_tree fuel = in_root K root remove_tree (do
    ok K (mkdir K src)
    ok K (mkdir K dst)
    granted ← call_sys K kmalloc
    assert granted
    on_machine K (build depth src 0 >>= (λ _. copy depth src dst))
    on_machine K (verify fuel depth dst 0 >>= (λ _. pass tt)))
