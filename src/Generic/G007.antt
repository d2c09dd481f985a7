-- ===== src/Generic/G007.antt =====
-- kunit/xfstests/generic/007.c: random creations, removals and lookups of a hundred names, against a
-- table of which names exist.
pub mod Table
use Prim.Native.String.{◌++◌ as ◌<>◌}
use nfsplayground.Base.{
  ℕ, zero, suc, ◌+◌, ◌-◌, ◌*◌, ◌/◌, ◌%◌, String, Bool, true, false, not, Option, none, some, List,
  [], ◌∷◌, ℤ, pos, nonzero, ◌==◌, ◌==ℤ◌, ltb, if◌then◌else◌, e_noent, e_exist,
}
use nfsplayground.Kernel.{Kernel, OpenFlag, o_rdwr, o_creat, o_excl, Pointer, ptr, err_ptr}
use nfsplayground.Paths.{mkdir, rmdir, unlink, kstat}
use nfsplayground.Settle.{mnt}
use nfsplayground.Kunit.{Case, pass, ◌>>=◌, ◌>>◌, run, step, assert, abort}
use nfsplayground.Fixture.{Fixture}
use nfsplayground.Generic.Steps.{in_root, on_machine}
use nfsplayground.Generic.G001.{Random}

abbrev pub root : String
root = mnt <> "/g007"

abbrev pub names : ℕ
names = 100

abbrev pub iters : ℕ
iters = 20000

-- An entry of g007_tab: whether the name exists, and its inode number. The table is a function.
pub record Entry : Type 0 where
  pub exists : Bool
  pub ino : ℕ

abbrev pub Table : Type 0
Table = ℕ → Entry

-- `memset(g007_tab, 0, sizeof(g007_tab))`
abbrev pub no_entries : Table
no_entries i = record { exists = false; ino = 0 }

abbrev pub set_entry : Table → ℕ → Entry → Table
set_entry tab i e j = if j == i then e else tab j

-- The numbers are printed by `decimal`.
unfoldable pub path_of : (ℕ → String) → ℕ → String
path_of decimal i = root <> ("/nametest." <> decimal (i + 1))

-- What one round of the loop does, by the number that is drawn.
pub data Op : Type 0 where
  lookup create remove : ℕ → Op

unfoldable pub op_of : ℕ → ℕ → Op
op_of iter r =
    let i = r / 256 % names in
    let op = r % 100 in
    let create_pct =
      if ltb iter (iters / 3) then 50 else if ltb iter (2 * iters / 3) then 75 else 25 in
    if ltb op 40
    then lookup i
    else if ltb ((op - 40) % 60) (create_pct * 60 / 100)
    then create i
    else remove i

-- `st` is the structure on the stack that kstat fills in, and `ino_of` its inode number.
module _ (R : Random) (K : Kernel) (ino_of : K.Kstat → ℕ) where
  open K use {Machine, Kstat, filp_open, filp_close, kmalloc, decimal}

  abbrev pub Body : Type 0 → Type 0
  Body A = Case Machine A

  pub create_name : Kstat → ℕ → Table → Body Table
  create_name st i tab = do
    opened ← run (filp_open (path_of decimal i) (o_rdwr ∷ o_creat ∷ o_excl ∷ []) 0o666)
    elim opened [
      | ptr f ↦ do
        step (filp_close f)
        assert (not (tab i).exists)
        (err, st') ← run (kstat K st (path_of decimal i))
        assert (not (nonzero err))
        pass (set_entry tab i (record { exists = true; ino = ino_of st' }))
      | err_ptr e ↦ do assert (e ==ℤ e_exist); assert (tab i).exists; pass tab
    ]

  pub remove_name : ℕ → Table → Body Table
  remove_name i tab = do
    err ← run (unlink K (path_of decimal i))
    if nonzero err
        then (do assert (err ==ℤ e_noent); assert (not (tab i).exists); pass tab)
        else (do
          assert (tab i).exists
          pass (set_entry tab i (record { exists = false; ino = (tab i).ino })))

  pub lookup_name : Kstat → ℕ → Table → Body Table
  lookup_name st i tab = do
    (err, st') ← run (kstat K st (path_of decimal i))
    if nonzero err
        then (do assert (err ==ℤ e_noent); assert (not (tab i).exists); pass tab)
        else (do assert (tab i).exists; assert (ino_of st' == (tab i).ino); pass tab)

  pub do_op : Kstat → Op → Table → Body Table
  do_op st (lookup i) = lookup_name st i
  do_op st (create i) = create_name st i
  do_op st (remove i) = remove_name i

  pub rounds : Kstat → ℕ → ℕ → R.RndState → Table → Body Table
  rounds st zero iter rnd tab = pass tab
  rounds st (suc left) iter rnd tab = do
    let drawn = R.prandom_u32_state rnd
    tab' ← do_op st (op_of iter drawn.0) tab
    rounds st left (suc iter) drawn.1 tab'

  pub unlink_names : ℕ → ℕ → Machine → Machine
  unlink_names zero i s = s
  unlink_names (suc left) i s = unlink_names left (suc i) (unlink K (path_of decimal i) s).1

  unfoldable remove_tree : Machine → Machine
  remove_tree s = (rmdir K root (unlink_names names 0 s)).1

  unfoldable random_names : Kstat → Case (Fixture K) (Unit {0})
  random_names st =
      in_root K root remove_tree
        (on_machine K (rounds st iters 0 (R.prandom_seed_state 1) no_entries >>= (λ _. pass tt)))
