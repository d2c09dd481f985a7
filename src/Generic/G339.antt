-- ===== src/Generic/G339.antt =====
-- kunit/xfstests/generic/339.c: ten thousand directories whose names collide in the directory hash of
-- XFS, read back after a mount cycle and removed.
pub mod Collide
pub mod Listing
use Prim.Native.Nat.{bit_xor, bit_or}
use Prim.Native.String.{◌++◌ as ◌<>◌}
use nfsplayground.Base.{
  ℕ, zero, suc, ◌+◌, ◌-◌, ◌*◌, ◌/◌, ◌%◌, ◌^◌, String, Bool, true, false, not, ◌&&◌, ◌||◌, Option,
  none, some, List, [], ◌∷◌, ◌++◌, take, length, ℤ, pos, nonzero, State, ◌==◌, ◌==ℤ◌, ltb,
  if◌then◌else◌, same, e_exist, c_string,
}
use nfsplayground.Kernel.{Kernel, OpenFlag, o_rdonly, o_directory, Pointer, ptr, err_ptr}
use nfsplayground.Paths.{mkdir, rmdir}
use nfsplayground.Settle.{rmdir_settled}
use nfsplayground.Mounts.{scratch_mnt, scratch_mount, scratch_umount}
use nfsplayground.Fixture.{Fixture}
use nfsplayground.Kunit.{Case, pass, ◌>>=◌, ◌>>◌, run, step, assert, abort, expect}
use nfsplayground.Generic.Steps.{call_sys, ok, mounted, with_cleanup, on_machine}

abbrev pub entries : ℕ
entries = 10000

abbrev pub name_length : ℕ
name_length = 252

-- `(word << shift) | (word >> (32 - shift))` on 32 bits
abbrev pub rol32 : ℕ → ℕ → ℕ
rol32 word shift = bit_or (word * 2 ^ shift % 2 ^ 32) (word / 2 ^ (32 - shift))

-- The loop of g339_xfs_da_hashname over a name, four bytes at a time.
unfoldable pub hash_from : ℕ → List ℕ → ℕ
hash_from hash (a ∷ b ∷ c ∷ d ∷ rest) =
    hash_from
      (bit_xor (bit_xor (bit_xor (bit_xor (a * 2 ^ 21) (b * 2 ^ 14)) (c * 2 ^ 7)) (d * 2 ^ 0))
        (rol32 hash (7 * 4)))
      rest
hash_from hash (a ∷ b ∷ c ∷ []) = hash
hash_from hash (a ∷ b ∷ []) = hash
hash_from hash (a ∷ []) = hash
hash_from hash [] = hash

unfoldable pub hashname : List ℕ → ℕ
hashname name = hash_from 0 name

unfoldable pub contains : ℕ → List ℕ → Bool
contains c [] = false
contains c (b ∷ bs) = (b == c) || contains c bs

-- What g339_gen_name makes of its random bytes: `none` is `goto again`. 46 is a dot, 47 a slash.
unfoldable pub complete : List ℕ → Option (List ℕ)
complete random =
    let hash = rol32 (hashname random) (7 * 4) in
    let last = bit_xor hash (2 ^ 32 - 1) in
    let name =
      random
      ++ (last / 2 ^ 21 % 256 ∷ last / 2 ^ 14 % 128 ∷ last / 2 ^ 7 % 128 ∷ last % 128 ∷ []) in
    if last == 0 then none else if contains 46 name || contains 47 name then none else some name

-- What g339_actor fills: a slot is the bytes before its terminator.
pub record Walk : Type 0 where
  pub slots : ℕ → List ℕ
  pub count : ℕ
  pub overflow : ℕ
  pub added : ℕ

abbrev pub is_dots : List ℕ → Bool
is_dots name = same name (46 ∷ []) || same name (46 ∷ 46 ∷ [])

abbrev pub set_slot : (ℕ → List ℕ) → ℕ → List ℕ → ℕ → List ℕ
set_slot slots i name j = if j == i then name else slots j

pub actor : List ℕ → Walk → Walk
actor name w =
    if is_dots name
    then w
    else if ltb entries w.count || ltb name_length (length name)
    then record w { added = w.added + 1; overflow = w.overflow + 1 }
    else record w {
      added = w.added + 1;
      slots = set_slot w.slots w.count name;
      count = w.count + 1;
    }

-- One call of iterate_dir, which gives the actor a batch of names.
pub act_all : List (List ℕ) → Walk → Walk
act_all [] w = w
act_all (name ∷ names) w = act_all names (actor name w)

-- `get_random_u8` is the kernel's; `text` is the string that bytes make; and `iterate_dir` returns with
-- its errno the names that it gave to the actor, which always asks for more.
module _ (K : Kernel) (get_random_u8 : State K.Machine ℕ) (text : List ℕ → String)
    (iterate_dir : K.File → State K.Machine (ℤ × List (List ℕ))) where
  open K use {Machine, File, kmalloc, kfree, filp_open, filp_close}

  abbrev pub dir : String
  dir = scratch_mnt <> "/339.dir"

  -- `while (!(r = get_random_u8()))`, for as many draws as there is fuel.
  unfoldable pub gen_rand : ℕ → State Machine (Option ℕ)
  gen_rand zero s = (none, s)
  gen_rand (suc fuel) s =
      let r = get_random_u8 s in
      elim (r.0 == 0) [ true ↦ gen_rand fuel r.1 | false ↦ (some r.0, r.1) ]

  unfoldable pub gen_bytes : ℕ → ℕ → State Machine (Option (List ℕ))
  gen_bytes fuel zero s = (some [], s)
  gen_bytes fuel (suc left) s =
      let r = gen_rand fuel s in
      elim r.0 [
        | none ↦ (none, r.1)
        | some b ↦
            let rest = gen_bytes fuel left r.1 in
            elim rest.0 [ none ↦ (none, rest.1) | some bs ↦ (some (b ∷ bs), rest.1) ]
      ]

  -- Each `goto again` takes one of the tries.
  unfoldable pub gen_name : ℕ → ℕ → State Machine (Option (List ℕ))
  gen_name fuel zero s = (none, s)
  gen_name fuel (suc tries) s =
      let r = gen_bytes fuel (name_length - 4) s in
      elim r.0 [
        | none ↦ (none, r.1)
        | some random ↦ elim (complete random) [
          | none ↦ gen_name fuel tries r.1
          | some name ↦ (some name, r.1)
        ]
      ]

  abbrev pub Body : Type 0 → Type 0
  Body A = Case Machine A

  abbrev pub path_of : List ℕ → String
  path_of name = dir <> ("/" <> text (c_string name))

  -- The directories that are made; the fuel is the caller's, who knows the random numbers.
  unfoldable make_dirs : ℕ → ℕ → ℕ → Body ℕ
  make_dirs fuel zero created = pass created
  make_dirs fuel (suc left) created = do
    drawn ← run (gen_name fuel fuel)
    elim drawn [
      | none ↦ abort
      | some name ↦ do
        err ← run (mkdir K (path_of name))
        elim (nonzero err) [
          | false ↦ make_dirs fuel left (created + 1)
          | true ↦ elim (err ==ℤ e_exist) [ true ↦ make_dirs fuel left created | false ↦ abort ]
        ]
    ]

  -- `do ... while (!err && w.added)`
  unfoldable read_dir : ℕ → File → Walk → Body (ℤ × Walk)
  read_dir zero d w = abort
  read_dir (suc fuel) d w = do
    (err, names) ← run (iterate_dir d)
    let w' = act_all names (record w { added = 0 })
    if not (nonzero err) && ltb 0 w'.added then read_dir fuel d w' else pass (err, w')

  unfoldable remove_dirs : ℕ → ℕ → Walk → Body (Unit {0})
  remove_dirs zero i w = pass tt
  remove_dirs (suc left) i w = do
    err ← run (rmdir K (path_of (w.slots i)))
    if nonzero err then expect false else remove_dirs left (suc i) w

  abbrev pub no_walk : Walk
  no_walk = record { slots = λ _. []; count = 0; overflow = 0; added = 0 }

  unfoldable fill_and_empty : ℕ → Body (Unit {0})
  fill_and_empty fuel = do
    created ← make_dirs fuel entries 0
    down ← run (scratch_umount K)
    assert (not (nonzero down))
    up ← run (scratch_mount K)
    assert (not (nonzero up))
    opened ← run (filp_open dir (o_rdonly ∷ o_directory ∷ []) 0)
    elim opened [
      | err_ptr e ↦ abort
      | ptr d ↦ do
        (err, w) ← read_dir fuel d no_walk
        step (filp_close d)
        assert (not (nonzero err))
        expect (w.overflow == 0)
        expect (w.count == created)
        remove_dirs w.count 0 w
        last ← run (rmdir_settled K dir)
        expect (not (nonzero last))
    ]

  unfoldable remove_tree : Machine → Machine
  remove_tree s = (scratch_umount K s).1

  unfoldable many_names : ℕ → Case (Fixture K) (Unit {0})
  many_names fuel = do
    mounted K
    ok K (scratch_mount K)
    with_cleanup K remove_tree (do
      ok K (mkdir K dir)
      path ← call_sys K kmalloc
      name ← call_sys K kmalloc
      names ← call_sys K kmalloc
      assert path
      assert name
      assert names
      with_cleanup K kfree (on_machine K (fill_and_empty fuel)))
