-- ===== src/Generic/G075.antt =====
-- kunit/xfstests/generic/075.c: fsx, random writes, truncations, punched holes and reads of one file,
-- against a copy of the file that the case keeps in memory.
pub mod Bounds
pub mod Sync
pub mod Detect
use Prim.Native.Nat.{bit_xor}
use Prim.Native.String.{◌++◌ as ◌<>◌}
use nfsplayground.Base.{
  ℕ, zero, suc, ◌+◌, ◌-◌, ◌*◌, ◌/◌, ◌%◌, String, Bool, true, false, not, ◌&&◌, List, [], ◌∷◌, ℤ,
  pos, nonzero, State, ◌==◌, ◌==ℤ◌, ltb, leb, if◌then◌else◌,
}
use nfsplayground.Kernel.{Kernel, OpenFlag, o_rdwr, o_creat, o_excl, Pointer, ptr, err_ptr}
use nfsplayground.Paths.{rmdir, unlink, truncate, kstat}
use nfsplayground.Settle.{mnt}
use nfsplayground.Kunit.{Case, pass, ◌>>=◌, ◌>>◌, run, step, assert, abort, expect}
use nfsplayground.Fixture.{Fixture}
use nfsplayground.Generic.Steps.{call_sys, in_root, on_machine}
use nfsplayground.Generic.G001.{Random}

abbrev pub root : String
root = mnt <> "/g075"

abbrev pub file : String
file = root <> "/fsx"

abbrev pub max_size : ℕ
max_size = 256 * 1024

abbrev pub ops : ℕ
ops = 5000

-- g075_shadow, byte by byte, and g075_size.
pub record Shadow : Type 0 where
  pub bytes : ℕ → ℕ
  pub size : ℕ

abbrev pub within : ℕ → ℕ → ℕ → Bool
within off len i = leb off i && ltb i (off + len)

abbrev pub byte_at : List ℕ → ℕ → ℕ
byte_at [] i = 0
byte_at (b ∷ bs) zero = b
byte_at (b ∷ bs) (suc i) = byte_at bs i

-- `memset(shadow + off, 0, len)`
abbrev pub clear : ℕ → ℕ → (ℕ → ℕ) → ℕ → ℕ
clear off len shadow i = if within off len i then 0 else shadow i

-- `memcpy(shadow + off, buf, len)`
abbrev pub copy_in : ℕ → ℕ → List ℕ → (ℕ → ℕ) → ℕ → ℕ
copy_in off len buf shadow i = if within off len i then byte_at buf (i - off) else shadow i

-- the hole that an extension implies
abbrev pub fill_hole : ℕ → Shadow → ℕ → ℕ
fill_hole off m = if ltb m.size off then clear m.size (off - m.size) m.bytes else m.bytes

abbrev pub after_write : ℕ → ℕ → List ℕ → Shadow → Shadow
after_write off len buf m = record {
  bytes = copy_in off len buf (fill_hole off m);
  size = if ltb m.size (off + len) then off + len else m.size;
}

abbrev pub after_truncate : ℕ → Shadow → Shadow
after_truncate off m = record { bytes = fill_hole off m; size = off }

abbrev pub after_punch : ℕ → ℕ → Shadow → Shadow
after_punch off len m =
    if ltb off m.size
    then record {
      bytes = clear off (if leb len (m.size - off) then len else m.size - off) m.bytes;
      size = m.size;
    }
    else m

-- `buf[i] = (u8)(op ^ (off + i))`, for `left` bytes from `at` on
unfoldable pub pattern : ℕ → ℕ → ℕ → List ℕ
pattern op at zero = []
pattern op at (suc left) = bit_xor op at % 256 ∷ pattern op (suc at) left

-- The comparison of the buffer with the shadow: kernel_read stores as many bytes as it returns.
pub matches : (ℕ → ℕ) → ℕ → ℕ → List ℕ → Bool
matches shadow off zero buf = true
matches shadow off (suc len) [] = false
matches shadow off (suc len) (b ∷ buf) = (b == shadow off) && matches shadow (suc off) len buf

pub data Kind : Type 0 where
  pwrite to_size punch read_verify : Kind

-- `switch (r % 10)`
unfoldable pub kind_of : ℕ → Kind
kind_of r =
    if ltb (r % 10) 4
    then pwrite
    else if ltb (r % 10) 6
    then to_size
    else if r % 10 == 6
    then punch
    else read_verify

-- `off` and `len` by the two numbers drawn.
abbrev pub off_of : ℕ → ℕ
off_of r = r / 256 % max_size

abbrev pub len_of : ℕ → ℕ → ℕ
len_of r r' =
    let off = off_of r in
    let len = 1 + r' % 32768 in if ltb max_size (off + len) then max_size - off else len

abbrev pub punch_hole_keep_size : ℕ
punch_hole_keep_size = 3

-- `fallocate f mode off len` is vfs_fallocate, and `size_of` the size in a kstat.
module _ (R : Random) (K : Kernel) (fallocate : K.File → ℕ → ℕ → ℕ → State K.Machine ℤ)
    (size_of : K.Kstat → ℕ) where
  open K use {Machine, File, Kstat, kmalloc, filp_open, filp_close, kernel_write, kernel_read}

  abbrev pub Body : Type 0 → Type 0
  Body A = Case Machine A

  pub verify_range : File → Shadow → ℕ → ℕ → Body (Unit {0})
  verify_range f m off len = if leb m.size off then pass tt else (do
    let len' = if ltb m.size (off + len) then m.size - off else len
    (n, buf, at_pos) ← run (kernel_read f len' off)
    assert (n ==ℤ pos len')
    expect (matches m.bytes off len' buf))

  unfoldable pub do_kind : File → Kind → ℕ → ℕ → ℕ → Shadow → Body Shadow
  do_kind f pwrite op off len m = do
    let buf = pattern op off len
    (n, at_pos) ← run (kernel_write f buf off)
    assert (n ==ℤ pos len)
    pass (after_write off len buf m)
  do_kind f to_size op off len m = do
    err ← run (truncate K file (pos off))
    assert (not (nonzero err))
    pass (after_truncate off m)
  do_kind f punch op off len m = do
    err ← run (fallocate f punch_hole_keep_size off len)
    pass (if nonzero err then m else after_punch off len m)
  do_kind f read_verify op off len m = verify_range f m off len >> pass m

  unfoldable pub rounds : File → ℕ → ℕ → R.RndState → Shadow → Body Shadow
  rounds f zero op rnd m = pass m
  rounds f (suc left) op rnd m = do
    let drawn = R.prandom_u32_state rnd
    let drawn' = R.prandom_u32_state drawn.1
    m' ← do_kind f (kind_of drawn.0) op (off_of drawn.0) (len_of drawn.0 drawn'.0) m
    rounds f left (suc op) drawn'.1 m'

  pub final_check : File → Kstat → Shadow → Body (Unit {0})
  final_check f st m = do
    (err, st') ← run (kstat K st file)
    assert (not (nonzero err))
    expect (size_of st' == m.size)
    verify_range f m 0 m.size

  -- The shadow is zeroed memory, and nothing of it counts at first.
  pub exercise : Kstat → Body (Unit {0})
  exercise st = do
    opened ← run (filp_open file (o_rdwr ∷ o_creat ∷ o_excl ∷ []) 0o644)
    elim opened [
      | err_ptr e ↦ abort
      | ptr f ↦ do
        m ← rounds f ops 0 (R.prandom_seed_state 75) (record { bytes = λ _. 0; size = 0 })
        final_check f st m
        step (filp_close f)
    ]

  unfoldable remove_tree : Machine → Machine
  remove_tree s = (rmdir K root (unlink K file s).1).1

  unfoldable shadow_in_sync : Kstat → Case (Fixture K) (Unit {0})
  shadow_in_sync st = in_root K root remove_tree (do
    granted ← call_sys K kmalloc
    granted' ← call_sys K kmalloc
    assert granted
    assert granted'
    on_machine K (exercise st))
