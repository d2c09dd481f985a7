-- ===== src/Generic/G001/Content.antt =====
-- The content of the files: writing, copying and verifying it.
pub mod Streams
pub mod Verified
pub mod Written
pub mod RoundTrip
use nfsplayground.Base.{
  same, ℕ, zero, suc, ◌+◌, ◌-◌, ◌*◌, ◌/◌, ◌%◌, ◌^◌, String, Bool, true, false, not, Option, none,
  some, List, [], ◌∷◌, ◌++◌, length, take, ℤ, pos, nonzero, positive, negative, count_of, State,
  call, ◌==ℤ◌, ◌==◌, leb, if◌then◌else◌,
}
use nfsplayground.Kernel.{
  Kernel, OpenFlag, o_rdonly, o_wronly, o_creat, o_trunc, o_excl, Pointer, ptr, err_ptr,
}
use nfsplayground.Kunit.{Case, pass, ◌>>=◌, ◌>>◌, run, step, assert, abort, expect}
use nfsplayground.Generic.G001.{Link, original, path_of, Random}

abbrev pub chunk : ℕ
chunk = 4096

-- `min_t(u32, left, GEN001_CHUNK)`
abbrev pub chunk_of : ℕ → ℕ
chunk_of left = if leb left chunk then left else chunk

module _ (R : Random) where
  open R use {RndState, prandom_seed_state, prandom_u32_state, full_name_hash}

  unfoldable pub seed_for : String → RndState
  seed_for rel = prandom_seed_state (full_name_hash rel)

  -- The loop of gen001_fill_chunk from byte `i` on: a new number at every fourth byte, and of each
  -- number its four bytes, the lowest first.
  pub fill_from : ℕ → ℕ → ℕ → RndState → List ℕ × RndState
  fill_from zero i r st = ([], st)
  fill_from (suc left) i r st =
      let draw = if i % 4 == 0 then prandom_u32_state st else (r, st) in
      let rest = fill_from left (suc i) draw.0 draw.1 in
      (draw.0 / 2 ^ (i % 4 * 8) % 256 ∷ rest.0, rest.1)

  pub fill_chunk : ℕ → RndState → List ℕ × RndState
  fill_chunk len st = fill_from len 0 0 st

  module _ (K : Kernel) where
    open K use {Machine, File, kmalloc, filp_open, filp_close, kernel_write, kernel_read, decimal}

    abbrev pub Body : Type 0 → Type 0
    Body A = Case Machine A

    -- `while (left)`: each round but the last writes a whole chunk.
    pub write_chunks : ℕ → File → ℕ → RndState → ℕ → Body (Unit {0})
    write_chunks zero f left st at_pos = if left == 0 then pass tt else abort
    write_chunks (suc fuel) f left st at_pos = if left == 0 then pass tt else (do
      let n = chunk_of left
      let filled = fill_chunk n st
      (written, at_pos') ← run (kernel_write f filled.0 at_pos)
      assert (written ==ℤ pos n)
      write_chunks fuel f (left - n) filled.1 at_pos')

    pub write_file : String → ℕ → Body (Unit {0})
    write_file rel bytes = do
      granted ← run kmalloc
      assert granted
      opened ←
          run (filp_open (path_of decimal rel original) (o_wronly ∷ o_creat ∷ o_trunc ∷ []) 0o644)
      elim opened [
        | err_ptr e ↦ abort
        | ptr f ↦ do write_chunks bytes f bytes (seed_for rel) 0; step (filp_close f)
      ]

    -- `while ((got = kernel_read(...)) > 0)`, and the check of the last result. The fuel is the caller's:
    -- the kernel decides when a file ends.
    unfoldable pub copy_loop : ℕ → File → File → ℕ → ℕ → Body (Unit {0})
    copy_loop zero from to rpos wpos = abort
    copy_loop (suc fuel) from to rpos wpos = do
      (got, bytes, rpos') ← run (kernel_read from chunk rpos)
      if positive got
          then (do
            (written, wpos') ← run (kernel_write to bytes wpos)
            assert (written ==ℤ got)
            copy_loop fuel from to rpos' wpos')
          else assert (not (negative got))

    unfoldable pub copy : ℕ → String → String → Body (Unit {0})
    copy fuel src dst = do
      granted ← run kmalloc
      assert granted
      opened ← run (filp_open src (o_rdonly ∷ []) 0)
      elim opened [
        | err_ptr e ↦ abort
        | ptr from ↦ do
          opened ← run (filp_open dst (o_wronly ∷ o_creat ∷ o_excl ∷ []) 0o644)
          elim opened [
            | err_ptr e ↦ abort
            | ptr to ↦ do copy_loop fuel from to 0 0; step (filp_close from); step (filp_close to)
          ]
      ]

    -- The file must not be longer than expected.
    pub check_end : File → ℕ → Body (Unit {0})
    check_end f at_pos = do
      (got, bytes, at_pos') ← run (kernel_read f 1 at_pos)
      expect (got ==ℤ pos 0)
      step (filp_close f)

    -- `while (off < bytes)`, with `left` for `bytes - off`. A
    -- difference closes the file, fails and returns.
    pub verify_loop : ℕ → File → ℕ → RndState → ℕ → Body (Unit {0})
    verify_loop zero f left st at_pos = if left == 0 then check_end f at_pos else abort
    verify_loop (suc fuel) f left st at_pos = if left == 0 then check_end f at_pos else (do
      let n = chunk_of left
      (got, bytes, at_pos') ← run (kernel_read f n at_pos)
      assert (got ==ℤ pos n)
      let filled = fill_chunk n st
      if same filled.0 bytes
          then verify_loop fuel f (left - n) filled.1 at_pos'
          else (do step (filp_close f); expect false))

    pub verify_content : String → String → ℕ → Body (Unit {0})
    verify_content rel path bytes = do
      granted ← run kmalloc
      granted' ← run kmalloc
      assert granted
      assert granted'
      opened ← run (filp_open path (o_rdonly ∷ []) 0)
      elim opened [ err_ptr e ↦ abort | ptr f ↦ verify_loop bytes f bytes (seed_for rel) 0 ]
