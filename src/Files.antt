-- ===== src/Files.antt =====
-- The whole-file and open-file helpers of kunit/xfstests/nfs_fixture.c. A `loff_t *pos` goes in as a
-- number and comes back beside the result.
pub mod Writing
use nfsplayground.Base.{
  ℕ, zero, suc, ◌+◌, ◌-◌, ◌%◌, ◌^◌, String, Bool, true, false, not, Option, none, some, List, [],
  ◌∷◌, ℤ, pos, nonzero, positive, count_of, e_io, e_nomem, State, pure, ◌>>=◌, ◌>>◌, call,
  if◌then◌else◌, ◌==◌, take, drop, length,
}
use nfsplayground.Kernel.{
  Kernel, ptr, err_ptr, OpenFlag, o_rdonly, o_wronly, o_creat, o_trunc, o_largefile, IovIter, bvec,
  ubuf, iovec, LockRequest,
}

abbrev pub size_mod : ℕ
size_mod = 2 ^ 64

-- O_WRONLY | O_CREAT | O_TRUNC | O_LARGEFILE
abbrev pub new_file_flags : List OpenFlag
new_file_flags = o_wronly ∷ o_creat ∷ o_trunc ∷ o_largefile ∷ []

-- The sum of the segments' lengths, in a size_t.
total_len : ℕ → List (ℕ × ℕ) → ℕ
total_len count [] = count
total_len count ((base, len) ∷ iov) = total_len ((count + len) % size_mod) iov

module _ (K : Kernel) where
  open K use {
    Machine, File, filp_open, filp_close, kernel_write, kernel_read, vfs_iocb_iter_write,
    vfs_iocb_iter_read, vfs_fsync, locks_alloc_lock, locks_free_lock, vfs_lock_file,
  }

  -- `while (len)`: the result is `err` after the loop, `none` if the fuel ran out. `len` counts the
  -- bytes of `bytes` that are left.
  unfoldable pub write_loop : ℕ → File → List ℕ → ℕ → ℕ → State Machine (Option ℤ)
  write_loop zero f bytes len at_pos = pure none
  write_loop (suc fuel) f bytes len at_pos = elim len [
    | zero ↦ pure (some (pos 0))
    | suc rest ↦ do
      (written, at_pos') ← kernel_write f (take (suc rest) bytes) at_pos
      elim (positive written) [
        | true ↦
            let n = count_of written in
            write_loop fuel f (drop n bytes) ((suc rest + size_mod - n) % size_mod) at_pos'
        | false ↦ pure (some (if nonzero written then written else e_io))
      ]
  ]

  -- One round more than there are bytes is fuel enough, as each round writes one at least.
  unfoldable pub write_new_file : String → List ℕ → State Machine (Option ℤ)
  write_new_file path bytes = do
    opened ← filp_open path new_file_flags 0o644
    elim opened [
      | err_ptr e ↦ pure (some e)
      | ptr f ↦ do
        err ← write_loop (suc (length bytes)) f bytes (length bytes) 0
        call (filp_close f)
        pure err
    ]

  unfoldable pub read_range : String → ℕ → ℕ → State Machine (ℤ × List ℕ)
  read_range path len off = do
    opened ← filp_open path (o_rdonly ∷ o_largefile ∷ []) 0
    elim opened [
      | err_ptr e ↦ pure (e, [])
      | ptr f ↦ do
        (got, bytes, off') ← kernel_read f len off
        call (filp_close f)
        pure (got, bytes)
    ]

  -- The kiocb's position, taken over if the transfer moved anything.
  rw_iter : File → IovIter → ℕ → (write direct : Bool) → State Machine (ℤ × ℕ)
  rw_iter f iter at_pos write direct = do
    (ret, ki_pos) ←
        if write
        then vfs_iocb_iter_write f iter at_pos direct
        else vfs_iocb_iter_read f iter at_pos direct
    pure (ret, if positive ret then ki_pos else at_pos)

  direct_rw : File → ℕ → ℕ → ℕ → Bool → State Machine (ℤ × ℕ)
  unfolding rw_iter
  direct_rw f buf len at_pos write = rw_iter f (bvec buf len) at_pos write true

  unfoldable pub direct_write : File → ℕ → ℕ → ℕ → State Machine (ℤ × ℕ)
  unfolding direct_rw
  direct_write f buf len at_pos = direct_rw f buf len at_pos true

  unfoldable pub direct_read : File → ℕ → ℕ → ℕ → State Machine (ℤ × ℕ)
  unfolding direct_rw
  direct_read f buf len at_pos = direct_rw f buf len at_pos false

  pub user_rw : File → ℕ → ℕ → ℕ → (write direct : Bool) → State Machine (ℤ × ℕ)
  unfolding rw_iter
  user_rw f buf len at_pos write direct = rw_iter f (ubuf buf len) at_pos write direct

  unfoldable user_write : File → ℕ → ℕ → ℕ → State Machine (ℤ × ℕ)
  unfolding user_rw
  user_write f buf len at_pos = user_rw f buf len at_pos true false

  unfoldable user_writev : File → List (ℕ × ℕ) → ℕ → State Machine (ℤ × ℕ)
  unfolding rw_iter total_len
  user_writev f iov at_pos = rw_iter f (iovec iov (total_len 0 iov)) at_pos true false

  unfoldable fsync_path : String → State Machine ℤ
  fsync_path path = do
    opened ← filp_open path (o_rdonly ∷ o_largefile ∷ []) 0
    elim opened [ err_ptr e ↦ pure e | ptr f ↦ do err ← vfs_fsync f; call (filp_close f); pure err ]

  unfoldable posix_lock : File → ℕ → ℕ → ℕ → ℕ → Bool → State Machine ℤ
  posix_lock f type start end owner wait = do
    granted ← locks_alloc_lock
    if not granted then pure e_nomem else do
      err ← vfs_lock_file f (record {
        flc_type = type;
        sleeps = wait;
        flc_owner = owner;
        fl_start = start;
        fl_end = end;
      })
      call locks_free_lock
      pure err
