-- ===== src/Paths.antt =====
-- The path helpers of kunit/xfstests/nfs_fixture.c: the name syscalls by path, and the operations
-- that look a path up, act on it and drop the reference. What C stores through a pointer (a stat, an
-- xattr's value, a link's target) is returned beside the result.
pub mod Calls
use nfsplayground.Base.{
  ℕ, suc, ◌+◌, String, Bool, true, false, List, [], ◌∷◌, ◌++◌, ℤ, pos, nonzero, e_range, State,
  pure, ◌>>=◌, ◌>>◌, call, if◌then◌else◌, leb, length, not,
}
use nfsplayground.Kernel.{Kernel, ptr, err_ptr, Timespec, Kstatfs}

module _ (K : Kernel) where
  open K use {
    Machine, PathRef, File, Kstat, do_mkdirat, do_rmdir, do_unlinkat, do_renameat2, do_linkat,
    do_symlinkat, do_mknodat, new_encode_dev, kern_path, path_put, vfs_getattr, vfs_get_link,
    do_delayed_call, vfs_truncate, vfs_statfs, chmod_common, chown_common, vfs_utimes,
    mnt_want_write, mnt_drop_write, vfs_setxattr, vfs_getxattr, vfs_listxattr, vfs_removexattr,
    do_ftruncate,
  }

  unfoldable pub mkdir : String → State Machine ℤ
  mkdir path = do_mkdirat path 0o755

  unfoldable pub rmdir : String → State Machine ℤ
  rmdir path = do_rmdir path

  unfoldable pub unlink : String → State Machine ℤ
  unlink path = do_unlinkat path

  unfoldable pub rename : String → String → State Machine ℤ
  rename from to = do_renameat2 from to 0

  unfoldable pub link : String → String → State Machine ℤ
  link oldpath newpath = do_linkat oldpath newpath 0

  unfoldable pub symlink : String → String → State Machine ℤ
  symlink target linkpath = do_symlinkat target linkpath

  unfoldable mknod : String → ℕ → ℕ → ℕ → State Machine ℤ
  mknod path mode major minor = do_mknodat path mode (new_encode_dev major minor)

  unfoldable pub ftruncate : File → ℤ → State Machine ℤ
  ftruncate f len = do_ftruncate f len

  unfoldable pub exists : String → State Machine Bool
  exists path = do
    (err, p) ← kern_path path 0
    if nonzero err then pure false else do call (path_put p); pure true

  -- The shape that the helpers below share: look up, leave on an error with `d` in the out
  -- parameter, act, drop the reference.
  unfoldable pub on_path :
      {A : Type 0} → A → String → (PathRef → State Machine (ℤ × A)) → State Machine (ℤ × A)
  on_path d path act = do
    (err, p) ← kern_path path 0
    if nonzero err then pure (err, d) else do r ← act p; call (path_put p); pure r

  -- The same for an operation with no out parameter.
  unfoldable pub at_path : String → (PathRef → State Machine ℤ) → State Machine ℤ
  at_path path act = do
    (err, p) ← kern_path path 0
    if nonzero err then pure err else do err ← act p; call (path_put p); pure err

  unfoldable pub kstat : Kstat → String → State Machine (ℤ × Kstat)
  unfolding on_path
  kstat st path = on_path st path vfs_getattr

  unfoldable pub truncate : String → ℤ → State Machine ℤ
  unfolding at_path
  truncate path len = at_path path λ p. vfs_truncate p len

  pub statfs : Kstatfs → String → State Machine (ℤ × Kstatfs)
  statfs st path = on_path st path vfs_statfs

  pub chmod : String → ℕ → State Machine ℤ
  chmod path mode = at_path path λ p. chmod_common p mode

  pub chown : String → ℕ → ℕ → State Machine ℤ
  chown path uid gid = at_path path λ p. chown_common p uid gid

  pub utimes_raw : String → Timespec → Timespec → State Machine ℤ
  utimes_raw path atime mtime = at_path path λ p. vfs_utimes p atime mtime

  pub utimes : String → ℤ → ℤ → State Machine ℤ
  unfolding utimes_raw
  utimes path atime mtime =
      utimes_raw path (record { tv_sec = atime; tv_nsec = 0 })
        (record { tv_sec = mtime; tv_nsec = 0 })

  -- What the target leaves in a buffer of `size` bytes: itself and its terminator, if they fit.
  copy_target : List ℕ → ℕ → ℤ × List ℕ
  copy_target target size =
      if leb size (length target) then (e_range, []) else (pos (length target), target ++ 0 ∷ [])

  pub readlink : String → ℕ → State Machine (ℤ × List ℕ)
  unfolding copy_target
  readlink path size = do
    (err, p) ← kern_path path 0
    if nonzero err then pure (err, []) else do
      link ← vfs_get_link p
      elim link [
        | err_ptr e ↦ do call (path_put p); pure (e, [])
        | ptr target ↦ do call do_delayed_call; call (path_put p); pure (copy_target target size)
      ]

  -- mnt_want_write, the operation, mnt_drop_write.
  pub with_write : PathRef → State Machine ℤ → State Machine ℤ
  with_write p act = do
    err ← mnt_want_write p
    if nonzero err then pure err else do err ← act; call (mnt_drop_write p); pure err

  pub setxattr : String → String → List ℕ → ℕ → State Machine ℤ
  setxattr path name value flags = at_path path λ p. with_write p (vfs_setxattr p name value flags)

  pub getxattr : String → String → ℕ → State Machine (ℤ × List ℕ)
  getxattr path name size = on_path [] path λ p. vfs_getxattr p name size

  pub listxattr : String → ℕ → State Machine (ℤ × List ℕ)
  listxattr path size = on_path [] path λ p. vfs_listxattr p size

  pub removexattr : String → String → State Machine ℤ
  removexattr path name = at_path path λ p. with_write p (vfs_removexattr p name)
