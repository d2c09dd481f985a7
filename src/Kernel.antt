-- ===== src/Kernel.antt =====
-- The Linux kernel as kunit/xfstests/nfs_fixture.c sees it: the functions that the fixture calls, over
-- a machine state that the fixture does not look into. None of this code is in the repository, so
-- every development about the fixture takes a `Kernel` as its parameter.
use nfsplayground.Base.{ℕ, String, Bool, Option, List, ℤ, State, ◌≡◌, refl, ◌⊎◌, inl, inr}

-- A pointer that may carry an errno (`IS_ERR`, `PTR_ERR`).
pub data Pointer (A : Type 0) : Type 0 where
  ptr : A → Pointer A
  err_ptr : ℤ → Pointer A

pub Pointer-cases :
    {A : Type 0} (p : Pointer A) → ((a : A) × (p ≡ ptr a)) ⊎ ((e : ℤ) × (p ≡ err_ptr e))
Pointer-cases (ptr a) = inl (a, refl)
Pointer-cases (err_ptr e) = inr (e, refl)

-- The flags of open(2) that the code passes; their numbers differ between architectures.
pub data OpenFlag : Type 0 where
  o_rdonly o_wronly o_rdwr o_creat o_excl o_trunc o_append o_largefile o_directory o_direct :
      OpenFlag

-- The fields of `struct cred` that the fixture writes. A capability set is the number of its bits.
pub record Cred : Type 0 where
  pub uid : ℕ
  pub euid : ℕ
  pub suid : ℕ
  pub fsuid : ℕ
  pub gid : ℕ
  pub egid : ℕ
  pub sgid : ℕ
  pub fsgid : ℕ
  pub cap_inheritable : ℕ
  pub cap_permitted : ℕ
  pub cap_effective : ℕ

-- A time with its nanoseconds, which may also be UTIME_OMIT or UTIME_NOW.
pub record Timespec : Type 0 where
  pub tv_sec : ℤ
  pub tv_nsec : ℕ

-- The fields of `struct kstatfs` that the fixture reads.
pub record Kstatfs : Type 0 where
  pub f_bavail : ℕ
  pub f_bsize : ℕ

-- The locks that the fixture takes.
pub data Mutex : Type 0 where
  fixture_lock hostbin_lock nfsd_mutex rtnl : Mutex

-- The three sunrpc caches that rpc.mountd would fill.
pub data Cache : Type 0 where
  ip_map_cache svc_export_cache svc_expkey_cache : Cache

-- What xfs_posix_lock fills into a `struct file_lock`, but for the lock's file.
pub record LockRequest : Type 0 where
  pub flc_type : ℕ
  pub sleeps : Bool
  pub flc_owner : ℕ
  pub fl_start : ℕ
  pub fl_end : ℕ

-- What a transfer moves: one bio_vec over kernel memory, one user buffer, or an array of user buffers.
-- Buffers are addresses, each with its length.
pub data IovIter : Type 0 where
  bvec : ℕ → ℕ → IovIter
  ubuf : ℕ → ℕ → IovIter
  iovec : List (ℕ × ℕ) → ℕ → IovIter

pub record Kernel : Type 1 where
  pub Machine : Type 0
  pub PathRef : Type 0
  pub File : Type 0
  pub Kstat : Type 0
  pub CredRef : Type 0
  -- fs/namei.c: the bodies of the name syscalls
  pub do_mkdirat : String → ℕ → State Machine ℤ
  pub do_rmdir : String → State Machine ℤ
  pub do_unlinkat : String → State Machine ℤ
  pub do_renameat2 : String → String → ℕ → State Machine ℤ
  pub do_linkat : String → String → ℕ → State Machine ℤ
  pub do_symlinkat : String → String → State Machine ℤ
  pub do_mknodat : String → ℕ → ℕ → State Machine ℤ
  pub new_encode_dev : ℕ → ℕ → ℕ
  -- path lookup: an errno and, if that is 0, a counted reference
  pub kern_path : String → ℕ → State Machine (ℤ × PathRef)
  pub path_put : PathRef → Machine → Machine
  pub path_get : PathRef → Machine → Machine
  -- operations on a looked-up path
  pub vfs_getattr : PathRef → State Machine (ℤ × Kstat)
  pub vfs_get_link : PathRef → State Machine (Pointer (List ℕ))
  pub do_delayed_call : Machine → Machine
  pub vfs_truncate : PathRef → ℤ → State Machine ℤ
  pub vfs_statfs : PathRef → State Machine (ℤ × Kstatfs)
  pub chmod_common : PathRef → ℕ → State Machine ℤ
  pub chown_common : PathRef → ℕ → ℕ → State Machine ℤ
  pub vfs_utimes : PathRef → Timespec → Timespec → State Machine ℤ
  pub inode_permission : PathRef → ℕ → State Machine ℤ
  pub mnt_want_write : PathRef → State Machine ℤ
  pub mnt_drop_write : PathRef → Machine → Machine
  pub vfs_setxattr : PathRef → String → List ℕ → ℕ → State Machine ℤ
  pub vfs_getxattr : PathRef → String → ℕ → State Machine (ℤ × List ℕ)
  pub vfs_listxattr : PathRef → ℕ → State Machine (ℤ × List ℕ)
  pub vfs_removexattr : PathRef → String → State Machine ℤ
  -- open files: a transfer takes the position, and returns its result and the new position
  pub filp_open : String → List OpenFlag → ℕ → State Machine (Pointer File)
  pub filp_close : File → Machine → Machine
  pub kernel_write : File → List ℕ → ℕ → State Machine (ℤ × ℕ)
  pub kernel_read : File → ℕ → ℕ → State Machine (ℤ × List ℕ × ℕ)
  pub vfs_iocb_iter_write : File → IovIter → ℕ → Bool → State Machine (ℤ × ℕ)
  pub vfs_iocb_iter_read : File → IovIter → ℕ → Bool → State Machine (ℤ × ℕ)
  pub vfs_llseek_end : File → State Machine ℤ
  pub fput : File → Machine → Machine
  pub vfs_fsync : File → State Machine ℤ
  pub do_ftruncate : File → ℤ → State Machine ℤ
  pub locks_alloc_lock : Machine → Bool × Machine
  pub locks_free_lock : Machine → Machine
  pub vfs_lock_file : File → LockRequest → State Machine ℤ
  -- credentials of the running task
  pub current_cred : Machine → CredRef
  pub read_cred : CredRef → Machine → Cred
  pub write_cred : CredRef → Cred → Machine → Machine
  pub prepare_creds : State Machine (Option CredRef)
  pub override_creds : CredRef → State Machine CredRef
  pub revert_creds : CredRef → Machine → Machine
  pub put_cred : CredRef → Machine → Machine
  pub abort_creds : CredRef → Machine → Machine
  pub security_task_fix_setuid : CredRef → CredRef → State Machine ℤ
  -- mounts, delayed fputs and time; `path_mount` takes the device, the type, the flags, the options
  pub path_mount : String → PathRef → String → ℕ → Option String → State Machine ℤ
  pub path_umount : PathRef → ℕ → State Machine ℤ
  pub flush_delayed_fput : Machine → Machine
  pub msleep : ℕ → Machine → Machine
  pub ktime_get_real_seconds : Machine → ℕ
  -- memory: whether an allocation is granted
  pub kmalloc : Machine → Bool × Machine
  pub kfree : Machine → Machine
  pub mutex_lock : Mutex → Machine → Machine
  pub mutex_unlock : Mutex → Machine → Machine
  -- a number as `%d` and `%lld` print it
  pub decimal : ℕ → String
  -- what strscpy leaves of a string in a buffer of the given size
  pub strscpy : ℕ → String → String
  -- the loopback device and knfsd
  pub loopback_is_up : Machine → Bool
  pub dev_change_flags_up : State Machine ℤ
  pub cache_parse : Cache → String → State Machine ℤ
  pub nfsd_clear_version : ℕ → Machine → Machine
  pub nfsd_create_serv : State Machine ℤ
  pub svc_xprt_create : String → ℕ → State Machine ℤ
  pub nfsd_svc : ℕ → State Machine ℤ
  pub nfsd4_end_grace : Machine → Machine
  pub current_root : Machine → PathRef
  pub set_fs_root : PathRef → Machine → Machine
  pub set_fs_pwd : PathRef → Machine → Machine
  -- user-mode helpers: whether the setup is granted, and the run with what the child does first
  pub replace_fd : ℕ → File → State Machine ℤ
  pub call_usermodehelper_setup : String → List String → Machine → Bool × Machine
  pub call_usermodehelper_exec : String → List String → State Machine ℤ → State Machine ℤ
