-- ===== src/Examples/Toy.antt =====
-- A small concrete kernel: one file, one directory with a stack of mounts, two creds, and counts.
use nfsplayground.Base.{
  ℕ, zero, suc, ◌+◌, ◌-◌, String, Bool, true, false, Option, some, List, [], ◌∷◌, ◌++◌, take,
  length, drop, none, ℤ, pos, negsuc, State, e_inval, if◌then◌else◌, leb,
}
use nfsplayground.Kernel.{OpenFlag, o_trunc, Kernel, Cred, ptr}
use nfsplayground.Fixture.{Fixture}
use nfsplayground.Generic.G478.{Request}

pub record Toy : Type 0 where
  pub paths : ℕ
  pub writers : ℕ
  pub delayed : ℕ
  pub contents : List ℕ
  pub stack : ℕ
  -- how many removals and unmounts are busy still
  pub busy : ℕ
  pub clock : ℕ
  -- whether the task runs on its own cred
  pub at_home : Bool
  pub home_cred : Cred
  pub other_cred : Cred
  pub owned : ℕ
  -- the inode numbers of names, and a file whose holes are zero
  pub names : String → Option ℕ
  pub bytes : ℕ → ℕ
  pub size : ℕ
  -- another such file, a copy of the first
  pub copy_bytes : ℕ → ℕ
  pub copy_size : ℕ
  -- files by their paths, and the one opened last
  pub file_sizes : String → ℕ
  pub file_bytes : String → ℕ → ℕ
  pub open_path : String
  -- the names in a directory, the last change first; a name that is gone has no kind
  pub dirents : List (String × Option Bool)
  -- the locks on a file; `contents` counts the references to open files where they matter
  pub locks : List (Request ℕ)

abbrev pub read_toy : Bool → Toy → Cred
read_toy true s = s.home_cred
read_toy false s = s.other_cred

abbrev pub write_toy : Bool → Cred → Toy → Toy
write_toy true v s = record s { home_cred = v }
write_toy false v s = record s { other_cred = v }

-- A write takes three bytes at most.
abbrev pub taken : List ℕ → ℕ
taken bytes = if leb 3 (length bytes) then 3 else length bytes

abbrev pub pop_mount : State Toy ℤ
pop_mount s = elim s.stack [ zero ↦ (e_inval, s) | suc n ↦ (pos 0, record s { stack = n }) ]

abbrev pub remove : ℤ → State Toy ℤ
remove refusal s = elim s.busy [ zero ↦ (pos 0, s) | suc n ↦ (refusal, record s { busy = n }) ]

abbrev pub truncates : List OpenFlag → Bool
truncates [] = false
truncates (o_trunc ∷ _) = true
truncates (_ ∷ flags) = truncates flags

abbrev pub toy : Kernel
toy = record {
  Machine = Toy;
  PathRef = String;
  File = ℕ;
  Kstat = ℕ;
  CredRef = Bool;
  do_mkdirat = λ _ _ s. (pos 0, s);
  do_rmdir = λ _. remove (negsuc 38);
  do_unlinkat = λ _ s. (pos 0, s);
  do_renameat2 = λ _ _ _ s. (pos 0, s);
  do_linkat = λ _ _ _ s. (pos 0, s);
  do_symlinkat = λ _ _ s. (pos 0, s);
  do_mknodat = λ _ _ _ s. (pos 0, s);
  new_encode_dev = λ major minor. major + minor;
  kern_path = λ path _ s. ((pos 0, path), record s { paths = s.paths + 1 });
  path_put = λ _ s. record s { paths = s.paths - 1 };
  path_get = λ _ s. record s { paths = s.paths + 1 };
  vfs_getattr = λ _ s. ((pos 0, 7), s);
  vfs_get_link = λ _ s. (ptr (1 ∷ 2 ∷ 3 ∷ []), record s { delayed = s.delayed + 1 });
  do_delayed_call = λ s. record s { delayed = s.delayed - 1 };
  vfs_truncate = λ _ _ s. (pos 0, s);
  vfs_statfs = λ _ s. ((pos 0, record { f_bavail = s.clock; f_bsize = 512 }), s);
  chmod_common = λ _ _ s. (pos 0, s);
  chown_common = λ _ _ _ s. (pos 0, s);
  vfs_utimes = λ _ _ _ s. (pos 0, s);
  inode_permission = λ _ _ s. (pos 0, s);
  mnt_want_write = λ _ s. (pos 0, record s { writers = s.writers + 1 });
  mnt_drop_write = λ _ s. record s { writers = s.writers - 1 };
  vfs_setxattr = λ _ _ _ _ s. (pos 0, s);
  vfs_getxattr = λ _ _ _ s. ((pos 0, []), s);
  vfs_listxattr = λ _ _ s. ((pos 0, []), s);
  vfs_removexattr = λ _ _ s. (pos 0, s);
  filp_open = λ _ flags _ s. (ptr 5, if truncates flags then record s { contents = [] } else s);
  filp_close = λ _ s. s;
  kernel_write = λ _ bytes at_pos s. (
    (pos (taken bytes), at_pos + taken bytes),
    record s { contents = s.contents ++ take (taken bytes) bytes },
  );
  kernel_read = λ _ len at_pos s.
      let got = take len (drop at_pos s.contents) in
      ((pos (length got), got, at_pos + length got), s);
  vfs_iocb_iter_write = λ _ _ at_pos _ s. ((pos 0, at_pos), s);
  vfs_iocb_iter_read = λ _ _ at_pos _ s. ((pos 0, at_pos), s);
  vfs_llseek_end = λ _ s. (pos (length s.contents), s);
  fput = λ _ s. s;
  vfs_fsync = λ _ s. (pos 0, s);
  do_ftruncate = λ _ _ s. (pos 0, s);
  locks_alloc_lock = λ s. (true, s);
  locks_free_lock = λ s. s;
  vfs_lock_file = λ _ _ s. (pos 0, s);
  current_cred = λ s. s.at_home;
  read_cred = read_toy;
  write_cred = write_toy;
  prepare_creds =
      λ s. (some false, record s { other_cred = read_toy s.at_home s; owned = s.owned + 1 });
  override_creds = λ c s. (s.at_home, record s { at_home = c });
  revert_creds = λ c s. record s { at_home = c };
  put_cred = λ _ s. record s { owned = s.owned - 1 };
  abort_creds = λ _ s. record s { owned = s.owned - 1 };
  security_task_fix_setuid = λ _ _ s. (pos 0, s);
  path_mount = λ _ _ _ _ _ s. (pos 0, record s { stack = s.stack + 1 });
  path_umount = λ _ _. pop_mount;
  flush_delayed_fput = λ s. s;
  msleep = λ ms s. record s { clock = s.clock + ms };
  ktime_get_real_seconds = λ s. s.clock;
  kmalloc = λ s. (true, s);
  kfree = λ s. s;
  mutex_lock = λ _ s. s;
  mutex_unlock = λ _ s. s;
  decimal = λ _. "7";
  strscpy = λ _ str. str;
  loopback_is_up = λ _. true;
  dev_change_flags_up = λ s. (pos 0, s);
  cache_parse = λ _ _ s. (pos 0, s);
  nfsd_clear_version = λ _ s. s;
  nfsd_create_serv = λ s. (pos 0, s);
  svc_xprt_create = λ _ port s. (pos port, s);
  nfsd_svc = λ threads s. (pos threads, s);
  nfsd4_end_grace = λ s. s;
  current_root = λ _. "/";
  set_fs_root = λ _ s. s;
  set_fs_pwd = λ _ s. s;
  replace_fd = λ _ _ s. (pos 0, s);
  call_usermodehelper_setup = λ _ _ s. (true, s);
  call_usermodehelper_exec = λ _ _ child s. (pos 256, (child s).1);
}

abbrev pub root_cred : Cred
root_cred = record {
  uid = 0;
  euid = 0;
  suid = 0;
  fsuid = 0;
  gid = 0;
  egid = 0;
  sgid = 0;
  fsgid = 0;
  cap_inheritable = 0;
  cap_permitted = 255;
  cap_effective = 255;
}

-- Nine mounts are stacked on the scratch directory, and one removal is refused at first.
abbrev pub start : Toy
start = record {
  paths = 0;
  writers = 0;
  delayed = 0;
  contents = [];
  stack = 9;
  busy = 1;
  clock = 0;
  at_home = true;
  home_cred = root_cred;
  other_cred = root_cred;
  owned = 0;
  names = λ _. none;
  bytes = λ _. 0;
  size = 0;
  copy_bytes = λ _. 0;
  copy_size = 0;
  file_sizes = λ _. 0;
  file_bytes = λ _ _. 0;
  open_path = "";
  dirents = [];
  locks = [];
}

abbrev pub idle_fixture : Fixture toy
idle_fixture = record {
  machine = start;
  saved_creds = none;
  override = none;
  fixture_refs = 0;
  export_mount_opts = "size=67108864,nr_inodes=32768";
  tmpfs_mounted = false;
  nfsdfs_mounted = false;
  nfsd_up = false;
  client_mounted = false;
  bringup_root = none;
  hostbin = "/bin";
  hostbin_mounted = false;
  prog_seq = 0;
}
