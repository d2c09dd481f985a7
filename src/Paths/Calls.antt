-- ===== src/Paths/Calls.antt =====
-- Every path helper gives back what it takes: the looked-up path, the write access to the mount, the
-- link's delayed call.
use nfsplayground.Base.{
  ℕ, ◌+◌, ◌-◌, ◌≡◌, String, List, [], ℤ, nonzero, State, after, if◌then◌else◌, arith, Bool-cases,
  inl, inr,
}
use nfsplayground.Kernel.{Kernel, ptr, err_ptr, Timespec, Kstatfs}
use nfsplayground.Paths

-- A call of one of the helpers that look a path up.
pub data PathCall (K : Kernel) : Type 0 where
  exists : String → PathCall K
  kstat : K.Kstat → String → PathCall K
  readlink : String → ℕ → PathCall K
  truncate : String → ℤ → PathCall K
  statfs : Kstatfs → String → PathCall K
  chmod : String → ℕ → PathCall K
  chown : String → ℕ → ℕ → PathCall K
  utimes_raw : String → Timespec → Timespec → PathCall K
  utimes : String → ℤ → ℤ → PathCall K
  setxattr : String → String → List ℕ → ℕ → PathCall K
  getxattr : String → String → ℕ → PathCall K
  listxattr : String → ℕ → PathCall K
  removexattr : String → String → PathCall K

-- What the running code owes: path references, write accesses, delayed calls.
pub record Usage : Type 0 where
  pub paths : ℕ
  pub writers : ℕ
  pub delayed : ℕ

-- What the kernel documents of these counts.
pub record Counts (K : Kernel) (usage : K.Machine → Usage) : Type 0 where
  pub usage-kern_path :
      (path : String) (flags : ℕ) (s : K.Machine)
      → usage (K.kern_path path flags s).1 ≡ (
          if nonzero (K.kern_path path flags s).0.0 then usage s else record {
            paths = (usage s).paths + 1;
            writers = (usage s).writers;
            delayed = (usage s).delayed;
          })
  pub usage-path_put :
      (p : K.PathRef) (s : K.Machine)
      → usage (K.path_put p s) ≡ record {
        paths = (usage s).paths - 1;
        writers = (usage s).writers;
        delayed = (usage s).delayed;
      }
  pub usage-mnt_want_write :
      (p : K.PathRef) (s : K.Machine)
      → usage (K.mnt_want_write p s).1 ≡ (
          if nonzero (K.mnt_want_write p s).0 then usage s else record {
            paths = (usage s).paths;
            writers = (usage s).writers + 1;
            delayed = (usage s).delayed;
          })
  pub usage-mnt_drop_write :
      (p : K.PathRef) (s : K.Machine)
      → usage (K.mnt_drop_write p s) ≡ record {
        paths = (usage s).paths;
        writers = (usage s).writers - 1;
        delayed = (usage s).delayed;
      }
  pub usage-vfs_get_link :
      (p : K.PathRef) (s : K.Machine)
      → usage (K.vfs_get_link p s).1 ≡ elim (K.vfs_get_link p s).0 [
        | err_ptr e ↦ usage s
        | ptr target ↦ record {
          paths = (usage s).paths;
          writers = (usage s).writers;
          delayed = (usage s).delayed + 1;
        }
      ]
  pub usage-do_delayed_call :
      (s : K.Machine)
      → usage (K.do_delayed_call s) ≡ record {
        paths = (usage s).paths;
        writers = (usage s).writers;
        delayed = (usage s).delayed - 1;
      }
  pub usage-vfs_getattr : (p : K.PathRef) (s : K.Machine) → usage (K.vfs_getattr p s).1 ≡ usage s
  pub usage-vfs_truncate :
      (p : K.PathRef) (n : ℤ) (s : K.Machine) → usage (K.vfs_truncate p n s).1 ≡ usage s
  pub usage-vfs_statfs : (p : K.PathRef) (s : K.Machine) → usage (K.vfs_statfs p s).1 ≡ usage s
  pub usage-chmod_common :
      (p : K.PathRef) (m : ℕ) (s : K.Machine) → usage (K.chmod_common p m s).1 ≡ usage s
  pub usage-chown_common :
      (p : K.PathRef) (u g : ℕ) (s : K.Machine) → usage (K.chown_common p u g s).1 ≡ usage s
  pub usage-vfs_utimes :
      (p : K.PathRef) (a m : Timespec) (s : K.Machine) → usage (K.vfs_utimes p a m s).1 ≡ usage s
  pub usage-vfs_setxattr :
      (p : K.PathRef) (name : String) (v : List ℕ) (flags : ℕ) (s : K.Machine)
      → usage (K.vfs_setxattr p name v flags s).1 ≡ usage s
  pub usage-vfs_getxattr :
      (p : K.PathRef) (name : String) (size : ℕ) (s : K.Machine)
      → usage (K.vfs_getxattr p name size s).1 ≡ usage s
  pub usage-vfs_listxattr :
      (p : K.PathRef) (size : ℕ) (s : K.Machine) → usage (K.vfs_listxattr p size s).1 ≡ usage s
  pub usage-vfs_removexattr :
      (p : K.PathRef) (name : String) (s : K.Machine)
      → usage (K.vfs_removexattr p name s).1 ≡ usage s

module _ (K : Kernel) where
  -- The machine after the call.
  pub run_call : PathCall K → K.Machine → K.Machine
  unfolding Paths.exists Paths.kstat Paths.readlink Paths.truncate Paths.statfs Paths.chmod
      Paths.chown Paths.utimes Paths.setxattr Paths.getxattr Paths.listxattr Paths.removexattr
  run_call (exists path) = after (Paths.exists K path)
  run_call (kstat st path) = after (Paths.kstat K st path)
  run_call (readlink path size) = after (Paths.readlink K path size)
  run_call (truncate path n) = after (Paths.truncate K path n)
  run_call (statfs st path) = after (Paths.statfs K st path)
  run_call (chmod path mode) = after (Paths.chmod K path mode)
  run_call (chown path uid gid) = after (Paths.chown K path uid gid)
  run_call (utimes_raw path atime mtime) = after (Paths.utimes_raw K path atime mtime)
  run_call (utimes path atime mtime) = after (Paths.utimes K path atime mtime)
  run_call (setxattr path name value flags) = after (Paths.setxattr K path name value flags)
  run_call (getxattr path name size) = after (Paths.getxattr K path name size)
  run_call (listxattr path size) = after (Paths.listxattr K path size)
  run_call (removexattr path name) = after (Paths.removexattr K path name)

module _ {K : Kernel} {usage : K.Machine → Usage} (C : Counts K usage) where
  on_path-usage :
      {A : Type 0} (d : A) (path : String) (act : K.PathRef → State K.Machine (ℤ × A))
      → ((p : K.PathRef) (s : K.Machine) → usage (act p s).1 ≡ usage s)
      → (s : K.Machine) → usage (Paths.on_path K d path act s).1 ≡ usage s
  unfolding Paths.on_path
  on_path-usage d path act keep s =
      let r = K.kern_path path 0 s in
      elim (Bool-cases (nonzero r.0.0)) [
        | inl bad ↦ rw bad (rw bad at (C.usage-kern_path path 0 s))
        | inr good ↦ rw good (
            ground (
              arith,
              rw good at (C.usage-kern_path path 0 s),
              C.usage-path_put r.0.1 (act r.0.1 r.1).1,
              keep r.0.1 r.1,
            ))
      ]

  at_path-usage :
      (path : String) (act : K.PathRef → State K.Machine ℤ)
      → ((p : K.PathRef) (s : K.Machine) → usage (act p s).1 ≡ usage s)
      → (s : K.Machine) → usage (Paths.at_path K path act s).1 ≡ usage s
  unfolding Paths.at_path
  at_path-usage path act keep s =
      let r = K.kern_path path 0 s in
      elim (Bool-cases (nonzero r.0.0)) [
        | inl bad ↦ rw bad (rw bad at (C.usage-kern_path path 0 s))
        | inr good ↦ rw good (
            ground (
              arith,
              rw good at (C.usage-kern_path path 0 s),
              C.usage-path_put r.0.1 (act r.0.1 r.1).1,
              keep r.0.1 r.1,
            ))
      ]

  exists-usage : (path : String) (s : K.Machine) → usage (Paths.exists K path s).1 ≡ usage s
  unfolding Paths.exists
  exists-usage path s =
      let r = K.kern_path path 0 s in
      elim (Bool-cases (nonzero r.0.0)) [
        | inl bad ↦ rw bad (rw bad at (C.usage-kern_path path 0 s))
        | inr good ↦
            rw good
              (ground (arith, rw good at (C.usage-kern_path path 0 s), C.usage-path_put r.0.1 r.1))
      ]

  readlink-usage :
      (path : String) (size : ℕ) (s : K.Machine) → usage (Paths.readlink K path size s).1 ≡ usage s
  unfolding Paths.readlink
  readlink-usage path size s =
      let r = K.kern_path path 0 s in
      let l = K.vfs_get_link r.0.1 r.1 in
      elim (Bool-cases (nonzero r.0.0)) [
        | inl bad ↦ rw bad (rw bad at (C.usage-kern_path path 0 s))
        | inr good ↦ rw good (
            ground (
              arith,
              rw good at (C.usage-kern_path path 0 s),
              C.usage-vfs_get_link r.0.1 r.1,
              C.usage-do_delayed_call l.1,
              C.usage-path_put r.0.1 l.1,
              C.usage-path_put r.0.1 (K.do_delayed_call l.1),
            ))
      ]

  with_write-usage :
      (p : K.PathRef) (act : State K.Machine ℤ)
      → ((s : K.Machine) → usage (act s).1 ≡ usage s)
      → (s : K.Machine) → usage (Paths.with_write K p act s).1 ≡ usage s
  unfolding Paths.with_write
  with_write-usage p act keep s =
      let w = K.mnt_want_write p s in
      elim (Bool-cases (nonzero w.0)) [
        | inl bad ↦ rw bad (rw bad at (C.usage-mnt_want_write p s))
        | inr good ↦ rw good (
            ground (
              arith,
              rw good at (C.usage-mnt_want_write p s),
              C.usage-mnt_drop_write p (act w.1).1,
              keep w.1,
            ))
      ]

  -- Whatever its arguments and whichever of its branches it takes, a path helper ends with as many
  -- path references, write accesses and delayed calls as it began with, if the kernel's functions
  -- count these as documented.
  pub run_call-usage : (c : PathCall K) (s : K.Machine) → usage (run_call K c s) ≡ usage s
  unfolding run_call Paths.utimes_raw
  run_call-usage (exists path) s = exists-usage path s
  run_call-usage (kstat st path) s = on_path-usage st path K.vfs_getattr C.usage-vfs_getattr s
  run_call-usage (readlink path size) s = readlink-usage path size s
  run_call-usage (truncate path n) s =
      at_path-usage path (λ p. K.vfs_truncate p n) (λ p s. C.usage-vfs_truncate p n s) s
  run_call-usage (statfs st path) s = on_path-usage st path K.vfs_statfs C.usage-vfs_statfs s
  run_call-usage (chmod path mode) s =
      at_path-usage path (λ p. K.chmod_common p mode) (λ p s. C.usage-chmod_common p mode s) s
  run_call-usage (chown path uid gid) s =
      at_path-usage path (λ p. K.chown_common p uid gid) (λ p s. C.usage-chown_common p uid gid s) s
  run_call-usage (utimes_raw path a m) s =
      at_path-usage path (λ p. K.vfs_utimes p a m) (λ p s. C.usage-vfs_utimes p a m s) s
  run_call-usage (utimes path a m) s =
      let a' : Timespec = record { tv_sec = a; tv_nsec = 0 } in
      let m' : Timespec = record { tv_sec = m; tv_nsec = 0 } in
      at_path-usage path (λ p. K.vfs_utimes p a' m') (λ p s. C.usage-vfs_utimes p a' m' s) s
  run_call-usage (setxattr path name value flags) s =
      at_path-usage path (λ p. Paths.with_write K p (K.vfs_setxattr p name value flags))
        (λ p.
          with_write-usage p (K.vfs_setxattr p name value flags)
            (C.usage-vfs_setxattr p name value flags))
        s
  run_call-usage (getxattr path name size) s =
      on_path-usage [] path (λ p. K.vfs_getxattr p name size)
        (λ p s. C.usage-vfs_getxattr p name size s) s
  run_call-usage (listxattr path size) s =
      on_path-usage [] path (λ p. K.vfs_listxattr p size) (λ p s. C.usage-vfs_listxattr p size s) s
  run_call-usage (removexattr path name) s =
      at_path-usage path (λ p. Paths.with_write K p (K.vfs_removexattr p name))
        (λ p. with_write-usage p (K.vfs_removexattr p name) (C.usage-vfs_removexattr p name)) s
