-- ===== src/Lifecycle/Sharing.antt =====
-- Suites that share one deployment: it is up exactly while it has users.
use nfsplayground.Base.{
  ℕ, suc, ◌≡◌, ◌≢◌, refl, ◌∙◌, ap, ◌⊎◌, inl, inr, true, none, ℤ, pos, nonzero, ◌>>=◌, ◌>>◌,
}
use nfsplayground.Kernel.{Kernel, Mutex}
use nfsplayground.Fixture.{Fixture}
use nfsplayground.Lifecycle.{
  default_opts, bringup, teardown, count_user, get_fixture, put_count, put_fixture,
}
use nfsplayground.Lifecycle.Stages.{At, Brought, up, stopped, bringup-Brought}
use nfsplayground.Lifecycle.Clearing.{teardown-clears}

module _ {K : Kernel} where
  -- No users and nothing up, or users and everything up.
  pub data Shared (w : Fixture K) : Type 0 where
    idle : w.fixture_refs ≡ 0 → At 0 w → Shared w
    in_use : (n : ℕ) → w.fixture_refs ≡ suc n → At 4 w → w.bringup_root ≢ none → Shared w

  -- The same statics but for the machine and what the invariant does not name.
  pub record Agrees (v w : Fixture K) : Type 0 where
    pub tmpfs : w.tmpfs_mounted ≡ v.tmpfs_mounted
    pub nfsdfs : w.nfsdfs_mounted ≡ v.nfsdfs_mounted
    pub nfsd : w.nfsd_up ≡ v.nfsd_up
    pub client : w.client_mounted ≡ v.client_mounted
    pub root : w.bringup_root ≡ v.bringup_root
    pub refs : w.fixture_refs ≡ v.fixture_refs

  pub At-Agrees : (k : ℕ) {v w : Fixture K} → Agrees v w → At k v → At k w
  At-Agrees k g a = record {
    tmpfs = g.tmpfs ∙ a.tmpfs;
    nfsdfs = g.nfsdfs ∙ a.nfsdfs;
    nfsd = g.nfsd ∙ a.nfsd;
    client = g.client ∙ a.client;
  }

  pub Shared-Agrees : {v w : Fixture K} → Agrees v w → Shared v → Shared w
  Shared-Agrees g (idle none_left down) = idle (g.refs ∙ none_left) (At-Agrees 0 g down)
  Shared-Agrees g (in_use n refs all root) =
      in_use n (g.refs ∙ refs) (At-Agrees 4 g all) (rw g.root root)

  teardown-At : (w : Fixture K) → At 0 (teardown K w).1
  teardown-At w =
      let e = teardown-clears w in
      record {
        tmpfs = ap (λ v. v.tmpfs_mounted) e;
        nfsdfs = ap (λ v. v.nfsdfs_mounted) e;
        nfsd = ap (λ v. v.nfsd_up) e;
        client = ap (λ v. v.client_mounted) e;
      }

  teardown-refs : (w : Fixture K) → (teardown K w).1.fixture_refs ≡ w.fixture_refs
  teardown-refs w = ap (λ v. v.fixture_refs) (teardown-clears w)

  -- Only the machine differs.
  pub on_machine : (v : Fixture K) (m : K.Machine) → Agrees v (record v { machine = m })
  on_machine v m = record {
    tmpfs = refl;
    nfsdfs = refl;
    nfsd = refl;
    client = refl;
    root = refl;
    refs = refl;
  }

  -- What a get by the first user comes to.
  abbrev pub FirstGet : ℤ → Fixture K → Type 0
  FirstGet err w =
      ((err ≡ pos 0) × (w.fixture_refs ≡ 1) × At 4 w × (w.bringup_root ≢ none))
      ⊎ ((nonzero err ≡ true)
          × (w.fixture_refs ≡ 0)
          × At 0 w
          × (w.bringup_root ≡ none)
          × (w.export_mount_opts ≡ K.strscpy 64 default_opts))

  count_user-Brought :
      (v : Fixture K) (r : ℤ × Fixture K)
      → v.fixture_refs ≡ 0
      → Brought v r
      → FirstGet r.0 (count_user K r.0 r.1).1
  unfolding count_user
  count_user-Brought v r first (up {w} all root alike) = inl (
    refl,
    ap suc (alike.refs ∙ first),
    record { tmpfs = all.tmpfs; nfsdfs = all.nfsdfs; nfsd = all.nfsd; client = all.client },
    root,
  )
  count_user-Brought v r first (stopped {err} {w} k step before which stood made bad stage alike) =
      rw bad (
        inr (
          refl,
          teardown-refs w ∙ alike.refs ∙ first,
          teardown-At w,
          ap (λ v. v.bringup_root) (teardown-clears w),
          ap (λ v. v.export_mount_opts) (teardown-clears w),
        ))

  FirstGet-machine :
      (err : ℤ) (v : Fixture K) (m : K.Machine)
      → FirstGet err v
      → FirstGet err (record v { machine = m })
  FirstGet-machine err v m (inl (ok, refs, all, root)) =
      inl (ok, refs, At-Agrees 4 (on_machine v m) all, root)
  FirstGet-machine err v m (inr (bad, refs, down, root, opts)) =
      inr (bad, refs, At-Agrees 0 (on_machine v m) down, root, opts)

  -- With no users and nothing up, xfstests_nfs_get returns 0 with one user, all four stages up and
  -- the root remembered; or an error, with no user, everything torn down and the export options
  -- back at the default.
  pub get_fixture-first :
      (w : Fixture K)
      → w.fixture_refs ≡ 0
      → At 0 w
      → FirstGet (get_fixture K w).0 (get_fixture K w).1
  unfolding get_fixture
  get_fixture-first w first down =
      let locked = record w {
        machine = K.mutex_lock Mutex.fixture_lock w.machine;
        fixture_refs = 0;
      } in
      let r = bringup K locked in
      let u = (count_user K r.0 r.1).1 in
      let start : At 0 locked = record {
        tmpfs = down.tmpfs;
        nfsdfs = down.nfsdfs;
        nfsd = down.nfsd;
        client = down.client;
      } in
      rw (first, ◌>>=◌, ◌>>◌)
        (FirstGet-machine r.0 u (K.mutex_unlock Mutex.fixture_lock u.machine)
          (count_user-Brought locked r refl (bringup-Brought locked start)))

  -- With users there already, xfstests_nfs_get returns 0 and adds one; it brings nothing up, and
  -- takes and drops the lock as its only calls of the kernel.
  pub get_fixture-shared :
      (w : Fixture K) (n : ℕ)
      → w.fixture_refs ≡ suc n
      → get_fixture K w ≡ (
        pos 0,
        record w {
          machine = K.mutex_unlock Mutex.fixture_lock (K.mutex_lock Mutex.fixture_lock w.machine);
          fixture_refs = suc (suc n);
        },
      )
  unfolding get_fixture count_user
  get_fixture-shared w n some_users = rw (some_users, ◌>>=◌, ◌>>◌)

  -- A put that is not the last user's takes one away and tears nothing down.
  pub put_fixture-shared :
      (w : Fixture K) (n : ℕ)
      → w.fixture_refs ≡ suc (suc n)
      → (put_fixture K w).1 ≡ record w {
        machine = K.mutex_unlock Mutex.fixture_lock (K.mutex_lock Mutex.fixture_lock w.machine);
        fixture_refs = suc n;
      }
  unfolding put_fixture put_count
  put_fixture-shared w n some_users = rw (some_users, ◌>>=◌, ◌>>◌)

  -- The last user's put, and a put without a user.
  pub put_fixture-last :
      (w : Fixture K)
      → w.fixture_refs ≡ 1
      → (At 0 (put_fixture K w).1) × ((put_fixture K w).1.fixture_refs ≡ 0)
  unfolding put_fixture put_count
  put_fixture-last w one =
      let locked = record w {
        machine = K.mutex_lock Mutex.fixture_lock w.machine;
        fixture_refs = 0;
      } in
      let u = (teardown K locked).1 in
      let agrees = on_machine u (K.mutex_unlock Mutex.fixture_lock u.machine) in
      rw (one, ◌>>=◌, ◌>>◌) (At-Agrees 0 agrees (teardown-At locked), teardown-refs locked)

  pub put_fixture-none :
      (w : Fixture K)
      → w.fixture_refs ≡ 0
      → (put_fixture K w).1 ≡ record w {
        machine = K.mutex_unlock Mutex.fixture_lock (K.mutex_lock Mutex.fixture_lock w.machine);
      }
  unfolding put_fixture put_count
  put_fixture-none w nobody = rw (nobody, ◌>>=◌, ◌>>◌)
