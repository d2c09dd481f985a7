-- ===== src/Lifecycle/Stages.antt =====
-- What a bring-up leaves standing at each of its exits.
use nfsplayground.Base.{
  ℕ, ◌≡◌, ◌≢◌, refl, ◌∙◌, ap, inl, inr, true, false, none, ℤ, pos, nonzero, ◌>>=◌, ◌>>◌, ltb, some,
  Bool-cases, Option-cases,
}
use nfsplayground.Kernel.{Kernel}
use nfsplayground.Fixture.{Fixture, sys}
use nfsplayground.Settle.{mnt}
use nfsplayground.Mounts.{client_opts, mount_at}
use nfsplayground.Server.{configure_exports, start_nfsd}
use nfsplayground.Lifecycle.{
  Fix, try_then, make_dirs, mount_tmpfs, finish, from_nfsd, from_nfsdfs, from_tmpfs, bringup,
  nfsdfs_dir,
}

module _ {K : Kernel} where
  -- The first `k` of the four stages stand: tmpfs, the nfsd filesystem, knfsd, the client mount.
  pub record At (k : ℕ) (w : Fixture K) : Type 0 where
    pub tmpfs : w.tmpfs_mounted ≡ ltb 0 k
    pub nfsdfs : w.nfsdfs_mounted ≡ ltb 1 k
    pub nfsd : w.nfsd_up ≡ ltb 2 k
    pub client : w.client_mounted ≡ ltb 3 k

  -- The statics that a bring-up does not touch are as they were.
  pub record Alike (v w : Fixture K) : Type 0 where
    pub saved : w.saved_creds ≡ v.saved_creds
    pub override : w.override ≡ v.override
    pub refs : w.fixture_refs ≡ v.fixture_refs

  -- The steps of a bring-up that can fail, each with the number of stages that stand before it.
  pub data StageStep : ℕ → Fix K ℤ → Type 0 where
    directories : StageStep 0 (make_dirs K)
    tmpfs_mount : StageStep 0 (mount_tmpfs K)
    nfsdfs_mount : StageStep 1 (sys (mount_at K "nfsd" nfsdfs_dir "nfsd" none))
    exports : StageStep 2 (sys (configure_exports K))
    server : StageStep 2 (sys (start_nfsd K))
    client_mount : StageStep 3 (sys (mount_at K "127.0.0.1:/" mnt "nfs4" (some client_opts)))

  -- A bring-up that ended: with 0 once all four stages stand and the root is remembered, or with the
  -- error of the step that failed, with those stages standing that stand before this step.
  pub data Brought (v : Fixture K) : ℤ × Fixture K → Type 0 where
    up : {w : Fixture K} → At 4 w → w.bringup_root ≢ none → Alike v w → Brought v (pos 0, w)
    stopped :
        {err : ℤ} {w : Fixture K} (k : ℕ) (step : Fix K ℤ) (before : Fixture K)
        → StageStep k step
        → At k before
        → step before ≡ (err, w)
        → nonzero err ≡ true
        → At k w
        → Alike v w
        → Brought v (err, w)

  try_then-rule :
      (P : ℤ × Fixture K → Type 0) (step rest : Fix K ℤ) (w : Fixture K)
      → (nonzero (step w).0 ≡ true → P (step w))
      → (nonzero (step w).0 ≡ false → P (rest (step w).1))
      → P (try_then K step rest w)
  unfolding try_then
  try_then-rule P step rest w bad good = elim (Bool-cases (nonzero (step w).0)) [
    | inl e ↦ rw e (bad e)
    | inr e ↦ rw e (good e)
  ]

  -- A step that changes no static variable.
  abbrev Keeps : Fix K ℤ → Type 0
  Keeps f = (w : Fixture K) → (f w).1 ≡ record w { machine = (f w).1.machine }

  try_then-Keeps : (step rest : Fix K ℤ) → Keeps step → Keeps rest → Keeps (try_then K step rest)
  try_then-Keeps step rest ks kr w =
      try_then-rule (λ r. r.1 ≡ record w { machine = r.1.machine }) step rest w (λ _. ks w)
        (λ _.
          kr (step w).1
          ∙ ap {A = Fixture K} (λ v. record v { machine = (rest (step w).1).1.machine }) (ks w))

  make_dirs-Keeps : Keeps (make_dirs K)
  unfolding make_dirs
  make_dirs-Keeps =
      try_then-Keeps _ _ (λ w. refl)
        (try_then-Keeps _ _ (λ w. refl)
          (try_then-Keeps _ _ (λ w. refl) (try_then-Keeps _ _ (λ w. refl) (λ w. refl))))

  At-Keeps : (f : Fix K ℤ) (k : ℕ) (w : Fixture K) → Keeps f → At k w → At k (f w).1
  At-Keeps f k w ks a = record {
    tmpfs = ap (λ v. v.tmpfs_mounted) (ks w) ∙ a.tmpfs;
    nfsdfs = ap (λ v. v.nfsdfs_mounted) (ks w) ∙ a.nfsdfs;
    nfsd = ap (λ v. v.nfsd_up) (ks w) ∙ a.nfsd;
    client = ap (λ v. v.client_mounted) (ks w) ∙ a.client;
  }

  Alike-Keeps : (f : Fix K ℤ) (v w : Fixture K) → Keeps f → Alike v w → Alike v (f w).1
  Alike-Keeps f v w ks a = record {
    saved = ap (λ u. u.saved_creds) (ks w) ∙ a.saved;
    override = ap (λ u. u.override) (ks w) ∙ a.override;
    refs = ap (λ u. u.fixture_refs) (ks w) ∙ a.refs;
  }

  finish-Brought : (v w : Fixture K) → At 3 w → Alike v w → Brought v (finish K w)
  unfolding finish
  finish-Brought v w at_stage alike = elim (Option-cases w.bringup_root) [
    | inl nothing ↦
        rw (nothing, ◌>>=◌, ◌>>◌)
          (up
            (record {
              tmpfs = at_stage.tmpfs;
              nfsdfs = at_stage.nfsdfs;
              nfsd = at_stage.nfsd;
              client = refl;
            })
            (λ e. cc)
            (record { saved = alike.saved; override = alike.override; refs = alike.refs }))
    | inr (old, there) ↦
        rw (there, ◌>>=◌, ◌>>◌)
          (up
            (record {
              tmpfs = at_stage.tmpfs;
              nfsdfs = at_stage.nfsdfs;
              nfsd = at_stage.nfsd;
              client = refl;
            })
            (λ e. cc)
            (record { saved = alike.saved; override = alike.override; refs = alike.refs }))
  ]

  -- A step that keeps the statics, at stage `k`: if it fails the bring-up stops there.
  step-Brought :
      (v w : Fixture K) (k : ℕ) (step rest : Fix K ℤ)
      → StageStep k step
      → Keeps step
      → At k w
      → Alike v w
      → ((u : Fixture K) → At k u → Alike v u → Brought v (rest u))
      → Brought v (try_then K step rest w)
  step-Brought v w k step rest stage ks a alike next =
      try_then-rule (Brought v) step rest w
        (λ bad.
          stopped k step w stage a refl bad (At-Keeps step k w ks a)
            (Alike-Keeps step v w ks alike))
        (λ _. next (step w).1 (At-Keeps step k w ks a) (Alike-Keeps step v w ks alike))

  from_nfsd-Brought : (v w : Fixture K) → At 2 w → Alike v w → Brought v (from_nfsd K w)
  unfolding from_nfsd
  from_nfsd-Brought v w a alike =
      step-Brought v (record w { nfsd_up = true }) 3 _ _ client_mount (λ u. refl)
        (record { tmpfs = a.tmpfs; nfsdfs = a.nfsdfs; nfsd = refl; client = a.client })
        (record { saved = alike.saved; override = alike.override; refs = alike.refs })
        (finish-Brought v)

  from_nfsdfs-Brought : (v w : Fixture K) → At 1 w → Alike v w → Brought v (from_nfsdfs K w)
  unfolding from_nfsdfs
  from_nfsdfs-Brought v w a alike =
      step-Brought v (record w { nfsdfs_mounted = true }) 2 _ _ exports (λ u. refl)
        (record { tmpfs = a.tmpfs; nfsdfs = refl; nfsd = a.nfsd; client = a.client })
        (record { saved = alike.saved; override = alike.override; refs = alike.refs })
        (λ u a' alike'. step-Brought v u 2 _ _ server (λ u. refl) a' alike' (from_nfsd-Brought v))

  from_tmpfs-Brought : (v w : Fixture K) → At 0 w → Alike v w → Brought v (from_tmpfs K w)
  unfolding from_tmpfs
  from_tmpfs-Brought v w a alike =
      step-Brought v (record w { tmpfs_mounted = true }) 1 _ _ nfsdfs_mount (λ u. refl)
        (record { tmpfs = refl; nfsdfs = a.nfsdfs; nfsd = a.nfsd; client = a.client })
        (record { saved = alike.saved; override = alike.override; refs = alike.refs })
        (from_nfsdfs-Brought v)

  -- From a state with nothing up, xfs_bringup returns 0 with all four stages up and the root
  -- remembered; or it returns the error of one of its six steps that failed, the directories and the
  -- tmpfs mount with no stage up, the nfsd mount with the tmpfs up, the exports and the start of knfsd
  -- with the tmpfs and the nfsd filesystem up, and the client mount with these and knfsd up, and no
  -- other stage is up then. The reference count and the switched credentials are untouched.
  pub bringup-Brought : (w : Fixture K) → At 0 w → Brought w (bringup K w)
  unfolding bringup mount_tmpfs
  bringup-Brought w a =
      step-Brought w w 0 _ _ directories make_dirs-Keeps a
        (record { saved = refl; override = refl; refs = refl })
        (λ u a' alike'.
          step-Brought w u 0 _ _ tmpfs_mount (λ u. refl) a' alike' (from_tmpfs-Brought w))
