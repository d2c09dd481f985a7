-- ===== src/Lifecycle/Users.antt =====
-- Any sequence of what suites and test cases do with the fixture: the count of users is kept, and the
-- client is mounted exactly while there are users.
use text.Mathlib.Text.{◌==◌ as str_eq}
use nfsplayground.Base.{
  ℕ, zero, suc, ◌+◌, ◌-◌, ◌≡◌, refl, sym, ◌∙◌, ap, subst, inl, inr, String, Bool, Option, List, [],
  ◌∷◌, ℤ, nonzero, ◌>>=◌, ◌>>◌, if◌then◌else◌, ltb, arith, Bool-cases, Option-cases, after,
}
use nfsplayground.Kernel.{Kernel, Mutex}
use nfsplayground.Fixture.{Fixture}
use nfsplayground.Creds.{with_euid, switch_creds, seteuid, restore_creds}
use nfsplayground.Programs.{hostbin_mnt, hostbin_mount, run_prog}
use nfsplayground.Mounts.{mkdir_tolerant}
use nfsplayground.Lifecycle.{get_fixture, put_fixture, export_opts, case_init, is_mounted}
use nfsplayground.Lifecycle.Stages.{At}
use nfsplayground.Lifecycle.Sharing.{
  Shared, idle, in_use, Agrees, Shared-Agrees, on_machine, get_fixture-first, get_fixture-shared,
  put_fixture-shared, put_fixture-last, put_fixture-none,
}

-- suite_init, suite_exit, and the calls of test cases that touch the static variables.
pub data SuiteOp : Type 0 where
  suite_init suite_exit test_init undo_creds : SuiteOp
  set_opts : String → SuiteOp
  program : String → List String → SuiteOp
  as_user : ℕ → ℕ → SuiteOp
  as_euid : ℕ → SuiteOp

module _ (K : Kernel) where
  run_suite_op : SuiteOp → Fixture K → Fixture K
  run_suite_op suite_init = after (get_fixture K)
  run_suite_op suite_exit = after (put_fixture K)
  run_suite_op test_init = after (case_init K)
  run_suite_op undo_creds = after (restore_creds K)
  run_suite_op (set_opts opts) = after (export_opts K opts)
  run_suite_op (program prog args) = after (run_prog K prog args)
  run_suite_op (as_user uid gid) = after (switch_creds K uid gid)
  run_suite_op (as_euid uid) = after (seteuid K uid)

  pub run_suite : List SuiteOp → Fixture K → Fixture K
  run_suite [] w = w
  run_suite (op ∷ ops) w = run_suite ops (run_suite_op op w)

  -- The users after one call, from those before it and the result of a suite_init.
  users_after : SuiteOp → Fixture K → ℕ → ℕ
  users_after suite_init w n = if nonzero (get_fixture K w).0 then n else n + 1
  users_after suite_exit w n = n - 1
  users_after _ w n = n

  pub users : List SuiteOp → Fixture K → ℕ → ℕ
  users [] w n = n
  users (op ∷ ops) w n = users ops (run_suite_op op w) (users_after op w n)

module _ {K : Kernel} where
  -- The static variables that the invariant does not name are free to change.
  spared :
      (v : Fixture K) (m : K.Machine) (sv ov : Option K.CredRef) (opts : String) (hm : Bool)
      (ps : ℕ)
      → Agrees v (record v {
        machine = m;
        saved_creds = sv;
        override = ov;
        export_mount_opts = opts;
        hostbin_mounted = hm;
        prog_seq = ps;
      })
  spared v m sv ov opts hm ps = record {
    tmpfs = refl;
    nfsdfs = refl;
    nfsd = refl;
    client = refl;
    root = refl;
    refs = refl;
  }

  case_init-Agrees : (w : Fixture K) → Agrees w (case_init K w).1
  unfolding case_init
  case_init-Agrees w = elim (Option-cases w.bringup_root) [
    | inl e ↦ rw (e, ◌>>=◌, ◌>>◌) (spared _ _ _ _ _ _ _)
    | inr (root, e) ↦ rw (e, ◌>>=◌, ◌>>◌) (spared _ _ _ _ _ _ _)
  ]

  restore_creds-Agrees : (w : Fixture K) → Agrees w (restore_creds K w).1
  unfolding restore_creds
  restore_creds-Agrees w = elim (Option-cases w.saved_creds) [
    | inl e ↦ rw (e, ◌>>=◌, ◌>>◌) (spared _ _ _ _ _ _ _)
    | inr (old, e) ↦ elim (Option-cases w.override) [
      | inl n ↦ rw (e, n, ◌>>=◌, ◌>>◌) (spared _ _ _ _ _ _ _)
      | inr (c, n) ↦ rw (e, n, ◌>>=◌, ◌>>◌) (spared _ _ _ _ _ _ _)
    ]
  ]

  switch_creds-Agrees : (uid gid : ℕ) (w : Fixture K) → Agrees w (switch_creds K uid gid w).1
  unfolding switch_creds
  switch_creds-Agrees uid gid w = elim (Option-cases w.saved_creds) [
    | inr (old, e) ↦ rw (e, ◌>>=◌, ◌>>◌) (spared _ _ _ _ _ _ _)
    | inl e ↦
        rw (e, ◌>>=◌, ◌>>◌)
          (elim (Option-cases (K.prepare_creds w.machine).0) [
            | inl p ↦ rw (p, ◌>>=◌, ◌>>◌) (spared _ _ _ _ _ _ _)
            | inr (c, p) ↦ rw (p, ◌>>=◌, ◌>>◌) (spared _ _ _ _ _ _ _)
          ])
  ]

  seteuid-Agrees : (uid : ℕ) (w : Fixture K) → Agrees w (seteuid K uid w).1
  unfolding seteuid
  seteuid-Agrees uid w = elim (Option-cases w.saved_creds) [
    | inr (old, e) ↦ rw (e, ◌>>=◌, ◌>>◌) (spared _ _ _ _ _ _ _)
    | inl e ↦
        rw (e, ◌>>=◌, ◌>>◌)
          (elim (Option-cases (K.prepare_creds w.machine).0) [
            | inl p ↦ rw (p, ◌>>=◌, ◌>>◌) (spared _ _ _ _ _ _ _)
            | inr (c, p) ↦
                let s1 = (K.prepare_creds w.machine).1 in
                let s2 = K.write_cred c (with_euid uid (K.read_cred c s1)) s1 in
                rw (p, ◌>>=◌, ◌>>◌)
                  (elim (Bool-cases
                    (nonzero (K.security_task_fix_setuid c (K.current_cred w.machine) s2).0)) [
                      | inl bad ↦ rw (bad, ◌>>=◌, ◌>>◌) (spared _ _ _ _ _ _ _)
                      | inr good ↦ rw (good, ◌>>=◌, ◌>>◌) (spared _ _ _ _ _ _ _)
                    ])
          ])
  ]

  hostbin_mount-Agrees : (w : Fixture K) → Agrees w (hostbin_mount K w).1
  unfolding hostbin_mount
  hostbin_mount-Agrees w = elim (Bool-cases w.hostbin_mounted) [
    | inl e ↦ rw (e, ◌>>=◌, ◌>>◌) (spared _ _ _ _ _ _ _)
    | inr e ↦
        rw (e, ◌>>=◌, ◌>>◌)
          (elim (Bool-cases (
            nonzero (mkdir_tolerant K hostbin_mnt (K.mutex_lock Mutex.hostbin_lock w.machine)).0)) [
              | inl bad ↦ rw (bad, ◌>>=◌, ◌>>◌) (spared _ _ _ _ _ _ _)
              | inr good ↦ rw (good, ◌>>=◌, ◌>>◌) (spared _ _ _ _ _ _ _)
            ])
  ]

  Agrees-trans : {u v w : Fixture K} → Agrees u v → Agrees v w → Agrees u w
  Agrees-trans g h = record {
    tmpfs = h.tmpfs ∙ g.tmpfs;
    nfsdfs = h.nfsdfs ∙ g.nfsdfs;
    nfsd = h.nfsd ∙ g.nfsd;
    client = h.client ∙ g.client;
    root = h.root ∙ g.root;
    refs = h.refs ∙ g.refs;
  }

  run_prog-Agrees :
      (prog : String) (args : List String) (w : Fixture K) → Agrees w (run_prog K prog args w).1
  unfolding run_prog
  run_prog-Agrees prog args w = elim (Bool-cases (str_eq w.hostbin "")) [
    | inl e ↦ rw (e, ◌>>=◌, ◌>>◌) (spared _ _ _ _ _ _ _)
    | inr e ↦
        rw (e, ◌>>=◌, ◌>>◌)
          (elim (Bool-cases (nonzero (hostbin_mount K w).0)) [
            | inl bad ↦ rw (bad, ◌>>=◌, ◌>>◌) (hostbin_mount-Agrees w)
            | inr good ↦
                rw (good, ◌>>=◌, ◌>>◌)
                  (Agrees-trans (hostbin_mount-Agrees w) (spared _ _ _ _ _ _ _))
          ])
  ]

  -- The invariant and the count after one call.
  abbrev Kept : SuiteOp → Fixture K → Type 0
  Kept op w =
      Shared (run_suite_op K op w)
      × ((run_suite_op K op w).fixture_refs ≡ users_after K op w w.fixture_refs)

  suite_init-Kept : (w : Fixture K) → Shared w → Kept suite_init w
  unfolding run_suite_op users_after
  suite_init-Kept w (idle none_left down) = elim (get_fixture-first w none_left down) [
    | inl (ok, refs, all, root) ↦ (in_use 0 refs all root, refs ∙ rw ok (omega arith))
    | inr (bad, refs, cleared, root, opts) ↦ (idle refs cleared, refs ∙ rw bad (sym none_left))
  ]
  suite_init-Kept w (in_use n refs all root) =
      let g = get_fixture-shared w n refs in
      let e = ap (λ (r : ℤ × Fixture K). r.1) g in
      (
        subst Shared (sym e) (
            in_use (suc n) refl
              (record {
                tmpfs = all.tmpfs;
                nfsdfs = all.nfsdfs;
                nfsd = all.nfsd;
                client = all.client;
              })
              root),
        ap (λ v. v.fixture_refs) e ∙ rw g (omega arith),
      )

  suite_exit-Kept : (w : Fixture K) → Shared w → Kept suite_exit w
  unfolding run_suite_op users_after
  suite_exit-Kept w (idle none_left down) =
      rw (put_fixture-none w none_left, run_suite_op)
        (Shared-Agrees (on_machine w _) (idle none_left down), omega arith)
  suite_exit-Kept w (in_use zero refs all root) =
      let p = put_fixture-last w refs in (idle p.1 p.0, p.1 ∙ omega arith)
  suite_exit-Kept w (in_use (suc n) refs all root) =
      rw (put_fixture-shared w n refs, run_suite_op)
        (
          in_use n refl
              (record {
                tmpfs = all.tmpfs;
                nfsdfs = all.nfsdfs;
                nfsd = all.nfsd;
                client = all.client;
              })
              root,
          omega arith,
        )

  run_suite_op-Kept : (op : SuiteOp) (w : Fixture K) → Shared w → Kept op w
  unfolding run_suite_op users_after export_opts
  run_suite_op-Kept suite_init w sh = suite_init-Kept w sh
  run_suite_op-Kept suite_exit w sh = suite_exit-Kept w sh
  run_suite_op-Kept test_init w sh = let g = case_init-Agrees w in (Shared-Agrees g sh, g.refs)
  run_suite_op-Kept undo_creds w sh = let g = restore_creds-Agrees w in (Shared-Agrees g sh, g.refs)
  run_suite_op-Kept (set_opts opts) w sh =
      (Shared-Agrees (spared w _ _ _ (K.strscpy 64 opts) _ _) sh, refl)
  run_suite_op-Kept (program prog args) w sh =
      let g = run_prog-Agrees prog args w in (Shared-Agrees g sh, g.refs)
  run_suite_op-Kept (as_user uid gid) w sh =
      let g = switch_creds-Agrees uid gid w in (Shared-Agrees g sh, g.refs)
  run_suite_op-Kept (as_euid uid) w sh =
      let g = seteuid-Agrees uid w in (Shared-Agrees g sh, g.refs)

  run_suite-Kept :
      (ops : List SuiteOp) (w : Fixture K)
      → Shared w
      → Shared (run_suite K ops w)
        × ((run_suite K ops w).fixture_refs ≡ users K ops w w.fixture_refs)
  unfolding run_suite users
  run_suite-Kept [] w sh = (sh, refl)
  run_suite-Kept (op ∷ ops) w sh =
      let k = run_suite_op-Kept op w sh in
      let r = run_suite-Kept ops (run_suite_op K op w) k.0 in
      (r.0, r.1 ∙ ap (users K ops (run_suite_op K op w)) k.1)

  Shared-is_mounted : (w : Fixture K) → Shared w → is_mounted K w ≡ ltb 0 w.fixture_refs
  unfolding is_mounted
  Shared-is_mounted w (idle none_left down) = down.client ∙ rw none_left
  Shared-is_mounted w (in_use n refs all root) = all.client ∙ rw refs (ground arith)

  -- From a state with no users and nothing up, after any sequence of suite_inits, failed ones
  -- included, suite_exits, also ones too many, and calls of test cases, the reference count is the
  -- number of users, and the client is mounted exactly if there are any.
  pub run_suite-is_mounted :
      (ops : List SuiteOp) (w : Fixture K)
      → w.fixture_refs ≡ 0
      → At 0 w
      → ((run_suite K ops w).fixture_refs ≡ users K ops w 0)
        × (is_mounted K (run_suite K ops w) ≡ ltb 0 (users K ops w 0))
  run_suite-is_mounted ops w nobody down =
      let k = run_suite-Kept ops w (idle nobody down) in
      let n = k.1 ∙ ap (users K ops w) nobody in
      (n, Shared-is_mounted (run_suite K ops w) k.0 ∙ ap (ltb 0) n)
