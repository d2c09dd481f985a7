-- ===== src/Creds/Bracket.antt =====
-- Credentials are given back: the task's own are current again after any use of these functions.
use nfsplayground.Base.{
  ℕ, ◌+◌, ◌-◌, ◌≡◌, refl, ◌∙◌, String, none, some, List, [], ◌∷◌, pos, nonzero, after, ◌>>=◌, arith,
  ap, Option-cases, Bool-cases, inl, inr, ◌≢◌, e_busy, e_nomem, ◌==◌, ==_iff, subst, sym,
}
use nfsplayground.Kernel.{Kernel, Cred}
use nfsplayground.Fixture.{Fixture, sys}
use Prim.Native.Nat.{bit_or}
use nfsplayground.Creds.{
  may_access, lookup_follow, switch_creds, restore_creds, seteuid, access, check_access, switched,
  with_euid, access_cred,
}

-- What the kernel documents of creds, where `owned` counts the references that this code holds: a
-- prepared cred is a copy that is not the current one, installing one returns the one before, and
-- nothing else changes which is current.
pub record CredLaws (K : Kernel) (owned : K.Machine → ℕ) : Type 0 where
  pub prepare_none :
      (s : K.Machine)
      → (K.prepare_creds s).0 ≡ none
      → (K.current_cred (K.prepare_creds s).1 ≡ K.current_cred s)
        × (owned (K.prepare_creds s).1 ≡ owned s)
  pub prepare_some :
      (s : K.Machine) (c : K.CredRef)
      → (K.prepare_creds s).0 ≡ some c
      → (K.current_cred (K.prepare_creds s).1 ≡ K.current_cred s)
        × (owned (K.prepare_creds s).1 ≡ owned s + 1)
        × (K.read_cred c (K.prepare_creds s).1 ≡ K.read_cred (K.current_cred s) s)
  pub write_cred_keeps :
      (c : K.CredRef) (v : Cred) (s : K.Machine)
      → (K.current_cred (K.write_cred c v s) ≡ K.current_cred s)
        × (owned (K.write_cred c v s) ≡ owned s)
        × (K.read_cred c (K.write_cred c v s) ≡ v)
  pub override_creds_lem :
      (c : K.CredRef) (s : K.Machine)
      → ((K.override_creds c s).0 ≡ K.current_cred s)
        × (K.current_cred (K.override_creds c s).1 ≡ c)
        × (owned (K.override_creds c s).1 ≡ owned s)
        × (K.read_cred c (K.override_creds c s).1 ≡ K.read_cred c s)
  pub revert_creds_lem :
      (c : K.CredRef) (s : K.Machine)
      → (K.current_cred (K.revert_creds c s) ≡ c) × (owned (K.revert_creds c s) ≡ owned s)
  pub put_cred_lem :
      (c : K.CredRef) (s : K.Machine)
      → (K.current_cred (K.put_cred c s) ≡ K.current_cred s)
        × (owned (K.put_cred c s) ≡ owned s - 1)
  pub abort_creds_lem :
      (c : K.CredRef) (s : K.Machine)
      → (K.current_cred (K.abort_creds c s) ≡ K.current_cred s)
        × (owned (K.abort_creds c s) ≡ owned s - 1)
  pub fix_setuid_keeps :
      (c old : K.CredRef) (s : K.Machine)
      → (K.current_cred (K.security_task_fix_setuid c old s).1 ≡ K.current_cred s)
        × (owned (K.security_task_fix_setuid c old s).1 ≡ owned s)
  pub kern_path_keeps :
      (path : String) (flags : ℕ) (s : K.Machine)
      → (K.current_cred (K.kern_path path flags s).1 ≡ K.current_cred s)
        × (owned (K.kern_path path flags s).1 ≡ owned s)
  pub inode_permission_keeps :
      (p : K.PathRef) (mode : ℕ) (s : K.Machine)
      → (K.current_cred (K.inode_permission p mode s).1 ≡ K.current_cred s)
        × (owned (K.inode_permission p mode s).1 ≡ owned s)
  pub path_put_keeps :
      (p : K.PathRef) (s : K.Machine)
      → (K.current_cred (K.path_put p s) ≡ K.current_cred s) × (owned (K.path_put p s) ≡ owned s)

-- Where the task stands: on its own cred `home`, with `n` references held before; or inside a switch.
pub data Stands (K : Kernel) (owned : K.Machine → ℕ) (home : K.CredRef) (n : ℕ) (w : Fixture K)
    : Type 0 where
  outside :
      w.saved_creds ≡ none
      → w.override ≡ none
      → K.current_cred w.machine ≡ home
      → owned w.machine ≡ n
      → Stands K owned home n w
  inside :
      (c : K.CredRef)
      → w.saved_creds ≡ some home
      → w.override ≡ some c
      → K.current_cred w.machine ≡ c
      → owned w.machine ≡ n + 1
      → Stands K owned home n w

pub data CredOp : Type 0 where
  switch : ℕ → ℕ → CredOp
  set_euid : ℕ → CredOp
  restore : CredOp
  check : String → ℕ → CredOp

module _ (K : Kernel) where
  run_op : CredOp → Fixture K → Fixture K
  run_op (switch uid gid) = after (switch_creds K uid gid)
  run_op (set_euid uid) = after (seteuid K uid)
  run_op restore = after (restore_creds K)
  run_op (check path mode) = after (sys (access K path mode))

  pub run_ops : List CredOp → Fixture K → Fixture K
  run_ops [] w = w
  run_ops (op ∷ ops) w = run_ops ops (run_op op w)

-- A cred whose ids are all the given ones, and that has no capabilities.
abbrev pub IsUser : ℕ → ℕ → Cred → Type 0
IsUser user group c =
    (c.uid ≡ user)
    × (c.euid ≡ user)
    × (c.suid ≡ user)
    × (c.fsuid ≡ user)
    × (c.gid ≡ group)
    × (c.egid ≡ group)
    × (c.sgid ≡ group)
    × (c.fsgid ≡ group)
    × (c.cap_inheritable ≡ 0)
    × (c.cap_permitted ≡ 0)
    × (c.cap_effective ≡ 0)

switched-IsUser : (uid gid : ℕ) (c : Cred) → IsUser uid gid (switched uid gid c)
unfolding switched
switched-IsUser uid gid c = (refl, refl, refl, refl, refl, refl, refl, refl, refl, refl, refl)

-- The cred that access(2) checks with, for a task with the cred `own`.
abbrev pub AsRealUser : Cred → Cred → Type 0
AsRealUser own c =
    (c.fsuid ≡ own.uid)
    × (c.fsgid ≡ own.gid)
    × (own.uid ≡ 0 → c.cap_effective ≡ own.cap_permitted)
    × (own.uid ≢ 0 → c.cap_effective ≡ 0)
    × (c.uid ≡ own.uid)
    × (c.euid ≡ own.euid)
    × (c.suid ≡ own.suid)
    × (c.gid ≡ own.gid)
    × (c.egid ≡ own.egid)
    × (c.sgid ≡ own.sgid)
    × (c.cap_permitted ≡ own.cap_permitted)

access_cred-AsRealUser : (own : Cred) → AsRealUser own (access_cred own)
unfolding access_cred
access_cred-AsRealUser own = (
  refl,
  refl,
  λ root. rw ((==_iff own.uid 0).1 root) refl,
  λ other. elim (Bool-cases (own.uid == 0)) [
    | inl e ↦ absurd (other ((==_iff own.uid 0).0 e))
    | inr e ↦ rw e refl
  ],
  refl,
  refl,
  refl,
  refl,
  refl,
  refl,
  refl,
)

-- A switch where a cred is granted, where none is, and within another switch.
abbrev pub Switching : (K : Kernel) → ℕ → ℕ → Fixture K → Type 0
Switching K uid gid w =
    let r = switch_creds K uid gid w in
    ((c : K.CredRef)
      → w.saved_creds ≡ none
      → (K.prepare_creds w.machine).0 ≡ some c
      → (r.0 ≡ pos 0) × IsUser uid gid (K.read_cred (K.current_cred r.1.machine) r.1.machine))
    × (w.saved_creds ≡ none
        → (K.prepare_creds w.machine).0 ≡ none
        → (r.0 ≡ e_nomem) × (K.current_cred r.1.machine ≡ K.current_cred w.machine))
    × ((old : K.CredRef) → w.saved_creds ≡ some old → (r.0 ≡ e_busy) × (r.1 ≡ w))

module _ {K : Kernel} {owned : K.Machine → ℕ} (L : CredLaws K owned) where
  switch_creds-Stands :
      {home : K.CredRef} {n : ℕ} (uid gid : ℕ) (w : Fixture K)
      → Stands K owned home n w
      → Stands K owned home n (switch_creds K uid gid w).1
  unfolding switch_creds
  switch_creds-Stands uid gid w (inside c sv ov cur own) = rw (sv, ◌>>=◌) (inside c refl ov cur own)
  switch_creds-Stands {home} uid gid w (outside sv ov cur own) =
      rw (sv, ◌>>=◌)
        (elim (Option-cases (K.prepare_creds w.machine).0) [
          | inl nothing ↦
              let p = L.prepare_none w.machine nothing in
              rw (nothing, ◌>>=◌) (outside refl ov (p.0 ∙ cur) (p.1 ∙ own))
          | inr (c, got) ↦
              let p = L.prepare_some w.machine c got in
              let s1 = (K.prepare_creds w.machine).1 in
              let v = switched uid gid (K.read_cred c s1) in
              let q = L.write_cred_keeps c v s1 in
              let o = L.override_creds_lem c (K.write_cred c v s1) in
              rw (got, ◌>>=◌)
                (inside c (ap some (o.0 ∙ q.0 ∙ p.0 ∙ cur)) refl o.1
                  (omega (arith, o.2, q.1, p.1, own)))
        ])

  seteuid-Stands :
      {home : K.CredRef} {n : ℕ} (uid : ℕ) (w : Fixture K)
      → Stands K owned home n w
      → Stands K owned home n (seteuid K uid w).1
  unfolding seteuid
  seteuid-Stands uid w (inside c sv ov cur own) = rw (sv, ◌>>=◌) (inside c refl ov cur own)
  seteuid-Stands {home} uid w (outside sv ov cur own) =
      rw (sv, ◌>>=◌)
        (elim (Option-cases (K.prepare_creds w.machine).0) [
          | inl nothing ↦
              let p = L.prepare_none w.machine nothing in
              rw (nothing, ◌>>=◌) (outside refl ov (p.0 ∙ cur) (p.1 ∙ own))
          | inr (c, got) ↦
              let p = L.prepare_some w.machine c got in
              let s1 = (K.prepare_creds w.machine).1 in
              let v = with_euid uid (K.read_cred c s1) in
              let q = L.write_cred_keeps c v s1 in
              let old = K.current_cred w.machine in
              let fix = K.security_task_fix_setuid c old (K.write_cred c v s1) in
              let f = L.fix_setuid_keeps c old (K.write_cred c v s1) in
              let o = L.override_creds_lem c fix.1 in
              let a = L.abort_creds_lem c fix.1 in
              rw (got, ◌>>=◌)
                (elim (Bool-cases (nonzero fix.0)) [
                  | inl bad ↦ rw bad (
                      outside refl ov (a.0 ∙ f.0 ∙ q.0 ∙ p.0 ∙ cur)
                        (omega (arith, a.1, f.1, q.1, p.1, own)))
                  | inr good ↦ rw good (
                      inside c (ap some (o.0 ∙ f.0 ∙ q.0 ∙ p.0 ∙ cur)) refl o.1
                        (omega (arith, o.2, f.1, q.1, p.1, own)))
                ])
        ])

  restore_creds-outside :
      {home : K.CredRef} {n : ℕ} (w : Fixture K)
      → Stands K owned home n w
      → let w' = (restore_creds K w).1 in
        (w'.saved_creds ≡ none)
        × (w'.override ≡ none)
        × (K.current_cred w'.machine ≡ home)
        × (owned w'.machine ≡ n)
  unfolding restore_creds
  restore_creds-outside w (outside sv ov cur own) = rw (sv, ◌>>=◌) (refl, ov, cur, own)
  restore_creds-outside {home} w (inside c sv ov cur own) =
      let r = L.revert_creds_lem home w.machine in
      let p = L.put_cred_lem c (K.revert_creds home w.machine) in
      rw (sv, ov, ◌>>=◌) (refl, refl, p.0 ∙ r.0, omega (arith, p.1, r.1, own))

  check_access-keeps :
      (path : String) (mode : ℕ) (s : K.Machine)
      → (K.current_cred (check_access K path mode s).1 ≡ K.current_cred s)
        × (owned (check_access K path mode s).1 ≡ owned s)
  unfolding check_access
  check_access-keeps path mode s =
      let r = K.kern_path path lookup_follow s in
      let k = L.kern_path_keeps path lookup_follow s in
      let m = bit_or mode may_access in
      let i = L.inode_permission_keeps r.0.1 m r.1 in
      let p = L.path_put_keeps r.0.1 (K.inode_permission r.0.1 m r.1).1 in
      elim (Bool-cases (nonzero r.0.0)) [
        | inl bad ↦ rw bad k
        | inr good ↦ rw good (p.0 ∙ i.0 ∙ k.0, p.1 ∙ i.1 ∙ k.1)
      ]

  access-keeps :
      (path : String) (mode : ℕ) (s : K.Machine)
      → (K.current_cred (access K path mode s).1 ≡ K.current_cred s)
        × (owned (access K path mode s).1 ≡ owned s)
  unfolding access
  access-keeps path mode s = elim (Option-cases (K.prepare_creds s).0) [
    | inl nothing ↦ rw (nothing, ◌>>=◌) (L.prepare_none s nothing)
    | inr (c, got) ↦
        let s1 = (K.prepare_creds s).1 in
        let v = access_cred (K.read_cred c s1) in
        let s2 = K.write_cred c v s1 in
        let s3 = (K.override_creds c s2).1 in
        let s4 = (check_access K path mode s3).1 in
        let home = (K.override_creds c s2).0 in
        let p = L.prepare_some s c got in
        let q = L.write_cred_keeps c v s1 in
        let o = L.override_creds_lem c s2 in
        let k = check_access-keeps path mode s3 in
        let r = L.revert_creds_lem home s4 in
        let u = L.put_cred_lem c (K.revert_creds home s4) in
        rw (got, ◌>>=◌) (u.0 ∙ r.0 ∙ o.0 ∙ q.0 ∙ p.0, omega (arith, u.1, r.1, k.1, o.2, q.1, p.1))
  ]

  run_op-Stands :
      {home : K.CredRef} {n : ℕ} (op : CredOp) (w : Fixture K)
      → Stands K owned home n w
      → Stands K owned home n (run_op K op w)
  unfolding run_op
  run_op-Stands (switch uid gid) w st = switch_creds-Stands uid gid w st
  run_op-Stands (set_euid uid) w st = seteuid-Stands uid w st
  run_op-Stands restore w st = let r = restore_creds-outside w st in outside r.0 r.1 r.2 r.3
  run_op-Stands (check path mode) w (outside sv ov cur own) =
      let k = access-keeps path mode w.machine in outside sv ov (k.0 ∙ cur) (k.1 ∙ own)
  run_op-Stands (check path mode) w (inside c sv ov cur own) =
      let k = access-keeps path mode w.machine in inside c sv ov (k.0 ∙ cur) (k.1 ∙ own)

  run_ops-Stands :
      {home : K.CredRef} {n : ℕ} (ops : List CredOp) (w : Fixture K)
      → Stands K owned home n w
      → Stands K owned home n (run_ops K ops w)
  unfolding run_ops
  run_ops-Stands [] w st = st
  run_ops-Stands (op ∷ ops) w st = run_ops-Stands ops (run_op K op w) (run_op-Stands op w st)

  -- From a state with no switch in force, any sequence of switches, seteuids, restores and access
  -- checks, failed ones included, followed by a restore leaves the task with the cred it had, holding
  -- as many cred references as it held, and with no switch in force.
  pub restore_creds-run_ops :
      (ops : List CredOp) (w : Fixture K)
      → w.saved_creds ≡ none
      → w.override ≡ none
      → let w' = (restore_creds K (run_ops K ops w)).1 in
        (w'.saved_creds ≡ none)
        × (w'.override ≡ none)
        × (K.current_cred w'.machine ≡ K.current_cred w.machine)
        × (owned w'.machine ≡ owned w.machine)
  restore_creds-run_ops ops w sv ov =
      restore_creds-outside (run_ops K ops w) (run_ops-Stands ops w (outside sv ov refl refl))

  -- With no switch in force and a cred granted, xfs_switch_creds returns 0 and each of the eight ids
  -- of the current cred is the given one, and it has no capabilities; if the kernel grants no cred it
  -- returns -ENOMEM and the current cred is unchanged; and within a switch it returns -EBUSY and
  -- changes nothing.
  pub switch_creds-cred : (uid gid : ℕ) (w : Fixture K) → Switching K uid gid w
  unfolding switch_creds switched
  switch_creds-cred uid gid w = (
    λ c sv got.
        let p = L.prepare_some w.machine c got in
        let s1 = (K.prepare_creds w.machine).1 in
        let v = switched uid gid (K.read_cred c s1) in
        let q = L.write_cred_keeps c v s1 in
        let o = L.override_creds_lem c (K.write_cred c v s1) in
        (
          rw (sv, ◌>>=◌) (rw (got, ◌>>=◌)),
          rw (sv, ◌>>=◌)
              (rw (got, ◌>>=◌)
                (rw o.1 (
                  subst (IsUser uid gid) (sym (o.3 ∙ q.2))
                    (switched-IsUser uid gid (K.read_cred c s1))))),
        ),
    λ sv nothing. (
      rw (sv, ◌>>=◌) (rw (nothing, ◌>>=◌)),
      rw (sv, ◌>>=◌) (rw (nothing, ◌>>=◌) (L.prepare_none w.machine nothing).0),
    ),
    λ old sv. (rw (sv, ◌>>=◌), rw (sv, ◌>>=◌)),
  )

  -- Where a cred is granted, the lookup and the permission check of xfs_access run under a cred that
  -- has the ids of the task's own, but for an fsuid and an fsgid that are its real ids, and as
  -- effective capabilities the permitted ones if the real user is root, and else none; and their
  -- result is what xfs_access returns.
  pub access-checks :
      (path : String) (mode : ℕ) (s : K.Machine) (c : K.CredRef)
      → (K.prepare_creds s).0 ≡ some c
      → let own = K.read_cred (K.current_cred s) s in
        (s' : K.Machine) × AsRealUser own (K.read_cred (K.current_cred s') s')
        × ((access K path mode s).0 ≡ (check_access K path mode s').0)
  unfolding access
  access-checks path mode s c got =
      let p = L.prepare_some s c got in
      let s1 = (K.prepare_creds s).1 in
      let v = access_cred (K.read_cred c s1) in
      let q = L.write_cred_keeps c v s1 in
      let o = L.override_creds_lem c (K.write_cred c v s1) in
      let own = K.read_cred (K.current_cred s) s in
      (
        (K.override_creds c (K.write_cred c v s1)).1,
        rw o.1 (
            subst (AsRealUser own) (sym (o.3 ∙ q.2 ∙ ap access_cred p.2))
              (access_cred-AsRealUser own)),
        rw (got, ◌>>=◌),
      )
