-- ===== src/Settle/Rounds.antt =====
-- How many rounds the waits make, and what ends them.
use nfsplayground.Base.{
  ℕ, zero, suc, ◌<◌, ◌≡◌, ◌≢◌, refl, ◌∙◌, ◌⊎◌, inl, inr, String, false, ℤ, State, ◌==ℤ◌, ==ℤ_iff,
  ne_of_==ℤ, if◌then◌else◌, arith, Bool-cases, e_notempty,
}
use nfsplayground.Kernel.{Kernel}
use nfsplayground.Paths.{rmdir}
use nfsplayground.Settle.{settle_loop, rmdir_settled}

module _ (K : Kernel) where
  -- `k` rounds in a row that found the operation busy, each with its flush and its sleep.
  pub data BusyRounds (busy : ℤ) (act : State K.Machine ℤ)
      : ℕ → K.Machine → K.Machine → Type 0 where
    none : {s : K.Machine} → BusyRounds busy act 0 s s
    more :
        {k : ℕ} {s t : K.Machine}
        → (act (K.flush_delayed_fput s)).0 ≡ busy
        → BusyRounds busy act k (K.msleep 100 (act (K.flush_delayed_fput s)).1) t
        → BusyRounds busy act (suc k) s t

  -- The loop ended at a round that was not busy, or after `tries` that all were.
  pub record Settled (tries : ℕ) (busy : ℤ) (act : State K.Machine ℤ) (s : K.Machine) (err : ℤ)
      (s' : K.Machine) : Type 0 where
    pub rounds : ℕ
    pub waited : K.Machine
    pub were_busy : BusyRounds busy act rounds s waited
    pub last :
        ((rounds < tries) × (err ≢ busy) × ((act (K.flush_delayed_fput waited)) ≡ (err, s')))
        ⊎ ((rounds ≡ tries) × (err ≡ busy) × (s' ≡ waited))

  Settled-more :
      {tries : ℕ} {busy : ℤ} {act : State K.Machine ℤ} {s : K.Machine} {err : ℤ} {s' : K.Machine}
      → (act (K.flush_delayed_fput s)).0 ≡ busy
      → Settled tries busy act (K.msleep 100 (act (K.flush_delayed_fput s)).1) err s'
      → Settled (suc tries) busy act s err s'
  Settled-more e g = record {
    rounds = suc g.rounds;
    waited = g.waited;
    were_busy = more e g.were_busy;
    last = elim g.last [
      | inl (few, other, run) ↦ inl (omega arith, other, run)
      | inr (all, same, still) ↦ inr (omega arith, same, still)
    ];
  }

  settle_loop-done :
      (tries : ℕ) (busy err : ℤ) (act : State K.Machine ℤ) (s : K.Machine)
      → (err ==ℤ busy) ≡ false
      → settle_loop K tries busy act err s ≡ (err, s)
  unfolding settle_loop
  settle_loop-done zero busy err act s other = refl
  settle_loop-done (suc tries) busy err act s other = rw (other, settle_loop)

  settle_loop-zero :
      (busy err : ℤ) (act : State K.Machine ℤ) (s : K.Machine)
      → settle_loop K 0 busy act err s ≡ (err, s)
  unfolding settle_loop
  settle_loop-zero busy err act s = refl

  pub settle_loop-round :
      (tries : ℕ) (busy : ℤ) (act : State K.Machine ℤ) (s : K.Machine)
      → let r = act (K.flush_delayed_fput s) in
        settle_loop K (suc tries) busy act busy s
        ≡ settle_loop K tries busy act r.0 (if r.0 ==ℤ busy then K.msleep 100 r.1 else r.1)
  unfolding settle_loop
  settle_loop-round tries busy act s =
      let r = act (K.flush_delayed_fput s) in
      rw ((==ℤ_iff busy busy).1 refl, settle_loop)
        (elim (Bool-cases (r.0 ==ℤ busy)) [ inl again ↦ rw again | inr other ↦ rw other ])

  -- A first attempt that is not busy is the only one.
  pub settle_loop-once :
      (tries : ℕ) (busy : ℤ) (act : State K.Machine ℤ) (s : K.Machine)
      → ((act (K.flush_delayed_fput s)).0 ==ℤ busy) ≡ false
      → settle_loop K (suc tries) busy act busy s ≡ act (K.flush_delayed_fput s)
  settle_loop-once tries busy act s other =
      let r = act (K.flush_delayed_fput s) in
      settle_loop-round tries busy act s ∙ rw other (settle_loop-done tries busy r.0 act r.1 other)

  pub settle_loop-Settled :
      (tries : ℕ) (busy : ℤ) (act : State K.Machine ℤ) (s : K.Machine)
      → Settled tries busy act s
          (settle_loop K tries busy act busy s).0
          (settle_loop K tries busy act busy s).1
  settle_loop-Settled zero busy act s =
      rw settle_loop-zero
        (record { rounds = 0; waited = s; were_busy = none; last = inr (refl, refl, refl) })
  settle_loop-Settled (suc tries) busy act s =
      let r = act (K.flush_delayed_fput s) in
      rw settle_loop-round (elim (Bool-cases (r.0 ==ℤ busy)) [
        | inl again ↦
            let e = (==ℤ_iff r.0 busy).0 again in
            rw again (rw e (Settled-more e (settle_loop-Settled tries busy act (K.msleep 100 r.1))))
        | inr other ↦ rw other (
            rw (settle_loop-done tries busy r.0 act r.1 other) (record {
              rounds = 0;
              waited = s;
              were_busy = none;
              last = inl (omega arith, ne_of_==ℤ r.0 busy other, refl);
            }))
      ])

  -- A loop that ended busy was busy in every round.
  pub Settled-all_busy :
      {tries : ℕ} {busy : ℤ} {act : State K.Machine ℤ} {s : K.Machine} {err : ℤ} {s' : K.Machine}
      → Settled tries busy act s err s'
      → err ≡ busy
      → BusyRounds busy act tries s s'
  Settled-all_busy g e = elim g.last [
    | inl (few, other, run) ↦ absurd (other e)
    | inr (all, same, still) ↦ rw still (rw all at g.were_busy)
  ]

  -- xfs_rmdir_settled makes at most 20 attempts, each behind a flush of the delayed fputs and all but
  -- the last that it makes behind a sleep; it returns the first result other than -ENOTEMPTY, and
  -- -ENOTEMPTY only after 20 attempts that all returned it.
  pub rmdir_settled-Settled :
      (path : String) (s : K.Machine)
      → Settled 20 e_notempty (rmdir K path) s (rmdir_settled K path s).0 (rmdir_settled K path s).1
  unfolding rmdir_settled
  rmdir_settled-Settled path s = settle_loop-Settled 20 e_notempty (rmdir K path) s
