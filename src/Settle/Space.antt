-- ===== src/Settle/Space.antt =====
-- Waiting for free space: what each answer of xfs_wait_for_free_bytes rests on.
use nfsplayground.Base.{
  ℕ, zero, suc, ◌≤◌, ◌<◌, ◌≡◌, refl, ◌⊎◌, inl, inr, true, false, ℤ, pos, nonzero, ◌>>=◌, ◌>>◌, leb,
  leb→le, arith, Bool-cases, e_timedout,
}
use nfsplayground.Kernel.{Kernel, Kstatfs}
use nfsplayground.Paths.{statfs}
use nfsplayground.Settle.{mnt, free_bytes, wait_loop, wait_for_free_bytes}

module _ (K : Kernel) where
  -- One poll: the flush, and the statfs of the client mount.
  abbrev pub poll : Kstatfs → K.Machine → (ℤ × Kstatfs) × K.Machine
  poll st s = statfs K st mnt (K.flush_delayed_fput s)

  -- `k` polls in a row that succeeded and found too little, each with its sleep.
  pub data ShortPolls (bytes : ℕ) : ℕ → Kstatfs → K.Machine → Kstatfs → K.Machine → Type 0 where
    none : {st : Kstatfs} {s : K.Machine} → ShortPolls bytes 0 st s st s
    more :
        {k : ℕ} {st st' : Kstatfs} {s s' : K.Machine}
        → nonzero (poll st s).0.0 ≡ false
        → free_bytes (poll st s).0.1 < bytes
        → ShortPolls bytes k (poll st s).0.1 (K.msleep 100 (poll st s).1) st' s'
        → ShortPolls bytes (suc k) st s st' s'

  pub record Polled (tries bytes : ℕ) (st : Kstatfs) (s : K.Machine) (err : ℤ) (s' : K.Machine)
      : Type 0 where
    pub rounds : ℕ
    pub filled : Kstatfs
    pub waited : K.Machine
    pub short : ShortPolls bytes rounds st s filled waited
    pub last :
        ((rounds < tries)
          × (nonzero err ≡ true)
          × (err ≡ (poll filled waited).0.0)
          × (s' ≡ (poll filled waited).1))
        ⊎ ((rounds < tries)
            × (err ≡ pos 0)
            × (nonzero (poll filled waited).0.0 ≡ false)
            × (bytes ≤ free_bytes (poll filled waited).0.1)
            × (s' ≡ (poll filled waited).1))
        ⊎ ((rounds ≡ tries) × (err ≡ e_timedout) × (s' ≡ waited))

  Polled-more :
      {tries bytes : ℕ} {st : Kstatfs} {s : K.Machine} {err : ℤ} {s' : K.Machine}
      → nonzero (poll st s).0.0 ≡ false
      → free_bytes (poll st s).0.1 < bytes
      → Polled tries bytes (poll st s).0.1 (K.msleep 100 (poll st s).1) err s'
      → Polled (suc tries) bytes st s err s'
  Polled-more good few g = record {
    rounds = suc g.rounds;
    filled = g.filled;
    waited = g.waited;
    short = more good few g.short;
    last = elim g.last [
      | inl (less, bad, run, end) ↦ inl (omega arith, bad, run, end)
      | inr (inl (less, ok, fine, there, end)) ↦ inr (inl (omega arith, ok, fine, there, end))
      | inr (inr (all, late, still)) ↦ inr (inr (omega arith, late, still))
    ];
  }

  wait_loop-Polled :
      (tries bytes : ℕ) (st : Kstatfs) (s : K.Machine)
      → Polled tries bytes st s (wait_loop K tries bytes st s).0 (wait_loop K tries bytes st s).1
  unfolding wait_loop
  wait_loop-Polled zero bytes st s = record {
    rounds = 0;
    filled = st;
    waited = s;
    short = none;
    last = inr (inr (refl, refl, refl));
  }
  wait_loop-Polled (suc tries) bytes st s =
      let r = poll st s in
      elim (Bool-cases (nonzero r.0.0)) [
        | inl bad ↦
            rw (bad, wait_loop, ◌>>◌, ◌>>=◌)
              (record {
                rounds = 0;
                filled = st;
                waited = s;
                short = none;
                last = inl (omega arith, bad, refl, refl);
              })
        | inr good ↦
            rw (good, wait_loop, ◌>>◌, ◌>>=◌)
              (elim (Bool-cases (leb bytes (free_bytes r.0.1))) [
                | inl there ↦ rw there (record {
                  rounds = 0;
                  filled = st;
                  waited = s;
                  short = none;
                  last = inr (inl (omega arith, refl, good, leb→le _ _ there, refl));
                })
                | inr few ↦ rw few (
                    Polled-more good (ground arith)
                      (wait_loop-Polled tries bytes r.0.1 (K.msleep 100 r.1)))
              ])
      ]

  -- xfs_wait_for_free_bytes polls at most 100 times, with a flush before each poll and a sleep after
  -- each that finds too little. It returns 0 at the first poll whose available blocks times their
  -- size, modulo 2 ^ 64, reach what is wanted; the error of the first poll that fails; and
  -- -ETIMEDOUT after 100 polls that all succeeded and found too little.
  pub wait_for_free_bytes-Polled :
      (bytes : ℕ) (st : Kstatfs) (s : K.Machine)
      → Polled 100 bytes st s
          (wait_for_free_bytes K bytes st s).0
          (wait_for_free_bytes K bytes st s).1
  unfolding wait_for_free_bytes
  wait_for_free_bytes-Polled bytes st s = wait_loop-Polled 100 bytes st s
