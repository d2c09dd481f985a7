-- ===== src/Mounts/Stack.antt =====
-- Unmounting: the lazy detach of a mount that stays busy, and the mounts stacked on /mnt/scratch.
use nfsplayground.Base.{
  ℕ, zero, suc, ◌-◌, ◌<◌, ◌≤◌, ◌≡◌, ◌≢◌, refl, ◌∙◌, ◌⊎◌, inl, inr, String, true, false, ℤ, pos,
  nonzero, e_busy, e_inval, ◌>>=◌, ◌==ℤ◌, ==ℤ_iff, ne_of_==ℤ, arith, Bool-cases,
}
use nfsplayground.Kernel.{Kernel}
use nfsplayground.Settle.{settle_loop}
use nfsplayground.Settle.Rounds.{
  BusyRounds, Settled, settle_loop-once, settle_loop-Settled, Settled-all_busy,
}
use nfsplayground.Mounts.{
  scratch_mnt, mnt_detach, umount, umount_settled, scratch_umount_loop, scratch_umount,
}

module _ (K : Kernel) where
  -- An unmount that was busy 20 times over: what the lookup for the lazy detach finds decides.
  pub record Detached (mountpoint : String) (s : K.Machine) (err : ℤ) (s' : K.Machine)
      : Type 0 where
    pub waited : K.Machine
    pub were_busy : BusyRounds K e_busy (umount K mountpoint) 20 s waited
    pub last :
        let r = K.kern_path mountpoint 0 waited in
        ((nonzero r.0.0 ≡ true) × (err ≡ e_busy) × (s' ≡ r.1))
        ⊎ ((nonzero r.0.0 ≡ false) × (K.path_umount r.0.1 mnt_detach r.1 ≡ (err, s')))

  -- xfs_umount_settled returns the first result of at most 20 unmounts that is not -EBUSY, having
  -- detached nothing; exactly if all 20 were busy it looks the mount point up again, and returns
  -- -EBUSY if it is not there and the result of a lazy detach if it is.
  pub umount_settled-Detached :
      (mountpoint : String) (s : K.Machine)
      → let r = umount_settled K mountpoint s in
        ((r.0 ≢ e_busy) × Settled K 20 e_busy (umount K mountpoint) s r.0 r.1)
        ⊎ Detached mountpoint s r.0 r.1
  unfolding umount_settled
  umount_settled-Detached mountpoint s =
      let u = settle_loop K 20 e_busy (umount K mountpoint) e_busy s in
      let g = settle_loop-Settled K 20 e_busy (umount K mountpoint) s in
      elim (Bool-cases (u.0 ==ℤ e_busy)) [
        | inr other ↦ rw (other, ◌>>=◌) (inl (ne_of_==ℤ u.0 e_busy other, g))
        | inl busy ↦
            let e = (==ℤ_iff u.0 e_busy).0 busy in
            let all = Settled-all_busy K g e in
            let l = K.kern_path mountpoint 0 u.1 in
            rw (busy, ◌>>=◌)
              (elim (Bool-cases (nonzero l.0.0)) [
                | inl gone ↦
                    rw (gone, ◌>>=◌)
                      (inr (record { waited = u.1; were_busy = all; last = inl (gone, e, refl) }))
                | inr there ↦
                    rw (there, ◌>>=◌)
                      (inr (record { waited = u.1; were_busy = all; last = inr (there, refl) }))
              ])
      ]

module _ (K : Kernel) (mountpoint : String) (s : K.Machine) where
  umount_settled-first :
      let u = settle_loop K 20 e_busy (umount K mountpoint) e_busy s in
      (u.0 ==ℤ e_busy) ≡ false → umount_settled K mountpoint s ≡ u
  unfolding umount_settled
  umount_settled-first other = rw (other, ◌>>=◌)

  -- A first unmount that is not busy is the only one.
  umount_settled-once :
      ((umount K mountpoint (K.flush_delayed_fput s)).0 ==ℤ e_busy) ≡ false
      → umount_settled K mountpoint s ≡ umount K mountpoint (K.flush_delayed_fput s)
  umount_settled-once other =
      let once = settle_loop-once K 19 e_busy (umount K mountpoint) s other in
      umount_settled-first (rw once other) ∙ once

module _ (K : Kernel) where
  scratch_umount_loop-err :
      (tries : ℕ) (err : ℤ) (s : K.Machine)
      → nonzero err ≡ true
      → scratch_umount_loop K tries err s ≡ (err, s)
  unfolding scratch_umount_loop
  scratch_umount_loop-err zero err s bad = refl
  scratch_umount_loop-err (suc tries) err s bad = rw (bad, scratch_umount_loop)

-- What the kernel documents of mounts stacked on the scratch directory, none of them busy:
-- path_umount takes the topmost off, and is refused on a directory that is no mount point.
pub record StackLaws (K : Kernel) (stacked : K.Machine → ℕ) : Type 0 where
  pub stacked-flush : (s : K.Machine) → stacked (K.flush_delayed_fput s) ≡ stacked s
  pub stacked-kern_path :
      (s : K.Machine)
      → ((K.kern_path scratch_mnt 0 s).0.0 ≡ pos 0)
        × (stacked (K.kern_path scratch_mnt 0 s).1 ≡ stacked s)
  pub path_umount_top :
      (s : K.Machine) (n : ℕ)
      → let l = K.kern_path scratch_mnt 0 s in
        stacked l.1 ≡ suc n
        → ((K.path_umount l.0.1 0 l.1).0 ≡ pos 0) × (stacked (K.path_umount l.0.1 0 l.1).1 ≡ n)
  pub path_umount_none :
      (s : K.Machine)
      → let l = K.kern_path scratch_mnt 0 s in
        stacked l.1 ≡ 0
        → ((K.path_umount l.0.1 0 l.1).0 ≡ e_inval) × (stacked (K.path_umount l.0.1 0 l.1).1 ≡ 0)

module _ {K : Kernel} {stacked : K.Machine → ℕ} (L : StackLaws K stacked) where
  umount-top :
      (s : K.Machine) (n : ℕ)
      → stacked s ≡ suc n
      → ((umount K scratch_mnt s).0 ≡ pos 0) × (stacked (umount K scratch_mnt s).1 ≡ n)
  unfolding umount
  umount-top s n h =
      let k = L.stacked-kern_path s in rw (k.0, ◌>>=◌) (L.path_umount_top s n (k.1 ∙ h))

  umount-none :
      (s : K.Machine)
      → stacked s ≡ 0
      → ((umount K scratch_mnt s).0 ≡ e_inval) × (stacked (umount K scratch_mnt s).1 ≡ 0)
  unfolding umount
  umount-none s h =
      let k = L.stacked-kern_path s in rw (k.0, ◌>>=◌) (L.path_umount_none s (k.1 ∙ h))

  umount_settled-top :
      (s : K.Machine) (n : ℕ)
      → stacked s ≡ suc n
      → ((umount_settled K scratch_mnt s).0 ≡ pos 0)
        × (stacked (umount_settled K scratch_mnt s).1 ≡ n)
  umount_settled-top s n h =
      let u = umount-top (K.flush_delayed_fput s) n (L.stacked-flush s ∙ h) in
      rw (umount_settled-once K scratch_mnt s (rw u.0)) u

  umount_settled-none :
      (s : K.Machine)
      → stacked s ≡ 0
      → ((umount_settled K scratch_mnt s).0 ≡ e_inval)
        × (stacked (umount_settled K scratch_mnt s).1 ≡ 0)
  umount_settled-none s h =
      let u = umount-none (K.flush_delayed_fput s) (L.stacked-flush s ∙ h) in
      rw (umount_settled-once K scratch_mnt s (rw u.0)) u

  -- After the loop: -EINVAL and an empty stack if there were fewer mounts than tries, and 0 if not.
  scratch_umount_loop-stacked :
      (tries n : ℕ) (s : K.Machine)
      → stacked s ≡ n
      → let r = scratch_umount_loop K tries (pos 0) s in
        (stacked r.1 ≡ n - tries)
        × (((n < tries) × (r.0 ≡ e_inval)) ⊎ ((tries ≤ n) × (r.0 ≡ pos 0)))
  unfolding scratch_umount_loop
  scratch_umount_loop-stacked zero n s h = (omega (arith, h), inr (omega arith, refl))
  scratch_umount_loop-stacked (suc tries) zero s h =
      let u = umount_settled-none s h in
      let done = scratch_umount_loop-err K tries e_inval (umount_settled K scratch_mnt s).1 refl in
      rw (u.0, ◌>>=◌) (rw done (omega (arith, u.1), inl (omega arith, refl)))
  scratch_umount_loop-stacked (suc tries) (suc n) s h =
      let u = umount_settled-top s n h in
      let r = scratch_umount_loop-stacked tries n (umount_settled K scratch_mnt s).1 u.1 in
      rw (u.0, ◌>>=◌)
        (
          omega (arith, r.0),
          elim r.1 [
            | inl (less, e) ↦ inl (omega arith, e)
            | inr (enough, e) ↦ inr (omega arith, e)
          ],
        )

  -- If no mount is busy, xfs_scratch_umount returns 0 and has taken the topmost 8 mounts off the
  -- scratch directory, or all if there are no more than 8: with 9 or more stacked it returns 0 while
  -- some are left.
  pub scratch_umount-stacked :
      (s : K.Machine) → let r = scratch_umount K s in (r.0 ≡ pos 0) × (stacked r.1 ≡ stacked s - 8)
  unfolding scratch_umount
  scratch_umount-stacked s =
      let r = scratch_umount_loop-stacked 8 (stacked s) s refl in
      (elim r.1 [ inl (less, e) ↦ rw e | inr (enough, e) ↦ rw e ], r.0)
