-- ===== src/Generic/G075/Bounds.antt =====
-- The ranges that generic/075 draws lie in the buffers, and its shadow never outgrows them.
use nfsplayground.Base.{
  ℕ, zero, suc, ◌+◌, ◌≤◌, ◌<◌, ◌≡◌, subst, arith, List, State, ℤ, nonzero, pos, ◌==ℤ◌, some,
  Bool-cases, inl, inr,
}
use nfsplayground.Kernel.{Kernel}
use nfsplayground.Paths.{truncate}
use nfsplayground.Kunit.{◌>>=◌, ◌>>◌, run, assert, pass, bind-some, none≢some}
use nfsplayground.Generic.G001.{Random}
use nfsplayground.Generic.G075.{
  Shadow, Kind, pwrite, to_size, punch, read_verify, kind_of, max_size, off_of, len_of, after_write,
  after_punch, pattern, punch_hole_keep_size, file, do_kind, rounds, verify_range,
}

pub off_of-lt : (r : ℕ) → off_of r < max_size
off_of-lt r = omega arith

-- No range that is drawn is empty or ends behind the buffers.
pub len_of-range : (r r' : ℕ) → (0 < len_of r r') × (off_of r + len_of r r' ≤ max_size)
len_of-range r r' = ground arith

size-after_write :
    (off len : ℕ) (buf : List ℕ) (m : Shadow)
    → m.size ≤ max_size
    → off + len ≤ max_size
    → (after_write off len buf m).size ≤ max_size
size-after_write off len buf m small inside = ground arith

size-after_punch : (off len : ℕ) (m : Shadow) → (after_punch off len m).size ≡ m.size
size-after_punch off len m = ground arith

some-inj : {A : Type 0} {a b : A} → some a ≡ some b → a ≡ b
some-inj e = cc

module _ (R : Random) (K : Kernel) (fallocate : K.File → ℕ → ℕ → ℕ → State K.Machine ℤ)
    (size_of : K.Kstat → ℕ) where
  do_kind-size :
      (f : K.File) (kind : Kind) (op off len : ℕ) (m m' : Shadow) (s : K.Machine) (n : ℕ)
      → m.size ≤ max_size
      → off + len ≤ max_size
      → (do_kind R K fallocate size_of f kind op off len m s n).0 ≡ some m'
      → m'.size ≤ max_size
  unfolding do_kind
  do_kind-size f pwrite op off len m m' s n small inside h =
      let w = K.kernel_write f (pattern op off len) off s in
      elim (Bool-cases (w.0.0 ==ℤ pos len)) [
        | inl all ↦
            subst (λ x. x.size ≤ max_size) (some-inj (rw (◌>>=◌, run, assert, ◌>>◌, all) at h))
              (size-after_write off len (pattern op off len) m small inside)
        | inr short ↦ absurd (none≢some m' (rw (◌>>=◌, run, assert, ◌>>◌, short) at h))
      ]
  do_kind-size f to_size op off len m m' s n small inside h =
      elim (Bool-cases (nonzero (truncate K file (pos off) s).0)) [
        | inl failed ↦ absurd (none≢some m' (rw (◌>>=◌, run, assert, ◌>>◌, failed) at h))
        | inr done ↦
            subst (λ x. x.size ≤ max_size) (some-inj (rw (◌>>=◌, run, assert, ◌>>◌, done) at h))
              (omega (arith, inside))
      ]
  do_kind-size f punch op off len m m' s n small inside h =
      elim (Bool-cases (nonzero (fallocate f punch_hole_keep_size off len s).0)) [
        | inl failed ↦
            subst (λ x. x.size ≤ max_size) (some-inj (rw (◌>>=◌, run, failed) at h)) small
        | inr done ↦
            subst (λ x. x.size ≤ max_size) (some-inj (rw (◌>>=◌, run, done) at h))
              (omega (arith, size-after_punch off len m, small))
      ]
  do_kind-size f read_verify op off len m m' s n small inside h =
      let a = bind-some (verify_range R K fallocate size_of f m off len) (λ _. pass m) s n m' h in
      subst (λ x. x.size ≤ max_size) (some-inj a.2) small

  -- From a shadow of at most 256 KiB, however many rounds are made and whatever is drawn and whatever
  -- the file system does, the shadow that they leave, if they go through, has at most 256 KiB.
  pub rounds-size :
      (f : K.File) (left op : ℕ) (rnd : R.RndState) (m m' : Shadow) (s : K.Machine) (n : ℕ)
      → m.size ≤ max_size
      → (rounds R K fallocate size_of f left op rnd m s n).0 ≡ some m'
      → m'.size ≤ max_size
  unfolding rounds
  rounds-size f zero op rnd m m' s n small h = subst (λ x. x.size ≤ max_size) (some-inj h) small
  rounds-size f (suc left) op rnd m m' s n small h =
      let d = R.prandom_u32_state rnd in
      let d' = R.prandom_u32_state d.1 in
      let off = off_of d.0 in
      let len = len_of d.0 d'.0 in
      let one = do_kind R K fallocate size_of f (kind_of d.0) op off len m in
      let a = bind-some one (rounds R K fallocate size_of f left (suc op) d'.1) s n m' h in
      rounds-size f left (suc op) d'.1 a.0 m' (one s n).1 (one s n).2
        (do_kind-size f (kind_of d.0) op off len m a.0 s n small (len_of-range d.0 d'.0).1 a.1) a.2
