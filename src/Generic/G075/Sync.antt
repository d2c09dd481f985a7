-- ===== src/Generic/G075/Sync.antt =====
-- The shadow of generic/075 refines the file: on a file system that keeps what is written, no check of
-- the case fails.
use nfsplayground.Base.{
  ℕ, zero, suc, ◌+◌, ◌-◌, ◌≤◌, ◌<◌, ◌≡◌, refl, ap, ◌∙◌, subst, arith, ltb, leb, if◌then◌else◌, ◌&&◌,
  List, [], ◌∷◌, length, State, ℤ, not, nonzero, pos, ==_iff, ==ℤ_iff, Option, some, true,
  Bool-cases, inl, inr,
}
use nfsplayground.Kernel.{Kernel}
use nfsplayground.Paths.{truncate, kstat}
use nfsplayground.Kunit.{◌>>=◌, ◌>>◌, run, assert, expect}
use nfsplayground.Generic.G001.{Random}
use nfsplayground.Generic.G075.{
  Shadow, Kind, pwrite, to_size, punch, read_verify, kind_of, max_size, off_of, len_of, within,
  byte_at, after_write, after_truncate, after_punch, pattern, punch_hole_keep_size, matches, file,
  do_kind, rounds, verify_range, final_check,
}
use nfsplayground.Generic.G075.Bounds.{len_of-range}

-- What is documented of the open file `f`, whose path is `file`: its size and its bytes, where a byte
-- that was never written is 0.
pub record KeepsData (K : Kernel) (fallocate : K.File → ℕ → ℕ → ℕ → State K.Machine ℤ)
    (size_of : K.Kstat → ℕ) (f : K.File) (size : K.Machine → ℕ) (byte : K.Machine → ℕ → ℕ)
    : Type 0 where
  pub kernel_write_all :
      (bytes : List ℕ) (off : ℕ) (s : K.Machine)
      → 0 < length bytes
      → off + length bytes ≤ max_size
      → let w = K.kernel_write f bytes off s in
        (w.0.0 ≡ pos (length bytes))
        × (size w.1 ≡ (if ltb (size s) (off + length bytes) then off + length bytes else size s))
        × ((i : ℕ)
            → i < size w.1
            → byte w.1 i ≡ (
                if within off (length bytes) i
                then byte_at bytes (i - off)
                else if ltb i (size s)
                then byte s i
                else 0))
  pub truncate_to :
      (off : ℕ) (s : K.Machine)
      → off ≤ max_size
      → let t = truncate K file (pos off) s in
        (t.0 ≡ pos 0)
        × (size t.1 ≡ off)
        × ((i : ℕ) → i < off → byte t.1 i ≡ (if ltb i (size s) then byte s i else 0))
  pub size-fallocate :
      (off len : ℕ) (s : K.Machine) → size (fallocate f punch_hole_keep_size off len s).1 ≡ size s
  pub byte-fallocate :
      (off len i : ℕ) (s : K.Machine)
      → let p = fallocate f punch_hole_keep_size off len s in
        byte p.1 i ≡ (if not (nonzero p.0) && within off len i then 0 else byte s i)
  pub kernel_read_inside :
      (len off : ℕ) (s : K.Machine)
      → off + len ≤ size s
      → let r = K.kernel_read f len off s in
        (r.0.0 ≡ pos len)
        × (length r.0.1 ≡ len)
        × ((i : ℕ) → i < len → byte_at r.0.1 i ≡ byte s (off + i))
        × (size r.1 ≡ size s)
        × ((i : ℕ) → byte r.1 i ≡ byte s i)
  pub kstat_size :
      (st : K.Kstat) (s : K.Machine)
      → let k = kstat K st file s in
        (k.0.0 ≡ pos 0)
        × (size_of k.0.1 ≡ size s)
        × (size k.1 ≡ size s)
        × ((i : ℕ) → byte k.1 i ≡ byte s i)

length-pattern : (op at left : ℕ) → length (pattern op at left) ≡ left
unfolding pattern
length-pattern op at zero = refl
length-pattern op at (suc left) = omega (arith, length-pattern op (suc at) left)

pub matches-true :
    (shadow : ℕ → ℕ) (off len : ℕ) (buf : List ℕ)
    → length buf ≡ len
    → ((i : ℕ) → i < len → byte_at buf i ≡ shadow (off + i))
    → matches shadow off len buf ≡ true
unfolding matches
matches-true shadow off zero buf all same = refl
matches-true shadow off (suc len) [] all same = absurd (omega (arith, all))
matches-true shadow off (suc len) (b ∷ buf) all same =
    rw ((==_iff b (shadow off)).1 (same 0 (omega arith) ∙ ap shadow (omega arith))) (
      matches-true shadow (suc off) len buf (omega (arith, all))
        (λ i inside. same (suc i) (omega (arith, inside)) ∙ ap shadow (omega arith)))

module _ (R : Random) {K : Kernel} {fallocate : K.File → ℕ → ℕ → ℕ → State K.Machine ℤ}
    {size_of : K.Kstat → ℕ} {f : K.File} {size : K.Machine → ℕ} {byte : K.Machine → ℕ → ℕ}
    (L : KeepsData K fallocate size_of f size byte) where
  -- The shadow says of the file how long it is and what its bytes are.
  abbrev pub InSync : Shadow → K.Machine → Type 0
  InSync m s = (size s ≡ m.size) × ((i : ℕ) → i < m.size → byte s i ≡ m.bytes i)

  InSync-same :
      (m : Shadow) (s s' : K.Machine)
      → InSync m s
      → size s' ≡ size s
      → ((i : ℕ) → byte s' i ≡ byte s i)
      → InSync m s'
  InSync-same m s s' sync length_same same =
      (length_same ∙ sync.0, λ i inside. same i ∙ sync.1 i inside)

  InSync-write :
      (off len : ℕ) (buf : List ℕ) (m : Shadow) (s s' : K.Machine)
      → InSync m s
      → size s' ≡ (if ltb (size s) (off + len) then off + len else size s)
      → ((i : ℕ)
          → i < size s'
          → byte s' i ≡ (
              if within off len i
              then byte_at buf (i - off)
              else if ltb i (size s)
              then byte s i
              else 0))
      → InSync (after_write off len buf m) s'
  InSync-write off len buf m s s' sync grown held = (
    ground (arith, sync.0, grown),
    λ i inside.
        let d = held i (ground (arith, sync.0, grown, inside)) in
        let old = sync.1 i in ground (arith, d, old, sync.0),
  )

  InSync-truncate :
      (off : ℕ) (m : Shadow) (s s' : K.Machine)
      → InSync m s
      → size s' ≡ off
      → ((i : ℕ) → i < off → byte s' i ≡ (if ltb i (size s) then byte s i else 0))
      → InSync (after_truncate off m) s'
  InSync-truncate off m s s' sync grown held = (
    grown,
    λ i inside. let d = held i inside in let old = sync.1 i in ground (arith, d, old, sync.0),
  )

  InSync-punch :
      (off len : ℕ) (m : Shadow) (s s' : K.Machine)
      → InSync m s
      → size s' ≡ size s
      → ((i : ℕ) → byte s' i ≡ (if within off len i then 0 else byte s i))
      → InSync (after_punch off len m) s'
  InSync-punch off len m s s' sync grown held = (
    ground (arith, sync.0, grown),
    λ i inside. let d = held i in let old = sync.1 i in ground (arith, d, old, sync.0),
  )

  -- A part of the case that went through without a failure, and the shadow it leaves is in sync.
  abbrev pub Passed : Option Shadow × K.Machine × ℕ → ℕ → Type 0
  Passed r n = (m : Shadow) × (r.0 ≡ some m) × (r.2 ≡ n) × InSync m r.1

  verify_range-Passed :
      (m : Shadow) (off len : ℕ) (s : K.Machine) (n : ℕ)
      → InSync m s
      → let v = verify_range R K fallocate size_of f m off len s n in
        (v.0 ≡ some tt) × (v.2 ≡ n) × InSync m v.1
  unfolding verify_range
  verify_range-Passed m off len s n sync = elim (Bool-cases (leb m.size off)) [
    | inl behind ↦ rw behind (refl, refl, sync)
    | inr inside ↦
        let len' = if ltb m.size (off + len) then m.size - off else len in
        let fits : off + len' ≤ size s = ground (arith, inside, sync.0) in
        let r = L.kernel_read_inside len' off s fits in
        let same =
          matches-true m.bytes off len' (K.kernel_read f len' off s).0.1 r.1
            (λ i below. r.2 i below ∙ sync.1 (off + i) (omega (arith, fits, below, sync.0))) in
        let all = (==ℤ_iff (K.kernel_read f len' off s).0.0 (pos len')).1 r.0 in
        rw inside (
          rw (◌>>=◌, run, assert, expect, ◌>>◌, all, same, all)
            (refl, refl, InSync-same m s (K.kernel_read f len' off s).1 sync r.3 r.4))
  ]

  do_kind-Passed :
      (kind : Kind) (op off len : ℕ) (m : Shadow) (s : K.Machine) (n : ℕ)
      → 0 < len
      → off + len ≤ max_size
      → InSync m s
      → Passed (do_kind R K fallocate size_of f kind op off len m s n) n
  unfolding do_kind
  do_kind-Passed pwrite op off len m s n some_bytes inside sync =
      let buf = pattern op off len in
      let w = K.kernel_write f buf off s in
      let full = length-pattern op off len in
      let l = L.kernel_write_all buf off s (rw full some_bytes) (rw full inside) in
      let all = (==ℤ_iff w.0.0 (pos len)).1 (l.0 ∙ ap pos full) in
      let grown =
        subst (λ k. size w.1 ≡ (if ltb (size s) (off + k) then off + k else size s)) full l.1 in
      let held : (i : ℕ)
          → i < size w.1
          → byte w.1 i ≡ (
              if within off len i
              then byte_at buf (i - off)
              else if ltb i (size s)
              then byte s i
              else 0) =
        λ i below. rw full at (l.2 i below) in
      rw (◌>>=◌, run, assert, ◌>>◌, all, all)
        (after_write off len buf m, refl, refl, InSync-write off len buf m s w.1 sync grown held)
  do_kind-Passed to_size op off len m s n some_bytes inside sync =
      let t = L.truncate_to off s (omega (arith, inside)) in
      let done = ap (λ e. not (nonzero e)) t.0 in
      rw (◌>>=◌, run, assert, ◌>>◌, done, done)
        (
          after_truncate off m,
          refl,
          refl,
          InSync-truncate off m s (truncate K file (pos off) s).1 sync t.1 t.2,
        )
  do_kind-Passed punch op off len m s n some_bytes inside sync =
      let p = fallocate f punch_hole_keep_size off len s in
      let same = L.size-fallocate off len s in
      elim (Bool-cases (nonzero p.0)) [
        | inl failed ↦
            rw (◌>>=◌, run, failed)
              (
                m,
                refl,
                refl,
                InSync-same m s p.1 sync same (λ i. rw failed at (L.byte-fallocate off len i s)),
              )
        | inr done ↦
            rw (◌>>=◌, run, done)
              (
                after_punch off len m,
                refl,
                refl,
                InSync-punch off len m s p.1 sync same
                    (λ i. rw done at (L.byte-fallocate off len i s)),
              )
      ]
  do_kind-Passed read_verify op off len m s n some_bytes inside sync =
      let v = verify_range-Passed m off len s n sync in rw (◌>>=◌, ◌>>◌, v.0) (m, refl, v.1, v.2)

  rounds-InSync :
      (left op : ℕ) (rnd : R.RndState) (m : Shadow) (s : K.Machine) (n : ℕ)
      → InSync m s
      → Passed (rounds R K fallocate size_of f left op rnd m s n) n
  unfolding rounds
  rounds-InSync zero op rnd m s n sync = (m, refl, refl, sync)
  rounds-InSync (suc left) op rnd m s n sync =
      let d = R.prandom_u32_state rnd in
      let d' = R.prandom_u32_state d.1 in
      let off = off_of d.0 in
      let len = len_of d.0 d'.0 in
      let range = len_of-range d.0 d'.0 in
      let one = do_kind-Passed (kind_of d.0) op off len m s n range.0 range.1 sync in
      let r = do_kind R K fallocate size_of f (kind_of d.0) op off len m s n in
      let rest = rounds-InSync left (suc op) d'.1 one.0 r.1 n one.3 in rw (◌>>=◌, one.1, one.2) rest

  pub final_check-Passed :
      (st : K.Kstat) (m : Shadow) (s : K.Machine) (n : ℕ)
      → InSync m s
      → let c = final_check R K fallocate size_of f st m s n in
        (c.0 ≡ some tt) × (c.2 ≡ n) × InSync m c.1
  unfolding final_check
  final_check-Passed st m s n sync =
      let k = L.kstat_size st s in
      let k' = kstat K st file s in
      let same = (==_iff (size_of k'.0.1) m.size).1 (k.1 ∙ sync.0) in
      let v = verify_range-Passed m 0 m.size k'.1 n (InSync-same m s k'.1 sync k.2 k.3) in
      rw (◌>>=◌, run, k.0, assert, expect, ◌>>◌, same, same, k.0) v

  -- On a file system that keeps what it is given and from a shadow in sync with the file, any number of
  -- rounds, whatever is drawn, and the final check of the size and of every byte go through, none of
  -- their checks fails, and the shadow that the rounds return is in sync with the file that is left.
  pub rounds-final_check :
      (st : K.Kstat) (left op : ℕ) (rnd : R.RndState) (m : Shadow) (s : K.Machine) (n : ℕ)
      → InSync m s
      → let r =
          (rounds R K fallocate size_of f left op rnd m >>= final_check R K fallocate size_of f st)
            s n in
        (r.0 ≡ some tt)
        × (r.2 ≡ n)
        × ((m' : Shadow) × ((rounds R K fallocate size_of f left op rnd m s n).0 ≡ some m')
            × InSync m' r.1)
  rounds-final_check st left op rnd m s n sync =
      let p = rounds-InSync left op rnd m s n sync in
      let c =
        final_check-Passed st p.0 (rounds R K fallocate size_of f left op rnd m s n).1 n p.3 in
      rw (◌>>=◌, p.1, p.2) (c.0, c.1, (p.0, refl, c.2))
