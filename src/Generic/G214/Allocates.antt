-- ===== src/Generic/G214/Allocates.antt =====
-- What the calls in generic/214 make of a file, on a file system that allocates zeros.
use Prim.Native.Nat.{min, max}
use nfsplayground.Base.{
  ℕ, ◌+◌, ◌-◌, ◌≤◌, ◌<◌, ◌≡◌, refl, sym, ap, ◌∙◌, subst, arith, String, List, [], ◌∷◌, replicate,
  length, ℤ, pos, State, nonzero, not, ◌==ℤ◌, ==ℤ_iff, ◌==◌, ==_iff, Bool, true, false,
}
use nfsplayground.Kernel.{Kernel, ptr, o_rdonly, o_rdwr, o_creat, o_trunc, o_direct}
use nfsplayground.Paths.{ftruncate, kstat}
use nfsplayground.Files.{direct_read, read_range}
use nfsplayground.Kunit.{Case, ◌>>=◌, ◌>>◌, run, step, expect, Fine, Fine-run, expect-Fine}
use nfsplayground.Kunit.Parts.{Part}
use nfsplayground.Generic.G075.{matches, byte_at}
use nfsplayground.Generic.G075.Sync.{matches-true}
use nfsplayground.Generic.Pattern.Verified.{ReadsFile, read_range-bytes}
use nfsplayground.Generic.G029.{set_range}
use nfsplayground.Generic.G029.Model.{
  FileView, resized, written, Holds, Holds-cut, Holds-extended, Holds-written, length-replicate,
}
use nfsplayground.Generic.G130.Ranges.{Holds-grown}
use nfsplayground.Generic.G214.{
  Allocation, call_ok, writes, expect_bytes, expect_size, read_back, with_open, when,
}

-- What the kernel documents of its calls on one file, where `view` is the file, and `Opened` says which
-- open files are open on it. Nothing is said of open files of other files.
pub record Allocates (K : Kernel) (A : Allocation K) (size_of : K.Kstat → ℕ) (path : String)
    (view : K.Machine → FileView) (Opened : K.File → K.Machine → Type 0) : Type 0 where
  pub open_new :
      (s : K.Machine)
      → let o = K.filp_open path (o_rdwr ∷ o_creat ∷ o_trunc ∷ []) 0o644 s in
        (f : K.File) × (o.0 ≡ ptr f)
        × ((view o.1).size ≡ 0)
        × ((i : ℕ) → (view o.1).bytes i ≡ 0)
        × Opened f o.1
  pub open_direct :
      (s : K.Machine)
      → let o = K.filp_open path (o_rdonly ∷ o_direct ∷ []) 0 s in
        (f : K.File) × (o.0 ≡ ptr f) × (view o.1 ≡ view s) × Opened f o.1
  pub fallocate_extends :
      (f : K.File) (off len : ℕ) (s : K.Machine)
      → Opened f s
      → let a = A.fallocate f 0 off len s in
        (a.0 ≡ pos 0) × (view a.1 ≡ resized (max (view s).size (off + len)) (view s)) × Opened f a.1
  pub kernel_write_all :
      (f : K.File) (buf : List ℕ) (off : ℕ) (s : K.Machine)
      → Opened f s
      → let w = K.kernel_write f buf off s in
        (w.0.0 ≡ pos (length buf)) × (view w.1 ≡ written off buf (view s)) × Opened f w.1
  pub vfs_fsync_keeps :
      (f : K.File) (s : K.Machine)
      → Opened f s
      → let y = K.vfs_fsync f s in (y.0 ≡ pos 0) × (view y.1 ≡ view s) × Opened f y.1
  pub ftruncate_resizes :
      (f : K.File) (n : ℕ) (s : K.Machine)
      → Opened f s
      → let t = ftruncate K f (pos n) s in
        (t.0 ≡ pos 0) × (view t.1 ≡ resized n (view s)) × Opened f t.1
  pub direct_read_all :
      (f : K.File) (buf len : ℕ) (s : K.Machine)
      → Opened f s
      → len ≤ (view s).size
      → let r = direct_read K f buf len 0 s in
        (r.0.0 ≡ pos len)
        × (length (A.load buf len (K.filp_close f r.1)) ≡ len)
        × ((i : ℕ) → i < len → byte_at (A.load buf len (K.filp_close f r.1)) i ≡ (view s).bytes i)
  pub view-filp_close : (f : K.File) (s : K.Machine) → Opened f s → view (K.filp_close f s) ≡ view s
  pub kstat_size :
      (st : K.Kstat) (s : K.Machine)
      → let k = kstat K st path s in
        (k.0.0 ≡ pos 0) × (size_of k.0.1 ≡ (view s).size) × (view k.1 ≡ view s)
  pub reads_file : ReadsFile K path (λ s. (view s).size) (λ s. (view s).bytes)

-- A call that returns 0.
call_ok-Part :
    {K : Kernel} (A : Allocation K) (I J : K.Machine → Type 0) (m : State K.Machine ℤ)
    → ((s : K.Machine) → I s → ((m s).0 ≡ pos 0) × J (m s).1)
    → Part I J (call_ok K A m)
call_ok-Part A I J m zero_returned = record {
  go = λ s n i. let z = zero_returned s i in rw (◌>>=◌, run, z.0) (refl, refl, z.1);
}

module _ {K : Kernel} {A : Allocation K} {size_of : K.Kstat → ℕ} {path : String}
    {view : K.Machine → FileView} {Opened : K.File → K.Machine → Type 0}
    (L : Allocates K A size_of path view Opened) where
  -- The file has a size, the bytes of a model below it, and no others.
  abbrev pub Is : ℕ → (ℕ → ℕ) → K.Machine → Type 0
  Is size want s = Holds size want (view s)

  -- The same, with an open file of it.
  abbrev pub On : K.File → ℕ → (ℕ → ℕ) → K.Machine → Type 0
  On f size want s = Holds size want (view s) × Opened f s

  -- An allocation up to the end of the file or behind it adds zeros.
  pub fallocate-Part :
      (f : K.File) (size off len : ℕ) (want : ℕ → ℕ)
      → size ≤ off + len
      → Part
          (On f size want)
          (On f (off + len) (set_range 0 size (off + len - size) want))
          (call_ok K A (A.fallocate f 0 off len))
  fallocate-Part f size off len want le =
      call_ok-Part A (On f size want) (On f (off + len) (set_range 0 size (off + len - size) want))
        (A.fallocate f 0 off len)
        (λ s h.
          let a = L.fallocate_extends f off len s h.1 in
          let m : max (view s).size (off + len) ≡ off + len = omega (arith, le, h.0.0) in
          (
            a.0,
            (
              subst (Holds _ _) (sym (a.1 ∙ ap (λ k. resized k (view s)) m))
                  (Holds-extended size (off + len) want (view s) le h.0),
              a.2,
            ),
          ))

  writes-Part :
      (f : K.File) (len val off : ℕ) (size size' : ℕ) (want want' : ℕ → ℕ)
      → ((s s' : K.Machine)
          → Holds size want (view s)
          → view s' ≡ written off (replicate len val) (view s)
          → Holds size' want' (view s'))
      → Part (On f size want) (On f size' want') (writes K A f len val off)
  writes-Part f len val off size size' want want' after = record {
    go = λ s n i.
        let w = L.kernel_write_all f (replicate len val) off s i.1 in
        let all : (K.kernel_write f (replicate len val) off s).0.0 ==ℤ pos len ≡ true =
          (==ℤ_iff _ (pos len)).1 (w.0 ∙ ap pos (length-replicate len val)) in
        rw (◌>>=◌, run, all)
          (refl, refl, (after s (K.kernel_write f (replicate len val) off s).1 i.0 w.1, w.2));
  }

  -- A write at the end of the file or behind it,
  pub write_behind-Part :
      (f : K.File) (size len val off : ℕ) (want : ℕ → ℕ)
      → size ≤ off
      → Part
          (On f size want)
          (On f (off + len) (set_range val off len (set_range 0 size (off - size) want)))
          (writes K A f len val off)
  write_behind-Part f size len val off want le =
      writes-Part f len val off size (off + len) want _
        (λ s s' h e. subst (Holds _ _) (sym e) (Holds-grown size off len val want (view s) le h))

  -- and one inside it.
  pub write_inside-Part :
      (f : K.File) (size len val off : ℕ) (want : ℕ → ℕ)
      → off + len ≤ size
      → Part (On f size want) (On f size (set_range val off len want)) (writes K A f len val off)
  write_inside-Part f size len val off want fits =
      writes-Part f len val off size size want _ (λ s s' h e.
        subst (Holds _ _) (sym e) (Holds-written size off len val want (view s) fits h))

  pub fsync-Part :
      (f : K.File) (size : ℕ) (want : ℕ → ℕ)
      → Part (On f size want) (On f size want) (call_ok K A (K.vfs_fsync f))
  fsync-Part f size want =
      call_ok-Part A (On f size want) (On f size want) (K.vfs_fsync f)
        (λ s h. let y = L.vfs_fsync_keeps f s h.1 in (y.0, (subst (Holds _ _) (sym y.1) h.0, y.2)))

  pub cut-Part :
      (f : K.File) (size down : ℕ) (want : ℕ → ℕ)
      → down ≤ size
      → Part (On f size want) (On f down want) (call_ok K A (ftruncate K f (pos down)))
  cut-Part f size down want le =
      call_ok-Part A (On f size want) (On f down want) (ftruncate K f (pos down)) (λ s h.
        let t = L.ftruncate_resizes f down s h.1 in
        (t.0, (subst (Holds _ _) (sym t.1) (Holds-cut size down want (view s) le h.0), t.2)))

  pub close-Part :
      (f : K.File) (size : ℕ) (want : ℕ → ℕ)
      → Part (On f size want) (Is size want) (step (K.filp_close f))
  close-Part f size want = record {
    go = λ s n h. (refl, refl, subst (Holds _ _) (sym (L.view-filp_close f s h.1)) h.0);
  }

  -- A range inside the file that holds one byte.
  pub expect_bytes-Part :
      (size off len val : ℕ) (want : ℕ → ℕ)
      → off + len ≤ size
      → ((i : ℕ) → off ≤ i → i < off + len → want i ≡ val)
      → Part (Is size want) (Is size want) (expect_bytes K A path off len val)
  unfolding expect_bytes
  expect_bytes-Part size off len val want fits same = record {
    go = λ s n h.
        let r = read_range-bytes L.reads_file len off s in
        let got = read_range K path len off s in
        let whole : min len ((view s).size - off) ≡ len = omega (arith, fits, h.0) in
        let all : got.0.0 ==ℤ pos len ≡ true = (==ℤ_iff _ (pos len)).1 (r.0 ∙ ap pos whole) in
        let found : matches (λ _. val) 0 len got.0.1 ≡ true =
          matches-true (λ _. val) 0 len got.0.1 (r.1 ∙ whole)
            (λ i below.
              r.2 i (omega (arith, below, whole))
              ∙ h.1 (off + i) (omega (arith, below, fits))
              ∙ same (off + i) (omega arith) (omega (arith, below))) in
        Fine-run (Is size want) (read_range K path len off) (λ x. x.0 ==ℤ pos len)
          (λ x. expect (matches (λ _. val) 0 len x.1)) s n all
          (expect-Fine (Is size want) _ got.1 n found (
            r.3 ∙ h.0,
            λ i below. ap (λ g. g i) r.4 ∙ h.1 i below,
            λ i behind. ap (λ g. g i) r.4 ∙ h.2 i behind,
          ));
  }

  pub expect_size-Part :
      (st : K.Kstat) (size : ℕ) (want : ℕ → ℕ)
      → Part (Is size want) (Is size want) (expect_size K A size_of st path size)
  unfolding expect_size
  expect_size-Part st size want = record {
    go = λ s n h.
        let k = L.kstat_size st s in
        let same : size_of (kstat K st path s).0.1 == size ≡ true =
          (==_iff (size_of (kstat K st path s).0.1) size).1 (k.1 ∙ h.0) in
        Fine-run (Is size want) (kstat K st path) (λ x. not (nonzero x.0))
          (λ x. expect (size_of x.1 == size)) s n (ap (λ e. not (nonzero e)) k.0)
          (expect-Fine (Is size want) _ (kstat K st path s).1 n same
            (subst (Holds _ _) (sym k.2) h));
  }

  -- The direct read, of a file of that size.
  pub direct_read-Part :
      (buf size : ℕ) (want wanted : ℕ → ℕ)
      → ((i : ℕ) → i < size → want i ≡ wanted i)
      → Part (Is size want) (λ _. Unit {0}) (read_back K A path size wanted buf)
  direct_read-Part buf size want wanted same = record {
    go = λ s n h.
        let o = L.open_direct s in
        let s' = (K.filp_open path (o_rdonly ∷ o_direct ∷ []) 0 s).1 in
        let r = L.direct_read_all o.0 buf size s' o.3 (omega (arith, h.0, ap (λ v. v.size) o.2)) in
        let all : (direct_read K o.0 buf size 0 s').0.0 ==ℤ pos size ≡ true =
          (==ℤ_iff _ (pos size)).1 r.0 in
        let found : matches wanted 0 size
              (A.load buf size (K.filp_close o.0 (direct_read K o.0 buf size 0 s').1))
            ≡ true =
          matches-true wanted 0 size _ r.1 (λ i below.
            r.2 i below
            ∙ ap (λ v. v.bytes i) o.2
            ∙ h.1 i below
            ∙ same i below
            ∙ ap wanted (omega arith)) in
        rw (◌>>=◌, run, o.1)
          (Fine-run (λ _. Unit {0}) (direct_read K o.0 buf size 0) (λ x. x.0 ==ℤ pos size)
            (λ x.
              step (K.filp_close o.0)
              >> (run (λ s. (A.load buf size s, s))
                  >>= (λ bytes. expect (matches wanted 0 size bytes))))
            s' n all (rw (◌>>=◌, ◌>>◌, run, step, found) (refl, refl, tt)));
  }

  -- The file made anew, and what a case does with it.
  pub with_open-Part :
      (J : K.Machine → Type 0) (body : K.File → Case K.Machine (Unit {0}))
      → ((f : K.File) → Part (On f 0 (λ _. 0)) J (body f))
      → (s : K.Machine) (n : ℕ)
      → Fine J n (with_open K A path (o_rdwr ∷ o_creat ∷ o_trunc ∷ []) 0o644 body s n)
  with_open-Part J body body_leads s n =
      let o = L.open_new s in
      rw (◌>>=◌, run, o.1)
        ((body_leads o.0).go (K.filp_open path (o_rdwr ∷ o_creat ∷ o_trunc ∷ []) 0o644 s).1 n
          ((o.2, λ i below. o.3 i, λ i behind. o.3 i), o.4))

-- A part that is run on a condition.
pub when-Part :
    {K : Kernel} (A : Allocation K) (I : K.Machine → Type 0) (b : Bool)
    (m : Case K.Machine (Unit {0}))
    → (b ≡ true → Part I I m)
    → Part I I (when K A b m)
when-Part A I true m leads = leads refl
when-Part A I false m leads = record { go = λ s n i. (refl, refl, i) }
