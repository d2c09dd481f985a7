-- ===== src/Generic/G130/Ranges.antt =====
-- What the direct writes of generic/130 leave, and what its comparisons of ranges find.
use Prim.Native.Nat.{min}
use nfsplayground.Base.{
  Bool, State, ℤ, if◌then◌else◌, ℕ, zero, suc, ◌+◌, ◌-◌, ◌≤◌, ◌<◌, ◌≡◌, refl, sym, ap, ◌∙◌, subst,
  arith, String, [], ◌∷◌, replicate, some, pos, ◌==ℤ◌, ==ℤ_iff, ltb, true, false, Bool-cases, inl,
  inr,
}
use nfsplayground.Kernel.{Kernel, ptr, o_rdwr, o_creat, o_trunc, o_direct}
use nfsplayground.Paths.{ftruncate}
use nfsplayground.Files.{direct_write, read_range}
use nfsplayground.Kunit.{Fine, expect, run-assert, Leads}
use nfsplayground.Generic.G075.{matches}
use nfsplayground.Generic.G075.Sync.{matches-true}
use nfsplayground.Generic.Pattern.Verified.{ReadsFile, read_range-bytes}
use nfsplayground.Generic.G029.{set_range}
use nfsplayground.Generic.G029.Model.{
  FileView, resized, written, Holds, Holds-cut, Holds-written, overlay-replicate, inside_test,
  outside_test, length-replicate,
}
use nfsplayground.Generic.G130.{most, Buffers, fill_from, fill, expect_from, expect_range}
use nfsplayground.Generic.G130.Cases.{cut_to}

-- A write behind the end: what stands between is 0.
pub Holds-grown :
    (size off len val : ℕ) (want : ℕ → ℕ) (v : FileView)
    → size ≤ off
    → Holds size want v
    → Holds
        (off + len)
        (set_range val off len (set_range 0 size (off - size) want))
        (written off (replicate len val) v)
Holds-grown size off len val want v le h = (
  omega (arith, le, h.0, length-replicate len val),
  λ i below. overlay-replicate off len val v.bytes i ∙ elim (Bool-cases (ltb i off)) [
    | inr there ↦
        let from : off ≤ i = ground (arith, there) in
        inside_test off len i val (v.bytes i) from below
        ∙ sym (inside_test off len i val (set_range 0 size (off - size) want i) from below)
    | inl before ↦
        let under : i < off = ground (arith, before) in
        outside_test off len i val (v.bytes i) (inl under)
        ∙ elim (Bool-cases (ltb i size)) [
          | inl old ↦
              let old' : i < size = ground (arith, old) in
              h.1 i old' ∙ sym (outside_test size (off - size) i 0 (want i) (inl old'))
          | inr hole ↦
              let hole' : size ≤ i = ground (arith, hole) in
              h.2 i hole'
              ∙ sym (inside_test size (off - size) i 0 (want i) hole' (omega (arith, under, le)))
        ]
        ∙ sym (outside_test off len i val (set_range 0 size (off - size) want i) (inl under))
  ],
  λ i behind.
      overlay-replicate off len val v.bytes i
      ∙ outside_test off len i val (v.bytes i) (inr behind)
      ∙ h.2 i (omega (arith, behind, le)),
)

-- One write of one byte, many times, from a buffer that holds them.
abbrev pub write_call : (K : Kernel) → K.File → Bool → (buf n val off : ℕ) → State K.Machine (ℤ × ℕ)
write_call K f direct buf n val off =
    if direct then direct_write K f buf n off else K.kernel_write f (replicate n val) off

-- What the kernel documents of its calls on one file, where `view` is the file.
pub record KeepsBytes (K : Kernel) (B : Buffers K) (path : String) (view : K.Machine → FileView)
    : Type 0 where
  pub alloc_grants :
      (n : ℕ) (s : K.Machine)
      → let a = B.alloc n s in (buf : ℕ) × (a.0 ≡ some buf) × (view a.1 ≡ view s)
  pub open_trunc :
      (s : K.Machine)
      → let o = K.filp_open path (o_rdwr ∷ o_creat ∷ o_trunc ∷ o_direct ∷ []) 0o644 s in
        (f : K.File) × (o.0 ≡ ptr f) × ((view o.1).size ≡ 0) × ((i : ℕ) → (view o.1).bytes i ≡ 0)
  pub open_new :
      (s : K.Machine)
      → let o = K.filp_open path (o_rdwr ∷ o_creat ∷ o_trunc ∷ []) 0o644 s in
        (f : K.File) × (o.0 ≡ ptr f) × ((view o.1).size ≡ 0) × ((i : ℕ) → (view o.1).bytes i ≡ 0)
  pub open_direct :
      (s : K.Machine)
      → let o = K.filp_open path (o_rdwr ∷ o_direct ∷ []) 0 s in
        (f : K.File) × (o.0 ≡ ptr f) × (view o.1 ≡ view s)
  pub write_all :
      (f : K.File) (direct : Bool) (buf n val off : ℕ) (s : K.Machine)
      → let w = write_call K f direct buf n val off (B.store buf (replicate n val) s) in
        (w.0.0 ≡ pos n) × (w.0.1 ≡ off + n) × (view w.1 ≡ written off (replicate n val) (view s))
  pub ftruncate_resizes :
      (f : K.File) (n : ℕ) (s : K.Machine)
      → let t = ftruncate K f (pos n) s in (t.0 ≡ pos 0) × (view t.1 ≡ resized n (view s))
  pub view-filp_close : (f : K.File) (s : K.Machine) → view (K.filp_close f s) ≡ view s
  pub reads_file : ReadsFile K path (λ s. (view s).size) (λ s. (view s).bytes)

-- One round of the writes, and the end of them.
fill_from-round :
    (K : Kernel) (B : Buffers K) (rounds : ℕ) (f : K.File) (direct : Bool)
    (val off len buf done m : ℕ) (s : K.Machine) (n : ℕ)
    → ltb done len ≡ true
    → min (len - done) most ≡ m
    → let w = write_call K f direct buf m val off (B.store buf (replicate m val) s) in
      w.0.0 ≡ pos m
      → fill_from K B (suc rounds) f direct val off len buf done s n
        ≡ fill_from K B rounds f direct val w.0.1 len buf (done + m) w.1 n
unfolding fill_from
fill_from-round K B rounds f direct val off len buf done m s n more e all =
    rw (fill_from, more)
      (rw e (
        run-assert (write_call K f direct buf m val off) (λ x. x.0 ==ℤ pos m)
          (λ x. fill_from K B rounds f direct val x.1 len buf (done + m))
          (B.store buf (replicate m val) s) n ((==ℤ_iff _ (pos m)).1 all)))

fill_from-end :
    (K : Kernel) (B : Buffers K) (rounds : ℕ) (f : K.File) (direct : Bool)
    (val off len buf done : ℕ) (s : K.Machine) (n : ℕ)
    → ltb done len ≡ false
    → fill_from K B rounds f direct val off len buf done s n ≡ (some tt, s, n)
unfolding fill_from
fill_from-end K B zero f direct val off len buf done s n h = refl
fill_from-end K B (suc rounds) f direct val off len buf done s n h = rw (fill_from, h) refl

-- One round of a comparison, and the end of it.
expect_from-round :
    (K : Kernel) (B : Buffers K) (rounds : ℕ) (path : String) (off len val done : ℕ) (s : K.Machine)
    (n : ℕ)
    → ltb done len ≡ true
    → let m = min (len - done) most in
      let r = read_range K path m (off + done) s in
      r.0.0 ≡ pos m
      → matches (λ _. val) 0 m r.0.1 ≡ true
      → expect_from K B (suc rounds) path off len val done s n
        ≡ expect_from K B rounds path off len val (done + m) r.1 n
unfolding expect_from
expect_from-round K B rounds path off len val done s n more all same =
    let m = min (len - done) most in
    rw (expect_from, more)
      (run-assert (read_range K path m (off + done)) (λ x. x.0 ==ℤ pos m)
          (λ x. elim (matches (λ _. val) 0 m x.1) [
            | true ↦ expect_from K B rounds path off len val (done + m)
            | false ↦ expect false
          ])
          s n ((==ℤ_iff _ (pos m)).1 all)
        ∙ rw same refl)

expect_from-end :
    (K : Kernel) (B : Buffers K) (rounds : ℕ) (path : String) (off len val done : ℕ) (s : K.Machine)
    (n : ℕ)
    → ltb done len ≡ false
    → expect_from K B rounds path off len val done s n ≡ (some tt, s, n)
unfolding expect_from
expect_from-end K B zero path off len val done s n h = refl
expect_from-end K B (suc rounds) path off len val done s n h = rw (expect_from, h) refl

module _ {K : Kernel} {B : Buffers K} {path : String} {view : K.Machine → FileView}
    (L : KeepsBytes K B path view) where
  -- A single write, of at most the buffer's size,
  fill-Fine :
      (f : K.File) (direct : Bool) (buf off len val : ℕ) (s : K.Machine) (n : ℕ)
      → 0 < len
      → len ≤ most
      → Fine
          (λ s'. view s' ≡ written off (replicate len val) (view s))
          n
          (fill K B f direct val off len buf s n)
  unfolding fill
  fill-Fine f direct buf off zero val s n some_bytes fits = absurd (omega (arith, some_bytes))
  fill-Fine f direct buf off (suc more) val s n some_bytes fits =
      let m : min (suc more - 0) most ≡ suc more = omega (arith, fits) in
      let w = L.write_all f direct buf (suc more) val off s in
      let more_left : ltb 0 (suc more) ≡ true = ground arith in
      let all_done : ltb (0 + suc more) (suc more) ≡ false = ground arith in
      rw (fill_from-round K B more f direct val off (suc more) buf 0 (suc more) s n more_left m w.0)
        (rw (fill_from-end K B more f direct val _ (suc more) buf (0 + suc more) _ n all_done)
          (refl, refl, w.2))

  -- at the end of the file or behind it,
  pub fill-Leads :
      (f : K.File) (direct : Bool) (buf size off len val : ℕ) (want : ℕ → ℕ)
      → size ≤ off
      → 0 < len
      → len ≤ most
      → Leads
          (λ s. Holds size want (view s))
          (λ s.
            Holds (off + len) (set_range val off len (set_range 0 size (off - size) want)) (view s))
          (fill K B f direct val off len buf)
  fill-Leads f direct buf size off len val want le some_bytes fits s n h =
      let w = fill-Fine f direct buf off len val s n some_bytes fits in
      (w.0, w.1, subst (Holds _ _) (sym w.2) (Holds-grown size off len val want (view s) le h))

  -- and inside it.
  pub fill_inside-Leads :
      (f : K.File) (direct : Bool) (buf size off len val : ℕ) (want : ℕ → ℕ)
      → off + len ≤ size
      → 0 < len
      → len ≤ most
      → Leads
          (λ s. Holds size want (view s))
          (λ s. Holds size (set_range val off len want) (view s))
          (fill K B f direct val off len buf)
  fill_inside-Leads f direct buf size off len val want le some_bytes fits s n h =
      let w = fill-Fine f direct buf off len val s n some_bytes fits in
      (w.0, w.1, subst (Holds _ _) (sym w.2) (Holds-written size off len val want (view s) le h))

  -- A range of the file that holds one byte, of at most the buffer's size.
  pub expect_range-Leads :
      (size off len val : ℕ) (want : ℕ → ℕ)
      → 0 < len
      → len ≤ most
      → off + len ≤ size
      → ((i : ℕ) → off ≤ i → i < off + len → want i ≡ val)
      → Leads
          (λ s. Holds size want (view s))
          (λ s. Holds size want (view s))
          (expect_range K B path off len val)
  unfolding expect_range
  expect_range-Leads size off zero val want some_bytes fits inside same s n h =
      absurd (omega (arith, some_bytes))
  expect_range-Leads size off (suc more) val want some_bytes fits inside same s n h =
      let len = suc more in
      let m = min (len - 0) most in
      let whole : m ≡ len = omega (arith, fits) in
      let r = read_range-bytes L.reads_file m (off + 0) s in
      let b = read_range K path m (off + 0) s in
      let all : min m ((view s).size - (off + 0)) ≡ m = omega (arith, h.0, inside, whole) in
      let more_left : ltb 0 len ≡ true = ground arith in
      let all_done : ltb (0 + m) len ≡ false = ground (arith, whole) in
      let bytes_same =
        matches-true (λ _. val) 0 m b.0.1 (r.1 ∙ all)
          (λ i below.
            r.2 i (omega (arith, all, below))
            ∙ h.1 (off + 0 + i) (omega (arith, below, inside, whole))
            ∙ same (off + 0 + i) (omega arith) (omega (arith, below, whole))) in
      rw (expect_from-round K B more path off len val 0 s n more_left (r.0 ∙ ap pos all) bytes_same)
        (rw (expect_from-end K B more path off len val (0 + m) b.1 n all_done) (
          refl,
          refl,
          (
            r.3 ∙ h.0,
            λ i below. ap (λ g. g i) r.4 ∙ h.1 i below,
            λ i behind. ap (λ g. g i) r.4 ∙ h.2 i behind,
          ),
        ))

  pub cut_to-Leads :
      (size_of : K.Kstat → ℕ) (f : K.File) (size down : ℕ) (want : ℕ → ℕ)
      → down ≤ size
      → Leads
          (λ s. Holds size want (view s))
          (λ s. Holds down want (view s))
          (cut_to K B size_of f down)
  unfolding cut_to
  cut_to-Leads size_of f size down want le s n h =
      let t = L.ftruncate_resizes f down s in
      rw t.0
        (refl, refl, subst (Holds down want) (sym t.1) (Holds-cut size down want (view s) le h))
