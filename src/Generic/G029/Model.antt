-- ===== src/Generic/G029/Model.antt =====
-- A file that is written, cut and extended, and mapped: what the kernel documents of it, and the bytes
-- that it holds, for generic/029.
use Prim.Native.Nat.{max}
use nfsplayground.Base.{
  ℕ, zero, suc, ◌+◌, ◌-◌, ◌≤◌, ◌<◌, ◌≡◌, refl, sym, ap, ◌∙◌, arith, List, [], ◌∷◌, length,
  replicate, pos, ltb, true, Bool-cases, inl, inr, ◌⊎◌, if◌then◌else◌,
}
use nfsplayground.Kernel.{Kernel, ptr, o_rdwr, o_creat, o_excl}
use nfsplayground.Paths.{unlink, truncate, kstat}
use nfsplayground.Generic.G075.{within, byte_at}
use nfsplayground.Generic.Mapped.{UserMemory}
use nfsplayground.Generic.Pattern.Verified.{ReadsFile}
use nfsplayground.Generic.G029.{file, server_file, set_range}

-- The size, the bytes, which are 0 behind the end, and the mapping.
pub record FileView : Type 0 where
  pub size : ℕ
  pub bytes : ℕ → ℕ
  pub map_addr : ℕ
  pub map_len : ℕ

abbrev pub resized : ℕ → FileView → FileView
resized n v = record v { size = n; bytes = λ i. if ltb i n then v.bytes i else 0 }

abbrev pub overlay : ℕ → List ℕ → (ℕ → ℕ) → ℕ → ℕ
overlay off buf bytes i = if within off (length buf) i then byte_at buf (i - off) else bytes i

abbrev pub written : ℕ → List ℕ → FileView → FileView
written off buf v = record v {
  size = max v.size (off + length buf);
  bytes = overlay off buf v.bytes;
}

-- What the kernel documents of its calls, where `view` is the file.
pub record MappedFile (K : Kernel) (U : UserMemory K) (size_of : K.Kstat → ℕ)
    (view : K.Machine → FileView) : Type 0 where
  pub open_new :
      (s : K.Machine)
      → let o = K.filp_open file (o_rdwr ∷ o_creat ∷ o_excl ∷ []) 0o644 (unlink K file s).1 in
        (f : K.File) × (o.0 ≡ ptr f) × ((view o.1).size ≡ 0) × ((view o.1).bytes ≡ (λ _. 0))
  pub truncate_resizes :
      (n : ℕ) (s : K.Machine)
      → let t = truncate K file (pos n) s in (t.0 ≡ pos 0) × (view t.1 ≡ resized n (view s))
  pub kernel_write_all :
      (f : K.File) (buf : List ℕ) (off : ℕ) (s : K.Machine)
      → let w = K.kernel_write f buf off s in
        (w.0.0 ≡ pos (length buf)) × (view w.1 ≡ written off buf (view s))
  pub map_file :
      (f : K.File) (len : ℕ) (s : K.Machine)
      → let a = U.kunit_vm_mmap f len true 0 s in
        (0 < a.0) × (view a.1 ≡ record (view s) { map_addr = a.0; map_len = len })
  pub copy_into :
      (addr off : ℕ) (buf : List ℕ) (s : K.Machine)
      → (view s).map_addr ≡ addr
      → off + length buf ≤ (view s).map_len
      → off + length buf ≤ (view s).size
      → let c = U.copy_to_user (addr + off) buf s in
        (c.0 ≡ 0) × (view c.1 ≡ written off buf (view s))
  pub unmap_all :
      (addr len : ℕ) (s : K.Machine)
      → (view s).map_addr ≡ addr
      → (view s).map_len ≡ len
      → let u = U.vm_munmap addr len s in
        (u.0 ≡ pos 0) × ((view u.1).size ≡ (view s).size) × ((view u.1).bytes ≡ (view s).bytes)
  pub view-filp_close : (f : K.File) (s : K.Machine) → view (K.filp_close f s) ≡ view s
  pub kmalloc_grants : (s : K.Machine) → ((K.kmalloc s).0 ≡ true) × (view (K.kmalloc s).1 ≡ view s)
  pub kstat_size :
      (st : K.Kstat) (s : K.Machine)
      → let k = kstat K st file s in
        (k.0.0 ≡ pos 0) × (size_of k.0.1 ≡ (view s).size) × (view k.1 ≡ view s)
  pub reads_file : ReadsFile K file (λ s. (view s).size) (λ s. (view s).bytes)
  pub reads_server : ReadsFile K server_file (λ s. (view s).size) (λ s. (view s).bytes)

-- The file has a size, the bytes of a model below it, and no others.
abbrev pub Holds : ℕ → (ℕ → ℕ) → FileView → Type 0
Holds size want v =
    (v.size ≡ size)
    × ((i : ℕ) → i < size → v.bytes i ≡ want i)
    × ((i : ℕ) → size ≤ i → v.bytes i ≡ 0)

-- What a test below and one in a range say.
pub below_test : {A : Type 0} (i n : ℕ) (a b : A) → i < n → (if ltb i n then a else b) ≡ a
below_test i n a b h = ground (arith, h)

pub behind_test : {A : Type 0} (i n : ℕ) (a b : A) → n ≤ i → (if ltb i n then a else b) ≡ b
behind_test i n a b h = ground (arith, h)

pub inside_test :
    {A : Type 0} (off len i : ℕ) (a b : A)
    → off ≤ i
    → i < off + len
    → (if within off len i then a else b) ≡ a
inside_test off len i a b h k = ground (arith, h, k)

pub outside_test :
    {A : Type 0} (off len i : ℕ) (a b : A)
    → ((i < off) ⊎ (off + len ≤ i))
    → (if within off len i then a else b) ≡ b
outside_test off len i a b (inl h) = ground (arith, h)
outside_test off len i a b (inr h) = ground (arith, h)

pub Holds-cut :
    (size n : ℕ) (want : ℕ → ℕ) (v : FileView)
    → n ≤ size
    → Holds size want v
    → Holds n want (resized n v)
Holds-cut size n want v le h = (
  refl,
  λ i below. below_test i n (v.bytes i) 0 below ∙ h.1 i (omega (arith, below, le)),
  λ i behind. behind_test i n (v.bytes i) 0 behind,
)

pub Holds-extended :
    (size n : ℕ) (want : ℕ → ℕ) (v : FileView)
    → size ≤ n
    → Holds size want v
    → Holds n (set_range 0 size (n - size) want) (resized n v)
Holds-extended size n want v le h = (
  refl,
  λ i below. below_test i n (v.bytes i) 0 below ∙ elim (Bool-cases (ltb i size)) [
    | inl old ↦
        let old' : i < size = ground (arith, old) in
        h.1 i old' ∙ sym (outside_test size (n - size) i 0 (want i) (inl old'))
    | inr new ↦
        let new' : size ≤ i = ground (arith, new) in
        h.2 i new' ∙ sym (inside_test size (n - size) i 0 (want i) new' (omega (arith, below, le)))
  ],
  λ i behind. behind_test i n (v.bytes i) 0 behind,
)

pub length-replicate : (n a : ℕ) → length (replicate n a) ≡ n
length-replicate zero a = refl
length-replicate (suc n) a = ap suc (length-replicate n a)

byte_at-replicate : (n a i : ℕ) → i < n → byte_at (replicate n a) i ≡ a
byte_at-replicate zero a i h = absurd (omega (arith, h))
byte_at-replicate (suc n) a zero h = refl
byte_at-replicate (suc n) a (suc i) h = byte_at-replicate n a i (omega (arith, h))

within-below : (off len i : ℕ) → within off len i ≡ true → i - off < len
within-below off len i h = ground (arith, h)

-- A write of one byte, many times, is a memset.
pub overlay-replicate :
    (off len val : ℕ) (bytes : ℕ → ℕ) (i : ℕ)
    → overlay off (replicate len val) bytes i ≡ set_range val off len bytes i
overlay-replicate off len val bytes i =
    rw (length-replicate len val) (elim (Bool-cases (within off len i)) [
      | inl inside ↦ rw inside (byte_at-replicate len val (i - off) (within-below off len i inside))
      | inr outside ↦ rw outside refl
    ])

pub Holds-written :
    (size off len val : ℕ) (want : ℕ → ℕ) (v : FileView)
    → off + len ≤ size
    → Holds size want v
    → Holds size (set_range val off len want) (written off (replicate len val) v)
Holds-written size off len val want v fits h = (
  omega (arith, fits, h.0, length-replicate len val),
  λ i below.
      overlay-replicate off len val v.bytes i
      ∙ ap (λ b. if within off len i then val else b) (h.1 i below),
  λ i behind.
      overlay-replicate off len val v.bytes i
      ∙ outside_test off len i val (v.bytes i) (inr (omega (arith, fits, behind)))
      ∙ h.2 i behind,
)
