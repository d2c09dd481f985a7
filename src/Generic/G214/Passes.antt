-- ===== src/Generic/G214/Passes.antt =====
-- The cases of generic/214 on a file system that allocates zeros.
use text.Mathlib.Text.{◌==◌ as ◌==s◌}
use nfsplayground.Base.{
  Bool, false, List, [], ◌∷◌, ◌||◌, ℕ, ◌+◌, ◌-◌, ◌<◌, ◌≡◌, refl, arith, String, some, ltb, not,
  ◌==◌, true,
}
use nfsplayground.Kernel.{Kernel}
use nfsplayground.Fixture.{Fixture}
use nfsplayground.Lifecycle.{is_mounted}
use nfsplayground.Kunit.{Case, ◌>>=◌, run, Fine}
use nfsplayground.Kunit.Parts.{Part, ◌⨟◌}
use nfsplayground.Generic.Steps.Whole.{Passes, Prepares, in_root-Passes}
use nfsplayground.Generic.G029.{set_range}
use nfsplayground.Generic.G029.Model.{FileView}
use nfsplayground.Generic.G214.{
  root, remove_tree, with_buffer, most, path_of, want_cut, Allocation, set_up, one_byte,
  three_bytes, scatter, allocate_only, allocate_write_cut, write_allocate,
  allocated_space_reads_as_zeroes, a_write_leaves_the_rest_alone,
  a_truncate_after_allocate_and_write, allocating_over_a_written_range,
  a_scatter_of_writes_around_an_allocate,
}
use nfsplayground.Generic.G214.Allocates.{
  Allocates, Is, fallocate-Part, write_behind-Part, write_inside-Part, fsync-Part, cut-Part,
  close-Part, expect_bytes-Part, expect_size-Part, direct_read-Part, with_open-Part, when-Part,
}

-- The bytes of the file in the last case: after the first write, the allocation and the other writes.
abbrev first : ℕ → ℕ
first = set_range 0x37 551917 41182 (set_range 0 0 551917 (λ _. 0))

abbrev extended : ℕ → ℕ
extended = set_range 0 593099 716764 first

abbrev second : ℕ → ℕ
second = set_range 0x37 285771 77718 extended

abbrev scattered : ℕ → ℕ
scattered = set_range 0x37 1136718 104115 second

abbrev zeros : ℕ → ℕ
zeros = set_range 0 0 512 (λ _. 0)

abbrev with_byte : ℕ → ℕ → ℕ
with_byte off = set_range 0x41 off 1 zeros

abbrev cut_bytes : ℕ → ℕ
cut_bytes = set_range 0xaa 0x12000 0x10000 (set_range 0 0 0x65c00 (λ _. 0))

abbrev over : ℕ → ℕ
over = set_range 0 16384 0 (set_range 0x36 0 16384 (set_range 0 0 0 (λ _. 0)))

module _ {K : Kernel} {A : Allocation K} {size_of : K.Kstat → ℕ} {view : K.Machine → FileView}
    {Opened : K.File → K.Machine → Type 0} where
  scatter-Fine :
      (L : Allocates K A size_of (path_of "7") view Opened) (s : K.Machine) (n : ℕ)
      → Fine (Is L 1309863 scattered) n (scatter K A s n)
  unfolding scatter
  scatter-Fine L s n =
      with_open-Part L (Is L 1309863 scattered) _
        (λ f.
          let found = λ (off len val : ℕ). expect_bytes-Part L 1309863 off len val scattered in
          fsync-Part L f 0 (λ _. 0)
          ⨟ write_behind-Part L f 0 41182 0x37 551917 (λ _. 0) (omega arith)
          ⨟ fallocate-Part L f 593099 917633 392230 first (omega arith)
          ⨟ write_inside-Part L f 1309863 77718 0x37 285771 extended (omega arith)
          ⨟ write_inside-Part L f 1309863 104115 0x37 1136718 second (omega arith)
          ⨟ fsync-Part L f 1309863 scattered
          ⨟ close-Part L f 1309863 scattered
          ⨟ found 285771 77718 0x37 (omega arith) (λ i from below. ground (arith, from, below))
          ⨟ found 551917 41182 0x37 (omega arith) (λ i from below. ground (arith, from, below))
          ⨟ found 1136718 104115 0x37 (omega arith) (λ i from below. ground (arith, from, below))
          ⨟ found 363489 1000 0 (omega arith) (λ i from below. ground (arith, from, below))
          ⨟ found 917633 1000 0 (omega arith) (λ i from below. ground (arith, from, below)))
        s n

  allocate_only-Fine :
      (L : Allocates K A size_of (path_of "1") view Opened) (s : K.Machine) (n : ℕ)
      → Fine (Is L 4096 (set_range 0 0 4096 (λ _. 0))) n (allocate_only K A s n)
  unfolding allocate_only
  allocate_only-Fine L s n =
      let want = set_range 0 0 4096 (λ _. 0) in
      with_open-Part L (Is L 4096 want) _
        (λ f.
          fallocate-Part L f 0 0 4096 (λ _. 0) (omega arith)
          ⨟ close-Part L f 4096 want
          ⨟ expect_bytes-Part L 4096 0 4096 0 want (omega arith)
              (λ i from below. ground (arith, from, below)))
        s n

  one_byte-Fine :
      {path : String} (L : Allocates K A size_of path view Opened) (off : ℕ)
      → off < 512
      → (s : K.Machine) (n : ℕ) → Fine (Is L 512 (with_byte off)) n (one_byte K A path off s n)
  unfolding one_byte
  one_byte-Fine L off inside s n =
      let I = Is L 512 (with_byte off) in
      let found = λ (from len val : ℕ). expect_bytes-Part L 512 from len val (with_byte off) in
      with_open-Part L I _
        (λ f.
          fallocate-Part L f 0 0 512 (λ _. 0) (omega arith)
          ⨟ write_inside-Part L f 512 1 0x41 off zeros (omega (arith, inside))
          ⨟ close-Part L f 512 (with_byte off)
          ⨟ when-Part A I (not (off == 0)) _ (λ _.
            found 0 off 0 (omega (arith, inside))
              (λ i from below. ground (arith, from, below, inside)))
          ⨟ found off 1 0x41 (omega (arith, inside))
              (λ i from below. ground (arith, from, below, inside))
          ⨟ when-Part A I (ltb (off + 1) 512) _ (λ more.
            found (off + 1) (512 - off - 1) 0 (ground (arith, inside, more))
              (λ i from below. ground (arith, from, below, inside, more))))
        s n

  allocate_write_cut-Fine :
      (L : Allocates K A size_of (path_of "5") view Opened) (buf : ℕ) (s : K.Machine) (n : ℕ)
      → Fine (λ _. Unit {0}) n (allocate_write_cut K A buf s n)
  unfolding allocate_write_cut
  allocate_write_cut-Fine L buf s n =
      with_open-Part L (λ _. Unit {0}) _
        (λ f.
          fallocate-Part L f 0 0 0x65c00 (λ _. 0) (omega arith)
          ⨟ write_inside-Part L f 0x65c00 0x10000 0xaa 0x12000 (set_range 0 0 0x65c00 (λ _. 0))
              (omega arith)
          ⨟ fsync-Part L f 0x65c00 cut_bytes
          ⨟ cut-Part L f 0x65c00 0x16000 cut_bytes (omega arith)
          ⨟ close-Part L f 0x16000 cut_bytes
          ⨟ direct_read-Part L buf 0x16000 cut_bytes want_cut (λ i below. ground (arith, below)))
        s n

  write_allocate-Fine :
      (L : Allocates K A size_of (path_of "6") view Opened) (st : K.Kstat) (s : K.Machine) (n : ℕ)
      → Fine (Is L 16384 over) n (write_allocate K A size_of st s n)
  unfolding write_allocate
  write_allocate-Fine L st s n =
      with_open-Part L (Is L 16384 over) _
        (λ f.
          write_behind-Part L f 0 16384 0x36 0 (λ _. 0) (omega arith)
          ⨟ fallocate-Part L f 16384 0 16384 (set_range 0x36 0 16384 (set_range 0 0 0 (λ _. 0)))
              (omega arith)
          ⨟ fsync-Part L f 16384 over
          ⨟ close-Part L f 16384 over
          ⨟ expect_size-Part L st 16384 over
          ⨟ expect_bytes-Part L 16384 0 16384 0x36 over (omega arith)
              (λ i from below. ground (arith, from, below)))
        s n

  one_byte-Part :
      {path : String} (L : Allocates K A size_of path view Opened) (off : ℕ)
      → off < 512
      → Part (λ _. Unit {0}) (λ _. Unit {0}) (one_byte K A path off)
  one_byte-Part L off inside = record {
    go = λ s n _. let r = one_byte-Fine L off inside s n in (r.0, r.1, tt);
  }

-- The names that the port puts behind test214-.
abbrev pub is_test : String → List String → Bool
is_test name [] = false
is_test name (test ∷ rest) = name ==s test || is_test name rest

abbrev pub tests : List String
tests = "1" ∷ "2" ∷ "3" ∷ "4" ∷ "5" ∷ "6" ∷ "7" ∷ []

three_bytes-Passes :
    {K : Kernel} {A : Allocation K} {size_of : K.Kstat → ℕ} {view : String → K.Machine → FileView}
    {Opened : String → K.File → K.Machine → Type 0}
    → ((name : String)
        → is_test name tests ≡ true
        → Allocates K A size_of (path_of name) (view name) (Opened name))
    → (s : K.Machine) (n : ℕ) → Passes (three_bytes K A) s n
unfolding three_bytes
three_bytes-Passes L s n =
    let all =
      (one_byte-Part (L "2" refl) 0 (omega arith)
          ⨟ one_byte-Part (L "3" refl) 256 (omega arith)
          ⨟ one_byte-Part (L "4" refl) 511 (omega arith)).go
        s n tt in
    (all.0, all.1)

-- Memory for the buffer is granted.
abbrev pub Grants : (K : Kernel) → Allocation K → Type 0
Grants K A = (s : K.Machine) → (buf : ℕ) × ((A.alloc most s).0 ≡ some buf)

set_up-Passes :
    {K : Kernel} (A : Allocation K)
    → Prepares K root
    → Grants K A
    → (body : ℕ → Case K.Machine (Unit {0}))
    → ((buf : ℕ) (s : K.Machine) (n : ℕ) → Passes (body buf) s n)
    → (w : Fixture K) (n : ℕ) → is_mounted K w ≡ true
    → Passes (set_up K A body) w n
unfolding set_up
set_up-Passes {K} A P granted body passes =
    in_root-Passes P (remove_tree K A) (with_buffer K A body)
      (λ s n. let g = granted s in rw (◌>>=◌, run, g.1) (passes g.0 (A.alloc most s).1 n))

-- On a file system whose files test214-1 to test214-7 allocate zeros, keep what is written and are cut
-- and extended through an open file of theirs, where the client is mounted, the directory can be made
-- and memory is granted, the five cases of generic/214 go through to their ends and count no failure.
pub cases-Pass :
    {K : Kernel} {A : Allocation K} {size_of : K.Kstat → ℕ} {view : String → K.Machine → FileView}
    {Opened : String → K.File → K.Machine → Type 0}
    → ((name : String)
        → is_test name tests ≡ true
        → Allocates K A size_of (path_of name) (view name) (Opened name))
    → Prepares K root
    → Grants K A
    → (st : K.Kstat) (w : Fixture K) (n : ℕ) → is_mounted K w ≡ true
    → Passes (allocated_space_reads_as_zeroes K A) w n
      × Passes (a_write_leaves_the_rest_alone K A) w n
      × Passes (a_truncate_after_allocate_and_write K A) w n
      × Passes (allocating_over_a_written_range K A size_of st) w n
      × Passes (a_scatter_of_writes_around_an_allocate K A) w n
unfolding allocated_space_reads_as_zeroes a_write_leaves_the_rest_alone
    a_truncate_after_allocate_and_write allocating_over_a_written_range
    a_scatter_of_writes_around_an_allocate
cases-Pass {K} {A} {size_of} L P granted st w n there =
    let pass_all : (body : ℕ → Case K.Machine (Unit {0}))
        → ((buf : ℕ) (s : K.Machine) (n : ℕ) → Passes (body buf) s n)
        → Passes (set_up K A body) w n =
      λ body passes. set_up-Passes A P granted body passes w n there in
    (
      pass_all (λ _. allocate_only K A)
          (λ _ s n. let r = allocate_only-Fine (L "1" refl) s n in (r.0, r.1)),
      pass_all (λ _. three_bytes K A) (λ _ s n. three_bytes-Passes L s n),
      pass_all (allocate_write_cut K A)
          (λ buf s n. let r = allocate_write_cut-Fine (L "5" refl) buf s n in (r.0, r.1)),
      pass_all (λ _. write_allocate K A size_of st)
          (λ _ s n. let r = write_allocate-Fine (L "6" refl) st s n in (r.0, r.1)),
      pass_all (λ _. scatter K A) (λ _ s n. let r = scatter-Fine (L "7" refl) s n in (r.0, r.1)),
    )
