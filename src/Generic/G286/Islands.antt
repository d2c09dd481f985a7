-- ===== src/Generic/G286/Islands.antt =====
-- The islands that generic/286 writes, and the bytes of the file that they make.
use nfsplayground.Base.{
  ℕ, ◌+◌, ◌-◌, ◌≤◌, ◌<◌, ◌≡◌, refl, sym, ap, ◌∙◌, subst, arith, replicate, pos, ◌==ℤ◌, ==ℤ_iff,
  true, if◌then◌else◌,
}
use nfsplayground.Kernel.{Kernel}
use nfsplayground.Kunit.{◌>>=◌, run, Leads, Leads-then}
use nfsplayground.Generic.G075.{within}
use nfsplayground.Generic.G029.{set_range}
use nfsplayground.Generic.G029.Model.{FileView, Holds, length-replicate}
use nfsplayground.Generic.G130.Ranges.{Holds-grown}
use nfsplayground.Generic.G286.{file_size, island_size, islands, Seeks, writes, write_islands}
use nfsplayground.Generic.G286.SeekLaws.{SeeksData}

-- What stands in the file: three islands in a hole.
abbrev pub island_byte : ℕ → ℕ
island_byte i =
    if within 0 8192 i
    then 0xb0
    else if within 102400 8192 i
    then 0xb1
    else if within 204800 8192 i
    then 0xb2
    else 0

abbrev first : ℕ → ℕ
first = set_range 0xb0 0 8192 (set_range 0 0 0 (λ _. 0))

abbrev second : ℕ → ℕ
second = set_range 0xb1 102400 8192 (set_range 0 8192 94208 first)

abbrev pub third : ℕ → ℕ
third = set_range 0xb2 204800 8192 (set_range 0 110592 94208 second)

abbrev pub whole : ℕ → ℕ
whole = set_range 0 212992 49152 third

pub whole_bytes : (i : ℕ) → i < file_size → whole i ≡ island_byte i
whole_bytes i below = ground (arith, below)

module _ {K : Kernel} {S : Seeks K} {IsIn IsOut : K.File → Type 0} {src dst : K.Machine → FileView}
    {Data : K.Machine → ℕ → Type 0} (L : SeeksData K S IsIn IsOut src dst Data) where
  writes-Leads :
      (f : K.File) (size val off : ℕ) (want : ℕ → ℕ)
      → IsIn f
      → size ≤ off
      → Leads
          (λ s. Holds size want (src s))
          (λ s.
            Holds
              (off + island_size)
              (set_range val off island_size (set_range 0 size (off - size) want))
              (src s))
          (writes K S f island_size (replicate island_size val) off)
  writes-Leads f size val off want is_in le s n h =
      let w = L.write_in f (replicate island_size val) off s is_in in
      let all : (K.kernel_write f (replicate island_size val) off s).0.0 ==ℤ pos island_size
          ≡ true =
        (==ℤ_iff _ (pos island_size)).1 (w.0 ∙ ap pos (length-replicate island_size val)) in
      rw (◌>>=◌, run, all)
        (
          refl,
          refl,
          subst (Holds _ _) (sym w.1) (Holds-grown size off island_size val want (src s) le h),
        )

  pub write_islands-Leads :
      (f : K.File)
      → IsIn f
      → Leads
          (λ s. Holds 0 (λ _. 0) (src s))
          (λ s. Holds 212992 third (src s))
          (write_islands K S islands 0 f)
  unfolding write_islands
  write_islands-Leads f is_in =
      let I0 : K.Machine → Type 0 = λ s. Holds 0 (λ _. 0) (src s) in
      let I1 : K.Machine → Type 0 = λ s. Holds 8192 first (src s) in
      let I2 : K.Machine → Type 0 = λ s. Holds 110592 second (src s) in
      let I3 : K.Machine → Type 0 = λ s. Holds 212992 third (src s) in
      Leads-then I0 I1 I3 _ _ (writes-Leads f 0 0xb0 0 (λ _. 0) is_in (omega arith)) (
        Leads-then I1 I2 I3 _ _ (writes-Leads f 8192 0xb1 102400 first is_in (omega arith)) (
          Leads-then I2 I3 I3 _ _ (writes-Leads f 110592 0xb2 204800 second is_in (omega arith))
            (λ s n h. (refl, refl, h))))
