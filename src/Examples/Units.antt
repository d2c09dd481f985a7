-- ===== src/Examples/Units.antt =====
-- A small kernel that allocates files in units of 16 bytes, and the port that finds that out.
use nfsplayground.Base.{
  ℕ, zero, suc, ◌+◌, ◌*◌, ◌/◌, ◌≤◌, ◌<◌, ◌≡◌, refl, ap, ◌∙◌, arith, Option, none, some, length, ℤ,
  pos, negsuc,
}
use nfsplayground.Kernel.{Kernel}
use nfsplayground.Paths.{ftruncate, kstat}
use nfsplayground.Generic.G286.{Seeks}
use nfsplayground.Generic.G436.{alloc_size}
use nfsplayground.Generic.G436.Unit.{AllocatesUnits, alloc_size-unit}
use nfsplayground.Examples.Toy.{Toy, toy, start}

-- The first data of the file, one more than its offset, or 0 if it has none, is the toy's size.
abbrev first_of : ℕ → Option ℕ
first_of zero = none
first_of (suc off) = some off

abbrev first : Toy → Option ℕ
first s = first_of s.size

abbrev starts_at : Option ℕ → ℤ
starts_at none = negsuc 5
starts_at (some off) = pos (off / 16 * 16)

abbrev add_first : ℕ → ℕ → ℕ
add_first zero off = suc off
add_first (suc off') off = suc off'

abbrev in_units : Kernel
in_units = record toy {
  do_ftruncate = λ f n s. (pos 0, record s { size = 0 });
  kernel_write = λ f buf off s.
      ((pos (length buf), off + length buf), record s { size = add_first s.size off });
  vfs_getattr = λ _ s. ((pos 0, 64), s);
}

abbrev unit_seeks : Seeks in_units
unit_seeks = record {
  seek_data = λ f off s. (starts_at (first s), s);
  seek_hole = λ f off s. (pos 0, s);
}

in_unit : (q off : ℕ) → q * 16 ≤ off → off < q * 16 + 16 → off / 16 * 16 ≡ q * 16
in_unit q off from below = omega (arith, from, below)

first_of-add_first :
    (size off : ℕ) → first_of size ≡ none → first_of (add_first size off) ≡ some off
first_of-add_first zero off e = refl
first_of-add_first (suc off') off e = cc

in_units-AllocatesUnits : AllocatesUnits in_units unit_seeks (λ st. st) 16 64 first
unfolding ftruncate kstat
in_units-AllocatesUnits = record {
  ftruncate_empties = λ f s. (refl, refl);
  kernel_write_byte = λ f b off s e. (refl, first_of-add_first s.size off e);
  seek_data_unit = λ f q off s e from below. ap starts_at e ∙ ap pos (in_unit q off from below);
  kstat_blksize = λ st s. (refl, refl);
}

alloc_size-unit_example :
    let r = alloc_size in_units unit_seeks (λ st. st) 7 5 start 0 in (r.0 ≡ some 16) × (r.2 ≡ 0)
alloc_size-unit_example = alloc_size-unit in_units-AllocatesUnits 5 1 7 start 0 refl (omega arith)
