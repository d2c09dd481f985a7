-- ===== src/Examples/Trees.antt =====
-- The theorems about the tree of generic/100, at concrete inputs.
use nfsplayground.Base.{ℕ, ◌+◌, ◌≡◌, refl, arith, List, [], length, ℤ, pos, some, State}
use nfsplayground.Kernel.{Kernel}
use nfsplayground.Files.{write_new_file, write_loop, read_range}
use nfsplayground.Generic.G100.{
  fill, fill_from, matches_from, file_size, for_seed, build_file, build, list_dir, verify_dir,
  verify_file, verify, act_all,
}
use nfsplayground.Generic.G100.Seeds.{verify-build, advanced, files_below}
use nfsplayground.Examples.Toy.{Toy, toy, start}

filled : length (fill 7) ≡ file_size
unfolding fill fill_from
filled = refl

-- A kernel that takes every write, and of which every read is as long as asked.
abbrev sink : Kernel
sink = record toy {
  kernel_write = λ _ bytes at_pos s. ((pos (length bytes), at_pos + length bytes), s);
  kernel_read = λ _ len at_pos s. ((pos len, [], at_pos + len), s);
}

abbrev no_names : ℕ → State Toy (ℤ × List (List ℕ))
no_names d s = ((pos 0, []), s)

built : (build sink no_names 0 "/a" 5 start 0).0 ≡ some 8
unfolding build build_file for_seed fill fill_from write_new_file write_loop
built = refl

checked : (verify sink no_names 1 0 "/b" 5 start 0).0 ≡ some 8
unfolding verify verify_dir verify_file list_dir act_all for_seed read_range matches_from
checked = refl

abbrev last_seed : ℕ
last_seed = 8

verify-build_example : (last_seed ≡ 8) × (last_seed ≡ advanced 5 (files_below 0))
verify-build_example =
    verify-build sink no_names 1 0 "/a" "/b" 5 start start 0 0 8 8 (omega arith) built checked
