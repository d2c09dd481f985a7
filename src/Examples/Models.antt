-- ===== src/Examples/Models.antt =====
-- The theorems about the ports that keep a model of a file or a directory, and about the waits, at
-- concrete inputs.
use nfsplayground.Base.{
  ◌↔◌, false, ◌*◌, ◌/◌, ◌%◌, ◌+◌, replicate, pos, ◌++◌, ℕ, ◌≡◌, ◌≤◌, refl, arith, some, List, [],
  ◌∷◌, ◌++◌, length,
}
use nfsplayground.Kernel.{Kernel, Timespec}
use nfsplayground.Paths.{truncate, at_path, kstat, on_path}
use nfsplayground.Generic.G313.{down_and_up, truncate_step, resize, after}
use nfsplayground.Generic.G313.Times.{Updated, down_and_up-after}
use nfsplayground.Kunit.{◌>>=◌}
use nfsplayground.Generic.G007.{no_entries, rounds}
use nfsplayground.Generic.G007.Table.{rounds-Agrees, Passed}
use nfsplayground.Generic.G075.{
  Shadow, max_size, rounds as exercise_rounds, do_kind, kind_of, pattern, after_write, final_check,
}
use nfsplayground.Generic.G075.Bounds.{rounds-size}
use nfsplayground.Generic.G075.Detect.{final_check_iff}
use nfsplayground.Generic.G075.Sync.{InSync, rounds-final_check}
use nfsplayground.Generic.G337.{listed, count_from}
use nfsplayground.Generic.G337.Listed.{packed, among, listed-packed}
use nfsplayground.Generic.G339.{Walk, act_all}
use nfsplayground.Generic.G339.Listing.{InSlots, real, act_all-bounds}
use nfsplayground.Examples.Toy.{start}
use nfsplayground.Examples.Stores.{
  directory, directory-Names, ino_of, store, store-KeepsData, punch_hole,
}
use nfsplayground.Examples.Ports.{counter}

rounds-Agrees_example :
    Passed counter directory-Names (rounds counter directory ino_of 0 20 0 3 no_entries start 0) 0
rounds-Agrees_example =
    rounds-Agrees counter directory-Names 0 20 0 3 no_entries start 0 (λ i. refl)

abbrev empty_shadow : Shadow
empty_shadow = record { bytes = λ _. 0; size = 0 }

rounds-final_check_example :
    let r =
      (exercise_rounds counter store punch_hole ino_of 5 20 0 3 empty_shadow
          >>= final_check counter store punch_hole ino_of 5 0)
        start 0 in
    (r.0 ≡ some tt)
    × (r.2 ≡ 0)
    × ((m' : Shadow) × ((exercise_rounds counter store punch_hole ino_of 5 20 0 3 empty_shadow start
            0).0
          ≡ some m')
        × InSync counter store-KeepsData m' r.1)
rounds-final_check_example =
    rounds-final_check counter store-KeepsData 0 20 0 3 empty_shadow start 0
      (refl, λ i inside. absurd (omega (arith, inside)))

-- Eight bytes at the beginning.
abbrev one_round : Shadow
one_round = after_write 0 8 (pattern 0 0 8) empty_shadow

one_round_runs :
    (exercise_rounds counter store punch_hole ino_of 5 1 0 0 empty_shadow start 0).0
    ≡ some one_round
unfolding exercise_rounds do_kind kind_of pattern
one_round_runs = refl

rounds-size_example : one_round.size ≤ max_size
rounds-size_example =
    rounds-size counter store punch_hole ino_of 5 1 0 0 empty_shadow one_round start 0 (omega arith)
      one_round_runs

abbrev two_names : List (List ℕ)
two_names = (117 ∷ 46 ∷ 97 ∷ []) ∷ (117 ∷ 46 ∷ 98 ∷ []) ∷ []

listed-packed_example :
    let list = packed two_names ++ 9 ∷ [] in
    let len = length (packed two_names) in
    (listed list len (46 ∷ 98 ∷ []) ≡ among two_names (46 ∷ 98 ∷ []))
    × (count_from len list len ≡ 2)
listed-packed_example =
    listed-packed two_names (9 ∷ []) (46 ∷ 98 ∷ [])
      ((refl, (refl, (refl, tt))), ((refl, (refl, (refl, tt))), tt))

-- A source of random bytes that gives 66 only, and the name that it makes.
abbrev name_of_66 : List ℕ
name_of_66 = replicate 248 66 ++ 149 ∷ 21 ∷ 21 ∷ 29 ∷ []

abbrev no_names : Walk
no_names = record { slots = λ _. []; count = 0; overflow = 0; added = 0 }

abbrev batch : List (List ℕ)
batch = (46 ∷ []) ∷ (46 ∷ 46 ∷ []) ∷ (97 ∷ 98 ∷ []) ∷ replicate 300 97 ∷ []

act_all-bounds_example :
    InSlots (act_all batch no_names)
    × ((act_all batch no_names).added ≡ 0 + real batch)
    × ((act_all batch no_names).count + (act_all batch no_names).overflow ≡ 0 + 0 + real batch)
act_all-bounds_example =
    act_all-bounds batch no_names (omega arith, λ i below. absurd (omega (arith, below)))

-- A stat tells the size and the time.
abbrev timed : Kernel
timed = record store { vfs_getattr = λ _ s. ((pos 0, s.size * 1000 + s.clock), s) }

abbrev stat_size : ℕ → ℕ
stat_size st = st / 1000

abbrev stat_time : ℕ → Timespec
stat_time st = record { tv_sec = pos 0; tv_nsec = st % 1000 }

resized :
    let r = down_and_up timed stat_size stat_time stat_time 5 false 0 0 start 0 in
    (r.0 ≡ some 123040) × (r.2 ≡ 0)
unfolding down_and_up truncate_step resize truncate at_path kstat on_path after
resized = (refl, refl)

down_and_up-after_example :
    (mid : ℕ) × Updated timed stat_size stat_time stat_time 0 0 mid
    × Updated timed stat_size stat_time stat_time 123 mid 123040
down_and_up-after_example =
    down_and_up-after timed stat_size stat_time stat_time 5 false 0 0 123040 start 0 resized.0
      resized.1

abbrev eight_zeros : Shadow
eight_zeros = record { bytes = λ _. 0; size = 8 }

final_check_iff_example :
    ((final_check counter store punch_hole ino_of 5 0 eight_zeros (record start { size = 8 }) 0).2
      ≡ 0)
    ↔ InSync counter store-KeepsData eight_zeros (record start { size = 8 })
final_check_iff_example =
    final_check_iff counter store-KeepsData 0 eight_zeros (record start { size = 8 }) 0
