-- ===== src/Examples/Races.antt =====
-- A small kernel whose directory is listed in one batch, and the race of two threads on it.
use mathlib.Core.List.{Permᴰ}
use Prim.Native.String.{◌++◌ as ◌<>◌}
use text.Mathlib.TextLemmas.{cons-append}
use nfsplayground.Base.{
  String, codes, ◌≢◌, ℕ, zero, suc, ◌≡◌, refl, ap, arith, true, List, [], ◌∷◌, ◌++◌, some, pos,
  negsuc, ltb, if◌then◌else◌,
}
use nfsplayground.Kernel.{Kernel}
use nfsplayground.Generic.G310.{DirectoryCalls, Racing, new_reader, race}
use nfsplayground.Generic.G310.Listed.{made, names}
use nfsplayground.Generic.G310.Race.{ListsAll, race-Passed}
use nfsplayground.Examples.Toy.{Toy, toy, start}

-- A number is printed in unary, with one digit more.
abbrev ones : ℕ → String
ones zero = "1"
ones (suc n) = "1" <> ones n

abbrev racing_kernel : Kernel
racing_kernel = record toy { decimal = ones }

ones-digits : (i : ℕ) → codes (ones i) ≢ []
ones-digits zero e = cc
ones-digits (suc i) e = cc (e, ap codes (cons-append "1" "" (ones i)))

-- `..` comes first.
abbrev all : List (List ℕ)
all = (46 ∷ 46 ∷ []) ∷ (46 ∷ []) ∷ made racing_kernel 32 0

all-names : Permᴰ all (names racing_kernel)
all-names = Permᴰ.swap refl refl

-- Whether the listing has ended is the toy's count of creds.
abbrev left_of : ℕ → List (List ℕ)
left_of zero = []
left_of (suc n) = all

abbrev left : Toy → List (List ℕ)
left s = left_of s.owned

abbrev listing : DirectoryCalls racing_kernel
listing = record {
  vfs_read = λ d buf len s. (negsuc 20, s);
  seek_start = λ d s. (pos 0, record s { owned = 1 });
  iterate_dir = λ d s. ((pos 0, left s), record s { owned = 0 });
  kunit_vm_mmap = λ s. (64, s);
  kthread_run = λ s. (true, s);
}

append_nil : (xs : List (List ℕ)) → xs ≡ xs ++ []
append_nil [] = refl
append_nil (x ∷ xs) = ap (λ l. x ∷ l) (append_nil xs)

listing-ListsAll : ListsAll racing_kernel listing all left
listing-ListsAll = record {
  vfs_read_fails = λ d buf len s. (refl, refl);
  seek_start_rewinds = λ d s. (refl, refl);
  iterate_dir_takes = λ d s. (refl, append_nil (left s), λ e. e);
}

abbrev two_threads : Racing racing_kernel
two_threads = record { machine = start; reader = new_reader; pauses = 3 ∷ 0 ∷ 5 ∷ [] }

race-Passed_example :
    let r = race racing_kernel listing 40 5 64 two_threads 0 in
    (r.0 ≡ some tt)
    × (r.2 ≡ (if ltb 0 r.1.reader.reads then 0 else 1))
    × (r.1.reader.wrong ≡ 0)
    × (r.1.reader.err ≡ pos 0)
race-Passed_example =
    race-Passed listing-ListsAll 5 64 40 (3 ∷ 0 ∷ 5 ∷ []) start 0 ones-digits all-names
      (omega arith)
