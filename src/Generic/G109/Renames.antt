-- ===== src/Generic/G109/Renames.antt =====
-- The six renames of generic/109, in a directory of any size: each target has the type of its source.
use text.Mathlib.Text.{◌==◌ as ◌==s◌}
use Prim.Native.String.{count}
use nfsplayground.Base.{ℕ, ◌<◌, ◌≡◌, ◌≢◌, String, true, false, none, some, List, [], ◌∷◌}
use nfsplayground.Kernel.{Kernel}
use nfsplayground.Generic.G109.{Modes, Target, file_name}
use nfsplayground.Generic.G109.Entries.{Entries, put, moved, Used, HoldsEntries}

-- The directory after the files, after the links, and after the renames.
abbrev touched : Entries → Entries
touched v =
    put "fd2" false (put "fd1" false (put "fs3" false (put "fs2" false (put "fs1" false v))))

abbrev linked : Entries → Entries
linked v = put "sd2" true (put "sd1" true (put "ss3" true (put "ss2" true (put "ss1" true v))))

abbrev pub renamed : Entries → Entries
renamed v = moved "ss3" "ed2" (
    moved "ss2" "sd2"
      (moved "ss1" "fd2" (moved "fs3" "ed1" (moved "fs2" "sd1" (moved "fs1" "fd1" v)))))

-- No name that the renames use is there.
abbrev pub Free : Kernel → Entries → Type 0
Free K v = (name : String) → Used K name → count name ≡ 3 → v name ≡ none

-- Every target has its source's type, and every source is gone.
abbrev pub Kept : Entries → List Target → Type 0
Kept v [] = Unit
Kept v (t ∷ ts) = (v t.name ≡ some t.is_link) × Kept v ts

abbrev pub Gone : Entries → List String → Type 0
Gone v [] = Unit
Gone v (name ∷ names) = (v name ≡ none) × Gone v names

module _ {K : Kernel} {M : Modes K} {view : K.Machine → Entries} (L : HoldsEntries K M view) where
  -- The directory holds no names that the port uses but the first so many files.
  abbrev Filled : ℕ → Entries → Type 0
  Filled i v = (q : String) → Used K q → ((j : ℕ) → j < i → q ≢ file_name K M j) → v q ≡ none
