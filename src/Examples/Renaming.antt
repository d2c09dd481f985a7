-- ===== src/Examples/Renaming.antt =====
-- A small kernel with a directory whose names are files and links, and the port that renames them.
use Prim.Native.String.{◌++◌ as ◌<>◌}
use text.Mathlib.Text.{◌==◌ as ◌==s◌}
use nfsplayground.Base.{
  ℕ, zero, suc, String, ◌≡◌, refl, List, [], ◌∷◌, Bool, true, false, Option, none, some, ℤ, pos,
  negsuc, codes, if◌then◌else◌, ◌==◌, nonzero,
}
use nfsplayground.Kernel.{Kernel, ptr}
use nfsplayground.Fixture.{Fixture}
use nfsplayground.Generic.G109.{dir, Modes, Ladder}
use nfsplayground.Generic.G109.Entries.{Entries, is_there}
use nfsplayground.Examples.Toy.{Toy, toy, start}

-- A path without a prefix that it begins with
abbrev strip : String → String → String
strip String.[] s = s
strip (String.◌∷◌ c p) String.[] = String.[]
strip (String.◌∷◌ c p) (String.◌∷◌ d s) = strip p s

abbrev name_of : String → String
name_of path = strip "/" (strip dir path)

abbrev lookup : List (String × Option Bool) → Entries
lookup [] q = none
lookup ((name, kind) ∷ rest) q = let found = lookup rest q in if q ==s name then kind else found

abbrev view : Toy → Entries
view s = lookup s.dirents

abbrev add : String → Option Bool → Toy → Toy
add name kind s = record s { dirents = (name, kind) ∷ s.dirents }

abbrev move : String → String → Toy → Toy
move from to s = add to (view s from) (add from none s)

abbrev errno_of : Option Bool → ℤ
errno_of none = negsuc 1
errno_of (some _) = pos 0

abbrev kind_of : Option Bool → ℕ
kind_of none = 0
kind_of (some is_link) = if is_link then 1 else 0

-- The mount's file system tells no types when it lists names.
abbrev listing : List (String × Option Bool) → List (List ℕ × ℕ)
listing [] = []
listing ((name, kind) ∷ rest) = (codes name, 0) ∷ listing rest

abbrev unary : ℕ → String
unary zero = ""
unary (suc n) = "1" <> unary n

abbrev renaming : Kernel
renaming = record toy {
  do_symlinkat = λ target path s. (pos 0, add (name_of path) (some true) s);
  do_renameat2 = λ from to flags s. (pos 0, move (name_of from) (name_of to) s);
  kern_path = λ path flags s. ((errno_of (view s (name_of path)), path), s);
  path_put = λ p s. s;
  vfs_getattr = λ p s. ((pos 0, kind_of (view s (name_of p))), s);
  filp_open =
      λ path flags mode s. (ptr 5, if mode == 0 then s else add (name_of path) (some false) s);
  filp_close = λ f s. s;
  decimal = unary;
}

abbrev modes : Modes renaming
modes = record {
  iterate_dir = λ f s. ((pos 0, listing s.dirents), s);
  is_lnk = λ st. st == 1;
  is_reg = λ st. st == 0;
}

abbrev mount_fixture : Fixture renaming
mount_fixture = record {
  machine = start;
  saved_creds = none;
  override = none;
  fixture_refs = 1;
  export_mount_opts = "";
  tmpfs_mounted = true;
  nfsdfs_mounted = true;
  nfsd_up = true;
  client_mounted = true;
  bringup_root = none;
  hostbin = "/bin";
  hostbin_mounted = false;
  prog_seq = 0;
}

abbrev ladder : Ladder renaming
ladder = record { fixture = mount_fixture; cur_files = 0 }

there_errno : (o : Option Bool) → (if nonzero (errno_of o) then false else true) ≡ is_there o
there_errno none = refl
there_errno (some b) = refl
