-- ===== src/Generic/G377.antt =====
-- kunit/xfstests/generic/377.c: listxattr with buffers of every size returns all or -ERANGE.
use Prim.Native.String.{◌++◌ as ◌<>◌}
use Prim.Native.Nat.{min}
use nfsplayground.Base.{
  ℕ, ◌+◌, ◌-◌, ◌^◌, String, List, [], ◌∷◌, ℤ, pos, count_of, ◌==ℤ◌, length, replicate, ◌++◌, codes,
  e_noent, e_range,
}
use nfsplayground.Kernel.{Kernel}
use nfsplayground.Paths.{unlink, setxattr, listxattr}
use nfsplayground.Settle.{mnt, rmdir_settled}
use nfsplayground.Kunit.{◌>>=◌, ◌>>◌, assert, expect, each}
use nfsplayground.Generic.Steps.{Body, call_sys, ok, write_ok, allocated, in_root}
use nfsplayground.Generic.G337.{listed}

abbrev pub root : String
root = mnt <> "/g377"

abbrev pub file : String
file = root <> "/testfile"

abbrev pub missing : String
missing = root <> "/no-such-file"

abbrev pub xattrs : List (String × String)
xattrs = ("user.foo", "bar") ∷ ("user.ping", "pong") ∷ ("user.hello", "there") ∷ []

-- `strlen(x->name) + 1`
abbrev pub entry_size : String × String → ℕ
entry_size x = length (codes x.0) + 1

abbrev pub sum_sizes : List (String × String) → ℕ
sum_sizes [] = 0
sum_sizes (x ∷ xs) = entry_size x + sum_sizes xs

-- `total`, `first_two` and `shortest`, which the code adds up as it sets the attributes.
abbrev pub total : ℕ
total = sum_sizes xattrs

abbrev pub first_two : ℕ
first_two = sum_sizes (("user.foo", "bar") ∷ ("user.ping", "pong") ∷ [])

abbrev pub shortest_of : List (String × String) → ℕ
shortest_of [] = 2 ^ 64 - 1
shortest_of (x ∷ xs) = min (entry_size x) (shortest_of xs)

module _ (K : Kernel) where
  open K use {Machine}

  unfoldable remove_tree : Machine → Machine
  remove_tree s = (rmdir_settled K root (unlink K file s).1).1

  -- What listxattr returns with a buffer of that size.
  abbrev length_is : String → ℕ → ℤ → Body K (Unit {0})
  length_is path size want = do (len, _) ← call_sys K (listxattr K path size); expect (len ==ℤ want)

  unfoldable sizes_are_all_or_erange : ℕ → Body K (Unit {0})
  sizes_are_all_or_erange page_size = in_root K root remove_tree (do
    write_ok K file []
    each xattrs (λ x. ok K (setxattr K file x.0 (codes x.1) 0))
    allocated K
    length_is file 0 (pos total)
    length_is missing page_size e_noent
    length_is file 1 e_range
    length_is file (shortest_of xattrs) e_range
    length_is file (first_two - 1) e_range
    (len, bytes) ← call_sys K (listxattr K file page_size)
    assert (len ==ℤ pos total)
    let list = bytes ++ replicate (page_size - length bytes) 0
    each xattrs (λ x. expect (listed list (count_of len) (codes x.0))))
