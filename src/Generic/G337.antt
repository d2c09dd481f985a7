-- ===== src/Generic/G337.antt =====
-- kunit/xfstests/generic/337.c: listxattr returns every name.
pub mod Listed
use Prim.Native.String.{◌++◌ as ◌<>◌}
use nfsplayground.Base.{
  ℕ, zero, suc, ◌+◌, ◌-◌, String, Bool, true, false, not, List, [], ◌∷◌, ℤ, pos, negative, nonzero,
  positive, count_of, ◌==◌, ◌==ℤ◌, ltb, length, drop, take, replicate, ◌++◌, same, c_string, codes,
  call,
}
use nfsplayground.Kernel.{Kernel}
use nfsplayground.Fixture.{Fixture, sys}
use nfsplayground.Paths.{unlink, setxattr, getxattr, listxattr}
use nfsplayground.Settle.{mnt, rmdir_settled}
use nfsplayground.Server.{export_dir}
use nfsplayground.Kunit.{Case, pass, ◌>>=◌, ◌>>◌, assert, expect, each}
use nfsplayground.Generic.Steps.{Body, call_sys, ok, write_ok, allocated, in_root}

abbrev pub root : String
root = mnt <> "/g337"

abbrev pub file : String
file = root <> "/testfile"

abbrev pub server_file : String
server_file = export_dir <> "/g337/testfile"

abbrev pub xattrs : List (String × String)
xattrs =
    ("user.foobar", "123")
    ∷ ("user.WvG1c1Td", "qwerty")
    ∷ ("user.J3__T_Km3dVsW_", "hello")
    ∷ ("user.something", "pizza")
    ∷ ("user.ping", "pong")
    ∷ []

-- `while (off < len)`, from `list + off` on with `len - off` bytes left: each round moves behind a
-- terminator, so that as many rounds as there are bytes are enough.
pub listed_from : ℕ → List ℕ → ℕ → List ℕ → Bool
listed_from zero list left name = false
listed_from (suc rounds) list left name = elim (ltb 0 left) [
  | false ↦ false
  | true ↦
      let n = length (c_string list) + 1 in
      elim (same (c_string list) name) [
        | true ↦ true
        | false ↦ listed_from rounds (drop n list) (left - n) name
      ]
]

pub listed : List ℕ → ℕ → List ℕ → Bool
listed list len name = listed_from len list len name

-- `for (off = 0; off < len; off += strlen(list + off) + 1) count++;`
pub count_from : ℕ → List ℕ → ℕ → ℕ
count_from zero list left = 0
count_from (suc rounds) list left = elim (ltb 0 left) [
  | false ↦ 0
  | true ↦ let n = length (c_string list) + 1 in suc (count_from rounds (drop n list) (left - n))
]

module _ (K : Kernel) where
  open K use {Machine, kmalloc}

  unfoldable remove_tree : Machine → Machine
  remove_tree s = (rmdir_settled K root (unlink K file s).1).1

  -- The buffer is a page of zeros before the call; `page_size` is the architecture's.
  unfoldable check_list : ℕ → String → Body K (Unit {0})
  check_list page_size path = do
    allocated K
    (len, bytes) ← call_sys K (listxattr K path page_size)
    assert (positive len)
    let list = bytes ++ replicate (page_size - length bytes) 0
    each xattrs (λ x. expect (listed list (count_of len) (codes x.0)))
    expect (count_from (count_of len) list (count_of len) == length xattrs)

  -- Every value still belongs to its own name; the buffer has 16 bytes.
  unfoldable check_value : String × String → Body K (Unit {0})
  check_value x = do
    (len, value) ← call_sys K (getxattr K file x.0 16)
    assert (len ==ℤ pos (length (codes x.1)))
    expect (same (take (count_of len) value) (codes x.1))

  unfoldable every_name : ℕ → Body K (Unit {0})
  every_name page_size = in_root K root remove_tree (do
    write_ok K file []
    each xattrs (λ x. ok K (setxattr K file x.0 (codes x.1) 0))
    check_list page_size file
    check_list page_size server_file
    each xattrs check_value)
