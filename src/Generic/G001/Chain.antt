-- ===== src/Generic/G001/Chain.antt =====
-- The chains of copies, and the cases that run them.
pub mod Closed
use Prim.Native.String.{◌++◌ as ◌<>◌}
use nfsplayground.Base.{
  same, same_iff, ℕ, zero, suc, ◌+◌, ◌-◌, ◌%◌, String, Bool, true, false, not, ◌||◌, Option, none,
  some, List, [], ◌∷◌, ◌++◌, ℤ, pos, nonzero, negative, State, call, ◌==ℤ◌, ◌==◌, if◌then◌else◌,
  e_exist, length,
}
use nfsplayground.Kernel.{Kernel, o_wronly, o_rdonly, o_creat, o_trunc, ptr, err_ptr}
use nfsplayground.Fixture.{Fixture}
use nfsplayground.Paths.{mkdir, rmdir, rename, unlink, exists}
use nfsplayground.Settle.{mnt}
use nfsplayground.Server.{export_dir}
use nfsplayground.Kunit.{Case, pass, ◌>>=◌, ◌>>◌, run, step, assert, abort, expect, with_action}
use nfsplayground.Generic.G001.{root, Link, original, last, numbered, path_of, Random}
use nfsplayground.Generic.G001.Content.{seed_for, fill_chunk, write_file, copy, verify_content}

-- gen001_config, without the links: a name and its bytes.
abbrev pub config : List (String × ℕ)
config =
    ("small", 10)
    ∷ ("big", 102400)
    ∷ ("sub/small", 10)
    ∷ ("sub/big", 102400)
    ∷ ("sub/a", 1)
    ∷ ("sub/b", 2)
    ∷ ("sub/c", 4)
    ∷ ("sub/d", 8)
    ∷ ("sub/e", 16)
    ∷ ("sub/f", 32)
    ∷ ("sub/g", 64)
    ∷ ("sub/h", 128)
    ∷ ("sub/i", 256)
    ∷ ("sub/j", 512)
    ∷ ("sub/k", 1024)
    ∷ ("sub/l", 2048)
    ∷ ("sub/m", 4096)
    ∷ ("sub/n", 8192)
    ∷ ("sub/a00", 100)
    ∷ ("sub/b00", 200)
    ∷ ("sub/c00", 400)
    ∷ ("sub/d00", 800)
    ∷ ("sub/e00", 1600)
    ∷ ("sub/f00", 3200)
    ∷ ("sub/g00", 6400)
    ∷ ("sub/h00", 12800)
    ∷ ("sub/i00", 25600)
    ∷ ("sub/j00", 51200)
    ∷ ("sub/k00", 102400)
    ∷ ("sub/l00", 204800)
    ∷ ("sub/m00", 409600)
    ∷ ("sub/n00", 819200)
    ∷ ("sub/a000", 1000)
    ∷ ("sub/e000", 16000)
    ∷ ("sub/h000", 128000)
    ∷ ("sub/k000", 1024000)
    ∷ []

abbrev pub nfiles : ℕ
nfiles = length config

abbrev pub ncopy : ℕ
ncopy = 200

-- The links are kept beside the table: the entry at a place, and one more link there.
unfoldable pub entry_at : ℕ → List (String × ℕ) → List ℕ → String × ℕ
entry_at zero ((rel, _) ∷ _) (link ∷ _) = (rel, link)
entry_at (suc i) (_ ∷ entries) (_ ∷ links) = entry_at i entries links
entry_at _ [] _ = ("", 0)
entry_at _ (_ ∷ _) [] = ("", 0)

unfoldable pub count_link : ℕ → List ℕ → List ℕ
count_link i [] = []
count_link zero (link ∷ links) = suc link ∷ links
count_link (suc i) (link ∷ links) = link ∷ count_link i links

-- `e->link ? e->link - 1 : -1`
unfoldable pub source_link : ℕ → Link
source_link zero = original
source_link (suc n) = numbered n

module _ (R : Random) (K : Kernel) where
  open R use {RndState, prandom_seed_state, prandom_u32_state}
  open K use {Machine, File, filp_open, filp_close, kernel_write, kernel_read, kmalloc, decimal}

  abbrev pub Body : Type 0 → Type 0
  Body A = Case Machine A

  abbrev pub path : String → Link → String
  path = path_of decimal

  -- a call that must return 0
  abbrev pub ok : State Machine ℤ → Body (Unit {0})
  ok call = run call >>= (λ err. assert (not (nonzero err)))

  -- The copies of one iteration; `fuel` is for the loop of each copy.
  unfoldable pub copies : ℕ → ℕ → RndState → List ℕ → Body (List ℕ)
  copies fuel zero pick links = pass links
  copies fuel (suc left) pick links = do
    let drawn = prandom_u32_state pick
    let i = drawn.0 % nfiles
    let e = entry_at i config links
    copy R K fuel (path e.0 (source_link e.1)) (path e.0 (numbered e.1))
    copies fuel left drawn.1 (count_link i links)

  -- `for (j = 0; j < e->link - 1; j++)`
  unfoldable pub unlink_from : ℕ → ℕ → String → Body (Unit {0})
  unlink_from zero j rel = pass tt
  unlink_from (suc left) j rel = do
    ok (unlink K (path rel (numbered j)))
    unlink_from left (suc j) rel

  -- Closing one chain: what is left of its links.
  unfoldable pub close_chain : String → ℕ → Body ℕ
  close_chain rel zero = pass 0
  close_chain rel (suc n) = do
    ok (rename K (path rel (numbered n)) (path rel last))
    unlink_from n 0 rel
    pass 0

  unfoldable pub close_chains : List (String × ℕ) → List ℕ → Body (List ℕ)
  close_chains [] links = pass links
  close_chains (_ ∷ _) [] = pass []
  close_chains ((rel, _) ∷ entries) (link ∷ links) = do
    link' ← close_chain rel link
    links' ← close_chains entries links
    pass (link' ∷ links')

  unfoldable pub chain : ℕ → ℕ → List ℕ → Body (List ℕ)
  chain fuel iter links = do
    links' ← copies fuel ncopy (prandom_seed_state iter) links
    close_chains config links'

  unfoldable check_all : List (String × ℕ) → Body (Unit {0})
  check_all [] = pass tt
  check_all ((rel, bytes) ∷ entries) = do
    verify_content R K rel (path rel original) bytes
    there ← run (exists K (path rel last))
    if there then verify_content R K rel (path rel last) bytes else pass tt
    check_all entries

  -- `for (j = 0; j < GEN001_NCOPY; j++) if (xfs_unlink(...)) break;`
  unfoldable unlink_links : ℕ → ℕ → String → Machine → Machine
  unlink_links zero j rel s = s
  unlink_links (suc left) j rel s =
      let u = unlink K (path rel (numbered j)) s in
      if nonzero u.0 then u.1 else unlink_links left (suc j) rel u.1

  unfoldable remove_files : List (String × ℕ) → Machine → Machine
  remove_files [] s = s
  remove_files ((rel, _) ∷ entries) s =
      let s1 = (unlink K (path rel original) s).1 in
      let s2 = (unlink K (path rel last) s1).1 in remove_files entries (unlink_links ncopy 0 rel s2)

  unfoldable remove_tree : Machine → Machine
  remove_tree s = (rmdir K root (rmdir K (root <> "/sub") (remove_files config s)).1).1

  -- gen001_mkdirs, around the rest of the case.
  unfoldable with_dirs : Body (Unit {0}) → Body (Unit {0})
  with_dirs body = do
    err ← run (mkdir K root)
    assert (not (nonzero err) || err ==ℤ e_exist)
    err ← run (mkdir K (root <> "/sub"))
    assert (not (nonzero err) || err ==ℤ e_exist)
    granted ← run kmalloc
    with_action granted remove_tree body

  unfoldable write_all : List (String × ℕ) → Body (Unit {0})
  write_all [] = pass tt
  write_all ((rel, bytes) ∷ entries) = do write_file R K rel bytes; write_all entries

  -- `for (iter = 1; iter <= GEN001_ITERS; iter++)`
  unfoldable iterations : ℕ → ℕ → ℕ → List ℕ → Body (Unit {0})
  iterations fuel zero iter links = pass tt
  iterations fuel (suc left) iter links = do
    links' ← chain fuel iter links
    check_all config
    iterations fuel left (suc iter) links'

  -- The last case: five iterations. `up` is what xfstests_nfs_mounted returned.
  unfoldable five_iterations : ℕ → Bool → List ℕ → Body (Unit {0})
  five_iterations fuel up links = do
    assert up
    with_dirs (do write_all config; iterations fuel 5 1 links)

  -- `for (j = 0; j < 3; j++)` over a case's copies from one link to the next.
  unfoldable copy_links : ℕ → ℕ → ℕ → String → Body (Unit {0})
  copy_links fuel zero j rel = pass tt
  copy_links fuel (suc left) j rel = do
    copy R K fuel (path rel (source_link j)) (path rel (numbered j))
    copy_links fuel left (suc j) rel

  -- The case of one chain of three links; `page_size` is the architecture's.
  unfoldable one_chain : ℕ → ℕ → Bool → Body (Unit {0})
  one_chain fuel page_size up = do
    assert up
    with_dirs (do
      write_file R K "sub/m" (page_size + 1)
      copy_links fuel 3 0 "sub/m"
      ok (rename K (path "sub/m" (numbered 2)) (path "sub/m" last))
      unlink_from 2 0 "sub/m"
      verify_content R K "sub/m" (path "sub/m" original) (page_size + 1)
      verify_content R K "sub/m" (path "sub/m" last) (page_size + 1))

  -- The case that checks the filling itself.
  unfoldable fill_is_deterministic : Body (Unit {0})
  fill_is_deterministic = do
    granted ← run kmalloc
    granted' ← run kmalloc
    assert granted
    assert granted'
    let a = (fill_chunk R 512 (seed_for R "sub/a00")).0
    let b = (fill_chunk R 512 (seed_for R "sub/a00")).0
    expect (same a b)
    let b' = (fill_chunk R 512 (seed_for R "sub/b00")).0
    expect (not (same a b'))
