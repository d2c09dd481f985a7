-- ===== src/Generic/G007/Table.antt =====
-- The table of generic/007 refines the directory: on a file system that creates, removes and finds
-- names, no assertion fails.
use text.Mathlib.TextLemmas.{append_cancel_left}
use nfsplayground.Base.{
  ℕ, zero, suc, ◌+◌, ◌≡◌, ◌≢◌, refl, sym, ◌∙◌, ap, inl, inr, String, true, false, Option, none,
  some, pos, [], ◌∷◌, ◌==◌, ==_iff, if◌then◌else◌, e_noent, e_exist, arith, Bool-cases,
}
use nfsplayground.Kernel.{Kernel, ptr, err_ptr, o_rdwr, o_creat, o_excl}
use nfsplayground.Paths.{unlink, kstat}
use nfsplayground.Kunit.{◌>>=◌, ◌>>◌, run, step, assert}
use nfsplayground.Generic.G001.{Random}
use nfsplayground.Generic.G007.{
  Entry, Table, set_entry, root, path_of, Op, lookup, create, remove, op_of, create_name,
  remove_name, lookup_name, do_op, rounds,
}

-- What the kernel documents of the names in a directory, where `entry` gives the inode number of the
-- file of a name.
pub record Names (K : Kernel) (ino_of : K.Kstat → ℕ) (entry : K.Machine → String → Option ℕ)
    : Type 0 where
  pub open_new :
      (path : String) (s : K.Machine)
      → entry s path ≡ none
      → let o = K.filp_open path (o_rdwr ∷ o_creat ∷ o_excl ∷ []) 0o666 s in
        (f : K.File) × (i : ℕ) × (o.0 ≡ ptr f)
        × (entry o.1 path ≡ some i)
        × ((q : String) → q ≢ path → entry o.1 q ≡ entry s q)
  pub open_there :
      (path : String) (s : K.Machine) (i : ℕ)
      → entry s path ≡ some i
      → let o = K.filp_open path (o_rdwr ∷ o_creat ∷ o_excl ∷ []) 0o666 s in
        (o.0 ≡ err_ptr e_exist) × ((q : String) → entry o.1 q ≡ entry s q)
  pub entry-filp_close :
      (f : K.File) (s : K.Machine) (q : String) → entry (K.filp_close f s) q ≡ entry s q
  pub unlink_there :
      (path : String) (s : K.Machine) (i : ℕ)
      → entry s path ≡ some i
      → let u = K.do_unlinkat path s in
        (u.0 ≡ pos 0)
        × (entry u.1 path ≡ none)
        × ((q : String) → q ≢ path → entry u.1 q ≡ entry s q)
  pub unlink_missing :
      (path : String) (s : K.Machine)
      → entry s path ≡ none
      → let u = K.do_unlinkat path s in (u.0 ≡ e_noent) × ((q : String) → entry u.1 q ≡ entry s q)
  pub path_missing :
      (path : String) (s : K.Machine)
      → entry s path ≡ none
      → let k = K.kern_path path 0 s in (k.0.0 ≡ e_noent) × ((q : String) → entry k.1 q ≡ entry s q)
  pub path_there :
      (path : String) (s : K.Machine) (i : ℕ)
      → entry s path ≡ some i
      → let k = K.kern_path path 0 s in
        let g = K.vfs_getattr k.0.1 k.1 in
        (k.0.0 ≡ pos 0)
        × (g.0.0 ≡ pos 0)
        × (ino_of g.0.1 ≡ i)
        × ((q : String) → entry g.1 q ≡ entry s q)
  pub entry-path_put :
      (p : K.PathRef) (s : K.Machine) (q : String) → entry (K.path_put p s) q ≡ entry s q
  -- no two numbers are printed alike
  pub decimal-injective : (i j : ℕ) → K.decimal i ≡ K.decimal j → i ≡ j

module _ (R : Random) {K : Kernel} {ino_of : K.Kstat → ℕ} {entry : K.Machine → String → Option ℕ}
    (L : Names K ino_of entry) where
  -- The table says of each name what the directory says.
  abbrev pub Agrees : Table → K.Machine → Type 0
  Agrees tab s =
      (i : ℕ) → entry s (path_of K.decimal i) ≡ (if (tab i).exists then some (tab i).ino else none)

  path_of-ne : (i j : ℕ) → (j == i) ≡ false → path_of K.decimal j ≢ path_of K.decimal i
  unfolding path_of
  path_of-ne i j ne e =
      let d = append_cancel_left root _ _ e in
      let n = L.decimal-injective (j + 1) (i + 1) (append_cancel_left "/nametest." _ _ d) in
      ground (arith, n, ne)

  -- One entry is set as the directory has changed at its name.
  Agrees-set :
      (tab : Table) (i : ℕ) (e : Entry) (s s' : K.Machine)
      → Agrees tab s
      → entry s' (path_of K.decimal i) ≡ (if e.exists then some e.ino else none)
      → ((q : String) → q ≢ path_of K.decimal i → entry s' q ≡ entry s q)
      → Agrees (set_entry tab i e) s'
  Agrees-set tab i e s s' agree here others j = elim (Bool-cases (j == i)) [
    | inl same ↦ rw same (rw ((==_iff j i).0 same) here)
    | inr ne ↦ rw ne (others (path_of K.decimal j) (path_of-ne i j ne) ∙ agree j)
  ]

  Agrees-same :
      (tab : Table) (s s' : K.Machine)
      → Agrees tab s
      → ((q : String) → entry s' q ≡ entry s q)
      → Agrees tab s'
  Agrees-same tab s s' agree same j = same (path_of K.decimal j) ∙ agree j

  kstat-there :
      (st : K.Kstat) (path : String) (s : K.Machine) (i : ℕ)
      → entry s path ≡ some i
      → let k = kstat K st path s in
        (k.0.0 ≡ pos 0) × (ino_of k.0.1 ≡ i) × ((q : String) → entry k.1 q ≡ entry s q)
  unfolding kstat
  kstat-there st path s i there =
      let t = L.path_there path s i there in
      let k = K.kern_path path 0 s in
      rw t.0 (t.1, t.2, λ q. L.entry-path_put k.0.1 (K.vfs_getattr k.0.1 k.1).1 q ∙ t.3 q)

  kstat-missing :
      (st : K.Kstat) (path : String) (s : K.Machine)
      → entry s path ≡ none
      → let k = kstat K st path s in (k.0.0 ≡ e_noent) × ((q : String) → entry k.1 q ≡ entry s q)
  unfolding kstat
  kstat-missing st path s missing = let t = L.path_missing path s missing in rw t.0 (refl, t.1)

  -- A part of the case that went through without a failure, and the table it leaves agrees.
  abbrev pub Passed : Option Table × K.Machine × ℕ → ℕ → Type 0
  Passed r n = (tab : Table) × (r.0 ≡ some tab) × (r.2 ≡ n) × Agrees tab r.1

  create_name-Passed :
      (st : K.Kstat) (i : ℕ) (tab : Table) (s : K.Machine) (n : ℕ)
      → Agrees tab s
      → Passed (create_name R K ino_of st i tab s n) n
  unfolding create_name
  create_name-Passed st i tab s n agree = elim (Bool-cases (tab i).exists) [
    | inl there ↦
        let o = L.open_there (path_of K.decimal i) s (tab i).ino (rw there at (agree i)) in
        rw (◌>>=◌, run, o.0)
          (rw (assert, ◌>>◌, there)
            (
              tab,
              refl,
              refl,
              Agrees-same tab s
                  (K.filp_open (path_of K.decimal i) (o_rdwr ∷ o_creat ∷ o_excl ∷ []) 0o666 s).1
                  agree o.1,
            ))
    | inr missing ↦
        let o = L.open_new (path_of K.decimal i) s (rw missing at (agree i)) in
        let p = path_of K.decimal i in
        let s1 = (K.filp_open p (o_rdwr ∷ o_creat ∷ o_excl ∷ []) 0o666 s).1 in
        let s2 = K.filp_close o.0 s1 in
        let closed = L.entry-filp_close o.0 s1 in
        let k = kstat-there st p s2 o.1 (closed p ∙ o.3) in
        let new : Entry = record { exists = true; ino = ino_of (kstat K st p s2).0.1 } in
        let agree' =
          Agrees-set tab i new s (kstat K st p s2).1 agree
            (k.2 p ∙ closed p ∙ o.3 ∙ ap some (sym k.1)) (λ q ne. k.2 q ∙ closed q ∙ o.4 q ne) in
        rw (◌>>=◌, run, o.2)
          (rw (step, assert, ◌>>◌, missing)
            (rw (assert, ◌>>◌, k.0) (set_entry tab i new, refl, refl, agree')))
  ]

  remove_name-Passed :
      (i : ℕ) (tab : Table) (s : K.Machine) (n : ℕ)
      → Agrees tab s
      → Passed (remove_name R K ino_of i tab s n) n
  unfolding remove_name unlink
  remove_name-Passed i tab s n agree = elim (Bool-cases (tab i).exists) [
    | inl there ↦
        let p = path_of K.decimal i in
        let o = L.unlink_there p s (tab i).ino (rw there at (agree i)) in
        let new : Entry = record { exists = false; ino = (tab i).ino } in
        rw (◌>>=◌, run, o.0, assert, ◌>>◌, there, there)
          (
            set_entry tab i new,
            refl,
            refl,
            Agrees-set tab i new s (K.do_unlinkat p s).1 agree o.1 o.2,
          )
    | inr missing ↦
        let p = path_of K.decimal i in
        let o = L.unlink_missing p s (rw missing at (agree i)) in
        rw (◌>>=◌, run, o.0, assert, ◌>>◌, missing, o.0, missing)
          (tab, refl, refl, Agrees-same tab s (K.do_unlinkat p s).1 agree o.1)
  ]

  lookup_name-Passed :
      (st : K.Kstat) (i : ℕ) (tab : Table) (s : K.Machine) (n : ℕ)
      → Agrees tab s
      → Passed (lookup_name R K ino_of st i tab s n) n
  unfolding lookup_name
  lookup_name-Passed st i tab s n agree = elim (Bool-cases (tab i).exists) [
    | inl there ↦
        let p = path_of K.decimal i in
        let k = kstat-there st p s (tab i).ino (rw there at (agree i)) in
        let same = (==_iff (ino_of (kstat K st p s).0.1) (tab i).ino).1 k.1 in
        rw (◌>>=◌, run, k.0, assert, ◌>>◌, there, same, there, same)
          (tab, refl, refl, Agrees-same tab s (kstat K st p s).1 agree k.2)
    | inr missing ↦
        let p = path_of K.decimal i in
        let k = kstat-missing st p s (rw missing at (agree i)) in
        rw (◌>>=◌, run, k.0, assert, ◌>>◌, missing, k.0, missing)
          (tab, refl, refl, Agrees-same tab s (kstat K st p s).1 agree k.1)
  ]

  do_op-Passed :
      (st : K.Kstat) (op : Op) (tab : Table) (s : K.Machine) (n : ℕ)
      → Agrees tab s
      → Passed (do_op R K ino_of st op tab s n) n
  unfolding do_op
  do_op-Passed st (lookup i) = lookup_name-Passed st i
  do_op-Passed st (create i) = create_name-Passed st i
  do_op-Passed st (remove i) = remove_name-Passed i

  -- On a file system that opens, removes and looks up names as it is documented to, and from a table
  -- that agrees with the directory, any number of rounds, whatever is drawn, passes every assertion
  -- and leaves a table that agrees with the directory.
  pub rounds-Agrees :
      (st : K.Kstat) (left iter : ℕ) (rnd : R.RndState) (tab : Table) (s : K.Machine) (n : ℕ)
      → Agrees tab s
      → Passed (rounds R K ino_of st left iter rnd tab s n) n
  unfolding rounds
  rounds-Agrees st zero iter rnd tab s n agree = (tab, refl, refl, agree)
  rounds-Agrees st (suc left) iter rnd tab s n agree =
      let drawn = R.prandom_u32_state rnd in
      let d = do_op-Passed st (op_of iter drawn.0) tab s n agree in
      let r = do_op R K ino_of st (op_of iter drawn.0) tab s n in
      let rest = rounds-Agrees st left (suc iter) drawn.1 d.0 r.1 n d.3 in rw (◌>>=◌, d.1, d.2) rest
