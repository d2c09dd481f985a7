-- ===== src/Generic/G109/Entries.antt =====
-- What the kernel documents of names in a directory, for generic/109, and what the calls of the port
-- make of them.
use text.Mathlib.Text.{◌==◌ as ◌==s◌}
use Prim.Native.String.{◌++◌ as ◌<>◌}
use nfsplayground.Base.{
  sym, ◌⊎◌, ◌==◌, ℕ, ◌≡◌, refl, ap, ◌∙◌, String, Bool, true, false, not, ◌&&◌, ◌||◌, Option, none,
  some, List, [], ◌∷◌, pos, State, nonzero, codes, same, if◌then◌else◌, Bool-cases, inl, inr, ℤ,
}
use nfsplayground.Kernel.{Kernel, ptr, o_rdonly, o_directory}
use nfsplayground.Paths.{rename, symlink, exists, kstat}
use nfsplayground.Files.{write_new_file}
use nfsplayground.Kunit.{
  Case, ◌>>=◌, ◌>>◌, run, assert, expect, Fine-run, Fine-then, expect-Fine, Leads, and_true,
}
use nfsplayground.Kunit.Parts.{Part}
use nfsplayground.Generic.G109.{
  dir, path_of, Modes, Target, Search, actor, act_all, dt_unknown, type_fits, readdir_type, call_ok,
  touch, link_name, rename_name, check_gone, check_target,
}

-- The names in the directory, each with whether it is a link.
abbrev pub Entries : Type 0
Entries = String → Option Bool

abbrev pub put : String → Bool → Entries → Entries
put name is_link v q = if q ==s name then some is_link else v q

abbrev pub moved : String → String → Entries → Entries
moved from to v q = if q ==s to then v from else if q ==s from then none else v q

abbrev pub is_there : Option Bool → Bool
is_there none = false
is_there (some _) = true

-- The names that the port uses: `Used i` are the short ones, and the files `fname0` to `fname(i - 1)`.
abbrev pub short_names : List String
short_names =
    "fs1" ∷ "fs2" ∷ "fs3" ∷ "ss1" ∷ "ss2" ∷ "ss3" ∷ "fd1" ∷ "sd1" ∷ "ed1" ∷ "fd2" ∷ "sd2" ∷ "ed2"
    ∷ []

abbrev pub is_short : String → List String → Bool
is_short q [] = false
is_short q (name ∷ rest) = q ==s name || is_short q rest

abbrev pub Used : Kernel → String → Type 0
Used K q = (is_short q short_names ≡ true) ⊎ ((i : ℕ) × (q ≡ "fname" <> K.decimal i))

-- The type that a listing gives a file is DT_REG, 8, and a link DT_LNK, 10; a file system that does not
-- tell types gives DT_UNKNOWN, 0.
abbrev pub right_type : Bool → ℕ → Bool
right_type is_link type = type == 0 || type == (if is_link then 10 else 8)

right_type-fits : (is_link : Bool) (type : ℕ) → right_type is_link type ≡ type_fits is_link type
right_type-fits is_link type = elim (Bool-cases (type == 0)) [
  | inl e ↦ rw e refl
  | inr e ↦ rw e refl
]

-- A listing has a name, and gives it no other type than its own.
abbrev pub listed : List ℕ → List (List ℕ × ℕ) → Bool
listed want [] = false
listed want ((name, type) ∷ entries) = same want name || listed want entries

abbrev pub typed : Bool → List ℕ → List (List ℕ × ℕ) → Bool
typed is_link want [] = true
typed is_link want ((name, type) ∷ entries) =
    (if same want name then right_type is_link type else true) && typed is_link want entries

-- What the kernel documents of the names that the port uses.
pub record HoldsEntries (K : Kernel) (M : Modes K) (view : K.Machine → Entries) : Type 0 where
  pub write_new_file_adds :
      (name : String) (s : K.Machine)
      → Used K name
      → view s name ≡ none
      → let w = write_new_file K (path_of name) [] s in
        (w.0 ≡ some (pos 0)) × (view w.1 ≡ put name false (view s))
  pub symlink_adds :
      (name : String) (s : K.Machine)
      → Used K name
      → view s name ≡ none
      → let y = symlink K "foo" (path_of name) s in
        (y.0 ≡ pos 0) × (view y.1 ≡ put name true (view s))
  pub rename_moves :
      (from to : String) (is_link : Bool) (s : K.Machine)
      → Used K from
      → Used K to
      → view s from ≡ some is_link
      → let r = rename K (path_of from) (path_of to) s in
        (r.0 ≡ pos 0) × (view r.1 ≡ moved from to (view s))
  pub exists_tells :
      (name : String) (s : K.Machine)
      → Used K name
      → let e = exists K (path_of name) s in (e.0 ≡ is_there (view s name)) × (view e.1 ≡ view s)
  pub kstat_tells :
      (st : K.Kstat) (name : String) (is_link : Bool) (s : K.Machine)
      → Used K name
      → view s name ≡ some is_link
      → let k = kstat K st (path_of name) s in
        (k.0.0 ≡ pos 0)
        × (M.is_lnk k.0.1 ≡ is_link)
        × (M.is_reg k.0.1 ≡ not is_link)
        × (view k.1 ≡ view s)
  pub iterate_dir_lists :
      (s : K.Machine)
      → let o = K.filp_open dir (o_rdonly ∷ o_directory ∷ []) 0 s in
        (f : K.File) × (o.0 ≡ ptr f)
        × (let r = M.iterate_dir f o.1 in
            (r.0.0 ≡ pos 0)
            × ((name : String) (is_link : Bool)
                → Used K name
                → view s name ≡ some is_link
                → (listed (codes name) r.0.1 ≡ true) × (typed is_link (codes name) r.0.1 ≡ true))
            × (view (K.filp_close f r.1) ≡ view s))
  -- no two numbers are printed alike
  pub decimal-injective : (i j : ℕ) → K.decimal i ≡ K.decimal j → i ≡ j

or_false : (b : Bool) → b || false ≡ true → b ≡ true
or_false true h = refl
or_false false h = h

-- The actor finds a name that is listed, with a type that fits.
act_all-fits :
    (is_link : Bool) (want : List ℕ) (entries : List (List ℕ × ℕ)) (it : Search)
    → typed is_link want entries ≡ true
    → type_fits is_link it.type ≡ true
    → type_fits is_link (act_all want entries it).type ≡ true
unfolding act_all actor
act_all-fits is_link want [] it h fit = fit
act_all-fits is_link want ((name, type) ∷ entries) it h fit = elim (Bool-cases (same want name)) [
  | inl e ↦
      let h' = and_true (right_type is_link type) (typed is_link want entries) (rw e at h) in
      rw (act_all, actor, e)
        (act_all-fits is_link want entries (record { type = type; found = true }) h'.1
          (sym (right_type-fits is_link type) ∙ h'.0))
  | inr e ↦ rw (act_all, actor, e) (act_all-fits is_link want entries it (rw e at h) fit)
]

act_all-found :
    (want : List ℕ) (entries : List (List ℕ × ℕ)) (it : Search)
    → it.found || listed want entries ≡ true
    → (act_all want entries it).found ≡ true
unfolding act_all actor
act_all-found want [] it h = or_false it.found h
act_all-found want ((name, type) ∷ entries) it h = elim (Bool-cases (same want name)) [
  | inl e ↦
      rw (act_all, actor, e)
        (act_all-found want entries (record { type = type; found = true }) refl)
  | inr e ↦ rw (act_all, actor, e) (act_all-found want entries it (rw e at h))
]

mode_fits :
    (is_link lnk reg : Bool)
    → lnk ≡ is_link
    → reg ≡ not is_link
    → (if is_link then lnk else reg) ≡ true
mode_fits true lnk reg e e' = e
mode_fits false lnk reg e e' = e'

module _ {K : Kernel} {M : Modes K} {view : K.Machine → Entries} (L : HoldsEntries K M view) where
  abbrev pub Shows : Entries → K.Machine → Type 0
  Shows v s = view s ≡ v

  call_ok-Part :
      (m : State K.Machine ℤ) (v v' : Entries)
      → ((s : K.Machine) → view s ≡ v → ((m s).0 ≡ pos 0) × (view (m s).1 ≡ v'))
      → Part (Shows v) (Shows v') (call_ok K M m)
  call_ok-Part m v v' zero_returned = record {
    go = λ s n h. let z = zero_returned s h in rw (◌>>=◌, run, z.0) (refl, refl, z.1);
  }

  pub touch-Part :
      (name : String) (v : Entries)
      → Used K name
      → v name ≡ none
      → Part (Shows v) (Shows (put name false v)) (touch K M name)
  touch-Part name v used new = record {
    go = λ s n h.
        let w = L.write_new_file_adds name s used (ap (λ g. g name) h ∙ new) in
        rw (◌>>=◌, run, w.0) (refl, refl, w.1 ∙ ap (put name false) h);
  }

  pub link_name-Part :
      (name : String) (v : Entries)
      → Used K name
      → v name ≡ none
      → Part (Shows v) (Shows (put name true v)) (link_name K M name)
  link_name-Part name v used new =
      call_ok-Part (symlink K "foo" (path_of name)) v (put name true v) (λ s h.
        let y = L.symlink_adds name s used (ap (λ g. g name) h ∙ new) in
        (y.0, y.1 ∙ ap (put name true) h))

  pub rename_name-Part :
      (from to : String) (is_link : Bool) (v : Entries)
      → Used K from
      → Used K to
      → v from ≡ some is_link
      → Part (Shows v) (Shows (moved from to v)) (rename_name K M (from, to))
  rename_name-Part from to is_link v used used_to there =
      call_ok-Part (rename K (path_of from) (path_of to)) v (moved from to v) (λ s h.
        let r = L.rename_moves from to is_link s used used_to (ap (λ g. g from) h ∙ there) in
        (r.0, r.1 ∙ ap (moved from to) h))

  pub check_gone-Part :
      (name : String) (v : Entries)
      → Used K name
      → v name ≡ none
      → Part (Shows v) (Shows v) (check_gone K M name)
  check_gone-Part name v used gone = record {
    go = λ s n h.
        let e = L.exists_tells name s used in
        rw (◌>>=◌, run, e.0 ∙ ap is_there (ap (λ g. g name) h ∙ gone)) (refl, refl, e.1 ∙ h);
  }

  readdir_type-finds :
      (name : String) (is_link : Bool) (s : K.Machine)
      → Used K name
      → view s name ≡ some is_link
      → let r = readdir_type K M dir name s in
        (r.0.0 ≡ pos 0)
        × (r.0.1.found ≡ true)
        × (type_fits is_link r.0.1.type ≡ true)
        × (view r.1 ≡ view s)
  unfolding readdir_type
  readdir_type-finds name is_link s used there =
      let o = L.iterate_dir_lists s in
      let start : Search = record { type = dt_unknown; found = false } in
      let entries = (M.iterate_dir o.0 (K.filp_open dir (o_rdonly ∷ o_directory ∷ []) 0 s).1).0.1 in
      let l = o.2.1 name is_link used there in
      rw (readdir_type, o.1)
        (
          o.2.0,
          act_all-found (codes name) entries start l.0,
          act_all-fits is_link (codes name) entries start l.1 refl,
          o.2.2,
        )

  abbrev listing : Target → Case K.Machine (Unit {0})
  listing t = run (readdir_type K M dir t.name) >>= (λ y.
      assert (not (nonzero y.0)) >> (expect y.1.found >> expect (type_fits t.is_link y.1.type)))

  listing-Fine :
      (t : Target) (v : Entries)
      → Used K t.name
      → v t.name ≡ some t.is_link
      → Leads (Shows v) (Shows v) (listing t)
  listing-Fine t v used there s n h =
      let r = readdir_type-finds t.name t.is_link s used (ap (λ g. g t.name) h ∙ there) in
      let s1 = (readdir_type K M dir t.name s).1 in
      let it = (readdir_type K M dir t.name s).0.1 in
      Fine-run (Shows v) (readdir_type K M dir t.name) (λ y. not (nonzero y.0))
        (λ y. expect y.1.found >> expect (type_fits t.is_link y.1.type)) s n
        (ap (λ e. not (nonzero e)) r.0)
        (Fine-then (Shows v) (Shows v) (expect it.found) (expect (type_fits t.is_link it.type)) s1 n
          (expect-Fine (Shows v) it.found s1 n r.1 (r.3 ∙ h))
          (λ s' h'. expect-Fine (Shows v) (type_fits t.is_link it.type) s' n r.2 h'))

  -- The mode, the listing and the type of a name that is there.
  pub check_target-Part :
      (st : K.Kstat) (t : Target) (v : Entries)
      → Used K t.name
      → v t.name ≡ some t.is_link
      → Part (Shows v) (Shows v) (check_target K M st t)
  unfolding check_target
  check_target-Part st t v used there = record {
    go = λ s n h.
        let k = L.kstat_tells st t.name t.is_link s used (ap (λ g. g t.name) h ∙ there) in
        let s1 = (kstat K st (path_of t.name) s).1 in
        let st' = (kstat K st (path_of t.name) s).0.1 in
        let h1 : view s1 ≡ v = k.3 ∙ h in
        let mode : (if t.is_link then M.is_lnk st' else M.is_reg st') ≡ true =
          mode_fits t.is_link (M.is_lnk st') (M.is_reg st') k.1 k.2 in
        Fine-run (Shows v) (kstat K st (path_of t.name)) (λ x. not (nonzero x.0))
          (λ x. expect (if t.is_link then M.is_lnk x.1 else M.is_reg x.1) >> listing t) s n
          (ap (λ e. not (nonzero e)) k.0)
          (Fine-then (Shows v) (Shows v) (expect (if t.is_link then M.is_lnk st' else M.is_reg st'))
            (listing t) s1 n (expect-Fine (Shows v) _ s1 n mode h1)
            (λ s' h'. listing-Fine t v used there s' n h'));
  }
