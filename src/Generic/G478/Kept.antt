-- ===== src/Generic/G478/Kept.antt =====
-- What a line of the table of generic/478 finds on a file system that keeps locks by the rules.
use nfsplayground.Base.{
  ℕ, suc, ℤ, State, Bool, true, false, Option, none, some, List, [], ◌∷◌, pos, ◌≡◌, ◌≢◌, refl, sym,
  ap, subst, ◌∙◌, inl, inr, if◌then◌else◌, arith, Bool-cases,
}
use nfsplayground.Kernel.{Kernel}
use nfsplayground.Settle.{settle_fput}
use nfsplayground.Kunit.{◌>>=◌, run, expect}
use nfsplayground.Generic.G478.{
  file, setter_files, getter_files, other_type, unlck, LockType, same_type, LockCase, want_of,
  Variant, Owner, of_files, of_file, Request, LockCalls, request, lock, flags, close_variant,
  close_setter,
}
use nfsplayground.Generic.G478.One.{ask, getter, setter, one}
use nfsplayground.Generic.G478.Rules.{
  Found, clash, drop_files, drop_closed, survives, expected, KeepsLocks,
}
use nfsplayground.Generic.G478.Closes.{
  lock-set, lock-tested, last-flushed, last-keeps, setters-dropped, close_variant-Held,
}

-- Whether a lock outlives, as a list.
abbrev one_if : {A : Type 0} → Bool → A → List A
one_if b a = if b then a ∷ [] else []

files≢file : {File : Type 0} {f : File} → of_files setter_files ≢ of_file f
files≢file e = cc

file≢files : {File : Type 0} {f : File} → of_file f ≢ of_files getter_files
file≢files e = cc

setter≢getter :
    {File : Type 0} (o : Owner File) → o ≡ of_files setter_files → o ≢ of_files getter_files
setter≢getter o e k = cc

file_inj : {File : Type 0} {f g : File} → of_file f ≡ of_file g → f ≡ g
file_inj e = cc

-- One lock of another owner.
found-one :
    {File : Type 0} (h r : Request File) (t : LockType)
    → h.flc_owner ≢ r.flc_owner
    → Found r (h ∷ []) t
    → t ≡ (if clash h r then h.flc_type else unlck)
found-one h r t ne (inl ((o, meet), e)) = rw meet e
found-one h r t ne (inr (free, e)) = elim (Bool-cases (clash h r)) [
  | inl meet ↦ absurd (free (ne, meet))
  | inr apart ↦ rw apart e
]

module _ {K : Kernel} {C : LockCalls K} {held : K.Machine → List (Request K.File)}
    {refs : K.Machine → K.File → ℕ} {there : K.Machine → Bool} (L : KeepsLocks K C held refs there)
    (c : LockCase) where
  -- The two requests of a line.
  abbrev first : K.File → Request K.File
  first sf = request K C sf false c.s_posix c.s_type c.s_start c.s_len setter_files

  abbrev second : K.File → Request K.File
  second gf = request K C gf true c.g_posix c.g_type c.g_start c.g_len getter_files

  owners_differ :
      (sf gf : K.File) (posix posix' : Bool)
      → gf ≢ sf
      → (if posix then of_files setter_files else of_file sf)
        ≢ (if posix' then of_files getter_files else of_file gf)
  owners_differ sf gf true true ne = setter≢getter (of_files setter_files) refl
  owners_differ sf gf true false ne = files≢file
  owners_differ sf gf false true ne = file≢files
  owners_differ sf gf false false ne = λ e. ne (sym (file_inj e))

  -- What the test finds of the setter's lock.
  found :
      (sf gf : K.File) (v : Variant) (t : LockType)
      → gf ≢ sf
      → Found (second gf) (one_if (survives c.s_posix v) (first sf)) t
      → t ≡ expected c v
  unfolding expected
  found sf gf v t ne h = elim (Bool-cases (survives c.s_posix v)) [
    | inl kept ↦ rw kept (
        found-one (first sf) (second gf) t (owners_differ sf gf c.s_posix c.g_posix ne)
          (subst (λ b. Found (second gf) (one_if b (first sf)) t) kept h))
    | inr gone ↦ rw gone (subst (λ b. Found (second gf) (one_if b (first sf)) t) gone h)
  ]

  abbrev asked : K.File → State K.Machine (ℤ × LockType)
  asked gf = lock K C gf true c.g_posix c.g_type c.g_start c.g_len getter_files (other_type 0xff)

  -- The test, once it is answered.
  ask-run :
      (v : Variant) (sf' : Option K.File) (gf : K.File) (s : K.Machine) (n : ℕ)
      → let l = asked gf s in
        l.0.0 ≡ pos 0
        → ask K C c v sf' gf s n
          ≡ expect
              (same_type l.0.1 (want_of c v))
              (K.flush_delayed_fput (close_setter K C sf' (C.close_as gf getter_files l.1)))
              n
  unfolding ask settle_fput
  ask-run v sf' gf s n e = rw e refl

  -- The result of a line: it goes through, a failure is counted unless the line wants what the rules
  -- say, and no lock is left.
  abbrev Outcome : Variant → ℕ → Option (Unit {0}) × K.Machine × ℕ → Type 0
  Outcome v n r =
      (r.0 ≡ some tt)
      × (r.2 ≡ (if same_type (expected c v) (want_of c v) then n else suc n))
      × (held r.1 ≡ [])
      × (there r.1 ≡ true)

  expect-Outcome :
      (v : Variant) (t : LockType) (s : K.Machine) (n : ℕ)
      → t ≡ expected c v
      → held s ≡ []
      → there s ≡ true
      → Outcome v n (expect (same_type t (want_of c v)) s n)
  expect-Outcome v t s n e none_held h =
      elim (Bool-cases (same_type (expected c v) (want_of c v))) [
        | inl as_wanted ↦ rw (e, as_wanted) (refl, refl, none_held, h)
        | inr other ↦ rw (e, other) (refl, refl, none_held, h)
      ]

  list_kept :
      (b : Bool) (sf : K.File) (R : K.File → ℕ)
      → R sf ≡ 1
      → (drop_files getter_files (one_if b (first sf)) ≡ one_if b (first sf))
        × (drop_closed R (one_if b (first sf)) ≡ one_if b (first sf))
  list_kept false sf R e = (refl, refl)
  list_kept true sf R e = elim (Bool-cases c.s_posix) [
    | inl posix ↦ rw (drop_files, drop_closed, posix) (refl, refl)
    | inr ofd ↦ rw (drop_files, drop_closed, ofd, e) (refl, refl)
  ]

  list_dropped :
      (b : Bool) (sf : K.File) (R : K.File → ℕ)
      → R sf ≡ 0
      → drop_closed R (drop_files setter_files (one_if b (first sf))) ≡ []
  list_dropped false sf R e = refl
  list_dropped true sf R e = setters-dropped L sf (first sf) c.s_posix refl R e

  -- The getter's part, with the setter's file still open,
  getter-open :
      (v : Variant) (sf : K.File) (s : K.Machine) (n : ℕ)
      → there s ≡ true
      → refs s sf ≡ 1
      → held s ≡ one_if (survives c.s_posix v) (first sf)
      → Outcome v n (getter K C c v (some sf) s n)
  unfolding getter
  getter-open v sf s n h counted e =
      let b = survives c.s_posix v in
      let o = L.open_file c.g_rdonly s h in
      let gf = o.0 in
      let s1 = (K.filp_open file (flags c.g_rdonly) 0 s).1 in
      let ne : gf ≢ sf = λ same. omega (arith, ap (refs s) same, o.2, counted) in
      let l =
        lock-tested L gf c.g_posix c.g_type c.g_start c.g_len getter_files (other_type 0xff) s1
          o.6 in
      let s2 = (asked gf s1).1 in
      let e1 : held s1 ≡ one_if b (first sf) = o.5 ∙ e in
      let e2 : held s2 ≡ one_if b (first sf) = l.2 ∙ e1 in
      let open2 : refs s2 sf ≡ 1 = ap (λ R. R sf) l.3 ∙ o.4 sf (λ same. ne (sym same)) ∙ counted in
      let k =
        last-keeps L gf getter_files s2 l.4 (ap (λ R. R gf) l.3 ∙ o.3)
          (ap (drop_files getter_files) e2 ∙ (list_kept b sf (refs s2) open2).0 ∙ sym e2)
          (λ R kept.
            ap (drop_closed R) e2
            ∙ (list_kept b sf R (kept sf (λ same. ne (sym same)) ∙ open2)).1
            ∙ sym e2) in
      let s3 = C.close_as gf getter_files s2 in
      let f = last-flushed L sf setter_files s3 k.2 (k.1 sf (λ same. ne (sym same)) ∙ open2) (λ R z.
        ap (λ hs. drop_closed R (drop_files setter_files hs)) (k.0 ∙ e2) ∙ list_dropped b sf R z) in
      rw o.1 (
        rw (ask-run v (some sf) gf s1 n l.0) (
          expect-Outcome v _ _ n
            (found sf gf v _ ne (subst (λ hs. Found (second gf) hs (asked gf s1).0.1) e1 l.1)) f.0
            f.1))

  -- and with it closed, where the lock is gone.
  getter-closed :
      (v : Variant) (s : K.Machine) (n : ℕ)
      → there s ≡ true
      → survives c.s_posix v ≡ false
      → held s ≡ []
      → Outcome v n (getter K C c v none s n)
  unfolding getter expected
  getter-closed v s n h gone e =
      let o = L.open_file c.g_rdonly s h in
      let gf = o.0 in
      let s1 = (K.filp_open file (flags c.g_rdonly) 0 s).1 in
      let l =
        lock-tested L gf c.g_posix c.g_type c.g_start c.g_len getter_files (other_type 0xff) s1
          o.6 in
      let s2 = (asked gf s1).1 in
      let e1 : held s1 ≡ [] = o.5 ∙ e in
      let f =
        last-flushed L gf getter_files s2 l.4 (ap (λ R. R gf) l.3 ∙ o.3)
          (λ R z. ap (λ hs. drop_closed R (drop_files getter_files hs)) (l.2 ∙ e1)) in
      rw o.1 (
        rw (ask-run v none gf s1 n l.0) (
          expect-Outcome v _ _ n
            (rw gone (subst (λ hs. Found (second gf) hs (asked gf s1).0.1) e1 l.1)) f.0 f.1))

  abbrev taken : K.File → State K.Machine (ℤ × LockType)
  taken sf = lock K C sf false c.s_posix c.s_type c.s_start c.s_len setter_files (other_type 0xff)

  -- The variant, once the lock is taken.
  setter-run :
      (v : Variant) (sf : K.File) (s : K.Machine) (n : ℕ)
      → (taken sf s).0.0 ≡ pos 0
      → let k = close_variant K C v sf (taken sf s).1 in
        setter K C c v sf s n ≡ getter K C c v k.0 k.1 n
  unfolding setter
  setter-run v sf s n e = rw (◌>>=◌, run, e) refl

  setter-Outcome :
      (v : Variant) (sf : K.File) (s : K.Machine) (n : ℕ)
      → there s ≡ true
      → refs s sf ≡ 1
      → held s ≡ []
      → Outcome v n (setter K C c v sf s n)
  setter-Outcome v sf s n h counted e =
      let l =
        lock-set L sf c.s_posix c.s_type c.s_start c.s_len setter_files (other_type 0xff) s h e in
      let s1 = (taken sf s).1 in
      let k =
        close_variant-Held L sf (first sf) c.s_posix v s1 refl l.3 (ap (λ R. R sf) l.2 ∙ counted)
          l.1 in
      let s2 = (close_variant K C v sf s1).1 in
      rw (setter-run v sf s n l.0) (elim k.0 [
        | inl (some_file, counted', e') ↦ rw some_file (getter-open v sf s2 n k.1 counted' e')
        | inr (no_file, gone, e') ↦ rw no_file (getter-closed v s2 n k.1 gone e')
      ])

  -- A line goes through in each variant and leaves no lock, and a failure is counted exactly if it wants
  -- another result than the rules give.
  pub one-Outcome :
      (v : Variant) (s : K.Machine) (n : ℕ)
      → there s ≡ true
      → held s ≡ []
      → Outcome v n (one K C c v s n)
  unfolding one
  one-Outcome v s n h e =
      let o = L.open_file c.s_rdonly s h in
      rw o.1 (setter-Outcome v o.0 (K.filp_open file (flags c.s_rdonly) 0 s).1 n o.6 o.3 (o.5 ∙ e))
