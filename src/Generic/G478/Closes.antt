-- ===== src/Generic/G478/Closes.antt =====
-- Setting, testing and closing, on a file system that keeps locks by the rules.
use nfsplayground.Base.{
  ℕ, Bool, true, false, not, none, some, List, [], ◌∷◌, pos, ◌≡◌, ◌≢◌, refl, ap, ◌∙◌, subst, ◌⊎◌,
  inl, inr, if◌then◌else◌,
}
use nfsplayground.Kernel.{Kernel}
use nfsplayground.Settle.{settle_fput}
use nfsplayground.Generic.G478.{
  Files, setter_files, child_files, LockType, of_files, of_file, Request, Variant, plain,
  clone_files, dup, LockCalls, request, lock, close_variant,
}
use nfsplayground.Generic.G478.Rules.{Found, drop_files, drop_closed, survives, KeepsLocks}

module _ {K : Kernel} {C : LockCalls K} {held : K.Machine → List (Request K.File)}
    {refs : K.Machine → K.File → ℕ} {there : K.Machine → Bool}
    (L : KeepsLocks K C held refs there) where
  module _ (f : K.File) (posix : Bool) (type : LockType) (start len : ℕ) (files : Files)
      (got : LockType) (s : K.Machine) where
    pub lock-set :
        there s ≡ true
        → held s ≡ []
        → let l = lock K C f false posix type start len files got s in
          (l.0.0 ≡ pos 0)
          × (held l.1 ≡ request K C f false posix type start len files ∷ [])
          × (refs l.1 ≡ refs s)
          × (there l.1 ≡ true)
    unfolding lock
    lock-set h e =
        let a = L.alloc_lock s h in
        let l =
          L.set_first f (request K C f false posix type start len files) (K.locks_alloc_lock s).1
            a.3 (a.1 ∙ e) in
        let u = L.free_lock _ l.3 in rw a.0 (l.0, u.0 ∙ l.1, u.1 ∙ l.2 ∙ a.2, u.2)

    pub lock-tested :
        there s ≡ true
        → let l = lock K C f true posix type start len files got s in
          (l.0.0 ≡ pos 0)
          × Found (request K C f true posix type start len files) (held s) l.0.1
          × (held l.1 ≡ held s)
          × (refs l.1 ≡ refs s)
          × (there l.1 ≡ true)
    unfolding lock
    lock-tested h =
        let a = L.alloc_lock s h in
        let t =
          L.test_finds f (request K C f true posix type start len files) (K.locks_alloc_lock s).1
            a.3 in
        let u = L.free_lock _ t.4 in
        rw a.0 (
          t.0,
          subst
              (λ hs.
                Found (request K C f true posix type start len files) hs
                  (C.vfs_test_lock f (request K C f true posix type start len files)
                    (K.locks_alloc_lock s).1).0.1)
              a.1 t.1,
          u.0 ∙ t.2 ∙ a.1,
          u.1 ∙ t.3 ∙ a.2,
          u.2,
        )

  -- A second reference is taken and closed.
  shared-closed :
      (f : K.File) (files : Files) (s : K.Machine)
      → there s ≡ true
      → refs s f ≡ 1
      → let s' = C.close_as f files (C.get_file f s) in
        (held s' ≡ drop_files files (held s)) × (refs s' f ≡ 1) × (there s' ≡ true)
  shared-closed f files s h one =
      let g = L.get_counts f s 0 h one in
      let c = L.close_shared f files (C.get_file f s) 0 g.3 g.1 in
      (c.0 ∙ ap (drop_files files) g.0, c.1, c.3)

  -- The last reference is closed: no lock is left after the flush, if none outlives it by the rules;
  pub last-flushed :
      (f : K.File) (files : Files) (s : K.Machine)
      → there s ≡ true
      → refs s f ≡ 1
      → ((R : K.File → ℕ) → R f ≡ 0 → drop_closed R (drop_files files (held s)) ≡ [])
      → let s' = K.flush_delayed_fput (C.close_as f files s) in (held s' ≡ []) × (there s' ≡ true)
  last-flushed f files s h one none_left =
      let c = L.close_last f files s h one in
      let e = L.flush_ends (C.close_as f files s) c.3 in
      let nothing = none_left (refs (C.close_as f files s)) c.1 in
      (
        elim c.0 [
          | inl kept ↦ e.0 ∙ ap (drop_closed (refs (C.close_as f files s))) kept ∙ nothing
          | inr gone ↦
              e.0
              ∙ ap (drop_closed (refs (C.close_as f files s))) gone
              ∙ ap (drop_closed (refs (C.close_as f files s))) nothing
        ],
        e.2,
      )

  -- and locks that outlive it by the rules are kept.
  pub last-keeps :
      (f : K.File) (files : Files) (s : K.Machine)
      → there s ≡ true
      → refs s f ≡ 1
      → drop_files files (held s) ≡ held s
      → ((R : K.File → ℕ)
          → ((g : K.File) → g ≢ f → R g ≡ refs s g)
          → drop_closed R (held s) ≡ held s)
      → let s' = C.close_as f files s in
        (held s' ≡ held s) × ((g : K.File) → g ≢ f → refs s' g ≡ refs s g) × (there s' ≡ true)
  last-keeps f files s h one others open_still =
      let c = L.close_last f files s h one in
      (
        elim c.0 [
          | inl kept ↦ kept ∙ others
          | inr gone ↦
              gone
              ∙ ap (drop_closed (refs (C.close_as f files s))) others
              ∙ open_still (refs (C.close_as f files s)) c.2
        ],
        c.2,
        c.3,
      )

  -- A lock of the setter's.
  abbrev pub IsSetters : Bool → K.File → Request K.File → Type 0
  IsSetters posix sf r = r.flc_owner ≡ (if posix then of_files setter_files else of_file sf)

  module _ (sf : K.File) (r : Request K.File) where
    pub setters-dropped :
        (posix : Bool)
        → IsSetters posix sf r
        → (R : K.File → ℕ) → R sf ≡ 0
        → drop_closed R (drop_files setter_files (r ∷ [])) ≡ []
    setters-dropped true o R e = rw (drop_files, o) refl
    setters-dropped false o R e = rw (drop_files, o, drop_closed, e) refl

    others_kept : (posix : Bool) → IsSetters posix sf r → drop_files child_files (r ∷ []) ≡ r ∷ []
    others_kept true o = rw (drop_files, o) refl
    others_kept false o = rw (drop_files, o) refl

    own_dropped :
        (posix : Bool)
        → IsSetters posix sf r
        → drop_files setter_files (r ∷ []) ≡ (if not posix then r ∷ [] else [])
    own_dropped true o = rw (drop_files, o) refl
    own_dropped false o = rw (drop_files, o) refl

    pub last-releases :
        (posix : Bool) (s : K.Machine)
        → IsSetters posix sf r
        → there s ≡ true
        → refs s sf ≡ 1
        → held s ≡ r ∷ []
        → let s' = K.flush_delayed_fput (C.close_as sf setter_files s) in
          (held s' ≡ []) × (there s' ≡ true)
    last-releases posix s o h one e =
        last-flushed sf setter_files s h one (λ R z. rw e (setters-dropped posix o R z))

    -- What a variant closes leaves the lock, or does not, and the setter's file, or none.
    pub close_variant-Held :
        (posix : Bool) (v : Variant) (s : K.Machine)
        → IsSetters posix sf r
        → there s ≡ true
        → refs s sf ≡ 1
        → held s ≡ r ∷ []
        → let c = close_variant K C v sf s in
          (((c.0 ≡ some sf)
              × (refs c.1 sf ≡ 1)
              × (held c.1 ≡ (if survives posix v then r ∷ [] else [])))
            ⊎ ((c.0 ≡ none) × (survives posix v ≡ false) × (held c.1 ≡ [])))
          × (there c.1 ≡ true)
    unfolding close_variant settle_fput survives
    close_variant-Held posix plain s o h one e =
        let c = shared-closed sf child_files s h one in
        (inl (refl, c.1, c.0 ∙ ap (drop_files child_files) e ∙ others_kept posix o), c.2)
    close_variant-Held posix clone_files s o h one e =
        let l = last-releases posix s o h one e in (inr (refl, refl, l.0), l.1)
    close_variant-Held posix dup s o h one e =
        let c = shared-closed sf setter_files s h one in
        (inl (refl, c.1, c.0 ∙ ap (drop_files setter_files) e ∙ own_dropped posix o), c.2)
