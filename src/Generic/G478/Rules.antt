-- ===== src/Generic/G478/Rules.antt =====
-- The rules of fcntl(2) about locks, for generic/478: when a lock is in the way of another, what a
-- test finds, what releases a lock, and what the kernel documents of its calls.
use nfsplayground.Base.{
  ℕ, suc, ◌+◌, ◌-◌, Bool, true, false, not, ◌&&◌, ◌||◌, List, [], ◌∷◌, pos, ◌==◌, leb, ◌≡◌, ◌≢◌,
  ◌⊎◌, if◌then◌else◌,
}
use nfsplayground.Kernel.{Kernel, ptr}
use nfsplayground.Generic.G478.{
  file, Files, setter_files, child_files, getter_files, LockType, wrlck, unlck, same_type, Owner,
  of_files, of_file, Request, LockCase, Variant, plain, clone_files, dup, LockCalls, flags,
}

-- Ranges that meet, and a write lock on one side at least.
abbrev pub overlap : (start end start' end' : ℕ) → Bool
overlap start end start' end' = leb start end' && leb start' end

abbrev pub clash : {File : Type 0} → Request File → Request File → Bool
clash h r =
    overlap h.fl_start h.fl_end r.fl_start r.fl_end
    && (same_type h.flc_type wrlck || same_type r.flc_type wrlck)

-- A lock that is held is in the way of one of another owner.
abbrev pub Blocks : {File : Type 0} → Request File → Request File → Type 0
Blocks h r = (h.flc_owner ≢ r.flc_owner) × (clash h r ≡ true)

-- The type that a test returns: that of the first lock in the way.
abbrev pub Found : {File : Type 0} → Request File → List (Request File) → LockType → Type 0
Found r [] t = t ≡ unlck
Found r (h ∷ hs) t = (Blocks h r × (t ≡ h.flc_type)) ⊎ ((¬ Blocks h r) × Found r hs t)

abbrev pub same_files : Files → Files → Bool
same_files setter_files setter_files = true
same_files child_files child_files = true
same_files getter_files getter_files = true
same_files _ _ = false

abbrev pub owned_by : {File : Type 0} → Files → Owner File → Bool
owned_by files (of_files files') = same_files files files'
owned_by files (of_file f) = false

-- A close releases the locks of the table whose descriptor is closed,
abbrev pub drop_files : {File : Type 0} → Files → List (Request File) → List (Request File)
drop_files files [] = []
drop_files files (h ∷ hs) =
    let rest = drop_files files hs in if owned_by files h.flc_owner then rest else h ∷ rest

abbrev pub is_closed : {File : Type 0} → (File → ℕ) → Owner File → Bool
is_closed refs (of_files files) = false
is_closed refs (of_file f) = refs f == 0

-- and the end of an open file those of that file.
abbrev pub drop_closed : {File : Type 0} → (File → ℕ) → List (Request File) → List (Request File)
drop_closed refs [] = []
drop_closed refs (h ∷ hs) =
    let rest = drop_closed refs hs in if is_closed refs h.flc_owner then rest else h ∷ rest

-- Whether the setter's lock outlives what a variant closes.
unfoldable pub survives : Bool → Variant → Bool
survives posix plain = true
survives posix clone_files = false
survives posix dup = not posix

-- What the getter is to find, by these rules.
unfoldable pub expected : LockCase → Variant → LockType
expected c v =
    if survives c.s_posix v
      && (overlap c.s_start (c.s_start + c.s_len - 1) c.g_start (c.g_start + c.g_len - 1)
          && (same_type c.s_type wrlck || same_type c.g_type wrlck))
    then c.s_type
    else unlck

-- What the kernel documents of its calls on the case's file, where `held` gives the locks on it, `refs`
-- the references to an open file, and `there` says whether the file is there. The end of a file whose
-- last reference is gone may come at once or, at the latest, with the next flush.
pub record KeepsLocks (K : Kernel) (C : LockCalls K) (held : K.Machine → List (Request K.File))
    (refs : K.Machine → K.File → ℕ) (there : K.Machine → Bool) : Type 0 where
  pub alloc_lock :
      (s : K.Machine)
      → there s ≡ true
      → let a = K.locks_alloc_lock s in
        (a.0 ≡ true) × (held a.1 ≡ held s) × (refs a.1 ≡ refs s) × (there a.1 ≡ true)
  pub free_lock :
      (s : K.Machine)
      → there s ≡ true
      → let s' = K.locks_free_lock s in (held s' ≡ held s) × (refs s' ≡ refs s) × (there s' ≡ true)
  pub open_file :
      (rdonly : Bool) (s : K.Machine)
      → there s ≡ true
      → let o = K.filp_open file (flags rdonly) 0 s in
        (f : K.File) × (o.0 ≡ ptr f)
        × (refs s f ≡ 0)
        × (refs o.1 f ≡ 1)
        × ((g : K.File) → g ≢ f → refs o.1 g ≡ refs s g)
        × (held o.1 ≡ held s)
        × (there o.1 ≡ true)
  pub set_first :
      (f : K.File) (r : Request K.File) (s : K.Machine)
      → there s ≡ true
      → held s ≡ []
      → let l = C.vfs_set_lock f r s in
        (l.0 ≡ pos 0) × (held l.1 ≡ r ∷ []) × (refs l.1 ≡ refs s) × (there l.1 ≡ true)
  pub test_finds :
      (f : K.File) (r : Request K.File) (s : K.Machine)
      → there s ≡ true
      → let t = C.vfs_test_lock f r s in
        (t.0.0 ≡ pos 0)
        × Found r (held s) t.0.1
        × (held t.1 ≡ held s)
        × (refs t.1 ≡ refs s)
        × (there t.1 ≡ true)
  pub get_counts :
      (f : K.File) (s : K.Machine) (n : ℕ)
      → there s ≡ true
      → refs s f ≡ suc n
      → let s' = C.get_file f s in
        (held s' ≡ held s)
        × (refs s' f ≡ suc (suc n))
        × ((g : K.File) → g ≢ f → refs s' g ≡ refs s g)
        × (there s' ≡ true)
  pub close_shared :
      (f : K.File) (files : Files) (s : K.Machine) (n : ℕ)
      → there s ≡ true
      → refs s f ≡ suc (suc n)
      → let s' = C.close_as f files s in
        (held s' ≡ drop_files files (held s))
        × (refs s' f ≡ suc n)
        × ((g : K.File) → g ≢ f → refs s' g ≡ refs s g)
        × (there s' ≡ true)
  pub close_last :
      (f : K.File) (files : Files) (s : K.Machine)
      → there s ≡ true
      → refs s f ≡ 1
      → let s' = C.close_as f files s in
        ((held s' ≡ drop_files files (held s))
          ⊎ (held s' ≡ drop_closed (refs s') (drop_files files (held s))))
        × (refs s' f ≡ 0)
        × ((g : K.File) → g ≢ f → refs s' g ≡ refs s g)
        × (there s' ≡ true)
  pub flush_ends :
      (s : K.Machine)
      → there s ≡ true
      → let s' = K.flush_delayed_fput s in
        (held s' ≡ drop_closed (refs s) (held s)) × (refs s' ≡ refs s) × (there s' ≡ true)
