-- ===== src/Generic/Steps/Whole.antt =====
-- A whole case: the mount is there, its directory can be made, and what it does passes.
use nfsplayground.Base.{ℕ, String, true, some, pos, ◌≡◌, refl, sym, subst, ap, ◌∙◌, ℤ, State}
use nfsplayground.Kernel.{Kernel}
use nfsplayground.Fixture.{Fixture}
use nfsplayground.Paths.{mkdir}
use nfsplayground.Lifecycle.{is_mounted}
use nfsplayground.Kunit.{Case, ◌>>=◌, ◌>>◌, run, assert, went}
use nfsplayground.Generic.Steps.{in_root, on_machine, ok, mounted, with_cleanup}

-- The case went through to its end, and counted no failure.
abbrev pub Passes : {S : Type 0} → Case S (Unit {0}) → S → ℕ → Type 0
Passes m s n = ((m s n).0 ≡ some tt) × ((m s n).2 ≡ n)

-- A directory can be made, and memory for the clean-up is granted.
pub record Prepares (K : Kernel) (root : String) : Type 0 where
  pub mkdir_made : (s : K.Machine) → (mkdir K root s).0 ≡ pos 0
  pub kmalloc_granted : (s : K.Machine) → (K.kmalloc s).0 ≡ true

ok-went :
    (K : Kernel) (m : State K.Machine ℤ) (w : Fixture K) (n : ℕ)
    → (m w.machine).0 ≡ pos 0
    → ok K m w n ≡ (some tt, record w { machine = (m w.machine).1 }, n)
ok-went K m w n e = rw (◌>>=◌, run, e) refl

with_cleanup-Passes :
    (K : Kernel) (action : K.Machine → K.Machine) (body : Case (Fixture K) (Unit {0}))
    (w : Fixture K) (n : ℕ)
    → (K.kmalloc w.machine).0 ≡ true
    → Passes body (record w { machine = (K.kmalloc w.machine).1 }) n
    → Passes (with_cleanup K action body) w n
with_cleanup-Passes K action body w n granted passes = rw (◌>>=◌, run, granted) passes

pub in_root-Passes :
    {K : Kernel} {root : String}
    → Prepares K root
    → (action : K.Machine → K.Machine) (body : Case K.Machine (Unit {0}))
    → ((s : K.Machine) (n : ℕ) → Passes body s n)
    → (w : Fixture K) (n : ℕ) → is_mounted K w ≡ true
    → Passes (in_root K root action (on_machine K body)) w n
in_root-Passes {K} {root} P action body passes w n there =
    let s1 = (mkdir K root w.machine).1 in
    let whole = with_cleanup K action (on_machine K body) in
    let first : mounted K w n ≡ (some tt, w, n) = ap (λ b. assert b w n) there in
    let second = ok-went K (mkdir K root) w n (P.mkdir_made w.machine) in
    let e =
      went (mounted K) (ok K (mkdir K root) >> whole) w w n n first
      ∙ went (ok K (mkdir K root)) whole w (record w { machine = s1 }) n n second in
    let rest =
      with_cleanup-Passes K action (on_machine K body) (record w { machine = s1 }) n
        (P.kmalloc_granted s1) (passes (K.kmalloc s1).1 n) in
    subst (λ r. (r.0 ≡ some tt) × (r.2 ≡ n)) (sym e) rest
