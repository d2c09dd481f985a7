-- ===== src/Generic/G478/Lines.antt =====
-- The whole table of generic/478, on a file system that keeps locks by the rules.
use nfsplayground.Base.{ℕ, Bool, true, some, List, [], ◌≡◌, refl}
use nfsplayground.Kernel.{Kernel}
use nfsplayground.Kunit.{Fine, all_b, each, each-Fine}
use nfsplayground.Generic.G478.{same_type, want_of, Variant, table, LockCase, Request, LockCalls}
use nfsplayground.Generic.G478.One.{one, every_line, variants}
use nfsplayground.Generic.G478.Rules.{survives, expected, KeepsLocks}
use nfsplayground.Generic.G478.Kept.{one-Outcome}

-- Whether a line wants what the rules give, in one variant and in all.
abbrev by_rules : LockCase → Variant → Bool
by_rules c v = same_type (expected c v) (want_of c v)

table-by_rules : all_b (λ c. all_b (by_rules c) variants) table ≡ true
unfolding same_type want_of expected survives
table-by_rules = refl

module _ {K : Kernel} {C : LockCalls K} {held : K.Machine → List (Request K.File)}
    {refs : K.Machine → K.File → ℕ} {there : K.Machine → Bool}
    (L : KeepsLocks K C held refs there) where
  abbrev NoLocks : K.Machine → Type 0
  NoLocks s = (there s ≡ true) × (held s ≡ [])

  one-Fine :
      (c : LockCase) (v : Variant) (s : K.Machine) (n : ℕ)
      → by_rules c v ≡ true
      → NoLocks s
      → Fine NoLocks n (one K C c v s n)
  one-Fine c v s n wanted no_locks =
      let o = one-Outcome L c v s n no_locks.0 no_locks.1 in (o.0, rw wanted at o.1, (o.3, o.2))

  -- On a file system that keeps locks by the rules, where the file is there with no lock on it, the
  -- whole table of generic/478 goes through, no line in no variant finds another type than it wants,
  -- and no lock is left on the file.
  pub every_line-Fine :
      (s : K.Machine) (n : ℕ)
      → there s ≡ true
      → held s ≡ []
      → let r = every_line K C s n in (r.0 ≡ some tt) × (r.2 ≡ n) × (held r.1 ≡ [])
  unfolding every_line
  every_line-Fine s n h e =
      let lines =
        each-Fine NoLocks (λ c. all_b (by_rules c) variants) (λ c. each variants (one K C c))
          (λ c s n ok no_locks.
            each-Fine NoLocks (by_rules c) (one K C c) (one-Fine c) variants s n ok no_locks)
          table s n table-by_rules (h, e) in
      (lines.0, lines.1, lines.2.1)
