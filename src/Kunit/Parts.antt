-- ===== src/Kunit/Parts.antt =====
-- Parts of a KUnit case, by what they lead from and to, and their sequence.
use nfsplayground.Kunit.{Case, ◌>>◌, Leads, Leads-then}

-- A part of a case that leads from one kind of state to another, and one such part after another.
pub record Part {S : Type 0} (I J : S → Type 0) (m : Case S (Unit {0})) : Type 0 where
  pub go : Leads I J m

infixr 4 ◌⨟◌
pub ◌⨟◌ :
    {S : Type 0} {I J L : S → Type 0} {m k : Case S (Unit {0})}
    → Part I J m
    → Part J L k
    → Part I L (m >> k)
◌⨟◌ {S} {I} {J} {L} {m} {k} first next = record { go = Leads-then I J L m k first.go next.go }
